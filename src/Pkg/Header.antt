-- ===== src/Pkg/Header.antt =====
-- class CPkgHdr of libsmart_net/src/smart_net/pkg.h, as the 16 bytes that it takes: m_uiLen and m_usOpcode
-- in the network's order, two bytes of padding, m_uiTag in the order of the host, which is little-endian,
-- m_bType, m_bVer, and two bytes of padding.
use smart_net.Base.{ℕ, zero, suc, ◌+◌, ◌*◌, ◌/◌, ◌%◌, ◌^◌, ◌<◌, List, [], ◌∷◌, ◌≡◌, refl, arith}

abbrev pub hdr_size : ℕ
hdr_size = 16

-- HTONS, NTOHS, HTONL and NTOHL: a number and its bytes, the highest one first.
abbrev pub of_bytes16 : ℕ → ℕ → ℕ
of_bytes16 a b = a * 256 + b

abbrev pub of_bytes32 : (a b c d : ℕ) → ℕ
of_bytes32 a b c d = ((a * 256 + b) * 256 + c) * 256 + d

abbrev pub byte : (k v : ℕ) → ℕ
byte zero v = v % 256
byte (suc k) v = byte k (v / 256)

unfoldable pub get_len : List ℕ → ℕ
get_len (a ∷ b ∷ c ∷ d ∷ h) = of_bytes32 a b c d
get_len _ = 0

unfoldable pub get_opcode : List ℕ → ℕ
get_opcode (l0 ∷ l1 ∷ l2 ∷ l3 ∷ a ∷ b ∷ h) = of_bytes16 a b
get_opcode _ = 0

unfoldable pub get_tag : List ℕ → ℕ
get_tag (l0 ∷ l1 ∷ l2 ∷ l3 ∷ o0 ∷ o1 ∷ p0 ∷ p1 ∷ a ∷ b ∷ c ∷ d ∷ h) = of_bytes32 d c b a
get_tag _ = 0

unfoldable pub get_type : List ℕ → ℕ
get_type (l0 ∷ l1 ∷ l2 ∷ l3 ∷ o0 ∷ o1 ∷ p0 ∷ p1 ∷ t0 ∷ t1 ∷ t2 ∷ t3 ∷ a ∷ h) = a
get_type _ = 0

unfoldable pub get_ver : List ℕ → ℕ
get_ver (l0 ∷ l1 ∷ l2 ∷ l3 ∷ o0 ∷ o1 ∷ p0 ∷ p1 ∷ t0 ∷ t1 ∷ t2 ∷ t3 ∷ t ∷ a ∷ h) = a
get_ver _ = 0

unfoldable pub set_len : ℕ → List ℕ → List ℕ
set_len v (a ∷ b ∷ c ∷ d ∷ h) = byte 3 v ∷ byte 2 v ∷ byte 1 v ∷ byte 0 v ∷ h
set_len v h = h

unfoldable pub set_tag : ℕ → List ℕ → List ℕ
set_tag v (l0 ∷ l1 ∷ l2 ∷ l3 ∷ o0 ∷ o1 ∷ p0 ∷ p1 ∷ a ∷ b ∷ c ∷ d ∷ h) =
    l0 ∷ l1 ∷ l2 ∷ l3 ∷ o0 ∷ o1 ∷ p0 ∷ p1 ∷ byte 0 v ∷ byte 1 v ∷ byte 2 v ∷ byte 3 v ∷ h
set_tag v h = h

unfoldable pub set_type : ℕ → List ℕ → List ℕ
set_type v (l0 ∷ l1 ∷ l2 ∷ l3 ∷ o0 ∷ o1 ∷ p0 ∷ p1 ∷ t0 ∷ t1 ∷ t2 ∷ t3 ∷ a ∷ h) =
    l0 ∷ l1 ∷ l2 ∷ l3 ∷ o0 ∷ o1 ∷ p0 ∷ p1 ∷ t0 ∷ t1 ∷ t2 ∷ t3 ∷ v ∷ h
set_type v h = h

-- The constructor; the padding is written as 0, and no getter reads it.
unfoldable pub new_hdr : (opcode len ver type tag : ℕ) → List ℕ
new_hdr opcode len ver type tag =
    byte 3 len
    ∷ byte 2 len
    ∷ byte 1 len
    ∷ byte 0 len
    ∷ byte 1 opcode
    ∷ byte 0 opcode
    ∷ 0
    ∷ 0
    ∷ byte 0 tag
    ∷ byte 1 tag
    ∷ byte 2 tag
    ∷ byte 3 tag
    ∷ type
    ∷ ver
    ∷ 0
    ∷ 0
    ∷ []

bytes32 : (v : ℕ) → v < 2 ^ 32 → of_bytes32 (byte 3 v) (byte 2 v) (byte 1 v) (byte 0 v) ≡ v
bytes32 v h = omega (arith, h)

bytes16 : (v : ℕ) → v < 2 ^ 16 → of_bytes16 (byte 1 v) (byte 0 v) ≡ v
bytes16 v h = omega (arith, h)

-- The getters of a header read what the constructor wrote.
pub new_hdr_lem :
    (opcode len ver type tag : ℕ)
    → opcode < 2 ^ 16
    → len < 2 ^ 32
    → tag < 2 ^ 32
    → (get_opcode (new_hdr opcode len ver type tag) ≡ opcode)
      × (get_len (new_hdr opcode len ver type tag) ≡ len)
      × (get_ver (new_hdr opcode len ver type tag) ≡ ver)
      × (get_type (new_hdr opcode len ver type tag) ≡ type)
      × (get_tag (new_hdr opcode len ver type tag) ≡ tag)
unfolding new_hdr get_opcode get_len get_ver get_type get_tag
new_hdr_lem opcode len ver type tag o l t =
    (bytes16 opcode o, bytes32 len l, refl, refl, bytes32 tag t)
