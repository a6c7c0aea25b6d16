-- ===== src/Memory/Block/Content.antt =====
-- What a memory block holds: its bytes as a list, and what its functions do to that list.
use smart_net.Base.{
  ℕ, zero, suc, ◌+◌, ◌-◌, ◌≤◌, ◌<◌, false, List, [], ◌∷◌, ◌++◌, length, ltb, cmnerr_suc,
  cmnerr_common_err, ◌≡◌, refl, ap, ap₂, sym, ◌∙◌, arith, inl, inr, Bool-cases, ◌⊎◌, ◌≢◌, take,
  drop, take-append, drop-append, length-append, ==-of_ne, add32, sub32, add32_exact, sub32_exact,
}
use native.Mathlib.Nat.{add-zero, zero-add, suc-add}
use smart_net.Memory.Block.{
  Block, max_mem_size, copy, move_data_ahead, dec_head_data, inc_head_data, get_tail_free_size,
  get_total_free_size, put_tail, append,
}

-- The `n` bytes from `o` on.
unfoldable pub slice : (ℕ → ℕ) → (o n : ℕ) → List ℕ
slice f o zero = []
slice f o (suc n) = f o ∷ slice f (o + 1) n

unfoldable pub content : Block → List ℕ
content b = slice b.bytes b.offset b.len

-- The data lie within the array.
abbrev pub Fits : Block → Type 0
Fits b = b.offset + b.len ≤ max_mem_size

pub length-slice : (f : ℕ → ℕ) (o n : ℕ) → length (slice f o n) ≡ n
unfolding slice
length-slice f o zero = refl
length-slice f o (suc n) = ap suc (length-slice f (o + 1) n)

pub length-content : (b : Block) → length (content b) ≡ b.len
unfolding content
length-content b = length-slice b.bytes b.offset b.len

-- Two arrays that agree from `o` to `o + n`.
pub slice-ext :
    (f g : ℕ → ℕ) (o p n : ℕ)
    → ((j : ℕ) → j < n → f (o + j) ≡ g (p + j))
    → slice f o n ≡ slice g p n
unfolding slice
slice-ext f g o p zero h = refl
slice-ext f g o p (suc n) h =
    ap₂ (λ x l. x ∷ l) (sym (ap f (add-zero o)) ∙ h 0 (omega arith) ∙ ap g (add-zero p))
      (slice-ext f g (o + 1) (p + 1) n
        (λ j q. ap f (omega arith) ∙ h (suc j) (omega (arith, q)) ∙ ap g (omega arith)))

slice-append : (f : ℕ → ℕ) (o n m : ℕ) → slice f o (n + m) ≡ slice f o n ++ slice f (o + n) m
unfolding slice
slice-append f o zero m = rw (zero-add, add-zero) refl
slice-append f o (suc n) m = rw (suc-add n m) (
    ap (λ l. f o ∷ l)
      (slice-append f (o + 1) n m ∙ ap (λ k. slice f (o + 1) n ++ slice f k m) (omega arith)))

pub copy-before : (f : ℕ → ℕ) (p : ℕ) (l : List ℕ) (j : ℕ) → j < p → copy f p l j ≡ f j
unfolding copy
copy-before f p [] j h = refl
copy-before f p (x ∷ l) j h =
    rw (==-of_ne j p (omega (arith, h))) (copy-before f (p + 1) l j (omega (arith, h)))

pub copy-outside :
    (f : ℕ → ℕ) (p : ℕ) (l : List ℕ) (j : ℕ)
    → ((k : ℕ) → k < length l → j ≢ p + k)
    → copy f p l j ≡ f j
unfolding copy
copy-outside f p [] j h = refl
copy-outside f p (x ∷ l) j h =
    rw (==-of_ne j p (λ e. h 0 (omega arith) (omega (arith, e))))
      (copy-outside f (p + 1) l j (λ k q e. h (suc k) (omega (arith, q)) (omega (arith, e))))

pub slice-copy : (f : ℕ → ℕ) (p : ℕ) (l : List ℕ) → slice (copy f p l) p (length l) ≡ l
unfolding slice copy
slice-copy f p [] = refl
slice-copy f p (x ∷ l) =
    ap₂ (λ y m. y ∷ m) (ground arith)
      (slice-ext _ (copy f (p + 1) l) (p + 1) (p + 1) (length l)
          (λ j q. rw (==-of_ne (p + 1 + j) p (omega arith)) refl)
        ∙ slice-copy f (p + 1) l)

-- The sizes of the free space, without the wrap.
pub tail_exact : (b : Block) → Fits b → get_tail_free_size b ≡ max_mem_size - (b.len + b.offset)
unfolding get_tail_free_size
tail_exact b f =
    ground (arith, add32_exact b.len b.offset, sub32_exact max_mem_size (b.len + b.offset))

total_exact : (b : Block) → Fits b → get_total_free_size b ≡ max_mem_size - b.len
unfolding get_total_free_size
total_exact b f = sub32_exact max_mem_size b.len (omega (arith, f)) (omega arith)

pub move_data_ahead_lem :
    (b : Block)
    → (content (move_data_ahead b) ≡ content b)
      × ((move_data_ahead b).len ≡ b.len)
      × ((move_data_ahead b).offset ≡ 0)
unfolding move_data_ahead content
move_data_ahead_lem b = elim (Bool-cases (ltb 0 b.offset)) [
  | inr none_before ↦ rw none_before (refl, refl, ground arith)
  | inl before ↦
      rw before
        (slice-ext _ b.bytes 0 b.offset b.len (λ j q. ground (arith, q, zero-add j)), refl, refl)
]

pub put_tail_lem :
    (l : List ℕ) (b : Block)
    → b.offset + (b.len + length l) ≤ max_mem_size
    → (content (put_tail l b) ≡ content b ++ l)
      × Fits (put_tail l b)
      × ((put_tail l b).len ≡ b.len + length l)
unfolding content
put_tail_lem l b h =
    let at_tail : add32 b.offset b.len ≡ b.offset + b.len =
      add32_exact b.offset b.len (omega (arith, h)) in
    let longer : add32 b.len (length l) ≡ b.len + length l =
      add32_exact b.len (length l) (omega (arith, h)) in
    rw (at_tail, longer)
      (
        slice-append (copy b.bytes (b.offset + b.len) l) b.offset b.len (length l)
            ∙ ap₂ (λ x y. x ++ y)
                (slice-ext _ b.bytes b.offset b.offset b.len (λ j q.
                  copy-before b.bytes (b.offset + b.len) l (b.offset + j) (omega (arith, q))))
                (slice-copy b.bytes (b.offset + b.len) l),
        h,
        refl,
      )

-- A memory block whose data lie within its array takes bytes exactly when there is room for them in
-- total: then they stand behind its data, and these lie within the array again; otherwise it
-- returns CMNERR_COMMON_ERR and is not changed.
pub append_lem :
    (l : List ℕ) (b : Block)
    → Fits b
    → ((b.len + length l ≤ max_mem_size)
        × ((append l b).0 ≡ cmnerr_suc)
        × (content (append l b).1 ≡ content b ++ l)
        × Fits (append l b).1)
      ⊎ ((max_mem_size < b.len + length l) × (append l b ≡ (cmnerr_common_err, b)))
unfolding append
append_lem l b f = elim (Bool-cases (ltb (get_total_free_size b) (length l))) [
  | inl full ↦ inr (ground (arith, total_exact b f), rw full refl)
  | inr room ↦
      let fits : b.len + length l ≤ max_mem_size = ground (arith, total_exact b f) in
      elim (Bool-cases (ltb (get_tail_free_size b) (length l))) [
        | inr behind ↦
            let (c, g, _) = put_tail_lem l b (ground (arith, tail_exact b f)) in
            rw (room, behind) (inl (fits, refl, c, g))
        | inl moved ↦
            let (same, len, at_start) = move_data_ahead_lem b in
            let (c, g, _) =
              put_tail_lem l (move_data_ahead b) (rw (at_start, len) (omega (arith, fits))) in
            rw (room, moved) (inl (fits, refl, c ∙ ap (λ x. x ++ l) same, g))
      ]
]

drop-slice : (f : ℕ → ℕ) (o n k : ℕ) → k ≤ n → drop k (slice f o n) ≡ slice f (o + k) (n - k)
unfolding slice
drop-slice f o n zero h = ap₂ (slice f) (omega arith) (omega arith)
drop-slice f o zero (suc k) h = absurd (omega (arith, h))
drop-slice f o (suc n) (suc k) h =
    drop-slice f (o + 1) n k (omega (arith, h)) ∙ ap₂ (slice f) (omega arith) (omega arith)

pub dec_head_data_lem :
    (n : ℕ) (b : Block)
    → Fits b
    → n ≤ b.len
    → (content (dec_head_data n b) ≡ drop n (content b))
      × Fits (dec_head_data n b)
      × ((dec_head_data n b).len ≡ b.len - n)
unfolding content dec_head_data
dec_head_data_lem n b f h =
    let at : add32 b.offset n ≡ b.offset + n = add32_exact b.offset n (omega (arith, f, h)) in
    let left : sub32 b.len n ≡ b.len - n = sub32_exact b.len n h (omega (arith, f)) in
    rw (at, left) (sym (drop-slice b.bytes b.offset b.len n h), omega (arith, f, h), refl)

-- A header that is taken off the data can be put back, with the bytes it had.
pub inc_head_data-dec_head_data :
    (n : ℕ) (b : Block) → Fits b → n ≤ b.len → inc_head_data n (dec_head_data n b) ≡ (cmnerr_suc, b)
unfolding inc_head_data dec_head_data
inc_head_data-dec_head_data n b f h =
    let at : add32 b.offset n ≡ b.offset + n = add32_exact b.offset n (omega (arith, f, h)) in
    let left : sub32 b.len n ≡ b.len - n = sub32_exact b.len n h (omega (arith, f)) in
    let back : sub32 (b.offset + n) n ≡ b.offset + n - n =
      sub32_exact (b.offset + n) n (omega arith) (omega (arith, f, h)) in
    let again : add32 (b.len - n) n ≡ b.len - n + n =
      add32_exact (b.len - n) n (omega (arith, f, h)) in
    let room : ltb (b.offset + n) n ≡ false = ground arith in
    rw (at, left, room, back, again)
      (ap₂ (λ o k. (cmnerr_suc, record b { offset = o; len = k })) (omega arith) (omega (arith, h)))

take_first : (n : ℕ) (a r : List ℕ) → length a ≡ n → take n (a ++ r) ≡ a
take_first n a r e = ap (λ k. take k (a ++ r)) (sym e) ∙ take-append a r

pub length-head :
    (n : ℕ) (b : Block) (a r : List ℕ) → length a ≡ n → content b ≡ a ++ r → b.len ≡ n + length r
length-head n b a r e h =
    sym (length-content b) ∙ ap length h ∙ length-append a r ∙ ap (λ k. k + length r) e

-- The first bytes of a block, and what is left when they are taken off.
pub slice-head :
    (n : ℕ) (b : Block) (a r : List ℕ)
    → length a ≡ n
    → content b ≡ a ++ r
    → slice b.bytes b.offset n ≡ a
unfolding content
slice-head n b a r e h =
    let first : List ℕ = slice b.bytes b.offset n in
    let next : List ℕ = slice b.bytes (b.offset + n) (length r) in
    let split : first ++ next ≡ a ++ r =
      sym (slice-append b.bytes b.offset n (length r))
      ∙ ap (slice b.bytes b.offset) (sym (length-head n b a r e h))
      ∙ h in
    sym (take_first n first next (length-slice b.bytes b.offset n))
    ∙ ap (take n) split
    ∙ take_first n a r e

pub dec_head_data-head :
    (n : ℕ) (b : Block) (a r : List ℕ)
    → length a ≡ n
    → Fits b
    → content b ≡ a ++ r
    → (content (dec_head_data n b) ≡ r) × Fits (dec_head_data n b)
dec_head_data-head n b a r e f h =
    let (c, fits, _) = dec_head_data_lem n b f (omega (arith, length-head n b a r e h)) in
    (c ∙ ap (drop n) h ∙ ap (λ k. drop k (a ++ r)) (sym e) ∙ drop-append a r, fits)

-- Bytes that are written over the first bytes of a block.
pub over_head_lem :
    (b : Block) (a l r : List ℕ)
    → length l ≡ length a
    → content b ≡ a ++ r
    → content (record b { bytes = copy b.bytes b.offset l }) ≡ l ++ r
unfolding content
over_head_lem b a l r e h =
    let n : ℕ = length l in
    let f : ℕ → ℕ = copy b.bytes b.offset l in
    let first : List ℕ = slice b.bytes b.offset n in
    let next : List ℕ = slice b.bytes (b.offset + n) (length r) in
    let split : first ++ next ≡ a ++ r =
      sym (slice-append b.bytes b.offset n (length r))
      ∙ ap (slice b.bytes b.offset) (sym (length-head n b a r (sym e) h))
      ∙ h in
    let behind : next ≡ r =
      sym (drop-append first next)
      ∙ ap (λ k. drop k (first ++ next)) (length-slice b.bytes b.offset n ∙ e)
      ∙ ap (drop (length a)) split
      ∙ drop-append a r in
    ap (slice f b.offset) (length-head n b a r (sym e) h)
    ∙ slice-append f b.offset n (length r)
    ∙ ap₂ (λ x y. x ++ y) (slice-copy b.bytes b.offset l)
        (slice-ext f b.bytes (b.offset + n) (b.offset + n) (length r) (λ j q.
            copy-outside b.bytes b.offset l (b.offset + n + j) (λ k s t. omega (arith, s, t)))
          ∙ behind)
