-- ===== src/Rup/Socket/Sending.antt =====
-- What CRupSock does to the stream of bytes: those on the wire and those that wait.
use smart_net.Base.{
  ℕ, ℤ, ◌≤◌, ◌<◌, Bool, true, false, Option, some, List, [], ◌∷◌, ◌++◌, length, take, drop,
  take-drop, take_all, ltb, ◌==◌, cmnerr_suc, cmnerr_send_pending, append_nil, append_assoc, ◌≡◌,
  refl, ap, sym, ◌∙◌, arith, inl, inr, ◌⊎◌, Bool-cases, lt→ltb,
}
use smart_net.Memory.Block.{Block, dec_head_data, max_mem_size}
use smart_net.Memory.Block.Content.{content, Fits, length-content, dec_head_data_lem}
use smart_net.Rup.Socket.{
  RupSock, SendRet, queue_up, no_blocks, send_now, send, block_of, send_bytes,
}
use smart_net.Rup.Socket.Queue.{stream, AllFit, queue_up_lem, block_of_lem}

-- The bytes of a socket, in the order in which they should leave.
unfoldable pub total : RupSock → List ℕ
total s = s.wire ++ (stream s.sending ++ stream s.send_cache)

pub record IsValid (s : RupSock) : Type 0 where
  pub sending_fits : AllFit s.sending
  pub cache_fits : AllFit s.send_cache

-- send() takes at least one of the bytes, and no more than it is given.
abbrev pub Honest : (List ℕ → SendRet) → Type 0
Honest net = (l : List ℕ) (n : ℕ) → net l ≡ SendRet.sent n → (0 < n) × (n ≤ length l)

-- What became of bytes that were given to the socket.
unfoldable pub Passed : List ℕ → RupSock → Option (ℤ × RupSock) → Type 0
Passed l s r =
    (code : ℤ) × (s' : RupSock) × (r ≡ some (code, s'))
    × ((code ≡ cmnerr_suc) ⊎ (code ≡ cmnerr_send_pending))
    × (total s' ≡ total s ++ l)
    × IsValid s'

queued :
    (l : List ℕ) (b : Block) (s : RupSock)
    → content b ≡ l
    → Fits b
    → IsValid s
    → Passed l s (some (cmnerr_send_pending, record s { send_cache = queue_up l b s.send_cache }))
unfolding Passed total
queued l b s h f v =
    let (q, a) = queue_up_lem l b s.send_cache h f v.cache_fits in
    (
      cmnerr_send_pending,
      record s { send_cache = queue_up l b s.send_cache },
      refl,
      inr refl,
      rw q (
          sym (
            append_assoc s.wire _ l ∙ ap (λ x. s.wire ++ x) (append_assoc (stream s.sending) _ l))),
      record { sending_fits = v.sending_fits; cache_fits = a },
    )

pub stream-empty : (q : List Block) → no_blocks q ≡ true → stream q ≡ []
unfolding stream
stream-empty [] h = refl
stream-empty (b ∷ q) h = cc

took_part :
    (w c t l : List ℕ) (n : ℕ)
    → c ≡ drop n l
    → (w ++ take n l) ++ ([] ++ (c ++ [])) ≡ (w ++ ([] ++ [])) ++ l
took_part w c t l n h =
    append_assoc w (take n l) (c ++ [])
    ∙ ap (λ x. w ++ x) (ap (λ x. take n l ++ x) (append_nil c ∙ h) ∙ take-drop n l)
    ∙ ap (λ x. x ++ l) (sym (append_nil w))

-- What send() took goes to the wire and the rest to the front of the queue, when nothing waits.
sent_now :
    (net : List ℕ → SendRet) (l : List ℕ) (b : Block) (n : ℕ) (s : RupSock)
    → Honest net
    → net l ≡ SendRet.sent n
    → content b ≡ l
    → Fits b
    → no_blocks s.sending ≡ true
    → no_blocks s.send_cache ≡ true
    → IsValid s
    → Passed l s (send_now net b s)
unfolding Passed total send_now stream
sent_now net l b n s honest took h f clear idle v =
    let len : b.len ≡ length l = sym (length-content b) ∙ ap length h in
    let some_sent : (n == 0) ≡ false = ground (arith, honest l n took) in
    let took' : net (content b) ≡ SendRet.sent n = ap net h ∙ took in
    let before : stream s.sending ≡ [] = stream-empty s.sending clear in
    let behind : stream s.send_cache ≡ [] = stream-empty s.send_cache idle in
    elim (Bool-cases (ltb n b.len)) [
      | inl part ↦
          let (c, g, _) = dec_head_data_lem n b f (ground arith) in
          (
            cmnerr_send_pending,
            record s {
              wire = s.wire ++ take n (content b);
              send_cache = dec_head_data n b ∷ s.send_cache;
            },
            rw (took', send_now) (rw (some_sent, part) refl),
            inr refl,
            rw (before, behind, h) (took_part s.wire _ l l n (c ∙ ap (drop n) h)),
            record { sending_fits = v.sending_fits; cache_fits = (g, v.cache_fits) },
          )
      | inr all ↦
          let whole : take n (content b) ≡ l = ap (take n) h ∙ take_all n l (ground (arith, len)) in
          (
            cmnerr_suc,
            record s { wire = s.wire ++ take n (content b) },
            rw (took', send_now) (rw (some_sent, all) refl),
            inl refl,
            rw (before, behind, whole)
                (append_nil (s.wire ++ l) ∙ ap (λ x. x ++ l) (sym (append_nil s.wire))),
            record { sending_fits = v.sending_fits; cache_fits = v.cache_fits },
          )
    ]

-- Bytes are passed on in their order when another thread sends, or blocks wait in m_qSendCache, or no
-- block waits and send() takes some of the bytes.
pub data InOrder (locked : Bool) (net : List ℕ → SendRet) (l : List ℕ) (s : RupSock) : Type 0 where
  by_lock : locked ≡ true → InOrder locked net l s
  by_cache : locked ≡ false → no_blocks s.send_cache ≡ false → InOrder locked net l s
  by_net :
      (n : ℕ)
      → locked ≡ false
      → no_blocks s.send_cache ≡ true
      → no_blocks s.sending ≡ true
      → net l ≡ SendRet.sent n
      → InOrder locked net l s

pub send_lem :
    (locked : Bool) (net : List ℕ → SendRet) (b : Block) (s : RupSock)
    → Honest net
    → Fits b
    → 0 < b.len
    → InOrder locked net (content b) s
    → IsValid s
    → Passed (content b) s (send 1 locked net b s)
unfolding send
send_lem locked net b s honest f some_bytes (InOrder.by_lock t) v =
    rw (lt→ltb 0 b.len some_bytes, t) (queued (content b) b s refl f v)
send_lem locked net b s honest f some_bytes (InOrder.by_cache t c) v =
    rw (lt→ltb 0 b.len some_bytes, t, c) (queued (content b) b s refl f v)
send_lem locked net b s honest f some_bytes (InOrder.by_net n t c e took) v =
    rw (lt→ltb 0 b.len some_bytes, t, c) (sent_now net (content b) b n s honest took refl f e c v)

-- When bytes that a block can hold are given to send and their order is certain (another thread
-- sends, or blocks wait in m_qSendCache, or no block waits and the kernel takes some of them), the
-- code is CMNERR_SUC or CMNERR_SEND_PENDING and the bytes stand behind all those on the wire and in
-- the queues.
pub send_bytes_lem :
    (locked : Bool) (net : List ℕ → SendRet) (l : List ℕ) (s : RupSock)
    → Honest net
    → length l ≤ max_mem_size
    → InOrder locked net l s
    → IsValid s
    → Passed l s (send_bytes locked net l s)
unfolding send_bytes
send_bytes_lem locked net l s honest short (InOrder.by_lock t) v =
    let (h, f, _) = block_of_lem l short in rw t (queued l (block_of l) s h f v)
send_bytes_lem locked net l s honest short (InOrder.by_cache t c) v =
    let (h, f, _) = block_of_lem l short in rw (t, c) (queued l (block_of l) s h f v)
send_bytes_lem locked net l s honest short (InOrder.by_net n t c e took) v =
    let (h, f, _) = block_of_lem l short in
    rw (t, c) (sent_now net l (block_of l) n s honest took h f e c v)
