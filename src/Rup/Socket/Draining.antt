-- ===== src/Rup/Socket/Draining.antt =====
-- CRupSock::handle_can_send: the loop over the blocks that wait.
use smart_net.Base.{
  ℕ, zero, suc, ℤ, pos, negsuc, ◌+◌, ◌-◌, ◌≤◌, ◌<◌, ◌≢◌, true, false, Option, some, List, [], ◌∷◌,
  ◌++◌, length, All, take, drop, take-drop, take_all, ltb, ◌==◌, cmnerr_suc, cmnerr_io_err,
  cmnerr_send_pending, append_nil, append_assoc, ◌≡◌, refl, ap, sym, ◌∙◌, arith, inl, inr, ◌⊎◌,
  Bool-cases, ltb→lt, ltb→ge,
}
use smart_net.Memory.Block.{Block, dec_head_data}
use smart_net.Memory.Block.Content.{content, length-content, dec_head_data_lem}
use smart_net.Rup.Socket.{RupSock, SendRet, no_blocks, refill, send_loop, handle_can_send}
use smart_net.Rup.Socket.Queue.{stream, AllFit}
use smart_net.Rup.Socket.Sending.{total, IsValid, Honest}

abbrev pub blocks : RupSock → ℕ
blocks s = length s.sending + length s.send_cache

-- Blocks wait in m_qSendCache only behind others.
abbrev pub Refilled : RupSock → Type 0
Refilled s = no_blocks s.sending ≡ true → no_blocks s.send_cache ≡ true

record Same (s s' : RupSock) : Type 0 where
  same_total : total s' ≡ total s
  same_blocks : blocks s' ≡ blocks s
  valid : IsValid s'
  refilled : Refilled s'

refill_from :
    (q c : List Block) (s : RupSock)
    → AllFit q
    → AllFit c
    → Same
        (record s { sending = q; send_cache = c })
        (refill (record s { sending = q; send_cache = c }))
unfolding refill total stream
refill_from [] c s a b = record {
  same_total = ap (λ x. s.wire ++ x) (append_nil (stream c));
  same_blocks = omega arith;
  valid = record { sending_fits = b; cache_fits = tt };
  refilled = λ h. refl;
}
refill_from (x ∷ q) c s a b = record {
  same_total = refl;
  same_blocks = refl;
  valid = record { sending_fits = a; cache_fits = b };
  refilled = λ h. cc;
}

-- How the loop ends: no byte is lost or moved, and either all are on the wire, or the code says why not.
unfoldable pub Drained : RupSock → Option (ℤ × RupSock) → Type 0
Drained s r =
    (code : ℤ) × (s' : RupSock) × (r ≡ some (code, s'))
    × (total s' ≡ total s)
    × IsValid s'
    × (((no_blocks s'.sending ≡ true) × (no_blocks s'.send_cache ≡ true))
        ⊎ (code ≡ cmnerr_send_pending)
        ⊎ (code ≡ cmnerr_io_err))

-- From the call with the number `k0` on, no call is interrupted.
abbrev pub Calm : ℕ → (ℕ → List ℕ → SendRet) → Type 0
Calm k0 net = (j : ℕ) (l : List ℕ) → k0 ≤ j → net j l ≢ SendRet.interrupted

SendRet-cases :
    (r : SendRet)
    → (r ≡ SendRet.would_block)
      ⊎ (r ≡ SendRet.failed)
      ⊎ (r ≡ SendRet.interrupted)
      ⊎ ((n : ℕ) × (r ≡ SendRet.sent n))
SendRet-cases SendRet.would_block = inl refl
SendRet-cases SendRet.failed = inr (inl refl)
SendRet-cases SendRet.interrupted = inr (inr (inl refl))
SendRet-cases (SendRet.sent n) = inr (inr (inr (n, refl)))

moved :
    (w x d q c : List ℕ) (n : ℕ)
    → d ≡ drop n x
    → (w ++ take n x) ++ ((d ++ q) ++ c) ≡ w ++ ((x ++ q) ++ c)
moved w x d q c n h =
    append_assoc w (take n x) _
    ∙ ap (λ l. w ++ l)
        (sym (append_assoc (take n x) (d ++ q) c)
          ∙ ap (λ l. l ++ c)
              (sym (append_assoc (take n x) d q)
                ∙ ap (λ l. l ++ q) (ap (λ l. take n x ++ l) h ∙ take-drop n x)))

moved_all :
    (w x q c : List ℕ) (n : ℕ) → length x ≤ n → (w ++ take n x) ++ (q ++ c) ≡ w ++ ((x ++ q) ++ c)
moved_all w x q c n h =
    append_assoc w (take n x) _
    ∙ ap (λ l. w ++ l) (ap (λ l. l ++ (q ++ c)) (take_all n x h) ∙ sym (append_assoc x q c))

retotal :
    (s1 s : RupSock) (r : Option (ℤ × RupSock)) → total s1 ≡ total s → Drained s1 r → Drained s r
unfolding Drained
retotal s1 s r h (code, s', e, t, v, d) = (code, s', e, t ∙ h, v, d)

early_call :
    (net : ℕ → List ℕ → SendRet) (k0 k : ℕ) (l : List ℕ)
    → Calm k0 net
    → net k l ≡ SendRet.interrupted
    → ltb k k0 ≡ true
early_call net k0 k l calm e = elim (Bool-cases (ltb k k0)) [
  | inl t ↦ t
  | inr f ↦ absurd (calm k l (ltb→ge k k0 f) e)
]

-- send() takes at least one of such bytes, and no more than it is given.
abbrev pub HonestOn : (List ℕ → Type 0) → (List ℕ → SendRet) → Type 0
HonestOn good net =
    (l : List ℕ) (n : ℕ) → good l → net l ≡ SendRet.sent n → (0 < n) × (n ≤ length l)

abbrev AllGood : (List ℕ → Type 0) → List Block → Type 0
AllGood good = All (λ b. good (content b))

-- Which blocks wait first does not matter.
refill_good :
    (good : List ℕ → Type 0) (q c : List Block) (s : RupSock)
    → AllGood good q
    → AllGood good c
    → AllGood good (refill (record s { sending = q; send_cache = c })).sending
      × AllGood good (refill (record s { sending = q; send_cache = c })).send_cache
unfolding refill
refill_good good [] c s a b = (b, tt)
refill_good good (x ∷ q) c s a b = (a, b)

loop_lem :
    (good : List ℕ → Type 0) (fuel : ℕ) (net : ℕ → List ℕ → SendRet) (k0 k : ℕ) (code : ℤ)
    (q c : List Block) (s : RupSock)
    → ((j : ℕ) → HonestOn good (net j))
    → Calm k0 net
    → AllGood good q
    → AllGood good c
    → length q + length c + (k0 - k) < fuel
    → AllFit q
    → AllFit c
    → (no_blocks q ≡ true → no_blocks c ≡ true)
    → Drained
        (record s { sending = q; send_cache = c })
        (send_loop fuel net k code (record s { sending = q; send_cache = c }))
unfolding send_loop Drained total stream
loop_lem good zero net k0 k code q c s honest calm gq gc m a b r = absurd (omega (arith, m))
loop_lem good (suc fuel) net k0 k code [] c s honest calm gq gc m a b r = (
  code,
  record s { sending = []; send_cache = c },
  refl,
  refl,
  record { sending_fits = a; cache_fits = b },
  inl (refl, r refl),
)
loop_lem good (suc fuel) net k0 k code (x ∷ q) c s honest calm (gx, gq) gc m a b r =
    let now : RupSock = record s { sending = x ∷ q; send_cache = c } in
    let valid : IsValid now = record { sending_fits = a; cache_fits = b } in
    elim (SendRet-cases (net k (content x))) [
      | inl e ↦ (cmnerr_send_pending, now, rw (e, send_loop) refl, refl, valid, inr (inl refl))
      | inr (inl e) ↦ (cmnerr_io_err, now, rw (e, send_loop) refl, refl, valid, inr (inr refl))
      | inr (inr (inl e)) ↦
          let early : k < k0 = ltb→lt k k0 (early_call net k0 k (content x) calm e) in
          rw (e, send_loop)
            (loop_lem good fuel net k0 (k + 1) (negsuc 0) (x ∷ q) c s honest calm (gx, gq) gc
              (omega (arith, m, early)) a b (λ h. cc))
      | inr (inr (inr (n, e))) ↦
          let some_sent : (n == 0) ≡ false = ground (arith, honest k (content x) n gx e) in
          let bound : n ≤ x.len = omega (arith, honest k (content x) n gx e, length-content x) in
          elim (Bool-cases (ltb n x.len)) [
            | inl part ↦
                let (d, g, _) = dec_head_data_lem n x (a.0) bound in
                (
                  cmnerr_send_pending,
                  record now {
                    wire = s.wire ++ take n (content x);
                    sending = dec_head_data n x ∷ q;
                  },
                  rw (e, send_loop) (rw (some_sent, part) refl),
                  moved s.wire (content x) _ (stream q) (stream c) n d,
                  record { sending_fits = (g, a.1); cache_fits = b },
                  inr (inl refl),
                )
            | inr all ↦
                let s1 : RupSock =
                  refill (record now { wire = s.wire ++ take n (content x); sending = q }) in
                let m1 : Same (record now { wire = s.wire ++ take n (content x); sending = q }) s1 =
                  refill_from q c (record s { wire = s.wire ++ take n (content x) }) (a.1) b in
                let (g1, g2) =
                  refill_good good q c (record s { wire = s.wire ++ take n (content x) }) gq gc in
                let whole : (n == x.len) ≡ true = ground arith in
                let taken : total s1 ≡ total now =
                  m1.same_total
                  ∙ moved_all s.wire (content x) (stream q) (stream c) n
                      (omega (arith, ltb→ge n x.len all, length-content x)) in
                rw (e, send_loop)
                  (rw (some_sent, all, whole)
                    (retotal s1 now _ taken (
                      loop_lem good fuel net k0 (k + 1) (pos n) s1.sending s1.send_cache s1 honest
                        calm g1 g2 (omega (arith, m, m1.same_blocks)) m1.valid.sending_fits
                        m1.valid.cache_fits m1.refilled)))
          ]
    ]

abbrev pub NotEmpty : List ℕ → Type 0
NotEmpty l = 0 < length l

drained :
    (good : List ℕ → Type 0) (fuel : ℕ) (net : ℕ → List ℕ → SendRet) (k0 : ℕ) (s : RupSock)
    → ((j : ℕ) → HonestOn good (net j))
    → Calm k0 net
    → blocks s + k0 < fuel
    → IsValid s
    → AllGood good s.sending
    → AllGood good s.send_cache
    → Drained s (handle_can_send fuel net s)
unfolding handle_can_send
drained good fuel net k0 s honest calm m v gs gc =
    let r : Same s (refill s) = refill_from s.sending s.send_cache s v.sending_fits v.cache_fits in
    let (g1, g2) = refill_good good s.sending s.send_cache s gs gc in
    retotal (refill s) s _ r.same_total (
      loop_lem good fuel net k0 0 cmnerr_suc (refill s).sending (refill s).send_cache (refill s)
        honest calm g1 g2 (omega (arith, m, r.same_blocks)) r.valid.sending_fits r.valid.cache_fits
        r.refilled)

all_any : (l : List Block) → AllGood (λ x. Unit) l
all_any [] = tt
all_any (x ∷ l) = (tt, all_any l)

-- A kernel that never answers 0 drains any blocks.
pub handle_can_send-Drained :
    (fuel : ℕ) (net : ℕ → List ℕ → SendRet) (k0 : ℕ) (s : RupSock)
    → ((j : ℕ) → Honest (net j))
    → Calm k0 net
    → blocks s + k0 < fuel
    → IsValid s
    → Drained s (handle_can_send fuel net s)
handle_can_send-Drained fuel net k0 s honest calm m v =
    drained (λ x. Unit) fuel net k0 s (λ j l n u e. honest j l n e) calm m v (all_any s.sending)
      (all_any s.send_cache)

-- When no block that waits is empty, and the kernel's send takes at least one byte of what it is
-- given and no more than that, or none with an error: with fuel for each block and for each call
-- that may be interrupted, handle_can_send ends without a failed assertion; it keeps every byte and
-- their order, and either no block waits any more or the code is CMNERR_SEND_PENDING or
-- CMNERR_IO_ERR.
pub handle_can_send_lem :
    (fuel : ℕ) (net : ℕ → List ℕ → SendRet) (k0 : ℕ) (s : RupSock)
    → ((j : ℕ) → HonestOn NotEmpty (net j))
    → Calm k0 net
    → blocks s + k0 < fuel
    → IsValid s
    → All (λ b. NotEmpty (content b)) s.sending
    → All (λ b. NotEmpty (content b)) s.send_cache
    → Drained s (handle_can_send fuel net s)
handle_can_send_lem fuel net k0 s = drained NotEmpty fuel net k0 s
