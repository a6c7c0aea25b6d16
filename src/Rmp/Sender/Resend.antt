-- ===== src/Rmp/Sender/Resend.antt =====
-- The loop of CRmpSock::sendep_handle_nak that sends packets again.
use smart_net.Base.{
  ℕ, zero, suc, ◌+◌, ◌-◌, ◌%◌, ◌^◌, ◌≤◌, ◌<◌, ◌≡◌, ◌⊎◌, inl, inr, refl, List, ◌∷◌, some, arith,
  true, false, sym, ◌∙◌, ℤ, is_suc, is_io_err, is_send_pending, inc64_exact, cmnerr_suc, ◌>>=◌, leb,
  if◌then◌else◌, Bool-cases, leb→le, pos, negsuc,
}
use native.Mathlib.Nat.{add-zero, add-suc, suc-add}
use smart_net.Rmp.Packet.{Datagram}
use smart_net.Rmp.Sender.{Sender, framed, udp_send, send_until_taken, resend_loop}
use smart_net.Rmp.Sender.Window.{IsAnswer, sent_onto}

module _ (win : ℕ) (net : ℕ → ℤ) where
  -- Within `tries` calls from the nth on, one is not answered with SEND_PENDING.
  abbrev pub IsFair : ℕ → ℕ → Type 0
  IsFair tries n = (j : ℕ) × (j < tries) × (is_send_pending (net (n + j)) ≡ false)

  fair_later :
      (tries n : ℕ) → is_send_pending (net n) ≡ true → IsFair (suc tries) n → IsFair tries (suc n)
  fair_later tries n now (zero, lt, p) = cc (now, rw add-zero at p)
  fair_later tries n now (suc j, lt, p) = (j, omega arith, rw (add-suc, ← suc-add n j) at p)

  pending_failed : (r : ℤ) → is_send_pending r ≡ true → is_suc r ≡ false
  pending_failed (pos n) p = absurd (cc p)
  pending_failed (negsuc n) p = refl

  abbrev after_call : Sender → Datagram → ℕ → Sender
  after_call s d c = record s { calls = suc c; out = if is_suc (net c) then d ∷ s.out else s.out }

  pending_step :
      (tries : ℕ) (d : Datagram) (s : Sender)
      → is_send_pending (net s.calls) ≡ true
      → send_until_taken win net (suc tries) d s
        ≡ send_until_taken win net tries d (record s { calls = suc s.calls })
  unfolding send_until_taken udp_send
  pending_step tries d s p = rw (p, send_until_taken) (rw (pending_failed (net s.calls) p) refl)

  taken_step :
      (tries : ℕ) (d : Datagram) (s : Sender)
      → is_send_pending (net s.calls) ≡ false
      → send_until_taken win net (suc tries) d s ≡ some (net s.calls, after_call s d s.calls)
  unfolding send_until_taken udp_send
  taken_step tries d s p = rw (p, send_until_taken) refl

  send_until_taken_total :
      (tries : ℕ) (d : Datagram) (s : Sender)
      → IsFair tries s.calls
      → (c : ℕ) × (send_until_taken win net tries d s ≡ some (net c, after_call s d c))
        × (is_send_pending (net c) ≡ false)
  send_until_taken_total zero d s (j, lt, p) = absurd (omega arith)
  send_until_taken_total (suc tries) d s (j, lt, p) =
      elim (Bool-cases (is_send_pending (net s.calls))) [
        | inr now ↦ (s.calls, taken_step tries d s now, now)
        | inl now ↦
            let (c, e, q) =
              send_until_taken_total tries d (record s { calls = suc s.calls })
                (fair_later tries s.calls now (j, lt, p)) in
            (c, pending_step tries d s now ∙ e, q)
      ]

  resend_done :
      (tries fuel k end : ℕ) (s : Sender)
      → leb k end ≡ false
      → resend_loop win net tries (suc fuel) k end s ≡ some (cmnerr_suc, s)
  unfolding resend_loop
  resend_done tries fuel k end s past = rw (past, resend_loop) refl

  resend_failed :
      (tries fuel k end c : ℕ) (d : Datagram) (s : Sender)
      → leb k end ≡ true
      → s.slots (k % win) ≡ some d
      → send_until_taken win net tries d s ≡ some (net c, after_call s d c)
      → is_suc (net c) ≡ false
      → resend_loop win net tries (suc fuel) k end s ≡ some (net c, record s { calls = suc c })
  unfolding resend_loop
  resend_failed tries fuel k end c d s more full sent failed =
      rw (more, resend_loop) (rw full (rw sent (rw (failed, ◌>>=◌) (rw failed refl))))

  resend_more :
      (tries fuel k end c : ℕ) (d : Datagram) (s : Sender)
      → leb k end ≡ true
      → s.slots (k % win) ≡ some d
      → send_until_taken win net tries d s ≡ some (net c, after_call s d c)
      → is_suc (net c) ≡ true
      → k + 1 < 2 ^ 64
      → resend_loop win net tries (suc fuel) k end s
        ≡ resend_loop win net tries fuel (k + 1) end (record s { calls = suc c; out = d ∷ s.out })
  unfolding resend_loop
  resend_more tries fuel k end c d s more full sent took small =
      rw (more, resend_loop)
        (rw full (rw sent (rw (took, ◌>>=◌) (rw (inc64_exact k small) (rw took refl)))))

  refused_io :
      (r : ℤ) → IsAnswer r → is_send_pending r ≡ false → is_suc r ≡ false → is_io_err r ≡ true
  refused_io r (inl e) p f = cc (f, rw e at f)
  refused_io r (inr (err, _)) p f = elim (Bool-cases (is_io_err r)) [
    | inl io ↦ io
    | inr other ↦ cc (rw (other, p) at err)
  ]

module _ (win : ℕ) (stream : ℕ → List ℕ) where
  -- The packets behind `j` up to `end` were multicast again in their order, or those before the
  -- first one that failed.
  pub record Resent (s t : Sender) (j end : ℕ) (code : ℤ) : Type 0 where
    pub count : ℕ
    pub same : t ≡ record s { calls = t.calls; out = t.out }
    pub in_order : t.out ≡ sent_onto stream s.sender_id j count s.out
    pub complete :
        ((code ≡ cmnerr_suc) × (count ≡ end - j)) ⊎ ((is_io_err code ≡ true) × (count < end - j))

  abbrev HoldsFrom : Sender → ℕ → ℕ → Type 0
  HoldsFrom s j end =
      (i : ℕ) → j < i → i ≤ end → s.slots (i % win) ≡ some (framed s.sender_id i (stream i))

  module _ (net : ℕ → ℤ) (answers : (n : ℕ) → IsAnswer (net n)) (tries : ℕ)
      (fair : (n : ℕ) → IsFair win net tries n) where
    abbrev ResendEnds : ℕ → ℕ → ℕ → Sender → Type 0
    ResendEnds fuel j end s =
        (code : ℤ) × (t : Sender) × (resend_loop win net tries fuel (j + 1) end s ≡ some (code, t))
        × Resent s t j end code

    resend_one_more :
        (fuel j end c : ℕ) (d : Datagram) (s : Sender)
        → resend_loop win net tries (suc fuel) (j + 1) end s
          ≡ resend_loop win net tries fuel
              (j + 1 + 1)
              end
              (record s { calls = suc c; out = d ∷ s.out })
        → d ≡ framed s.sender_id (j + 1) (stream (j + 1))
        → j + 1 ≤ end
        → ResendEnds fuel (j + 1) end (record s { calls = suc c; out = d ∷ s.out })
        → ResendEnds (suc fuel) j end s
    resend_one_more fuel j end c d s step made le (code, t, e, p) = (
      code,
      t,
      step ∙ e,
      record {
        count = suc p.count;
        same = p.same;
        in_order = rw (← made) p.in_order;
        complete = elim p.complete [
          | inl (ok, n) ↦ inl (ok, omega arith)
          | inr (io, n) ↦ inr (io, omega arith)
        ];
      },
    )

    pub resend_total :
        (fuel j end : ℕ) (s : Sender)
        → HoldsFrom s j end
        → end + 1 < 2 ^ 64
        → end - j < fuel
        → ResendEnds fuel j end s
    resend_total zero j end s holds small enough = absurd (omega arith)
    resend_total (suc fuel) j end s holds small enough = elim (Bool-cases (leb (j + 1) end)) [
      | inr past ↦
          let none_left : end - j ≡ 0 = ground arith in
          (
            cmnerr_suc,
            s,
            resend_done win net tries fuel (j + 1) end s past,
            record {
              count = 0;
              same = refl;
              in_order = refl;
              complete = inl (refl, sym none_left);
            },
          )
      | inl more ↦
          let le = leb→le (j + 1) end more in
          let full = holds (j + 1) (omega arith) le in
          let (c, sent, taken) = send_until_taken_total win net tries _ s (fair s.calls) in
          elim (Bool-cases (is_suc (net c))) [
            | inl took ↦
                resend_one_more fuel j end c _ s
                  (resend_more win net tries fuel (j + 1) end c _ s more full sent took
                    (omega arith))
                  refl le
                  (resend_total fuel (j + 1) end _ (λ i a b. holds i (omega arith) b) small
                    (omega arith))
            | inr failed ↦ (
              net c,
              record s { calls = suc c },
              resend_failed win net tries fuel (j + 1) end c _ s more full sent failed,
              record {
                count = 0;
                same = refl;
                in_order = refl;
                complete = inr (refused_io win net (net c) (answers c) taken failed, omega arith);
              },
            )
          ]
    ]
