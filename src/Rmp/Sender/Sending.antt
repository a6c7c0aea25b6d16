-- ===== src/Rmp/Sender/Sending.antt =====
-- The loop of CRmpSock::handle_can_send for a sender: packets leave in their order, up to the
-- limit that acknowledgements set.
use smart_net.Base.{
  ℕ, zero, suc, ◌+◌, ◌-◌, ◌/◌, ◌%◌, ◌^◌, ◌≤◌, ◌<◌, ◌≡◌, ◌⊎◌, inl, inr, refl, List, ◌∷◌, none, some,
  arith, true, false, ◌∙◌, ℤ, is_suc, is_io_err, is_send_pending, inc64, sub64, inc64_exact,
  sub64_exact, cmnerr_suc, ◌||◌, ltb, ◌==◌, if◌then◌else◌, Bool-cases, ap, All-map, ltb→lt, lt→ltb,
}
use smart_net.Rmp.Packet.{Datagram, hb}
use smart_net.Rmp.Sender.{Sender, framed, is_held, heartbeat, send_loop, udp_send}
use smart_net.Rmp.Sender.Window.{Inv, IsAnswer, sent_onto}

module _ (win : ℕ) (stream : ℕ → List ℕ) where
  -- The sender `t` is `s` after it has sent more of its packets, and maybe a heartbeat.
  pub record Sends (s t : Sender) (code : ℤ) : Type 0 where
    pub valid : Inv win stream t
    pub same_head : t.head ≡ s.head
    pub same_tail : t.tail ≡ s.tail
    pub same_slots : t.slots ≡ s.slots
    pub forward : s.sending ≤ t.sending
    pub limited : (t.sending ≡ s.sending) ⊎ (t.sending ≤ s.head + win / 10)
    pub in_order :
        (t.out ≡ sent_onto stream s.sender_id s.sending (t.sending - s.sending) s.out)
        ⊎ (t.out
            ≡ record { src_id = s.sender_id; pkg = hb t.sending s.head }
              ∷ sent_onto stream s.sender_id s.sending (t.sending - s.sending) s.out)
    pub stopped : (is_held win t ≡ true) ⊎ ((is_io_err code || is_send_pending code) ≡ true)

  module _ (net : ℕ → ℤ) where
    -- After `n` packets that udp_send took, a heartbeat was due, and its own call was refused.
    abbrev pub HbRefused : ℕ → Sender → Type 0
    HbRefused now s =
        (n : ℕ) × (is_held win (record s { sending = s.sending + n }) ≡ true)
        × ((k : ℕ) → k < n → net (s.calls + k) ≡ cmnerr_suc)
        × (is_suc (net (s.calls + n)) ≡ false)
        × (s.hb_interval < sub64 now (if s.last_hb_time == 0 then now else s.last_hb_time))

    abbrev pub Ends : ℕ → ℕ → Sender → Type 0
    Ends fuel now s =
        ((code : ℤ) × (t : Sender) × (send_loop win net fuel now s ≡ some (code, t))
          × Sends s t code)
        ⊎ ((send_loop win net fuel now s ≡ none) × HbRefused now s)

    abbrev since : ℕ → Sender → ℕ
    since now s = if s.last_hb_time == 0 then now else s.last_hb_time

    abbrev hb_of : Sender → Datagram
    hb_of s = record { src_id = s.sender_id; pkg = hb s.sending s.head }

    heartbeat_quiet :
        (now : ℕ) (s : Sender)
        → ltb s.hb_interval (sub64 now (since now s)) ≡ false
        → heartbeat win net now s ≡ some (cmnerr_suc, record s { last_hb_time = since now s })
    unfolding heartbeat
    heartbeat_quiet now s q = ground arith

    heartbeat_sent :
        (now : ℕ) (s : Sender)
        → ltb s.hb_interval (sub64 now (since now s)) ≡ true
        → is_suc (net s.calls) ≡ true
        → heartbeat win net now s
          ≡ some (
            cmnerr_suc,
            record s { last_hb_time = since now s; calls = suc s.calls; out = hb_of s ∷ s.out },
          )
    unfolding heartbeat udp_send
    heartbeat_sent now s q t = ground arith

    heartbeat_refused :
        (now : ℕ) (s : Sender)
        → ltb s.hb_interval (sub64 now (since now s)) ≡ true
        → is_suc (net s.calls) ≡ false
        → heartbeat win net now s ≡ none
    unfolding heartbeat udp_send
    heartbeat_refused now s q t = ground arith

    idle-Sends :
        (s : Sender) (time calls : ℕ)
        → Inv win stream s
        → is_held win s ≡ true
        → Sends s (record s { last_hb_time = time; calls = calls }) cmnerr_suc
    idle-Sends s time calls v held =
        let e : s.sending - s.sending ≡ 0 = omega arith in
        record {
          valid = record {
            head_sent = v.head_sent;
            sent = v.sent;
            room = v.room;
            holds = v.holds;
            acked = v.acked;
          };
          same_head = refl;
          same_tail = refl;
          same_slots = refl;
          forward = omega arith;
          limited = inl refl;
          in_order = inl (rw e refl);
          stopped = inl held;
        }

    hb-Sends :
        (s : Sender) (time calls : ℕ)
        → Inv win stream s
        → is_held win s ≡ true
        → Sends s
            (record s { last_hb_time = time; calls = calls; out = hb_of s ∷ s.out })
            cmnerr_suc
    hb-Sends s time calls v held =
        let e : s.sending - s.sending ≡ 0 = omega arith in
        record {
          valid = record {
            head_sent = v.head_sent;
            sent = v.sent;
            room = v.room;
            holds = v.holds;
            acked = v.acked;
          };
          same_head = refl;
          same_tail = refl;
          same_slots = refl;
          forward = omega arith;
          limited = inl refl;
          in_order = inr (rw e refl);
          stopped = inl held;
        }

    send_loop_held :
        (fuel now : ℕ) (s : Sender)
        → is_held win s ≡ true
        → send_loop win net (suc fuel) now s ≡ heartbeat win net now s
    unfolding send_loop
    send_loop_held fuel now s held = rw (held, send_loop) refl

    held_refused :
        (now : ℕ) (s : Sender)
        → is_held win s ≡ true
        → is_suc (net s.calls) ≡ false
        → s.hb_interval < sub64 now (since now s)
        → HbRefused now s
    held_refused now s held refused due = (
      0,
      ap (λ k. is_held win (record s { sending = k })) (omega arith) ∙ held,
      λ k less. absurd (omega (arith, less)),
      ap (λ k. is_suc (net k)) (omega arith) ∙ refused,
      due,
    )

    held_Ends :
        (fuel now : ℕ) (s : Sender)
        → Inv win stream s
        → is_held win s ≡ true
        → Ends (suc fuel) now s
    held_Ends fuel now s v held = elim (Bool-cases (ltb s.hb_interval (sub64 now (since now s)))) [
      | inl due ↦ elim (Bool-cases (is_suc (net s.calls))) [
        | inl took ↦ inl (
          cmnerr_suc,
          _,
          send_loop_held fuel now s held ∙ heartbeat_sent now s due took,
          hb-Sends s _ _ v held,
        )
        | inr refused ↦ inr (
          send_loop_held fuel now s held ∙ heartbeat_refused now s due refused,
          held_refused now s held refused (ltb→lt _ _ due),
        )
      ]
      | inr quiet ↦ inl (
        cmnerr_suc,
        _,
        send_loop_held fuel now s held ∙ heartbeat_quiet now s quiet,
        idle-Sends s _ _ v held,
      )
    ]

    step_sent :
        (fuel now : ℕ) (s : Sender) (d : Datagram)
        → is_held win s ≡ false
        → ltb s.sending s.tail ≡ true
        → s.sending + 1 < 2 ^ 64
        → s.slots ((s.sending + 1) % win) ≡ some d
        → net s.calls ≡ cmnerr_suc
        → send_loop win net (suc fuel) now s
          ≡ send_loop win net fuel now
              (record s { calls = suc s.calls; out = d ∷ s.out; sending = s.sending + 1 })
    unfolding send_loop udp_send
    step_sent fuel now s d more lt small full took =
        rw (more, send_loop)
          (rw (inc64_exact s.sending small)
            (rw lt (rw full (rw (took, udp_send) (rw (took, inc64_exact s.sending small) refl)))))

    step_refused :
        (fuel now : ℕ) (s : Sender) (d : Datagram)
        → is_held win s ≡ false
        → ltb s.sending s.tail ≡ true
        → s.sending + 1 < 2 ^ 64
        → s.slots ((s.sending + 1) % win) ≡ some d
        → (is_io_err (net s.calls) || is_send_pending (net s.calls)) ≡ true
        → is_suc (net s.calls) ≡ false
        → send_loop win net (suc fuel) now s ≡ some (net s.calls, record s { calls = suc s.calls })
    unfolding send_loop udp_send
    step_refused fuel now s d more lt small full err failed =
        rw (more, send_loop)
          (rw (inc64_exact s.sending small) (rw lt (rw full (rw (err, udp_send) (rw failed refl)))))

    -- What keeps a sender from being held, and what it sends next.
    more_lem :
        (s : Sender)
        → Inv win stream s
        → s.tail < 2 ^ 64
        → is_held win s ≡ false
        → (s.sending + 1 < s.tail) × (s.sending + 1 ≤ s.head + win / 10)
    more_lem s v small more =
        let e : inc64 s.sending ≡ s.sending + 1 = inc64_exact s.sending (omega (arith, v.sent)) in
        let d : sub64 (s.sending + 1) s.head ≡ s.sending + 1 - s.head =
          sub64_exact (s.sending + 1) s.head v.head_sent (omega (arith, v.sent)) in
        ground (arith, e, d, v.sent, v.head_sent)

    next_slot :
        (s : Sender)
        → Inv win stream s
        → s.sending + 1 < s.tail
        → s.slots ((s.sending + 1) % win)
          ≡ some (framed s.sender_id (s.sending + 1) (stream (s.sending + 1)))
    next_slot s v h = v.holds (s.sending + 1) (omega arith) v.head_sent h

    abbrev sent_one : Sender → Sender
    sent_one s = record s {
      calls = suc s.calls;
      out = framed s.sender_id (s.sending + 1) (stream (s.sending + 1)) ∷ s.out;
      sending = s.sending + 1;
    }

    sent_one-Inv :
        (s : Sender) → Inv win stream s → s.sending + 1 < s.tail → Inv win stream (sent_one s)
    sent_one-Inv s v h = record {
      head_sent = omega (arith, v.head_sent);
      sent = h;
      room = v.room;
      holds = v.holds;
      acked = All-map (λ e h. omega arith) s.recvers v.acked;
    }

    -- Sending goes on after one packet more.
    more-Sends :
        (s t : Sender) (code : ℤ)
        → s.sending + 1 ≤ s.head + win / 10
        → Sends (sent_one s) t code
        → Sends s t code
    more-Sends s t code limit p =
        let e : t.sending - s.sending ≡ suc (t.sending - (s.sending + 1)) =
          omega (arith, p.forward) in
        record {
          valid = p.valid;
          same_head = p.same_head;
          same_tail = p.same_tail;
          same_slots = p.same_slots;
          forward = omega (arith, p.forward);
          limited = elim p.limited [ inl same ↦ inr (omega arith) | inr less ↦ inr less ];
          in_order = rw e p.in_order;
          stopped = p.stopped;
        }

    refused-Sends :
        (s : Sender)
        → Inv win stream s
        → (is_io_err (net s.calls) || is_send_pending (net s.calls)) ≡ true
        → Sends s (record s { calls = suc s.calls }) (net s.calls)
    refused-Sends s v err =
        let e : s.sending - s.sending ≡ 0 = omega arith in
        record {
          valid = record {
            head_sent = v.head_sent;
            sent = v.sent;
            room = v.room;
            holds = v.holds;
            acked = v.acked;
          };
          same_head = refl;
          same_tail = refl;
          same_slots = refl;
          forward = omega arith;
          limited = inl refl;
          in_order = inl (rw e refl);
          stopped = inr err;
        }

    more-HbRefused :
        (now : ℕ) (s : Sender)
        → net s.calls ≡ cmnerr_suc
        → HbRefused now (sent_one s)
        → HbRefused now s
    more-HbRefused now s took (n, held, took_all, refused, due) = (
      suc n,
      ap (λ k. is_held win (record s { sending = k })) (omega arith) ∙ held,
      λ k less. taken k less,
      ap (λ k. is_suc (net k)) (omega arith) ∙ refused,
      due,
    )
      where
        taken : (k : ℕ) → k < suc n → net (s.calls + k) ≡ cmnerr_suc
        taken zero less = ap net (omega arith) ∙ took
        taken (suc k) less = ap net (omega arith) ∙ took_all k (omega (arith, less))

    more-Ends :
        (fuel now : ℕ) (s : Sender)
        → Inv win stream s
        → s.tail < 2 ^ 64
        → is_held win s ≡ false
        → net s.calls ≡ cmnerr_suc
        → Ends fuel now (sent_one s)
        → Ends (suc fuel) now s
    more-Ends fuel now s v small more took ends =
        let (lt, limit) = more_lem s v small more in
        let step =
          step_sent fuel now s _ more (lt→ltb _ _ v.sent) (omega arith) (next_slot s v lt) took in
        elim ends [
          | inl (code, t, e, p) ↦ inl (code, t, step ∙ e, more-Sends s t code limit p)
          | inr (e, r) ↦ inr (step ∙ e, more-HbRefused now s took r)
        ]

    -- Whatever udp_send answers, the sender's loop ends within as many rounds as packets wait to be
    -- sent, and one more: it multicasts the packets of the window behind the last one sent, in
    -- order and without a gap, stops when all are sent, when the limit is reached or when udp_send
    -- refuses one, and changes nothing else of the window. Otherwise it aborts; then udp_send took
    -- every packet before it was held, a heartbeat was due, and the call for that heartbeat was
    -- refused.
    pub send_loop_total :
        (fuel now : ℕ) (s : Sender)
        → ((n : ℕ) → IsAnswer (net n))
        → Inv win stream s
        → s.tail < 2 ^ 64
        → s.tail - s.sending ≤ fuel
        → Ends fuel now s
    send_loop_total zero now s answers v small enough = absurd (omega (arith, v.sent))
    send_loop_total (suc fuel) now s answers v small enough = elim (Bool-cases (is_held win s)) [
      | inl held ↦ held_Ends fuel now s v held
      | inr more ↦
          let lt = (more_lem s v small more).0 in
          elim (answers s.calls) [
            | inl took ↦ more-Ends fuel now s v small more took (
                send_loop_total fuel now (sent_one s) answers (sent_one-Inv s v lt) small
                  (omega arith))
            | inr (err, failed) ↦ inl (
              net s.calls,
              _,
              step_refused fuel now s _ more (lt→ltb _ _ v.sent) (omega arith) (next_slot s v lt)
                  err failed,
              refused-Sends s v err,
            )
          ]
    ]
