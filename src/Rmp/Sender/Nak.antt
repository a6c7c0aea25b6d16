-- ===== src/Rmp/Sender/Nak.antt =====
-- CRmpSock::sendep_handle_nak: a receiver asks for packets again, and the sender notes it.
use smart_net.Base.{
  ℕ, ◌+◌, ◌-◌, ◌%◌, ◌^◌, ◌≤◌, ◌<◌, ◌≡◌, ◌⊎◌, inl, inr, refl, List, none, some, arith, ◌∙◌, ℤ, ltb,
  Bool-cases, sub32, dec_le, dec_lt,
}
use smart_net.Rmp.Sender.{
  Sender, Recvers, resend_loop, sendep_handle_nak, max_nak_cnt, cut_speed, modify, note_nak,
  note_asked,
}
use smart_net.Rmp.Sender.Window.{Inv, IsAnswer}
use smart_net.Rmp.Sender.Recvers.{modify-All}
use smart_net.Rmp.Sender.Resend.{IsFair, Resent, resend_total}

module _ (win : ℕ) (stream : ℕ → List ℕ) where
  module _ (net : ℕ → ℤ) (answers : (n : ℕ) → IsAnswer (net n)) (tries : ℕ)
      (fair : (n : ℕ) → IsFair win net tries n) (place : ℕ → Recvers → ℕ) where
    -- The sender that noted the request, with its counters.
    abbrev pub noted : (now id naks speed : ℕ) → Sender → Sender
    noted now id naks speed s = record s {
      recvers = modify place id (note_nak now) s.recvers;
      naks = naks;
      send_speed = speed;
    }

    note_asked_lem :
        (now id : ℕ) (s : Sender)
        → (naks : ℕ) × (speed : ℕ) × (note_asked place now id s ≡ noted now id naks speed s)
    unfolding note_asked
    note_asked_lem now id s = elim (Bool-cases (ltb max_nak_cnt ((s.naks + 1) % 2 ^ 32))) [
      | inl many ↦ (0, sub32 s.send_speed cut_speed, rw (many, note_asked) refl)
      | inr few ↦ ((s.naks + 1) % 2 ^ 32, s.send_speed, rw (few, note_asked) refl)
    ]

    noted-Inv :
        (now id naks speed : ℕ) (s : Sender)
        → Inv win stream s
        → Inv win stream (noted now id naks speed s)
    noted-Inv now id naks speed s v = record {
      head_sent = v.head_sent;
      sent = v.sent;
      room = v.room;
      holds = v.holds;
      acked =
          modify-All (λ e. e.1.last_recved ≤ s.sending) place id (note_nak now) (λ j i h. h)
            (omega arith) s.recvers v.acked;
    }

    Resent-Inv :
        (s t : Sender) (j end : ℕ) (code : ℤ)
        → Inv win stream s
        → Resent win stream s t j end code
        → Inv win stream t
    Resent-Inv s t j end code v p = rw p.same (record {
      head_sent = v.head_sent;
      sent = v.sent;
      room = v.room;
      holds = v.holds;
      acked = v.acked;
    })

    nak_inside :
        (fuel now begin end id : ℕ) (s : Sender)
        → s.head ≤ begin
        → end < s.tail
        → sendep_handle_nak win net place tries fuel now begin end id s
          ≡ resend_loop win net tries fuel begin end (note_asked place now id s)
    unfolding sendep_handle_nak
    nak_inside fuel now begin end id s a b = ground arith

    nak_outside :
        (fuel now begin end id : ℕ) (s : Sender)
        → ((begin < s.head) ⊎ (s.tail ≤ end))
        → sendep_handle_nak win net place tries fuel now begin end id s ≡ none
    unfolding sendep_handle_nak
    nak_outside fuel now begin end id s out = ground arith

    -- A receiver's request for packets, the first of them not 0, at a sender whose udp_send is
    -- answered with something other than SEND_PENDING within a number of calls. When all of the
    -- packets wait in the window, the handler ends within as many rounds as packets are asked for,
    -- and one more, each of at most that number of calls: it multicasts exactly these packets, in
    -- order, unless udp_send fails, and nothing of the window changes. Otherwise it aborts.
    pub sendep_handle_nak_total :
        (fuel now j end id : ℕ) (s : Sender)
        → Inv win stream s
        → s.tail < 2 ^ 64
        → end - j < fuel
        → ((s.head ≤ j + 1)
            × (end < s.tail)
            × (code : ℤ) × (t : Sender) × (naks : ℕ) × (speed : ℕ) × (sendep_handle_nak win net
                  place tries fuel now
                  (j + 1)
                  end
                  id
                  s
                ≡ some (code, t))
            × Resent win stream (noted now id naks speed s) t j end code
            × Inv win stream t)
          ⊎ (((j + 1 < s.head) ⊎ (s.tail ≤ end))
              × (sendep_handle_nak win net place tries fuel now (j + 1) end id s ≡ none))
    sendep_handle_nak_total fuel now j end id s v small enough = elim (dec_le s.head (j + 1)) [
      | no a ↦ inr (inl (omega arith), nak_outside fuel now (j + 1) end id s (inl (omega arith)))
      | yes a ↦ elim (dec_lt end s.tail) [
        | no b ↦ inr (inr (omega arith), nak_outside fuel now (j + 1) end id s (inr (omega arith)))
        | yes b ↦
            let (naks, speed, e) = note_asked_lem now id s in
            let (code, t, run, p) =
              resend_total win stream net answers tries fair fuel j end (noted now id naks speed s)
                (λ i above below. v.holds i (omega arith) (omega arith) (omega arith)) (omega arith)
                enough in
            inl (
              a,
              b,
              code,
              t,
              naks,
              speed,
              nak_inside fuel now (j + 1) end id s a b ∙ (rw e run),
              p,
              Resent-Inv _ t j end code (noted-Inv now id naks speed s v) p,
            )
      ]
    ]
