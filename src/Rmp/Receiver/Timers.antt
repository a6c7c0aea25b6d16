-- ===== src/Rmp/Receiver/Timers.antt =====
-- The receiving half of CRmpSock::handle_can_send in libcomm_net/src/network/sn_socket_impl.cpp,
-- which acknowledges and asks for what is missing, each after an interval.
use smart_net.Base.{
  ℕ, ◌+◌, ◌-◌, ◌≤◌, ◌<◌, ◌≡◌, ◌≢◌, ◌∙◌, inl, inr, ℤ, true, ◌&&◌, List, ◌∷◌, Option, none, some,
  arith, is_suc, ◌>>=◌, inc64, inc64_exact, sub64, ltb, leb, ◌==◌, if◌then◌else◌, Option-cases,
}
use smart_net.Rmp.Packet.{Pkg, nak, ack}
use smart_net.Rmp.Receiver.{Receiver, set_ack, send_asserted, send_ack_interval, send_nak_interval}
use smart_net.Rmp.Receiver.Buffer.{free_of_outside}
use smart_net.Rmp.Receiver.Drain.{IsAckOf, send_asserted_lem}
use smart_net.Rmp.Receiver.Inv.{Inv, Has}

module _ (udp_send : Pkg → ℤ) where
  pub ack_timer : ℕ → Receiver → Option Receiver
  ack_timer now r =
      let started = if r.last_send_ack_time == 0 then now else r.last_send_ack_time in
      if ltb send_ack_interval (sub64 now started)
      then set_ack udp_send true (record r { last_send_ack_time = now })
      else some (record r { last_send_ack_time = started })

  pub nak_timer : ℕ → Receiver → Option Receiver
  nak_timer now r =
      let started = if r.last_send_nak_time == 0 then now else r.last_send_nak_time in
      let from = inc64 r.latest in
      let upto = r.unvalid_begin - 1 in
      let late = record r { last_send_nak_time = now } in
      if ltb send_nak_interval (sub64 now started) && ltb r.latest r.unvalid_begin
      then (if leb from upto then send_asserted udp_send (nak from upto r.epid) late else some late)
      else some (record r { last_send_nak_time = started })

  pub recv_handle_can_send : ℕ → Receiver → Option Receiver
  recv_handle_can_send now r = do acked ← ack_timer now r; nak_timer now acked

module _ (size : ℕ) (stream : ℕ → List ℕ) (udp_send : Pkg → ℤ)
    (sends : (p : Pkg) → is_suc (udp_send p) ≡ true) where
  -- When the interval has passed since a started timer and packets wait behind a gap, a receiver
  -- whose sends are accepted asks for the numbers of the gap: none of them has arrived, and the
  -- packet behind them has.
  pub nak_timer_asks_gap :
      (now : ℕ) (r : Receiver)
      → Inv size stream r
      → r.last_send_nak_time ≢ 0
      → send_nak_interval < sub64 now r.last_send_nak_time
      → 0 < r.unvalid_begin
      → (nak_timer udp_send now r
          ≡ some (record r {
            last_send_nak_time = now;
            out = nak (r.latest + 1) (r.unvalid_begin - 1) r.epid ∷ r.out;
          }))
        × (r.latest + 1 ≤ r.unvalid_begin - 1)
        × ((k : ℕ) → r.latest + 1 ≤ k → k ≤ r.unvalid_begin - 1 → ¬ Has size stream r k)
        × Has size stream r r.unvalid_begin
  unfolding nak_timer
  nak_timer_asks_gap now r v started late waits = (
    ground (
      arith,
      inc64_exact r.latest,
      send_asserted_lem udp_send sends (nak (r.latest + 1) (r.unvalid_begin - 1) r.epid)
          (record r { last_send_nak_time = now }),
    ),
    gap.0,
    missing,
    inr (omega (arith, gap), omega (arith, gap), v.buffer.first_stored waits),
  )
    where
      gap :
          (r.latest + 1 ≤ r.unvalid_begin - 1)
          × (r.latest + 1 < r.unvalid_begin)
          × (r.unvalid_begin ≤ r.latest + size)
      gap = elim v.buffer.range [
        | inl z ↦ absurd (omega arith)
        | inr o ↦ (omega arith, omega arith, omega arith)
      ]

      missing : (k : ℕ) → r.latest + 1 ≤ k → k ≤ r.unvalid_begin - 1 → ¬ Has size stream r k
      missing k a b (inl old) = omega arith
      missing k a b (inr (c, d, full)) = full (
          free_of_outside size stream r.latest r.unvalid_begin r.unvalid_end r.slots v.buffer k c d
            (inl (omega (arith, gap))))

  ack_timer_keeps : (now : ℕ) (r s : Receiver) → ack_timer udp_send now r ≡ some s → IsAckOf r s
  unfolding ack_timer set_ack send_asserted
  ack_timer_keeps now r s h = ground arith

  ack_timer-ne-none : (now : ℕ) (r : Receiver) → ack_timer udp_send now r ≢ none
  unfolding ack_timer set_ack send_asserted
  ack_timer-ne-none now r h = ground (arith, sends (ack r.latest r.epid))

  nak_timer_keeps : (now : ℕ) (r s : Receiver) → nak_timer udp_send now r ≡ some s → IsAckOf r s
  unfolding nak_timer send_asserted
  nak_timer_keeps now r s h = ground arith

  nak_timer-ne-none : (now : ℕ) (r : Receiver) → nak_timer udp_send now r ≢ none
  unfolding nak_timer send_asserted
  nak_timer-ne-none now r h =
      ground (arith, sends (nak (inc64 r.latest) (r.unvalid_begin - 1) r.epid))

  Inv_ack : (r s : Receiver) → Inv size stream r → IsAckOf r s → Inv size stream s
  Inv_ack r s v k = record {
    buffer = rw (k.same_latest, k.same_begin, k.same_end, k.same_slots) v.buffer;
    idle = rw k.same_mem v.idle;
    begin_reset = k.same_valid_begin ∙ v.begin_reset;
    end_reset = k.same_valid_end ∙ v.end_reset;
  }

  -- At any time the timers of a receiver between two packets end, fail no assertion if what they
  -- send is taken, and leave it between two packets with the same packets handed out and stored.
  pub recv_handle_can_send_total :
      (now : ℕ) (r : Receiver)
      → Inv size stream r
      → (s : Receiver) × (recv_handle_can_send udp_send now r ≡ some s)
        × Inv size stream s
        × (s.latest ≡ r.latest)
        × (s.slots ≡ r.slots)
  unfolding recv_handle_can_send
  recv_handle_can_send_total now r v = elim (Option-cases (ack_timer udp_send now r)) [
    | inl n ↦ absurd (ack_timer-ne-none now r n)
    | inr (t, e) ↦ elim (Option-cases (nak_timer udp_send now t)) [
      | inl n ↦ absurd (nak_timer-ne-none now t n)
      | inr (s, e') ↦
          let k = ack_timer_keeps now r t e in
          let k' = nak_timer_keeps now t s e' in
          (
            s,
            rw e e',
            Inv_ack t s (Inv_ack r t v k) k',
            k'.same_latest ∙ k.same_latest,
            k'.same_slots ∙ k.same_slots,
          )
    ]
  ]
