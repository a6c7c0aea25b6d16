-- ===== src/Rmp/Sender/Polling.antt =====
-- What a sender receives: CRmpSock::sendep_handle_pkg, the loop of CRmpSock::handle_can_recv at a sender, and
-- the loop of CRmpSock::udp_send around sendto().
use smart_net.Base.{
  ℕ, zero, suc, ℤ, ◌+◌, true, false, Option, none, some, List, [], ◌∷◌, ◌>>=◌, is_suc, cmnerr_suc,
  cmnerr_io_err, cmnerr_send_pending, cmnerr_recv_pending,
}
use smart_net.Rmp.Packet.{nak, ack, Datagram}
use smart_net.Rmp.Receiver.Polling.{Arrival, packet, interrupted, failed}
use smart_net.Rmp.Sender.{Sender, Recvers, sendep_handle_nak, sendep_handle_ack}

module _ (win : ℕ) (net : ℕ → ℤ) (place : ℕ → Recvers → ℕ) (tries fuel now : ℕ) where
  -- Only acknowledgements and requests for packets are expected.
  unfoldable pub sendep_handle_pkg : Datagram → Sender → Option (ℤ × Sender)
  sendep_handle_pkg d s = elim d.pkg [
    | nak begin end id ↦ sendep_handle_nak win net place tries fuel now begin end id s
    | ack seq id ↦ sendep_handle_ack place now seq id s
    | _ ↦ none
  ]

  unfoldable pub sender_can_recv : List Arrival → Sender → Option (ℤ × List Arrival × Sender)
  sender_can_recv [] s = some (cmnerr_recv_pending, [], s)
  sender_can_recv (interrupted ∷ q) s = none
  sender_can_recv (failed ∷ q) s = some (cmnerr_io_err, q, s)
  sender_can_recv (packet d ∷ q) s = sendep_handle_pkg d s >>= λ r. elim (is_suc (r.0)) [
    | true ↦ sender_can_recv q (r.1)
    | false ↦ some (r.0, q, r.1)
  ]

-- What one call of sendto() returns: the datagram was taken, or -1 with errno.
pub data Sendto : Type 0 where
  taken : Sendto
  would_block : Sendto
  again : Sendto
  refused : Sendto

-- CRmpSock::udp_send; `answer k` is what the call with the number `k` returns, and `none` is too little
-- fuel.
unfoldable pub sendto_loop : (fuel : ℕ) → (ℕ → Sendto) → ℕ → Option ℤ
sendto_loop zero answer k = none
sendto_loop (suc fuel) answer k = elim (answer k) [
  | taken ↦ some cmnerr_suc
  | would_block ↦ some cmnerr_send_pending
  | refused ↦ some cmnerr_io_err
  | again ↦ sendto_loop fuel answer (k + 1)
]
