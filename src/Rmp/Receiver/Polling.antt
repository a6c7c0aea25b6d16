-- ===== src/Rmp/Receiver/Polling.antt =====
-- CRmpSock::udp_recv, the loop of CRmpSock::handle_can_recv at a receiver, and
-- CRmpEndpoint::handle_input_evt, which the input task calls as long as datagrams wait.
use smart_net.Base.{
  ℕ, zero, suc, ℤ, true, false, ◌&&◌, Option, none, some, List, [], ◌∷◌, ◌++◌, ◌==◌, if◌then◌else◌,
  ◌>>=◌, ◌>>◌, cmn_assert, is_suc, is_odata_ready, is_recv_pending, cmnerr_suc, cmnerr_io_err,
  cmnerr_recv_pending,
}
use smart_net.Rmp.Packet.{Pkg, Datagram, Mem, empty_mem, get_len}
use smart_net.Rmp.Receiver.{Receiver, recvep_handle_pkg, drain}

-- What recvfrom() returns: a datagram, or -1 with errno; it would block when nothing is left.
pub data Arrival : Type 0 where
  packet : Datagram → Arrival
  interrupted : Arrival
  failed : Arrival

unfoldable pub udp_recv : List Arrival → Option (ℤ × Option Datagram × List Arrival)
udp_recv [] = some (cmnerr_recv_pending, none, [])
udp_recv (packet d ∷ q) = some (cmnerr_suc, some d, q)
udp_recv (interrupted ∷ q) = none
udp_recv (failed ∷ q) = some (cmnerr_io_err, none, q)

-- The block to receive into: a new one, or one that must be empty.
unfoldable pub prepare : Receiver → Option Receiver
prepare r = elim r.mem [
  | none ↦ some (record r { mem = some empty_mem })
  | some m ↦ cmn_assert ((get_len m == 0) && (m.offset == 0)) >> some r
]

module _ (size : ℕ) (udp_send : Pkg → ℤ) where
  unfoldable pub handle_can_recv : List Arrival → Receiver → Option (ℤ × List Arrival × Receiver)
  handle_can_recv [] r = prepare r >>= λ r'. some (cmnerr_recv_pending, [], r')
  handle_can_recv (interrupted ∷ q) r = prepare r >>= λ r'. none
  handle_can_recv (failed ∷ q) r = prepare r >>= λ r'. some (cmnerr_io_err, q, r')
  handle_can_recv (packet d ∷ q) r = prepare r >>= λ r'.
      recvep_handle_pkg size udp_send d r' >>= λ s. elim (is_suc (s.0)) [
        | true ↦ handle_can_recv q (s.1)
        | false ↦ some (s.0, q, s.1)
      ]

  -- The code tells whether CRmpEndpoint::handle_input_evt posts EE_INTERNAL_ERR.
  unfoldable pub handle_input :
      (fuel : ℕ)
      → List Arrival
      → Receiver
      → Option (ℤ × List (Option Mem) × List Arrival × Receiver)
  handle_input fuel q r = handle_can_recv q r >>= λ s. elim (is_odata_ready (s.0)) [
    | true ↦ drain size udp_send fuel (s.2) >>= λ p. some (s.0, p.0, s.1, p.1)
    | false ↦ some (s.0, [], s.1, s.2)
  ]

  -- The input task calls handle_input_evt while datagrams wait, `calls` times at most, and stops at an
  -- error.
  unfoldable pub poll :
      (calls fuel : ℕ) → List Arrival → Receiver → Option (List (Option Mem) × Receiver)
  poll zero fuel q r = none
  poll (suc calls) fuel q r = handle_input fuel q r >>= λ s. elim (is_odata_ready (s.0)) [
    | true ↦ poll calls fuel (s.2) (s.3) >>= λ p. some (s.1 ++ p.0, p.1)
    | false ↦ if is_recv_pending (s.0) then some (s.1, s.3) else none
  ]
