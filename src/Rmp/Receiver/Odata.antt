-- ===== src/Rmp/Receiver/Odata.antt =====
-- CRmpSock::recvep_handle_odata followed by the loop over get_next_recved_data, branch by branch.
use smart_net.Base.{
  ℕ, ◌+◌, ◌-◌, ◌^◌, ◌≤◌, ◌<◌, ◌≡◌, ◌≢◌, List, some, arith, ◌>>=◌, inc64, inc64_exact, cmnerr_suc,
  cmnerr_odata_ready,
}
use smart_net.Rmp.Packet.{odata_hdr_size, empty_mem}
use smart_net.Rmp.Receiver.{
  Receiver, recvep_handle_odata, accept_next, activate, widen, store, find_valid_end,
  find_unvalid_begin,
}

-- m_pMem with the header taken off.
abbrev pub holding : List ℕ → Receiver → Receiver
holding body r = record r { mem = some (record { offset = odata_hdr_size; body = body }) }

module _ (size : ℕ) where
  pub handle_next :
      (seq : ℕ) (body : List ℕ) (r : Receiver)
      → seq ≡ r.latest + 1
      → seq < 2 ^ 64
      → recvep_handle_odata size seq body r
        ≡ some (cmnerr_odata_ready, accept_next size (holding body r))
  unfolding recvep_handle_odata
  handle_next seq body r e w = ground (arith, inc64_exact r.latest)

  pub handle_repeat :
      (seq : ℕ) (body : List ℕ) (r : Receiver)
      → seq ≤ r.latest
      → r.latest + 1 < 2 ^ 64
      → recvep_handle_odata size seq body r ≡ some (cmnerr_suc, record r { mem = some empty_mem })
  unfolding recvep_handle_odata
  handle_repeat seq body r e w = ground (arith, inc64_exact r.latest)

  pub handle_ahead :
      (seq : ℕ) (body : List ℕ) (r : Receiver)
      → r.latest + 1 < seq
      → seq < 2 ^ 64
      → recvep_handle_odata size seq body r ≡ (
          widen size seq (holding body r) >>= λ wide.
          store size seq wide >>= λ stored. some (cmnerr_suc, stored))
  unfolding recvep_handle_odata
  handle_ahead seq body r e w = ground (arith, inc64_exact r.latest)

  pub accept_plain :
      (r : Receiver)
      → r.latest + 2 < 2 ^ 64
      → r.latest + 2 ≢ r.unvalid_begin
      → accept_next size r ≡ record r { latest = r.latest + 1 }
  unfolding accept_next
  accept_plain r w ne = ground (arith, inc64_exact r.latest, inc64_exact (r.latest + 1))

  pub accept_meets :
      (r : Receiver)
      → r.latest + 2 < 2 ^ 64
      → r.latest + 2 ≡ r.unvalid_begin
      → accept_next size r ≡ activate size (record r { latest = r.latest + 1 })
  unfolding accept_next
  accept_meets r w ne = ground (arith, inc64_exact r.latest, inc64_exact (r.latest + 1))

  -- The two scans over the stored range of `r`.
  abbrev pub run_end : Receiver → ℕ
  run_end r =
      find_valid_end size (r.unvalid_end - r.unvalid_begin) r.slots r.unvalid_end r.unvalid_begin

  abbrev pub next_begin : Receiver → ℕ
  next_begin r =
      find_unvalid_begin size (r.unvalid_end - inc64 (run_end r)) r.slots r.unvalid_end
        (inc64 (run_end r))

  pub activate_some :
      (r : Receiver)
      → run_end r < r.unvalid_end
      → activate size r ≡ record r {
        valid_begin = r.unvalid_begin;
        valid_end = run_end r;
        unvalid_begin = next_begin r;
        latest = run_end r;
      }
  unfolding activate
  activate_some r h = ground arith

  pub activate_all :
      (r : Receiver)
      → r.unvalid_end ≤ run_end r
      → activate size r ≡ record r {
        valid_begin = r.unvalid_begin;
        valid_end = run_end r;
        unvalid_begin = 0;
        unvalid_end = 0;
        latest = run_end r;
      }
  unfolding activate
  activate_all r h = ground arith
