-- ===== src/Rup/Endpoint/KeepAlive.antt =====
-- The keep-alive of CRupEndpoint::handle_output_evt over whole cycles of output events.
use smart_net.Base.{
  ℕ, zero, suc, ◌+◌, ◌≤◌, ℤ, Bool, true, false, Option, none, some, ◌∷◌, ◌≡◌, ◌≢◌, refl, is_some,
  ◌>>=◌, is_neg, ◌==◌, arith, ◌∙◌, ap, cmnerr_suc, Bool-cases, ==-of_ne, inl, inr,
}
use smart_net.Rup.Endpoint.{opened, deling_from_it, internal_err, Endpoint, ask, del_from_it}
use smart_net.Rup.Endpoint.Inv.{opened_err}
use smart_net.Rup.Endpoint.Io.{
  max_cycle_cnt, tell, send_hb_if_idle, check_peer, keep_alive, handle_output_evt, quiet_outputs,
}

bind_some : (m : Option Endpoint) → (m >>= λ t. some t) ≡ m
bind_some none = refl
bind_some (some t) = refl

-- What a cycle leaves of an endpoint besides its verdict on the peer.
abbrev after_cycle : Endpoint → Endpoint
after_cycle t = send_hb_if_idle (record t { cycle_cnt = 0 })

after_cycle_lem :
    (t : Endpoint)
    → after_cycle t ≡ record t {
      cycle_cnt = 0;
      log = (after_cycle t).log;
      send_store = (after_cycle t).send_store;
    }
unfolding send_hb_if_idle
after_cycle_lem t = elim (Bool-cases (t.send_cnt == t.send_store)) [
  | inl idle ↦ rw (idle, send_hb_if_idle) refl
  | inr busy ↦ rw (busy, send_hb_if_idle) refl
]

module _ (del_ret : ℤ) where
  output_lem :
      (t : Endpoint)
      → t.cur ≡ opened
      → is_some t.sock ≡ true
      → handle_output_evt del_ret cmnerr_suc t ≡ keep_alive del_ret t
  unfolding handle_output_evt
  output_lem t o s = rw (o, handle_output_evt) (rw s refl)

  early_lem :
      (t : Endpoint)
      → t.cycle_cnt + 1 ≤ max_cycle_cnt
      → keep_alive del_ret t ≡ some (record t { cycle_cnt = t.cycle_cnt + 1 })
  unfolding keep_alive
  early_lem t early = ground arith

  due_lem :
      (t : Endpoint)
      → t.cycle_cnt ≡ max_cycle_cnt
      → keep_alive del_ret t ≡ check_peer del_ret (send_hb_if_idle (record t { cycle_cnt = 0 }))
  unfolding keep_alive
  due_lem t due = ground arith

  -- A cycle: all but the last event only count.
  cycle_lem :
      (k : ℕ) (t : Endpoint)
      → t.cur ≡ opened
      → is_some t.sock ≡ true
      → t.cycle_cnt + k ≡ max_cycle_cnt
      → quiet_outputs del_ret (suc k) t
        ≡ check_peer del_ret (send_hb_if_idle (record t { cycle_cnt = 0 }))
  unfolding quiet_outputs
  cycle_lem zero t o s due =
      rw (output_lem t o s ∙ due_lem t (omega arith))
        (bind_some (check_peer del_ret (send_hb_if_idle (record t { cycle_cnt = 0 }))))
  cycle_lem (suc k) t o s due =
      rw (output_lem t o s ∙ early_lem t (omega arith))
        (cycle_lem k (record t { cycle_cnt = t.cycle_cnt + 1 }) o s (omega arith))

  -- The verdict on a peer.
  first_silence :
      (t : Endpoint)
      → t.recv_cnt ≡ t.recv_store
      → t.will_close ≡ false
      → check_peer del_ret t ≡ some (record t { will_close = true })
  unfolding check_peer
  first_silence t silent new = ground arith

  second_silence :
      (t : Endpoint)
      → t.recv_cnt ≡ t.recv_store
      → t.will_close ≡ true
      → check_peer del_ret t ≡ tell del_ret internal_err t
  unfolding check_peer
  second_silence t silent again = ground arith

  heard_lem :
      (t : Endpoint)
      → t.recv_cnt ≢ t.recv_store
      → check_peer del_ret t ≡ some (record t { will_close = false; recv_store = t.recv_cnt })
  unfolding check_peer
  heard_lem t heard = rw (==-of_ne t.recv_cnt t.recv_store heard) refl

  err_opened :
      (t : Endpoint) (b : Bool)
      → is_neg del_ret ≡ false
      → t.cur ≡ opened
      → t.sock ≡ some b
      → tell del_ret internal_err t
        ≡ some (record (ask del_from_it t) { cur = deling_from_it; sock = some false })
  err_opened t b goes o q =
      ap (λ s. tell del_ret internal_err (record t { cur = s })) o
      ∙ (rw (opened_err del_ret t b goes q) refl)

  -- The endpoint behind a cycle: `log` and `send_store` tell what was sent.
  abbrev behind : Endpoint → Endpoint
  behind t = record t {
    cycle_cnt = 0;
    log = (after_cycle t).log;
    send_store = (after_cycle t).send_store;
  }

  whole_cycle :
      (k : ℕ) (t : Endpoint)
      → k ≡ max_cycle_cnt
      → t.cur ≡ opened
      → is_some t.sock ≡ true
      → t.cycle_cnt ≡ 0
      → quiet_outputs del_ret (suc k) t ≡ check_peer del_ret (behind t)
  whole_cycle k t all o s start =
      cycle_lem k t o s (omega arith) ∙ ap (check_peer del_ret) (after_cycle_lem t)

  -- An open endpoint whose peer was heard up to the last cycle, and then is silent: after one cycle
  -- of output events it is still open, with its socket, and warned; after a second one its socket
  -- is closed, and the last thing asked of the engine is that the input task drops it, when the
  -- engine's del_endpoint returns success.
  pub silent_peer_cut :
      (k : ℕ) (t : Endpoint) (b : Bool)
      → is_neg del_ret ≡ false
      → k ≡ max_cycle_cnt
      → t.cur ≡ opened
      → t.sock ≡ some b
      → t.cycle_cnt ≡ 0
      → t.recv_cnt ≡ t.recv_store
      → t.will_close ≡ false
      → (u : Endpoint) × (quiet_outputs del_ret (suc k) t ≡ some u)
        × (u.cur ≡ opened)
        × (u.sock ≡ some b)
        × (u.will_close ≡ true)
        × (w : Endpoint) × (quiet_outputs del_ret (suc k) u ≡ some w)
        × (w.cur ≡ deling_from_it)
        × (w.sock ≡ some false)
        × (w.log ≡ del_from_it ∷ (send_hb_if_idle (record u { cycle_cnt = 0 })).log)
  silent_peer_cut k t b goes all o q start silent new =
      let s : is_some t.sock ≡ true = rw q refl in
      let u = record (behind t) { will_close = true } in
      (
        u,
        whole_cycle k t all o s start ∙ first_silence (behind t) silent new,
        o,
        q,
        refl,
        record (ask del_from_it (behind u)) { cur = deling_from_it; sock = some false },
        whole_cycle k u all o s refl
            ∙ second_silence (behind u) silent refl
            ∙ err_opened (behind u) b goes o q,
        refl,
        refl,
        refl,
      )

  -- An open endpoint whose peer was heard in the last cycle stays open, with its socket, after the
  -- cycle; any warning is taken back, and the next cycle starts with what was received up to now.
  pub heard_peer_kept :
      (k : ℕ) (t : Endpoint)
      → k ≡ max_cycle_cnt
      → t.cur ≡ opened
      → is_some t.sock ≡ true
      → t.cycle_cnt ≡ 0
      → t.recv_cnt ≢ t.recv_store
      → (u : Endpoint) × (quiet_outputs del_ret (suc k) t ≡ some u)
        × (u.cur ≡ opened)
        × (u.sock ≡ t.sock)
        × (u.will_close ≡ false)
        × (u.recv_store ≡ u.recv_cnt)
        × (u.cycle_cnt ≡ 0)
  heard_peer_kept k t all o s start heard = (
    record (behind t) { will_close = false; recv_store = t.recv_cnt },
    whole_cycle k t all o s start ∙ heard_lem (behind t) heard,
    o,
    refl,
    refl,
    refl,
    refl,
  )
