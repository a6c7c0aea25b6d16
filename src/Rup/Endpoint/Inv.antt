-- ===== src/Rup/Endpoint/Inv.antt =====
-- What each state of CRupEndpoint says of the endpoint's fields, and that no event breaks it.
use smart_net.Base.{
  ◌==◌, ℤ, pos, negsuc, Bool, true, false, Option, none, some, ◌≡◌, ◌⊎◌, inl, inr, refl, is_some,
  is_neg, Bool-cases, arith,
}
use smart_net.StateMachine.{find_elem, reg_evt_state, find, assign, post_evt, run_elem}
use smart_net.Rup.Endpoint.{
  state_code, EpState, added_into_helper, opened_ready, opened, closing, closed_ready, closed,
  adding_into_ot, adding_into_it, deled_from_it, deling_from_it, deling_from_ot, EpEvt, none_evt,
  open_evt, close_evt, internal_err, connected, added_into_ot, added_into_it, deled_from_it_evt,
  deled_from_ot_evt, Endpoint, EpState-Enum, EpEvt-Enum, init_sm, shut_while_opened, post,
  add_to_ot, add_to_it, del_from_ot, del_from_it, on_opened, on_closed, Endpoint-HasState, ask,
  is_none_evt,
}

-- The socket is there from the connection to the end. The helper's queue has the endpoint only while
-- it waits. The states that the table never names are not reached.
abbrev pub Valid : EpState → EpEvt → Option Bool → Bool → Type 0
Valid closed p sock queued = (sock ≡ none) × (queued ≡ false)
Valid added_into_helper p sock queued = (sock ≡ none) × (p ≡ none_evt)
Valid adding_into_ot p sock queued =
    (is_some sock ≡ true) × (queued ≡ false) × ((p ≡ none_evt) ⊎ (p ≡ close_evt))
Valid adding_into_it p sock queued = (is_some sock ≡ true) × (queued ≡ false)
Valid opened p sock queued = (is_some sock ≡ true) × (queued ≡ false)
Valid deling_from_it p sock queued = (is_some sock ≡ true) × (queued ≡ false)
Valid deling_from_ot p sock queued = (is_some sock ≡ true) × (queued ≡ false)
Valid s p sock queued = ⊥

abbrev pub Inv : Endpoint → Type 0
Inv t = Valid t.cur t.pending t.sock t.in_helper

-- What the surroundings do: an endpoint that waits is closed while the helper's queue has it, and is
-- given a socket when the helper has taken it out; the output task adds it without an error.
abbrev pub IsExpected : EpEvt → EpState → Option Bool → Bool → Type 0
IsExpected close_evt added_into_helper p queued = queued ≡ true
IsExpected close_evt s p queued = Unit
IsExpected connected added_into_helper p queued = (is_some p ≡ true) × (queued ≡ false)
IsExpected connected s p queued = Unit
IsExpected internal_err adding_into_ot p queued = ⊥
IsExpected internal_err s p queued = Unit
IsExpected e s p queued = Unit

module _ (del_ret : ℤ) where
  -- The event is processed without a failed assertion.
  abbrev pub Stays : EpEvt → Option Bool → Endpoint → Type 0
  Stays e p t = (code : ℤ) × (t' : Endpoint) × (post del_ret e p t ≡ some (code, t')) × Inv t'

  ignored :
      (e : EpEvt) (t : Endpoint) (p : Option Bool)
      → post del_ret e p t ≡ some (negsuc 0, t)
      → Inv t
      → Stays e p t
  ignored e t p h v = (negsuc 0, t, h, v)

  sock_of : (o : Option Bool) → is_some o ≡ true → (b : Bool) × (o ≡ some b)
  sock_of none h = cc
  sock_of (some b) h = (b, refl)

  -- Closing an open endpoint: the engine's value decides whether it leaves its state.
  shut_run :
      (e : EpEvt) (p : Option Bool) (t : Endpoint)
      → Inv (record t { cur = opened })
      → (code : ℤ) × (t' : Endpoint) × (run_elem e p
            (record { end_state = deling_from_it; fun = some (shut_while_opened del_ret) })
            (record t { cur = opened })
          ≡ some (code, t'))
        × Inv t'
  unfolding run_elem Endpoint-HasState
  shut_run e p t v =
      let (b, q) = sock_of t.sock (v.0) in
      elim (Bool-cases (is_neg del_ret)) [
        | inl fails ↦ (
          negsuc 1,
          record (ask del_from_it t) { cur = opened; sock = some false },
          rw (q, run_elem) (rw fails refl),
          (refl, v.1),
        )
        | inr goes ↦ (
          pos 0,
          record (ask del_from_it t) { cur = deling_from_it; sock = some false },
          rw (q, run_elem) (rw goes refl),
          (refl, v.1),
        )
      ]

  closed-Stays :
      (e : EpEvt) (p : Option Bool) (t : Endpoint)
      → Inv (record t { cur = closed })
      → Stays e p (record t { cur = closed })
  unfolding post init_sm reg_evt_state find_elem find assign post_evt run_elem EpState-Enum
      EpEvt-Enum Endpoint-HasState
  closed-Stays none_evt p t v = (_, _, refl, v)
  closed-Stays open_evt p t v = (_, _, refl, (v.0, refl))
  closed-Stays e p t v = (_, _, refl, v)

  opened-Stays :
      (e : EpEvt) (p : Option Bool) (t : Endpoint)
      → Inv (record t { cur = opened })
      → Stays e p (record t { cur = opened })
  unfolding post init_sm reg_evt_state find_elem find assign post_evt run_elem EpState-Enum
      EpEvt-Enum Endpoint-HasState
  opened-Stays none_evt p t v = (_, _, refl, v)
  opened-Stays close_evt p t v = shut_run close_evt p t v
  opened-Stays internal_err p t v = shut_run internal_err p t v
  opened-Stays e p t v = (_, _, refl, v)

  added_into_helper-Stays :
      (e : EpEvt) (p : Option Bool) (t : Endpoint)
      → Inv (record t { cur = added_into_helper })
      → IsExpected e added_into_helper p t.in_helper
      → Stays e p (record t { cur = added_into_helper })
  unfolding post init_sm reg_evt_state find_elem find assign post_evt run_elem EpState-Enum
      EpEvt-Enum Endpoint-HasState
  added_into_helper-Stays none_evt p t v x = (_, _, refl, v)
  added_into_helper-Stays close_evt p t v x = (
    negsuc 1,
    record (ask on_closed t) { cur = closed; sock = none; in_helper = false },
    rw (v.0, run_elem) (rw x refl),
    (refl, refl),
  )
  added_into_helper-Stays connected p t v x = (
    pos 0,
    record (ask add_to_ot t) { cur = adding_into_ot; sock = p },
    rw (v.0, run_elem) refl,
    (x.0, x.1, inl (v.1)),
  )
  added_into_helper-Stays e p t v x = (_, _, refl, v)

  adding_into_it-Stays :
      (e : EpEvt) (p : Option Bool) (t : Endpoint)
      → Inv (record t { cur = adding_into_it })
      → Stays e p (record t { cur = adding_into_it })
  unfolding post init_sm reg_evt_state find_elem find assign post_evt run_elem EpState-Enum
      EpEvt-Enum Endpoint-HasState
  adding_into_it-Stays none_evt p t v = (_, _, refl, v)
  adding_into_it-Stays close_evt p t v = (_, _, refl, v)
  adding_into_it-Stays internal_err p t v = (_, _, refl, v)
  adding_into_it-Stays added_into_it p t v =
      let (b, q) = sock_of t.sock (v.0) in
      elim (Bool-cases (is_none_evt t.pending)) [
        | inl calm ↦ (pos 0, record (ask on_opened t) { cur = opened }, ground arith, v)
        | inr late ↦ (
          negsuc 1,
          record (ask del_from_ot t) { cur = deling_from_ot; sock = some false },
          ground (arith, q),
          (refl, v.1),
        )
      ]
  adding_into_it-Stays e p t v = (_, _, refl, v)

  adding_into_ot-Stays :
      (e : EpEvt) (p : Option Bool) (t : Endpoint)
      → Inv (record t { cur = adding_into_ot })
      → IsExpected e adding_into_ot p t.in_helper
      → Stays e p (record t { cur = adding_into_ot })
  unfolding post init_sm reg_evt_state find_elem find assign post_evt run_elem EpState-Enum
      EpEvt-Enum Endpoint-HasState
  adding_into_ot-Stays none_evt p t v x = (_, _, refl, v)
  adding_into_ot-Stays close_evt p t v x = (_, _, refl, (v.0, v.1, inr refl))
  adding_into_ot-Stays internal_err p t v x = absurd x
  adding_into_ot-Stays added_into_ot p t v x =
      let (b, q) = sock_of t.sock (v.0) in
      elim (v.2) [
        | inl calm ↦
            (pos 0, record (ask add_to_it t) { cur = adding_into_it }, rw calm refl, (v.0, v.1))
        | inr late ↦ (
          negsuc 1,
          record (ask del_from_ot t) { cur = deling_from_ot; sock = some false },
          rw late (rw q refl),
          (refl, v.1),
        )
      ]
  adding_into_ot-Stays e p t v x = (_, _, refl, v)

  deling_from_it-Stays :
      (e : EpEvt) (p : Option Bool) (t : Endpoint)
      → Inv (record t { cur = deling_from_it })
      → Stays e p (record t { cur = deling_from_it })
  unfolding post init_sm reg_evt_state find_elem find assign post_evt run_elem EpState-Enum
      EpEvt-Enum Endpoint-HasState
  deling_from_it-Stays none_evt p t v = (_, _, refl, v)
  deling_from_it-Stays deled_from_it_evt p t v = elim (Bool-cases (is_neg del_ret)) [
    | inl fails ↦ (negsuc 1, ask del_from_ot (record t { cur = deling_from_it }), rw fails refl, v)
    | inr goes ↦ (pos 0, record (ask del_from_ot t) { cur = deling_from_ot }, rw goes refl, v)
  ]
  deling_from_it-Stays e p t v = (_, _, refl, v)

  deling_from_ot-Stays :
      (e : EpEvt) (p : Option Bool) (t : Endpoint)
      → Inv (record t { cur = deling_from_ot })
      → Stays e p (record t { cur = deling_from_ot })
  unfolding post init_sm reg_evt_state find_elem find assign post_evt run_elem EpState-Enum
      EpEvt-Enum Endpoint-HasState
  deling_from_ot-Stays none_evt p t v = (_, _, refl, v)
  deling_from_ot-Stays deled_from_ot_evt p t v = (_, _, refl, (refl, v.1))
  deling_from_ot-Stays e p t v = (_, _, refl, v)

  -- An internal error of an open endpoint, when the engine's del_endpoint returns success.
  pub opened_err :
      (t : Endpoint) (b : Bool)
      → is_neg del_ret ≡ false
      → t.sock ≡ some b
      → post del_ret internal_err none (record t { cur = opened })
        ≡ some (pos 0, record (ask del_from_it t) { cur = deling_from_it; sock = some false })
  unfolding post init_sm reg_evt_state find_elem find assign post_evt run_elem EpState-Enum
      EpEvt-Enum Endpoint-HasState
  opened_err t b goes q = rw (q, run_elem) (rw goes refl)

  -- The output task reports an error while it adds the endpoint.
  pub adding_err :
      (t : Endpoint)
      → post del_ret internal_err none (record t { cur = adding_into_ot })
        ≡ some (pos 0, record t { cur = closed; pending = internal_err })
  unfolding post init_sm reg_evt_state find_elem find assign post_evt run_elem EpState-Enum
      EpEvt-Enum Endpoint-HasState
  adding_err t = refl

  pub closed_ignores :
      (t : Endpoint)
      → post del_ret added_into_ot none (record t { cur = closed })
        ≡ some (negsuc 0, record t { cur = closed })
  unfolding post init_sm reg_evt_state find_elem find assign post_evt run_elem EpState-Enum
      EpEvt-Enum Endpoint-HasState
  closed_ignores t = refl

  pub closed_opens :
      (t : Endpoint)
      → post del_ret open_evt none (record t { cur = closed })
        ≡ some (
          pos 0,
          record t {
            cur = added_into_helper;
            pending = none_evt;
            send_cnt = 0;
            recv_cnt = 0;
            send_store = 0;
            recv_store = 0;
            cycle_cnt = 0;
            will_close = false;
            in_helper = true;
          },
        )
  unfolding post init_sm reg_evt_state find_elem find assign post_evt run_elem EpState-Enum
      EpEvt-Enum Endpoint-HasState
  closed_opens t = refl

  pub connect_twice :
      (t : Endpoint) (p : Option Bool)
      → is_some t.sock ≡ true
      → post del_ret connected p (record t { cur = added_into_helper }) ≡ none
  unfolding post init_sm reg_evt_state find_elem find assign post_evt run_elem EpState-Enum
      EpEvt-Enum Endpoint-HasState
  connect_twice t p h = rw (h, run_elem) refl

  pub connect_waiting :
      (t : Endpoint) (b : Bool)
      → t.sock ≡ none
      → post del_ret connected (some b) (record t { cur = added_into_helper })
        ≡ some (pos 0, record (ask add_to_ot t) { cur = adding_into_ot; sock = some b })
  unfolding post init_sm reg_evt_state find_elem find assign post_evt run_elem EpState-Enum
      EpEvt-Enum Endpoint-HasState
  connect_waiting t b n = rw (n, run_elem) refl

  pub connect_ignored :
      (s : EpState) (t : Endpoint) (p : Option Bool)
      → (state_code s == 0) ≡ false
      → post del_ret connected p (record t { cur = s }) ≡ some (negsuc 0, record t { cur = s })
  unfolding post init_sm reg_evt_state find_elem find assign post_evt run_elem EpState-Enum
      EpEvt-Enum Endpoint-HasState
  connect_ignored added_into_helper t p h = absurd (cc h)
  connect_ignored s t p h = refl

  pub close_popped :
      (t : Endpoint)
      → t.in_helper ≡ false
      → post del_ret close_evt none (record t { cur = added_into_helper }) ≡ none
  unfolding post init_sm reg_evt_state find_elem find assign post_evt run_elem EpState-Enum
      EpEvt-Enum Endpoint-HasState
  close_popped t h = elim (Bool-cases (is_some t.sock)) [
    | inl s ↦ rw (s, run_elem) refl
    | inr n ↦ rw (n, run_elem) (rw h refl)
  ]

  -- An event at an endpoint whose fields fit its state is processed without a failed assertion or a
  -- null pointer, whatever the engine's del_endpoint returns, and the fields fit the state again,
  -- when no internal error comes while the output task adds the endpoint, an endpoint that waits
  -- for a connection is closed only while it is in the queue of its helper, and it is given a
  -- connection, with a socket, only when it is out of that queue.
  pub post_total :
      (e : EpEvt) (p : Option Bool) (t : Endpoint)
      → Inv t
      → IsExpected e t.cur p t.in_helper
      → Stays e p t
  post_total e p t v x = by_state t.cur v x
    where
      by_state :
          (s : EpState)
          → Inv (record t { cur = s })
          → IsExpected e s p t.in_helper
          → Stays e p (record t { cur = s })
      by_state closed v x = closed-Stays e p t v
      by_state added_into_helper v x = added_into_helper-Stays e p t v x
      by_state adding_into_ot v x = adding_into_ot-Stays e p t v x
      by_state adding_into_it v x = adding_into_it-Stays e p t v
      by_state opened v x = opened-Stays e p t v
      by_state deling_from_it v x = deling_from_it-Stays e p t v
      by_state deling_from_ot v x = deling_from_ot-Stays e p t v
      by_state opened_ready v x = absurd v
      by_state closing v x = absurd v
      by_state closed_ready v x = absurd v
      by_state deled_from_it v x = absurd v

-- Only an endpoint that waits is in the helper's queue.
pub Valid-not_queued :
    (s : EpState) (p : EpEvt) (sock : Option Bool) (queued : Bool)
    → Valid s p sock queued
    → (state_code s == 0) ≡ false
    → queued ≡ false
Valid-not_queued added_into_helper p sock queued v h = absurd (cc h)
Valid-not_queued closed p sock queued v h = v.1
Valid-not_queued adding_into_ot p sock queued v h = v.1
Valid-not_queued adding_into_it p sock queued v h = v.1
Valid-not_queued opened p sock queued v h = v.1
Valid-not_queued deling_from_it p sock queued v h = v.1
Valid-not_queued deling_from_ot p sock queued v h = v.1
Valid-not_queued opened_ready p sock queued v h = absurd v
Valid-not_queued closing p sock queued v h = absurd v
Valid-not_queued closed_ready p sock queued v h = absurd v
Valid-not_queued deled_from_it p sock queued v h = absurd v
