-- ===== src/Rup/Connector/Inv.antt =====
-- What each state of CRupConnector says of its fields, and that no event breaks it.
use smart_net.Base.{
  ℕ, ◌<◌, ℤ, pos, negsuc, Bool, true, false, Option, none, some, ◌≡◌, ◌⊎◌, inl, inr, refl, is_some,
  is_neg, Bool-cases, lt→ltb,
}
use smart_net.StateMachine.{find_elem, reg_evt_state, find, assign, post_evt, run_elem}
use smart_net.Rup.Endpoint.Inv.{Inv}
use smart_net.Rup.Acceptor.Give.{expected, give_lem, give-Inv}
use smart_net.Rup.Connector.{
  ConnState, opened, closed, checking_timer, adding_into_ot, deling_from_ot_close, adding_into_tt,
  deling_from_tt, connecting, deling_from_ot_normal, ConnEvt, none_evt, open_evt, connect,
  close_evt, added_into_ot, deled_from_ot, internal_err, added_into_tt, connected, deled_from_tt,
  Connector, ConnParas, ConnState-Enum, ConnEvt-Enum, Connector-HasState, add_timer, del_timer,
  add_to_ot, del_from_ot, on_opened, conn_ask, conn_post, conn_table,
}

-- ES_OPENED is not reached: no transition leads to it.
abbrev pub ConnValid : ConnState → ConnEvt → Option Bool → Type 0
ConnValid opened p sock = ⊥
ConnValid closed p sock = Unit
ConnValid adding_into_tt p sock = (sock ≡ none) × ((p ≡ none_evt) ⊎ (p ≡ close_evt))
ConnValid checking_timer p sock = (sock ≡ none) × (p ≡ none_evt)
ConnValid adding_into_ot p sock = (is_some sock ≡ true) × ((p ≡ none_evt) ⊎ (p ≡ close_evt))
ConnValid connecting p sock = (is_some sock ≡ true) × (p ≡ none_evt)
ConnValid deling_from_ot_close p sock = sock ≡ some false
ConnValid deling_from_ot_normal p sock = (is_some sock ≡ true) × ((p ≡ none_evt) ⊎ (p ≡ close_evt))
ConnValid deling_from_tt p sock = Unit

abbrev pub ConnInv : Connector → Type 0
ConnInv t = ConnValid t.cur t.pending t.sock × ((i : ℕ) → Inv (t.eps i))

-- A connector is opened without a socket and with an interval; a socket that is connected is open; the
-- output task adds it without an error.
abbrev pub ConnExpected : ConnEvt → ConnState → Option Bool → ConnParas → Type 0
ConnExpected open_evt closed sock p = (sock ≡ none) × (0 < p.interval_us)
ConnExpected none_evt closed sock p = (sock ≡ none) × (0 < p.interval_us)
ConnExpected connected connecting sock p = sock ≡ some true
ConnExpected internal_err adding_into_ot sock p = ⊥
ConnExpected e s sock p = Unit

conn_sock : (o : Option Bool) → is_some o ≡ true → (b : Bool) × (o ≡ some b)
conn_sock none h = cc
conn_sock (some b) h = (b, refl)

module _ (del_ret timer_ret : ℤ) where
  abbrev pub ConnStays : ConnEvt → ConnParas → Connector → Type 0
  ConnStays e p t =
      (code : ℤ) × (t' : Connector) × (conn_post del_ret timer_ret e p t ≡ some (code, t'))
      × ConnInv t'

  closed-ConnStays :
      (e : ConnEvt) (p : ConnParas) (t : Connector)
      → ConnInv (record t { cur = closed })
      → ConnExpected e closed t.sock p
      → ConnStays e p (record t { cur = closed })
  unfolding conn_post conn_table reg_evt_state find_elem find assign post_evt run_elem
      ConnState-Enum ConnEvt-Enum Connector-HasState
  closed-ConnStays none_evt p t v x = elim (Bool-cases (is_neg timer_ret)) [
    | inl fails ↦ (
      negsuc 1,
      record (conn_ask add_timer t) { cur = closed; pending = none_evt; interval = p.interval_us },
      rw (lt→ltb 0 p.interval_us (x.1), run_elem) (rw fails refl),
      (tt, v.1),
    )
    | inr goes ↦ (
      pos 0,
      record (conn_ask add_timer t) {
        cur = adding_into_tt;
        pending = none_evt;
        interval = p.interval_us;
      },
      rw (lt→ltb 0 p.interval_us (x.1), run_elem) (rw goes refl),
      ((x.0, inl refl), v.1),
    )
  ]
  closed-ConnStays open_evt p t v x = elim (Bool-cases (is_neg timer_ret)) [
    | inl fails ↦ (
      negsuc 1,
      record (conn_ask add_timer t) { cur = closed; pending = none_evt; interval = p.interval_us },
      rw (lt→ltb 0 p.interval_us (x.1), run_elem) (rw fails refl),
      (tt, v.1),
    )
    | inr goes ↦ (
      pos 0,
      record (conn_ask add_timer t) {
        cur = adding_into_tt;
        pending = none_evt;
        interval = p.interval_us;
      },
      rw (lt→ltb 0 p.interval_us (x.1), run_elem) (rw goes refl),
      ((x.0, inl refl), v.1),
    )
  ]
  closed-ConnStays e p t v x = (_, _, refl, v)

  adding_into_tt-ConnStays :
      (e : ConnEvt) (p : ConnParas) (t : Connector)
      → ConnInv (record t { cur = adding_into_tt })
      → ConnStays e p (record t { cur = adding_into_tt })
  unfolding conn_post conn_table reg_evt_state find_elem find assign post_evt run_elem
      ConnState-Enum ConnEvt-Enum Connector-HasState
  adding_into_tt-ConnStays close_evt p t v = (_, _, refl, ((v.0.0, inr refl), v.1))
  adding_into_tt-ConnStays added_into_tt p t v = elim (v.0.1) [
    | inl calm ↦ (
      pos 0,
      record (conn_ask on_opened t) { cur = checking_timer },
      rw calm refl,
      ((v.0.0, calm), v.1),
    )
    | inr late ↦
        (negsuc 1, record (conn_ask del_timer t) { cur = deling_from_tt }, rw late refl, (tt, v.1))
  ]
  adding_into_tt-ConnStays e p t v = (_, _, refl, v)

  checking_timer-ConnStays :
      (e : ConnEvt) (p : ConnParas) (t : Connector)
      → ConnInv (record t { cur = checking_timer })
      → ConnStays e p (record t { cur = checking_timer })
  unfolding conn_post conn_table reg_evt_state find_elem find assign post_evt run_elem
      ConnState-Enum ConnEvt-Enum Connector-HasState
  checking_timer-ConnStays close_evt p t v = elim (Bool-cases (is_neg timer_ret)) [
    | inl fails ↦ (
      negsuc 1,
      record (conn_ask del_timer t) { cur = checking_timer },
      rw (v.0.0, run_elem) (rw fails refl),
      (v.0, v.1),
    )
    | inr goes ↦ (
      pos 0,
      record (conn_ask del_timer t) { cur = deling_from_tt },
      rw (v.0.0, run_elem) (rw goes refl),
      (tt, v.1),
    )
  ]
  checking_timer-ConnStays connect p t v = (
    pos 0,
    record (conn_ask add_to_ot t) { cur = adding_into_ot; sock = some p.sock_opens },
    rw (v.0.0, run_elem) refl,
    ((refl, inl (v.0.1)), v.1),
  )
  checking_timer-ConnStays e p t v = (_, _, refl, v)

  adding_into_ot-ConnStays :
      (e : ConnEvt) (p : ConnParas) (t : Connector)
      → ConnInv (record t { cur = adding_into_ot })
      → ConnExpected e adding_into_ot t.sock p
      → ConnStays e p (record t { cur = adding_into_ot })
  unfolding conn_post conn_table reg_evt_state find_elem find assign post_evt run_elem
      ConnState-Enum ConnEvt-Enum Connector-HasState
  adding_into_ot-ConnStays close_evt p t v x = (_, _, refl, ((v.0.0, inr refl), v.1))
  adding_into_ot-ConnStays internal_err p t v x = absurd x
  adding_into_ot-ConnStays added_into_ot p t v x =
      let (b, q) = conn_sock t.sock (v.0.0) in
      elim (v.0.1) [
        | inl calm ↦ (pos 0, record t { cur = connecting }, rw calm refl, ((v.0.0, calm), v.1))
        | inr late ↦ (
          negsuc 1,
          record (conn_ask del_from_ot t) { cur = deling_from_ot_close; sock = some false },
          rw late (rw q refl),
          (refl, v.1),
        )
      ]
  adding_into_ot-ConnStays e p t v x = (_, _, refl, v)

  connecting-ConnStays :
      (e : ConnEvt) (p : ConnParas) (t : Connector)
      → ConnInv (record t { cur = connecting })
      → ConnExpected e connecting t.sock p
      → ConnStays e p (record t { cur = connecting })
  unfolding conn_post conn_table reg_evt_state find_elem find assign post_evt run_elem
      ConnState-Enum ConnEvt-Enum Connector-HasState
  connecting-ConnStays close_evt p t v x =
      let (b, q) = conn_sock t.sock (v.0.0) in
      elim (Bool-cases (is_neg del_ret)) [
        | inl fails ↦ (
          negsuc 1,
          record (conn_ask del_from_ot t) { cur = connecting; sock = some false },
          rw (q, run_elem) (rw fails refl),
          ((refl, v.0.1), v.1),
        )
        | inr goes ↦ (
          pos 0,
          record (conn_ask del_from_ot t) { cur = deling_from_ot_close; sock = some false },
          rw (q, run_elem) (rw goes refl),
          (refl, v.1),
        )
      ]
  connecting-ConnStays internal_err p t v x =
      let (b, q) = conn_sock t.sock (v.0.0) in
      elim (Bool-cases (is_neg del_ret)) [
        | inl fails ↦ (
          negsuc 1,
          record (conn_ask del_from_ot t) { cur = connecting; sock = some false },
          rw (q, run_elem) (rw fails refl),
          ((refl, v.0.1), v.1),
        )
        | inr goes ↦ (
          pos 0,
          record (conn_ask del_from_ot t) { cur = deling_from_ot_normal; sock = some false },
          rw (q, run_elem) (rw goes refl),
          ((refl, inl (v.0.1)), v.1),
        )
      ]
  connecting-ConnStays connected p t v x = elim (Bool-cases (is_neg del_ret)) [
    | inl fails ↦ (
      negsuc 1,
      record (conn_ask del_from_ot t) { cur = connecting },
      rw (x, run_elem) (rw fails refl),
      (v.0, v.1),
    )
    | inr goes ↦ (
      pos 0,
      record (conn_ask del_from_ot t) { cur = deling_from_ot_normal },
      rw (x, run_elem) (rw goes refl),
      ((v.0.0, inl (v.0.1)), v.1),
    )
  ]
  connecting-ConnStays e p t v x = (_, _, refl, v)

  deling_from_ot_close-ConnStays :
      (e : ConnEvt) (p : ConnParas) (t : Connector)
      → ConnInv (record t { cur = deling_from_ot_close })
      → ConnStays e p (record t { cur = deling_from_ot_close })
  unfolding conn_post conn_table reg_evt_state find_elem find assign post_evt run_elem
      ConnState-Enum ConnEvt-Enum Connector-HasState
  deling_from_ot_close-ConnStays deled_from_ot p t v = elim (Bool-cases (is_neg timer_ret)) [
    | inl fails ↦ (
      negsuc 1,
      record (conn_ask del_timer t) { cur = deling_from_ot_close },
      rw (v.0, run_elem) (rw fails refl),
      (v.0, v.1),
    )
    | inr goes ↦ (
      pos 0,
      record (conn_ask del_timer t) { cur = deling_from_tt },
      rw (v.0, run_elem) (rw goes refl),
      (tt, v.1),
    )
  ]
  deling_from_ot_close-ConnStays e p t v = (_, _, refl, v)

  deling_from_ot_normal-ConnStays :
      (e : ConnEvt) (p : ConnParas) (t : Connector)
      → ConnInv (record t { cur = deling_from_ot_normal })
      → ConnStays e p (record t { cur = deling_from_ot_normal })
  unfolding conn_post conn_table reg_evt_state find_elem find assign post_evt run_elem
      ConnState-Enum ConnEvt-Enum Connector-HasState
  deling_from_ot_normal-ConnStays close_evt p t v = (_, _, refl, ((v.0.0, inr refl), v.1))
  deling_from_ot_normal-ConnStays internal_err p t v =
      let (b, q) = conn_sock t.sock (v.0.0) in
      (
        pos 0,
        record t { cur = deling_from_ot_normal; sock = some false },
        rw (q, run_elem) refl,
        ((refl, v.0.1), v.1),
      )
  deling_from_ot_normal-ConnStays deled_from_ot p t v =
      let (b, q) = conn_sock t.sock (v.0.0) in
      elim (v.0.1) [
        | inl calm ↦ elim (Bool-cases b) [
          | inl is_open ↦ (
            pos 0,
            record t {
              cur = checking_timer;
              sock = none;
              idle = (expected del_ret t.idle t.eps).1;
              eps = (expected del_ret t.idle t.eps).2;
            },
            rw calm
                (rw (rw is_open at q) (rw (give_lem del_ret t.idle t.eps (v.1), run_elem) refl)),
            ((refl, calm), give-Inv del_ret t.idle t.eps (v.1)),
          )
          | inr is_shut ↦ (
            pos 0,
            record t { cur = checking_timer; sock = none },
            rw calm (rw (rw is_shut at q) refl),
            ((refl, calm), v.1),
          )
        ]
        | inr late ↦ (
          negsuc 1,
          record (conn_ask del_timer t) { cur = deling_from_tt; sock = none },
          rw late (rw q refl),
          (tt, v.1),
        )
      ]
  deling_from_ot_normal-ConnStays e p t v = (_, _, refl, v)

  deling_from_tt-ConnStays :
      (e : ConnEvt) (p : ConnParas) (t : Connector)
      → ConnInv (record t { cur = deling_from_tt })
      → ConnStays e p (record t { cur = deling_from_tt })
  unfolding conn_post conn_table reg_evt_state find_elem find assign post_evt run_elem
      ConnState-Enum ConnEvt-Enum Connector-HasState
  deling_from_tt-ConnStays deled_from_tt p t v = (_, _, refl, (tt, v.1))
  deling_from_tt-ConnStays e p t v = (_, _, refl, v)

  -- An event at a connector whose fields fit its state, and whose endpoints fit theirs, is
  -- processed without a failed assertion or a null pointer, whatever the engine's del_endpoint and
  -- its timer calls return, and all of them fit again; it is opened without a socket and with an
  -- interval, a socket that is connected is open, and the output task adds it without an error.
  pub conn_post_total :
      (e : ConnEvt) (p : ConnParas) (t : Connector)
      → ConnInv t
      → ConnExpected e t.cur t.sock p
      → ConnStays e p t
  conn_post_total e p t v x = by_state t.cur v x
    where
      by_state :
          (s : ConnState)
          → ConnInv (record t { cur = s })
          → ConnExpected e s t.sock p
          → ConnStays e p (record t { cur = s })
      by_state opened v x = absurd (v.0)
      by_state closed v x = closed-ConnStays e p t v x
      by_state checking_timer v x = checking_timer-ConnStays e p t v
      by_state adding_into_ot v x = adding_into_ot-ConnStays e p t v x
      by_state deling_from_ot_close v x = deling_from_ot_close-ConnStays e p t v
      by_state adding_into_tt v x = adding_into_tt-ConnStays e p t v
      by_state deling_from_tt v x = deling_from_tt-ConnStays e p t v
      by_state connecting v x = connecting-ConnStays e p t v x
      by_state deling_from_ot_normal v x = deling_from_ot_normal-ConnStays e p t v
