-- ===== src/Rup/Acceptor/Inv.antt =====
-- What each state of CRupAcceptor says of its listener, and that no event breaks it.
use smart_net.Base.{
  ℤ, pos, negsuc, Bool, true, false, Option, none, some, ◌∷◌, ◌≡◌, refl, is_some, is_neg,
  Bool-cases, inl, inr, arith,
}
use smart_net.StateMachine.{find_elem, reg_evt_state, find, assign, post_evt, run_elem}
use smart_net.Rup.Acceptor.{
  AccState, opened, closed, adding_into_it, deling_from_it, AccEvt, none_evt, open_evt, close_evt,
  added_into_it, deled_from_it, internal_err, Acceptor, SetUp, open_fails, bind_or_listen_fails,
  listens, AccState-Enum, AccEvt-Enum, Acceptor-HasState, add_to_it, del_from_it, on_opened,
  on_closed, request, no_evt, acc_post, acc_table,
}

abbrev pub Listens : AccState → Option Bool → Type 0
Listens opened l = l ≡ some true
Listens closed l = Unit
Listens adding_into_it l = l ≡ some true
Listens deling_from_it l = is_some l ≡ true

abbrev pub AccInv : Acceptor → Type 0
AccInv t = Listens t.cur t.listener

-- An acceptor is opened when it has no listener yet.
abbrev pub MayOpen : AccEvt → AccState → Option Bool → Type 0
MayOpen open_evt closed l = l ≡ none
MayOpen none_evt closed l = l ≡ none
MayOpen e s l = Unit

module _ (del_ret : ℤ) where
  abbrev pub AccStays : AccEvt → SetUp → Acceptor → Type 0
  AccStays e p t =
      (code : ℤ) × (t' : Acceptor) × (acc_post del_ret e p t ≡ some (code, t')) × AccInv t'

  module _ (goes : is_neg del_ret ≡ false) where
    opened-AccStays :
        (e : AccEvt) (p : SetUp) (t : Acceptor)
        → AccInv (record t { cur = opened })
        → AccStays e p (record t { cur = opened })
    unfolding acc_post acc_table reg_evt_state find_elem find assign post_evt run_elem AccState-Enum
        AccEvt-Enum Acceptor-HasState
    opened-AccStays close_evt p t v = (
      pos 0,
      record (request del_from_it t) { cur = deling_from_it; listener = some false },
      rw (v, run_elem) (rw goes refl),
      refl,
    )
    opened-AccStays internal_err p t v = (
      pos 0,
      record (request del_from_it t) { cur = deling_from_it; listener = some false },
      rw (v, run_elem) (rw goes refl),
      refl,
    )
    opened-AccStays e p t v = (_, _, refl, v)

    closed-AccStays :
        (e : AccEvt) (p : SetUp) (t : Acceptor)
        → AccInv (record t { cur = closed })
        → MayOpen e closed t.listener
        → AccStays e p (record t { cur = closed })
    unfolding acc_post acc_table reg_evt_state find_elem find assign post_evt run_elem AccState-Enum
        AccEvt-Enum Acceptor-HasState
    closed-AccStays none_evt open_fails t v x = (
      negsuc 1,
      record t { cur = closed; pending = none_evt; listener = some false },
      rw (x, run_elem) refl,
      tt,
    )
    closed-AccStays none_evt bind_or_listen_fails t v x = (
      negsuc 1,
      record t { cur = closed; pending = none_evt; listener = some true },
      rw (x, run_elem) refl,
      tt,
    )
    closed-AccStays none_evt listens t v x = (
      pos 0,
      record (request add_to_it t) {
        cur = adding_into_it;
        pending = none_evt;
        listener = some true;
      },
      rw (x, run_elem) refl,
      refl,
    )
    closed-AccStays open_evt open_fails t v x = (
      negsuc 1,
      record t { cur = closed; pending = none_evt; listener = some false },
      rw (x, run_elem) refl,
      tt,
    )
    closed-AccStays open_evt bind_or_listen_fails t v x = (
      negsuc 1,
      record t { cur = closed; pending = none_evt; listener = some true },
      rw (x, run_elem) refl,
      tt,
    )
    closed-AccStays open_evt listens t v x = (
      pos 0,
      record (request add_to_it t) {
        cur = adding_into_it;
        pending = none_evt;
        listener = some true;
      },
      rw (x, run_elem) refl,
      refl,
    )
    closed-AccStays e p t v x = (_, _, refl, v)

    adding_into_it-AccStays :
        (e : AccEvt) (p : SetUp) (t : Acceptor)
        → AccInv (record t { cur = adding_into_it })
        → AccStays e p (record t { cur = adding_into_it })
    unfolding acc_post acc_table reg_evt_state find_elem find assign post_evt run_elem AccState-Enum
        AccEvt-Enum Acceptor-HasState
    adding_into_it-AccStays close_evt p t v = (_, _, refl, v)
    adding_into_it-AccStays internal_err p t v = (_, _, refl, v)
    adding_into_it-AccStays added_into_it p t v = elim (Bool-cases (no_evt t.pending)) [
      | inl calm ↦
          (pos 0, record (request on_opened t) { cur = opened }, ground (arith, v, calm), v)
      | inr late ↦ (
        negsuc 1,
        record (request del_from_it t) { cur = deling_from_it; listener = some false },
        ground (arith, v, late),
        refl,
      )
    ]
    adding_into_it-AccStays e p t v = (_, _, refl, v)

    deling_from_it-AccStays :
        (e : AccEvt) (p : SetUp) (t : Acceptor)
        → AccInv (record t { cur = deling_from_it })
        → AccStays e p (record t { cur = deling_from_it })
    unfolding acc_post acc_table reg_evt_state find_elem find assign post_evt run_elem AccState-Enum
        AccEvt-Enum Acceptor-HasState
    deling_from_it-AccStays deled_from_it p t v = (_, _, refl, tt)
    deling_from_it-AccStays e p t v = (_, _, refl, v)

    -- An event at an acceptor whose listener fits its state is processed without a failed
    -- assertion, when the engine's del_endpoint does not return an error and an acceptor is opened
    -- only without a listener; the listener fits the state again.
    pub acc_post_total :
        (e : AccEvt) (p : SetUp) (t : Acceptor)
        → AccInv t
        → MayOpen e t.cur t.listener
        → AccStays e p t
    acc_post_total e p t v x = by_state t.cur v x
      where
        by_state :
            (s : AccState)
            → AccInv (record t { cur = s })
            → MayOpen e s t.listener
            → AccStays e p (record t { cur = s })
        by_state opened v x = opened-AccStays e p t v
        by_state closed v x = closed-AccStays e p t v x
        by_state adding_into_it v x = adding_into_it-AccStays e p t v
        by_state deling_from_it v x = deling_from_it-AccStays e p t v

    reopen_lem :
        (p : SetUp) (t : Acceptor)
        → is_some t.listener ≡ true
        → acc_post del_ret open_evt p (record t { cur = closed }) ≡ none
    unfolding acc_post acc_table reg_evt_state find_elem find assign post_evt run_elem AccState-Enum
        AccEvt-Enum Acceptor-HasState
    reopen_lem p t l = rw (l, run_elem) refl

    close_lem :
        (p : SetUp) (t : Acceptor)
        → t.listener ≡ some true
        → acc_post del_ret close_evt p (record t { cur = opened })
          ≡ some (
            pos 0,
            record (request del_from_it t) { cur = deling_from_it; listener = some false },
          )
    unfolding acc_post acc_table reg_evt_state find_elem find assign post_evt run_elem AccState-Enum
        AccEvt-Enum Acceptor-HasState
    close_lem p t l = rw (l, run_elem) (rw goes refl)

    deled_lem :
        (p : SetUp) (t : Acceptor)
        → acc_post del_ret deled_from_it p (record t { cur = deling_from_it })
          ≡ some (pos 0, record (request on_closed t) { cur = closed })
    unfolding acc_post acc_table reg_evt_state find_elem find assign post_evt run_elem AccState-Enum
        AccEvt-Enum Acceptor-HasState
    deled_lem p t = refl

    -- An acceptor that was open and is closed tells the application so; when it is then opened
    -- again, the process aborts. The engine's del_endpoint does not return an error.
    pub acc_reopen_aborts :
        (t : Acceptor)
        → t.listener ≡ some true
        → (u : Acceptor) × (w : Acceptor) × (acc_post del_ret close_evt listens
              (record t { cur = opened })
            ≡ some (pos 0, u))
          × (acc_post del_ret deled_from_it listens u ≡ some (pos 0, w))
          × (w.requests ≡ on_closed ∷ del_from_it ∷ t.requests)
          × (acc_post del_ret open_evt listens w ≡ none)
    acc_reopen_aborts t l =
        let u = record (request del_from_it t) { cur = deling_from_it; listener = some false } in
        let w = record (request on_closed u) { cur = closed } in
        (u, w, close_lem listens t l, deled_lem listens u, refl, reopen_lem listens w refl)
