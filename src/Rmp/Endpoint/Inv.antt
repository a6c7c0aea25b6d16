-- ===== src/Rmp/Endpoint/Inv.antt =====
-- What each state of CRmpEndpoint says of its fields, and that no event breaks it.
use smart_net.Base.{
  ℤ, pos, negsuc, Bool, true, false, Option, none, some, List, [], ◌∷◌, ◌>>=◌, ap, ◌∙◌, ◌≡◌, ◌⊎◌,
  inl, inr, refl, is_some, is_neg, is_suc, Bool-cases, arith, cmnerr_suc, cmnerr_common_err,
  if◌then◌else◌,
}
use smart_net.StateMachine.{find_elem, reg_evt_state, find, assign, post_evt, run_elem}
use smart_net.Rup.Endpoint.{
  EpState, added_into_helper, opened_ready, opened, closing, closed_ready, closed, adding_into_ot,
  adding_into_it, deled_from_it, deling_from_it, deling_from_ot, EpEvt, none_evt, open_evt,
  close_evt, internal_err, added_into_ot, added_into_it, deled_from_it_evt, deled_from_ot_evt,
  EpState-Enum, EpEvt-Enum, add_to_ot, add_to_it, del_from_ot, del_from_it, on_opened, on_closed,
  is_none_evt,
}
use smart_net.Rmp.Endpoint.{RmpEndpoint, RmpEndpoint-HasState, rmp_ask, rmp_init_sm, rmp_post}

-- The socket is there from the opening to the end. The states that the table never names are not
-- reached.
abbrev pub RmpValid : EpState → EpEvt → Option Bool → Type 0
RmpValid closed p sock = Unit
RmpValid adding_into_ot p sock = (is_some sock ≡ true) × ((p ≡ none_evt) ⊎ (p ≡ close_evt))
RmpValid adding_into_it p sock = is_some sock ≡ true
RmpValid opened p sock = is_some sock ≡ true
RmpValid deling_from_it p sock = is_some sock ≡ true
RmpValid deling_from_ot p sock = is_some sock ≡ true
RmpValid s p sock = ⊥

abbrev pub RmpInv : RmpEndpoint → Type 0
RmpInv t = RmpValid t.cur t.pending t.sock

-- No internal error is left from an earlier opening, and none comes while the output task adds the
-- endpoint.
abbrev pub RmpExpected : EpEvt → EpState → EpEvt → Type 0
RmpExpected open_evt closed p = (p ≡ none_evt) ⊎ (p ≡ close_evt)
RmpExpected open_evt s p = Unit
RmpExpected internal_err adding_into_ot p = ⊥
RmpExpected internal_err s p = Unit
RmpExpected e s p = Unit

sock_of : (o : Option Bool) → is_some o ≡ true → (b : Bool) × (o ≡ some b)
sock_of none h = cc
sock_of (some b) h = (b, refl)

suc_not_neg : (r : ℤ) → is_suc r ≡ true → is_neg r ≡ false
suc_not_neg (pos n) h = refl
suc_not_neg (negsuc n) h = absurd (cc h)

-- What the opening of an endpoint that was added returns.
abbrev opening : ℤ → RmpEndpoint → ℤ
opening joined t =
    if is_none_evt t.pending then (if t.receives then joined else cmnerr_suc) else cmnerr_common_err

module _ (del_ret : ℤ) where
  abbrev pub RmpStays : EpEvt → ℤ → RmpEndpoint → Type 0
  RmpStays e p t =
      (code : ℤ) × (t' : RmpEndpoint) × (rmp_post del_ret e p t ≡ some (code, t')) × RmpInv t'

  closed-RmpStays :
      (e : EpEvt) (p : ℤ) (t : RmpEndpoint)
      → RmpInv (record t { cur = closed })
      → RmpExpected e closed t.pending
      → RmpStays e p (record t { cur = closed })
  unfolding rmp_post rmp_init_sm reg_evt_state find_elem find assign post_evt run_elem EpState-Enum
      EpEvt-Enum RmpEndpoint-HasState
  closed-RmpStays none_evt p t v x = (_, _, refl, tt)
  closed-RmpStays open_evt p t v x = elim (Bool-cases (is_suc p)) [
    | inl made ↦ (
      pos 0,
      record (rmp_ask add_to_ot t) { cur = adding_into_ot; sock = some true },
      rw (made, run_elem) refl,
      (refl, x),
    )
    | inr failed ↦
        (negsuc 1, record t { cur = closed; sock = none }, rw (failed, run_elem) refl, tt)
  ]
  closed-RmpStays e p t v x = (_, _, refl, tt)

  adding_into_ot-RmpStays :
      (e : EpEvt) (p : ℤ) (t : RmpEndpoint)
      → RmpInv (record t { cur = adding_into_ot })
      → RmpExpected e adding_into_ot t.pending
      → RmpStays e p (record t { cur = adding_into_ot })
  unfolding rmp_post rmp_init_sm reg_evt_state find_elem find assign post_evt run_elem EpState-Enum
      EpEvt-Enum RmpEndpoint-HasState
  adding_into_ot-RmpStays none_evt p t v x = (_, _, refl, v)
  adding_into_ot-RmpStays close_evt p t v x = (_, _, refl, (v.0, inr refl))
  adding_into_ot-RmpStays internal_err p t v x = absurd x
  adding_into_ot-RmpStays added_into_ot p t v x =
      let (b, q) = sock_of t.sock (v.0) in
      elim (v.1) [
        | inl calm ↦
            (pos 0, record (rmp_ask add_to_it t) { cur = adding_into_it }, rw calm refl, v.0)
        | inr late ↦ (
          negsuc 1,
          record (rmp_ask del_from_ot t) { cur = deling_from_ot; sock = some false },
          rw late (rw q refl),
          refl,
        )
      ]
  adding_into_ot-RmpStays e p t v x = (_, _, refl, v)

  adding_into_it-RmpStays :
      (e : EpEvt) (p : ℤ) (t : RmpEndpoint)
      → RmpInv (record t { cur = adding_into_it })
      → RmpStays e p (record t { cur = adding_into_it })
  unfolding rmp_post rmp_init_sm reg_evt_state find_elem find assign post_evt run_elem EpState-Enum
      EpEvt-Enum RmpEndpoint-HasState
  adding_into_it-RmpStays none_evt p t v = (_, _, refl, v)
  adding_into_it-RmpStays close_evt p t v = (_, _, refl, v)
  adding_into_it-RmpStays internal_err p t v = (_, _, refl, v)
  adding_into_it-RmpStays added_into_it p t v =
      let (b, q) = sock_of t.sock v in
      elim (Bool-cases (is_suc (opening p t))) [
        | inl made ↦ (
          pos 0,
          record (rmp_ask on_opened t) { cur = opened },
          ground (arith, made, suc_not_neg (opening p t)),
          v,
        )
        | inr failed ↦ elim (Bool-cases (is_neg (opening p t))) [
          | inl neg ↦ (
            negsuc 1,
            record (rmp_ask del_from_it t) { cur = deling_from_it; sock = some false },
            ground (arith, failed, neg, q),
            refl,
          )
          | inr odd ↦ (
            pos 0,
            record (rmp_ask del_from_it t) { cur = opened; sock = some false },
            ground (arith, failed, odd, q),
            refl,
          )
        ]
      ]
  adding_into_it-RmpStays e p t v = (_, _, refl, v)

  opened-RmpStays :
      (e : EpEvt) (p : ℤ) (t : RmpEndpoint)
      → RmpInv (record t { cur = opened })
      → RmpStays e p (record t { cur = opened })
  unfolding rmp_post rmp_init_sm reg_evt_state find_elem find assign post_evt run_elem EpState-Enum
      EpEvt-Enum RmpEndpoint-HasState
  opened-RmpStays none_evt p t v = (_, _, refl, v)
  opened-RmpStays close_evt p t v =
      let (b, q) = sock_of t.sock v in
      elim (Bool-cases (is_neg del_ret)) [
        | inl fails ↦ (
          negsuc 1,
          record (rmp_ask del_from_it t) { cur = opened; sock = some false },
          rw (q, run_elem) (rw fails refl),
          refl,
        )
        | inr goes ↦ (
          pos 0,
          record (rmp_ask del_from_it t) { cur = deling_from_it; sock = some false },
          rw (q, run_elem) (rw goes refl),
          refl,
        )
      ]
  opened-RmpStays internal_err p t v =
      let (b, q) = sock_of t.sock v in
      elim (Bool-cases (is_neg del_ret)) [
        | inl fails ↦ (
          negsuc 1,
          record (rmp_ask del_from_it t) { cur = opened; sock = some false },
          rw (q, run_elem) (rw fails refl),
          refl,
        )
        | inr goes ↦ (
          pos 0,
          record (rmp_ask del_from_it t) { cur = deling_from_it; sock = some false },
          rw (q, run_elem) (rw goes refl),
          refl,
        )
      ]
  opened-RmpStays e p t v = (_, _, refl, v)

  deling_from_it-RmpStays :
      (e : EpEvt) (p : ℤ) (t : RmpEndpoint)
      → RmpInv (record t { cur = deling_from_it })
      → RmpStays e p (record t { cur = deling_from_it })
  unfolding rmp_post rmp_init_sm reg_evt_state find_elem find assign post_evt run_elem EpState-Enum
      EpEvt-Enum RmpEndpoint-HasState
  deling_from_it-RmpStays none_evt p t v = (_, _, refl, v)
  deling_from_it-RmpStays deled_from_it_evt p t v = elim (Bool-cases (is_neg del_ret)) [
    | inl fails ↦
        (negsuc 1, record (rmp_ask del_from_ot t) { cur = deling_from_it }, rw fails refl, v)
    | inr goes ↦ (pos 0, record (rmp_ask del_from_ot t) { cur = deling_from_ot }, rw goes refl, v)
  ]
  deling_from_it-RmpStays e p t v = (_, _, refl, v)

  deling_from_ot-RmpStays :
      (e : EpEvt) (p : ℤ) (t : RmpEndpoint)
      → RmpInv (record t { cur = deling_from_ot })
      → RmpStays e p (record t { cur = deling_from_ot })
  unfolding rmp_post rmp_init_sm reg_evt_state find_elem find assign post_evt run_elem EpState-Enum
      EpEvt-Enum RmpEndpoint-HasState
  deling_from_ot-RmpStays none_evt p t v = (_, _, refl, v)
  deling_from_ot-RmpStays deled_from_ot_evt p t v = (_, _, refl, tt)
  deling_from_ot-RmpStays e p t v = (_, _, refl, v)

  -- An event at a multicast endpoint whose fields fit its state is processed without a failed
  -- assertion or a null pointer, whatever the socket's calls and the engine's del_endpoint return,
  -- and the fields fit the state again; no internal error is left from an earlier opening, and none
  -- comes while the output task adds the endpoint.
  pub rmp_post_total :
      (e : EpEvt) (p : ℤ) (t : RmpEndpoint)
      → RmpInv t
      → RmpExpected e t.cur t.pending
      → RmpStays e p t
  rmp_post_total e p t v x = by_state t.cur v x
    where
      by_state :
          (s : EpState)
          → RmpInv (record t { cur = s })
          → RmpExpected e s t.pending
          → RmpStays e p (record t { cur = s })
      by_state closed v x = closed-RmpStays e p t v x
      by_state adding_into_ot v x = adding_into_ot-RmpStays e p t v x
      by_state adding_into_it v x = adding_into_it-RmpStays e p t v
      by_state opened v x = opened-RmpStays e p t v
      by_state deling_from_it v x = deling_from_it-RmpStays e p t v
      by_state deling_from_ot v x = deling_from_ot-RmpStays e p t v
      by_state added_into_helper v x = absurd v
      by_state opened_ready v x = absurd v
      by_state closing v x = absurd v
      by_state closed_ready v x = absurd v
      by_state deled_from_it v x = absurd v

  reopen_lem :
      (t : RmpEndpoint)
      → rmp_post del_ret open_evt cmnerr_suc (record t { cur = closed })
        ≡ some (pos 0, record (rmp_ask add_to_ot t) { cur = adding_into_ot; sock = some true })
  unfolding rmp_post rmp_init_sm reg_evt_state find_elem find assign post_evt run_elem EpState-Enum
      EpEvt-Enum RmpEndpoint-HasState
  reopen_lem t = refl

  stale_lem :
      (t : RmpEndpoint)
      → t.pending ≡ close_evt
      → t.sock ≡ some true
      → rmp_post del_ret added_into_ot cmnerr_suc (record t { cur = adding_into_ot })
        ≡ some
            (negsuc 1, record (rmp_ask del_from_ot t) { cur = deling_from_ot; sock = some false })
  unfolding rmp_post rmp_init_sm reg_evt_state find_elem find assign post_evt run_elem EpState-Enum
      EpEvt-Enum RmpEndpoint-HasState
  stale_lem t late q = rw late (rw q refl)

  -- Closing an endpoint that the output task adds, until it is closed.
  close_noted :
      (t : RmpEndpoint)
      → rmp_post del_ret close_evt cmnerr_suc (record t { cur = adding_into_ot })
        ≡ some (pos 0, record t { cur = adding_into_ot; pending = close_evt })
  unfolding rmp_post rmp_init_sm reg_evt_state find_elem find assign post_evt run_elem EpState-Enum
      EpEvt-Enum RmpEndpoint-HasState
  close_noted t = refl

  dropped_lem :
      (t : RmpEndpoint)
      → rmp_post del_ret deled_from_ot_evt cmnerr_suc (record t { cur = deling_from_ot })
        ≡ some (negsuc 1, record (rmp_ask on_closed t) { cur = closed; sock = none })
  unfolding rmp_post rmp_init_sm reg_evt_state find_elem find assign post_evt run_elem EpState-Enum
      EpEvt-Enum RmpEndpoint-HasState
  dropped_lem t = refl

  -- A run of events whose codes are not looked at.
  abbrev pub rmp_run : List EpEvt → RmpEndpoint → Option RmpEndpoint
  rmp_run [] t = some t
  rmp_run (e ∷ l) t = rmp_post del_ret e cmnerr_suc t >>= λ r. rmp_run l (r.1)

  abbrev pub rmp_closing : List EpEvt
  rmp_closing = close_evt ∷ added_into_ot ∷ deled_from_ot_evt ∷ []

  -- A multicast endpoint with an open socket that is closed while the output task adds it, and then
  -- added and dropped by that task, is closed, and the application is told; but the event is still
  -- pending: when the endpoint is opened again, with success, and the output task adds it, it is
  -- removed at once without being opened.
  pub reopened_is_closed :
      (t : RmpEndpoint)
      → t.cur ≡ adding_into_ot
      → t.sock ≡ some true
      → (u : RmpEndpoint) × (w : RmpEndpoint) × (rmp_run rmp_closing t ≡ some u)
        × (u.cur ≡ closed)
        × (u.log ≡ on_closed ∷ del_from_ot ∷ t.log)
        × (rmp_run (open_evt ∷ added_into_ot ∷ []) u ≡ some w)
        × (w.cur ≡ deling_from_ot)
        × (w.log ≡ del_from_ot ∷ add_to_ot ∷ u.log)
        × (w.pending ≡ close_evt)
  reopened_is_closed t adding q =
      let v : RmpEndpoint = record t { cur = adding_into_ot; pending = close_evt } in
      let x : RmpEndpoint = record (rmp_ask del_from_ot v) {
        cur = deling_from_ot;
        sock = some false;
      } in
      let u : RmpEndpoint = record (rmp_ask on_closed x) { cur = closed; sock = none } in
      let y : RmpEndpoint = record (rmp_ask add_to_ot u) {
        cur = adding_into_ot;
        sock = some true;
      } in
      (
        u,
        record (rmp_ask del_from_ot y) { cur = deling_from_ot; sock = some false },
        ap (λ s. rmp_run rmp_closing (record t { cur = s })) adding
            ∙ (rw (close_noted t, stale_lem v refl q, dropped_lem x) refl),
        refl,
        refl,
        rw (reopen_lem u, stale_lem y refl refl) refl,
        refl,
        refl,
        refl,
      )
