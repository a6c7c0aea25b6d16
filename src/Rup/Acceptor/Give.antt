-- ===== src/Rup/Acceptor/Give.antt =====
-- The loop of CRupAcceptor::handle_input_evt: who gets a new connection.
use smart_net.Base.{
  ℕ, ℤ, pos, negsuc, Bool, true, false, Option, none, some, List, [], ◌∷◌, ◌≡◌, inl, inr, refl,
  if◌then◌else◌, ◌==◌, ==-of_ne, Bool-cases, ◌∙◌, sym, ap, fun_ext, ==_iff, ℕ_discrete,
}
use smart_net.Rup.Endpoint.{
  EpState, Endpoint, added_into_helper, adding_into_ot, connected, add_to_ot, ask, state_code, post,
}
use smart_net.Rup.Endpoint.Inv.{Inv, connect_waiting, connect_ignored, Valid-not_queued}
use smart_net.Rup.Endpoint.Io.{handle_connected, pop}
use smart_net.Rup.Acceptor.{Endpoints, set, give}

abbrev is_waiting : Endpoint → Bool
is_waiting e = state_code e.cur == 0

-- The endpoint that has taken the connection.
abbrev pub taking : Endpoint → Endpoint
taking e = record (ask add_to_ot e) { cur = adding_into_ot; sock = some true; in_helper = false }

-- Who of a queue gets a connection, and the queue behind that endpoint.
abbrev pub first_waiting : List ℕ → (ℕ → Endpoint) → Option (ℕ × List ℕ)
first_waiting [] eps = none
first_waiting (i ∷ q) eps = if is_waiting (eps i) then some (i, q) else first_waiting q eps

waiting_of : (s : EpState) → (state_code s == 0) ≡ true → s ≡ added_into_helper
waiting_of added_into_helper h = refl
waiting_of s h = absurd (cc h)

module _ (del_ret : ℤ) where
  abbrev outcome : Endpoints del_ret → Option (ℕ × List ℕ) → Bool × List ℕ × Endpoints del_ret
  outcome eps none = (false, [], eps)
  outcome eps (some (i, rest)) = (true, rest, set del_ret i (taking (eps i)) eps)

  abbrev pub expected : List ℕ → Endpoints del_ret → Bool × List ℕ × Endpoints del_ret
  expected q eps = outcome eps (first_waiting q eps)

  here :
      (i : ℕ) (q : List ℕ) (eps : Endpoints del_ret)
      → is_waiting (eps i) ≡ true
      → first_waiting (i ∷ q) eps ≡ some (i, q)
  here i q eps w = rw w refl

  later :
      (i : ℕ) (q : List ℕ) (eps : Endpoints del_ret)
      → is_waiting (eps i) ≡ false
      → first_waiting (i ∷ q) eps ≡ first_waiting q eps
  later i q eps w = rw w refl

  connect_taking :
      (e : Endpoint)
      → Inv e
      → is_waiting e ≡ true
      → handle_connected del_ret true (pop e) ≡ some (pos 0, taking e)
  connect_taking e v w =
      let o = waiting_of e.cur w in
      ap (λ s. post del_ret connected (some true) (record e { cur = s; in_helper = false })) o
      ∙ connect_waiting del_ret (pop e) true ((rw o at v).0)

  connect_skips :
      (e : Endpoint)
      → Inv e
      → is_waiting e ≡ false
      → handle_connected del_ret true (pop e) ≡ some (negsuc 0, e)
  connect_skips e v w =
      connect_ignored del_ret e.cur (pop e) (some true) w
      ∙ ap (λ b. some (negsuc 0, record e { in_helper = b }))
          (sym (Valid-not_queued e.cur e.pending e.sock e.in_helper v w))

  set_same : (i : ℕ) (eps : Endpoints del_ret) → set del_ret i (eps i) eps ≡ eps
  set_same i eps = fun_ext (λ j. elim (ℕ_discrete i j) [
    | yes same ↦ rw ((==_iff i j).1 same) (ap eps same)
    | no ne ↦ rw (==-of_ne i j ne) refl
  ])

  -- At a queue of endpoints whose fields fit their states: a new connection goes to the first
  -- endpoint of the queue that waits, and nothing else changes but that the endpoints in front of
  -- it leave the queue; when none waits, the connection is closed and the queue is empty. No
  -- assertion fails.
  pub give_lem :
      (q : List ℕ) (eps : Endpoints del_ret)
      → ((i : ℕ) → Inv (eps i))
      → give del_ret q eps ≡ some (expected q eps)
  unfolding give
  give_lem [] eps v = refl
  give_lem (i ∷ q) eps v = elim (Bool-cases (is_waiting (eps i))) [
    | inl waits ↦
        rw (connect_taking (eps i) (v i) waits)
          (ap (λ o. some (outcome eps o)) (sym (here i q eps waits)))
    | inr busy ↦ rw (connect_skips (eps i) (v i) busy) (
        rw (set_same i eps)
          (give_lem q eps v ∙ ap (λ o. some (outcome eps o)) (sym (later i q eps busy))))
  ]

  taking-Inv : (e : Endpoint) → Inv e → is_waiting e ≡ true → Inv (taking e)
  taking-Inv e v w = (refl, refl, inl ((rw (waiting_of e.cur w) at v).1))

  set-Inv :
      (i : ℕ) (e : Endpoint) (eps : Endpoints del_ret)
      → Inv e
      → ((j : ℕ) → Inv (eps j))
      → (j : ℕ) → Inv (set del_ret i e eps j)
  set-Inv i e eps w v j = elim (Bool-cases (i == j)) [
    | inl same ↦ rw same w
    | inr other ↦ rw other (v j)
  ]

  -- After a connection was given, all endpoints fit their states.
  pub give-Inv :
      (q : List ℕ) (eps : Endpoints del_ret)
      → ((i : ℕ) → Inv (eps i))
      → (j : ℕ) → Inv ((expected q eps).2 j)
  give-Inv [] eps v j = v j
  give-Inv (i ∷ q) eps v j = elim (Bool-cases (is_waiting (eps i))) [
    | inl waits ↦ rw waits (set-Inv i (taking (eps i)) eps (taking-Inv (eps i) (v i) waits) v j)
    | inr busy ↦ rw busy (give-Inv q eps v j)
  ]
