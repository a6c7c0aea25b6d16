-- ===== src/StateMachine/Laws.antt =====
-- What CStateMachine promises to the classes that own one.
use smart_net.Base.{
  Option, negsuc, List, [], ◌∷◌, none, some, ◌==◌, if◌then◌else◌, ◌≡◌, inl, inr, refl, arith, ap,
  sym, ◌∙◌, Option-cases, Bool-cases,
}
use smart_net.StateMachine.{
  Enum, HasState, find, assign, Elem, Handler, Table, find_elem, reg_evt_state, run_elem, post_evt,
  row,
}

pub find-assign :
    {A V : Type 0} ⦃a : Enum A⦄ (k j : A) (v : V) (m : List (A × V))
    → find j (assign k v m) ≡ (if a.code k == a.code j then some v else find j m)
unfolding find assign
find-assign ⦃a⦄ k j v [] = refl
find-assign ⦃a⦄ k j v ((i, w) ∷ m) = ground (arith, find-assign k j v m)

find-empty : {A V : Type 0} ⦃a : Enum A⦄ (k : A) → find {V = V} k [] ≡ none
unfolding find
find-empty k = refl

-- Only the integer of a key is looked at.
find-same :
    {A V : Type 0} ⦃a : Enum A⦄ (k j : A) (m : List (A × V))
    → a.code k ≡ a.code j
    → find k m ≡ find j m
unfolding find
find-same ⦃a⦄ k j [] e = refl
find-same ⦃a⦄ k j ((i, w) ∷ m) e =
    rw e (ap (λ r. if a.code i == a.code j then some w else r) (find-same k j m e))

module _ {S E P T : Type 0} ⦃ms : Enum S⦄ ⦃me : Enum E⦄ where
  find_elem-row :
      (s : S) (e : E) (tbl : Table S E P T) → find_elem s e tbl ≡ find e (row (find s tbl))
  unfolding find_elem row
  find_elem-row s e tbl = elim (Option-cases (find s tbl)) [
    | inl n ↦ rw n (sym (find-empty e))
    | inr (r, q) ↦ rw q refl
  ]

  find_elem-assign :
      (s s' : S) (e : E) (r : List (E × Elem S E P T)) (tbl : Table S E P T)
      → find_elem s' e (assign s r tbl)
        ≡ (if ms.code s == ms.code s' then find e r else find_elem s' e tbl)
  unfolding find_elem
  find_elem-assign s s' e r tbl = elim (Bool-cases (ms.code s == ms.code s')) [
    | inl t ↦ rw (find-assign s s' r tbl) (rw t refl)
    | inr f ↦ rw (find-assign s s' r tbl) (rw f refl)
  ]

  -- A registration adds the one transition, and leaves all others as they were.
  pub find_elem-reg_evt_state :
      (s s' : S) (e e' : E) (end_state : S) (f : Handler S E P T) (tbl tbl' : Table S E P T)
      → reg_evt_state s e end_state f tbl ≡ some tbl'
      → find_elem s' e' tbl' ≡ (
          if ms.code s == ms.code s'
          then (if me.code e == me.code e'
              then some (record { end_state = end_state; fun = some f })
              else find_elem s' e' tbl)
          else find_elem s' e' tbl)
  unfolding reg_evt_state
  find_elem-reg_evt_state s s' e e' end_state f tbl tbl' h =
      elim (Option-cases (find_elem s e tbl)) [
        | inl n ↦
            let x : Elem S E P T = record { end_state = end_state; fun = some f } in
            ground (
              arith,
              find_elem-assign s s' e' (assign e x (row (find s tbl))) tbl,
              find-assign e e' x (row (find s tbl)),
              find_elem-row s' e' tbl,
              find-same s s' tbl,
            )
        | inr (x, q) ↦ ground arith
      ]

  module _ ⦃h : HasState S T⦄ where
    post_by :
        (tbl : Table S E P T) (e : E) (p : P) (t : T) (o : Option (Elem S E P T))
        → find_elem (h.cur_state t) e tbl ≡ o
        → post_evt tbl e p t ≡ elim o [ none ↦ some (negsuc 0, t) | some el ↦ run_elem e p el t ]
    unfolding post_evt
    post_by tbl e p t o q = rw (q, post_evt) refl

    -- After a registration that is not refused, an event is answered by the new handler when the
    -- object is in the start state and the event is the registered one, and otherwise as it was
    -- before.
    pub post_evt-reg_evt_state :
        (s : S) (e e' : E) (end_state : S) (f : Handler S E P T) (tbl tbl' : Table S E P T) (p : P)
        (t : T)
        → reg_evt_state s e end_state f tbl ≡ some tbl'
        → post_evt tbl' e' p t ≡ (
            if ms.code s == ms.code (h.cur_state t)
            then (if me.code e == me.code e'
                then run_elem e' p (record { end_state = end_state; fun = some f }) t
                else post_evt tbl e' p t)
            else post_evt tbl e' p t)
    unfolding post_evt
    post_evt-reg_evt_state s e e' end_state f tbl tbl' p t q =
        post_by tbl' e' p t _
          (find_elem-reg_evt_state s (h.cur_state t) e e' end_state f tbl tbl' q)
        ∙ split
      where
        split :
            (elim (if ms.code s == ms.code (h.cur_state t)
              then (if me.code e == me.code e'
                  then some (record { end_state = end_state; fun = some f })
                  else find_elem (h.cur_state t) e' tbl)
              else find_elem (h.cur_state t) e' tbl) [
                | none ↦ some (negsuc 0, t)
                | some el ↦ run_elem e' p el t
              ])
            ≡ (if ms.code s == ms.code (h.cur_state t)
                then (if me.code e == me.code e'
                    then run_elem e' p (record { end_state = end_state; fun = some f }) t
                    else post_evt tbl e' p t)
                else post_evt tbl e' p t)
        split = elim (Bool-cases (ms.code s == ms.code (h.cur_state t))) [
          | inr other ↦ rw other refl
          | inl here ↦ elim (Bool-cases (me.code e == me.code e')) [
            | inr other ↦ rw (here, other) refl
            | inl same ↦ rw (here, same) refl
          ]
        ]
