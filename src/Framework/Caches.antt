-- ===== src/Framework/Caches.antt =====
-- The loops of CEpoll::exec and of CTimeNotifier::exec in libsmart_net/src/framework over the objects
-- that wait in a cache: each one is taken out of a set, or put into it, and is told so.
use smart_net.Base.{
  ℕ, Bool, true, false, not, ◌&&◌, ◌||◌, Option, none, some, List, [], ◌∷◌, ◌==◌, if◌then◌else◌,
  ◌>>=◌, ◌≡◌, refl, ap, sym, ◌∙◌, arith, inl, inr, Bool-cases, Option-cases, fun_ext,
}
use smart_net.Base.OrderedSet.{
  contains, insert, erase, Ascending, insert-Inserted, erase-Erased, erase_absent,
}

-- The objects can be taken out of the set one after the other.
unfoldable pub removable : List ℕ → (ℕ → Bool) → Bool
removable [] inside = true
removable (i ∷ l) inside = inside i && removable l (λ k. not (k == i) && inside k)

-- Those of the objects that `ok` accepts can be put into the set one after the other.
unfoldable pub addable : (ℕ → Bool) → List ℕ → (ℕ → Bool) → Bool
addable ok [] inside = true
addable ok (i ∷ l) inside =
    (not (ok i && inside i)) && addable ok l (λ k. (ok i && (k == i)) || inside k)

removable-ext :
    (l : List ℕ) (f g : ℕ → Bool) → ((k : ℕ) → f k ≡ g k) → removable l f ≡ removable l g
removable-ext l f g h = ap (removable l) (fun_ext h)

pub addable-ext :
    (ok : ℕ → Bool) (l : List ℕ) (f g : ℕ → Bool)
    → ((k : ℕ) → f k ≡ g k)
    → addable ok l f ≡ addable ok l g
addable-ext ok l f g h = ap (addable ok l) (fun_ext h)

merged :
    (k i : ℕ) (l : List ℕ) (ok : ℕ → Bool) (xs : List ℕ)
    → ((ok k && contains k l) || ((ok i && (k == i)) || contains k xs))
      ≡ ((ok k && ((k == i) || contains k l)) || contains k xs)
merged k i l ok xs = elim (Bool-cases (k == i)) [
  | inr f ↦ rw f (ground arith)
  | inl t ↦ let e : k ≡ i = ground arith in rw e (ground arith)
]

-- One object is put into the set if it is accepted.
put_one :
    (ok : Bool) (i : ℕ) (xs : List ℕ)
    → Ascending xs
    → (not (ok && contains i xs)) ≡ true
    → (ys : List ℕ) × ((if ok then insert i xs else some xs) ≡ some ys)
      × Ascending ys
      × ((k : ℕ) → contains k ys ≡ ((ok && (k == i)) || contains k xs))
put_one false i xs a h = (xs, refl, a, λ k. refl)
put_one true i xs a h =
    let (ys, q, x) = insert-Inserted i xs a (ground arith) in (ys, q, x.ascending, x.members)

-- `told i l s` is `s` with the set `l`, after the object `i` was called.
abbrev pub run_each : {R : Type 0} → (ℕ → R → R) → List ℕ → R → R
run_each step [] r = r
run_each step (i ∷ l) r = run_each step l (step i r)

module _ {S : Type 0} (members : S → List ℕ) (told : ℕ → List ℕ → S → S) where
  unfoldable pub erase_each : List ℕ → S → Option S
  erase_each [] s = some s
  erase_each (i ∷ l) s = erase i (members s) >>= λ left. erase_each l (told i left s)

  unfoldable pub insert_each : (ℕ → Bool) → List ℕ → S → Option S
  insert_each ok [] s = some s
  insert_each ok (i ∷ l) s = (if ok i then insert i (members s) else some (members s)) >>= λ all.
      insert_each ok l (told i all s)

  module _ (kept : (i : ℕ) (l : List ℕ) (s : S) → members (told i l s) ≡ l) where
    pub erase_each_lem :
        (l : List ℕ) (s : S)
        → Ascending (members s)
        → removable l (λ k. contains k (members s)) ≡ true
        → (s' : S) × (erase_each l s ≡ some s')
          × Ascending (members s')
          × ((k : ℕ) → contains k (members s') ≡ (not (contains k l) && contains k (members s)))
    unfolding erase_each removable
    erase_each_lem [] s a r = (s, refl, a, λ k. refl)
    erase_each_lem (i ∷ l) s a r =
        let (left, q, x) = erase-Erased i (members s) a (ground arith) in
        let s1 : S = told i left s in
        let rest : removable l (λ k. contains k (members s1)) ≡ true =
          removable-ext l _ _ (λ k. ap (contains k) (kept i left s) ∙ x.members k) ∙ ground arith in
        let (s', p, b, m) = erase_each_lem l s1 (rw (kept i left s) x.ascending) rest in
        (s', rw q p, b, λ k. ground (arith, m k, x.members k, ap (contains k) (kept i left s)))

    pub erase_each_aborts :
        (l : List ℕ) (s : S)
        → Ascending (members s)
        → removable l (λ k. contains k (members s)) ≡ false
        → erase_each l s ≡ none
    unfolding erase_each removable
    erase_each_aborts [] s a r = cc
    erase_each_aborts (i ∷ l) s a r = elim (Bool-cases (contains i (members s))) [
      | inr out ↦ rw (erase_absent i (members s) out) refl
      | inl here ↦
          let (left, q, x) = erase-Erased i (members s) a here in
          let rest : removable l (λ k. contains k (members (told i left s))) ≡ false =
            removable-ext l _ _ (λ k. ap (contains k) (kept i left s) ∙ x.members k)
            ∙ ground arith in
          rw q (erase_each_aborts l (told i left s) (rw (kept i left s) x.ascending) rest)
    ]

    pub insert_each_lem :
        (ok : ℕ → Bool) (l : List ℕ) (s : S)
        → Ascending (members s)
        → addable ok l (λ k. contains k (members s)) ≡ true
        → (s' : S) × (insert_each ok l s ≡ some s')
          × Ascending (members s')
          × ((k : ℕ) → contains k (members s') ≡ ((ok k && contains k l) || contains k (members s)))
    unfolding insert_each addable
    insert_each_lem ok [] s a r = (s, refl, a, λ k. ground arith)
    insert_each_lem ok (i ∷ l) s a r =
        let (all, q, x, x') = put_one (ok i) i (members s) a (ground arith) in
        let s1 : S = told i all s in
        let rest : addable ok l (λ k. contains k (members s1)) ≡ true =
          addable-ext ok l _ _ (λ k. ap (contains k) (kept i all s) ∙ x' k) ∙ ground arith in
        let (s', p, b, m) = insert_each_lem ok l s1 (rw (kept i all s) x) rest in
        (
          s',
          rw q p,
          b,
          λ k. m k ∙ rw (ap (contains k) (kept i all s) ∙ x' k) (merged k i l ok (members s)),
        )

  -- What no call changes is not changed.
  pub erase_each_same :
      {R : Type 0} (part : S → R)
      → ((i : ℕ) (l : List ℕ) (s : S) → part (told i l s) ≡ part s)
      → (l : List ℕ) (s s' : S) → erase_each l s ≡ some s'
      → part s' ≡ part s
  unfolding erase_each
  erase_each_same part same [] s s' h = let e : s ≡ s' = ground (arith, h) in ap part (sym e)
  erase_each_same part same (i ∷ l) s s' h = elim (Option-cases (erase i (members s))) [
    | inl n ↦ absurd (ground (arith, h, n))
    | inr (left, q) ↦
        let rest : erase_each l (told i left s) ≡ some s' = sym (rw q refl) ∙ h in
        erase_each_same part same l (told i left s) s' rest ∙ same i left s
  ]

  pub insert_each_same :
      {R : Type 0} (part : S → R)
      → ((i : ℕ) (l : List ℕ) (s : S) → part (told i l s) ≡ part s)
      → (ok : ℕ → Bool) (l : List ℕ) (s s' : S) → insert_each ok l s ≡ some s'
      → part s' ≡ part s
  unfolding insert_each
  insert_each_same part same ok [] s s' h = let e : s ≡ s' = ground (arith, h) in ap part (sym e)
  insert_each_same part same ok (i ∷ l) s s' h =
      elim (Option-cases (if ok i then insert i (members s) else some (members s))) [
        | inl n ↦ absurd (ground (arith, h, n))
        | inr (all, q) ↦
            let rest : insert_each ok l (told i all s) ≡ some s' = sym (rw q refl) ∙ h in
            insert_each_same part same ok l (told i all s) s' rest ∙ same i all s
      ]

  -- What the calls do to a part of the state, one after the other.
  pub erase_each_run :
      {R : Type 0} (part : S → R) (step : ℕ → R → R)
      → ((i : ℕ) (l : List ℕ) (s : S) → part (told i l s) ≡ step i (part s))
      → (l : List ℕ) (s s' : S) → erase_each l s ≡ some s'
      → part s' ≡ run_each step l (part s)
  unfolding erase_each
  erase_each_run part step one [] s s' h = let e : s ≡ s' = ground (arith, h) in ap part (sym e)
  erase_each_run part step one (i ∷ l) s s' h = elim (Option-cases (erase i (members s))) [
    | inl n ↦ absurd (ground (arith, h, n))
    | inr (left, q) ↦
        let rest : erase_each l (told i left s) ≡ some s' = sym (rw q refl) ∙ h in
        erase_each_run part step one l (told i left s) s' rest ∙ ap (run_each step l) (one i left s)
  ]

  pub insert_each_run :
      {R : Type 0} (part : S → R) (step : ℕ → R → R)
      → ((i : ℕ) (l : List ℕ) (s : S) → part (told i l s) ≡ step i (part s))
      → (ok : ℕ → Bool) (l : List ℕ) (s s' : S) → insert_each ok l s ≡ some s'
      → part s' ≡ run_each step l (part s)
  unfolding insert_each
  insert_each_run part step one ok [] s s' h = let e : s ≡ s' = ground (arith, h) in ap part (sym e)
  insert_each_run part step one ok (i ∷ l) s s' h =
      elim (Option-cases (if ok i then insert i (members s) else some (members s))) [
        | inl n ↦ absurd (ground (arith, h, n))
        | inr (all, q) ↦
            let rest : insert_each ok l (told i all s) ≡ some s' = sym (rw q refl) ∙ h in
            insert_each_run part step one ok l (told i all s) s' rest
            ∙ ap (run_each step l) (one i all s)
      ]
