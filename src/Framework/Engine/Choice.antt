-- ===== src/Framework/Engine/Choice.antt =====
-- The choice of a task in CSNEngine::add_endpoint: the first of those with the fewest objects.
use smart_net.Base.{
  ℕ, zero, suc, pos, ◌+◌, ◌≤◌, ◌<◌, some, List, [], ◌∷◌, ltb, ◌==◌, ◌≡◌, refl, arith, inl, inr, ◌⊎◌,
  Bool-cases, map, ap, ◌∙◌,
}
use native.Mathlib.Nat.{zero-add}
use smart_net.Framework.Engine.{choose, choose_first, nth}

-- The item `c` at `j` is the smallest of the list, and the first of those.
pub record FirstLeast (cs : List ℕ) (j c : ℕ) : Type 0 where
  pub here : nth j cs ≡ some c
  pub least : (k d : ℕ) → nth k cs ≡ some d → c ≤ d
  pub first : (k d : ℕ) → nth k cs ≡ some d → k < j → c < d

AtLeast : ℕ → List ℕ → Type 0
AtLeast m cs = (k d : ℕ) → nth k cs ≡ some d → m ≤ d

-- What the loop returns: the choice so far, or a later item.
Chosen : (i best min : ℕ) → List ℕ → ℕ → Type 0
Chosen i best min cs r =
    ((r ≡ best) × AtLeast min cs)
    ⊎ ((j : ℕ) × (c : ℕ) × (r ≡ i + j) × ((c < min) ⊎ (c ≡ 0)) × FirstLeast cs j c)

AtLeast-cons : (m c : ℕ) (cs : List ℕ) → m ≤ c → AtLeast m cs → AtLeast m (c ∷ cs)
unfolding AtLeast nth
AtLeast-cons m c cs p a zero d h = ground (arith, h)
AtLeast-cons m c cs p a (suc k) d h = a k d h

FirstLeast-head : (c : ℕ) (cs : List ℕ) → AtLeast c cs → FirstLeast (c ∷ cs) 0 c
unfolding AtLeast nth
FirstLeast-head c cs a = record {
  here = refl;
  least = AtLeast-cons c c cs (omega arith) a;
  first = λ k d h p. absurd (omega (arith, p));
}

before_later :
    (c' c j : ℕ) (cs : List ℕ)
    → c < c'
    → FirstLeast cs j c
    → (k d : ℕ) → nth k (c' ∷ cs) ≡ some d
    → k < suc j
    → c < d
unfolding nth
before_later c' c j cs p f zero d h q = ground (arith, h)
before_later c' c j cs p f (suc k) d h q = f.first k d h (omega (arith, q))

FirstLeast-later :
    (c' c j : ℕ) (cs : List ℕ) → c < c' → FirstLeast cs j c → FirstLeast (c' ∷ cs) (suc j) c
unfolding AtLeast nth
FirstLeast-later c' c j cs p f = record {
  here = f.here;
  least = AtLeast-cons c c' cs (omega (arith, p)) f.least;
  first = before_later c' c j cs p f;
}

-- Zero is below every item.
zero-AtLeast : (cs : List ℕ) → AtLeast 0 cs
unfolding AtLeast
zero-AtLeast cs k d h = omega arith

choose-Chosen :
    (i best min : ℕ) (cs : List ℕ) → Chosen i best min cs (choose i best (pos min) (map pos cs))
unfolding choose Chosen AtLeast nth
choose-Chosen i best min [] = inl (refl, λ k d h. absurd (ground (arith, h)))
choose-Chosen i best min (c ∷ cs) = elim (Bool-cases (c == 0)) [
  | inl z ↦
      let e : c ≡ 0 = ground arith in
      rw z (inr (0, c, omega arith, inr e, FirstLeast-head c cs (rw e (zero-AtLeast cs))))
  | inr nz ↦ elim (Bool-cases (ltb c min)) [
    | inl less ↦
        rw (nz, less)
          (elim (choose-Chosen (i + 1) i c cs) [
            | inl (r, a) ↦ inr (0, c, omega (arith, r), inl (ground arith), FirstLeast-head c cs a)
            | inr (j, c', r, l, f) ↦
                let p : c' < c = ground (arith, l) in
                inr (
                  suc j,
                  c',
                  omega (arith, r),
                  inl (ground (arith, p)),
                  FirstLeast-later c c' j cs p f,
                )
          ])
    | inr more ↦
        rw (nz, more)
          (elim (choose-Chosen (i + 1) best min cs) [
            | inl (r, a) ↦ inl (r, AtLeast-cons min c cs (ground arith) a)
            | inr (j, c', r, l, f) ↦
                let p : c' < c = ground (arith, l) in
                inr (suc j, c', omega (arith, r), l, FirstLeast-later c c' j cs p f)
          ])
  ]
]

-- The first of the least counts is chosen.
pub choose_first_lem :
    (c : ℕ) (cs : List ℕ)
    → (k : ℕ) × (m : ℕ) × (choose_first (map pos (c ∷ cs)) ≡ some k) × FirstLeast (c ∷ cs) k m
unfolding Chosen AtLeast nth
choose_first_lem c cs = elim (choose-Chosen 0 0 c (c ∷ cs)) [
  | inl (r, a) ↦ (0, c, ap some r, FirstLeast-head c cs (λ k. a (suc k)))
  | inr (j, m, r, l, f) ↦ (j, m, ap some (r ∙ zero-add j), f)
]
