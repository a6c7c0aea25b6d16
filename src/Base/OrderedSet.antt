-- ===== src/Base/OrderedSet.antt =====
-- std::set of pointers: the addresses in ascending order, without repetition.
use Prim.Native.Nat.{ℕ, ◌<◌}
use mathlib.Core.Path.{◌≡◌, refl, ap}
use mathlib.Core.Logic.{inl, inr}
use mathlib.Core.Bool.{Bool, true, false, not, ◌&&◌, ◌||◌}
use mathlib.Core.Option.{Option, none, some}
use mathlib.Core.List.{List, [], ◌∷◌}
use native.Mathlib.Omega.{arith}
use smart_net.Base.Tests.{ltb, ◌==◌, if◌then◌else◌, ltb→lt, ltb→ge, Bool-cases}
use smart_net.Base.Lists.{All, All-map}
use smart_net.Base.Fault.{◌>>=◌}

abbrev pub contains : ℕ → List ℕ → Bool
contains k [] = false
contains k (x ∷ xs) = (k == x) || contains k xs

-- `none` if the address is there already.
unfoldable pub insert : ℕ → List ℕ → Option (List ℕ)
insert i [] = some (i ∷ [])
insert i (x ∷ xs) =
    let rest = insert i xs in
    if ltb i x then some (i ∷ x ∷ xs) else (if i == x then none else (rest >>= λ r. some (x ∷ r)))

-- `none` if the address is not there.
unfoldable pub erase : ℕ → List ℕ → Option (List ℕ)
erase i [] = none
erase i (x ∷ xs) = let rest = erase i xs in if i == x then some xs else (rest >>= λ r. some (x ∷ r))

abbrev pub Ascending : List ℕ → Type 0
Ascending [] = Unit
Ascending (x ∷ xs) = All (λ y. x < y) xs × Ascending xs

pub below-absent : (i : ℕ) (xs : List ℕ) → All (λ y. i < y) xs → contains i xs ≡ false
below-absent i [] a = refl
below-absent i (x ∷ xs) a = ground (arith, below-absent i xs (a.1))

below_trans : (i x : ℕ) (xs : List ℕ) → i < x → All (λ y. x < y) xs → All (λ y. i < y) xs
below_trans i x xs h a = All-map (λ y p. omega arith) xs a

-- What a successful insertion yields.
pub record Inserted (i : ℕ) (xs ys : List ℕ) : Type 0 where
  pub ascending : Ascending ys
  pub members : (k : ℕ) → contains k ys ≡ ((k == i) || contains k xs)
  pub bounded : (b : ℕ) → b < i → All (λ y. b < y) xs → All (λ y. b < y) ys

pub insert-Inserted :
    (i : ℕ) (xs : List ℕ)
    → Ascending xs
    → contains i xs ≡ false
    → (ys : List ℕ) × (insert i xs ≡ some ys) × Inserted i xs ys
unfolding insert
insert-Inserted i [] a h =
    (i ∷ [], refl, record { ascending = (tt, tt); members = λ k. refl; bounded = λ b p q. (p, tt) })
insert-Inserted i (x ∷ xs) a h = elim (Bool-cases (ltb i x)) [
  | inl t ↦ (
    i ∷ x ∷ xs,
    rw t refl,
    record {
      ascending = ((ltb→lt i x t, below_trans i x xs (ltb→lt i x t) (a.0)), a);
      members = λ k. refl;
      bounded = λ b p q. (p, q);
    },
  )
  | inr f ↦
      let ne : (i == x) ≡ false = ground (arith, h) in
      let absent : contains i xs ≡ false = ground (arith, h) in
      let (ys, e, r) = insert-Inserted i xs (a.1) absent in
      (
        x ∷ ys,
        rw (f, ne, e) refl,
        record {
          ascending = (r.bounded x (ground (arith, ltb→ge i x f)) (a.0), r.ascending);
          members = λ k. ground (arith, r.members k);
          bounded = λ b p q. (q.0, r.bounded b p (q.1));
        },
      )
]

pub insert_present :
    (i : ℕ) (xs : List ℕ) → Ascending xs → contains i xs ≡ true → insert i xs ≡ none
unfolding insert
insert_present i [] a h = cc
insert_present i (x ∷ xs) a h = elim (Bool-cases (ltb i x)) [
  | inl t ↦ ground (arith, below-absent i xs (below_trans i x xs (ltb→lt i x t) (a.0)))
  | inr f ↦ ground (arith, insert_present i xs (a.1))
]

-- What a successful removal yields.
pub record Erased (i : ℕ) (xs ys : List ℕ) : Type 0 where
  pub ascending : Ascending ys
  pub members : (k : ℕ) → contains k ys ≡ (not (k == i) && contains k xs)
  pub bounded : (b : ℕ) → All (λ y. b < y) xs → All (λ y. b < y) ys

pub erase-Erased :
    (i : ℕ) (xs : List ℕ)
    → Ascending xs
    → contains i xs ≡ true
    → (ys : List ℕ) × (erase i xs ≡ some ys) × Erased i xs ys
unfolding erase
erase-Erased i [] a h = cc
erase-Erased i (x ∷ xs) a h = elim (Bool-cases (i == x)) [
  | inl t ↦ (
    xs,
    rw t refl,
    record {
      ascending = a.1;
      members = λ k. elim (Bool-cases (k == x)) [
        | inl s ↦
            let e : k ≡ x = ground arith in
            ground (arith, ap (λ j. contains j xs) e, below-absent x xs (a.0))
        | inr s ↦ ground arith
      ];
      bounded = λ b q. q.1;
    },
  )
  | inr f ↦
      let (ys, e, r) = erase-Erased i xs (a.1) (ground (arith, h)) in
      (
        x ∷ ys,
        rw (f, e) refl,
        record {
          ascending = (r.bounded x (a.0), r.ascending);
          members = λ k. ground (arith, r.members k);
          bounded = λ b q. (q.0, r.bounded b (q.1));
        },
      )
]

pub erase_absent : (i : ℕ) (xs : List ℕ) → contains i xs ≡ false → erase i xs ≡ none
unfolding erase
erase_absent i [] h = refl
erase_absent i (x ∷ xs) h = ground (arith, erase_absent i xs)
