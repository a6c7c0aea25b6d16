-- ===== src/Utils/SmartPtr/Counts.antt =====
-- The count of an object is the number of its pointers, and it is deleted with the last one.
use smart_net.Base.{
  ℕ, zero, suc, ◌+◌, ◌-◌, ◌<◌, true, false, ◌&&◌, ◌||◌, Option, none, some, List, [], ◌∷◌, ltb,
  ◌==◌, if◌then◌else◌, ◌≡◌, refl, ap, sym, arith, inl, inr, Bool-cases,
}
use smart_net.Utils.SmartPtr.{Heap, at, set_at, remove, same, inc_ref, dec_ref}

-- Whether a pointer is one of the object, as a number, and how many are.
unfoldable pub hit : ℕ → Option ℕ → ℕ
hit o none = 0
hit o (some k) = if k == o then 1 else 0

unfoldable pub occurs : ℕ → List (Option ℕ) → ℕ
occurs o [] = 0
occurs o (p ∷ l) = hit o p + occurs o l

pub occurs-set_at :
    (o i : ℕ) (p cur : Option ℕ) (l : List (Option ℕ))
    → at i l ≡ some cur
    → occurs o (set_at i p l) + hit o cur ≡ occurs o l + hit o p
unfolding occurs
occurs-set_at o i p cur [] e = absurd (grind (arith, e))
occurs-set_at o zero p cur (q ∷ l) e = grind (arith, e)
occurs-set_at o (suc i) p cur (q ∷ l) e = omega (arith, occurs-set_at o i p cur l e)

pub occurs-remove :
    (o i : ℕ) (cur : Option ℕ) (l : List (Option ℕ))
    → at i l ≡ some cur
    → occurs o (remove i l) + hit o cur ≡ occurs o l
unfolding occurs
occurs-remove o i cur [] e = absurd (grind (arith, e))
occurs-remove o zero cur (q ∷ l) e = grind (arith, e)
occurs-remove o (suc i) cur (q ∷ l) e = omega (arith, occurs-remove o i cur l e)

-- The heap with one reference less.
abbrev released : ℕ → Heap → Heap
released o h = record h {
  count = λ k. if o == k then h.count k - 1 else h.count k;
  gone = λ k. if o == k then (if h.count k == 1 then true else h.gone k) else h.gone k;
}

released-count :
    (o : ℕ) (h : Heap) (k : ℕ) → 0 < h.count o → (released o h).count k + hit k (some o) ≡ h.count k
unfolding hit
released-count o h k pos = ground (arith, pos)

released-gone :
    (o : ℕ) (h : Heap) (k : ℕ)
    → 0 < h.count o
    → (released o h).gone k
      ≡ (h.gone k || (ltb 0 (hit k (some o)) && ((released o h).count k == 0)))
unfolding hit
released-gone o h k pos = ground (arith, pos)

dec_ref_lem : (o : ℕ) (h : Heap) → 0 < h.count o → dec_ref (some o) h ≡ some (released o h)
unfolding dec_ref
dec_ref_lem o h pos =
    let held : ltb 0 (h.count o) ≡ true = ground (arith, pos) in rw (held, dec_ref) refl

pub inc_ref-count : (p : Option ℕ) (h : Heap) (k : ℕ) → (inc_ref p h).count k ≡ h.count k + hit k p
unfolding inc_ref hit
inc_ref-count none h k = omega arith
inc_ref-count (some o) h k = ground arith

pub inc_ref-gone : (p : Option ℕ) (h : Heap) (k : ℕ) → (inc_ref p h).gone k ≡ h.gone k
unfolding inc_ref
inc_ref-gone none h k = refl
inc_ref-gone (some o) h k = refl

pub inc_ref-ptrs : (p : Option ℕ) (h : Heap) → (inc_ref p h).ptrs ≡ h.ptrs
unfolding inc_ref
inc_ref-ptrs none h = refl
inc_ref-ptrs (some o) h = refl

hit-occurs :
    (k i : ℕ) (p : Option ℕ) (l : List (Option ℕ))
    → at i l ≡ some p
    → (n : ℕ) × (occurs k l ≡ n + hit k p)
hit-occurs k i p l e = (occurs k (remove i l), sym (occurs-remove k i p l e))

-- The counts are right, and an object that was deleted has no pointers.
pub record Valid (h : Heap) : Type 0 where
  pub counted : (k : ℕ) → h.count k ≡ occurs k h.ptrs
  pub kept : (k : ℕ) → h.gone k ≡ true → h.count k ≡ 0

abbrev pub Live : Option ℕ → Heap → Type 0
Live p h = (k : ℕ) → 0 < hit k p → h.gone k ≡ false

-- What a step does: the pointers are these, the counts are right again, and exactly the objects whose last
-- pointer has gone are deleted.
pub record Done (h h' : Heap) (l : List (Option ℕ)) : Type 0 where
  pub ptrs_lem : h'.ptrs ≡ l
  pub valid : Valid h'
  pub deleted : (k : ℕ) → h'.gone k ≡ (h.gone k || (ltb 0 (h.count k) && (h'.count k == 0)))

pub Valid-Live : (i : ℕ) (p : Option ℕ) (h : Heap) → Valid h → at i h.ptrs ≡ some p → Live p h
Valid-Live i p h v e k pos = elim (Bool-cases (h.gone k)) [
  | inr alive ↦ alive
  | inl dead ↦
      let (n, more) = hit-occurs k i p h.ptrs e in
      absurd (omega (arith, pos, more, v.counted k, v.kept k dead))
]

abbrev pub let_go : Option ℕ → Heap → Heap
let_go none h = h
let_go (some o) h = released o h

-- A pointer that exists can be let go.
pub let_go_lem :
    (i : ℕ) (cur : Option ℕ) (h : Heap)
    → Valid h
    → at i h.ptrs ≡ some cur
    → (dec_ref cur h ≡ some (let_go cur h))
      × ((let_go cur h).ptrs ≡ h.ptrs)
      × ((k : ℕ) → (let_go cur h).count k + hit k cur ≡ h.count k)
      × ((k : ℕ)
          → (let_go cur h).gone k
            ≡ (h.gone k || (ltb 0 (hit k cur) && ((let_go cur h).count k == 0))))
unfolding dec_ref hit
let_go_lem i none h v e = (refl, refl, λ k. omega arith, λ k. ground arith)
let_go_lem i (some o) h v e =
    let (n, more) = hit-occurs o i (some o) h.ptrs e in
    let pos : 0 < h.count o = ground (arith, more, v.counted o) in
    (dec_ref_lem o h pos, refl, λ k. released-count o h k pos, λ k. released-gone o h k pos)

pub same_eq : (p q : Option ℕ) → same p q ≡ true → p ≡ q
unfolding same
same_eq none none e = refl
same_eq (some o) (some k) e = ap (λ n. some n) (ground (arith, e))
same_eq none (some k) e = absurd (grind (arith, e))
same_eq (some o) none e = absurd (grind (arith, e))

-- Two pointers that differ do not point to one object.
pub apart : (k : ℕ) (p q : Option ℕ) → same p q ≡ false → 0 < hit k p → hit k q ≡ 0
unfolding same hit
apart k none q e pos = absurd (omega (arith, pos))
apart k (some o) none e pos = refl
apart k (some o) (some n) e pos = ground (arith, e, pos)

pub set_at_same : (i : ℕ) (p : Option ℕ) (l : List (Option ℕ)) → at i l ≡ some p → set_at i p l ≡ l
set_at_same i p [] e = refl
set_at_same zero p (q ∷ l) e = grind (arith, e)
set_at_same (suc i) p (q ∷ l) e = ap (λ m. q ∷ m) (set_at_same i p l e)
