-- ===== src/Utils/SmartPtr/Steps.antt =====
-- Each operation of CSmartPtr, and all of them in any order.
use smart_net.Base.{
  ℕ, zero, suc, ◌+◌, ◌<◌, Bool, true, false, ◌&&◌, ◌||◌, Option, none, some, List, ◌∷◌, ltb, ◌==◌,
  ◌≡◌, refl, ap, sym, ◌∙◌, arith, inl, inr, Bool-cases,
}
use smart_net.Utils.SmartPtr.{
  Heap, at, set_at, remove, same, inc_ref, wrap, copy, assign, assign_ptr, destroy, Op, op_wrap,
  op_copy, op_assign, op_assign_ptr, op_destroy, step,
}
use smart_net.Utils.SmartPtr.Counts.{
  hit, occurs, occurs-set_at, occurs-remove, inc_ref-count, inc_ref-gone, inc_ref-ptrs, Valid, Live,
  Done, Valid-Live, let_go, let_go_lem, same_eq, apart, set_at_same,
}

-- The counts of one object: `c` before, `d` without the pointer that goes, and `e` with the one that comes.
deleted_once :
    (g : Bool) (c d e out came : ℕ)
    → d + out ≡ c
    → e ≡ d + came
    → (0 < out → came ≡ 0)
    → (g || (ltb 0 out && (d == 0))) ≡ (g || (ltb 0 c && (e == 0)))
deleted_once true c d e out came less more other = refl
deleted_once false c d zero out came less more other = ground (arith, less, more)
deleted_once false c d (suc e) zero came less more other = ground (arith, less, more)
deleted_once false c d (suc e) (suc out) came less more other =
    let none_came : came ≡ 0 = other (omega arith) in ground (arith, less, more, none_came)

kept_zero :
    (g : Bool) (c d e out came : ℕ)
    → d + out ≡ c
    → e ≡ d + came
    → (0 < out → came ≡ 0)
    → (0 < came → g ≡ false)
    → (g ≡ true → c ≡ 0)
    → (g || (ltb 0 out && (d == 0))) ≡ true
    → e ≡ 0
kept_zero true c d e out zero less more other live was now = omega (arith, less, more, was refl)
kept_zero true c d e out (suc came) less more other live was now =
    absurd (grind (arith, live (omega arith)))
kept_zero false c d e zero came less more other live was now = absurd (grind (arith, now))
kept_zero false c d e (suc out) came less more other live was now =
    let none_came : came ≡ 0 = other (omega arith) in ground (arith, more, none_came, now)

-- A pointer to a live object can be made.
wrap_lem : (p : Option ℕ) (h : Heap) → Valid h → Live p h → Done h (wrap p h) (p ∷ h.ptrs)
unfolding wrap occurs
wrap_lem p h v live =
    let h1 : Heap = record h { ptrs = p ∷ h.ptrs } in
    let counts = λ (k : ℕ). inc_ref-count p h1 k in
    let gone = λ (k : ℕ). inc_ref-gone p h1 k in
    record {
      ptrs_lem = inc_ref-ptrs p h1;
      valid = record {
        counted =
            λ k. counts k ∙ omega (arith, v.counted k) ∙ ap (occurs k) (sym (inc_ref-ptrs p h1));
        kept = λ k dead.
            kept_zero (h.gone k) (h.count k) (h.count k) ((inc_ref p h1).count k) 0 (hit k p)
              (omega arith) (counts k) (λ q. absurd (omega (arith, q))) (live k) (v.kept k)
              (ground (arith, gone k, dead));
      };
      deleted = λ k.
          gone k
          ∙ ground arith
          ∙ deleted_once (h.gone k) (h.count k) (h.count k) ((inc_ref p h1).count k) 0 (hit k p)
              (omega arith) (counts k) (λ q. absurd (omega (arith, q)));
    }

-- Another pointer to a live object, in the place of one that exists.
assign_lem :
    (i : ℕ) (p cur : Option ℕ) (h : Heap)
    → Valid h
    → at i h.ptrs ≡ some cur
    → Live p h
    → (h' : Heap) × (assign i p h ≡ some h') × Done h h' (set_at i p h.ptrs)
unfolding assign
assign_lem i p cur h v here live = elim (Bool-cases (same cur p)) [
  | inl eq ↦ (
    h,
    rw (here, eq) refl,
    record {
      ptrs_lem =
          sym (set_at_same i cur h.ptrs here) ∙ ap (λ q. set_at i q h.ptrs) (same_eq cur p eq);
      valid = v;
      deleted = λ k. ground arith;
    },
  )
  | inr differ ↦
      let (took, ptrs, less, gone) = let_go_lem i cur h v here in
      let h1 : Heap = record (let_go cur h) { ptrs = set_at i p (let_go cur h).ptrs } in
      let h2 : Heap = inc_ref p h1 in
      let placed : h2.ptrs ≡ set_at i p h.ptrs = inc_ref-ptrs p h1 ∙ ap (λ l. set_at i p l) ptrs in
      (
        h2,
        rw (here, differ, took) refl,
        record {
          ptrs_lem = placed;
          valid = record {
            counted = λ k.
                omega (
                  arith,
                  inc_ref-count p h1 k,
                  less k,
                  v.counted k,
                  occurs-set_at k i p cur h.ptrs here,
                )
                ∙ ap (occurs k) (sym placed);
            kept = λ k dead.
                kept_zero (h.gone k) (h.count k) ((let_go cur h).count k) (h2.count k) (hit k cur)
                  (hit k p) (less k) (inc_ref-count p h1 k) (apart k cur p differ) (live k)
                  (v.kept k) (sym (gone k) ∙ sym (inc_ref-gone p h1 k) ∙ dead);
          };
          deleted = λ k.
              inc_ref-gone p h1 k
              ∙ gone k
              ∙ deleted_once (h.gone k) (h.count k) ((let_go cur h).count k) (h2.count k)
                  (hit k cur) (hit k p) (less k) (inc_ref-count p h1 k) (apart k cur p differ);
        },
      )
]

destroy_lem :
    (i : ℕ) (cur : Option ℕ) (h : Heap)
    → Valid h
    → at i h.ptrs ≡ some cur
    → (h' : Heap) × (destroy i h ≡ some h') × Done h h' (remove i h.ptrs)
unfolding destroy
destroy_lem i cur h v here =
    let (took, ptrs, less, gone) = let_go_lem i cur h v here in
    let h1 : Heap = record (let_go cur h) { ptrs = remove i (let_go cur h).ptrs } in
    let placed : h1.ptrs ≡ remove i h.ptrs = ap (λ l. remove i l) ptrs in
    (
      h1,
      rw (here, took) refl,
      record {
        ptrs_lem = placed;
        valid = record {
          counted = λ k.
              omega (arith, less k, v.counted k, occurs-remove k i cur h.ptrs here)
              ∙ ap (occurs k) (sym placed);
          kept = λ k dead.
              kept_zero (h.gone k) (h.count k) (h1.count k) (h1.count k) (hit k cur) 0 (less k)
                (omega arith) (λ q. refl) (λ q. absurd (omega (arith, q))) (v.kept k)
                (sym (gone k) ∙ dead);
        };
        deleted = λ k.
            gone k
            ∙ deleted_once (h.gone k) (h.count k) (h1.count k) (h1.count k) (hit k cur) 0 (less k)
                (omega arith) (λ q. refl);
      },
    )

abbrev pub Exists : ℕ → Heap → Type 0
Exists i h = (p : Option ℕ) × (at i h.ptrs ≡ some p)

-- The pointers that an operation uses exist, and a plain pointer is null or one to a live object.
abbrev pub Legal : Op → Heap → Type 0
Legal (op_wrap p) h = Live p h
Legal (op_copy i) h = Exists i h
Legal (op_assign i p) h = Exists i h × Live p h
Legal (op_assign_ptr i j) h = Exists i h × Exists j h
Legal (op_destroy i) h = Exists i h

-- The pointers after an operation, without counts and objects.
unfoldable pub placed : Op → List (Option ℕ) → List (Option ℕ)
placed (op_wrap p) l = p ∷ l
placed (op_copy i) l = elim (at i l) [ none ↦ l | some p ↦ p ∷ l ]
placed (op_assign i p) l = set_at i p l
placed (op_assign_ptr i j) l = elim (at j l) [ none ↦ l | some p ↦ set_at i p l ]
placed (op_destroy i) l = remove i l

-- Counted pointers to objects that hold no counted pointers themselves, as memory blocks do not,
-- with counts that are right: every operation on pointers that exist, with a plain pointer that is
-- null or one to a live object, fails no assertion and changes the pointers as plain pointers would
-- be; the count of every object is again the number of its pointers, none of them points to a
-- deleted object, and exactly the objects whose last pointer has gone are deleted.
pub step_lem :
    (op : Op) (h : Heap)
    → Valid h
    → Legal op h
    → (h' : Heap) × (step op h ≡ some h') × Done h h' (placed op h.ptrs)
unfolding step placed copy assign_ptr
step_lem (op_wrap p) h v live = (wrap p h, refl, wrap_lem p h v live)
step_lem (op_copy i) h v (p, here) =
    rw (here, placed) (wrap p h, refl, wrap_lem p h v (Valid-Live i p h v here))
step_lem (op_assign i p) h v ((cur, here), live) = assign_lem i p cur h v here live
step_lem (op_assign_ptr i j) h v ((cur, here), (p, there)) =
    rw (there, placed) (assign_lem i p cur h v here (Valid-Live j p h v there))
step_lem (op_destroy i) h v (cur, here) = destroy_lem i cur h v here
