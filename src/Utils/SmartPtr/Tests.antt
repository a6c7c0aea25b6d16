-- ===== src/Utils/SmartPtr/Tests.antt =====
-- Two objects and three pointers, of which the last one to the object 7 is assigned another object.
use smart_net.Base.{false, some, [], ◌∷◌, ◌==◌, ◌≡◌, refl, arith, if◌then◌else◌}
use smart_net.Utils.SmartPtr.{Heap, op_assign_ptr, step}
use smart_net.Utils.SmartPtr.Counts.{hit, occurs, Valid, Done}
use smart_net.Utils.SmartPtr.Steps.{placed, step_lem}

abbrev three_ptrs : Heap
three_ptrs = record {
  count = λ k. if k == 7 then 1 else (if k == 8 then 2 else 0);
  gone = λ k. false;
  ptrs = some 7 ∷ some 8 ∷ some 8 ∷ [];
}

three_ptrs-Valid : Valid three_ptrs
unfolding occurs hit
three_ptrs-Valid = record { counted = λ k. ground arith; kept = λ k h. ground (arith, h) }

step_lem_example :
    (h' : Heap) × (step (op_assign_ptr 0 2) three_ptrs ≡ some h')
    × Done three_ptrs h' (placed (op_assign_ptr 0 2) three_ptrs.ptrs)
step_lem_example =
    step_lem (op_assign_ptr 0 2) three_ptrs three_ptrs-Valid ((some 7, refl), (some 8, refl))
