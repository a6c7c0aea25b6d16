-- ===== src/Utils/SmartPtr.antt =====
-- class CSmartPtr of libcomm_utils/src/utils/smart_ptr.h over the counter of class ICommonBase
-- (libcomm_utils/src/common/base.h). Objects are numbers; the pointers that exist are a list of their m_pObj.
-- The objects hold no counted pointers themselves, as CMemBlock does not: the destructor that dec_ref
-- runs changes no other pointer.
pub mod Counts
pub mod Steps
mod Tests
use smart_net.Base.{
  ℕ, zero, suc, ◌+◌, ◌-◌, Bool, true, false, Option, none, some, List, [], ◌∷◌, ltb, ◌==◌,
  if◌then◌else◌, ◌>>=◌, ◌>>◌, cmn_assert,
}

pub record Heap : Type 0 where
  pub count : ℕ → ℕ
  pub gone : ℕ → Bool
  pub ptrs : List (Option ℕ)

abbrev pub at : ℕ → List (Option ℕ) → Option (Option ℕ)
at i [] = none
at zero (p ∷ l) = some p
at (suc i) (p ∷ l) = at i l

abbrev pub set_at : ℕ → Option ℕ → List (Option ℕ) → List (Option ℕ)
set_at i p [] = []
set_at zero p (q ∷ l) = p ∷ l
set_at (suc i) p (q ∷ l) = q ∷ set_at i p l

abbrev pub remove : ℕ → List (Option ℕ) → List (Option ℕ)
remove i [] = []
remove zero (q ∷ l) = l
remove (suc i) (q ∷ l) = q ∷ remove i l

-- `m_pObj == pObj`
unfoldable pub same : Option ℕ → Option ℕ → Bool
same none none = true
same (some o) (some k) = o == k
same none (some k) = false
same (some o) none = false

-- CSmartPtr::inc_ref and dec_ref; the last reference deletes the object.
unfoldable pub inc_ref : Option ℕ → Heap → Heap
inc_ref none h = h
inc_ref (some o) h = record h { count = λ k. if o == k then h.count k + 1 else h.count k }

unfoldable pub dec_ref : Option ℕ → Heap → Option Heap
dec_ref none h = some h
dec_ref (some o) h =
    cmn_assert (ltb 0 (h.count o))
    >> some (record h {
      count = λ k. if o == k then h.count k - 1 else h.count k;
      gone = λ k. if o == k then (if h.count k == 1 then true else h.gone k) else h.gone k;
    })

-- The constructors from a plain pointer and from another CSmartPtr; the new one is the first.
unfoldable pub wrap : Option ℕ → Heap → Heap
wrap p h = inc_ref p (record h { ptrs = p ∷ h.ptrs })

unfoldable pub copy : ℕ → Heap → Option Heap
copy i h = at i h.ptrs >>= λ p. some (wrap p h)

-- Both operators =.
unfoldable pub assign : ℕ → Option ℕ → Heap → Option Heap
assign i p h = at i h.ptrs >>= λ cur.
    if same cur p
    then some h
    else (dec_ref cur h >>= λ h'. some (inc_ref p (record h' { ptrs = set_at i p h'.ptrs })))

unfoldable pub assign_ptr : (i j : ℕ) → Heap → Option Heap
assign_ptr i j h = at j h.ptrs >>= λ p. assign i p h

unfoldable pub destroy : ℕ → Heap → Option Heap
destroy i h =
    at i h.ptrs >>= λ cur. dec_ref cur h >>= λ h'. some (record h' { ptrs = remove i h'.ptrs })

-- The operations, as an interleaving of them would name them.
pub data Op : Type 0 where
  op_wrap : Option ℕ → Op
  op_copy : ℕ → Op
  op_assign : ℕ → Option ℕ → Op
  op_assign_ptr : ℕ → ℕ → Op
  op_destroy : ℕ → Op

unfoldable pub step : Op → Heap → Option Heap
step (op_wrap p) h = some (wrap p h)
step (op_copy i) h = copy i h
step (op_assign i p) h = assign i p h
step (op_assign_ptr i j) h = assign_ptr i j h
step (op_destroy i) h = destroy i h
