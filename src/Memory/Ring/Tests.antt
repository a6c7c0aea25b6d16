-- ===== src/Memory/Ring/Tests.antt =====
-- A ring of two blocks of four bytes.
use smart_net.Base.{ℕ, ◌-◌, ◌≤◌, ◌<◌, false, some, List, [], ◌∷◌, length, ◌≡◌, ◌⊎◌, refl, arith}
use smart_net.Memory.Ring.{Ring, new_ring, empty, set_data, get_data, block_at, set_data_head_idx}
use smart_net.Memory.Ring.Laws.{
  IsValid, block_data, set_data_lem, RingOp, step, run, run_never_empty,
}

abbrev two_bytes : List ℕ
two_bytes = 7 ∷ 8 ∷ []

abbrev small_ring : Ring
small_ring = new_ring 2 4

small_ring-IsValid : IsValid small_ring
small_ring-IsValid = record {
  some_blocks = omega arith;
  ordered = omega arith;
  within = omega arith;
  fits = omega arith;
}

set_data_lem_example :
    ((small_ring.free_head - small_ring.data_head ≡ small_ring.block_cnt)
      × (set_data two_bytes small_ring ≡ some (0, small_ring)))
    ⊎ ((r' : Ring) × (set_data two_bytes small_ring ≡ some (small_ring.free_head, r'))
        × IsValid r'
        × (get_data small_ring.free_head r' ≡ some (block_at small_ring.free_head r'))
        × (block_data r' small_ring.free_head (length two_bytes) ≡ two_bytes)
        × ((i : ℕ)
            → small_ring.data_head ≤ i
            → i < small_ring.free_head
            → block_data r' i small_ring.block_sz ≡ block_data small_ring i small_ring.block_sz))
set_data_lem_example =
    set_data_lem two_bytes small_ring small_ring-IsValid (omega arith) (omega arith)

abbrev used_ring : Ring
used_ring = record small_ring { free_head = 3 }

abbrev emptied_ring : Ring
emptied_ring = record used_ring { data_head = 2 }

one_released : run (RingOp.release_to 2 ∷ []) used_ring ≡ some emptied_ring
unfolding run step set_data_head_idx
one_released = refl

run_never_empty_example : empty emptied_ring ≡ false
run_never_empty_example =
    run_never_empty (RingOp.release_to 2 ∷ []) used_ring emptied_ring (omega arith) (omega arith)
      (omega arith) one_released
