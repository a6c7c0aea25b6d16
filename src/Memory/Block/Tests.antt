-- ===== src/Memory/Block/Tests.antt =====
-- A block with a header of two bytes.
use smart_net.Base.{
  ℕ, ◌+◌, ◌≤◌, ◌<◌, List, [], ◌∷◌, ◌++◌, length, ◌≡◌, ◌⊎◌, arith, cmnerr_suc, cmnerr_common_err,
}
use smart_net.Memory.Block.{Block, new_block, append, dec_head_data, inc_head_data, max_mem_size}
use smart_net.Memory.Block.Content.{content, Fits, append_lem, inc_head_data-dec_head_data}

abbrev two_bytes : List ℕ
two_bytes = 7 ∷ 8 ∷ []

abbrev at_end : Block
at_end = record (new_block) { offset = 32764; len = 3 }

append_lem_example :
    ((at_end.len + length two_bytes ≤ max_mem_size)
      × ((append two_bytes at_end).0 ≡ cmnerr_suc)
      × (content (append two_bytes at_end).1 ≡ content at_end ++ two_bytes)
      × Fits (append two_bytes at_end).1)
    ⊎ ((max_mem_size < at_end.len + length two_bytes)
        × (append two_bytes at_end ≡ (cmnerr_common_err, at_end)))
append_lem_example = append_lem two_bytes at_end (omega arith)

head_put_back : inc_head_data 2 (dec_head_data 2 at_end) ≡ (cmnerr_suc, at_end)
head_put_back = inc_head_data-dec_head_data 2 at_end (omega arith) (omega arith)
