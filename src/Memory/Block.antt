-- ===== src/Memory/Block.antt =====
-- class CMemBlock of libcomm_utils/src/memory/mem.h: an array of __MAX_MEM_SIZE__ bytes, of which
-- m_ui32Len from m_ui32Offset on hold data. The fields are u_int32_t. The array is a function of the
-- index, and what the source writes to a field outside of the array is written there too.
pub mod Content
mod Tests
use smart_net.Base.{
  ℕ, zero, suc, ℤ, ◌+◌, ◌%◌, ◌^◌, Bool, true, false, List, [], ◌∷◌, length, ltb, ◌==◌,
  if◌then◌else◌, cmnerr_suc, cmnerr_common_err, add32, sub32,
}

abbrev pub max_mem_size : ℕ
max_mem_size = 32768

pub record Block : Type 0 where
  pub bytes : ℕ → ℕ
  pub init_offset : ℕ
  pub offset : ℕ
  pub len : ℕ

-- NEW_MEM, whose argument is not used.
abbrev pub new_block : Block
new_block = record { bytes = λ j. 0; init_offset = 0; offset = 0; len = 0 }

-- memcpy to the index `p`, and memmove of `n` bytes from the index `from` to the beginning.
unfoldable pub copy : (ℕ → ℕ) → ℕ → List ℕ → (ℕ → ℕ)
copy f p [] = f
copy f p (x ∷ l) = λ j. if j == p then x else copy f (p + 1) l j

abbrev pub move_ahead : (ℕ → ℕ) → (from n : ℕ) → (ℕ → ℕ)
move_ahead f from n = λ j. if ltb j n then f (from + j) else f j

unfoldable pub move_data_ahead : Block → Block
move_data_ahead b =
    if ltb 0 b.offset then record b { bytes = move_ahead b.bytes b.offset b.len; offset = 0 } else b

unfoldable pub dec_head_data : ℕ → Block → Block
dec_head_data n b = record b { offset = add32 b.offset n; len = sub32 b.len n }

unfoldable pub inc_head_data : ℕ → Block → ℤ × Block
inc_head_data n b =
    if ltb b.offset n
    then (cmnerr_common_err, b)
    else (cmnerr_suc, record b { offset = sub32 b.offset n; len = add32 b.len n })

unfoldable pub get_tail_free_size : Block → ℕ
get_tail_free_size b = sub32 max_mem_size (add32 b.len b.offset)

unfoldable pub get_total_free_size : Block → ℕ
get_total_free_size b = sub32 max_mem_size b.len

abbrev pub inc_len : ℕ → Block → Block
inc_len n b = record b { len = add32 b.len n }

abbrev pub inc_offset : ℕ → Block → Block
inc_offset n b = record b { offset = add32 b.offset n }

abbrev pub dec_len : ℕ → Block → Block
dec_len n b = record b { len = sub32 b.len n }

-- The bytes are written behind the data.
abbrev pub put_tail : List ℕ → Block → Block
put_tail l b = record b {
  bytes = copy b.bytes (add32 b.offset b.len) l;
  len = add32 b.len (length l);
}

unfoldable pub append : List ℕ → Block → ℤ × Block
append l b = if ltb (get_total_free_size b) (length l) then (cmnerr_common_err, b) else (
  cmnerr_suc,
  put_tail l (if ltb (get_tail_free_size b) (length l) then move_data_ahead b else b),
)

-- `bUseInitOffset ? m_ui32InitOffset : false`
unfoldable pub reset : Bool → Block → Block
reset use_init_offset b = record b {
  offset = if use_init_offset then b.init_offset else 0;
  len = 0;
}
