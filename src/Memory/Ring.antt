-- ===== src/Memory/Ring.antt =====
-- class CSmartRB of libcomm_utils/src/memory/smart_rb.h: a ring of m_ui32BlockCnt blocks of
-- m_ui32BlockSz bytes, between one writer and one reader, whose numbers are u_int64_t and start at 1.
-- m_bytes is a function of the index; a pointer into it is that index.
pub mod Laws
mod Tests
use smart_net.Base.{
  ℕ, zero, suc, ◌+◌, ◌*◌, ◌%◌, Bool, true, false, not, ◌&&◌, ◌||◌, Option, none, some, List, [],
  ◌∷◌, length, ltb, leb, ◌==◌, if◌then◌else◌, ◌>>=◌, ◌>>◌, cmn_assert, inc64, sub64,
}
use smart_net.Memory.Block.{copy}

pub record Ring : Type 0 where
  pub bytes : ℕ → ℕ
  pub data_head : ℕ
  pub free_head : ℕ
  pub block_cnt : ℕ
  pub block_sz : ℕ

-- The constructor and reset; malloc does not fail.
abbrev pub reset_ring : Ring → Ring
reset_ring r = record r { bytes = λ j. 0; data_head = 1; free_head = 1 }

abbrev pub new_ring : ℕ → ℕ → Ring
new_ring cnt sz =
    reset_ring
      (record { bytes = λ j. 0; data_head = 1; free_head = 1; block_cnt = cnt; block_sz = sz })

abbrev pub empty : Ring → Bool
empty r = r.data_head == r.free_head

unfoldable pub full : Ring → Bool
full r = sub64 r.free_head r.data_head == r.block_cnt

unfoldable pub set_data_head_idx : ℕ → Ring → Option Ring
set_data_head_idx i r = do
  cmn_assert (ltb r.data_head i && ltb i r.free_head)
  some (record r { data_head = i })

unfoldable pub set_free_head_idx : ℕ → Ring → Option Ring
set_free_head_idx i r = do
  cmn_assert (ltb r.free_head i && leb (sub64 i r.data_head) r.block_cnt)
  some (record r { free_head = i })

-- Where the block of a number begins; % by zero is a trap in the source.
abbrev pub block_at : ℕ → Ring → ℕ
block_at i r = i % r.block_cnt * r.block_sz

unfoldable pub get_free_head : Ring → Option ℕ
get_free_head r = if full r then none else some (block_at r.free_head r)

-- Zero is returned when the ring is full.
unfoldable pub set_data : List ℕ → Ring → Option (ℕ × Ring)
set_data l r = do
  cmn_assert (leb (length l) r.block_sz)
  (if full r
      then some (0, r)
      else some (
        r.free_head,
        record r { bytes = copy r.bytes (block_at r.free_head r) l; free_head = inc64 r.free_head },
      ))

unfoldable pub get_data : ℕ → Ring → Option ℕ
get_data i r = do
  cmn_assert (not (empty r || (leb r.free_head i || ltb i r.data_head)))
  some (block_at i r)
