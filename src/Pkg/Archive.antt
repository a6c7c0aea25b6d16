-- ===== src/Pkg/Archive.antt =====
-- class CArchive of libsmart_net/src/smart_net/archive.h: a block into which an application writes the
-- bodies of a package in place. `real_size` is what B::get_max_size() and get_real_size() return, as DECL_PKG
-- defines them, and `opcode` is B::PKG_OPCODE. m_pHdr is the index of the header in the block.
pub mod Serialized
use smart_net.Base.{
  ℕ, zero, suc, ℤ, pos, negsuc, ◌+◌, Bool, true, false, Option, none, some, List, ltb,
  if◌then◌else◌, ◌>>=◌, ◌>>◌, cmn_assert, is_some, not, add32,
}
use smart_net.Memory.Block.{
  Block, max_mem_size, new_block, copy, put_tail, inc_len, get_tail_free_size,
}
use smart_net.Memory.Block.Content.{slice}
use smart_net.Pkg.Header.{hdr_size, new_hdr, set_len, set_type}

pub record Archive : Type 0 where
  pub hdr : Option ℕ
  pub cnt : ℤ
  pub pending : Bool
  pub mem : Option Block
  pub init_offset : ℕ

-- `(-1 == i32Cnt) ? __MAX_MEM_SIZE__ : i32Cnt`
abbrev pub first_cnt : ℤ → ℤ
first_cnt (pos n) = pos n
first_cnt (negsuc zero) = pos max_mem_size
first_cnt (negsuc (suc n)) = negsuc (suc n)

abbrev pub new_archive : ℕ → ℤ → Archive
new_archive init_offset cnt = record {
  hdr = none;
  cnt = first_cnt cnt;
  pending = false;
  mem = none;
  init_offset = init_offset;
}

-- `if (0 == --m_i32Cnt) m_i32Cnt = 1`
abbrev pub count_down : ℤ → ℤ
count_down (pos zero) = negsuc 0
count_down (pos (suc zero)) = pos 1
count_down (pos (suc (suc n))) = pos (suc n)
count_down (negsuc n) = negsuc (suc n)

module _ (real_size opcode : ℕ) where
  -- The header is written once, with the length 0 and the tag 0.
  unfoldable pub get_hdr : (ver : ℕ) → Archive → Option Archive
  get_hdr ver a = elim a.hdr [
    | some p ↦ some a
    | none ↦
        let m : Block = record (new_block) {
          offset = a.init_offset;
          init_offset = a.init_offset;
        } in
        cmn_assert (not (is_some a.mem))
        >> some (record a {
          hdr = some (add32 m.offset m.len);
          mem = some (put_tail (new_hdr opcode 0 ver 0 0) m);
        })
  ]

  -- The body that was written last is counted.
  unfoldable pub body_ready : Archive → Option Archive
  body_ready a = elim a.pending [
    | false ↦ some a
    | true ↦ a.mem >>= λ m. some (record a { mem = some (inc_len real_size m); pending = false })
  ]

  -- The index at which the next body is to be written, or NULL.
  unfoldable pub get_next_body : Archive → Option (Archive × Option ℕ)
  get_next_body a = get_hdr 0 a >>= body_ready >>= λ a'. a'.mem >>= λ m.
      if ltb (get_tail_free_size m) real_size
      then some (a', none)
      else some (record a' { cnt = count_down a'.cnt; pending = true }, some (add32 m.offset m.len))

  -- The application writes a body through the pointer.
  abbrev pub write_body : List ℕ → ℕ → Archive → Option Archive
  write_body l p a =
      a.mem >>= λ m. some (record a { mem = some (record m { bytes = copy m.bytes p l }) })

  -- The header gets the length and the type NORMAL_PKG.
  unfoldable pub serialize : Archive → Option (Archive × Block)
  serialize a = body_ready a >>= λ a'. a'.hdr >>= λ p. a'.mem >>= λ m.
      let m' : Block = record m {
        bytes = copy m.bytes p (set_type 0 (set_len m.len (slice m.bytes p hdr_size)));
      } in
      some (record a' { mem = some m' }, m')
