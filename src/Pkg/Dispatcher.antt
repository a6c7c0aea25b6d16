-- ===== src/Pkg/Dispatcher.antt =====
-- class CDispatcher of libsmart_net/src/smart_net/dispatcher.h: the table of handlers, and the loop that
-- takes the packages off a block of received bytes. `W` is the state of the connection.
pub mod Streams
use smart_net.Base.{
  ℕ, zero, suc, Bool, true, false, not, ◌&&◌, Option, none, some, List, [], ◌∷◌, ◌++◌, ltb, ◌==◌,
  if◌then◌else◌, ◌>>=◌, ◌>>◌, cmn_assert, sub32,
}
use smart_net.Memory.Block.{Block, dec_head_data, move_data_ahead}
use smart_net.Memory.Block.Content.{slice}
use smart_net.Pkg.Header.{hdr_size, get_len, get_opcode, get_tag, get_ver}

-- dispatch_fun<PKG>: the size that PKG::get_real_size() returns for every package, as DECL_PKG defines it,
-- and the connection's handle_pkg on the bytes of a package and its tag.
pub record PkgFun (W : Type 0) : Type 0 where
  pub real_size : ℕ
  pub handle_pkg : List ℕ → ℕ → W → W

abbrev pub Funs : Type 0 → Type 0
Funs W = List (ℕ × PkgFun W)

module _ {W : Type 0} where
  unfoldable pub find_fun : ℕ → Funs W → Option (PkgFun W)
  find_fun k [] = none
  find_fun k (f ∷ funs) = if k == f.0 then some (f.1) else find_fun k funs

  -- An opcode is registered once.
  unfoldable pub reg_fun : ℕ → PkgFun W → Funs W → Option (Funs W)
  reg_fun k f funs = elim (find_fun k funs) [ none ↦ some (funs ++ ((k, f) ∷ [])) | some g ↦ none ]

  -- The loop of dispatch_fun over the bodies of a package; a body is taken off the block before it is handled.
  unfoldable pub dispatch_fun :
      (fuel : ℕ) → PkgFun W → (size tag : ℕ) → W → Block → Option (W × Block)
  dispatch_fun zero f size tag w b = none
  dispatch_fun (suc fuel) f size tag w b = elim (ltb 0 size) [
    | false ↦ some (w, b)
    | true ↦
        dispatch_fun fuel f (sub32 size f.real_size) tag
          (f.handle_pkg (slice b.bytes b.offset f.real_size) tag w) (dec_head_data f.real_size b)
  ]

  -- dispatch<H>: the loop over packages; a package that is not complete moves to the block's beginning, and
  -- a header of the wrong version or size, or of an unknown opcode, fails an assertion before the
  -- connection is closed. `loops` bounds the bodies of a package.
  unfoldable pub dispatch : (fuel loops : ℕ) → (ver : ℕ) → Funs W → W → Block → Option (W × Block)
  dispatch zero loops ver funs w b = none
  dispatch (suc fuel) loops ver funs w b =
      let h = slice b.bytes b.offset hdr_size in
      elim (ltb b.len hdr_size) [
        | true ↦ some (w, b)
        | false ↦
            cmn_assert ((get_ver h == ver) && not (ltb (get_len h) hdr_size))
            >> (elim (get_len h == hdr_size) [
              | true ↦ dispatch fuel loops ver funs w (dec_head_data hdr_size b)
              | false ↦ elim (ltb b.len (get_len h)) [
                | true ↦ some (w, move_data_ahead b)
                | false ↦ find_fun (get_opcode h) funs >>= λ f.
                    dispatch_fun loops f (sub32 (get_len h) hdr_size) (get_tag h) w
                      (dec_head_data hdr_size b)
                    >>= λ s. dispatch fuel loops ver funs (s.0) (s.1)
              ]
            ])
      ]
