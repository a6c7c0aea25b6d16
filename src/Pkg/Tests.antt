-- ===== src/Pkg/Tests.antt =====
-- Two bodies of four bytes each, as of CPkgTest, which are written, carried and handled.
use smart_net.Base.{ℕ, negsuc, some, List, [], ◌∷◌, ◌++◌, ◌>>=◌, ◌≡◌, refl, arith, inl}
use smart_net.Memory.Block.{Block, new_block, append}
use smart_net.Memory.Block.Content.{content}
use smart_net.Pkg.Dispatcher.{PkgFun, Funs, find_fun, dispatch}
use smart_net.Pkg.Dispatcher.Streams.{Leaves}
use smart_net.Pkg.Archive.{Archive, new_archive, get_hdr, serialize}
use smart_net.Pkg.Archive.Serialized.{fill}
use smart_net.Pkg.RoundTrip.{dispatch-serialize}

-- The connection collects what it is given.
abbrev collect : PkgFun (List ℕ)
collect = record { real_size = 4; handle_pkg = λ x tag w. w ++ x }

abbrev handlers : Funs (List ℕ)
handlers = (1, collect) ∷ []

abbrev two_bodies : List (List ℕ)
two_bodies = (1 ∷ 2 ∷ 3 ∷ 4 ∷ []) ∷ (5 ∷ 6 ∷ 7 ∷ 8 ∷ []) ∷ []

-- The header of the next package has not arrived as a whole.
abbrev begun : List ℕ
begun = 0 ∷ 0 ∷ 0 ∷ []

dispatch-serialize_example :
    (a : Archive) × (sent : Block) × ((get_hdr 4 1 0 (new_archive 20 (negsuc 0))
        >>= fill 4 1 two_bodies
        >>= serialize 4 1)
      ≡ some (a, sent))
    × Leaves
        (dispatch 2 3 0 handlers [] (append (content sent ++ begun) new_block).1)
        (1 ∷ 2 ∷ 3 ∷ 4 ∷ 5 ∷ 6 ∷ 7 ∷ 8 ∷ [])
        begun
unfolding find_fun
dispatch-serialize_example =
    dispatch-serialize 20 (negsuc 0) 2 3 1 handlers collect two_bodies [] new_block begun refl
      (omega arith) (refl, (refl, tt)) (omega arith) (omega arith) (omega arith) (omega arith)
      (omega arith) refl (inl (omega arith)) (omega arith)
