-- ===== src/Pkg/RoundTrip.antt =====
-- What CDispatcher makes of a package that CArchive has written and the network has carried.
use smart_net.Base.{
  ℕ, ℤ, ◌+◌, ◌^◌, ◌≤◌, ◌<◌, some, List, [], ◌∷◌, ◌++◌, length, length-append, append_nil, All,
  ◌>>=◌, ◌≡◌, refl, ap, sym, ◌∙◌, arith, inl, inr,
}
use smart_net.Memory.Block.{Block, max_mem_size, append}
use smart_net.Memory.Block.Content.{content, Fits, append_lem, length-content}
use smart_net.Pkg.Header.{hdr_size, new_hdr, new_hdr_lem, get_opcode}
use smart_net.Pkg.Dispatcher.{PkgFun, Funs, find_fun, dispatch}
use smart_net.Pkg.Dispatcher.Streams.{
  joined, handle_bodies, handle_package, known_handled, Good, Known, Leaves, Waits, dispatch_lem,
}
use smart_net.Pkg.Archive.{Archive, new_archive, get_hdr, serialize}
use smart_net.Pkg.Archive.Serialized.{
  fill, fill_lem, get_hdr_lem, serialize_lem, blank, length-new_hdr,
}

-- An empty block that receives bytes holds them.
received :
    (l : List ℕ) (b : Block)
    → Fits b
    → b.len ≡ 0
    → length l ≤ max_mem_size
    → (content (append l b).1 ≡ l) × Fits (append l b).1
received l b fits empty room = elim (append_lem l b fits) [
  | inl (_, _, c, fits') ↦
      (c ∙ ap (λ x. x ++ l) (no_bytes (content b) (length-content b ∙ empty)), fits')
  | inr (full, _) ↦ absurd (omega (arith, full, empty, room))
]
  where
    no_bytes : (k : List ℕ) → length k ≡ 0 → k ≡ []
    no_bytes [] e = refl
    no_bytes (x ∷ k) e = absurd (omega (arith, e))

module _ {W : Type 0} where
  sizes-Known :
      (loops : ℕ) (funs : Funs W) (opcode : ℕ) (f : PkgFun W) (l : List (List ℕ))
      → find_fun opcode funs ≡ some f
      → 0 < f.real_size
      → All (λ x. length x ≡ f.real_size) l
      → length l < loops
      → Known loops funs opcode l
  sizes-Known loops funs opcode f [] found pos sizes few = tt
  sizes-Known loops funs opcode f (x ∷ l) found pos sizes few = (f, found, pos, sizes, few)

  serialized-Good :
      (loops : ℕ) (funs : Funs W) (opcode : ℕ) (f : PkgFun W) (l : List (List ℕ))
      → find_fun opcode funs ≡ some f
      → 0 < f.real_size
      → All (λ x. length x ≡ f.real_size) l
      → length l < loops
      → opcode < 2 ^ 16
      → hdr_size + length (joined l) < 2 ^ 32
      → Good loops 0 funs
          (record { hdr = new_hdr opcode (hdr_size + length (joined l)) 0 0 0; bodies = l })
  serialized-Good loops funs opcode f l found pos sizes few op small =
      let n : ℕ = hdr_size + length (joined l) in
      let (code, len, ver, _, _) = new_hdr_lem opcode n 0 0 0 op small (omega arith) in
      record {
        sized = length-new_hdr f.real_size opcode opcode n 0 0 0;
        same_ver = ver;
        counted = len;
        known =
            sizes-Known loops funs (get_opcode (new_hdr opcode n 0 0 0)) f l
              (ap (λ k. find_fun k funs) code ∙ found) pos sizes few;
      }

  serialized_handled :
      (funs : Funs W) (opcode n : ℕ) (f : PkgFun W) (l : List (List ℕ)) (w : W)
      → find_fun opcode funs ≡ some f
      → opcode < 2 ^ 16
      → n < 2 ^ 32
      → handle_package funs (new_hdr opcode n 0 0 0) l w ≡ handle_bodies f 0 l w
  serialized_handled funs opcode n f l w found op small =
      let (code, _, _, _, tag) = new_hdr_lem opcode n 0 0 0 op small (omega arith) in
      known_handled funs (new_hdr opcode n 0 0 0) l f w (ap (λ k. find_fun k funs) code ∙ found)
      ∙ ap (λ t. handle_bodies f t l w) tag

  -- The bodies that an application writes into a new archive, all of the size that is registered
  -- for its opcode, which is not 0, and together with the header in one block, are serialized, the
  -- opcode being below 2 ^ 16; an empty block that receives these bytes, with at most the beginning
  -- of another package behind them and room for both, is dispatched: every body is handled once, in
  -- order, with the tag 0, and what is behind them is left in the block, with fuel for more than
  -- one package and more than the bodies.
  pub dispatch-serialize :
      (o : ℕ) (cnt : ℤ) (fuel loops opcode : ℕ) (funs : Funs W) (f : PkgFun W) (l : List (List ℕ))
      (w : W) (b : Block) (r : List ℕ)
      → find_fun opcode funs ≡ some f
      → 0 < f.real_size
      → All (λ x. length x ≡ f.real_size) l
      → length l < loops
      → 1 < fuel
      → opcode < 2 ^ 16
      → o + (hdr_size + length (joined l)) ≤ max_mem_size
      → Fits b
      → b.len ≡ 0
      → Waits 0 r
      → hdr_size + length (joined l) + length r ≤ max_mem_size
      → (a : Archive) × (sent : Block) × ((get_hdr f.real_size opcode 0 (new_archive o cnt)
            >>= fill f.real_size opcode l
            >>= serialize f.real_size opcode)
          ≡ some (a, sent))
        × Leaves
            (dispatch fuel loops 0 funs w (append (content sent ++ r) b).1)
            (handle_bodies f 0 l w)
            r
  dispatch-serialize o cnt fuel loops opcode funs f l w b r found pos sizes few more op room fits
        empty waits both =
      let n : ℕ = hdr_size + length (joined l) in
      let (a0, e0, h0) = get_hdr_lem f.real_size opcode o cnt (omega (arith, room)) in
      let hd : length (blank f.real_size opcode) ≡ hdr_size =
        length-new_hdr f.real_size opcode opcode 0 0 0 0 in
      let (a1, e1, h1) =
        fill_lem f.real_size opcode o (blank f.real_size opcode) l a0 h0 sizes
          (omega (arith, hd, room)) in
      let (a2, sent, e2, c2, fits2) = serialize_lem f.real_size opcode o (joined l) a1 h1 in
      let small : n < 2 ^ 32 = omega (arith, room) in
      let long : length (content sent ++ r) ≡ n + length r =
        length-append (content sent) r
        ∙ ap (λ k. k + length r)
            (ap length c2
              ∙ length-append (new_hdr opcode n 0 0 0) (joined l)
              ∙ ap (λ k. k + length (joined l))
                  (length-new_hdr f.real_size opcode opcode n 0 0 0)) in
      let (c, fits') = received (content sent ++ r) b fits empty (omega (arith, long, both)) in
      let (b', ran, left, fits3) =
        dispatch_lem fuel loops 0 funs w (append (content sent ++ r) b).1
          (record { hdr = new_hdr opcode n 0 0 0; bodies = l } ∷ []) r
          (serialized-Good loops funs opcode f l found pos sizes few op small, tt)
          (c ∙ ap (λ x. x ++ r) (c2 ∙ sym (append_nil _))) fits' waits (omega (arith, more)) in
      (
        a2,
        sent,
        rw (e0, e1) e2,
        (
          b',
          ran ∙ ap (λ x. some (x, b')) (serialized_handled funs opcode n f l w found op small),
          left,
          fits3,
        ),
      )
