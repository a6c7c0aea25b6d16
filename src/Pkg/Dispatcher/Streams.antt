-- ===== src/Pkg/Dispatcher/Streams.antt =====
-- What CDispatcher does with a block that holds whole packages and perhaps the beginning of another one.
use smart_net.Base.{
  ℕ, zero, suc, ◌+◌, ◌^◌, ◌≤◌, ◌<◌, true, false, Option, none, some, List, [], ◌∷◌, ◌++◌, length,
  length-append, append_assoc, All, ltb, ◌==◌, sub32, sub32_exact, ◌≡◌, refl, ap, ◌∙◌, arith, ◌⊎◌,
  inl, inr, Option-cases,
}
use smart_net.Memory.Block.{Block, dec_head_data, move_data_ahead}
use smart_net.Memory.Block.Content.{
  content, Fits, slice, slice-head, dec_head_data-head, move_data_ahead_lem, length-content,
  length-head,
}
use smart_net.Pkg.Header.{hdr_size, get_len, get_opcode, get_tag, get_ver}
use smart_net.Pkg.Dispatcher.{PkgFun, Funs, find_fun, dispatch_fun, dispatch}

-- A header and the bodies behind it, one after the other.
pub record Package : Type 0 where
  pub hdr : List ℕ
  pub bodies : List (List ℕ)

abbrev pub joined : List (List ℕ) → List ℕ
joined [] = []
joined (x ∷ l) = x ++ joined l

abbrev pub raw : Package → List ℕ
raw p = p.hdr ++ joined p.bodies

abbrev pub stream : List Package → List ℕ
stream [] = []
stream (p ∷ l) = raw p ++ stream l

-- The bytes of a package that has not arrived as a whole.
abbrev pub Waits : (ver : ℕ) → List ℕ → Type 0
Waits ver r =
    (length r < hdr_size)
    ⊎ ((h : List ℕ) × (t : List ℕ) × (r ≡ h ++ t)
        × (length h ≡ hdr_size)
        × (get_ver h ≡ ver)
        × (hdr_size ≤ get_len h)
        × (hdr_size + length t < get_len h))

module _ {W : Type 0} where
  abbrev pub handle_bodies : PkgFun W → (tag : ℕ) → List (List ℕ) → W → W
  handle_bodies f tag [] w = w
  handle_bodies f tag (x ∷ l) w = handle_bodies f tag l (f.handle_pkg x tag w)

  -- The bodies are of the registered size.
  abbrev pub Known : (loops : ℕ) → Funs W → (opcode : ℕ) → List (List ℕ) → Type 0
  Known loops funs opcode [] = Unit
  Known loops funs opcode (x ∷ l) =
      (f : PkgFun W) × (find_fun opcode funs ≡ some f)
      × (0 < f.real_size)
      × All (λ y. length y ≡ f.real_size) (x ∷ l)
      × (suc (length l) < loops)

  pub record Good (loops ver : ℕ) (funs : Funs W) (p : Package) : Type 0 where
    pub sized : length p.hdr ≡ hdr_size
    pub same_ver : get_ver p.hdr ≡ ver
    pub counted : get_len p.hdr ≡ hdr_size + length (joined p.bodies)
    pub known : Known loops funs (get_opcode p.hdr) p.bodies

  abbrev pub handle_package : Funs W → (h : List ℕ) → List (List ℕ) → W → W
  handle_package funs h l w = elim (find_fun (get_opcode h) funs) [
    | none ↦ w
    | some f ↦ handle_bodies f (get_tag h) l w
  ]

  -- The bodies of the packages are handled in their order, each with its package's tag.
  abbrev pub handle_packages : Funs W → List Package → W → W
  handle_packages funs [] w = w
  handle_packages funs (p ∷ l) w = handle_packages funs l (handle_package funs p.hdr p.bodies w)

  -- What remains of a block.
  abbrev pub Leaves : Option (W × Block) → W → List ℕ → Type 0
  Leaves o w r = (b' : Block) × (o ≡ some (w, b')) × (content b' ≡ r) × Fits b'

  dispatch_fun_lem :
      (fuel : ℕ) (f : PkgFun W) (tag : ℕ) (w : W) (b : Block) (l : List (List ℕ)) (r : List ℕ)
      → 0 < f.real_size
      → All (λ y. length y ≡ f.real_size) l
      → content b ≡ joined l ++ r
      → Fits b
      → length l < fuel
      → length (joined l) < 2 ^ 32
      → Leaves (dispatch_fun fuel f (length (joined l)) tag w b) (handle_bodies f tag l w) r
  unfolding dispatch_fun
  dispatch_fun_lem zero f tag w b l r pos sizes c fits enough small = absurd (omega (arith, enough))
  dispatch_fun_lem (suc fuel) f tag w b [] r pos sizes c fits enough small = (b, refl, c, fits)
  dispatch_fun_lem (suc fuel) f tag w b (x ∷ l) r pos sizes c fits enough small =
      let all : length (x ++ joined l) ≡ f.real_size + length (joined l) =
        length-append x (joined l) ∙ ap (λ k. k + length (joined l)) (sizes.0) in
      let here : content b ≡ x ++ (joined l ++ r) = c ∙ append_assoc x (joined l) r in
      let (c', fits') = dec_head_data-head f.real_size b x (joined l ++ r) (sizes.0) fits here in
      let more : ltb 0 (length (x ++ joined l)) ≡ true = ground (arith, all, pos) in
      let left : sub32 (length (x ++ joined l)) f.real_size ≡ length (joined l) =
        sub32_exact (length (x ++ joined l)) f.real_size (omega (arith, all)) (omega (arith, small))
        ∙ omega (arith, all) in
      rw (more, dispatch_fun, left, slice-head f.real_size b x (joined l ++ r) (sizes.0) here)
        (dispatch_fun_lem fuel f tag (f.handle_pkg x tag w) (dec_head_data f.real_size b) l r pos
          (sizes.1) c' fits' (omega (arith, enough)) (omega (arith, all, small)))

  rest_lem :
      (fuel loops ver : ℕ) (funs : Funs W) (w : W) (b : Block) (r : List ℕ)
      → content b ≡ r
      → Fits b
      → Waits ver r
      → Leaves (dispatch (suc fuel) loops ver funs w b) w r
  unfolding dispatch
  rest_lem fuel loops ver funs w b r c fits (inl short) =
      let none_left : ltb b.len hdr_size ≡ true = ground (arith, length-content b, ap length c) in
      rw (none_left, dispatch) (b, refl, c, fits)
  rest_lem fuel loops ver funs w b r c fits (inr (h, t, split, sized, same, counted, waits)) =
      let len : b.len ≡ hdr_size + length t = length-head hdr_size b h t sized (c ∙ split) in
      let long : ltb b.len hdr_size ≡ false = ground (arith, len) in
      let hd : slice b.bytes b.offset hdr_size ≡ h = slice-head hdr_size b h t sized (c ∙ split) in
      let v : (get_ver (slice b.bytes b.offset hdr_size) == ver) ≡ true =
        ap (λ x. get_ver x == ver) hd ∙ ground (arith, same) in
      let big : ltb (get_len (slice b.bytes b.offset hdr_size)) hdr_size ≡ false =
        ap (λ x. ltb (get_len x) hdr_size) hd ∙ ground (arith, counted) in
      let more : (get_len (slice b.bytes b.offset hdr_size) == hdr_size) ≡ false =
        ap (λ x. get_len x == hdr_size) hd ∙ ground (arith, waits) in
      let part : ltb b.len (get_len (slice b.bytes b.offset hdr_size)) ≡ true =
        ap (λ x. ltb b.len (get_len x)) hd ∙ ground (arith, waits, len) in
      let (kept, same_len, at_start) = move_data_ahead_lem b in
      rw (long, dispatch, v, big, more, part)
        (move_data_ahead b, refl, kept ∙ c, rw (at_start, same_len) (omega (arith, fits)))

  nothing_handled : (funs : Funs W) (h : List ℕ) (w : W) → handle_package funs h [] w ≡ w
  nothing_handled funs h w = elim (Option-cases (find_fun (get_opcode h) funs)) [
    | inl unknown ↦ rw (unknown, handle_package) refl
    | inr (f, found) ↦ rw (found, handle_package) refl
  ]

  pub known_handled :
      (funs : Funs W) (h : List ℕ) (l : List (List ℕ)) (f : PkgFun W) (w : W)
      → find_fun (get_opcode h) funs ≡ some f
      → handle_package funs h l w ≡ handle_bodies f (get_tag h) l w
  known_handled funs h l f w found = rw (found, handle_package) refl

  -- The loop goes on behind a package that has been handled.
  abbrev GoesOn : (fuel loops ver : ℕ) → Funs W → Option (W × Block) → W → List ℕ → Type 0
  GoesOn fuel loops ver funs o w r =
      (b' : Block) × (o ≡ dispatch fuel loops ver funs w b') × (content b' ≡ r) × Fits b'

  package_lem :
      (fuel loops ver : ℕ) (funs : Funs W) (w : W) (b : Block) (h : List ℕ) (l : List (List ℕ))
      (r : List ℕ)
      → length h ≡ hdr_size
      → get_ver h ≡ ver
      → get_len h ≡ hdr_size + length (joined l)
      → Known loops funs (get_opcode h) l
      → content b ≡ h ++ (joined l ++ r)
      → Fits b
      → GoesOn fuel loops ver funs
          (dispatch (suc fuel) loops ver funs w b)
          (handle_package funs h l w)
          r
  unfolding dispatch
  package_lem fuel loops ver funs w b h [] r sized same counted known c fits =
      let len : b.len ≡ hdr_size + length r = length-head hdr_size b h r sized c in
      let long : ltb b.len hdr_size ≡ false = ground (arith, len) in
      let hd : slice b.bytes b.offset hdr_size ≡ h = slice-head hdr_size b h r sized c in
      let v : (get_ver (slice b.bytes b.offset hdr_size) == ver) ≡ true =
        ap (λ x. get_ver x == ver) hd ∙ ground (arith, same) in
      let big : ltb (get_len (slice b.bytes b.offset hdr_size)) hdr_size ≡ false =
        ap (λ x. ltb (get_len x) hdr_size) hd ∙ ground (arith, counted) in
      let only : (get_len (slice b.bytes b.offset hdr_size) == hdr_size) ≡ true =
        ap (λ x. get_len x == hdr_size) hd ∙ ground (arith, counted) in
      let (c', fits') = dec_head_data-head hdr_size b h r sized fits c in
      rw (long, dispatch, v, big, only, nothing_handled funs h w)
        (dec_head_data hdr_size b, refl, c', fits')
  package_lem fuel loops ver funs w b h (x ∷ l) r sized same counted (f, found, pos, sizes, few) c
        fits =
      let body : List ℕ = joined (x ∷ l) in
      let all : length body ≡ length x + length (joined l) = length-append x (joined l) in
      let len : b.len ≡ hdr_size + length (body ++ r) =
        length-head hdr_size b h (body ++ r) sized c in
      let both : length (body ++ r) ≡ length body + length r = length-append body r in
      let long : ltb b.len hdr_size ≡ false = ground (arith, len) in
      let hd : slice b.bytes b.offset hdr_size ≡ h = slice-head hdr_size b h (body ++ r) sized c in
      let v : (get_ver (slice b.bytes b.offset hdr_size) == ver) ≡ true =
        ap (λ y. get_ver y == ver) hd ∙ ground (arith, same) in
      let big : ltb (get_len (slice b.bytes b.offset hdr_size)) hdr_size ≡ false =
        ap (λ y. ltb (get_len y) hdr_size) hd ∙ ground (arith, counted) in
      let some_body : 0 < length body = omega (arith, all, sizes.0, pos) in
      let more : (get_len (slice b.bytes b.offset hdr_size) == hdr_size) ≡ false =
        ap (λ y. get_len y == hdr_size) hd ∙ ground (arith, counted, some_body) in
      let whole : ltb b.len (get_len (slice b.bytes b.offset hdr_size)) ≡ false =
        ap (λ y. ltb b.len (get_len y)) hd ∙ ground (arith, counted, len, both) in
      let here : find_fun (get_opcode (slice b.bytes b.offset hdr_size)) funs ≡ some f =
        ap (λ y. find_fun (get_opcode y) funs) hd ∙ found in
      let tag : get_tag (slice b.bytes b.offset hdr_size) ≡ get_tag h = ap get_tag hd in
      let small : length body < 2 ^ 32 = omega (arith, len, both, fits) in
      let size : sub32 (get_len (slice b.bytes b.offset hdr_size)) hdr_size ≡ length body =
        ap (λ y. sub32 (get_len y) hdr_size) hd
        ∙ sub32_exact (get_len h) hdr_size (omega (arith, counted))
            (omega (arith, counted, len, both, fits))
        ∙ omega (arith, counted) in
      let (c', fits') = dec_head_data-head hdr_size b h (body ++ r) sized fits c in
      let (b', ran, c2, fits2) =
        dispatch_fun_lem loops f (get_tag h) w (dec_head_data hdr_size b) (x ∷ l) r pos sizes c'
          fits' few small in
      rw
        (
          known_handled funs h (x ∷ l) f w found,
          long,
          dispatch,
          v,
          big,
          more,
          whole,
          here,
          size,
          tag,
          ran,
        )
        (b', refl, c2, fits2)

  -- The bodies of all packages that a block holds are handled in order, each with its package's tag, and the
  -- block is left with the bytes behind them, when those are less than a package, all versions and sizes
  -- are right, every package with bodies has a handler whose size is theirs, and the fuel is more than the
  -- packages and than the bodies of each.
  pub dispatch_lem :
      (fuel loops ver : ℕ) (funs : Funs W) (w : W) (b : Block) (l : List Package) (r : List ℕ)
      → All (Good loops ver funs) l
      → content b ≡ stream l ++ r
      → Fits b
      → Waits ver r
      → length l < fuel
      → Leaves (dispatch fuel loops ver funs w b) (handle_packages funs l w) r
  dispatch_lem zero loops ver funs w b l r good c fits waits enough = absurd (omega (arith, enough))
  dispatch_lem (suc fuel) loops ver funs w b [] r good c fits waits enough =
      rest_lem fuel loops ver funs w b r c fits waits
  dispatch_lem (suc fuel) loops ver funs w b (p ∷ l) r (g, good) c fits waits enough =
      let here =
        c
        ∙ append_assoc (raw p) (stream l) r
        ∙ append_assoc p.hdr (joined p.bodies) (stream l ++ r) in
      let (b1, on, c1, fits1) =
        package_lem fuel loops ver funs w b p.hdr p.bodies (stream l ++ r) g.sized g.same_ver
          g.counted g.known here fits in
      let (b2, ran, c2, fits2) =
        dispatch_lem fuel loops ver funs (handle_package funs p.hdr p.bodies w) b1 l r good c1 fits1
          waits (omega (arith, enough)) in
      (b2, on ∙ ran, c2, fits2)
