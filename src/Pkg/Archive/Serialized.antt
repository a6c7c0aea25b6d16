-- ===== src/Pkg/Archive/Serialized.antt =====
-- What an archive holds after its bodies have been written.
use mathlib.Core.Path.{subst}
use smart_net.Base.{
  ℕ, ℤ, ◌+◌, ◌≤◌, true, false, Option, some, List, [], ◌∷◌, ◌++◌, length, length-append,
  append_assoc, append_nil, All, ltb, ◌>>=◌, add32, add32_exact, ◌≡◌, refl, ap, sym, ◌∙◌, arith,
}
use smart_net.Memory.Block.{
  Block, max_mem_size, copy, inc_len, put_tail, get_tail_free_size, new_block,
}
use smart_net.Memory.Block.Content.{
  content, Fits, slice, slice-head, put_tail_lem, tail_exact, over_head_lem, length-content,
}
use smart_net.Pkg.Header.{hdr_size, new_hdr, set_len, set_type}
use smart_net.Pkg.Dispatcher.Streams.{joined}
use smart_net.Pkg.Archive.{
  Archive, new_archive, get_hdr, body_ready, get_next_body, write_body, serialize, count_down,
}

module _ (real_size opcode : ℕ) where
  -- An archive whose header stands at `o`, and which holds the bytes, the last body included.
  pub record Filled (o : ℕ) (bytes : List ℕ) (a : Archive) : Type 0 where
    block : Block
    ready : body_ready real_size opcode a ≡ some (record a { mem = some block; pending = false })
    holds : content block ≡ bytes
    within : Fits block
    place : block.offset ≡ o
    hdr_at : a.hdr ≡ some o

  -- The application asks for the next body and writes it.
  abbrev pub add_body : List ℕ → Archive → Option Archive
  add_body x a =
      get_next_body real_size opcode a >>= λ s. s.1 >>= λ p. write_body real_size opcode x p (s.0)

  abbrev pub fill : List (List ℕ) → Archive → Option Archive
  fill [] a = some a
  fill (x ∷ l) a = add_body x a >>= fill l

  hdr_again : (o : ℕ) (a : Archive) → a.hdr ≡ some o → get_hdr real_size opcode 0 a ≡ some a
  unfolding get_hdr
  hdr_again o a e = rw (e, get_hdr) (ap (λ p. some (record a { hdr = p })) e)

  add_body_lem :
      (o : ℕ) (bytes x : List ℕ) (a : Archive)
      → Filled o bytes a
      → length x ≡ real_size
      → o + (length bytes + real_size) ≤ max_mem_size
      → (a' : Archive) × (add_body x a ≡ some a') × Filled o (bytes ++ x) a'
  unfolding get_next_body body_ready
  add_body_lem o bytes x a h sized room =
      let m : Block = h.block in
      let len : m.len ≡ length bytes = sym (length-content m) ∙ ap length h.holds in
      let fits : m.offset + (m.len + length x) ≤ max_mem_size =
        omega (arith, len, sized, room, h.place) in
      let free : ltb (get_tail_free_size m) real_size ≡ false =
        ground (arith, tail_exact m h.within, len, room, h.place) in
      let m' : Block = record m { bytes = copy m.bytes (add32 m.offset m.len) x } in
      let a' : Archive = record a { mem = some m'; pending = true; cnt = count_down a.cnt } in
      let (c, _, _) = put_tail_lem x m fits in
      (
        a',
        rw (hdr_again o a h.hdr_at, h.ready, free) refl,
        record {
          block = inc_len real_size m';
          ready = refl;
          holds =
              ap (λ k. content (record m' { len = add32 m.len k })) (sym sized)
              ∙ c
              ∙ ap (λ l. l ++ x) h.holds;
          within =
              rw (add32_exact m.len real_size (omega (arith, fits, sized)))
                (omega (arith, fits, sized));
          place = h.place;
          hdr_at = h.hdr_at;
        },
      )

  pub fill_lem :
      (o : ℕ) (bytes : List ℕ) (l : List (List ℕ)) (a : Archive)
      → Filled o bytes a
      → All (λ x. length x ≡ real_size) l
      → o + (length bytes + length (joined l)) ≤ max_mem_size
      → (a' : Archive) × (fill l a ≡ some a') × Filled o (bytes ++ joined l) a'
  fill_lem o bytes [] a h sizes room =
      (a, refl, subst (λ k. Filled o k a) (sym (append_nil bytes)) h)
  fill_lem o bytes (x ∷ l) a h sizes room =
      let more : length (joined (x ∷ l)) ≡ length x + length (joined l) =
        length-append x (joined l) in
      let longer : length (bytes ++ x) ≡ length bytes + length x = length-append bytes x in
      let (a1, one, h1) =
        add_body_lem o bytes x a h (sizes.0) (omega (arith, more, sizes.0, room)) in
      let (a2, rest, h2) =
        fill_lem o (bytes ++ x) l a1 h1 (sizes.1) (omega (arith, more, longer, room)) in
      (a2, rw one rest, subst (λ k. Filled o k a2) (append_assoc bytes x (joined l)) h2)

  -- The header of an empty package.
  abbrev pub blank : List ℕ
  blank = new_hdr opcode 0 0 0 0

  pub get_hdr_lem :
      (o : ℕ) (cnt : ℤ)
      → o + hdr_size ≤ max_mem_size
      → (a : Archive) × (get_hdr real_size opcode 0 (new_archive o cnt) ≡ some a) × Filled o blank a
  unfolding get_hdr body_ready new_hdr content slice
  get_hdr_lem o cnt room =
      let m : Block = record (new_block) { offset = o; init_offset = o } in
      let (c, fits, _) = put_tail_lem blank m room in
      let at : add32 o 0 ≡ o = add32_exact o 0 (omega (arith, room)) ∙ omega arith in
      (
        record (new_archive o cnt) { hdr = some (add32 o 0); mem = some (put_tail blank m) },
        refl,
        record {
          block = put_tail blank m;
          ready = refl;
          holds = c;
          within = fits;
          place = refl;
          hdr_at = ap (λ p. some p) at;
        },
      )

  relabelled : (n : ℕ) → set_type 0 (set_len n blank) ≡ new_hdr opcode n 0 0 0
  unfolding set_type set_len new_hdr
  relabelled n = refl

  pub length-new_hdr :
      (opcode len ver type tag : ℕ) → length (new_hdr opcode len ver type tag) ≡ hdr_size
  unfolding new_hdr
  length-new_hdr opcode len ver type tag = refl

  pub serialize_lem :
      (o : ℕ) (body : List ℕ) (a : Archive)
      → Filled o (blank ++ body) a
      → (a' : Archive) × (b : Block) × (serialize real_size opcode a ≡ some (a', b))
        × (content b ≡ new_hdr opcode (hdr_size + length body) 0 0 0 ++ body)
        × Fits b
  unfolding serialize
  serialize_lem o body a h =
      let m : Block = h.block in
      let len : m.len ≡ hdr_size + length body =
        sym (length-content m)
        ∙ ap length h.holds
        ∙ length-append blank body
        ∙ ap (λ k. k + length body) (length-new_hdr opcode 0 0 0 0) in
      let over : ℕ → List ℕ = λ p. set_type 0 (set_len m.len (slice m.bytes p hdr_size)) in
      let label : over m.offset ≡ new_hdr opcode (hdr_size + length body) 0 0 0 =
        ap (λ x. set_type 0 (set_len m.len x))
          (slice-head hdr_size m blank body (length-new_hdr opcode 0 0 0 0) h.holds)
        ∙ relabelled m.len
        ∙ ap (λ k. new_hdr opcode k 0 0 0) len in
      let written : ℕ → Block = λ p. record m { bytes = copy m.bytes p (over p) } in
      (
        record a { pending = false; mem = some (written o) },
        written o,
        rw (h.ready, h.hdr_at) refl,
        ap (λ p. content (record m { bytes = copy m.bytes p (over p) })) (sym h.place)
            ∙ ap (λ x. content (record m { bytes = copy m.bytes m.offset x })) label
            ∙ over_head_lem m blank (new_hdr opcode (hdr_size + length body) 0 0 0) body
                (length-new_hdr opcode (hdr_size + length body) 0 0 0
                  ∙ sym (length-new_hdr opcode 0 0 0 0))
                h.holds,
        h.within,
      )
