-- ===== src/Memory/Ring/Laws.antt =====
-- CSmartRB as a bounded queue of blocks.
use smart_net.Base.{
  ℕ, ◌+◌, ◌-◌, ◌*◌, ◌%◌, ◌^◌, ◌≤◌, ◌<◌, ◌≢◌, true, false, Option, some, List, [], ◌∷◌, length, ltb,
  leb, ◌==◌, ◌>>=◌, inc64, sub64, inc64_exact, sub64_exact, mod-ne, ◌≡◌, refl, ap, sym, ◌∙◌, arith,
  inl, inr, ◌⊎◌, Bool-cases, >>=-eq-some, ltb→lt, ltb→ge,
}
use smart_net.Memory.Block.{copy}
use smart_net.Memory.Block.Content.{slice, slice-ext, slice-copy, copy-outside}
use smart_net.Memory.Ring.{
  Ring, empty, full, set_data_head_idx, set_free_head_idx, block_at, set_data, get_data,
}

-- The blocks from data_head on, as many as there are at most, hold data.
pub record IsValid (r : Ring) : Type 0 where
  pub some_blocks : 0 < r.block_cnt
  pub ordered : r.data_head ≤ r.free_head
  pub within : r.free_head ≤ r.data_head + r.block_cnt
  pub fits : r.free_head + 1 < 2 ^ 64

-- The first `n` bytes of the block with the number `i`.
abbrev pub block_data : Ring → (i n : ℕ) → List ℕ
block_data r i n = slice r.bytes (block_at i r) n

full_exact : (r : Ring) → IsValid r → full r ≡ (r.free_head - r.data_head == r.block_cnt)
unfolding full
full_exact r v =
    ap (λ k. k == r.block_cnt)
      (sub64_exact r.free_head r.data_head v.ordered (omega (arith, v.fits)))

block_after : (a d sz j k : ℕ) → j < sz → a * sz + j ≢ (a + 1 + d) * sz + k
block_after a d sz j k p = grind arith

lt_or_ge : (a b : ℕ) → (a < b) ⊎ (b ≤ a)
lt_or_ge a b = elim (Bool-cases (ltb a b)) [
  | inl t ↦ inl (ltb→lt a b t)
  | inr f ↦ inr (ltb→ge a b f)
]

-- Blocks with different numbers do not overlap.
apart : (a b sz j k : ℕ) → a ≢ b → j < sz → k < sz → a * sz + j ≢ b * sz + k
apart a b sz j k h p q e = elim (lt_or_ge a b) [
  | inl less ↦
      let b' : b ≡ a + 1 + (b - a - 1) = omega (arith, less) in
      block_after a (b - a - 1) sz j k p (e ∙ ap (λ c. c * sz + k) b')
  | inr more ↦
      let a' : a ≡ b + 1 + (a - b - 1) = ground (arith, more, h) in
      block_after b (a - b - 1) sz k j q (sym e ∙ ap (λ c. c * sz + j) a')
]

-- A write changes one block.
other_block :
    (f : ℕ → ℕ) (a b sz : ℕ) (l : List ℕ)
    → a ≢ b
    → length l ≤ sz
    → slice (copy f (b * sz) l) (a * sz) sz ≡ slice f (a * sz) sz
other_block f a b sz l h p = slice-ext _ f (a * sz) (a * sz) sz (λ j q.
    copy-outside f (b * sz) l (a * sz + j) (λ k r e. apart a b sz j k h q (omega (arith, r, p)) e))

-- A full ring refuses data with the number 0. Any other valid ring with numbers below 2 ^ 64 writes
-- data of at most a block under the number that it returns, where they are read back, stays valid,
-- and leaves all blocks that wait to be read as they were.
pub set_data_lem :
    (l : List ℕ) (r : Ring)
    → IsValid r
    → length l ≤ r.block_sz
    → r.free_head + 2 < 2 ^ 64
    → ((r.free_head - r.data_head ≡ r.block_cnt) × (set_data l r ≡ some (0, r)))
      ⊎ ((r' : Ring) × (set_data l r ≡ some (r.free_head, r'))
          × IsValid r'
          × (get_data r.free_head r' ≡ some (block_at r.free_head r'))
          × (block_data r' r.free_head (length l) ≡ l)
          × ((i : ℕ)
              → r.data_head ≤ i
              → i < r.free_head
              → block_data r' i r.block_sz ≡ block_data r i r.block_sz))
unfolding set_data get_data
set_data_lem l r v short room =
    let small : leb (length l) r.block_sz ≡ true = ground arith in
    elim (Bool-cases (full r)) [
      | inl is_full ↦ inl (ground (arith, full_exact r v), rw (small, is_full) refl)
      | inr free ↦
          let next : inc64 r.free_head ≡ r.free_head + 1 =
            inc64_exact r.free_head (omega (arith, room)) in
          let left : r.free_head < r.data_head + r.block_cnt =
            ground (arith, full_exact r v, v.within) in
          inr (
            record r {
              bytes = copy r.bytes (block_at r.free_head r) l;
              free_head = r.free_head + 1;
            },
            rw (small, free, next) refl,
            record {
              some_blocks = v.some_blocks;
              ordered = omega (arith, v.ordered);
              within = omega (arith, left);
              fits = omega (arith, room);
            },
            ground (arith, v.ordered),
            slice-copy r.bytes (block_at r.free_head r) l,
            λ i p q.
                other_block r.bytes (i % r.block_cnt) (r.free_head % r.block_cnt) r.block_sz l
                  (mod-ne r.block_cnt i r.free_head q (omega (arith, left, p))) short,
          )
    ]

pub data RingOp : Type 0 where
  write : List ℕ → RingOp
  release_to : ℕ → RingOp
  skip_to : ℕ → RingOp

-- The calls that change a ring, less reset; the arguments are u_int64_t.
unfoldable pub step : RingOp → Ring → Option Ring
step (RingOp.write l) r = set_data l r >>= λ s. some (s.1)
step (RingOp.release_to i) r = set_data_head_idx i r
step (RingOp.skip_to i) r = set_free_head_idx (i % 2 ^ 64) r

unfoldable pub run : List RingOp → Ring → Option Ring
run [] r = some r
run (op ∷ ops) r = step op r >>= λ r'. run ops r'

-- One call cannot empty the ring, and the numbers grow by one block or by the ring's size at most.
record Kept (r r' : Ring) : Type 0 where
  not_empty : r'.data_head < r'.free_head
  grown : r'.free_head ≤ r.free_head + 2 ^ 32
  same_cnt : r'.block_cnt ≡ r.block_cnt

write-Kept :
    (l : List ℕ) (r r' : Ring)
    → r.data_head < r.free_head
    → r.free_head + 2 ^ 32 < 2 ^ 64
    → (set_data l r >>= λ s. some (s.1)) ≡ some r'
    → Kept r r'
unfolding set_data inc64
write-Kept l r r' h b e = elim (Bool-cases (leb (length l) r.block_sz)) [
  | inr long ↦ absurd (ground (arith, e, long))
  | inl short ↦ elim (Bool-cases (full r)) [
    | inl f ↦
        let q : r ≡ r' = ground (arith, e, short, f) in
        rw (← q) (record { not_empty = h; grown = omega arith; same_cnt = refl })
    | inr f ↦
        let s : Ring = record r {
          bytes = copy r.bytes (block_at r.free_head r) l;
          free_head = (r.free_head + 1) % 2 ^ 64;
        } in
        let q : some s ≡ some r' = sym (rw (short, f) refl) ∙ e in
        let q' : s ≡ r' = ground (arith, q) in
        rw (← q')
          (record { not_empty = omega (arith, h, b); grown = omega (arith, b); same_cnt = refl })
  ]
]

step-Kept :
    (op : RingOp) (r r' : Ring)
    → r.data_head < r.free_head
    → r.block_cnt < 2 ^ 32
    → r.free_head + 2 ^ 32 < 2 ^ 64
    → step op r ≡ some r'
    → Kept r r'
unfolding step set_data_head_idx set_free_head_idx sub64
step-Kept (RingOp.write l) r r' h c b e = write-Kept l r r' h b e
step-Kept (RingOp.release_to i) r r' h c b e = record {
  not_empty = ground (arith, e);
  grown = ground (arith, e);
  same_cnt = ground (arith, e);
}
step-Kept (RingOp.skip_to i) r r' h c b e = record {
  not_empty = ground (arith, h, e);
  grown = ground (arith, h, c, b, e);
  same_cnt = ground (arith, e);
}

-- A ring that has once held data is not found empty after any calls of its functions but reset that
-- do not abort, while its numbers do not come near 2 ^ 64: the last block cannot be given back.
pub run_never_empty :
    (ops : List RingOp) (r r' : Ring)
    → r.data_head < r.free_head
    → r.block_cnt < 2 ^ 32
    → r.free_head + (length ops + 1) * 2 ^ 32 < 2 ^ 64
    → run ops r ≡ some r'
    → empty r' ≡ false
unfolding run
run_never_empty [] r r' h c b e = let q : r ≡ r' = ground (arith, e) in rw (← q) (ground arith)
run_never_empty (op ∷ ops) r r' h c b e =
    let (r1, q, rest) = >>=-eq-some (step op r) (λ r1. run ops r1) e in
    let k = step-Kept op r r1 h c (omega (arith, b)) q in
    run_never_empty ops r1 r' k.not_empty (rw (k.same_cnt) c) (omega (arith, b, k.grown)) rest
