-- ===== src/Rup/Socket/Queue.antt =====
-- The blocks of CRupSock that wait to be sent, as one stream of bytes.
use smart_net.Base.{
  ℕ, ◌≤◌, ◌<◌, List, [], ◌∷◌, ◌++◌, length, cmnerr_suc, cmnerr_common_err, All, append_nil,
  append_assoc, ◌≡◌, ap, sym, ◌∙◌, arith, inl, inr, ◌⊎◌,
}
use smart_net.Memory.Block.{Block, new_block, append, max_mem_size}
use smart_net.Memory.Block.Content.{content, Fits, slice, append_lem, length-content}
use smart_net.Rup.Socket.{queue_up, block_of}

unfoldable pub stream : List Block → List ℕ
stream [] = []
stream (b ∷ l) = content b ++ stream l

abbrev pub AllFit : List Block → Type 0
AllFit l = All Fits l

appended :
    (l : List ℕ) (c : Block)
    → Fits c
    → ((append l c ≡ (cmnerr_suc, (append l c).1))
        × (content (append l c).1 ≡ content c ++ l)
        × Fits (append l c).1)
      ⊎ (append l c ≡ (cmnerr_common_err, c))
appended l c f = elim (append_lem l c f) [
  | inl (_, code, same, fits) ↦ inl (ap (λ x. (x, (append l c).1)) code, same, fits)
  | inr (_, whole) ↦ inr whole
]

-- Bytes go to the end of the stream, in the last block or in one of their own.
pub queue_up_lem :
    (l : List ℕ) (b : Block) (q : List Block)
    → content b ≡ l
    → Fits b
    → AllFit q
    → (stream (queue_up l b q) ≡ stream q ++ l) × AllFit (queue_up l b q)
unfolding queue_up stream
queue_up_lem l b [] h f a = (append_nil (content b) ∙ h, (f, tt))
queue_up_lem l b (c ∷ []) h f a = elim (appended l c (a.0)) [
  | inl (q, same, fits) ↦
      rw q (append_nil _ ∙ same ∙ ap (λ x. x ++ l) (sym (append_nil (content c))), (fits, tt))
  | inr q ↦ rw q (
    ap (λ x. content c ++ x) (append_nil (content b) ∙ h)
        ∙ ap (λ x. x ++ l) (sym (append_nil (content c))),
    (a.0, (f, tt)),
  )
]
queue_up_lem l b (c ∷ d ∷ q) h f a =
    let (s, g) = queue_up_lem l b (d ∷ q) h f (a.1) in
    (
      ap (λ x. content c ++ x) s ∙ sym (append_assoc (content c) (content d ++ stream q) l),
      (a.0, g),
    )

-- A new block holds the bytes it is made for, if it can.
pub block_of_lem :
    (l : List ℕ)
    → length l ≤ max_mem_size
    → (content (block_of l) ≡ l) × Fits (block_of l) × ((block_of l).len ≡ length l)
unfolding block_of content slice
block_of_lem l h = elim (append_lem l new_block (omega arith)) [
  | inl (_, _, same, fits) ↦ (same, fits, sym (length-content (block_of l)) ∙ ap length same)
  | inr (over, _) ↦ absurd (omega (arith, over, h))
]

-- Otherwise it is empty.
pub block_of_over : (l : List ℕ) → max_mem_size < length l → block_of l ≡ new_block
unfolding block_of
block_of_over l h = elim (append_lem l new_block (omega arith)) [
  | inl (room, _, _, _) ↦ absurd (omega (arith, room, h))
  | inr (_, whole) ↦ ap (λ x. x.1) whole
]
