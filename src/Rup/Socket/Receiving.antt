-- ===== src/Rup/Socket/Receiving.antt =====
-- CRupSock::handle_can_recv: bytes are collected in one block.
use smart_net.Base.{
  ℕ, ◌+◌, ◌-◌, ◌≤◌, ◌<◌, Option, none, some, List, [], ◌∷◌, ◌++◌, length, cmnerr_suc, cmnerr_io_err,
  ◌≡◌, refl, ap, sym, ◌∙◌, arith,
}
use smart_net.Memory.Block.{
  Block, new_block, move_data_ahead, put_tail, get_tail_free_size, max_mem_size,
}
use smart_net.Memory.Block.Content.{
  content, slice, Fits, move_data_ahead_lem, put_tail_lem, tail_exact, length-content,
}
use smart_net.Rup.Socket.{RupSock, RecvRet, recv_block, handle_can_recv}

-- What the application has not taken yet.
unfoldable pub held : Option Block → List ℕ
held none = []
held (some b) = content b

abbrev pub unread : RupSock → List ℕ
unread s = held s.recved_data

unfoldable pub HeldFits : Option Block → Type 0
HeldFits none = Unit
HeldFits (some b) = Fits b

abbrev pub RecvValid : RupSock → Type 0
RecvValid s = HeldFits s.recved_data

-- The block to receive into holds what was there before, at its beginning.
record Ready (o : Option Block) (b : Block) : Type 0 where
  same : content b ≡ held o
  at_start : b.offset ≡ 0
  whole : b.len ≡ length (held o)
  room : get_tail_free_size b ≡ max_mem_size - length (held o)
  small : length (held o) ≤ max_mem_size

recv_block-Ready : (o : Option Block) → HeldFits o → Ready o (recv_block o)
unfolding recv_block held HeldFits content slice get_tail_free_size
recv_block-Ready none v = record {
  same = refl;
  at_start = refl;
  whole = refl;
  room = tail_exact new_block (omega arith);
  small = omega arith;
}
recv_block-Ready (some b) v =
    let (c, len, start) = move_data_ahead_lem b in
    let size : b.len ≡ length (content b) = sym (length-content b) in
    record {
      same = c;
      at_start = start;
      whole = len ∙ size;
      room = ground (arith, tail_exact (move_data_ahead b), len, start, size, v);
      small = omega (arith, size, v);
    }

-- What recv() brings is put behind what the application has not taken, if it fits into the space that
-- recv() was told of.
pub handle_can_recv_lem :
    (net : ℕ → RecvRet) (l : List ℕ) (s : RupSock)
    → RecvValid s
    → 0 < length l
    → length (unread s) + length l ≤ max_mem_size
    → net (max_mem_size - length (unread s)) ≡ RecvRet.got l
    → (s' : RupSock) × (handle_can_recv net s ≡ some (cmnerr_suc, s'))
      × (unread s' ≡ unread s ++ l)
      × RecvValid s'
unfolding handle_can_recv held HeldFits
handle_can_recv_lem net [] s v h fits e = absurd (omega (arith, h))
handle_can_recv_lem net (x ∷ l) s v h fits e =
    let r = recv_block-Ready s.recved_data v in
    let b : Block = recv_block s.recved_data in
    let (c, g, _) = put_tail_lem (x ∷ l) b (omega (arith, r.at_start, r.whole, fits)) in
    let e' : net (get_tail_free_size b) ≡ RecvRet.got (x ∷ l) = ap net r.room ∙ e in
    (
      record s { recved_data = some (put_tail (x ∷ l) b) },
      rw (e', handle_can_recv) refl,
      c ∙ ap (λ y. y ++ (x ∷ l)) r.same,
      g,
    )

-- When the application has left a whole block of bytes unread, handle_can_recv asks the kernel for
-- no bytes, takes the answer 0 for the end of the stream, and reports CMNERR_IO_ERR.
pub full_block_closes :
    (net : ℕ → RecvRet) (s : RupSock)
    → RecvValid s
    → length (unread s) ≡ max_mem_size
    → net 0 ≡ RecvRet.got []
    → (s' : RupSock) × (handle_can_recv net s ≡ some (cmnerr_io_err, s')) × (unread s' ≡ unread s)
unfolding handle_can_recv held
full_block_closes net s v whole e =
    let r = recv_block-Ready s.recved_data v in
    let none_free : get_tail_free_size (recv_block s.recved_data) ≡ 0 =
      r.room ∙ omega (arith, whole) in
    let e' : net (get_tail_free_size (recv_block s.recved_data)) ≡ RecvRet.got [] =
      ap net none_free ∙ e in
    (
      record s { recved_data = some (recv_block s.recved_data) },
      rw (e', handle_can_recv) refl,
      r.same,
    )
