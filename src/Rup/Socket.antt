-- ===== src/Rup/Socket.antt =====
-- class CRupSock of libcomm_net/src/network/sn_socket_impl.h and .cpp, as it is compiled with
-- __USING_OLD_IO_METHOD__: the queues of blocks that wait to be sent, and the block that receives.
-- What the kernel's send() and recv() return are parameters; the bytes that send() took are kept
-- in `wire`. A mutex that another thread holds is the argument `locked`.
pub mod Queue
pub mod Sending
pub mod Draining
pub mod Receiving
pub mod Losses
pub mod Transfer
mod Tests
use smart_net.Base.{
  ℕ, zero, suc, ℤ, pos, negsuc, ◌+◌, Bool, true, false, not, Option, none, some, List, [], ◌∷◌,
  ◌++◌, length, take, ltb, ◌==◌, if◌then◌else◌, ◌>>=◌, ◌>>◌, cmn_assert, is_neg, is_suc, cmnerr_suc,
  cmnerr_common_err, cmnerr_io_err, cmnerr_send_pending, cmnerr_recv_pending,
}
use smart_net.Memory.Block.{
  Block, new_block, append, dec_head_data, move_data_ahead, put_tail, get_tail_free_size,
}
use smart_net.Memory.Block.Content.{content}

pub record RupSock : Type 0 where
  pub h_sock : ℤ
  pub sending : List Block  -- m_qSending
  pub send_cache : List Block  -- m_qSendCache
  pub recved_data : Option Block
  pub wire : List ℕ

-- INVALID_SOCKET is -1.
abbrev pub cmnerr_creat_sock_failed : ℤ
cmnerr_creat_sock_failed = negsuc 9985

abbrev pub new_sock : RupSock
new_sock = record {
  h_sock = negsuc 0;
  sending = [];
  send_cache = [];
  recved_data = none;
  wire = [];
}

abbrev pub is_opened : RupSock → Bool
is_opened s = not (is_neg s.h_sock)

-- CRupSock::open; `made` is the result of socket().
unfoldable pub open_sock : (handle made : ℤ) → RupSock → ℤ × RupSock
open_sock handle made s =
    if is_opened s
    then (cmnerr_common_err, s)
    else (let h = if is_neg handle then made else handle in
        (if is_neg h then cmnerr_creat_sock_failed else cmnerr_suc, record s { h_sock = h }))

unfoldable pub close_sock : RupSock → ℤ × RupSock
close_sock s = (cmnerr_suc, if is_opened s then record s { h_sock = negsuc 0 } else s)

-- What send() returns: the number of bytes it took, or -1 with errno.
pub data SendRet : Type 0 where
  sent : ℕ → SendRet
  would_block : SendRet
  interrupted : SendRet
  failed : SendRet

-- `m_qSendCache.back()->append(..)` of the bytes, and the block `b` behind it if that fails.
unfoldable pub queue_up : List ℕ → Block → List Block → List Block
queue_up l b [] = b ∷ []
queue_up l b (c ∷ []) = let (code, c') = append l c in if is_suc code then c' ∷ [] else c ∷ b ∷ []
queue_up l b (c ∷ d ∷ q) = c ∷ queue_up l b (d ∷ q)

abbrev pub no_blocks : List Block → Bool
no_blocks [] = true
no_blocks (b ∷ l) = false

-- What follows the locks in CRupSock::send.
unfoldable pub send_now : (List ℕ → SendRet) → Block → RupSock → Option (ℤ × RupSock)
send_now net b s = elim (net (content b)) [
  | would_block ↦ some (cmnerr_send_pending, s)
  | interrupted ↦ some (cmnerr_io_err, s)
  | failed ↦ some (cmnerr_io_err, s)
  | sent n ↦ do
    cmn_assert (not (n == 0))
    let s' = record s { wire = s.wire ++ take n (content b) }
    some (
        if ltb n b.len
        then (cmnerr_send_pending, record s' { send_cache = dec_head_data n b ∷ s.send_cache })
        else (cmnerr_suc, s'))
]

-- CRupSock::send of a block; `refs` is its number of references, of which the caller's is one.
unfoldable pub send :
    (refs : ℕ) → (locked : Bool) → (List ℕ → SendRet) → Block → RupSock → Option (ℤ × RupSock)
send refs locked net b s = do
  cmn_assert (ltb 0 b.len)
  cmn_assert (refs == 1)
  (if locked
      then some (cmnerr_send_pending, record s { send_cache = queue_up (content b) b s.send_cache })
      else (if no_blocks s.send_cache
          then send_now net b s
          else some
              (cmnerr_send_pending, record s { send_cache = queue_up (content b) b s.send_cache })))

-- CRupSock::send of bytes, whose block is made when it is needed; append does not fail on the bytes
-- that a block can hold, and leaves the block empty on others.
unfoldable pub block_of : List ℕ → Block
block_of l = (append l new_block).1

unfoldable pub send_bytes : Bool → (List ℕ → SendRet) → List ℕ → RupSock → Option (ℤ × RupSock)
send_bytes locked net l s =
    if locked
    then some (cmnerr_send_pending, record s { send_cache = queue_up l (block_of l) s.send_cache })
    else (if no_blocks s.send_cache
        then send_now net (block_of l) s
        else some
            (cmnerr_send_pending, record s { send_cache = queue_up l (block_of l) s.send_cache }))

-- `m_qSending.swap(m_qSendCache)` if m_qSending is empty.
unfoldable pub refill : RupSock → RupSock
refill s =
    if no_blocks s.sending then record s { sending = s.send_cache; send_cache = s.sending } else s

-- The loop of CRupSock::handle_can_send: `code` is i32Ret, and `net k` is what the call with the number
-- `k` of send() returns. `none` stands for a failed assertion, and for too little fuel.
unfoldable pub send_loop :
    (fuel : ℕ) → (ℕ → List ℕ → SendRet) → (k : ℕ) → ℤ → RupSock → Option (ℤ × RupSock)
send_loop zero net k code s = none
send_loop (suc fuel) net k code s = elim s.sending [
  | [] ↦ some (code, s)
  | b ∷ l ↦ elim (net k (content b)) [
    | would_block ↦ some (cmnerr_send_pending, s)
    | failed ↦ some (cmnerr_io_err, s)
    | interrupted ↦ send_loop fuel net (k + 1) (negsuc 0) s
    | sent n ↦
        let s' : RupSock = record s { wire = s.wire ++ take n (content b) } in
        cmn_assert (not (n == 0)) >>= λ _. elim (ltb n b.len) [
          | true ↦ some (cmnerr_send_pending, record s' { sending = dec_head_data n b ∷ l })
          | false ↦ cmn_assert (n == b.len) >>= λ _.
              send_loop fuel net (k + 1) (pos n) (refill (record s' { sending = l }))
        ]
  ]
]

unfoldable pub handle_can_send :
    (fuel : ℕ) → (ℕ → List ℕ → SendRet) → RupSock → Option (ℤ × RupSock)
handle_can_send fuel net s = send_loop fuel net 0 cmnerr_suc (refill s)

-- What recv() returns: bytes, zero at the end of the stream, or -1 with errno.
pub data RecvRet : Type 0 where
  got : List ℕ → RecvRet
  would_block : RecvRet
  interrupted : RecvRet
  failed : RecvRet

-- The block to receive into.
unfoldable pub recv_block : Option Block → Block
recv_block none = new_block
recv_block (some b) = move_data_ahead b

-- CRupSock::handle_can_recv; recv() is given the size of the free space.
unfoldable pub handle_can_recv : (ℕ → RecvRet) → RupSock → Option (ℤ × RupSock)
handle_can_recv net s =
    let b = recv_block s.recved_data in
    let s' = record s { recved_data = some b } in
    elim (net (get_tail_free_size b)) [
      | got [] ↦ some (cmnerr_io_err, s')
      | got (x ∷ l) ↦ some (cmnerr_suc, record s { recved_data = some (put_tail (x ∷ l) b) })
      | would_block ↦ none
      | interrupted ↦ some (cmnerr_recv_pending, s')
      | failed ↦ some (cmnerr_io_err, s')
    ]
