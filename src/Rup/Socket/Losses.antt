-- ===== src/Rup/Socket/Losses.antt =====
-- The calls of CRupSock::send that lose bytes, change their order, or abort.
use smart_net.Base.{
  ℕ, suc, [], ◌∷◌, append_nil, drop, sym, ◌∙◌, ◌<◌, true, false, none, some, List, [], ◌++◌, length,
  take, take_all, ltb, lt→ltb, ◌==◌, cmnerr_suc, cmnerr_send_pending, ◌≡◌, refl, ap, arith,
}
use smart_net.Memory.Block.{Block, max_mem_size, dec_head_data}
use smart_net.Memory.Block.Content.{content, Fits, slice, length-content, dec_head_data_lem}
use smart_net.Rup.Socket.{
  RupSock, SendRet, no_blocks, send_now, send, send_bytes, refill, send_loop, handle_can_send,
}
use smart_net.Rup.Socket.Queue.{stream, block_of_over}

-- The kernel takes all of a block that nobody else holds, while another block is cut in m_qSending.
overtakes :
    (b : Block) (s : RupSock)
    → 0 < b.len
    → no_blocks s.send_cache ≡ true
    → send 1 false (λ l. SendRet.sent (length l)) b s
      ≡ some (cmnerr_suc, record s { wire = s.wire ++ take (length (content b)) (content b) })
unfolding send send_now
overtakes b s h idle =
    let some_bytes : ltb 0 b.len ≡ true = lt→ltb 0 b.len h in
    let len : length (content b) ≡ b.len = length-content b in
    let not_zero : (length (content b) == 0) ≡ false = ground (arith, len, h) in
    let all : ltb (length (content b)) b.len ≡ false = ground (arith, len) in
    rw (some_bytes, idle, not_zero, all) refl

-- handle_can_send takes a block over and sends a part of it.
cut_lem :
    (fuel n : ℕ) (net : ℕ → List ℕ → SendRet) (x : Block) (s : RupSock)
    → net 0 (content x) ≡ SendRet.sent n
    → 0 < n
    → n < x.len
    → handle_can_send (suc fuel) net (record s { sending = []; send_cache = x ∷ [] })
      ≡ some (
        cmnerr_send_pending,
        record s {
          wire = s.wire ++ take n (content x);
          sending = dec_head_data n x ∷ [];
          send_cache = [];
        },
      )
unfolding handle_can_send refill send_loop
cut_lem fuel n net x s took pos less =
    let not_zero : (n == 0) ≡ false = ground (arith, pos) in
    let part : ltb n x.len ≡ true = lt→ltb n x.len less in rw (took, send_loop, not_zero, part) refl

drained_idle :
    (fuel : ℕ) (net : ℕ → List ℕ → SendRet) (s : RupSock)
    → handle_can_send (suc fuel) net (record s { sending = []; send_cache = [] })
      ≡ some (cmnerr_suc, record s { sending = []; send_cache = [] })
unfolding handle_can_send refill send_loop
drained_idle fuel net s = refl

refused_lem :
    (b : Block) (s : RupSock)
    → 0 < b.len
    → no_blocks s.send_cache ≡ true
    → send 1 false (λ l. SendRet.would_block) b s ≡ some (cmnerr_send_pending, s)
unfolding send send_now
refused_lem b s h idle =
    let some_bytes : ltb 0 b.len ≡ true = lt→ltb 0 b.len h in rw (some_bytes, idle) refl

-- At a socket whose queues are empty, with no other thread sending and a block that is not empty
-- and not shared: when the kernel would block, send answers CMNERR_SEND_PENDING, and
-- handle_can_send then finds nothing to send. And when handle_can_send has sent only a part of
-- another block, a block that send is given and the kernel takes stands on the wire right behind
-- that part, while the rest still waits.
pub send_faults :
    (fuel n : ℕ) (net : ℕ → List ℕ → SendRet) (x b : Block) (s : RupSock)
    → s.sending ≡ []
    → s.send_cache ≡ []
    → Fits x
    → 0 < b.len
    → net 0 (content x) ≡ SendRet.sent n
    → 0 < n
    → n < x.len
    → (send 1 false (λ l. SendRet.would_block) b s ≡ some (cmnerr_send_pending, s))
      × (handle_can_send (suc fuel) net s ≡ some (cmnerr_suc, s))
      × (u : RupSock) × (v : RupSock) × (handle_can_send
            (suc fuel)
            net
            (record s { send_cache = x ∷ [] })
          ≡ some (cmnerr_send_pending, u))
      × (send 1 false (λ l. SendRet.sent (length l)) b u ≡ some (cmnerr_suc, v))
      × (v.wire ≡ (s.wire ++ take n (content x)) ++ content b)
      × (stream v.sending ≡ drop n (content x))
unfolding stream
send_faults fuel n net x b s quiet idle fits some_bytes took pos less =
    let u : RupSock = record s {
      wire = s.wire ++ take n (content x);
      sending = dec_head_data n x ∷ [];
      send_cache = [];
    } in
    let (left, _, _) = dec_head_data_lem n x fits (omega (arith, less)) in
    (
      refused_lem b s some_bytes (ap no_blocks idle),
      ap (λ q. handle_can_send (suc fuel) net (record s { sending = q; send_cache = s.send_cache }))
            quiet
          ∙ ap (λ c. handle_can_send (suc fuel) net (record s { sending = []; send_cache = c }))
              idle
          ∙ drained_idle fuel net s
          ∙ ap (λ q. some (cmnerr_suc, record s { sending = q; send_cache = [] })) (sym quiet)
          ∙ ap (λ c. some (cmnerr_suc, record s { send_cache = c })) (sym idle),
      u,
      record u { wire = u.wire ++ take (length (content b)) (content b) },
      ap (λ q. handle_can_send (suc fuel) net (record s { sending = q; send_cache = x ∷ [] })) quiet
          ∙ cut_lem fuel n net x s took pos less,
      overtakes b u some_bytes refl,
      ap (λ l. u.wire ++ l) (take_all (length (content b)) (content b) (omega arith)),
      append_nil (content (dec_head_data n x)) ∙ left,
    )

-- More bytes than a block can hold are replaced by none, and the process aborts when send() takes none.
pub too_long_aborts :
    (net : List ℕ → SendRet) (l : List ℕ) (s : RupSock)
    → max_mem_size < length l
    → no_blocks s.send_cache ≡ true
    → net [] ≡ SendRet.sent 0
    → send_bytes false net l s ≡ none
unfolding send_bytes send_now content slice
too_long_aborts net l s over idle nothing =
    rw (idle, block_of_over l over) (rw (nothing, send_now) refl)
