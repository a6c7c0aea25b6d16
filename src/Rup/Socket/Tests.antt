-- ===== src/Rup/Socket/Tests.antt =====
-- Three bytes that are queued while another thread sends, and leave in two rounds.
use smart_net.Base.{
  ℕ, suc, pos, true, false, some, List, [], ◌∷◌, ◌++◌, length, take, drop, ◌≡◌, refl, arith,
  cmnerr_suc, cmnerr_io_err, cmnerr_send_pending, add32, sub32,
}
use smart_net.Memory.Block.{
  Block, new_block, append, copy, dec_head_data, get_total_free_size, get_tail_free_size,
  max_mem_size,
}
use smart_net.Memory.Block.Content.{content, slice, length-content}
use smart_net.Rup.Socket.{
  RupSock, SendRet, RecvRet, new_sock, queue_up, send, block_of, send_bytes, refill, send_loop,
  handle_can_send, handle_can_recv,
}
use smart_net.Rup.Socket.Queue.{stream, block_of_lem}
use smart_net.Rup.Socket.Sending.{Honest, InOrder, Passed, send_bytes_lem}
use smart_net.Rup.Socket.Draining.{Calm, Drained, handle_can_send_lem}
use smart_net.Rup.Socket.Losses.{send_faults}
use smart_net.Rup.Socket.Receiving.{unread, held, HeldFits, full_block_closes}
use smart_net.Rup.Socket.Transfer.{Sends, joined, recv_all, transfer}

abbrev takes_one : List ℕ → SendRet
takes_one [] = SendRet.would_block
takes_one (x ∷ l) = SendRet.sent 1

abbrev takes_all : List ℕ → SendRet
takes_all [] = SendRet.would_block
takes_all (x ∷ l) = SendRet.sent (suc (length l))

takes_one-Honest : Honest takes_one
takes_one-Honest [] n e = cc
takes_one-Honest (x ∷ l) n e = ground (arith, e)

takes_all-Honest : Honest takes_all
takes_all-Honest [] n e = cc
takes_all-Honest (x ∷ l) n e = ground (arith, e)

takes_one-Calm : Calm 0 (λ k. takes_one)
takes_one-Calm j [] h e = cc
takes_one-Calm j (x ∷ l) h e = cc

takes_all-Calm : Calm 0 (λ k. takes_all)
takes_all-Calm j [] h e = cc
takes_all-Calm j (x ∷ l) h e = cc

abbrev three : List ℕ
three = 1 ∷ 2 ∷ 3 ∷ []

abbrev queued_sock : RupSock
queued_sock = record (new_sock) { send_cache = block_of three ∷ [] }

abbrev half_sent : RupSock
half_sent = record (new_sock) { sending = dec_head_data 1 (block_of three) ∷ []; wire = 1 ∷ [] }

abbrev all_sent : RupSock
all_sent = record (new_sock) { wire = three }

queue_three : send_bytes true takes_all three new_sock ≡ some (cmnerr_send_pending, queued_sock)
unfolding send_bytes queue_up
queue_three = refl

first_round : handle_can_send 3 (λ k. takes_one) queued_sock ≡ some (cmnerr_send_pending, half_sent)
unfolding handle_can_send refill send_loop block_of append get_total_free_size get_tail_free_size
    add32 sub32 content slice copy
first_round = refl

second_round : handle_can_send 3 (λ k. takes_all) half_sent ≡ some (pos 2, all_sent)
unfolding handle_can_send refill send_loop block_of append get_total_free_size get_tail_free_size
    add32 sub32 content slice copy dec_head_data
second_round = refl

three_leave : Sends new_sock (three ++ []) all_sent
three_leave =
    Sends.call_send true takes_all cmnerr_send_pending takes_all-Honest (omega arith)
      (InOrder.by_lock refl) queue_three
      (Sends.call_can_send 3 0 (λ k. takes_one) cmnerr_send_pending (λ j. takes_one-Honest)
        takes_one-Calm (omega arith) first_round
        (Sends.call_can_send 3 0 (λ k. takes_all) (pos 2) (λ j. takes_all-Honest) takes_all-Calm
          (omega arith) second_round (Sends.done all_sent)))

transfer_example :
    (r : RupSock) × (recv_all ((1 ∷ 2 ∷ []) ∷ (3 ∷ []) ∷ []) new_sock ≡ some r) × (unread r ≡ three)
unfolding joined
transfer_example =
    transfer {l = three} all_sent ((1 ∷ 2 ∷ []) ∷ (3 ∷ []) ∷ []) three_leave refl refl refl
      (omega arith, (omega arith, tt)) (omega arith)

send_bytes_lem_example : Passed three new_sock (send_bytes false takes_one three new_sock)
send_bytes_lem_example =
    send_bytes_lem false takes_one three new_sock takes_one-Honest (omega arith)
      (InOrder.by_net 1 refl refl refl refl) (record { sending_fits = tt; cache_fits = tt })

handle_can_send_lem_example : Drained queued_sock (handle_can_send 3 (λ k. takes_one) queued_sock)
handle_can_send_lem_example =
    handle_can_send_lem 3 (λ k. takes_one) 0 queued_sock
      (λ j l n some_bytes e. takes_one-Honest l n e) takes_one-Calm (omega arith)
      (record { sending_fits = tt; cache_fits = ((block_of_lem three (omega arith)).1, tt) }) tt
      (omega (arith, length-content (block_of three), (block_of_lem three (omega arith)).2), tt)

abbrev full_sock : RupSock
full_sock = record (new_sock) { recved_data = some (record (new_block) { len = max_mem_size }) }

abbrev one_byte : Block
one_byte = record (new_block) { len = 1 }

abbrev two_zeros : Block
two_zeros = record (new_block) { len = 2 }

send_faults_example :
    (send 1 false (λ l. SendRet.would_block) one_byte new_sock
      ≡ some (cmnerr_send_pending, new_sock))
    × (handle_can_send 4 (λ k. takes_one) new_sock ≡ some (cmnerr_suc, new_sock))
    × (u : RupSock) × (v : RupSock) × (handle_can_send 4
          (λ k. takes_one)
          (record new_sock { send_cache = two_zeros ∷ [] })
        ≡ some (cmnerr_send_pending, u))
    × (send 1 false (λ l. SendRet.sent (length l)) one_byte u ≡ some (cmnerr_suc, v))
    × (v.wire ≡ ([] ++ take 1 (content two_zeros)) ++ content one_byte)
    × (stream v.sending ≡ drop 1 (content two_zeros))
unfolding content slice
send_faults_example =
    send_faults 3 1 (λ k. takes_one) two_zeros one_byte new_sock refl refl (omega arith)
      (omega arith) refl (omega arith) (omega arith)

full_block_closes_example :
    (s' : RupSock) × (handle_can_recv (λ n. RecvRet.got []) full_sock ≡ some (cmnerr_io_err, s'))
    × (unread s' ≡ unread full_sock)
unfolding held HeldFits
full_block_closes_example =
    full_block_closes (λ n. RecvRet.got []) full_sock (omega arith)
      (length-content (record (new_block) { len = max_mem_size })) refl
