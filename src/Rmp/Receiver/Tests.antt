-- ===== src/Rmp/Receiver/Tests.antt =====
-- A receiver with four slots, and its theorems at concrete packets.
use smart_net.Base.{
  ℕ, zero, suc, ◌+◌, ◌≤◌, ◌<◌, ◌≡◌, ◌↔◌, refl, inl, inr, ℤ, List, [], ◌∷◌, Option, none, some,
  arith, In, sub64, cmnerr_suc, map,
}
use smart_net.Rmp.Packet.{Mem, Pkg, nak}
use smart_net.Rmp.Receiver.{Receiver, open_receiver, deliver, deliver_all}
use smart_net.Rmp.Receiver.Inv.{Inv, Has, bytes}
use smart_net.Rmp.Receiver.Deliver.{stored_ahead, Delivers-ahead}
use smart_net.Rmp.Receiver.Total.{Ends, deliver_ahead, deliver_total}
use smart_net.Rmp.Receiver.Stream.{packets, deliver_all_any_order, open_receiver-Inv}
use smart_net.Rmp.Receiver.Aborts.{deliver_repeated_aborts}
use smart_net.Rmp.Receiver.Polling.{poll}
use smart_net.Rmp.Receiver.Polled.{arrives, emptied, poll-deliver_all}
use smart_net.Rmp.Receiver.Timers.{
  nak_timer, recv_handle_can_send, nak_timer_asks_gap, recv_handle_can_send_total,
}

abbrev stream : ℕ → List ℕ
stream k = (k + 100) ∷ []

abbrev sent : Pkg → ℤ
sent _ = cmnerr_suc

abbrev fresh : Receiver
fresh = open_receiver 7 1

fresh-Inv : Inv 4 stream fresh
fresh-Inv = open_receiver-Inv 4 stream 7 1

-- The packets 3, 1 and 2 come in this order, and are handed out as 1, 2 and 3.
abbrev mixed : List ℕ
mixed = 3 ∷ 1 ∷ 2 ∷ []

mixed_members : (k : ℕ) → In k mixed ↔ ((0 < k) × (k ≤ 3))
mixed_members k = (λ h. (omega arith, omega arith), from k)
  where
    from : (k : ℕ) → (0 < k) × (k ≤ 3) → In k mixed
    from zero h = absurd (omega arith)
    from (suc zero) h = inr (inl refl)
    from (suc (suc zero)) h = inr (inr (inl refl))
    from (suc (suc (suc zero))) h = inl refl
    from (suc (suc (suc (suc k)))) h = absurd (omega arith)

deliver_all_any_order_example :
    (out : List (Option Mem)) × (s : Receiver) × (deliver_all 4 sent 6 (packets stream mixed) fresh
      ≡ some (out, s))
    × (s.latest ≡ 3)
    × (bytes 4 stream out ≡ some (101 ∷ []) ∷ some (102 ∷ []) ∷ some (103 ∷ []) ∷ [])
deliver_all_any_order_example =
    deliver_all_any_order 4 3 4 7 1 stream sent mixed (λ p. refl) (omega arith) (omega arith)
      (omega arith) (omega arith) mixed_members (λ k. omega arith) (omega arith)

-- What handling the packets one by one gives.
abbrev taken : List (Option Mem) × Receiver
taken = let ex = deliver_all_any_order_example in (ex.0, ex.1)

poll-deliver_all_example :
    poll 4 sent 4 6 (map (arrives 7) (packets stream mixed)) fresh ≡ some (emptied taken)
unfolding open_receiver
poll-deliver_all_example =
    poll-deliver_all 4 sent 6 7 (packets stream mixed) 4 fresh taken
      (omega arith, (omega arith, (omega arith, tt))) (inl refl) refl (omega arith)
      (deliver_all_any_order_example.2)

deliver_total_example : Ends 4 stream sent (λ p. refl) 4 (omega arith) fresh fresh-Inv 3
unfolding open_receiver
deliver_total_example =
    deliver_total 4 stream sent (λ p. refl) 4 (omega arith) fresh fresh-Inv 3 (omega arith)
      (omega arith, omega arith, inr (omega arith, refl))

-- The packet 3 has come.
third_run :
    deliver_all 4 sent 6 (packets stream (3 ∷ [])) (open_receiver 7 1)
    ≡ some ([], stored_ahead 4 stream 3 fresh)
unfolding deliver_all open_receiver
third_run =
    let one =
      deliver_ahead 4 stream sent (λ p. refl) 4 (omega arith) fresh fresh-Inv 3 (omega arith)
        (omega arith) (omega arith) refl in
    rw one refl

deliver_repeated_aborts_example :
    deliver 4 sent 6 3 (stream 3) (stored_ahead 4 stream 3 fresh) ≡ none
unfolding open_receiver
deliver_repeated_aborts_example =
    deliver_repeated_aborts 4 4 7 1 3 stream sent (3 ∷ []) [] (stored_ahead 4 stream 3 fresh)
      (λ p. refl) (omega arith) (omega arith) (omega arith)
      (λ k h. elim h [ inl e ↦ omega (arith, e) | inr b ↦ absurd b ]) (λ k h. omega arith)
      (λ b. b, tt) third_run (inl refl) (omega arith)

-- The packet 3 waits for 1 and 2.
abbrev gapped : Receiver
gapped = record (stored_ahead 4 stream 3 fresh) { last_send_nak_time = 5 }

gapped-Inv : Inv 4 stream gapped
unfolding open_receiver
gapped-Inv =
    let v =
      (Delivers-ahead 4 stream 3 fresh fresh-Inv (omega arith) (omega arith) (omega arith)).valid in
    record {
      buffer = v.buffer;
      idle = v.idle;
      begin_reset = v.begin_reset;
      end_reset = v.end_reset;
    }

nak_timer_asks_gap_example :
    (nak_timer sent 2000 gapped
      ≡ some (record gapped { last_send_nak_time = 2000; out = nak 1 2 0 ∷ [] }))
    × (1 ≤ 2)
    × ((k : ℕ) → 1 ≤ k → k ≤ 2 → ¬ Has 4 stream gapped k)
    × Has 4 stream gapped 3
unfolding open_receiver sub64
nak_timer_asks_gap_example =
    nak_timer_asks_gap 4 stream sent (λ p. refl) 2000 gapped gapped-Inv (omega arith) (omega arith)
      (omega arith)

timers_keep_gapped :
    (s : Receiver) × (recv_handle_can_send sent 20000 gapped ≡ some s)
    × Inv 4 stream s
    × (s.latest ≡ gapped.latest)
    × (s.slots ≡ gapped.slots)
timers_keep_gapped = recv_handle_can_send_total 4 stream sent (λ p. refl) 20000 gapped gapped-Inv
