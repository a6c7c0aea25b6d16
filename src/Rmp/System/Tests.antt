-- ===== src/Rmp/System/Tests.antt =====
-- Three packets wait at a sender, of which the limit lets two go; they arrive in the other order.
use smart_net.Base.{
  ℕ, ◌+◌, ◌≡◌, refl, inl, inr, ℤ, List, [], ◌∷◌, Option, some, arith, Distinct, map, cmnerr_suc,
  sub64, inc64,
}
use smart_net.Rmp.Packet.{Pkg, Mem, Datagram}
use smart_net.Rmp.Sender.{Sender, open_sender, send_loop, framed, heartbeat, udp_send}
use smart_net.Rmp.Sender.Window
use smart_net.Rmp.Sender.Send.{with_packet, with_packet-Inv}
use smart_net.Rmp.Receiver.{Receiver, open_receiver}
use smart_net.Rmp.Receiver.Polling.{packet, poll}
use smart_net.Rmp.Receiver.Inv.{bytes}
use smart_net.Rmp.System.{send_loop-poll}

abbrev payloads : ℕ → List ℕ
payloads k = (k + 100) ∷ []

abbrev always : ℕ → ℤ
always n = cmnerr_suc

abbrev taken : Pkg → ℤ
taken p = cmnerr_suc

abbrev idle : Sender
idle = open_sender 20 7 500 1000 5000

abbrev three : Sender
three = with_packet 20 (payloads 3) (with_packet 20 (payloads 2) (with_packet 20 (payloads 1) idle))

three-Inv : Window.Inv 20 payloads three
unfolding open_sender
three-Inv =
    let v0 = Window.open_sender-Inv 20 payloads 7 500 1000 5000 (omega arith) in
    let v1 = with_packet-Inv 20 payloads idle v0 (omega arith) in
    let v2 = with_packet-Inv 20 payloads _ v1 (omega arith) in
    with_packet-Inv 20 payloads _ v2 (omega arith)

-- The sender after its loop.
abbrev done : Sender
done = record three {
  sending = 2;
  calls = 2;
  last_hb_time = 100;
  out = framed 7 2 (payloads 2) ∷ framed 7 1 (payloads 1) ∷ [];
}

three_run : send_loop 20 always 4 100 three ≡ some (cmnerr_suc, done)
unfolding open_sender send_loop heartbeat udp_send inc64 sub64
three_run = refl

-- The second packet arrives first.
abbrev swapped : List Datagram
swapped = framed 7 2 (payloads 2) ∷ framed 7 1 (payloads 1) ∷ []

send_loop-poll_example :
    (out : List (Option Mem)) × (r : Receiver) × (poll 4 taken 3 6
        (map packet swapped)
        (open_receiver 7 1)
      ≡ some (out, r))
    × (r.latest ≡ 2)
    × (bytes 4 payloads out ≡ some (101 ∷ []) ∷ some (102 ∷ []) ∷ [])
unfolding open_sender
send_loop-poll_example =
    send_loop-poll 20 4 payloads always 4 100 three done cmnerr_suc (λ n. inl refl) three-Inv
      (omega arith) (omega arith) refl refl refl three_run swapped taken 3 1 (λ p. refl)
      (λ k. omega arith) (omega arith) (omega arith) (omega arith) (tt, (tt, tt))
      (inl refl, (inr (inl refl), tt)) two_apart (λ k h. h) (omega arith)
  where
    two_apart : Distinct (2 ∷ 1 ∷ [])
    two_apart = (λ h. elim h [ inl e ↦ omega (arith, e) | inr b ↦ b ], (λ b. b, tt))
