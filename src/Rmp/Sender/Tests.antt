-- ===== src/Rmp/Sender/Tests.antt =====
-- A sender with a window of twenty slots, and its theorems at concrete packets.
use smart_net.Base.{
  ℕ, ◌+◌, ◌≤◌, ◌<◌, ◌≡◌, ◌⊎◌, refl, inl, ℤ, List, [], ◌∷◌, none, some, arith, cmnerr_suc,
  cmnerr_no_space,
}
use smart_net.Rmp.Sender.{Sender, Block, Recvers, open_sender, send, sendep_handle_nak}
use smart_net.Rmp.Sender.Window.{Inv, IsAnswer, open_sender-Inv}
use smart_net.Rmp.Sender.Send.{with_packet, headed, with_packet-Inv, send_total}
use smart_net.Rmp.Sender.Sending.{Ends, send_loop_total}
use smart_net.Rmp.Sender.Resend.{IsFair, Resent}
use smart_net.Rmp.Sender.Nak.{noted, sendep_handle_nak_total}

abbrev payloads : ℕ → List ℕ
payloads k = (k + 100) ∷ []

abbrev always : ℕ → ℤ
always n = cmnerr_suc

abbrev first : ℕ → Recvers → ℕ
first id m = 0

abbrev answered : (n : ℕ) → IsAnswer (always n)
answered n = inl refl

abbrev at_once : (n : ℕ) → IsFair 20 always 1 n
at_once n = (0, omega arith, refl)

abbrev idle : Sender
idle = open_sender 20 7 500 1000 5000

idle-Inv : Inv 20 payloads idle
idle-Inv = open_sender-Inv 20 payloads 7 500 1000 5000 (omega arith)

abbrev block : Block
block = record { offset = 16; hdr_len = 0; payload = payloads 1 }

-- Three packets wait, and two of them were sent.
abbrev busy : Sender
busy =
    record (with_packet 20 (payloads 3)
      (with_packet 20 (payloads 2) (with_packet 20 (payloads 1) idle))) { sending = 2 }

busy-Inv : Inv 20 payloads busy
unfolding open_sender
busy-Inv =
    let v1 = with_packet-Inv 20 payloads idle idle-Inv (omega arith) in
    let v2 = with_packet-Inv 20 payloads _ v1 (omega arith) in
    let v3 = with_packet-Inv 20 payloads _ v2 (omega arith) in
    record {
      head_sent = omega arith;
      sent = omega arith;
      room = omega arith;
      holds = v3.holds;
      acked = tt;
    }

send_total_example :
    ((idle.tail + 2 ≤ idle.head + 20)
      × (send 20 block idle ≡ some (cmnerr_suc, none, with_packet 20 (payloads 1) idle))
      × Inv 20 payloads (with_packet 20 (payloads 1) idle))
    ⊎ ((idle.tail + 1 ≡ idle.head + 20)
        × (send 20 block idle ≡ some (cmnerr_no_space, some (headed 20 block), idle))
        × (send 20 (headed 20 block) idle ≡ none))
unfolding open_sender
send_total_example = send_total 20 payloads block idle idle-Inv refl refl (omega arith)

send_loop_total_example : Ends 20 payloads always 5 100 busy
unfolding open_sender
send_loop_total_example =
    send_loop_total 20 payloads always 5 100 busy answered busy-Inv (omega arith) (omega arith)

sendep_handle_nak_total_example :
    ((0 ≤ 2)
      × (2 < 4)
      × (code : ℤ) × (t : Sender) × (naks : ℕ) × (speed : ℕ) × (sendep_handle_nak 20 always first 1
            3 50 2 2 9 busy
          ≡ some (code, t))
      × Resent 20 payloads
          (noted 20 payloads always answered 1 at_once first 50 9 naks speed busy)
          t
          1
          2
          code
      × Inv 20 payloads t)
    ⊎ (((2 < 0) ⊎ (4 ≤ 2)) × (sendep_handle_nak 20 always first 1 3 50 2 2 9 busy ≡ none))
unfolding open_sender
sendep_handle_nak_total_example =
    sendep_handle_nak_total 20 payloads always answered 1 at_once first 3 50 1 2 9 busy busy-Inv
      (omega arith) (omega arith)
