-- ===== src/Rmp/System.antt =====
-- A sender, a network and a receiver of libcomm_net/src/network/sn_socket_impl.cpp together: the
-- limit of CRmpSock::handle_can_send on packets that are not acknowledged fits what
-- CRmpSock::recvep_handle_odata can store (1000000 / 10 and 100000 in the source).
pub mod Carried
mod Tests
use smart_net.Base.{
  ℕ, zero, suc, ◌+◌, ◌-◌, ◌/◌, ◌^◌, ◌≤◌, ◌<◌, ◌≡◌, ◌⊎◌, ◌↔◌, inl, inr, refl, sym, ◌∙◌, ap, List, [],
  ◌∷◌, Option, none, some, arith, true, ℤ, is_suc, In, Distinct, length, All, map, ℕ_discrete,
}
use smart_net.Rmp.Packet.{Pkg, odata, hb, nak, ack, other, Datagram, Mem, empty_mem}
use smart_net.Rmp.Sender.{Sender, send_loop, framed}
use smart_net.Rmp.Sender.Window.{IsAnswer, sent_onto}
use smart_net.Rmp.Sender.Window
use smart_net.Rmp.Sender.Sending.{Sends, send_loop_total}
use smart_net.Rmp.Receiver.{Receiver, deliver_all, open_receiver}
use smart_net.Rmp.Receiver.Inv.{bytes, sent_between}
use smart_net.Rmp.Receiver.Stream.{packets, deliver_all_any_order}
use smart_net.Rmp.Receiver.Polling.{Arrival, packet, poll}
use smart_net.Rmp.Receiver.Polled.{Idle, emptied, poll-deliver_all}
use smart_net.Rmp.System.Carried.{
  data_seqs, Occurs, IsData, multicast, From, Occurs-sent_onto, From-packets, multicast-sent_onto,
}

module _ (stream : ℕ → List ℕ) where
  sent_onto_members :
      (id j n k : ℕ) (l : List Datagram)
      → In k (data_seqs (sent_onto stream id j n l))
        ↔ (((j < k) × (k ≤ j + n)) ⊎ In k (data_seqs l))
  sent_onto_members id j zero k l = (inr, λ d. elim d [ inl r ↦ absurd (omega arith) | inr h ↦ h ])
  sent_onto_members id j (suc n) k l =
      let (to, from) = sent_onto_members id (j + 1) n k (framed id (j + 1) (stream (j + 1)) ∷ l) in
      (
        λ h. elim (to h) [
          | inl r ↦ inl (omega arith, omega arith)
          | inr m ↦ elim m [ inl e ↦ inl (omega arith, omega arith) | inr old ↦ inr old ]
        ],
        λ d. from (elim d [
          | inl r ↦ elim (ℕ_discrete k (j + 1)) [
            | yes e ↦ inr (inl e)
            | no ne ↦ inl (omega arith, omega arith)
          ]
          | inr old ↦ inr (inr old)
        ]),
      )

All-both :
    (P Q R : Datagram → Type 0)
    → ((d : Datagram) → P d → Q d → R d)
    → (l : List Datagram) → All P l
    → All Q l
    → All R l
All-both P Q R both [] a b = tt
All-both P Q R both (d ∷ l) (p, a) (q, b) = (both d p q, All-both P Q R both l a b)

open_receiver-idle : (id cnt : ℕ) → Idle (open_receiver id cnt).mem
unfolding open_receiver
open_receiver-idle id cnt = inl refl

open_receiver-own : (id cnt : ℕ) → (open_receiver id cnt).sender_id ≡ id
unfolding open_receiver
open_receiver-own id cnt = refl

packets_full :
    (stream : ℕ → List ℕ)
    → ((k : ℕ) → 0 < length (stream k))
    → (l : List ℕ) → All (λ d. 0 < length (d.1)) (packets stream l)
packets_full stream full [] = tt
packets_full stream full (k ∷ l) = (full k, packets_full stream full l)

module _ (win size : ℕ) (stream : ℕ → List ℕ) where
  -- The data among what a first run of the sender's loop has multicast.
  run_members :
      (s t : Sender) (code : ℤ)
      → Sends win stream s t code
      → s.sending ≡ 0
      → s.out ≡ []
      → (k : ℕ) → In k (data_seqs t.out) ↔ ((0 < k) × (k ≤ t.sending))
  run_members s t code p start empty k =
      let base : data_seqs t.out
          ≡ data_seqs (sent_onto stream s.sender_id s.sending (t.sending - s.sending) s.out) =
        elim p.in_order [ inl e ↦ ap data_seqs e | inr e ↦ ap data_seqs e ] in
      let (to, from) =
        sent_onto_members stream s.sender_id s.sending (t.sending - s.sending) k s.out in
      (
        λ h. elim (to (rw base at h)) [
          | inl r ↦ (omega arith, omega arith)
          | inr m ↦ absurd (rw empty at m)
        ],
        λ r. rw base (from (inl (omega arith, omega (arith, p.forward)))),
      )

  -- What the first run of the sender's loop has multicast, with a heartbeat behind it or not.
  run_From :
      (s t : Sender) (code : ℤ)
      → Sends win stream s t code
      → s.sending ≡ 0
      → s.out ≡ []
      → (d : Datagram) → Occurs d t.out
      → IsData d
      → From stream s.sender_id t.sending d
  run_From s t code p start empty d o is_data = elim p.in_order [
    | inl e ↦ from_run (rw e at o)
    | inr e ↦ elim (rw e at o) [ inl beat ↦ absurd (rw beat at is_data) | inr m ↦ from_run m ]
  ]
    where
      from_run :
          Occurs d (sent_onto stream s.sender_id s.sending (t.sending - s.sending) s.out)
          → From stream s.sender_id t.sending d
      from_run m =
          elim (Occurs-sent_onto stream s.sender_id d s.sending (t.sending - s.sending) s.out m) [
            | inl (k, above, below, e) ↦ (k, above, omega (arith, below, p.forward), e)
            | inr old ↦ absurd (rw empty at old)
          ]

  run_multicast :
      (s t : Sender) (code : ℤ)
      → Sends win stream s t code
      → s.sending ≡ 0
      → s.out ≡ []
      → multicast t.out ≡ sent_between size stream 0 t.sending
  run_multicast s t code p start empty =
      let base : multicast t.out
          ≡ multicast (sent_onto stream s.sender_id s.sending (t.sending - s.sending) s.out) =
        elim p.in_order [ inl e ↦ ap multicast e | inr e ↦ ap multicast e ] in
      base
      ∙ multicast-sent_onto stream s.sender_id s.sending (t.sending - s.sending) s.out
      ∙ (rw (empty, start) refl)

  -- A sender that has sent nothing yet, whatever waits in its window, runs its loop once. The
  -- network brings each data packet that was multicast exactly once, in any order, to a receiver
  -- that was just opened for this sender, whose array is at least a tenth of the window, and whose
  -- acknowledgements are taken. Every payload is non-empty, udp_send gives one of its answers, and
  -- handle_input_evt is called more often than datagrams arrive. Then no assertion fails at the
  -- receiver, and the application there is given exactly the payloads that were multicast, in the
  -- sender's order.
  pub send_loop-poll :
      (net : ℕ → ℤ) (fuel now : ℕ) (s t : Sender) (code : ℤ)
      → ((n : ℕ) → IsAnswer (net n))
      → Window.Inv win stream s
      → s.tail < 2 ^ 64
      → s.tail ≤ fuel
      → s.head ≡ 0
      → s.sending ≡ 0
      → s.out ≡ []
      → send_loop win net fuel now s ≡ some (code, t)
      → (arrived : List Datagram) (udp_send : Pkg → ℤ) (calls cnt : ℕ)
      → ((p : Pkg) → is_suc (udp_send p) ≡ true)
      → ((k : ℕ) → 0 < length (stream k))
      → 0 < size
      → win / 10 ≤ size
      → size + 1 < 2 ^ 64
      → All IsData arrived
      → All (λ d. Occurs d t.out) arrived
      → Distinct (data_seqs arrived)
      → ((k : ℕ) → In k (data_seqs t.out) → In k (data_seqs arrived))
      → length arrived < calls
      → (out : List (Option Mem)) × (r : Receiver) × (poll size udp_send calls
            (suc (suc size))
            (map packet arrived)
            (open_receiver s.sender_id cnt)
          ≡ some (out, r))
        × (r.latest ≡ t.sending)
        × (bytes size stream out ≡ multicast t.out)
  send_loop-poll net fuel now s t code answers v small enough top start empty run arrived udp_send
        calls cnt takes full pos fits bound all_data sent apart all polls =
      let p = run_Sends in
      let members = run_members s t code p start empty in
      let n : ℕ = t.sending in
      let id : ℕ = s.sender_id in
      let (same, long, below) = From-packets stream id n arrived (
        All-both IsData (λ d. Occurs d t.out) (From stream id n)
          (λ d is o. run_From s t code p start empty d o is) arrived all_data sent) in
      let (out, r, e, reached, order) =
        deliver_all_any_order size n size id cnt stream udp_send (data_seqs arrived) takes pos
          (elim p.limited [
            | inl q ↦ omega (arith, q, start)
            | inr le ↦ omega (arith, le, top, fits)
          ])
          (omega arith) bound (λ k. (below k, λ r. all k ((members k).1 r))) full apart in
      (
        out,
        record r { mem = some empty_mem },
        ap (λ q. poll size udp_send calls (suc (suc size)) q (open_receiver id cnt)) same
            ∙ poll-deliver_all size udp_send (suc (suc size)) id
                (packets stream (data_seqs arrived)) calls (open_receiver id cnt) (out, r)
                (packets_full stream full (data_seqs arrived)) (open_receiver-idle id cnt)
                (open_receiver-own id cnt) (omega (arith, long, polls)) e,
        reached,
        order ∙ sym (run_multicast s t code p start empty),
      )
    where
      run_Sends : Sends win stream s t code
      run_Sends = elim (send_loop_total win stream net fuel now s answers v small (omega arith)) [
        | inr (stop, _) ↦ cc (run, stop)
        | inl (code', t', e, p) ↦
            let same : t ≡ t' = cc (run, e) in
            let same_code : code ≡ code' = cc (run, e) in rw (same, same_code) p
      ]
