-- ===== src/Rmp/Receiver/Aborts.antt =====
-- Packets that CRmpSock::recvep_handle_odata does not survive.
use smart_net.Base.{
  ℕ, suc, ◌+◌, ◌%◌, ◌^◌, ◌≤◌, ◌<◌, ◌≡◌, ◌≢◌, inl, inr, In, Distinct, length, Option, refl, ℤ, List,
  none, some, arith, is_suc, inc64_exact, true,
}
use smart_net.Rmp.Packet.{Pkg, Mem}
use smart_net.Rmp.Receiver.{
  Receiver, recvep_handle_odata, widen, store, deliver, deliver_all, open_receiver,
}
use smart_net.Rmp.Receiver.Inv.{Has}
use smart_net.Rmp.Receiver.Stream.{
  packets, deliver_all_from, open_receiver-Inv, open_receiver-Fresh,
}

module _ (size : ℕ) where
  -- A packet ahead of the next one whose slot is taken fails an assertion.
  odata_stored_aborts :
      (seq : ℕ) (body : List ℕ) (r : Receiver)
      → r.latest + 1 < seq
      → seq < 2 ^ 64
      → r.slots (seq % size) ≢ none
      → recvep_handle_odata size seq body r ≡ none
  unfolding recvep_handle_odata widen store
  odata_stored_aborts seq body r l w full = ground (arith, inc64_exact r.latest)

-- A packet that has arrived and is not handed out is in its slot.
stored_full :
    (size seq : ℕ) (stream : ℕ → List ℕ) (s : Receiver)
    → Has size stream s seq
    → s.latest + 1 < seq
    → s.slots (seq % size) ≢ none
stored_full size seq stream s (inl old) ahead = absurd (omega (arith, old, ahead))
stored_full size seq stream s (inr (_, _, full)) ahead = full

-- Whatever different packets have come to a receiver that was just opened, within its size, with
-- non-empty payloads and its acknowledgements taken: when one of them comes once more while a gap
-- before it is open, the process aborts.
pub deliver_repeated_aborts :
    (size fuel id cnt seq : ℕ) (stream : ℕ → List ℕ) (udp_send : Pkg → ℤ) (seqs : List ℕ)
    (out : List (Option Mem)) (s : Receiver)
    → ((p : Pkg) → is_suc (udp_send p) ≡ true)
    → 0 < size
    → size ≤ fuel
    → size + 1 < 2 ^ 64
    → ((k : ℕ) → In k seqs → k ≤ size)
    → ((k : ℕ) → In k seqs → 0 < length (stream k))
    → Distinct seqs
    → deliver_all size udp_send (suc (suc fuel)) (packets stream seqs) (open_receiver id cnt)
      ≡ some (out, s)
    → In seq seqs
    → s.latest + 1 < seq
    → deliver size udp_send (suc (suc fuel)) seq (stream seq) s ≡ none
unfolding deliver
deliver_repeated_aborts size fuel id cnt seq stream udp_send seqs out s sends pos enough small near
      full apart run member ahead =
    let (out', s', e, v) =
      deliver_all_from size stream udp_send sends fuel enough pos small seqs (open_receiver id cnt)
        (open_receiver-Inv size stream id cnt) near full apart
        (open_receiver-Fresh size stream seqs id cnt) in
    let same : s' ≡ s = cc (run, e) in
    let stored : Has size stream s seq = rw same at (v.arrived seq member) in
    rw
      (odata_stored_aborts size seq (stream seq) s ahead (omega (arith, small, near seq member))
        (stored_full size seq stream s stored ahead))
      refl
