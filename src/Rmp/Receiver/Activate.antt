-- ===== src/Rmp/Receiver/Activate.antt =====
-- The next packet in order came, and the run of stored packets behind it becomes ready.
use smart_net.Base.{
  ℕ, zero, suc, ◌+◌, ◌-◌, ◌%◌, ◌≤◌, ◌<◌, ◌≡◌, ◌≢◌, ◌⊎◌, refl, sym, ◌∙◌, ap, ap₂, inl, inr, List,
  ◌∷◌, map, Option, none, some, arith, range_from, ℕ_discrete, dec_le, Option-cases,
}
use mathlib.Core.Option
use smart_net.Rmp.Packet.{Mem}
use smart_net.Rmp.Receiver.{Receiver}
use smart_net.Rmp.Receiver.Loops.{IsValidEnd}
use smart_net.Rmp.Receiver.Buffer.{IsBuffer, taken, taken_kept, in_range}
use smart_net.Rmp.Receiver.Inv.{Inv, Has, bytes, sent_between, Delivers}

module _ (size : ℕ) (stream : ℕ → List ℕ) where
  bytes_handed :
      (slots : ℕ → Option Mem) (b n : ℕ)
      → ((k : ℕ)
          → b ≤ k
          → k < b + n
          → Option.map (λ (m : Mem). m.body) (slots (k % size)) ≡ some (stream k))
      → bytes size stream (map (λ k. slots (k % size)) (range_from b n))
        ≡ map (λ k. some (stream k)) (range_from b n)
  bytes_handed slots b zero h = refl
  bytes_handed slots b (suc n) h =
      ap₂ ◌∷◌ (h b (omega arith) (omega arith))
        (bytes_handed slots (suc b) n (λ k p q. h k (omega arith) (omega arith)))

  -- A receiver whose next packet came, with `e` the last of the stored packets that follow it.
  module _ (r : Receiver) (v : Inv size stream r) (meets : r.latest + 2 ≡ r.unvalid_begin) (e : ℕ)
      (scan : IsValidEnd size r.slots r.unvalid_end r.unvalid_begin e) where
    abbrev pub left : ℕ → Option Mem
    left = taken size stream r.latest r.unvalid_begin r.unvalid_end r.slots v.buffer meets e scan

    spans : (r.unvalid_begin ≤ r.unvalid_end) × (r.unvalid_end ≤ r.latest + size)
    spans =
        in_range size stream r.latest r.unvalid_begin r.unvalid_end r.slots v.buffer meets e scan

    run_full : (k : ℕ) → r.unvalid_begin ≤ k → k ≤ e → r.slots (k % size) ≢ none
    run_full k p q = elim (ℕ_discrete k r.unvalid_begin) [
      | yes same ↦ rw same (v.buffer.first_stored (omega arith))
      | no ne ↦ scan.stored k (omega arith) q
    ]

    run_only : (k : ℕ) → k ≤ e → (k ≡ r.latest + 1) ⊎ Has size stream r k
    run_only k q = elim (dec_le k r.latest) [
      | yes old ↦ inr (inl old)
      | no new ↦ elim (ℕ_discrete k (r.latest + 1)) [
        | yes same ↦ inl same
        | no ne ↦
            inr (inr (omega arith, omega (arith, spans, scan.le_end), run_full k (omega arith) q))
      ]
    ]

    run_body :
        (k : ℕ)
        → r.unvalid_begin ≤ k
        → k < r.unvalid_begin + (e + 1 - r.unvalid_begin)
        → Option.map (λ (m : Mem). m.body) (r.slots (k % size)) ≡ some (stream k)
    run_body k p q = elim (Option-cases (r.slots (k % size))) [
      | inl n ↦ absurd (full n)
      | inr (m, s) ↦ rw s (ap some (v.buffer.carries k m (omega arith) near s))
    ]
      where
        upto : k ≤ e
        upto = omega (arith, scan.from_le)

        near : k ≤ r.latest + size
        near = omega (arith, upto, spans, scan.le_end)

        full : r.slots (k % size) ≢ none
        full = run_full k p upto

    -- The new packet and the run behind it are the stream's, in order.
    bytes_run :
        (m : Mem)
        → m.body ≡ stream (r.latest + 1)
        → bytes size stream (
            some m
            ∷ map (λ k. r.slots (k % size)) (range_from r.unvalid_begin (e + 1 - r.unvalid_begin)))
          ≡ sent_between size stream r.latest e
    bytes_run m body =
        let count : e - r.latest ≡ suc (e + 1 - r.unvalid_begin) = omega (arith, scan.from_le) in
        let first : suc (r.latest + 1) ≡ r.unvalid_begin = omega arith in
        rw (count, first, body)
          (ap (λ xs. some (stream (r.latest + 1)) ∷ xs)
            (bytes_handed r.slots r.unvalid_begin (e + 1 - r.unvalid_begin) run_body))

    left_keeps :
        (k b ue : ℕ)
        → Has size stream r k
        → (k ≤ e) ⊎ ((e < k) × (k ≤ e + size) × (left (k % size) ≢ none))
    left_keeps k b ue d = elim (dec_le k e) [
      | yes p ↦ inl p
      | no p ↦ elim d [
        | inl old ↦ absurd (omega (arith, scan.from_le))
        | inr (a, c, full) ↦ inr (
          omega arith,
          omega (arith, scan.from_le),
          λ n. full (
              sym (
                taken_kept size stream r.latest r.unvalid_begin r.unvalid_end r.slots v.buffer meets
                  e scan k (omega arith) c)
              ∙ n),
        )
      ]
    ]

    -- The receiver when all that is ready has been handed out.
    abbrev pub run_out : ℕ → ℕ → Receiver
    run_out b ue = record r {
      latest = e;
      unvalid_begin = b;
      unvalid_end = ue;
      valid_begin = 0;
      valid_end = 0;
      slots = left;
      mem = none;
    }

    pub Delivers-run :
        (b ue : ℕ) (m : Mem)
        → m.body ≡ stream (r.latest + 1)
        → ue ≤ r.unvalid_end
        → IsBuffer size stream e b ue left
        → Delivers size stream (r.latest + 1) r (run_out b ue) (
            some m
            ∷ map (λ k. r.slots (k % size)) (range_from r.unvalid_begin (e + 1 - r.unvalid_begin)))
    Delivers-run b ue m body le buf = record {
      valid = record { buffer = buf; idle = inl refl; begin_reset = refl; end_reset = refl };
      forward = omega (arith, scan.from_le);
      in_order = bytes_run m body;
      keeps = λ k d. left_keeps k b ue d;
      arrived = inl (omega (arith, scan.from_le));
      only = λ k d. elim d [
        | inl upto ↦ run_only k upto
        | inr (a, c, full) ↦
            let near : k ≤ r.latest + size = omega (arith, buf.inside k a c full, spans) in
            inr (
              inr (
                omega (arith, scan.from_le),
                near,
                λ n. full (
                    taken_kept size stream r.latest r.unvalid_begin r.unvalid_end r.slots v.buffer
                      meets e scan k a near
                    ∙ n),
              ))
      ];
      same_sender = refl;
    }
