-- ===== src/Rmp/Receiver/Deliver.antt =====
-- One data packet at a receiver between two packets: each branch of
-- CRmpSock::recvep_handle_odata, with the loop that hands out what became ready.
use smart_net.Base.{
  ℕ, ◌+◌, ◌-◌, ◌%◌, ◌^◌, ◌≤◌, ◌<◌, ◌≡◌, ◌≢◌, refl, sym, ◌∙◌, inl, inr, List, [], ◌∷◌, Option, none,
  some, arith, ℕ_discrete, dec_le, ltb, if◌then◌else◌, ◌==◌, sub64_exact,
}
use smart_net.Rmp.Packet.{Mem, empty_mem, odata_hdr_size}
use smart_net.Rmp.Receiver.{Receiver, update, widen, store}
use smart_net.Rmp.Receiver.Buffer.{IsBuffer, IsBuffer-put, IsBuffer-next, put_ne, update_self}
use smart_net.Rmp.Receiver.Inv.{Inv, sent_between, Delivers}

abbrev pub new_begin : ℕ → Receiver → ℕ
new_begin seq r =
    if r.unvalid_begin == 0 then seq else if ltb seq r.unvalid_begin then seq else r.unvalid_begin

abbrev pub new_end : ℕ → Receiver → ℕ
new_end seq r =
    if r.unvalid_begin == 0
    then seq
    else if ltb seq r.unvalid_begin
    then r.unvalid_end
    else if ltb r.unvalid_end seq
    then seq
    else r.unvalid_end

abbrev pub with_range : ℕ → ℕ → Receiver → Receiver
with_range b e r = record r { unvalid_begin = b; unvalid_end = e }

module _ (size : ℕ) where
  pub widen_lem :
      (seq : ℕ) (r : Receiver)
      → r.latest < seq
      → seq ≤ r.latest + size
      → seq < 2 ^ 64
      → widen size seq r ≡ some (with_range (new_begin seq r) (new_end seq r) r)
  unfolding widen
  widen_lem seq r l h w = ground (arith, sub64_exact seq r.latest)

  pub store_lem :
      (seq : ℕ) (r : Receiver)
      → r.slots (seq % size) ≡ none
      → store size seq r ≡ some (record r { slots = update r.slots (seq % size) r.mem; mem = none })
  unfolding store
  store_lem seq r h = rw h

module _ (size : ℕ) (stream : ℕ → List ℕ) where
  IsBuffer-ahead :
      (seq : ℕ) (r : Receiver) (m : Mem)
      → IsBuffer size stream r.latest r.unvalid_begin r.unvalid_end r.slots
      → r.latest + 1 < seq
      → seq ≤ r.latest + size
      → seq + 1 < 2 ^ 64
      → m.body ≡ stream seq
      → IsBuffer size stream r.latest
          (new_begin seq r)
          (new_end seq r)
          (update r.slots (seq % size) (some m))
  IsBuffer-ahead seq r m v l h w body =
      IsBuffer-put size stream r.latest r.unvalid_begin r.unvalid_end r.slots v seq m
        (new_begin seq r) (new_end seq r) body (ground arith) (ground arith) (ground arith)
        (ground arith) (ground arith) (ground arith) (ground arith) (ground arith)

  sent_between_self : (n : ℕ) → sent_between size stream n n ≡ []
  sent_between_self n = let e : n - n ≡ 0 = omega arith in rw e

  -- A packet that was handed out before is dropped.
  pub Delivers-repeat :
      (seq : ℕ) (r : Receiver)
      → Inv size stream r
      → seq ≤ r.latest
      → Delivers size stream seq r (record r { mem = some empty_mem }) []
  Delivers-repeat seq r v l = record {
    valid = record {
      buffer = v.buffer;
      idle = inr refl;
      begin_reset = v.begin_reset;
      end_reset = v.end_reset;
    };
    forward = omega arith;
    in_order = sym (sent_between_self r.latest);
    keeps = λ k h. h;
    arrived = inl l;
    only = λ k h. inr h;
    same_sender = refl;
  }

  update_ne_none :
      (f : ℕ → Option Mem) (i j : ℕ) (m : Mem) → f j ≢ none → update f i (some m) j ≢ none
  update_ne_none f i j m h = ground arith

  -- A packet ahead of the next one waits in its slot.
  abbrev pub stored_ahead : ℕ → Receiver → Receiver
  stored_ahead seq r = record (with_range (new_begin seq r) (new_end seq r) r) {
    slots =
        update r.slots (seq % size) (some (record { offset = odata_hdr_size; body = stream seq }));
    mem = none;
  }

  pub Delivers-ahead :
      (seq : ℕ) (r : Receiver)
      → Inv size stream r
      → r.latest + 1 < seq
      → seq ≤ r.latest + size
      → seq + 1 < 2 ^ 64
      → Delivers size stream seq r (stored_ahead seq r) []
  Delivers-ahead seq r v l h w = record {
    valid = record {
      buffer =
          IsBuffer-ahead seq r (record { offset = odata_hdr_size; body = stream seq }) v.buffer l h
            w refl;
      idle = inl refl;
      begin_reset = v.begin_reset;
      end_reset = v.end_reset;
    };
    forward = omega arith;
    in_order = sym (sent_between_self r.latest);
    keeps = λ k d. elim d [
      | inl old ↦ inl old
      | inr (a, b, c) ↦ inr (a, b, update_ne_none r.slots (seq % size) (k % size) _ c)
    ];
    only = λ k d. elim (ℕ_discrete k seq) [
      | yes same ↦ inl same
      | no ne ↦ elim d [
        | inl old ↦ inr (inl old)
        | inr (a, b, c) ↦ inr (inr (a, b, λ n. c (elsewhere k a b ne ∙ n)))
      ]
    ];
    arrived = inr (omega arith, h, λ e. cc (sym (update_self r.slots (seq % size) (some _)) ∙ e));
    same_sender = refl;
  }
    where
      elsewhere :
          (k : ℕ)
          → r.latest < k
          → k ≤ r.latest + size
          → k ≢ seq
          → (stored_ahead seq r).slots (k % size) ≡ r.slots (k % size)
      elsewhere k a b ne =
          put_ne size stream r.latest r.unvalid_begin r.unvalid_end r.slots v.buffer seq
            (record { offset = odata_hdr_size; body = stream seq }) k (omega arith) h a b ne

  -- The next packet, when the one behind it is not stored.
  abbrev pub moved_on : Receiver → Receiver
  moved_on r = record r { latest = r.latest + 1; valid_begin = 0; valid_end = 0; mem = none }

  pub Delivers-plain :
      (r : Receiver) (m : Mem)
      → 0 < size
      → Inv size stream r
      → r.latest + 2 < 2 ^ 64
      → r.latest + 2 ≢ r.unvalid_begin
      → m.body ≡ stream (r.latest + 1)
      → Delivers size stream (r.latest + 1) r (moved_on r) (some m ∷ [])
  Delivers-plain r m pos v w ne body = record {
    valid = record {
      buffer =
          IsBuffer-next size stream r.latest r.unvalid_begin r.unvalid_end r.slots v.buffer pos ne
            w;
      idle = inl refl;
      begin_reset = refl;
      end_reset = refl;
    };
    forward = omega arith;
    in_order = let one : r.latest + 1 - r.latest ≡ 1 = omega arith in rw one (rw body);
    keeps = λ k d. elim d [
      | inl old ↦ inl (omega arith)
      | inr (a, b, c) ↦ elim (dec_le k (r.latest + 1)) [
        | yes p ↦ inl p
        | no p ↦ inr (omega arith, omega arith, c)
      ]
    ];
    arrived = inl (omega arith);
    only = λ k d. elim d [
      | inl upto ↦ elim (ℕ_discrete k (r.latest + 1)) [
        | yes same ↦ inl same
        | no ne ↦ inr (inl (omega arith))
      ]
      | inr (a, b, c) ↦ inr (inr (omega arith, near k a b c, c))
    ];
    same_sender = refl;
  }
    where
      near :
          (k : ℕ)
          → r.latest + 1 < k
          → k ≤ r.latest + 1 + size
          → r.slots (k % size) ≢ none
          → k ≤ r.latest + size
      near k a b c =
          let moved =
            IsBuffer-next size stream r.latest r.unvalid_begin r.unvalid_end r.slots v.buffer pos ne
              w in
          elim v.buffer.range [
            | inl z ↦ omega (arith, moved.inside k a b c)
            | inr z ↦ omega (arith, moved.inside k a b c)
          ]
