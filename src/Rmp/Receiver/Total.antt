-- ===== src/Rmp/Receiver/Total.antt =====
-- Every branch of a data packet at a receiver: it ends, and does what it should.
use smart_net.Base.{
  ℕ, suc, ◌+◌, ◌-◌, ◌%◌, ◌^◌, ◌≤◌, ◌<◌, ◌≡◌, ◌≢◌, ◌⊎◌, refl, ◌∙◌, inl, inr, ℤ, true, List, [], ◌∷◌,
  Option, none, some, arith, inc64, inc64_exact, length, ℕ_discrete, dec_le, dec_lt, is_suc, lt→ltb,
}
use smart_net.Rmp.Packet.{Mem, Pkg, odata_hdr_size}
use smart_net.Rmp.Receiver.{Receiver, drain, deliver, has_data}
use smart_net.Rmp.Receiver.Loops.{
  IsValidEnd, IsUnvalidBegin, find_valid_end_lem, find_unvalid_begin_lem,
}
use smart_net.Rmp.Receiver.Buffer.{cleared, IsBuffer-activate_some, IsBuffer-activate_all}
use smart_net.Rmp.Receiver.Drain.{IsAckOf, handed, drain_stop, drain_slots, drain_mem}
use smart_net.Rmp.Receiver.Inv.{Inv, Delivers, CanTake}
use smart_net.Rmp.Receiver.Odata.{
  holding, handle_next, handle_repeat, handle_ahead, accept_plain, accept_meets, run_end,
  next_begin, activate_some, activate_all,
}
use smart_net.Rmp.Receiver.Deliver.{
  widen_lem, store_lem, new_begin, new_end, with_range, stored_ahead, moved_on, Delivers-repeat,
  Delivers-ahead, Delivers-plain,
}
use smart_net.Rmp.Receiver.Activate.{run_out, Delivers-run}

module _ (size : ℕ) (stream : ℕ → List ℕ) where
  -- The acknowledgement that ends the loop changes nothing of what was delivered.
  Delivers-ack :
      (seq : ℕ) (r t s : Receiver) (out : List (Option Mem))
      → Delivers size stream seq r t out
      → IsAckOf t s
      → Delivers size stream seq r s out
  Delivers-ack seq r t s out d k = record {
    valid = record {
      buffer = rw (k.same_latest, k.same_begin, k.same_end, k.same_slots) d.valid.buffer;
      idle = rw k.same_mem d.valid.idle;
      begin_reset = k.same_valid_begin ∙ d.valid.begin_reset;
      end_reset = k.same_valid_end ∙ d.valid.end_reset;
    };
    forward = rw k.same_latest d.forward;
    in_order = rw k.same_latest d.in_order;
    keeps = λ j h. rw (k.same_latest, k.same_slots) (d.keeps j h);
    arrived = rw (k.same_latest, k.same_slots) d.arrived;
    only = λ j h. d.only j (rw (k.same_latest, k.same_slots) at h);
    same_sender = k.same_sender ∙ d.same_sender;
  }

  module _ (udp_send : Pkg → ℤ) (sends : (p : Pkg) → is_suc (udp_send p) ≡ true) (fuel : ℕ)
      (enough : size ≤ fuel) (r : Receiver) (v : Inv size stream r) where
    -- The packet `seq` is processed without an abort, and what it does.
    abbrev pub Ends : ℕ → Type 0
    Ends seq =
        (out : List (Option Mem)) × (s : Receiver) × (deliver size udp_send (suc (suc fuel)) seq
            (stream seq) r
          ≡ some (out, s))
        × Delivers size stream seq r s out

    repeat_Ends : (seq : ℕ) → seq ≤ r.latest → Ends seq
    unfolding deliver
    repeat_Ends seq l = (
      [],
      _,
      rw (handle_repeat size seq (stream seq) r l v.buffer.latest_small),
      Delivers-repeat size stream seq r v l,
    )

    pub deliver_ahead :
        (seq : ℕ)
        → r.latest + 1 < seq
        → seq ≤ r.latest + size
        → seq < 2 ^ 64
        → r.slots (seq % size) ≡ none
        → deliver size udp_send (suc (suc fuel)) seq (stream seq) r
          ≡ some ([], stored_ahead size stream seq r)
    unfolding deliver
    deliver_ahead seq l h w free = rw (
      handle_ahead size seq (stream seq) r l w,
      widen_lem size seq (holding (stream seq) r) (omega arith) h w,
      store_lem size seq (with_range (new_begin seq r) (new_end seq r) (holding (stream seq) r))
          free,
    )

    ahead_Ends :
        (seq : ℕ)
        → r.latest + 1 < seq
        → seq ≤ r.latest + size
        → seq + 1 < 2 ^ 64
        → r.slots (seq % size) ≡ none
        → Ends seq
    ahead_Ends seq l h w free = (
      [],
      stored_ahead size stream seq r,
      deliver_ahead seq l h (omega arith) free,
      Delivers-ahead size stream seq r v l h w,
    )

    plain_Ends :
        0 < size
        → r.latest + 2 < 2 ^ 64
        → 0 < length (stream (r.latest + 1))
        → r.latest + 2 ≢ r.unvalid_begin
        → Ends (r.latest + 1)
    unfolding deliver
    plain_Ends pos w full ne =
        let body = stream (r.latest + 1) in
        let m : Mem = record { offset = odata_hdr_size; body = body } in
        let r' = record (holding body r) { latest = r.latest + 1 } in
        let (s, e, k) =
          drain_stop udp_send sends size fuel (record r' { mem = none }) refl (inl v.begin_reset) in
        (
          some m ∷ [],
          s,
          rw
              (
                handle_next size (r.latest + 1) body r refl (omega arith),
                accept_plain size (holding body r) w ne,
              )
              (rw (drain_mem udp_send sends size (suc fuel) r' (lt→ltb _ _ full)) (rw e)),
          Delivers-ack (r.latest + 1) r (moved_on size stream r) s (some m ∷ [])
              (Delivers-plain size stream r m pos v w ne refl) k,
        )

    -- The drain of a run that reaches up to `e`.
    drain_run :
        (b ue e : ℕ) (m : Mem)
        → has_data (some m) ≡ true
        → 0 < r.unvalid_begin
        → r.unvalid_begin ≤ e
        → e + 1 < 2 ^ 64
        → e + 1 ≤ r.unvalid_begin + size
        → (s : Receiver) × (drain size udp_send (suc (suc fuel)) (record r {
          mem = some m;
          latest = e;
          valid_begin = r.unvalid_begin;
          valid_end = e;
          unvalid_begin = b;
          unvalid_end = ue;
        })
            ≡ some (some m ∷ handed size r.slots r.unvalid_begin (e + 1 - r.unvalid_begin), s))
          × IsAckOf
              (record r {
                latest = e;
                unvalid_begin = b;
                unvalid_end = ue;
                valid_begin = 0;
                valid_end = 0;
                slots = cleared size r.slots r.unvalid_begin (e + 1 - r.unvalid_begin);
                mem = none;
              })
              s
    drain_run b ue e m full p q w l =
        let r' = record r {
          mem = none;
          latest = e;
          valid_begin = r.unvalid_begin;
          valid_end = e;
          unvalid_begin = b;
          unvalid_end = ue;
        } in
        let (s, h, k) =
          drain_slots udp_send sends size (e + 1 - r.unvalid_begin) (suc fuel) r' refl p
            (omega arith) w (omega arith) (omega arith) in
        (
          s,
          rw (drain_mem udp_send sends size (suc fuel) (record r' { mem = some m }) full) (rw h),
          k,
        )

    module _ (meets : r.latest + 2 ≡ r.unvalid_begin) where
      spans : (r.unvalid_begin ≤ r.unvalid_end) × (r.unvalid_end ≤ r.latest + size)
      spans = elim v.buffer.range [ inl z ↦ absurd (omega arith) | inr o ↦ (o.1, o.2) ]

      scan : IsValidEnd size r.slots r.unvalid_end r.unvalid_begin (run_end size r)
      scan =
          find_valid_end_lem size r.slots r.unvalid_end (r.unvalid_end - r.unvalid_begin)
            r.unvalid_begin spans.0 (omega arith) v.buffer.end_small

      next_scan :
          run_end size r < r.unvalid_end
          → IsUnvalidBegin size r.slots r.unvalid_end (run_end size r + 1) (next_begin size r)
      next_scan lt =
          let next : inc64 (run_end size r) ≡ run_end size r + 1 =
            inc64_exact (run_end size r) (omega (arith, v.buffer.end_small)) in
          rw next (
            find_unvalid_begin_lem size r.slots r.unvalid_end (r.unvalid_end - (run_end size r + 1))
              (run_end size r + 1) (omega arith) (omega arith) v.buffer.end_small)

      run_Ends : r.latest + 2 < 2 ^ 64 → 0 < length (stream (r.latest + 1)) → Ends (r.latest + 1)
      unfolding deliver
      run_Ends w full =
          let body = stream (r.latest + 1) in
          let m : Mem = record { offset = odata_hdr_size; body = body } in
          let e = run_end size r in
          let b = next_begin size r in
          let ue = r.unvalid_end in
          let shifted = record (holding body r) { latest = r.latest + 1 } in
          elim (dec_lt e ue) [
            | yes lt ↦
                let (s, h, k) =
                  drain_run b ue e m (lt→ltb _ _ full) (omega arith) scan.from_le
                    (omega (arith, v.buffer.end_small)) (omega (arith, spans)) in
                (
                  some m ∷ handed size r.slots r.unvalid_begin (e + 1 - r.unvalid_begin),
                  s,
                  rw
                      (
                        handle_next size (r.latest + 1) body r refl (omega arith),
                        accept_meets size (holding body r) w meets,
                        activate_some size shifted lt,
                      )
                      h,
                  Delivers-ack (r.latest + 1) r (run_out size stream r v meets e scan b ue) s _
                      (Delivers-run size stream r v meets e scan b ue m refl (omega arith) (
                        IsBuffer-activate_some size stream r.latest r.unvalid_begin ue r.slots
                          v.buffer meets e scan b lt (next_scan lt)))
                      k,
                )
            | no ge ↦
                let (s, h, k) =
                  drain_run 0 0 e m (lt→ltb _ _ full) (omega arith) scan.from_le
                    (omega (arith, v.buffer.end_small, scan.le_end))
                    (omega (arith, spans, scan.le_end)) in
                (
                  some m ∷ handed size r.slots r.unvalid_begin (e + 1 - r.unvalid_begin),
                  s,
                  rw
                      (
                        handle_next size (r.latest + 1) body r refl (omega arith),
                        accept_meets size (holding body r) w meets,
                        activate_all size shifted (omega arith),
                      )
                      h,
                  Delivers-ack (r.latest + 1) r (run_out size stream r v meets e scan 0 0) s _
                      (Delivers-run size stream r v meets e scan 0 0 m refl (omega arith) (
                        IsBuffer-activate_all size stream r.latest r.unvalid_begin ue r.slots
                          v.buffer meets e scan (omega arith)))
                      k,
                )
          ]

    -- A data packet that the receiver can take, at a receiver between two packets, is processed to
    -- the end when every send is accepted: the receiver hands out the sender's packets behind the
    -- last one handed out, in order and without a gap or a repetition, keeps what has arrived, and
    -- is again a receiver between two packets.
    pub deliver_total : (seq : ℕ) → 0 < size → CanTake size stream seq r → Ends seq
    deliver_total seq pos (w, full, room) = elim (dec_le seq r.latest) [
      | yes old ↦ repeat_Ends seq old
      | no new ↦ elim (ℕ_discrete seq (r.latest + 1)) [
        | yes same ↦ rw same (elim (ℕ_discrete (r.latest + 2) r.unvalid_begin) [
          | yes meets ↦ run_Ends meets (omega arith) (rw same at full)
          | no ne ↦ plain_Ends pos (omega arith) (rw same at full) ne
        ])
        | no ahead ↦ let (near, free) = fits new room in ahead_Ends seq (omega arith) near w free
      ]
    ]
      where
        fits :
            ¬ (seq ≤ r.latest)
            → ((seq ≤ r.latest) ⊎ ((seq ≤ r.latest + size) × (r.slots (seq % size) ≡ none)))
            → (seq ≤ r.latest + size) × (r.slots (seq % size) ≡ none)
        fits new (inl old) = absurd (new old)
        fits new (inr p) = p
