-- ===== src/Rmp/Receiver/Drain.antt =====
-- The loop over CRmpSock::get_next_recved_data: what it hands out, and what it leaves.
use mathlib.Core.List.{List, [], ◌∷◌, map}
use native.Mathlib.Numerals.{add-one}
use smart_net.Base.{
  ℕ, zero, suc, ◌+◌, ◌%◌, ◌^◌, ◌≤◌, ◌<◌, ◌≡◌, ◌≢◌, refl, ap, ap₂, ℤ, Bool, true, false, Option,
  none, some, arith, is_suc, ◌>>=◌, range_from, inc64_exact, mod-ne, Option-cases, inl, inr, ◌⊎◌,
  cmnerr_suc, cmnerr_no_data,
}
use smart_net.Rmp.Packet.{Mem, Pkg, ack}
use smart_net.Rmp.Receiver.{
  Receiver, update, has_data, send_asserted, set_ack, get_next_recved_data, drain,
}
use smart_net.Rmp.Receiver.Buffer.{cleared, update_ne}

-- What an acknowledgement leaves alone.
pub record IsAckOf (r s : Receiver) : Type 0 where
  pub same_latest : s.latest ≡ r.latest
  pub same_valid_begin : s.valid_begin ≡ r.valid_begin
  pub same_valid_end : s.valid_end ≡ r.valid_end
  pub same_begin : s.unvalid_begin ≡ r.unvalid_begin
  pub same_end : s.unvalid_end ≡ r.unvalid_end
  pub same_mem : s.mem ≡ r.mem
  pub same_slots : s.slots ≡ r.slots
  pub same_sender : s.sender_id ≡ r.sender_id

-- The `n` packets from `b` on, as the loop hands them out.
abbrev pub handed : ℕ → (ℕ → Option Mem) → ℕ → ℕ → List (Option Mem)
handed size slots b n = map (λ k. slots (k % size)) (range_from b n)

-- The end of the loop.
abbrev pub at_rest : Receiver → Receiver
at_rest r = record r { valid_begin = 0; valid_end = 0 }

module _ (udp_send : Pkg → ℤ) (sends : (p : Pkg) → is_suc (udp_send p) ≡ true) where
  pub send_asserted_lem :
      (p : Pkg) (r : Receiver) → send_asserted udp_send p r ≡ some (record r { out = p ∷ r.out })
  unfolding send_asserted
  send_asserted_lem p r = rw (sends p)

  set_ack_keeps : (flag : Bool) (r s : Receiver) → set_ack udp_send flag r ≡ some s → IsAckOf r s
  unfolding set_ack send_asserted
  set_ack_keeps flag r s h = ground arith

  set_ack-ne-none : (flag : Bool) (r : Receiver) → set_ack udp_send flag r ≢ none
  unfolding set_ack send_asserted
  set_ack-ne-none flag r h = ground (arith, sends (ack r.latest r.epid))

  pub set_ack_total :
      (flag : Bool) (r : Receiver)
      → (s : Receiver) × (set_ack udp_send flag r ≡ some s) × IsAckOf r s
  set_ack_total flag r = elim (Option-cases (set_ack udp_send flag r)) [
    | inl n ↦ absurd (set_ack-ne-none flag r n)
    | inr (s, e) ↦ (s, e, set_ack_keeps flag r s e)
  ]

  module _ (size : ℕ) where
    get_next_mem :
        (r : Receiver)
        → has_data r.mem ≡ true
        → get_next_recved_data size udp_send r ≡ some (cmnerr_suc, r.mem, record r { mem = none })
    unfolding get_next_recved_data
    get_next_mem r h = ground arith

    get_next_slot :
        (r : Receiver)
        → has_data r.mem ≡ false
        → 0 < r.valid_begin
        → r.valid_begin ≤ r.valid_end
        → r.valid_end + 1 < 2 ^ 64
        → get_next_recved_data size udp_send r
          ≡ some (
            cmnerr_suc,
            r.slots (r.valid_begin % size),
            record r {
              slots = update r.slots (r.valid_begin % size) none;
              valid_begin = r.valid_begin + 1;
            },
          )
    unfolding get_next_recved_data
    get_next_slot r h p q w = ground (arith, inc64_exact r.valid_begin)

    get_next_none :
        (r : Receiver)
        → has_data r.mem ≡ false
        → ((r.valid_begin ≡ 0) ⊎ (r.valid_end < r.valid_begin))
        → get_next_recved_data size udp_send r
          ≡ (set_ack udp_send false (at_rest r) >>= λ s. some (cmnerr_no_data, none, s))
    unfolding get_next_recved_data
    get_next_none r h d = ground arith

    pub drain_stop :
        (fuel : ℕ) (r : Receiver)
        → has_data r.mem ≡ false
        → ((r.valid_begin ≡ 0) ⊎ (r.valid_end < r.valid_begin))
        → (s : Receiver) × (drain size udp_send (suc fuel) r ≡ some ([], s)) × IsAckOf (at_rest r) s
    unfolding drain
    drain_stop fuel r h d =
        let (s, e, k) = set_ack_total false (at_rest r) in
        (s, rw (get_next_none r h d, drain) (rw e), k)

    -- What m_pMem holds is handed out first.
    pub drain_mem :
        (fuel : ℕ) (r : Receiver)
        → has_data r.mem ≡ true
        → drain size udp_send (suc fuel) r
          ≡ (drain size udp_send fuel (record r { mem = none }) >>= λ (ps, s). some (r.mem ∷ ps, s))
    unfolding drain
    drain_mem fuel r h = rw (get_next_mem r h, drain)

    handed-update_from :
        (slots : ℕ → Option Mem) (b c n : ℕ)
        → b < c
        → c + n ≤ b + size
        → handed size (update slots (b % size) none) c n ≡ handed size slots c n
    handed-update_from slots b c zero p l = refl
    handed-update_from slots b c (suc n) p l =
        ap₂ ◌∷◌ (update_ne slots (b % size) (c % size) none (mod-ne size b c p (omega arith)))
          (handed-update_from slots b (suc c) n (omega arith) (omega arith))

    handed-update :
        (slots : ℕ → Option Mem) (b n : ℕ)
        → n < size
        → handed size (update slots (b % size) none) (b + 1) n ≡ handed size slots (suc b) n
    handed-update slots b n l =
        rw (add-one b) (handed-update_from slots b (suc b) n (omega arith) (omega arith))

    -- `n` stored packets are left to hand out.
    pub drain_slots :
        (n fuel : ℕ) (r : Receiver)
        → r.mem ≡ none
        → 0 < r.valid_begin
        → r.valid_begin + n ≡ r.valid_end + 1
        → r.valid_end + 1 < 2 ^ 64
        → n ≤ size
        → n < fuel
        → (s : Receiver) × (drain size udp_send fuel r
            ≡ some (handed size r.slots r.valid_begin n, s))
          × IsAckOf (record (at_rest r) { slots = cleared size r.slots r.valid_begin n }) s
    unfolding drain
    drain_slots n zero r h p q w l f = absurd (omega arith)
    drain_slots zero (suc fuel) r h p q w l f = drain_stop fuel r (rw h) (inr (omega arith))
    drain_slots (suc n) (suc fuel) r h p q w l f =
        let r' = record r {
          slots = update r.slots (r.valid_begin % size) none;
          valid_begin = r.valid_begin + 1;
        } in
        let (s, e, k) =
          drain_slots n fuel r' h (omega arith) (omega arith) w (omega arith) (omega arith) in
        (
          s,
          rw (get_next_slot r (rw h) p (omega arith) w, drain)
              (rw e (
                ap (λ ps. some (r.slots (r.valid_begin % size) ∷ ps, s))
                  (handed-update r.slots r.valid_begin n (omega arith)))),
          k,
        )
