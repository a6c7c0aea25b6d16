-- ===== src/Rmp/Receiver/Loops.antt =====
-- The two scans of CRmpSock::recvep_handle_odata over the stored packets.
use smart_net.Base.{
  ℕ, zero, suc, ◌+◌, ◌%◌, ◌^◌, ◌≤◌, ◌<◌, ◌≡◌, ◌≢◌, Option, none, arith, ltb, tests, ltb→ge,
  Bool-cases, Option-cases, inl, inr, inc64, inc64_exact, ℕ_discrete,
}
use smart_net.Rmp.Packet.{Mem}
use smart_net.Rmp.Receiver.{find_valid_end, find_unvalid_begin}

module _ (size : ℕ) (slots : ℕ → Option Mem) (unvalid_end : ℕ) where
  -- Where the first scan stops: everything behind `b` up to `e` is stored, the next one is not.
  pub record IsValidEnd (b e : ℕ) : Type 0 where
    pub from_le : b ≤ e
    pub le_end : e ≤ unvalid_end
    pub stored : (k : ℕ) → b < k → k ≤ e → slots (k % size) ≢ none
    pub stop : e < unvalid_end → slots ((e + 1) % size) ≡ none

  IsValidEnd-stop : (b : ℕ) → b ≤ unvalid_end → slots ((b + 1) % size) ≡ none → IsValidEnd b b
  IsValidEnd-stop b h n = record {
    from_le = omega arith;
    le_end = h;
    stored = λ k p q. absurd (omega arith);
    stop = λ _. n;
  }

  IsValidEnd-end : (b : ℕ) → b ≤ unvalid_end → unvalid_end ≤ b → IsValidEnd b b
  IsValidEnd-end b h g = record {
    from_le = omega arith;
    le_end = h;
    stored = λ k p q. absurd (omega arith);
    stop = λ p. absurd (omega arith);
  }

  IsValidEnd-step :
      (b e : ℕ) → slots ((b + 1) % size) ≢ none → IsValidEnd (b + 1) e → IsValidEnd b e
  IsValidEnd-step b e s v = record {
    from_le = omega arith;
    le_end = v.le_end;
    stored = λ k p q. elim (ℕ_discrete k (b + 1)) [
      | yes same ↦ rw same s
      | no ne ↦ v.stored k (omega arith) q
    ];
    stop = v.stop;
  }

  pub find_valid_end_lem :
      (fuel b : ℕ)
      → b ≤ unvalid_end
      → unvalid_end ≤ b + fuel
      → unvalid_end + 1 < 2 ^ 64
      → IsValidEnd b (find_valid_end size fuel slots unvalid_end b)
  unfolding find_valid_end
  find_valid_end_lem zero b h k w = IsValidEnd-end b h (omega arith)
  find_valid_end_lem (suc fuel) b h k w = elim (Bool-cases (ltb b unvalid_end)) [
    | inl more ↦
        let next : inc64 b ≡ b + 1 = inc64_exact b (omega tests) in
        elim (Option-cases (slots (inc64 b % size))) [
          | inl free ↦ rw (more, find_valid_end) (rw free (IsValidEnd-stop b h (rw next at free)))
          | inr (m, full) ↦
              rw (more, find_valid_end)
                (rw full (
                  rw next (
                    IsValidEnd-step b (find_valid_end size fuel slots unvalid_end (b + 1))
                      (λ e. cc (rw next at full))
                      (find_valid_end_lem fuel (b + 1) (omega tests) (omega arith) w))))
        ]
    | inr done ↦ rw (done, find_valid_end) (IsValidEnd-end b h (omega tests))
  ]

  -- Where the second scan stops: nothing from `b` on up to `e` is stored, and `e` is, unless it is
  -- the end of the range.
  pub record IsUnvalidBegin (b e : ℕ) : Type 0 where
    pub from_le : b ≤ e
    pub le_end : e ≤ unvalid_end
    pub free : (k : ℕ) → b ≤ k → k < e → slots (k % size) ≡ none
    pub stop : e < unvalid_end → slots (e % size) ≢ none

  IsUnvalidBegin-stop :
      (b : ℕ) → b ≤ unvalid_end → (b < unvalid_end → slots (b % size) ≢ none) → IsUnvalidBegin b b
  IsUnvalidBegin-stop b h s = record {
    from_le = omega arith;
    le_end = h;
    free = λ k p q. absurd (omega arith);
    stop = s;
  }

  IsUnvalidBegin-step :
      (b e : ℕ) → slots (b % size) ≡ none → IsUnvalidBegin (b + 1) e → IsUnvalidBegin b e
  IsUnvalidBegin-step b e s v = record {
    from_le = omega arith;
    le_end = v.le_end;
    free =
        λ k p q. elim (ℕ_discrete k b) [ yes same ↦ rw same s | no ne ↦ v.free k (omega arith) q ];
    stop = v.stop;
  }

  pub find_unvalid_begin_lem :
      (fuel b : ℕ)
      → b ≤ unvalid_end
      → unvalid_end ≤ b + fuel
      → unvalid_end + 1 < 2 ^ 64
      → IsUnvalidBegin b (find_unvalid_begin size fuel slots unvalid_end b)
  unfolding find_unvalid_begin
  find_unvalid_begin_lem zero b h k w = IsUnvalidBegin-stop b h (λ p. absurd (omega arith))
  find_unvalid_begin_lem (suc fuel) b h k w = elim (Bool-cases (ltb b unvalid_end)) [
    | inl more ↦ elim (Option-cases (slots (b % size))) [
      | inl free ↦
          rw (more, find_unvalid_begin)
            (rw free (
              rw (inc64_exact b (omega tests)) (
                IsUnvalidBegin-step b (find_unvalid_begin size fuel slots unvalid_end (b + 1)) free
                  (find_unvalid_begin_lem fuel (b + 1) (omega tests) (omega arith) w))))
      | inr (m, full) ↦
          rw (more, find_unvalid_begin) (rw full (IsUnvalidBegin-stop b h (λ p e. cc)))
    ]
    | inr done ↦
        rw (done, find_unvalid_begin)
          (IsUnvalidBegin-stop b h (λ p. absurd (omega (tests, ltb→ge b unvalid_end done))))
  ]
