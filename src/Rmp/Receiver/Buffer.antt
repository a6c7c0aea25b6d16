-- ===== src/Rmp/Receiver/Buffer.antt =====
-- What m_vecUnvalidPkgs holds between two packets: the window of `size` sequence numbers behind
-- the last one in order, each in the slot of its remainder.
use smart_net.Base.{
  ℕ, zero, suc, ◌+◌, ◌-◌, ◌%◌, ◌^◌, ◌≤◌, ◌<◌, ◌≡◌, ◌≢◌, ◌⊎◌, refl, sym, inl, inr, List, Option,
  none, some, arith, ◌∙◌, Option-cases, ==_iff, ==-of_ne, ℕ_discrete, dec_le, dec_lt, mod-ne,
  mod-window,
}
use smart_net.Rmp.Packet.{Mem}
use smart_net.Rmp.Receiver.{update}
use smart_net.Rmp.Receiver.Loops.{IsValidEnd, IsUnvalidBegin}

pub update_self : (f : ℕ → Option Mem) (i : ℕ) (v : Option Mem) → update f i v i ≡ v
update_self f i v = ground (arith, ==_iff i i)

pub update_ne : (f : ℕ → Option Mem) (i j : ℕ) (v : Option Mem) → i ≢ j → update f i v j ≡ f j
update_ne f i j v h = ground (arith, ==-of_ne i j)

module _ (size : ℕ) where
  -- The slots once the `n` packets from `b` on have been taken out.
  abbrev pub cleared : (ℕ → Option Mem) → ℕ → ℕ → ℕ → Option Mem
  cleared slots b zero = slots
  cleared slots b (suc n) = cleared (update slots (b % size) none) (b + 1) n

  pub cleared-none :
      (slots : ℕ → Option Mem) (b n i : ℕ) → slots i ≡ none → cleared slots b n i ≡ none
  cleared-none slots b zero i h = h
  cleared-none slots b (suc n) i h =
      cleared-none (update slots (b % size) none) (b + 1) n i (ground arith)

  pub cleared_in :
      (slots : ℕ → Option Mem) (b n k : ℕ) → b ≤ k → k < b + n → cleared slots b n (k % size) ≡ none
  cleared_in slots b zero k h l = absurd (omega arith)
  cleared_in slots b (suc n) k h l = elim (ℕ_discrete b k) [
    | yes same ↦
        cleared-none (update slots (b % size) none) (b + 1) n (k % size)
          (rw same (update_self slots (k % size) none))
    | no ne ↦ cleared_in (update slots (b % size) none) (b + 1) n k (omega arith) (omega arith)
  ]

  pub cleared_out :
      (slots : ℕ → Option Mem) (b n k : ℕ)
      → b + n ≤ k
      → k < b + size
      → cleared slots b n (k % size) ≡ slots (k % size)
  cleared_out slots b zero k h l = refl
  cleared_out slots b (suc n) k h l =
      cleared_out (update slots (b % size) none) (b + 1) n k (omega arith) (omega arith)
      ∙ update_ne slots (b % size) (k % size) none (mod-ne size b k (omega arith) l)

module _ (size : ℕ) (stream : ℕ → List ℕ) where
  -- `stream` is what the sender numbered: a stored packet is the one of its sequence number.
  pub record IsBuffer (latest unvalid_begin unvalid_end : ℕ) (slots : ℕ → Option Mem) : Type 0 where
    pub latest_small : latest + 1 < 2 ^ 64
    pub end_small : unvalid_end + 1 < 2 ^ 64
    pub range :
        ((unvalid_begin ≡ 0) × (unvalid_end ≡ 0))
        ⊎ ((latest + 1 < unvalid_begin)
            × (unvalid_begin ≤ unvalid_end)
            × (unvalid_end ≤ latest + size))
    pub inside :
        (k : ℕ)
        → latest < k
        → k ≤ latest + size
        → slots (k % size) ≢ none
        → (0 < unvalid_begin) × (unvalid_begin ≤ k) × (k ≤ unvalid_end)
    pub first_stored : 0 < unvalid_begin → slots (unvalid_begin % size) ≢ none
    pub last_stored : 0 < unvalid_begin → slots (unvalid_end % size) ≢ none
    pub carries :
        (k : ℕ) (m : Mem)
        → latest < k
        → k ≤ latest + size
        → slots (k % size) ≡ some m
        → m.body ≡ stream k

  module _ (latest ub ue : ℕ) (slots : ℕ → Option Mem) (v : IsBuffer latest ub ue slots) where
    -- A slot outside of the stored range is free.
    pub free_of_outside :
        (k : ℕ) → latest < k → k ≤ latest + size → ((k < ub) ⊎ (ue < k)) → slots (k % size) ≡ none
    free_of_outside k l h out = elim (Option-cases (slots (k % size))) [
      | inl e ↦ e
      | inr (m, e) ↦ absurd (omega (arith, v.inside k l h (λ n. cc)))
    ]

    -- The packet behind the last one in order is not stored.
    pub next_free : 0 < size → slots ((latest + 1) % size) ≡ none
    next_free pos =
        free_of_outside (latest + 1) (omega arith) (omega arith)
          (elim v.range [ inl e ↦ inr (omega arith) | inr e ↦ inl (omega arith) ])

    -- The window moves on to `latest'`: the slots of what is behind it are free, the others as
    -- they were.
    advance :
        (latest' ub' ue' : ℕ) (slots' : ℕ → Option Mem)
        → latest < latest'
        → latest' ≤ latest + size
        → latest' + 1 < 2 ^ 64
        → ue' ≤ ue
        → ((j : ℕ) → latest < j → j ≤ latest' → slots' (j % size) ≡ none)
        → ((k : ℕ) → latest' < k → k ≤ latest + size → slots' (k % size) ≡ slots (k % size))
        → ((ub' ≡ 0) × (ue' ≡ 0) ⊎ ((latest' + 1 < ub') × (ub' ≤ ue') × (ue' ≤ latest' + size)))
        → ((k : ℕ)
            → latest' < k
            → k ≤ latest + size
            → slots (k % size) ≢ none
            → (0 < ub') × (ub' ≤ k) × (k ≤ ue'))
        → (0 < ub' → slots' (ub' % size) ≢ none)
        → (0 < ub' → slots' (ue' % size) ≢ none)
        → IsBuffer latest' ub' ue' slots'
    advance latest' ub' ue' slots' lt le small ends gone kept range' inside' first' last' = record {
      latest_small = small;
      end_small = omega (arith, v.end_small);
      range = range';
      inside = λ k l h s. elim (dec_le k (latest + size)) [
        | yes near ↦ inside' k l near (λ e. s (kept k l near ∙ e))
        | no far ↦ absurd (s (behind k l h far))
      ];
      first_stored = first';
      last_stored = last';
      carries = λ k m l h e. elim (dec_le k (latest + size)) [
        | yes near ↦ v.carries k m (omega arith) near (sym (kept k l near) ∙ e)
        | no far ↦ cc (behind k l h far)
      ];
    }
      where
        behind :
            (k : ℕ)
            → latest' < k
            → k ≤ latest' + size
            → ¬ (k ≤ latest + size)
            → slots' (k % size) ≡ none
        behind k l h far =
            rw (mod-window size k (omega arith)) (gone (k - size) (omega arith) (omega arith))

    -- The next packet came, and the one behind it is not stored.
    pub IsBuffer-next :
        0 < size → latest + 2 ≢ ub → latest + 2 < 2 ^ 64 → IsBuffer (latest + 1) ub ue slots
    IsBuffer-next pos ne w =
        advance (latest + 1) ub ue slots (omega arith) (omega arith) (omega arith) (omega arith)
          (λ j l h. rw (same j l h) (next_free pos)) (λ k l h. refl) (omega arith)
          (λ k l h. v.inside k (omega arith) h) v.first_stored v.last_stored
      where
        same : (j : ℕ) → latest < j → j ≤ latest + 1 → j ≡ latest + 1
        same j l h = omega arith

    -- The next packet came, and those from `ub` on up to `e` with it.
    module _ (meets : latest + 2 ≡ ub) (e : ℕ) (scan : IsValidEnd size slots ue ub e) where
      abbrev pub taken : ℕ → Option Mem
      taken = cleared size slots ub (e + 1 - ub)

      pub in_range : (ub ≤ ue) × (ue ≤ latest + size)
      in_range = elim v.range [ inl z ↦ absurd (omega arith) | inr o ↦ (o.1, o.2) ]

      taken_gone : (j : ℕ) → latest < j → j ≤ e → taken (j % size) ≡ none
      taken_gone j l h = elim (dec_le ub j) [
        | yes p ↦ cleared_in size slots ub (e + 1 - ub) j p (omega (arith, scan.from_le))
        | no p ↦
            cleared-none size slots ub (e + 1 - ub) (j % size) (rw (next j l p) (next_free pos))
      ]
        where
          pos : 0 < size
          pos = omega (arith, in_range)

          next : (j : ℕ) → latest < j → ¬ (ub ≤ j) → j ≡ latest + 1
          next j l p = omega arith

      pub taken_kept : (k : ℕ) → e < k → k ≤ latest + size → taken (k % size) ≡ slots (k % size)
      taken_kept k l h =
          cleared_out size slots ub (e + 1 - ub) k (omega (arith, scan.from_le)) (omega arith)

      -- Some stored packets stay: the stored range begins at the next one of them.
      pub IsBuffer-activate_some :
          (b : ℕ) → e < ue → IsUnvalidBegin size slots ue (e + 1) b → IsBuffer e b ue taken
      IsBuffer-activate_some b lt u =
          advance e b ue taken (omega (arith, scan.from_le)) (omega (arith, in_range))
            (omega (arith, v.end_small)) (omega arith) taken_gone taken_kept
            (inr (past, u.le_end, omega (arith, in_range, scan.from_le)))
            (λ k l h s. elim (dec_le b k) [
              | yes p ↦ (omega arith, p, (v.inside k (omega (arith, scan.from_le)) h s).2)
              | no p ↦ absurd (s (u.free k (omega arith) (omega arith)))
            ])
            (λ _ n.
              begin_stored
                (sym (taken_kept b (omega arith) (omega (arith, in_range, u.le_end))) ∙ n))
            (λ _ n. v.last_stored (omega arith) (sym (taken_kept ue lt (in_range.1)) ∙ n))
        where
          begin_stored : slots (b % size) ≢ none
          begin_stored = elim (dec_lt b ue) [
            | yes p ↦ u.stop p
            | no p ↦
                let same : b ≡ ue = omega (arith, u.le_end) in rw same (v.last_stored (omega arith))
          ]

          past : e + 1 < b
          past = elim (ℕ_discrete b (e + 1)) [
            | yes p ↦ absurd (begin_stored (rw p (scan.stop lt)))
            | no p ↦ omega (arith, u.from_le)
          ]

      -- None is left.
      pub IsBuffer-activate_all : ue ≤ e → IsBuffer e 0 0 taken
      IsBuffer-activate_all le =
          advance e 0 0 taken (omega (arith, scan.from_le)) (omega (arith, in_range, scan.le_end))
            (omega (arith, v.end_small, scan.le_end)) (omega arith) taken_gone taken_kept
            (inl (refl, refl))
            (λ k l h s. absurd (omega (arith, v.inside k (omega (arith, scan.from_le)) h s)))
            (λ p. absurd (omega arith)) (λ p. absurd (omega arith))

    -- A packet ahead of the next one is put into its slot, which is free, and the stored range
    -- grows to hold it.
    module _ (seq : ℕ) (m : Mem) where
      abbrev pub put : ℕ → Option Mem
      put = update slots (seq % size) (some m)

      pub put_ne :
          (k : ℕ)
          → latest < seq
          → seq ≤ latest + size
          → latest < k
          → k ≤ latest + size
          → k ≢ seq
          → put (k % size) ≡ slots (k % size)
      put_ne k l h l' h' ne = update_ne slots (seq % size) (k % size) (some m) apart
        where
          apart : seq % size ≢ k % size
          apart = elim (dec_lt seq k) [
            | yes p ↦ mod-ne size seq k p (omega arith)
            | no p ↦ λ e. mod-ne size k seq (omega arith) (omega arith) (sym e)
          ]

      pub IsBuffer-put :
          (ub' ue' : ℕ)
          → m.body ≡ stream seq
          → latest + 1 < ub'
          → ub' ≤ seq
          → seq ≤ ue'
          → ue' ≤ latest + size
          → ue' + 1 < 2 ^ 64
          → ((ub ≡ 0) ⊎ ((ub' ≤ ub) × (ue ≤ ue')))
          → ((ub' ≡ seq) ⊎ ((ub' ≡ ub) × (0 < ub)))
          → ((ue' ≡ seq) ⊎ ((ue' ≡ ue) × (0 < ub)))
          → IsBuffer latest ub' ue' put
      IsBuffer-put ub' ue' body lo le ge hi small grows low high = record {
        latest_small = v.latest_small;
        end_small = small;
        range = inr (lo, omega arith, hi);
        inside = λ k l h s. elim (ℕ_discrete k seq) [
          | yes same ↦ (omega arith, omega arith, omega arith)
          | no ne ↦
              let old = v.inside k l h (λ e. s (elsewhere k l h ne ∙ e)) in
              (omega arith, omega arith, omega arith)
        ];
        first_stored = λ _.
            stored ub' (omega arith) (omega arith)
              (elim low [ inl e ↦ inl e | inr e ↦ inr (rw (e.0) (v.first_stored (e.1))) ]);
        last_stored = λ _.
            stored ue' (omega arith) hi
              (elim high [ inl e ↦ inl e | inr e ↦ inr (rw (e.0) (v.last_stored (e.1))) ]);
        carries = λ k n l h e. elim (ℕ_discrete k seq) [
          | yes same ↦
              let found : some m ≡ some n =
                sym (update_self slots (seq % size) (some m)) ∙ (rw same at e) in
              cc (found, body, same)
          | no ne ↦ v.carries k n l h (sym (elsewhere k l h ne) ∙ e)
        ];
      }
        where
          elsewhere :
              (k : ℕ) → latest < k → k ≤ latest + size → k ≢ seq → put (k % size) ≡ slots (k % size)
          elsewhere k l h ne = put_ne k (omega arith) (omega arith) l h ne

          stored :
              (k : ℕ)
              → latest < k
              → k ≤ latest + size
              → ((k ≡ seq) ⊎ (slots (k % size) ≢ none))
              → put (k % size) ≢ none
          stored k l h d = elim (ℕ_discrete k seq) [
            | yes same ↦ λ e. cc (sym (update_self slots (seq % size) (some m)) ∙ (rw same at e))
            | no ne ↦
                λ e. elim d [ inl same ↦ ne same | inr full ↦ full (sym (elsewhere k l h ne) ∙ e) ]
          ]
