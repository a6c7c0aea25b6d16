-- ===== src/Rmp/Receiver/Inv.antt =====
-- The receiver between two packets, once what was ready has been handed out.
use smart_net.Base.{
  ℕ, ◌+◌, ◌-◌, ◌%◌, ◌≤◌, ◌<◌, ◌^◌, ◌≡◌, ◌≢◌, ◌⊎◌, List, map, Option, none, some, range_from, length,
}
use mathlib.Core.Option
use smart_net.Rmp.Packet.{Mem, empty_mem}
use smart_net.Rmp.Receiver.{Receiver}
use smart_net.Rmp.Receiver.Buffer.{IsBuffer}

module _ (size : ℕ) (stream : ℕ → List ℕ) where
  pub record Inv (r : Receiver) : Type 0 where
    pub buffer : IsBuffer size stream r.latest r.unvalid_begin r.unvalid_end r.slots
    pub idle : (r.mem ≡ none) ⊎ (r.mem ≡ some empty_mem)
    pub begin_reset : r.valid_begin ≡ 0
    pub end_reset : r.valid_end ≡ 0

  -- The packet `k` has arrived: it was handed out, or it waits in its slot.
  abbrev pub Has : Receiver → ℕ → Type 0
  Has r k = (k ≤ r.latest) ⊎ ((r.latest < k) × (k ≤ r.latest + size) × (r.slots (k % size) ≢ none))

  -- The bytes of packets handed out.
  abbrev pub bytes : List (Option Mem) → List (Option (List ℕ))
  bytes = map (Option.map (λ (m : Mem). m.body))

  -- The packets of the sender that follow the first `n`, up to the `m`th.
  abbrev pub sent_between : ℕ → ℕ → List (Option (List ℕ))
  sent_between n m = map (λ k. some (stream k)) (range_from (n + 1) (m - n))

  -- What the packet `seq` does to a receiver `r` that becomes `s` and hands out `out`.
  pub record Delivers (seq : ℕ) (r s : Receiver) (out : List (Option Mem)) : Type 0 where
    pub valid : Inv s
    pub forward : r.latest ≤ s.latest
    pub in_order : bytes out ≡ sent_between r.latest s.latest
    pub keeps : (k : ℕ) → Has r k → Has s k
    pub arrived : Has s seq
    pub only : (k : ℕ) → Has s k → (k ≡ seq) ⊎ Has r k
    pub same_sender : s.sender_id ≡ r.sender_id

  -- A packet that the receiver can take: one that it has handed out, or one of its window that is
  -- not stored yet. The others end in an assertion.
  abbrev pub CanTake : ℕ → Receiver → Type 0
  CanTake seq r =
      (seq + 1 < 2 ^ 64)
      × (0 < length (stream seq))
      × ((seq ≤ r.latest) ⊎ ((seq ≤ r.latest + size) × (r.slots (seq % size) ≡ none)))
