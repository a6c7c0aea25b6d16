-- ===== src/Rmp/System/Carried.antt =====
-- What the network brings: datagrams that a sender has multicast.
use smart_net.Base.{
  ℕ, zero, suc, ◌+◌, ◌≤◌, ◌<◌, ◌≡◌, ◌⊎◌, inl, inr, refl, sym, ◌∙◌, ap, List, [], ◌∷◌, ◌++◌, map,
  All, Option, some, arith, In, length, append_nil, range_from, append_assoc,
}
use smart_net.Rmp.Packet.{odata, Datagram}
use smart_net.Rmp.Sender.{framed}
use smart_net.Rmp.Sender.Window.{sent_onto}
use smart_net.Rmp.Receiver.Stream.{packets}
use smart_net.Rmp.Receiver.Polling.{packet}
use smart_net.Rmp.Receiver.Polled.{arrives}

-- The numbers of the data packets among datagrams.
abbrev pub data_seqs : List Datagram → List ℕ
data_seqs [] = []
data_seqs (d ∷ ds) =
    let rest = data_seqs ds in elim d.pkg [ odata seq body ↦ seq ∷ rest | _ ↦ rest ]

abbrev pub Occurs : Datagram → List Datagram → Type 0
Occurs d [] = ⊥
Occurs d (x ∷ l) = (d ≡ x) ⊎ Occurs d l

abbrev pub IsData : Datagram → Type 0
IsData d = elim d.pkg [ odata seq body ↦ Unit | _ ↦ ⊥ ]

-- The payloads of the data packets that were sent, the first one first.
abbrev pub multicast : List Datagram → List (Option (List ℕ))
multicast [] = []
multicast (d ∷ ds) =
    let before = multicast ds in
    elim d.pkg [ odata seq body ↦ before ++ (some body ∷ []) | _ ↦ before ]

module _ (stream : ℕ → List ℕ) (id : ℕ) where
  -- A data packet of the sender, with a number up to `n`.
  abbrev pub From : ℕ → Datagram → Type 0
  From n d = (k : ℕ) × (0 < k) × (k ≤ n) × (d ≡ framed id k (stream k))

  pub Occurs-sent_onto :
      (d : Datagram) (j n : ℕ) (l : List Datagram)
      → Occurs d (sent_onto stream id j n l)
      → From (j + n) d ⊎ Occurs d l
  Occurs-sent_onto d j zero l o = inr o
  Occurs-sent_onto d j (suc n) l o = elim (Occurs-sent_onto d (j + 1) n _ o) [
    | inl (k, above, below, e) ↦ inl (k, above, omega (arith, below), e)
    | inr (inl e) ↦ inl (j + 1, omega arith, omega arith, e)
    | inr (inr old) ↦ inr old
  ]

  pub From-packets :
      (n : ℕ) (l : List Datagram)
      → All (From n) l
      → (map packet l ≡ map (arrives id) (packets stream (data_seqs l)))
        × (length (packets stream (data_seqs l)) ≡ length l)
        × ((m : ℕ) → In m (data_seqs l) → (0 < m) × (m ≤ n))
  From-packets n [] a = (refl, refl, λ m h. absurd h)
  From-packets n (d ∷ l) ((k, above, below, e), a) =
      let (same, long, members) = From-packets n l a in
      rw e (
        ap (λ q. packet (framed id k (stream k)) ∷ q) same,
        ap suc long,
        λ m h. elim h [
          | inl here ↦ (omega (arith, here, above), omega (arith, here, below))
          | inr rest ↦ members m rest
        ],
      )

  pub multicast-sent_onto :
      (j n : ℕ) (l : List Datagram)
      → multicast (sent_onto stream id j n l)
        ≡ multicast l ++ map (λ k. some (stream k)) (range_from (j + 1) n)
  multicast-sent_onto j zero l = sym (append_nil (multicast l))
  multicast-sent_onto j (suc n) l =
      multicast-sent_onto (j + 1) n _
      ∙ append_assoc (multicast l) (some (stream (j + 1)) ∷ []) _
      ∙ ap
          (λ i.
            multicast l ++ (some (stream (j + 1)) ∷ map (λ k. some (stream k)) (range_from i n)))
          (omega arith)
