-- ===== src/Rmp/Receiver/Stream.antt =====
-- Any number of data packets, in any order.
use mathlib.Core.List.{map-append}
use smart_net.Base.{
  ℕ, suc, ◌+◌, ◌-◌, ◌%◌, ◌^◌, ◌≤◌, ◌<◌, ◌≡◌, ◌⊎◌, refl, sym, ◌∙◌, ap, ap₂, inl, inr, ℤ, true, List,
  [], ◌∷◌, ◌++◌, map, Option, none, some, arith, range_from, range_from-append, length, dec_le,
  Option-cases, is_suc, In, Distinct, ◌↔◌,
}
use smart_net.Rmp.Packet.{Mem, Pkg}
use smart_net.Rmp.Receiver.{Receiver, deliver_all, open_receiver}
use smart_net.Rmp.Receiver.Buffer.{next_free}
use smart_net.Rmp.Receiver.Inv.{Inv, Has, bytes, sent_between, Delivers, CanTake}
use smart_net.Rmp.Receiver.Total.{deliver_total}

-- The packets of the sender with these numbers.
abbrev pub packets : (ℕ → List ℕ) → List ℕ → List (ℕ × List ℕ)
packets stream = map (λ k. (k, stream k))

module _ (size : ℕ) (stream : ℕ → List ℕ) where
  sent_between-append :
      (a b c : ℕ)
      → a ≤ b
      → b ≤ c
      → sent_between size stream a b ++ sent_between size stream b c ≡ sent_between size stream a c
  sent_between-append a b c h k =
      let split : c - a ≡ (b - a) + (c - b) = omega arith in
      let there : b + 1 ≡ (a + 1) + (b - a) = omega arith in
      rw (there, split)
        (sym (map-append _ (range_from (a + 1) (b - a)) (range_from ((a + 1) + (b - a)) (c - b)))
          ∙ ap (map (λ k. some (stream k))) (range_from-append (a + 1) (b - a) (c - b)))

  -- What a run of packets does to a receiver.
  pub record Streams (seqs : List ℕ) (r s : Receiver) (out : List (Option Mem)) : Type 0 where
    pub valid : Inv size stream s
    pub forward : r.latest ≤ s.latest
    pub in_order : bytes size stream out ≡ sent_between size stream r.latest s.latest
    pub keeps : (k : ℕ) → Has size stream r k → Has size stream s k
    pub arrived : (k : ℕ) → In k seqs → Has size stream s k
    pub only : (k : ℕ) → Has size stream s k → In k seqs ⊎ Has size stream r k
    pub same_sender : s.sender_id ≡ r.sender_id

  Streams-nil : (r : Receiver) → Inv size stream r → Streams [] r r []
  Streams-nil r v = record {
    valid = v;
    forward = omega arith;
    in_order = let none_new : r.latest - r.latest ≡ 0 = omega arith in rw none_new;
    keeps = λ k h. h;
    arrived = λ k h. absurd h;
    only = λ k h. inr h;
    same_sender = refl;
  }

  Streams-cons :
      (seq : ℕ) (seqs : List ℕ) (r t s : Receiver) (out outs : List (Option Mem))
      → Delivers size stream seq r t out
      → Streams seqs t s outs
      → Streams (seq ∷ seqs) r s (out ++ outs)
  Streams-cons seq seqs r t s out outs d v = record {
    valid = v.valid;
    forward = omega (arith, d.forward, v.forward);
    in_order =
        map-append _ out outs
        ∙ ap₂ ◌++◌ d.in_order v.in_order
        ∙ sent_between-append r.latest t.latest s.latest d.forward v.forward;
    keeps = λ k h. v.keeps k (d.keeps k h);
    arrived =
        λ k h. elim h [ inl same ↦ rw same (v.keeps seq d.arrived) | inr rest ↦ v.arrived k rest ];
    only = λ k h. elim (v.only k h) [
      | inl late ↦ inl (inr late)
      | inr early ↦ elim (d.only k early) [ inl same ↦ inl (inl same) | inr old ↦ inr old ]
    ];
    same_sender = v.same_sender ∙ d.same_sender;
  }

  -- The packets that are still to come do not wait in a slot.
  abbrev Fresh : List ℕ → Receiver → Type 0
  Fresh seqs r = (k : ℕ) → In k seqs → r.latest < k → r.slots (k % size) ≡ none

  Fresh-step :
      (seq : ℕ) (seqs : List ℕ) (r t : Receiver) (out : List (Option Mem))
      → ((k : ℕ) → In k seqs → k ≤ size)
      → ¬ In seq seqs
      → Fresh (seq ∷ seqs) r
      → Delivers size stream seq r t out
      → Fresh seqs t
  Fresh-step seq seqs r t out near apart fresh d k h l = elim (Option-cases (t.slots (k % size))) [
    | inl free ↦ free
    | inr (m, full) ↦ absurd (stale m full)
  ]
    where
      stale : (m : Mem) → t.slots (k % size) ≡ some m → ⊥
      stale m full = elim (d.only k (inr (l, omega (arith, near k h), λ n. cc))) [
        | inl same ↦ apart (rw same at h)
        | inr (inl old) ↦ omega (arith, d.forward)
        | inr (inr (a, b, c)) ↦ c (fresh k (inr h) a)
      ]

  module _ (udp_send : Pkg → ℤ) (sends : (p : Pkg) → is_suc (udp_send p) ≡ true) (fuel : ℕ)
      (enough : size ≤ fuel) (pos : 0 < size) (small : size + 1 < 2 ^ 64) where
    pub deliver_all_from :
        (seqs : List ℕ) (r : Receiver)
        → Inv size stream r
        → ((k : ℕ) → In k seqs → k ≤ size)
        → ((k : ℕ) → In k seqs → 0 < length (stream k))
        → Distinct seqs
        → Fresh seqs r
        → (out : List (Option Mem)) × (s : Receiver) × (deliver_all size udp_send
              (suc (suc fuel))
              (packets stream seqs)
              r
            ≡ some (out, s))
          × Streams seqs r s out
    unfolding deliver_all
    deliver_all_from [] r v near full apart fresh = ([], r, refl, Streams-nil r v)
    deliver_all_from (seq ∷ seqs) r v near full apart fresh =
        let (out, t, e, d) =
          deliver_total size stream udp_send sends fuel enough r v seq pos can_take in
        let (outs, s, e', v') =
          deliver_all_from seqs t d.valid (λ k h. near k (inr h)) (λ k h. full k (inr h)) apart.1
            (Fresh-step seq seqs r t out (λ k h. near k (inr h)) apart.0 fresh d) in
        (out ++ outs, s, rw (e, e'), Streams-cons seq seqs r t s out outs d v')
      where
        can_take : CanTake size stream seq r
        can_take = (
          omega (arith, near seq (inl refl)),
          full seq (inl refl),
          elim (dec_le seq r.latest) [
            | yes old ↦ inl old
            | no new ↦ inr (omega (arith, near seq (inl refl)), fresh seq (inl refl) (omega arith))
          ],
        )

  -- A receiver that was just opened.
  pub open_receiver-Inv : (id cnt : ℕ) → Inv size stream (open_receiver id cnt)
  unfolding open_receiver
  open_receiver-Inv id cnt = record {
    buffer = record {
      latest_small = omega arith;
      end_small = omega arith;
      range = inl (refl, refl);
      inside = λ k a b h. absurd (h refl);
      first_stored = λ p. absurd (omega arith);
      last_stored = λ p. absurd (omega arith);
      carries = λ k m a b e. cc;
    };
    idle = inl refl;
    begin_reset = refl;
    end_reset = refl;
  }

  -- All packets up to the `n`th have arrived, so all have been handed out.
  latest_of_all :
      (n : ℕ) (s : Receiver)
      → 0 < size
      → Inv size stream s
      → ((k : ℕ) → 0 < k → k ≤ n → Has size stream s k)
      → n ≤ s.latest
  latest_of_all n s pos v all = elim (dec_le n s.latest) [
    | yes p ↦ p
    | no p ↦ elim (all (s.latest + 1) (omega arith) (omega arith)) [
      | inl old ↦ absurd (omega arith)
      | inr (a, b, full) ↦
          absurd (
            full
              (next_free size stream s.latest s.unvalid_begin s.unvalid_end s.slots v.buffer pos))
    ]
  ]

  latest_of_only : (n : ℕ) (s : Receiver) → ((k : ℕ) → Has size stream s k → k ≤ n) → s.latest ≤ n
  latest_of_only n s all = all s.latest (inl (omega arith))

  pub open_receiver-Fresh : (seqs : List ℕ) (id cnt : ℕ) → Fresh seqs (open_receiver id cnt)
  unfolding open_receiver
  open_receiver-Fresh seqs id cnt k h l = refl

  Streams-complete :
      (n id cnt : ℕ) (seqs : List ℕ) (s : Receiver) (out : List (Option Mem))
      → 0 < size
      → ((k : ℕ) → In k seqs ↔ ((0 < k) × (k ≤ n)))
      → Streams seqs (open_receiver id cnt) s out
      → (s.latest ≡ n) × (bytes size stream out ≡ sent_between size stream 0 n)
  unfolding open_receiver
  Streams-complete n id cnt seqs s out pos members v =
      (reached, v.in_order ∙ ap (sent_between size stream 0) reached)
    where
      bounded : (k : ℕ) → Has size stream s k → k ≤ n
      bounded k h = elim (v.only k h) [
        | inl come ↦ omega (arith, (members k).0 come)
        | inr (inl old) ↦ omega arith
        | inr (inr held) ↦ absurd (held.2 refl)
      ]

      reached : s.latest ≡ n
      reached = omega (
        arith,
        latest_of_only n s bounded,
        latest_of_all n s pos v.valid (λ k p q. v.arrived k ((members k).1 (p, q))),
      )

-- The packets 1 to n of a sender, each once and in any order, at a receiver that was just opened
-- and whose size is at least n, positive and small, with every payload non-empty and every send of
-- an acknowledgement accepted: no assertion fails, the latest number is n, and the application is
-- given exactly these packets in the sender's order.
pub deliver_all_any_order :
    (size n fuel id cnt : ℕ) (stream : ℕ → List ℕ) (udp_send : Pkg → ℤ) (seqs : List ℕ)
    → ((p : Pkg) → is_suc (udp_send p) ≡ true)
    → 0 < size
    → n ≤ size
    → size ≤ fuel
    → size + 1 < 2 ^ 64
    → ((k : ℕ) → In k seqs ↔ ((0 < k) × (k ≤ n)))
    → ((k : ℕ) → 0 < length (stream k))
    → Distinct seqs
    → (out : List (Option Mem)) × (s : Receiver) × (deliver_all size udp_send
          (suc (suc fuel))
          (packets stream seqs)
          (open_receiver id cnt)
        ≡ some (out, s))
      × (s.latest ≡ n)
      × (bytes size stream out ≡ sent_between size stream 0 n)
deliver_all_any_order size n fuel id cnt stream udp_send seqs sends pos le enough small members full
      apart =
    let (out, s, e, v) =
      deliver_all_from size stream udp_send sends fuel enough pos small seqs (open_receiver id cnt)
        (open_receiver-Inv size stream id cnt) (λ k h. omega (arith, (members k).0 h))
        (λ k h. full k) apart (open_receiver-Fresh size stream seqs id cnt) in
    let (reached, order) = Streams-complete size stream n id cnt seqs s out pos members v in
    (out, s, e, reached, order)
