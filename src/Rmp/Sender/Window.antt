-- ===== src/Rmp/Sender/Window.antt =====
-- The window of CRmpSock's sending half: what m_vecSendWin holds between m_ui64ValidSendingDataHead
-- and m_ui64ValidSendingDataTail.
use smart_net.Base.{
  ℕ, ◌+◌, ◌%◌, ◌≤◌, ◌<◌, ◌≡◌, ◌≢◌, ◌⊎◌, inl, inr, refl, List, Option, some, arith, All, mod-ne,
  ◌==◌, ==-of_ne, ==_iff, true, sym, ℕ_discrete, ◌∷◌, zero, suc, ℤ, is_suc, is_io_err,
  is_send_pending, ◌||◌, cmnerr_suc, false,
}
use native.Mathlib.Nat.{add-mod_right}
use smart_net.Rmp.Packet.{Datagram}
use smart_net.Rmp.Sender.{Sender, RecverInfo, framed, put, open_sender}

-- What udp_send can return.
abbrev pub IsAnswer : ℤ → Type 0
IsAnswer r = (r ≡ cmnerr_suc) ⊎ (((is_io_err r || is_send_pending r) ≡ true) × (is_suc r ≡ false))

module _ (stream : ℕ → List ℕ) where
  -- `l` after the `n` packets behind the number `k` were sent one after the other.
  abbrev pub sent_onto : (id k n : ℕ) → List Datagram → List Datagram
  sent_onto id k zero l = l
  sent_onto id k (suc n) l = sent_onto id (k + 1) n (framed id (k + 1) (stream (k + 1)) ∷ l)

module _ (win : ℕ) (stream : ℕ → List ℕ) where
  -- Every packet that is not yet acknowledged by all is in its slot.
  abbrev pub Holds : Sender → Type 0
  Holds s =
      (k : ℕ)
      → 0 < k
      → s.head ≤ k
      → k < s.tail
      → s.slots (k % win) ≡ some (framed s.sender_id k (stream k))

  -- At most `win - 1` packets wait, and acknowledgements are about packets that were sent.
  pub record Inv (s : Sender) : Type 0 where
    pub head_sent : s.head ≤ s.sending + 1
    pub sent : s.sending < s.tail
    pub room : s.tail + 1 ≤ s.head + win
    pub holds : Holds s
    pub acked : All (λ (e : ℕ × RecverInfo). e.1.last_recved ≤ s.sending) s.recvers

  pub open_sender-Inv : (id speed hb keep : ℕ) → 2 ≤ win → Inv (open_sender win id speed hb keep)
  unfolding open_sender
  open_sender-Inv id speed hb keep h = record {
    head_sent = omega arith;
    sent = omega arith;
    room = omega arith;
    holds = λ k p q r. absurd (omega arith);
    acked = tt;
  }

-- A window is full when the slot behind the tail is that of the head.
pub window_full :
    (win head tail : ℕ)
    → head ≤ tail
    → tail + 1 ≤ head + win
    → ((((tail + 1) % win) == (head % win)) ≡ true × (tail + 1 ≡ head + win))
      ⊎ ((((tail + 1) % win) == (head % win)) ≡ false × (tail + 2 ≤ head + win))
window_full win head tail le room = elim (ℕ_discrete (tail + 1) (head + win)) [
  | yes full ↦ inl ((==_iff _ _).1 (rw full (add-mod_right head win)), full)
  | no ne ↦ inr (
    ==-of_ne _ _ (λ e. mod-ne win head (tail + 1) (omega arith) (omega arith) (sym e)),
    omega arith,
  )
]

pub put_other : (f : ℕ → Option Datagram) (i j : ℕ) (d : Datagram) → i ≢ j → put f i d j ≡ f j
put_other f i j d h = rw (==-of_ne i j h) refl

pub put_self : (f : ℕ → Option Datagram) (i : ℕ) (d : Datagram) → put f i d i ≡ some d
put_self f i d = ground arith
