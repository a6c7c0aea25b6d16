-- ===== src/Rmp/Sender/Ack.antt =====
-- CRmpSock::sendep_handle_ack: a receiver tells what it has, and the window moves on.
use smart_net.Base.{ℕ, ◌+◌, ◌≤◌, ◌<◌, ◌≡◌, ◌⊎◌, List, leb, ◌==◌, if◌then◌else◌, All}
use smart_net.Rmp.Sender.{Sender, RecverInfo, Recvers, modify, note_ack, first_recved, scan_recvers}
use smart_net.Rmp.Sender.Window.{Inv}
use smart_net.Rmp.Sender.Recvers.{info, heard_within}

-- The sender with other counters of its speed.
abbrev paced : (helper win speed last : ℕ) → Sender → Sender
paced helper win speed last s = record s {
  speed_helper = helper;
  last_win = win;
  send_speed = speed;
  last_sending = last;
}

module _ (win : ℕ) (stream : ℕ → List ℕ) (place : ℕ → Recvers → ℕ) where
  -- The receivers that are known after an acknowledgement, and the oldest number among them.
  abbrev noted : (now seq id : ℕ) → Sender → Recvers
  noted now seq id s = modify place id (note_ack now seq) s.recvers

  abbrev scanned : (now seq id : ℕ) → Sender → Recvers × ℕ
  scanned now seq id s =
      scan_recvers now s.max_keep_alive (first_recved (noted now seq id s)) (noted now seq id s)

  -- A receiver that has acknowledged `seq` too.
  abbrev pub heard_of : (now seq : ℕ) → RecverInfo → RecverInfo
  heard_of now seq i = record {
    last_recved = if leb seq i.last_recved then i.last_recved else seq;
    naks = i.naks;
    last_update = now;
  }

  -- What an acknowledgement does to a sender `s` that becomes `t`.
  pub record Acks (now seq id : ℕ) (s t : Sender) : Type 0 where
    -- The receiver is known with what it has acknowledged, and the others as before; then those that
    -- were silent for too long are forgotten.
    pub table : Recvers
    pub entries :
        (k : ℕ)
        → info k table ≡ (if k == id then heard_of now seq (info k s.recvers) else info k s.recvers)
    pub still_known : t.recvers ≡ heard_within now s.max_keep_alive table
    pub valid : Inv win stream t
    pub forward : s.head ≤ t.head
    pub same_tail : t.tail ≡ s.tail
    pub same_sending : t.sending ≡ s.sending
    pub same_slots : t.slots ≡ s.slots
    pub same_out : t.out ≡ s.out
    -- The window moves on only over packets that every receiver which is still known has.
    pub safe :
        (t.head ≡ s.head) ⊎ All (λ (e : ℕ × RecverInfo). t.head ≤ e.1.last_recved + 1) t.recvers
    -- It moves on over all that these have, and the first of the table.
    pub moved :
        (n : ℕ)
        → n ≤ first_recved table
        → All (λ (e : ℕ × RecverInfo). n ≤ e.1.last_recved) t.recvers
        → s.head ≤ n
        → n < t.head
