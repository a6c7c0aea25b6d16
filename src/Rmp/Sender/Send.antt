-- ===== src/Rmp/Sender/Send.antt =====
-- CRmpSock::send: an application's block goes into the window.
use smart_net.Base.{
  ℕ, ◌+◌, ◌%◌, ◌^◌, ◌≤◌, ◌<◌, ◌≡◌, ◌⊎◌, inl, inr, List, none, some, arith, mod-ne, ◌==◌, true,
  false, sym, ℕ_discrete, cmnerr_suc, cmnerr_no_space, inc64_exact, ◌∙◌,
}
use smart_net.Rmp.Packet.{odata_hdr_size}
use smart_net.Rmp.Sender.{Sender, Block, framed, put, send}
use smart_net.Rmp.Sender.Window.{Inv, Holds, window_full, put_other, put_self}

module _ (win : ℕ) where
  -- The sender with one more packet in its window.
  abbrev pub with_packet : List ℕ → Sender → Sender
  with_packet payload s = record s {
    slots = put s.slots (s.tail % win) (framed s.sender_id s.tail payload);
    tail = s.tail + 1;
  }

  -- The caller's block after its headers were written.
  abbrev pub headed : Block → Block
  headed b = record b { offset = 0; hdr_len = b.hdr_len + odata_hdr_size }

  send_room :
      (b : Block) (s : Sender)
      → b.offset ≡ odata_hdr_size
      → s.tail + 1 < 2 ^ 64
      → (((s.tail + 1) % win) == (s.head % win)) ≡ false
      → send win b s ≡ some (cmnerr_suc, none, with_packet b.payload s)
  unfolding send
  send_room b s o small free = ground (arith, inc64_exact s.tail)

  send_full :
      (b : Block) (s : Sender)
      → b.offset ≡ odata_hdr_size
      → s.tail + 1 < 2 ^ 64
      → (((s.tail + 1) % win) == (s.head % win)) ≡ true
      → send win b s ≡ some (cmnerr_no_space, some (headed b), s)
  unfolding send
  send_full b s o small full = ground (arith, inc64_exact s.tail)

  send-headed : (b : Block) (s : Sender) → send win (headed b) s ≡ none
  unfolding send
  send-headed b s = ground arith

module _ (win : ℕ) (stream : ℕ → List ℕ) where
  pub with_packet-Inv :
      (s : Sender)
      → Inv win stream s
      → s.tail + 2 ≤ s.head + win
      → Inv win stream (with_packet win (stream s.tail) s)
  with_packet-Inv s v room = record {
    head_sent = v.head_sent;
    sent = omega (arith, v.sent);
    room = omega arith;
    holds = holds;
    acked = v.acked;
  }
    where
      holds : Holds win stream (with_packet win (stream s.tail) s)
      holds k pos h t = elim (ℕ_discrete k s.tail) [
        | yes same ↦ rw same (put_self s.slots (s.tail % win) _)
        | no ne ↦
            put_other s.slots (s.tail % win) (k % win) _
              (λ e. mod-ne win k s.tail (omega arith) (omega arith) (sym e))
            ∙ v.holds k pos h (omega arith)
      ]

  -- Sending a block that leaves room for the headers fails no assertion. It is refused exactly when
  -- the number of the next packet, and one more, is the window's size ahead of the head; then a
  -- second attempt with the same block aborts. Otherwise the block is the next packet of the
  -- window, and the packets that wait are unchanged.
  pub send_total :
      (b : Block) (s : Sender)
      → Inv win stream s
      → b.offset ≡ odata_hdr_size
      → stream s.tail ≡ b.payload
      → s.tail + 1 < 2 ^ 64
      → ((s.tail + 2 ≤ s.head + win)
          × (send win b s ≡ some (cmnerr_suc, none, with_packet win b.payload s))
          × Inv win stream (with_packet win b.payload s))
        ⊎ ((s.tail + 1 ≡ s.head + win)
            × (send win b s ≡ some (cmnerr_no_space, some (headed win b), s))
            × (send win (headed win b) s ≡ none))
  send_total b s v o e small =
      elim (window_full win s.head s.tail (omega (arith, v.head_sent, v.sent)) v.room) [
        | inl (full, n) ↦ inr (n, send_full win b s o small full, send-headed win b s)
        | inr (free, n) ↦ inl (n, send_room win b s o small free, rw e at (with_packet-Inv s v n))
      ]
