-- ===== src/Rmp/Sender.antt =====
-- The sending half of CRmpSock in libcomm_net/src/network/sn_socket_impl.cpp.
-- m_vecSendWin is a function of the index, read and written only at an index modulo its size
-- `win` (1000000 in the source). `net n` is what udp_send returns at its nth call: the answer of the
-- socket. m_mapRecvers is a dense_hash_map of another library: an association list in the order of
-- iteration, into which `place` puts a new key. Time is an argument.
pub mod Window
pub mod Send
pub mod Sending
pub mod Resend
pub mod Nak
pub mod Polling
pub mod Ack
mod Recvers
mod Tests
use smart_net.Base.{
  ℕ, zero, suc, ◌+◌, ◌*◌, ◌-◌, ◌/◌, ◌%◌, ◌^◌, ℤ, pos, negsuc, Bool, true, false, not, ◌&&◌, ◌||◌,
  Option, none, some, List, [], ◌∷◌, ltb, leb, ◌==◌, if◌then◌else◌, is_some, is_suc, ◌>>=◌, ◌>>◌,
  cmn_assert, inc64, sub64, sub32, length, cmnerr_suc, cmnerr_no_space, is_send_pending, is_io_err,
}
use smart_net.Rmp.Packet.{Pkg, odata, hb, nak, ack, Datagram, odata_hdr_size}

-- The block that an application sends: m_ui32Offset, and the bytes of headers and of payload
-- that m_ui32Len counts.
pub record Block : Type 0 where
  pub offset : ℕ
  pub hdr_len : ℕ
  pub payload : List ℕ

-- SRecverInfo; its ui32Naks is only counted.
pub record RecverInfo : Type 0 where
  pub last_recved : ℕ
  pub naks : ℕ
  pub last_update : ℕ

abbrev pub Recvers : Type 0
Recvers = List (ℕ × RecverInfo)

pub record Sender : Type 0 where
  pub sender_id : ℕ
  pub slots : ℕ → Option Datagram  -- m_vecSendWin
  pub head : ℕ  -- m_ui64ValidSendingDataHead
  pub tail : ℕ  -- m_ui64ValidSendingDataTail
  pub sending : ℕ  -- m_ui64SendingSeqNo
  pub last_sending : ℕ
  pub last_win : ℕ  -- m_ui64LastSendAndAckWinSize
  pub speed_helper : ℕ
  pub last_hb_time : ℕ
  pub hb_interval : ℕ
  pub max_keep_alive : ℕ
  pub naks : ℕ
  pub send_speed : ℕ
  pub recvers : Recvers
  pub calls : ℕ  -- how often udp_send was called
  pub out : List Datagram  -- what was sent, the last one first

abbrev pub max_nak_cnt : ℕ
max_nak_cnt = 1000

abbrev pub cut_speed : ℕ
cut_speed = 10000

abbrev pub inc_speed : ℕ
inc_speed = 1000

abbrev pub inc_speed_interval : ℕ
inc_speed_interval = 10000

abbrev pub put : (ℕ → Option Datagram) → ℕ → Datagram → ℕ → Option Datagram
put f i d j = if i == j then some d else f j

-- What CRmpSock::open assigns.
unfoldable pub open_sender : (win id speed hb_interval max_keep_alive : ℕ) → Sender
open_sender win id speed hb_interval max_keep_alive = record {
  sender_id = id;
  slots = λ _. none;
  head = 0;
  tail = 1;
  sending = 0;
  last_sending = 0;
  last_win = win / 100;
  speed_helper = 0;
  last_hb_time = 0;
  hb_interval = hb_interval;
  max_keep_alive = max_keep_alive;
  naks = 0;
  send_speed = speed;
  recvers = [];
  calls = 0;
  out = [];
}

-- The datagram that a sender makes of a payload.
abbrev pub framed : ℕ → ℕ → List ℕ → Datagram
framed id seq payload = record { src_id = id; pkg = odata seq payload }

-- m_mapRecvers[id]: the entry is found, or made where `place` says.
pub is_known : ℕ → Recvers → Bool
is_known id [] = false
is_known id ((j, i) ∷ m) = if j == id then true else is_known id m

pub change : ℕ → (RecverInfo → RecverInfo) → Recvers → Recvers
change id f [] = []
change id f ((j, i) ∷ m) = if j == id then (j, f i) ∷ m else (j, i) ∷ change id f m

pub insert_at : ℕ → ℕ × RecverInfo → Recvers → Recvers
insert_at zero e m = e ∷ m
insert_at (suc n) e [] = e ∷ []
insert_at (suc n) e (x ∷ m) = x ∷ insert_at n e m

abbrev pub no_info : RecverInfo
no_info = record { last_recved = 0; naks = 0; last_update = 0 }

pub modify : (ℕ → Recvers → ℕ) → ℕ → (RecverInfo → RecverInfo) → Recvers → Recvers
modify place id f m =
    if is_known id m then change id f m else insert_at (place id m) (id, f no_info) m

abbrev pub note_nak : ℕ → RecverInfo → RecverInfo
note_nak now i = record i { last_update = now; naks = (i.naks + 1) % 2 ^ 32 }

abbrev pub note_ack : ℕ → ℕ → RecverInfo → RecverInfo
note_ack now seq i = record i {
  last_update = now;
  last_recved = if ltb seq i.last_recved then i.last_recved else seq;
}

-- m_mapRecvers.begin()->second.ui64LastRecvedSeqNo.
pub first_recved : Recvers → ℕ
first_recved [] = 0
first_recved ((j, i) ∷ m) = i.last_recved

-- The loop over m_mapRecvers, which erases who was silent for too long: who stays, and the oldest
-- number that they acknowledged.
pub scan_recvers : (now max_keep_alive oldest : ℕ) → Recvers → Recvers × ℕ
scan_recvers now max oldest [] = ([], oldest)
scan_recvers now max oldest ((j, i) ∷ m) =
    if ltb max (sub64 now i.last_update)
    then scan_recvers now max oldest m
    else (let (kept, o) =
          scan_recvers now max (if ltb i.last_recved oldest then i.last_recved else oldest) m in
        ((j, i) ∷ kept, o))

-- How CRmpSock::sendep_handle_nak notes that a receiver asked: many such packets slow the sender.
pub note_asked : (place : ℕ → Recvers → ℕ) → (now id : ℕ) → Sender → Sender
note_asked place now id s =
    let asked = record s { recvers = modify place id (note_nak now) s.recvers } in
    let counted = (s.naks + 1) % 2 ^ 32 in
    if ltb max_nak_cnt counted
    then record asked { naks = 0; send_speed = sub32 s.send_speed cut_speed }
    else record asked { naks = counted }

-- The end of CRmpSock::sendep_handle_ack.
pub control_speed : Sender → Sender
control_speed s =
    let helped = (s.speed_helper + 1) % 2 ^ 32 in
    let faster = ltb 1000 helped && ltb inc_speed_interval (sub64 s.sending s.last_sending) in
    if ltb (sub64 s.sending s.head) s.last_win
    then record s {
      speed_helper = helped;
      last_win = if faster then sub64 s.sending s.head else s.last_win;
      send_speed = if faster then (s.send_speed + inc_speed) % 2 ^ 32 else s.send_speed;
      last_sending = s.sending;
    }
    else record s { speed_helper = 0 }

module _ (place : ℕ → Recvers → ℕ) where
  -- CRmpSock::sendep_handle_ack.
  pub sendep_handle_ack : (now seq id : ℕ) → Sender → Option (ℤ × Sender)
  sendep_handle_ack now seq id s =
      let noted = modify place id (note_ack now seq) s.recvers in
      let (kept, oldest) = scan_recvers now s.max_keep_alive (first_recved noted) noted in
      if ltb seq s.head
      then none
      else if ltb oldest s.head
      then some (cmnerr_suc, record s { recvers = kept })
      else some (cmnerr_suc, control_speed (record s { recvers = kept; head = inc64 oldest }))

module _ (win : ℕ) where
  -- CRmpSock::send: the code, the caller's pointer afterwards and the sender. The headers are in the
  -- block before the window is known to have room.
  pub send : Block → Sender → Option (ℤ × Option Block × Sender)
  send b s = do
    cmn_assert (b.offset == odata_hdr_size)
    let headed = record b { offset = 0; hdr_len = b.hdr_len + odata_hdr_size }
    (if (inc64 s.tail % win) == (s.head % win)
        then some (cmnerr_no_space, some headed, s)
        else some (
          cmnerr_suc,
          none,
          record s {
            slots = put s.slots (s.tail % win) (framed s.sender_id s.tail b.payload);
            tail = inc64 s.tail;
          },
        ))

  -- Whether packets that wait for an acknowledgement stop the sender, or nothing waits to be sent.
  abbrev pub is_held : Sender → Bool
  is_held s = ltb (win / 10) (sub64 (inc64 s.sending) s.head) || ((inc64 s.sending) == s.tail)

  module _ (net : ℕ → ℤ) where
    unfoldable pub udp_send : Datagram → Sender → ℤ × Sender
    udp_send d s =
        let r = net s.calls in
        (r, record s { calls = suc s.calls; out = if is_suc r then d ∷ s.out else s.out })

    -- What is sent when no packet may be sent: a heartbeat, after an interval.
    unfoldable pub heartbeat : ℕ → Sender → Option (ℤ × Sender)
    heartbeat now s =
        let started = record s {
          last_hb_time = if s.last_hb_time == 0 then now else s.last_hb_time;
        } in
        if ltb s.hb_interval (sub64 now started.last_hb_time)
        then (do
          let (r, sent) =
              udp_send (record { src_id = s.sender_id; pkg = hb s.sending s.head }) started
          cmn_assert (is_suc r)
          some (cmnerr_suc, sent))
        else some (cmnerr_suc, started)

    -- The loop of CRmpSock::handle_can_send for a sender. A null pointer in a slot is an abort.
    unfoldable pub send_loop : ℕ → ℕ → Sender → Option (ℤ × Sender)
    send_loop zero now s = none
    send_loop (suc fuel) now s = elim (is_held s) [
      | true ↦ heartbeat now s
      | false ↦ do
        cmn_assert (ltb s.sending s.tail)
        d ← s.slots (inc64 s.sending % win)
        let (r, sent) = udp_send d s
        elim (is_io_err r || is_send_pending r) [
          | true ↦ some (r, sent)
          | false ↦ send_loop fuel now (record sent { sending = inc64 s.sending })
        ]
    ]

    -- `do udp_send while SEND_PENDING`.
    pub send_until_taken : ℕ → Datagram → Sender → Option (ℤ × Sender)
    send_until_taken zero d s = none
    send_until_taken (suc fuel) d s =
        let (r, sent) = udp_send d s in
        elim (is_send_pending r) [ true ↦ send_until_taken fuel d sent | false ↦ some (r, sent) ]

    -- `for (ui64 = begin; ui64 <= end; ui64++)`: `fuel` bounds the packets, `tries` the calls for one.
    pub resend_loop : (tries fuel : ℕ) → ℕ → ℕ → Sender → Option (ℤ × Sender)
    resend_loop tries zero k end s = none
    resend_loop tries (suc fuel) k end s = elim (leb k end) [
      | false ↦ some (cmnerr_suc, s)
      | true ↦ do
        d ← s.slots (k % win)
        (r, sent) ← send_until_taken tries d s
        elim (is_suc r) [
          | false ↦ some (r, sent)
          | true ↦ resend_loop tries fuel (inc64 k) end sent
        ]
    ]

    module _ (place : ℕ → Recvers → ℕ) where
      -- CRmpSock::sendep_handle_nak.
      pub sendep_handle_nak :
          (tries fuel now : ℕ) → (begin end id : ℕ) → Sender → Option (ℤ × Sender)
      sendep_handle_nak tries fuel now begin end id s =
          if ltb begin s.head || leb s.tail end
          then none
          else resend_loop tries fuel begin end (note_asked place now id s)
