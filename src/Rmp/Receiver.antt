-- ===== src/Rmp/Receiver.antt =====
-- The receiving half of CRmpSock in libcomm_net/src/network/sn_socket_impl.cpp.
-- m_vecUnvalidPkgs is a function of the index: the code reads and writes it only at an index modulo
-- its size, which is the parameter `size` (100000 in the source). `udp_send` is the code that
-- sendto() makes CRmpSock::udp_send return for a packet. Time is an argument.
mod Loops
mod Buffer
mod Drain
pub mod Inv
pub mod Odata
pub mod Deliver
pub mod Activate
pub mod Total
pub mod Stream
pub mod Aborts
pub mod Timers
pub mod Polling
pub mod Polled
mod SameSender
mod Tests
use smart_net.Base.{
  ℕ, zero, suc, ◌-◌, ◌%◌, ℤ, Bool, true, false, not, ◌&&◌, ◌||◌, Option, none, some, List, [], ◌∷◌,
  ◌++◌, ltb, leb, ◌==◌, if◌then◌else◌, is_some, is_suc, ◌>>=◌, ◌>>◌, cmn_assert, inc64, sub64,
  cmnerr_suc, cmnerr_no_data, cmnerr_odata_ready, is_odata_ready,
}
use smart_net.Rmp.Packet.{
  Pkg, odata, hb, nak, ack, Datagram, Mem, empty_mem, odata_hdr_size, get_len,
}

pub record Receiver : Type 0 where
  pub sender_id : ℕ
  pub epid : ℕ
  pub send_ack_cnt : ℕ
  pub latest : ℕ  -- m_ui64LatestRecvedValidSeqNo
  pub app_confirm_ack : ℕ
  pub app_confirm_ack_tmp : ℕ
  pub valid_begin : ℕ
  pub valid_end : ℕ
  pub unvalid_begin : ℕ
  pub unvalid_end : ℕ
  pub last_send_ack_time : ℕ
  pub last_send_nak_time : ℕ
  pub mem : Option Mem  -- m_pMem
  pub slots : ℕ → Option Mem  -- m_vecUnvalidPkgs
  pub out : List Pkg  -- what was sent, the last one first

abbrev pub update : (ℕ → Option Mem) → ℕ → Option Mem → ℕ → Option Mem
update f i v j = if i == j then v else f j

-- What CRmpSock::open assigns.
unfoldable pub open_receiver : ℕ → ℕ → Receiver
open_receiver sender_id ack_cnt = record {
  sender_id = sender_id;
  epid = 0;
  send_ack_cnt = ack_cnt;
  latest = 0;
  app_confirm_ack = 0;
  app_confirm_ack_tmp = 0;
  valid_begin = 0;
  valid_end = 0;
  unvalid_begin = 0;
  unvalid_end = 0;
  last_send_ack_time = 0;
  last_send_nak_time = 0;
  mem = none;
  slots = λ _. none;
  out = [];
}

-- `(NULL != m_pMem) && (m_pMem->get_len() > 0)`
abbrev pub has_data : Option Mem → Bool
has_data none = false
has_data (some m) = ltb 0 (get_len m)

abbrev pub send_ack_interval : ℕ
send_ack_interval = 10000

abbrev pub send_nak_interval : ℕ
send_nak_interval = 1000

module _ (udp_send : Pkg → ℤ) where
  -- `CMN_ASSERT(CMNERR_SUC == udp_send(…))`
  pub send_asserted : Pkg → Receiver → Option Receiver
  send_asserted p r = do cmn_assert (is_suc (udp_send p)); some (record r { out = p ∷ r.out })

  pub set_ack : Bool → Receiver → Option Receiver
  set_ack flag r =
      let confirmed = record r { app_confirm_ack = r.latest } in
      let due = flag || leb r.send_ack_cnt (sub64 r.latest r.app_confirm_ack_tmp) in
      let noted = if flag then confirmed else record confirmed { app_confirm_ack_tmp = r.latest } in
      if ltb 0 r.latest && due then send_asserted (ack r.latest r.epid) noted else some confirmed

  -- The datagram's answer is lost if udp_send fails; its code is returned.
  pub recvep_handle_hb : ℕ → Receiver → Option (ℤ × Receiver)
  recvep_handle_hb latest_seq r =
      let p = nak (inc64 r.latest) latest_seq r.epid in
      if ltb r.latest latest_seq
      then some (udp_send p, record r { mem = some empty_mem; out = p ∷ r.out })
      else some (cmnerr_suc, record r { mem = some empty_mem })

module _ (size : ℕ) where
  -- `while (end < unvalid_end) { if (NULL == slot[end + 1]) break; end++; }`
  pub find_valid_end : ℕ → (ℕ → Option Mem) → ℕ → ℕ → ℕ
  find_valid_end zero slots unvalid_end e = e
  find_valid_end (suc fuel) slots unvalid_end e = elim (ltb e unvalid_end) [
    | true ↦ elim (slots (inc64 e % size)) [
      | none ↦ e
      | some m ↦ find_valid_end fuel slots unvalid_end (inc64 e)
    ]
    | false ↦ e
  ]

  -- `while (begin < unvalid_end) { if (NULL != slot[begin]) break; begin++; }`
  pub find_unvalid_begin : ℕ → (ℕ → Option Mem) → ℕ → ℕ → ℕ
  find_unvalid_begin zero slots unvalid_end b = b
  find_unvalid_begin (suc fuel) slots unvalid_end b = elim (ltb b unvalid_end) [
    | true ↦ elim (slots (b % size)) [
      | none ↦ find_unvalid_begin fuel slots unvalid_end (inc64 b)
      | some m ↦ b
    ]
    | false ↦ b
  ]

  -- "activate the wrong ordered data": the run of stored packets that the new one completes.
  pub activate : Receiver → Receiver
  activate r =
      let begin = r.unvalid_begin in
      let e = find_valid_end (r.unvalid_end - begin) r.slots r.unvalid_end begin in
      let begin' = find_unvalid_begin (r.unvalid_end - inc64 e) r.slots r.unvalid_end (inc64 e) in
      if ltb e r.unvalid_end
      then record r { valid_begin = begin; valid_end = e; unvalid_begin = begin'; latest = e }
      else record r {
        valid_begin = begin;
        valid_end = e;
        unvalid_begin = 0;
        unvalid_end = 0;
        latest = e;
      }

  -- The branch of the next packet in order.
  pub accept_next : Receiver → Receiver
  accept_next r =
      let r' = record r { latest = inc64 r.latest } in
      if inc64 r'.latest == r'.unvalid_begin then activate r' else r'

  -- The bounds that a packet out of order gives the stored range; `none` is the assertion against
  -- a packet beyond the range that can be stored.
  pub widen : ℕ → Receiver → Option Receiver
  widen seq r =
      if r.unvalid_begin == 0
      then some (record r { unvalid_begin = seq; unvalid_end = seq })
      else if ltb seq r.unvalid_begin
      then some (record r { unvalid_begin = seq })
      else if ltb r.unvalid_end seq
      then (if ltb size (sub64 seq r.latest) then none else some (record r { unvalid_end = seq }))
      else some r

  -- The packet m_pMem goes into its slot, which must be free.
  pub store : ℕ → Receiver → Option Receiver
  store seq r = do
    cmn_assert (not (is_some (r.slots (seq % size))))
    some (record r { slots = update r.slots (seq % size) r.mem; mem = none })

  -- CRmpSock::recvep_handle_odata on the packet that m_pMem holds.
  pub recvep_handle_odata : ℕ → List ℕ → Receiver → Option (ℤ × Receiver)
  recvep_handle_odata seq body r =
      let held = record r { mem = some (record { offset = odata_hdr_size; body = body }) } in
      if seq == inc64 r.latest
      then some (cmnerr_odata_ready, accept_next held)
      else if leb seq r.latest
      then some (cmnerr_suc, record r { mem = some empty_mem })
      else (do wide ← widen seq held; stored ← store seq wide; some (cmnerr_suc, stored))

  module _ (udp_send : Pkg → ℤ) where
    -- Only data and heartbeats of the known sender are expected.
    pub recvep_handle_pkg : Datagram → Receiver → Option (ℤ × Receiver)
    recvep_handle_pkg d r =
        if d.src_id == r.sender_id
        then (elim d.pkg [
          | odata seq body ↦ recvep_handle_odata seq body r
          | hb latest_seq oldest_seq ↦ recvep_handle_hb udp_send latest_seq r
          | _ ↦ none
        ])
        else none

    -- One call; the packet is what pMem is set to.
    pub get_next_recved_data : Receiver → Option (ℤ × Option Mem × Receiver)
    get_next_recved_data r = elim (has_data r.mem) [
      | true ↦ some (cmnerr_suc, r.mem, record r { mem = none })
      | false ↦
          if ltb 0 r.valid_begin && leb r.valid_begin r.valid_end
          then some (
            cmnerr_suc,
            r.slots (r.valid_begin % size),
            record r {
              slots = update r.slots (r.valid_begin % size) none;
              valid_begin = inc64 r.valid_begin;
            },
          )
          else (do
            acked ← set_ack udp_send false (record r { valid_begin = 0; valid_end = 0 })
            some (cmnerr_no_data, none, acked))
    ]

    -- `while (CMNERR_SUC == get_next_recved_data(pMem)) on_recved_data(pMem);` in
    -- CRmpEndpoint::handle_input_evt: what on_recved_data was given.
    pub drain : ℕ → Receiver → Option (List (Option Mem) × Receiver)
    drain zero r = none
    drain (suc fuel) r = elim (get_next_recved_data r) [
      | none ↦ none
      | some (code, p, r') ↦ elim (is_suc code) [
        | true ↦ (do (ps, r'') ← drain fuel r'; some (p ∷ ps, r''))
        | false ↦ some ([], r')
      ]
    ]

    -- One data packet of the receiver's own sender in CRmpEndpoint::handle_input_evt, behind the test of
    -- recvep_handle_pkg that Polling has: handle_can_recv passes the packet's code on, and what is ready
    -- is handed out.
    pub deliver : ℕ → ℕ → List ℕ → Receiver → Option (List (Option Mem) × Receiver)
    deliver fuel seq body r = do
      (code, r') ← recvep_handle_odata seq body r
      if is_odata_ready code then drain fuel r' else some ([], r')

    -- Data packets one after the other: all that on_recved_data was given.
    pub deliver_all : ℕ → List (ℕ × List ℕ) → Receiver → Option (List (Option Mem) × Receiver)
    deliver_all fuel [] r = some ([], r)
    deliver_all fuel ((seq, body) ∷ ds) r = do
      (out, r') ← deliver fuel seq body r
      (outs, r'') ← deliver_all fuel ds r'
      some (out ++ outs, r'')
