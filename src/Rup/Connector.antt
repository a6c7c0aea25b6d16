-- ===== src/Rup/Connector.antt =====
-- CRupConnector of libsmart_net/src/smart_net/sn_endpoint_impl.cpp: its table of transitions and their
-- handlers. Its queue of idle endpoints, and the loop that gives a connection to one of them, are those
-- of CRupAcceptor. CSNEngine::add_endpoint returns CMNERR_SUC; `del_ret` and `timer_ret` are the values
-- of del_endpoint and of add_timer and del_timer, which have no return statement.
pub mod Inv
pub mod Reports
pub mod Stuck
mod Tests
use smart_net.Base.{
  ℕ, ℤ, Bool, true, false, not, Option, none, some, List, [], ◌∷◌, if◌then◌else◌, is_some, ◌>>=◌,
  ◌>>◌, cmn_assert, cmnerr_suc, cmnerr_common_err, ltb, ◌==◌, refl,
}
use smart_net.StateMachine.{Enum, HasState, Handler, Table, reg_evt_state, post_evt}
use smart_net.Rup.Endpoint.{Endpoint}
use smart_net.Rup.Acceptor.{give}

pub data ConnState : Type 0 where
  opened : ConnState
  closed : ConnState
  checking_timer : ConnState
  adding_into_ot : ConnState
  deling_from_ot_close : ConnState
  adding_into_tt : ConnState
  deling_from_tt : ConnState
  connecting : ConnState
  deling_from_ot_normal : ConnState

abbrev pub conn_state_code : ConnState → ℕ
conn_state_code opened = 0
conn_state_code closed = 1
conn_state_code checking_timer = 2
conn_state_code adding_into_ot = 3
conn_state_code deling_from_ot_close = 4
conn_state_code adding_into_tt = 5
conn_state_code deling_from_tt = 6
conn_state_code connecting = 7
conn_state_code deling_from_ot_normal = 8

-- EE_NONE and EE_OPEN are both 0.
pub data ConnEvt : Type 0 where
  none_evt : ConnEvt
  open_evt : ConnEvt
  connect : ConnEvt
  close_evt : ConnEvt
  added_into_ot : ConnEvt
  deled_from_ot : ConnEvt
  internal_err : ConnEvt
  added_into_tt : ConnEvt
  connected : ConnEvt
  deled_from_tt : ConnEvt

abbrev pub conn_evt_code : ConnEvt → ℕ
conn_evt_code none_evt = 0
conn_evt_code open_evt = 0
conn_evt_code connect = 1
conn_evt_code close_evt = 2
conn_evt_code added_into_ot = 3
conn_evt_code deled_from_ot = 4
conn_evt_code internal_err = 5
conn_evt_code added_into_tt = 6
conn_evt_code connected = 7
conn_evt_code deled_from_tt = 8

instance pub ConnState-Enum : Enum ConnState
ConnState-Enum = record { code = conn_state_code }

instance pub ConnEvt-Enum : Enum ConnEvt
ConnEvt-Enum = record { code = conn_evt_code }

-- What a connector asks of the engine and tells the application.
pub data ConnRequest : Type 0 where
  add_timer : ConnRequest
  del_timer : ConnRequest
  add_to_ot : ConnRequest
  del_from_ot : ConnRequest
  on_opened : ConnRequest
  on_closed : ConnRequest

pub record Connector : Type 0 where
  pub cur : ConnState
  pub pending : ConnEvt
  pub sock : Option Bool  -- m_pTcpSock, and whether it is open
  pub interval : ℕ
  pub idle : List ℕ  -- m_dqIdleEndpoints, the names of endpoints
  pub eps : ℕ → Endpoint
  pub asked : List ConnRequest  -- the last one first

instance pub Connector-HasState : HasState ConnState Connector
Connector-HasState = record {
  cur_state = λ t. t.cur;
  set_cur_state = λ s t. record t { cur = s };
  cur-set = λ s t. refl;
}

-- The interval for EE_OPEN, and for EE_CONNECT whether the new socket can be opened.
pub record ConnParas : Type 0 where
  pub interval_us : ℕ
  pub sock_opens : Bool

abbrev pub ConnAct : Type 0
ConnAct = Handler ConnState ConnEvt ConnParas Connector

abbrev pub conn_ask : ConnRequest → Connector → Connector
conn_ask r t = record t { asked = r ∷ t.asked }

abbrev pub is_no_evt : ConnEvt → Bool
is_no_evt e = conn_evt_code e == 0

abbrev pub is_close : ConnEvt → Bool
is_close e = conn_evt_code e == 2

-- m_pTcpSock->is_opened(), if there is a socket.
abbrev pub sock_opened : Connector → Option Bool
sock_opened t = t.sock

abbrev pub close_conn : Connector → Option Connector
close_conn t = elim t.sock [ none ↦ none | some _ ↦ some (record t { sock = some false }) ]

abbrev pub conn_note_close : ConnAct
conn_note_close s e n p t = some (cmnerr_suc, record t { pending = close_evt })

abbrev pub conn_note_internal_err : ConnAct
conn_note_internal_err s e n p t = some (cmnerr_suc, record t { pending = internal_err })

abbrev pub adding_into_tt_to_checking_timer : ConnAct
adding_into_tt_to_checking_timer s e n p t =
    if is_no_evt t.pending then some (cmnerr_suc, conn_ask on_opened t) else (do
      cmn_assert (is_close t.pending)
      some (cmnerr_common_err, record (conn_ask del_timer t) { cur = deling_from_tt }))

abbrev pub checking_timer_to_adding_into_ot : ConnAct
checking_timer_to_adding_into_ot s e n p t = do
  cmn_assert (not (is_some t.sock))
  some (cmnerr_suc, record (conn_ask add_to_ot t) { sock = some p.sock_opens })

abbrev pub adding_into_ot_to_connecting : ConnAct
adding_into_ot_to_connecting s e n p t = if is_no_evt t.pending then some (cmnerr_suc, t) else (do
  shut ← close_conn t
  some (
    cmnerr_common_err,
    record (conn_ask del_from_ot shut) {
      cur = if is_close t.pending then deling_from_ot_close else deling_from_ot_normal;
    },
  ))

abbrev pub internal_err_while_deling_from_ot_normal : ConnAct
internal_err_while_deling_from_ot_normal s e n p t = do shut ← close_conn t; some (cmnerr_suc, shut)

abbrev pub deling_from_tt_to_closed : ConnAct
deling_from_tt_to_closed s e n p t = some (cmnerr_suc, conn_ask on_closed t)

module _ (del_ret timer_ret : ℤ) where
  abbrev pub closed_to_adding_into_tt : ConnAct
  closed_to_adding_into_tt s e n p t = do
    cmn_assert (ltb 0 p.interval_us)
    some (timer_ret, record (conn_ask add_timer t) { pending = none_evt; interval = p.interval_us })

  abbrev pub close_while_checking_timer : ConnAct
  close_while_checking_timer s e n p t = do
    cmn_assert (not (is_some t.sock))
    some (timer_ret, conn_ask del_timer t)

  -- Closing and an internal error while the connection is made.
  abbrev pub stop_connecting : ConnAct
  stop_connecting s e n p t = do shut ← close_conn t; some (del_ret, conn_ask del_from_ot shut)

  abbrev pub handling_connected : ConnAct
  handling_connected s e n p t = do
    is_open ← sock_opened t
    cmn_assert is_open
    some (del_ret, conn_ask del_from_ot t)

  abbrev pub deling_from_ot_close_to_deling_from_tt : ConnAct
  deling_from_ot_close_to_deling_from_tt s e n p t = do
    is_open ← sock_opened t
    cmn_assert (not is_open)
    some (timer_ret, conn_ask del_timer t)

  -- A connection that was made goes to an idle endpoint, or is closed.
  abbrev pub deling_from_ot_normal_to_checking_timer : ConnAct
  deling_from_ot_normal_to_checking_timer s e n p t =
      if is_no_evt t.pending
      then (do
        is_open ← sock_opened t
        (if is_open
            then (do
              (given, q, es) ← give del_ret t.idle t.eps
              some (cmnerr_suc, record t { idle = q; eps = es; sock = none }))
            else some (cmnerr_suc, record t { sock = none })))
      else (do
        cmn_assert (is_close t.pending)
        shut ← close_conn t
        some (
          cmnerr_common_err,
          record (conn_ask del_timer shut) { sock = none; cur = deling_from_tt },
        ))

  -- The constructor.
  pub conn_table : Option (Table ConnState ConnEvt ConnParas Connector)
  conn_table = do
    t1 ← reg_evt_state closed open_evt adding_into_tt closed_to_adding_into_tt []
    t2 ← reg_evt_state adding_into_tt close_evt adding_into_tt conn_note_close t1
    t3 ←
        reg_evt_state adding_into_tt added_into_tt checking_timer adding_into_tt_to_checking_timer
          t2
    t4 ← reg_evt_state checking_timer close_evt deling_from_tt close_while_checking_timer t3
    t5 ← reg_evt_state checking_timer connect adding_into_ot checking_timer_to_adding_into_ot t4
    t6 ← reg_evt_state adding_into_ot close_evt adding_into_ot conn_note_close t5
    t7 ← reg_evt_state adding_into_ot internal_err adding_into_ot conn_note_internal_err t6
    t8 ← reg_evt_state adding_into_ot added_into_ot connecting adding_into_ot_to_connecting t7
    t9 ← reg_evt_state connecting close_evt deling_from_ot_close stop_connecting t8
    t10 ← reg_evt_state connecting internal_err deling_from_ot_normal stop_connecting t9
    t11 ← reg_evt_state connecting connected deling_from_ot_normal handling_connected t10
    t12 ←
        reg_evt_state deling_from_ot_close deled_from_ot deling_from_tt
          deling_from_ot_close_to_deling_from_tt t11
    t13 ← reg_evt_state deling_from_ot_normal close_evt deling_from_ot_normal conn_note_close t12
    t14 ←
        reg_evt_state deling_from_ot_normal internal_err deling_from_ot_normal
          internal_err_while_deling_from_ot_normal t13
    t15 ←
        reg_evt_state deling_from_ot_normal deled_from_ot checking_timer
          deling_from_ot_normal_to_checking_timer t14
    reg_evt_state deling_from_tt deled_from_tt closed deling_from_tt_to_closed t15

  pub conn_post : ConnEvt → ConnParas → Connector → Option (ℤ × Connector)
  conn_post e p t = conn_table >>= λ tbl. post_evt tbl e p t
