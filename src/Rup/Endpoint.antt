-- ===== src/Rup/Endpoint.antt =====
-- CRupEndpoint of libsmart_net/src/smart_net/sn_endpoint_impl.cpp: its table of transitions and
-- their handlers. The engine's tasks, the helper (acceptor or connector) and the application are
-- represented by what the endpoint asks of them, in `log`. CSNEngine::add_endpoint returns
-- CMNERR_SUC; del_endpoint ends without a return statement, so that its value is the parameter
-- `del_ret`. The application's callbacks do not call the endpoint.
pub mod Inv
pub mod Io
pub mod Reports
pub mod KeepAlive
pub mod Faults
mod Tests
use smart_net.Base.{
  ℕ, ℤ, pos, Bool, true, false, not, Option, none, some, List, [], ◌∷◌, if◌then◌else◌, is_some,
  ◌>>=◌, ◌>>◌, cmn_assert, cmnerr_suc, cmnerr_common_err, is_neg, ◌==◌, ◌≡◌, refl,
}
use smart_net.StateMachine.{Enum, HasState, Handler, Table, Elem, reg_evt_state, post_evt}

pub data EpState : Type 0 where
  added_into_helper : EpState
  opened_ready : EpState
  opened : EpState
  closing : EpState
  closed_ready : EpState
  closed : EpState
  adding_into_ot : EpState
  adding_into_it : EpState
  deled_from_it : EpState
  deling_from_it : EpState
  deling_from_ot : EpState

abbrev pub state_code : EpState → ℕ
state_code added_into_helper = 0
state_code opened_ready = 1
state_code opened = 2
state_code closing = 3
state_code closed_ready = 4
state_code closed = 5
state_code adding_into_ot = 6
state_code adding_into_it = 7
state_code deled_from_it = 8
state_code deling_from_it = 9
state_code deling_from_ot = 10

pub data EpEvt : Type 0 where
  none_evt : EpEvt
  open_evt : EpEvt
  opened_evt : EpEvt
  close_evt : EpEvt
  closed_evt : EpEvt
  ioerr_evt : EpEvt
  internal_err : EpEvt
  connected : EpEvt
  added_into_ot : EpEvt
  added_into_it : EpEvt
  deled_from_it_evt : EpEvt
  deled_from_ot_evt : EpEvt

abbrev pub evt_code : EpEvt → ℕ
evt_code none_evt = 0
evt_code open_evt = 1
evt_code opened_evt = 2
evt_code close_evt = 3
evt_code closed_evt = 4
evt_code ioerr_evt = 5
evt_code internal_err = 6
evt_code connected = 7
evt_code added_into_ot = 8
evt_code added_into_it = 9
evt_code deled_from_it_evt = 10
evt_code deled_from_ot_evt = 11

instance unfoldable pub EpState-Enum : Enum EpState
EpState-Enum = record { code = state_code }

instance unfoldable pub EpEvt-Enum : Enum EpEvt
EpEvt-Enum = record { code = evt_code }

-- What an endpoint asks of the engine and tells the application.
pub data Request : Type 0 where
  add_to_ot : Request
  add_to_it : Request
  del_from_ot : Request
  del_from_it : Request
  on_opened : Request
  on_closed : Request
  on_recved_data : Request
  send_hb : Request

pub record Endpoint : Type 0 where
  pub cur : EpState
  pub pending : EpEvt  -- m_i32SMPendingEvt
  pub sock : Option Bool  -- m_pSock, and whether the socket is open
  pub in_helper : Bool  -- whether the helper's queue of idle endpoints has this one
  pub send_cnt : ℕ
  pub recv_cnt : ℕ
  pub send_store : ℕ
  pub recv_store : ℕ
  pub cycle_cnt : ℕ
  pub will_close : Bool
  pub log : List Request  -- the last one first

instance pub Endpoint-HasState : HasState EpState Endpoint
Endpoint-HasState = record {
  cur_state = λ t. t.cur;
  set_cur_state = λ s t. record t { cur = s };
  cur-set = λ s t. refl;
}

abbrev pub Act : Type 0
Act = Handler EpState EpEvt (Option Bool) Endpoint

abbrev pub is_none_evt : EpEvt → Bool
is_none_evt e = evt_code e == 0

abbrev pub is_close_evt : EpEvt → Bool
is_close_evt e = evt_code e == 3

abbrev pub ask : Request → Endpoint → Endpoint
ask r t = record t { log = r ∷ t.log }

-- `m_pSock->close()`
abbrev pub close_sock : Endpoint → Option Endpoint
close_sock t = elim t.sock [ none ↦ none | some _ ↦ some (record t { sock = some false }) ]

abbrev pub closed_to_added_into_helper : Act
closed_to_added_into_helper s e n p t = some (
  cmnerr_suc,
  record t {
    pending = none_evt;
    send_cnt = 0;
    recv_cnt = 0;
    send_store = 0;
    recv_store = 0;
    cycle_cnt = 0;
    will_close = false;
    in_helper = true;
  },
)

-- The helper's del_endpoint asserts that its queue has the endpoint.
abbrev pub added_into_helper_to_closed : Act
added_into_helper_to_closed s e n p t = do
  cmn_assert (not (is_some t.sock))
  cmn_assert t.in_helper
  some
      (cmnerr_common_err, record (ask on_closed t) { in_helper = false; cur = closed; sock = none })

-- Handlers that only note the event.
abbrev pub note_close : Act
note_close s e n p t = some (cmnerr_suc, record t { pending = close_evt })

abbrev pub note_internal_err : Act
note_internal_err s e n p t = some (cmnerr_suc, record t { pending = internal_err })

abbrev pub added_into_helper_to_adding_into_ot : Act
added_into_helper_to_adding_into_ot s e n p t = do
  cmn_assert (not (is_some t.sock))
  some (cmnerr_suc, ask add_to_ot (record t { sock = p }))

-- What both transitions of an added endpoint do when an event is pending.
abbrev pub give_up : Endpoint → Option (ℤ × Endpoint)
give_up t = do
  shut ← close_sock t
  some (cmnerr_common_err, record (ask del_from_ot shut) { cur = deling_from_ot })

abbrev pub added_into_ot_to_adding_into_it : Act
added_into_ot_to_adding_into_it s e n p t =
    if is_close_evt t.pending
    then give_up t
    else (do cmn_assert (is_none_evt t.pending); some (cmnerr_suc, ask add_to_it t))

abbrev pub adding_into_it_to_opened : Act
adding_into_it_to_opened s e n p t =
    if is_none_evt t.pending then some (cmnerr_suc, ask on_opened t) else give_up t

abbrev pub deling_from_ot_to_closed : Act
deling_from_ot_to_closed s e n p t =
    some (cmnerr_common_err, record (ask on_closed t) { cur = closed; sock = none })

module _ (del_ret : ℤ) where
  -- Closing and an internal error of an open endpoint.
  abbrev pub shut_while_opened : Act
  shut_while_opened s e n p t = do shut ← close_sock t; some (del_ret, ask del_from_it shut)

  abbrev pub deling_from_it_to_deling_from_ot : Act
  deling_from_it_to_deling_from_ot s e n p t = some (del_ret, ask del_from_ot t)

  -- CRupEndpoint::init_sm.
  pub init_sm : Option (Table EpState EpEvt (Option Bool) Endpoint)
  init_sm = do
    t1 ← reg_evt_state closed open_evt added_into_helper closed_to_added_into_helper []
    t2 ← reg_evt_state added_into_helper close_evt closed added_into_helper_to_closed t1
    t3 ←
        reg_evt_state added_into_helper connected adding_into_ot added_into_helper_to_adding_into_ot
          t2
    t4 ← reg_evt_state adding_into_ot close_evt adding_into_ot note_close t3
    t5 ← reg_evt_state adding_into_ot internal_err closed note_internal_err t4
    t6 ←
        reg_evt_state adding_into_ot added_into_ot adding_into_it added_into_ot_to_adding_into_it t5
    t7 ← reg_evt_state adding_into_it internal_err adding_into_it note_internal_err t6
    t8 ← reg_evt_state adding_into_it close_evt adding_into_it note_close t7
    t9 ← reg_evt_state adding_into_it added_into_it opened adding_into_it_to_opened t8
    t10 ← reg_evt_state opened internal_err deling_from_it shut_while_opened t9
    t11 ← reg_evt_state opened close_evt deling_from_it shut_while_opened t10
    t12 ←
        reg_evt_state deling_from_it deled_from_it_evt deling_from_ot
          deling_from_it_to_deling_from_ot t11
    reg_evt_state deling_from_ot deled_from_ot_evt closed deling_from_ot_to_closed t12

  -- The endpoint's table; a failed assertion in the constructor leaves no endpoint.
  pub post : EpEvt → Option Bool → Endpoint → Option (ℤ × Endpoint)
  post e p t = init_sm >>= λ tbl. post_evt tbl e p t
