-- ===== src/Rup/Acceptor.antt =====
-- CRupAcceptor of libsmart_net/src/smart_net/sn_endpoint_impl.cpp: its table of transitions and their
-- handlers, its queue of idle endpoints, and what it does with a new connection. CSNEngine::add_endpoint
-- returns CMNERR_SUC; `del_ret` is the value of del_endpoint, which has no return statement.
pub mod Inv
pub mod Give
pub mod Reports
mod Tests
use smart_net.Base.{
  ℕ, ℤ, pos, Bool, true, false, not, Option, none, some, List, [], ◌∷◌, ◌++◌, if◌then◌else◌,
  is_some, ◌>>=◌, ◌>>◌, cmn_assert, cmnerr_suc, cmnerr_common_err, is_neg, is_suc, ◌==◌, refl,
}
use smart_net.StateMachine.{Enum, HasState, Handler, Table, reg_evt_state, post_evt}
use smart_net.Rup.Endpoint.{Endpoint}
use smart_net.Rup.Endpoint.Io.{handle_connected, pop}

pub data AccState : Type 0 where
  opened : AccState
  closed : AccState
  adding_into_it : AccState
  deling_from_it : AccState

abbrev pub acc_state_code : AccState → ℕ
acc_state_code opened = 0
acc_state_code closed = 1
acc_state_code adding_into_it = 2
acc_state_code deling_from_it = 3

-- EE_NONE and EE_OPEN are both 0.
pub data AccEvt : Type 0 where
  none_evt : AccEvt
  open_evt : AccEvt
  close_evt : AccEvt
  added_into_it : AccEvt
  deled_from_it : AccEvt
  internal_err : AccEvt

abbrev pub acc_evt_code : AccEvt → ℕ
acc_evt_code none_evt = 0
acc_evt_code open_evt = 0
acc_evt_code close_evt = 1
acc_evt_code added_into_it = 2
acc_evt_code deled_from_it = 3
acc_evt_code internal_err = 4

instance pub AccState-Enum : Enum AccState
AccState-Enum = record { code = acc_state_code }

instance pub AccEvt-Enum : Enum AccEvt
AccEvt-Enum = record { code = acc_evt_code }

-- What an acceptor asks of the engine and tells the application.
pub data AccRequest : Type 0 where
  add_to_it : AccRequest
  del_from_it : AccRequest
  on_opened : AccRequest
  on_closed : AccRequest

pub record Acceptor : Type 0 where
  pub cur : AccState
  pub pending : AccEvt
  pub listener : Option Bool  -- m_pTcpSockListener, and whether it is open
  pub requests : List AccRequest  -- the last one first

instance pub Acceptor-HasState : HasState AccState Acceptor
Acceptor-HasState = record {
  cur_state = λ t. t.cur;
  set_cur_state = λ s t. record t { cur = s };
  cur-set = λ s t. refl;
}

-- How far the calls of the new listener get.
pub data SetUp : Type 0 where
  open_fails : SetUp
  bind_or_listen_fails : SetUp
  listens : SetUp

abbrev pub AccAct : Type 0
AccAct = Handler AccState AccEvt SetUp Acceptor

abbrev pub request : AccRequest → Acceptor → Acceptor
request r t = record t { requests = r ∷ t.requests }

abbrev pub no_evt : AccEvt → Bool
no_evt e = acc_evt_code e == 0

abbrev pub closed_to_adding_into_it : AccAct
closed_to_adding_into_it s e n p t = do
  cmn_assert (not (is_some t.listener))
  let calm = record t { pending = none_evt }
  some (elim p [
    | open_fails ↦ (cmnerr_common_err, record calm { listener = some false })
    | bind_or_listen_fails ↦ (cmnerr_common_err, record calm { listener = some true })
    | listens ↦ (cmnerr_suc, request add_to_it (record calm { listener = some true }))
  ])

abbrev pub close_while_adding_into_it : AccAct
close_while_adding_into_it s e n p t = some (cmnerr_suc, record t { pending = close_evt })

abbrev pub internal_err_while_adding_into_it : AccAct
internal_err_while_adding_into_it s e n p t = some (cmnerr_suc, record t { pending = internal_err })

-- `CMN_ASSERT(m_pTcpSockListener->is_opened())`
abbrev pub listens_now : Acceptor → Bool
listens_now t = elim t.listener [ none ↦ false | some b ↦ b ]

abbrev pub acc_adding_into_it_to_opened : AccAct
acc_adding_into_it_to_opened s e n p t =
    if no_evt t.pending
    then (do cmn_assert (listens_now t); some (cmnerr_suc, request on_opened t))
    else (do
      cmn_assert (is_some t.listener)
      some (
        cmnerr_common_err,
        record (request del_from_it t) { listener = some false; cur = deling_from_it },
      ))

abbrev pub deling_from_it_to_closed : AccAct
deling_from_it_to_closed s e n p t = some (cmnerr_suc, request on_closed t)

module _ (del_ret : ℤ) where
  abbrev pub acc_shut_while_opened : AccAct
  acc_shut_while_opened s e n p t = do
    cmn_assert (listens_now t)
    some (del_ret, record (request del_from_it t) { listener = some false })

  -- The constructor.
  pub acc_table : Option (Table AccState AccEvt SetUp Acceptor)
  acc_table = do
    t1 ← reg_evt_state closed open_evt adding_into_it closed_to_adding_into_it []
    t2 ← reg_evt_state adding_into_it close_evt adding_into_it close_while_adding_into_it t1
    t3 ←
        reg_evt_state adding_into_it internal_err adding_into_it internal_err_while_adding_into_it
          t2
    t4 ← reg_evt_state adding_into_it added_into_it opened acc_adding_into_it_to_opened t3
    t5 ← reg_evt_state opened close_evt deling_from_it acc_shut_while_opened t4
    t6 ← reg_evt_state opened internal_err deling_from_it acc_shut_while_opened t5
    reg_evt_state deling_from_it deled_from_it closed deling_from_it_to_closed t6

  pub acc_post : AccEvt → SetUp → Acceptor → Option (ℤ × Acceptor)
  acc_post e p t = acc_table >>= λ tbl. post_evt tbl e p t

  -- m_dqIdleEndpoints holds the names of endpoints.
  abbrev pub Endpoints : Type 0
  Endpoints = ℕ → Endpoint

  abbrev pub set : ℕ → Endpoint → Endpoints → Endpoints
  set i e eps j = if i == j then e else eps j

  -- The loop of CRupAcceptor::handle_input_evt over the queue: whether an endpoint took the new
  -- connection, which is closed otherwise, the queue that is left, and the endpoints.
  pub give : List ℕ → Endpoints → Option (Bool × List ℕ × Endpoints)
  give [] eps = some (false, [], eps)
  give (i ∷ q) eps = do
    (code, e) ← handle_connected del_ret true (pop (eps i))
    elim (is_suc code) [ true ↦ some (true, q, set i e eps) | false ↦ give q (set i e eps) ]

  -- CRupAcceptor::add_endpoint and del_endpoint.
  pub add_endpoint : ℕ → List ℕ → List ℕ
  add_endpoint i q = q ++ (i ∷ [])

  pub del_endpoint : ℕ → List ℕ → Option (List ℕ)
  del_endpoint i [] = none
  del_endpoint i (j ∷ q) =
      let rest = del_endpoint i q in if j == i then some q else (rest >>= λ q'. some (j ∷ q'))
