-- ===== src/Rmp/Endpoint.antt =====
-- CRmpEndpoint of libsmart_net/src/smart_net/sn_endpoint_impl.cpp: its table of transitions and their
-- handlers. Its states and events are those of CRupEndpoint. What its socket's calls return is the
-- argument of an event: of open, bind and set_nonblock for EE_OPEN, and of join_multicast_group for
-- EE_ADDED_INTO_IT. CSNEngine::add_endpoint returns CMNERR_SUC; `del_ret` is the value of del_endpoint.
pub mod Inv
pub mod Reports
mod Tests
use smart_net.Base.{
  ℤ, Bool, true, false, Option, none, some, List, [], ◌∷◌, if◌then◌else◌, ◌>>=◌, ◌>>◌, cmn_assert,
  cmnerr_suc, cmnerr_common_err, is_suc, refl,
}
use smart_net.StateMachine.{Enum, HasState, Handler, Table, reg_evt_state, post_evt}
use smart_net.Rup.Endpoint.{
  EpState, opened, closed, adding_into_ot, adding_into_it, deling_from_it, deling_from_ot, EpEvt,
  none_evt, open_evt, close_evt, internal_err, added_into_ot, added_into_it, deled_from_it_evt,
  deled_from_ot_evt, EpState-Enum, EpEvt-Enum, Request, add_to_ot, add_to_it, del_from_ot,
  del_from_it, on_opened, on_closed, is_none_evt, is_close_evt,
}

pub record RmpEndpoint : Type 0 where
  pub receives : Bool  -- m_i32Type is RMP_RECV_ENDPOINT
  pub cur : EpState
  pub pending : EpEvt  -- m_i32SMPendingEvt
  pub sock : Option Bool  -- m_pSock, and whether it is open
  pub log : List Request  -- the last one first

instance pub RmpEndpoint-HasState : HasState EpState RmpEndpoint
RmpEndpoint-HasState = record {
  cur_state = λ t. t.cur;
  set_cur_state = λ s t. record t { cur = s };
  cur-set = λ s t. refl;
}

abbrev pub RmpAct : Type 0
RmpAct = Handler EpState EpEvt ℤ RmpEndpoint

abbrev pub rmp_ask : Request → RmpEndpoint → RmpEndpoint
rmp_ask r t = record t { log = r ∷ t.log }

abbrev pub rmp_close_sock : RmpEndpoint → Option RmpEndpoint
rmp_close_sock t = elim t.sock [ none ↦ none | some _ ↦ some (record t { sock = some false }) ]

abbrev pub closed_to_adding_into_ot : RmpAct
closed_to_adding_into_ot s e n made t = some (
  if is_suc made then cmnerr_suc else cmnerr_common_err,
  if is_suc made
      then rmp_ask add_to_ot (record t { sock = some true })
      else record t { sock = none },
)

abbrev pub rmp_note_close : RmpAct
rmp_note_close s e n p t = some (cmnerr_suc, record t { pending = close_evt })

abbrev pub rmp_note_internal_err : RmpAct
rmp_note_internal_err s e n p t = some (cmnerr_suc, record t { pending = internal_err })

abbrev pub rmp_adding_into_ot_to_adding_into_it : RmpAct
rmp_adding_into_ot_to_adding_into_it s e n p t =
    if is_close_evt t.pending
    then (do
      shut ← rmp_close_sock t
      some (cmnerr_common_err, record (rmp_ask del_from_ot shut) { cur = deling_from_ot }))
    else (do cmn_assert (is_none_evt t.pending); some (cmnerr_suc, rmp_ask add_to_it t))

-- A receiver joins its group here, unless an event is pending.
abbrev pub rmp_adding_into_it_to_opened : RmpAct
rmp_adding_into_it_to_opened s e n joined t =
    let ret =
      if is_none_evt t.pending
      then (if t.receives then joined else cmnerr_suc)
      else cmnerr_common_err in
    if is_suc ret then some (ret, rmp_ask on_opened t) else (do
      shut ← rmp_close_sock t
      some (ret, record (rmp_ask del_from_it shut) { cur = deling_from_it }))

abbrev pub rmp_deling_from_ot_to_closed : RmpAct
rmp_deling_from_ot_to_closed s e n p t =
    some (cmnerr_common_err, record (rmp_ask on_closed t) { cur = closed; sock = none })

module _ (del_ret : ℤ) where
  abbrev pub rmp_shut_while_opened : RmpAct
  rmp_shut_while_opened s e n p t = do
    shut ← rmp_close_sock t
    some (del_ret, rmp_ask del_from_it shut)

  abbrev pub rmp_deling_from_it_to_deling_from_ot : RmpAct
  rmp_deling_from_it_to_deling_from_ot s e n p t = some (del_ret, rmp_ask del_from_ot t)

  -- CRmpEndpoint::init_sm.
  pub rmp_init_sm : Option (Table EpState EpEvt ℤ RmpEndpoint)
  rmp_init_sm = do
    t1 ← reg_evt_state closed open_evt adding_into_ot closed_to_adding_into_ot []
    t2 ← reg_evt_state adding_into_ot close_evt adding_into_ot rmp_note_close t1
    t3 ← reg_evt_state adding_into_ot internal_err closed rmp_note_internal_err t2
    t4 ←
        reg_evt_state adding_into_ot added_into_ot adding_into_it
          rmp_adding_into_ot_to_adding_into_it t3
    t5 ← reg_evt_state adding_into_it internal_err adding_into_it rmp_note_internal_err t4
    t6 ← reg_evt_state adding_into_it close_evt adding_into_it rmp_note_close t5
    t7 ← reg_evt_state adding_into_it added_into_it opened rmp_adding_into_it_to_opened t6
    t8 ← reg_evt_state opened internal_err deling_from_it rmp_shut_while_opened t7
    t9 ← reg_evt_state opened close_evt deling_from_it rmp_shut_while_opened t8
    t10 ←
        reg_evt_state deling_from_it deled_from_it_evt deling_from_ot
          rmp_deling_from_it_to_deling_from_ot t9
    reg_evt_state deling_from_ot deled_from_ot_evt closed rmp_deling_from_ot_to_closed t10

  pub rmp_post : EpEvt → ℤ → RmpEndpoint → Option (ℤ × RmpEndpoint)
  rmp_post e p t = rmp_init_sm >>= λ tbl. post_evt tbl e p t
