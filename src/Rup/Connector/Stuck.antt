-- ===== src/Rup/Connector/Stuck.antt =====
-- A connector that the output task could not add.
use smart_net.Base.{ℤ, negsuc, Option, some, List, [], ◌∷◌, ◌>>=◌, ◌≡◌, refl, ap, ◌∙◌, All, ℕ}
use smart_net.StateMachine.{find_elem, reg_evt_state, find, assign, post_evt, run_elem}
use smart_net.Framework.IoObj.{output_type}
use smart_net.Rup.Connector.{
  adding_into_ot, ConnEvt, none_evt, open_evt, connect, close_evt, added_into_ot, deled_from_ot,
  internal_err, added_into_tt, connected, deled_from_tt, Connector, ConnParas, conn_table,
  conn_post, ConnState-Enum, ConnEvt-Enum, Connector-HasState,
}
use smart_net.Rup.Connector.Reports.{conn_added_into_io_task}

abbrev pub NotAdded : ConnEvt × ConnParas → Type 0
NotAdded (added_into_ot, p) = ⊥
NotAdded (e, p) = Unit

module _ (del_ret timer_ret : ℤ) where
  -- A run of events whose codes are not looked at.
  abbrev pub conn_run : List (ConnEvt × ConnParas) → Connector → Option Connector
  conn_run [] t = some t
  conn_run ((e, p) ∷ l) t = conn_post del_ret timer_ret e p t >>= λ r. conn_run l (r.1)

  -- The connector after an event; only its pending event may differ.
  abbrev Waiting : ConnEvt → ConnParas → Connector → Type 0
  Waiting e p t =
      (code : ℤ) × (evt : ConnEvt) × (conn_post del_ret timer_ret e p
          (record t { cur = adding_into_ot })
        ≡ some (code, record t { cur = adding_into_ot; pending = evt }))

  waits_on : (e : ConnEvt) (p : ConnParas) (t : Connector) → NotAdded (e, p) → Waiting e p t
  unfolding conn_post conn_table reg_evt_state find_elem find assign post_evt run_elem
      ConnState-Enum ConnEvt-Enum Connector-HasState
  waits_on none_evt p t x = (_, _, refl)
  waits_on open_evt p t x = (_, _, refl)
  waits_on connect p t x = (_, _, refl)
  waits_on close_evt p t x = (_, _, refl)
  waits_on added_into_ot p t x = absurd x
  waits_on deled_from_ot p t x = (_, _, refl)
  waits_on internal_err p t x = (_, _, refl)
  waits_on added_into_tt p t x = (_, _, refl)
  waits_on connected p t x = (_, _, refl)
  waits_on deled_from_tt p t x = (_, _, refl)

  abbrev Stuck : Option Connector → Connector → Type 0
  Stuck o t =
      (w : Connector) × (o ≡ some w)
      × (w.cur ≡ adding_into_ot)
      × (w.asked ≡ t.asked)
      × (w.sock ≡ t.sock)

  run-Stuck :
      (l : List (ConnEvt × ConnParas)) (t : Connector)
      → All NotAdded l
      → Stuck (conn_run l (record t { cur = adding_into_ot })) t
  run-Stuck [] t a = (record t { cur = adding_into_ot }, refl, refl, refl, refl)
  run-Stuck ((e, p) ∷ l) t (x, a) =
      let (code, evt, one) = waits_on e p t x in
      let (w, rest, cur, asked, sock) = run-Stuck l (record t { pending = evt }) a in
      (w, rw one rest, cur, asked, sock)

  failed_lem :
      (p : ConnParas) (n : ℕ) (t : Connector)
      → conn_added_into_io_task del_ret timer_ret p output_type
          (negsuc n)
          (record t { cur = adding_into_ot })
        ≡ some (record t { cur = adding_into_ot; pending = internal_err })
  unfolding conn_added_into_io_task conn_post conn_table reg_evt_state find_elem find assign
      post_evt run_elem ConnState-Enum ConnEvt-Enum Connector-HasState
  failed_lem p n t = refl

  -- When the output task reports that it could not add a connector, the connector stays in
  -- ES_ADDING_INTO_OT, with its socket: whatever events come then, but the one that it was added,
  -- it does not leave this state and asks nothing of the engine, not even when it is closed.
  pub failed_addition_stuck :
      (p : ConnParas) (n : ℕ) (t : Connector) (l : List (ConnEvt × ConnParas))
      → t.cur ≡ adding_into_ot
      → All NotAdded l
      → (u : Connector) × (w : Connector) × (conn_added_into_io_task del_ret timer_ret p output_type
            (negsuc n)
            t
          ≡ some u)
        × (conn_run l u ≡ some w)
        × (w.cur ≡ adding_into_ot)
        × (w.asked ≡ t.asked)
        × (w.sock ≡ t.sock)
  failed_addition_stuck p n t l adding a =
      let v : Connector = record t { pending = internal_err } in
      let (w, run, cur, asked, sock) = run-Stuck l v a in
      (
        record v { cur = adding_into_ot },
        w,
        ap
              (λ s.
                conn_added_into_io_task del_ret timer_ret p output_type (negsuc n)
                  (record t { cur = s }))
              adding
            ∙ failed_lem p n t,
        run,
        cur,
        asked,
        sock,
      )
