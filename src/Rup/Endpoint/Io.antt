-- ===== src/Rup/Endpoint/Io.antt =====
-- What CRupEndpoint does when its socket is ready and when the engine's tasks report to it, and its
-- calls by the application. `code` stands for what the socket's handle_can_recv or handle_can_send
-- returns.
use smart_net.Base.{
  ℕ, zero, suc, ◌+◌, ◌%◌, ◌^◌, ℤ, Bool, true, false, Option, none, some, is_some, ◌>>=◌, ◌>>◌,
  cmn_assert, is_neg, is_suc, is_io_err, is_recv_pending, if◌then◌else◌, ltb, ◌==◌, inc64,
  cmnerr_suc, cmnerr_common_err,
}
use smart_net.Rup.Endpoint.{
  EpEvt, open_evt, close_evt, internal_err, connected, added_into_ot, added_into_it,
  deled_from_it_evt, deled_from_ot_evt, Endpoint, post, on_recved_data, send_hb, ask, state_code,
}

pub data IoType : Type 0 where
  input_task : IoType
  output_task : IoType

abbrev pub is_opened : Endpoint → Bool
is_opened t = state_code t.cur == 2

abbrev pub max_cycle_cnt : ℕ
max_cycle_cnt = 10000000

-- "need send hb?"
unfoldable pub send_hb_if_idle : Endpoint → Endpoint
send_hb_if_idle t =
    if t.send_cnt == t.send_store then ask send_hb t else record t { send_store = t.send_cnt }

-- The helper takes the endpoint out of its queue, before it gives it the socket.
abbrev pub pop : Endpoint → Endpoint
pop t = record t { in_helper = false }

module _ (del_ret : ℤ) where
  -- An event whose result the source does not look at.
  abbrev pub tell : EpEvt → Endpoint → Option Endpoint
  tell e t = do (code, t') ← post del_ret e none t; some t'

  abbrev pub open_endpoint : Endpoint → Option (ℤ × Endpoint)
  open_endpoint t = post del_ret open_evt none t

  abbrev pub close_endpoint : Endpoint → Option (ℤ × Endpoint)
  close_endpoint t = post del_ret close_evt none t

  abbrev pub handle_connected : Bool → Endpoint → Option (ℤ × Endpoint)
  handle_connected sock_opened t = post del_ret connected (some sock_opened) t

  unfoldable pub handle_added_into_io_task : IoType → ℤ → Endpoint → Option Endpoint
  handle_added_into_io_task io ret t = do
    noted ← (if is_neg ret then tell internal_err t else some t)
    tell (elim io [ input_task ↦ added_into_it | output_task ↦ added_into_ot ]) noted

  unfoldable pub handle_deled_from_io_task : IoType → Endpoint → Option Endpoint
  handle_deled_from_io_task input_task t = tell deled_from_it_evt t
  handle_deled_from_io_task output_task t = tell deled_from_ot_evt t

  unfoldable pub handle_io_error : Endpoint → Option Endpoint
  handle_io_error t = tell internal_err t

  unfoldable pub handle_input_evt : ℤ → Endpoint → Option Endpoint
  handle_input_evt code t =
      let counted = record t { recv_cnt = inc64 t.recv_cnt } in
      if is_opened t
      then (do
        cmn_assert (is_some t.sock)
        (if is_suc code
            then some (ask on_recved_data counted)
            else if is_recv_pending code
            then none
            else tell internal_err counted))
      else some t

  -- "peer is alive?"
  unfoldable pub check_peer : Endpoint → Option Endpoint
  check_peer t =
      if t.recv_cnt == t.recv_store
      then (if t.will_close then tell internal_err t else some (record t { will_close = true }))
      else some (record t { will_close = false; recv_store = t.recv_cnt })

  unfoldable pub keep_alive : Endpoint → Option Endpoint
  keep_alive t =
      let cycle = (t.cycle_cnt + 1) % 2 ^ 32 in
      if ltb max_cycle_cnt cycle
      then check_peer (send_hb_if_idle (record t { cycle_cnt = 0 }))
      else some (record t { cycle_cnt = cycle })

  unfoldable pub handle_output_evt : ℤ → Endpoint → Option Endpoint
  handle_output_evt code t =
      if is_opened t
      then (do
        cmn_assert (is_some t.sock)
        (if is_io_err code then tell internal_err t else keep_alive t))
      else some t

  -- CRupEndpoint::send_data: `code` is what the socket's send returns.
  unfoldable pub send_data : ℤ → Endpoint → Option (ℤ × Endpoint)
  send_data code t =
      let counted = record t { send_cnt = inc64 t.send_cnt } in
      if is_opened t
      then (do cmn_assert (is_some t.sock); some (code, counted))
      else some (cmnerr_common_err, counted)

  -- `n` times that the socket can be written, without an error and with nothing received between.
  unfoldable pub quiet_outputs : ℕ → Endpoint → Option Endpoint
  quiet_outputs zero t = some t
  quiet_outputs (suc n) t = do t' ← handle_output_evt cmnerr_suc t; quiet_outputs n t'
