-- ===== src/Rmp/Endpoint/Reports.antt =====
-- What the tasks report to CRmpEndpoint. What its socket's handle_can_send and handle_can_recv return is an
-- argument.
use smart_net.Base.{
  ℤ, Bool, ◌||◌, Option, some, if◌then◌else◌, ◌>>=◌, is_neg, is_suc, is_io_err, is_odata_ready,
  is_recv_pending, cmnerr_suc,
}
use smart_net.Framework.IoObj.{IoType, input_type, output_type}
use smart_net.Rup.Endpoint.{
  EpEvt, opened, internal_err, added_into_ot, added_into_it, deled_from_it_evt, deled_from_ot_evt,
  state_code,
}
use smart_net.Rmp.Endpoint.{RmpEndpoint, rmp_post}
use smart_net.Base.{◌==◌}

-- CRmpEndpoint::is_opened.
abbrev pub rmp_is_opened : RmpEndpoint → Bool
rmp_is_opened t = state_code t.cur == state_code opened

module _ (del_ret : ℤ) where
  -- An event whose code is not looked at; `joined` is read by EE_ADDED_INTO_IT only.
  abbrev pub rmp_report : ℤ → EpEvt → RmpEndpoint → Option RmpEndpoint
  rmp_report joined e t = rmp_post del_ret e joined t >>= λ r. some (r.1)

  abbrev pub added_evt : IoType → EpEvt
  added_evt input_type = added_into_it
  added_evt output_type = added_into_ot

  abbrev pub deled_evt : IoType → EpEvt
  deled_evt input_type = deled_from_it_evt
  deled_evt output_type = deled_from_ot_evt

  -- A failed addition is reported as an error, and then as an addition.
  unfoldable pub rmp_added_into_io_task : ℤ → IoType → ℤ → RmpEndpoint → Option RmpEndpoint
  rmp_added_into_io_task joined type code t =
      (if is_neg code then rmp_report joined internal_err t else some t) >>= λ t'.
      rmp_report joined (added_evt type) t'

  unfoldable pub rmp_deled_from_io_task : IoType → RmpEndpoint → Option RmpEndpoint
  rmp_deled_from_io_task type t = rmp_report cmnerr_suc (deled_evt type) t

  unfoldable pub rmp_io_error : RmpEndpoint → Option RmpEndpoint
  rmp_io_error t = rmp_report cmnerr_suc internal_err t

  unfoldable pub rmp_output_evt : (sent : ℤ) → RmpEndpoint → Option RmpEndpoint
  rmp_output_evt sent t =
      if rmp_is_opened t
      then (if is_io_err sent then rmp_report cmnerr_suc internal_err t else some t)
      else some t

  -- handle_input_evt, less the packets that it hands out.
  unfoldable pub rmp_input_evt : (recved : ℤ) → RmpEndpoint → Option RmpEndpoint
  rmp_input_evt recved t =
      if rmp_is_opened t
      then (if is_odata_ready recved || (is_recv_pending recved || is_suc recved)
          then some t
          else rmp_report cmnerr_suc internal_err t)
      else some t
