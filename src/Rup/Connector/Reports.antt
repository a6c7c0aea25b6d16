-- ===== src/Rup/Connector/Reports.antt =====
-- What the output task and the timers report to CRupConnector, and its queue of idle endpoints, which is
-- handled as that of CRupAcceptor is.
use smart_net.Base.{
  ℕ, ℤ, Bool, true, false, Option, some, List, [], ◌∷◌, if◌then◌else◌, ◌>>=◌, ◌>>◌, cmn_assert,
  is_suc,
}
use smart_net.Framework.IoObj.{IoType, input_type, output_type}
use smart_net.Rup.Acceptor
use smart_net.Rup.Connector.{
  ConnEvt, connect, added_into_ot, deled_from_ot, internal_err, added_into_tt, connected,
  deled_from_tt, Connector, ConnParas, conn_post,
}

abbrev pub is_output : IoType → Bool
is_output input_type = false
is_output output_type = true

abbrev pub has_idle : List ℕ → Bool
has_idle [] = false
has_idle (i ∷ q) = true

module _ (del_ret timer_ret : ℤ) (paras : ConnParas) where
  -- An event whose code is not looked at.
  abbrev pub conn_report : ConnEvt → Connector → Option Connector
  conn_report e t = conn_post del_ret timer_ret e paras t >>= λ r. some (r.1)

  unfoldable pub conn_added_into_io_task : IoType → ℤ → Connector → Option Connector
  conn_added_into_io_task type code t = do
    cmn_assert (is_output type)
    (if is_suc code
        then conn_report added_into_ot t
        else (conn_post del_ret timer_ret internal_err paras t >>= λ r.
            cmn_assert (is_suc (r.0)) >> some (r.1)))

  unfoldable pub conn_deled_from_io_task : IoType → Connector → Option Connector
  conn_deled_from_io_task type t = do cmn_assert (is_output type); conn_report deled_from_ot t

  unfoldable pub conn_output_evt : Connector → Option Connector
  conn_output_evt t = conn_report connected t

  unfoldable pub conn_io_error : Connector → Option Connector
  conn_io_error t = conn_report internal_err t

  unfoldable pub conn_add_into_timer_task : Connector → Option Connector
  conn_add_into_timer_task t = conn_report added_into_tt t

  unfoldable pub conn_del_from_timer_task : Connector → Option Connector
  conn_del_from_timer_task t = conn_report deled_from_tt t

  -- A connection is tried only while an endpoint waits.
  unfoldable pub conn_on_timer : Connector → Option Connector
  conn_on_timer t = if has_idle t.idle then conn_report connect t else some t

module _ (del_ret : ℤ) where
  -- CRupConnector::add_endpoint and del_endpoint.
  unfoldable pub conn_add_endpoint : ℕ → Connector → Connector
  conn_add_endpoint i t = record t { idle = Acceptor.add_endpoint del_ret i t.idle }

  unfoldable pub conn_del_endpoint : ℕ → Connector → Option Connector
  conn_del_endpoint i t =
      Acceptor.del_endpoint del_ret i t.idle >>= λ q. some (record t { idle = q })
