-- ===== src/Rup/Connector/Tests.antt =====
-- A connector that has just connected, with no endpoint that waits.
use smart_net.Base.{pos, negsuc, true, false, none, some, [], ◌∷◌, ◌≡◌, refl, inl}
use smart_net.Rup.Endpoint.{Endpoint}
use smart_net.Rup.Endpoint
use smart_net.Rup.Connector.{
  Connector, ConnParas, adding_into_ot, deling_from_ot_normal, none_evt, deled_from_ot,
}
use smart_net.Framework.IoObj.{output_type}
use smart_net.Rup.Connector.Inv.{ConnStays, conn_post_total}
use smart_net.Rup.Connector.Reports.{conn_added_into_io_task}
use smart_net.Rup.Connector.Stuck.{conn_run, failed_addition_stuck}
use smart_net.Rup.Connector.{connect, close_evt}

abbrev at_rest : Endpoint
at_rest = record {
  cur = Endpoint.closed;
  pending = Endpoint.none_evt;
  sock = none;
  in_helper = false;
  send_cnt = 0;
  recv_cnt = 0;
  send_store = 0;
  recv_store = 0;
  cycle_cnt = 0;
  will_close = false;
  log = [];
}

abbrev paras : ConnParas
paras = record { interval_us = 1000; sock_opens = true }

abbrev linked : Connector
linked = record {
  cur = deling_from_ot_normal;
  pending = none_evt;
  sock = some true;
  interval = 1000;
  idle = 4 ∷ [];
  eps = λ i. at_rest;
  asked = [];
}

conn_post_total_example : ConnStays (pos 0) (pos 0) deled_from_ot paras linked
conn_post_total_example =
    conn_post_total (pos 0) (pos 0) deled_from_ot paras linked ((refl, inl refl), λ i. (refl, refl))
      tt

-- Afterwards its timer is due, and the application closes it.
failed_addition_stuck_example :
    (u : Connector) × (w : Connector) × (conn_added_into_io_task
        (pos 0)
        (pos 0)
        paras
        output_type
        (negsuc 3)
        (record linked { cur = adding_into_ot })
      ≡ some u)
    × (conn_run (pos 0) (pos 0) ((connect, paras) ∷ (close_evt, paras) ∷ []) u ≡ some w)
    × (w.cur ≡ adding_into_ot)
    × (w.asked ≡ linked.asked)
    × (w.sock ≡ linked.sock)
failed_addition_stuck_example =
    failed_addition_stuck (pos 0) (pos 0) paras 3 (record linked { cur = adding_into_ot })
      ((connect, paras) ∷ (close_evt, paras) ∷ []) refl (tt, (tt, tt))
