-- ===== src/Rup/Endpoint/Tests.antt =====
-- Endpoints in several states, and their theorems at concrete events.
use smart_net.Base.{
  suc, pos, true, false, none, some, ◌∷◌, [], ◌≡◌, refl, arith, cmnerr_suc, cmnerr_common_err,
}
use smart_net.Rup.Endpoint.{
  Endpoint, closed, opened, added_into_helper, deling_from_it, none_evt, close_evt, connected,
  del_from_it,
}
use smart_net.Rup.Endpoint.Inv.{Stays, post_total}
use smart_net.Rup.Endpoint.Io.{
  max_cycle_cnt, send_hb_if_idle, quiet_outputs, handle_added_into_io_task, output_task,
  open_endpoint, close_endpoint, pop, handle_connected,
}
use smart_net.Rup.Endpoint.Reports.{Goes, report, report_total, output_ready}
use smart_net.Rup.Endpoint.KeepAlive.{silent_peer_cut, heard_peer_kept}
use smart_net.Rup.Endpoint.Faults.{adding, lost, add_error_aborts, close_popped_aborts}

abbrev idle : Endpoint
idle = record {
  cur = closed;
  pending = none_evt;
  sock = none;
  in_helper = false;
  send_cnt = 0;
  recv_cnt = 0;
  send_store = 0;
  recv_store = 0;
  cycle_cnt = 0;
  will_close = false;
  log = [];
}

abbrev waiting : Endpoint
waiting = record idle { cur = added_into_helper; in_helper = true }

abbrev running : Endpoint
running = record idle { cur = opened; sock = some true }

post_total_example : Stays (pos 0) close_evt none running
post_total_example = post_total (pos 0) close_evt none running (refl, refl) tt

report_total_example : Goes (pos 0) (report (pos 0) (output_ready cmnerr_suc) running)
report_total_example = report_total (pos 0) (output_ready cmnerr_suc) running (refl, refl) tt

silent_peer_cut_example :
    (u : Endpoint) × (quiet_outputs (pos 0) (suc max_cycle_cnt) running ≡ some u)
    × (u.cur ≡ opened)
    × (u.sock ≡ some true)
    × (u.will_close ≡ true)
    × (w : Endpoint) × (quiet_outputs (pos 0) (suc max_cycle_cnt) u ≡ some w)
    × (w.cur ≡ deling_from_it)
    × (w.sock ≡ some false)
    × (w.log ≡ del_from_it ∷ (send_hb_if_idle (record u { cycle_cnt = 0 })).log)
silent_peer_cut_example =
    silent_peer_cut (pos 0) max_cycle_cnt running true refl refl refl refl refl refl refl

-- The peer was heard three times, and warned before.
abbrev heard : Endpoint
heard = record running { recv_cnt = 3; will_close = true }

heard_peer_kept_example :
    (u : Endpoint) × (quiet_outputs (pos 0) (suc max_cycle_cnt) heard ≡ some u)
    × (u.cur ≡ opened)
    × (u.sock ≡ heard.sock)
    × (u.will_close ≡ false)
    × (u.recv_store ≡ u.recv_cnt)
    × (u.cycle_cnt ≡ 0)
heard_peer_kept_example =
    heard_peer_kept (pos 0) max_cycle_cnt heard refl refl refl refl (omega arith)

add_error_aborts_example :
    (handle_added_into_io_task (pos 0) output_task cmnerr_common_err (adding (pos 0) running)
      ≡ some (lost (pos 0) running))
    × (w : Endpoint) × (open_endpoint (pos 0) (lost (pos 0) running) ≡ some (pos 0, w))
    × (handle_connected (pos 0) true (pop w) ≡ none)
add_error_aborts_example = add_error_aborts (pos 0) running cmnerr_common_err true refl refl

close_popped_aborts_example :
    (close_endpoint (pos 0) (pop waiting) ≡ none)
    × Stays (pos 0) connected (some true) (pop waiting)
close_popped_aborts_example = close_popped_aborts (pos 0) waiting (refl, refl)
