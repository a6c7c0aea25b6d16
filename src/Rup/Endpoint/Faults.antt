-- ===== src/Rup/Endpoint/Faults.antt =====
-- Two orders of events that CRupEndpoint does not survive.
use smart_net.Base.{ℤ, pos, Bool, true, false, none, some, ◌≡◌, refl, is_some, is_neg}
use smart_net.Rup.Endpoint.{
  Endpoint, internal_err, adding_into_ot, added_into_helper, closed, none_evt, connected,
}
use smart_net.Rup.Endpoint.Inv.{
  adding_err, closed_ignores, closed_opens, connect_twice, close_popped, Inv, Stays, post_total,
}
use smart_net.Rup.Endpoint.Io.{
  output_task, handle_added_into_io_task, open_endpoint, close_endpoint, pop, handle_connected,
}

module _ (del_ret : ℤ) where
  abbrev pub adding : Endpoint → Endpoint
  adding t = record t { cur = adding_into_ot }

  abbrev pub lost : Endpoint → Endpoint
  lost t = record t { cur = closed; pending = internal_err }

  added_err :
      (t : Endpoint) (ret : ℤ)
      → is_neg ret ≡ true
      → handle_added_into_io_task del_ret output_task ret (adding t) ≡ some (lost t)
  unfolding handle_added_into_io_task
  added_err t ret bad = rw (bad, adding_err del_ret t, closed_ignores del_ret (lost t)) refl

  -- When the output task cannot add an endpoint, the endpoint is closed, but the application is not
  -- told, since nothing is added to the log, and the socket is kept: when the endpoint is opened
  -- again, and its helper connects it, the process aborts.
  pub add_error_aborts :
      (t : Endpoint) (ret : ℤ) (b : Bool)
      → is_neg ret ≡ true
      → is_some t.sock ≡ true
      → (handle_added_into_io_task del_ret output_task ret (adding t) ≡ some (lost t))
        × (w : Endpoint) × (open_endpoint del_ret (lost t) ≡ some (pos 0, w))
        × (handle_connected del_ret b (pop w) ≡ none)
  add_error_aborts t ret b bad s = (
    added_err t ret bad,
    waiting,
    closed_opens del_ret (lost t),
    connect_twice del_ret (pop waiting) (some b) s,
  )
    where
      waiting : Endpoint
      waiting = record t {
        cur = added_into_helper;
        pending = none_evt;
        send_cnt = 0;
        recv_cnt = 0;
        send_store = 0;
        recv_store = 0;
        cycle_cnt = 0;
        will_close = false;
        in_helper = true;
      }

  -- The application closes an endpoint between the moment when the helper takes it out of its queue
  -- and the moment when it gives it the socket: the process aborts; without the call, the
  -- connection is processed.
  pub close_popped_aborts :
      (t : Endpoint)
      → Inv (record t { cur = added_into_helper })
      → (close_endpoint del_ret (pop (record t { cur = added_into_helper })) ≡ none)
        × (Stays del_ret connected (some true) (pop (record t { cur = added_into_helper })))
  close_popped_aborts t v = (
    close_popped del_ret (pop t) refl,
    post_total del_ret connected (some true) (pop (record t { cur = added_into_helper })) v
        (refl, refl),
  )
