-- ===== src/Rup/Acceptor/Tests.antt =====
-- An acceptor with two endpoints, one of which waits.
use smart_net.Base.{ℕ, zero, suc, pos, true, false, none, some, [], ◌∷◌, ◌≡◌, refl}
use smart_net.Rup.Endpoint.{Endpoint}
use smart_net.Rup.Endpoint
use smart_net.Rup.Endpoint.Inv.{Inv}
use smart_net.Rup.Acceptor.{
  opened, none_evt, open_evt, close_evt, deled_from_it, Acceptor, listens, acc_post, on_closed,
  del_from_it, give,
}
use smart_net.Rup.Acceptor.Inv.{AccStays, acc_post_total, acc_reopen_aborts}
use smart_net.Rup.Acceptor.Give.{expected, give_lem}

abbrev acceptor : Acceptor
acceptor = record { cur = opened; pending = none_evt; listener = some true; requests = [] }

acc_post_total_example : AccStays (pos 0) close_evt listens acceptor
acc_post_total_example = acc_post_total (pos 0) refl close_evt listens acceptor refl tt

acc_reopen_aborts_example :
    (u : Acceptor) × (w : Acceptor) × (acc_post (pos 0) close_evt listens acceptor
      ≡ some (pos 0, u))
    × (acc_post (pos 0) deled_from_it listens u ≡ some (pos 0, w))
    × (w.requests ≡ on_closed ∷ del_from_it ∷ [])
    × (acc_post (pos 0) open_evt listens w ≡ none)
acc_reopen_aborts_example = acc_reopen_aborts (pos 0) refl acceptor refl

abbrev at_rest : Endpoint
at_rest = record {
  cur = Endpoint.closed;
  pending = Endpoint.none_evt;
  sock = none;
  in_helper = false;
  send_cnt = 0;
  recv_cnt = 0;
  send_store = 0;
  recv_store = 0;
  cycle_cnt = 0;
  will_close = false;
  log = [];
}

-- All but the endpoint 0 wait.
abbrev eps : ℕ → Endpoint
eps zero = at_rest
eps (suc n) = record at_rest { cur = Endpoint.added_into_helper; in_helper = true }

eps-Inv : (i : ℕ) → Inv (eps i)
eps-Inv zero = (refl, refl)
eps-Inv (suc n) = (refl, refl)

give_lem_example : give (pos 0) (0 ∷ 3 ∷ 5 ∷ []) eps ≡ some (expected (pos 0) (0 ∷ 3 ∷ 5 ∷ []) eps)
give_lem_example = give_lem (pos 0) (0 ∷ 3 ∷ 5 ∷ []) eps eps-Inv
