-- ===== src/Rup/Acceptor/Reports.antt =====
-- What the input task reports to CRupAcceptor: handle_added_into_io_task, handle_deled_from_io_task and
-- handle_io_error of libsmart_net/src/smart_net/sn_endpoint_impl.cpp.
use smart_net.Base.{
  ℕ, ℤ, negsuc, Bool, true, false, Option, none, some, List, [], ◌∷◌, ◌≡◌, refl, is_neg, is_suc,
  if◌then◌else◌, ◌>>=◌, ◌>>◌, cmn_assert,
}
use smart_net.StateMachine.{find_elem, reg_evt_state, find, assign, post_evt, run_elem}
use smart_net.Framework.IoObj.{IoType, input_type, output_type}
use smart_net.Framework.Epoll.{Call, Ask}
use smart_net.Rup.Acceptor.{
  adding_into_it, deling_from_it, AccEvt, added_into_it, deled_from_it, internal_err, Acceptor,
  listens, AccState-Enum, AccEvt-Enum, Acceptor-HasState, add_to_it, del_from_it, AccRequest,
  on_opened, on_closed, acc_post, acc_table,
}

abbrev pub is_input : IoType → Bool
is_input input_type = true
is_input output_type = false

module _ (del_ret : ℤ) where
  -- An event that has no arguments, and whose code is not looked at, or is asserted to be CMNERR_SUC.
  abbrev pub acc_report : AccEvt → Acceptor → Option Acceptor
  acc_report e t = acc_post del_ret e listens t >>= λ r. some (r.1)

  abbrev pub acc_demand : AccEvt → Acceptor → Option Acceptor
  acc_demand e t = acc_post del_ret e listens t >>= λ r. cmn_assert (is_suc (r.0)) >> some (r.1)

  -- A failed addition is reported as an error, and then as an addition.
  unfoldable pub acc_added_into_io_task : IoType → ℤ → Acceptor → Option Acceptor
  acc_added_into_io_task type code t = do
    cmn_assert (is_input type)
    t' ← if is_neg code then acc_report internal_err t else some t
    acc_report added_into_it t'

  unfoldable pub acc_deled_from_io_task : IoType → Acceptor → Option Acceptor
  acc_deled_from_io_task type t = do cmn_assert (is_input type); acc_demand deled_from_it t

  unfoldable pub acc_io_error : Acceptor → Option Acceptor
  acc_io_error t = acc_demand internal_err t

  -- What an acceptor asked for that it had not asked for before.
  abbrev pub acc_asks : List AccRequest → List Ask
  acc_asks [] = []
  acc_asks (add_to_it ∷ l) = Ask.ask_add 0 ∷ []
  acc_asks (del_from_it ∷ l) = Ask.ask_del 0 ∷ []
  acc_asks (on_opened ∷ l) = []
  acc_asks (on_closed ∷ l) = []

  -- The acceptor whose address is 0 as the object that a task calls about its addition.
  pub acc_client : Call → Acceptor → Acceptor × List Ask
  acc_client (Call.added_into_io_task i code) t = elim (acc_added_into_io_task input_type code t) [
    | none ↦ (t, [])
    | some t' ↦ (t', acc_asks t'.requests)
  ]
  acc_client c t = (t, [])

  -- An acceptor whose addition failed closes its listener and asks to be removed.
  pub failed_addition :
      (n : ℕ) (b : Bool) (t : Acceptor)
      → acc_added_into_io_task input_type
          (negsuc n)
          (record t { cur = adding_into_it; listener = some b })
        ≡ some (record t {
          cur = deling_from_it;
          pending = internal_err;
          listener = some false;
          requests = del_from_it ∷ t.requests;
        })
  unfolding acc_added_into_io_task acc_post acc_table reg_evt_state find_elem find assign post_evt
      run_elem AccState-Enum AccEvt-Enum Acceptor-HasState
  failed_addition n b t = refl

  pub acc_client-failed :
      (i n : ℕ) (b : Bool) (t : Acceptor)
      → (acc_client
          (Call.added_into_io_task i (negsuc n))
          (record t { cur = adding_into_it; listener = some b })).1
        ≡ Ask.ask_del 0 ∷ []
  unfolding acc_client
  acc_client-failed i n b t = rw (failed_addition n b t, acc_client) refl
