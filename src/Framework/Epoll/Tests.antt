-- ===== src/Framework/Epoll/Tests.antt =====
-- A round of CEpoll::exec that removes one object and adds another, and one that cannot remove.
use smart_net.Base.{
  ℕ, pos, negsuc, true, not, ◌&&◌, ◌||◌, none, some, List, [], ◌∷◌, ◌≡◌, refl, arith, is_suc,
  cmnerr_suc, ◌+◌,
}
use smart_net.Base.OrderedSet.{contains, Ascending}
use smart_net.Framework.Caches.{removable, addable}
use smart_net.Framework.IoObj.{IoObjs, new_io_obj}
use smart_net.Framework.Epoll.{Epoll, Call, Ask, Waited, new_epoll, exec, evt_call}
use smart_net.Framework.Epoll.Exec.{understood, exec_lem}
use smart_net.Framework.Epoll.Faults.{refused_aborts}
use smart_net.Rup.Acceptor.{Acceptor, adding_into_it, none_evt}
use smart_net.Rup.Acceptor.Reports.{acc_client, acc_client-failed}

-- The calls are counted; an object whose addition failed is asked for again.
abbrev retry : Call → ℕ → ℕ × List Ask
retry (Call.deled_from_io_task i) n = (n + 1, [])
retry (Call.added_into_io_task i (pos c)) n = (n + 1, [])
retry (Call.added_into_io_task i (negsuc c)) n = (n + 1, Ask.ask_add i ∷ [])
retry (Call.input_evt i) n = (n + 1, [])
retry (Call.output_evt i) n = (n + 1, [])
retry (Call.io_error i) n = (n + 1, Ask.ask_del i ∷ [])

retry_quiet : (i n : ℕ) → (retry (Call.deled_from_io_task i) n).1 ≡ []
retry_quiet i n = refl

abbrev reads : IoObjs
reads i = record (new_io_obj) { input_evt = 1 }

abbrev two_objs : Epoll
two_objs = record (new_epoll) {
  epfd = pos 3;
  io_objs = 5 ∷ 9 ∷ [];
  add_cache = 7 ∷ [];
  del_cache = 9 ∷ [];
}

abbrev five_ready : Waited
five_ready = Waited.ready ((5, 1) ∷ [])

exec_lem_example :
    (s' : ℕ × Epoll) × (exec reads retry (λ i. pos 0) five_ready (0, two_objs)
      ≡ some (cmnerr_suc, s'.0, s'.1))
    × Ascending (s'.1).io_objs
    × ((k : ℕ)
        → contains k (s'.1).io_objs ≡ (
            (is_suc (pos 0) && contains k two_objs.add_cache)
            || (not (contains k two_objs.del_cache) && contains k two_objs.io_objs)))
unfolding removable addable understood evt_call
exec_lem_example =
    exec_lem reads retry (λ i. pos 0) five_ready 0 two_objs retry_quiet
      ((omega arith, tt), (tt, tt)) refl refl refl

-- An acceptor whose listener cannot be watched.
abbrev adding : Acceptor
adding = record { cur = adding_into_it; pending = none_evt; listener = some true; requests = [] }

refused_aborts_example :
    (w' : Acceptor) × (e' : Epoll) × (exec reads
        (acc_client (pos 0))
        (λ i. negsuc 0)
        Waited.interrupted
        (adding, record two_objs { add_cache = 0 ∷ []; del_cache = [] })
      ≡ some (cmnerr_suc, w', e'))
    × ((outcome : Waited) → exec reads (acc_client (pos 0)) (λ i. negsuc 0) outcome (w', e') ≡ none)
refused_aborts_example =
    refused_aborts reads (acc_client (pos 0)) (λ i. negsuc 0) 0 0 adding two_objs
      ((omega arith, tt), (tt, tt)) refl refl refl (acc_client-failed (pos 0) 0 0 true adding)
