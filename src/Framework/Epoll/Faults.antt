-- ===== src/Framework/Epoll/Faults.antt =====
-- A refused EPOLL_CTL_ADD and its consequence over two rounds of CEpoll::exec.
use smart_net.Base.{
  ℕ, ℤ, negsuc, false, none, some, List, [], ◌∷◌, ◌++◌, ◌==◌, ◌≡◌, refl, ap, cmnerr_suc,
}
use smart_net.Base.OrderedSet.{contains, Ascending}
use smart_net.Framework.Caches.{removable, erase_each, insert_each}
use smart_net.Framework.IoObj.{IoObjs, get_io_evt}
use smart_net.Framework.Epoll.{
  Epoll, Call, Ask, Waited, del_ioobj, serve_all, call, del_loop, add_loop, dispatch, exec,
}
use smart_net.Framework.Epoll.Exec.{exec_aborts}

noted :
    (objs : IoObjs) (i : ℕ) (e : Epoll)
    → (get_io_evt e.io_type (objs i) == 0) ≡ false
    → del_ioobj objs i e ≡ (cmnerr_suc, record e { del_cache = e.del_cache ++ (i ∷ []) })
unfolding del_ioobj
noted objs i e evt = rw (evt, del_ioobj) refl

served :
    (objs : IoObjs) (i : ℕ) (e : Epoll)
    → (get_io_evt e.io_type (objs i) == 0) ≡ false
    → serve_all objs (Ask.ask_del i ∷ []) e ≡ record e { del_cache = e.del_cache ++ (i ∷ []) }
unfolding serve_all
served objs i e evt = ap (λ r. r.1) (noted objs i e evt)

-- An object that asks for its removal when epoll_ctl refused its addition, as acceptors do: a round
-- of CEpoll::exec with it as the only object to be added, nothing to be removed, and an interrupted
-- epoll_wait ends with CMNERR_SUC, and the next round aborts, whatever epoll_wait reports then,
-- when the object is not watched and has events of the task's type.
pub refused_aborts :
    {W : Type 0} (objs : IoObjs) (client : Call → W → W × List Ask) (ctl : ℕ → ℤ) (i n : ℕ) (w : W)
    (e : Epoll)
    → Ascending e.io_objs
    → contains i e.io_objs ≡ false
    → (get_io_evt e.io_type (objs i) == 0) ≡ false
    → ctl i ≡ negsuc n
    → (client (Call.added_into_io_task i (negsuc n)) w).1 ≡ Ask.ask_del i ∷ []
    → (w' : W) × (e' : Epoll) × (exec objs client ctl Waited.interrupted
          (w, record e { add_cache = i ∷ []; del_cache = [] })
        ≡ some (cmnerr_suc, w', e'))
      × ((outcome : Waited) → exec objs client ctl outcome (w', e') ≡ none)
unfolding exec del_loop add_loop erase_each insert_each call dispatch removable
refused_aborts objs client ctl i n w e a out evt refused asks =
    let e' : Epoll = record e { add_cache = []; del_cache = i ∷ [] } in
    (
      (client (Call.added_into_io_task i (negsuc n)) w).0,
      e',
      rw (refused, asks, served objs i (record e { add_cache = []; del_cache = [] }) evt) refl,
      λ outcome. exec_aborts objs client ctl outcome _ e' a (rw out refl),
    )
