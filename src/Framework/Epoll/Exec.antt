-- ===== src/Framework/Epoll/Exec.antt =====
-- CEpoll::exec as a whole.
use smart_net.Base.{
  ℕ, ℤ, Bool, true, false, not, ◌&&◌, ◌||◌, none, some, List, [], ◌∷◌, ◌≡◌, refl, ap, ◌∙◌, arith,
  inl, inr, is_suc, is_some, Option-cases, cmnerr_suc,
}
use smart_net.Base.OrderedSet.{contains, Ascending}
use smart_net.Framework.IoObj.{IoObjs}
use smart_net.Framework.Epoll.{
  Epoll, Call, Ask, Waited, serve_all, call, del_loop, add_loop, evt_call, evt_loop, dispatch, exec,
  watched, told_deled, told_added,
}
use smart_net.Framework.Epoll.Rounds.{call_keeps}
use smart_net.Framework.Caches.{
  removable, addable, addable-ext, erase_each_lem, erase_each_aborts, insert_each_lem,
  erase_each_same,
}

-- epoll_wait did not fail, and reports of each object an event that the code knows.
unfoldable pub understood : Waited → Bool
understood Waited.interrupted = true
understood Waited.failed = false
understood (Waited.ready []) = true
understood (Waited.ready ((i, evts) ∷ l)) = is_some (evt_call i evts) && understood (Waited.ready l)

module _ {W : Type 0} (objs : IoObjs) (client : Call → W → W × List Ask) where
  evt_loop_lem :
      (l : List (ℕ × ℕ)) (s : W × Epoll)
      → understood (Waited.ready l) ≡ true
      → (s' : W × Epoll) × (evt_loop objs client l s ≡ some s') × ((s'.1).io_objs ≡ (s.1).io_objs)
  unfolding evt_loop understood
  evt_loop_lem [] s h = (s, refl, refl)
  evt_loop_lem ((i, evts) ∷ l) s h = elim (Option-cases (evt_call i evts)) [
    | inl n ↦ absurd (ground (arith, h))
    | inr (c, q) ↦
        let (s', p, k) = evt_loop_lem l (call objs client c s) (ground (arith, h)) in
        (s', rw q p, k ∙ call_keeps objs client c s)
  ]

  -- A removed object asks nothing of the task that removed it.
  module _ (quiet : (i : ℕ) (w : W) → (client (Call.deled_from_io_task i) w).1 ≡ []) where
    call_quiet :
        (i : ℕ) (w : W) (e : Epoll) → (call objs client (Call.deled_from_io_task i) (w, e)).1 ≡ e
    unfolding call serve_all
    call_quiet i w e = rw (quiet i w) refl

    del_loop_quiet :
        (l : List ℕ) (s s' : W × Epoll)
        → del_loop objs client l s ≡ some s'
        → (s'.1).add_cache ≡ (s.1).add_cache
    unfolding del_loop
    del_loop_quiet =
        erase_each_same (watched objs client) (told_deled objs client) (λ s. (s.1).add_cache)
          (λ i l s. ap (λ x. x.add_cache) (call_quiet i (s.0) (record (s.1) { io_objs = l })))

  dispatch_lem :
      (outcome : Waited) (s : W × Epoll)
      → understood outcome ≡ true
      → (s' : W × Epoll) × (dispatch objs client outcome s ≡ some (cmnerr_suc, s'.0, s'.1))
        × ((s'.1).io_objs ≡ (s.1).io_objs)
  unfolding dispatch understood
  dispatch_lem Waited.interrupted s h = (s, refl, refl)
  dispatch_lem Waited.failed s h = cc
  dispatch_lem (Waited.ready evts) s h =
      let (s', p, k) = evt_loop_lem evts s h in (s', rw p refl, k)

  -- A round of CEpoll::exec returns CMNERR_SUC and leaves as the watched objects those to be added
  -- that epoll_ctl accepts and the others that were not to be removed, when removed objects ask
  -- nothing of their task, those to be removed are watched, those to be added are not, and
  -- epoll_wait reports what the code knows.
  pub exec_lem :
      (ctl : ℕ → ℤ) (outcome : Waited) (w : W) (e : Epoll)
      → ((i : ℕ) (v : W) → (client (Call.deled_from_io_task i) v).1 ≡ [])
      → Ascending e.io_objs
      → removable e.del_cache (λ k. contains k e.io_objs) ≡ true
      → addable
          (λ k. is_suc (ctl k))
          e.add_cache
          (λ k. not (contains k e.del_cache) && contains k e.io_objs)
        ≡ true
      → understood outcome ≡ true
      → (s' : W × Epoll) × (exec objs client ctl outcome (w, e) ≡ some (cmnerr_suc, s'.0, s'.1))
        × Ascending (s'.1).io_objs
        × ((k : ℕ)
            → contains k (s'.1).io_objs ≡ (
                (is_suc (ctl k) && contains k e.add_cache)
                || (not (contains k e.del_cache) && contains k e.io_objs)))
  unfolding exec del_loop add_loop
  exec_lem ctl outcome w e quiet a dels adds und =
      let s0 : W × Epoll = (w, record e { del_cache = [] }) in
      let (s1, p1, a1, m1) =
        erase_each_lem (watched objs client) (told_deled objs client)
          (λ i l s. call_keeps objs client (Call.deled_from_io_task i) _) e.del_cache s0 a dels in
      let cached : (s1.1).add_cache ≡ e.add_cache = del_loop_quiet quiet e.del_cache s0 s1 p1 in
      let s1' : W × Epoll = (s1.0, record (s1.1) { add_cache = [] }) in
      let adds' : addable (λ k. is_suc (ctl k)) e.add_cache (λ k. contains k (s1.1).io_objs)
          ≡ true =
        addable-ext _ e.add_cache _ _ m1 ∙ adds in
      let (s2, p2, a2, m2) =
        insert_each_lem (watched objs client) (told_added objs client ctl)
          (λ i l s. call_keeps objs client (Call.added_into_io_task i (ctl i)) _)
          (λ k. is_suc (ctl k)) e.add_cache s1' a1 adds' in
      let (s3, p3, k3) = dispatch_lem outcome s2 und in
      (
        s3,
        rw p1 (rw cached (rw p2 p3)),
        rw k3 a2,
        λ k.
            ap (contains k) k3
            ∙ m2 k
            ∙ ap (λ b. (is_suc (ctl k) && contains k e.add_cache) || b) (m1 k),
      )

  -- A round of CEpoll::exec aborts when an object to be removed is not watched, as one whose
  -- addition still waits, was refused by epoll_ctl, or that is removed twice.
  pub exec_aborts :
      (ctl : ℕ → ℤ) (outcome : Waited) (w : W) (e : Epoll)
      → Ascending e.io_objs
      → removable e.del_cache (λ k. contains k e.io_objs) ≡ false
      → exec objs client ctl outcome (w, e) ≡ none
  unfolding exec del_loop
  exec_aborts ctl outcome w e a dels =
      rw
        (erase_each_aborts (watched objs client) (told_deled objs client)
          (λ i l s. call_keeps objs client (Call.deled_from_io_task i) _) e.del_cache
          (w, record e { del_cache = [] }) a dels)
        refl
