-- ===== src/Framework/Timer/Exec.antt =====
-- One round of CTimeNotifier::exec.
use smart_net.Base.{
  ℕ, true, false, not, ◌&&◌, ◌||◌, none, some, List, [], ◌∷◌, ◌==◌, if◌then◌else◌, ◌≡◌, refl, ap,
  sym, ◌∙◌, arith, inl, inr, Bool-cases, All, ◌<◌,
}
use smart_net.Base.OrderedSet.{contains, Ascending, below-absent}
use smart_net.Framework.Caches.{
  removable, addable, addable-ext, erase_each_lem, erase_each_aborts, insert_each_lem,
  erase_each_same, insert_each_same, run_each, erase_each_run, insert_each_run,
}
use smart_net.Framework.Timer.{
  check, set_timer, TimerObj, Timers, TimeNotifier, TimerCall, TimerAsk, serve, serve_all, Task,
  call, timers_now, told_deled, told_added, del_loop, add_loop, check_one, check_loop, exec,
}

serve_all_keeps : (l : List TimerAsk) (n : TimeNotifier) → (serve_all l n).timers ≡ n.timers
unfolding serve_all
serve_all_keeps [] n = refl
serve_all_keeps (TimerAsk.ask_add i ∷ l) n = serve_all_keeps l (serve (TimerAsk.ask_add i) n)
serve_all_keeps (TimerAsk.ask_del i ∷ l) n = serve_all_keeps l (serve (TimerAsk.ask_del i) n)

-- The timers that are due.
abbrev pub due : ℕ → Timers → List ℕ → List ℕ
due now ts [] = []
due now ts (i ∷ l) = let rest = due now ts l in if (check now (ts i)).0 then i ∷ rest else rest

module _ {W : Type 0} (client : TimerCall → W → W × List TimerAsk) where
  call_keeps :
      (c : TimerCall) (s : Task client) → (call client c s).notifier.timers ≡ s.notifier.timers
  unfolding call
  call_keeps c s = serve_all_keeps ((client c s.world).1) s.notifier

  call_objs : (c : TimerCall) (s : Task client) → (call client c s).objs ≡ s.objs
  unfolding call
  call_objs c s = refl

  call_world : (c : TimerCall) (s : Task client) → (call client c s).world ≡ (client c s.world).0
  unfolding call
  call_world c s = refl

  check_one_keeps :
      (now i : ℕ) (s : Task client) → (check_one client now i s).notifier.timers ≡ s.notifier.timers
  check_one_keeps now i s = elim (Bool-cases (check now (s.objs i)).0) [
    | inl t ↦ rw t (call_keeps (TimerCall.on_timer i) _)
    | inr f ↦ rw f refl
  ]

  check_one_objs :
      (now i : ℕ) (s : Task client)
      → (check_one client now i s).objs ≡ set_timer i (check now (s.objs i)).1 s.objs
  check_one_objs now i s = elim (Bool-cases (check now (s.objs i)).0) [
    | inl t ↦ rw t (call_objs (TimerCall.on_timer i) _)
    | inr f ↦ rw f refl
  ]

  checked_once :
      (now i k : ℕ) (l : List ℕ) (s : Task client)
      → All (λ j. i < j) l
      → (if contains k l
          then (check now ((check_one client now i s).objs k)).1
          else (check_one client now i s).objs k)
        ≡ (if (k == i) || contains k l then (check now (s.objs k)).1 else s.objs k)
  checked_once now i k l s a = elim (Bool-cases (k == i)) [
    | inr f ↦ rw (ap (λ g. g k) (check_one_objs now i s)) (rw f refl)
    | inl t ↦
        let e : k ≡ i = ground arith in
        let absent : contains k l ≡ false = rw e (below-absent i l a) in
        rw (ap (λ g. g k) (check_one_objs now i s))
          (rw (absent, t) (ap (λ j. (check now (s.objs j)).1) (sym e)))
  ]

  pub check_loop_lem :
      (now : ℕ) (l : List ℕ) (s : Task client)
      → Ascending l
      → ((check_loop client now l s).notifier.timers ≡ s.notifier.timers)
        × ((k : ℕ)
            → (check_loop client now l s).objs k
              ≡ (if contains k l then (check now (s.objs k)).1 else s.objs k))
  unfolding check_loop
  check_loop_lem now [] s a = (refl, λ k. refl)
  check_loop_lem now (i ∷ l) s a =
      let (t, m) = check_loop_lem now l (check_one client now i s) (a.1) in
      (t ∙ check_one_keeps now i s, λ k. m k ∙ checked_once now i k l s (a.0))

  -- The calls of some timers, one after the other.
  abbrev pub calls : (ℕ → TimerCall) → List ℕ → W → W
  calls c = run_each (λ i w. (client (c i) w).0)

  check_one_world :
      (now i : ℕ) (s : Task client)
      → (check_one client now i s).world
        ≡ (if (check now (s.objs i)).0 then (client (TimerCall.on_timer i) s.world).0 else s.world)
  unfolding call
  check_one_world now i s = elim (Bool-cases (check now (s.objs i)).0) [
    | inl t ↦ rw t refl
    | inr f ↦ rw f refl
  ]

  due-set_timer :
      (now i : ℕ) (t : TimerObj) (ts : Timers) (l : List ℕ)
      → All (λ j. i < j) l
      → due now (set_timer i t ts) l ≡ due now ts l
  due-set_timer now i t ts [] a = refl
  due-set_timer now i t ts (j ∷ l) (less, a) =
      let other : (j == i) ≡ false = ground (arith, less) in
      rw (other, due-set_timer now i t ts l a) refl

  check_loop_world :
      (now : ℕ) (l : List ℕ) (s : Task client)
      → Ascending l
      → (check_loop client now l s).world ≡ calls TimerCall.on_timer (due now s.objs l) s.world
  unfolding check_loop
  check_loop_world now [] s a = refl
  check_loop_world now (i ∷ l) s a =
      let rest : due now (check_one client now i s).objs l ≡ due now s.objs l =
        ap (λ o. due now o l) (check_one_objs now i s)
        ∙ due-set_timer now i (check now (s.objs i)).1 s.objs l (a.0) in
      let later =
        check_loop_world now l (check_one client now i s) (a.1)
        ∙ ap (λ d. calls TimerCall.on_timer d (check_one client now i s).world) rest
        ∙ ap (calls TimerCall.on_timer (due now s.objs l)) (check_one_world now i s) in
      elim (Bool-cases (check now (s.objs i)).0) [
        | inl t ↦ later ∙ (rw t refl)
        | inr f ↦ later ∙ (rw f refl)
      ]

  -- A removed timer asks the task for nothing, and an added one neither.
  module _
      (deled_quiet : (i : ℕ) (v : W) → (client (TimerCall.del_from_timer_task i) v).1 ≡ []) where
    call_quiet :
        (i : ℕ) (s : Task client)
        → (call client (TimerCall.del_from_timer_task i) s).notifier ≡ s.notifier
    unfolding call serve_all
    call_quiet i s = rw (deled_quiet i s.world) refl

    -- A round of CTimeNotifier::exec removes the timers to be removed, adds those to be added, and
    -- then checks the timers that it holds and no other ones; it calls first each removed timer,
    -- then each added one, and then, exactly once and in their order, the timers that it holds and
    -- that are due, and nothing else, when removed timers ask for nothing, those to be removed are
    -- held and those to be added are not.
    pub exec-checked :
        (now : ℕ) (s : Task client)
        → Ascending s.notifier.timers
        → removable s.notifier.del_cache (λ k. contains k s.notifier.timers) ≡ true
        → addable
            (λ k. true)
            s.notifier.add_cache
            (λ k. not (contains k s.notifier.del_cache) && contains k s.notifier.timers)
          ≡ true
        → (s' : Task client) × (exec client now s ≡ some s')
          × Ascending s'.notifier.timers
          × ((k : ℕ)
              → contains k s'.notifier.timers ≡ (
                  contains k s.notifier.add_cache
                  || (not (contains k s.notifier.del_cache) && contains k s.notifier.timers)))
          × ((k : ℕ)
              → s'.objs k
                ≡ (if contains k s'.notifier.timers then (check now (s.objs k)).1 else s.objs k))
          × (s'.world
              ≡ calls TimerCall.on_timer (due now s.objs s'.notifier.timers) (
                  calls TimerCall.add_into_timer_task s.notifier.add_cache
                    (calls TimerCall.del_from_timer_task s.notifier.del_cache s.world)))
    unfolding exec del_loop add_loop
    exec-checked now s a dels adds =
        let n0 : TimeNotifier = record (s.notifier) { del_cache = [] } in
        let s0 : Task client = record s { notifier = n0 } in
        let (s1, p1, a1, m1) =
          erase_each_lem (timers_now client) (told_deled client)
            (λ i l t. call_keeps (TimerCall.del_from_timer_task i) _) s.notifier.del_cache s0 a
            dels in
        let cached : s1.notifier.add_cache ≡ s.notifier.add_cache =
          erase_each_same (timers_now client) (told_deled client) (λ t. t.notifier.add_cache)
            (λ i l t.
              ap (λ x. x.add_cache)
                (call_quiet i (record t { notifier = record (t.notifier) { timers = l } })))
            s.notifier.del_cache s0 s1 p1 in
        let objs1 : s1.objs ≡ s.objs =
          erase_each_same (timers_now client) (told_deled client) (λ t. t.objs)
            (λ i l t. call_objs (TimerCall.del_from_timer_task i) _) s.notifier.del_cache s0 s1
            p1 in
        let n1 : TimeNotifier = record (s1.notifier) { add_cache = [] } in
        let s1' : Task client = record s1 { notifier = n1 } in
        let adds' : addable (λ k. true) s.notifier.add_cache (λ k. contains k s1.notifier.timers)
            ≡ true =
          addable-ext _ s.notifier.add_cache _ _ m1 ∙ adds in
        let (s2, p2, a2, m2) =
          insert_each_lem (timers_now client) (told_added client)
            (λ i l t. call_keeps (TimerCall.add_into_timer_task i) _) (λ k. true)
            s.notifier.add_cache s1' a1 adds' in
        let objs2 : s2.objs ≡ s1.objs =
          insert_each_same (timers_now client) (told_added client) (λ t. t.objs)
            (λ i l t. call_objs (TimerCall.add_into_timer_task i) _) (λ k. true)
            s.notifier.add_cache s1' s2 p2 in
        let world1 : s1.world ≡ calls TimerCall.del_from_timer_task s.notifier.del_cache s.world =
          erase_each_run (timers_now client) (told_deled client) (λ t. t.world)
            (λ i w. (client (TimerCall.del_from_timer_task i) w).0)
            (λ i l t. call_world (TimerCall.del_from_timer_task i) _) s.notifier.del_cache s0 s1
            p1 in
        let world2 : s2.world ≡ calls TimerCall.add_into_timer_task s.notifier.add_cache s1.world =
          insert_each_run (timers_now client) (told_added client) (λ t. t.world)
            (λ i w. (client (TimerCall.add_into_timer_task i) w).0)
            (λ i l t. call_world (TimerCall.add_into_timer_task i) _) (λ k. true)
            s.notifier.add_cache s1' s2 p2 in
        let (k3, m3) = check_loop_lem now s2.notifier.timers s2 a2 in
        (
          check_loop client now s2.notifier.timers s2,
          rw p1 (rw cached (rw p2 refl)),
          rw k3 a2,
          λ k. ap (contains k) k3 ∙ m2 k ∙ ap (λ b. contains k s.notifier.add_cache || b) (m1 k),
          λ k. m3 k ∙ rw (k3, objs2, objs1) refl,
          check_loop_world now s2.notifier.timers s2 a2
              ∙ ap (λ o. calls TimerCall.on_timer (due now o s2.notifier.timers) s2.world)
                  (objs2 ∙ objs1)
              ∙ ap (calls TimerCall.on_timer (due now s.objs s2.notifier.timers))
                  (world2 ∙ ap (calls TimerCall.add_into_timer_task s.notifier.add_cache) world1)
              ∙ ap
                  (λ l. calls TimerCall.on_timer (due now s.objs l) (
                    calls TimerCall.add_into_timer_task s.notifier.add_cache
                      (calls TimerCall.del_from_timer_task s.notifier.del_cache s.world)))
                  (sym k3),
        )

  exec_timers_aborts :
      (now : ℕ) (s : Task client)
      → Ascending s.notifier.timers
      → removable s.notifier.del_cache (λ k. contains k s.notifier.timers) ≡ false
      → exec client now s ≡ none
  unfolding exec del_loop
  exec_timers_aborts now s a dels =
      rw
        (erase_each_aborts (timers_now client) (told_deled client)
          (λ i l t. call_keeps (TimerCall.del_from_timer_task i) _) s.notifier.del_cache
          (record s { notifier = record (s.notifier) { del_cache = [] } }) a dels)
        refl
