-- ===== src/Framework/Timer/Tests.antt =====
-- Timers that are checked every two microseconds, and a round of CTimeNotifier::exec.
use smart_net.Base.{
  ℕ, ◌+◌, not, ◌&&◌, ◌||◌, some, List, [], ◌∷◌, ◌≡◌, refl, arith, if◌then◌else◌, In,
}
use smart_net.Base.OrderedSet.{contains, Ascending}
use smart_net.Framework.Caches.{removable, addable}
use smart_net.Framework.Timer.{new_timer, set_interval, check, TimerCall, TimerAsk, Task, exec}
use smart_net.Framework.Timer.Period.{fire_times, Spaced, Recent, fire_times_lem}
use smart_net.Framework.Timer.Exec.{due, calls, exec-checked}

fire_times_run : fire_times (1 ∷ 3 ∷ 5 ∷ 7 ∷ 9 ∷ []) (set_interval 3 new_timer) ≡ 1 ∷ 5 ∷ 9 ∷ []
unfolding fire_times check
fire_times_run = refl

fire_times_lem_example :
    (fired : List ℕ) × (fire_times (1 ∷ 3 ∷ 5 ∷ 7 ∷ []) (set_interval 3 new_timer) ≡ 1 ∷ fired)
    × Spaced 3 1 fired
    × ((x : ℕ) → In x (1 ∷ 3 ∷ 5 ∷ 7 ∷ []) → Recent 3 x (1 ∷ fired))
fire_times_lem_example =
    fire_times_lem 3 1 (3 ∷ 5 ∷ 7 ∷ []) (omega arith)
      (omega arith, (omega arith, (omega arith, tt)))
      (omega arith, (omega arith, (omega arith, (omega arith, tt))))

-- Every call is counted.
abbrev count : TimerCall → ℕ → ℕ × List TimerAsk
count c n = (n + 1, [])

count_quiet : (i n : ℕ) → (count (TimerCall.del_from_timer_task i) n).1 ≡ []
count_quiet i n = refl

abbrev busy_task : Task count
busy_task = record {
  world = 0;
  objs = λ i. set_interval 3 new_timer;
  notifier = record { timers = 5 ∷ 9 ∷ []; add_cache = 7 ∷ []; del_cache = 9 ∷ [] };
}

exec-checked_example :
    (s' : Task count) × (exec count 100 busy_task ≡ some s')
    × Ascending s'.notifier.timers
    × ((k : ℕ)
        → contains k s'.notifier.timers ≡ (
            contains k busy_task.notifier.add_cache
            || (not (contains k busy_task.notifier.del_cache)
                && contains k busy_task.notifier.timers)))
    × ((k : ℕ)
        → s'.objs k ≡ (
            if contains k s'.notifier.timers
            then (check 100 (busy_task.objs k)).1
            else busy_task.objs k))
    × (s'.world ≡ calls count TimerCall.on_timer (due 100 busy_task.objs s'.notifier.timers) 2)
unfolding removable addable
exec-checked_example =
    exec-checked count count_quiet 100 busy_task ((omega arith, tt), (tt, tt)) refl refl
