-- ===== src/Framework/Engine/Tests.antt =====
-- An engine with one task of each type, and the choice between two tasks.
use smart_net.Base.{ℕ, zero, suc, pos, negsuc, none, some, List, [], ◌∷◌, ◌≡◌, refl, arith, map}
use smart_net.Framework.IoObj.{input_type, new_io_obj, IoObjs, get_task_id}
use smart_net.Framework.Epoll.{Epoll, new_epoll, get_ioobj_cnt}
use smart_net.Framework.Task.{IoTask, task_cnt}
use smart_net.Framework.Engine.{
  Paras, new_engine, start, stop, add_endpoint, del_endpoint, add_to_least, del_from_own, counts,
  nth, put, engine_add_timer, engine_del_timer,
}
use smart_net.Framework.Engine.Choice.{FirstLeast}
use smart_net.Framework.Engine.Life.{start-stop, started_engine, stopped_aborts, all_open}
use smart_net.Framework.Engine.Placing.{place_lem, waits_to_add, waits_to_del}

abbrev one_each : Paras
one_each = record {
  input_cnt = 1;
  output_cnt = 1;
  evt_notifier = pos 2;
  output_fd = λ i. pos 5;
  input_fd = λ i. pos 6;
}

start-stop_example :
    (start one_each new_engine ≡ some (pos 0, started_engine one_each))
    × (start one_each (started_engine one_each) ≡ some (negsuc 0, started_engine one_each))
    × (stop (started_engine one_each) ≡ some (pos 0, new_engine))
    × (stop new_engine ≡ some (negsuc 0, new_engine))
unfolding all_open
start-stop_example = start-stop one_each refl refl refl refl

abbrev fresh_objs : IoObjs
fresh_objs i = record (new_io_obj) { input_evt = 1 }

stopped_refuses_tasks :
    (add_endpoint input_type 4 fresh_objs new_engine ≡ none)
    × (del_endpoint input_type 4 fresh_objs new_engine ≡ none)
    × (engine_add_timer 4 new_engine ≡ none)
    × (engine_del_timer 4 new_engine ≡ none)
stopped_refuses_tasks = stopped_aborts input_type 4 0 fresh_objs refl

abbrev busy_epoll : Epoll
busy_epoll = record (new_epoll) { epfd = pos 3; io_objs = 1 ∷ 2 ∷ [] }

abbrev idle_epoll : Epoll
idle_epoll = record (new_epoll) { epfd = pos 4; io_objs = 3 ∷ [] }

abbrev two_tasks : List IoTask
two_tasks =
    record { notifier = some busy_epoll; task_id = pos 0 }
    ∷ record { notifier = some idle_epoll; task_id = pos 1 }
    ∷ []

two_counts : counts two_tasks ≡ some (map pos (2 ∷ 1 ∷ []))
unfolding counts task_cnt get_ioobj_cnt
two_counts = refl

two_placed : (k : ℕ) (t : IoTask) → nth k two_tasks ≡ some t → t.task_id ≡ pos k
unfolding nth
two_placed zero t h = ground (arith, h)
two_placed (suc zero) t h = ground (arith, h)
two_placed (suc (suc k)) t h = cc

two_typed :
    (k : ℕ) (t : IoTask) (e : Epoll)
    → nth k two_tasks ≡ some t
    → t.notifier ≡ some e
    → e.io_type ≡ input_type
unfolding nth
two_typed zero t e h q = ground (arith, h, q)
two_typed (suc zero) t e h q = ground (arith, h, q)
two_typed (suc (suc k)) t e h q = cc

place_lem_example :
    (k : ℕ) × (m : ℕ) × FirstLeast (2 ∷ 1 ∷ []) k m
    × (t : IoTask) × (nth k two_tasks ≡ some t)
    × (e : Epoll) × (t.notifier ≡ some e)
    × (objs' : IoObjs) × (get_task_id input_type (objs' 4) ≡ pos k)
    × (add_to_least input_type 4 fresh_objs two_tasks
        ≡ some (objs', put k (waits_to_add 4 e t) two_tasks))
    × (del_from_own input_type 4 objs' (put k (waits_to_add 4 e t) two_tasks)
        ≡ some (put k (waits_to_del 4 e t) two_tasks))
place_lem_example =
    place_lem input_type 4 fresh_objs two_tasks 2 (1 ∷ []) two_counts two_placed two_typed
      (omega arith)
