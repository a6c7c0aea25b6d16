-- ===== src/Framework/Engine/Life.antt =====
-- CSNEngine::start and stop: the branches of starting, and a whole cycle.
use smart_net.Base.{
  ℕ, zero, suc, ℤ, pos, negsuc, ◌+◌, Bool, true, false, not, ◌&&◌, Option, none, some, List, [],
  ◌∷◌, ◌++◌, length, ◌==◌, if◌then◌else◌, ◌≡◌, refl, ap, ap₂, sym, length-append, append_nil,
  append_assoc, ◌∙◌, arith, inl, inr, Bool-cases, is_neg, cmnerr_suc,
}
use smart_net.StateMachine.{find, assign, find_elem, reg_evt_state, run_elem, post_evt}
use smart_net.Framework.IoObj.{IoType, input_type, output_type, IoObjs, get_task_id}
use smart_net.Framework.Epoll.{init, destroy, new_epoll}
use smart_net.Framework.Task.{IoTask, task_init, task_destroy, set_id}
use smart_net.Framework.Timer.{new_time_notifier, misc_init}
use smart_net.Framework.Engine.{
  EngineState, EngineState-Enum, EngineEvt-Enum, Engine, Engine-HasState, Paras, stop_evt, stopped,
  started, new_engine, push_output, push_input, start_tasks, starting_with, stopping, destroy_all,
  engine_table, engine_post, start, stop, output_thread, input_thread, misc_thread, Thread,
  add_endpoint, del_endpoint, add_to_least, counts, del_from_own, nth, engine_add_timer,
  engine_del_timer,
}

-- What run_elem makes of the code of a handler.
abbrev decided : EngineState → Option (ℤ × Engine) → Option (ℤ × Engine)
decided next r = elim r [
  | none ↦ none
  | some (code, e) ↦
      if is_neg code then some (negsuc 1, e) else some (pos 0, record e { cur = next })
]

start-stopped :
    (p : Paras) (e : Engine)
    → start p (record e { cur = stopped })
      ≡ decided started (starting_with p (record e { cur = stopped }))
unfolding start engine_post engine_table reg_evt_state find_elem find assign post_evt run_elem
    EngineState-Enum EngineEvt-Enum Engine-HasState
start-stopped p e = refl

stop-started :
    (e : Engine)
    → stop (record e { cur = started })
      ≡ decided stopped (stopping started stop_evt stopped none (record e { cur = started }))
unfolding stop engine_post engine_table reg_evt_state find_elem find assign post_evt run_elem
    EngineState-Enum EngineEvt-Enum Engine-HasState
stop-started e = refl

start-started :
    (p : Paras) (e : Engine)
    → start p (record e { cur = started }) ≡ some (negsuc 0, record e { cur = started })
unfolding start engine_post engine_table reg_evt_state find_elem find assign post_evt run_elem
    EngineState-Enum EngineEvt-Enum Engine-HasState
start-started p e = refl

stop-stopped :
    (e : Engine) → stop (record e { cur = stopped }) ≡ some (negsuc 0, record e { cur = stopped })
unfolding stop engine_post engine_table reg_evt_state find_elem find assign post_evt run_elem
    EngineState-Enum EngineEvt-Enum Engine-HasState
stop-stopped e = refl

-- A task that watches nothing yet.
abbrev opened_task : IoType → ℤ → IoTask
opened_task type fd = record {
  notifier = some (record (new_epoll) { epfd = fd; io_type = type });
  task_id = negsuc 0;
}

unfoldable pub all_open : (ℕ → ℤ) → (n i : ℕ) → Bool
all_open fd zero i = true
all_open fd (suc n) i = not (is_neg (fd i)) && all_open fd n (i + 1)

push_all : IoType → (IoTask → Engine → Engine) → (ℕ → ℤ) → (n i : ℕ) → Engine → Engine
push_all type push fd zero i e = e
push_all type push fd (suc n) i e =
    push_all type push fd n (i + 1) (push (opened_task type (fd i)) e)

start_tasks_lem :
    (type : IoType) (push : IoTask → Engine → Engine) (fd : ℕ → ℤ) (n i : ℕ) (e : Engine)
    → start_tasks type push (pos 2) fd n i e
      ≡ (if all_open fd n i then some (cmnerr_suc, push_all type push fd n i e) else none)
unfolding start_tasks task_init init task_destroy destroy all_open push_all
start_tasks_lem type push fd zero i e = refl
start_tasks_lem type push fd (suc n) i e = elim (Bool-cases (is_neg (fd i))) [
  | inl bad ↦ rw bad (rw bad refl)
  | inr good ↦ rw good (start_tasks_lem type push fd n (i + 1) (push (opened_task type (fd i)) e))
]

-- The tasks of a running engine, each with its place in the vector.
pub running : IoType → (ℕ → ℤ) → (n i : ℕ) → List IoTask
running type fd zero i = []
running type fd (suc n) i = set_id (pos i) (opened_task type (fd i)) ∷ running type fd n (i + 1)

pub named : (ℕ → Thread) → (n i : ℕ) → List Thread
named name zero i = []
named name (suc n) i = name i ∷ named name n (i + 1)

push_all_outputs :
    (fd : ℕ → ℤ) (n i : ℕ) (e : Engine)
    → length e.output_tasks ≡ i
    → push_all output_type push_output fd n i e ≡ record e {
      output_tasks = e.output_tasks ++ running output_type fd n i;
      threads = e.threads ++ named output_thread n i;
    }
unfolding push_all running named
push_all_outputs fd zero i e h =
    ap₂ (λ a b. record e { output_tasks = a; threads = b }) (sym (append_nil e.output_tasks))
      (sym (append_nil e.threads))
push_all_outputs fd (suc n) i e h =
    push_all_outputs fd n (i + 1) (push_output (opened_task output_type (fd i)) e)
      (length-append e.output_tasks _ ∙ ap (λ k. k + 1) h)
    ∙ rw h (
        ap₂ (λ a b. record e { output_tasks = a; threads = b }) (append_assoc e.output_tasks _ _)
          (append_assoc e.threads _ _))

push_all_inputs :
    (fd : ℕ → ℤ) (n i : ℕ) (e : Engine)
    → length e.input_tasks ≡ i
    → push_all input_type push_input fd n i e ≡ record e {
      input_tasks = e.input_tasks ++ running input_type fd n i;
      threads = e.threads ++ named input_thread n i;
    }
unfolding push_all running named
push_all_inputs fd zero i e h =
    ap₂ (λ a b. record e { input_tasks = a; threads = b }) (sym (append_nil e.input_tasks))
      (sym (append_nil e.threads))
push_all_inputs fd (suc n) i e h =
    push_all_inputs fd n (i + 1) (push_input (opened_task input_type (fd i)) e)
      (length-append e.input_tasks _ ∙ ap (λ k. k + 1) h)
    ∙ rw h (
        ap₂ (λ a b. record e { input_tasks = a; threads = b }) (append_assoc e.input_tasks _ _)
          (append_assoc e.threads _ _))

-- An engine that was started with these numbers of tasks.
pub started_engine : Paras → Engine
started_engine p = record {
  cur = started;
  output_tasks = running output_type p.output_fd p.output_cnt 0;
  input_tasks = running input_type p.input_fd p.input_cnt 0;
  misc_task = some (some new_time_notifier);
  threads =
      (named output_thread p.output_cnt 0 ++ named input_thread p.input_cnt 0)
      ++ (misc_thread ∷ []);
}

starting_lem :
    (p : Paras)
    → (p.input_cnt == 0) ≡ false
    → (p.output_cnt == 0) ≡ false
    → p.evt_notifier ≡ pos 2
    → starting_with p new_engine ≡ (
        if all_open p.output_fd p.output_cnt 0 && all_open p.input_fd p.input_cnt 0
        then some (cmnerr_suc, record (started_engine p) { cur = stopped })
        else none)
unfolding starting_with misc_init started_engine
starting_lem p hi ho hn = elim (Bool-cases (all_open p.output_fd p.output_cnt 0)) [
  | inr bad ↦ rw (hi, ho, hn, outputs, bad) refl
  | inl good ↦ elim (Bool-cases (all_open p.input_fd p.input_cnt 0)) [
    | inr bad ↦ rw (hi, ho, hn, outputs, good, inputs, bad) refl
    | inl both ↦ rw (hi, ho, hn, outputs, good, inputs, both) refl
  ]
]
  where
    with_outputs : Engine
    with_outputs = record (new_engine) {
      output_tasks = running output_type p.output_fd p.output_cnt 0;
      threads = named output_thread p.output_cnt 0;
    }

    outputs :
        start_tasks output_type push_output (pos 2) p.output_fd p.output_cnt 0 new_engine
        ≡ (if all_open p.output_fd p.output_cnt 0 then some (cmnerr_suc, with_outputs) else none)
    outputs =
        start_tasks_lem output_type push_output p.output_fd p.output_cnt 0 new_engine
        ∙ ap (λ x. if all_open p.output_fd p.output_cnt 0 then some (cmnerr_suc, x) else none)
            (push_all_outputs p.output_fd p.output_cnt 0 new_engine refl)

    inputs : start_tasks input_type push_input (pos 2) p.input_fd p.input_cnt 0 with_outputs ≡ (
        if all_open p.input_fd p.input_cnt 0
        then some (
          cmnerr_suc,
          record with_outputs {
            input_tasks = running input_type p.input_fd p.input_cnt 0;
            threads = named output_thread p.output_cnt 0 ++ named input_thread p.input_cnt 0;
          },
        )
        else none)
    inputs =
        start_tasks_lem input_type push_input p.input_fd p.input_cnt 0 with_outputs
        ∙ ap (λ x. if all_open p.input_fd p.input_cnt 0 then some (cmnerr_suc, x) else none)
            (push_all_inputs p.input_fd p.input_cnt 0 with_outputs refl)

destroy_all-running :
    (type : IoType) (fd : ℕ → ℤ) (n i : ℕ)
    → all_open fd n i ≡ true
    → destroy_all (running type fd n i) ≡ some tt
unfolding destroy_all running task_destroy destroy all_open
destroy_all-running type fd zero i h = refl
destroy_all-running type fd (suc n) i h =
    let good : is_neg (fd i) ≡ false = ground (arith, h) in
    rw good (destroy_all-running type fd n (i + 1) (sym (rw good refl) ∙ h))

-- Whether starting can create what it is asked for.
abbrev pub can_start : Paras → Bool
can_start p = all_open p.output_fd p.output_cnt 0 && all_open p.input_fd p.input_cnt 0

-- Starting a new engine with tasks of both types and epoll gives it the tasks, each with its place in its
-- vector, one thread for each of them and one for the timers; it aborts if epoll_create fails.
pub start_new :
    (p : Paras)
    → (p.input_cnt == 0) ≡ false
    → (p.output_cnt == 0) ≡ false
    → p.evt_notifier ≡ pos 2
    → start p new_engine ≡ (if can_start p then some (pos 0, started_engine p) else none)
unfolding started_engine
start_new p hi ho hn =
    start-stopped p new_engine
    ∙ ap (decided started) (starting_lem p hi ho hn)
    ∙ elim (Bool-cases (can_start p)) [ inl t ↦ rw t refl | inr f ↦ rw f refl ]

-- A new engine that is started with tasks of both types and epoll, whose creation does not fail,
-- has the tasks, each with its place, and a thread for each and for the timers; a second start is
-- refused, stop gives a new engine, and a second stop is refused.
pub start-stop :
    (p : Paras)
    → (p.input_cnt == 0) ≡ false
    → (p.output_cnt == 0) ≡ false
    → p.evt_notifier ≡ pos 2
    → can_start p ≡ true
    → (start p new_engine ≡ some (pos 0, started_engine p))
      × (start p (started_engine p) ≡ some (negsuc 0, started_engine p))
      × (stop (started_engine p) ≡ some (pos 0, new_engine))
      × (stop new_engine ≡ some (negsuc 0, new_engine))
unfolding started_engine
start-stop p hi ho hn h = (
  start_new p hi ho hn ∙ rw h refl,
  start-started p (started_engine p),
  stop-started (started_engine p)
      ∙ ap (decided stopped) {y = some (cmnerr_suc, record (new_engine) { cur = started })} (
          rw
            (
              destroy_all-running input_type p.input_fd p.input_cnt 0 (ground (arith, h)),
              destroy_all-running output_type p.output_fd p.output_cnt 0 (ground (arith, h)),
            )
            refl),
  stop-stopped new_engine,
)

-- Nothing keeps a stopped engine from being used: add_endpoint takes the first of no tasks, del_endpoint the
-- task that the object names, and the timer functions a null pointer.
pub stopped_aborts :
    (type : IoType) (i k : ℕ) (objs : IoObjs)
    → get_task_id type (objs i) ≡ pos k
    → (add_endpoint type i objs new_engine ≡ none)
      × (del_endpoint type i objs new_engine ≡ none)
      × (engine_add_timer i new_engine ≡ none)
      × (engine_del_timer i new_engine ≡ none)
unfolding add_endpoint del_endpoint add_to_least counts del_from_own nth engine_add_timer
    engine_del_timer
stopped_aborts input_type i k objs h = (refl, rw (h, del_from_own) refl, refl, refl)
stopped_aborts output_type i k objs h = (refl, rw (h, del_from_own) refl, refl, refl)
