-- ===== src/Framework/Engine.antt =====
-- class CSNEngine of libsmart_net/src/framework/sn_engine.h and .cpp: its threads and tasks, start and
-- stop over the state machine, and the choice of the task that watches an endpoint.
pub mod Choice
pub mod Life
pub mod Placing
mod Tests
use smart_net.Base.{
  ℕ, ℤ, pos, negsuc, ◌+◌, ◌-◌, ◌^◌, Bool, true, false, not, ◌||◌, Option, none, some, List, [], ◌∷◌,
  ◌++◌, length, ltb, ◌==◌, if◌then◌else◌, ◌>>=◌, is_neg, cmnerr_suc, cmnerr_common_err, refl,
}
use smart_net.StateMachine.{Enum, HasState, Handler, Table, reg_evt_state, post_evt}
use smart_net.Framework.IoObj.{IoType, input_type, output_type, IoObjs, get_task_id}
use smart_net.Framework.Task.{
  IoTask, new_task, task_init, task_destroy, set_id, task_cnt, add_io_obj, del_io_obj,
}
use smart_net.Framework.Timer.{MiscTask, misc_init, misc_add_timer, misc_del_timer}

pub data EngineState : Type 0 where
  stopped : EngineState
  started : EngineState

abbrev pub engine_state_code : EngineState → ℕ
engine_state_code stopped = 0
engine_state_code started = 1

pub data EngineEvt : Type 0 where
  start_evt : EngineEvt
  stop_evt : EngineEvt

abbrev pub engine_evt_code : EngineEvt → ℕ
engine_evt_code start_evt = 0
engine_evt_code stop_evt = 1

instance unfoldable pub EngineState-Enum : Enum EngineState
EngineState-Enum = record { code = engine_state_code }

instance unfoldable pub EngineEvt-Enum : Enum EngineEvt
EngineEvt-Enum = record { code = engine_evt_code }

-- The task that a thread runs.
pub data Thread : Type 0 where
  output_thread : ℕ → Thread
  input_thread : ℕ → Thread
  misc_thread : Thread

pub record Engine : Type 0 where
  pub cur : EngineState
  pub output_tasks : List IoTask
  pub input_tasks : List IoTask
  pub misc_task : Option MiscTask  -- m_pMiscTask, and in it m_pTimeNotifier
  pub threads : List Thread

-- The constructor.
abbrev pub new_engine : Engine
new_engine = record {
  cur = stopped;
  output_tasks = [];
  input_tasks = [];
  misc_task = none;
  threads = [];
}

instance unfoldable pub Engine-HasState : HasState EngineState Engine
Engine-HasState = record {
  cur_state = λ e. e.cur;
  set_cur_state = λ s e. record e { cur = s };
  cur-set = λ s e. refl;
}

-- SParas, and what epoll_create returns to the output tasks and to the input tasks. CThread::start returns
-- what pthread_create does, 0 or a positive number, so that its tests for a negative one fail.
pub record Paras : Type 0 where
  pub input_cnt : ℕ
  pub output_cnt : ℕ
  pub evt_notifier : ℤ
  pub output_fd : ℕ → ℤ
  pub input_fd : ℕ → ℤ

abbrev pub EngineAct : Type 0
EngineAct = Handler EngineState EngineEvt (Option Paras) Engine

-- RET_ERR.
abbrev pub ret_err : ℤ
ret_err = negsuc 0

-- A task that is left behind is destroyed.
abbrev pub left_behind : IoTask → Engine → Option (ℤ × Engine)
left_behind t e = task_destroy t >>= λ _. some (ret_err, e)

abbrev pub push_output : IoTask → Engine → Engine
push_output t e = record e {
  output_tasks = e.output_tasks ++ (set_id (pos (length e.output_tasks)) t ∷ []);
  threads = e.threads ++ (output_thread (length e.output_tasks) ∷ []);
}

abbrev pub push_input : IoTask → Engine → Engine
push_input t e = record e {
  input_tasks = e.input_tasks ++ (set_id (pos (length e.input_tasks)) t ∷ []);
  threads = e.threads ++ (input_thread (length e.input_tasks) ∷ []);
}

-- The two loops of starting: `n` rounds are left, and the next one is `i`.
unfoldable pub start_tasks :
    IoType → (IoTask → Engine → Engine) → ℤ → (ℕ → ℤ) → (n i : ℕ) → Engine → Option (ℤ × Engine)
start_tasks type push evt_notifier fd ℕ.zero i e = some (cmnerr_suc, e)
start_tasks type push evt_notifier fd (ℕ.suc n) i e =
    task_init type evt_notifier (fd i) new_task >>= λ r. elim (is_neg (r.0)) [
      | true ↦ left_behind (r.1) e
      | false ↦ start_tasks type push evt_notifier fd n (i + 1) (push (r.1) e)
    ]

-- The rest of starting.
abbrev pub start_misc : Engine → Option (ℤ × Engine)
start_misc e =
    let (code, m) = misc_init none in
    if is_neg code
    then some (ret_err, record e { misc_task = some m })
    else some
        (cmnerr_suc, record e { misc_task = some m; threads = e.threads ++ (misc_thread ∷ []) })

abbrev pub is_zero_ℤ : ℤ → Bool
is_zero_ℤ (pos n) = n == 0
is_zero_ℤ (negsuc n) = false

-- A negative code ends starting.
abbrev pub unless_err : Option (ℤ × Engine) → (Engine → Option (ℤ × Engine)) → Option (ℤ × Engine)
unless_err r k = r >>= λ s. if is_neg (s.0) then some s else k (s.1)

unfoldable pub starting_with : Paras → Engine → Option (ℤ × Engine)
starting_with p e =
    if (p.input_cnt == 0) || ((p.output_cnt == 0) || is_zero_ℤ p.evt_notifier)
    then some (ret_err, e)
    else unless_err
        (start_tasks output_type push_output p.evt_notifier p.output_fd p.output_cnt 0 e)
        λ e1.
          unless_err (start_tasks input_type push_input p.evt_notifier p.input_fd p.input_cnt 0 e1)
            start_misc

abbrev pub starting : EngineAct
starting s evt n none e = none
starting s evt n (some p) e = starting_with p e

unfoldable pub destroy_all : List IoTask → Option (Unit {0})
destroy_all [] = some tt
destroy_all (t ∷ l) = task_destroy t >>= λ _. destroy_all l

-- The tasks are destroyed when their vectors are cleared.
abbrev pub stopping : EngineAct
stopping s evt n p e = destroy_all e.input_tasks >>= λ _. destroy_all e.output_tasks >>= λ _.
    some
      (cmnerr_suc, record e { threads = []; input_tasks = []; output_tasks = []; misc_task = none })

-- The constructor's registrations.
unfoldable pub engine_table : Option (Table EngineState EngineEvt (Option Paras) Engine)
engine_table = do
  t1 ← reg_evt_state stopped start_evt started starting []
  reg_evt_state started stop_evt stopped stopping t1

unfoldable pub engine_post : EngineEvt → Option Paras → Engine → Option (ℤ × Engine)
engine_post evt p e = engine_table >>= λ tbl. post_evt tbl evt p e

-- CSNEngine::start and stop.
unfoldable pub start : Paras → Engine → Option (ℤ × Engine)
start p e = engine_post start_evt (some p) e

unfoldable pub stop : Engine → Option (ℤ × Engine)
stop e = engine_post stop_evt none e

-- A u_int32_t as an int32_t, and the test `a > b`.
abbrev pub signed32 : ℕ → ℤ
signed32 w = if ltb w (2 ^ 31) then pos w else negsuc (2 ^ 32 - w - 1)

abbrev pub gt_ℤ : ℤ → ℤ → Bool
gt_ℤ (pos a) (pos b) = ltb b a
gt_ℤ (pos a) (negsuc b) = true
gt_ℤ (negsuc a) (pos b) = false
gt_ℤ (negsuc a) (negsuc b) = ltb a b

-- The loop over the tasks, given their counts: the next one is `i`, the choice so far is `best`, whose
-- count is `min`.
unfoldable pub choose : (i best : ℕ) → ℤ → List ℤ → ℕ
choose i best min [] = best
choose i best min (c ∷ cs) =
    if is_zero_ℤ c
    then i
    else (if gt_ℤ min c then choose (i + 1) i c cs else choose (i + 1) best min cs)

unfoldable pub counts : List IoTask → Option (List ℤ)
counts [] = some []
counts (t ∷ l) = task_cnt t >>= λ c. counts l >>= λ cs. some (signed32 c ∷ cs)

unfoldable pub nth : {A : Type 0} → ℕ → List A → Option A
nth i [] = none
nth ℕ.zero (x ∷ l) = some x
nth (ℕ.suc i) (x ∷ l) = nth i l

unfoldable pub put : {A : Type 0} → ℕ → A → List A → List A
put i y [] = []
put ℕ.zero y (x ∷ l) = y ∷ l
put (ℕ.suc i) y (x ∷ l) = x ∷ put i y l

-- The first task's count, through begin() of a vector that may be empty.
abbrev pub choose_first : List ℤ → Option ℕ
choose_first [] = none
choose_first (c ∷ cs) = some (choose 0 0 c (c ∷ cs))

-- What add_endpoint does for one type of tasks: the objects, and the tasks.
unfoldable pub add_to_least : IoType → ℕ → IoObjs → List IoTask → Option (IoObjs × List IoTask)
add_to_least type i objs tasks = do
  cs ← counts tasks
  k ← choose_first cs
  t ← nth k tasks
  (code, objs', t') ← add_io_obj type i objs t
  some (objs', put k t' tasks)

-- add_endpoint. begin_lock_state returns a bool, so the test for a negative one fails in any state.
unfoldable pub add_endpoint : IoType → ℕ → IoObjs → Engine → Option (ℤ × IoObjs × Engine)
add_endpoint input_type i objs e = add_to_least input_type i objs e.input_tasks >>= λ r.
    some (cmnerr_suc, r.0, record e { input_tasks = r.1 })
add_endpoint output_type i objs e = add_to_least output_type i objs e.output_tasks >>= λ r.
    some (cmnerr_suc, r.0, record e { output_tasks = r.1 })

-- What del_endpoint does for one type of tasks.
unfoldable pub del_from_own : IoType → ℕ → IoObjs → List IoTask → Option (List IoTask)
del_from_own type i objs tasks = elim (get_task_id type (objs i)) [
  | negsuc _ ↦ some tasks
  | pos k ↦ do t ← nth k tasks; (code, t') ← del_io_obj i objs t; some (put k t' tasks)
]

-- del_endpoint, which has no return statement.
unfoldable pub del_endpoint : IoType → ℕ → IoObjs → Engine → Option Engine
del_endpoint input_type i objs e =
    del_from_own input_type i objs e.input_tasks >>= λ l. some (record e { input_tasks = l })
del_endpoint output_type i objs e =
    del_from_own output_type i objs e.output_tasks >>= λ l. some (record e { output_tasks = l })

-- add_timer and del_timer, which have no return statement either.
unfoldable pub engine_add_timer : ℕ → Engine → Option Engine
engine_add_timer i e = do
  m ← e.misc_task
  (code, m') ← misc_add_timer i m
  some (record e { misc_task = some m' })

unfoldable pub engine_del_timer : ℕ → Engine → Option Engine
engine_del_timer i e = do
  m ← e.misc_task
  (code, m') ← misc_del_timer i m
  some (record e { misc_task = some m' })
