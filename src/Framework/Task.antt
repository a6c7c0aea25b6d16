-- ===== src/Framework/Task.antt =====
-- CInputHandleTask and COutputHandleTask of libsmart_net/src/framework/sn_io_task.h and .cpp, with
-- CIoEvtNotifierFactory::create_obj. The two classes differ in the type of their objects; a call
-- through m_pIoEvtNotifier without a notifier aborts.
use smart_net.Base.{
  ℕ, ℤ, pos, negsuc, true, false, Option, none, some, List, [], ◌∷◌, if◌then◌else◌, ◌>>=◌, is_neg,
  cmnerr_common_err, ◌==◌,
}
use smart_net.Framework.IoObj.{IoType, IoObjs, set_obj, set_task_id}
use smart_net.Framework.Epoll.{
  Epoll, new_epoll, init, destroy, get_ioobj_cnt, add_ioobj, del_ioobj, Call, Ask, Waited, exec,
}

pub record IoTask : Type 0 where
  pub notifier : Option Epoll
  pub task_id : ℤ

-- The constructors; that of COutputHandleTask leaves m_i32TaskId alone, which set_indx sets.
abbrev pub new_task : IoTask
new_task = record { notifier = none; task_id = negsuc 0 }

-- EIEN_NONE is 0, EIEN_SELECT 1, EIEN_EPOLL 2 and EIEN_ALL 3; only CEpoll is compiled.
abbrev pub create_obj : ℤ → Option Epoll
create_obj (pos n) = if n == 2 then some new_epoll else none
create_obj (negsuc n) = none

-- init; `fd` is the result of epoll_create.
unfoldable pub task_init : IoType → ℤ → ℤ → IoTask → Option (ℤ × IoTask)
task_init type evt_notifier fd t = elim t.notifier [
  | some _ ↦ some (cmnerr_common_err, t)
  | none ↦ elim (create_obj evt_notifier) [
    | none ↦ some (cmnerr_common_err, t)
    | some e ↦ init type fd e >>= λ r. some (r.0, record t { notifier = some (r.1) })
  ]
]

-- destroy, which the destructors call too; that of COutputHandleTask has no return statement.
unfoldable pub task_destroy : IoTask → Option IoTask
task_destroy t = elim t.notifier [
  | none ↦ some t
  | some e ↦ destroy e >>= λ r. some (record t { notifier = none; task_id = negsuc 0 })
]

-- set_id of CInputHandleTask, set_indx of COutputHandleTask.
abbrev pub set_id : ℤ → IoTask → IoTask
set_id id t = record t { task_id = id }

unfoldable pub task_cnt : IoTask → Option ℕ
task_cnt t = elim t.notifier [ none ↦ none | some e ↦ some (get_ioobj_cnt e) ]

unfoldable pub add_io_obj : IoType → ℕ → IoObjs → IoTask → Option (ℤ × IoObjs × IoTask)
add_io_obj type i objs t = elim t.notifier [
  | none ↦ none
  | some e ↦
      let objs' : IoObjs = set_obj i (set_task_id type t.task_id (objs i)) objs in
      let (code, e') = add_ioobj objs' i e in some (code, objs', record t { notifier = some e' })
]

unfoldable pub del_io_obj : ℕ → IoObjs → IoTask → Option (ℤ × IoTask)
del_io_obj i objs t = elim t.notifier [
  | none ↦ none
  | some e ↦ let (code, e') = del_ioobj objs i e in some (code, record t { notifier = some e' })
]

-- The loop of exec until the thread is stopped: `rounds` are what epoll does in its rounds.
unfoldable pub task_exec :
    {W : Type 0}
    → IoObjs
    → (Call → W → W × List Ask)
    → List ((ℕ → ℤ) × Waited)
    → W × Epoll
    → Option (W × Epoll)
task_exec objs client [] s = some s
task_exec objs client ((ctl, outcome) ∷ rounds) s = exec objs client ctl outcome s >>= λ r.
    elim (is_neg (r.0)) [ true ↦ some (r.1, r.2) | false ↦ task_exec objs client rounds (r.1, r.2) ]
