-- ===== src/Framework/Timer.antt =====
-- Timers: class ITimerObj of libsmart_net/src/framework/sn_timer.h, CTimeNotifier of
-- sn_time_notifier.cpp and CMiscTask of sn_misc_task.cpp. Times are microseconds, as u_int64_t. A timer
-- is its address; what a called timer does is a function, as it is for the objects of Epoll.
pub mod Period
pub mod Exec
mod Tests
use smart_net.Base.{
  ℕ, ℤ, pos, ◌+◌, ◌%◌, ◌^◌, Bool, true, false, Option, none, some, List, [], ◌∷◌, ◌++◌, ◌==◌, leb,
  if◌then◌else◌, ◌>>=◌, is_some, cmnerr_suc, cmnerr_common_err,
}
use smart_net.Framework.Caches.{erase_each, insert_each}

pub record TimerObj : Type 0 where
  pub last_time : ℕ
  pub interval : ℕ

-- The constructor.
abbrev pub new_timer : TimerObj
new_timer = record { last_time = 0; interval = 0 }

-- ITimerObj::set_interval.
abbrev pub set_interval : ℕ → TimerObj → TimerObj
set_interval i t = record t { interval = i }

-- ITimerObj::check: whether on_timer is called, and the timer.
unfoldable pub check : ℕ → TimerObj → Bool × TimerObj
check now t =
    if t.last_time == 0
    then (true, record t { last_time = now })
    else (if leb ((t.last_time + t.interval) % 2 ^ 64) now
        then (true, record t { last_time = now })
        else (false, t))

pub record TimeNotifier : Type 0 where
  pub timers : List ℕ
  pub add_cache : List ℕ
  pub del_cache : List ℕ

abbrev pub new_time_notifier : TimeNotifier
new_time_notifier = record { timers = []; add_cache = []; del_cache = [] }

abbrev pub add_timer : ℕ → TimeNotifier → TimeNotifier
add_timer i n = record n { add_cache = n.add_cache ++ (i ∷ []) }

abbrev pub del_timer : ℕ → TimeNotifier → TimeNotifier
del_timer i n = record n { del_cache = n.del_cache ++ (i ∷ []) }

pub data TimerCall : Type 0 where
  add_into_timer_task : ℕ → TimerCall
  del_from_timer_task : ℕ → TimerCall
  on_timer : ℕ → TimerCall

pub data TimerAsk : Type 0 where
  ask_add : ℕ → TimerAsk
  ask_del : ℕ → TimerAsk

abbrev pub serve : TimerAsk → TimeNotifier → TimeNotifier
serve (ask_add i) n = add_timer i n
serve (ask_del i) n = del_timer i n

unfoldable pub serve_all : List TimerAsk → TimeNotifier → TimeNotifier
serve_all [] n = n
serve_all (a ∷ l) n = serve_all l (serve a n)

-- The timers by their addresses.
abbrev pub Timers : Type 0
Timers = ℕ → TimerObj

abbrev pub set_timer : ℕ → TimerObj → Timers → Timers
set_timer i t ts j = if j == i then t else ts j

module _ {W : Type 0} (client : TimerCall → W → W × List TimerAsk) where
  pub record Task : Type 0 where
    pub world : W
    pub objs : Timers
    pub notifier : TimeNotifier

  unfoldable pub call : TimerCall → Task → Task
  call c s =
      let (w, asks) = client c s.world in
      record s { world = w; notifier = serve_all asks s.notifier }

  abbrev pub timers_now : Task → List ℕ
  timers_now s = s.notifier.timers

  abbrev pub told_deled : ℕ → List ℕ → Task → Task
  told_deled i left s =
      call (del_from_timer_task i) (record s { notifier = record (s.notifier) { timers = left } })

  abbrev pub told_added : ℕ → List ℕ → Task → Task
  told_added i all s =
      call (add_into_timer_task i) (record s { notifier = record (s.notifier) { timers = all } })

  -- The two loops over the caches.
  unfoldable pub del_loop : List ℕ → Task → Option Task
  del_loop = erase_each timers_now told_deled

  unfoldable pub add_loop : List ℕ → Task → Option Task
  add_loop = insert_each timers_now told_added (λ i. true)

  abbrev pub check_one : ℕ → ℕ → Task → Task
  check_one now i s =
      let (fires, t) = check now (s.objs i) in
      let s' : Task = record s { objs = set_timer i t s.objs } in
      if fires then call (on_timer i) s' else s'

  -- The loop over the timers.
  unfoldable pub check_loop : ℕ → List ℕ → Task → Task
  check_loop now [] s = s
  check_loop now (i ∷ l) s = check_loop now l (check_one now i s)

  -- CTimeNotifier::exec, which is one round of CMiscTask::exec.
  unfoldable pub exec : ℕ → Task → Option Task
  exec now s = do
    let n = s.notifier
    s1 ← del_loop n.del_cache (record s { notifier = record n { del_cache = [] } })
    let n1 = s1.notifier
    s2 ← add_loop n1.add_cache (record s1 { notifier = record n1 { add_cache = [] } })
    some (check_loop now s2.notifier.timers s2)

-- CMiscTask: m_pTimeNotifier.
abbrev pub MiscTask : Type 0
MiscTask = Option TimeNotifier

unfoldable pub misc_init : MiscTask → ℤ × MiscTask
misc_init none = (cmnerr_suc, some new_time_notifier)
misc_init (some n) = (cmnerr_common_err, some n)

unfoldable pub misc_add_timer : ℕ → MiscTask → Option (ℤ × MiscTask)
misc_add_timer i none = none
misc_add_timer i (some n) = some (cmnerr_suc, some (add_timer i n))

unfoldable pub misc_del_timer : ℕ → MiscTask → Option (ℤ × MiscTask)
misc_del_timer i none = none
misc_del_timer i (some n) = some (cmnerr_suc, some (del_timer i n))
