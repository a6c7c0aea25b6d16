-- ===== src/Framework/Epoll.antt =====
-- class CEpoll of libsmart_net/src/framework/sn_io_evt_notifier_impl.h and .cpp: the objects that one
-- task watches, and one round of its thread. An object is its address; epoll_ctl and epoll_wait are
-- parameters. What a called object does is a function of the call: it changes a state `W`
-- of its own and asks for additions and removals, which only fill the two caches.
pub mod Rounds
pub mod Exec
pub mod Faults
mod Tests
use Prim.Native.Nat.{bit_and}
use smart_net.Base.{
  ℕ, ℤ, pos, negsuc, ◌+◌, ◌-◌, ◌%◌, ◌^◌, Bool, true, false, not, ◌||◌, Option, none, some, List, [],
  ◌∷◌, ◌++◌, length, ◌==◌, if◌then◌else◌, ◌>>=◌, ◌>>◌, cmn_assert, is_neg, is_suc, cmnerr_suc,
  cmnerr_common_err, cmnerr_fatal_err, leb,
}
use smart_net.Framework.Caches.{erase_each, insert_each}
use smart_net.Framework.IoObj.{IoType, IoObjs, get_io_evt}

pub record Epoll : Type 0 where
  pub epfd : ℤ
  pub io_type : IoType
  pub io_objs : List ℕ
  pub add_cache : List ℕ
  pub del_cache : List ℕ

abbrev pub no_objs : List ℕ → Bool
no_objs [] = true
no_objs (i ∷ l) = false

-- The constructor.
abbrev pub new_epoll : Epoll
new_epoll = record {
  epfd = negsuc 0;
  io_type = IoType.input_type;
  io_objs = [];
  add_cache = [];
  del_cache = [];
}

-- The test `-1 == fd`.
abbrev pub is_unset : ℤ → Bool
is_unset (pos n) = false
is_unset (negsuc n) = n == 0

-- CEpoll::init; `fd` is the result of epoll_create.
unfoldable pub init : IoType → ℤ → Epoll → Option (ℤ × Epoll)
init type fd e = do
  cmn_assert (is_unset e.epfd)
  cmn_assert (no_objs e.add_cache)
  cmn_assert (no_objs e.del_cache)
  cmn_assert (no_objs e.io_objs)
  some (
    (if is_neg fd then cmnerr_common_err else cmnerr_suc),
    record e { epfd = fd; io_type = type },
  )

unfoldable pub destroy : Epoll → Option (ℤ × Epoll)
destroy e = do
  cmn_assert (not (is_neg e.epfd))
  some (cmnerr_common_err, record e { io_objs = []; add_cache = []; del_cache = [] })

-- The three sizes are added and subtracted as size_t, and the result is cut to u_int32_t.
unfoldable pub get_ioobj_cnt : Epoll → ℕ
get_ioobj_cnt e =
    (length e.io_objs + length e.add_cache + (2 ^ 64 - length e.del_cache)) % 2 ^ 64 % 2 ^ 32

-- A call of an object.
pub data Call : Type 0 where
  deled_from_io_task : ℕ → Call
  added_into_io_task : ℕ → ℤ → Call
  input_evt : ℕ → Call
  output_evt : ℕ → Call
  io_error : ℕ → Call

pub data Ask : Type 0 where
  ask_add : ℕ → Ask
  ask_del : ℕ → Ask

-- What epoll_wait returns: -1 with errno, or objects with their events.
pub data Waited : Type 0 where
  interrupted : Waited
  failed : Waited
  ready : List (ℕ × ℕ) → Waited

-- EPOLLIN is 1, EPOLLOUT is 4, EPOLLERR is 8 and EPOLLHUP is 16.
abbrev pub has_evt : ℕ → ℕ → Bool
has_evt evts bit = not (bit_and evts bit == 0)

unfoldable pub evt_call : ℕ → ℕ → Option Call
evt_call i evts =
    if has_evt evts 8 || has_evt evts 16
    then some (io_error i)
    else (if has_evt evts 1
        then some (input_evt i)
        else (if has_evt evts 4 then some (output_evt i) else none))

module _ (objs : IoObjs) where
  unfoldable pub add_ioobj : ℕ → Epoll → ℤ × Epoll
  add_ioobj i e =
      if get_io_evt e.io_type (objs i) == 0
      then (cmnerr_suc, e)
      else (cmnerr_suc, record e { add_cache = e.add_cache ++ (i ∷ []) })

  unfoldable pub del_ioobj : ℕ → Epoll → ℤ × Epoll
  del_ioobj i e =
      if get_io_evt e.io_type (objs i) == 0
      then (cmnerr_suc, e)
      else (cmnerr_suc, record e { del_cache = e.del_cache ++ (i ∷ []) })

  abbrev pub serve : Ask → Epoll → Epoll
  serve (ask_add i) e = (add_ioobj i e).1
  serve (ask_del i) e = (del_ioobj i e).1

  unfoldable pub serve_all : List Ask → Epoll → Epoll
  serve_all [] e = e
  serve_all (a ∷ l) e = serve_all l (serve a e)

  module _ {W : Type 0} (client : Call → W → W × List Ask) where
    unfoldable pub call : Call → W × Epoll → W × Epoll
    call c (w, e) = let (w', asks) = client c w in (w', serve_all asks e)

    abbrev pub watched : W × Epoll → List ℕ
    watched s = (s.1).io_objs

    abbrev pub told_deled : ℕ → List ℕ → W × Epoll → W × Epoll
    told_deled i left s = call (deled_from_io_task i) (s.0, record (s.1) { io_objs = left })

    abbrev pub told_added : (ℕ → ℤ) → ℕ → List ℕ → W × Epoll → W × Epoll
    told_added ctl i all s =
        call (added_into_io_task i (ctl i)) (s.0, record (s.1) { io_objs = all })

    -- The loop over the objects to be removed.
    unfoldable pub del_loop : List ℕ → W × Epoll → Option (W × Epoll)
    del_loop = erase_each watched told_deled

    -- The loop over the objects to be added; `ctl` is the result of EPOLL_CTL_ADD.
    unfoldable pub add_loop : (ℕ → ℤ) → List ℕ → W × Epoll → Option (W × Epoll)
    add_loop ctl = insert_each watched (told_added ctl) (λ i. is_suc (ctl i))

    -- The loop over the events.
    unfoldable pub evt_loop : List (ℕ × ℕ) → W × Epoll → Option (W × Epoll)
    evt_loop [] s = some s
    evt_loop ((i, evts) ∷ l) s = evt_call i evts >>= λ c. evt_loop l (call c s)

    -- The part of exec that follows epoll_wait.
    unfoldable pub dispatch : Waited → W × Epoll → Option (ℤ × W × Epoll)
    dispatch interrupted s = some (cmnerr_suc, s.0, s.1)
    dispatch failed s = none
    dispatch (ready evts) s = evt_loop evts s >>= λ s'. some (cmnerr_suc, s'.0, s'.1)

    -- Both caches are emptied before their objects are called, so what these ask for waits
    -- in the caches, the additions asked for by removed objects for the second loop only.
    unfoldable pub exec : (ℕ → ℤ) → Waited → W × Epoll → Option (ℤ × W × Epoll)
    exec ctl outcome (w, e) = do
      (w1, e1) ← del_loop e.del_cache (w, record e { del_cache = [] })
      s2 ← add_loop ctl e1.add_cache (w1, record e1 { add_cache = [] })
      dispatch outcome s2
