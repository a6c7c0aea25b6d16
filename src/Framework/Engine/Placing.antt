-- ===== src/Framework/Engine/Placing.antt =====
-- CSNEngine::add_endpoint and then del_endpoint: which task an object goes to.
use smart_net.Base.{
  ℕ, zero, suc, ℤ, pos, false, some, List, [], ◌∷◌, ◌++◌, ◌==◌, ◌≡◌, ◌≢◌, refl, ap, ◌∙◌, arith, inl,
  inr, Option-cases, map, ◌>>=◌, ap₂, ==-of_ne, >>=-eq-some,
}
use smart_net.Framework.IoObj.{
  IoType, IoObj, input_type, output_type, IoObjs, set_obj, set_task_id, get_task_id, get_io_evt,
}
use smart_net.Framework.Epoll.{Epoll, add_ioobj, del_ioobj}
use smart_net.Framework.Task.{IoTask, task_cnt, add_io_obj, del_io_obj}
use smart_net.Framework.Engine.{
  choose_first, counts, nth, put, add_to_least, del_from_own, signed32,
}
use smart_net.Framework.Engine.Choice.{FirstLeast, choose_first_lem}

nth-put :
    {A : Type 0} (k : ℕ) (x y : A) (l : List A) → nth k l ≡ some x → nth k (put k y l) ≡ some y
unfolding nth put
nth-put k x y [] h = cc
nth-put zero x y (z ∷ l) h = refl
nth-put (suc k) x y (z ∷ l) h = nth-put k x y l h

put-put : {A : Type 0} (k : ℕ) (x y : A) (l : List A) → put k y (put k x l) ≡ put k y l
unfolding put
put-put k x y [] = refl
put-put zero x y (z ∷ l) = refl
put-put (suc k) x y (z ∷ l) = ap (λ m. z ∷ m) (put-put k x y l)

nth-map : (k m : ℕ) (cs : List ℕ) → nth k cs ≡ some m → nth k (map pos cs) ≡ some (pos m)
unfolding nth
nth-map k m [] h = cc
nth-map zero m (c ∷ cs) h = ground (arith, h)
nth-map (suc k) m (c ∷ cs) h = nth-map k m cs h

counted-has_notifier :
    (t : IoTask) (c : ℕ) → task_cnt t ≡ some c → (e : Epoll) × (t.notifier ≡ some e)
unfolding task_cnt
counted-has_notifier t c h = elim (Option-cases t.notifier) [
  | inl n ↦ absurd (ground (arith, h, n))
  | inr (e, q) ↦ (e, q)
]

-- A task that was counted has a notifier.
nth-counts :
    (k : ℕ) (ts : List IoTask) (zs : List ℤ) (z : ℤ)
    → counts ts ≡ some zs
    → nth k zs ≡ some z
    → (t : IoTask) × (nth k ts ≡ some t) × (e : Epoll) × (t.notifier ≡ some e)
unfolding counts nth
nth-counts k [] [] z h n = cc
nth-counts k [] (y ∷ zs) z h n = cc
nth-counts k (t ∷ ts) [] z h n =
    let (c, hc, r) = >>=-eq-some (task_cnt t) (λ c. counts ts >>= λ cs. some (signed32 c ∷ cs)) h in
    let (cs, hcs, e) = >>=-eq-some (counts ts) (λ cs. some (signed32 c ∷ cs)) r in cc
nth-counts zero (t ∷ ts) (y ∷ zs) z h n =
    let (c, hc, r) = >>=-eq-some (task_cnt t) (λ c. counts ts >>= λ cs. some (signed32 c ∷ cs)) h in
    let (e, q) = counted-has_notifier t c hc in (t, refl, e, q)
nth-counts (suc k) (t ∷ ts) (y ∷ zs) z h n =
    let (c, hc, r) = >>=-eq-some (task_cnt t) (λ c. counts ts >>= λ cs. some (signed32 c ∷ cs)) h in
    let (cs, hcs, e) = >>=-eq-some (counts ts) (λ cs. some (signed32 c ∷ cs)) r in
    nth-counts k ts zs z (hcs ∙ (ground (arith, e))) n

task_id-set : (type : IoType) (id : ℤ) (o : IoObj) → get_task_id type (set_task_id type id o) ≡ id
task_id-set input_type id o = refl
task_id-set output_type id o = refl

io_evt-set :
    (type : IoType) (id : ℤ) (o : IoObj)
    → get_io_evt type (set_task_id type id o) ≡ get_io_evt type o
io_evt-set input_type id o = refl
io_evt-set output_type id o = refl

set_obj-same : (i : ℕ) (o : IoObj) (objs : IoObjs) → set_obj i o objs i ≡ o
set_obj-same i o objs = ground arith

-- `t` with a notifier that waits to add the object, and with one that also waits to remove it.
abbrev pub waits_to_add : ℕ → Epoll → IoTask → IoTask
waits_to_add i e t = record t { notifier = some (record e { add_cache = e.add_cache ++ (i ∷ []) }) }

abbrev pub waits_to_del : ℕ → Epoll → IoTask → IoTask
waits_to_del i e t = record t {
  notifier =
      some (record e { add_cache = e.add_cache ++ (i ∷ []); del_cache = e.del_cache ++ (i ∷ []) });
}

-- The steps of both functions at a task `t` in the place `k`.
module _ (type : IoType) (i k : ℕ) (ts : List IoTask) (t : IoTask) (e : Epoll) where
  add_at :
      (objs : IoObjs) (zs : List ℤ)
      → counts ts ≡ some zs
      → choose_first zs ≡ some k
      → nth k ts ≡ some t
      → t.notifier ≡ some e
      → (get_io_evt e.io_type (set_obj i (set_task_id type t.task_id (objs i)) objs i) == 0) ≡ false
      → add_to_least type i objs ts
        ≡ some (set_obj i (set_task_id type t.task_id (objs i)) objs, put k (waits_to_add i e t) ts)
  unfolding add_to_least add_io_obj add_ioobj
  add_at objs zs counted chosen at_k q has_evt =
      rw (counted, chosen, at_k, q) (rw (has_evt, add_ioobj) refl)

  del_at :
      (objs' : IoObjs) (l : List IoTask)
      → get_task_id type (objs' i) ≡ pos k
      → nth k l ≡ some (waits_to_add i e t)
      → (get_io_evt e.io_type (objs' i) == 0) ≡ false
      → del_from_own type i objs' l ≡ some (put k (waits_to_del i e t) l)
  unfolding del_from_own del_io_obj del_ioobj
  del_at objs' l own at_k has_evt = rw (own, del_from_own) (rw at_k (rw (has_evt, del_ioobj) refl))

-- Where all tasks have notifiers with fewer than 2 ^ 31 objects, of the type of an object that has
-- events, and know their places, add_endpoint gives the object to the first of those with the
-- fewest and stores its place in the object, and del_endpoint then finds the same task.
pub place_lem :
    (type : IoType) (i : ℕ) (objs : IoObjs) (ts : List IoTask) (c : ℕ) (cs : List ℕ)
    → counts ts ≡ some (map pos (c ∷ cs))
    → ((k : ℕ) (t : IoTask) → nth k ts ≡ some t → t.task_id ≡ pos k)
    → ((k : ℕ) (t : IoTask) (e : Epoll)
        → nth k ts ≡ some t
        → t.notifier ≡ some e
        → e.io_type ≡ type)
    → get_io_evt type (objs i) ≢ 0
    → (k : ℕ) × (m : ℕ) × FirstLeast (c ∷ cs) k m
      × (t : IoTask) × (nth k ts ≡ some t)
      × (e : Epoll) × (t.notifier ≡ some e)
      × (objs' : IoObjs) × (get_task_id type (objs' i) ≡ pos k)
      × (add_to_least type i objs ts ≡ some (objs', put k (waits_to_add i e t) ts))
      × (del_from_own type i objs' (put k (waits_to_add i e t) ts)
          ≡ some (put k (waits_to_del i e t) ts))
place_lem type i objs ts c cs counted placed typed evt =
    let (k, m, chosen, f) = choose_first_lem c cs in
    let (t, at_k, e, q) =
      nth-counts k ts (map pos (c ∷ cs)) (pos m) counted (nth-map k m (c ∷ cs) f.here) in
    let o : IoObj = set_task_id type t.task_id (objs i) in
    let objs' : IoObjs = set_obj i o objs in
    let own : get_task_id type (objs' i) ≡ pos k =
      ap (get_task_id type) (set_obj-same i o objs)
      ∙ task_id-set type t.task_id (objs i)
      ∙ placed k t at_k in
    let same_evt : get_io_evt e.io_type (objs' i) ≡ get_io_evt type (objs i) =
      ap₂ get_io_evt (typed k t e at_k q) (set_obj-same i o objs)
      ∙ io_evt-set type t.task_id (objs i) in
    let has_evt : (get_io_evt e.io_type (objs' i) == 0) ≡ false =
      ap (λ v. v == 0) same_evt ∙ ==-of_ne (get_io_evt type (objs i)) 0 evt in
    (
      k,
      m,
      f,
      t,
      at_k,
      e,
      q,
      objs',
      own,
      add_at type i k ts t e objs (map pos (c ∷ cs)) counted chosen at_k q has_evt,
      del_at type i k ts t e objs' (put k (waits_to_add i e t) ts) own
            (nth-put k t (waits_to_add i e t) ts at_k) has_evt
          ∙ ap some (put-put k (waits_to_add i e t) (waits_to_del i e t) ts),
    )
