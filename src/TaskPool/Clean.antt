-- ===== src/TaskPool/Clean.antt =====
-- The cache holds only tasks that can be used again, as long as only such tasks are put into it.
use goapp.Base.{
  ℕ, true, false, Option, none, some, [], ◌≡◌, refl, is_some, arith, get_elem?, All, All-get_elem?,
  All-erase_idx, Option-cases, inl, inr,
}
use goapp.GoRuntime.{returns, make_chan, stopped_timer}
use goapp.Task.{Task, Handler, ready}
use goapp.TaskPool.{
  TaskPool, TaskArgs, fresh_task, pool_take, get_task, put_task, new_task, new_task_of, fill,
  add_one,
}

-- What a new use of a task relies on: its channels are open and empty, its timer is stopped and its
-- context and its lock are free.
pub record IsClean (t : Task) : Type 0 where
  pub stop_ch_empty : t.stop_ch ≡ make_chan 1
  pub local_done_ch_empty : t.local_done_ch ≡ make_chan 1
  pub timer_stopped : t.timer ≡ stopped_timer
  pub ctx_open : t.ctx_closed ≡ false
  pub unlocked : t.locked ≡ false

fresh_task-IsClean : IsClean fresh_task
unfolding fresh_task
fresh_task-IsClean = ground arith

pool_take-IsClean :
    (pick : Option ℕ) (p : TaskPool)
    → All IsClean p.cache
    → IsClean (pool_take pick p).0 × All IsClean (pool_take pick p).1.cache
unfolding pool_take
pool_take-IsClean none p h = (fresh_task-IsClean, h)
pool_take-IsClean (some i) p h = elim (Option-cases (get_elem? p.cache i)) [
  | inl e ↦ rw (e, pool_take) (fresh_task-IsClean, h)
  | inr (t, e) ↦
      rw (e, pool_take) (All-get_elem? IsClean p.cache i h e, All-erase_idx IsClean p.cache i h)
]

get_task-IsClean :
    (pick : Option ℕ) (p : TaskPool)
    → All IsClean p.cache
    → IsClean (get_task pick p).0 × All IsClean (get_task pick p).1.cache
unfolding get_task
get_task-IsClean pick p h =
    ground (arith, pool_take-IsClean pick (record p { count_get = add_one p.count_get }) h)

-- What `NewTask` gives: a ready and clean task with the arguments, and no result of an earlier use.
pub record IsNew (a : TaskArgs) (t : Task) : Type 0 where
  pub is_clean : IsClean t
  pub is_ready : t.state ≡ ready
  pub has_parent_ctx : t.parent_ctx ≡ a.parent_ctx
  pub has_id : t.id ≡ a.id
  pub has_name : t.name ≡ a.name
  pub has_wg : t.wg ≡ a.wg
  pub has_done_ch : t.done_ch ≡ a.done_ch
  pub has_f : t.f ≡ a.f
  pub has_requests : t.requests ≡ a.requests
  pub has_timeout : t.timeout ≡ a.timeout
  pub has_external_id : t.external_id ≡ a.external_id
  pub no_responses : t.responses ≡ []
  pub no_err : t.err ≡ none
  pub no_duration : t.duration ≡ 0

abbrev pub NewFrom : TaskArgs → Option Task × TaskPool → Type 0
NewFrom a (o, q) = (t : Task) × (o ≡ some t) × IsNew a t × All IsClean q.cache

new_task_of-NewFrom :
    (f : Option Handler) (c pick : Option ℕ) (a : TaskArgs) (p : TaskPool)
    → is_some f ≡ true
    → is_some c ≡ true
    → All IsClean p.cache
    → NewFrom a (new_task_of f c pick a p)
unfolding new_task_of
new_task_of-NewFrom none c pick a p f d h = cc
new_task_of-NewFrom (some g) none pick a p f d h = cc
new_task_of-NewFrom (some g) (some c) pick a p f d h =
    let k = get_task-IsClean pick p h in (fill a (get_task pick p).0, refl, ground (arith, k), k.1)

-- With a handler and a context, and from a cache of clean tasks, `NewTask` gives a clean and ready task
-- with all its arguments and no old results, and leaves clean tasks, whatever the runtime picks.
pub new_task-IsNew :
    (pick : Option ℕ) (a : TaskArgs) (p : TaskPool)
    → is_some a.f ≡ true
    → is_some a.parent_ctx ≡ true
    → All IsClean p.cache
    → NewFrom a (new_task pick a p)
unfolding new_task
new_task-IsNew pick a p f c h = new_task_of-NewFrom a.f a.parent_ctx pick a p f c h

-- A cache of clean tasks stays one when a clean task, in any state, is put back.
pub put_task-IsClean :
    (t : Task) (p q : TaskPool)
    → IsClean t
    → All IsClean p.cache
    → put_task t p ≡ returns tt q
    → All IsClean q.cache
unfolding put_task
put_task-IsClean t p q c h e = ground arith
