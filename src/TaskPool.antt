-- ===== src/TaskPool.antt =====
-- pkg/common/workerpool/taskpool.go, and `NewTask` and `DeleteUnsafe` of task.go: the global cache
-- of tasks over a `sync.Pool`, which gives back any cached task or makes a new one.
pub mod Clean
pub mod Recycle
pub mod Poison
use goapp.Base.{
  ℕ, ℤ, pos, zero, suc, ◌+◌, ◌%◌, ◌^◌, Bool, true, false, Option, none, some, List, [], ◌∷◌, String,
  if◌then◌else◌, get_elem?, erase_idx,
}
use goapp.GoRuntime.{M, Out, returns, blocks, make_chan, Timer, timer_stop}
use goapp.Task.{
  Task, TaskState, Handler, Value, task_new, pool_get, pool_put, ready, in_process, done_success,
  set_state_unsafe,
}

pub record TaskPool : Type 0 where
  pub cache : List Task
  pub count_get : ℕ
  pub count_put : ℕ
  pub count_new : ℕ

-- `atomic.AddUint64(&count, 1)`
abbrev pub add_one : ℕ → ℕ
add_one n = (n + 1) % 2 ^ 64

-- `time.Hour * 24 * 365`, in nanoseconds
abbrev pub pool_max_timeout : ℕ
pool_max_timeout = 31_536_000_000_000_000

-- The function `New` of the pool: a task whose timer was made and stopped.
unfoldable pub fresh_task : Task
fresh_task = set_state_unsafe task_new (record {
  parent_ctx = none;
  ctx_closed = false;
  external_id = 0;
  done_ch = none;
  wg = none;
  stop_ch = make_chan 1;
  local_done_ch = make_chan 1;
  id = 0;
  state = task_new;
  prev_state = task_new;
  name = "";
  timeout = pos 0;
  timer = (timer_stop (record { armed = some pool_max_timeout; fired = false })).0;
  requests = [];
  responses = [];
  err = none;
  duration = 0;
  f = none;
  locked = false;
})

took : ℕ → Option Task → TaskPool → Task × TaskPool
took i none p = (fresh_task, record p { count_new = add_one p.count_new })
took i (some t) p = (t, record p { cache = erase_idx p.cache i })

-- `p.pool.Get()`: `pick` says which cached task the runtime gives back, if any.
unfoldable pub pool_take : Option ℕ → TaskPool → Task × TaskPool
unfolding took
pool_take none p = (fresh_task, record p { count_new = add_one p.count_new })
pool_take (some i) p = took i (get_elem? p.cache i) p

abbrev is_new : TaskState → Bool
is_new task_new = true
is_new _ = false

-- `getTask`
unfoldable pub get_task : Option ℕ → TaskPool → Task × TaskPool
get_task pick p =
    let (t, q) = pool_take pick (record p { count_get = add_one p.count_get }) in
    (if is_new t.state then t else set_state_unsafe pool_get t, q)

-- The states in which `putTask` takes a task back.
abbrev pub is_reusable : TaskState → Bool
is_reusable task_new = true
is_reusable done_success = true
is_reusable pool_get = true
is_reusable _ = false

-- `putTask`, which waits for the task's lock before it is put into the cache. A locked task that is
-- put back is counted already.
unfoldable pub put_task : Task → M TaskPool (Unit {0})
put_task t p =
    let q = record p { count_put = add_one p.count_put } in
    if is_reusable t.state
    then (if t.locked
        then blocks q
        else returns tt (record q {
          cache = set_state_unsafe pool_put (record t { requests = []; responses = [] }) ∷ q.cache;
        }))
    else returns tt p

-- `DeleteUnsafe`, at any pointer.
unfoldable pub delete_unsafe : Option Task → M TaskPool (Unit {0})
delete_unsafe none p = returns tt p
delete_unsafe (some t) p = put_task t p

-- The arguments of `NewTask`.
pub record TaskArgs : Type 0 where
  pub parent_ctx : Option ℕ
  pub name : String
  pub done_ch : Option ℕ
  pub wg : Option ℕ
  pub id : ℕ
  pub external_id : ℕ
  pub timeout : ℤ
  pub f : Option Handler
  pub requests : List Value

abbrev pub fill : TaskArgs → Task → Task
fill a t = set_state_unsafe ready (record t {
  parent_ctx = a.parent_ctx;
  external_id = a.external_id;
  done_ch = a.done_ch;
  wg = a.wg;
  id = a.id;
  name = a.name;
  timeout = a.timeout;
  requests = a.requests;
  responses = [];
  err = none;
  duration = 0;
  f = a.f;
})

unfoldable pub make_task : Option ℕ → TaskArgs → TaskPool → Option Task × TaskPool
make_task pick a p = let (t, q) = get_task pick p in (some (fill a t), q)

unfoldable pub new_task_of :
    Option Handler → Option ℕ → Option ℕ → TaskArgs → TaskPool → Option Task × TaskPool
unfolding make_task
new_task_of none ctx pick a p = (none, p)
new_task_of (some f) none pick a p = (none, p)
new_task_of (some f) (some c) pick a p = make_task pick a p

-- `NewTask`: nil with no handler or no context.
unfoldable pub new_task : Option ℕ → TaskArgs → TaskPool → Option Task × TaskPool
unfolding new_task_of
new_task pick a p = new_task_of a.f a.parent_ctx pick a p
