-- ===== src/Examples/Data.antt =====
-- Test data: tasks, workers and pools.
use goapp.Base.{pos, negsuc, true, false, none, some, [], ◌∷◌}
use goapp.GoRuntime.{make_chan, stopped_timer}
use goapp.Task.{Task, Handler, returned, uint64, ready, task_new, in_process, done_success}
use goapp.Task.World.{World}
use goapp.Task.Process.{Env, on_done, on_timer}
use goapp.Task.Run.{handler_ends, time_up}
use goapp.TaskPool.{TaskPool, TaskArgs}
use goapp.Worker.{Worker, WorkerRun, Shared, at_check, idle}
use goapp.Worker.Steps.{Choice}
use goapp.Pool.{Pool, System, pool_new, bg_running}

abbrev pub echo_handler : Handler
echo_handler ctx requests = returned none requests

-- A short task of the wait group 0.
abbrev pub short_task_0 : Task
short_task_0 = record {
  parent_ctx = some 1;
  ctx_closed = false;
  external_id = 7;
  done_ch = none;
  wg = some 0;
  stop_ch = make_chan 1;
  local_done_ch = make_chan 1;
  id = 1;
  state = ready;
  prev_state = task_new;
  name = "short";
  timeout = negsuc 0;
  timer = stopped_timer;
  requests = uint64 3 ∷ [];
  responses = [];
  err = none;
  duration = 0;
  f = some echo_handler;
  locked = false;
}

-- A task of five time units, which signals through the channel 0 as well, and one with no limit.
abbrev pub long_task_0 : Task
long_task_0 = record short_task_0 { timeout = pos 5; done_ch = some 0 }

abbrev pub unlimited_task : Task
unlimited_task = record short_task_0 { timeout = pos 0 }

abbrev pub running_task : Task
running_task = record long_task_0 { state = in_process }

abbrev pub done_task : Task
done_task = record short_task_0 { state = done_success }

abbrev pub world_0 : World
world_0 = record { chans = λ c. make_chan 2; wgs = λ g. 1 }

abbrev pub calm : Env
calm = record { events = []; pick = on_done; elapsed = 2 }

abbrev pub slow : Env
slow = record { events = time_up ∷ []; pick = on_timer; elapsed = 6 }

abbrev pub ended : Env
ended = record { events = handler_ends ∷ []; pick = on_done; elapsed = 1 }

abbrev pub choice_0 : Choice
choice_0 = record { stop_first = false; env = calm }

abbrev pub empty_cache : TaskPool
empty_cache = record { cache = []; count_get = 0; count_put = 0; count_new = 0 }

abbrev pub args_0 : TaskArgs
args_0 = record {
  parent_ctx = some 1;
  name = "new";
  done_ch = none;
  wg = some 0;
  id = 3;
  external_id = 7;
  timeout = pos 5;
  f = some echo_handler;
  requests = uint64 4 ∷ [];
}

abbrev pub shared_0 : Shared
shared_0 = record {
  tasks = λ k. short_task_0;
  task_queue_ch = record { cap = 2; buf = some 4 ∷ []; closed = true };
  ctx_done = false;
  err_ch = make_chan 1;
  run_wg = none;
  world = world_0;
}

abbrev pub worker_0 : Worker
worker_0 = record {
  id = 1;
  external_id = 9;
  state = idle;
  stop_ch = some (make_chan 1);
  timeout = pos 0;
  task_in_process = none;
  locked = true;
  place = at_check;
}

abbrev pub worker_run_0 : WorkerRun
worker_run_0 = record { worker = worker_0; shared = shared_0 }

abbrev pub new_pool_0 : Pool
new_pool_0 = record {
  external_id = 9;
  name = "pool";
  state = pool_new;
  made = false;
  stop_ch = make_chan 1;
  is_background = false;
  workers = [];
  worker_concurrency = 1;
  worker_timeout = pos 0;
  task_queue_size = 2;
  ctx_closed = false;
}

-- A pool in the background, with no worker left.
abbrev pub bg_pool_0 : Pool
bg_pool_0 = record new_pool_0 { state = bg_running; made = true; is_background = true }

abbrev pub new_system : System
new_system = record {
  pool = new_pool_0;
  shared = record shared_0 { world = record { chans = λ c. make_chan 2; wgs = λ g. 3 } };
}

abbrev pub bg_system : System
bg_system = record { pool = bg_pool_0; shared = record shared_0 { task_queue_ch = make_chan 2 } }
