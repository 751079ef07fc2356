-- ===== src/PoolService/Counter.antt =====
-- pkg/common/workerpoolservice/workerpool_service.go, the goroutine of `RunTasksGroupCh` that counts
-- the ends of the tasks of a group and lowers the wait group of the caller.
use goapp.Base.{
  ℕ, zero, suc, ◌+◌, ◌-◌, Bool, true, false, Option, none, some, List, [], ◌∷◌, ltb, if◌then◌else◌,
}
use goapp.GoRuntime.{M, Out, returns, panics, blocks, bind, wg_done}
use goapp.Errors.{
  Failure, new_typed, worker_pool_task_count_error, worker_pool_context_closed,
  worker_pool_timeout_error,
}

-- The variables that the goroutine shares with its caller, and whether it has returned.
pub record Counter : Type 0 where
  pub external_id : ℕ
  pub wg : ℕ
  pub wg_cnt : ℕ
  pub done_cnt : ℕ
  pub err : Option Failure
  pub over : Bool

-- The cases of its `select`.
pub data CounterEvent : Type 0 where
  task_done done_ch_closed ctx_done timer_fired : CounterEvent

counted : Counter → Out ℕ (Unit {0}) → Out Counter (Unit {0})
counted c (returns a n) = returns tt (record c { wg = n; done_cnt = c.done_cnt + 1 })
counted c (panics p n) = panics p c
counted c (blocks n) = blocks c

-- `wg.Done(); doneCnt++`
unfoldable pub count_one : M Counter (Unit {0})
unfolding counted
count_one c = counted c (wg_done c.wg)

-- `for doneCnt < wgCnt { wg.Done(); doneCnt++ }`, of which `n` rounds are left.
unfoldable pub release : ℕ → M Counter (Unit {0})
release zero c = returns tt c
release (suc n) c = bind (count_one c) (λ _. release n)

unfoldable pub release_all : M Counter (Unit {0})
release_all c = release (c.wg_cnt - c.done_cnt) c

-- One round of the loop, for the case that its `select` takes.
unfoldable pub counter_step : CounterEvent → M Counter (Unit {0})
counter_step task_done c =
    if ltb c.done_cnt c.wg_cnt
    then count_one c
    else returns tt (record c {
      done_cnt = c.done_cnt + 1;
      err = some (new_typed worker_pool_task_count_error c.external_id);
      over = true;
    })
counter_step done_ch_closed c = returns tt (record c { over = true })
counter_step ctx_done c =
    release_all (record c { err = some (new_typed worker_pool_context_closed c.external_id) })
counter_step timer_fired c =
    release_all (record c { err = some (new_typed worker_pool_timeout_error c.external_id) })

-- The loop, over the cases in the order in which they come.
unfoldable pub counter_run : List CounterEvent → M Counter (Unit {0})
counter_run [] c = returns tt c
counter_run (e ∷ es) c =
    let later : M Counter (Unit {0}) = counter_run es in
    if c.over then returns tt c else bind (counter_step e c) (λ _. later)

-- The goroutine at its start, with one `wg.Add(1)` for each task that was sent.
abbrev pub new_counter : ℕ → ℕ → Counter
new_counter external_id n = record {
  external_id = external_id;
  wg = n;
  wg_cnt = n;
  done_cnt = 0;
  err = none;
  over = false;
}
