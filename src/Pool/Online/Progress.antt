-- ===== src/Pool/Online/Progress.antt =====
-- An online run of quiet tasks comes to its end: every step of a worker makes what is left smaller.
use goapp.Base.{
  ℕ, suc, ◌+◌, ◌*◌, ◌<◌, true, false, Option, none, some, List, [], ◌∷◌, ◌≡◌, refl, ◌⊎◌, inl, inr,
  arith, length, ◌∙◌,
}
use goapp.GoRuntime.{Out, returns, make_chan}
use goapp.Task.Quiet.{IsQuiet}
use goapp.Worker.{
  Worker, WorkerRun, Shared, Place, not_started, at_check, at_select, processing, leaving, gone,
  start, worker_new, terminating_task_ch_closed, working, idle, terminated,
}
use goapp.Worker.Steps.{Choice, step, go_to, leave_as, choose, leave}
use goapp.Worker.Drain.{step_take, step_closed, step_work, after_work, with_queue, update-IsQuiet}
use goapp.Worker.Drain
use goapp.Pool.Online.{goroutine, goroutine_at}
use goapp.Pool.Online.Outcomes.{step_start, step_leave, step_choose, goroutine-at}
use goapp.Pool.Online.Panics.{is_waiting}

-- The steps that a worker still makes over an empty queue.
abbrev pub left_at : Place → ℕ
left_at not_started = 4
left_at at_check = 3
left_at at_select = 2
left_at (processing h) = 4
left_at leaving = 1
left_at gone = 0

-- With three more for each pointer of the queue.
abbrev pub left : WorkerRun → ℕ
left r = left_at r.worker.place + 3 * length r.shared.task_queue_ch.buf

-- Nobody has stopped the worker.
abbrev pub IsCalm : Worker → Type 0
IsCalm w =
    ((w.place ≡ not_started) × (w.locked ≡ false) × (w.state ≡ worker_new))
    ⊎ ((is_waiting w.place ≡ false) × (w.stop_ch ≡ some (make_chan 1)))

-- The queue is closed, the context is open and all tasks are quiet.
pub record IsSteady (h : Shared) : Type 0 where
  pub queue_closed : h.task_queue_ch.closed ≡ true
  pub ctx_open : h.ctx_done ≡ false
  pub quiet : (k : ℕ) → IsQuiet (h.tasks k)

-- A step that comes back, and leaves less to do.
abbrev pub Advances : WorkerRun → Out WorkerRun (Unit {0}) → Type 0
Advances r o =
    (s : WorkerRun) × (o ≡ returns tt s) × (left s < left r) × IsCalm s.worker × IsSteady s.shared

abbrev begun_worker : WorkerRun → WorkerRun
begun_worker r = record r {
  worker = record r.worker {
    state = idle;
    locked = true;
    stop_ch = some (make_chan 1);
    place = at_check;
  };
}

start_calm :
    (r : WorkerRun)
    → r.worker.locked ≡ false
    → r.worker.state ≡ worker_new
    → start r ≡ returns tt (begun_worker r)
unfolding start
start_calm r l n = ground arith

-- A pointer that is taken out of the queue, and a nil one, which is passed over.
abbrev queue_rest : List (Option ℕ) → WorkerRun → Shared
queue_rest rest r = record r.shared { task_queue_ch = with_queue rest r.shared.task_queue_ch }

choose_nil :
    (ch : Choice) (r : WorkerRun) (rest : List (Option ℕ))
    → r.worker.stop_ch ≡ some (make_chan 1)
    → r.shared.task_queue_ch.buf ≡ none ∷ rest
    → choose ch r ≡ returns tt (go_to at_check (record r { shared = queue_rest rest r }))
unfolding choose
choose_nil ch r rest n b = ground arith

step-of_goroutine :
    (p : Place) (ch : Choice) (r : WorkerRun)
    → is_waiting p ≡ false
    → r.worker.place ≡ p
    → goroutine ch r ≡ step ch r
unfolding goroutine_at
step-of_goroutine not_started ch r w p = cc
step-of_goroutine at_check ch r w p = goroutine-at at_check ch r p
step-of_goroutine at_select ch r w p = goroutine-at at_select ch r p
step-of_goroutine (processing h) ch r w p = goroutine-at (processing h) ch r p
step-of_goroutine leaving ch r w p = goroutine-at leaving ch r p
step-of_goroutine gone ch r w p = goroutine-at gone ch r p

stop_ch-calm :
    (p : Place) (w : Worker)
    → w.place ≡ p
    → is_waiting p ≡ false
    → IsCalm w
    → w.stop_ch ≡ some (make_chan 1)
stop_ch-calm p w e n (inl (q, l, s)) = cc
stop_ch-calm p w e n (inr (q, c)) = c

advance_select :
    (b : List (Option ℕ)) (ch : Choice) (r : WorkerRun)
    → r.worker.place ≡ at_select
    → r.worker.stop_ch ≡ some (make_chan 1)
    → IsSteady r.shared
    → r.shared.task_queue_ch.buf ≡ b
    → Advances r (goroutine ch r)
advance_select [] ch r p c t b = (
  leave_as terminating_task_ch_closed r,
  step-of_goroutine at_select ch r refl p ∙ step_closed ch r p c b t.queue_closed,
  ground arith,
  inr (refl, c),
  t,
)
advance_select (none ∷ rest) ch r p c t b = (
  go_to at_check (record r { shared = queue_rest rest r }),
  step_choose ch r p ∙ choose_nil ch r rest c b,
  ground arith,
  inr (refl, c),
  record { queue_closed = t.queue_closed; ctx_open = t.ctx_open; quiet = t.quiet },
)
advance_select (some h ∷ rest) ch r p c t b = (
  record {
    worker = record r.worker { state = working; task_in_process = some h; place = processing h };
    shared = queue_rest rest r;
  },
  step-of_goroutine at_select ch r refl p ∙ step_take ch r h rest p c b,
  ground arith,
  inr (refl, c),
  record { queue_closed = t.queue_closed; ctx_open = t.ctx_open; quiet = t.quiet },
)

abbrev last_state : ℕ → WorkerRun → WorkerRun
last_state n r = record {
  worker = record r.worker { state = terminated; locked = false; place = gone };
  shared = record r.shared { run_wg = some n };
}

leave_counted :
    (n : ℕ) (r : WorkerRun) → r.shared.run_wg ≡ some (suc n) → leave r ≡ returns tt (last_state n r)
unfolding leave
leave_counted n r w = ground arith

-- Each worker of a steady run that is not gone makes a step, with which less is left to do.
pub goroutine-Advances :
    (p : Place) (n : ℕ) (ch : Choice) (r : WorkerRun)
    → r.worker.place ≡ p
    → 0 < left_at p
    → r.shared.run_wg ≡ some (suc n)
    → IsCalm r.worker
    → IsSteady r.shared
    → Advances r (goroutine ch r)
goroutine-Advances not_started n ch r p l w (inl (q, k, s)) t =
    (begun_worker r, step_start ch r p ∙ start_calm r k s, ground arith, inr (refl, refl), t)
goroutine-Advances not_started n ch r p l w (inr (q, c)) t = cc
goroutine-Advances at_check n ch r p l w c t =
    let stop = stop_ch-calm at_check r.worker p refl c in
    (
      go_to at_select r,
      step-of_goroutine at_check ch r refl p ∙ Drain.step_check ch r p stop t.ctx_open,
      ground arith,
      inr (refl, stop),
      t,
    )
goroutine-Advances at_select n ch r p l w c t =
    advance_select r.shared.task_queue_ch.buf ch r p (stop_ch-calm at_select r.worker p refl c) t
      refl
goroutine-Advances (processing h) n ch r p l w c t =
    let (s, e, q, f) = step_work ch r h p (t.quiet h) in
    (
      after_work h r s,
      step-of_goroutine (processing h) ch r refl p ∙ e,
      ground arith,
      inr (refl, stop_ch-calm (processing h) r.worker p refl c),
      record {
        queue_closed = t.queue_closed;
        ctx_open = t.ctx_open;
        quiet = update-IsQuiet r.shared.tasks h s.task q t.quiet;
      },
    )
goroutine-Advances leaving n ch r p l w c t = (
  last_state n r,
  step_leave ch r p ∙ leave_counted n r w,
  ground arith,
  inr (refl, stop_ch-calm leaving r.worker p refl c),
  record { queue_closed = t.queue_closed; ctx_open = t.ctx_open; quiet = t.quiet },
)
goroutine-Advances gone n ch r p l w c t = absurd (omega (arith, l))
