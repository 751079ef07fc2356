-- ===== src/PoolService/CounterLaws.antt =====
-- The goroutine that counts the ends of a group keeps the wait group and its own counter in step.
use goapp.Base.{
  ℕ, zero, suc, ◌+◌, ◌-◌, ◌≤◌, ◌<◌, Bool, true, false, List, [], ◌∷◌, ◌≡◌, refl, ◌⊎◌, inl, inr,
  arith, Bool-cases, ltb, ◌∙◌,
}
use goapp.GoRuntime.{Out, returns}
use goapp.PoolService.Counter.{
  Counter, CounterEvent, task_done, done_ch_closed, ctx_done, timer_fired, count_one, release,
  release_all, counter_step, counter_run, new_counter,
}

-- The wait group counts what is not done, or the loop ended on a task too many.
abbrev pub IsBalanced : Counter → Type 0
IsBalanced c = (c.wg + c.done_cnt ≡ c.wg_cnt) ⊎ ((c.wg ≡ 0) × (c.over ≡ true))

abbrev IsReleased : ℕ → Counter → Counter → Type 0
IsReleased n c d =
    (d.wg + n ≡ c.wg) × (d.done_cnt ≡ c.done_cnt + n) × (d.wg_cnt ≡ c.wg_cnt) × (d.over ≡ c.over)

abbrev counted_one : Counter → Counter
counted_one c = record c { wg = c.wg - 1; done_cnt = c.done_cnt + 1 }

count_one_positive : (c : Counter) → 0 < c.wg → count_one c ≡ returns tt (counted_one c)
unfolding count_one
count_one_positive c h = ground arith

release-IsReleased :
    (n : ℕ) (c : Counter)
    → n ≤ c.wg
    → (d : Counter) × (release n c ≡ returns tt d) × IsReleased n c d
unfolding release
release-IsReleased zero c h = (c, refl, (omega arith, omega arith, refl, refl))
release-IsReleased (suc n) c h =
    let (d, e, (w, m, k, o)) = release-IsReleased n (counted_one c) (omega arith) in
    (d, rw (count_one_positive c (omega arith)) e, (omega (arith, w), omega (arith, m), k, o))

-- The balance of a loop that goes on.
abbrev IsOpen : Counter → Type 0
IsOpen c = c.wg + c.done_cnt ≡ c.wg_cnt

release_all-IsOpen :
    (c : Counter)
    → IsOpen c
    → (d : Counter) × (release_all c ≡ returns tt d) × (d.wg ≡ 0) × IsOpen d × (d.over ≡ c.over)
unfolding release_all
release_all-IsOpen c h =
    let (d, e, (w, m, k, o)) = release-IsReleased (c.wg_cnt - c.done_cnt) c (omega arith) in
    (d, e, omega (arith, w, h), omega (arith, w, m, k, h), o)

abbrev pub Stepped : Out Counter (Unit {0}) → Type 0
Stepped o = (d : Counter) × (o ≡ returns tt d) × IsBalanced d

counter_step-balanced : (e : CounterEvent) (c : Counter) → IsOpen c → Stepped (counter_step e c)
unfolding counter_step
counter_step-balanced task_done c h = elim (Bool-cases (ltb c.done_cnt c.wg_cnt)) [
  | inl l ↦ rw (l, count_one_positive c (ground arith)) (counted_one c, refl, inl (ground arith))
  | inr l ↦ rw l (_, refl, inr (ground arith, refl))
]
counter_step-balanced done_ch_closed c h = (_, refl, inl h)
counter_step-balanced ctx_done c h =
    let (d, e, w, b, o) = release_all-IsOpen (record c { err = _ }) h in (d, e, inl b)
counter_step-balanced timer_fired c h =
    let (d, e, w, b, o) = release_all-IsOpen (record c { err = _ }) h in (d, e, inl b)

counter_run_over :
    (es : List CounterEvent) (c : Counter) → c.over ≡ true → counter_run es c ≡ returns tt c
unfolding counter_run
counter_run_over [] c o = refl
counter_run_over (e ∷ es) c o = ground arith

counter_run_next :
    (e : CounterEvent) (es : List CounterEvent) (c d : Counter)
    → c.over ≡ false
    → counter_step e c ≡ returns tt d
    → counter_run (e ∷ es) c ≡ counter_run es d
unfolding counter_run
counter_run_next e es c d o r = rw (r, o) refl

counter_run_nil : (c : Counter) → counter_run [] c ≡ returns tt c
unfolding counter_run
counter_run_nil c = refl

-- Whatever case each `select` takes, the goroutine never lowers the wait group below zero, and the
-- wait group stays in line with its counter.
pub counter_run-IsBalanced :
    (es : List CounterEvent) (c : Counter) → IsBalanced c → Stepped (counter_run es c)
counter_run-IsBalanced [] c b = (c, counter_run_nil c, b)
counter_run-IsBalanced (e ∷ es) c (inr (w, o)) = (c, counter_run_over (e ∷ es) c o, inr (w, o))
counter_run-IsBalanced (e ∷ es) c (inl h) = elim (Bool-cases c.over) [
  | inl o ↦ (c, counter_run_over (e ∷ es) c o, inl h)
  | inr o ↦
      let (d, r, b) = counter_step-balanced e c h in
      let (f, q, k) = counter_run-IsBalanced es d b in (f, counter_run_next e es c d o r ∙ q, k)
]

-- Whether the cases free the caller, whose wait group counts `n`: enough ends of tasks, or one case
-- that interrupts the group, before the channel is closed.
abbrev pub frees : ℕ → List CounterEvent → Bool
frees zero es = true
frees (suc n) [] = false
frees (suc n) (task_done ∷ es) = frees n es
frees (suc n) (done_ch_closed ∷ es) = false
frees (suc n) (ctx_done ∷ es) = true
frees (suc n) (timer_fired ∷ es) = true

counter_step_done :
    (c : Counter) → 0 < c.wg → IsOpen c → counter_step task_done c ≡ returns tt (counted_one c)
unfolding counter_step count_one
counter_step_done c l h = ground arith

-- The caller can go on.
abbrev pub Freed : Out Counter (Unit {0}) → Type 0
Freed o = (d : Counter) × (o ≡ returns tt d) × IsBalanced d × (d.wg ≡ 0)

abbrev interrupts : CounterEvent → Bool
interrupts task_done = false
interrupts done_ch_closed = false
interrupts ctx_done = true
interrupts timer_fired = true

step_interrupted :
    (e : CounterEvent) (c : Counter) → interrupts e ≡ true → IsOpen c → Freed (counter_step e c)
unfolding counter_step
step_interrupted task_done c i h = cc
step_interrupted done_ch_closed c i h = cc
step_interrupted ctx_done c i h =
    let (d, e, w, b, o) = release_all-IsOpen (record c { err = _ }) h in (d, e, inl b, w)
step_interrupted timer_fired c i h =
    let (d, e, w, b, o) = release_all-IsOpen (record c { err = _ }) h in (d, e, inl b, w)

not_less : (c : Counter) → c.wg ≡ 0 → IsOpen c → ltb c.done_cnt c.wg_cnt ≡ false
not_less c w h = ground arith

step_task_done_zero : (c : Counter) → c.wg ≡ 0 → IsOpen c → Freed (counter_step task_done c)
unfolding counter_step
step_task_done_zero c w h = rw (not_less c w h) (_, refl, inr (w, refl), w)

-- A wait group that is at zero stays there.
step_zero : (e : CounterEvent) (c : Counter) → c.wg ≡ 0 → IsOpen c → Freed (counter_step e c)
unfolding counter_step
step_zero task_done c w h = step_task_done_zero c w h
step_zero done_ch_closed c w h = (_, refl, inl h, w)
step_zero ctx_done c w h = step_interrupted ctx_done c refl h
step_zero timer_fired c w h = step_interrupted timer_fired c refl h

run_zero :
    (es : List CounterEvent) (c : Counter) → c.wg ≡ 0 → IsBalanced c → Freed (counter_run es c)
run_zero [] c w b = (c, counter_run_nil c, b, w)
run_zero (e ∷ es) c w (inr (v, o)) = (c, counter_run_over (e ∷ es) c o, inr (v, o), w)
run_zero (e ∷ es) c w (inl h) = elim (Bool-cases c.over) [
  | inl o ↦ (c, counter_run_over (e ∷ es) c o, inl h, w)
  | inr o ↦
      let (d, r, b, v) = step_zero e c w h in
      let (f, q, k, z) = run_zero es d v b in (f, counter_run_next e es c d o r ∙ q, k, z)
]

run_interrupted :
    (e : CounterEvent) (es : List CounterEvent) (c : Counter)
    → interrupts e ≡ true
    → c.over ≡ false
    → IsOpen c
    → Freed (counter_run (e ∷ es) c)
run_interrupted e es c i o h =
    let (d, r, b, v) = step_interrupted e c i h in
    let (f, q, k, z) = run_zero es d v b in (f, counter_run_next e es c d o r ∙ q, k, z)

frees_at :
    (n : ℕ) (es : List CounterEvent) (c : Counter)
    → c.wg ≡ n
    → c.over ≡ false
    → IsOpen c
    → frees n es ≡ true
    → Freed (counter_run es c)
frees_at zero es c w o h f = run_zero es c w (inl h)
frees_at (suc n) [] c w o h f = cc
frees_at (suc n) (task_done ∷ es) c w o h f =
    let (d, q, k, z) = frees_at n es (counted_one c) (omega arith) o (omega arith) f in
    (
      d,
      counter_run_next task_done es c (counted_one c) o (counter_step_done c (omega arith) h) ∙ q,
      k,
      z,
    )
frees_at (suc n) (done_ch_closed ∷ es) c w o h f = cc
frees_at (suc n) (ctx_done ∷ es) c w o h f = run_interrupted ctx_done es c refl o h
frees_at (suc n) (timer_fired ∷ es) c w o h f = run_interrupted timer_fired es c refl o h

-- The caller of a group of `n` tasks is freed by `n` ends of tasks, and at once by a closed context
-- or the end of the total time, whatever comes behind.
pub counter_run-frees :
    (external_id n : ℕ) (es : List CounterEvent)
    → frees n es ≡ true
    → Freed (counter_run es (new_counter external_id n))
counter_run-frees external_id n es f =
    frees_at n es (new_counter external_id n) refl refl (omega arith) f
