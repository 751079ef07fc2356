-- ===== src/Task/World.antt =====
-- The objects that tasks share: the channels `doneCh` and the wait groups `wg` of the outside
-- world, by number, and the deferred function of `process` that signals the end of a task.
use goapp.Base.{ℕ, Option, none, some, ◌==◌, if◌then◌else◌}
use goapp.GoRuntime.{Chan, M, Out, returns, panics, blocks, send, wg_done, ◌>>◌}

pub record World : Type 0 where
  pub chans : ℕ → Chan (Unit {0})
  pub wgs : ℕ → ℕ

abbrev pub update {ℓ} : {A : Type ℓ} → (ℕ → A) → ℕ → A → ℕ → A
update f k v j = if j == k then v else f j

sent_to : ℕ → World → Out (Chan (Unit {0})) (Unit {0}) → Out World (Unit {0})
sent_to h w (returns a c) = returns tt (record w { chans = update w.chans h c })
sent_to h w (panics p c) = panics p w
sent_to h w (blocks c) = blocks w

-- `if ts.doneCh != nil { ts.doneCh <- struct{}{} }`
unfoldable pub send_done : Option ℕ → M World (Unit {0})
unfolding sent_to
send_done none w = returns tt w
send_done (some h) w = sent_to h w (send tt (w.chans h))

lowered : ℕ → World → Out ℕ (Unit {0}) → Out World (Unit {0})
lowered h w (returns a n) = returns tt (record w { wgs = update w.wgs h n })
lowered h w (panics p n) = panics p w
lowered h w (blocks n) = blocks w

-- `if ts.wg != nil { ts.wg.Done() }`
unfoldable pub done_wg : Option ℕ → M World (Unit {0})
unfolding lowered
done_wg none w = returns tt w
done_wg (some h) w = lowered h w (wg_done (w.wgs h))

-- The deferred function of `process` that informs the outside world.
unfoldable pub notify : Option ℕ → Option ℕ → M World (Unit {0})
unfolding send_done done_wg
notify c g = do send_done c; done_wg g
