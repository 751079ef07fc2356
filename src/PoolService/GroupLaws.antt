-- ===== src/PoolService/GroupLaws.antt =====
-- What a group of tasks that was sent leaves in the queue and in its wait group.
use goapp.Base.{ℕ, suc, ◌+◌, ℤ, Option, none, some, List, [], ◌∷◌, ◌++◌, ◌≡◌, refl, length}
use goapp.Pool.{System}
use goapp.PoolService.Group.{by_wg, submit_all}

-- The pointers of a list that are not nil.
abbrev pub given : List (Option ℕ) → List (Option ℕ)
given [] = []
given (none ∷ ts) = given ts
given (some h ∷ ts) = some h ∷ given ts

submit_all-none :
    (g external_id : ℕ) (total : ℤ) (clock : ℕ → ℕ) (ts : List (Option ℕ)) (s : System)
    → submit_all (by_wg g) external_id total clock (none ∷ ts) s
      ≡ submit_all (by_wg g) external_id total (λ i. clock (suc i)) ts s
unfolding submit_all
submit_all-none g external_id total clock ts s = refl

-- What a loop that went through has done to the queue and to the counter.
abbrev pub Sent : ℕ → List (Option ℕ) → System → System → Type 0
Sent g ts s t =
    (t.shared.task_queue_ch.buf ≡ s.shared.task_queue_ch.buf ++ given ts)
    × (t.shared.world.wgs g ≡ s.shared.world.wgs g + length (given ts))
