-- ===== src/GoRuntime/Channels.antt =====
-- Go channels with a buffer, and `sync.WaitGroup`, as the language and its library define them.
-- A nil channel is `none`. A goroutine that would wait is `blocks`.
use goapp.Base.{
  ℕ, ◌-◌, Bool, true, false, Option, none, some, List, [], ◌∷◌, ◌++◌, ltb, ◌==◌, if◌then◌else◌,
  length,
}
use goapp.GoRuntime.Control.{
  Out, returns, panics, blocks, send_on_closed, close_of_closed, negative_counter,
}

pub record Chan {ℓ} (A : Type ℓ) : Type ℓ where
  pub cap : ℕ
  pub buf : List A
  pub closed : Bool

module _ {ℓ} {A : Type ℓ} where
  abbrev pub make_chan : ℕ → Chan A
  make_chan n = record { cap = n; buf = []; closed = false }

  -- `c <- a`
  abbrev pub send : A → Chan A → Out (Chan A) (Unit {0})
  send a c =
      if c.closed
      then panics send_on_closed c
      else if ltb (length c.buf) c.cap
      then returns tt (record c { buf = c.buf ++ a ∷ [] })
      else blocks c

  abbrev recv_from : List A → Chan A → Out (Chan A) (Option A)
  recv_from [] c = if c.closed then returns none c else blocks c
  recv_from (a ∷ rest) c = returns (some a) (record c { buf = rest })

  -- `a, ok := <-c`: `none` is `ok == false`, which only a closed and empty channel gives.
  abbrev pub recv : Chan A → Out (Chan A) (Option A)
  recv c = recv_from c.buf c

  -- `close(c)`
  abbrev pub close : Chan A → Out (Chan A) (Unit {0})
  close c = if c.closed then panics close_of_closed c else returns tt (record c { closed = true })

  abbrev is_nonempty : List A → Bool
  is_nonempty [] = false
  is_nonempty (a ∷ rest) = true

  -- Whether a `select` may take the case that receives from `c`.
  abbrev pub can_recv : Chan A → Bool
  can_recv c = if c.closed then true else is_nonempty c.buf

-- `wg.Done()`, which panics below zero.
abbrev pub wg_done : ℕ → Out ℕ (Unit {0})
wg_done n = if n == 0 then panics negative_counter n else returns tt (n - 1)
