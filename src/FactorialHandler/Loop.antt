-- ===== src/FactorialHandler/Loop.antt =====
-- The loop of the factorial: what it computes, how many rounds it takes, and when it never ends.
use native.Mathlib.Nat.{mod-lt, mod-eq_of_lt, mod-add-div, add-mul-mod_self_left}
use native.Mathlib.Nat.{mul_comm, mul_assoc, add-mul, mul-one, one-mul}
use Prim.Native.Nat.{◌/◌}
use goapp.Base.{
  ℕ, zero, suc, ◌+◌, ◌*◌, ◌%◌, ◌^◌, ◌<◌, ◌≤◌, ◌-◌, true, false, none, some, [], ◌∷◌, leb, ◌≡◌, refl,
  sym, ap, ◌∙◌, arith,
}
use goapp.Task.{uint64, returned}
use goapp.FactorialHandler.{fact_loop, calculate_factorial_fn}

abbrev pub factorial : ℕ → ℕ
factorial zero = 1
factorial (suc n) = suc n * factorial n

-- The product of `k` numbers from `c` on.
abbrev rising : ℕ → ℕ → ℕ
rising c zero = 1
rising c (suc k) = c * rising (c + 1) k

rising_last : (c k : ℕ) → rising c (suc k) ≡ rising c k * (c + k)
rising_last c zero = ground arith
rising_last c (suc k) =
    ap (λ x. c * x) (rising_last (c + 1) k)
    ∙ sym (mul_assoc c (rising (c + 1) k) (c + 1 + k))
    ∙ ap (λ x. c * rising (c + 1) k * x) (omega arith)

rising-factorial : (n : ℕ) → rising 1 n ≡ factorial n
rising-factorial zero = refl
rising-factorial (suc n) =
    rising_last 1 n
    ∙ ap (λ x. x * (1 + n)) (rising-factorial n)
    ∙ mul_comm (factorial n) (1 + n)
    ∙ ap (λ x. x * factorial n) (omega arith)

-- A factor may be reduced before it is multiplied.
pub mod-mul-mod : (a c m : ℕ) → (a % m) * c % m ≡ a * c % m
mod-mul-mod a c m =
    sym (add-mul-mod_self_left ((a % m) * c) m (a / m * c))
    ∙ ap (λ x. ((a % m) * c + x) % m) (sym (mul_assoc m (a / m) c))
    ∙ ap (λ x. x % m) (sym (add-mul (a % m) (m * (a / m)) c))
    ∙ ap (λ x. x * c % m) (mod-add-div a m)

-- The products of 64-bit numbers, where each of them is reduced.
reduced : (v c m : ℕ) → (v * c % 2 ^ 64) * m % 2 ^ 64 ≡ v * (c * m) % 2 ^ 64
reduced v c m = mod-mul-mod (v * c) m (2 ^ 64) ∙ ap (λ x. x % 2 ^ 64) (mul_assoc v c m)

fact_loop_next :
    (fuel value cnt v : ℕ)
    → cnt ≤ value
    → value + 1 < 2 ^ 64
    → fact_loop (suc fuel) value cnt v ≡ fact_loop fuel value (cnt + 1) (v * cnt % 2 ^ 64)
unfolding fact_loop
fact_loop_next fuel value cnt v l b =
    let e : (cnt + 1) % 2 ^ 64 ≡ cnt + 1 = mod-eq_of_lt (omega arith) in
    let le : leb cnt value ≡ true = ground arith in rw (le, e) refl

fact_loop_end : (fuel value cnt v : ℕ) → value < cnt → fact_loop (suc fuel) value cnt v ≡ some v
unfolding fact_loop
fact_loop_end fuel value cnt v l = let gt : leb cnt value ≡ false = ground arith in rw gt refl

fact_loop-rising :
    (k fuel value cnt v : ℕ)
    → k < fuel
    → cnt + k ≡ value + 1
    → value + 1 < 2 ^ 64
    → v < 2 ^ 64
    → fact_loop fuel value cnt v ≡ some (v * rising cnt k % 2 ^ 64)
fact_loop-rising k zero value cnt v f e b l = absurd (omega (arith, f))
fact_loop-rising zero (suc fuel) value cnt v f e b l =
    fact_loop_end fuel value cnt v (omega (arith, e))
    ∙ ap some (sym (mod-eq_of_lt l) ∙ ap (λ x. x % 2 ^ 64) (sym (mul-one v)))
fact_loop-rising (suc k) (suc fuel) value cnt v f e b l =
    fact_loop_next fuel value cnt v (omega (arith, e)) b
    ∙ fact_loop-rising k fuel value (cnt + 1) (v * cnt % 2 ^ 64) (omega (arith, f))
        (omega (arith, e)) b (mod-lt (v * cnt) (omega arith))
    ∙ ap some (reduced v cnt (rising (cnt + 1) k))

-- The loop from 1 on ends after `value + 1` looks at its condition, and multiplies by the factorial.
pub fact_loop-factorial :
    (fuel value v : ℕ)
    → value < fuel
    → value + 1 < 2 ^ 64
    → v < 2 ^ 64
    → fact_loop fuel value 1 v ≡ some (v * factorial value % 2 ^ 64)
fact_loop-factorial fuel value v l b w =
    fact_loop-rising value fuel value 1 v l (omega arith) b w
    ∙ ap (λ x. some (v * x % 2 ^ 64)) (rising-factorial value)

-- At a number below 2 ^ 64 - 1, the handler of a task returns the factorial modulo 2 ^ 64, and with
-- more than so many rounds it always does.
pub calculate_factorial_fn-factorial :
    (fuel value : ℕ)
    → value < fuel
    → value + 1 < 2 ^ 64
    → calculate_factorial_fn fuel (uint64 value ∷ [])
      ≡ some (returned none (uint64 (factorial value % 2 ^ 64) ∷ []))
unfolding calculate_factorial_fn
calculate_factorial_fn-factorial fuel value l b =
    rw (fact_loop-factorial fuel value 1 l b (omega arith), one-mul (factorial value)) refl

fact_loop_forever : (fuel cnt v : ℕ) → cnt < 2 ^ 64 → fact_loop fuel (2 ^ 64 - 1) cnt v ≡ none
unfolding fact_loop
fact_loop_forever zero cnt v l = refl
fact_loop_forever (suc fuel) cnt v l =
    let le : leb cnt (2 ^ 64 - 1) ≡ true = ground arith in
    rw le (
      fact_loop_forever fuel ((cnt + 1) % 2 ^ 64) (v * cnt % 2 ^ 64)
        (mod-lt (cnt + 1) (omega arith)))

-- At 2 ^ 64 - 1 the condition of the loop is always true: no number of rounds ends it.
pub calculate_factorial_fn_forever :
    (fuel : ℕ) → calculate_factorial_fn fuel (uint64 (2 ^ 64 - 1) ∷ []) ≡ none
unfolding calculate_factorial_fn
calculate_factorial_fn_forever fuel = rw (fact_loop_forever fuel 1 1 (omega arith)) refl
