-- ===== src/FactorialHandler.antt =====
-- pkg/app/httphandler/handler_wp.go: the factorials that the handler computes, by tasks of a pool or
-- in a loop of its own. `uint64` is ℕ below 2 ^ 64, with its wrap-around written out.
pub mod Loop
pub mod Online
pub mod Background
use goapp.Base.{
  ℕ, zero, suc, ◌+◌, ◌*◌, ◌%◌, ◌^◌, Bool, true, false, Option, none, some, List, [], ◌∷◌, leb,
  if◌then◌else◌,
}
use goapp.Errors.{Failure, new_typed, incorrect_type_error, incorrect_arg_num_error}
use goapp.Task.{Value, uint64, other, HandlerOut, returned, panicked}

-- `for cnt = 1; cnt <= value; cnt++ { factVal *= cnt }`, from some `cnt` on: `factVal` behind the
-- loop, or `none` if `fuel` rounds do not end it.
unfoldable pub fact_loop : ℕ → ℕ → ℕ → ℕ → Option ℕ
fact_loop zero value cnt fact_val = none
fact_loop (suc fuel) value cnt fact_val =
    let rest = fact_loop fuel value ((cnt + 1) % 2 ^ 64) (fact_val * cnt % 2 ^ 64) in
    if leb cnt value then rest else some fact_val

fact_result : Option ℕ → Option HandlerOut
fact_result none = none
fact_result (some v) = some (returned none (uint64 v ∷ []))

-- `calculateFactorialFn`
unfoldable pub calculate_factorial_fn : ℕ → List Value → Option HandlerOut
unfolding fact_result
calculate_factorial_fn fuel [] = some (returned (some (new_typed incorrect_arg_num_error 0)) [])
calculate_factorial_fn fuel (uint64 value ∷ []) = fact_result (fact_loop fuel value 1 1)
calculate_factorial_fn fuel (other n ∷ []) =
    some (returned (some (new_typed incorrect_type_error 0)) [])
calculate_factorial_fn fuel (a ∷ b ∷ rest) =
    some (returned (some (new_typed incorrect_arg_num_error 0)) [])

online_next : (ℕ → Option ℕ) → Option ℕ → Option ℕ
online_next later none = none
online_next later (some v) = later v

-- The loop of `calculateFactorialOnline` over the numbers, from some `factVal` and `factValSum` on.
unfoldable pub online_loop : ℕ → List ℕ → ℕ → ℕ → Option ℕ
unfolding online_next
online_loop fuel [] fact_val sum = some sum
online_loop fuel (value ∷ values) fact_val sum =
    online_next (λ v. online_loop fuel values v ((sum + v) % 2 ^ 64))
      (fact_loop fuel value 1 fact_val)

-- `calculateFactorialOnline`: the sum that it leaves.
unfoldable pub calculate_factorial_online : ℕ → List ℕ → Option ℕ
calculate_factorial_online fuel values = online_loop fuel values 1 0

-- The outcome of the sum over the tasks: it goes on, it fails, or it panics at a task with no answer.
pub data SumOut : Type 0 where
  summed : ℕ → SumOut
  sum_failed : Failure → SumOut
  sum_panicked : SumOut

add_value : ℕ → Value → SumOut → (ℕ → SumOut) → SumOut
add_value sum (uint64 v) stop later = later ((sum + v) % 2 ^ 64)
add_value sum (other n) stop later = stop

add_response : ℕ → List Value → (ℕ → SumOut) → SumOut
unfolding add_value
add_response sum [] later = sum_panicked
add_response sum (v ∷ vs) later =
    add_value sum v (sum_failed (new_typed incorrect_type_error 0)) later

-- What `GetError` and `GetResponses` of a task give.
pub record Answer : Type 0 where
  pub answer_err : Option Failure
  pub answer_responses : List Value

add_answer : ℕ → Option Failure → List Value → (ℕ → SumOut) → SumOut
unfolding add_response
add_answer sum none rs later = add_response sum rs later
add_answer sum (some e) rs later = sum_failed e

-- The loop of `calculateFactorial` that adds up the answers of its tasks.
unfoldable pub sum_answers : ℕ → List Answer → SumOut
unfolding add_answer
sum_answers sum [] = summed sum
sum_answers sum (a ∷ rest) =
    add_answer sum a.answer_err a.answer_responses (λ v. sum_answers v rest)
