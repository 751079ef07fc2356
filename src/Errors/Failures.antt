-- ===== src/Errors/Failures.antt =====
-- pkg/common/error/error.go: the error values, and pkg/common/recover/recover.go.
-- A `*Error` is identified by its key, its external id and its cause; `Errors.Construct` says what
-- the constructors fill in. `foreign` is an `error` that code outside this repository returns.
use goapp.Base.{ℕ, true, false, Option, none, some}
use goapp.GoRuntime.{
  Panic, send_on_closed, close_of_closed, close_of_nil, negative_counter, nil_dereference,
  index_out_of_range, raised,
}
use goapp.Errors.Keys.{ErrKey, panic_recover_error}

pub data Failure : Type 0 where
  new_typed : ErrKey → ℕ → Failure
  with_cause_typed : ErrKey → ℕ → Failure → Failure
  foreign : ℕ → Failure

-- The error number that stands for a panic value which is an `error`.
abbrev panic_error : Panic → Option Failure
panic_error send_on_closed = some (foreign 1)
panic_error close_of_closed = some (foreign 2)
panic_error close_of_nil = some (foreign 3)
panic_error negative_counter = none
panic_error nil_dereference = some (foreign 4)
panic_error index_out_of_range = some (foreign 5)
panic_error (raised true n) = some (foreign n)
panic_error (raised false n) = none

abbrev recover_error_of : Option Failure → ℕ → Failure
recover_error_of (some cause) external_id = with_cause_typed panic_recover_error external_id cause
recover_error_of none external_id = new_typed panic_recover_error external_id

-- `GetRecoverError` at a panic value that is not nil.
abbrev pub get_recover_error : Panic → ℕ → Failure
get_recover_error p external_id = recover_error_of (panic_error p) external_id

abbrev pub key_of : Failure → Option ErrKey
key_of (new_typed k e) = some k
key_of (with_cause_typed k e c) = some k
key_of (foreign n) = none

-- A result of type `(A, error)`.
pub data Result (A : Type 0) : Type 0 where
  ok : A → Result A
  failed : Failure → Result A
