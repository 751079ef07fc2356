-- ===== src/Examples/Factorials.antt =====
-- The theorems about the factorials at concrete numbers.
use goapp.Base.{none, some, [], ◌∷◌, ◌≡◌, arith}
use goapp.Task.{uint64, returned}
use goapp.FactorialHandler.{calculate_factorial_fn, calculate_factorial_online}
use goapp.FactorialHandler.Loop.{calculate_factorial_fn-factorial}
use goapp.FactorialHandler.Online.{calculate_factorial_online-sum, IsSmall}

calculate_factorial_fn-factorial_example :
    calculate_factorial_fn 9 (uint64 5 ∷ []) ≡ some (returned none (uint64 120 ∷ []))
calculate_factorial_fn-factorial_example =
    calculate_factorial_fn-factorial 9 5 (omega arith) (omega arith)

IsSmall-2 : IsSmall 9 2
IsSmall-2 = (omega arith, omega arith)

IsSmall-3 : IsSmall 9 3
IsSmall-3 = (omega arith, omega arith)

-- 2! + 2! * 3!, where 2! + 3! is 8.
calculate_factorial_online-sum_example : calculate_factorial_online 9 (2 ∷ 3 ∷ []) ≡ some 14
calculate_factorial_online-sum_example =
    calculate_factorial_online-sum 9 (2 ∷ 3 ∷ []) (IsSmall-2, (IsSmall-3, tt))
