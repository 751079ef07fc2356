-- ===== src/FactorialHandler/Background.antt =====
-- The sum of the answers of the tasks of a pool.
use native.Mathlib.Nat.{mod-lt, mod-eq_of_lt, add-zero}
use goapp.Base.{
  ℕ, ◌+◌, ◌%◌, ◌^◌, ◌<◌, none, some, List, [], ◌∷◌, ◌≡◌, refl, sym, ap, ◌∙◌, arith, All,
}
use goapp.Task.{uint64, returned}
use goapp.FactorialHandler.{
  Answer, summed, sum_answers, calculate_factorial_fn, calculate_factorial_online,
}
use goapp.FactorialHandler.Loop.{factorial, calculate_factorial_fn-factorial}
use goapp.FactorialHandler.Online.{IsSmall, sums_mod, calculate_factorial_online-sum}

-- The sum of the factorials.
abbrev pub sum_of_factorials : List ℕ → ℕ
sum_of_factorials [] = 0
sum_of_factorials (n ∷ ns) = factorial n + sum_of_factorials ns

-- The answer that a task keeps of its handler.
abbrev pub Answers : ℕ → List ℕ → List Answer → Type 0
Answers fuel [] [] = Unit
Answers fuel [] (a ∷ rest) = ⊥
Answers fuel (n ∷ ns) [] = ⊥
Answers fuel (n ∷ ns) (a ∷ rest) =
    (calculate_factorial_fn fuel (uint64 n ∷ []) ≡ some (returned a.answer_err a.answer_responses))
    × Answers fuel ns rest

-- The answer of a small number is its factorial.
answer_of :
    (fuel n : ℕ) (a : Answer)
    → IsSmall fuel n
    → calculate_factorial_fn fuel (uint64 n ∷ []) ≡ some (returned a.answer_err a.answer_responses)
    → a ≡ record { answer_err = none; answer_responses = uint64 (factorial n % 2 ^ 64) ∷ [] }
answer_of fuel n a s e = cc (calculate_factorial_fn-factorial fuel n s.0 s.1)

sum_answers_next :
    (sum v : ℕ) (rest : List Answer)
    → sum_answers sum (record { answer_err = none; answer_responses = uint64 v ∷ [] } ∷ rest)
      ≡ sum_answers ((sum + v) % 2 ^ 64) rest
unfolding sum_answers
sum_answers_next sum v rest = refl

sum_answers_nil : (sum : ℕ) → sum_answers sum [] ≡ summed sum
unfolding sum_answers
sum_answers_nil sum = refl

-- With the answers that the handler of the tasks gives for small numbers, the sum over the tasks is what the sum of the
-- request was, plus the sum of the factorials of the numbers, modulo 2 ^ 64.
pub sum_answers-factorials :
    (fuel : ℕ) (ns : List ℕ) (answers : List Answer) (sum : ℕ)
    → All (IsSmall fuel) ns
    → Answers fuel ns answers
    → sum < 2 ^ 64
    → sum_answers sum answers ≡ summed ((sum + sum_of_factorials ns) % 2 ^ 64)
sum_answers-factorials fuel [] [] sum s a l =
    sum_answers_nil sum
    ∙ ap summed (sym (mod-eq_of_lt l) ∙ ap (λ x. x % 2 ^ 64) (sym (add-zero sum)))
sum_answers-factorials fuel [] (b ∷ rest) sum s a l = absurd a
sum_answers-factorials fuel (n ∷ ns) [] sum s a l = absurd a
sum_answers-factorials fuel (n ∷ ns) (b ∷ rest) sum s a l =
    let v = factorial n % 2 ^ 64 in
    ap (λ x. sum_answers sum (x ∷ rest)) (answer_of fuel n b s.0 a.0)
    ∙ sum_answers_next sum v rest
    ∙ sum_answers-factorials fuel ns rest ((sum + v) % 2 ^ 64) s.1 a.1
        (mod-lt (sum + v) (omega arith))
    ∙ ap summed
        (sums_mod sum (factorial n) (sum_of_factorials ns) (sum_of_factorials ns) (2 ^ 64) refl)

-- For one small number, the sum over the tasks of a pool, from 0 on, and the loop of the handler give
-- the same.
pub background_is_online :
    (fuel n : ℕ) (answers : List Answer)
    → IsSmall fuel n
    → Answers fuel (n ∷ []) answers
    → (v : ℕ) × (sum_answers 0 answers ≡ summed v)
      × (calculate_factorial_online fuel (n ∷ []) ≡ some v)
background_is_online fuel n answers s a = (
  sum_of_factorials (n ∷ []) % 2 ^ 64,
  sum_answers-factorials fuel (n ∷ []) answers 0 (s, tt) a (omega arith)
      ∙ ap (λ x. summed (x % 2 ^ 64)) (omega arith),
  calculate_factorial_online-sum fuel (n ∷ []) (s, tt) ∙ ap (λ x. some (x % 2 ^ 64)) (omega arith),
)
