-- ===== src/FactorialHandler/Online.antt =====
-- The sum that the handler computes in its own loop.
use native.Mathlib.Nat.{
  mod-lt, mod-eq_of_lt, mod-add-mod, add-mod-mod, add-mod, add_assoc, add-zero,
}
use goapp.Base.{
  ℕ, ◌+◌, ◌*◌, ◌%◌, ◌^◌, ◌<◌, some, List, [], ◌∷◌, ◌≡◌, refl, sym, ap, ◌∙◌, arith, All,
}
use goapp.FactorialHandler.{fact_loop, online_loop, calculate_factorial_online}
use goapp.FactorialHandler.Loop.{factorial, fact_loop-factorial, mod-mul-mod}

-- A number whose loop ends within the fuel.
abbrev pub IsSmall : ℕ → ℕ → Type 0
IsSmall fuel n = (n < fuel) × (n + 1 < 2 ^ 64)

-- The products of the factorials so far, one for each number, added up.
abbrev pub sum_of_products : ℕ → List ℕ → ℕ
sum_of_products p [] = 0
sum_of_products p (n ∷ ns) = p * factorial n + sum_of_products (p * factorial n) ns

online_loop_next :
    (fuel n v sum w : ℕ) (ns : List ℕ)
    → fact_loop fuel n 1 v ≡ some w
    → online_loop fuel (n ∷ ns) v sum ≡ online_loop fuel ns w ((sum + w) % 2 ^ 64)
unfolding online_loop
online_loop_next fuel n v sum w ns e = rw e refl

online_loop_nil : (fuel v sum : ℕ) → online_loop fuel [] v sum ≡ some sum
unfolding online_loop
online_loop_nil fuel v sum = refl

swap_last : (s a b : ℕ) → s + a + b ≡ s + b + a
swap_last s a b = omega arith

-- Summands may be reduced, one after the other.
pub sums_mod : (s a b c m : ℕ) → b % m ≡ c % m → ((s + a % m) % m + b) % m ≡ (s + (a + c)) % m
sums_mod s a b c m e =
    mod-add-mod (s + a % m) m b
    ∙ ap (λ x. x % m) (swap_last s (a % m) b)
    ∙ add-mod-mod (s + b) a m
    ∙ ap (λ x. x % m) (swap_last s b a)
    ∙ sym (add-mod-mod (s + a) b m)
    ∙ ap (λ x. (s + a + x) % m) e
    ∙ add-mod-mod (s + a) c m
    ∙ ap (λ x. x % m) (add_assoc s a c)

sum_of_products-mod :
    (x m : ℕ) (ns : List ℕ) → sum_of_products (x % m) ns % m ≡ sum_of_products x ns % m
sum_of_products-mod x m [] = refl
sum_of_products-mod x m (n ∷ ns) =
    let a = (x % m) * factorial n in
    let b = x * factorial n in
    let same : a % m ≡ b % m = mod-mul-mod x (factorial n) m in
    let rest : sum_of_products a ns % m ≡ sum_of_products b ns % m =
      sym (sum_of_products-mod a m ns)
      ∙ ap (λ y. sum_of_products y ns % m) same
      ∙ sum_of_products-mod b m ns in
    add-mod a (sum_of_products a ns) m
    ∙ ap (λ y. (y + sum_of_products a ns % m) % m) same
    ∙ ap (λ y. (b % m + y) % m) rest
    ∙ sym (add-mod b (sum_of_products b ns) m)

online_loop-sum :
    (fuel : ℕ) (ns : List ℕ) (v sum : ℕ)
    → All (IsSmall fuel) ns
    → v < 2 ^ 64
    → sum < 2 ^ 64
    → online_loop fuel ns v sum ≡ some ((sum + sum_of_products v ns) % 2 ^ 64)
online_loop-sum fuel [] v sum a l k =
    online_loop_nil fuel v sum
    ∙ ap some (sym (mod-eq_of_lt k) ∙ ap (λ x. x % 2 ^ 64) (sym (add-zero sum)))
online_loop-sum fuel (n ∷ ns) v sum a l k =
    let w = v * factorial n % 2 ^ 64 in
    online_loop_next fuel n v sum w ns (fact_loop-factorial fuel n v a.0.0 a.0.1 l)
    ∙ online_loop-sum fuel ns w ((sum + w) % 2 ^ 64) a.1 (mod-lt (v * factorial n) (omega arith))
        (mod-lt (sum + w) (omega arith))
    ∙ ap some (
        sums_mod sum (v * factorial n) (sum_of_products w ns) (sum_of_products (v * factorial n) ns)
          (2 ^ 64) (sum_of_products-mod (v * factorial n) (2 ^ 64) ns))

-- For small numbers, the loop of the handler does not add up the factorials: since its product goes on
-- from one number to the next, it adds up the products of the factorials so far, modulo 2 ^ 64.
pub calculate_factorial_online-sum :
    (fuel : ℕ) (ns : List ℕ)
    → All (IsSmall fuel) ns
    → calculate_factorial_online fuel ns ≡ some (sum_of_products 1 ns % 2 ^ 64)
unfolding calculate_factorial_online
calculate_factorial_online-sum fuel ns a =
    online_loop-sum fuel ns 1 0 a (omega arith) (omega arith)
    ∙ ap (λ x. some (x % 2 ^ 64)) (omega arith)
