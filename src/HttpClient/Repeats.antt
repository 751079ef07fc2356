-- ===== src/HttpClient/Repeats.antt =====
-- How often a call asks the network.
use goapp.Base.{
  ℕ, zero, suc, ◌+◌, ◌≤◌, ◌<◌, pos, Bool, true, false, ◌&&◌, not, Option, none, some, List, [], ◌∷◌,
  ◌++◌, length, ltb, ltz, is_zero, ◌≡◌, refl, ap, ◌∙◌, subst, arith, All, if_cases, inl, inr, ◌⊎◌,
  str_eq,
}
use goapp.GoRuntime.{Out, returns, blocks, panics}
use goapp.Errors.{Failure}
use goapp.HttpClient.{
  Call, Attempt, Answer, Calls, answer_of, is_not_found, asks, ask, is_last, wait, call_loop,
  called, prepared, process,
}

-- A call that comes back, and asks the network at most `n` times more than before.
abbrev pub AsksAtMost : ℕ → Calls → Out Calls Answer → Type 0
AsksAtMost n s (returns a t) = t.asked ≤ s.asked + n
AsksAtMost n s (panics p t) = ⊥
AsksAtMost n s (blocks t) = ⊥

asks_le : (a : Attempt) → asks a ≤ 1
asks_le a = ground arith

more_asks :
    (n : ℕ) (a : Attempt) (s : Calls) (o : Out Calls Answer)
    → AsksAtMost n (wait (ask a s)) o
    → AsksAtMost (suc n) s o
more_asks n a s (returns b t) h = omega (arith, asks_le a, h)
more_asks n a s (panics p t) h = h
more_asks n a s (blocks t) h = h

last_bits : (m k : ℕ) → not (is_zero (pos m)) && not (ltb k m) ≡ false → (m ≡ 0) ⊎ (k < m)
last_bits zero k l = inl refl
last_bits (suc m) k l = inr (ground (arith, l))

no_more : (c : Call) (k : ℕ) → (k + 0 ≡ 0) ⊎ (k < k + 0) → 0 < k → ⊥
no_more c k (inl e) z = omega (arith, e, z)
no_more c k (inr l) z = omega (arith, l, z)

not_last : (c : Call) (k m : ℕ) → c.re_call_repeat ≡ pos m → is_last c k ≡ false → (m ≡ 0) ⊎ (k < m)
not_last c k m e l = last_bits m k (subst (λ r. not (is_zero r) && not (ltz (pos k) r) ≡ false) e l)

one_more :
    (n : ℕ) (a : Attempt) (s t : Calls) → t.asked ≡ s.asked + asks a → t.asked ≤ s.asked + suc n
one_more n a s t e = omega (arith, asks_le a, e)

loop-AsksAtMost :
    (c : Call) (id k n : ℕ) (attempts : List Attempt) (s : Calls)
    → c.re_call_repeat ≡ pos (k + n)
    → 0 < k
    → n < length attempts
    → AsksAtMost (suc n) s (call_loop c id k attempts s)
unfolding call_loop
loop-AsksAtMost c id k n [] s e z h = absurd (omega (arith, h))
loop-AsksAtMost c id k zero (a ∷ rest) s e z h =
    if_cases (AsksAtMost 1 s) (is_not_found a) _ _
      (λ _.
        if_cases (AsksAtMost 1 s) (is_last c k) _ _ (λ _. one_more 0 a s (ask a s) refl)
          (λ l. absurd (no_more c k (not_last c k (k + 0) e l) z)))
      (λ _. one_more 0 a s (ask a s) refl)
loop-AsksAtMost c id k (suc n) (a ∷ rest) s e z h =
    if_cases (AsksAtMost (suc (suc n)) s) (is_not_found a) _ _
      (λ _.
        if_cases (AsksAtMost (suc (suc n)) s) (is_last c k) _ _
          (λ _. one_more (suc n) a s (ask a s) refl)
          (λ _. more_asks (suc n) a s _ (
            loop-AsksAtMost c id (suc k) n rest (wait (ask a s)) (e ∙ ap pos (omega arith))
              (omega arith) (omega (arith, h)))))
      (λ _. one_more (suc n) a s (ask a s) refl)

called-AsksAtMost :
    (c : Call) (id n : ℕ) (request_err : Option Failure) (attempts : List Attempt) (s : Calls)
    → c.re_call_repeat ≡ pos (suc n)
    → n < length attempts
    → AsksAtMost (suc n) s (called c id request_err attempts s)
unfolding called
called-AsksAtMost c id n (some x) attempts s e h = omega arith
called-AsksAtMost c id n none attempts s e h =
    loop-AsksAtMost c id 1 n attempts (prepared c s) (e ∙ ap pos (omega arith)) (omega arith) h

-- With a limit of n + 1 tries and enough rounds for them, a call comes back whatever the network does, and
-- it has asked the network at most n + 1 times.
pub process-AsksAtMost :
    (c : Call) (id n : ℕ) (has_ctx : Bool) (request_err : Option Failure) (attempts : List Attempt)
    → (s : Calls) → c.re_call_repeat ≡ pos (suc n)
    → n < length attempts
    → AsksAtMost (suc n) s (process c id has_ctx request_err attempts s)
unfolding process called
process-AsksAtMost c id n has_ctx request_err attempts s e h =
    if_cases (AsksAtMost (suc n) s) has_ctx _ _
      (λ _.
        if_cases (AsksAtMost (suc n) s) (str_eq c.url "") _ _ (λ _. omega arith)
          (λ _. called-AsksAtMost c id n request_err attempts s e h))
      (λ _. omega arith)

-- The rounds in which the call waits and tries again: `k` is the number of the first of them.
abbrev pub Patient : Call → ℕ → ℕ → Type 0
Patient c k n = (c.re_call_repeat ≡ pos 0) ⊎ ((m : ℕ) × (c.re_call_repeat ≡ pos m) × (n + k ≤ m))

abbrev pub after_rounds : ℕ → Attempt → Calls → Calls
after_rounds n a s = record s { asked = s.asked + (n + asks a); waited = s.waited + n }

Patient-last : (c : Call) (k n : ℕ) → Patient c k (suc n) → is_last c k ≡ false
Patient-last c k n (inl e) = rw e refl
Patient-last c k n (inr (m, e, l)) = rw e (ground (arith, l))

Patient-next : (c : Call) (k n : ℕ) → Patient c k (suc n) → Patient c (suc k) n
Patient-next c k n (inl e) = inl e
Patient-next c k n (inr (m, e, l)) = inr (m, e, omega (arith, l))

same_counts :
    (b : Answer) (s : Calls) {n m v w : ℕ}
    → n ≡ m
    → v ≡ w
    → returns b (record s { asked = n; waited = v })
      ≡ returns b (record s { asked = m; waited = w })
same_counts b s e f = rw (e, f) refl

not_found_asks : (x : Attempt) → is_not_found x ≡ true → asks x ≡ 1
not_found_asks x h = ground (arith, h)

loop-first :
    (c : Call) (id k : ℕ) (ns : List Attempt) (a : Attempt) (rest : List Attempt) (s : Calls)
    → All (λ x. is_not_found x ≡ true) ns
    → is_not_found a ≡ false
    → Patient c k (length ns)
    → call_loop c id k (ns ++ (a ∷ rest)) s
      ≡ returns (answer_of id a) (after_rounds (length ns) a s)
unfolding call_loop
loop-first c id k [] a rest s hn ha hp =
    rw ha (same_counts (answer_of id a) s (omega arith) (omega arith))
loop-first c id k (x ∷ ns) a rest s hn ha hp =
    rw (hn.0, Patient-last c k (length ns) hp)
      (loop-first c id (suc k) ns a rest (wait (ask x s)) hn.1 ha (Patient-next c k (length ns) hp)
        ∙ same_counts (answer_of id a) s (omega (arith, not_found_asks x hn.0)) (omega arith))

-- A call answers with the first round that is not "not found": the rounds before it are waited out, one
-- wait for each, and the tries are as many as the rounds, if there is no limit or the limit lets the call
-- try that often.
pub process-first :
    (c : Call) (id : ℕ) (ns : List Attempt) (a : Attempt) (rest : List Attempt) (s : Calls)
    → str_eq c.url "" ≡ false
    → All (λ x. is_not_found x ≡ true) ns
    → is_not_found a ≡ false
    → Patient c 1 (length ns)
    → process c id true none (ns ++ (a ∷ rest)) s
      ≡ returns (answer_of id a) (after_rounds (length ns) a (prepared c s))
unfolding process called
process-first c id ns a rest s u hn ha hp =
    rw u (loop-first c id 1 ns a rest (prepared c s) hn ha hp)
