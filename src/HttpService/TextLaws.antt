-- ===== src/HttpService/TextLaws.antt =====
-- What `substrRune` gives.
use goapp.Base.{
  ℕ, zero, suc, ℤ, pos, negsuc, ◌-◌, ◌≤◌, ◌<◌, some, List, [], ◌∷◌, length, take, drop, ltb, ◌≡◌,
  refl, arith, length-take_le, ap, sym, ltb→lt, ◌∙◌, Bool-cases, inl, inr,
}
use goapp.HttpService.Text.{slice, from_pos, to_pos, substr_rune}

from_range : (n : ℕ) (from : ℤ) → 0 < n → (a : ℕ) × (from_pos n from ≡ pos a) × (a ≤ n)
unfolding from_pos
from_range n (pos a) h = elim (Bool-cases (ltb n a)) [
  | inl t ↦ (n - 1, rw t refl, omega arith)
  | inr f ↦ (a, rw f refl, ground arith)
]
from_range n (negsuc a) h = (0, ground arith, omega arith)

to_range :
    (n a : ℕ) (to : ℤ) → 0 < n → a ≤ n → (b : ℕ) × (to_pos n (pos a) to ≡ pos b) × (a ≤ b) × (b ≤ n)
unfolding to_pos
to_range n a (negsuc b) h l = (a, refl, omega arith, l)
to_range n a (pos b) h l = elim (Bool-cases (ltb n b)) [
  | inl t ↦ elim (Bool-cases (ltb (n - 1) a)) [
    | inl u ↦ (a, rw (t, u) refl, omega arith, l)
    | inr v ↦ (n - 1, rw (t, v) refl, ground arith, omega arith)
  ]
  | inr f ↦ elim (Bool-cases (ltb b a)) [
    | inl u ↦ (a, rw (f, u) refl, omega arith, l)
    | inr v ↦ (b, rw (f, v) refl, ground arith, ground arith)
  ]
]

pub from_start : (n : ℕ) → from_pos n (pos 0) ≡ pos 0
unfolding from_pos
from_start n = ground arith

pub to_negative : (n m : ℕ) → to_pos n (pos 0) (negsuc m) ≡ pos 0
unfolding to_pos
to_negative n m = refl

to_short : (n m : ℕ) → n < m → to_pos n (pos 0) (pos m) ≡ pos (n - 1)
unfolding to_pos
to_short n m h = ground arith

to_long : (n m : ℕ) → m ≤ n → to_pos n (pos 0) (pos m) ≡ pos m
unfolding to_pos
to_long n m h = ground arith

module _ {A : Type 0} where
  take_nil : (n : ℕ) → take {A = A} n [] ≡ []
  take_nil zero = refl
  take_nil (suc n) = refl

  slice_in_range :
      (xs : List A) (a b : ℕ)
      → a ≤ b
      → b ≤ length xs
      → slice xs (pos a) (pos b) ≡ some (take (b - a) (drop a xs))
  slice_in_range xs a b h k = ground arith

  pub slice_start :
      (xs : List A) (b : ℕ) → b ≤ length xs → slice xs (pos 0) (pos b) ≡ some (take b xs)
  slice_start xs b h =
      slice_in_range xs 0 b (omega arith) h ∙ ap (λ m. some (take m xs)) (omega arith)

  -- For all bounds, also negative ones and ones behind the end, `substrRune` does not panic: it gives a
  -- part of the text that starts at some position and ends at or before the end of the text.
  pub substr_rune-in_range :
      (xs : List A) (from to : ℤ)
      → (a : ℕ) × (b : ℕ) × (a ≤ b)
        × (b ≤ length xs)
        × (substr_rune xs from to ≡ some (take (b - a) (drop a xs)))
  unfolding substr_rune
  substr_rune-in_range [] from to = (0, 0, omega arith, omega arith, refl)
  substr_rune-in_range (x ∷ xs) from to =
      let (a, e, l) = from_range (length (x ∷ xs)) from (omega arith) in
      let (b, f, m, n) = to_range (length (x ∷ xs)) a to (omega arith) l in
      (a, b, m, n, rw (e, f) (slice_in_range (x ∷ xs) a b m n))

  -- From the start of a text, `substrRune` gives at most as many characters as it is asked for: exactly
  -- these, if the text has that many, and all but the last character, if the text is shorter.
  pub substr_rune-start :
      (xs : List A) (n : ℕ)
      → (r : List A) × (substr_rune xs (pos 0) (pos n) ≡ some r)
        × (length r ≤ n)
        × (n ≤ length xs → r ≡ take n xs)
        × (length xs < n → r ≡ take (length xs - 1) xs)
  unfolding substr_rune
  substr_rune-start [] n = ([], refl, omega arith, λ h. sym (take_nil n), λ _. refl)
  substr_rune-start (x ∷ xs) n = elim (Bool-cases (ltb (length (x ∷ xs)) n)) [
    | inl t ↦ (
      take (length (x ∷ xs) - 1) (x ∷ xs),
      rw (from_start (length (x ∷ xs)), to_short (length (x ∷ xs)) n (ltb→lt _ n t))
          (slice_start (x ∷ xs) (length (x ∷ xs) - 1) (omega arith)),
      omega (arith, length-take_le (length (x ∷ xs) - 1) (x ∷ xs), ltb→lt (length (x ∷ xs)) n t),
      λ h. absurd (omega (arith, ltb→lt (length (x ∷ xs)) n t)),
      λ _. refl,
    )
    | inr f ↦ (
      take n (x ∷ xs),
      rw (from_start (length (x ∷ xs)), to_long (length (x ∷ xs)) n (ground arith))
          (slice_start (x ∷ xs) n (ground arith)),
      length-take_le n (x ∷ xs),
      λ _. refl,
      λ h. absurd (ground arith),
    )
  ]
