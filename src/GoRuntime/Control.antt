-- ===== src/GoRuntime/Control.antt =====
-- Go control flow: a statement returns, panics or blocks, and leaves a state behind in each case.
use goapp.Base.{ℕ, Bool, true, false}

-- The values that `panic` carries here: the runtime's own errors, and a value that the code of a
-- task's handler raises, of which only `is_error` says whether it implements `error`.
pub data Panic : Type 0 where
  send_on_closed close_of_closed close_of_nil negative_counter nil_dereference index_out_of_range :
      Panic
  raised : (is_error : Bool) → ℕ → Panic

-- What a statement over the state `S` does. A panic keeps the state that it was raised in, since
-- deferred functions go on from it; a blocked statement keeps the state that the others see.
pub data Out {ℓ κ} (S : Type ℓ) (A : Type κ) : Type (ℓ ⊔ κ) where
  returns : A → S → Out S A
  panics : Panic → S → Out S A
  blocks : S → Out S A

abbrev pub M {ℓ κ} : Type ℓ → Type κ → Type (ℓ ⊔ κ)
M S A = S → Out S A

abbrev pub bind {ℓ κ ι} : {S : Type ℓ} {A : Type κ} {B : Type ι} → Out S A → (A → M S B) → Out S B
bind (returns a s) f = f a s
bind (panics p s) f = panics p s
bind (blocks s) f = blocks s

infixl 5 ◌>>=◌ ◌>>◌
abbrev pub ◌>>=◌ {ℓ κ ι} : {S : Type ℓ} {A : Type κ} {B : Type ι} → M S A → (A → M S B) → M S B
◌>>=◌ m f s = bind (m s) f

abbrev pub ◌>>◌ {ℓ κ ι} : {S : Type ℓ} {A : Type κ} {B : Type ι} → M S A → M S B → M S B
◌>>◌ m k s = bind (m s) (λ _. k)

abbrev pub pure {ℓ κ} : {S : Type ℓ} {A : Type κ} → A → M S A
pure a s = returns a s

abbrev pub skip {ℓ} : {S : Type ℓ} → M S (Unit {0})
skip s = returns tt s

abbrev pub raise {ℓ κ} : {S : Type ℓ} {A : Type κ} → Panic → M S A
raise p s = panics p s

abbrev pub get {ℓ} : {S : Type ℓ} → M S S
get s = returns s s

abbrev pub modify {ℓ} : {S : Type ℓ} → (S → S) → M S (Unit {0})
modify f s = returns tt (f s)

-- `defer func() { d }` around `m`: `d` runs when `m` is left by a return or a panic, and a panic
-- of `d` replaces what `m` did.
abbrev pub after_out {ℓ κ} : {S : Type ℓ} {A : Type κ} → Out S A → M S (Unit {0}) → Out S A
after_out (returns a s) d = bind (d s) (λ _ t. returns a t)
after_out (panics p s) d = bind (d s) (λ _ t. panics p t)
after_out (blocks s) d = blocks s

abbrev pub defer {ℓ κ} : {S : Type ℓ} {A : Type κ} → M S (Unit {0}) → M S A → M S A
defer d m s = after_out (m s) d

-- `defer func() { if r := recover(); r != nil { h r } }` around `m`: the panic ends there.
abbrev pub catch_out {ℓ κ} : {S : Type ℓ} {A : Type κ} → Out S A → (Panic → M S A) → Out S A
catch_out (returns a s) h = returns a s
catch_out (panics p s) h = h p s
catch_out (blocks s) h = blocks s

abbrev pub defer_recover {ℓ κ} : {S : Type ℓ} {A : Type κ} → (Panic → M S A) → M S A → M S A
defer_recover h m s = catch_out (m s) h

abbrev pub state_of {ℓ κ} : {S : Type ℓ} {A : Type κ} → Out S A → S
state_of (returns a s) = s
state_of (panics p s) = s
state_of (blocks s) = s

-- Theorems about which way a statement is left.
abbrev pub does_return {ℓ κ} : {S : Type ℓ} {A : Type κ} → Out S A → Bool
does_return (returns a s) = true
does_return (panics p s) = false
does_return (blocks s) = false

abbrev pub does_panic {ℓ κ} : {S : Type ℓ} {A : Type κ} → Out S A → Bool
does_panic (returns a s) = false
does_panic (panics p s) = true
does_panic (blocks s) = false

abbrev pub does_block {ℓ κ} : {S : Type ℓ} {A : Type κ} → Out S A → Bool
does_block (returns a s) = false
does_block (panics p s) = false
does_block (blocks s) = true
