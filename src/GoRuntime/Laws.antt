-- ===== src/GoRuntime/Laws.antt =====
-- How deferred functions and `recover` change the way a statement is left.
use goapp.Base.{Bool, if◌then◌else◌, true, false, ◌≡◌, refl}
use goapp.GoRuntime.Control.{
  M, Out, returns, panics, blocks, bind, after_out, catch_out, does_panic, does_block, Panic,
  state_of, ◌>>◌,
}

module _ {ℓ κ} {S : Type ℓ} {A : Type κ} where
  pub does_panic-bind {ι} :
      {B : Type ι} (o : Out S B) (f : B → M S A)
      → does_panic o ≡ false
      → ((b : B) (s : S) → does_panic (f b s) ≡ false)
      → does_panic (bind o f) ≡ false
  does_panic-bind (returns a s) f h k = k a s
  does_panic-bind (panics p s) f h k = cc
  does_panic-bind (blocks s) f h k = refl

  -- A deferred function that does not panic adds no panic.
  pub does_panic-after :
      (o : Out S A) (d : M S (Unit {0}))
      → does_panic o ≡ false
      → ((s : S) → does_panic (d s) ≡ false)
      → does_panic (after_out o d) ≡ false
  does_panic-after (returns a s) d h k = does_panic-bind (d s) _ (k s) (λ _ _. refl)
  does_panic-after (panics p s) d h k = cc
  does_panic-after (blocks s) d h k = refl

  -- Behind a handler that does not panic, no panic goes on.
  pub does_panic-catch :
      (o : Out S A) (h : Panic → M S A)
      → ((p : Panic) (s : S) → does_panic (h p s) ≡ false)
      → does_panic (catch_out o h) ≡ false
  does_panic-catch (returns a s) h k = refl
  does_panic-catch (panics p s) h k = k p s
  does_panic-catch (blocks s) h k = refl

  pub does_block-bind {ι} :
      {B : Type ι} (o : Out S B) (f : B → M S A)
      → does_block o ≡ false
      → ((b : B) (s : S) → does_block (f b s) ≡ false)
      → does_block (bind o f) ≡ false
  does_block-bind (returns a s) f h k = k a s
  does_block-bind (panics p s) f h k = refl
  does_block-bind (blocks s) f h k = cc

  pub does_block-after :
      (o : Out S A) (d : M S (Unit {0}))
      → does_block o ≡ false
      → ((s : S) → does_block (d s) ≡ false)
      → does_block (after_out o d) ≡ false
  does_block-after (returns a s) d h k = does_block-bind (d s) _ (k s) (λ _ _. refl)
  does_block-after (panics p s) d h k = does_block-bind (d s) _ (k s) (λ _ _. refl)
  does_block-after (blocks s) d h k = cc

  pub does_block-catch :
      (o : Out S A) (h : Panic → M S A)
      → does_block o ≡ false
      → ((p : Panic) (s : S) → does_block (h p s) ≡ false)
      → does_block (catch_out o h) ≡ false
  does_block-catch (returns a s) h k l = refl
  does_block-catch (panics p s) h k l = l p s
  does_block-catch (blocks s) h k l = cc

-- A sequence that returns has returned at each of its parts.
pub bind-returned {ℓ κ ι} :
    {S : Type ℓ} {A : Type κ} {B : Type ι} (o : Out S A) (f : A → M S B) (b : B) (t : S)
    → bind o f ≡ returns b t
    → (a : A) × (s : S) × (o ≡ returns a s) × (f a s ≡ returns b t)
bind-returned (returns a s) f b t e = (a, s, refl, e)
bind-returned (panics p s) f b t e = cc
bind-returned (blocks s) f b t e = cc

-- What follows a statement that waits for good is not reached.
module _ {ℓ κ} {S : Type ℓ} {A : Type κ} where
  pub bind-blocked {ι} :
      {B : Type ι} (o : Out S A) (f : A → M S B)
      → does_block o ≡ true
      → does_block (bind o f) ≡ true
  bind-blocked (returns a s) f h = cc
  bind-blocked (panics p s) f h = cc
  bind-blocked (blocks s) f h = refl

  pub after_out-blocked :
      (o : Out S A) (d : M S (Unit {0})) → does_block o ≡ true → does_block (after_out o d) ≡ true
  after_out-blocked (returns a s) d h = cc
  after_out-blocked (panics p s) d h = cc
  after_out-blocked (blocks s) d h = refl

-- What a statement keeps, however it is left.
abbrev pub Keeps {ℓ κ ι} : {S : Type ℓ} {A : Type κ} → (S → Type ι) → M S A → Type (ℓ ⊔ ι)
Keeps P m = (s : _) → P s → P (state_of (m s))

pub Keeps-bind {ℓ κ ι υ} :
    {S : Type ℓ} {A : Type κ} {B : Type ι} (P : S → Type υ) (o : Out S A) (f : A → M S B)
    → P (state_of o)
    → ((a : A) → Keeps P (f a))
    → P (state_of (bind o f))
Keeps-bind P (returns a s) f h k = k a s h
Keeps-bind P (panics p s) f h k = h
Keeps-bind P (blocks s) f h k = h

pub Keeps-if {ℓ κ ι} :
    {S : Type ℓ} {A : Type κ} (P : S → Type ι) (b : Bool) (o1 o2 : Out S A)
    → P (state_of o1)
    → P (state_of o2)
    → P (state_of (if b then o1 else o2))
Keeps-if P true o1 o2 h k = h
Keeps-if P false o1 o2 h k = k

pub Keeps-then {ℓ κ ι υ} :
    {S : Type ℓ} {A : Type κ} {B : Type ι} (P : S → Type υ) (m : M S A) (k : M S B)
    → Keeps P m
    → Keeps P k
    → Keeps P (m >> k)
Keeps-then P m k hm hk s h = Keeps-bind P (m s) (λ _. k) (hm s h) (λ _. hk)

pub Keeps-after {ℓ κ υ} :
    {S : Type ℓ} {A : Type κ} (P : S → Type υ) (o : Out S A) (d : M S (Unit {0}))
    → P (state_of o)
    → Keeps P d
    → P (state_of (after_out o d))
Keeps-after P (returns a s) d h k = Keeps-bind P (d s) _ (k s h) (λ _ _ q. q)
Keeps-after P (panics p s) d h k = Keeps-bind P (d s) _ (k s h) (λ _ _ q. q)
Keeps-after P (blocks s) d h k = h
