-- ===== src/Base/Maps.antt =====
-- A Go map with texts as keys: a list of its entries, in some order.
use Prim.Native.String.{String}
use mathlib.Core.Path.{◌≡◌}
use mathlib.Core.List.{List, [], ◌∷◌}
use mathlib.Core.Option.{Option, none, some}
use native.Mathlib.Omega.{arith}
use text.Mathlib.Text.{◌==◌ as str_eq}
use text.Mathlib.TextEquality.{eq_iff}
use goapp.Base.Tests.{if◌then◌else◌}

module _ {ℓ} {A : Type ℓ} where
  -- `m[key]`
  unfoldable pub find : String → List (String × A) → Option A
  find key [] = none
  find key ((k, a) ∷ rest) = if str_eq k key then some a else find key rest

  -- `m[key] = a`
  unfoldable pub store : String → A → List (String × A) → List (String × A)
  store key a [] = (key, a) ∷ []
  store key a ((k, b) ∷ rest) = if str_eq k key then (k, a) ∷ rest else (k, b) ∷ store key a rest

  pub find-store :
      (j k : String) (a : A) (table : List (String × A))
      → find k (store j a table) ≡ (if str_eq j k then some a else find k table)
  unfolding find store
  find-store j k a [] = ground arith
  find-store j k a ((i, b) ∷ rest) =
      ground (arith, find-store j k a rest, eq_iff i j, eq_iff i k, eq_iff j k)
