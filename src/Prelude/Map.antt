-- ===== src/Prelude/Map.antt =====
-- `HashMap<String, V>` as an association list: its iteration order is the order of the list.
pub mod Laws
use mathlib.Core.Path.{◌≡◌, refl}
use mathlib.Core.Bool.{Bool, true, false}
use mathlib.Core.List.{List, [], ◌∷◌, map}
use mathlib.Core.Option.{Option, none, some}
use native.Mathlib.Omega.{arith}
use hfmcbot.Prelude.Tests.{if◌then◌else◌}
use hfmcbot.Prelude.Text.{Text, text_eq, text_eq_iff}

abbrev pub HashMap {ℓ} : Type ℓ → Type ℓ
HashMap V = List (Text × V)

module _ {ℓ} {V : Type ℓ} where
  unfoldable pub lookup : Text → HashMap V → Option V
  lookup k [] = none
  lookup k ((j, v) ∷ m) = if text_eq k j then some v else lookup k m

  abbrev pub is_some : Option V → Bool
  is_some none = false
  is_some (some _) = true

  unfoldable pub contains_key : Text → HashMap V → Bool
  unfolding lookup
  contains_key k m = is_some (lookup k m)

  -- a new key goes to the end
  unfoldable pub insert : Text → V → HashMap V → HashMap V
  insert k v [] = (k, v) ∷ []
  insert k v ((j, w) ∷ m) = if text_eq k j then (j, v) ∷ m else (j, w) ∷ insert k v m

  unfoldable pub remove : Text → HashMap V → HashMap V
  remove k [] = []
  remove k ((j, w) ∷ m) = if text_eq k j then m else (j, w) ∷ remove k m

  abbrev pub values : HashMap V → List V
  values = map (λ e. e.1)

  abbrev pub keys : HashMap V → List Text
  keys = map (λ e. e.0)

  -- No key stands twice.
  abbrev pub HasDistinctKeys : HashMap V → Type ℓ
  HasDistinctKeys [] = Unit {ℓ}
  HasDistinctKeys ((k, _) ∷ m) = (lookup k m ≡ none) × HasDistinctKeys m
