-- ===== src/Prelude/Map/Laws.antt =====
-- Laws of the map: what `lookup` finds after an update, and what holds of every entry.
use Prim.Native.Nat.{suc}
use mathlib.Core.Path.{◌≡◌, refl}
use mathlib.Core.Logic.{◌≢◌}
use mathlib.Core.List.{[], ◌∷◌}
use mathlib.Core.Option.{none, some}
use native.Mathlib.Omega.{arith}
use hfmcbot.Prelude.Lists.{length}
use hfmcbot.Prelude.Tests.{if◌then◌else◌}
use hfmcbot.Prelude.Text.{Text, text_eq, text_eq_iff, text_eq_refl}
use hfmcbot.Prelude.Map.{HashMap, lookup, insert, remove, HasDistinctKeys}

module _ {V : Type 0} where
  pub lookup-insert :
      (k j : Text) (v : V) (m : HashMap V)
      → lookup j (insert k v m) ≡ (if text_eq j k then some v else lookup j m)
  unfolding lookup insert
  lookup-insert k j v [] = refl
  lookup-insert k j v ((i, w) ∷ m) = ground (
    arith,
    text_eq_iff k j,
    text_eq_iff k i,
    text_eq_iff j i,
    text_eq_iff j k,
    lookup-insert k j v m,
  )

  pub lookup-insert_self : (k : Text) (v : V) (m : HashMap V) → lookup k (insert k v m) ≡ some v
  lookup-insert_self k v m = simp (lookup-insert, text_eq_refl)

  pub lookup-insert_ne :
      (k j : Text) (v : V) (m : HashMap V) → j ≢ k → lookup j (insert k v m) ≡ lookup j m
  lookup-insert_ne k j v m h = ground (arith, lookup-insert k j v m, text_eq_iff j k)

  pub lookup-remove_ne : (k j : Text) (m : HashMap V) → j ≢ k → lookup j (remove k m) ≡ lookup j m
  unfolding lookup remove
  lookup-remove_ne k j [] h = refl
  lookup-remove_ne k j ((i, w) ∷ m) h =
      ground (arith, text_eq_iff k i, text_eq_iff j i, lookup-remove_ne k j m h)

  pub lookup-remove_self :
      (k : Text) (m : HashMap V) → HasDistinctKeys m → lookup k (remove k m) ≡ none
  unfolding lookup remove
  lookup-remove_self k [] h = refl
  lookup-remove_self k ((i, w) ∷ m) h = ground (arith, text_eq_iff k i, lookup-remove_self k m h.1)

  pub insert-HasDistinctKeys :
      (k : Text) (v : V) (m : HashMap V) → HasDistinctKeys m → HasDistinctKeys (insert k v m)
  unfolding lookup insert
  insert-HasDistinctKeys k v [] h = (refl, tt)
  insert-HasDistinctKeys k v ((i, w) ∷ m) h = ground (
    arith,
    text_eq_iff k i,
    text_eq_iff i k,
    lookup-insert k i v m,
    insert-HasDistinctKeys k v m h.1,
  )

  pub remove-HasDistinctKeys :
      (k : Text) (m : HashMap V) → HasDistinctKeys m → HasDistinctKeys (remove k m)
  unfolding lookup remove
  remove-HasDistinctKeys k [] h = tt
  remove-HasDistinctKeys k ((i, w) ∷ m) h = ground (
    arith,
    text_eq_iff k i,
    lookup-remove_ne k i m,
    text_eq_iff i k,
    remove-HasDistinctKeys k m h.1,
  )

  pub length-insert_new :
      (k : Text) (v : V) (m : HashMap V)
      → lookup k m ≡ none
      → length (insert k v m) ≡ suc (length m)
  unfolding lookup insert
  length-insert_new k v [] e = refl
  length-insert_new k v ((i, w) ∷ m) e = ground (arith, length-insert_new k v m)

  pub length-insert_old :
      (k : Text) (v w : V) (m : HashMap V) → lookup k m ≡ some w → length (insert k v m) ≡ length m
  unfolding lookup insert
  length-insert_old k v w [] e = cc
  length-insert_old k v w ((i, u) ∷ m) e = ground (arith, length-insert_old k v w m)

  pub length-remove :
      (k : Text) (w : V) (m : HashMap V)
      → lookup k m ≡ some w
      → suc (length (remove k m)) ≡ length m
  unfolding lookup remove
  length-remove k w [] e = cc
  length-remove k w ((i, u) ∷ m) e = ground (arith, length-remove k w m)

  -- Every entry has the property, of its key and its value.
  abbrev pub AllEntries : (Text → V → Type 0) → HashMap V → Type 0
  AllEntries P [] = Unit
  AllEntries P ((k, v) ∷ m) = P k v × AllEntries P m

  module _ (P : Text → V → Type 0) where
    pub insert-AllEntries :
        (k : Text) (v : V) (m : HashMap V) → P k v → AllEntries P m → AllEntries P (insert k v m)
    unfolding insert
    insert-AllEntries k v [] p h = (p, tt)
    insert-AllEntries k v ((i, w) ∷ m) p h =
        ground (arith, text_eq_iff k i, insert-AllEntries k v m p h.1)

    pub remove-AllEntries : (k : Text) (m : HashMap V) → AllEntries P m → AllEntries P (remove k m)
    unfolding remove
    remove-AllEntries k [] h = tt
    remove-AllEntries k ((i, w) ∷ m) h = ground (arith, remove-AllEntries k m h.1)

    pub lookup-AllEntries :
        (k : Text) (v : V) (m : HashMap V) → lookup k m ≡ some v → AllEntries P m → P k v
    unfolding lookup
    lookup-AllEntries k v [] e h = cc
    lookup-AllEntries k v ((i, w) ∷ m) e h =
        ground (arith, text_eq_iff k i, lookup-AllEntries k v m)
