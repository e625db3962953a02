-- ===== src/Live/Fields.antt =====
-- Fields of JSON replies, and results that may be errors (src/live.rs): what the readers of the
-- network's replies have in common.
use hfmcbot.Prelude.{
  ℕ, ◌≡◌, refl, arith, Bool, true, false, not, ◌||◌, List, [], ◌∷◌, Option, none, some, ltb,
  if◌then◌else◌,
}
use hfmcbot.Prelude.Text.{Text, bytes, text_eq}
use hfmcbot.Exec.{transport}
use hfmcbot.Live.Rpc.{Reply, ok, err}
use hfmcbot.Platform.Json.{
  Json, Items, nil, cons, null, bool, u64, neg, float, str, arr, obj, get, as_str, as_u64, as_array,
}

-- the `?` on a result
infixl 5 ◌>>=◌ ◌>>◌
abbrev pub ◌>>=◌ : {A B : Type 0} → Reply A → (A → Reply B) → Reply B
ok a >>= f = f a
err e >>= f = err e

abbrev pub ◌>>◌ : {B : Type 0} → Reply (Unit {0}) → Reply B → Reply B
m >> k = m >>= λ _. k

-- `and_then`
unfoldable pub and_then : {A B : Type 0} → Option A → (A → Option B) → Option B
and_then none f = none
and_then (some a) f = f a

-- `ok_or_else` with `Transport`
unfoldable pub or_transport : {A : Type 0} → Option A → Reply A
or_transport none = err transport
or_transport (some a) = ok a

-- a text that is not empty
unfoldable pub non_empty : Text → Option Text
non_empty [] = none
non_empty (c ∷ s) = some (c ∷ s)

-- `u8::try_from`
unfoldable pub u8_of : ℕ → Option ℕ
u8_of n = if ltb n 256 then some n else none

module _ {F : Type 0} where
  -- `get` by one key after another
  unfoldable pub get_in : Json F → List Text → Option (Json F)
  unfolding get and_then
  get_in v [] = some v
  get_in v (k ∷ keys) = and_then (get v k) (λ w. get_in w keys)

  unfoldable pub str_at : Json F → List Text → Option Text
  unfolding get_in and_then
  str_at v keys = and_then (get_in v keys) as_str

  unfoldable pub u64_at : Json F → List Text → Option ℕ
  unfolding get_in and_then
  u64_at v keys = and_then (get_in v keys) as_u64

  unfoldable pub array_at : Json F → List Text → Option (Items F)
  unfolding get_in and_then
  array_at v keys = and_then (get_in v keys) as_array

  -- `null`, an object with the key `Ok`, or any other value
  unfoldable pub is_null : Json F → Bool
  is_null null = true
  is_null _ = false

  unfoldable pub is_there : Option (Json F) → Bool
  is_there none = false
  is_there (some v) = true

  -- an error that is there and is not an explicit `Ok`
  unfoldable pub is_failure : Option (Json F) → Bool
  unfolding is_there get
  is_failure none = false
  is_failure (some e) = not (is_there (get e (bytes "Ok")))

  -- the same where a null is no error
  unfoldable pub is_sig_failure : Option (Json F) → Bool
  unfolding is_null is_failure
  is_sig_failure none = false
  is_sig_failure (some e) = if is_null e then false else is_failure (some e)

  -- the texts of an array
  unfoldable pub texts : Items F → List Text
  texts nil = []
  texts (cons (str s) items) = s ∷ texts items
  texts (cons null items) = texts items
  texts (cons (bool b) items) = texts items
  texts (cons (u64 n) items) = texts items
  texts (cons (neg n) items) = texts items
  texts (cons (float x) items) = texts items
  texts (cons (arr a) items) = texts items
  texts (cons (obj o) items) = texts items

-- "finalized" or "confirmed"
unfoldable pub is_final : Option Text → Bool
is_final none = false
is_final (some s) = text_eq s (bytes "finalized") || text_eq s (bytes "confirmed")

unfoldable pub texts_or_none : {F : Type 0} → Option (Items F) → List Text
unfolding texts
texts_or_none none = []
texts_or_none (some items) = texts items

-- what a chain of replies went through where it succeeds
pub reply-bind-ok :
    {A B : Type 0} (m : Reply A) (f : A → Reply B) (b : B)
    → (m >>= f) ≡ ok b
    → (a : A) × (m ≡ ok a) × (f a ≡ ok b)
reply-bind-ok (ok a) f b h = (a, refl, h)
reply-bind-ok (err e) f b h = ground arith
