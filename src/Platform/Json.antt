-- ===== src/Platform/Json.antt =====
-- `serde_json::Value`, over the floats F: its shapes, and the accessors that the source calls. The
-- parser and the printer are third-party code.
use hfmcbot.Prelude.{◌≡◌, refl, arith, ℕ, Bool, Option, none, some, if◌then◌else◌}
use hfmcbot.Prelude.Text.{Text, text_eq}

mutual
  -- A number is a u64, a negative i64, written -(n + 1), or a float.
  pub data Json (F : Type 0) : Type 0 where
    null : Json F
    bool : Bool → Json F
    u64 : ℕ → Json F
    neg : ℕ → Json F
    float : F → Json F
    str : Text → Json F
    arr : Items F → Json F
    obj : Fields F → Json F

  pub data Items (F : Type 0) : Type 0 where
    nil : Items F
    cons : Json F → Items F → Items F

  pub data Fields (F : Type 0) : Type 0 where
    end : Fields F
    field : Text → Json F → Fields F → Fields F

-- the `?`, `and_then` and `ok_or` of the source
infixl 5 ◌>>=◌
abbrev pub ◌>>=◌ : {A B : Type 0} → Option A → (A → Option B) → Option B
none >>= f = none
some a >>= f = f a

none≢some : {A : Type 0} {a : A} → none ≡ some a → ⊥
none≢some h = ground arith

-- what a chain of options went through where it gives a value
pub bind-some :
    {A B : Type 0} (o : Option A) (f : A → Option B) (b : B)
    → (o >>= f) ≡ some b
    → (a : A) × (o ≡ some a) × (f a ≡ some b)
bind-some none f b h = elim (none≢some h) [ ]
bind-some (some a) f b h = (a, refl, h)

module _ {F : Type 0} where
  unfoldable pub get_field : Fields F → Text → Option (Json F)
  get_field end k = none
  get_field (field j v rest) k = if text_eq j k then some v else get_field rest k

  abbrev pub as_object : Json F → Option (Fields F)
  as_object (obj fields) = some fields
  as_object _ = none

  -- `Value::get` by a key
  unfoldable pub get : Json F → Text → Option (Json F)
  unfolding get_field
  get v k = as_object v >>= λ fields. get_field fields k

  abbrev pub as_str : Json F → Option Text
  as_str (str s) = some s
  as_str _ = none

  abbrev pub as_bool : Json F → Option Bool
  as_bool (bool b) = some b
  as_bool _ = none

  abbrev pub as_u64 : Json F → Option ℕ
  as_u64 (u64 n) = some n
  as_u64 _ = none

  abbrev pub as_array : Json F → Option (Items F)
  as_array (arr items) = some items
  as_array _ = none

  -- `first()` of an array
  abbrev pub first_item : Items F → Option (Json F)
  first_item nil = none
  first_item (cons v _) = some v
