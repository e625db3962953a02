-- ===== src/Decode/Launches.antt =====
-- The launches of the stonkfun endpoint (src/decode.rs): the entries of its answer that can be read.
-- JSON, times and the `Decimal` of a float are those of other crates.
use hfmcbot.Prelude.{List, [], ◌∷◌, Option, none, some}
use hfmcbot.Prelude.Text.{Text, bytes}
use hfmcbot.Platform.Floats.{Floats}
use hfmcbot.Platform.Json.{
  Json, Items, nil, cons, null, u64, neg, float, get, as_str, as_array, ◌>>=◌,
}

pub record StonkLaunch (D T : Type 0) : Type 0 where
  pub mint : Text
  pub pool : Text
  pub name : Text
  pub symbol : Text
  pub creator : Text
  pub quote_mint : Text
  pub quote_symbol : Text
  pub start_mcap_usd : Option D
  pub created_at : T

pub record LaunchTexts (F D T : Type 0) : Type 0 where
  pub json : Text → Option (Json F)
  pub time_of : Text → Option T
  pub from_f64 : F → Option D

-- `unwrap_or_default`
abbrev or_empty : Option Text → Text
or_empty none = []
or_empty (some s) = s

module _ {F : Type 0} where
  unfoldable pub str_field : Json F → Text → Option Text
  unfolding get
  str_field v key = get v key >>= as_str

  or_null : Option (Json F) → Json F
  or_null none = null
  or_null (some v) = v

  as_f64 : ⦃floats : Floats F⦄ → Json F → Option F
  as_f64 ⦃floats = floats⦄ (u64 n) = some (floats.of_u64 n)
  as_f64 ⦃floats = floats⦄ (neg n) = some (floats.of_neg n)
  as_f64 (float x) = some x
  as_f64 _ = none

  or_nil : Option (Items F) → Items F
  or_nil none = nil
  or_nil (some items) = items

module _ {F D T : Type 0} (texts : LaunchTexts F D T) ⦃floats : Floats F⦄ where
  -- an entry with its mint, pool, creator and time, without which it is skipped
  unfoldable pub launch_of : Json F → Option (StonkLaunch D T)
  unfolding str_field get or_null as_f64
  launch_of item = do
    mint ← str_field item (bytes "mint")
    pool ← str_field item (bytes "pool")
    creator ← str_field item (bytes "creator")
    created_at ← (str_field item (bytes "createdAt") >>= texts.time_of)
    let quote = or_null (get item (bytes "quote")) in
        some (record {
          mint = mint;
          pool = pool;
          name = or_empty (str_field item (bytes "name"));
          symbol = or_empty (str_field item (bytes "symbol"));
          creator = creator;
          quote_mint = or_empty (str_field quote (bytes "mint"));
          quote_symbol = or_empty (str_field quote (bytes "symbol"));
          start_mcap_usd = (get item (bytes "startMarketCapUsd") >>= as_f64) >>= texts.from_f64;
          created_at = created_at;
        })

  push_launch : Option (StonkLaunch D T) → List (StonkLaunch D T) → List (StonkLaunch D T)
  push_launch none out = out
  push_launch (some launch) out = launch ∷ out

  unfoldable pub launches_of : Items F → List (StonkLaunch D T)
  unfolding launch_of push_launch
  launches_of nil = []
  launches_of (cons item items) = push_launch (launch_of item) (launches_of items)

  unfoldable pub parse_stonkfun_launches : Text → List (StonkLaunch D T)
  unfolding launches_of get or_nil
  parse_stonkfun_launches body = elim (texts.json body) [
    | none ↦ []
    | some root ↦
        launches_of
          (or_nil (get root (bytes "data") >>= (λ d. get d (bytes "launches")) >>= as_array))
  ]
