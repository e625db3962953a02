-- ===== src/WsFeed/Wire.antt =====
-- The messages of the websocket feed (src/wsfeed.rs): their classes, and the fields of a create and
-- of a trade. `parse` is `serde_json::from_str`.
use hfmcbot.Prelude.{
  Bool, true, false, not, ◌||◌, List, [], ◌∷◌, Option, none, some, ◌==◌, if◌then◌else◌,
}
use hfmcbot.Prelude.Text.{Text, bytes, text_eq}
use hfmcbot.Platform.Floats.{Floats}
use hfmcbot.Platform.Json.{
  Json, Fields, u64, neg, float, str, ◌>>=◌, get, get_field, as_str, as_bool, as_u64,
}

pub data WsInbound (F : Type 0) : Type 0 where
  create_attempt trade_attempt : Json F → WsInbound F
  chatter malformed : WsInbound F

pub record PumpPortalCreate (F : Type 0) : Type 0 where
  pub mint : Text
  pub signature : Text
  pub trader : Text
  pub bonding_curve : Text
  pub vtokens_tokens : F
  pub vsol_sol : F
  pub initial_buy_tokens : F
  pub sol_amount : F
  pub market_cap_sol : F
  pub name : Text
  pub symbol : Text
  pub uri : Text
  pub pool : Text
  pub mayhem : Bool

pub record PumpPortalTrade (F : Type 0) : Type 0 where
  pub mint : Text
  pub signature : Text
  pub trader : Text
  pub bonding_curve : Text
  pub buy : Bool
  pub vtokens_tokens : F
  pub vsol_sol : F
  pub sol_amount : F
  pub market_cap_sol : F

-- `unwrap_or`
abbrev pub unwrap_or : {A : Type 0} → A → Option A → A
unwrap_or d none = d
unwrap_or d (some a) = a

abbrev pub or_else : {A : Type 0} → Option A → Option A → Option A
or_else none o = o
or_else (some a) o = some a

unfoldable pub is_empty : Text → Bool
is_empty [] = true
is_empty (_ ∷ _) = false

-- the match on `txType` of a message with a mint
unfoldable pub by_side : {F : Type 0} → Json F → Option Text → WsInbound F
by_side v none = create_attempt v
by_side v (some side) =
    if text_eq side (bytes "buy") || text_eq side (bytes "sell")
    then trade_attempt v
    else create_attempt v

-- the match on the mint
unfoldable pub by_mint : {F : Type 0} → Json F → Option Text → WsInbound F
unfolding by_side is_empty get
by_mint v none = chatter
by_mint v (some mint) =
    if is_empty mint then chatter else by_side v (get v (bytes "txType") >>= as_str)

unfoldable pub classify : {F : Type 0} → Option (Json F) → WsInbound F
unfolding by_mint get
classify none = malformed
classify (some v) = by_mint v (get v (bytes "mint") >>= as_str)

unfoldable pub parse_ws_line : {F : Type 0} → (Text → Option (Json F)) → Text → WsInbound F
unfolding classify
parse_ws_line parse line = classify (parse line)

module _ {F : Type 0} ⦃floats : Floats F⦄ where
  unfoldable pub num_flex : Json F → Option F
  num_flex (u64 n) = some (floats.of_u64 n)
  num_flex (neg n) = some (floats.of_neg n)
  num_flex (float x) = some x
  num_flex (str s) = floats.parse_trimmed s
  num_flex _ = none

module _ {F : Type 0} where
  -- the first alias whose field is there and reads as a value
  unfoldable pub first_of : {A : Type 0} → (Json F → Option A) → Fields F → List Text → Option A
  first_of read fields [] = none
  first_of read fields (a ∷ aliases) =
      or_else (get_field fields a >>= read) (first_of read fields aliases)

  -- `first_str`
  abbrev pub first_str : Fields F → List Text → Option Text
  first_str = first_of as_str

  unfoldable pub bool_flex : Json F → Option Bool
  bool_flex v = or_else (as_bool v) (as_u64 v >>= λ n. some (not (n == 0)))
