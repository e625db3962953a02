-- ===== src/WsFeed/Routing.antt =====
-- Routing (src/wsfeed.rs): `parse_ws_line` sends a message to the extractor that takes it.
use hfmcbot.Prelude.{
  ◌≡◌, Bool, true, false, not, ◌||◌, if◌then◌else◌, [], ◌∷◌, Option, none, some, arith, refl, sym,
  ◌∙◌,
}
use hfmcbot.Prelude.Text.{Text, bytes, text_eq, text_eq_iff}
use hfmcbot.Platform.Floats.{Floats}
use hfmcbot.Platform.Json.{
  Json, Fields, null, bool, u64, neg, float, str, arr, obj, ◌>>=◌, bind-some, get, get_field,
  as_object, as_str,
}
use hfmcbot.WsFeed.Wire.{
  PumpPortalCreate, PumpPortalTrade, WsInbound, create_attempt, trade_attempt, chatter, or_else,
  is_empty, by_side, by_mint, classify, parse_ws_line,
}
use hfmcbot.WsFeed.Extract.{
  tx_type, is_create_type, side_of, extract_create, extract_create_fields, create_rest,
  extract_trade, extract_trade_fields, trade_rest,
}

-- the tests before the reserves, of a create and of a trade, on the mint and on the `txType`
create_guard : {A : Type 0} → (Text → Option A) → Option Text → Option Text → Option A
unfolding is_empty is_create_type
create_guard rest o tx =
    o >>= λ mint. if is_empty mint || not (is_create_type tx) then none else rest mint

trade_guard : {A : Type 0} → (Bool → Text → Option A) → Option Text → Option Text → Option A
unfolding is_empty side_of
trade_guard rest o tx =
    side_of tx >>= λ buy. o >>= λ mint. if is_empty mint then none else rest buy mint

-- the mint of a message is the text of its one alias
mint_of : {F : Type 0} → Fields F → Option Text
mint_of fields = get_field fields (bytes "mint") >>= as_str

or_else-none : {A : Type 0} (o : Option A) → or_else o none ≡ o
or_else-none none = refl
or_else-none (some a) = refl

route : {F : Type 0} → Json F → Option Text → Option Text → WsInbound F
unfolding is_empty by_side
route v none tx = chatter
route v (some mint) tx = if is_empty mint then chatter else by_side v tx

create_not_side :
    (tx : Text)
    → text_eq tx (bytes "create") ≡ true
    → (text_eq tx (bytes "buy") ≡ false) × (text_eq tx (bytes "sell") ≡ false)
unfolding text_eq
create_not_side tx h =
    let e : tx ≡ bytes "create" = (text_eq_iff tx (bytes "create")).0 h in rw e (refl, refl)

as_object-obj :
    {F : Type 0} (v : Json F) (fields : Fields F) → as_object v ≡ some fields → v ≡ obj fields
as_object-obj (obj other) fields h = ground arith
as_object-obj null fields h = ground arith
as_object-obj (bool b) fields h = ground arith
as_object-obj (u64 n) fields h = ground arith
as_object-obj (neg n) fields h = ground arith
as_object-obj (float x) fields h = ground arith
as_object-obj (str s) fields h = ground arith
as_object-obj (arr items) fields h = ground arith

route-create_guard :
    {F A : Type 0} (v : Json F) (rest : Text → Option A) (o tx : Option Text) (c : A)
    → create_guard rest o tx ≡ some c
    → route v o tx ≡ create_attempt v
unfolding create_guard route
route-create_guard v rest none tx c h = ground arith
route-create_guard v rest (some []) tx c h = ground arith
route-create_guard v rest (some (x ∷ xs)) none c h = refl
route-create_guard v rest (some (x ∷ xs)) (some tx) c h = ground (arith, create_not_side tx)

route-trade_guard :
    {F A : Type 0} (v : Json F) (rest : Bool → Text → Option A) (o tx : Option Text) (c : A)
    → trade_guard rest o tx ≡ some c
    → route v o tx ≡ trade_attempt v
unfolding trade_guard route
route-trade_guard v rest o none c h = ground arith
route-trade_guard v rest none (some tx) c h = ground arith
route-trade_guard v rest (some []) (some tx) c h = ground arith
route-trade_guard v rest (some (x ∷ xs)) (some tx) c h = ground arith

module _ {F : Type 0} ⦃floats : Floats F⦄ where
  extract_create_fields-guard :
      (fields : Fields F)
      → extract_create_fields fields
        ≡ create_guard (create_rest fields) (mint_of fields) (tx_type fields)
  unfolding extract_create_fields create_guard mint_of
  extract_create_fields-guard fields = rw (or_else-none (mint_of fields)) refl

  extract_trade_fields-guard :
      (fields : Fields F)
      → extract_trade_fields fields
        ≡ trade_guard (trade_rest fields) (mint_of fields) (tx_type fields)
  unfolding extract_trade_fields trade_guard mint_of
  extract_trade_fields-guard fields = rw (or_else-none (mint_of fields)) refl

  classify-obj :
      (fields : Fields F)
      → classify (some (obj fields)) ≡ route (obj fields) (mint_of fields) (tx_type fields)
  unfolding classify by_mint tx_type get route mint_of
  classify-obj fields = ground arith

  -- A line from whose value `extract_create` reads a create is routed to `extract_create`, with
  -- that value.
  pub parse_ws_line-extract_create :
      (parse : Text → Option (Json F)) (line : Text) (v : Json F) (c : PumpPortalCreate F)
      → parse line ≡ some v
      → extract_create v ≡ some c
      → parse_ws_line parse line ≡ create_attempt v
  unfolding parse_ws_line extract_create
  parse_ws_line-extract_create parse line v c hp h =
      let (fields, is_obj, got) = bind-some (as_object v) extract_create_fields c h in
      let e = as_object-obj v fields is_obj in
      rw hp (
        rw e (
          classify-obj fields
          ∙ route-create_guard (obj fields) (create_rest fields) (mint_of fields) (tx_type fields) c
              (sym (extract_create_fields-guard fields) ∙ got)))

  -- A line from whose value `extract_trade` reads a trade is routed to `extract_trade`, with that
  -- value.
  pub parse_ws_line-extract_trade :
      (parse : Text → Option (Json F)) (line : Text) (v : Json F) (t : PumpPortalTrade F)
      → parse line ≡ some v
      → extract_trade v ≡ some t
      → parse_ws_line parse line ≡ trade_attempt v
  unfolding parse_ws_line extract_trade
  parse_ws_line-extract_trade parse line v t hp h =
      let (fields, is_obj, got) = bind-some (as_object v) extract_trade_fields t h in
      let e = as_object-obj v fields is_obj in
      rw hp (
        rw e (
          classify-obj fields
          ∙ route-trade_guard (obj fields) (trade_rest fields) (mint_of fields) (tx_type fields) t
              (sym (extract_trade_fields-guard fields) ∙ got)))
