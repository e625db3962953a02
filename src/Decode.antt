-- ===== src/Decode.antt =====
-- The decoders of the chain's data (src/decode.rs), on bytes as numbers under 256.
pub mod Codec
pub mod RoundTrip
pub mod Launches
use hfmcbot.Prelude.{
  ℕ, ◌+◌, ◌-◌, ◌*◌, ◌%◌, ◌^◌, Bool, true, false, ◌&&◌, ◌||◌, not, List, [], ◌∷◌, Option, none, some,
  length, take, drop, get_elem?, ltb, leb, ◌==◌, if◌then◌else◌,
}
use Prim.Native.Nat.{min}
use hfmcbot.Borsh.{◌>>=◌, read_u64, read_borsh_str, read_pubkey}
use hfmcbot.Prelude.Text.{Text, bytes, text_eq}
use hfmcbot.Platform.Decimal.{Decimal, ◌⊘◌, dec}

abbrev pub pump_program : Text
pump_program = bytes "6EF8rrecthR5Dkzon8Nwu78hRvfCKubJ14M5uBEwF6P"

abbrev pub curve_account_disc : List ℕ
curve_account_disc = 23 ∷ 183 ∷ 248 ∷ 55 ∷ 96 ∷ 216 ∷ 172 ∷ 96 ∷ []

abbrev pub create_disc : List ℕ
create_disc = 24 ∷ 30 ∷ 200 ∷ 40 ∷ 5 ∷ 28 ∷ 7 ∷ 119 ∷ []

abbrev pub create_v2_disc : List ℕ
create_v2_disc = 214 ∷ 144 ∷ 76 ∷ 236 ∷ 95 ∷ 139 ∷ 49 ∷ 180 ∷ []

abbrev pub buy_disc : List ℕ
buy_disc = 102 ∷ 6 ∷ 61 ∷ 18 ∷ 1 ∷ 218 ∷ 235 ∷ 234 ∷ []

abbrev pub sell_disc : List ℕ
sell_disc = 51 ∷ 230 ∷ 133 ∷ 164 ∷ 1 ∷ 127 ∷ 131 ∷ 173 ∷ []

abbrev pub buy_v2_disc : List ℕ
buy_v2_disc = 184 ∷ 23 ∷ 238 ∷ 97 ∷ 103 ∷ 197 ∷ 211 ∷ 61 ∷ []

abbrev pub sell_v2_disc : List ℕ
sell_v2_disc = 93 ∷ 246 ∷ 130 ∷ 60 ∷ 231 ∷ 233 ∷ 64 ∷ 178 ∷ []

abbrev pub migrate_disc : List ℕ
migrate_disc = 155 ∷ 234 ∷ 231 ∷ 146 ∷ 236 ∷ 158 ∷ 162 ∷ 30 ∷ []

pub record CreateIx : Type 0 where
  pub v2 : Bool
  pub mint : Text
  pub bonding_curve : Text
  pub creator : List ℕ
  pub name : Text
  pub symbol : Text
  pub uri : Text
  pub mayhem : Bool

-- `is_some_and(|b| *b != 0)`
unfoldable pub is_nonzero : Option ℕ → Bool
is_nonzero none = false
is_nonzero (some b) = not (b == 0)

-- `data.get(off).is_some_and(|b| *b != 0)`
unfoldable pub is_set : List ℕ → ℕ → Bool
unfolding is_nonzero
is_set bs off = is_nonzero (get_elem? bs off)

-- the match on the discriminator of a create
unfoldable pub create_version : List ℕ → Option Bool
create_version disc =
    if text_eq disc create_disc
    then some false
    else if text_eq disc create_v2_disc
    then some true
    else none

-- the arguments of a create, from the offset 8 on
unfoldable pub create_args : List Text → List ℕ → Bool → Option CreateIx
unfolding read_borsh_str read_pubkey is_set
create_args accounts bs v2 = do
  (name, off) ← read_borsh_str bs 8
  (symbol, off') ← read_borsh_str bs off
  (uri, off'') ← read_borsh_str bs off'
  (creator, end) ← read_pubkey bs off''
  mint ← get_elem? accounts 0
  bonding_curve ← get_elem? accounts 2
  some (record {
    v2 = v2;
    mint = mint;
    bonding_curve = bonding_curve;
    creator = creator;
    name = name;
    symbol = symbol;
    uri = uri;
    mayhem = v2 && is_set bs end;
  })

unfoldable pub parse_create : Text → List Text → List ℕ → Option CreateIx
unfolding create_version create_args
parse_create program accounts bs =
    if not (text_eq program pump_program) || (ltb (length bs) 8 || ltb (length accounts) 3)
    then none
    else (create_version (take 8 bs) >>= create_args accounts bs)

pub data TradeKind : Type 0 where
  buy sell : TradeKind

pub record TradeIx : Type 0 where
  pub kind : TradeKind
  pub v2 : Bool
  pub mint : Text
  pub bonding_curve : Text
  pub amount_base_units : ℕ
  pub limit_quote_units : ℕ

-- the match on the discriminator of a trade
unfoldable pub trade_version : List ℕ → Option (TradeKind × Bool)
trade_version disc =
    if text_eq disc buy_disc
    then some (buy, false)
    else if text_eq disc sell_disc
    then some (sell, false)
    else if text_eq disc buy_v2_disc
    then some (buy, true)
    else if text_eq disc sell_v2_disc
    then some (sell, true)
    else none

-- the numbers of the accounts of the mint and of the curve
unfoldable pub trade_accounts : Bool → ℕ × ℕ
trade_accounts false = (2, 3)
trade_accounts true = (1, 10)

-- the accounts and arguments of a trade; the curve's account is the last that is needed
unfoldable pub trade_args : List Text → List ℕ → TradeKind × Bool → Option TradeIx
unfolding trade_accounts read_u64
trade_args accounts bs (kind, v2) = do
  mint ← get_elem? accounts (trade_accounts v2).0
  bonding_curve ← get_elem? accounts (trade_accounts v2).1
  (amount, off) ← read_u64 bs 8
  (limit, end) ← read_u64 bs off
  some (record {
    kind = kind;
    v2 = v2;
    mint = mint;
    bonding_curve = bonding_curve;
    amount_base_units = amount;
    limit_quote_units = limit;
  })

unfoldable pub parse_trade : Text → List Text → List ℕ → Option TradeIx
unfolding trade_version trade_args
parse_trade program accounts bs =
    if not (text_eq program pump_program) || ltb (length bs) 24
    then none
    else (trade_version (take 8 bs) >>= trade_args accounts bs)

pub record MigrateIx : Type 0 where
  pub mint : Text
  pub bonding_curve : Text
  pub pool : Text

unfoldable pub parse_migrate : Text → List Text → List ℕ → Option MigrateIx
parse_migrate program accounts bs =
    if not (text_eq program pump_program)
      || (ltb (length bs) 8 || (ltb (length accounts) 10 || not (text_eq (take 8 bs) migrate_disc)))
    then none
    else do
      mint ← get_elem? accounts 2
      bonding_curve ← get_elem? accounts 3
      pool ← get_elem? accounts 9
      some (record { mint = mint; bonding_curve = bonding_curve; pool = pool })

pub record CurveReserves : Type 0 where
  pub virtual_base_units : ℕ
  pub virtual_quote_units : ℕ
  pub real_base_units : ℕ
  pub real_quote_units : ℕ
  pub total_supply_units : ℕ
  pub complete : Bool

-- the fields of a curve account behind its discriminator
unfoldable pub curve_fields : List ℕ → Option CurveReserves
unfolding read_u64 is_set
curve_fields bs = do
  (virtual_base, a) ← read_u64 bs 8
  (virtual_quote, b) ← read_u64 bs a
  (real_base, c) ← read_u64 bs b
  (real_quote, d) ← read_u64 bs c
  (total_supply, e) ← read_u64 bs d
  some (record {
    virtual_base_units = virtual_base;
    virtual_quote_units = virtual_quote;
    real_base_units = real_base;
    real_quote_units = real_quote;
    total_supply_units = total_supply;
    complete = is_set bs e;
  })

unfoldable pub parse_curve_account : List ℕ → Option CurveReserves
unfolding curve_fields
parse_curve_account bs =
    if ltb (length bs) 49 || not (text_eq (take 8 bs) curve_account_disc)
    then none
    else curve_fields bs

-- `10u64.pow(n)`, which wraps in a build without overflow checks
unfoldable pub pow10_u64 : ℕ → ℕ
pow10_u64 n = 10 ^ n % 2 ^ 64

unfoldable pub curve_price_in_quote : {D : Type 0} ⦃d : Decimal D⦄ → CurveReserves → ℕ → Option D
unfolding pow10_u64
curve_price_in_quote r quote_decimals =
    if r.virtual_base_units == 0 || r.virtual_quote_units == 0
    then none
    else some (
        dec r.virtual_quote_units
        ⊘ dec (pow10_u64 (min quote_decimals 28))
        ⊘ (dec r.virtual_base_units ⊘ dec (pow10_u64 6)))
