-- ===== src/Tests/DecodeTests.antt =====
-- Examples of the theorems on the decoders.
use hfmcbot.Prelude.{◌≡◌, refl, true, false, List, [], ◌∷◌, some, arith, replicate}
use hfmcbot.Prelude.Text.{Text, bytes}
use hfmcbot.Borsh.{is_utf8}
use hfmcbot.Decode.{
  CreateIx, TradeIx, TradeKind, CurveReserves, parse_create, parse_trade, pump_program,
  trade_accounts, is_set,
}
use hfmcbot.Decode.RoundTrip.{put_create, put_trade, parse_create-put_create, parse_trade-put_trade}
use hfmcbot.Tests.{cat}

abbrev curve_key : Text
curve_key = bytes "curve"

abbrev cat_trade : TradeIx
cat_trade = record {
  kind = TradeKind.buy;
  v2 = false;
  mint = cat;
  bonding_curve = curve_key;
  amount_base_units = 1000000;
  limit_quote_units = 70000;
}

abbrev trade_keys : List Text
trade_keys = [] ∷ [] ∷ cat ∷ curve_key ∷ []

parse_trade-put_trade_example :
    parse_trade pump_program trade_keys (put_trade cat_trade (9 ∷ [])) ≡ some cat_trade
unfolding trade_accounts
parse_trade-put_trade_example =
    parse_trade-put_trade cat_trade trade_keys (9 ∷ []) (omega arith) (omega arith) refl refl
      (omega arith)

abbrev cat_create : CreateIx
cat_create = record {
  v2 = true;
  mint = cat;
  bonding_curve = curve_key;
  creator = replicate 32 7;
  name = bytes "Cat";
  symbol = bytes "CAT";
  uri = bytes "cat.io";
  mayhem = true;
}

parse_create-put_create_example :
    parse_create pump_program (cat ∷ [] ∷ curve_key ∷ []) (put_create cat_create (1 ∷ []))
    ≡ some cat_create
unfolding is_set is_utf8
parse_create-put_create_example =
    parse_create-put_create cat_create [] [] (1 ∷ []) (record { short = omega arith; valid = refl })
      (record { short = omega arith; valid = refl }) (record { short = omega arith; valid = refl })
      refl refl (omega arith)

abbrev cat_curve : CurveReserves
cat_curve = record {
  virtual_base_units = 1000;
  virtual_quote_units = 30;
  real_base_units = 800;
  real_quote_units = 0;
  total_supply_units = 5000;
  complete = false;
}
