-- ===== src/Tests/StrategyTests.antt =====
-- Examples of the theorems on the decisions.
use hfmcbot.Prelude.{ℕ, ◌≡◌, ◌↔◌, ◌⊎◌, refl, true, List, none, some, arith}
use hfmcbot.Prelude.Int.{ℤ, pos, ◌/ℤ◌, ◌*ℤ◌, ◌-ℤ◌}
use hfmcbot.Platform.Decimal.{le}
use hfmcbot.Platform.Sample.{
  whole_dollars, unix_seconds, whole_dollars-IsOrdered, whole_dollars-IsExact,
}
use hfmcbot.Strategy.{entry_gate, pass, position_budget, split_into_slices, on_price}
use hfmcbot.Strategy.Entry.{IsSafe, entry_gate_iff}
use hfmcbot.Strategy.Exits.{IsHeldFlip, IsHeldConviction, on_price_flip, on_price_conviction}
use hfmcbot.Strategy.Sizing.{IsWithin, IsSplit, position_budget-IsWithin, split_into_slices-IsSplit}
use hfmcbot.Tests.{paper_config, cat_launch, cat_position}
use hfmcbot.Types.{Position, conviction, unrealized_pnl_pct}

entry_gate_iff_example :
    (entry_gate cat_launch 1030 paper_config ≡ pass) ↔ IsSafe cat_launch 1030 paper_config
entry_gate_iff_example = entry_gate_iff cat_launch 1030 paper_config

position_budget-IsWithin_example :
    IsWithin
      (pos 1000 *ℤ pos 10 /ℤ pos 100)
      (pos 25)
      (pos 1000 -ℤ pos 985)
      (position_budget paper_config (pos 1000) (pos 985))
unfolding ◌/ℤ◌ ◌*ℤ◌
position_budget-IsWithin_example =
    position_budget-IsWithin paper_config (pos 1000) (pos 985) whole_dollars-IsOrdered refl refl

split_into_slices-IsSplit_example :
    (slices : List ℤ) × (split_into_slices (pos 25) 3 ≡ some slices) × IsSplit (pos 25) 3 slices
split_into_slices-IsSplit_example =
    split_into_slices-IsSplit (pos 25) 3 (omega arith) whole_dollars-IsExact

on_price_flip_example :
    (((on_price cat_position (pos 8) 1100 paper_config).1 ≡ none) ↔ (
      (le (pos 200) (unrealized_pnl_pct cat_position (pos 8)) ≡ true)
      ⊎ IsHeldFlip cat_position (pos 8) 1100 paper_config))
    × (((on_price cat_position (pos 8) 1100 paper_config).0.mode ≡ conviction)
        ↔ (le (pos 200) (unrealized_pnl_pct cat_position (pos 8)) ≡ true))
on_price_flip_example = on_price_flip cat_position (pos 8) 1100 paper_config refl

abbrev cat_trailed : Position ℤ ℕ
cat_trailed = record cat_position { mode = conviction }

on_price_conviction_example :
    (((on_price cat_trailed (pos 8) 1100 paper_config).1 ≡ none)
      ↔ IsHeldConviction cat_trailed (pos 8) 1100 paper_config)
    × ((on_price cat_trailed (pos 8) 1100 paper_config).0.mode ≡ conviction)
on_price_conviction_example = on_price_conviction cat_trailed (pos 8) 1100 paper_config refl
