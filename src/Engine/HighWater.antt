-- ===== src/Engine/HighWater.antt =====
-- The high-water mark of every open position (src/engine.rs and src/strategy.rs).
use hfmcbot.Prelude.{◌≡◌, true, List, arith, if◌then◌else◌}
use hfmcbot.Prelude.Map.Laws.{AllEntries}
use hfmcbot.Prelude.Text.{Text}
use hfmcbot.Platform.Decimal.{Decimal, IsOrdered, le, gt}
use hfmcbot.Platform.Chrono.{Chrono}
use hfmcbot.Config.{Config}
use hfmcbot.Engine.Entries.{IsKept, run-AllEntries}
use hfmcbot.Engine.Entry.{add_fill, or_opened}
use hfmcbot.Engine.Events.{run, seen}
use hfmcbot.Engine.Exit.{count_failure}
use hfmcbot.Engine.State.{Engine}
use hfmcbot.Exec.{Executor}
use hfmcbot.Strategy.{on_price}
use hfmcbot.Types.{Event, Fill, Position}

module _ {D T : Type 0} ⦃d : Decimal D⦄ where
  -- The last price seen is at most the high-water mark.
  pub record IsUnderMark (k : Text) (p : Position D T) : Type 0 where
    pub under : le p.last_price p.high_water ≡ true

  abbrev pub AnyFill : Text → Fill D T → Type 0
  AnyFill mint f = Unit

module _ {D : Type 0} ⦃d : Decimal D⦄ (ordered : IsOrdered D) where
  open ordered use {le_refl, le_total}

  le_raised : (price mark : D) → le price (if gt price mark then price else mark) ≡ true
  le_raised price mark = ground (arith, le_refl price, le_total price mark)

module _ {D T : Type 0} ⦃d : Decimal D⦄ ⦃c : Chrono T⦄ (ordered : IsOrdered D) where
  last_price-on_price :
      (p : Position D T) (price : D) (now : T) (cfg : Config D)
      → ((on_price p price now cfg).0.last_price ≡ p.last_price)
        × ((on_price p price now cfg).0.high_water
            ≡ (if gt price p.high_water then price else p.high_water))
  unfolding on_price
  last_price-on_price p price now cfg = ground arith

  IsUnderMark-IsKept : IsKept {D = D} {T = T} AnyFill IsUnderMark
  unfolding or_opened add_fill seen count_failure
  IsUnderMark-IsKept = record {
    at_open =
        λ mint f launchpad liq _. record { under = le_raised ordered f.price_usd f.price_usd };
    at_fill = λ mint f p liq _ h. record { under = le_raised ordered f.price_usd p.high_water };
    at_tick = λ k p pu cfg h. record {
      under =
          let (same, raised) = last_price-on_price (seen p pu) pu.price_usd pu.ts cfg in
          rw (same, raised) (le_raised ordered pu.price_usd p.high_water);
    };
    at_failure = λ k p limit h. record { under = h.under };
  }

module _ {X D T : Type 0} ⦃d : Decimal D⦄ ⦃c : Chrono T⦄ ⦃ex : Executor X D T⦄ where
  -- Where decimals are in order, whatever the executor fills, along every feed: if at the start no position was last seen above
  -- its high-water mark, no position is at the end.
  pub run-IsUnderMark :
      (s : Engine X D T) (evs : List (Event D T))
      → IsOrdered D
      → AllEntries IsUnderMark s.positions
      → AllEntries IsUnderMark (run s evs).positions
  run-IsUnderMark s evs ordered h =
      run-AllEntries {F = AnyFill} (record { of_buy = λ x mint b p l n e i f filled. tt })
        (IsUnderMark-IsKept ordered) s evs h
