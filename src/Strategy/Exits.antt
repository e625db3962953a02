-- ===== src/Strategy/Exits.antt =====
-- The exit rules (src/strategy.rs): what a price does to a position, and what time does.
use hfmcbot.Prelude.{
  ◌≡◌, ◌≢◌, ◌↔◌, ◌⊎◌, inl, inr, refl, Bool-cases, true, false, none, some, arith, if◌then◌else◌,
}
use hfmcbot.Prelude.Int.{as_i64, ◌≤ℤ◌}
use hfmcbot.Platform.Decimal.{Decimal, ◌⊖◌, ◌⊗◌, ◌⊘◌, dec, le, gt}
use hfmcbot.Platform.Chrono.{Chrono, num_seconds}
use hfmcbot.Config.{Config}
use hfmcbot.Strategy.{on_price, on_time}
use hfmcbot.Types.{Position, HoldMode, flip, conviction, ExitReason, unrealized_pnl_pct}

-- the price that lies `pct` percent below a mark
abbrev pub below : {D : Type 0} ⦃d : Decimal D⦄ → D → D → D
below top pct = top ⊗ (dec 1 ⊖ pct ⊘ dec 100)

-- the mark after a price
abbrev pub mark : {D T : Type 0} ⦃d : Decimal D⦄ → Position D T → D → D
mark p price = if gt price p.high_water then price else p.high_water

module _ {D T : Type 0} ⦃d : Decimal D⦄ ⦃c : Chrono T⦄ (p : Position D T) (price : D) (now : T)
    (cfg : Config D) where
  -- A flip position that is short of the profit target, above the stop and in time.
  pub record IsHeldFlip : Type 0 where
    pub short_of_target : le cfg.take_profit_pct (unrealized_pnl_pct p price) ≡ false
    pub above_stop : le price (below (mark p price) cfg.stop_loss_pct) ≡ false
    pub in_time : ¬ (as_i64 cfg.max_hold_secs ≤ℤ num_seconds now p.opened_at)

  -- A conviction position that is above its trailing stop and in time.
  pub record IsHeldConviction : Type 0 where
    pub above_trail : le price (below (mark p price) cfg.trail_pct) ≡ false
    pub in_time : ¬ (as_i64 cfg.conviction_max_hold_secs ≤ℤ num_seconds now p.opened_at)

  flip_holds :
      p.mode ≡ flip
      → (on_price p price now cfg).1 ≡ none
      → (le cfg.conviction_min_pct (unrealized_pnl_pct p price) ≡ true) ⊎ IsHeldFlip
  unfolding on_price unrealized_pnl_pct
  flip_holds e h = ground arith

  flip_held :
      p.mode ≡ flip
      → (le cfg.conviction_min_pct (unrealized_pnl_pct p price) ≡ true) ⊎ IsHeldFlip
      → (on_price p price now cfg).1 ≡ none
  unfolding on_price unrealized_pnl_pct
  flip_held e h = ground arith

  promoted :
      p.mode ≡ flip
      → (on_price p price now cfg).0.mode ≡ conviction
      → le cfg.conviction_min_pct (unrealized_pnl_pct p price) ≡ true
  unfolding on_price unrealized_pnl_pct
  promoted e h = ground arith

  promotes :
      p.mode ≡ flip
      → le cfg.conviction_min_pct (unrealized_pnl_pct p price) ≡ true
      → (on_price p price now cfg).0.mode ≡ conviction
  unfolding on_price unrealized_pnl_pct
  promotes e h = ground arith

  conviction_holds : p.mode ≡ conviction → (on_price p price now cfg).1 ≡ none → IsHeldConviction
  unfolding on_price
  conviction_holds e h = record { above_trail = ground arith; in_time = ground arith }

  conviction_held : p.mode ≡ conviction → IsHeldConviction → (on_price p price now cfg).1 ≡ none
  unfolding on_price
  conviction_held e h = ground arith

  stays : p.mode ≡ conviction → (on_price p price now cfg).0.mode ≡ conviction
  unfolding on_price
  stays e = ground arith

  timed :
      (mode : HoldMode)
      → p.mode ≡ mode
      → (reason : ExitReason) → on_time p now cfg ≡ some reason
      → ((on_price p price now cfg).1 ≢ none)
        ⊎ ((p.mode ≡ flip) × ((on_price p price now cfg).0.mode ≡ conviction))
  unfolding on_price on_time unrealized_pnl_pct
  timed flip e reason h =
      elim (Bool-cases (le cfg.conviction_min_pct (unrealized_pnl_pct p price))) [
        | inl up ↦ inr (e, ground arith)
        | inr under ↦ inl (ground arith)
      ]
  timed conviction e reason h = inl (ground arith)

  -- In flip mode a price leads to no exit exactly if the gain reaches the conviction threshold, or
  -- the position is short of the profit target, above the stop below its raised mark, and in time.
  -- It leads to conviction mode exactly if the gain reaches the threshold.
  pub on_price_flip :
      p.mode ≡ flip
      → (((on_price p price now cfg).1 ≡ none)
          ↔ ((le cfg.conviction_min_pct (unrealized_pnl_pct p price) ≡ true) ⊎ IsHeldFlip))
        × (((on_price p price now cfg).0.mode ≡ conviction)
            ↔ (le cfg.conviction_min_pct (unrealized_pnl_pct p price) ≡ true))
  on_price_flip e = ((flip_holds e, flip_held e), (promoted e, promotes e))

  -- In conviction mode a price leads to no exit exactly if the position is above the trailing stop
  -- below its raised mark and in time; and the position never goes back to flip mode.
  pub on_price_conviction :
      p.mode ≡ conviction
      → (((on_price p price now cfg).1 ≡ none) ↔ IsHeldConviction)
        × ((on_price p price now cfg).0.mode ≡ conviction)
  on_price_conviction e = ((conviction_holds e, conviction_held e), stays e)

  -- A position that `on_time` would sell, `on_price` sells at whatever price, or promotes to
  -- conviction mode.
  pub on_price-on_time :
      (reason : ExitReason)
      → on_time p now cfg ≡ some reason
      → ((on_price p price now cfg).1 ≢ none)
        ⊎ ((p.mode ≡ flip) × ((on_price p price now cfg).0.mode ≡ conviction))
  on_price-on_time reason e = timed p.mode refl reason e
