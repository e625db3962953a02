-- ===== src/Exec/Paper.antt =====
-- The paper executor (src/exec.rs): its slippage, its failures and its fills.
use Prim.Native.Nat.{min}
use hfmcbot.Prelude.{ℕ, ◌≡◌, ◌≤◌, true, arith, refl}
use hfmcbot.Prelude.Text.{Text}
use hfmcbot.Platform.Decimal.{Decimal, IsOrdered, le, dec, ◌⊕◌, ◌⊗◌, ◌⊘◌}
use hfmcbot.Config.{Config}
use hfmcbot.Exec.{
  failed, rejected, TipTier, with_failure_bps, would_fail, effective_slippage_pct, paper_buy,
  paper_sell,
}

module _ {D : Type 0} ⦃d : Decimal D⦄ where
  -- where decimals are in order, the slippage is never over its cap
  effective_slippage_pct-le :
      (base coeff cap notional liquidity : D)
      → IsOrdered D
      → le (effective_slippage_pct base coeff cap notional liquidity) cap ≡ true
  unfolding effective_slippage_pct
  effective_slippage_pct-le base coeff cap notional liquidity ordered =
      let reach = base ⊕ coeff ⊗ (notional ⊘ liquidity ⊗ dec 100) in
      ground (arith, ordered.le_refl cap, ordered.le_total base cap, ordered.le_total reach cap)

would_fail_always : (order_id : Text) (bps : ℕ) → 10000 ≤ bps → would_fail order_id bps ≡ true
unfolding would_fail
would_fail_always order_id bps h = ground arith

module _ {D T : Type 0} ⦃d : Decimal D⦄ where
  -- A failure rate of at least 10000 basis points, which is held to 10000, fails every order, on
  -- both sides.
  pub with_failure_bps-failed :
      (cfg : Config D) (bps : ℕ) (mint : Text) (size price liquidity : D) (now deadline : T)
      (order_id : Text) (tier : TipTier)
      → 10000 ≤ bps
      → ((paper_buy (with_failure_bps cfg bps) mint size price liquidity now deadline order_id).1
          ≡ failed rejected)
        × ((paper_sell (with_failure_bps cfg bps) mint size price liquidity now order_id tier).1
            ≡ failed rejected)
  unfolding paper_buy paper_sell with_failure_bps
  with_failure_bps-failed cfg bps mint size price liquidity now deadline order_id tier high =
      rw (would_fail_always order_id (min bps 10000) (omega arith)) (refl, refl)
