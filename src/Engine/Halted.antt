-- ===== src/Engine/Halted.antt =====
-- What a launch does while the kill switch is engaged (src/engine.rs, `on_launch`).
use hfmcbot.Prelude.{◌≡◌, ◌≢◌, refl, true, if_ind}
use hfmcbot.Platform.Decimal.{Decimal}
use hfmcbot.Platform.Chrono.{Chrono}
use hfmcbot.Engine.Entry.{risk_checked, gated, on_launch}
use hfmcbot.Engine.Selling.{holdings}
use hfmcbot.Engine.State.{Engine, audit_decision, audit_blocked}
use hfmcbot.Exec.{Executor}
use hfmcbot.Risk.{Verdict, allowed, blocked, check_entry}
use hfmcbot.Risk.Breakers.{killed_entry}
use hfmcbot.Strategy.{Gate, pass, reject, entry_gate}
use hfmcbot.Types.{Launch}

module _ {X D T : Type 0} ⦃d : Decimal D⦄ ⦃c : Chrono T⦄ ⦃ex : Executor X D T⦄ where
  holdings-risk_checked :
      (s : Engine X D T) (l : Launch D T) (v : Verdict D)
      → v ≢ allowed
      → holdings (risk_checked s l v) ≡ holdings s
  unfolding risk_checked audit_blocked audit_decision
  holdings-risk_checked s l allowed h = elim (h refl) [ ]
  holdings-risk_checked s l (blocked reason) h = refl

  holdings-gated :
      (s : Engine X D T) (l : Launch D T) (g : Gate D)
      → s.risk.kill ≡ true
      → holdings (gated s l g) ≡ holdings s
  unfolding gated audit_decision
  holdings-gated s l pass h =
      let checked = check_entry s.risk l.created_at in
      holdings-risk_checked (record s { risk = checked.0 }) l checked.1
        (killed_entry s.risk l.created_at h)
  holdings-gated s l (reject reason) h = refl

  -- With the kill switch engaged no launch is bought, whatever it is: no order reaches the executor,
  -- no order number is used, and equity, deployed capital, positions and closed trades stay as they
  -- are.
  pub holdings-on_launch :
      (s : Engine X D T) (l : Launch D T)
      → s.risk.kill ≡ true
      → holdings (on_launch s l) ≡ holdings s
  unfolding on_launch audit_decision
  holdings-on_launch s l h =
      if_ind (λ (t : Engine X D T). holdings t ≡ holdings s) _ refl
        (holdings-gated s l (entry_gate l l.created_at s.cfg) h)
