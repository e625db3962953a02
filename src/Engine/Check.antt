-- ===== src/Engine/Check.antt =====
-- The engine's own self-check (src/engine.rs, `check_invariants`) passes after every feed.
use hfmcbot.Prelude.{◌≡◌, refl, sym, ap, ◌∙◌, true, false, List, [], ◌∷◌, none, All, arith}
use hfmcbot.Prelude.Map.{HashMap, values}
use hfmcbot.Prelude.Map.Laws.{AllEntries}
use hfmcbot.Prelude.Text.{Text}
use hfmcbot.Platform.Decimal.{Decimal, IsExact, IsOrdered, ◌⊕◌, ◌⊖◌, dec, lt, eqb}
use hfmcbot.Platform.Chrono.{Chrono}
use hfmcbot.Config.{Config}
use hfmcbot.Engine.Balance.{IsBalanced, IsBooked, ledger, cost_of}
use hfmcbot.Engine.Balance.Run.{new-IsBalanced, run-IsBalanced}
use hfmcbot.Engine.Book.{sum, pnls, costs, any_bad_trade, any_bad_position, check_invariants}
use hfmcbot.Engine.Entries.{IsKept, run-AllEntries}
use hfmcbot.Engine.Entry.{add_fill, or_opened}
use hfmcbot.Engine.Events.{run, seen}
use hfmcbot.Engine.Exit.{count_failure}
use hfmcbot.Engine.State.{Engine, new}
use hfmcbot.Engine.Sums.{sum-eq-total, weigh-total, zero-add}
use hfmcbot.Exec.{Executor, Fills}
use hfmcbot.Persist.{AuditRecord}
use hfmcbot.Strategy.{on_price}
use hfmcbot.Types.{Event, Fill, Position, ClosedTrade}

module _ {D T : Type 0} ⦃d : Decimal D⦄ where
  -- A fill that buys something and costs something.
  pub record IsPaid (mint : Text) (f : Fill D T) : Type 0 where
    pub bought : lt (dec 0) f.qty ≡ true
    pub paid : lt (dec 0) (f.notional_usd ⊕ f.fee_usd) ≡ true

  -- A position that holds something and cost something.
  pub record IsFunded (k : Text) (p : Position D T) : Type 0 where
    pub held : lt (dec 0) p.qty ≡ true
    pub cost : lt (dec 0) p.cost_usd ≡ true

module _ {D T : Type 0} ⦃d : Decimal D⦄ ⦃c : Chrono T⦄ (exact : IsExact D) where
  IsFunded-IsKept : IsKept {D = D} {T = T} IsPaid IsFunded
  unfolding or_opened add_fill seen on_price count_failure
  IsFunded-IsKept = record {
    at_open = λ mint f launchpad liq paid. record {
      held = rw (zero-add exact f.qty) paid.bought;
      cost = rw (zero-add exact (f.notional_usd ⊕ f.fee_usd)) paid.paid;
    };
    at_fill = λ mint f p liq paid h. record {
      held = exact.add_pos p.qty f.qty h.held paid.bought;
      cost = exact.add_pos p.cost_usd _ h.cost paid.paid;
    };
    at_tick = λ k p pu cfg h. ground arith;
    at_failure = λ k p limit h. record { held = h.held; cost = h.cost };
  }

module _ {D : Type 0} ⦃d : Decimal D⦄ (ordered : IsOrdered D) where
  eqb_of_eq : (a b : D) → a ≡ b → eqb a b ≡ true
  eqb_of_eq a b e = rw e (rw (ordered.le_refl b) refl)

module _ {D T : Type 0} ⦃d : Decimal D⦄ (ordered : IsOrdered D) where
  no_bad_position :
      (m : HashMap (Position D T)) → AllEntries IsFunded m → any_bad_position (values m) ≡ false
  unfolding any_bad_position
  no_bad_position [] h = refl
  no_bad_position ((k, p) ∷ m) h = ground (arith, no_bad_position m h.1, h.0.held, h.0.cost)

  no_bad_trade : (ts : List (ClosedTrade D T)) → All IsBooked ts → any_bad_trade ts ≡ false
  unfolding any_bad_trade
  no_bad_trade [] h = refl
  no_bad_trade (t ∷ ts) h =
      ground
        (arith, no_bad_trade ts h.1, eqb_of_eq ordered t.pnl_usd (t.proceeds_usd ⊖ t.cost_usd) h.0)

module _ {X D T : Type 0} ⦃d : Decimal D⦄ (exact : IsExact D) (ordered : IsOrdered D) where
  check_invariants_passes :
      (s : Engine X D T)
      → IsBalanced (ledger s)
      → AllEntries IsFunded s.positions
      → check_invariants s ≡ none
  unfolding check_invariants
  check_invariants_passes s h funded = rw (
    eqb_of_eq ordered s.equity (s.cfg.equity_usd ⊕ sum (pnls s.closed))
        (h.equity_total ∙ ap (◌⊕◌ s.cfg.equity_usd) (sym (sum-eq-total exact (pnls s.closed)))),
    eqb_of_eq ordered s.deployed_usd (sum (costs s.positions)) (
        h.deployed_total
        ∙ weigh-total cost_of s.positions
        ∙ sym (sum-eq-total exact (costs s.positions))),
    no_bad_position ordered s.positions funded,
    no_bad_trade ordered s.closed h.booked,
  )

module _ {X D T : Type 0} ⦃d : Decimal D⦄ ⦃c : Chrono T⦄ ⦃ex : Executor X D T⦄ where
  -- A new engine that has worked off any feed passes its own check: equity is the start plus the
  -- realised P&L, deployed capital is the cost of the open positions, every open position has a
  -- positive quantity and cost, and the P&L of every trade is its proceeds less its cost. Assumed
  -- are exact sums, the order of decimals, and an executor whose buys fill a positive quantity at
  -- a positive cost.
  pub check_invariants-run :
      (cfg : Config D) (exec : X) (audit : List (AuditRecord D T)) (now : T)
      (evs : List (Event D T))
      → IsExact D
      → IsOrdered D
      → Fills X D T IsPaid
      → check_invariants (run (new cfg exec audit now) evs) ≡ none
  check_invariants-run cfg exec audit now evs exact ordered fills =
      check_invariants_passes exact ordered _
        (run-IsBalanced exact (new cfg exec audit now) evs
          (new-IsBalanced exact cfg exec audit now))
        (run-AllEntries fills (IsFunded-IsKept exact) (new cfg exec audit now) evs
          (unfold new in tt))
