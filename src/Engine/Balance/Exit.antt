-- ===== src/Engine/Balance/Exit.antt =====
-- Closing a position keeps the money invariant.
use hfmcbot.Prelude.{
  ◌≡◌, ◌≢◌, refl, sym, ap, ◌∙◌, List, [], ◌∷◌, ◌++◌, Option, none, some, ℕ, suc, All-append, if_ind,
}
use mathlib.Core.List.{map-append}
use hfmcbot.Prelude.Map.{HashMap, lookup, insert}
use hfmcbot.Prelude.Map.Laws.{
  insert-AllEntries, insert-HasDistinctKeys, lookup-AllEntries, remove-AllEntries,
  remove-HasDistinctKeys, length-insert_old, lookup-insert_ne, lookup-remove_ne,
}
use hfmcbot.Prelude.Text.{Text}
use hfmcbot.Platform.Decimal.{Decimal, IsExact, ◌⊕◌}
use hfmcbot.Platform.Chrono.{Chrono}
use hfmcbot.Engine.Balance.{IsBalanced, IsBooked, ledger, IsKeyed, cost_of}
use hfmcbot.Engine.Book.{pnls}
use hfmcbot.Engine.Exit.{
  closed_trade, count_failure, newly_stuck, report_failure, exit_failed, exit_filled, after_sell,
  close_position,
}
use hfmcbot.Engine.State.{Engine, Exit}
use hfmcbot.Engine.Sums.{add_cancel, eq-sub_of_add, total, total-append, weigh-insert, weigh-remove}
use hfmcbot.Exec.{Executor, ExecError, Outcome, filled, failed}
use hfmcbot.Risk.{set_open_positions}
use hfmcbot.Types.{Fill, Position, ClosedTrade}

-- The exit speaks of a position that the map holds, at its cost.
abbrev pub IsCurrent : {D T : Type 0} → HashMap (Position D T) → Exit D T → Type 0
IsCurrent {D} {T} m e = (p : Position D T) × (lookup e.mint m ≡ some p) × (p.cost_usd ≡ e.cost)

module _ {D T : Type 0} ⦃d : Decimal D⦄ (exact : IsExact D) where
  total-pnls-append :
      (start equity : D) (closed : List (ClosedTrade D T)) (t : ClosedTrade D T)
      → equity ≡ start ⊕ total (pnls closed)
      → equity ⊕ t.pnl_usd ≡ start ⊕ total (pnls (closed ++ t ∷ []))
  total-pnls-append start equity closed t e =
      ap (λ (x : D). x ⊕ t.pnl_usd) e
      ∙ exact.add_assoc start (total (pnls closed)) t.pnl_usd
      ∙ ap (◌⊕◌ start) (sym (total-append exact (pnls closed) t.pnl_usd))
      ∙ ap (λ xs. start ⊕ total xs) (sym (map-append _ closed (t ∷ [])))

module _ {X D T : Type 0} ⦃d : Decimal D⦄ where
  positions-report_failure :
      (s : Engine X D T) (e : Exit D T) (attempts : ℕ) (err : ExecError)
      → (report_failure s e attempts err).positions ≡ s.positions
  unfolding report_failure
  positions-report_failure s e attempts ExecError.transport = refl
  positions-report_failure s e attempts err = refl

  pub positions-exit_failed :
      (s : Engine X D T) (e : Exit D T) (err : ExecError) (p : Position D T)
      → (exit_failed s e err (some p)).positions
        ≡ insert e.mint (count_failure s.cfg.max_exit_attempts p) s.positions
  unfolding exit_failed
  positions-exit_failed s e err p =
      positions-report_failure _ e (suc p.exit_attempts) err
      ∙ if_ind
          (λ (t : Engine X D T).
            t.positions ≡ insert e.mint (count_failure s.cfg.max_exit_attempts p) s.positions)
          (newly_stuck s.cfg.max_exit_attempts p) refl refl

  lookup-exit_failed_ne :
      (s : Engine X D T) (e : Exit D T) (err : ExecError) (o : Option (Position D T)) (k : Text)
      → k ≢ e.mint
      → lookup k (exit_failed s e err o).positions ≡ lookup k s.positions
  lookup-exit_failed_ne s e err none k ne =
      ap (lookup k) (unfold exit_failed in positions-report_failure s e 0 err)
  lookup-exit_failed_ne s e err (some p) k ne =
      ap (lookup k) (positions-exit_failed s e err p)
      ∙ lookup-insert_ne e.mint k (count_failure s.cfg.max_exit_attempts p) s.positions ne

module _ {X D T : Type 0} ⦃d : Decimal D⦄ where
  report_failure-IsBalanced :
      (s : Engine X D T) (e : Exit D T) (attempts : ℕ) (err : ExecError)
      → IsBalanced (ledger s)
      → IsBalanced (ledger (report_failure s e attempts err))
  unfolding report_failure
  report_failure-IsBalanced s e attempts ExecError.transport h = h
  report_failure-IsBalanced s e attempts err h = h

module _ {X D T : Type 0} ⦃d : Decimal D⦄ (exact : IsExact D) where
  exit_failed-IsBalanced :
      (s : Engine X D T) (e : Exit D T) (err : ExecError) (o : Option (Position D T))
      → lookup e.mint s.positions ≡ o
      → IsBalanced (ledger s)
      → IsBalanced (ledger (exit_failed s e err o))
  unfolding exit_failed
  exit_failed-IsBalanced s e err none found h = report_failure-IsBalanced s e 0 err h
  exit_failed-IsBalanced s e err (some p) found h =
      report_failure-IsBalanced _ e (suc p.exit_attempts) err (
        if_ind (λ (t : Engine X D T). IsBalanced (ledger t)) (newly_stuck s.cfg.max_exit_attempts p)
          counted counted)
    where
      p' : Position D T
      p' = count_failure s.cfg.max_exit_attempts p

      counted : IsBalanced (ledger (record s { positions = insert e.mint p' s.positions }))
      counted = record {
        equity_total = h.equity_total;
        deployed_total =
            h.deployed_total
            ∙ sym (
                add_cancel exact _ _ p.cost_usd
                  (weigh-insert exact cost_of e.mint p' p s.positions found));
        booked = h.booked;
        keyed =
            insert-AllEntries IsKeyed e.mint p' s.positions
              (lookup-AllEntries IsKeyed e.mint p s.positions found h.keyed) h.keyed;
        distinct = insert-HasDistinctKeys e.mint p' s.positions h.distinct;
        counted = h.counted ∙ sym (length-insert_old e.mint p' p s.positions found);
      }

module _ {X D T : Type 0} ⦃d : Decimal D⦄ ⦃c : Chrono T⦄ (exact : IsExact D) where
  exit_filled-IsBalanced :
      (s : Engine X D T) (e : Exit D T) (order_id : Text) (f : Fill D T)
      → IsCurrent s.positions e
      → IsBalanced (ledger s)
      → IsBalanced (ledger (exit_filled s e order_id f))
  unfolding exit_filled set_open_positions
  exit_filled-IsBalanced s e order_id f (p, found, same) h = record {
    equity_total =
        total-pnls-append exact s.cfg.equity_usd s.equity s.closed (closed_trade e f)
          h.equity_total;
    deployed_total = sym (
        eq-sub_of_add exact _ _ e.cost (
          ap (◌⊕◌ _) (sym same)
          ∙ weigh-remove exact cost_of e.mint p s.positions found
          ∙ sym h.deployed_total));
    booked = All-append IsBooked s.closed _ h.booked (refl, tt);
    keyed = remove-AllEntries IsKeyed e.mint s.positions h.keyed;
    distinct = remove-HasDistinctKeys e.mint s.positions h.distinct;
    counted = refl;
  }

  after_sell-IsBalanced :
      (s : Engine X D T) (e : Exit D T) (order_id : Text) (o : Outcome D T)
      → IsCurrent s.positions e
      → IsBalanced (ledger s)
      → IsBalanced (ledger (after_sell s e order_id o))
  unfolding after_sell
  after_sell-IsBalanced s e order_id (filled f) now h = exit_filled-IsBalanced s e order_id f now h
  after_sell-IsBalanced s e order_id (failed err) now h =
      exit_failed-IsBalanced exact s e err (lookup e.mint s.positions) refl h

module _ {X D T : Type 0} ⦃d : Decimal D⦄ ⦃c : Chrono T⦄ ⦃ex : Executor X D T⦄ where
  pub close_position-IsBalanced :
      (exact : IsExact D) (s : Engine X D T) (e : Exit D T)
      → IsCurrent s.positions e
      → IsBalanced (ledger s)
      → IsBalanced (ledger (close_position s e))
  unfolding close_position
  close_position-IsBalanced exact s e now h = after_sell-IsBalanced exact _ e _ _ now h

  lookup-after_sell_ne :
      (s : Engine X D T) (e : Exit D T) (order_id : Text) (o : Outcome D T) (k : Text)
      → k ≢ e.mint
      → lookup k (after_sell s e order_id o).positions ≡ lookup k s.positions
  unfolding after_sell exit_filled
  lookup-after_sell_ne s e order_id (filled f) k ne = lookup-remove_ne e.mint k s.positions ne
  lookup-after_sell_ne s e order_id (failed err) k ne =
      lookup-exit_failed_ne s e err (lookup e.mint s.positions) k ne

  -- Closing a position touches no other.
  pub lookup-close_position_ne :
      (s : Engine X D T) (e : Exit D T) (k : Text)
      → k ≢ e.mint
      → lookup k (close_position s e).positions ≡ lookup k s.positions
  unfolding close_position
  lookup-close_position_ne s e k ne = lookup-after_sell_ne _ e _ _ k ne
