-- ===== src/Engine/Refines/Selling.antt =====
-- Exits only sell what is held.
use mathlib.Core.Path.{subst, fun_ext}
use hfmcbot.Prelude.{
  ◌≡◌, ◌∙◌, refl, sym, ap, arith, Option, none, some, ℕ, suc, if_ind, if◌then◌else◌,
}
use hfmcbot.Prelude.Map.{HashMap, HasDistinctKeys, lookup, insert, remove}
use hfmcbot.Prelude.Map.Laws.{lookup-insert, lookup-remove_ne, lookup-remove_self}
use hfmcbot.Prelude.Text.{Text, text_eq, text_eq_iff}
use hfmcbot.Platform.Decimal.{Decimal, ◌⊖◌}
use hfmcbot.Platform.Chrono.{Chrono}
use hfmcbot.Config.{Config}
use hfmcbot.Engine.Balance.Exit.{IsCurrent}
use hfmcbot.Engine.Events.{seen}
use hfmcbot.Engine.Exit.{
  closed_trade, count_failure, newly_stuck, report_failure, exit_failed, exit_filled, after_sell,
  close_position,
}
use hfmcbot.Engine.Refines.{book, held}
use hfmcbot.Engine.Refines.Buying.{Reached}
use hfmcbot.Engine.Spec.{Book, Holding, Reaches, sold, sell}
use hfmcbot.Engine.State.{Engine, Exit}
use hfmcbot.Exec.{Executor, ExecError, Outcome, filled, failed}
use hfmcbot.Strategy.{on_price}
use hfmcbot.Types.{Fill, Position, PriceUpdate}

module _ {D T : Type 0} where
  -- what is held of each token
  abbrev holdings : HashMap (Position D T) → Text → Option (Holding D)
  holdings m k = held (lookup k m)

  -- a position that changes nothing of its holding changes nothing of the book
  pub holding-insert :
      (j : Text) (p p' : Position D T) (m : HashMap (Position D T))
      → lookup j m ≡ some p
      → held (some p) ≡ held (some p')
      → holdings m ≡ holdings (insert j p' m)
  holding-insert j p p' m found same =
      fun_ext (λ k. ground (arith, lookup-insert j k p' m, text_eq_iff k j))

  lookup-remove :
      (j k : Text) (m : HashMap (Position D T))
      → HasDistinctKeys m
      → lookup k (remove j m) ≡ (if text_eq k j then none else lookup k m)
  lookup-remove j k m distinct =
      ground (arith, text_eq_iff k j, lookup-remove_ne j k m, lookup-remove_self j m distinct)

  holding-remove :
      (j : Text) (m : HashMap (Position D T)) (k : Text)
      → HasDistinctKeys m
      → (if text_eq k j then none else held (lookup k m)) ≡ held (lookup k (remove j m))
  holding-remove j m k distinct = ground (arith, lookup-remove j k m distinct)

module _ {X D T : Type 0} ⦃d : Decimal D⦄ where
  book-report_failure :
      (s : Engine X D T) (e : Exit D T) (attempts : ℕ) (err : ExecError)
      → book s ≡ book (report_failure s e attempts err)
  unfolding report_failure
  book-report_failure s e attempts ExecError.transport = refl
  book-report_failure s e attempts err = refl

  -- a failed exit changes nothing of the book
  book-exit_failed :
      (s : Engine X D T) (e : Exit D T) (err : ExecError) (o : Option (Position D T))
      → lookup e.mint s.positions ≡ o
      → book s ≡ book (exit_failed s e err o)
  unfolding exit_failed count_failure
  book-exit_failed s e err none found = book-report_failure s e 0 err
  book-exit_failed s e err (some p) found =
      let p' = count_failure s.cfg.max_exit_attempts p in
      let same = holding-insert e.mint p p' s.positions found refl in
      ap (λ h. record (book s) { holding = h }) same
      ∙ if_ind
          (λ (t : Engine X D T).
            book (record s { positions = insert e.mint p' s.positions }) ≡ book t)
          (newly_stuck s.cfg.max_exit_attempts p) refl refl
      ∙ book-report_failure _ e (suc p.exit_attempts) err

module _ {X D T : Type 0} ⦃d : Decimal D⦄ ⦃c : Chrono T⦄ where
  book-exit_filled :
      (s : Engine X D T) (e : Exit D T) (order_id : Text) (f : Fill D T)
      → HasDistinctKeys s.positions
      → sell (book s) (closed_trade e f) ≡ book (exit_filled s e order_id f)
  unfolding exit_filled sell closed_trade
  book-exit_filled s e order_id f distinct =
      ap (λ h. record (book (exit_filled s e order_id f)) { holding = h })
        (fun_ext (λ k. holding-remove e.mint s.positions k distinct))

module _ {D T : Type 0} ⦃d : Decimal D⦄ ⦃c : Chrono T⦄ where
  -- a price update changes nothing of a holding
  pub held-on_price :
      (p : Position D T) (pu : PriceUpdate D T) (cfg : Config D)
      → held (some p) ≡ held (some (on_price (seen p pu) pu.price_usd pu.ts cfg).0)
  unfolding seen on_price
  held-on_price p pu cfg = ground arith

module _ {X D T : Type 0} ⦃d : Decimal D⦄ ⦃c : Chrono T⦄ ⦃ex : Executor X D T⦄ (b : Book D T) where
  exit_filled-Reached :
      (s : Engine X D T) (e : Exit D T) (order_id : Text) (f : Fill D T)
      → IsCurrent s.positions e
      → HasDistinctKeys s.positions
      → Reached b s
      → Reached b (exit_filled s e order_id f)
  unfolding closed_trade
  exit_filled-Reached s e order_id f (p, found, cost) distinct h =
      let profit = ap (λ (x : D). (closed_trade e f).proceeds_usd ⊖ x) (sym cost) in
      subst (Reaches b) (book-exit_filled s e order_id f distinct) (
        sold (book s) (record { amount = p.qty; cost = p.cost_usd }) (closed_trade e f)
          (ap held found) (record { same_cost = sym cost; is_profit = profit }) h)

  after_sell-Reached :
      (s : Engine X D T) (e : Exit D T) (order_id : Text) (o : Outcome D T)
      → IsCurrent s.positions e
      → HasDistinctKeys s.positions
      → Reached b s
      → Reached b (after_sell s e order_id o)
  unfolding after_sell
  after_sell-Reached s e order_id (filled f) now distinct h =
      exit_filled-Reached s e order_id f now distinct h
  after_sell-Reached s e order_id (failed err) now distinct h =
      subst (Reaches b) (book-exit_failed s e err (lookup e.mint s.positions) refl) h

  pub close_position-Reached :
      (s : Engine X D T) (e : Exit D T)
      → IsCurrent s.positions e
      → HasDistinctKeys s.positions
      → Reached b s
      → Reached b (close_position s e)
  unfolding close_position
  close_position-Reached s e now distinct h = after_sell-Reached _ e _ _ now distinct h
