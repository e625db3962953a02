-- ===== src/Engine/Balance/Entry.antt =====
-- Launches keep the money invariant.
use hfmcbot.Prelude.{
  ◌≡◌, refl, sym, ap, ◌∙◌, Bool, List, [], ◌∷◌, Option, none, some, ℕ, suc, length, Option-cases,
  Bool-cases, if_ind, inl, inr,
}
use hfmcbot.Prelude.Map.{HashMap, lookup, insert}
use hfmcbot.Prelude.Map.Laws.{
  AllEntries, insert-AllEntries, insert-HasDistinctKeys, lookup-AllEntries,
}
use hfmcbot.Prelude.Text.{Text}
use hfmcbot.Platform.Decimal.{Decimal, IsExact, ◌⊕◌}
use hfmcbot.Platform.Chrono.{Chrono, after}
use hfmcbot.Engine.Balance.{IsBalanced, ledger, IsKeyed, cost_of}
use hfmcbot.Engine.Entry.{
  or_opened, add_fill, apply_buy_fill, after_buy, order_slice, throttled_slice, send_slice,
  send_slices, send_funnel, enter, risk_checked, gated, on_launch,
}
use hfmcbot.Engine.State.{Engine}
use hfmcbot.Engine.Sums.{weigh, zero-add, add_cancel, weigh-insert_new, weigh-insert}
use hfmcbot.Exec.{Executor, ExecError, Outcome, filled, failed}
use hfmcbot.Risk.Frame.{open_positions-check_entry, open_positions-check_order}
use hfmcbot.Risk.{check_entry, check_order, Verdict, allowed, blocked}
use hfmcbot.Strategy.{Gate, pass, reject}
use hfmcbot.Types.{Fill, Launch, Launchpad, Position}

module _ {D T : Type 0} ⦃d : Decimal D⦄ (exact : IsExact D) where
  open exact use {add_assoc}

  -- a fill adds its cost to the cost of the book, into a new position or an old one
  weigh-apply_buy_fill :
      (f : Fill D T) (launchpad : Launchpad) (liq : D) (m : HashMap (Position D T))
      → weigh cost_of
          (insert f.mint (add_fill (or_opened (lookup f.mint m) f launchpad liq) f liq) m)
        ≡ weigh cost_of m ⊕ (f.notional_usd ⊕ f.fee_usd)
  unfolding or_opened add_fill
  weigh-apply_buy_fill f launchpad liq m = elim (Option-cases (lookup f.mint m)) [
    | inl new ↦ rw (new, weigh-insert_new exact cost_of f.mint _ m new, zero-add exact)
    | inr (p, old) ↦ rw old (
        add_cancel exact _ _ p.cost_usd (
          weigh-insert exact cost_of f.mint _ p m old
          ∙ ap (◌⊕◌ (weigh cost_of m)) (exact.add_comm _ _)
          ∙ sym (add_assoc _ _ _)))
  ]

module _ {D T : Type 0} ⦃d : Decimal D⦄ where
  mint-or_opened :
      (f : Fill D T) (launchpad : Launchpad) (liq : D) (m : HashMap (Position D T))
      → AllEntries IsKeyed m
      → (or_opened (lookup f.mint m) f launchpad liq).mint ≡ f.mint
  unfolding or_opened
  mint-or_opened f launchpad liq m keyed = elim (Option-cases (lookup f.mint m)) [
    | inl new ↦ rw new refl
    | inr (p, old) ↦ rw old (lookup-AllEntries IsKeyed f.mint p m old keyed)
  ]

module _ {X D T : Type 0} ⦃d : Decimal D⦄ ⦃c : Chrono T⦄ (exact : IsExact D) where
  pub apply_buy_fill-IsBalanced :
      (s : Engine X D T) (f : Fill D T) (launchpad : Launchpad) (liq : D)
      → IsBalanced (ledger s)
      → IsBalanced (ledger (apply_buy_fill s f launchpad liq))
  unfolding apply_buy_fill
  apply_buy_fill-IsBalanced s f launchpad liq h = record {
    equity_total = h.equity_total;
    deployed_total =
        ap (λ (t : D). t ⊕ (f.notional_usd ⊕ f.fee_usd)) h.deployed_total
        ∙ sym (weigh-apply_buy_fill exact f launchpad liq s.positions);
    booked = h.booked;
    keyed =
        insert-AllEntries IsKeyed f.mint _ s.positions
          (mint-or_opened f launchpad liq s.positions h.keyed) h.keyed;
    distinct = insert-HasDistinctKeys f.mint _ s.positions h.distinct;
    counted = refl;
  }

module _ {X D T : Type 0} ⦃d : Decimal D⦄ ⦃c : Chrono T⦄ ⦃ex : Executor X D T⦄
    (exact : IsExact D) where
  after_buy-IsBalanced :
      (s : Engine X D T) (l : Launch D T) (slice : D) (order_id : Text) (outcome : Outcome D T)
      → IsBalanced (ledger s)
      → IsBalanced (ledger (after_buy s l slice order_id outcome).0)
  unfolding after_buy
  after_buy-IsBalanced s l slice order_id (filled f) h =
      apply_buy_fill-IsBalanced exact s f l.launchpad l.liquidity_usd h
  after_buy-IsBalanced s l slice order_id (failed ExecError.transport) h = h
  after_buy-IsBalanced s l slice order_id (failed e) h = h

  order_slice-IsBalanced :
      (s : Engine X D T) (l : Launch D T) (deadline : T) (slice : D)
      → IsBalanced (ledger s)
      → IsBalanced (ledger (order_slice s l deadline slice).0)
  unfolding order_slice
  order_slice-IsBalanced s l deadline slice h = after_buy-IsBalanced _ l slice _ _ h

  throttled_slice-IsBalanced :
      (s : Engine X D T) (l : Launch D T) (deadline : T) (idx n : ℕ) (slice : D) (v : Verdict D)
      → IsBalanced (ledger s)
      → IsBalanced (ledger (throttled_slice s l deadline idx n slice v).0)
  unfolding throttled_slice
  throttled_slice-IsBalanced s l deadline idx n slice allowed h =
      order_slice-IsBalanced s l deadline slice h
  throttled_slice-IsBalanced s l deadline idx n slice (blocked reason) h = h

  send_slice-IsBalanced :
      (s : Engine X D T) (l : Launch D T) (deadline : T) (idx n : ℕ) (slice : D)
      → IsBalanced (ledger s)
      → IsBalanced (ledger (send_slice s l deadline idx n slice).0)
  unfolding send_slice
  send_slice-IsBalanced s l deadline idx n slice h =
      if_ind (λ (r : Engine X D T × Bool). IsBalanced (ledger r.0)) (after l.created_at deadline) h
        (throttled_slice-IsBalanced (record s { risk = (check_order s.risk l.created_at).0 }) l
          deadline idx n slice _ (rw (open_positions-check_order s.risk l.created_at) h))

  send_slices-IsBalanced :
      (s : Engine X D T) (l : Launch D T) (deadline : T) (idx n : ℕ) (slices : List D)
      → IsBalanced (ledger s)
      → IsBalanced (ledger (send_slices s l deadline idx n slices))
  unfolding send_slices
  send_slices-IsBalanced s l deadline idx n [] h = h
  send_slices-IsBalanced s l deadline idx n (slice ∷ slices) h =
      elim (Bool-cases (send_slice s l deadline idx n slice).1) [
        | inl more ↦
            rw (more, send_slices)
              (send_slices-IsBalanced (send_slice s l deadline idx n slice).0 l deadline (suc idx) n
                slices (send_slice-IsBalanced s l deadline idx n slice h))
        | inr stop ↦ rw (stop, send_slices) (send_slice-IsBalanced s l deadline idx n slice h)
      ]

  send_funnel-IsBalanced :
      (s : Engine X D T) (l : Launch D T) (deadline : T) (split : Option (List D))
      → IsBalanced (ledger s)
      → IsBalanced (ledger (send_funnel s l deadline split))
  unfolding send_funnel
  send_funnel-IsBalanced s l deadline none h = h
  send_funnel-IsBalanced s l deadline (some slices) h =
      send_slices-IsBalanced s l deadline 1 (length slices) slices h

  risk_checked-IsBalanced :
      (s : Engine X D T) (l : Launch D T) (v : Verdict D)
      → IsBalanced (ledger s)
      → IsBalanced (ledger (risk_checked s l v))
  unfolding risk_checked enter
  risk_checked-IsBalanced s l allowed h =
      if_ind (λ (t : Engine X D T). IsBalanced (ledger t)) _ h (send_funnel-IsBalanced _ l _ _ h)
  risk_checked-IsBalanced s l (blocked reason) h = h

  gated-IsBalanced :
      (s : Engine X D T) (l : Launch D T) (g : Gate D)
      → IsBalanced (ledger s)
      → IsBalanced (ledger (gated s l g))
  unfolding gated
  gated-IsBalanced s l pass h =
      risk_checked-IsBalanced (record s { risk = (check_entry s.risk l.created_at).0 }) l _
        (rw (open_positions-check_entry s.risk l.created_at) h)
  gated-IsBalanced s l (reject reason) h = h

  pub on_launch-IsBalanced :
      (s : Engine X D T) (l : Launch D T)
      → IsBalanced (ledger s)
      → IsBalanced (ledger (on_launch s l))
  unfolding on_launch
  on_launch-IsBalanced s l h =
      if_ind (λ (t : Engine X D T). IsBalanced (ledger t)) _ h (gated-IsBalanced s l _ h)
