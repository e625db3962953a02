-- ===== src/Engine/Refines/Buying.antt =====
-- Launches only buy.
use mathlib.Core.Path.{subst, fun_ext}
use hfmcbot.Prelude.{
  arith, ◌≡◌, refl, sym, ap, Bool, List, [], ◌∷◌, Option, none, some, ℕ, suc, length, Bool-cases,
  if_ind, inl, inr, if◌then◌else◌,
}
use hfmcbot.Prelude.Map.{HashMap, lookup, insert}
use hfmcbot.Prelude.Map.Laws.{lookup-insert}
use hfmcbot.Prelude.Text.{Text, text_eq}
use hfmcbot.Platform.Decimal.{Decimal}
use hfmcbot.Platform.Chrono.{Chrono, after}
use hfmcbot.Engine.Entry.{
  or_opened, add_fill, apply_buy_fill, after_buy, order_slice, throttled_slice, send_slice,
  send_slices, send_funnel, enter, risk_checked, gated, on_launch,
}
use hfmcbot.Engine.Refines.{book, held}
use hfmcbot.Engine.Spec.{Book, Reaches, bought, buy, or_zero, with_fill}
use hfmcbot.Engine.State.{Engine}
use hfmcbot.Exec.{Executor, ExecError, Outcome, filled, failed}
use hfmcbot.Risk.{check_entry, check_order, Verdict, allowed, blocked}
use hfmcbot.Strategy.{Gate, pass, reject}
use hfmcbot.Types.{Fill, Launch, Launchpad, Position}

held-if :
    {D T : Type 0} (b : Bool) (p : Position D T) (o : Option (Position D T))
    → held (if b then some p else o) ≡ (if b then held (some p) else held o)
held-if b p o = ground arith

module _ {D T : Type 0} ⦃d : Decimal D⦄ where
  held-add_fill :
      (f : Fill D T) (launchpad : Launchpad) (liq : D) (o : Option (Position D T))
      → held (some (add_fill (or_opened o f launchpad liq) f liq))
        ≡ some (with_fill (or_zero (held o)) f)
  unfolding add_fill or_opened
  held-add_fill f launchpad liq none = refl
  held-add_fill f launchpad liq (some p) = refl

  holding-apply_buy_fill :
      (f : Fill D T) (launchpad : Launchpad) (liq : D) (m : HashMap (Position D T)) (k : Text)
      → held (
          lookup k (insert f.mint (add_fill (or_opened (lookup f.mint m) f launchpad liq) f liq) m))
        ≡ (if text_eq k f.mint
            then some (with_fill (or_zero (held (lookup f.mint m))) f)
            else held (lookup k m))
  holding-apply_buy_fill f launchpad liq m k =
      rw
        (
          lookup-insert f.mint k (add_fill (or_opened (lookup f.mint m) f launchpad liq) f liq) m,
          held-if,
          held-add_fill f launchpad liq (lookup f.mint m),
        )
        refl

module _ {X D T : Type 0} ⦃d : Decimal D⦄ ⦃c : Chrono T⦄ where
  book-apply_buy_fill :
      (s : Engine X D T) (f : Fill D T) (launchpad : Launchpad) (liq : D)
      → buy (book s) f ≡ book (apply_buy_fill s f launchpad liq)
  unfolding apply_buy_fill buy
  book-apply_buy_fill s f launchpad liq =
      ap (λ h. record (book s) { holding = h })
        (fun_ext (λ k. sym (holding-apply_buy_fill f launchpad liq s.positions k)))

module _ {X D T : Type 0} ⦃d : Decimal D⦄ ⦃c : Chrono T⦄ ⦃ex : Executor X D T⦄ (b : Book D T) where
  -- The engine's book is reached.
  abbrev pub Reached : Engine X D T → Type 0
  Reached s = Reaches b (book s)

  after_buy-Reached :
      (s : Engine X D T) (l : Launch D T) (slice : D) (order_id : Text) (outcome : Outcome D T)
      → Reached s
      → Reached (after_buy s l slice order_id outcome).0
  unfolding after_buy
  after_buy-Reached s l slice order_id (filled f) h =
      subst (Reaches b) (book-apply_buy_fill s f l.launchpad l.liquidity_usd) (bought (book s) f h)
  after_buy-Reached s l slice order_id (failed ExecError.transport) h = h
  after_buy-Reached s l slice order_id (failed e) h = h

  throttled_slice-Reached :
      (s : Engine X D T) (l : Launch D T) (deadline : T) (idx n : ℕ) (slice : D) (v : Verdict D)
      → Reached s
      → Reached (throttled_slice s l deadline idx n slice v).0
  unfolding throttled_slice order_slice
  throttled_slice-Reached s l deadline idx n slice allowed h = after_buy-Reached _ l slice _ _ h
  throttled_slice-Reached s l deadline idx n slice (blocked reason) h = h

  send_slice-Reached :
      (s : Engine X D T) (l : Launch D T) (deadline : T) (idx n : ℕ) (slice : D)
      → Reached s
      → Reached (send_slice s l deadline idx n slice).0
  unfolding send_slice
  send_slice-Reached s l deadline idx n slice h =
      if_ind (λ (r : Engine X D T × Bool). Reached r.0) (after l.created_at deadline) h
        (throttled_slice-Reached (record s { risk = (check_order s.risk l.created_at).0 }) l
          deadline idx n slice _ h)

  send_slices-Reached :
      (s : Engine X D T) (l : Launch D T) (deadline : T) (idx n : ℕ) (slices : List D)
      → Reached s
      → Reached (send_slices s l deadline idx n slices)
  unfolding send_slices
  send_slices-Reached s l deadline idx n [] h = h
  send_slices-Reached s l deadline idx n (slice ∷ slices) h =
      let s' = (send_slice s l deadline idx n slice).0 in
      let h' = send_slice-Reached s l deadline idx n slice h in
      elim (Bool-cases (send_slice s l deadline idx n slice).1) [
        | inl more ↦
            rw (more, send_slices) (send_slices-Reached s' l deadline (suc idx) n slices h')
        | inr stop ↦ rw (stop, send_slices) h'
      ]

  send_funnel-Reached :
      (s : Engine X D T) (l : Launch D T) (deadline : T) (split : Option (List D))
      → Reached s
      → Reached (send_funnel s l deadline split)
  unfolding send_funnel
  send_funnel-Reached s l deadline none h = h
  send_funnel-Reached s l deadline (some slices) h =
      send_slices-Reached s l deadline 1 (length slices) slices h

  risk_checked-Reached :
      (s : Engine X D T) (l : Launch D T) (v : Verdict D) → Reached s → Reached (risk_checked s l v)
  unfolding risk_checked enter
  risk_checked-Reached s l allowed h =
      if_ind (λ (t : Engine X D T). Reached t) _ h (send_funnel-Reached _ l _ _ h)
  risk_checked-Reached s l (blocked reason) h = h

  gated-Reached :
      (s : Engine X D T) (l : Launch D T) (g : Gate D) → Reached s → Reached (gated s l g)
  unfolding gated
  gated-Reached s l pass h =
      risk_checked-Reached (record s { risk = (check_entry s.risk l.created_at).0 }) l _ h
  gated-Reached s l (reject reason) h = h

  pub on_launch-Reached : (s : Engine X D T) (l : Launch D T) → Reached s → Reached (on_launch s l)
  unfolding on_launch
  on_launch-Reached s l h = if_ind (λ (t : Engine X D T). Reached t) _ h (gated-Reached s l _ h)
