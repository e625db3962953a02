-- ===== src/Engine/Balance/Run.antt =====
-- Every event keeps the money invariant, and so does every feed.
use hfmcbot.Prelude.{
  ◌≡◌, ◌≢◌, refl, sym, ap, ◌∙◌, List, [], ◌∷◌, Option, none, some, All, if_ind, arith,
}
use hfmcbot.Prelude.Map.{HashMap, lookup, insert, values, HasDistinctKeys}
use hfmcbot.Prelude.Map.Laws.{
  AllEntries, insert-AllEntries, insert-HasDistinctKeys, lookup-AllEntries, length-insert_old,
  lookup-insert_self,
}
use hfmcbot.Prelude.Text.{Text, text_eq_iff}
use hfmcbot.Platform.Decimal.{Decimal, IsExact, ◌⊕◌}
use hfmcbot.Platform.Chrono.{Chrono}
use hfmcbot.Config.{Config}
use hfmcbot.Engine.Balance.{IsBalanced, ledger, IsKeyed, cost_of}
use hfmcbot.Engine.Balance.Entry.{on_launch-IsBalanced}
use hfmcbot.Engine.Balance.Exit.{IsCurrent, close_position-IsBalanced, lookup-close_position_ne}
use hfmcbot.Engine.Events.{
  due_exit, push_exit, due_exits, close_all, sweep_time_stops, seen, exit_if, price_seen,
  on_price_update, handle, on_event, run,
}
use hfmcbot.Engine.Exit.{close_position, exit_of}
use hfmcbot.Engine.State.{Engine, Exit, new}
use hfmcbot.Engine.Sums.{add_cancel, weigh, weigh-insert}
use hfmcbot.Exec.{Executor}
use hfmcbot.Persist.{AuditRecord}
use hfmcbot.Strategy.{on_price}
use hfmcbot.Types.{Event, ExitReason, Position, PriceUpdate}

module _ {D T : Type 0} where
  -- Each exit is current, and no two are of one mint.
  abbrev pub AreCurrent : HashMap (Position D T) → List (Exit D T) → Type 0
  AreCurrent m [] = Unit
  AreCurrent m (e ∷ es) = IsCurrent m e × All (λ e'. e'.mint ≢ e.mint) es × AreCurrent m es

  pub AreCurrent-elsewhere :
      (m m' : HashMap (Position D T)) (gone : Text) (es : List (Exit D T))
      → ((k : Text) → k ≢ gone → lookup k m' ≡ lookup k m)
      → All (λ e. e.mint ≢ gone) es
      → AreCurrent m es
      → AreCurrent m' es
  AreCurrent-elsewhere m m' gone [] same off h = tt
  AreCurrent-elsewhere m m' gone (e ∷ es) same off ((p, found, cost), apart, rest) = (
    (p, same e.mint off.0 ∙ found, cost),
    apart,
    AreCurrent-elsewhere m m' gone es same off.1 rest,
  )

  AreCurrent-apart :
      (m : HashMap (Position D T)) (k : Text) (es : List (Exit D T))
      → lookup k m ≡ none
      → AreCurrent m es
      → All (λ e. e.mint ≢ k) es
  AreCurrent-apart m k [] absent h = tt
  AreCurrent-apart m k (e ∷ es) absent ((p, found, cost), apart, rest) =
      ((λ same. ground (arith, ap (λ j. lookup j m) same)), AreCurrent-apart m k es absent rest)

module _ {D T : Type 0} where
  lookup-cons_ne :
      (k j : Text) (p : Position D T) (m : HashMap (Position D T))
      → j ≢ k
      → lookup j ((k, p) ∷ m) ≡ lookup j m
  unfolding lookup
  lookup-cons_ne k j p m ne = ground (arith, text_eq_iff j k)

  lookup-cons_self :
      (k j : Text) (p : Position D T) (m : HashMap (Position D T))
      → j ≡ k
      → lookup j ((k, p) ∷ m) ≡ some p
  unfolding lookup
  lookup-cons_self k j p m same = ground (arith, text_eq_iff j k)

  -- exits of the rest of a map are current in the whole of it
  older :
      (k : Text) (p : Position D T) (m : HashMap (Position D T)) (es : List (Exit D T))
      → lookup k m ≡ none
      → AreCurrent m es
      → AreCurrent ((k, p) ∷ m) es
  older k p m es absent h =
      AreCurrent-elsewhere m ((k, p) ∷ m) k es (λ j. lookup-cons_ne k j p m)
        (AreCurrent-apart m k es absent h) h

module _ {D T : Type 0} ⦃d : Decimal D⦄ ⦃c : Chrono T⦄ where
  -- what the sweep collects is current, whatever the order of the map
  push_exit-AreCurrent :
      (k : Text) (p : Position D T) (m : HashMap (Position D T)) (now : T) (o : Option ExitReason)
      (es : List (Exit D T))
      → p.mint ≡ k
      → lookup k m ≡ none
      → AreCurrent m es
      → AreCurrent ((k, p) ∷ m) (push_exit o p now es)
  unfolding push_exit exit_of
  push_exit-AreCurrent k p m now none es key absent h = older k p m es absent h
  push_exit-AreCurrent k p m now (some reason) es key absent h = (
    (p, lookup-cons_self k p.mint p m key, refl),
    rw key (AreCurrent-apart m k es absent h),
    older k p m es absent h,
  )

  pub due_exits-AreCurrent :
      (cfg : Config D) (now : T) (m : HashMap (Position D T))
      → AllEntries IsKeyed m
      → HasDistinctKeys m
      → AreCurrent m (due_exits cfg now (values m))
  unfolding due_exits
  due_exits-AreCurrent cfg now [] keyed distinct = tt
  due_exits-AreCurrent cfg now ((k, p) ∷ m) keyed distinct =
      push_exit-AreCurrent k p m now (due_exit cfg now p) _ keyed.0 distinct.0
        (due_exits-AreCurrent cfg now m keyed.1 distinct.1)

module _ {D T : Type 0} ⦃d : Decimal D⦄ ⦃c : Chrono T⦄ where
  -- a price update changes neither the mint nor the cost of a position
  pub cost-on_price :
      (p : Position D T) (pu : PriceUpdate D T) (cfg : Config D)
      → let p' = (on_price (seen p pu) pu.price_usd pu.ts cfg).0 in
        (p'.mint ≡ p.mint) × (p'.cost_usd ≡ p.cost_usd)
  unfolding seen on_price
  cost-on_price p pu cfg = ground arith

module _ {X D T : Type 0} ⦃d : Decimal D⦄ ⦃c : Chrono T⦄ ⦃ex : Executor X D T⦄
    (exact : IsExact D) where
  close_all-IsBalanced :
      (s : Engine X D T) (es : List (Exit D T))
      → AreCurrent s.positions es
      → IsBalanced (ledger s)
      → IsBalanced (ledger (close_all s es))
  unfolding close_all
  close_all-IsBalanced s [] now h = h
  close_all-IsBalanced s (e ∷ es) (now, apart, rest) h =
      close_all-IsBalanced (close_position s e) es
        (AreCurrent-elsewhere s.positions (close_position s e).positions e.mint es
          (λ k. lookup-close_position_ne s e k) apart rest)
        (close_position-IsBalanced exact s e now h)

  sweep_time_stops-IsBalanced :
      (s : Engine X D T) (now : T)
      → IsBalanced (ledger s)
      → IsBalanced (ledger (sweep_time_stops s now))
  unfolding sweep_time_stops
  sweep_time_stops-IsBalanced s now h =
      close_all-IsBalanced s _ (due_exits-AreCurrent s.cfg now s.positions h.keyed h.distinct) h

  exit_if-IsBalanced :
      (s : Engine X D T) (pu : PriceUpdate D T) (p : Position D T) (o : Option ExitReason)
      → lookup p.mint s.positions ≡ some p
      → IsBalanced (ledger s)
      → IsBalanced (ledger (exit_if s pu p o))
  unfolding exit_if exit_of
  exit_if-IsBalanced s pu p none found h = h
  exit_if-IsBalanced s pu p (some reason) found h =
      close_position-IsBalanced exact s _ (p, found, refl) h

  -- the book with a position replaced by one of the same mint and cost
  pub updated-IsBalanced :
      (s : Engine X D T) (k : Text) (p p' : Position D T)
      → lookup k s.positions ≡ some p
      → p'.mint ≡ p.mint
      → p'.cost_usd ≡ p.cost_usd
      → IsBalanced (ledger s)
      → IsBalanced (ledger (record s { positions = insert k p' s.positions }))
  updated-IsBalanced s k p p' found mint cost h = record {
    equity_total = h.equity_total;
    deployed_total =
        h.deployed_total
        ∙ sym (
            add_cancel exact _ _ p.cost_usd (
              weigh-insert exact cost_of k p' p s.positions found
              ∙ ap (◌⊕◌ (weigh cost_of s.positions)) cost));
    booked = h.booked;
    keyed =
        insert-AllEntries IsKeyed k p' s.positions
          (mint ∙ lookup-AllEntries IsKeyed k p s.positions found h.keyed) h.keyed;
    distinct = insert-HasDistinctKeys k p' s.positions h.distinct;
    counted = h.counted ∙ sym (length-insert_old k p' p s.positions found);
  }

  price_seen-IsBalanced :
      (s : Engine X D T) (pu : PriceUpdate D T) (o : Option (Position D T))
      → lookup pu.mint s.positions ≡ o
      → IsBalanced (ledger s)
      → IsBalanced (ledger (price_seen s pu o))
  unfolding price_seen
  price_seen-IsBalanced s pu none found h = h
  price_seen-IsBalanced s pu (some p) found h =
      let (mint, cost) = cost-on_price p pu s.cfg in
      let p' = (on_price (seen p pu) pu.price_usd pu.ts s.cfg).0 in
      let key : p'.mint ≡ pu.mint =
        mint ∙ lookup-AllEntries IsKeyed pu.mint p s.positions found h.keyed in
      exit_if-IsBalanced (record s { positions = insert pu.mint p' s.positions }) pu p' _
        (rw key (lookup-insert_self pu.mint p' s.positions))
        (updated-IsBalanced s pu.mint p p' found mint cost h)

  pub handle-IsBalanced :
      (s : Engine X D T) (ev : Event D T)
      → IsBalanced (ledger s)
      → IsBalanced (ledger (handle s ev))
  unfolding handle on_price_update
  handle-IsBalanced s (Event.launch l) h = on_launch-IsBalanced exact s l h
  handle-IsBalanced s (Event.price p) h =
      price_seen-IsBalanced s p (lookup p.mint s.positions) refl h

  pub new-IsBalanced :
      (cfg : Config D) (exec : X) (audit : List (AuditRecord D T)) (now : T)
      → IsBalanced (ledger (new cfg exec audit now))
  unfolding new
  new-IsBalanced cfg exec audit now = record {
    equity_total = sym (exact.add-zero cfg.equity_usd);
    deployed_total = refl;
    booked = tt;
    keyed = tt;
    distinct = tt;
    counted = refl;
  }

  -- Where sums are exact, every event keeps the money invariant, whatever the executor answers:
  -- equity is the start plus the realised P&L, deployed capital is the cost of the open positions,
  -- each trade's P&L is its proceeds less its cost, each position stands once and under its own
  -- mint, and the risk engine counts the open positions.
  pub on_event-IsBalanced :
      (s : Engine X D T) (ev : Event D T)
      → IsBalanced (ledger s)
      → IsBalanced (ledger (on_event s ev))
  unfolding on_event
  on_event-IsBalanced s ev h =
      let swept = sweep_time_stops-IsBalanced _ _ (handle-IsBalanced s ev h) in
      if_ind (λ (t : Engine X D T). IsBalanced (ledger t)) _ swept swept

  pub run-IsBalanced :
      (s : Engine X D T) (evs : List (Event D T))
      → IsBalanced (ledger s)
      → IsBalanced (ledger (run s evs))
  unfolding run
  run-IsBalanced s [] h = h
  run-IsBalanced s (ev ∷ evs) h = run-IsBalanced (on_event s ev) evs (on_event-IsBalanced s ev h)
