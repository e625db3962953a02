-- ===== src/Engine/Entries.antt =====
-- What holds of every position of the book, along a whole feed (src/engine.rs): a property that
-- each fill, tick and failed exit keeps holds of every position at all times. The executor
-- enters as a contract on the fills of its buys.
use hfmcbot.Prelude.{
  ◌≡◌, refl, Bool, List, [], ◌∷◌, Option, none, some, ℕ, suc, length, if_ind, Bool-cases, inl, inr,
}
use hfmcbot.Prelude.Map.{HashMap, lookup, insert, values}
use hfmcbot.Prelude.Map.Laws.{AllEntries, insert-AllEntries, lookup-AllEntries, remove-AllEntries}
use hfmcbot.Prelude.Text.{Text}
use hfmcbot.Platform.Decimal.{Decimal}
use hfmcbot.Platform.Chrono.{Chrono, after}
use hfmcbot.Config.{Config}
use hfmcbot.Engine.Balance.Exit.{positions-exit_failed}
use hfmcbot.Engine.Entry.{
  or_opened, add_fill, after_buy, throttled_slice, send_slice, send_slices, send_funnel, enter,
  risk_checked, gated, on_launch,
}
use hfmcbot.Engine.Events.{
  due_exits, close_all, sweep_time_stops, seen, exit_if, price_seen, on_price_update, handle,
  on_event, run,
}
use hfmcbot.Engine.Exit.{count_failure, exit_failed, exit_filled, after_sell, close_position}
use hfmcbot.Engine.State.{Engine, Exit}
use hfmcbot.Exec.{Executor, Fills, ExecError, Outcome, filled, failed}
use hfmcbot.Risk.{check_entry, check_order, Verdict, allowed, blocked}
use hfmcbot.Strategy.{Gate, pass, reject, on_price}
use hfmcbot.Types.{Event, event_ts, ExitReason, Fill, Launch, Launchpad, Position, PriceUpdate}

module _ {D T : Type 0} ⦃d : Decimal D⦄ ⦃c : Chrono T⦄ where
  -- The property is kept by whatever happens to a position: a fill, of which `F` is known, into
  -- no position or one that has the property, a tick, and a failed exit.
  pub record IsKept (F : Text → Fill D T → Type 0) (P : Text → Position D T → Type 0) : Type 0 where
    pub at_open :
        (mint : Text) (f : Fill D T) (launchpad : Launchpad) (liq : D)
        → F mint f
        → P f.mint (add_fill (or_opened none f launchpad liq) f liq)
    pub at_fill :
        (mint : Text) (f : Fill D T) (p : Position D T) (liq : D)
        → F mint f
        → P f.mint p
        → P f.mint (add_fill p f liq)
    pub at_tick :
        (k : Text) (p : Position D T) (pu : PriceUpdate D T) (cfg : Config D)
        → P k p
        → P k (on_price (seen p pu) pu.price_usd pu.ts cfg).0
    pub at_failure : (k : Text) (p : Position D T) (limit : ℕ) → P k p → P k (count_failure limit p)

-- The property at every entry of the map.
record Throughout {D T : Type 0} (P : Text → Position D T → Type 0) (m : HashMap (Position D T))
    : Type 0 where
  entries : AllEntries P m

module _ {X D T : Type 0} ⦃d : Decimal D⦄ ⦃c : Chrono T⦄ ⦃ex : Executor X D T⦄
    {F : Text → Fill D T → Type 0} {P : Text → Position D T → Type 0} (fills : Fills X D T F)
    (kept : IsKept F P) where
  abbrev Holds : Engine X D T → Type 0
  Holds s = Throughout P s.positions

  put :
      (k : Text) (p : Position D T) (m : HashMap (Position D T))
      → P k p
      → Throughout P m
      → Throughout P (insert k p m)
  put k p m good h = record { entries = insert-AllEntries P k p m good h.entries }

  found :
      (k : Text) (p : Position D T) (m : HashMap (Position D T))
      → lookup k m ≡ some p
      → Throughout P m
      → P k p
  found k p m e h = lookup-AllEntries P k p m e h.entries

  -- launches
  filled-Holds :
      (s : Engine X D T) (mint : Text) (f : Fill D T) (launchpad : Launchpad) (liq : D)
      (o : Option (Position D T))
      → lookup f.mint s.positions ≡ o
      → F mint f
      → Holds s
      → Throughout P (insert f.mint (add_fill (or_opened o f launchpad liq) f liq) s.positions)
  filled-Holds s mint f launchpad liq none e good h =
      put f.mint _ s.positions (kept.at_open mint f launchpad liq good) h
  filled-Holds s mint f launchpad liq (some p) e good h =
      put f.mint _ s.positions
        (unfold or_opened in kept.at_fill mint f p liq good (found f.mint p s.positions e h)) h

  after_buy-Holds :
      (s : Engine X D T) (l : Launch D T) (slice : D) (order_id : Text) (o : Outcome D T)
      → ((f : Fill D T) → o ≡ filled f → F l.mint f)
      → Holds s
      → Holds (after_buy s l slice order_id o).0
  unfolding after_buy
  after_buy-Holds s l slice order_id (filled f) good h =
      filled-Holds s l.mint f l.launchpad l.liquidity_usd _ refl (good f refl) h
  after_buy-Holds s l slice order_id (failed ExecError.transport) good h = h
  after_buy-Holds s l slice order_id (failed e) good h = h

  throttled_slice-Holds :
      (s : Engine X D T) (l : Launch D T) (deadline : T) (idx n : ℕ) (slice : D) (v : Verdict D)
      → Holds s
      → Holds (throttled_slice s l deadline idx n slice v).0
  unfolding throttled_slice
  throttled_slice-Holds s l deadline idx n slice allowed h =
      after_buy-Holds _ l slice _ _
        (λ f e.
          fills.of_buy s.exec l.mint slice l.price_usd l.liquidity_usd l.created_at deadline _ f e)
        h
  throttled_slice-Holds s l deadline idx n slice (blocked reason) h = h

  send_slice-Holds :
      (s : Engine X D T) (l : Launch D T) (deadline : T) (idx n : ℕ) (slice : D)
      → Holds s
      → Holds (send_slice s l deadline idx n slice).0
  unfolding send_slice
  send_slice-Holds s l deadline idx n slice h =
      if_ind (λ (r : Engine X D T × Bool). Holds r.0) (after l.created_at deadline) h
        (throttled_slice-Holds (record s { risk = (check_order s.risk l.created_at).0 }) l deadline
          idx n slice (check_order s.risk l.created_at).1 h)

  send_slices-Holds :
      (s : Engine X D T) (l : Launch D T) (deadline : T) (idx n : ℕ) (slices : List D)
      → Holds s
      → Holds (send_slices s l deadline idx n slices)
  unfolding send_slices
  send_slices-Holds s l deadline idx n [] h = h
  send_slices-Holds s l deadline idx n (slice ∷ slices) h =
      elim (Bool-cases (send_slice s l deadline idx n slice).1) [
        | inl more ↦
            rw (more, send_slices)
              (send_slices-Holds (send_slice s l deadline idx n slice).0 l deadline (suc idx) n
                slices (send_slice-Holds s l deadline idx n slice h))
        | inr stop ↦ rw (stop, send_slices) (send_slice-Holds s l deadline idx n slice h)
      ]

  send_funnel-Holds :
      (s : Engine X D T) (l : Launch D T) (deadline : T) (split : Option (List D))
      → Holds s
      → Holds (send_funnel s l deadline split)
  unfolding send_funnel
  send_funnel-Holds s l deadline none h = h
  send_funnel-Holds s l deadline (some slices) h =
      send_slices-Holds s l deadline 1 (length slices) slices h

  risk_checked-Holds :
      (s : Engine X D T) (l : Launch D T) (v : Verdict D) → Holds s → Holds (risk_checked s l v)
  unfolding risk_checked enter
  risk_checked-Holds s l allowed h =
      if_ind (λ (t : Engine X D T). Holds t) _ h (send_funnel-Holds _ l _ _ h)
  risk_checked-Holds s l (blocked reason) h = h

  gated-Holds : (s : Engine X D T) (l : Launch D T) (g : Gate D) → Holds s → Holds (gated s l g)
  unfolding gated
  gated-Holds s l pass h =
      risk_checked-Holds (record s { risk = (check_entry s.risk l.created_at).0 }) l
        (check_entry s.risk l.created_at).1 h
  gated-Holds s l (reject reason) h = h

  on_launch-Holds : (s : Engine X D T) (l : Launch D T) → Holds s → Holds (on_launch s l)
  unfolding on_launch
  on_launch-Holds s l h = if_ind (λ (t : Engine X D T). Holds t) _ h (gated-Holds s l _ h)

  -- exits
  exit_failed-Holds :
      (s : Engine X D T) (e : Exit D T) (err : ExecError) (o : Option (Position D T))
      → lookup e.mint s.positions ≡ o
      → Holds s
      → Holds (exit_failed s e err o)
  exit_failed-Holds s e ExecError.transport none e' h = unfold exit_failed in h
  exit_failed-Holds s e err none e' h = unfold exit_failed in h
  exit_failed-Holds s e err (some p) e' h = rw (positions-exit_failed s e err p) (
      put e.mint _ s.positions
        (kept.at_failure e.mint p s.cfg.max_exit_attempts (found e.mint p s.positions e' h)) h)

  after_sell-Holds :
      (s : Engine X D T) (e : Exit D T) (order_id : Text) (o : Outcome D T)
      → Holds s
      → Holds (after_sell s e order_id o)
  unfolding after_sell exit_filled
  after_sell-Holds s e order_id (filled f) h = record {
    entries = remove-AllEntries P e.mint s.positions h.entries;
  }
  after_sell-Holds s e order_id (failed err) h = exit_failed-Holds s e err _ refl h

  close_position-Holds : (s : Engine X D T) (e : Exit D T) → Holds s → Holds (close_position s e)
  unfolding close_position
  close_position-Holds s e h = after_sell-Holds _ e _ _ h

  close_all-Holds : (s : Engine X D T) (es : List (Exit D T)) → Holds s → Holds (close_all s es)
  unfolding close_all
  close_all-Holds s [] h = h
  close_all-Holds s (e ∷ es) h =
      close_all-Holds (close_position s e) es (close_position-Holds s e h)

  exit_if-Holds :
      (s : Engine X D T) (pu : PriceUpdate D T) (p : Position D T) (o : Option ExitReason)
      → Holds s
      → Holds (exit_if s pu p o)
  unfolding exit_if
  exit_if-Holds s pu p none h = h
  exit_if-Holds s pu p (some reason) h = close_position-Holds s _ h

  price_seen-Holds :
      (s : Engine X D T) (pu : PriceUpdate D T) (o : Option (Position D T))
      → lookup pu.mint s.positions ≡ o
      → Holds s
      → Holds (price_seen s pu o)
  unfolding price_seen
  price_seen-Holds s pu none e h = h
  price_seen-Holds s pu (some p) e h =
      let p' = (on_price (seen p pu) pu.price_usd pu.ts s.cfg).0 in
      exit_if-Holds (record s { positions = insert pu.mint p' s.positions }) pu p' _
        (put pu.mint p' s.positions
          (kept.at_tick pu.mint p pu s.cfg (found pu.mint p s.positions e h)) h)

  handle-Holds : (s : Engine X D T) (ev : Event D T) → Holds s → Holds (handle s ev)
  unfolding handle on_price_update
  handle-Holds s (Event.launch l) h = on_launch-Holds s l h
  handle-Holds s (Event.price p) h = price_seen-Holds s p _ refl h

  sweep_time_stops-Holds : (s : Engine X D T) (now : T) → Holds s → Holds (sweep_time_stops s now)
  unfolding sweep_time_stops
  sweep_time_stops-Holds s now h = close_all-Holds s (due_exits s.cfg now (values s.positions)) h

  on_event-Holds : (s : Engine X D T) (ev : Event D T) → Holds s → Holds (on_event s ev)
  unfolding on_event
  on_event-Holds s ev h =
      let swept = sweep_time_stops-Holds _ (event_ts ev) (handle-Holds s ev h) in
      if_ind (λ (t : Engine X D T). Holds t) _ swept swept

  run-Holds : (s : Engine X D T) (evs : List (Event D T)) → Holds s → Holds (run s evs)
  unfolding run
  run-Holds s [] h = h
  run-Holds s (ev ∷ evs) h = run-Holds (on_event s ev) evs (on_event-Holds s ev h)

  pub run-AllEntries :
      (s : Engine X D T) (evs : List (Event D T))
      → AllEntries P s.positions
      → AllEntries P (run s evs).positions
  run-AllEntries s evs h = (run-Holds s evs (record { entries = h })).entries
