-- ===== src/Engine/Events.antt =====
-- Events (src/engine.rs): price updates, the sweep of the time stops, and `on_event`.
use hfmcbot.Prelude.{◌&&◌, not, List, [], ◌∷◌, Option, none, some, if◌then◌else◌}
use hfmcbot.Prelude.Map.{lookup, insert, values}
use hfmcbot.Platform.Decimal.{Decimal}
use hfmcbot.Platform.Chrono.{Chrono}
use hfmcbot.Config.{Config}
use hfmcbot.Engine.Entry.{on_launch}
use hfmcbot.Engine.Exit.{exit_of, close_position}
use hfmcbot.Engine.State.{Engine, Alert, Exit, alert}
use hfmcbot.Exec.{Executor}
use hfmcbot.Risk.{kill_switch_on}
use hfmcbot.Strategy.{on_price, on_time}
use hfmcbot.Types.{PriceUpdate, Event, event_ts, Position, ExitReason}

module _ {D T : Type 0} ⦃d : Decimal D⦄ ⦃c : Chrono T⦄ where
  -- one round of the first loop of `sweep_time_stops`
  unfoldable pub due_exit : Config D → T → Position D T → Option ExitReason
  unfolding on_time
  due_exit cfg now pos = if pos.stuck then none else on_time pos now cfg

  unfoldable pub push_exit :
      Option ExitReason → Position D T → T → List (Exit D T) → List (Exit D T)
  push_exit none pos now exits = exits
  push_exit (some reason) pos now exits =
      exit_of pos pos.last_price pos.last_liquidity_usd now reason ∷ exits

  -- the exits that `sweep_time_stops` collects
  unfoldable pub due_exits : Config D → T → List (Position D T) → List (Exit D T)
  unfolding due_exit push_exit exit_of
  due_exits cfg now [] = []
  due_exits cfg now (pos ∷ book) = push_exit (due_exit cfg now pos) pos now (due_exits cfg now book)

  -- the position with what an update says of its market
  unfoldable pub seen : Position D T → PriceUpdate D T → Position D T
  seen pos pu = record pos { last_price = pu.price_usd; last_liquidity_usd = pu.liquidity_usd }

module _ {X D T : Type 0} ⦃d : Decimal D⦄ ⦃c : Chrono T⦄ ⦃ex : Executor X D T⦄ where
  unfoldable pub close_all : Engine X D T → List (Exit D T) → Engine X D T
  unfolding close_position
  close_all s [] = s
  close_all s (e ∷ exits) = close_all (close_position s e) exits

  unfoldable pub sweep_time_stops : Engine X D T → T → Engine X D T
  unfolding close_all due_exits
  sweep_time_stops s now = close_all s (due_exits s.cfg now (values s.positions))

  -- the match on the decision of `on_price`
  unfoldable pub exit_if :
      Engine X D T → PriceUpdate D T → Position D T → Option ExitReason → Engine X D T
  unfolding close_position exit_of
  exit_if s pu pos none = s
  exit_if s pu pos (some reason) =
      close_position s (exit_of pos pu.price_usd pu.liquidity_usd pu.ts reason)

  -- `on_price_update` on the position found under the mint
  unfoldable pub price_seen : Engine X D T → PriceUpdate D T → Option (Position D T) → Engine X D T
  unfolding exit_if seen on_price
  price_seen s pu none = s
  price_seen s pu (some pos) =
      let (pos', decision) = on_price (seen pos pu) pu.price_usd pu.ts s.cfg in
      exit_if (record s { positions = insert pu.mint pos' s.positions }) pu pos' decision

  unfoldable pub on_price_update : Engine X D T → PriceUpdate D T → Engine X D T
  unfolding price_seen
  on_price_update s pu = price_seen s pu (lookup pu.mint s.positions)

  -- the match of `on_event` on the event
  unfoldable pub handle : Engine X D T → Event D T → Engine X D T
  unfolding on_launch on_price_update
  handle s (Event.launch l) = on_launch s l
  handle s (Event.price p) = on_price_update s p

  unfoldable pub on_event : Engine X D T → Event D T → Engine X D T
  unfolding handle sweep_time_stops alert event_ts
  on_event s ev =
      let s' = sweep_time_stops (handle s ev) (event_ts ev) in
      let tripped = not (kill_switch_on s.risk) && kill_switch_on s'.risk in
      let paged = alert s' (Alert.daily_loss_trip s'.risk.day_realized_pnl) in
      if tripped then paged else s'

  -- a feed of events, one after another
  unfoldable pub run : Engine X D T → List (Event D T) → Engine X D T
  unfolding on_event
  run s [] = s
  run s (ev ∷ evs) = run (on_event s ev) evs
