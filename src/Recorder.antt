-- ===== src/Recorder.antt =====
-- The recorder (src/wsfeed.rs, `run_ws_loop`): it streams the websocket, archives every line, and
-- writes the events that it understands. Files are the lists of what was written to them; a write
-- that fails is only logged, and is not modelled. What the outside does is a list of attempts.
pub mod Kinds
pub mod Messages
pub mod Verbatim
use hfmcbot.Prelude.{
  ℕ, suc, Bool, true, false, List, [], ◌∷◌, ◌++◌, Option, none, some, if◌then◌else◌,
}
use hfmcbot.Prelude.Int.{ℤ}
use hfmcbot.Prelude.Text.{Text}
use hfmcbot.Ingest.{FeedStats, RawFeedEvent}
use hfmcbot.LiveLoop.{
  Outside, Archived, raw, enriched, WsMessage, text, binary, frame, close, error, count_gap,
  count_message, count_chatter,
}
use hfmcbot.Platform.Chrono.{Chrono}
use hfmcbot.Platform.Decimal.{Decimal}
use hfmcbot.Platform.Floats.{Floats, FromFloat}
use hfmcbot.Types.{Event}
use hfmcbot.WsFeed.{next_backoff_secs}
use hfmcbot.WsFeed.Enrich.{EnrichedLaunch, enrich_create, enrich_trade, raw_of_create, raw_of_trade}
use hfmcbot.WsFeed.Extract.{extract_create, extract_trade}
use hfmcbot.WsFeed.Wire.{
  WsInbound, create_attempt, trade_attempt, chatter, malformed, PumpPortalCreate, PumpPortalTrade,
  parse_ws_line,
}

-- What `select!` takes: the shutdown, the end of the stream, or a message with its wall clock in
-- milliseconds and its monotonic clock in nanoseconds.
pub data Heard : Type 0 where
  shutdown ended : Heard
  received : ℤ → ℕ → WsMessage → Heard

pub record Recording (D T : Type 0) : Type 0 where
  pub raw_lines : List Text
  pub events : List (Archived D T)
  pub stats : FeedStats
  pub last_msg : Option ℕ

-- An attempt: whether the shutdown came before it, its connection if any, with whether the
-- subscription is sent and what is heard, and whether the shutdown cuts the wait short.
pub record Attempt : Type 0 where
  pub stop_before : Bool
  pub connection : Option (Bool × List Heard)
  pub stop_asleep : Bool

module _ {D T : Type 0} where
  -- `record_raw` and `record_event`
  unfoldable pub record_raw : ℤ → RawFeedEvent → Recording D T → Recording D T
  record_raw wall e s = record s {
    events = s.events ++ (raw (record { at_ms = wall; event = e }) ∷ []);
  }

  unfoldable pub record_event : Option (Event D T) → Recording D T → Recording D T
  record_event none s = s
  record_event (some ev) s = record s { events = s.events ++ (enriched ev ∷ []) }

unfoldable pub event_of : {D T : Type 0} → Option (EnrichedLaunch D T) → Option (Event D T)
event_of none = none
event_of (some en) = some en.event

module _ {F D T : Type 0} ⦃d : Decimal D⦄ ⦃c : Chrono T⦄ ⦃floats : Floats F⦄ ⦃from : FromFloat F D⦄
    (outside : Outside F T) (sol_usd : Option D) where
  -- the event of a trade or a launch, where there is a rate
  unfoldable pub trade_event : ℤ → PumpPortalTrade F → Option D → Option (Event D T)
  unfolding enrich_trade
  trade_event wall t none = none
  trade_event wall t (some rate) = enrich_trade t (outside.at_millis wall) rate

  unfoldable pub launch_event : ℤ → PumpPortalCreate F → Option D → Option (Event D T)
  unfolding enrich_create event_of
  launch_event wall create none = none
  launch_event wall create (some rate) =
      event_of (enrich_create create (outside.at_millis wall) rate)

  unfoldable pub hear_trade : ℤ → Option (PumpPortalTrade F) → Recording D T → Recording D T
  unfolding record_raw record_event trade_event raw_of_trade
  hear_trade wall none s = record s {
    stats = record s.stats { ws_unparsed_trade = suc s.stats.ws_unparsed_trade };
  }
  hear_trade wall (some t) s = record_event (trade_event wall t sol_usd) (
      record_raw wall (raw_of_trade t)
        (record s { stats = record s.stats { ws_trades = suc s.stats.ws_trades } }))

  unfoldable pub hear_create : ℤ → Option (PumpPortalCreate F) → Recording D T → Recording D T
  unfolding record_raw record_event launch_event raw_of_create
  hear_create wall none s = record s {
    stats = record s.stats { ws_unparsed_create = suc s.stats.ws_unparsed_create };
  }
  hear_create wall (some create) s = record_event (launch_event wall create sol_usd) (
      record_raw wall (raw_of_create outside.base58 create)
        (record s { stats = record s.stats { creates = suc s.stats.creates } }))

  -- the match on `parse_ws_line`
  unfoldable pub hear_inbound : ℤ → WsInbound F → Recording D T → Recording D T
  unfolding hear_trade hear_create extract_create extract_trade count_chatter
  hear_inbound wall malformed s = record s {
    stats = record s.stats { ws_malformed = suc s.stats.ws_malformed };
  }
  hear_inbound wall chatter s = record s { stats = count_chatter s.stats }
  hear_inbound wall (trade_attempt v) s = hear_trade wall (extract_trade v) s
  hear_inbound wall (create_attempt v) s = hear_create wall (extract_create v) s

  -- the match on the message; the answer `true` leaves the loop
  unfoldable pub hear_message : ℤ → WsMessage → Recording D T → Recording D T × Bool
  unfolding hear_inbound parse_ws_line count_message count_chatter
  hear_message wall (text line) s =
      let s' = record s { raw_lines = s.raw_lines ++ (line ∷ []); stats = count_message s.stats } in
      (hear_inbound wall (parse_ws_line outside.parse line) s', false)
  hear_message wall binary s = (record s { stats = count_chatter (count_message s.stats) }, false)
  hear_message wall frame s = (s, false)
  hear_message wall close s = (s, true)
  hear_message wall error s = (s, true)

  -- the inner loop: `some true` on the shutdown, `some false` where the connection is gone, and `none`
  -- while it waits for what comes next
  unfoldable pub hear_all : List Heard → Recording D T → Recording D T × Option Bool
  unfolding hear_message count_gap
  hear_all [] s = (s, none)
  hear_all (shutdown ∷ heard) s = (s, some true)
  hear_all (ended ∷ heard) s = (s, some false)
  hear_all (received wall mono msg ∷ heard) s =
      let noted = record s { last_msg = some mono; stats = count_gap s.last_msg mono s.stats } in
      let (s', gone) = hear_message wall msg noted in
      let rest = hear_all heard s' in if gone then (s', some false) else rest

  -- a connection: what was heard, how it ended, and the backoff that is next
  unfoldable pub hear_connection :
      Option (Bool × List Heard) → ℕ → Recording D T → (Recording D T × Option Bool) × ℕ
  unfolding hear_all
  hear_connection none backoff s = ((s, some false), backoff)
  hear_connection (some (sent, heard)) backoff s =
      let streamed = hear_all heard s in (if sent then streamed else (s, some false), 1)

  -- the wait after a connection that is gone
  after_gone : Option Bool → Bool → Recording D T → Recording D T × Bool → Recording D T × Bool
  after_gone none stop_asleep s next = (s, false)
  after_gone (some true) stop_asleep s next = (s, true)
  after_gone (some false) stop_asleep s next = if stop_asleep then (s, true) else next

  -- the loop with its backoff; `true` says that it has returned
  unfoldable pub record_loop : List Attempt → ℕ → Recording D T → Recording D T × Bool
  unfolding hear_connection after_gone next_backoff_secs
  record_loop [] backoff s = (s, false)
  record_loop (a ∷ attempts) backoff s =
      let begun = record s { stats = record s.stats { reconnects = suc s.stats.reconnects } } in
      let ((s', how), backoff') = hear_connection a.connection backoff begun in
      let next = record_loop attempts (next_backoff_secs backoff') s' in
      if a.stop_before then (s, true) else after_gone how a.stop_asleep s' next

  unfoldable pub run_ws_loop : List Attempt → Recording D T → Recording D T × Bool
  unfolding record_loop
  run_ws_loop attempts s = record_loop attempts 1 s
