-- ===== src/LiveLoop.antt =====
-- The live loop (src/liveloop.rs): a session of the websocket stream drives the engine, and after
-- each event the trade subscriptions follow the open book. The socket is an interface, and the
-- inputs of a session are a list.
pub mod Counters
pub mod Reconcile
pub mod Sessions
pub mod Saved
use Prim.Native.Nat.{max}
use hfmcbot.Prelude.{
  ℕ, suc, ◌-◌, ◌/◌, Bool, true, false, not, ◌&&◌, List, [], ◌∷◌, ◌++◌, Option, none, some, ltb,
  if◌then◌else◌,
}
use hfmcbot.Prelude.Int.{ℤ}
use hfmcbot.Prelude.Sort.{contains}
use hfmcbot.Prelude.Text.{Text}
use hfmcbot.Engine.Book
use hfmcbot.Engine.Events.{on_event}
use hfmcbot.Engine.State.{Engine}
use hfmcbot.Engine.View.{EngineSnapshot, snapshot, open_mints}
use hfmcbot.Exec.{Executor}
use hfmcbot.Ingest.{FeedStats, StampedRawEvent, RawFeedEvent}
use hfmcbot.Persist.{EngineState}
use hfmcbot.Platform.Chrono.{Chrono}
use hfmcbot.Platform.Decimal.{Decimal}
use hfmcbot.Platform.Floats.{Floats, FromFloat}
use hfmcbot.Platform.Json.{Json, ◌>>=◌}
use hfmcbot.Types.{Event}
use hfmcbot.WsFeed.{plan_trade_subs}
use hfmcbot.WsFeed.Enrich.{EnrichedLaunch, enrich_create, enrich_trade, raw_of_create, raw_of_trade}
use hfmcbot.WsFeed.Extract.{extract_create, extract_trade}
use hfmcbot.WsFeed.Wire.{
  WsInbound, create_attempt, trade_attempt, chatter, malformed, PumpPortalCreate, parse_ws_line,
}

-- `subscribe_token_trade_msg` and `unsubscribe_token_trade_msg`, before they are written as JSON
pub data ControlMsg : Type 0 where
  subscribe unsubscribe : List Text → ControlMsg

-- `ws.send`: the sink after it, and whether it was taken
pub record Sink (K : Type 0) : Type 0 where
  pub send : K → ControlMsg → K × Bool

-- What the loop calls of other crates: `serde_json::from_str`, `bs58::decode`, and the time of a
-- number of milliseconds.
pub record Outside (F T : Type 0) : Type 0 where
  pub parse : Text → Option (Json F)
  pub base58 : Text → Option (List ℕ)
  pub at_millis : ℤ → T

-- Whether a path or an alerter is given stands for it.
pub record LiveLoopArgs (D : Type 0) : Type 0 where
  pub sol_usd : D
  pub max_trade_subs : ℕ
  pub raw_path : Bool
  pub events_path : Bool
  pub state_path : Bool
  pub state_every_secs : ℕ
  pub alerter : Bool

-- a line of the events file
pub data Archived (D T : Type 0) : Type 0 where
  raw : StampedRawEvent → Archived D T
  enriched : Event D T → Archived D T

-- What a session changes, with the files as the lists of what was written to them, the last line
-- last; `pages` counts the calls of the alerter's `fire`.
pub record Session (X D T K : Type 0) : Type 0 where
  pub sink : K
  pub engine : Engine X D T
  pub subscribed : List Text
  pub stats : FeedStats
  pub last_msg : Option ℕ
  pub raw_lines : List Text
  pub archive : List (Archived D T)
  pub shown : EngineSnapshot D
  pub saved : List (EngineState D T)
  pub pages : ℕ

pub data WsMessage : Type 0 where
  text : Text → WsMessage
  -- the frames of the protocol: ping, pong and frame are one
  binary frame close error : WsMessage

-- What `select!` takes: the shutdown, a message with its wall clock in milliseconds and its
-- monotonic clock in nanoseconds, the end of the stream, or a tick of the saver with the answer of
-- the write.
pub data Input : Type 0 where
  shutdown ended : Input
  received : ℤ → ℕ → WsMessage → Input
  tick : Bool → Input

unfoldable pub save_enabled : {D : Type 0} → LiveLoopArgs D → Bool
save_enabled args = ltb 0 args.state_every_secs && args.state_path

-- an empty list makes no message
unfoldable pub non_empty : (List Text → ControlMsg) → List Text → List ControlMsg
non_empty msg [] = []
non_empty msg (m ∷ mints) = msg (m ∷ mints) ∷ []

unfoldable pub sub_control_messages : List Text → List Text → List ControlMsg
unfolding non_empty
sub_control_messages to_sub to_unsub = non_empty unsubscribe to_unsub ++ non_empty subscribe to_sub

-- the mints that are not among `gone`
unfoldable pub remove_all : List Text → List Text → List Text
unfolding contains
remove_all gone [] = []
remove_all gone (m ∷ mints) =
    if contains gone m then remove_all gone mints else m ∷ remove_all gone mints

-- the insertions into the set of the subscribed mints
unfoldable pub insert_all : List Text → List Text → List Text
unfolding contains
insert_all [] mints = mints
insert_all (m ∷ new) mints = insert_all new (if contains mints m then mints else m ∷ mints)

module _ {K : Type 0} ⦃sink : Sink K⦄ where
  -- the loop over the control messages, which ends at the first one that is not sent
  unfoldable pub send_all : K → List ControlMsg → K
  send_all k [] = k
  send_all k (msg ∷ msgs) =
      let (k', sent) = sink.send k msg in let rest = send_all k' msgs in if sent then rest else k'

unfoldable pub count_gap : Option ℕ → ℕ → FeedStats → FeedStats
count_gap none now st = st
count_gap (some t) now st = record st {
  max_gap_secs = max st.max_gap_secs ((now - t) / 1000000000);
}

unfoldable pub count_message : FeedStats → FeedStats
count_message st = record st { ws_messages = suc st.ws_messages }

unfoldable pub count_chatter : FeedStats → FeedStats
count_chatter st = record st { ws_chatter = suc st.ws_chatter }

module _ {X D T K : Type 0} where
  unfoldable pub archive_typed :
      LiveLoopArgs D → Session X D T K → ℤ → RawFeedEvent → Event D T → Session X D T K
  archive_typed args s at_ms raw_event ev =
      let stamped = raw (record { at_ms = at_ms; event = raw_event }) in
      if args.events_path
      then record s { archive = s.archive ++ (stamped ∷ enriched ev ∷ []) }
      else s

module _ {X D T K : Type 0} ⦃d : Decimal D⦄ ⦃c : Chrono T⦄ where
  -- `ok` is the answer of `save_state`
  unfoldable pub save_book : LiveLoopArgs D → Bool → Session X D T K → Session X D T K
  unfolding Book.state
  save_book args ok s =
      if not args.state_path
      then s
      else if ok
      then record s { saved = s.saved ++ (Book.state s.engine ∷ []) }
      else if args.alerter
      then record s { pages = suc s.pages }
      else s

module _ {X D T K : Type 0} ⦃d : Decimal D⦄ ⦃c : Chrono T⦄ ⦃sink : Sink K⦄ where
  unfoldable pub after_event : LiveLoopArgs D → Session X D T K → Session X D T K
  unfolding plan_trade_subs open_mints sub_control_messages send_all remove_all insert_all snapshot
  after_event args s =
      let (to_sub, to_unsub) =
        plan_trade_subs (open_mints s.engine) s.subscribed args.max_trade_subs in
      record s {
        sink = send_all s.sink (sub_control_messages to_sub to_unsub);
        subscribed = insert_all to_sub (remove_all to_unsub s.subscribed);
        shown = snapshot s.engine;
      }

module _ {X F D T K : Type 0} ⦃d : Decimal D⦄ ⦃c : Chrono T⦄ ⦃ex : Executor X D T⦄
    ⦃floats : Floats F⦄ ⦃from : FromFloat F D⦄ ⦃sink : Sink K⦄ (outside : Outside F T)
    (args : LiveLoopArgs D) where
  -- the event goes to the events file and to the engine, and the subscriptions follow
  unfoldable pub take_event : ℤ → RawFeedEvent → Event D T → Session X D T K → Session X D T K
  unfolding archive_typed on_event after_event
  take_event wall raw_event ev s =
      let s' = archive_typed args s wall raw_event ev in
      after_event args (record s' { engine = on_event s'.engine ev })

  unfoldable pub take_trade :
      ℤ → Option (RawFeedEvent × Event D T) → Session X D T K → Session X D T K
  unfolding take_event
  take_trade wall none s = record s {
    stats = record s.stats { ws_unparsed_trade = suc s.stats.ws_unparsed_trade };
  }
  take_trade wall (some (raw_event, ev)) s =
      take_event wall raw_event ev
        (record s { stats = record s.stats { ws_trades = suc s.stats.ws_trades } })

  unfoldable pub take_launch :
      ℤ → PumpPortalCreate F → Option (EnrichedLaunch D T) → Session X D T K → Session X D T K
  unfolding take_event raw_of_create
  take_launch wall create none s = s
  take_launch wall create (some en) s =
      take_event wall (raw_of_create outside.base58 create) en.event s

  unfoldable pub take_create : ℤ → Option (PumpPortalCreate F) → Session X D T K → Session X D T K
  unfolding take_launch enrich_create
  take_create wall none s = record s {
    stats = record s.stats { ws_unparsed_create = suc s.stats.ws_unparsed_create };
  }
  take_create wall (some create) s =
      take_launch wall create (enrich_create create (outside.at_millis wall) args.sol_usd)
        (record s { stats = record s.stats { creates = suc s.stats.creates } })

  -- the match on `parse_ws_line`
  unfoldable pub take_inbound : ℤ → WsInbound F → Session X D T K → Session X D T K
  unfolding take_create take_trade extract_create extract_trade enrich_trade raw_of_trade
      count_chatter
  take_inbound wall malformed s = record s {
    stats = record s.stats { ws_malformed = suc s.stats.ws_malformed };
  }
  take_inbound wall chatter s = record s { stats = count_chatter s.stats }
  take_inbound wall (trade_attempt v) s =
      let got = extract_trade v >>= λ t.
      enrich_trade t (outside.at_millis wall) args.sol_usd >>= λ ev. some (raw_of_trade t, ev) in
      take_trade wall got s
  take_inbound wall (create_attempt v) s = take_create wall (extract_create v) s

  -- the match on the message; the answer `true` leaves the loop
  unfoldable pub take_message : ℤ → WsMessage → Session X D T K → Session X D T K × Bool
  unfolding take_inbound parse_ws_line count_message count_chatter
  take_message wall (text line) s =
      let s' = record s {
        raw_lines = if args.raw_path then s.raw_lines ++ (line ∷ []) else s.raw_lines;
        stats = count_message s.stats;
      } in
      (take_inbound wall (parse_ws_line outside.parse line) s', false)
  take_message wall binary s = (record s { stats = count_chatter (count_message s.stats) }, false)
  take_message wall frame s = (s, false)
  take_message wall close s = (s, true)
  take_message wall error s = (s, true)

  unfoldable pub note_gap : ℕ → Session X D T K → Session X D T K
  unfolding count_gap
  note_gap mono s = record s { last_msg = some mono; stats = count_gap s.last_msg mono s.stats }

  -- `stream_loop` over the inputs of a session. It answers `some true` on the shutdown and
  -- `some false` where the connection is gone; on `none` it waits for the next input.
  unfoldable pub stream_loop : List Input → Session X D T K → Session X D T K × Option Bool
  unfolding take_message note_gap save_book save_enabled
  stream_loop [] s = (s, none)
  stream_loop (shutdown ∷ inputs) s = (s, some true)
  stream_loop (ended ∷ inputs) s = (s, some false)
  stream_loop (tick ok ∷ inputs) s =
      stream_loop inputs (if save_enabled args then save_book args ok s else s)
  stream_loop (received wall mono msg ∷ inputs) s =
      let (s', gone) = take_message wall msg (note_gap mono s) in
      let rest = stream_loop inputs s' in if gone then (s', some false) else rest
