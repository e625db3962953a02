-- ===== src/Tests/LoopTests.antt =====
-- Examples of the theorems on the live loop.
use hfmcbot.Prelude.{ℕ, suc, ◌/◌, ◌≡◌, refl, true, false, List, [], ◌∷◌, none, some}
use hfmcbot.Prelude.Int.{ℤ, pos, pos_part, ◌*ℤ◌, ◌/ℤ◌, ◌+ℤ◌, ◌-ℤ◌}
use hfmcbot.Prelude.Sort.{contains}
use hfmcbot.Prelude.Text.{bytes, text_eq}
use hfmcbot.Engine.State
use hfmcbot.Engine.State.{Engine}
use hfmcbot.Engine.View.{open_mints, snapshot}
use hfmcbot.LiveLoop.{
  Sink, Outside, LiveLoopArgs, Session, Input, WsMessage, after_event, stream_loop,
}
use hfmcbot.LiveLoop.Counters.{IsAccounted, stream_loop-IsAccounted}
use hfmcbot.LiveLoop.Reconcile.{after_event-IsOpen, after_event_not_retried}
use hfmcbot.LiveLoop.Saved.{IsSaved, run_live_loop-IsSaved}
use hfmcbot.LiveLoop.Sessions.{Attempt, run_live_loop}
use hfmcbot.Platform.Sample.{whole_dollars, unix_seconds, whole_floats, whole_from_float}
use hfmcbot.Recorder.{Heard, Recording, hear_all}
use hfmcbot.Recorder.Verbatim.{IsVerbatim, hear_all-IsVerbatim}
use hfmcbot.Tests.{paper_config, OneLot, one_lot, one_lot_executor, cat, cat_position}
use hfmcbot.Tests.FeedTests.{parse}
use hfmcbot.WsFeed.{plan_trade_subs}

-- a socket that takes no message, and counts them
instance abbrev dead_socket : Sink ℕ
dead_socket = record { send = λ k msg. (suc k, false) }

abbrev outside : Outside ℕ ℕ
outside = record { parse = parse; base58 = λ s. none; at_millis = λ ms. pos_part ms / 1000 }

abbrev args : LiveLoopArgs ℤ
args = record {
  sol_usd = pos 150;
  max_trade_subs = 6;
  raw_path = true;
  events_path = true;
  state_path = true;
  state_every_secs = 30;
  alerter = false;
}

abbrev holder : Engine OneLot ℤ ℕ
holder = record (State.new paper_config one_lot [] 1000) { positions = (cat, cat_position) ∷ [] }

abbrev session : Session OneLot ℤ ℕ ℕ
session = record {
  sink = 0;
  engine = holder;
  subscribed = bytes "gone" ∷ [];
  stats = record {
    creates = 0;
    trades = 0;
    migrates = 0;
    unknown_ix = 0;
    unstamped_dropped = 0;
    reconnects = 1;
    ws_messages = 1;
    ws_malformed = 0;
    ws_chatter = 1;
    ws_unparsed_create = 0;
    ws_trades = 0;
    ws_unparsed_trade = 0;
    max_gap_secs = 0;
  };
  last_msg = none;
  raw_lines = [];
  archive = [];
  shown = snapshot holder;
  saved = [];
  pages = 0;
}

abbrev inputs : List Input
inputs =
    Input.received (pos 1000000) 5 (WsMessage.text (bytes "c"))
    ∷ Input.received (pos 1001000) 6 (WsMessage.text (bytes "t"))
    ∷ Input.tick true
    ∷ Input.received (pos 1002000) 7 (WsMessage.text (bytes "?"))
    ∷ Input.ended
    ∷ []

stream_loop-IsAccounted_example : IsAccounted (stream_loop outside args inputs session).0.stats
stream_loop-IsAccounted_example = stream_loop-IsAccounted outside args inputs session refl

after_event-IsOpen_example : contains (open_mints holder) cat ≡ true
unfolding after_event contains State.new text_eq
after_event-IsOpen_example = after_event-IsOpen args session cat refl

after_event_not_retried_example :
    contains (plan_trade_subs (cat ∷ []) (after_event args session).subscribed 6).0 cat ≡ false
unfolding plan_trade_subs open_mints contains State.new text_eq
after_event_not_retried_example = after_event_not_retried args session cat (cat ∷ []) 6 refl

-- a connection that drops, and one that the shutdown ends
abbrev dropped : Attempt ℕ
dropped = record {
  stop_before = false;
  connection = some (record { sink = 0; create_sent = true; inputs = inputs; saved_ok = true });
  stop_asleep = false;
  final_ok = true;
}

abbrev stopped : Attempt ℕ
stopped = record dropped {
  connection =
      some (record { sink = 0; create_sent = true; inputs = Input.shutdown ∷ []; saved_ok = true });
}

run_live_loop-IsSaved_example :
    IsSaved (run_live_loop outside args (dropped ∷ stopped ∷ []) session).0
unfolding run_live_loop ◌*ℤ◌ ◌/ℤ◌ ◌+ℤ◌ ◌-ℤ◌ text_eq
run_live_loop-IsSaved_example =
    run_live_loop-IsSaved outside args (dropped ∷ stopped ∷ []) session refl refl
      ((refl, refl), ((refl, refl), tt)) refl

abbrev silent : Recording ℤ ℕ
silent = record { raw_lines = []; events = []; stats = session.stats; last_msg = none }

abbrev heard : List Heard
heard =
    Heard.received (pos 1000000) 5 (WsMessage.text (bytes "c"))
    ∷ Heard.received (pos 1001000) 6 (WsMessage.text (bytes "t"))
    ∷ Heard.received (pos 1002000) 7 (WsMessage.text (bytes "?"))
    ∷ Heard.shutdown
    ∷ []

hear_all-IsVerbatim_example :
    IsVerbatim outside
      (some (pos 150))
      heard
      silent
      (hear_all outside (some (pos 150)) heard silent).0
hear_all-IsVerbatim_example = hear_all-IsVerbatim outside (some (pos 150)) heard silent
