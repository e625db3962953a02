-- ===== src/Tests/IngestTests.antt =====
-- Examples of the theorems on the slot clock and the transactions.
use hfmcbot.Prelude.{ℕ, ◌<◌, ◌≡◌, ◌⊎◌, List, [], ◌∷◌, ◌++◌, map, true, none, some, All, arith}
use hfmcbot.Prelude.Int.{ℤ, pos}
use hfmcbot.Prelude.Text.{bytes}
use hfmcbot.Decode.{pump_program}
use hfmcbot.Ingest.{SlotClock, lookup_slot}
use hfmcbot.Ingest.Clock.{IsLatest, lookup_slot-IsLatest}
use hfmcbot.Ingest.Counting.{IsApplied, apply_message_count}
use hfmcbot.Ingest.Replay.{IsReplay, drain, from_events, drain-IsReplay}
use hfmcbot.Platform.Chrono.{before}
use hfmcbot.Platform.Sample.{unix_seconds, unix_seconds-IsChronological}
use hfmcbot.Tests.{cat_price}
use hfmcbot.Types.{Event}
use hfmcbot.Ingest.LiveFeed.{LiveFeed, Message, apply_message, wire_ixs, inner_ixs}

abbrev two_slots : SlotClock
two_slots = (5, pos 5000) ∷ (9, pos 9000) ∷ []

lookup_slot-IsLatest_example :
    ((lookup_slot two_slots 7 ≡ none) × All (λ e. 7 < e.0) two_slots)
    ⊎ ((k : ℕ) × (v : ℤ) × (lookup_slot two_slots 7 ≡ some v) × IsLatest two_slots 7 k v)
lookup_slot-IsLatest_example = lookup_slot-IsLatest 7 two_slots ((omega arith, tt), (tt, tt))

-- an instruction of the pump program that no decoder takes, and one of another program
abbrev odd_message : Message
odd_message = record {
  account_keys = pump_program ∷ bytes "other" ∷ [];
  instructions =
      record { program_id_index = 0; accounts = []; payload = 1 ∷ [] }
      ∷ record { program_id_index = 1; accounts = 0 ∷ []; payload = [] }
      ∷ [];
}

abbrev idle_feed : LiveFeed
idle_feed = record {
  buffer = [];
  clock = two_slots;
  stats = record {
    creates = 2;
    trades = 3;
    migrates = 0;
    unknown_ix = 1;
    unstamped_dropped = 0;
    reconnects = 1;
    ws_messages = 0;
    ws_malformed = 0;
    ws_chatter = 0;
    ws_unparsed_create = 0;
    ws_trades = 0;
    ws_unparsed_trade = 0;
    max_gap_secs = 0;
  };
}

apply_message_count_example :
    let keys = map (λ k. k) odd_message.account_keys in
    IsApplied idle_feed
      (apply_message (λ k. k) idle_feed 7 [] (some odd_message))
      7
      (wire_ixs keys odd_message.instructions ++ inner_ixs keys [])
apply_message_count_example = apply_message_count (λ k. k) idle_feed 7 [] odd_message

-- out of order
abbrev two_ticks : List (Event ℤ ℕ)
two_ticks = cat_price 1020 (pos 12) ∷ cat_price 1010 (pos 8) ∷ []

either_before : (a b : ℕ) → (before a b ≡ true) ⊎ (before b a ≡ true)
either_before a b = ground arith

drain-IsReplay_example : IsReplay two_ticks (drain 2 (from_events two_ticks))
drain-IsReplay_example =
    drain-IsReplay unix_seconds-IsChronological either_before two_ticks 2 (omega arith)
