-- ===== src/Ingest/Counting.antt =====
-- No event is lost unseen (src/ingest.rs): where each event of a transaction goes, and what is counted.
use mathlib.Core.List.{append-nil, append_assoc}
use hfmcbot.Prelude.{
  ℕ, suc, ◌+◌, ◌≡◌, ◌∙◌, sym, refl, List, [], ◌∷◌, ◌++◌, map, Option, none, some, arith,
}
use hfmcbot.Prelude.Int.{ℤ}
use hfmcbot.Prelude.Text.{Text}
use hfmcbot.Ingest.{
  RawKind, RawFeedEvent, StampedRawEvent, FeedStats, WireIx, SlotClock, handle_instructions,
}
use hfmcbot.Ingest.Decoding.{IsHandled, handle_instructions-IsHandled}
use hfmcbot.Ingest.LiveFeed.{
  LiveFeed, Message, CompiledIx, count_kind, stamped, stamp_of, stamp_all, apply_message, wire_ixs,
  inner_ixs,
}

-- The events with the time that the clock has for their slot, in order, and how many have none.
pub data Stamps (clock : SlotClock) : List RawFeedEvent → List StampedRawEvent → ℕ → Type 0 where
  end : Stamps clock [] [] 0
  kept :
      (e : RawFeedEvent) (at_ms : ℤ) {events : List RawFeedEvent} {taken : List StampedRawEvent}
      {dropped : ℕ}
      → stamp_of clock e.slot ≡ some at_ms
      → Stamps clock events taken dropped
      → Stamps clock (e ∷ events) (record { at_ms = at_ms; event = e } ∷ taken) dropped
  lost :
      (e : RawFeedEvent) {events : List RawFeedEvent} {taken : List StampedRawEvent} {dropped : ℕ}
      → stamp_of clock e.slot ≡ none
      → Stamps clock events taken dropped
      → Stamps clock (e ∷ events) taken (suc dropped)

-- one for an event of the kind, zero for others
abbrev pub one_create : RawKind → ℕ
one_create (RawKind.create a b c d e) = 1
one_create (RawKind.trade a b c d e) = 0
one_create (RawKind.migrate a b) = 0
one_create (RawKind.ws_trade a b) = 0

abbrev pub one_trade : RawKind → ℕ
one_trade (RawKind.create a b c d e) = 0
one_trade (RawKind.trade a b c d e) = 1
one_trade (RawKind.migrate a b) = 0
one_trade (RawKind.ws_trade a b) = 0

abbrev pub one_migrate : RawKind → ℕ
one_migrate (RawKind.create a b c d e) = 0
one_migrate (RawKind.trade a b c d e) = 0
one_migrate (RawKind.migrate a b) = 1
one_migrate (RawKind.ws_trade a b) = 0

abbrev pub one_websocket : RawKind → ℕ
one_websocket (RawKind.create a b c d e) = 0
one_websocket (RawKind.trade a b c d e) = 0
one_websocket (RawKind.migrate a b) = 0
one_websocket (RawKind.ws_trade a b) = 1

-- how many events are of a kind
abbrev pub count : (RawKind → ℕ) → List StampedRawEvent → ℕ
count one [] = 0
count one (e ∷ events) = one e.event.kind + count one events

-- `feed'` is `feed` after the events: those that have a time in the clock are at the end of the buffer,
-- with that time, and each counts as its
-- kind, one of the websocket as unknown; the others count as dropped; the clock is as it was.
pub record HasTaken (feed feed' : LiveFeed) (events : List RawFeedEvent) : Type 0 where
  pub taken : List StampedRawEvent
  pub dropped : ℕ
  pub stamps : Stamps feed.clock events taken dropped
  pub buffered : feed'.buffer ≡ feed.buffer ++ taken
  pub creates : feed'.stats.creates ≡ feed.stats.creates + count one_create taken
  pub trades : feed'.stats.trades ≡ feed.stats.trades + count one_trade taken
  pub migrates : feed'.stats.migrates ≡ feed.stats.migrates + count one_migrate taken
  pub odd : feed'.stats.unknown_ix ≡ feed.stats.unknown_ix + count one_websocket taken
  pub all_dropped : feed'.stats.unstamped_dropped ≡ feed.stats.unstamped_dropped + dropped
  pub same_clock : feed'.clock ≡ feed.clock

-- the counters after one event
record IsStep (k : RawKind) (st st' : FeedStats) : Type 0 where
  creates : st'.creates ≡ st.creates + one_create k
  trades : st'.trades ≡ st.trades + one_trade k
  migrates : st'.migrates ≡ st.migrates + one_migrate k
  odd : st'.unknown_ix ≡ st.unknown_ix + one_websocket k
  dropped : st'.unstamped_dropped ≡ st.unstamped_dropped

count_kind-IsStep : (k : RawKind) (st : FeedStats) → IsStep k st (count_kind k st)
unfolding count_kind
count_kind-IsStep (RawKind.create a b c d e) st = record {
  creates = omega arith;
  trades = omega arith;
  migrates = omega arith;
  odd = omega arith;
  dropped = refl;
}
count_kind-IsStep (RawKind.trade a b c d e) st = record {
  creates = omega arith;
  trades = omega arith;
  migrates = omega arith;
  odd = omega arith;
  dropped = refl;
}
count_kind-IsStep (RawKind.migrate a b) st = record {
  creates = omega arith;
  trades = omega arith;
  migrates = omega arith;
  odd = omega arith;
  dropped = refl;
}
count_kind-IsStep (RawKind.ws_trade a b) st = record {
  creates = omega arith;
  trades = omega arith;
  migrates = omega arith;
  odd = omega arith;
  dropped = refl;
}

stamped-HasTaken :
    (feed : LiveFeed) (e : RawFeedEvent) (events : List RawFeedEvent) (stamp : Option ℤ)
    (feed' : LiveFeed)
    → stamp_of feed.clock e.slot ≡ stamp
    → HasTaken (stamped feed e stamp) feed' events
    → HasTaken feed feed' (e ∷ events)
unfolding stamped
stamped-HasTaken feed e events none feed' h rest = record {
  taken = rest.taken;
  dropped = suc rest.dropped;
  stamps = lost e h rest.stamps;
  buffered = rest.buffered;
  creates = rest.creates;
  trades = rest.trades;
  migrates = rest.migrates;
  odd = rest.odd;
  all_dropped = omega (arith, rest.all_dropped);
  same_clock = rest.same_clock;
}
stamped-HasTaken feed e events (some at_ms) feed' h rest =
    let step = count_kind-IsStep e.kind feed.stats in
    let first : StampedRawEvent = record { at_ms = at_ms; event = e } in
    record {
      taken = first ∷ rest.taken;
      dropped = rest.dropped;
      stamps = kept e at_ms h rest.stamps;
      buffered = rest.buffered ∙ append_assoc feed.buffer (first ∷ []) rest.taken;
      creates = omega (arith, rest.creates, step.creates);
      trades = omega (arith, rest.trades, step.trades);
      migrates = omega (arith, rest.migrates, step.migrates);
      odd = omega (arith, rest.odd, step.odd);
      all_dropped = omega (arith, rest.all_dropped, step.dropped);
      same_clock = rest.same_clock;
    }

stamp_all-HasTaken :
    (feed : LiveFeed) (events : List RawFeedEvent) → HasTaken feed (stamp_all feed events) events
unfolding stamp_all
stamp_all-HasTaken feed [] = record {
  taken = [];
  dropped = 0;
  stamps = end;
  buffered = sym (append-nil feed.buffer);
  creates = omega arith;
  trades = omega arith;
  migrates = omega arith;
  odd = omega arith;
  all_dropped = omega arith;
  same_clock = refl;
}
stamp_all-HasTaken feed (e ∷ events) =
    let stamp = stamp_of feed.clock e.slot in
    stamped-HasTaken feed e events stamp _ refl (stamp_all-HasTaken (stamped feed e stamp) events)

-- What a transaction's instructions do to the feed.
pub record IsApplied (feed feed' : LiveFeed) (slot : ℕ) (ixs : List WireIx) : Type 0 where
  pub events : List RawFeedEvent
  pub unknown : ℕ
  pub handled : IsHandled slot ixs events unknown
  pub has_taken :
      HasTaken
        (record feed { stats = record feed.stats { unknown_ix = feed.stats.unknown_ix + unknown } })
        feed'
        events

-- A transaction with a message: each instruction of the pump program, inner ones included, is one
-- event, the create, the trade or the migration that the first decoder that takes it reads, or counts
-- as unknown where none does. Of these events, sorted by their mints, each whose slot has a time in
-- the clock stands at the end of the buffer with that time and counts once, as its kind, and each
-- other one counts as dropped. What was in the buffer stays, and so does the clock.
pub apply_message_count :
    (encode : List ℕ → Text) (feed : LiveFeed) (slot : ℕ) (inner : List (List CompiledIx))
    (msg : Message)
    → let keys = map encode msg.account_keys in
      let ixs = wire_ixs keys msg.instructions ++ inner_ixs keys inner in
      IsApplied feed (apply_message encode feed slot inner (some msg)) slot ixs
unfolding apply_message
apply_message_count encode feed slot inner msg =
    let keys = map encode msg.account_keys in
    let ixs = wire_ixs keys msg.instructions ++ inner_ixs keys inner in
    let handled = handle_instructions slot ixs in
    record {
      events = handled.0;
      unknown = handled.1;
      handled = handle_instructions-IsHandled slot ixs;
      has_taken = stamp_all-HasTaken _ handled.0;
    }
