-- ===== src/Ingest/LiveFeed.antt =====
-- The updates of the stream (src/ingest.rs, `LiveFeed`): block times into the clock, and the
-- instructions of a transaction, stamped, into the buffer.
use hfmcbot.Prelude.{
  ℕ, suc, ◌+◌, Bool, true, false, List, [], ◌∷◌, ◌++◌, map, Option, none, some, get_elem?,
  if◌then◌else◌,
}
use hfmcbot.Prelude.Int.{ℤ, pos, ◌*ℤ◌}
use hfmcbot.Prelude.Text.{Text}
use hfmcbot.Ingest.{
  RawKind, RawFeedEvent, StampedRawEvent, FeedStats, WireIx, SlotClock, insert_slot, lookup_slot,
  handle_instructions,
}

-- What is read of a transaction's message in the stream's protocol.
pub record CompiledIx : Type 0 where
  pub program_id_index : ℕ
  pub accounts : List ℕ
  pub payload : List ℕ

pub record Message : Type 0 where
  pub account_keys : List (List ℕ)
  pub instructions : List CompiledIx

-- A transaction's slot, its message if it is there, and its inner instructions, by groups; without
-- its metadata there are none.
pub record TxUpdate : Type 0 where
  pub slot : ℕ
  pub message : Option Message
  pub inner : List (List CompiledIx)

pub data Update : Type 0 where
  transaction : TxUpdate → Update
  -- a slot, and its block time in seconds
  block_meta : ℕ → Option ℤ → Update
  other : Update

pub record LiveFeed : Type 0 where
  pub buffer : List StampedRawEvent
  pub clock : SlotClock
  pub stats : FeedStats

or_empty : Option Text → Text
or_empty none = []
or_empty (some s) = s

-- the closure `get`
key_at : List Text → ℕ → Text
unfolding or_empty
key_at keys i = or_empty (get_elem? keys i)

is_empty : Text → Bool
is_empty [] = true
is_empty (_ ∷ _) = false

-- a loop over instructions of the message: those with no program key are left out
unfoldable pub wire_ixs : List Text → List CompiledIx → List WireIx
unfolding key_at is_empty
wire_ixs keys [] = []
wire_ixs keys (ix ∷ ixs) =
    let wire : WireIx = record {
      program = key_at keys ix.program_id_index;
      accounts = map (key_at keys) ix.accounts;
      payload = ix.payload;
    } in
    let rest = wire_ixs keys ixs in
    if is_empty (key_at keys ix.program_id_index) then rest else wire ∷ rest

-- the loop over the groups of inner instructions
unfoldable pub inner_ixs : List Text → List (List CompiledIx) → List WireIx
unfolding wire_ixs
inner_ixs keys [] = []
inner_ixs keys (group ∷ groups) = wire_ixs keys group ++ inner_ixs keys groups

-- the match on the kind of an event, which counts it
unfoldable pub count_kind : RawKind → FeedStats → FeedStats
count_kind (RawKind.create _ _ _ _ _) s = record s { creates = suc s.creates }
count_kind (RawKind.trade _ _ _ _ _) s = record s { trades = suc s.trades }
count_kind (RawKind.migrate _ _) s = record s { migrates = suc s.migrates }
count_kind (RawKind.ws_trade _ _) s = record s { unknown_ix = suc s.unknown_ix }

-- `ev.slot.and_then(|s| self.clock.lookup(s))`
unfoldable pub stamp_of : SlotClock → Option ℕ → Option ℤ
stamp_of clock none = none
stamp_of clock (some slot) = lookup_slot clock slot

-- the match on the stamp
unfoldable pub stamped : LiveFeed → RawFeedEvent → Option ℤ → LiveFeed
unfolding count_kind
stamped feed ev (some at_ms) = record feed {
  stats = count_kind ev.kind feed.stats;
  buffer = feed.buffer ++ record { at_ms = at_ms; event = ev } ∷ [];
}
stamped feed ev none = record feed {
  stats = record feed.stats { unstamped_dropped = suc feed.stats.unstamped_dropped };
}

-- the loop over the events of a transaction
unfoldable pub stamp_all : LiveFeed → List RawFeedEvent → LiveFeed
unfolding stamped stamp_of
stamp_all feed [] = feed
stamp_all feed (ev ∷ events) = stamp_all (stamped feed ev (stamp_of feed.clock ev.slot)) events

-- `apply_transaction` on the message; `encode` is the base58 encoding of a key
unfoldable pub apply_message :
    (List ℕ → Text) → LiveFeed → ℕ → List (List CompiledIx) → Option Message → LiveFeed
unfolding wire_ixs inner_ixs handle_instructions stamp_all
apply_message encode feed slot inner none = feed
apply_message encode feed slot inner (some msg) =
    let keys = map encode msg.account_keys in
    let (events, unknown) =
      handle_instructions slot (wire_ixs keys msg.instructions ++ inner_ixs keys inner) in
    stamp_all
      (record feed { stats = record feed.stats { unknown_ix = feed.stats.unknown_ix + unknown } })
      events

unfoldable pub apply_transaction : (List ℕ → Text) → LiveFeed → TxUpdate → LiveFeed
unfolding apply_message
apply_transaction encode feed tx = apply_message encode feed tx.slot tx.inner tx.message

unfoldable pub apply_update : (List ℕ → Text) → LiveFeed → Update → LiveFeed
unfolding apply_transaction insert_slot
apply_update encode feed (transaction tx) = apply_transaction encode feed tx
apply_update encode feed (block_meta slot (some time)) = record feed {
  clock = insert_slot slot (time *ℤ pos 1000) feed.clock;
}
apply_update encode feed (block_meta slot none) = feed
apply_update encode feed other = feed

-- `pop_raw`
unfoldable pub pop_raw : LiveFeed → LiveFeed × Option StampedRawEvent
pop_raw feed = elim feed.buffer [
  | [] ↦ (feed, none)
  | e ∷ rest ↦ (record feed { buffer = rest }, some e)
]
