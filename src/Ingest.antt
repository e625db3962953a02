-- ===== src/Ingest.antt =====
-- The live feed of transactions (src/ingest.rs): raw events, feed counters, the slot clock, and
-- the walk over the instructions of a transaction. The gRPC stream is not modelled; of its messages
-- the fields that are read are here.
pub mod LiveFeed
pub mod Clock
pub mod Decoding
pub mod Counting
pub mod Replay
use hfmcbot.Prelude.{
  ℕ, zero, suc, ◌+◌, ◌/◌, ◌%◌, Bool, true, false, not, List, [], ◌∷◌, ◌++◌, map, Option, none, some,
  length, get_elem?, ltb, leb, ◌==◌, if◌then◌else◌,
}
use hfmcbot.Prelude.Int.{ℤ, pos, ◌*ℤ◌}
use hfmcbot.Prelude.Sort.{sort_by}
use hfmcbot.Prelude.Text.{Text, text_eq}
use hfmcbot.Decode.{
  pump_program, parse_create, parse_trade, parse_migrate, CreateIx, TradeIx, TradeKind, MigrateIx,
}

-- `RawKind`
pub data RawKind : Type 0 where
  -- bonding curve, creator in hexadecimal digits, name, symbol, mayhem flag
  create : Text → Text → Text → Text → Bool → RawKind
  -- bonding curve, whether a buy, whether of version 2, amount and limit in base units
  trade : Text → Bool → Bool → ℕ → ℕ → RawKind
  -- bonding curve, whether a buy
  ws_trade : Text → Bool → RawKind
  -- bonding curve, pool
  migrate : Text → Text → RawKind

pub record RawFeedEvent : Type 0 where
  pub slot : Option ℕ
  pub mint : Text
  pub kind : RawKind

pub record StampedRawEvent : Type 0 where
  pub at_ms : ℤ
  pub event : RawFeedEvent

pub record FeedStats : Type 0 where
  pub creates : ℕ
  pub trades : ℕ
  pub migrates : ℕ
  pub unknown_ix : ℕ
  pub unstamped_dropped : ℕ
  pub reconnects : ℕ
  pub ws_messages : ℕ
  pub ws_malformed : ℕ
  pub ws_chatter : ℕ
  pub ws_unparsed_create : ℕ
  pub ws_trades : ℕ
  pub ws_unparsed_trade : ℕ
  pub max_gap_secs : ℕ

pub record WireIx : Type 0 where
  pub program : Text
  pub accounts : List Text
  pub payload : List ℕ

-- The tree map of a clock: its entries in the order of the slots.
abbrev pub SlotClock : Type 0
SlotClock = List (ℕ × ℤ)

abbrev pub clock_cap : ℕ
clock_cap = 32768

-- `BTreeMap::insert`
unfoldable pub put_slot : ℕ → ℤ → SlotClock → SlotClock
put_slot slot at_ms [] = (slot, at_ms) ∷ []
put_slot slot at_ms ((k, v) ∷ clock) =
    if slot == k
    then (k, at_ms) ∷ clock
    else if ltb slot k
    then (slot, at_ms) ∷ (k, v) ∷ clock
    else (k, v) ∷ put_slot slot at_ms clock

-- the loop that removes the oldest entry while there are too many
unfoldable pub evict : ℕ → SlotClock → SlotClock
evict limit [] = []
evict limit (e ∷ clock) = if ltb limit (length (e ∷ clock)) then evict limit clock else e ∷ clock

-- `SlotClock::insert`
unfoldable pub insert_slot : ℕ → ℤ → SlotClock → SlotClock
unfolding put_slot evict
insert_slot slot at_ms clock = evict clock_cap (put_slot slot at_ms clock)

-- the last entry of `range(..=slot)`, or the one found before
unfoldable pub latest : Option ℤ → ℕ → SlotClock → Option ℤ
latest found slot [] = found
latest found slot ((k, v) ∷ clock) = if leb k slot then latest (some v) slot clock else found

-- `SlotClock::lookup`
unfoldable pub lookup_slot : SlotClock → ℕ → Option ℤ
unfolding latest
lookup_slot clock slot = latest none slot clock

hex_digit : ℕ → ℕ
hex_digit n = if ltb n 10 then 48 + n else 87 + n

-- `{b:02x}` of every byte
unfoldable pub hex : List ℕ → Text
unfolding hex_digit
hex [] = []
hex (b ∷ bs) = hex_digit (b / 16) ∷ hex_digit (b % 16) ∷ hex bs

unfoldable pub is_buy : TradeKind → Bool
is_buy TradeKind.buy = true
is_buy TradeKind.sell = false

module _ (slot : ℕ) where
  create_event : CreateIx → RawFeedEvent
  unfolding hex
  create_event c = record {
    slot = some slot;
    mint = c.mint;
    kind = RawKind.create c.bonding_curve (hex c.creator) c.name c.symbol c.mayhem;
  }

  trade_event : TradeIx → RawFeedEvent
  unfolding is_buy
  trade_event t = record {
    slot = some slot;
    mint = t.mint;
    kind =
        RawKind.trade t.bonding_curve (is_buy t.kind) t.v2 t.amount_base_units t.limit_quote_units;
  }

  migrate_event : MigrateIx → RawFeedEvent
  migrate_event m = record {
    slot = some slot;
    mint = m.mint;
    kind = RawKind.migrate m.bonding_curve m.pool;
  }

  -- the first decoder that takes the instruction
  unfoldable pub first_event :
      Option CreateIx → Option TradeIx → Option MigrateIx → Option RawFeedEvent
  unfolding create_event trade_event migrate_event
  first_event (some c) t m = some (create_event c)
  first_event none (some t) m = some (trade_event t)
  first_event none none (some m) = some (migrate_event m)
  first_event none none none = none

  -- one round of the loop for an instruction of the pump program
  unfoldable pub raw_event : WireIx → Option RawFeedEvent
  unfolding first_event
  raw_event ix =
      first_event (parse_create ix.program ix.accounts ix.payload)
        (parse_trade ix.program ix.accounts ix.payload)
        (parse_migrate ix.program ix.accounts ix.payload)

-- an event in front of the others, or one more unknown instruction
unfoldable pub collect : Option RawFeedEvent → List RawFeedEvent × ℕ → List RawFeedEvent × ℕ
collect (some e) (events, unknown) = (e ∷ events, unknown)
collect none (events, unknown) = (events, suc unknown)

-- the loop of `handle_instructions`
unfoldable pub raw_events : ℕ → List WireIx → List RawFeedEvent × ℕ
unfolding collect raw_event
raw_events slot [] = ([], 0)
raw_events slot (ix ∷ ixs) =
    let rest = raw_events slot ixs in
    if text_eq ix.program pump_program then collect (raw_event slot ix) rest else rest

unfoldable pub handle_instructions : ℕ → List WireIx → List RawFeedEvent × ℕ
unfolding raw_events sort_by
handle_instructions slot ixs =
    let (events, unknown) = raw_events slot ixs in (sort_by (λ e. e.mint) events, unknown)
