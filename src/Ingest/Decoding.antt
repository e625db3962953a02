-- ===== src/Ingest/Decoding.antt =====
-- What the decoders make of the instructions of a transaction (src/ingest.rs,
-- `handle_instructions`).
use mathlib.Core.List.{Perm}
use hfmcbot.Prelude.{
  ℕ, suc, ◌≡◌, refl, Bool, true, false, Bool-cases, List, [], ◌∷◌, Option, none, some, inl, inr,
}
use hfmcbot.Prelude.Sort.{IsSortedBy, sort_by-IsSortedBy, sort_by-Perm}
use hfmcbot.Prelude.Text.{text_eq}
use hfmcbot.Decode.{
  pump_program, parse_create, parse_trade, parse_migrate, CreateIx, TradeIx, TradeKind, MigrateIx,
}
use hfmcbot.Ingest.{
  RawKind, RawFeedEvent, WireIx, collect, is_buy, first_event, raw_event, raw_events,
  handle_instructions, hex,
}

-- whether a trade is a buy
pub data IsSide : TradeKind → Bool → Type 0 where
  buys : IsSide TradeKind.buy true
  sells : IsSide TradeKind.sell false

-- The event of an instruction: a create where it reads as one, else a trade, else a migration.
pub data IsEventOf (slot : ℕ) (ix : WireIx) : RawFeedEvent → Type 0 where
  as_create :
      (c : CreateIx)
      → parse_create ix.program ix.accounts ix.payload ≡ some c
      → IsEventOf slot ix (record {
        slot = some slot;
        mint = c.mint;
        kind = RawKind.create c.bonding_curve (hex c.creator) c.name c.symbol c.mayhem;
      })
  as_trade :
      (t : TradeIx) (buy : Bool)
      → parse_create ix.program ix.accounts ix.payload ≡ none
      → parse_trade ix.program ix.accounts ix.payload ≡ some t
      → IsSide t.kind buy
      → IsEventOf slot ix (record {
        slot = some slot;
        mint = t.mint;
        kind = RawKind.trade t.bonding_curve buy t.v2 t.amount_base_units t.limit_quote_units;
      })
  as_migrate :
      (m : MigrateIx)
      → parse_create ix.program ix.accounts ix.payload ≡ none
      → parse_trade ix.program ix.accounts ix.payload ≡ none
      → parse_migrate ix.program ix.accounts ix.payload ≡ some m
      → IsEventOf slot ix (record {
        slot = some slot;
        mint = m.mint;
        kind = RawKind.migrate m.bonding_curve m.pool;
      })

-- No decoder takes the instruction.
pub record IsUnknown (ix : WireIx) : Type 0 where
  pub no_create : parse_create ix.program ix.accounts ix.payload ≡ none
  pub no_trade : parse_trade ix.program ix.accounts ix.payload ≡ none
  pub no_migrate : parse_migrate ix.program ix.accounts ix.payload ≡ none

-- The events of instructions, in order, and how many of the pump program no decoder takes.
pub data Decodes (slot : ℕ) : List WireIx → List RawFeedEvent → ℕ → Type 0 where
  end : Decodes slot [] [] 0
  foreign :
      (ix : WireIx) {ixs : List WireIx} {events : List RawFeedEvent} {unknown : ℕ}
      → text_eq ix.program pump_program ≡ false
      → Decodes slot ixs events unknown
      → Decodes slot (ix ∷ ixs) events unknown
  taken :
      (ix : WireIx) (e : RawFeedEvent) {ixs : List WireIx} {events : List RawFeedEvent}
      {unknown : ℕ}
      → text_eq ix.program pump_program ≡ true
      → IsEventOf slot ix e
      → Decodes slot ixs events unknown
      → Decodes slot (ix ∷ ixs) (e ∷ events) unknown
  odd :
      (ix : WireIx) {ixs : List WireIx} {events : List RawFeedEvent} {unknown : ℕ}
      → text_eq ix.program pump_program ≡ true
      → IsUnknown ix
      → Decodes slot ixs events unknown
      → Decodes slot (ix ∷ ixs) events (suc unknown)

is_buy-IsSide : (k : TradeKind) → IsSide k (is_buy k)
unfolding is_buy
is_buy-IsSide TradeKind.buy = buys
is_buy-IsSide TradeKind.sell = sells

-- what the decoders say of an instruction
data IsRead (slot : ℕ) (ix : WireIx) : Option RawFeedEvent → Type 0 where
  event : (e : RawFeedEvent) → IsEventOf slot ix e → IsRead slot ix (some e)
  no_event : IsUnknown ix → IsRead slot ix none

first_event-IsRead :
    (slot : ℕ) (ix : WireIx) (c : Option CreateIx) (t : Option TradeIx) (m : Option MigrateIx)
    → parse_create ix.program ix.accounts ix.payload ≡ c
    → parse_trade ix.program ix.accounts ix.payload ≡ t
    → parse_migrate ix.program ix.accounts ix.payload ≡ m
    → IsRead slot ix (first_event slot c t m)
unfolding first_event
first_event-IsRead slot ix (some c) t m h1 h2 h3 = event _ (as_create c h1)
first_event-IsRead slot ix none (some t) m h1 h2 h3 =
    event _ (as_trade t (is_buy t.kind) h1 h2 (is_buy-IsSide t.kind))
first_event-IsRead slot ix none none (some m) h1 h2 h3 = event _ (as_migrate m h1 h2 h3)
first_event-IsRead slot ix none none none h1 h2 h3 =
    no_event (record { no_create = h1; no_trade = h2; no_migrate = h3 })

collect-Decodes :
    (slot : ℕ) (ix : WireIx) (ixs : List WireIx) (o : Option RawFeedEvent)
    (rest : List RawFeedEvent × ℕ)
    → text_eq ix.program pump_program ≡ true
    → IsRead slot ix o
    → Decodes slot ixs rest.0 rest.1
    → Decodes slot (ix ∷ ixs) (collect o rest).0 (collect o rest).1
unfolding collect
collect-Decodes slot ix ixs _ rest h (event e is_event) d = taken ix e h is_event d
collect-Decodes slot ix ixs _ rest h (no_event unknown) d = odd ix h unknown d

raw_events-Decodes :
    (slot : ℕ) (ixs : List WireIx)
    → Decodes slot ixs (raw_events slot ixs).0 (raw_events slot ixs).1
unfolding raw_events raw_event
raw_events-Decodes slot [] = end
raw_events-Decodes slot (ix ∷ ixs) =
    let rest = raw_events-Decodes slot ixs in
    elim (Bool-cases (text_eq ix.program pump_program)) [
      | inl pump ↦ rw pump (
          collect-Decodes slot ix ixs (raw_event slot ix) (raw_events slot ixs) pump
            (first_event-IsRead slot ix _ _ _ refl refl refl) rest)
      | inr other ↦ rw other (foreign ix other rest)
    ]

-- `handle_instructions` gives the events of the instructions, sorted by their mints, and the number of
-- those that no decoder takes.
pub record IsHandled (slot : ℕ) (ixs : List WireIx) (events : List RawFeedEvent) (unknown : ℕ)
    : Type 0 where
  pub decoded : List RawFeedEvent
  pub decodes : Decodes slot ixs decoded unknown
  pub same_events : Perm events decoded
  pub sorted : IsSortedBy (λ e. e.mint) events

pub handle_instructions-IsHandled :
    (slot : ℕ) (ixs : List WireIx)
    → IsHandled slot ixs (handle_instructions slot ixs).0 (handle_instructions slot ixs).1
unfolding handle_instructions
handle_instructions-IsHandled slot ixs = record {
  decoded = (raw_events slot ixs).0;
  decodes = raw_events-Decodes slot ixs;
  same_events = sort_by-Perm (λ e. e.mint) (raw_events slot ixs).0;
  sorted = sort_by-IsSortedBy (λ e. e.mint) (raw_events slot ixs).0;
}
