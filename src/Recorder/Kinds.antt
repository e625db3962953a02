-- ===== src/Recorder/Kinds.antt =====
-- What a session of the recorder is to keep (src/wsfeed.rs, `run_ws_loop`), from what was heard: the
-- lines, the kinds of the messages, and the archive.
use mathlib.Core.Option
use hfmcbot.Prelude.{ℕ, suc, ◌+◌, ◌≡◌, arith, List, [], ◌∷◌, ◌++◌, Option, none, some, length}
use hfmcbot.Prelude.Int.{ℤ}
use hfmcbot.Prelude.Text.{Text}
use hfmcbot.Ingest.{FeedStats, RawFeedEvent, RawKind, hex}
use hfmcbot.LiveLoop.{Outside, Archived, raw, enriched, text, binary, frame, close, error}
use hfmcbot.Platform.Chrono.{Chrono}
use hfmcbot.Platform.Decimal.{Decimal}
use hfmcbot.Platform.Floats.{Floats, FromFloat}
use hfmcbot.Types.{Event}
use hfmcbot.Recorder.{Heard, shutdown, ended, received}
use hfmcbot.WsFeed.Enrich.{enrich_create, enrich_trade}
use hfmcbot.WsFeed.Extract.{extract_create, extract_trade}
use hfmcbot.WsFeed.Wire.{
  WsInbound, create_attempt, trade_attempt, chatter, malformed, PumpPortalCreate, PumpPortalTrade,
  parse_ws_line,
}

-- The lines of a session: the texts before the shutdown, the end, a close or an error.
abbrev pub lines : List Heard → List Text
lines [] = []
lines (shutdown ∷ heard) = []
lines (ended ∷ heard) = []
lines (received wall mono (text line) ∷ heard) = line ∷ lines heard
lines (received wall mono binary ∷ heard) = lines heard
lines (received wall mono frame ∷ heard) = lines heard
lines (received wall mono close ∷ heard) = []
lines (received wall mono error ∷ heard) = []

-- The raw records of a trade and of a create; a creator whose key is not base 58 stands as it came.
unfoldable pub raw_trade : {F : Type 0} → PumpPortalTrade F → RawFeedEvent
raw_trade t = record { slot = none; mint = t.mint; kind = RawKind.ws_trade t.bonding_curve t.buy }

unfoldable pub creator_of : Option (List ℕ) → Text → Text
unfolding hex
creator_of none trader = trader
creator_of (some key) trader = hex key

unfoldable pub raw_create :
    {F : Type 0} → (Text → Option (List ℕ)) → PumpPortalCreate F → RawFeedEvent
unfolding creator_of
raw_create base58 create = record {
  slot = none;
  mint = create.mint;
  kind =
      RawKind.create create.bonding_curve (creator_of (base58 create.trader) create.trader)
        create.name create.symbol create.mayhem;
}

-- What a message that counts is: a text or a binary frame, as the parser and the extraction read it.
pub data Kind (F : Type 0) : Type 0 where
  is_malformed is_chatter no_trade no_create : Kind F
  is_trade : PumpPortalTrade F → Kind F
  is_create : PumpPortalCreate F → Kind F

unfoldable pub trade_kind : {F : Type 0} → Option (PumpPortalTrade F) → Kind F
trade_kind none = no_trade
trade_kind (some t) = is_trade t

unfoldable pub create_kind : {F : Type 0} → Option (PumpPortalCreate F) → Kind F
create_kind none = no_create
create_kind (some create) = is_create create

unfoldable pub line_kind : {F : Type 0} ⦃floats : Floats F⦄ → WsInbound F → Kind F
unfolding trade_kind create_kind extract_trade extract_create
line_kind malformed = is_malformed
line_kind chatter = is_chatter
line_kind (trade_attempt v) = trade_kind (extract_trade v)
line_kind (create_attempt v) = create_kind (extract_create v)

module _ {F T : Type 0} ⦃floats : Floats F⦄ (outside : Outside F T) where
  -- The messages of a session that count, with their wall clocks, up to what ends it.
  unfoldable pub kinds : List Heard → List (ℤ × Kind F)
  unfolding line_kind parse_ws_line
  kinds [] = []
  kinds (shutdown ∷ heard) = []
  kinds (ended ∷ heard) = []
  kinds (received wall mono (text line) ∷ heard) =
      (wall, line_kind (parse_ws_line outside.parse line)) ∷ kinds heard
  kinds (received wall mono binary ∷ heard) = (wall, is_chatter) ∷ kinds heard
  kinds (received wall mono frame ∷ heard) = kinds heard
  kinds (received wall mono close ∷ heard) = []
  kinds (received wall mono error ∷ heard) = []

module _ {F : Type 0} where
  -- one for a message of the kind, zero for others
  unfoldable pub one_malformed : Kind F → ℕ
  one_malformed is_malformed = 1
  one_malformed _ = 0

  unfoldable pub one_chatter : Kind F → ℕ
  one_chatter is_chatter = 1
  one_chatter _ = 0

  unfoldable pub one_unparsed_trade : Kind F → ℕ
  one_unparsed_trade no_trade = 1
  one_unparsed_trade _ = 0

  unfoldable pub one_unparsed_create : Kind F → ℕ
  one_unparsed_create no_create = 1
  one_unparsed_create _ = 0

  unfoldable pub one_trade : Kind F → ℕ
  one_trade (is_trade t) = 1
  one_trade _ = 0

  unfoldable pub one_create : Kind F → ℕ
  one_create (is_create create) = 1
  one_create _ = 0

  unfoldable pub count : (Kind F → ℕ) → List (ℤ × Kind F) → ℕ
  count one [] = 0
  count one ((wall, k) ∷ ks) = one k + count one ks

  -- The counters grow by the messages: all of them, and those of each kind.
  pub record IsCounted (ks : List (ℤ × Kind F)) (st st' : FeedStats) : Type 0 where
    pub messages : st'.ws_messages ≡ st.ws_messages + length ks
    pub malformed_lines : st'.ws_malformed ≡ st.ws_malformed + count one_malformed ks
    pub chatter_lines : st'.ws_chatter ≡ st.ws_chatter + count one_chatter ks
    pub unparsed_trades : st'.ws_unparsed_trade ≡ st.ws_unparsed_trade + count one_unparsed_trade ks
    pub unparsed_creates :
        st'.ws_unparsed_create ≡ st.ws_unparsed_create + count one_unparsed_create ks
    pub trades : st'.ws_trades ≡ st.ws_trades + count one_trade ks
    pub creates : st'.creates ≡ st.creates + count one_create ks

  -- the counters after one message
  pub record IsStep (k : Kind F) (st st' : FeedStats) : Type 0 where
    pub messages : st'.ws_messages ≡ suc st.ws_messages
    pub malformed_lines : st'.ws_malformed ≡ st.ws_malformed + one_malformed k
    pub chatter_lines : st'.ws_chatter ≡ st.ws_chatter + one_chatter k
    pub unparsed_trades : st'.ws_unparsed_trade ≡ st.ws_unparsed_trade + one_unparsed_trade k
    pub unparsed_creates : st'.ws_unparsed_create ≡ st.ws_unparsed_create + one_unparsed_create k
    pub trades : st'.ws_trades ≡ st.ws_trades + one_trade k
    pub creates : st'.creates ≡ st.creates + one_create k

  pub none-IsCounted : (st : FeedStats) → IsCounted [] st st
  unfolding count
  none-IsCounted st = record {
    messages = omega arith;
    malformed_lines = omega arith;
    chatter_lines = omega arith;
    unparsed_trades = omega arith;
    unparsed_creates = omega arith;
    trades = omega arith;
    creates = omega arith;
  }

  pub step-IsCounted :
      (wall : ℤ) (k : Kind F) (ks : List (ℤ × Kind F)) (st st1 st2 : FeedStats)
      → IsStep k st st1
      → IsCounted ks st1 st2
      → IsCounted ((wall, k) ∷ ks) st st2
  unfolding count
  step-IsCounted wall k ks st st1 st2 h r = record {
    messages = omega (arith, h.messages, r.messages);
    malformed_lines = omega (arith, h.malformed_lines, r.malformed_lines);
    chatter_lines = omega (arith, h.chatter_lines, r.chatter_lines);
    unparsed_trades = omega (arith, h.unparsed_trades, r.unparsed_trades);
    unparsed_creates = omega (arith, h.unparsed_creates, r.unparsed_creates);
    trades = omega (arith, h.trades, r.trades);
    creates = omega (arith, h.creates, r.creates);
  }

-- what is archived of an event that was made of a message
unfoldable pub archived_event : {D T : Type 0} → Option (Event D T) → List (Archived D T)
archived_event none = []
archived_event (some ev) = enriched ev ∷ []

module _ {F D T : Type 0} ⦃d : Decimal D⦄ ⦃c : Chrono T⦄ ⦃floats : Floats F⦄ ⦃from : FromFloat F D⦄
    (outside : Outside F T) (sol_usd : Option D) where
  unfoldable pub trade_at : ℤ → PumpPortalTrade F → Option D → Option (Event D T)
  unfolding enrich_trade
  trade_at wall t none = none
  trade_at wall t (some rate) = enrich_trade t (outside.at_millis wall) rate

  unfoldable pub launch_at : ℤ → PumpPortalCreate F → Option D → Option (Event D T)
  unfolding enrich_create
  launch_at wall create none = none
  launch_at wall create (some rate) =
      Option.map (λ en. en.event) (enrich_create create (outside.at_millis wall) rate)

  -- What a message adds to the archive: for a trade or a create its raw record at its wall clock, and
  -- with a rate the event that it enriches to; for others nothing.
  unfoldable pub archived : ℤ → Kind F → List (Archived D T)
  unfolding archived_event trade_at launch_at raw_trade raw_create
  archived wall (is_trade t) =
      raw (record { at_ms = wall; event = raw_trade t }) ∷ archived_event (trade_at wall t sol_usd)
  archived wall (is_create create) =
      raw (record { at_ms = wall; event = raw_create outside.base58 create })
      ∷ archived_event (launch_at wall create sol_usd)
  archived wall _ = []

  unfoldable pub archive : List (ℤ × Kind F) → List (Archived D T)
  unfolding archived
  archive [] = []
  archive ((wall, k) ∷ ks) = archived wall k ++ archive ks
