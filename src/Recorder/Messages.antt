-- ===== src/Recorder/Messages.antt =====
-- What the recorder does with one message (src/wsfeed.rs, `run_ws_loop`): what it archives, and how it
-- counts it.
use mathlib.Core.List.{append_assoc, append-nil}
use mathlib.Core.Option
use hfmcbot.Prelude.{
  ℕ, suc, ◌≡◌, ◌∙◌, refl, sym, ap, arith, List, [], ◌∷◌, ◌++◌, Option, none, some,
}
use hfmcbot.Prelude.Int.{ℤ}
use hfmcbot.Prelude.Text.{Text}
use hfmcbot.Ingest.{FeedStats, RawFeedEvent}
use hfmcbot.LiveLoop.{Outside, Archived, raw, enriched, count_gap, count_message, count_chatter}
use hfmcbot.Platform.Chrono.{Chrono}
use hfmcbot.Platform.Decimal.{Decimal}
use hfmcbot.Platform.Floats.{Floats, FromFloat}
use hfmcbot.Types.{Event}
use hfmcbot.Recorder.{
  Recording, record_raw, record_event, trade_event, launch_event, hear_trade, hear_create,
  hear_inbound, event_of,
}
use hfmcbot.Recorder.Kinds.{
  Kind, line_kind, trade_kind, create_kind, IsCounted, IsStep, raw_trade, raw_create, creator_of,
  archived_event, trade_at, launch_at, archived, one_malformed, one_chatter, one_unparsed_trade,
  one_unparsed_create, one_trade, one_create,
}
use hfmcbot.WsFeed.Enrich.{EnrichedLaunch, creator_hex, raw_of_create, raw_of_trade, enrich_create}
use hfmcbot.WsFeed.Extract.{extract_create, extract_trade}
use hfmcbot.WsFeed.Wire.{
  WsInbound, create_attempt, trade_attempt, chatter, malformed, PumpPortalCreate, PumpPortalTrade,
}

creator_hex-creator_of :
    (o : Option (List ℕ)) (trader : Text) → creator_hex o trader ≡ creator_of o trader
unfolding creator_hex creator_of
creator_hex-creator_of none trader = refl
creator_hex-creator_of (some key) trader = refl

raw_of_create-raw_create :
    {F : Type 0} (base58 : Text → Option (List ℕ)) (create : PumpPortalCreate F)
    → raw_of_create base58 create ≡ raw_create base58 create
unfolding raw_of_create raw_create
raw_of_create-raw_create base58 create =
    rw (creator_hex-creator_of (base58 create.trader) create.trader) refl

module _ {F : Type 0} where
  gap-IsStep :
      (t : Option ℕ) (mono : ℕ) (k : Kind F) (st st' : FeedStats)
      → IsStep k (count_gap t mono st) st'
      → IsStep k st st'
  unfolding count_gap
  gap-IsStep none mono k st st' h = record {
    messages = h.messages;
    malformed_lines = h.malformed_lines;
    chatter_lines = h.chatter_lines;
    unparsed_trades = h.unparsed_trades;
    unparsed_creates = h.unparsed_creates;
    trades = h.trades;
    creates = h.creates;
  }
  gap-IsStep (some t) mono k st st' h = record {
    messages = h.messages;
    malformed_lines = h.malformed_lines;
    chatter_lines = h.chatter_lines;
    unparsed_trades = h.unparsed_trades;
    unparsed_creates = h.unparsed_creates;
    trades = h.trades;
    creates = h.creates;
  }

  pub gap-IsCounted :
      (t : Option ℕ) (mono : ℕ) (ks : List (ℤ × Kind F)) (st st' : FeedStats)
      → IsCounted ks (count_gap t mono st) st'
      → IsCounted ks st st'
  unfolding count_gap
  gap-IsCounted none mono ks st st' h = record {
    messages = h.messages;
    malformed_lines = h.malformed_lines;
    chatter_lines = h.chatter_lines;
    unparsed_trades = h.unparsed_trades;
    unparsed_creates = h.unparsed_creates;
    trades = h.trades;
    creates = h.creates;
  }
  gap-IsCounted (some t) mono ks st st' h = record {
    messages = h.messages;
    malformed_lines = h.malformed_lines;
    chatter_lines = h.chatter_lines;
    unparsed_trades = h.unparsed_trades;
    unparsed_creates = h.unparsed_creates;
    trades = h.trades;
    creates = h.creates;
  }

-- What a message does: it adds its part to the archive, counts once, and leaves the lines.
pub record IsHeard {F D T : Type 0} (part : List (Archived D T)) (k : Kind F) (ls : List Text)
    (s s' : Recording D T) : Type 0 where
  pub same_lines : s'.raw_lines ≡ ls
  pub adds : s'.events ≡ s.events ++ part
  pub steps : IsStep k s.stats s'.stats

-- a recording with its lines, and its message counted
abbrev pub noted_line : {D T : Type 0} → List Text → Recording D T → Recording D T
unfolding count_message
noted_line ls s = record s { raw_lines = ls; stats = count_message s.stats }

module _ {D T : Type 0} where
  recorded-adds :
      (wall : ℤ) (e : RawFeedEvent) (o : Option (Event D T)) (s : Recording D T)
      → (record_event o (record_raw wall e s)).events
        ≡ s.events ++ raw (record { at_ms = wall; event = e }) ∷ archived_event o
  unfolding record_event record_raw archived_event
  recorded-adds wall e none s = refl
  recorded-adds wall e (some ev) s =
      append_assoc s.events (raw (record { at_ms = wall; event = e }) ∷ []) (enriched ev ∷ [])

  recorded-same :
      (wall : ℤ) (e : RawFeedEvent) (o : Option (Event D T)) (s : Recording D T)
      → ((record_event o (record_raw wall e s)).raw_lines ≡ s.raw_lines)
        × ((record_event o (record_raw wall e s)).stats ≡ s.stats)
  unfolding record_event record_raw
  recorded-same wall e none s = (refl, refl)
  recorded-same wall e (some ev) s = (refl, refl)

module _ {F D T : Type 0} ⦃d : Decimal D⦄ ⦃c : Chrono T⦄ ⦃floats : Floats F⦄ ⦃from : FromFloat F D⦄
    (outside : Outside F T) where
  trade_event-trade_at :
      (sol_usd o : Option D) (wall : ℤ) (t : PumpPortalTrade F)
      → trade_event outside sol_usd wall t o ≡ trade_at outside sol_usd wall t o
  unfolding trade_event trade_at
  trade_event-trade_at sol_usd none wall t = refl
  trade_event-trade_at sol_usd (some rate) wall t = refl

  event_of-map : (o : Option (EnrichedLaunch D T)) → event_of o ≡ Option.map (λ en. en.event) o
  unfolding event_of
  event_of-map none = refl
  event_of-map (some en) = refl

  launch_event-launch_at :
      (sol_usd o : Option D) (wall : ℤ) (create : PumpPortalCreate F)
      → launch_event outside sol_usd wall create o ≡ launch_at outside sol_usd wall create o
  unfolding launch_event launch_at
  launch_event-launch_at sol_usd none wall create = refl
  launch_event-launch_at sol_usd (some rate) wall create =
      event_of-map (enrich_create create (outside.at_millis wall) rate)

module _ {F D T : Type 0} ⦃d : Decimal D⦄ ⦃c : Chrono T⦄ ⦃floats : Floats F⦄ ⦃from : FromFloat F D⦄
    (outside : Outside F T) (sol_usd : Option D) where
  hear_trade-IsHeard :
      (wall : ℤ) (o : Option (PumpPortalTrade F)) (ls : List Text) (s : Recording D T)
      → IsHeard
          (archived outside sol_usd wall (trade_kind o))
          (trade_kind o)
          ls
          s
          (hear_trade outside sol_usd wall o (noted_line ls s))
  unfolding hear_trade trade_kind archived raw_of_trade raw_trade noted_line one_malformed
      one_chatter one_unparsed_trade one_unparsed_create one_trade one_create
  hear_trade-IsHeard wall none ls s = record {
    same_lines = refl;
    adds = sym (append-nil s.events);
    steps = record {
      messages = omega arith;
      malformed_lines = omega arith;
      chatter_lines = omega arith;
      unparsed_trades = omega arith;
      unparsed_creates = omega arith;
      trades = omega arith;
      creates = omega arith;
    };
  }
  hear_trade-IsHeard wall (some t) ls s =
      let st = (noted_line ls s).stats in
      let s1 = record (noted_line ls s) { stats = record st { ws_trades = suc st.ws_trades } } in
      let ev = trade_event outside sol_usd wall t sol_usd in
      let (same, stats) = recorded-same wall (raw_of_trade t) ev s1 in
      record {
        same_lines = same;
        adds =
            recorded-adds wall (raw_of_trade t) ev s1
            ∙ ap
                (λ o.
                  s.events
                  ++ raw (record { at_ms = wall; event = raw_of_trade t }) ∷ archived_event o)
                (trade_event-trade_at outside sol_usd sol_usd wall t);
        steps = rw stats (record {
          messages = omega arith;
          malformed_lines = omega arith;
          chatter_lines = omega arith;
          unparsed_trades = omega arith;
          unparsed_creates = omega arith;
          trades = omega arith;
          creates = omega arith;
        });
      }

  hear_create-IsHeard :
      (wall : ℤ) (o : Option (PumpPortalCreate F)) (ls : List Text) (s : Recording D T)
      → IsHeard
          (archived outside sol_usd wall (create_kind o))
          (create_kind o)
          ls
          s
          (hear_create outside sol_usd wall o (noted_line ls s))
  unfolding hear_create create_kind archived noted_line one_malformed one_chatter one_unparsed_trade
      one_unparsed_create one_trade one_create
  hear_create-IsHeard wall none ls s = record {
    same_lines = refl;
    adds = sym (append-nil s.events);
    steps = record {
      messages = omega arith;
      malformed_lines = omega arith;
      chatter_lines = omega arith;
      unparsed_trades = omega arith;
      unparsed_creates = omega arith;
      trades = omega arith;
      creates = omega arith;
    };
  }
  hear_create-IsHeard wall (some create) ls s =
      let st = (noted_line ls s).stats in
      let s1 = record (noted_line ls s) { stats = record st { creates = suc st.creates } } in
      let e = raw_of_create outside.base58 create in
      let ev = launch_event outside sol_usd wall create sol_usd in
      let (same, stats) = recorded-same wall e ev s1 in
      record {
        same_lines = same;
        adds =
            recorded-adds wall e ev s1
            ∙ ap (λ o. s.events ++ raw (record { at_ms = wall; event = e }) ∷ archived_event o)
                (launch_event-launch_at outside sol_usd sol_usd wall create)
            ∙ ap
                (λ r.
                  s.events
                  ++ raw (record { at_ms = wall; event = r })
                    ∷ archived_event (launch_at outside sol_usd wall create sol_usd))
                (raw_of_create-raw_create outside.base58 create);
        steps = rw stats (record {
          messages = omega arith;
          malformed_lines = omega arith;
          chatter_lines = omega arith;
          unparsed_trades = omega arith;
          unparsed_creates = omega arith;
          trades = omega arith;
          creates = omega arith;
        });
      }

  pub hear_inbound-IsHeard :
      (wall : ℤ) (m : WsInbound F) (ls : List Text) (s : Recording D T)
      → IsHeard
          (archived outside sol_usd wall (line_kind m))
          (line_kind m)
          ls
          s
          (hear_inbound outside sol_usd wall m (noted_line ls s))
  unfolding hear_inbound line_kind archived noted_line count_chatter one_malformed one_chatter
      one_unparsed_trade one_unparsed_create one_trade one_create
  hear_inbound-IsHeard wall malformed ls s = record {
    same_lines = refl;
    adds = sym (append-nil s.events);
    steps = record {
      messages = omega arith;
      malformed_lines = omega arith;
      chatter_lines = omega arith;
      unparsed_trades = omega arith;
      unparsed_creates = omega arith;
      trades = omega arith;
      creates = omega arith;
    };
  }
  hear_inbound-IsHeard wall chatter ls s = record {
    same_lines = refl;
    adds = sym (append-nil s.events);
    steps = record {
      messages = omega arith;
      malformed_lines = omega arith;
      chatter_lines = omega arith;
      unparsed_trades = omega arith;
      unparsed_creates = omega arith;
      trades = omega arith;
      creates = omega arith;
    };
  }
  hear_inbound-IsHeard wall (trade_attempt v) ls s = hear_trade-IsHeard wall (extract_trade v) ls s
  hear_inbound-IsHeard wall (create_attempt v) ls s =
      hear_create-IsHeard wall (extract_create v) ls s
