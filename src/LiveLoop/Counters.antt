-- ===== src/LiveLoop/Counters.antt =====
-- The counters of the live loop (src/liveloop.rs): every message is counted, and counted once.
use hfmcbot.Prelude.{
  ℕ, suc, ◌+◌, ◌≡◌, refl, ap, sym, ◌∙◌, Bool, true, false, List, [], ◌∷◌, Option, none, some, arith,
  if◌then◌else◌, Bool-cases, inl, inr,
}
use hfmcbot.Prelude.Int.{ℤ}
use hfmcbot.Platform.Chrono.{Chrono}
use hfmcbot.Platform.Decimal.{Decimal}
use hfmcbot.Platform.Floats.{Floats, FromFloat}
use hfmcbot.Exec.{Executor}
use hfmcbot.Ingest.{FeedStats, RawFeedEvent}
use hfmcbot.Types.{Event}
use hfmcbot.WsFeed.Enrich.{EnrichedLaunch}
use hfmcbot.WsFeed.Extract.{extract_create}
use hfmcbot.WsFeed.Wire.{
  WsInbound, create_attempt, trade_attempt, chatter, malformed, PumpPortalCreate, parse_ws_line,
}
use hfmcbot.LiveLoop.{
  Sink, Outside, LiveLoopArgs, Session, WsMessage, text, binary, frame, close, error, Input,
  shutdown, ended, received, tick, count_gap, count_message, count_chatter, archive_typed,
  save_book, take_event, take_trade, take_launch, take_create, take_inbound, take_message, note_gap,
  stream_loop, save_enabled,
}

-- what the counters say became of the messages
abbrev pub classified : FeedStats → ℕ
classified st =
    st.ws_malformed + st.ws_chatter + st.ws_trades + st.ws_unparsed_trade + st.creates
    + st.ws_unparsed_create

-- Every message that was counted is of one of the six classes.
abbrev pub IsAccounted : FeedStats → Type 0
IsAccounted st = st.ws_messages ≡ classified st

-- One message more is classified, and no message more is counted.
abbrev CountsOne : FeedStats → FeedStats → Type 0
CountsOne st st' = (st'.ws_messages ≡ st.ws_messages) × (classified st' ≡ suc (classified st))

same_counts :
    (st : FeedStats) {st1 st2 : FeedStats} → st2 ≡ st1 → CountsOne st st1 → CountsOne st st2
same_counts st e (same, one) = (ap (λ st. st.ws_messages) e ∙ same, ap classified e ∙ one)

count_gap-IsAccounted :
    (t : Option ℕ) (now : ℕ) (st : FeedStats) → IsAccounted st → IsAccounted (count_gap t now st)
unfolding count_gap
count_gap-IsAccounted none now st h = h
count_gap-IsAccounted (some t) now st h = h

module _ {X F D T K : Type 0} ⦃d : Decimal D⦄ ⦃c : Chrono T⦄ ⦃ex : Executor X D T⦄
    ⦃floats : Floats F⦄ ⦃from : FromFloat F D⦄ ⦃sink : Sink K⦄ (outside : Outside F T)
    (args : LiveLoopArgs D) where
  take_event_stats :
      (wall : ℤ) (raw_event : RawFeedEvent) (ev : Event D T) (s : Session X D T K)
      → (take_event outside args wall raw_event ev s).stats ≡ s.stats
  unfolding take_event archive_typed
  take_event_stats wall raw_event ev s = elim (Bool-cases args.events_path) [
    | inl archived ↦ rw archived refl
    | inr not_archived ↦ rw not_archived refl
  ]

  take_launch_stats :
      (wall : ℤ) (create : PumpPortalCreate F) (o : Option (EnrichedLaunch D T))
      (s : Session X D T K)
      → (take_launch outside args wall create o s).stats ≡ s.stats
  unfolding take_launch
  take_launch_stats wall create none s = refl
  take_launch_stats wall create (some en) s = take_event_stats wall _ en.event s

  take_trade_stats :
      (wall : ℤ) (o : Option (RawFeedEvent × Event D T)) (s : Session X D T K)
      → CountsOne s.stats (take_trade outside args wall o s).stats
  unfolding take_trade
  take_trade_stats wall none s = (refl, omega arith)
  take_trade_stats wall (some (raw_event, ev)) s =
      same_counts s.stats (take_event_stats wall raw_event ev _) (refl, omega arith)

  take_create_stats :
      (wall : ℤ) (o : Option (PumpPortalCreate F)) (s : Session X D T K)
      → CountsOne s.stats (take_create outside args wall o s).stats
  unfolding take_create
  take_create_stats wall none s = (refl, omega arith)
  take_create_stats wall (some create) s =
      same_counts s.stats (take_launch_stats wall create _ _) (refl, omega arith)

  take_inbound_stats :
      (wall : ℤ) (m : WsInbound F) (s : Session X D T K)
      → CountsOne s.stats (take_inbound outside args wall m s).stats
  unfolding take_inbound count_chatter
  take_inbound_stats wall malformed s = (refl, omega arith)
  take_inbound_stats wall chatter s = (refl, omega arith)
  take_inbound_stats wall (trade_attempt v) s = take_trade_stats wall _ s
  take_inbound_stats wall (create_attempt v) s = take_create_stats wall (extract_create v) s

  take_message-IsAccounted :
      (wall : ℤ) (msg : WsMessage) (s : Session X D T K)
      → IsAccounted s.stats
      → IsAccounted (take_message outside args wall msg s).0.stats
  unfolding take_message count_message count_chatter
  take_message-IsAccounted wall (text line) s h =
      let (same, one) = take_inbound_stats wall (parse_ws_line outside.parse line) _ in
      same ∙ ap suc h ∙ sym one
  take_message-IsAccounted wall binary s h = omega arith
  take_message-IsAccounted wall frame s h = h
  take_message-IsAccounted wall close s h = h
  take_message-IsAccounted wall error s h = h

  note_gap-IsAccounted :
      (mono : ℕ) (s : Session X D T K)
      → IsAccounted s.stats
      → IsAccounted (note_gap outside args mono s).stats
  unfolding note_gap
  note_gap-IsAccounted mono s h = count_gap-IsAccounted s.last_msg mono s.stats h

  save_book_stats : (ok : Bool) (s : Session X D T K) → (save_book args ok s).stats ≡ s.stats
  unfolding save_book
  save_book_stats ok s = ground arith

  saved-IsAccounted :
      (enabled ok : Bool) (s : Session X D T K)
      → IsAccounted s.stats
      → IsAccounted (if enabled then save_book args ok s else s).stats
  saved-IsAccounted true ok s h =
      let e = save_book_stats ok s in ap (λ st. st.ws_messages) e ∙ h ∙ sym (ap classified e)
  saved-IsAccounted false ok s h = h

  -- Through a whole session every message that is counted is counted in exactly one of the six
  -- classes: malformed, chatter, trade, unparsed trade, create or unparsed create.
  pub stream_loop-IsAccounted :
      (inputs : List Input) (s : Session X D T K)
      → IsAccounted s.stats
      → IsAccounted (stream_loop outside args inputs s).0.stats
  unfolding stream_loop
  stream_loop-IsAccounted [] s h = h
  stream_loop-IsAccounted (shutdown ∷ inputs) s h = h
  stream_loop-IsAccounted (ended ∷ inputs) s h = h
  stream_loop-IsAccounted (tick ok ∷ inputs) s h =
      stream_loop-IsAccounted inputs _ (saved-IsAccounted (save_enabled args) ok s h)
  stream_loop-IsAccounted (received wall mono msg ∷ inputs) s h =
      let noted = note_gap-IsAccounted mono s h in
      let next = take_message-IsAccounted wall msg _ noted in
      elim (Bool-cases (take_message outside args wall msg (note_gap outside args mono s)).1) [
        | inl gone ↦ rw gone next
        | inr streaming ↦ rw streaming (stream_loop-IsAccounted inputs _ next)
      ]
