-- ===== src/Recorder/Verbatim.antt =====
-- What the recorder keeps of a session (src/wsfeed.rs, `run_ws_loop`): its lines, the count of its
-- messages by kind, and the archive of what they say.
use mathlib.Core.List.{append_assoc, append-nil}
use hfmcbot.Prelude.{ℕ, ◌≡◌, ◌∙◌, refl, sym, ap, arith, List, [], ◌∷◌, ◌++◌, Option, some}
use hfmcbot.Prelude.Int.{ℤ}
use hfmcbot.Prelude.Text.{Text}
use hfmcbot.LiveLoop.{
  Outside, text, binary, frame, close, error, count_gap, count_message, count_chatter,
}
use hfmcbot.Platform.Chrono.{Chrono}
use hfmcbot.Platform.Decimal.{Decimal}
use hfmcbot.Platform.Floats.{Floats, FromFloat}
use hfmcbot.Recorder.{
  Heard, shutdown, ended, received, Recording, hear_inbound, hear_message, hear_all,
}
use hfmcbot.Recorder.Kinds.{
  lines, Kind, is_chatter, line_kind, kinds, IsCounted, none-IsCounted, step-IsCounted, archived,
  archive, one_malformed, one_chatter, one_unparsed_trade, one_unparsed_create, one_trade,
  one_create,
}
use hfmcbot.WsFeed.Wire.{parse_ws_line}
use hfmcbot.Recorder.Messages.{IsHeard, gap-IsCounted, noted_line, hear_inbound-IsHeard}

module _ {F D T : Type 0} ⦃d : Decimal D⦄ ⦃c : Chrono T⦄ ⦃floats : Floats F⦄ ⦃from : FromFloat F D⦄
    (outside : Outside F T) (sol_usd : Option D) where
  -- A session keeps its lines and what they say, in order, and counts its messages by their kinds.
  pub record IsVerbatim (heard : List Heard) (s s' : Recording D T) : Type 0 where
    pub keeps_lines : s'.raw_lines ≡ s.raw_lines ++ lines heard
    pub keeps_archive : s'.events ≡ s.events ++ archive outside sol_usd (kinds outside heard)
    pub counts : IsCounted (kinds outside heard) s.stats s'.stats

  -- a session that is over, or at rest
  over-IsVerbatim :
      (s : Recording D T) (heard : List Heard)
      → lines heard ≡ []
      → kinds outside heard ≡ []
      → IsVerbatim heard s s
  unfolding archive
  over-IsVerbatim s heard silent still = record {
    keeps_lines = sym (append-nil s.raw_lines) ∙ ap (◌++◌ s.raw_lines) (sym silent);
    keeps_archive =
        sym (append-nil s.events) ∙ ap (λ ks. s.events ++ archive outside sol_usd ks) (sym still);
    counts = rw still (none-IsCounted s.stats);
  }

  -- the reading of the clock before a message
  gap-IsVerbatim :
      (t : Option ℕ) (mono : ℕ) (heard : List Heard) (s s' : Recording D T)
      → IsVerbatim heard (record s { last_msg = some mono; stats = count_gap t mono s.stats }) s'
      → IsVerbatim heard s s'
  gap-IsVerbatim t mono heard s s' h = record {
    keeps_lines = h.keeps_lines;
    keeps_archive = h.keeps_archive;
    counts = gap-IsCounted t mono (kinds outside heard) s.stats s'.stats h.counts;
  }

  -- a message that counts, in front of the others
  heard-IsVerbatim :
      (wall : ℤ) (k : Kind F) (ls : List Text) (heard heard' : List Heard) (s s1 s' : Recording D T)
      → kinds outside heard' ≡ (wall, k) ∷ kinds outside heard
      → lines heard' ≡ ls ++ lines heard
      → IsHeard (archived outside sol_usd wall k) k (s.raw_lines ++ ls) s s1
      → IsVerbatim heard s1 s'
      → IsVerbatim heard' s s'
  unfolding archive
  heard-IsVerbatim wall k ls heard heard' s s1 s' same_kinds same h rest = record {
    keeps_lines =
        rest.keeps_lines
        ∙ ap (λ q. q ++ lines heard) h.same_lines
        ∙ append_assoc s.raw_lines ls (lines heard)
        ∙ ap (◌++◌ s.raw_lines) (sym same);
    keeps_archive =
        rest.keeps_archive
        ∙ ap (λ q. q ++ archive outside sol_usd (kinds outside heard)) h.adds
        ∙ append_assoc s.events (archived outside sol_usd wall k)
            (archive outside sol_usd (kinds outside heard))
        ∙ ap (λ ks. s.events ++ archive outside sol_usd ks) (sym same_kinds);
    counts =
        rw same_kinds (
          step-IsCounted wall k (kinds outside heard) s.stats s1.stats s'.stats h.steps
            rest.counts);
  }

  binary-IsHeard :
      (wall : ℤ) (s : Recording D T)
      → IsHeard {F = F}
          (archived outside sol_usd wall is_chatter)
          is_chatter
          (s.raw_lines ++ [])
          s
          (record s { stats = count_chatter (count_message s.stats) })
  unfolding archived count_chatter count_message one_malformed one_chatter one_unparsed_trade
      one_unparsed_create one_trade one_create
  binary-IsHeard wall s = record {
    same_lines = sym (append-nil s.raw_lines);
    adds = sym (append-nil s.events);
    steps = record {
      messages = omega arith;
      malformed_lines = omega arith;
      chatter_lines = omega arith;
      unparsed_trades = omega arith;
      unparsed_creates = omega arith;
      trades = omega arith;
      creates = omega arith;
    };
  }

  -- Up to what ends a session, each of its lines is in the archive of lines, in order and as it came;
  -- each text or binary message is counted, and counted as what the parser and the extraction make of
  -- it: malformed, chatter (binary ones too), a create or a trade that was read, or one that was not;
  -- and the archive of events gets, in order, for each create and each trade that was read its raw
  -- record at its wall clock, and where there is a rate the event that it enriches to, and nothing
  -- else.
  pub hear_all-IsVerbatim :
      (heard : List Heard) (s : Recording D T)
      → IsVerbatim heard s (hear_all outside sol_usd heard s).0
  unfolding hear_all hear_message kinds
  hear_all-IsVerbatim [] s = over-IsVerbatim s [] refl refl
  hear_all-IsVerbatim (shutdown ∷ heard) s = over-IsVerbatim s (shutdown ∷ heard) refl refl
  hear_all-IsVerbatim (ended ∷ heard) s = over-IsVerbatim s (ended ∷ heard) refl refl
  hear_all-IsVerbatim (received wall mono (text line) ∷ heard) s =
      let noted = record s { last_msg = some mono; stats = count_gap s.last_msg mono s.stats } in
      let m = parse_ws_line outside.parse line in
      let ls = s.raw_lines ++ line ∷ [] in
      let all = received wall mono (text line) ∷ heard in
      let s1 = hear_inbound outside sol_usd wall m (noted_line ls noted) in
      gap-IsVerbatim s.last_msg mono all s (hear_all outside sol_usd heard s1).0 (
        heard-IsVerbatim wall (line_kind m) (line ∷ []) heard all noted s1 _ refl refl
          (hear_inbound-IsHeard outside sol_usd wall m ls noted) (hear_all-IsVerbatim heard s1))
  hear_all-IsVerbatim (received wall mono binary ∷ heard) s =
      let noted = record s { last_msg = some mono; stats = count_gap s.last_msg mono s.stats } in
      let all = received wall mono binary ∷ heard in
      let s1 = record noted { stats = count_chatter (count_message noted.stats) } in
      gap-IsVerbatim s.last_msg mono all s (hear_all outside sol_usd heard s1).0 (
        heard-IsVerbatim wall is_chatter [] heard all noted s1 _ refl refl
          (binary-IsHeard wall noted) (hear_all-IsVerbatim heard s1))
  hear_all-IsVerbatim (received wall mono frame ∷ heard) s =
      let noted = record s { last_msg = some mono; stats = count_gap s.last_msg mono s.stats } in
      let rest = hear_all-IsVerbatim heard noted in
      gap-IsVerbatim s.last_msg mono (received wall mono frame ∷ heard) s _ (record {
        keeps_lines = rest.keeps_lines;
        keeps_archive = rest.keeps_archive;
        counts = rest.counts;
      })
  hear_all-IsVerbatim (received wall mono close ∷ heard) s =
      gap-IsVerbatim s.last_msg mono (received wall mono close ∷ heard) s _
        (over-IsVerbatim _ _ refl refl)
  hear_all-IsVerbatim (received wall mono error ∷ heard) s =
      gap-IsVerbatim s.last_msg mono (received wall mono error ∷ heard) s _
        (over-IsVerbatim _ _ refl refl)
