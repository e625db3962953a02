-- ===== src/Ingest/Replay.antt =====
-- The replay feed (src/ingest.rs, `ReplayFeed`): the events of a file of lines, in the order of their
-- times. The parser of a line is a parameter.
use mathlib.Core.List.{Perm}
use mathlib.Core.List.Perm
use hfmcbot.Prelude.{
  ℕ, zero, suc, ◌≤◌, ap, ◌≡◌, ◌⊎◌, inl, inr, refl, arith, Bool, true, false, ◌&&◌, Bool-cases, List,
  [], ◌∷◌, Option, none, some, length, All, if_ind, ◌==◌, if◌then◌else◌,
}
use hfmcbot.Prelude.Strings.{trim}
use hfmcbot.Prelude.Text.{Text}
use hfmcbot.Platform.Chrono.{Chrono, IsChronological, before}
use hfmcbot.Types.{Event, event_ts}

-- an empty line, or one that two slashes (47) start
is_comment : Text → Bool
is_comment [] = true
is_comment (a ∷ []) = false
is_comment (a ∷ b ∷ line) = a == 47 && b == 47

module _ {D T : Type 0} where
  -- `collect` of the lines: the first one that does not parse is the error
  unfoldable pub parse_lines : (Text → Option (Event D T)) → List Text → Option (List (Event D T))
  unfolding trim is_comment
  parse_lines parse [] = some []
  parse_lines parse (line ∷ rest) =
      let trimmed = trim line in
      let later = parse_lines parse rest in
      if is_comment trimmed then later else elim (parse trimmed) [
        | none ↦ none
        | some ev ↦ elim later [ none ↦ none | some events ↦ some (ev ∷ events) ]
      ]

module _ {D T : Type 0} ⦃c : Chrono T⦄ where
  -- `sort_by_key`, which is stable: an event stands before those of its time that came after it
  unfoldable pub insert_event : Event D T → List (Event D T) → List (Event D T)
  unfolding event_ts
  insert_event ev [] = ev ∷ []
  insert_event ev (first ∷ events) =
      if before (event_ts ev) (event_ts first)
      then ev ∷ first ∷ events
      else first ∷ insert_event ev events

  -- the feed is the list of its events
  unfoldable pub from_events : List (Event D T) → List (Event D T)
  unfolding insert_event
  from_events [] = []
  from_events (ev ∷ events) = insert_event ev (from_events events)

  unfoldable pub from_path : (Text → Option (Event D T)) → List Text → Option (List (Event D T))
  unfolding parse_lines from_events
  from_path parse lines = elim (parse_lines parse lines) [
    | none ↦ none
    | some events ↦ some (from_events events)
  ]

unfoldable pub next_event :
    {D T : Type 0} → List (Event D T) → Option (Event D T) × List (Event D T)
next_event [] = (none, [])
next_event (ev ∷ events) = (some ev, events)

-- what a consumer takes of a feed until it is exhausted
unfoldable pub drain : {D T : Type 0} → ℕ → List (Event D T) → List (Event D T)
unfolding next_event
drain zero feed = []
drain (suc rounds) feed =
    let (ev, rest) = next_event feed in
    let later = drain rounds rest in elim ev [ none ↦ [] | some e ↦ e ∷ later ]

flipped :
    {T : Type 0} ⦃c : Chrono T⦄
    → ((a b : T) → (before a b ≡ true) ⊎ (before b a ≡ true))
    → (t u : T) → before t u ≡ false
    → before u t ≡ true
flipped total t u late = elim (total t u) [ inl h ↦ ground arith | inr h ↦ h ]

module _ {D T : Type 0} ⦃c : Chrono T⦄ where
  -- No event is later than one behind it.
  abbrev pub IsInOrder : List (Event D T) → Type 0
  IsInOrder [] = Unit
  IsInOrder (ev ∷ events) =
      All (λ e. before (event_ts ev) (event_ts e) ≡ true) events × IsInOrder events

  insert_event-All :
      (P : Event D T → Type 0) (ev : Event D T) (events : List (Event D T))
      → P ev
      → All P events
      → All P (insert_event ev events)
  unfolding insert_event
  insert_event-All P ev [] p h = (p, tt)
  insert_event-All P ev (first ∷ events) p h =
      if_ind (All P) (before (event_ts ev) (event_ts first)) (p, h)
        (h.0, insert_event-All P ev events p h.1)

  All-later :
      (chron : IsChronological T) (t u : T) (events : List (Event D T))
      → before t u ≡ true
      → All (λ e. before u (event_ts e) ≡ true) events
      → All (λ e. before t (event_ts e) ≡ true) events
  All-later chron t u [] h k = tt
  All-later chron t u (e ∷ events) h k =
      (chron.before_trans t u (event_ts e) h k.0, All-later chron t u events h k.1)

  insert_event-IsInOrder :
      (chron : IsChronological T) (total : (a b : T) → (before a b ≡ true) ⊎ (before b a ≡ true))
      (ev : Event D T) (events : List (Event D T))
      → IsInOrder events
      → IsInOrder (insert_event ev events)
  unfolding insert_event
  insert_event-IsInOrder chron total ev [] h = (tt, tt)
  insert_event-IsInOrder chron total ev (first ∷ events) (h, k) =
      elim (Bool-cases (before (event_ts ev) (event_ts first))) [
        | inl early ↦
            rw early
              ((early, All-later chron (event_ts ev) (event_ts first) events early h), (h, k))
        | inr late ↦ rw late (
          insert_event-All _ ev events (flipped total _ _ late) h,
          insert_event-IsInOrder chron total ev events k,
        )
      ]

  insert_event-Perm :
      (ev : Event D T) (events : List (Event D T)) → Perm (insert_event ev events) (ev ∷ events)
  unfolding insert_event
  insert_event-Perm ev [] = Perm.rfl
  insert_event-Perm ev (first ∷ events) =
      elim (Bool-cases (before (event_ts ev) (event_ts first))) [
        | inl early ↦ rw early Perm.rfl
        | inr late ↦
            rw late (
              Perm.trans (Perm.cons first (insert_event-Perm ev events))
                (Perm.swap ev first events))
      ]

  from_events-Perm : (events : List (Event D T)) → Perm (from_events events) events
  unfolding from_events
  from_events-Perm [] = Perm.rfl
  from_events-Perm (ev ∷ events) =
      Perm.trans (insert_event-Perm ev (from_events events))
        (Perm.cons ev (from_events-Perm events))

  length-insert_event :
      (ev : Event D T) (events : List (Event D T))
      → length (insert_event ev events) ≡ suc (length events)
  unfolding insert_event
  length-insert_event ev [] = refl
  length-insert_event ev (first ∷ events) = ground (arith, length-insert_event ev events)

  length-from_events : (events : List (Event D T)) → length (from_events events) ≡ length events
  unfolding from_events
  length-from_events [] = refl
  length-from_events (ev ∷ events) =
      omega (arith, length-insert_event ev (from_events events), length-from_events events)

  from_events-IsInOrder :
      (chron : IsChronological T) (total : (a b : T) → (before a b ≡ true) ⊎ (before b a ≡ true))
      (events : List (Event D T))
      → IsInOrder (from_events events)
  unfolding from_events
  from_events-IsInOrder chron total [] = tt
  from_events-IsInOrder chron total (ev ∷ events) =
      insert_event-IsInOrder chron total ev (from_events events)
        (from_events-IsInOrder chron total events)

too_long : {n : ℕ} → suc n ≤ 0 → ⊥
too_long h = omega arith

drain-all :
    {D T : Type 0} (rounds : ℕ) (feed : List (Event D T))
    → length feed ≤ rounds
    → drain rounds feed ≡ feed
unfolding drain next_event
drain-all zero [] h = refl
drain-all zero (ev ∷ feed) h = elim (too_long h) [ ]
drain-all (suc rounds) [] h = refl
drain-all (suc rounds) (ev ∷ feed) h = ap (◌∷◌ ev) (drain-all rounds feed (omega arith))

-- The events of the replay: each of them once, none later than one behind it.
pub record IsReplay {D T : Type 0} ⦃c : Chrono T⦄ (events out : List (Event D T)) : Type 0 where
  pub in_order : IsInOrder out
  pub same_events : Perm out events

-- Where times are ordered, a consumer that asks as often as there are events gets each of them once,
-- and none later than one behind it.
pub drain-IsReplay :
    {D T : Type 0} ⦃c : Chrono T⦄ (chron : IsChronological T)
    (total : (a b : T) → (before a b ≡ true) ⊎ (before b a ≡ true)) (events : List (Event D T))
    (rounds : ℕ)
    → length events ≤ rounds
    → IsReplay events (drain rounds (from_events events))
drain-IsReplay chron total events rounds h =
    let all = drain-all rounds (from_events events) (omega (arith, length-from_events events)) in
    rw all (record {
      in_order = from_events-IsInOrder chron total events;
      same_events = from_events-Perm events;
    })
