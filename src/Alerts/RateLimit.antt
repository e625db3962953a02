-- ===== src/Alerts/RateLimit.antt =====
-- The rate limit (src/alerts.rs, `fire`): two alerts of one kind that were both new are the
-- interval apart.
use hfmcbot.Prelude.{
  ℕ, ◌+◌, ◌≤◌, ◌<◌, ◌≡◌, ◌⊎◌, inl, inr, refl, sym, true, false, List, [], ◌∷◌, Option, some, All,
  Bool-cases, arith, if◌then◌else◌,
}
use mathlib.Core.Path.{subst}
use hfmcbot.Prelude.Text.{Text}
use hfmcbot.Alerts.{AlertKind, Alerter, same_kind, kind_index, is_limited, note_sent, fire}

-- a call of `fire`: both clocks, the kind and the detail
pub record Call (T : Type 0) : Type 0 where
  pub now : ℕ
  pub at : T
  pub kind : AlertKind
  pub detail : Text

same_kind→eq : (j k : AlertKind) → same_kind j k ≡ true → j ≡ k
unfolding same_kind kind_index
same_kind→eq j k h = ground arith

same_kind_refl : (k : AlertKind) → same_kind k k ≡ true
unfolding same_kind kind_index
same_kind_refl k = ground arith

note_sent_here :
    (kind : AlertKind) (now : ℕ) (last_sent : AlertKind → Option ℕ)
    → note_sent kind now last_sent kind ≡ some now
unfolding note_sent
note_sent_here kind now last_sent = rw (same_kind_refl kind) refl

module _ {T : Type 0} where
  -- The calls, one after another: the alerter, and the calls that were new, the newest first.
  unfoldable pub fire_all : List (Call T) → Alerter T → List (Call T) → Alerter T × List (Call T)
  unfolding fire
  fire_all [] a sent = (a, sent)
  fire_all (call ∷ calls) a sent =
      let (a', new) = fire a call.now call.at call.kind call.detail in
      fire_all calls a' (if new then call ∷ sent else sent)

  -- the other call is of another kind, or at least the interval earlier
  abbrev pub IsApart : ℕ → Call T → Call T → Type 0
  IsApart interval later earlier =
      (same_kind later.kind earlier.kind ≡ false) ⊎ (earlier.now + interval ≤ later.now)

  -- Each call is apart from every one before it.
  abbrev pub AreSpaced : ℕ → List (Call T) → Type 0
  AreSpaced interval [] = Unit
  AreSpaced interval (call ∷ sent) = All (IsApart interval call) sent × AreSpaced interval sent

  -- The kind was last sent at or after the call.
  abbrev Covers : (AlertKind → Option ℕ) → Call T → Type 0
  Covers last_sent call = (t : ℕ) × (last_sent call.kind ≡ some t) × (call.now ≤ t)

  is_limited-IsApart :
      (interval : ℕ) (last_sent : AlertKind → Option ℕ) (later earlier : Call T)
      → 0 < interval
      → is_limited interval later.now (last_sent later.kind) ≡ false
      → Covers last_sent earlier
      → IsApart interval later earlier
  unfolding is_limited
  is_limited-IsApart interval last_sent later earlier pos new (t, sent, covered) =
      ground (arith, same_kind→eq later.kind earlier.kind)

  note_sent-Covers :
      (interval : ℕ) (last_sent : AlertKind → Option ℕ) (later earlier : Call T)
      → IsApart interval later earlier
      → Covers last_sent earlier
      → Covers (note_sent later.kind later.now last_sent) earlier
  unfolding note_sent
  note_sent-Covers interval last_sent later earlier (inl other) (t, sent, covered) =
      (t, ground arith, covered)
  note_sent-Covers interval last_sent later earlier (inr apart) (t, sent, covered) =
      elim (Bool-cases (same_kind later.kind earlier.kind)) [
        | inl same ↦ (later.now, ground arith, omega arith)
        | inr other ↦ (t, ground arith, covered)
      ]

  All-IsApart :
      (interval : ℕ) (last_sent : AlertKind → Option ℕ) (later : Call T) (sent : List (Call T))
      → 0 < interval
      → is_limited interval later.now (last_sent later.kind) ≡ false
      → All (Covers last_sent) sent
      → All (IsApart interval later) sent
        × All (Covers (note_sent later.kind later.now last_sent)) sent
  All-IsApart interval last_sent later [] pos new h = (tt, tt)
  All-IsApart interval last_sent later (earlier ∷ sent) pos new (covered, h) =
      let apart = is_limited-IsApart interval last_sent later earlier pos new covered in
      let (aparts, covers) = All-IsApart interval last_sent later sent pos new h in
      ((apart, aparts), (note_sent-Covers interval last_sent later earlier apart covered, covers))

  fire_all-limited :
      (call : Call T) (calls : List (Call T)) (a : Alerter T) (sent : List (Call T))
      → is_limited a.min_interval call.now (a.last_sent call.kind) ≡ true
      → fire_all calls a sent ≡ fire_all (call ∷ calls) a sent
  unfolding fire_all fire
  fire_all-limited call calls a sent limited = rw limited refl

  fire_all-new :
      (call : Call T) (calls : List (Call T)) (a : Alerter T) (sent : List (Call T))
      → is_limited a.min_interval call.now (a.last_sent call.kind) ≡ false
      → fire_all calls (fire a call.now call.at call.kind call.detail).0 (call ∷ sent)
        ≡ fire_all (call ∷ calls) a sent
  unfolding fire_all fire
  fire_all-new call calls a sent new = rw new refl

  fire-new :
      (call : Call T) (a : Alerter T)
      → is_limited a.min_interval call.now (a.last_sent call.kind) ≡ false
      → ((fire a call.now call.at call.kind call.detail).0.min_interval ≡ a.min_interval)
        × ((fire a call.now call.at call.kind call.detail).0.last_sent
            ≡ note_sent call.kind call.now a.last_sent)
  unfolding fire
  fire-new call a new = rw new (refl, refl)

  fire_all-spaced :
      (calls : List (Call T)) (a : Alerter T) (sent : List (Call T))
      → 0 < a.min_interval
      → All (Covers a.last_sent) sent
      → AreSpaced a.min_interval sent
      → AreSpaced a.min_interval (fire_all calls a sent).1
  unfolding fire_all
  fire_all-spaced [] a sent pos covers spaced = spaced
  fire_all-spaced (call ∷ calls) a sent pos covers spaced =
      elim (Bool-cases (is_limited a.min_interval call.now (a.last_sent call.kind))) [
        | inl limited ↦
            subst (λ r. AreSpaced a.min_interval r.1) (fire_all-limited call calls a sent limited)
              (fire_all-spaced calls a sent pos covers spaced)
        | inr new ↦
            let (aparts, covers') =
              All-IsApart a.min_interval a.last_sent call sent pos new covers in
            let here : Covers (note_sent call.kind call.now a.last_sent) call =
              (call.now, note_sent_here call.kind call.now a.last_sent, omega arith) in
            let a' = (fire a call.now call.at call.kind call.detail).0 in
            let (same_interval, noted) = fire-new call a new in
            subst (λ r. AreSpaced a.min_interval r.1) (fire_all-new call calls a sent new)
              (subst (λ i. AreSpaced i (fire_all calls a' (call ∷ sent)).1) same_interval
                (fire_all-spaced calls a' (call ∷ sent) (subst (λ i. 0 < i) (sym same_interval) pos)
                  (subst (λ last. All (Covers last) (call ∷ sent)) (sym noted) (here, covers'))
                  (subst (λ i. AreSpaced i (call ∷ sent)) (sym same_interval) (aparts, spaced))))
      ]

  -- Where the interval is above zero, the new ones among any calls of `fire` on an alerter are, two
  -- by two, of different kinds or at least the interval apart, whatever the clocks do.
  pub fire_all-AreSpaced :
      (calls : List (Call T)) (a : Alerter T)
      → 0 < a.min_interval
      → AreSpaced a.min_interval (fire_all calls a []).1
  fire_all-AreSpaced calls a pos = fire_all-spaced calls a [] pos tt tt
