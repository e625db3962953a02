-- ===== src/Alerts.antt =====
-- The alerter (src/alerts.rs): its kinds, its rate limit per kind, and its channel. Instants of the
-- monotonic clock are nanoseconds. The webhook worker is not modelled.
pub mod RateLimit
use hfmcbot.Prelude.{
  ℕ, ◌-◌, ◌*◌, Bool, true, false, List, [], ◌∷◌, ◌++◌, Option, none, some, ltb, ◌==◌, if◌then◌else◌,
}
use hfmcbot.Prelude.Text.{Text, bytes}

pub data AlertKind : Type 0 where
  kill_switch daily_loss_trip position_stuck transport_unknown snapshot_failed : AlertKind

unfoldable pub as_str : AlertKind → Text
as_str kill_switch = bytes "kill_switch"
as_str daily_loss_trip = bytes "daily_loss_trip"
as_str position_stuck = bytes "position_stuck"
as_str transport_unknown = bytes "transport_unknown"
as_str snapshot_failed = bytes "snapshot_failed"

-- the position of a kind, by which the derived equality compares
unfoldable pub kind_index : AlertKind → ℕ
kind_index kill_switch = 0
kind_index daily_loss_trip = 1
kind_index position_stuck = 2
kind_index transport_unknown = 3
kind_index snapshot_failed = 4

unfoldable pub same_kind : AlertKind → AlertKind → Bool
unfolding kind_index
same_kind j k = kind_index j == kind_index k

-- `at` is the wall clock, of the type T
pub record Alert (T : Type 0) : Type 0 where
  pub kind : AlertKind
  pub detail : Text
  pub at : T

-- `webhook` says whether there is a channel, `queued` holds what was sent to it, the newest last,
-- and `last_sent` is the map of the kinds.
pub record Alerter (T : Type 0) : Type 0 where
  pub webhook : Bool
  pub min_interval : ℕ
  pub last_sent : AlertKind → Option ℕ
  pub queued : List (Alert T)

-- the test on the last alert of the kind
unfoldable pub is_limited : ℕ → ℕ → Option ℕ → Bool
is_limited min_interval now none = false
is_limited min_interval now (some last) = ltb (now - last) min_interval

-- `st.last_sent.insert(kind, now)`
unfoldable pub note_sent : AlertKind → ℕ → (AlertKind → Option ℕ) → AlertKind → Option ℕ
unfolding same_kind
note_sent kind now last_sent k = if same_kind kind k then some now else last_sent k

module _ {T : Type 0} where
  unfoldable pub new : Bool → ℕ → Alerter T
  new webhook min_interval_secs = record {
    webhook = webhook;
    min_interval = min_interval_secs * 1000000000;
    last_sent = λ kind. none;
    queued = [];
  }

  -- `fire` at the instant `now` of the monotonic and `at` of the wall clock; it answers whether the
  -- alert was new
  unfoldable pub fire : Alerter T → ℕ → T → AlertKind → Text → Alerter T × Bool
  unfolding is_limited note_sent
  fire a now at kind detail =
      let alert : Alert T = record { kind = kind; detail = detail; at = at } in
      if is_limited a.min_interval now (a.last_sent kind) then (a, false) else (
        record a {
          last_sent = note_sent kind now a.last_sent;
          queued = if a.webhook then a.queued ++ (alert ∷ []) else a.queued;
        },
        true,
      )
