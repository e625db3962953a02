-- ===== src/WsFeed.antt =====
-- The websocket feed (src/wsfeed.rs): what is derived from its messages, the plan of its trade
-- subscriptions, and its backoff. Sockets and the parser of JSON are not modelled.
pub mod Wire
pub mod Extract
pub mod Routing
pub mod Subs
pub mod Enrich
use Prim.Native.Nat.{min}
use hfmcbot.Prelude.{
  ℕ, suc, ◌-◌, ◌*◌, Bool, true, false, not, List, [], ◌∷◌, length, leb, if◌then◌else◌,
}
use hfmcbot.Prelude.Sort.{contains, sort_by}
use hfmcbot.Prelude.Text.{Text}

-- the subscribed mints that are no longer open
unfoldable pub stale : List Text → List Text → List Text
unfolding contains
stale open_mints [] = []
stale open_mints (m ∷ subscribed) =
    if contains open_mints m then stale open_mints subscribed else m ∷ stale open_mints subscribed

-- the loop over the open mints, with `used` slots taken
unfoldable pub new_subs : List Text → ℕ → ℕ → List Text → List Text
unfolding contains
new_subs subscribed limit used [] = []
new_subs subscribed limit used (m ∷ open_mints) =
    let held = contains subscribed m in
    let rest = new_subs subscribed limit (if held then used else suc used) open_mints in
    if leb limit used then [] else if held then rest else m ∷ rest

-- `plan_trade_subs`; the set of the subscribed mints is the list of its elements
unfoldable pub plan_trade_subs : List Text → List Text → ℕ → List Text × List Text
unfolding stale new_subs sort_by
plan_trade_subs open_mints subscribed limit =
    let to_unsub = sort_by (λ m. m) (stale open_mints subscribed) in
    (new_subs subscribed limit (length subscribed - length to_unsub) open_mints, to_unsub)

abbrev pub u64_max : ℕ
u64_max = 18446744073709551615

-- `current.saturating_mul(2).min(60)`
unfoldable pub next_backoff_secs : ℕ → ℕ
next_backoff_secs current = min (min (current * 2) u64_max) 60
