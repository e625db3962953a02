-- ===== src/WsFeed/Subs.antt =====
-- The plan of the trade subscriptions (src/wsfeed.rs, `plan_trade_subs`), and its backoff.
use Prim.Native.Nat.{max}
use hfmcbot.Prelude.{
  ℕ, suc, ◌+◌, ◌-◌, ◌≤◌, ◌<◌, ◌≡◌, ◌⊎◌, ◌∙◌, inl, inr, refl, true, false, ◌&&◌, ◌||◌, not, List, [],
  ◌∷◌, length, leb, All, arith, Bool-cases,
}
use hfmcbot.Prelude.Sort.{contains, sort_by, contains-sort_by, IsSortedBy, sort_by-IsSortedBy}
use hfmcbot.Prelude.Text.{Text, text_eq_iff}
use hfmcbot.WsFeed.{stale, new_subs, plan_trade_subs, next_backoff_secs}

contains-stale :
    (open_mints subscribed : List Text) (m : Text)
    → contains (stale open_mints subscribed) m
      ≡ (contains subscribed m && not (contains open_mints m))
unfolding stale contains
contains-stale open_mints [] m = refl
contains-stale open_mints (s ∷ subscribed) m =
    ground (arith, text_eq_iff s m, contains-stale open_mints subscribed m)

length-stale :
    (open_mints subscribed : List Text) → length (stale open_mints subscribed) ≤ length subscribed
unfolding stale
length-stale open_mints [] = omega arith
length-stale open_mints (s ∷ subscribed) = ground (arith, length-stale open_mints subscribed)

-- Each mint is open and was not subscribed.
abbrev pub AreNew : List Text → List Text → List Text → Type 0
AreNew open_mints subscribed =
    All (λ m. (contains open_mints m ≡ true) × (contains subscribed m ≡ false))

AreNew-cons :
    (m : Text) (open_mints subscribed subs : List Text)
    → AreNew open_mints subscribed subs
    → AreNew (m ∷ open_mints) subscribed subs
unfolding contains
AreNew-cons m open_mints subscribed [] h = tt
AreNew-cons m open_mints subscribed (s ∷ subs) h =
    ((ground arith, h.0.1), AreNew-cons m open_mints subscribed subs h.1)

new_subs-AreNew :
    (open_mints subscribed : List Text) (limit used : ℕ)
    → AreNew open_mints subscribed (new_subs subscribed limit used open_mints)
unfolding new_subs contains
new_subs-AreNew [] subscribed limit used = tt
new_subs-AreNew (m ∷ open_mints) subscribed limit used = elim (Bool-cases (leb limit used)) [
  | inl full ↦ rw full tt
  | inr room ↦ elim (Bool-cases (contains subscribed m)) [
    | inl held ↦
        rw (room, held)
          (AreNew-cons m open_mints subscribed _ (new_subs-AreNew open_mints subscribed limit used))
    | inr new ↦
        rw (room, new)
          (
            (ground (arith, text_eq_iff m m), new),
            AreNew-cons m open_mints subscribed _
                (new_subs-AreNew open_mints subscribed limit (suc used)),
          )
  ]
]

length-new_subs :
    (open_mints subscribed : List Text) (limit used : ℕ)
    → used + length (new_subs subscribed limit used open_mints) ≤ max limit used
unfolding new_subs
length-new_subs [] subscribed limit used = omega arith
length-new_subs (m ∷ open_mints) subscribed limit used = ground (
  arith,
  length-new_subs open_mints subscribed limit used,
  length-new_subs open_mints subscribed limit (suc used),
)

-- while the slots do not run out, every open mint is subscribed in the end
new_subs_complete :
    (open_mints subscribed : List Text) (limit used : ℕ) (m : Text)
    → used + length (new_subs subscribed limit used open_mints) < limit
    → contains open_mints m ≡ true
    → (contains subscribed m || contains (new_subs subscribed limit used open_mints) m) ≡ true
unfolding new_subs contains
new_subs_complete [] subscribed limit used m room h = cc
new_subs_complete (o ∷ open_mints) subscribed limit used m room h = ground (
  arith,
  text_eq_iff o m,
  new_subs_complete open_mints subscribed limit used m,
  new_subs_complete open_mints subscribed limit (suc used) m,
)

-- What a plan is: it drops exactly the subscribed mints that are not open, takes on only open mints
-- that are not subscribed, goes over the limit only by what is held already, leaves an open mint out
-- only where the limit is reached, and is sorted in what it drops.
pub record IsPlan (open_mints subscribed : List Text) (limit : ℕ) (plan : List Text × List Text)
    : Type 0 where
  pub drops :
      (m : Text) → contains plan.1 m ≡ (contains subscribed m && not (contains open_mints m))
  pub fresh : AreNew open_mints subscribed plan.0
  pub capped :
      length subscribed - length plan.1 + length plan.0
      ≤ max limit (length subscribed - length plan.1)
  pub complete :
      (m : Text)
      → length subscribed - length plan.1 + length plan.0 < limit
      → contains open_mints m ≡ true
      → (contains subscribed m || contains plan.0 m) ≡ true
  pub sorted : IsSortedBy (λ m. m) plan.1

-- `plan_trade_subs` makes a plan, for all open mints, all subscriptions and every limit.
pub plan_trade_subs-IsPlan :
    (open_mints subscribed : List Text) (limit : ℕ)
    → IsPlan open_mints subscribed limit (plan_trade_subs open_mints subscribed limit)
unfolding plan_trade_subs
plan_trade_subs-IsPlan open_mints subscribed limit =
    let gone = stale open_mints subscribed in
    let used = length subscribed - length (sort_by (λ m. m) gone) in
    record {
      drops = λ m. contains-sort_by m gone ∙ contains-stale open_mints subscribed m;
      fresh = new_subs-AreNew open_mints subscribed limit used;
      capped = length-new_subs open_mints subscribed limit used;
      complete = λ m. new_subs_complete open_mints subscribed limit used m;
      sorted = sort_by-IsSortedBy (λ m. m) gone;
    }

-- From a backoff of at least one second on, each step at least doubles it or holds it at a minute,
-- and never passes a minute.
pub next_backoff_secs_bounds :
    (b : ℕ)
    → 0 < b
    → (next_backoff_secs b ≤ 60) × ((next_backoff_secs b ≡ b + b) ⊎ (next_backoff_secs b ≡ 60))
unfolding next_backoff_secs
next_backoff_secs_bounds b h = ground arith
