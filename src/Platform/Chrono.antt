-- ===== src/Platform/Chrono.antt =====
-- The crate `chrono` as an interface: what the source asks of a `DateTime<Utc>`.
use hfmcbot.Prelude.{ℕ, ◌≡◌, Bool, true, not}
use hfmcbot.Prelude.Int.{ℤ, ◌≤ℤ◌}

pub record Chrono (T : Type 0) : Type 0 where
  -- `(a - b).num_seconds()`, rounded towards zero
  pub num_seconds : T → T → ℤ
  -- `date_naive()`: a date is only compared with another, and goes by its number
  pub date_naive : T → ℕ
  -- `t + Duration::seconds(n)`
  pub plus_seconds : T → ℤ → T
  -- `a <= b`
  pub before : T → T → Bool

module _ {T : Type 0} ⦃c : Chrono T⦄ where
  abbrev pub num_seconds : T → T → ℤ
  num_seconds = c.num_seconds

  abbrev pub date_naive : T → ℕ
  date_naive = c.date_naive

  abbrev pub plus_seconds : T → ℤ → T
  plus_seconds = c.plus_seconds

  abbrev pub before : T → T → Bool
  before = c.before

  -- `a > b`
  abbrev pub after : T → T → Bool
  after a b = not (c.before a b)

-- A later instant is seen from anywhere with fewer seconds behind it, and instants are ordered.
pub record IsChronological (T : Type 0) ⦃c : Chrono T⦄ : Type 0 where
  pub before_refl : (a : T) → before a a ≡ true
  pub before_trans : (a b c : T) → before a b ≡ true → before b c ≡ true → before a c ≡ true
  pub age_antitone : (now a b : T) → before a b ≡ true → num_seconds now b ≤ℤ num_seconds now a
