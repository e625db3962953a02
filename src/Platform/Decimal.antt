-- ===== src/Platform/Decimal.antt =====
-- The crate `rust_decimal` as an interface: the operations that the source calls on `Decimal`,
-- and, apart from them, the laws that a proof may assume. A value stands for the number that it
-- denotes, so 1.0 and 1.00 are one. The operations are total: the model speaks of the runs in
-- which none of them panics on an overflow.
use hfmcbot.Prelude.{ℕ, suc, ◌≡◌, ◌⊎◌, Bool, true, ◌&&◌, not, Option, some, if◌then◌else◌}

pub record Decimal (D : Type 0) : Type 0 where
  -- `Decimal::from` of an unsigned integer
  pub of_u64 : ℕ → D
  pub neg : D → D
  pub add : D → D → D
  pub sub : D → D → D
  pub mul : D → D → D
  pub div : D → D → D
  -- `a <= b`
  pub le : D → D → Bool
  pub floor : D → D
  -- `a.round_dp(n)` is `round_dp n a`
  pub round_dp : ℕ → D → D

infixl 65 ◌⊕◌ ◌⊖◌
infixl 70 ◌⊗◌ ◌⊘◌
module _ {D : Type 0} ⦃d : Decimal D⦄ where
  abbrev pub ◌⊕◌ : D → D → D
  ◌⊕◌ = d.add

  abbrev pub ◌⊖◌ : D → D → D
  ◌⊖◌ = d.sub

  abbrev pub ◌⊗◌ : D → D → D
  ◌⊗◌ = d.mul

  abbrev pub ◌⊘◌ : D → D → D
  ◌⊘◌ = d.div

  abbrev pub dec : ℕ → D
  dec = d.of_u64

  abbrev pub negate : D → D
  negate = d.neg

  abbrev pub le : D → D → Bool
  le = d.le

  abbrev pub lt : D → D → Bool
  lt a b = not (d.le b a)

  abbrev pub gt : D → D → Bool
  gt a b = not (d.le a b)

  -- `a == b`
  abbrev pub eqb : D → D → Bool
  eqb a b = d.le a b && d.le b a

  abbrev pub floor : D → D
  floor = d.floor

  abbrev pub round_dp : ℕ → D → D
  round_dp = d.round_dp

  -- `Ord::min` and `Ord::max`
  abbrev pub dec_min : D → D → D
  dec_min a b = if d.le a b then a else b

  abbrev pub dec_max : D → D → D
  dec_max a b = if d.le a b then b else a

-- `Decimal` is ordered by the numbers that its values denote.
pub record IsOrdered (D : Type 0) ⦃d : Decimal D⦄ : Type 0 where
  pub le_refl : (a : D) → le a a ≡ true
  pub le_trans : (a b c : D) → le a b ≡ true → le b c ≡ true → le a c ≡ true
  pub le_antisymm : (a b : D) → le a b ≡ true → le b a ≡ true → a ≡ b
  pub le_total : (a b : D) → (le a b ≡ true) ⊎ (le b a ≡ true)

-- Sums and differences are exact while their digits fit into the 96 bits of a `Decimal`.
pub record IsExact (D : Type 0) ⦃d : Decimal D⦄ : Type 0 where
  pub add_comm : (a b : D) → a ⊕ b ≡ b ⊕ a
  pub add_assoc : (a b c : D) → a ⊕ b ⊕ c ≡ a ⊕ (b ⊕ c)
  pub add-zero : (a : D) → a ⊕ dec 0 ≡ a
  pub sub-add : (a b : D) → a ⊖ b ⊕ b ≡ a
  pub add-sub : (a b : D) → a ⊕ b ⊖ b ≡ a
  pub add_pos : (a b : D) → lt (dec 0) a ≡ true → lt (dec 0) b ≡ true → lt (dec 0) (a ⊕ b) ≡ true
  -- `a * Decimal::from(n)` is a sum of n terms
  pub mul-dec_zero : (a : D) → a ⊗ dec 0 ≡ dec 0
  pub mul-dec_suc : (a : D) (n : ℕ) → a ⊗ dec (suc n) ≡ a ⊗ dec n ⊕ a

-- `to_string().parse::<u64>().ok()` of a `Decimal`
pub record Whole (D : Type 0) : Type 0 where
  pub parse_u64 : D → Option ℕ

-- The text of a `Decimal` is its number, and `floor` rounds down.
pub record IsWhole (D : Type 0) ⦃d : Decimal D⦄ ⦃whole : Whole D⦄ : Type 0 where
  pub parse_exact : (a : D) (n : ℕ) → whole.parse_u64 a ≡ some n → dec n ≡ a
  pub floor_le : (a : D) → le (floor a) a ≡ true
