-- ===== src/Live/Money.antt =====
-- The conversions of money (src/live.rs): dollars and lamports, base units and tokens, percents and
-- basis points, each rounded down.
use native.Mathlib.Nat.{mod-eq_of_lt, pow-le-pow_right}
use hfmcbot.Prelude.{
  ℕ, ◌%◌, ◌^◌, ◌<◌, ◌≤◌, ◌≡◌, ap, sym, ◌∙◌, true, Option, none, some, ◌==◌, arith, if◌then◌else◌,
}
use hfmcbot.Exec.{rejected}
use hfmcbot.Live.Rpc.{Reply, ok, err}
use hfmcbot.Platform.Decimal.{Decimal, Whole, IsWhole, le, lt, dec, floor, ◌⊗◌, ◌⊘◌}

abbrev pub lamports_per_sol : ℕ
lamports_per_sol = 1000000000

-- the end of a conversion: no number, zero, or a number above zero
unfoldable pub non_zero : Option ℕ → Reply ℕ
non_zero none = err rejected
non_zero (some v) = if v == 0 then err rejected else ok v

non_zero_inv : (o : Option ℕ) (v : ℕ) → non_zero o ≡ ok v → (o ≡ some v) × (0 < v)
unfolding non_zero
non_zero_inv none v h = (ground arith, ground arith)
non_zero_inv (some w) v h = (ground arith, ground arith)

-- `map_err` of a parse
unfoldable pub parsed : Option ℕ → Reply ℕ
parsed none = err rejected
parsed (some v) = ok v

module _ {D : Type 0} ⦃d : Decimal D⦄ where
  unfoldable pub lamports_to_usd : ℕ → D → D
  lamports_to_usd lamports sol_usd = dec lamports ⊘ dec lamports_per_sol ⊗ sol_usd

  -- `10u64.pow` wraps around where overflow is not checked
  unfoldable pub pow10 : ℕ → D
  pow10 decimals = dec (10 ^ decimals % 2 ^ 64)

  unfoldable pub raw_to_decimal : ℕ → ℕ → D
  unfolding pow10
  raw_to_decimal raw decimals = dec raw ⊘ pow10 decimals

module _ {D : Type 0} ⦃d : Decimal D⦄ ⦃whole : Whole D⦄ where
  unfoldable pub usd_to_lamports_floor : D → D → Reply ℕ
  unfolding non_zero
  usd_to_lamports_floor budget_usd sol_usd =
      if le sol_usd (dec 0)
      then err rejected
      else if le budget_usd (dec 0)
      then err rejected
      else non_zero (whole.parse_u64 (floor (budget_usd ⊘ sol_usd ⊗ dec lamports_per_sol)))

  unfoldable pub decimal_to_raw_floor : D → ℕ → Reply ℕ
  unfolding non_zero pow10
  decimal_to_raw_floor qty decimals =
      if le qty (dec 0)
      then err rejected
      else non_zero (whole.parse_u64 (floor (qty ⊗ pow10 decimals)))

  unfoldable pub slippage_pct_to_bps : D → Reply ℕ
  unfolding parsed
  slippage_pct_to_bps pct =
      if lt pct (dec 0) then err rejected else parsed (whole.parse_u64 (floor (pct ⊗ dec 100)))

  pow10_exact : (decimals : ℕ) → decimals < 20 → pow10 {D = D} decimals ≡ dec (10 ^ decimals)
  unfolding pow10
  pow10_exact decimals h =
      let small : 10 ^ decimals ≤ 10 ^ 19 = pow-le-pow_right (omega arith) {j = 19} (omega arith) in
      ap dec (mod-eq_of_lt (omega (arith, small)))

  floor_parsed :
      IsWhole D → (a : D) (v : ℕ) → whole.parse_u64 (floor a) ≡ some v → le (dec v) a ≡ true
  floor_parsed laws a v h = ap (λ t. le t a) (laws.parse_exact (floor a) v h) ∙ laws.floor_le a

  non_zero-floor :
      IsWhole D
      → (a : D) (v : ℕ) → non_zero (whole.parse_u64 (floor a)) ≡ ok v
      → (0 < v) × (le (dec v) a ≡ true)
  non_zero-floor laws a v h =
      let (is_v, pos) = non_zero_inv (whole.parse_u64 (floor a)) v h in
      (pos, floor_parsed laws a v is_v)

  -- A budget of dollars becomes lamports only at a rate and a budget above zero, and then as at least
  -- one lamport and at most what the budget buys.
  pub usd_to_lamports_floor-le :
      (budget_usd sol_usd : D) (v : ℕ)
      → IsWhole D
      → usd_to_lamports_floor budget_usd sol_usd ≡ ok v
      → (lt (dec 0) sol_usd ≡ true)
        × (lt (dec 0) budget_usd ≡ true)
        × (0 < v)
        × (le (dec v) (budget_usd ⊘ sol_usd ⊗ dec lamports_per_sol) ≡ true)
  unfolding usd_to_lamports_floor
  usd_to_lamports_floor-le budget_usd sol_usd v laws h =
      let (pos, below) =
        non_zero-floor laws (budget_usd ⊘ sol_usd ⊗ dec lamports_per_sol) v (ground arith) in
      (ground arith, ground arith, pos, below)

  -- A quantity of a token with fewer than 20 decimals becomes base units only where it is above zero,
  -- and then as at least one unit and at most its own number of units.
  pub decimal_to_raw_floor-le :
      (qty : D) (decimals v : ℕ)
      → IsWhole D
      → decimals < 20
      → decimal_to_raw_floor qty decimals ≡ ok v
      → (lt (dec 0) qty ≡ true) × (0 < v) × (le (dec v) (qty ⊗ dec (10 ^ decimals)) ≡ true)
  unfolding decimal_to_raw_floor
  decimal_to_raw_floor-le qty decimals v laws small h =
      let (pos, below) = non_zero-floor laws (qty ⊗ pow10 decimals) v (ground arith) in
      (ground arith, pos, ap (λ t. le (dec v) (qty ⊗ t)) (sym (pow10_exact decimals small)) ∙ below)
