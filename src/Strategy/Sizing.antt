-- ===== src/Strategy/Sizing.antt =====
-- Sizing and the funnel (src/strategy.rs).
use hfmcbot.Prelude.{
  ℕ, zero, suc, ◌-◌, ◌<◌, ◌≡◌, ◌⊎◌, inl, inr, refl, sym, ap, ◌∙◌, true, List, [], ◌∷◌, ◌++◌, some,
  length, replicate, length-append, length-replicate, arith, Bool-cases, ◌==◌, ◌||◌, if◌then◌else◌,
}
use hfmcbot.Platform.Decimal.{
  Decimal, IsOrdered, IsExact, ◌⊕◌, ◌⊖◌, ◌⊗◌, ◌⊘◌, dec, le, lt, gt, dec_min, dec_max, floor,
  round_dp,
}
use hfmcbot.Config.{Config}
use hfmcbot.Engine.Book.{sum}
use hfmcbot.Engine.Sums.{total, total-append, sum-eq-total}
use hfmcbot.Strategy.{position_budget, split_into_slices}

module _ {D : Type 0} ⦃d : Decimal D⦄ where
  -- What a budget keeps to: the share of equity that may be risked on one trade, the limit of one
  -- position, and the capital that is free.
  pub record IsWithin (risk_cap hard_cap free budget : D) : Type 0 where
    pub under_risk : le budget risk_cap ≡ true
    pub under_hard : le budget hard_cap ≡ true
    pub under_free : (le budget free ≡ true) ⊎ ((budget ≡ dec 0) × (lt free (dec 0) ≡ true))

  capped : D → D → D → D
  capped risk_cap hard_cap free =
      let budget = dec_min risk_cap hard_cap in
      if lt free (dec 0) || gt budget free then dec_max free (dec 0) else budget

  capped-IsWithin :
      (r h f : D)
      → IsOrdered D
      → le (dec 0) r ≡ true
      → le (dec 0) h ≡ true
      → IsWithin r h f (capped r h f)
  unfolding capped
  capped-IsWithin r h f ordered pr ph = ground (
    arith,
    ordered.le_refl r,
    ordered.le_refl h,
    ordered.le_refl f,
    ordered.le_total r h,
    ordered.le_total r f,
    ordered.le_total h f,
    ordered.le_total f (dec 0),
    ordered.le_trans f r h,
    ordered.le_trans f h r,
    ordered.le_antisymm f (dec 0),
  )

  -- Where decimals are in order, with a risk share and a position limit that are not negative, the budget is within both of
  -- them and within the free capital; only where capital is over-deployed is it zero instead.
  pub position_budget-IsWithin :
      (cfg : Config D) (equity deployed : D)
      → IsOrdered D
      → le (dec 0) (equity ⊗ cfg.risk_per_trade_pct ⊘ dec 100) ≡ true
      → le (dec 0) cfg.max_single_pos_usd ≡ true
      → IsWithin
          (equity ⊗ cfg.risk_per_trade_pct ⊘ dec 100)
          cfg.max_single_pos_usd
          (equity ⊖ deployed)
          (position_budget cfg equity deployed)
  unfolding position_budget capped
  position_budget-IsWithin cfg equity deployed ordered risk hard =
      capped-IsWithin _ cfg.max_single_pos_usd (equity ⊖ deployed) ordered risk hard

module _ {D : Type 0} ⦃d : Decimal D⦄ (exact : IsExact D) where
  open exact use {add_comm, sub-add, mul-dec_zero, mul-dec_suc}

  total-replicate : (k : ℕ) (base : D) → total (replicate k base) ≡ base ⊗ dec k
  total-replicate zero base = sym (mul-dec_zero base)
  total-replicate (suc k) base =
      ap (◌⊕◌ base) (total-replicate k base)
      ∙ add_comm base (base ⊗ dec k)
      ∙ sym (mul-dec_suc base k)

  slices_total :
      (amount base : D) (k : ℕ) → total (replicate k base ++ (amount ⊖ base ⊗ dec k) ∷ []) ≡ amount
  slices_total amount base k =
      total-append exact (replicate k base) (amount ⊖ base ⊗ dec k)
      ∙ ap (λ (t : D). t ⊕ (amount ⊖ base ⊗ dec k)) (total-replicate k base)
      ∙ add_comm (base ⊗ dec k) (amount ⊖ base ⊗ dec k)
      ∙ sub-add amount (base ⊗ dec k)

module _ {D : Type 0} ⦃d : Decimal D⦄ where
  -- The slices of a funnel: they sum to the budget, and are one or as many as were asked for.
  pub record IsSplit (amount : D) (n : ℕ) (slices : List D) : Type 0 where
    pub sums : sum slices ≡ amount
    pub count : (length slices ≡ 1) ⊎ (length slices ≡ n)

  one-IsSplit : (amount : D) (n : ℕ) → IsExact D → IsSplit amount n (amount ∷ [])
  one-IsSplit amount n exact = record {
    sums = sum-eq-total exact (amount ∷ []) ∙ exact.add-zero amount;
    count = inl refl;
  }

  many-IsSplit :
      (amount base : D) (n : ℕ)
      → 0 < n
      → IsExact D
      → IsSplit amount n (replicate (n - 1) base ++ (amount ⊖ base ⊗ dec (n - 1)) ∷ [])
  many-IsSplit amount base n pos exact = record {
    sums = sum-eq-total exact _ ∙ slices_total exact amount base (n - 1);
    count = inr (
        omega (
          arith,
          length-append (replicate (n - 1) base) ((amount ⊖ base ⊗ dec (n - 1)) ∷ []),
          length-replicate (n - 1) base,
        ));
  }

  -- Where sums are exact, a budget that is asked to be split into at least one slice is split: the slices sum exactly to
  -- it, and they are one or as many as were asked for.
  pub split_into_slices-IsSplit :
      (amount : D) (n : ℕ)
      → 0 < n
      → IsExact D
      → (slices : List D) × (split_into_slices amount n ≡ some slices) × IsSplit amount n slices
  unfolding split_into_slices
  split_into_slices-IsSplit amount n pos exact = elim (Bool-cases (n == 1 || le amount (dec 0))) [
    | inl single ↦ (amount ∷ [], ground arith, one-IsSplit amount n exact)
    | inr several ↦ elim (Bool-cases (le (round_dp 4 (floor (amount ⊘ dec n))) (dec 0))) [
      | inl small ↦ (amount ∷ [], ground arith, one-IsSplit amount n exact)
      | inr large ↦
          (_, ground arith, many-IsSplit amount (round_dp 4 (floor (amount ⊘ dec n))) n pos exact)
    ]
  ]
