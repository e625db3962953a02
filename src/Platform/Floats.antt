-- ===== src/Platform/Floats.antt =====
-- `f64` as an interface: what the source does with a float before it becomes a `Decimal`.
use hfmcbot.Prelude.{ℕ, Bool, Option}
use hfmcbot.Prelude.Text.{Text}

pub record Floats (F : Type 0) : Type 0 where
  -- `n as f64` of a u64, and of the i64 that is -(n + 1)
  pub of_u64 : ℕ → F
  pub of_neg : ℕ → F
  -- `s.trim().parse::<f64>().ok()`
  pub parse_trimmed : Text → Option F
  pub is_finite : F → Bool
  -- `x <= 0.0` and `x < 0.0`
  pub le_zero : F → Bool
  pub lt_zero : F → Bool

pub record FromFloat (F D : Type 0) : Type 0 where
  -- `Decimal::from_f64_retain`
  pub from_f64_retain : F → Option D
