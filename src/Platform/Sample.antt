-- ===== src/Platform/Sample.antt =====
-- A concrete platform, for tests and examples: whole dollars as integers, and instants as
-- seconds since the epoch. It meets every law that the theorems assume.
use hfmcbot.Prelude.{ℕ, suc, ◌/◌, ◌≡◌, true, false, none, some, ◌==◌, arith, leb}
use hfmcbot.Platform.Floats.{Floats, FromFloat}
use hfmcbot.Prelude.Int.{ℤ, pos, negsuc, pos_part, sub_ℕ, ◌+ℤ◌, ◌-ℤ◌, ◌*ℤ◌, ◌/ℤ◌, leb_ℤ, int_laws}
use hfmcbot.Platform.Decimal.{Decimal, dec, lt, IsOrdered, IsExact}
use hfmcbot.Platform.Chrono.{Chrono, IsChronological}

instance abbrev pub whole_dollars : Decimal ℤ
whole_dollars = record {
  of_u64 = pos;
  neg = λ a. pos 0 -ℤ a;
  add = ◌+ℤ◌;
  sub = ◌-ℤ◌;
  mul = ◌*ℤ◌;
  div = ◌/ℤ◌;
  le = leb_ℤ;
  floor = λ a. a;
  round_dp = λ _ a. a;
}

pub whole_dollars-IsOrdered : IsOrdered ℤ
whole_dollars-IsOrdered = record {
  le_refl = λ a. ground arith;
  le_trans = λ a b c h k. ground arith;
  le_antisymm = λ a b h k. ground arith;
  le_total = λ a b. ground arith;
}

whole_add_pos : (a b : ℤ) → lt (dec 0) a ≡ true → lt (dec 0) b ≡ true → lt (dec 0) (a +ℤ b) ≡ true
unfolding ◌+ℤ◌
whole_add_pos a b h k = ground arith

whole_mul_zero : (a : ℤ) → a *ℤ pos 0 ≡ pos 0
unfolding ◌*ℤ◌
whole_mul_zero a = ground arith

whole_mul_suc : (a : ℤ) (n : ℕ) → a *ℤ pos (suc n) ≡ a *ℤ pos n +ℤ a
unfolding ◌*ℤ◌ ◌+ℤ◌
whole_mul_suc (pos a) n = ground arith
whole_mul_suc (negsuc a) n = ground arith

pub whole_dollars-IsExact : IsExact ℤ
whole_dollars-IsExact = record {
  add_comm = λ a b. omega int_laws;
  add_assoc = λ a b c. omega int_laws;
  add-zero = λ a. omega int_laws;
  sub-add = λ a b. omega int_laws;
  add-sub = λ a b. omega int_laws;
  add_pos = whole_add_pos;
  mul-dec_zero = whole_mul_zero;
  mul-dec_suc = whole_mul_suc;
}

instance abbrev pub unix_seconds : Chrono ℕ
unix_seconds = record {
  num_seconds = sub_ℕ;
  date_naive = λ t. t / 86400;
  plus_seconds = λ t n. pos_part (pos t +ℤ n);
  before = leb;
}

pub unix_seconds-IsChronological : IsChronological ℕ
unix_seconds-IsChronological = record {
  before_refl = λ a. ground arith;
  before_trans = λ a b c h k. ground arith;
  age_antitone = λ now a b h. ground arith;
}

-- floats as whole numbers
instance abbrev pub whole_floats : Floats ℕ
whole_floats = record {
  of_u64 = λ n. n;
  of_neg = λ n. 0;
  parse_trimmed = λ s. none;
  is_finite = λ x. true;
  le_zero = λ x. x == 0;
  lt_zero = λ x. false;
}

instance abbrev pub whole_from_float : FromFloat ℕ ℤ
whole_from_float = record { from_f64_retain = λ x. some (pos x) }
