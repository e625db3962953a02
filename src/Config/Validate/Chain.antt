-- ===== src/Config/Validate/Chain.antt =====
-- Chains of tests, of which the first failure is reported (src/config.rs, `validate`).
use hfmcbot.Prelude.{
  ℕ, suc, ◌≡◌, refl, Bool, true, false, List, [], ◌∷◌, ◌++◌, none, All, All-append, arith,
}
use hfmcbot.Prelude.Text.{Text}
use hfmcbot.Config.Validate.{ConfigError, first_error, account_tests, any_blank}
use hfmcbot.Prelude.Strings.{is_blank}

abbrev pub Passes : List (Bool × ConfigError) → Type 0
Passes = All (λ t. t.0 ≡ true)

pub first_error-Passes : (ts : List (Bool × ConfigError)) → first_error ts ≡ none → Passes ts
unfolding first_error
first_error-Passes [] h = tt
first_error-Passes ((true, e) ∷ ts) h = (refl, first_error-Passes ts h)
first_error-Passes ((false, e) ∷ ts) h = cc

pub Passes-first_error : (ts : List (Bool × ConfigError)) → Passes ts → first_error ts ≡ none
unfolding first_error
Passes-first_error [] h = refl
Passes-first_error ((ok, e) ∷ ts) h = rw h.0 (Passes-first_error ts h.1)

pub Passes-append : (xs ys : List (Bool × ConfigError)) → Passes xs → Passes ys → Passes (xs ++ ys)
Passes-append = All-append (λ t. t.0 ≡ true)

pub All-unappend : (xs ys : List (Bool × ConfigError)) → Passes (xs ++ ys) → Passes xs × Passes ys
All-unappend [] ys h = (tt, h)
All-unappend (x ∷ xs) ys h = let (l, r) = All-unappend xs ys h.1 in ((h.0, l), r)

pub account_tests-All :
    (is_pubkey : Text → Bool) (i : ℕ) (accounts : List Text)
    → Passes (account_tests is_pubkey i accounts)
    → All (λ a. is_pubkey a ≡ true) accounts
unfolding account_tests
account_tests-All is_pubkey i [] h = tt
account_tests-All is_pubkey i (a ∷ rest) h = (h.0, account_tests-All is_pubkey (suc i) rest h.1)

pub All-account_tests :
    (is_pubkey : Text → Bool) (i : ℕ) (accounts : List Text)
    → All (λ a. is_pubkey a ≡ true) accounts
    → Passes (account_tests is_pubkey i accounts)
unfolding account_tests
All-account_tests is_pubkey i [] h = tt
All-account_tests is_pubkey i (a ∷ rest) h = (h.0, All-account_tests is_pubkey (suc i) rest h.1)

pub any_blank-All : (us : List Text) → any_blank us ≡ false → All (λ u. is_blank u ≡ false) us
unfolding any_blank
any_blank-All [] h = tt
any_blank-All (u ∷ us) h = (ground arith, any_blank-All us (ground arith))

pub All-any_blank : (us : List Text) → All (λ u. is_blank u ≡ false) us → any_blank us ≡ false
unfolding any_blank
All-any_blank [] h = refl
All-any_blank (u ∷ us) h = rw (h.0, All-any_blank us h.1) refl
