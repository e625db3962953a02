-- ===== src/Prelude/Sort.antt =====
-- Sorting by a text key, stable as Rust's `sort_by` is, and membership among texts.
use mathlib.Core.Path.{◌≡◌, refl}
use Prim.Native.Nat.{suc}
use mathlib.Core.Logic.{inl, inr}
use mathlib.Core.Bool.{Bool, true, false, ◌&&◌, ◌||◌}
use mathlib.Core.List.{List, [], ◌∷◌, Perm}
use mathlib.Core.List.Perm
use native.Mathlib.Omega.{arith}
use hfmcbot.Prelude.Lists.{length, All}
use hfmcbot.Prelude.Tests.{ltb, ◌==◌, if◌then◌else◌, Bool-cases}
use hfmcbot.Prelude.Text.{Text, text_eq}

-- `a < b` on strings: by bytes, from the left
unfoldable pub text_lt : Text → Text → Bool
text_lt [] [] = false
text_lt [] (y ∷ ys) = true
text_lt (x ∷ xs) [] = false
text_lt (x ∷ xs) (y ∷ ys) = ltb x y || (x == y) && text_lt xs ys

module _ {A : Type 0} where
  -- the element in front of the first one that is not under it
  unfoldable pub insert_sorted : (A → Text) → A → List A → List A
  unfolding text_lt
  insert_sorted key a [] = a ∷ []
  insert_sorted key a (b ∷ bs) =
      if text_lt (key b) (key a) then b ∷ insert_sorted key a bs else a ∷ b ∷ bs

  unfoldable pub sort_by : (A → Text) → List A → List A
  unfolding insert_sorted
  sort_by key [] = []
  sort_by key (a ∷ rest) = insert_sorted key a (sort_by key rest)

  length-insert_sorted :
      (key : A → Text) (a : A) (bs : List A) → length (insert_sorted key a bs) ≡ suc (length bs)
  unfolding insert_sorted
  length-insert_sorted key a [] = refl
  length-insert_sorted key a (b ∷ bs) = ground (arith, length-insert_sorted key a bs)

  pub length-sort_by : (key : A → Text) (xs : List A) → length (sort_by key xs) ≡ length xs
  unfolding sort_by
  length-sort_by key [] = refl
  length-sort_by key (a ∷ rest) =
      omega (arith, length-insert_sorted key a (sort_by key rest), length-sort_by key rest)

  -- No element is under one before it.
  abbrev pub IsSortedBy : (A → Text) → List A → Type 0
  IsSortedBy key [] = Unit
  IsSortedBy key (a ∷ rest) = All (λ b. text_lt (key b) (key a) ≡ false) rest × IsSortedBy key rest

text_lt_asymm : (s t : Text) → text_lt s t ≡ true → text_lt t s ≡ false
unfolding text_lt
text_lt_asymm [] [] h = refl
text_lt_asymm [] (y ∷ ys) h = refl
text_lt_asymm (x ∷ xs) [] h = cc
text_lt_asymm (x ∷ xs) (y ∷ ys) h = ground (arith, text_lt_asymm xs ys)

-- not (s > t) and not (t > u) give not (s > u)
text_ge_trans : (s t u : Text) → text_lt t s ≡ false → text_lt u t ≡ false → text_lt u s ≡ false
unfolding text_lt
text_ge_trans [] t [] h k = refl
text_ge_trans [] [] (z ∷ zs) h k = refl
text_ge_trans [] (y ∷ ys) (z ∷ zs) h k = refl
text_ge_trans (x ∷ xs) [] u h k = cc
text_ge_trans (x ∷ xs) (y ∷ ys) [] h k = cc
text_ge_trans (x ∷ xs) (y ∷ ys) (z ∷ zs) h k = ground (arith, text_ge_trans xs ys zs)

module _ {A : Type 0} where
  All-above :
      (key : A → Text) (a b : A) (bs : List A)
      → text_lt (key b) (key a) ≡ false
      → All (λ c. text_lt (key c) (key b) ≡ false) bs
      → All (λ c. text_lt (key c) (key a) ≡ false) bs
  All-above key a b [] h k = tt
  All-above key a b (c ∷ cs) h k =
      (text_ge_trans (key a) (key b) (key c) h k.0, All-above key a b cs h k.1)

  All-insert_sorted :
      (key : A → Text) (P : A → Type 0) (a : A) (bs : List A)
      → P a
      → All P bs
      → All P (insert_sorted key a bs)
  unfolding insert_sorted
  All-insert_sorted key P a [] p h = (p, tt)
  All-insert_sorted key P a (b ∷ bs) p h = elim (Bool-cases (text_lt (key b) (key a))) [
    | inl under ↦ rw under (h.0, All-insert_sorted key P a bs p h.1)
    | inr not_under ↦ rw not_under (p, h)
  ]

  insert_sorted-IsSortedBy :
      (key : A → Text) (a : A) (bs : List A)
      → IsSortedBy key bs
      → IsSortedBy key (insert_sorted key a bs)
  unfolding insert_sorted
  insert_sorted-IsSortedBy key a [] h = (tt, tt)
  insert_sorted-IsSortedBy key a (b ∷ bs) h = elim (Bool-cases (text_lt (key b) (key a))) [
    | inl under ↦ rw under (
      All-insert_sorted key (λ c. text_lt (key c) (key b) ≡ false) a bs
          (text_lt_asymm (key b) (key a) under) h.0,
      insert_sorted-IsSortedBy key a bs h.1,
    )
    | inr above ↦ rw above ((above, All-above key a b bs above h.0), h)
  ]

  pub sort_by-IsSortedBy : (key : A → Text) (xs : List A) → IsSortedBy key (sort_by key xs)
  unfolding sort_by
  sort_by-IsSortedBy key [] = tt
  sort_by-IsSortedBy key (a ∷ rest) =
      insert_sorted-IsSortedBy key a (sort_by key rest) (sort_by-IsSortedBy key rest)

-- `contains` of a list or set of strings
unfoldable pub contains : List Text → Text → Bool
contains [] t = false
contains (s ∷ rest) t = text_eq s t || contains rest t

contains-insert_sorted :
    (a t : Text) (bs : List Text)
    → contains (insert_sorted (λ s. s) a bs) t ≡ (text_eq a t || contains bs t)
unfolding contains insert_sorted
contains-insert_sorted a t [] = refl
contains-insert_sorted a t (b ∷ bs) = ground (arith, contains-insert_sorted a t bs)

pub contains-sort_by :
    (t : Text) (xs : List Text) → contains (sort_by (λ s. s) xs) t ≡ contains xs t
unfolding contains sort_by
contains-sort_by t [] = refl
contains-sort_by t (a ∷ rest) =
    rw (contains-insert_sorted a t (sort_by (λ s. s) rest), contains-sort_by t rest) refl

-- sorting keeps the elements
module _ {A : Type 0} where
  insert_sorted-Perm :
      (key : A → Text) (a : A) (bs : List A) → Perm (insert_sorted key a bs) (a ∷ bs)
  unfolding insert_sorted
  insert_sorted-Perm key a [] = Perm.rfl
  insert_sorted-Perm key a (b ∷ bs) = elim (Bool-cases (text_lt (key b) (key a))) [
    | inl under ↦
        rw under (Perm.trans (Perm.cons b (insert_sorted-Perm key a bs)) (Perm.swap a b bs))
    | inr over ↦ rw over Perm.rfl
  ]

  pub sort_by-Perm : (key : A → Text) (xs : List A) → Perm (sort_by key xs) xs
  unfolding sort_by
  sort_by-Perm key [] = Perm.rfl
  sort_by-Perm key (a ∷ rest) =
      Perm.trans (insert_sorted-Perm key a (sort_by key rest)) (Perm.cons a (sort_by-Perm key rest))
