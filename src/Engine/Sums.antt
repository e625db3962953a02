-- ===== src/Engine/Sums.antt =====
-- Sums of exact amounts, over lists and over the values of a map.
use hfmcbot.Prelude.{◌≡◌, refl, sym, ap, ◌∙◌, List, [], ◌∷◌, ◌++◌, none, some, map, arith}
use hfmcbot.Prelude.Map.{HashMap, lookup, insert, remove, values}
use hfmcbot.Prelude.Text.{Text}
use hfmcbot.Platform.Decimal.{Decimal, IsExact, ◌⊕◌, ◌⊖◌, dec}
use hfmcbot.Engine.Book.{sum, sum_from}

module _ {D : Type 0} ⦃d : Decimal D⦄ where
  -- the sum as a recursion from the right
  abbrev pub total : List D → D
  total [] = dec 0
  total (x ∷ xs) = x ⊕ total xs

  abbrev pub weigh : {V : Type 0} → (V → D) → HashMap V → D
  weigh weight [] = dec 0
  weigh weight ((_, v) ∷ m) = weight v ⊕ weigh weight m

  pub weigh-total :
      {V : Type 0} (weight : V → D) (m : HashMap V) → weigh weight m ≡ total (map weight (values m))
  weigh-total weight [] = refl
  weigh-total weight ((k, v) ∷ m) = ap (◌⊕◌ (weight v)) (weigh-total weight m)

module _ {D : Type 0} ⦃d : Decimal D⦄ (exact : IsExact D) where
  open exact use {add_comm, add_assoc, add-zero, sub-add, add-sub}

  pub zero-add : (a : D) → dec 0 ⊕ a ≡ a
  zero-add a = add_comm (dec 0) a ∙ add-zero a

  pub add_right_comm : (a b c : D) → a ⊕ b ⊕ c ≡ a ⊕ c ⊕ b
  add_right_comm a b c = add_assoc a b c ∙ ap (◌⊕◌ a) (add_comm b c) ∙ sym (add_assoc a c b)

  pub add_swap_ends : (a b c : D) → a ⊕ b ⊕ c ≡ c ⊕ b ⊕ a
  add_swap_ends a b c = add_comm (a ⊕ b) c ∙ ap (◌⊕◌ c) (add_comm a b) ∙ sym (add_assoc c b a)

  pub add_cancel : (a b c : D) → a ⊕ c ≡ b ⊕ c → a ≡ b
  add_cancel a b c e = sym (add-sub a c) ∙ ap (λ (t : D). t ⊖ c) e ∙ add-sub b c

  pub eq-sub_of_add : (a b c : D) → a ⊕ c ≡ b → a ≡ b ⊖ c
  eq-sub_of_add a b c e = sym (add-sub a c) ∙ ap (λ (t : D). t ⊖ c) e

  sum_from-total : (acc : D) (xs : List D) → sum_from acc xs ≡ acc ⊕ total xs
  unfolding sum_from
  sum_from-total acc [] = sym (add-zero acc)
  sum_from-total acc (x ∷ xs) = sum_from-total (acc ⊕ x) xs ∙ add_assoc acc x (total xs)

  pub sum-eq-total : (xs : List D) → sum xs ≡ total xs
  unfolding sum
  sum-eq-total xs = sum_from-total (dec 0) xs ∙ zero-add (total xs)

  pub total-append : (xs : List D) (y : D) → total (xs ++ y ∷ []) ≡ total xs ⊕ y
  total-append [] y = add-zero y ∙ sym (zero-add y)
  total-append (x ∷ xs) y = ap (◌⊕◌ x) (total-append xs y) ∙ sym (add_assoc x (total xs) y)

  module _ {V : Type 0} (weight : V → D) where
    pub weigh-insert_new :
        (k : Text) (v : V) (m : HashMap V)
        → lookup k m ≡ none
        → weigh weight (insert k v m) ≡ weigh weight m ⊕ weight v
    unfolding lookup insert
    weigh-insert_new k v [] e = add_comm (weight v) (dec 0)
    weigh-insert_new k v ((j, w) ∷ m) e =
        ground (arith, weigh-insert_new k v m, add_assoc (weight w) (weigh weight m) (weight v))

    pub weigh-insert :
        (k : Text) (v w : V) (m : HashMap V)
        → lookup k m ≡ some w
        → weigh weight (insert k v m) ⊕ weight w ≡ weigh weight m ⊕ weight v
    unfolding lookup insert
    weigh-insert k v w [] e = cc
    weigh-insert k v w ((j, u) ∷ m) e = ground (
      arith,
      weigh-insert k v w m,
      add_swap_ends (weight v) (weigh weight m) (weight u),
      add_assoc (weight u) (weigh weight (insert k v m)) (weight w),
      add_assoc (weight u) (weigh weight m) (weight v),
    )

    pub weigh-remove :
        (k : Text) (w : V) (m : HashMap V)
        → lookup k m ≡ some w
        → weigh weight (remove k m) ⊕ weight w ≡ weigh weight m
    unfolding lookup remove
    weigh-remove k w [] e = cc
    weigh-remove k w ((j, u) ∷ m) e = ground (
      arith,
      weigh-remove k w m,
      add_comm (weigh weight m) (weight u),
      add_assoc (weight u) (weigh weight (remove k m)) (weight w),
    )
