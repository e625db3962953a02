-- ===== src/Decode/Codec.antt =====
-- Reading back what was written, at any place of the bytes (src/decode.rs, the Borsh primitives).
use hfmcbot.Prelude.{
  ℕ, zero, suc, ◌+◌, ◌-◌, ◌/◌, ◌%◌, ◌^◌, ◌<◌, ◌≤◌, leb, ◌≡◌, refl, ap, sym, ◌∙◌, true, List, [],
  ◌∷◌, ◌++◌, some, length, take, drop, arith, length-append, lt→ltb,
}
use hfmcbot.Prelude.Text.{Text}
use hfmcbot.Borsh.{
  get_range, checked_add, read_bytes, from_le_bytes, read_u64, is_utf8, read_borsh_str,
}

-- The specification of the format: a number as its lowest `w` bytes, and a string behind its
-- length.
abbrev pub put_le : ℕ → ℕ → List ℕ
put_le zero n = []
put_le (suc w) n = n % 256 ∷ put_le w (n / 256)

abbrev pub put_str : Text → List ℕ
put_str s = put_le 4 (length s) ++ s

module _ {A : Type 0} where
  drop-nil : (n : ℕ) → drop {A = A} n [] ≡ []
  drop-nil zero = refl
  drop-nil (suc n) = refl

  drop-drop : (m n k : ℕ) (xs : List A) → m + n ≡ k → drop k xs ≡ drop n (drop m xs)
  drop-drop zero n k xs e = ap (λ i. drop i xs) (omega (arith, e))
  drop-drop (suc m) n k [] e = drop-nil k ∙ sym (drop-nil n)
  drop-drop (suc m) n zero (x ∷ xs) e = ground (arith, e)
  drop-drop (suc m) n (suc k) (x ∷ xs) e = drop-drop m n k xs (omega (arith, e))

  drop-append : (xs ys : List A) → drop (length xs) (xs ++ ys) ≡ ys
  drop-append [] ys = refl
  drop-append (x ∷ xs) ys = drop-append xs ys

  take-append : (xs ys : List A) → take (length xs) (xs ++ ys) ≡ xs
  take-append [] ys = refl
  take-append (x ∷ xs) ys = ap (λ r. x ∷ r) (take-append xs ys)

le→leb : (a b : ℕ) → a ≤ b → leb a b ≡ true
le→leb a b h = ground arith

length-put_le : (w n : ℕ) → length (put_le w n) ≡ w
length-put_le zero n = refl
length-put_le (suc w) n = ap suc (length-put_le w (n / 256))

from_le_bytes-put_le : (w n : ℕ) → n < 256 ^ w → from_le_bytes (put_le w n) ≡ n
unfolding from_le_bytes
from_le_bytes-put_le zero n h = omega arith
from_le_bytes-put_le (suc w) n h = omega (arith, from_le_bytes-put_le w (n / 256) (omega arith))

-- The bytes from the offset on are `rest`, and there are fewer bytes than a usize counts.
pub record IsAt (bs : List ℕ) (off : ℕ) (rest : List ℕ) : Type 0 where
  pub ahead : drop off bs ≡ rest
  pub inside : off + length rest ≡ length bs
  pub counted : length bs < 2 ^ 64

pub read_bytes-field :
    (n : ℕ) (bs : List ℕ) (off : ℕ) (field rest : List ℕ)
    → length field ≡ n
    → IsAt bs off (field ++ rest)
    → read_bytes n bs off ≡ some (field, off + n)
unfolding read_bytes get_range checked_add
read_bytes-field n bs off field rest e h =
    let counted =
      lt→ltb (off + n) (2 ^ 64) (omega (arith, e, h.inside, h.counted, length-append field rest)) in
    let start = le→leb off (off + n) (omega arith) in
    let end = le→leb (off + n) (length bs) (omega (arith, e, h.inside, length-append field rest)) in
    let same : off + n - off ≡ length field = omega (arith, e) in
    rw (counted, start, end, h.ahead, same, take-append field rest) refl

pub IsAt-read :
    (n : ℕ) (bs : List ℕ) (off : ℕ) (field rest : List ℕ)
    → length field ≡ n
    → IsAt bs off (field ++ rest)
    → IsAt bs (off + n) rest
IsAt-read n bs off field rest e h = record {
  ahead =
      drop-drop off n (off + n) bs refl
      ∙ ap (drop n) h.ahead
      ∙ ap (λ k. drop k (field ++ rest)) (sym e)
      ∙ drop-append field rest;
  inside = omega (arith, h.inside, length-append field rest);
  counted = h.counted;
}

pub read_u64-put_le :
    (bs : List ℕ) (off n : ℕ) (rest : List ℕ)
    → n < 2 ^ 64
    → IsAt bs off (put_le 8 n ++ rest)
    → read_u64 bs off ≡ some (n, off + 8)
unfolding read_u64
read_u64-put_le bs off n rest small h =
    rw
      (
        read_bytes-field 8 bs off (put_le 8 n) rest (length-put_le 8 n) h,
        from_le_bytes-put_le 8 n small,
      )
      refl

pub read_borsh_str-put_str :
    (bs : List ℕ) (off : ℕ) (s : Text) (rest : List ℕ)
    → length s < 2 ^ 32
    → is_utf8 s ≡ true
    → IsAt bs off (put_str s ++ rest)
    → read_borsh_str bs off ≡ some (s, off + 4 + length s)
unfolding read_borsh_str
read_borsh_str-put_str bs off s rest small valid h =
    let len = put_le 4 (length s) in
    let behind = IsAt-read 4 bs off len (s ++ rest) (length-put_le 4 (length s)) h in
    rw
      (
        read_bytes-field 4 bs off len (s ++ rest) (length-put_le 4 (length s)) h,
        from_le_bytes-put_le 4 (length s) small,
        read_bytes-field (length s) bs (off + 4) s rest refl behind,
        valid,
      )
      refl

pub IsAt-put_str :
    (bs : List ℕ) (off : ℕ) (s : Text) (rest : List ℕ)
    → IsAt bs off (put_str s ++ rest)
    → IsAt bs (off + 4 + length s) rest
IsAt-put_str bs off s rest h =
    IsAt-read (length s) bs (off + 4) s rest refl
      (IsAt-read 4 bs off (put_le 4 (length s)) (s ++ rest) (length-put_le 4 (length s)) h)

pub IsAt-put_le :
    (bs : List ℕ) (off w n : ℕ) (rest : List ℕ)
    → IsAt bs off (put_le w n ++ rest)
    → IsAt bs (off + w) rest
IsAt-put_le bs off w n rest h = IsAt-read w bs off (put_le w n) rest (length-put_le w n) h
