-- ===== src/Prelude/Strings.antt =====
-- Methods of Rust's `str`, on UTF-8 bytes: white space, `trim`, numbers, lower case and `split`.
use hfmcbot.Prelude.{
  ℕ, ◌+◌, ◌-◌, ◌*◌, ◌^◌, Bool, true, false, ◌&&◌, ◌||◌, List, [], ◌∷◌, map, Option, none, some, ltb,
  leb, ◌==◌, if◌then◌else◌,
}
use hfmcbot.Prelude.Text.{Text}

-- The places inside a character of white space that takes several bytes.
pub data Place : Type 0 where
  start in_c2 in_e1 in_e1_9a in_e2 in_e2_80 in_e2_81 in_e3 in_e3_80 : Place

place_if : Bool → Place → Option Place
place_if b p = if b then some p else none

-- one byte further in a run of `White_Space` characters
blank_step : Place → ℕ → Option Place
unfolding place_if
blank_step start b =
    if leb 9 b && leb b 13 || b == 32
    then some start
    else if b == 0xc2
    then some in_c2
    else if b == 0xe1
    then some in_e1
    else if b == 0xe2
    then some in_e2
    else place_if (b == 0xe3) in_e3
blank_step in_c2 b = place_if (b == 0x85 || b == 0xa0) start
blank_step in_e1 b = place_if (b == 0x9a) in_e1_9a
blank_step in_e1_9a b = place_if (b == 0x80) start
blank_step in_e2 b = if b == 0x80 then some in_e2_80 else place_if (b == 0x81) in_e2_81
blank_step in_e2_80 b =
    place_if (leb 0x80 b && leb b 0x8a || b == 0xa8 || b == 0xa9 || b == 0xaf) start
blank_step in_e2_81 b = place_if (b == 0x9f) start
blank_step in_e3 b = place_if (b == 0x80) in_e3_80
blank_step in_e3_80 b = place_if (b == 0x80) start

blank_from : Option Place → Text → Bool
unfolding blank_step
blank_from none s = false
blank_from (some start) [] = true
blank_from (some _) [] = false
blank_from (some p) (b ∷ bs) = blank_from (blank_step p b) bs

-- `trim().is_empty()`: white space only
unfoldable pub is_blank : Text → Bool
unfolding blank_from
is_blank = blank_from (some start)

-- the text behind the white space that it starts with; `rest` is what is left when a character of
-- white space is not completed
skip_blank : Option Place → Text → Text → Text
unfolding blank_step
skip_blank none rest s = rest
skip_blank (some start) rest [] = []
skip_blank (some start) rest (b ∷ bs) = skip_blank (blank_step start b) (b ∷ bs) bs
skip_blank (some p) rest [] = rest
skip_blank (some p) rest (b ∷ bs) = skip_blank (blank_step p b) rest bs

-- the text up to the white space that it ends with
drop_blank_end : Text → Text
unfolding is_blank
drop_blank_end [] = []
drop_blank_end (b ∷ bs) = let rest = drop_blank_end bs in if is_blank (b ∷ bs) then [] else b ∷ rest

-- `trim`
unfoldable pub trim : Text → Text
unfolding skip_blank drop_blank_end
trim s = drop_blank_end (skip_blank (some start) s s)

-- `to_lowercase`, on the letters of ASCII
unfoldable pub to_lowercase : Text → Text
to_lowercase = map (λ b. if leb 65 b && leb b 90 then b + 32 else b)

-- the digits behind a number, none where it does not fit a `u64` or is no digit
digits_from : ℕ → Text → Option ℕ
digits_from n [] = some n
digits_from n (b ∷ bs) =
    let m = n * 10 + (b - 48) in
    let rest = digits_from m bs in if leb 48 b && leb b 57 && ltb m (2 ^ 64) then rest else none

-- at least one digit
digits : Text → Option ℕ
unfolding digits_from
digits [] = none
digits (b ∷ bs) = digits_from 0 (b ∷ bs)

-- `parse::<u64>`: a plus sign, or none, before digits
unfoldable pub parse_u64 : Text → Option ℕ
unfolding digits
parse_u64 [] = none
parse_u64 (b ∷ bs) = if b == 43 then digits bs else digits (b ∷ bs)

cons_first : ℕ → List Text → List Text
cons_first b [] = (b ∷ []) ∷ []
cons_first b (s ∷ parts) = (b ∷ s) ∷ parts

-- `split` at a byte
unfoldable pub split : ℕ → Text → List Text
unfolding cons_first
split c [] = [] ∷ []
split c (b ∷ bs) = let parts = split c bs in if b == c then [] ∷ parts else cons_first b parts
