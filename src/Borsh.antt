-- ===== src/Borsh.antt =====
-- The Borsh readers (the first part of src/decode.rs): a cursor is an offset into the bytes, which a
-- reader returns moved on beside its value.
use hfmcbot.Prelude.{
  ℕ, ◌+◌, ◌-◌, ◌*◌, ◌^◌, Bool, true, false, ◌&&◌, List, [], ◌∷◌, Option, none, some, length, take,
  drop, ltb, leb, ◌==◌, if◌then◌else◌,
}
use hfmcbot.Prelude.Text.{Text}

-- the `?` of a function into `Option`
infixl 5 ◌>>=◌
abbrev pub ◌>>=◌ : {A B : Type 0} → Option A → (A → Option B) → Option B
none >>= f = none
some a >>= f = f a

-- `data.get(off..end)`
unfoldable pub get_range : List ℕ → ℕ → ℕ → Option (List ℕ)
get_range bs off end =
    if leb off end && leb end (length bs) then some (take (end - off) (drop off bs)) else none

-- `off.checked_add(n)` on a usize of 64 bits
unfoldable pub checked_add : ℕ → ℕ → Option ℕ
checked_add off n = if ltb (off + n) (2 ^ 64) then some (off + n) else none

-- the `n` bytes from the offset on, and the offset behind them
unfoldable pub read_bytes : ℕ → List ℕ → ℕ → Option (List ℕ × ℕ)
unfolding get_range checked_add
read_bytes n bs off = do end ← checked_add off n; field ← get_range bs off end; some (field, end)

-- `from_le_bytes`
unfoldable pub from_le_bytes : List ℕ → ℕ
from_le_bytes [] = 0
from_le_bytes (b ∷ bs) = b + 256 * from_le_bytes bs

unfoldable pub read_u64 : List ℕ → ℕ → Option (ℕ × ℕ)
unfolding read_bytes from_le_bytes
read_u64 bs off = do (field, end) ← read_bytes 8 bs off; some (from_le_bytes field, end)

-- the ranges that the bytes after a lead byte of UTF-8 must be in, one pair for each
utf8_tail : ℕ → Option (List (ℕ × ℕ))
utf8_tail b =
    if ltb b 0x80
    then some []
    else if leb 0xc2 b && leb b 0xdf
    then some ((0x80, 0xbf) ∷ [])
    else if b == 0xe0
    then some ((0xa0, 0xbf) ∷ (0x80, 0xbf) ∷ [])
    else if b == 0xed
    then some ((0x80, 0x9f) ∷ (0x80, 0xbf) ∷ [])
    else if leb 0xe1 b && leb b 0xef
    then some ((0x80, 0xbf) ∷ (0x80, 0xbf) ∷ [])
    else if b == 0xf0
    then some ((0x90, 0xbf) ∷ (0x80, 0xbf) ∷ (0x80, 0xbf) ∷ [])
    else if leb 0xf1 b && leb b 0xf3
    then some ((0x80, 0xbf) ∷ (0x80, 0xbf) ∷ (0x80, 0xbf) ∷ [])
    else if b == 0xf4
    then some ((0x80, 0x8f) ∷ (0x80, 0xbf) ∷ (0x80, 0xbf) ∷ [])
    else none

utf8_from : Option (List (ℕ × ℕ)) → List ℕ → Bool
unfolding utf8_tail
utf8_from none bs = false
utf8_from (some []) [] = true
utf8_from (some (r ∷ rs)) [] = false
utf8_from (some []) (b ∷ bs) = utf8_from (utf8_tail b) bs
utf8_from (some (r ∷ rs)) (b ∷ bs) = leb r.0 b && leb b r.1 && utf8_from (some rs) bs

-- whether `std::str::from_utf8` succeeds
unfoldable pub is_utf8 : List ℕ → Bool
unfolding utf8_from
is_utf8 = utf8_from (some [])

unfoldable pub read_borsh_str : List ℕ → ℕ → Option (Text × ℕ)
unfolding read_bytes from_le_bytes is_utf8
read_borsh_str bs off = do
  (len, start) ← read_bytes 4 bs off
  (field, end) ← read_bytes (from_le_bytes len) bs start
  if is_utf8 field then some (field, end) else none

unfoldable pub read_pubkey : List ℕ → ℕ → Option (List ℕ × ℕ)
unfolding read_bytes
read_pubkey = read_bytes 32
