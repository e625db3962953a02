-- ===== src/Decode/RoundTrip.antt =====
-- What is encoded in the chain's format is decoded again, whatever bytes follow (src/decode.rs).
use hfmcbot.Prelude.{
  ℕ, zero, suc, ap, sym, ◌∙◌, drop, ◌+◌, ◌^◌, ◌<◌, ◌≡◌, refl, Bool, true, false, ◌&&◌, not, ◌==◌,
  List, [], ◌∷◌, ◌++◌, some, length, get_elem?, arith, ltb, take, if◌then◌else◌,
}
use hfmcbot.Prelude.Text.{Text, text_eq, text_eq_refl}
use hfmcbot.Borsh.{is_utf8, read_pubkey}
use hfmcbot.Decode.{
  CreateIx, create_disc, create_v2_disc, create_version, create_args, parse_create, is_nonzero,
  is_set, pump_program, curve_account_disc, TradeKind, TradeIx, buy_disc, sell_disc, buy_v2_disc,
  sell_v2_disc, trade_version, trade_accounts, trade_args, parse_trade, CurveReserves, curve_fields,
  parse_curve_account,
}
use hfmcbot.Decode.Codec.{
  put_le, put_str, IsAt, IsAt-read, IsAt-put_le, IsAt-put_str, read_u64-put_le,
  read_borsh_str-put_str, read_bytes-field,
}

abbrev pub trade_disc : TradeKind → Bool → List ℕ
trade_disc TradeKind.buy false = buy_disc
trade_disc TradeKind.sell false = sell_disc
trade_disc TradeKind.buy true = buy_v2_disc
trade_disc TradeKind.sell true = sell_v2_disc

-- The bytes of a trade, with whatever follows them.
abbrev pub put_trade : TradeIx → List ℕ → List ℕ
put_trade ix tail =
    trade_disc ix.kind ix.v2
    ++ (put_le 8 ix.amount_base_units ++ (put_le 8 ix.limit_quote_units ++ tail))

-- A trade's head decides its kind, and its arguments stand behind it.
trade_head :
    (k : TradeKind) (v2 : Bool) (rest : List ℕ)
    → length (trade_disc k v2 ++ rest) < 2 ^ 64
    → (trade_version (take 8 (trade_disc k v2 ++ rest)) ≡ some (k, v2))
      × IsAt (trade_disc k v2 ++ rest) 8 rest
unfolding trade_version text_eq
trade_head TradeKind.buy false rest h =
    (refl, record { ahead = refl; inside = omega arith; counted = h })
trade_head TradeKind.sell false rest h =
    (refl, record { ahead = refl; inside = omega arith; counted = h })
trade_head TradeKind.buy true rest h =
    (refl, record { ahead = refl; inside = omega arith; counted = h })
trade_head TradeKind.sell true rest h =
    (refl, record { ahead = refl; inside = omega arith; counted = h })

trade_long :
    (bs : List ℕ) (off : ℕ) (ix : TradeIx) (tail : List ℕ)
    → IsAt bs 8 (put_le 8 ix.amount_base_units ++ (put_le 8 ix.limit_quote_units ++ tail))
    → ltb (length bs) 24 ≡ false
trade_long bs off ix tail h = let inside = h.inside in ground (arith, inside)

-- A trade that is written with 64-bit amounts, its accounts at the places of its version, is read
-- back, whatever bytes follow it.
pub parse_trade-put_trade :
    (ix : TradeIx) (accounts : List Text) (tail : List ℕ)
    → ix.amount_base_units < 2 ^ 64
    → ix.limit_quote_units < 2 ^ 64
    → get_elem? accounts (trade_accounts ix.v2).0 ≡ some ix.mint
    → get_elem? accounts (trade_accounts ix.v2).1 ≡ some ix.bonding_curve
    → length (put_trade ix tail) < 2 ^ 64
    → parse_trade pump_program accounts (put_trade ix tail) ≡ some ix
unfolding parse_trade trade_args
parse_trade-put_trade ix accounts tail small small' at_mint at_curve counted =
    let amount = ix.amount_base_units in
    let limit = ix.limit_quote_units in
    let bs = put_trade ix tail in
    let (version, start) =
      trade_head ix.kind ix.v2 (put_le 8 amount ++ (put_le 8 limit ++ tail)) counted in
    let next = IsAt-put_le bs 8 8 amount (put_le 8 limit ++ tail) start in
    rw
      (
        text_eq_refl pump_program,
        trade_long bs 8 ix tail start,
        version,
        at_mint,
        at_curve,
        read_u64-put_le bs 8 amount (put_le 8 limit ++ tail) small start,
        read_u64-put_le bs 16 limit tail small' next,
      )
      refl

-- The bytes of a creation, with whatever follows them.
abbrev pub put_create : CreateIx → List ℕ → List ℕ
put_create ix tail =
    (if ix.v2 then create_v2_disc else create_disc)
    ++ (put_str ix.name ++ (put_str ix.symbol ++ (put_str ix.uri ++ (ix.creator ++ tail))))

create_head :
    (v2 : Bool) (rest : List ℕ)
    → let bs = (if v2 then create_v2_disc else create_disc) ++ rest in
      length bs < 2 ^ 64
      → (create_version (take 8 bs) ≡ some v2) × (IsAt bs 8 rest × (ltb (length bs) 8 ≡ false))
unfolding create_version text_eq
create_head false rest h =
    (refl, (record { ahead = refl; inside = omega arith; counted = h }, ground arith))
create_head true rest h =
    (refl, (record { ahead = refl; inside = omega arith; counted = h }, ground arith))

get_elem?-drop : (bs : List ℕ) (n : ℕ) → get_elem? bs n ≡ get_elem? (drop n bs) 0
get_elem?-drop bs zero = refl
get_elem?-drop [] (suc n) = refl
get_elem?-drop (b ∷ bs) (suc n) = get_elem?-drop bs n

is_set-IsAt :
    (bs : List ℕ) (off : ℕ) (rest : List ℕ) → IsAt bs off rest → is_set bs off ≡ is_set rest 0
unfolding is_set
is_set-IsAt bs off rest h = ap is_nonzero (get_elem?-drop bs off ∙ ap (λ r. get_elem? r 0) h.ahead)

three_or_more : (n : ℕ) → ltb (suc (suc (suc n))) 3 ≡ false
three_or_more n = ground arith

-- Strings of a creation: text of under 2^32 bytes.
pub record IsString (s : Text) : Type 0 where
  pub short : length s < 2 ^ 32
  pub valid : is_utf8 s ≡ true

-- the flag that stands behind the creator's key
abbrev pub flag : Bool → List ℕ → Bool
flag v2 tail = v2 && is_set tail 0

-- A creation of either version whose strings are UTF-8 of under 2^32 bytes and whose creator has 32
-- bytes is read back from among at least three accounts, with the first byte behind it as the mayhem
-- flag of version 2, whatever other bytes follow.
pub parse_create-put_create :
    (ix : CreateIx) (second : Text) (accounts : List Text) (tail : List ℕ)
    → IsString ix.name
    → IsString ix.symbol
    → IsString ix.uri
    → length ix.creator ≡ 32
    → ix.mayhem ≡ flag ix.v2 tail
    → length (put_create ix tail) < 2 ^ 64
    → parse_create pump_program
        (ix.mint ∷ second ∷ ix.bonding_curve ∷ accounts)
        (put_create ix tail)
      ≡ some ix
unfolding parse_create create_args read_pubkey
parse_create-put_create ix second accounts tail name symbol uri creator mayhem counted =
    let bs = put_create ix tail in
    let after_uri = ix.creator ++ tail in
    let after_symbol = put_str ix.uri ++ after_uri in
    let after_name = put_str ix.symbol ++ after_symbol in
    let (version, (start, long)) = create_head ix.v2 (put_str ix.name ++ after_name) counted in
    let at_symbol = IsAt-put_str bs 8 ix.name after_name start in
    let a = 8 + 4 + length ix.name in
    let at_uri = IsAt-put_str bs a ix.symbol after_symbol at_symbol in
    let b = a + 4 + length ix.symbol in
    let at_creator = IsAt-put_str bs b ix.uri after_uri at_uri in
    let c = b + 4 + length ix.uri in
    let at_tail = IsAt-read 32 bs c ix.creator tail creator at_creator in
    rw
      (
        text_eq_refl pump_program,
        long,
        version,
        read_borsh_str-put_str bs 8 ix.name after_name name.short name.valid start,
        read_borsh_str-put_str bs a ix.symbol after_symbol symbol.short symbol.valid at_symbol,
        read_borsh_str-put_str bs b ix.uri after_uri uri.short uri.valid at_uri,
        read_bytes-field 32 bs c ix.creator tail creator at_creator,
        three_or_more (length accounts),
      )
      (ap (λ m. some (record ix { mayhem = m }))
        (ap (λ m. ix.v2 && m) (is_set-IsAt bs (c + 32) tail at_tail) ∙ sym mayhem))

-- The bytes of a curve account, with whatever follows them.
abbrev pub put_curve : CurveReserves → ℕ → List ℕ → List ℕ
put_curve r complete tail =
    curve_account_disc
    ++ (put_le 8 r.virtual_base_units
        ++ (put_le 8 r.virtual_quote_units
            ++ (put_le 8 r.real_base_units
                ++ (put_le 8 r.real_quote_units
                    ++ (put_le 8 r.total_supply_units ++ complete ∷ tail)))))

-- Reserves of 64-bit amounts.
pub record IsU64 (r : CurveReserves) : Type 0 where
  pub virtual_base : r.virtual_base_units < 2 ^ 64
  pub virtual_quote : r.virtual_quote_units < 2 ^ 64
  pub real_base : r.real_base_units < 2 ^ 64
  pub real_quote : r.real_quote_units < 2 ^ 64
  pub total_supply : r.total_supply_units < 2 ^ 64

-- A curve account with 64-bit amounts is read back, complete exactly if the byte behind the amounts
-- is not zero, whatever bytes follow.
pub parse_curve_account-put_curve :
    (r : CurveReserves) (complete : ℕ) (tail : List ℕ)
    → IsU64 r
    → r.complete ≡ not (complete == 0)
    → length (put_curve r complete tail) < 2 ^ 64
    → parse_curve_account (put_curve r complete tail) ≡ some r
unfolding parse_curve_account curve_fields text_eq
parse_curve_account-put_curve r complete tail small flagged counted =
    let bs = put_curve r complete tail in
    let last = complete ∷ tail in
    let e = put_le 8 r.total_supply_units ++ last in
    let d = put_le 8 r.real_quote_units ++ e in
    let c = put_le 8 r.real_base_units ++ d in
    let b = put_le 8 r.virtual_quote_units ++ c in
    let a = put_le 8 r.virtual_base_units ++ b in
    let at_a : IsAt bs 8 a = record { ahead = refl; inside = omega arith; counted = counted } in
    let at_b = IsAt-put_le bs 8 8 r.virtual_base_units b at_a in
    let at_c = IsAt-put_le bs 16 8 r.virtual_quote_units c at_b in
    let at_d = IsAt-put_le bs 24 8 r.real_base_units d at_c in
    let at_e = IsAt-put_le bs 32 8 r.real_quote_units e at_d in
    let at_last = IsAt-put_le bs 40 8 r.total_supply_units last at_e in
    let long : ltb (length bs) 49 ≡ false = ground arith in
    rw
      (
        long,
        read_u64-put_le bs 8 r.virtual_base_units b small.virtual_base at_a,
        read_u64-put_le bs 16 r.virtual_quote_units c small.virtual_quote at_b,
        read_u64-put_le bs 24 r.real_base_units d small.real_base at_c,
        read_u64-put_le bs 32 r.real_quote_units e small.real_quote at_d,
        read_u64-put_le bs 40 r.total_supply_units last small.total_supply at_e,
      )
      (ap (λ m. some (record r { complete = m })) (is_set-IsAt bs 48 last at_last ∙ sym flagged))
