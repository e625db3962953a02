-- ===== src/Keys.antt =====
-- The operator's key (src/keys.rs): from the environment to a key pair, with base 58, JSON and the
-- key pairs of the Solana crates as an interface.
use hfmcbot.Prelude.{
  ℕ, ◌≡◌, ◌⊎◌, inl, inr, refl, sym, arith, false, Bool-cases, List, [], ◌∷◌, Option, none, some,
  length, ◌==◌, if◌then◌else◌,
}
use mathlib.Core.Path.{subst}
use hfmcbot.Prelude.Strings.{is_blank, trim}
use hfmcbot.Prelude.Text.{Text, bytes}
use hfmcbot.Config.Env.{Env, non_blank}

pub data KeySource : Type 0 where
  hfm_secret_key secret_key : KeySource

unfoldable pub var_name : KeySource → Text
var_name hfm_secret_key = bytes "HFM_SECRET_KEY"
var_name secret_key = bytes "SECRET_KEY"

-- `KeyError::Invalid`, by its variable
pub data KeyError : Type 0 where
  invalid : KeySource → KeyError

-- Key pairs: of 64 bytes, of a seed of 32, and their public key in base 58.
pub record KeyCrates (K : Type 0) : Type 0 where
  pub of_bytes : List ℕ → Option K
  pub of_seed : List ℕ → Option K
  pub pubkey : K → Text
  pub to_bytes : K → List ℕ

-- The bytes of a text in base 58, and of one that is a JSON array of them.
pub record KeyTexts : Type 0 where
  pub base58 : Text → Option (List ℕ)
  pub json_bytes : Text → Option (List ℕ)

pub record LoadedKey (K : Type 0) : Type 0 where
  pub keypair : K
  pub source : KeySource
  pub pubkey_base58 : Text

-- `Result<A, KeyError>`
pub data KeyResult (A : Type 0) : Type 0 where
  ok : A → KeyResult A
  err : KeyError → KeyResult A

-- `map_err`
or_invalid : {A : Type 0} → KeySource → Option A → KeyResult A
or_invalid source none = err (invalid source)
or_invalid source (some a) = ok a

non_blank-some :
    (o : Option Text) (raw : Text)
    → non_blank o ≡ some raw
    → (o ≡ some raw) × (is_blank raw ≡ false)
unfolding non_blank
non_blank-some none raw h = ground arith
non_blank-some (some t) raw h = elim (Bool-cases (is_blank t)) [
  | inl blank ↦ ground arith
  | inr text ↦ (ground arith, ground arith)
]

or_invalid-ok :
    {A : Type 0} (source : KeySource) (o : Option A) (a : A)
    → or_invalid source o ≡ ok a
    → o ≡ some a
unfolding or_invalid
or_invalid-ok source none a h = ground arith
or_invalid-ok source (some b) a h = ground arith

and_then : {A B : Type 0} → Option A → (A → Option B) → Option B
and_then none f = none
and_then (some a) f = f a

and_then-some :
    {A B : Type 0} (o : Option A) (f : A → Option B) (b : B)
    → and_then o f ≡ some b
    → (a : A) × (o ≡ some a) × (f a ≡ some b)
unfolding and_then
and_then-some none f b h = ground arith
and_then-some (some a) f b h = (a, refl, h)

-- the byte 91 opens a JSON array
unfoldable pub bytes_of : ⦃texts : KeyTexts⦄ → Text → Option (List ℕ)
bytes_of ⦃texts = texts⦄ [] = texts.base58 []
bytes_of ⦃texts = texts⦄ (b ∷ raw) =
    if b == 91 then texts.json_bytes (b ∷ raw) else texts.base58 (b ∷ raw)

module _ {K : Type 0} ⦃crates : KeyCrates K⦄ where
  unfoldable pub bytes_to_keypair : List ℕ → Option K
  bytes_to_keypair bs =
      if length bs == 64
      then crates.of_bytes bs
      else if length bs == 32
      then crates.of_seed bs
      else none

  bytes_to_keypair-some :
      (bs : List ℕ) (k : K)
      → bytes_to_keypair bs ≡ some k
      → (length bs ≡ 64) × (crates.of_bytes bs ≡ some k)
        ⊎ (length bs ≡ 32) × (crates.of_seed bs ≡ some k)
  unfolding bytes_to_keypair
  bytes_to_keypair-some bs k h = elim (Bool-cases (length bs == 64)) [
    | inl full ↦ inl (ground arith, ground arith)
    | inr other ↦ elim (Bool-cases (length bs == 32)) [
      | inl seed ↦ inr (ground arith, ground arith)
      | inr neither ↦ ground arith
    ]
  ]

module _ {K : Type 0} ⦃crates : KeyCrates K⦄ ⦃texts : KeyTexts⦄ where
  -- an error names the variable only
  unfoldable pub parse_secret_key : Text → KeySource → KeyResult K
  unfolding bytes_of and_then bytes_to_keypair or_invalid
  parse_secret_key raw source = or_invalid source (and_then (bytes_of raw) bytes_to_keypair)

  found : KeySource → KeyResult K → KeyResult (Option (LoadedKey K))
  found source (ok keypair) =
      ok (
        some (record { keypair = keypair; source = source; pubkey_base58 = crates.pubkey keypair }))
  found source (err e) = err e

  -- the first variable that is set and not blank decides
  try_source :
      KeySource → Option Text → KeyResult (Option (LoadedKey K)) → KeyResult (Option (LoadedKey K))
  unfolding found parse_secret_key trim
  try_source source none next = next
  try_source source (some raw) next = found source (parse_secret_key (trim raw) source)

  unfoldable pub load_keypair_opt : Env → KeyResult (Option (LoadedKey K))
  unfolding try_source non_blank var_name
  load_keypair_opt env =
      try_source hfm_secret_key (non_blank (env (var_name hfm_secret_key)))
        (try_source secret_key (non_blank (env (var_name secret_key))) (ok none))

  -- The key of a variable: its trimmed text is that key, of 64 bytes or of a seed of 32.
  pub record IsKeyOf (env : Env) (source : KeySource) (keypair : K) : Type 0 where
    pub raw : Text
    pub key_bytes : List ℕ
    pub is_set : env (var_name source) ≡ some raw
    pub not_blank : is_blank raw ≡ false
    pub is_bytes : bytes_of (trim raw) ≡ some key_bytes
    pub has_length :
        (length key_bytes ≡ 64) × (crates.of_bytes key_bytes ≡ some keypair)
        ⊎ (length key_bytes ≡ 32) × (crates.of_seed key_bytes ≡ some keypair)

  -- A loaded key: the variable before its own one does not count, and its public key is its own.
  pub record IsLoadedOf (env : Env) (key : LoadedKey K) : Type 0 where
    pub is_key : IsKeyOf env key.source key.keypair
    pub is_first :
        (key.source ≡ hfm_secret_key) ⊎ (non_blank (env (var_name hfm_secret_key)) ≡ none)
    pub is_pubkey : key.pubkey_base58 ≡ crates.pubkey key.keypair

  parse_secret_key-ok :
      (env : Env) (source : KeySource) (raw : Text) (k : K)
      → env (var_name source) ≡ some raw
      → is_blank raw ≡ false
      → parse_secret_key (trim raw) source ≡ ok k
      → IsKeyOf env source k
  unfolding parse_secret_key
  parse_secret_key-ok env source raw k set not_blank h =
      let (bs, read, made) = and_then-some _ _ k (or_invalid-ok source _ k h) in
      record {
        raw = raw;
        key_bytes = bs;
        is_set = set;
        not_blank = not_blank;
        is_bytes = read;
        has_length = bytes_to_keypair-some bs k made;
      }

  found-ok :
      (source : KeySource) (r : KeyResult K) (key : LoadedKey K)
      → found source r ≡ ok (some key)
      → (r ≡ ok key.keypair)
        × (source ≡ key.source)
        × (key.pubkey_base58 ≡ crates.pubkey key.keypair)
  unfolding found
  found-ok source (ok k) key h = (ground arith, ground arith, ground arith)
  found-ok source (err e) key h = ground arith

  -- what a source found, where it is the one that decides
  try_source-ok :
      (env : Env) (source : KeySource) (o : Option Text) (next : KeyResult (Option (LoadedKey K)))
      (key : LoadedKey K)
      → non_blank (env (var_name source)) ≡ o
      → try_source source o next ≡ ok (some key)
      → IsKeyOf env key.source key.keypair
          × (source ≡ key.source)
          × (key.pubkey_base58 ≡ crates.pubkey key.keypair)
        ⊎ (o ≡ none) × (next ≡ ok (some key))
  unfolding try_source
  try_source-ok env source none next key is_o h = inr (refl, h)
  try_source-ok env source (some raw) next key is_o h =
      let (parsed, same_source, is_pubkey) = found-ok source _ key h in
      let (set, not_blank) = non_blank-some _ raw is_o in
      let is_key = parse_secret_key-ok env source raw key.keypair set not_blank parsed in
      inl (subst (λ t. IsKeyOf env t key.keypair) same_source is_key, same_source, is_pubkey)

  -- A key that is loaded is the key that the trimmed text of its variable gives, of 64 bytes or of a
  -- seed of 32; it comes with its own public key; and of the second variable only where the first one
  -- is unset or blank.
  pub load_keypair_opt-IsLoadedOf :
      (env : Env) (key : LoadedKey K) → load_keypair_opt env ≡ ok (some key) → IsLoadedOf env key
  unfolding load_keypair_opt
  load_keypair_opt-IsLoadedOf env key h = elim (try_source-ok env hfm_secret_key _ _ key refl h) [
    | inl (is_key, same_source, is_pubkey) ↦ record {
      is_key = is_key;
      is_first = inl (sym same_source);
      is_pubkey = is_pubkey;
    }
    | inr (no_first, next) ↦ elim (try_source-ok env secret_key _ _ key refl next) [
      | inl (is_key, same_source, is_pubkey) ↦ record {
        is_key = is_key;
        is_first = inr no_first;
        is_pubkey = is_pubkey;
      }
      | inr (no_second, nothing) ↦ ground arith
    ]
  ]
