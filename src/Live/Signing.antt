-- ===== src/Live/Signing.antt =====
-- Signing (src/live.rs): the swap of Jupiter, the tip transfer and the tip accounts, with the Solana
-- crates as an interface. A public key is its text in base 58.
use hfmcbot.Prelude.{
  ℕ, zero, suc, ◌/◌, ◌%◌, ◌≡◌, ◌∙◌, sym, ap, refl, arith, Bool, true, false, not, List, [], ◌∷◌,
  ◌++◌, Option, none, some, ◌==◌,
}
use hfmcbot.Prelude.Strings.{trim}
use hfmcbot.Prelude.Text.{Text, bytes, text_eq, text_eq_iff}
use hfmcbot.Exec.{rejected, not_armed}
use hfmcbot.Live.Executor.{Signing, or_rejected}
use hfmcbot.Live.Fields.{◌>>=◌, ◌>>◌, reply-bind-ok}
use hfmcbot.Live.Rpc.{Reply, ok, err}

-- `Instruction`, with the accounts by their key and whether they sign; both are writable
pub record Instruction : Type 0 where
  pub program_id : Text
  pub accounts : List (Text × Bool)
  pub ix_data : List ℕ

-- The forms of a message, over the legacy messages L and those of version 0.
pub data VersionedMessage (L M : Type 0) : Type 0 where
  legacy : L → VersionedMessage L M
  v0 : M → VersionedMessage L M

-- Key pairs K, hashes H, messages L and M, and signed transactions V: what is read of their bytes and
-- texts, the accounts of a message, the field of its recent blockhash, the legacy message of an
-- instruction with its payer, the signing of a message by one key pair, and base 64.
pub record Solana (K H L M V : Type 0) : Type 0 where
  pub key_pair : List ℕ → Option K
  pub pubkey : K → Text
  pub pubkey_of : Text → Option Text
  pub hash_of : Text → Option H
  pub message_of : List ℕ → Option (VersionedMessage L M)
  pub account_keys : VersionedMessage L M → List Text
  pub legacy_with_blockhash : H → L → L
  pub v0_with_blockhash : H → M → M
  pub legacy_message : Instruction → Text → L
  pub try_new : VersionedMessage L M → K → Option V
  pub serialize : V → Option (List ℕ)
  pub base64_of : Text → Option (List ℕ)
  pub base64 : List ℕ → Text

unfoldable pub first : List Text → Option Text
first [] = none
first (a ∷ accounts) = some a

abbrev system_program_id_str : Text
system_program_id_str = bytes "11111111111111111111111111111111"

-- `to_le_bytes` of a number of so many bytes
unfoldable pub to_le_bytes : ℕ → ℕ → List ℕ
to_le_bytes zero n = []
to_le_bytes (suc width) n = n % 256 ∷ to_le_bytes width (n / 256)

-- the discriminator 2 of a transfer in four bytes, and the lamports in eight
unfoldable pub transfer_data : ℕ → List ℕ
unfolding to_le_bytes
transfer_data lamports = to_le_bytes 4 2 ++ to_le_bytes 8 lamports

-- a refusal where the test fails
refuse_unless : Bool → Reply (Unit {0})
refuse_unless true = ok tt
refuse_unless false = err rejected

module _ {K H L M V : Type 0} (solana : Solana K H L M V) where
  -- the match that replaces the recent blockhash of a message
  unfoldable pub with_blockhash : H → VersionedMessage L M → VersionedMessage L M
  with_blockhash fresh (legacy message) = legacy (solana.legacy_with_blockhash fresh message)
  with_blockhash fresh (v0 message) = v0 (solana.v0_with_blockhash fresh message)

  -- the signed transaction of a message as text
  unfoldable pub sign_message : VersionedMessage L M → K → Reply Text
  unfolding or_rejected
  sign_message message key = do
    signed ← or_rejected (solana.try_new message key)
    signed_bytes ← or_rejected (solana.serialize signed)
    ok (solana.base64 signed_bytes)

  unfoldable pub sign_versioned_tx_b64 : Text → K → Text → Reply Text
  unfolding or_rejected trim first text_eq refuse_unless with_blockhash sign_message
  sign_versioned_tx_b64 tx_b64 key blockhash = do
    tx_bytes ← or_rejected (solana.base64_of (trim tx_b64))
    message ← or_rejected (solana.message_of tx_bytes)
    payer ← or_rejected (first (solana.account_keys message))
    refuse_unless (text_eq payer (solana.pubkey key))
    fresh ← or_rejected (solana.hash_of blockhash)
    sign_message (with_blockhash fresh message) key

  unfoldable pub parse_tip_account : Text → Reply Text
  unfolding or_rejected trim
  parse_tip_account s = or_rejected (solana.pubkey_of (trim s))

  unfoldable pub build_tip_transfer_ix : Text → Text → ℕ → Reply Instruction
  unfolding or_rejected transfer_data
  build_tip_transfer_ix from to lamports = do
    program_id ← or_rejected (solana.pubkey_of system_program_id_str)
    ok (record {
      program_id = program_id;
      accounts = (from, true) ∷ (to, false) ∷ [];
      ix_data = transfer_data lamports;
    })

  unfoldable pub build_tip_tx_b64 : K → Text → ℕ → Text → Reply Text
  unfolding refuse_unless build_tip_transfer_ix or_rejected sign_message
  build_tip_tx_b64 operator tip_account lamports blockhash = do
    refuse_unless (not (lamports == 0))
    ix ← build_tip_transfer_ix (solana.pubkey operator) tip_account lamports
    fresh ← or_rejected (solana.hash_of blockhash)
    sign_message
        (legacy
          (solana.legacy_with_blockhash fresh (solana.legacy_message ix (solana.pubkey operator))))
        operator

  is_key_pair : Option K → Bool
  is_key_pair none = false
  is_key_pair (some k) = true

  -- a call with the key pair of the bytes, which `signer` has checked
  with_key_pair : List ℕ → (K → Reply Text) → Reply Text
  with_key_pair key f = elim (solana.key_pair key) [ some k ↦ f k | none ↦ err not_armed ]

  -- the interface of the executor
  unfoldable pub solana_signing : Signing
  unfolding is_key_pair with_key_pair sign_versioned_tx_b64 parse_tip_account build_tip_tx_b64
  solana_signing = record {
    is_key_pair = λ key. is_key_pair (solana.key_pair key);
    sign_versioned_tx = λ tx key hash. with_key_pair key (λ k. sign_versioned_tx_b64 tx k hash);
    parse_tip_account = parse_tip_account;
    build_tip_tx = λ key account lamports hash.
        with_key_pair key (λ k. build_tip_tx_b64 k account lamports hash);
  }

  -- A transaction that was signed: its payer is the operator, its blockhash is the fresh one, and all
  -- else of its message is as it came.
  pub record IsOwnTx (tx_b64 : Text) (key : K) (blockhash signed_b64 : Text) : Type 0 where
    pub tx_bytes : List ℕ
    pub message : VersionedMessage L M
    pub fresh : H
    pub signed : V
    pub signed_bytes : List ℕ
    pub is_base64 : solana.base64_of (trim tx_b64) ≡ some tx_bytes
    pub is_message : solana.message_of tx_bytes ≡ some message
    pub own_payer : first (solana.account_keys message) ≡ some (solana.pubkey key)
    pub is_fresh : solana.hash_of blockhash ≡ some fresh
    pub is_signed : solana.try_new (with_blockhash fresh message) key ≡ some signed
    pub is_serialized : solana.serialize signed ≡ some signed_bytes
    pub is_text : signed_b64 ≡ solana.base64 signed_bytes

or_rejected-ok : {A : Type 0} (o : Option A) (a : A) → or_rejected o ≡ ok a → o ≡ some a
unfolding or_rejected
or_rejected-ok none a h = ground arith
or_rejected-ok (some b) a h = ground arith

reply-then-ok :
    {B : Type 0} (m : Reply (Unit {0})) (k : Reply B) (b : B)
    → (m >> k) ≡ ok b
    → (m ≡ ok tt) × (k ≡ ok b)
reply-then-ok (ok tt) k b h = (refl, h)
reply-then-ok (err e) k b h = ground arith

refuse_unless-ok : (b : Bool) → refuse_unless b ≡ ok tt → b ≡ true
unfolding refuse_unless
refuse_unless-ok true h = refl
refuse_unless-ok false h = ground arith

module _ {K H L M V : Type 0} (solana : Solana K H L M V) where
  -- A swap is signed only where its fee payer is the operator's own key; the signed message is the one
  -- that came, with the fresh blockhash in place of its own.
  pub sign_versioned_tx_b64-IsOwnTx :
      (tx_b64 : Text) (key : K) (blockhash signed_b64 : Text)
      → sign_versioned_tx_b64 solana tx_b64 key blockhash ≡ ok signed_b64
      → IsOwnTx solana tx_b64 key blockhash signed_b64
  unfolding sign_versioned_tx_b64 sign_message
  sign_versioned_tx_b64-IsOwnTx tx_b64 key blockhash signed_b64 h =
      let (tx_bytes, decoded, h1) = reply-bind-ok _ _ _ h in
      let (message, read, h2) = reply-bind-ok _ _ _ h1 in
      let (payer, first_key, h3) = reply-bind-ok _ _ _ h2 in
      let (checked, h4) = reply-then-ok _ _ _ h3 in
      let (fresh, hashed, h5) = reply-bind-ok _ _ _ h4 in
      let (signed, made, h6) = reply-bind-ok _ _ _ h5 in
      let (signed_bytes, written, h7) = reply-bind-ok _ _ _ h6 in
      let same = text_eq_iff payer (solana.pubkey key) in
      record {
        tx_bytes = tx_bytes;
        message = message;
        fresh = fresh;
        signed = signed;
        signed_bytes = signed_bytes;
        is_base64 = or_rejected-ok _ tx_bytes decoded;
        is_message = or_rejected-ok _ message read;
        own_payer =
            or_rejected-ok _ payer first_key ∙ ap some (same.0 (refuse_unless-ok _ checked));
        is_fresh = or_rejected-ok _ fresh hashed;
        is_signed = or_rejected-ok _ signed made;
        is_serialized = or_rejected-ok _ signed_bytes written;
        is_text = sym (ground (arith, h7));
      }
