-- ===== src/Live/Answers.antt =====
-- What the answers of Jito mean for the landing of a bundle (src/live.rs): the loop
-- reports signatures only from an answer that says so.
use mathlib.Core.Path.{subst}
use hfmcbot.Prelude.{
  ℕ, ◌≡◌, refl, ◌∙◌, sym, ap, inl, inr, true, false, List, [], ◌∷◌, ◌++◌, Option, none, some, arith,
  Bool-cases,
}
use hfmcbot.Prelude.Text.{Text, bytes}
use hfmcbot.Live.Await.{Ended, ended, await_landing}
use hfmcbot.Live.Executor.{Value}
use hfmcbot.Live.Fields.{
  and_then, or_transport, array_at, str_at, is_failure, is_final, texts_or_none, reply-bind-ok,
}
use hfmcbot.Live.Landing.{BundleStatus, done, bundle_verdict}
use hfmcbot.Live.Replies.{Parsers, bundle_entry, parse_bundle_status}
use hfmcbot.Live.Requests.{build_get_bundle_statuses_request}
use hfmcbot.Live.Rpc.{Reply, ok}
use hfmcbot.Live.Run.{bind-ok, get-ok}
use hfmcbot.Live.Upstream.{Http, Net, exchange, bundles_request, get_bundle_statuses}
use hfmcbot.Platform.Json.{get, first_item}
use hfmcbot.Live.Ends.{IsMonotonic, IsLoopEnd, decided, unknown, start_landing-LoopEnds}

-- An answer of Jito that says that a bundle landed with the signatures: its first entry has no error
-- but an explicit `Ok`, and a final status.
pub record IsLandedBody {D : Type 0} (parsers : Parsers D) (body : Text) (signatures : List Text)
    : Type 0 where
  pub value : Value
  pub entry : Value
  pub is_json : parsers.json body ≡ some value
  pub is_first :
      and_then (array_at value (bytes "result" ∷ bytes "value" ∷ [])) first_item ≡ some entry
  pub no_error : is_failure (get entry (bytes "err")) ≡ false
  pub is_last : is_final (str_at entry (bytes "confirmation_status" ∷ [])) ≡ true
  pub are_listed : texts_or_none (array_at entry (bytes "transactions" ∷ [])) ≡ signatures

-- Jito answered the status request of the bundle with that body, and the network is as it was left by
-- that request.
pub record IsAnswerOfJito {W : Type 0} ⦃http : Http W⦄ (uuid body : Text) (after : Net W)
    : Type 0 where
  pub id : ℕ
  pub before : Net W
  pub is_answer :
      http.post_json
        (before.jito_url ++ bytes "/api/v1/bundles")
        none
        (build_get_bundle_statuses_request id (uuid ∷ []))
        before.world
      ≡ (after.world, some body)

bundle_entry-landed :
    (e : Option Value) (signatures : List Text)
    → bundle_entry e ≡ BundleStatus.landed signatures
    → (entry : Value) × (e ≡ some entry)
      × (is_failure (get entry (bytes "err")) ≡ false)
      × (is_final (str_at entry (bytes "confirmation_status" ∷ [])) ≡ true)
      × (texts_or_none (array_at entry (bytes "transactions" ∷ [])) ≡ signatures)
unfolding bundle_entry
bundle_entry-landed none signatures h = ground arith
bundle_entry-landed (some entry) signatures h =
    elim (Bool-cases (is_failure (get entry (bytes "err")))) [
      | inl failure ↦ ground arith
      | inr fine ↦ elim (Bool-cases (is_final (str_at entry (bytes "confirmation_status" ∷ [])))) [
        | inl final ↦ (entry, refl, fine, final, ground arith)
        | inr other ↦ ground arith
      ]
    ]

or_transport-ok : {A : Type 0} (o : Option A) (a : A) → or_transport o ≡ ok a → o ≡ some a
unfolding or_transport
or_transport-ok none a h = ground arith
or_transport-ok (some b) a h = ground arith

ok-eq : {A : Type 0} {a b : A} → ok a ≡ ok b → a ≡ b
ok-eq h = ground arith

some-eq : {A : Type 0} {a b : A} → some a ≡ some b → a ≡ b
some-eq h = ground arith

pair-eq : {A B : Type 0} {r : A × B} {a : A} {b : B} → r.0 ≡ a → r.1 ≡ b → r ≡ (a, b)
pair-eq p q = cc

bundle_verdict-ok :
    (answer : Reply BundleStatus) (signatures : List Text)
    → bundle_verdict answer ≡ done (ok signatures)
    → answer ≡ ok (BundleStatus.landed signatures)
unfolding bundle_verdict
bundle_verdict-ok answer signatures h = ground arith

parse_bundle_status-landed :
    {D : Type 0} (parsers : Parsers D) (body : Text) (signatures : List Text)
    → parse_bundle_status parsers body ≡ ok (BundleStatus.landed signatures)
    → IsLandedBody parsers body signatures
unfolding parse_bundle_status
parse_bundle_status-landed parsers body signatures h =
    let (v, read, said) = reply-bind-ok _ _ _ h in
    let (entry, first, fine, final, listed) = bundle_entry-landed _ signatures (ok-eq said) in
    record {
      value = v;
      entry = entry;
      is_json = or_transport-ok _ v read;
      is_first = first;
      no_error = fine;
      is_last = final;
      are_listed = listed;
    }

module _ {W D : Type 0} (parsers : Parsers D) ⦃http : Http W⦄ where
  exchange-ok :
      (f : W → W × Option Text) (s t : Net W) (body : Text)
      → exchange f s ≡ (t, ok body)
      → f s.world ≡ (t.world, some body)
  unfolding exchange
  exchange-ok f s t body h =
      pair-eq (ap (λ r. r.0.world) h) (or_transport-ok _ body (ap (λ r. r.1) h))

  get_bundle_statuses-landed :
      (id : ℕ) (uuid : Text) (s s' : Net W) (signatures : List Text)
      → get_bundle_statuses parsers id uuid s ≡ (s', ok (BundleStatus.landed signatures))
      → (body : Text) × IsAnswerOfJito uuid body s' × IsLandedBody parsers body signatures
  unfolding get_bundle_statuses bundles_request
  get_bundle_statuses-landed id uuid s s' signatures h =
      let (body, t, asked, said) = bind-ok _ _ s s' _ h in
      let request =
        http.post_json (s.jito_url ++ bytes "/api/v1/bundles") none
          (build_get_bundle_statuses_request id (uuid ∷ [])) in
      let answered = exchange-ok request s t body (get-ok _ s (t, ok body) asked) in
      (
        body,
        record {
          id = id;
          before = s;
          is_answer = answered ∙ ap (λ u. (u.world, some body)) (ap (λ r. r.0) said);
        },
        parse_bundle_status-landed parsers body signatures (ap (λ r. r.1) said),
      )

  ended-ok :
      (s s' : Net W) (r : Ended W) (signatures : List Text)
      → ended s r ≡ (s', ok signatures)
      → r ≡ some (s', ok signatures)
  unfolding ended
  ended-ok s s' none signatures h = ground arith
  ended-ok s s' (some r) signatures h = ap some h

  loop_end-IsLandedBody :
      (uuid : Text) (deadline : ℕ) (s : Net W) (reply : Reply (List Text)) (signatures : List Text)
      → IsLoopEnd parsers uuid deadline s reply
      → reply ≡ ok signatures
      → (body : Text) × IsAnswerOfJito uuid body s × IsLandedBody parsers body signatures
  loop_end-IsLandedBody uuid deadline s reply signatures (decided id before answer asked says) h =
      get_bundle_statuses-landed id uuid before s signatures
        (asked ∙ ap (λ a. (s, a)) (bundle_verdict-ok answer signatures (says ∙ ap done h)))
  loop_end-IsLandedBody uuid deadline s reply signatures (unknown is_unknown late) h = ground arith

  -- Where the clock does not go back, signatures are reported only where the last request asked Jito
  -- for the status of the bundle, and was answered with a body whose first entry has a final status,
  -- those signatures, and no error but an explicit `Ok`.
  pub await_landing-IsLandedBody :
      (monotonic : IsMonotonic http) (uuid : Text) (timeout_secs : ℕ) (s s' : Net W)
      (signatures : List Text)
      → await_landing parsers uuid timeout_secs s ≡ (s', ok signatures)
      → (body : Text) × IsAnswerOfJito uuid body s' × IsLandedBody parsers body signatures
  unfolding await_landing
  await_landing-IsLandedBody monotonic uuid timeout_secs s s' signatures h =
      let ends = start_landing-LoopEnds parsers monotonic uuid timeout_secs s in
      let same = some-eq (sym ends.is_end ∙ ended-ok s s' _ signatures h) in
      let (body, answered, landed) =
        loop_end-IsLandedBody uuid _ ends.state ends.reply signatures ends.is_loop_end
          (ap (λ r. r.1) same) in
      (body, subst (IsAnswerOfJito uuid body) (ap (λ r. r.0) same) answered, landed)
