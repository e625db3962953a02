-- ===== src/Live/Ends.antt =====
-- The end of the wait for a bundle (src/live.rs, `poll_bundle_landing`): the loop ends in time.
use Prim.Native.Nat.{min}
use native.Mathlib.Nat.{le_trans}
use hfmcbot.Prelude.{
  ℕ, zero, suc, ◌+◌, ◌-◌, ◌*◌, ◌%◌, ◌^◌, ◌<◌, ◌≤◌, ◌≡◌, refl, inl, inr, false, List, [], ◌∷◌,
  Option, none, some, leb, arith, Bool-cases,
}
use hfmcbot.Prelude.Text.{Text}
use hfmcbot.Exec.{transport}
use hfmcbot.Live.Await.{Ended, after_status, nap, landing_loop, start_landing}
use hfmcbot.Live.Executor.{Value}
use hfmcbot.Live.Landing.{BundleStatus, Verdict, done, wait, bundle_verdict, nanos}
use hfmcbot.Live.Replies.{Parsers, parse_bundle_status}
use hfmcbot.Live.Requests.{build_get_bundle_statuses_request}
use hfmcbot.Live.Rpc.{Reply, err}
use hfmcbot.Live.Run.{Keeps, Keeps-bind, Keeps-get, of_reply}
use hfmcbot.Live.Upstream.{Http, Net, exchange, bundles_request, get_bundle_statuses}

-- The clock does not go back over a request, and a sleep lasts at least as long as asked for.
pub record IsMonotonic {W : Type 0} (http : Http W) : Type 0 where
  pub over_post :
      (url : Text) (key : Option Text) (body : Value) (w : W)
      → http.instant w ≤ http.instant (http.post_json url key body w).0
  pub over_sleep : (n : ℕ) (w : W) → http.instant w + n ≤ http.instant (http.sleep n w)

module _ {W D : Type 0} (parsers : Parsers D) ⦃http : Http W⦄ where
  -- What the end of the loop is, at a state of the network: the answer of a status request, or the
  -- unknown state at or after the deadline.
  pub data IsLoopEnd (uuid : Text) (deadline : ℕ) (s : Net W) (reply : Reply (List Text))
      : Type 0 where
    decided :
        (id : ℕ) (before : Net W) (answer : Reply BundleStatus)
        → get_bundle_statuses parsers id uuid before ≡ (s, answer)
        → bundle_verdict answer ≡ done reply
        → IsLoopEnd uuid deadline s reply
    unknown :
        reply ≡ err transport → deadline ≤ http.instant s.world → IsLoopEnd uuid deadline s reply

  -- The loop ends.
  pub record LoopEnds (uuid : Text) (deadline : ℕ) (r : Ended W) : Type 0 where
    pub state : Net W
    pub reply : Reply (List Text)
    pub is_end : r ≡ some (state, reply)
    pub is_loop_end : IsLoopEnd uuid deadline state reply

  module _ (monotonic : IsMonotonic http) where
    exchange_onward :
        (t : ℕ) (url : Text) (key : Option Text) (body : Value)
        → Keeps (λ (s : Net W). t ≤ http.instant s.world) (exchange (http.post_json url key body))
    unfolding exchange
    exchange_onward t url key body s h = le_trans h (monotonic.over_post url key body s.world)

    get_bundle_statuses_onward :
        (t id : ℕ) (uuid : Text)
        → Keeps (λ (s : Net W). t ≤ http.instant s.world) (get_bundle_statuses parsers id uuid)
    unfolding get_bundle_statuses bundles_request
    get_bundle_statuses_onward t id uuid =
        let P : Net W → Type 0 = λ s. t ≤ http.instant s.world in
        Keeps-bind P (bundles_request (build_get_bundle_statuses_request id (uuid ∷ [])))
          (λ body. of_reply (parse_bundle_status parsers body))
          (Keeps-get P _ (λ s. exchange_onward t _ none _ s)) (λ body s p. p)

    nap_onward :
        (deadline k : ℕ) (s s' : Net W)
        → deadline ≤ http.instant s.world + suc k * nanos 2
        → http.instant s.world ≤ http.instant s'.world
        → leb deadline (http.instant s'.world) ≡ false
        → deadline ≤ http.instant (nap deadline s').world + k * nanos 2
    unfolding nap
    nap_onward deadline k s s' h onward early =
        let slept =
          monotonic.over_sleep (min (deadline - http.instant s'.world) (nanos 2)) s'.world in
        ground (arith, slept)

    after_status-LoopEnds :
        (uuid : Text) (deadline id : ℕ) (s s' : Net W) (answer : Reply BundleStatus)
        (v : Verdict (List Text)) (next : Ended W)
        → get_bundle_statuses parsers id uuid s ≡ (s', answer)
        → bundle_verdict answer ≡ v
        → (leb deadline (http.instant s'.world) ≡ false → LoopEnds uuid deadline next)
        → LoopEnds uuid deadline (after_status v deadline s' next)
    unfolding after_status
    after_status-LoopEnds uuid deadline id s s' answer (done reply) next h1 h2 later = record {
      state = s';
      reply = reply;
      is_end = refl;
      is_loop_end = decided id s answer h1 h2;
    }
    after_status-LoopEnds uuid deadline id s s' answer wait next h1 h2 later =
        elim (Bool-cases (leb deadline (http.instant s'.world))) [
          | inl late ↦ rw late (record {
            state = s';
            reply = err transport;
            is_end = refl;
            is_loop_end = unknown refl (ground arith);
          })
          | inr early ↦ rw early (later early)
        ]

    no_fuel : {k : ℕ} → k < 0 → ⊥
    no_fuel h = omega arith

    too_late : {d t u : ℕ} → d ≤ t + 0 * nanos 2 → t ≤ u → leb d u ≡ false → ⊥
    too_late h1 h2 h3 = ground arith

    landing_loop-LoopEnds :
        (uuid : Text) (deadline k fuel id : ℕ) (s : Net W)
        → deadline ≤ http.instant s.world + k * nanos 2
        → k < fuel
        → LoopEnds uuid deadline (landing_loop parsers uuid deadline fuel id s)
    unfolding landing_loop
    landing_loop-LoopEnds uuid deadline k zero id s h1 h2 = elim (no_fuel h2) [ ]
    landing_loop-LoopEnds uuid deadline zero (suc fuel) id s h1 h2 =
        let (s', answer) = get_bundle_statuses parsers id uuid s in
        let onward = get_bundle_statuses_onward (http.instant s.world) id uuid s (omega arith) in
        after_status-LoopEnds uuid deadline id s s' answer (bundle_verdict answer) _ refl refl
          (λ early. elim (too_late h1 onward early) [ ])
    landing_loop-LoopEnds uuid deadline (suc k) (suc fuel) id s h1 h2 =
        let (s', answer) = get_bundle_statuses parsers id uuid s in
        let onward = get_bundle_statuses_onward (http.instant s.world) id uuid s (omega arith) in
        after_status-LoopEnds uuid deadline id s s' answer (bundle_verdict answer) _ refl refl
          (λ early.
            landing_loop-LoopEnds uuid deadline k fuel ((id + 1) % 2 ^ 64) (nap deadline s')
              (nap_onward deadline k s s' h1 onward early) (omega arith))

    -- Where the clock does not go back, the wait for a bundle ends within a round for every second of
    -- its timeout and one more: with what the answer to a status request decides, or with a transport
    -- error at or after the deadline.
    pub start_landing-LoopEnds :
        (uuid : Text) (timeout_secs : ℕ) (s : Net W)
        → LoopEnds uuid
            (http.instant s.world + nanos timeout_secs)
            (start_landing parsers uuid timeout_secs s)
    unfolding start_landing
    start_landing-LoopEnds uuid timeout_secs s =
        landing_loop-LoopEnds uuid _ timeout_secs (suc timeout_secs) 1 s (omega arith) (omega arith)
