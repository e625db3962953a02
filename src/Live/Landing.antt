-- ===== src/Live/Landing.antt =====
-- Landing (src/live.rs): the poll of a bundle, and the confirmation of a signature. A round is the
-- answer of the status call and the reading of the clock after it, in nanoseconds.
use native.Mathlib.Nat.{eq-or-lt_of_le}
use hfmcbot.Prelude.{
  ℕ, zero, suc, ◌+◌, ◌*◌, ◌<◌, ◌≤◌, ◌≡◌, refl, inl, inr, List, Option, none, some, leb, arith,
  Bool-cases, if◌then◌else◌,
}
use hfmcbot.Prelude.Text.{Text}
use hfmcbot.Exec.{transport, rejected, not_armed}
use hfmcbot.Live.Rpc.{Reply, ok, err}

-- `BundleStatus` and `SigStatus`, without the text of a failure
pub data BundleStatus : Type 0 where
  landed : List Text → BundleStatus
  failed pending : BundleStatus

pub data SigStatus : Type 0 where
  confirmed failed pending : SigStatus

-- what a round decides: a reply, or one more round
pub data Verdict (A : Type 0) : Type 0 where
  done : Reply A → Verdict A
  wait : Verdict A

-- the match of `poll_bundle_landing`: a transport error waits as a pending bundle does
unfoldable pub bundle_verdict : Reply BundleStatus → Verdict (List Text)
bundle_verdict (ok (BundleStatus.landed signatures)) = done (ok signatures)
bundle_verdict (ok BundleStatus.failed) = done (err rejected)
bundle_verdict (ok BundleStatus.pending) = wait
bundle_verdict (err transport) = wait
bundle_verdict (err rejected) = done (err rejected)
bundle_verdict (err not_armed) = done (err not_armed)

-- the match of `confirm_signature`, where each error ends the loop
unfoldable pub sig_verdict : Reply SigStatus → Verdict Unit
sig_verdict (ok SigStatus.confirmed) = done (ok tt)
sig_verdict (ok SigStatus.failed) = done (err rejected)
sig_verdict (ok SigStatus.pending) = wait
sig_verdict (err e) = done (err e)

-- the end of a round: a verdict, or the deadline, or the next round
unfoldable pub end_round : {A : Type 0} → Verdict A → ℕ → ℕ → Option (Reply A) → Option (Reply A)
end_round (done reply) deadline now next = some reply
end_round wait deadline now next = if leb deadline now then some (err transport) else next

module _ {S A : Type 0} (verdict : Reply S → Verdict A) (answers : ℕ → Reply S)
    (clock : ℕ → ℕ) where
  -- the loop from its round k on, with fuel for the rounds; `none` is a loop that has not ended
  unfoldable pub poll : ℕ → ℕ → ℕ → Option (Reply A)
  unfolding end_round
  poll zero deadline k = none
  poll (suc fuel) deadline k =
      end_round (verdict (answers k)) deadline (clock k) (poll fuel deadline (suc k))

abbrev pub nanos : ℕ → ℕ
nanos secs = secs * 1000000000

-- `poll_bundle_landing`, started at the instant `start`
unfoldable pub poll_bundle_landing :
    (ℕ → Reply BundleStatus) → (ℕ → ℕ) → ℕ → ℕ → ℕ → Option (Reply (List Text))
unfolding poll bundle_verdict
poll_bundle_landing answers clock start timeout_secs fuel =
    poll bundle_verdict answers clock fuel (start + nanos timeout_secs) 0

unfoldable pub confirm_signature : (ℕ → Reply SigStatus) → (ℕ → ℕ) → ℕ → ℕ → ℕ → Option (Reply Unit)
unfolding poll sig_verdict
confirm_signature answers clock start timeout_secs fuel =
    poll sig_verdict answers clock fuel (start + nanos timeout_secs) 0

-- What the end of a poll is: the verdict of a round, or the unknown state, after a round without a
-- verdict at or after the deadline.
pub data IsEnd {S A : Type 0} (verdict : Reply S → Verdict A) (answers : ℕ → Reply S)
    (clock : ℕ → ℕ) (deadline : ℕ) : Reply A → Type 0 where
  decided :
      (k : ℕ) (reply : Reply A)
      → verdict (answers k) ≡ done reply
      → IsEnd verdict answers clock deadline reply
  unknown :
      (k : ℕ)
      → verdict (answers k) ≡ wait
      → deadline ≤ clock k
      → IsEnd verdict answers clock deadline (err transport)

-- The poll ends.
pub record Ends {S A : Type 0} (verdict : Reply S → Verdict A) (answers : ℕ → Reply S)
    (clock : ℕ → ℕ) (deadline : ℕ) (result : Option (Reply A)) : Type 0 where
  pub reply : Reply A
  pub is_reply : result ≡ some reply
  pub is_end : IsEnd verdict answers clock deadline reply

later_round :
    (clock : ℕ → ℕ) {deadline k m : ℕ} → clock k < deadline → deadline ≤ clock m → k ≤ m → suc k ≤ m
later_round clock {deadline} {k} {m} early past h = ground (arith, eq-or-lt_of_le h)

gone : {k m : ℕ} → k ≤ m → m < k + 0 → ⊥
gone h1 h2 = omega arith

module _ {S A : Type 0} (verdict : Reply S → Verdict A) (answers : ℕ → Reply S) (clock : ℕ → ℕ)
    (deadline : ℕ) where
  end_round-Ends :
      (k : ℕ) (v : Verdict A) (next : Option (Reply A))
      → verdict (answers k) ≡ v
      → (clock k < deadline → Ends verdict answers clock deadline next)
      → Ends verdict answers clock deadline (end_round v deadline (clock k) next)
  unfolding end_round
  end_round-Ends k (done reply) next is_v later = record {
    reply = reply;
    is_reply = refl;
    is_end = decided k reply is_v;
  }
  end_round-Ends k wait next is_v later = elim (Bool-cases (leb deadline (clock k))) [
    | inl late ↦
        rw late (record {
          reply = err transport;
          is_reply = refl;
          is_end = unknown k is_v (ground arith);
        })
    | inr early ↦ rw early (later (ground arith))
  ]

  poll-Ends :
      (fuel k m : ℕ)
      → deadline ≤ clock m
      → k ≤ m
      → m < k + fuel
      → Ends verdict answers clock deadline (poll verdict answers clock fuel deadline k)
  unfolding poll
  poll-Ends zero k m past h1 h2 = elim (gone h1 h2) [ ]
  poll-Ends (suc fuel) k m past h1 h2 =
      end_round-Ends k (verdict (answers k)) (poll verdict answers clock fuel deadline (suc k)) refl
        (λ early. poll-Ends fuel (suc k) m past (later_round clock early past h1) (omega arith))

-- Where the clock of some round m has passed the deadline, the poll of a bundle ends within m + 1
-- rounds: with the verdict of a round, or with a transport error after a round that is at or after
-- the deadline.
pub poll_bundle_landing-Ends :
    (answers : ℕ → Reply BundleStatus) (clock : ℕ → ℕ) (start timeout_secs fuel m : ℕ)
    → start + nanos timeout_secs ≤ clock m
    → m < fuel
    → Ends bundle_verdict answers clock
        (start + nanos timeout_secs)
        (poll_bundle_landing answers clock start timeout_secs fuel)
unfolding poll_bundle_landing
poll_bundle_landing-Ends answers clock start timeout_secs fuel m past h =
    poll-Ends bundle_verdict answers clock (start + nanos timeout_secs) fuel 0 m past (omega arith)
      (omega arith)

-- Where the clock of some round m has passed the deadline, the confirmation of a signature ends
-- within m + 1 rounds: with the verdict of a round, or with a transport error after a round that is
-- at or after the deadline.
pub confirm_signature-Ends :
    (answers : ℕ → Reply SigStatus) (clock : ℕ → ℕ) (start timeout_secs fuel m : ℕ)
    → start + nanos timeout_secs ≤ clock m
    → m < fuel
    → Ends sig_verdict answers clock
        (start + nanos timeout_secs)
        (confirm_signature answers clock start timeout_secs fuel)
unfolding confirm_signature
confirm_signature-Ends answers clock start timeout_secs fuel m past h =
    poll-Ends sig_verdict answers clock (start + nanos timeout_secs) fuel 0 m past (omega arith)
      (omega arith)
