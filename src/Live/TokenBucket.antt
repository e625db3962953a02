-- ===== src/Live/TokenBucket.antt =====
-- The token bucket of the outbound calls (src/live.rs), with instants in nanoseconds.
use Prim.Native.Nat.{min}
use native.Mathlib.Nat.{le_trans, mul-le-mul_right, add-mul}
use hfmcbot.Prelude.{
  ℕ, ◌+◌, ◌-◌, ◌*◌, ◌/◌, ◌%◌, ◌^◌, ◌≤◌, ◌≡◌, sym, ap, ◌∙◌, Bool, true, false, List, [], ◌∷◌, leb,
  ltb, ◌==◌, arith, if◌then◌else◌,
}

pub record TokenBucket : Type 0 where
  pub capacity : ℕ
  pub refill_per_sec : ℕ
  pub available : ℕ
  pub last_refill : ℕ

abbrev nanos_per_sec : ℕ
nanos_per_sec = 1000000000

unfoldable pub new : ℕ → ℕ → ℕ → TokenBucket
new capacity refill_per_sec now = record {
  capacity = capacity;
  refill_per_sec = refill_per_sec;
  available = capacity;
  last_refill = now;
}

-- the tokens of the time since the last refill, in the 64 bits of `as u64`
unfoldable pub earned : TokenBucket → ℕ → ℕ
earned b now = (now - b.last_refill) * b.refill_per_sec / nanos_per_sec % 2 ^ 64

-- `refill` reads the clock for the elapsed time, at `now`, and again for the new instant, at `later`
unfoldable pub refill : TokenBucket → ℕ → ℕ → TokenBucket
unfolding earned
refill b now later =
    if now - b.last_refill == 0
    then b
    else if ltb 0 (earned b now)
    then record b {
      available = min (min (b.available + earned b now) (2 ^ 64 - 1)) b.capacity;
      last_refill = later;
    }
    else b

-- what is taken of a bucket
unfoldable pub take_from : TokenBucket → ℕ → TokenBucket × Bool
take_from b n =
    if leb n b.available then (record b { available = b.available - n }, true) else (b, false)

unfoldable pub try_take : TokenBucket → ℕ → ℕ → ℕ → TokenBucket × Bool
unfolding refill take_from
try_take b now later n = take_from (refill b now later) n

-- a call of `try_take`: the two readings of the clock, and the tokens asked for
pub record Request : Type 0 where
  pub now : ℕ
  pub later : ℕ
  pub tokens : ℕ

-- requests, one after another: the bucket, and the tokens that were granted
unfoldable pub take_all : List Request → TokenBucket → TokenBucket × ℕ
unfolding try_take
take_all [] b = (b, 0)
take_all (r ∷ requests) b =
    let (b', granted) = try_take b r.now r.later r.tokens in
    let (b'', total) = take_all requests b' in (b'', (if granted then r.tokens else 0) + total)

-- The second reading of a request is not before its first.
abbrev pub IsClocked : List Request → Type 0
IsClocked [] = Unit
IsClocked (r ∷ requests) = (r.now ≤ r.later) × IsClocked requests

earned_paid : (x : ℕ) → x / nanos_per_sec % 2 ^ 64 * nanos_per_sec ≤ x
earned_paid x = omega arith

-- the refill as a whole: the tokens that came are paid for by the time that went
record IsPaid (b b' : TokenBucket) : Type 0 where
  onward : b.last_refill ≤ b'.last_refill
  paid :
      b'.available * nanos_per_sec
      ≤ b.available * nanos_per_sec + (b'.last_refill - b.last_refill) * b.refill_per_sec
  same_rate : b'.refill_per_sec ≡ b.refill_per_sec
  same_capacity : b'.capacity ≡ b.capacity

refill-IsPaid : (b : TokenBucket) (now later : ℕ) → now ≤ later → IsPaid b (refill b now later)
unfolding refill earned
refill-IsPaid b now later h =
    let x = (now - b.last_refill) * b.refill_per_sec in
    let y = (later - b.last_refill) * b.refill_per_sec in
    let bought : x / nanos_per_sec % 2 ^ 64 * nanos_per_sec ≤ y =
      le_trans (earned_paid x) (mul-le-mul_right b.refill_per_sec (omega arith)) in
    record {
      onward = ground arith;
      paid = ground (arith, bought);
      same_rate = ground arith;
      same_capacity = ground arith;
    }

take_from-IsPaid :
    (b : TokenBucket) (n : ℕ)
    → let (b', granted) = take_from b n in
      (b'.available + (if granted then n else 0) ≡ b.available)
      × (b'.last_refill ≡ b.last_refill)
      × (b'.refill_per_sec ≡ b.refill_per_sec)
      × (b'.capacity ≡ b.capacity)
unfolding take_from
take_from-IsPaid b n = (ground arith, ground arith, ground arith, ground arith)

split_span : (a b c k : ℕ) → a ≤ b → b ≤ c → (b - a) * k + (c - b) * k ≡ (c - a) * k
split_span a b c k h1 h2 =
    let e : b - a + (c - b) ≡ c - a = omega arith in
    sym (add-mul (b - a) (c - b) k) ∙ ap (λ t. t * k) e

-- What the grants of a run cost: the time that went pays for them, beyond what was there.
record IsBounded (b : TokenBucket) (r : TokenBucket × ℕ) : Type 0 where
  onward : b.last_refill ≤ r.0.last_refill
  bound :
      r.1 * nanos_per_sec
      ≤ b.available * nanos_per_sec + (r.0.last_refill - b.last_refill) * b.refill_per_sec

try_take-IsBounded :
    (b b1 : TokenBucket) (granted : ℕ) (rest : TokenBucket × ℕ)
    → IsPaid b b1
    → (b2 : TokenBucket) → b2.available + granted ≡ b1.available
    → b2.last_refill ≡ b1.last_refill
    → b2.refill_per_sec ≡ b1.refill_per_sec
    → IsBounded b2 rest
    → IsBounded b (rest.0, granted + rest.1)
try_take-IsBounded b b1 granted rest paid b2 taken same_last same_rate bounded =
    let rate_b2 : b2.refill_per_sec ≡ b.refill_per_sec = same_rate ∙ paid.same_rate in
    let same_span : (rest.0.last_refill - b2.last_refill) * b2.refill_per_sec
        ≡ (rest.0.last_refill - b1.last_refill) * b.refill_per_sec =
      cc in
    let onward : b1.last_refill ≤ rest.0.last_refill = omega (arith, bounded.onward) in
    let span =
      split_span b.last_refill b1.last_refill rest.0.last_refill b.refill_per_sec paid.onward
        onward in
    record {
      onward = le_trans paid.onward onward;
      bound = omega (arith, paid.paid, bounded.bound, same_span, span, taken);
    }

take_all-IsBounded :
    (requests : List Request) (b : TokenBucket)
    → IsClocked requests
    → IsBounded b (take_all requests b)
unfolding take_all try_take
take_all-IsBounded [] b h = record { onward = omega arith; bound = omega arith }
take_all-IsBounded (r ∷ requests) b (clocked, h) =
    let b1 = refill b r.now r.later in
    let (taken, same_last, same_rate, _) = take_from-IsPaid b1 r.tokens in
    let b2 = (take_from b1 r.tokens).0 in
    let rest = take_all-IsBounded requests b2 h in
    try_take-IsBounded b b1 _ _ (refill-IsPaid b r.now r.later clocked) b2 taken same_last same_rate
      rest

-- Whatever is asked of a new bucket, and whenever, the tokens that it grants are at most its capacity
-- and what its rate yields from its start to its last refill.
pub take_all_bound :
    (capacity rate start : ℕ) (requests : List Request)
    → IsClocked requests
    → let (b, total) = take_all requests (new capacity rate start) in
      total * nanos_per_sec ≤ capacity * nanos_per_sec + (b.last_refill - start) * rate
unfolding new
take_all_bound capacity rate start requests h =
    let bounded = take_all-IsBounded requests (new capacity rate start) h in bounded.bound
