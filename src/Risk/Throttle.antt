-- ===== src/Risk/Throttle.antt =====
-- The order throttle as a sliding window (src/risk.rs).
use hfmcbot.Prelude.{
  ℕ, ◌≤◌, ◌<◌, ◌≡◌, refl, true, false, inl, inr, List, [], ◌∷◌, ◌++◌, length, All, All-append, ◌==◌,
  arith, if◌then◌else◌, Bool-cases, leb, length-append,
}
use hfmcbot.Prelude.Int.{pos, leb_ℤ, as_u32}
use hfmcbot.Platform.Decimal.{Decimal}
use hfmcbot.Platform.Chrono.{Chrono, IsChronological, num_seconds, date_naive, before}
use hfmcbot.Risk.{
  RiskEngine, Verdict, allowed, blocked, BlockReason, maybe_rollover, prune, check_order,
}

module _ {T : Type 0} ⦃c : Chrono T⦄ where
  -- the orders of the last 60 seconds: the specification of the window
  unfoldable pub young : T → List T → List T
  young now [] = []
  young now (t ∷ q) = if leb_ℤ (pos 60) (num_seconds now t) then young now q else t ∷ young now q

  abbrev pub IsSorted : List T → Type 0
  IsSorted [] = Unit
  IsSorted (t ∷ q) = All (λ u. before t u ≡ true) q × IsSorted q

  module _ (times : IsChronological T) where
    young-All :
        (now t : T) (q : List T)
        → leb_ℤ (pos 60) (num_seconds now t) ≡ false
        → All (λ u. before t u ≡ true) q
        → young now q ≡ q
    unfolding young
    young-All now t [] h later = refl
    young-All now t (u ∷ q) h later =
        ground (arith, times.age_antitone now t u, young-All now t q h later.1)

    -- on a queue in order of time, to drop old orders from the front is to drop all old orders
    pub prune-eq-young : (now : T) (q : List T) → IsSorted q → prune now q ≡ young now q
    unfolding prune young
    prune-eq-young now [] h = refl
    prune-eq-young now (t ∷ q) h = ground (arith, prune-eq-young now q h.1, young-All now t q)

  All-young : (P : T → Type 0) (now : T) (q : List T) → All P q → All P (young now q)
  unfolding young
  All-young P now [] h = tt
  All-young P now (t ∷ q) h = ground (arith, All-young P now q h.1)

  young-IsSorted : (now : T) (q : List T) → IsSorted q → IsSorted (young now q)
  unfolding young
  young-IsSorted now [] h = tt
  young-IsSorted now (t ∷ q) h =
      ground (arith, young-IsSorted now q h.1, All-young (λ u. before t u ≡ true) now q h.0)

  length-young-le : (now : T) (q : List T) → length (young now q) ≤ length q
  unfolding young
  length-young-le now [] = omega arith
  length-young-le now (t ∷ q) = ground (arith, length-young-le now q)

  snoc-IsSorted :
      (q : List T) (now : T)
      → IsSorted q
      → All (λ t. before t now ≡ true) q
      → IsSorted (q ++ now ∷ [])
  snoc-IsSorted [] now h k = (tt, tt)
  snoc-IsSorted (t ∷ q) now h k =
      (All-append (λ u. before t u ≡ true) q (now ∷ []) h.0 (k.0, tt), snoc-IsSorted q now h.1 k.1)

small_as_u32 : (n : ℕ) → n < 4294967296 → as_u32 n ≡ n
small_as_u32 n h = omega arith

module _ {T : Type 0} ⦃c : Chrono T⦄ where
  -- The queue is in order of time, up to `now`, and within the limit.
  pub record IsWindow (limit : ℕ) (now : T) (q : List T) : Type 0 where
    pub sorted : IsSorted q
    pub past : All (λ t. before t now ≡ true) q
    pub within : length q ≤ limit

  young-IsWindow :
      (limit : ℕ) (now : T) (q : List T) → IsWindow limit now q → IsWindow limit now (young now q)
  young-IsWindow limit now q h = record {
    sorted = young-IsSorted now q h.sorted;
    past = All-young (λ t. before t now ≡ true) now q h.past;
    within = omega (arith, length-young-le now q, h.within);
  }

  snoc-IsWindow :
      (limit : ℕ) (now : T) (q : List T)
      → before now now ≡ true
      → length q < limit
      → IsWindow limit now q
      → IsWindow limit now (q ++ now ∷ [])
  snoc-IsWindow limit now q self room h = record {
    sorted = snoc-IsSorted q now h.sorted h.past;
    past = All-append (λ t. before t now ≡ true) q (now ∷ []) h.past (self, tt);
    within = omega (arith, length-append q (now ∷ []));
  }

module _ {D T : Type 0} ⦃d : Decimal D⦄ ⦃c : Chrono T⦄ where
  -- the specification of the throttle: an order is let through and noted if fewer than the limit
  -- were noted in the last 60 seconds
  unfoldable pub sliding_window : RiskEngine D T → T → RiskEngine D T × Verdict D
  sliding_window r now =
      let window = young now r.recent_orders in
      let r' = maybe_rollover r now in
      if leb r.cfg.max_trades_per_min (length window)
      then (
        record r' { recent_orders = window },
        blocked (BlockReason.throttled (length window) r.cfg.max_trades_per_min),
      )
      else (record r' { recent_orders = window ++ now ∷ [] }, allowed)

  -- Where instants are in order, with the noted orders in order of time, and fewer than 2^32 of them in the last 60 seconds,
  -- `check_order` is the sliding window: it counts exactly the orders of the last 60 seconds, lets
  -- the order through exactly if they are fewer than the limit, and then notes it.
  pub check_order-eq-sliding_window :
      (r : RiskEngine D T) (now : T)
      → IsChronological T
      → IsSorted r.recent_orders
      → length (young now r.recent_orders) < 4294967296
      → check_order r now ≡ sliding_window r now
  unfolding check_order sliding_window
  check_order-eq-sliding_window r now times sorted small =
      elim (Bool-cases (date_naive now == r.day)) [
        | inl today ↦
            rw (today, prune-eq-young times now r.recent_orders sorted, small_as_u32 _ small) refl
        | inr other ↦
            rw (other, prune-eq-young times now r.recent_orders sorted, small_as_u32 _ small) refl
      ]

  -- Where instants are in order and the limit is under 2^32: while the noted orders are in order of
  -- time, none after `now` and at most the limit, an order
  -- check at `now` keeps them so, whether it lets the order through or not.
  pub check_order-IsWindow :
      (r : RiskEngine D T) (now : T)
      → IsChronological T
      → r.cfg.max_trades_per_min < 4294967296
      → IsWindow r.cfg.max_trades_per_min now r.recent_orders
      → IsWindow r.cfg.max_trades_per_min now (check_order r now).0.recent_orders
  check_order-IsWindow r now times small h =
      let limit = r.cfg.max_trades_per_min in
      let q = young now r.recent_orders in
      let window = young-IsWindow limit now r.recent_orders h in
      rw (check_order-eq-sliding_window r now times h.sorted (omega (arith, window.within))) (
        unfold sliding_window in
        elim (Bool-cases (leb limit (length q))) [
          | inl full ↦ rw full window
          | inr room ↦
              rw room (snoc-IsWindow limit now q (times.before_refl now) (ground arith) window)
        ])
