-- ===== src/Live/Simulated.antt =====
-- Simulation (src/live.rs): an executor that only simulates sends nothing, on no path of an order.
use hfmcbot.Prelude.{
  ℕ, zero, suc, ◌≡◌, ap, arith, Bool, true, false, not, List, Option, none, some, if◌then◌else◌,
}
use hfmcbot.Prelude.Text.{Text}
use hfmcbot.Exec.{TipTier}
use hfmcbot.Live.Executor.{
  LiveExecutor, Clients, Signing, UtcClock, JupiterQuote, SwapTx, call, next_id, fresh_blockhash,
  or_fetched, store_blockhash, submit, tip_tx, sign_and_maybe_send, if_sent, execute_live_buy,
  execute_live_sell, sol_mint, tip_for, live_buy, live_sell,
}
use hfmcbot.Live.Rpc.{Reply}
use hfmcbot.Live.Run.{Run, Keeps, Keeps-bind, Keeps-get, Keeps-then, of_reply, require}
use hfmcbot.Platform.Chrono.{Chrono, after}
use hfmcbot.Platform.Decimal.{Decimal, Whole}

-- What the reading calls of the clients keep of the network: all calls but those that submit a bundle
-- and await its landing.
pub record KeptByReads {N : Type 0} (D : Type 0) ⦃net : Clients N D⦄ (Q : N → Type 0) : Type 0 where
  pub by_quote : (a b : Text) (n m : ℕ) (w : N) → Q w → Q (net.quote a b n m w).0
  pub by_swap : (q : JupiterQuote D) (a : Text) (n : ℕ) (w : N) → Q w → Q (net.swap q a n w).0
  pub by_decimals : (a : Text) (w : N) → Q w → Q (net.fetch_token_decimals a w).0
  pub by_balance : (a b : Text) (w : N) → Q w → Q (net.fetch_token_balance a b w).0
  pub by_blockhash : (w : N) → Q w → Q (net.fetch_recent_blockhash w).0

module _ {N D : Type 0} ⦃net : Clients N D⦄ (Q : N → Type 0) where
  -- The executor only simulates, and the network is as it may be.
  abbrev IsIdle : LiveExecutor N D → Type 0
  IsIdle s = (s.simulate_only ≡ true) × Q s.net

  Keeps-call :
      {A : Type 0} (f : N → N × Reply A)
      → ((w : N) → Q w → Q (f w).0)
      → Keeps IsIdle (call {N = N} {D = D} f)
  unfolding call
  Keeps-call f h s (simulated, p) = (simulated, h s.net p)

  Keeps-next_id : Keeps IsIdle (next_id {N = N} {D = D})
  unfolding next_id
  Keeps-next_id s p = p

  Keeps-of_reply : {A : Type 0} (r : Reply A) → Keeps IsIdle (of_reply r)
  Keeps-of_reply r s p = p

  Keeps-require : (b : Bool) → Keeps IsIdle (require b)
  unfolding require
  Keeps-require true s p = p
  Keeps-require false s p = p

  Keeps-store : (hash : Text × ℕ) → Keeps IsIdle (store_blockhash {N = N} {D = D} hash)
  unfolding store_blockhash
  Keeps-store hash s p = p

  Keeps-or_fetched :
      KeptByReads D Q → (o : Option (Text × ℕ)) → Keeps IsIdle (or_fetched {N = N} {D = D} o)
  unfolding or_fetched
  Keeps-or_fetched reads none =
      Keeps-bind IsIdle _ _ (Keeps-call net.fetch_recent_blockhash reads.by_blockhash)
        (λ hash. Keeps-store hash)
  Keeps-or_fetched reads (some hash) = λ s p. p

  Keeps-fresh_blockhash : KeptByReads D Q → Keeps IsIdle (fresh_blockhash {N = N} {D = D})
  unfolding fresh_blockhash
  Keeps-fresh_blockhash reads = Keeps-get IsIdle _ (λ s. Keeps-or_fetched reads _ s)

  Keeps-submit :
      (b : Bool) (txs : List Text) → b ≡ true → Keeps IsIdle (submit {N = N} {D = D} b txs)
  unfolding submit
  Keeps-submit true txs h s p = p
  Keeps-submit false txs h s p = ground arith

module _ {N D : Type 0} ⦃net : Clients N D⦄ ⦃signing : Signing⦄ (Q : N → Type 0) where
  abbrev Idle : LiveExecutor N D → Type 0
  Idle = IsIdle Q

  Keeps-tip_tx :
      (key : List ℕ) (blockhash : Text) (lamports : ℕ) → Keeps Idle (tip_tx key blockhash lamports)
  unfolding tip_tx next_id
  Keeps-tip_tx key blockhash zero = λ s p. p
  Keeps-tip_tx key blockhash (suc lamports) = Keeps-bind Idle _ _ (Keeps-next_id Q) (λ n.
      Keeps-get Idle _ (λ s.
        Keeps-bind Idle _ _ (λ s p. p)
          (λ accounts.
            Keeps-bind Idle _ _ (λ s p. p) (λ dest. Keeps-bind Idle _ _ (λ s p. p) (λ tip s p. p)))
          s))

  Keeps-sign_and_maybe_send :
      KeptByReads D Q
      → (swap_tx : SwapTx) (tier : TipTier) → Keeps Idle (sign_and_maybe_send swap_tx tier)
  unfolding sign_and_maybe_send
  Keeps-sign_and_maybe_send reads swap_tx tier = Keeps-get Idle _ (λ s p.
      Keeps-bind Idle _ _ (λ s p. p)
        (λ key. Keeps-bind Idle _ _ (Keeps-fresh_blockhash Q reads) (λ (hash : Text × ℕ).
          Keeps-bind Idle _ _ (λ s p. p)
            (λ signed.
              Keeps-bind Idle _ _ (Keeps-tip_tx key hash.0 _)
                (λ tip. Keeps-submit Q s.simulate_only _ p.0))))
        s p)

  module _ ⦃d : Decimal D⦄ where
    Keeps-if_sent :
        (sent : Bool) (check : Run (LiveExecutor N D) (Unit {0}))
        → sent ≡ false
        → Keeps Idle (if_sent sent check)
    unfolding if_sent
    Keeps-if_sent false check h s p = p
    Keeps-if_sent true check h s p = ground arith

module _ {N D : Type 0} (T : Type 0) ⦃net : Clients N D⦄ ⦃signing : Signing⦄ ⦃clock : UtcClock N T⦄
    ⦃d : Decimal D⦄ ⦃whole : Whole D⦄ ⦃c : Chrono T⦄ (Q : N → Type 0)
    (reads : KeptByReads D Q) where
  guarded :
      {A : Type 0} (test : Bool) (stop go : LiveExecutor N D × Reply A)
      → Q stop.0.net
      → Q go.0.net
      → Q (if test then stop else go).0.net
  guarded true stop go h k = h
  guarded false stop go h k = k

  Keeps-execute_live_buy :
      (mint : Text) (budget_usd : D) (order_id : Text)
      → Keeps (IsIdle {D = D} Q) (execute_live_buy {T = T} mint budget_usd order_id)
  unfolding execute_live_buy
  Keeps-execute_live_buy mint budget_usd order_id = Keeps-get (IsIdle {D = D} Q) _ (λ s p.
      Keeps-bind (IsIdle {D = D} Q) _ _ (λ s p. p)
        (λ lamports.
          Keeps-bind (IsIdle {D = D} Q) _ _ (λ s p. p)
            (λ bps.
              Keeps-bind (IsIdle {D = D} Q) _ _
                (Keeps-call Q (net.quote sol_mint mint lamports bps)
                  (reads.by_quote sol_mint mint lamports bps))
                (λ quote. Keeps-then (IsIdle {D = D} Q) _ _ (Keeps-require Q _) (
                  Keeps-bind (IsIdle {D = D} Q) _ _
                    (Keeps-call Q (net.fetch_token_decimals mint) (reads.by_decimals mint))
                    (λ decimals.
                      Keeps-bind (IsIdle {D = D} Q) _ _
                        (Keeps-call Q (net.swap quote s.operator_pubkey s.tips.entry)
                          (reads.by_swap quote _ _))
                        (λ swap_tx.
                          Keeps-bind (IsIdle {D = D} Q) _ _
                            (Keeps-sign_and_maybe_send Q reads swap_tx TipTier.entry)
                            (λ sigs. Keeps-then (IsIdle {D = D} Q) _ _ (Keeps-require Q _) (
                              Keeps-then (IsIdle {D = D} Q) _ _ (Keeps-if_sent Q _ _ (ap not p.0))
                                (λ s p. p)))))))))
        s p)

  Keeps-execute_live_sell :
      (mint : Text) (qty : D) (order_id : Text) (tier : TipTier)
      → Keeps (IsIdle {D = D} Q) (execute_live_sell {T = T} mint qty order_id tier)
  unfolding execute_live_sell
  Keeps-execute_live_sell mint qty order_id tier = Keeps-get (IsIdle {D = D} Q) _ (λ s p.
      Keeps-bind (IsIdle {D = D} Q) _ _
        (Keeps-call Q (net.fetch_token_decimals mint) (reads.by_decimals mint))
        (λ decimals.
          Keeps-bind (IsIdle {D = D} Q) _ _ (λ s p. p)
            (λ in_raw.
              Keeps-bind (IsIdle {D = D} Q) _ _ (λ s p. p)
                (λ bps.
                  Keeps-bind (IsIdle {D = D} Q) _ _
                    (Keeps-call Q (net.quote mint sol_mint in_raw bps)
                      (reads.by_quote mint sol_mint in_raw bps))
                    (λ quote. Keeps-then (IsIdle {D = D} Q) _ _ (Keeps-require Q _) (
                      Keeps-bind (IsIdle {D = D} Q) _ _
                        (Keeps-call Q (net.swap quote s.operator_pubkey (tip_for s.tips tier))
                          (reads.by_swap quote _ _))
                        (λ swap_tx.
                          Keeps-bind (IsIdle {D = D} Q) _ _
                            (Keeps-sign_and_maybe_send Q reads swap_tx tier)
                            (λ sigs.
                              Keeps-then (IsIdle {D = D} Q) _ _ (Keeps-if_sent Q _ _ (ap not p.0))
                                (λ s p. p))))))))
        s p)

  -- An executor that only simulates takes no order to a bundle, whether the order is filled or fails
  -- on the way: what all calls of the network keep but those that submit a bundle and await it, each
  -- buy and each sale keeps.
  pub live_orders_simulated :
      (s : LiveExecutor N D) (mint : Text) (budget_usd qty : D) (now deadline : T) (order_id : Text)
      (tier : TipTier)
      → s.simulate_only ≡ true
      → Q s.net
      → Q (live_buy mint budget_usd now deadline order_id s).0.net
        × Q (live_sell {T = T} mint qty order_id tier s).0.net
  unfolding live_buy live_sell
  live_orders_simulated s mint budget_usd qty now deadline order_id tier simulated p = (
    guarded (not s.armed) _ _ p (
        guarded (after now deadline) _ _ p
          (Keeps-execute_live_buy mint budget_usd order_id s (simulated, p)).1),
    guarded (not s.armed) _ _ p (Keeps-execute_live_sell mint qty order_id tier s (simulated, p)).1,
  )
