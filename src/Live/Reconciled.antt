-- ===== src/Live/Reconciled.antt =====
-- Reconciliation (src/live.rs): a buy that is filled is covered by the operator's balance.
use hfmcbot.Prelude.{◌≡◌, refl, ap, Bool, true, false, not, arith, if◌then◌else◌}
use mathlib.Core.Path.{subst}
use hfmcbot.Exec.{ExecError, transport}
use hfmcbot.Live.Money.{raw_to_decimal}
use hfmcbot.Prelude.Text.{Text}
use hfmcbot.Live.Executor.{
  LiveExecutor, Clients, Signing, UtcClock, call, if_sent, reconcile_buy_fill, quoted_fill,
  settle_buy, execute_live_buy, live_buy,
}
use hfmcbot.Live.Rpc.{Reply, ok, err}
use hfmcbot.Live.Run.{bind-ok, then-ok, get-ok, require-ok}
use hfmcbot.Platform.Chrono.{Chrono, after}
use hfmcbot.Platform.Decimal.{Decimal, Whole, le, lt, dec, ◌⊕◌}
use hfmcbot.Types.{Fill, Side}

-- The fill answers the order, and the last balance of the operator in the mint covers its quantity up
-- to the dust.
pub record IsCovered {N D T : Type 0} ⦃net : Clients N D⦄ ⦃d : Decimal D⦄ (mint : Text)
    (budget_usd : D) (order_id : Text) (s : LiveExecutor N D) (f : Fill D T) : Type 0 where
  pub same_order : f.order_id ≡ order_id
  pub same_mint : f.mint ≡ mint
  pub same_side : f.side ≡ Side.buy
  pub same_notional : f.notional_usd ≡ budget_usd
  pub pos_qty : lt (dec 0) f.qty ≡ true
  pub before_read : N
  pub actual : D
  pub is_balance : net.fetch_token_balance s.operator_pubkey mint before_read ≡ (s.net, ok actual)
  pub covers : le f.qty (actual ⊕ s.reconcile_dust_tokens) ≡ true

not_short : (b : Bool) → (if not b then err transport else ok tt) ≡ ok (tt {0}) → b ≡ true
not_short true h = refl
not_short false h = ground arith

pub not_stopped :
    {S A : Type 0} (test : Bool) (s s' : S) (e : ExecError) (go : S × Reply A) (a : A)
    → (if test then (s, err e) else go) ≡ (s', ok a)
    → go ≡ (s', ok a)
not_stopped true s s' e go a h = ground arith
not_stopped false s s' e go a h = h

module _ {N D : Type 0} ⦃net : Clients N D⦄ ⦃d : Decimal D⦄ where
  call-ok :
      {A : Type 0} (f : N → N × Reply A) (s t : LiveExecutor N D) (a : A)
      → call f s ≡ (t, ok a)
      → (f s.net ≡ (t.net, ok a))
        × (s.operator_pubkey ≡ t.operator_pubkey)
        × (s.reconcile_dust_tokens ≡ t.reconcile_dust_tokens)
  unfolding call
  call-ok f s t a h = (
    ap (λ z. (z.0.net, z.1)) h,
    ap (λ z. z.0.operator_pubkey) h,
    ap (λ z. z.0.reconcile_dust_tokens) h,
  )

  reconcile_buy_fill-ok :
      (mint : Text) (qty : D) (s s' : LiveExecutor N D)
      → reconcile_buy_fill mint qty s ≡ (s', ok tt)
      → (w : N) × (actual : D) × (net.fetch_token_balance s'.operator_pubkey mint w
          ≡ (s'.net, ok actual))
        × (le qty (actual ⊕ s'.reconcile_dust_tokens) ≡ true)
  unfolding reconcile_buy_fill
  reconcile_buy_fill-ok mint qty s s' h =
      let (actual, t, read, checked) = bind-ok _ _ s s' tt (get-ok _ s (s', ok tt) h) in
      let f = net.fetch_token_balance s.operator_pubkey mint in
      let got : call f s ≡ (s', ok actual) =
        subst (λ u. call f s ≡ (u, ok actual)) (ap (λ z. z.0) checked) read in
      let (is_read, same_operator, same_dust) = call-ok f s s' actual got in
      (
        s.net,
        actual,
        subst (λ o. net.fetch_token_balance o mint s.net ≡ (s'.net, ok actual)) same_operator
            is_read,
        subst (λ dust. le qty (actual ⊕ dust) ≡ true) same_dust
            (not_short _ (ap (λ z. z.1) checked)),
      )

  settle_buy-IsCovered :
      {T : Type 0} ⦃clock : UtcClock N T⦄
      → (mint : Text) (budget_usd : D) (order_id : Text) (qty : D) (s s' : LiveExecutor N D)
        (f : Fill D T)
      → settle_buy mint budget_usd order_id true qty s ≡ (s', ok f)
      → IsCovered mint budget_usd order_id s' f
  unfolding settle_buy if_sent quoted_fill
  settle_buy-IsCovered mint budget_usd order_id qty s s' f h =
      let (t, pos, h1) = then-ok _ _ s s' f h in
      let (u, sent, h2) = then-ok _ _ t s' f h1 in
      let settled : reconcile_buy_fill mint qty t ≡ (s', ok tt) =
        subst (λ v. reconcile_buy_fill mint qty t ≡ (v, ok tt)) (ap (λ z. z.0) h2) sent in
      let (w, actual, is_balance, covers) = reconcile_buy_fill-ok mint qty t s' settled in
      let reply = ap (λ z. z.1) h2 in
      let same_qty : qty ≡ f.qty = ground arith in
      record {
        same_order = ground arith;
        same_mint = ground arith;
        same_side = ground arith;
        same_notional = ground arith;
        pos_qty = subst (λ q. lt (dec 0) q ≡ true) same_qty (require-ok _ s t pos);
        before_read = w;
        actual = actual;
        is_balance = is_balance;
        covers = subst (λ q. le q (actual ⊕ s'.reconcile_dust_tokens) ≡ true) same_qty covers;
      }

  -- a fill comes only of a buy whose reconciliation passed
  execute_live_buy-IsCovered :
      {T : Type 0} ⦃signing : Signing⦄ ⦃clock : UtcClock N T⦄ ⦃whole : Whole D⦄
      → (mint : Text) (budget_usd : D) (order_id : Text) (s s' : LiveExecutor N D) (f : Fill D T)
      → s.simulate_only ≡ false
      → execute_live_buy mint budget_usd order_id s ≡ (s', ok f)
      → IsCovered mint budget_usd order_id s' f
  unfolding execute_live_buy
  execute_live_buy-IsCovered mint budget_usd order_id s s' f sends h =
      let (lamports, s1, _, h1) = bind-ok _ _ s s' f (get-ok _ s (s', ok f) h) in
      let (bps, s2, _, h2) = bind-ok _ _ s1 s' f h1 in
      let (quote, s3, _, h3) = bind-ok _ _ s2 s' f h2 in
      let (s4, _, h4) = then-ok _ _ s3 s' f h3 in
      let (decimals, s5, _, h5) = bind-ok _ _ s4 s' f h4 in
      let (swap_tx, s6, _, h6) = bind-ok _ _ s5 s' f h5 in
      let (sigs, s7, _, h7) = bind-ok _ _ s6 s' f h6 in
      settle_buy-IsCovered mint budget_usd order_id (raw_to_decimal quote.out_amount_raw decimals)
        s7 s' f
        (subst
          (λ b.
            settle_buy mint budget_usd order_id b (raw_to_decimal quote.out_amount_raw decimals) s7
            ≡ (s', ok f))
          (ap not sends) h7)

  -- A buy of an executor that sends, where it is filled, has the order's number, mint, side and budget,
  -- and a quantity above zero, which the balance of the operator in the mint, as it was last read,
  -- covers up to the dust.
  pub live_buy-IsCovered :
      {T : Type 0} ⦃signing : Signing⦄ ⦃clock : UtcClock N T⦄ ⦃whole : Whole D⦄ ⦃c : Chrono T⦄
      → (mint : Text) (budget_usd : D) (now deadline : T) (order_id : Text)
        (s s' : LiveExecutor N D) (f : Fill D T)
      → s.simulate_only ≡ false
      → live_buy mint budget_usd now deadline order_id s ≡ (s', ok f)
      → IsCovered mint budget_usd order_id s' f
  unfolding live_buy
  live_buy-IsCovered mint budget_usd now deadline order_id s s' f sends h =
      execute_live_buy-IsCovered mint budget_usd order_id s s' f sends
        (not_stopped (after now deadline) _ _ _ _ _ (not_stopped (not s.armed) _ _ _ _ _ h))
