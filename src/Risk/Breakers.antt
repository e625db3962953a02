-- ===== src/Risk/Breakers.antt =====
-- The kill switch and the daily-loss breaker along any sequence of calls (src/risk.rs).
use hfmcbot.Prelude.{ℕ, ◌≡◌, ◌≢◌, refl, true, false, List, [], ◌∷◌, All, arith}
use hfmcbot.Platform.Decimal.{Decimal, ◌⊕◌, dec, le}
use hfmcbot.Platform.Chrono.{Chrono, date_naive}
use hfmcbot.Risk.{
  RiskEngine, allowed, blocked, BlockReason, maybe_rollover, loss_limit, record_realized_pnl,
  set_open_positions, engage_kill_switch, check_entry, check_order, note_side,
}
use hfmcbot.Types.{Side}

-- The calls that change the risk engine, but for the release of the kill switch and a restore.
pub data Call (D T : Type 0) : Type 0 where
  record_pnl : D → T → Call D T
  set_open : ℕ → Call D T
  engage : Call D T
  entry order : T → Call D T
  note : Side → T → Call D T

module _ {D T : Type 0} ⦃d : Decimal D⦄ ⦃c : Chrono T⦄ where
  unfoldable pub call : RiskEngine D T → Call D T → RiskEngine D T
  unfolding record_realized_pnl set_open_positions engage_kill_switch check_entry check_order
      note_side
  call r (Call.record_pnl pnl now) = record_realized_pnl r pnl now
  call r (Call.set_open n) = set_open_positions r n
  call r Call.engage = engage_kill_switch r
  call r (Call.entry now) = (check_entry r now).0
  call r (Call.order now) = (check_order r now).0
  call r (Call.note side now) = note_side r side now

  unfoldable pub calls : RiskEngine D T → List (Call D T) → RiskEngine D T
  unfolding call
  calls r [] = r
  calls r (x ∷ xs) = calls (call r x) xs

  kill-call : (r : RiskEngine D T) (x : Call D T) → r.kill ≡ true → (call r x).kill ≡ true
  unfolding call
  kill-call r (Call.record_pnl pnl now) h = ground arith
  kill-call r (Call.set_open n) h = h
  kill-call r Call.engage h = refl
  kill-call r (Call.entry now) h = ground arith
  kill-call r (Call.order now) h = ground arith
  kill-call r (Call.note Side.buy now) h = h
  kill-call r (Call.note Side.sell now) h = h

  kill-calls :
      (r : RiskEngine D T) (xs : List (Call D T)) → r.kill ≡ true → (calls r xs).kill ≡ true
  unfolding calls
  kill-calls r [] h = h
  kill-calls r (x ∷ xs) h = kill-calls (call r x) xs (kill-call r x h)

  pub killed_entry :
      (r : RiskEngine D T) (now : T) → r.kill ≡ true → (check_entry r now).1 ≢ allowed
  unfolding check_entry
  killed_entry r now h = ground arith

  -- Once the kill switch is engaged it stays engaged through every sequence of calls that does not
  -- release it, over any number of days, and no entry is allowed after any of them.
  pub check_entry-engage_kill_switch :
      (r : RiskEngine D T) (xs : List (Call D T)) (now : T)
      → let r' = calls (engage_kill_switch r) xs in
        (r'.kill ≡ true) × ((check_entry r' now).1 ≢ allowed)
  check_entry-engage_kill_switch r xs now =
      let on = kill-calls (engage_kill_switch r) xs (unfold engage_kill_switch in refl) in
      (on, killed_entry _ now on)

  -- The call is made on the given day, if it has a time.
  abbrev pub OnDay : ℕ → Call D T → Type 0
  OnDay day (Call.record_pnl pnl now) = date_naive now ≡ day
  OnDay day (Call.set_open n) = Unit
  OnDay day Call.engage = Unit
  OnDay day (Call.entry now) = date_naive now ≡ day
  OnDay day (Call.order now) = date_naive now ≡ day
  OnDay day (Call.note side now) = Unit

  -- The breaker is engaged for this day.
  pub record IsTripped (day : ℕ) (r : RiskEngine D T) : Type 0 where
    pub today : r.day ≡ day
    pub tripped : r.daily_loss_tripped ≡ true

  IsTripped-call :
      (day : ℕ) (r : RiskEngine D T) (x : Call D T)
      → OnDay day x
      → IsTripped day r
      → IsTripped day (call r x)
  unfolding call
  IsTripped-call day r (Call.record_pnl pnl now) e h = ground arith
  IsTripped-call day r (Call.set_open n) e h = record { today = h.today; tripped = h.tripped }
  IsTripped-call day r Call.engage e h = record { today = h.today; tripped = h.tripped }
  IsTripped-call day r (Call.entry now) e h = ground arith
  IsTripped-call day r (Call.order now) e h = ground arith
  IsTripped-call day r (Call.note Side.buy now) e h = h
  IsTripped-call day r (Call.note Side.sell now) e h = record {
    today = h.today;
    tripped = h.tripped;
  }

  IsTripped-calls :
      (day : ℕ) (r : RiskEngine D T) (xs : List (Call D T))
      → All (OnDay day) xs
      → IsTripped day r
      → IsTripped day (calls r xs)
  unfolding calls
  IsTripped-calls day r [] e h = h
  IsTripped-calls day r (x ∷ xs) e h =
      IsTripped-calls day (call r x) xs e.1 (IsTripped-call day r x e.0 h)

  -- a loss at or below the limit trips the breaker on the day of the loss
  record_realized_pnl-IsTripped :
      (r : RiskEngine D T) (pnl : D) (now : T)
      → le ((maybe_rollover r now).day_realized_pnl ⊕ pnl) (loss_limit (maybe_rollover r now))
        ≡ true
      → IsTripped (date_naive now) (record_realized_pnl r pnl now)
  unfolding record_realized_pnl
  record_realized_pnl-IsTripped r pnl now h = record {
    today = ground arith;
    tripped = ground arith;
  }

  tripped_entry :
      (day : ℕ) (r : RiskEngine D T) (now : T)
      → date_naive now ≡ day
      → IsTripped day r
      → (check_entry r now).1
        ≡ blocked
            (BlockReason.daily_loss_limit r.day_realized_pnl r.cfg.daily_loss_limit_pct r.equity)
  unfolding check_entry
  tripped_entry day r now e h = ground arith

  -- When the realised loss of a day has reached the limit, every entry is refused for that reason
  -- until the day is over, whatever is called in between on that day: a later profit does not
  -- release the breaker.
  pub check_entry-record_realized_pnl :
      (r : RiskEngine D T) (pnl : D) (lost : T) (xs : List (Call D T)) (now : T)
      → le ((maybe_rollover r lost).day_realized_pnl ⊕ pnl) (loss_limit (maybe_rollover r lost))
        ≡ true
      → All (OnDay (date_naive lost)) xs
      → date_naive now ≡ date_naive lost
      → let r' = calls (record_realized_pnl r pnl lost) xs in
        (check_entry r' now).1
        ≡ blocked
            (BlockReason.daily_loss_limit r'.day_realized_pnl r'.cfg.daily_loss_limit_pct r'.equity)
  check_entry-record_realized_pnl r pnl lost xs now reached days today =
      tripped_entry (date_naive lost) _ now today (
        IsTripped-calls (date_naive lost) _ xs days
          (record_realized_pnl-IsTripped r pnl lost reached))

  -- The breaker and the day's P&L end with the day, at the first entry check of another day, and
  -- the kill switch does not.
  pub check_entry_new_day :
      (r : RiskEngine D T) (now : T)
      → date_naive now ≢ r.day
      → let r' = (check_entry r now).0 in
        (r'.daily_loss_tripped ≡ false)
        × (r'.day_realized_pnl ≡ dec 0)
        × (r'.day ≡ date_naive now)
        × (r'.kill ≡ r.kill)
  unfolding check_entry
  check_entry_new_day r now h = ground arith
