-- ===== src/Engine/Restore.antt =====
-- What a restored engine is (src/engine.rs, `restore`).
use hfmcbot.Prelude.{
  ◌⊎◌, ◌≡◌, ◌∙◌, refl, ap, arith, Option, none, some, Option-cases, List, [], ◌∷◌, length, inl, inr,
  ◌||◌, if◌then◌else◌,
}
use hfmcbot.Prelude.Map.{HashMap, lookup, insert, HasDistinctKeys}
use hfmcbot.Prelude.Map.Laws.{lookup-insert, insert-HasDistinctKeys}
use hfmcbot.Prelude.Text.{Text, text_eq}
use hfmcbot.Platform.Decimal.{Decimal}
use hfmcbot.Platform.Chrono.{Chrono}
use hfmcbot.Config.{Config}
use hfmcbot.Engine.Book.{
  checked, Violation, running, refused, check_invariants, collect_from, resumed, restore,
}
use hfmcbot.Engine.State.{Engine}
use hfmcbot.Persist.{AuditRecord, EngineState}
use hfmcbot.Risk.{set_open_positions}
use hfmcbot.Types.{Position}

-- the last position of the mint in a list
pub last_of : {D T : Type 0} → Text → List (Position D T) → Option (Position D T)
last_of mint [] = none
last_of mint (p ∷ ps) = elim (last_of mint ps) [
  | some q ↦ some q
  | none ↦ if text_eq mint p.mint then some p else none
]

abbrev or_else : {A : Type 0} → Option A → Option A → Option A
or_else none o = o
or_else (some a) o = some a

or_else-none : {A : Type 0} (o : Option A) → or_else o none ≡ o
or_else-none none = refl
or_else-none (some a) = refl

module _ {D T : Type 0} where
  lookup-collect_from :
      (mint : Text) (m : HashMap (Position D T)) (ps : List (Position D T))
      → lookup mint (collect_from m ps) ≡ or_else (last_of mint ps) (lookup mint m)
  unfolding collect_from last_of
  lookup-collect_from mint m [] = refl
  lookup-collect_from mint m (p ∷ ps) = elim (Option-cases (last_of mint ps)) [
    | inl last ↦
        ground
          (arith, lookup-collect_from mint (insert p.mint p m) ps, lookup-insert p.mint mint p m)
    | inr (q, found) ↦ ground (arith, lookup-collect_from mint (insert p.mint p m) ps)
  ]

  collect_from-HasDistinctKeys :
      (m : HashMap (Position D T)) (ps : List (Position D T))
      → HasDistinctKeys m
      → HasDistinctKeys (collect_from m ps)
  unfolding collect_from
  collect_from-HasDistinctKeys m [] h = h
  collect_from-HasDistinctKeys m (p ∷ ps) h =
      collect_from-HasDistinctKeys (insert p.mint p m) ps (insert-HasDistinctKeys p.mint p m h)

  lookup-collect :
      (mint : Text) (ps : List (Position D T)) → lookup mint (collect_from [] ps) ≡ last_of mint ps
  unfolding lookup
  lookup-collect mint ps = lookup-collect_from mint [] ps ∙ or_else-none (last_of mint ps)

module _ {X D T : Type 0} ⦃d : Decimal D⦄ ⦃c : Chrono T⦄ where
  -- `s` resumes the snapshot: its book passes the check and is the snapshot's, its breakers stand as
  -- they stood, a kill switch is not released, and the risk engine counts the open positions.
  pub record IsResumed (cfg : Config D) (exec : X) (snap : EngineState D T) (s : Engine X D T)
      : Type 0 where
    pub sound : check_invariants s ≡ none
    pub same_cfg : s.cfg ≡ cfg
    pub same_exec : s.exec ≡ exec
    pub same_equity : s.equity ≡ snap.equity_usd
    pub same_deployed : s.deployed_usd ≡ snap.deployed_usd
    pub same_positions : (mint : Text) → lookup mint s.positions ≡ last_of mint snap.positions
    pub distinct : HasDistinctKeys s.positions
    pub same_closed : s.closed ≡ snap.closed
    pub same_order_seq : s.order_seq ≡ snap.order_seq
    pub same_day : s.risk.day ≡ snap.risk.day
    pub same_day_pnl : s.risk.day_realized_pnl ≡ snap.risk.day_realized_pnl
    pub same_trip : s.risk.daily_loss_tripped ≡ snap.risk.daily_loss_tripped
    pub same_window : s.risk.recent_orders ≡ snap.risk.recent_orders
    pub still_killed : s.risk.kill ≡ (cfg.kill_switch || snap.risk.kill)
    pub counted : s.risk.open_positions ≡ length s.positions

  resumed-IsResumed :
      (cfg : Config D) (exec : X) (audit : List (AuditRecord D T)) (now : T)
      (snap : EngineState D T)
      → check_invariants (resumed cfg exec audit now snap) ≡ none
      → IsResumed cfg exec snap (resumed cfg exec audit now snap)
  unfolding resumed set_open_positions
  resumed-IsResumed cfg exec audit now snap h = record {
    sound = h;
    same_cfg = refl;
    same_exec = refl;
    same_equity = refl;
    same_deployed = refl;
    same_positions = λ mint. lookup-collect mint snap.positions;
    distinct = collect_from-HasDistinctKeys [] snap.positions tt;
    same_closed = refl;
    same_order_seq = refl;
    same_day = refl;
    same_day_pnl = refl;
    same_trip = refl;
    same_window = refl;
    still_killed = refl;
    counted = refl;
  }

  -- What `restore` gives is an engine that resumes the snapshot, or a refusal with a violation that
  -- the resumed book has. The engine's book passes its own check; it holds of each mint the last
  -- position that the snapshot has of it, once, and nothing else; equity, deployed capital, closed
  -- trades, order number, the day with its P&L, the breaker and the throttle window are the
  -- snapshot's; the executor and the configuration are the ones given; the kill switch is engaged if
  -- the configuration or the snapshot has it engaged; and the risk engine counts the open positions.
  pub restore-IsResumed :
      (cfg : Config D) (exec : X) (audit : List (AuditRecord D T)) (now : T)
      (snap : EngineState D T)
      → ((s : Engine X D T) × ((restore cfg exec audit now snap ≡ running s)
            × IsResumed cfg exec snap s))
        ⊎ ((v : Violation) × ((restore cfg exec audit now snap ≡ refused v)
              × (check_invariants (resumed cfg exec audit now snap) ≡ some v)))
  unfolding restore
  restore-IsResumed cfg exec audit now snap =
      elim (Option-cases (check_invariants (resumed cfg exec audit now snap))) [
        | inl sound ↦ inl (
          resumed cfg exec audit now snap,
          (
            ap (checked (resumed cfg exec audit now snap)) sound,
            resumed-IsResumed cfg exec audit now snap sound,
          ),
        )
        | inr (v, broken) ↦ inr (v, (ap (checked (resumed cfg exec audit now snap)) broken, broken))
      ]
