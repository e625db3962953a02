-- ===== src/Engine/Sweep.antt =====
-- The sweep of the time stops over a book with nothing due (src/engine.rs).
use hfmcbot.Prelude.{◌≡◌, ◌⊎◌, refl, ap, ◌∙◌, true, List, [], ◌∷◌, none, All, if_ind, inl, inr}
use hfmcbot.Prelude.Map.{values}
use hfmcbot.Platform.Decimal.{Decimal}
use hfmcbot.Platform.Chrono.{Chrono}
use hfmcbot.Config.{Config}
use hfmcbot.Engine.Events.{due_exit, push_exit, due_exits, close_all, sweep_time_stops}
use hfmcbot.Engine.State.{Engine}
use hfmcbot.Exec.{Executor}
use hfmcbot.Strategy.{on_time}
use hfmcbot.Types.{Position}

module _ {D T : Type 0} ⦃d : Decimal D⦄ ⦃c : Chrono T⦄ where
  due_exits_idle :
      (cfg : Config D) (now : T) (book : List (Position D T))
      → All (λ p. (p.stuck ≡ true) ⊎ (on_time p now cfg ≡ none)) book
      → due_exits cfg now book ≡ []
  unfolding due_exits due_exit push_exit
  due_exits_idle cfg now [] idle = refl
  due_exits_idle cfg now (p ∷ book) (inl stuck, idle) = rw stuck (due_exits_idle cfg now book idle)
  due_exits_idle cfg now (p ∷ book) (inr early, idle) = rw early (
      if_ind (λ o. push_exit o p now (due_exits cfg now book) ≡ []) p.stuck
        (due_exits_idle cfg now book idle) (due_exits_idle cfg now book idle))

module _ {X D T : Type 0} ⦃d : Decimal D⦄ ⦃c : Chrono T⦄ ⦃ex : Executor X D T⦄ where
  close_all-nil : (s : Engine X D T) → close_all s [] ≡ s
  unfolding close_all
  close_all-nil s = refl

  -- A sweep leaves the engine as it is if every position is stuck or not yet due.
  pub sweep_time_stops_idle :
      (s : Engine X D T) (now : T)
      → All (λ p. (p.stuck ≡ true) ⊎ (on_time p now s.cfg ≡ none)) (values s.positions)
      → sweep_time_stops s now ≡ s
  unfolding sweep_time_stops
  sweep_time_stops_idle s now idle =
      ap (close_all s) (due_exits_idle s.cfg now (values s.positions) idle) ∙ close_all-nil s
