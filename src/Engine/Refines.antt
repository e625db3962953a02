-- ===== src/Engine/Refines.antt =====
-- The engine refines the abstract book (src/engine.rs).
pub mod Buying
pub mod Selling
pub mod Run
use hfmcbot.Prelude.{Option, none, some}
use hfmcbot.Prelude.Map.{lookup}
use hfmcbot.Engine.Spec.{Book, Holding}
use hfmcbot.Engine.State.{Engine}
use hfmcbot.Types.{Position}

abbrev pub held : {D T : Type 0} → Option (Position D T) → Option (Holding D)
held none = none
held (some p) = some (record { amount = p.qty; cost = p.cost_usd })

-- the abstract book of an engine
abbrev pub book : {X D T : Type 0} → Engine X D T → Book D T
book s = record { money = s.equity; holding = λ k. held (lookup k s.positions); trades = s.closed }
