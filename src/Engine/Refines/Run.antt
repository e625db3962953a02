-- ===== src/Engine/Refines/Run.antt =====
-- Over any feed, the engine refines the abstract book.
use hfmcbot.Platform.Decimal.{Decimal}
use hfmcbot.Platform.Chrono.{Chrono}
use hfmcbot.Engine.State.{Engine, Exit}
