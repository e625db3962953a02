-- ===== src/Live/Landed.antt =====
-- Landing before a fill (src/live.rs): an executor that sends fills an order only when the bundle of
-- its own swap has landed.
use hfmcbot.Prelude.{◌≡◌, false}
use hfmcbot.Prelude.Text.{Text}
use hfmcbot.Live.Answers.{IsAnswerOfJito, IsLandedBody}
use hfmcbot.Live.Await.{live_clients}
use hfmcbot.Live.Executor.{LiveExecutor, Clients, Signing, UtcClock}
use hfmcbot.Live.Replies.{Parsers}
use hfmcbot.Live.Upstream.{Http, Net}
use hfmcbot.Platform.Chrono.{Chrono}
use hfmcbot.Platform.Decimal.{Decimal, Whole}
use hfmcbot.Types.{Fill}
use hfmcbot.Live.Orders.{Order, IsLandedOrder}

module _ {N D : Type 0} ⦃net : Clients N D⦄ where
  -- The executor sends its bundles.
  abbrev Sends : LiveExecutor N D → Type 0
  Sends s = s.simulate_only ≡ false

module _ {W D T : Type 0} (parsers : Parsers D) ⦃http : Http W⦄ ⦃d : Decimal D⦄ ⦃signing : Signing⦄
    ⦃clock : UtcClock (Net W) T⦄ ⦃whole : Whole D⦄ ⦃c : Chrono T⦄ where
  -- The order is filled as one whose bundle has landed, and Jito said so: the last request of the wait
  -- asked for the status of that bundle, and the answer says that it landed with the signatures.
  pub record IsOnChain (order : Order D T) (s s' : LiveExecutor (Net W) D) (f : Fill D T)
      : Type 0 where
    pub order_landed : IsLandedOrder ⦃net = live_clients {W = W} parsers⦄ order s s' f
    pub body : Text
    pub is_answer_of_jito : IsAnswerOfJito order_landed.bundle.uuid body order_landed.landed.net
    pub is_landed_body : IsLandedBody parsers body order_landed.signatures
