-- ===== src/LiveLoop/Reconcile.antt =====
-- The subscriptions of the live loop (src/liveloop.rs, `after_event`): what is watched after an
-- event, whatever the sink answers.
use hfmcbot.Prelude.{ℕ, ◌≡◌, refl, true, false, not, ◌&&◌, ◌||◌, List, [], ◌∷◌, arith}
use hfmcbot.Prelude.Sort.{contains}
use hfmcbot.Prelude.Text.{Text, text_eq_iff}
use hfmcbot.Platform.Chrono.{Chrono}
use hfmcbot.Platform.Decimal.{Decimal}
use hfmcbot.Engine.View.{open_mints}
use hfmcbot.LiveLoop.{Sink, LiveLoopArgs, Session, remove_all, insert_all, after_event}
use hfmcbot.WsFeed.{plan_trade_subs}
use hfmcbot.WsFeed.Subs.{AreNew, plan_trade_subs-IsPlan}

contains-remove_all :
    (gone mints : List Text) (m : Text)
    → contains (remove_all gone mints) m ≡ (contains mints m && not (contains gone m))
unfolding remove_all contains
contains-remove_all gone [] m = refl
contains-remove_all gone (x ∷ mints) m =
    ground (arith, text_eq_iff x m, contains-remove_all gone mints m)

contains-insert_all :
    (new mints : List Text) (m : Text)
    → contains (insert_all new mints) m ≡ (contains mints m || contains new m)
unfolding insert_all contains
contains-insert_all [] mints m = ground arith
contains-insert_all (x ∷ new) mints m =
    ground (
      arith,
      text_eq_iff x m,
      contains-insert_all new mints m,
      contains-insert_all new (x ∷ mints) m,
    )

AreNew-contains :
    (open_now subscribed subs : List Text) (m : Text)
    → AreNew open_now subscribed subs
    → contains subs m ≡ true
    → (contains open_now m ≡ true) × (contains subscribed m ≡ false)
unfolding contains
AreNew-contains open_now subscribed [] m new h = cc
AreNew-contains open_now subscribed (x ∷ subs) m ((is_open, is_new), new) h =
    ground (arith, text_eq_iff x m, AreNew-contains open_now subscribed subs m new)

module _ {X D T K : Type 0} ⦃d : Decimal D⦄ ⦃c : Chrono T⦄ ⦃sink : Sink K⦄ (args : LiveLoopArgs D)
    (s : Session X D T K) (m : Text) where
  -- After an event a mint is subscribed exactly where it is open and was subscribed before, or the
  -- plan takes it on, whatever the sink answers.
  pub after_event_subscribed :
      let (to_sub, to_unsub) =
        plan_trade_subs (open_mints s.engine) s.subscribed args.max_trade_subs in
      contains (after_event args s).subscribed m
      ≡ (contains s.subscribed m && contains (open_mints s.engine) m || contains to_sub m)
  unfolding after_event
  after_event_subscribed =
      let plan = plan_trade_subs (open_mints s.engine) s.subscribed args.max_trade_subs in
      let is_plan = plan_trade_subs-IsPlan (open_mints s.engine) s.subscribed args.max_trade_subs in
      ground (
        arith,
        contains-insert_all plan.0 (remove_all plan.1 s.subscribed) m,
        contains-remove_all plan.1 s.subscribed m,
        is_plan.drops m,
      )

  -- Every mint that is subscribed after an event is open.
  pub after_event-IsOpen :
      contains (after_event args s).subscribed m ≡ true → contains (open_mints s.engine) m ≡ true
  after_event-IsOpen h =
      let plan = plan_trade_subs (open_mints s.engine) s.subscribed args.max_trade_subs in
      let is_plan = plan_trade_subs-IsPlan (open_mints s.engine) s.subscribed args.max_trade_subs in
      ground (
        arith,
        after_event_subscribed,
        AreNew-contains (open_mints s.engine) s.subscribed plan.0 m is_plan.fresh,
      )

  -- A mint that the plan of an event takes on is not taken on again by a later plan from the
  -- subscriptions after that event, whatever the sink answers, for all open mints and every limit.
  pub after_event_not_retried :
      (open_later : List Text) (limit : ℕ)
      → contains (plan_trade_subs (open_mints s.engine) s.subscribed args.max_trade_subs).0 m ≡ true
      → contains (plan_trade_subs open_later (after_event args s).subscribed limit).0 m ≡ false
  after_event_not_retried open_later limit h =
      let later = (after_event args s).subscribed in
      let is_plan = plan_trade_subs-IsPlan open_later later limit in
      ground (
        arith,
        after_event_subscribed,
        AreNew-contains open_later later (plan_trade_subs open_later later limit).0 m is_plan.fresh,
      )
