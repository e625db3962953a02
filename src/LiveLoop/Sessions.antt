-- ===== src/LiveLoop/Sessions.antt =====
-- The live loop over its connections (src/liveloop.rs, `run_live_loop`): each attempt to connect, its
-- session, the save of the book and the wait. What the outside does is a list of attempts.
use hfmcbot.Prelude.{ℕ, suc, Bool, true, false, List, [], ◌∷◌, Option, none, some, if◌then◌else◌}
use hfmcbot.Prelude.Sort.{sort_by}
use hfmcbot.Exec.{Executor}
use hfmcbot.LiveLoop.{
  Sink, Outside, LiveLoopArgs, Session, Input, subscribe, non_empty, send_all, save_book,
  stream_loop,
}
use hfmcbot.Platform.Chrono.{Chrono}
use hfmcbot.Platform.Decimal.{Decimal, le, dec}
use hfmcbot.Platform.Floats.{Floats, FromFloat}
use hfmcbot.WsFeed.{next_backoff_secs}

-- A connection: its socket, whether the subscription to new tokens is sent, the inputs of the session,
-- and the answer of the write of the book after it.
pub record Connection (K : Type 0) : Type 0 where
  pub sink : K
  pub create_sent : Bool
  pub inputs : List Input
  pub saved_ok : Bool

-- An attempt: whether the shutdown came before it, its connection if any, whether the shutdown cuts
-- the wait after it short, and the answer of the write of the book where the loop ends.
pub record Attempt (K : Type 0) : Type 0 where
  pub stop_before : Bool
  pub connection : Option (Connection K)
  pub stop_asleep : Bool
  pub final_ok : Bool

-- how a connection leaves the loop: it returns, it waits for an input, or it goes on to the wait
pub data Next : Type 0 where
  stopped waiting again : Next

-- the answer of a session, with the write of the book where it is over
pub record Round (X D T K : Type 0) : Type 0 where
  pub session : Session X D T K
  pub next : Next
  pub backoff_secs : ℕ

unfoldable pub count_reconnect : {X D T K : Type 0} → Session X D T K → Session X D T K
count_reconnect s = record s { stats = record s.stats { reconnects = suc s.stats.reconnects } }

module _ {X D T K : Type 0} ⦃sink : Sink K⦄ where
  -- the subscriptions that the server forgot are sent again, in the order of the mints
  unfoldable pub resubscribed : K → Session X D T K → Session X D T K
  unfolding send_all non_empty sort_by
  resubscribed k s = record s {
    sink = send_all k (non_empty subscribe (sort_by (λ mint. mint) s.subscribed));
  }

module _ {X D T K : Type 0} ⦃d : Decimal D⦄ ⦃c : Chrono T⦄ (args : LiveLoopArgs D) where
  unfoldable pub after_session : Bool → ℕ → Session X D T K × Option Bool → Round X D T K
  unfolding save_book
  after_session ok backoff (s, none) = record {
    session = s;
    next = waiting;
    backoff_secs = backoff;
  }
  after_session ok backoff (s, some true) = record {
    session = save_book args ok s;
    next = stopped;
    backoff_secs = backoff;
  }
  after_session ok backoff (s, some false) = record {
    session = save_book args ok s;
    next = again;
    backoff_secs = backoff;
  }

  -- the wait after a round, which the shutdown may cut short
  unfoldable pub after_round :
      Next → Attempt K → Session X D T K → Session X D T K × Bool → Session X D T K × Bool
  unfolding save_book
  after_round stopped a s next = (s, true)
  after_round waiting a s next = (s, false)
  after_round again a s next = if a.stop_asleep then (save_book args a.final_ok s, true) else next

module _ {X F D T K : Type 0} ⦃d : Decimal D⦄ ⦃c : Chrono T⦄ ⦃ex : Executor X D T⦄
    ⦃floats : Floats F⦄ ⦃from : FromFloat F D⦄ ⦃sink : Sink K⦄ (outside : Outside F T)
    (args : LiveLoopArgs D) where
  unfoldable pub take_connection : Option (Connection K) → ℕ → Session X D T K → Round X D T K
  unfolding resubscribed stream_loop after_session
  take_connection none backoff s = record { session = s; next = again; backoff_secs = backoff }
  take_connection (some conn) backoff s =
      let streamed =
        after_session args conn.saved_ok 1
          (stream_loop outside args conn.inputs (resubscribed conn.sink s)) in
      if conn.create_sent then streamed else record { session = s; next = again; backoff_secs = 1 }

  -- The loop; `true` says that it has returned.
  unfoldable pub connection_loop : List (Attempt K) → ℕ → Session X D T K → Session X D T K × Bool
  unfolding take_connection count_reconnect save_book next_backoff_secs after_round
  connection_loop [] backoff s = (s, false)
  connection_loop (a ∷ attempts) backoff s =
      let round = take_connection a.connection backoff (count_reconnect s) in
      let next = connection_loop attempts (next_backoff_secs round.backoff_secs) round.session in
      if a.stop_before
      then (save_book args a.final_ok s, true)
      else after_round args round.next a round.session next

  unfoldable pub run_live_loop : List (Attempt K) → Session X D T K → Session X D T K × Bool
  unfolding connection_loop
  run_live_loop attempts s =
      if le args.sol_usd (dec 0) then (s, true) else connection_loop attempts 1 s
