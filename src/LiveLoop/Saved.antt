-- ===== src/LiveLoop/Saved.antt =====
-- The end of the live loop (src/liveloop.rs): it returns only with the book saved.
use hfmcbot.Prelude.{
  ℕ, ◌≡◌, refl, arith, Bool, true, false, if_ind, List, [], ◌∷◌, ◌++◌, All, Option, none, some,
}
use hfmcbot.Engine.Book
use hfmcbot.Exec.{Executor}
use hfmcbot.LiveLoop.{Sink, Outside, LiveLoopArgs, Session, save_book, stream_loop}
use hfmcbot.LiveLoop.Sessions.{
  Attempt, Connection, Next, stopped, waiting, again, Round, take_connection, after_session,
  after_round, connection_loop, run_live_loop, count_reconnect, resubscribed,
}
use hfmcbot.Persist.{EngineState}
use hfmcbot.Platform.Chrono.{Chrono}
use hfmcbot.Platform.Decimal.{Decimal, le, dec}
use hfmcbot.Platform.Floats.{Floats, FromFloat}

module _ {X D T K : Type 0} ⦃d : Decimal D⦄ ⦃c : Chrono T⦄ where
  -- The last snapshot that was written is the book of the engine.
  pub record IsSaved (s : Session X D T K) : Type 0 where
    pub earlier : List (EngineState D T)
    pub is_last : s.saved ≡ earlier ++ (Book.state s.engine ∷ [])

  save_book-IsSaved :
      (args : LiveLoopArgs D) (ok : Bool) (s : Session X D T K)
      → args.state_path ≡ true
      → ok ≡ true
      → IsSaved (save_book args ok s)
  unfolding save_book
  save_book-IsSaved args ok s has_path fine =
      rw (has_path, fine) (record { earlier = s.saved; is_last = refl })

-- The disk takes each write of the book.
abbrev pub connection_ok : {K : Type 0} → Option (Connection K) → Bool
connection_ok none = true
connection_ok (some conn) = conn.saved_ok

abbrev pub WritesOk : {K : Type 0} → Attempt K → Type 0
WritesOk a = (a.final_ok ≡ true) × (connection_ok a.connection ≡ true)

-- A round that ends the loop, and a loop that has returned, leave the book saved.
record RoundSaves {X D T K : Type 0} ⦃d : Decimal D⦄ ⦃c : Chrono T⦄ (r : Round X D T K)
    : Type 0 where
  saves : r.next ≡ stopped → IsSaved r.session

record LoopSaves {X D T K : Type 0} ⦃d : Decimal D⦄ ⦃c : Chrono T⦄ (r : Session X D T K × Bool)
    : Type 0 where
  saves : r.1 ≡ true → IsSaved r.0

module _ {X F D T K : Type 0} ⦃d : Decimal D⦄ ⦃c : Chrono T⦄ ⦃ex : Executor X D T⦄
    ⦃floats : Floats F⦄ ⦃from : FromFloat F D⦄ ⦃sink : Sink K⦄ (outside : Outside F T)
    (args : LiveLoopArgs D) (has_path : args.state_path ≡ true) where
  after_session-RoundSaves :
      (ok : Bool) (backoff : ℕ) (r : Session X D T K × Option Bool)
      → ok ≡ true
      → RoundSaves (after_session args ok backoff r)
  unfolding after_session
  after_session-RoundSaves ok backoff (s, none) fine = record { saves = λ h. ground arith }
  after_session-RoundSaves ok backoff (s, some true) fine = record {
    saves = λ h. save_book-IsSaved args ok s has_path fine;
  }
  after_session-RoundSaves ok backoff (s, some false) fine = record { saves = λ h. ground arith }

  again-RoundSaves :
      (s : Session X D T K) (backoff : ℕ)
      → RoundSaves (record { session = s; next = again; backoff_secs = backoff })
  again-RoundSaves s backoff = record { saves = λ h. ground arith }

  take_connection-RoundSaves :
      (o : Option (Connection K)) (backoff : ℕ) (s : Session X D T K)
      → connection_ok o ≡ true
      → RoundSaves (take_connection outside args o backoff s)
  unfolding take_connection
  take_connection-RoundSaves none backoff s fine = again-RoundSaves s backoff
  take_connection-RoundSaves (some conn) backoff s fine =
      let streamed = stream_loop outside args conn.inputs (resubscribed conn.sink s) in
      if_ind RoundSaves conn.create_sent (after_session-RoundSaves conn.saved_ok 1 streamed fine)
        (again-RoundSaves s 1)

  after_round-LoopSaves :
      (n : Next) (a : Attempt K) (s : Session X D T K) (next : Session X D T K × Bool)
      → a.final_ok ≡ true
      → (n ≡ stopped → IsSaved s)
      → LoopSaves next
      → LoopSaves (after_round args n a s next)
  unfolding after_round
  after_round-LoopSaves stopped a s next fine saves later = record { saves = λ h. saves refl }
  after_round-LoopSaves waiting a s next fine saves later = record { saves = λ h. ground arith }
  after_round-LoopSaves again a s next fine saves later =
      if_ind LoopSaves a.stop_asleep
        (record { saves = λ h. save_book-IsSaved args a.final_ok s has_path fine }) later

  connection_loop-LoopSaves :
      (attempts : List (Attempt K)) (backoff : ℕ) (s : Session X D T K)
      → All WritesOk attempts
      → LoopSaves (connection_loop outside args attempts backoff s)
  unfolding connection_loop
  connection_loop-LoopSaves [] backoff s fine = record { saves = λ h. ground arith }
  connection_loop-LoopSaves (a ∷ attempts) backoff s ((final, conn), fine) =
      if_ind LoopSaves a.stop_before
        (record { saves = λ h. save_book-IsSaved args a.final_ok s has_path final })
        (after_round-LoopSaves _ a _ _ final
          (take_connection-RoundSaves a.connection backoff (count_reconnect s) conn).saves
          (connection_loop-LoopSaves attempts _ _ fine))

-- Where the loop has a SOL price above zero, a path for its snapshots and a disk that takes them, it
-- returns only with the book of its engine as the last snapshot that was written, on the shutdown at
-- any point: before an attempt to connect, within a session, or in a wait.
pub run_live_loop-IsSaved :
    {X F D T K : Type 0} ⦃d : Decimal D⦄ ⦃c : Chrono T⦄ ⦃ex : Executor X D T⦄ ⦃floats : Floats F⦄
    ⦃from : FromFloat F D⦄ ⦃sink : Sink K⦄ (outside : Outside F T) (args : LiveLoopArgs D)
    (attempts : List (Attempt K)) (s : Session X D T K)
    → le args.sol_usd (dec 0) ≡ false
    → args.state_path ≡ true
    → All WritesOk attempts
    → (run_live_loop outside args attempts s).1 ≡ true
    → IsSaved (run_live_loop outside args attempts s).0
unfolding run_live_loop
run_live_loop-IsSaved outside args attempts s priced has_path fine =
    let looped = connection_loop-LoopSaves outside args has_path attempts 1 s fine in
    rw priced looped.saves
