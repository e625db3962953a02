-- ===== src/Boot/Arms.antt =====
-- What a boot arms (src/main.rs): which executor the engine gets, and what it took.
use mathlib.Core.Path.{subst}
use hfmcbot.Prelude.{
  ◌≡◌, inl, inr, refl, sym, ◌∙◌, ap, arith, Bool, true, false, not, Bool-cases, ℕ, Option, none,
  some, if◌then◌else◌, ◌||◌,
}
use hfmcbot.Prelude.Map.{contains_key}
use hfmcbot.Prelude.Strings.{is_blank, trim}
use hfmcbot.Prelude.Text.{Text, bytes}
use hfmcbot.Boot.{
  Trader, paper_trader, live_trader, up, Machine, Booted, Plan, stream, idle, replay_path,
  refuse_unless, or_refused, is_none, of_config, of_key, of_check, of_arming, paper_engine,
  boot_live, boot_engine, plan_of, stream_plan, is_shadow, soak_url, ws_url, no_stream, no_rate,
  seconds_or, state_path, resume_of, no_audit_log, no_mirror, boot_with, boot,
}
use hfmcbot.Config.{Config, Mode}
use hfmcbot.Config.Env.{loaded, from_env, non_blank}
use hfmcbot.Config.Env
use hfmcbot.Engine.State.{Engine, with_alerter}
use hfmcbot.Exec.{paper_new}
use hfmcbot.Keys.{KeyCrates, KeyTexts, LoadedKey, load_keypair_opt}
use hfmcbot.Keys
use hfmcbot.Live.Armed.{IsArming, armed_with_signer-IsArming}
use hfmcbot.Live.Arming.{is_live, armed_with_signer}
use hfmcbot.Live.Executor.{LiveExecutor}
use hfmcbot.Live.Replies.{Parsers}
use hfmcbot.Live.Rpc
use hfmcbot.Live.Rpc.{Reply}
use hfmcbot.Live.Upstream.{Http, Net, new_net, fetch_recent_blockhash}
use hfmcbot.Persist.{EngineState}
use hfmcbot.Persist.Files.{Format, load_state}
use hfmcbot.Platform.Chrono.{Chrono}
use hfmcbot.Platform.Decimal.{Decimal, le, dec}
use hfmcbot.Boot.Traders.{
  boot-bind-up, refuse_unless-up, or_refused-up, up-eq, exec-live_engine, exec-paper_engine,
}

-- The executor of a live boot: it is one that was armed, of a live configuration, with the key
-- that was loaded, after the RPC answered; and no replay is given.
pub record IsLiveBoot {K W D T : Type 0} (parsers : Parsers D) ⦃crates : KeyCrates K⦄
    ⦃http : Http W⦄ ⦃d : Decimal D⦄ (m : Machine W T) (cfg : Config D) (key : Option (LoadedKey K))
    (x : Trader W D) : Type 0 where
  pub loaded_key : LoadedKey K
  pub ex : LiveExecutor (Net W) D
  pub after_check : Net W
  pub hash : Text × ℕ
  pub has_key : key ≡ some loaded_key
  pub no_replay : is_none (replay_path m cfg) ≡ true
  pub rpc_answers :
      fetch_recent_blockhash parsers (new_net cfg m.world) ≡ (after_check, Rpc.ok hash)
  pub is_armed : armed_with_signer cfg loaded_key after_check.world ≡ Rpc.ok ex
  pub is_arming : IsArming cfg loaded_key ex
  pub trades_live : x ≡ live_trader ex

of_check-up : {A : Type 0} (r : Reply A) (a : A) → of_check r ≡ up a → r ≡ Rpc.ok a
unfolding of_check
of_check-up (Rpc.ok b) a h = ground arith
of_check-up (Rpc.err e) a h = ground arith

of_arming-up : {A : Type 0} (r : Reply A) (a : A) → of_arming r ≡ up a → r ≡ Rpc.ok a
unfolding of_arming
of_arming-up (Rpc.ok b) a h = ground arith
of_arming-up (Rpc.err e) a h = ground arith

module _ {K W D T : Type 0} (parsers : Parsers D) ⦃crates : KeyCrates K⦄ ⦃http : Http W⦄
    ⦃d : Decimal D⦄ ⦃c : Chrono T⦄ where
  boot_live-IsLiveBoot :
      (m : Machine W T) (cfg : Config D) (key : Option (LoadedKey K))
      (resume : Option (EngineState D T)) (s : Engine (Trader W D) D T)
      → boot_live parsers m cfg key resume ≡ up s
      → IsLiveBoot parsers m cfg key s.exec
  unfolding boot_live
  boot_live-IsLiveBoot m cfg key resume s h =
      let (_, checked_replay, h1) = boot-bind-up _ _ s h in
      let (loaded_key, has_key, h2) = boot-bind-up _ _ s h1 in
      let (hash, answered, h3) = boot-bind-up _ _ s h2 in
      let (ex, armed, h4) = boot-bind-up _ _ s h3 in
      let r = fetch_recent_blockhash parsers (new_net cfg m.world) in
      let is_armed = of_arming-up _ ex armed in
      record {
        loaded_key = loaded_key;
        ex = ex;
        after_check = r.0;
        hash = hash;
        has_key = or_refused-up _ key loaded_key has_key;
        no_replay = refuse_unless-up _ _ checked_replay;
        rpc_answers = ap (λ a. (r.0, a)) (of_check-up r.1 hash answered);
        is_armed = is_armed;
        is_arming = armed_with_signer-IsArming cfg loaded_key _ ex is_armed;
        trades_live = exec-live_engine cfg ex m.now resume s h4;
      }

mode_of_live : (mode : Mode) → is_live mode ≡ false → mode ≡ Mode.paper
unfolding is_live
mode_of_live Mode.paper h = refl
mode_of_live Mode.live h = ground arith

-- A paper boot, or a live one that the stream of the live loop drives.
pub data TradesAs {K W D T : Type 0} (parsers : Parsers D) ⦃crates : KeyCrates K⦄ ⦃http : Http W⦄
    ⦃d : Decimal D⦄ (m : Machine W T) (cfg : Config D) (key : Option (LoadedKey K))
    (b : Booted W D T) : Type 0 where
  on_paper :
      cfg.mode ≡ Mode.paper
      → b.engine.exec ≡ paper_trader (paper_new cfg)
      → TradesAs parsers m cfg key b
  on_stream :
      IsLiveBoot parsers m cfg key b.engine.exec
      → (url : Text) (secs : ℕ) → b.plan ≡ stream false url secs
      → TradesAs parsers m cfg key b

-- What was booted: in paper mode an engine over the paper executor; in live mode one over an executor
-- that was armed, which the stream drives.
pub record IsBooted {W D T : Type 0} (K : Type 0) (parsers : Parsers D) (is_pubkey : Text → Bool)
    ⦃crates : KeyCrates K⦄ ⦃texts : KeyTexts⦄ ⦃http : Http W⦄ ⦃d : Decimal D⦄ (m : Machine W T)
    (b : Booted W D T) : Type 0 where
  pub cfg : Config D
  pub key : Option (LoadedKey K)
  pub is_config : from_env is_pubkey parsers.decimal_of m.env ≡ loaded cfg
  pub is_loaded : load_keypair_opt m.env ≡ Keys.ok key
  pub trades : TradesAs parsers m cfg key b

of_config-up : {A : Type 0} (r : Env.Loaded A) (a : A) → of_config r ≡ up a → r ≡ loaded a
unfolding of_config
of_config-up (loaded b) a h = ground arith
of_config-up (Env.stopped e) a h = ground arith

of_key-up : {A : Type 0} (r : Keys.KeyResult A) (a : A) → of_key r ≡ up a → r ≡ Keys.ok a
unfolding of_key
of_key-up (Keys.ok b) a h = ground arith
of_key-up (Keys.err e) a h = ground arith

module _ {W D T : Type 0} ⦃d : Decimal D⦄ where
  not_shadow :
      (m : Machine W T) (cfg : Config D) → is_live cfg.mode ≡ true → is_shadow m cfg ≡ false
  unfolding is_shadow
  not_shadow m cfg live = rw live refl

  stream_plan-up :
      (m : Machine W T) (cfg : Config D) (p : Plan)
      → is_live cfg.mode ≡ true
      → stream_plan m cfg ≡ up p
      → (url : Text) × (secs : ℕ) × (p ≡ stream false url secs)
  unfolding stream_plan
  stream_plan-up m cfg p live h =
      let secs_of =
        seconds_or (bytes "HFM_STATE_EVERY_SECS") 60
          (non_blank (m.env (bytes "HFM_STATE_EVERY_SECS"))) in
      let (url, _, h1) = boot-bind-up (or_refused no_stream (soak_url m.env)) _ p h in
      let (_, _, h2) = boot-bind-up (refuse_unless (not (le cfg.sol_usd (dec 0))) no_rate) _ p h1 in
      let (ws, _, h3) = boot-bind-up (ws_url (trim url)) _ p h2 in
      let (secs, _, h4) = boot-bind-up secs_of _ p h3 in
      (ws, secs, sym (up-eq h4) ∙ ap (λ shadow. stream shadow ws secs) (not_shadow m cfg live))

  plan_of-up :
      (m : Machine W T) (cfg : Config D) (o : Option Text) (p : Plan)
      → is_live cfg.mode ≡ true
      → is_none o ≡ true
      → plan_of m cfg o ≡ up p
      → (url : Text) × (secs : ℕ) × (p ≡ stream false url secs)
  unfolding plan_of
  plan_of-up m cfg none p live no_replay h =
      stream_plan-up m cfg p live
        (subst (λ on. (if on || is_shadow m cfg then stream_plan m cfg else up idle) ≡ up p) live h)
  plan_of-up m cfg (some path) p live no_replay h = ground arith

module _ {K W D T : Type 0} (parsers : Parsers D) ⦃crates : KeyCrates K⦄ ⦃http : Http W⦄
    ⦃d : Decimal D⦄ ⦃c : Chrono T⦄ where
  engine-TradesAs :
      (m : Machine W T) (cfg : Config D) (key : Option (LoadedKey K))
      (resume : Option (EngineState D T)) (s : Engine (Trader W D) D T) (p : Plan)
      (b : Booted W D T)
      → boot_engine parsers m cfg key resume ≡ up s
      → plan_of m cfg (replay_path m cfg) ≡ up p
      → b.engine.exec ≡ s.exec
      → b.plan ≡ p
      → TradesAs parsers m cfg key b
  unfolding boot_engine
  engine-TradesAs m cfg key resume s p b h planned same_exec same_plan =
      elim (Bool-cases (is_live cfg.mode)) [
        | inl live_mode ↦
            let is_live_boot = boot_live-IsLiveBoot parsers m cfg key resume s (
              subst
                (λ on.
                  (if on
                    then boot_live parsers m cfg key resume
                    else paper_engine m.log_reopens cfg m.now resume)
                  ≡ up s)
                live_mode h) in
            let (url, secs, streamed) =
              plan_of-up m cfg (replay_path m cfg) p live_mode is_live_boot.no_replay planned in
            on_stream (subst (λ x. IsLiveBoot parsers m cfg key x) (sym same_exec) is_live_boot) url
              secs (same_plan ∙ streamed)
        | inr paper_mode ↦
            let on_log =
              subst
                (λ on.
                  (if on
                    then boot_live parsers m cfg key resume
                    else paper_engine m.log_reopens cfg m.now resume)
                  ≡ up s)
                paper_mode h in
            on_paper (mode_of_live cfg.mode paper_mode)
              (same_exec ∙ exec-paper_engine m.log_reopens cfg m.now resume s on_log)
      ]

module _ (K : Type 0) {W D T : Type 0} (parsers : Parsers D) (format : Format D T)
    (is_pubkey : Text → Bool) ⦃crates : KeyCrates K⦄ ⦃texts : KeyTexts⦄ ⦃http : Http W⦄
    ⦃d : Decimal D⦄ ⦃c : Chrono T⦄ where
  boot_with-TradesAs :
      (m : Machine W T) (cfg : Config D) (key : Option (LoadedKey K)) (b : Booted W D T)
      → boot_with K parsers format is_pubkey m cfg key ≡ up b
      → TradesAs parsers m cfg key b
  unfolding boot_with with_alerter
  boot_with-TradesAs m cfg key b h =
      let alert_min_secs =
        seconds_or (bytes "HFM_ALERT_MIN_SECS") 300
          (non_blank (m.env (bytes "HFM_ALERT_MIN_SECS"))) in
      let path = state_path m cfg in
      let resumes =
        resume_of (is_live cfg.mode) (contains_key path m.files) (load_state format path m.files) in
      let (_, _, h1) = boot-bind-up alert_min_secs _ b h in
      let (_, _, h2) = boot-bind-up (refuse_unless m.log_opens no_audit_log) _ b h1 in
      let (_, _, h3) = boot-bind-up (refuse_unless (is_blank cfg.pg_dsn) no_mirror) _ b h2 in
      let (resume, _, h4) = boot-bind-up resumes _ b h3 in
      let (engine, made, h5) = boot-bind-up (boot_engine parsers m cfg key resume) _ b h4 in
      let (plan, planned, h6) = boot-bind-up (plan_of m cfg (replay_path m cfg)) _ b h5 in
      engine-TradesAs parsers m cfg key resume engine plan b made planned
        (ap (λ r. r.engine.exec) (sym (up-eq h6))) (ap (λ r. r.plan) (sym (up-eq h6)))

  -- A boot that comes up in paper mode trades on paper. One that comes up in live mode does so with the
  -- key that was loaded, no replay, an RPC that answered, an executor armed for that key and
  -- configuration, and the stream of the live loop to drive it.
  pub boot-IsBooted :
      (m : Machine W T) (b : Booted W D T)
      → boot K parsers format is_pubkey m ≡ up b
      → IsBooted K parsers is_pubkey m b
  unfolding boot
  boot-IsBooted m b h =
      let (cfg, configured, h1) = boot-bind-up _ _ b h in
      let (key, read, h2) = boot-bind-up _ _ b h1 in
      record {
        cfg = cfg;
        key = key;
        is_config = of_config-up _ cfg configured;
        is_loaded = of_key-up _ key read;
        trades = boot_with-TradesAs m cfg key b h2;
      }
