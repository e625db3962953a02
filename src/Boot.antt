-- ===== src/Boot.antt =====
-- The boot of the bot (src/main.rs): from the environment, the key, the files and the network to an
-- engine with its executor and what will drive it. The servers, the log and the worker of the alerts
-- are not modelled, and the build is the one without the feature `pg`.
pub mod Traders
pub mod Arms
use hfmcbot.Prelude.{
  ℕ, Bool, true, false, not, ◌&&◌, ◌||◌, List, [], ◌∷◌, ◌++◌, Option, none, some, if◌then◌else◌,
  ◌==◌,
}
use hfmcbot.Prelude.Map.{lookup, contains_key}
use hfmcbot.Prelude.Strings.{is_blank, trim, parse_u64}
use hfmcbot.Prelude.Text.{Text, bytes}
use hfmcbot.Config.{Config, Mode}
use hfmcbot.Config.Env.{Env, Loaded, loaded, BootError, non_blank, env_str, from_env}
use hfmcbot.Config.Env
use hfmcbot.Engine.Book.{Restored, Violation, restore}
use hfmcbot.Engine.Book
use hfmcbot.Engine.State.{Engine, new, with_alerter}
use hfmcbot.Exec.{ExecError, PaperExecutor, paper_new}
use hfmcbot.Keys.{KeyCrates, KeyTexts, KeyError, KeyResult, LoadedKey, load_keypair_opt}
use hfmcbot.Keys
use hfmcbot.Live.Arming.{is_live, armed_with_signer}
use hfmcbot.Live.Executor.{LiveExecutor}
use hfmcbot.Live.Replies.{Parsers}
use hfmcbot.Live.Rpc.{Reply}
use hfmcbot.Live.Rpc
use hfmcbot.Live.Upstream.{Http, Net, new_net, fetch_recent_blockhash}
use hfmcbot.Persist.{AuditRecord, EngineState}
use hfmcbot.Persist.Files.{Files, Format, IoResult, load_state}
use hfmcbot.Persist.Files
use hfmcbot.Platform.Chrono.{Chrono}
use hfmcbot.Platform.Decimal.{Decimal, le, dec}

-- `Box<dyn Executor>`: the one or the other
pub data Trader (W D : Type 0) : Type 0 where
  paper_trader : PaperExecutor D → Trader W D
  live_trader : LiveExecutor (Net W) D → Trader W D

-- The errors of `main`.
pub data Refusal : Type 0 where
  bad_config : BootError → Refusal
  bad_key : KeyError → Refusal
  bad_variable : Text → Refusal
  no_audit_log no_mirror unreadable_snapshot replay_in_live no_key no_stream no_rate bad_url :
      Refusal
  rpc_unreachable not_armed : ExecError → Refusal
  broken_snapshot : Violation → Refusal

pub data BootResult (A : Type 0) : Type 0 where
  up : A → BootResult A
  refused : Refusal → BootResult A

infixl 5 ◌>>=◌ ◌>>◌
abbrev pub ◌>>=◌ : {A B : Type 0} → BootResult A → (A → BootResult B) → BootResult B
up a >>= f = f a
refused e >>= f = refused e

abbrev pub ◌>>◌ : {B : Type 0} → BootResult (Unit {0}) → BootResult B → BootResult B
m >> k = m >>= λ _. k

-- What drives the engine: a replay file, the stream at a URL with a period of snapshots, as the shadow
-- of a live run or as one, or nothing.
pub data Plan : Type 0 where
  replay : Text → Plan
  stream : Bool → Text → ℕ → Plan
  idle : Plan

-- What the boot finds outside: the environment, the argument, the files, whether the audit log opens,
-- and whether it opens once more, the clock and the world of the network.
pub record Machine (W T : Type 0) : Type 0 where
  pub env : Env
  pub argument : Option Text
  pub files : Files
  pub log_opens : Bool
  pub log_reopens : Bool
  pub now : T
  pub world : W

-- What came up, with whether the boot paged the operator for a kill switch that is on.
pub record Booted (W D T : Type 0) : Type 0 where
  pub engine : Engine (Trader W D) D T
  pub plan : Plan
  pub paged : Bool

-- a refusal where the test fails
unfoldable pub refuse_unless : Bool → Refusal → BootResult (Unit {0})
refuse_unless true e = up tt
refuse_unless false e = refused e

of_config : {A : Type 0} → Loaded A → BootResult A
of_config (loaded a) = up a
of_config (Env.stopped e) = refused (bad_config e)

of_key : {A : Type 0} → KeyResult A → BootResult A
of_key (Keys.ok a) = up a
of_key (Keys.err e) = refused (bad_key e)

-- `ok_or_else`
unfoldable pub or_refused : {A : Type 0} → Refusal → Option A → BootResult A
or_refused e none = refused e
or_refused e (some a) = up a

-- a number of seconds of a variable, with its default where it is unset or blank
seconds_or : Text → ℕ → Option Text → BootResult ℕ
unfolding or_refused parse_u64 trim
seconds_or key default none = up default
seconds_or key default (some raw) = or_refused (bad_variable key) (parse_u64 (trim raw))

-- the argument, or the path of the configuration
unfoldable pub replay_path : {D W T : Type 0} → Machine W T → Config D → Option Text
replay_path m cfg = elim m.argument [ some path ↦ some path | none ↦ cfg.replay_events_path ]

abbrev is_none : {A : Type 0} → Option A → Bool
is_none none = true
is_none (some a) = false

abbrev soak_url : Env → Option Text
soak_url env = non_blank (env (bytes "HFM_SOAK_WS_URL"))

unfoldable pub is_shadow : {D W T : Type 0} → Machine W T → Config D → Bool
unfolding replay_path is_live
is_shadow m cfg =
    not (is_live cfg.mode) && is_none (replay_path m cfg) && not (is_none (soak_url m.env))

or_default : Text → Option Text → Text
or_default default none = default
or_default default (some s) = s

unfoldable pub state_path : {D W T : Type 0} → Machine W T → Config D → Text
unfolding is_shadow or_default non_blank
state_path m cfg =
    or_default
      (if is_shadow m cfg then bytes "data/shadow_state.json" else bytes "data/live_state.json")
      (non_blank (m.env (bytes "HFM_STATE_PATH")))

-- `WsFeedConfig::from_parts`
starts_with : Text → Text → Bool
starts_with [] s = true
starts_with (p ∷ ps) [] = false
starts_with (p ∷ ps) (c ∷ s) = p == c && starts_with ps s

unfoldable pub ws_url : Text → BootResult Text
unfolding starts_with trim
ws_url url =
    let trimmed = trim url in
    if starts_with (bytes "ws://") trimmed || starts_with (bytes "wss://") trimmed
    then up trimmed
    else refused bad_url

-- What a load of the snapshot means: a file that is there and cannot be read stops a live boot.
unfoldable pub resume_of :
    {D T : Type 0}
    → Bool
    → Bool
    → IoResult (EngineState D T)
    → BootResult (Option (EngineState D T))
resume_of live there (Files.done snap) = up (some snap)
resume_of live there Files.failed = if there && live then refused unreadable_snapshot else up none

module _ {W D T : Type 0} ⦃d : Decimal D⦄ ⦃c : Chrono T⦄ where
  -- a live boot does not go on with a snapshot that breaks the invariants
  live_restored : Restored (Trader W D) D T → BootResult (Engine (Trader W D) D T)
  live_restored (Book.running s) = up s
  live_restored (Book.refused v) = refused (broken_snapshot v)

  -- the engine of a live boot, with its snapshot or without
  unfoldable pub live_engine :
      Config D
      → LiveExecutor (Net W) D
      → T
      → Option (EngineState D T)
      → BootResult (Engine (Trader W D) D T)
  unfolding live_restored restore new
  live_engine cfg ex now none = up (new cfg (live_trader ex) [] now)
  live_engine cfg ex now (some snap) = live_restored (restore cfg (live_trader ex) [] now snap)

  -- a paper boot starts flat where the snapshot breaks the invariants, on an audit log that it opens
  -- once more
  or_flat :
      Bool
      → Engine (Trader W D) D T
      → Restored (Trader W D) D T
      → BootResult (Engine (Trader W D) D T)
  unfolding refuse_unless
  or_flat reopens flat (Book.running s) = up s
  or_flat reopens flat (Book.refused v) = refuse_unless reopens no_audit_log >> up flat

  unfoldable pub paper_engine :
      Bool → Config D → T → Option (EngineState D T) → BootResult (Engine (Trader W D) D T)
  unfolding or_flat restore new paper_new
  paper_engine reopens cfg now none = up (new cfg (paper_trader (paper_new cfg)) [] now)
  paper_engine reopens cfg now (some snap) =
      or_flat reopens (new cfg (paper_trader (paper_new cfg)) [] now)
        (restore cfg (paper_trader (paper_new cfg)) [] now snap)

of_check : {A : Type 0} → Reply A → BootResult A
of_check (Rpc.ok a) = up a
of_check (Rpc.err e) = refused (rpc_unreachable e)

of_arming : {A : Type 0} → Reply A → BootResult A
of_arming (Rpc.ok a) = up a
of_arming (Rpc.err e) = refused (not_armed e)

module _ {K W D T : Type 0} (parsers : Parsers D) ⦃crates : KeyCrates K⦄ ⦃http : Http W⦄
    ⦃d : Decimal D⦄ ⦃c : Chrono T⦄ where
  -- the live branch: no replay, a key, an RPC that answers, and the executor that is armed
  unfoldable pub boot_live :
      Machine W T
      → Config D
      → Option (LoadedKey K)
      → Option (EngineState D T)
      → BootResult (Engine (Trader W D) D T)
  unfolding refuse_unless replay_path or_refused fetch_recent_blockhash new_net of_check
      armed_with_signer of_arming live_engine
  boot_live m cfg key resume = do
    refuse_unless (is_none (replay_path m cfg)) replay_in_live
    loaded_key ← or_refused no_key key
    let (net, reply) = fetch_recent_blockhash parsers (new_net cfg m.world) in
        of_check reply >>= λ hash. of_arming (armed_with_signer cfg loaded_key net.world) >>= λ ex.
        live_engine cfg ex m.now resume

  unfoldable pub boot_engine :
      Machine W T
      → Config D
      → Option (LoadedKey K)
      → Option (EngineState D T)
      → BootResult (Engine (Trader W D) D T)
  unfolding boot_live paper_engine is_live
  boot_engine m cfg key resume =
      if is_live cfg.mode
      then boot_live m cfg key resume
      else paper_engine m.log_reopens cfg m.now resume

module _ {W D T : Type 0} ⦃d : Decimal D⦄ where
  -- the stream of a live or shadow loop
  unfoldable pub stream_plan : Machine W T → Config D → BootResult Plan
  unfolding or_refused refuse_unless ws_url seconds_or non_blank trim is_shadow
  stream_plan m cfg = do
    url ← or_refused no_stream (soak_url m.env)
    refuse_unless (not (le cfg.sol_usd (dec 0))) no_rate
    ws ← ws_url (trim url)
    secs ←
        seconds_or (bytes "HFM_STATE_EVERY_SECS") 60
          (non_blank (m.env (bytes "HFM_STATE_EVERY_SECS")))
    up (stream (is_shadow m cfg) ws secs)

  unfoldable pub plan_of : Machine W T → Config D → Option Text → BootResult Plan
  unfolding stream_plan is_live is_shadow
  plan_of m cfg (some path) = up (replay path)
  plan_of m cfg none = if is_live cfg.mode || is_shadow m cfg then stream_plan m cfg else up idle

module _ (K : Type 0) {W D T : Type 0} (parsers : Parsers D) (format : Format D T)
    (is_pubkey : Text → Bool) ⦃crates : KeyCrates K⦄ ⦃texts : KeyTexts⦄ ⦃http : Http W⦄
    ⦃d : Decimal D⦄ ⦃c : Chrono T⦄ where
  -- from the configuration on
  unfoldable pub boot_with :
      Machine W T → Config D → Option (LoadedKey K) → BootResult (Booted W D T)
  unfolding seconds_or non_blank refuse_unless is_blank state_path load_state resume_of is_live
      contains_key boot_engine with_alerter plan_of replay_path
  boot_with m cfg key = do
    alert_min_secs ←
        seconds_or (bytes "HFM_ALERT_MIN_SECS") 300 (non_blank (m.env (bytes "HFM_ALERT_MIN_SECS")))
    refuse_unless m.log_opens no_audit_log
    refuse_unless (is_blank cfg.pg_dsn) no_mirror
    resume ←
        resume_of (is_live cfg.mode) (contains_key (state_path m cfg) m.files)
          (load_state format (state_path m cfg) m.files)
    engine ← boot_engine parsers m cfg key resume
    plan ← plan_of m cfg (replay_path m cfg)
    up (record { engine = with_alerter engine; plan = plan; paged = cfg.kill_switch })

  unfoldable pub boot : Machine W T → BootResult (Booted W D T)
  unfolding of_config from_env of_key load_keypair_opt boot_with
  boot m = do
    cfg ← of_config (from_env is_pubkey parsers.decimal_of m.env)
    key ← of_key (load_keypair_opt m.env)
    boot_with m cfg key
