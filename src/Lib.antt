-- ===== src/Lib.antt =====
-- The core of the trading bot: what it decides on an event, what stops it, and what it keeps of the
-- money.
--
-- There are two feeds. Instructions of the chain are decoded (src/decode.rs), stamped with the time
-- of their slot and buffered (src/ingest.rs). The lines of a websocket are classified and become
-- events (src/wsfeed.rs), which the live loop gives to the engine; after each event the loop brings
-- the subscriptions of the socket in line with the open book (src/liveloop.rs).
--
-- An event, a launch or a price, goes to the engine (src/engine.rs). A launch passes the entry gate
-- and the sizing of src/strategy.rs and the breakers of src/risk.rs, and is then bought in slices
-- through the executor of src/exec.rs, or on the chain (src/live.rs). A price moves the marks of
-- the position that is held, and the exit rules may sell it. After each event the time stops of all
-- positions are swept. Every step is recorded (src/persist.rs), the book can be saved and restored,
-- and what needs an operator is paged (src/alerts.rs).
--
-- Files:
--   Prelude, Prelude/*   lists, sorting, integers, text as UTF-8 bytes, maps as association lists
--   Platform/*           interfaces of rust_decimal, chrono, floats and JSON values, the laws that theorems assume of
--                        them, and a concrete platform that meets these laws
--   Types                src/types.rs
--   Config, Config/*     src/config.rs: the record, `validate` and what it asks, and `from_env`
--   Keys                 src/keys.rs: `load_keypair_opt`
--   Risk, Risk/*         src/risk.rs: `RiskEngine`; the breakers and the throttle
--   Strategy, Strategy/* src/strategy.rs: `entry_gate`, `position_budget`, `split_into_slices`,
--                        `on_price`, `on_time`
--   Exec, Exec/*         src/exec.rs: the trait `Executor` and `PaperExecutor`
--   Persist, Persist/*   src/persist.rs: `AuditRecord`, `EngineState`; the files, with `append`,
--                        `save_state` and `load_state` over calls that may fail
--   Engine/State, Entry, Exit, Events, Book, View
--                        src/engine.rs: the record `Engine`, `on_launch`, `close_position`,
--                        `on_event` with the sweep, `check_invariants` with `state` and
--                        `restore`, and the open mints and the snapshot
--   Engine/Balance, Entries, Check, HighWater, Selling, Sweep, Halted,
--   Engine/Restore
--                        what is proved of the engine
--   Engine/Spec, Refines, Refines/*
--                        an abstract book of buys and sales, and the engine as one that follows it
--   Borsh                src/decode.rs: `read_u64`, `read_borsh_str`, `read_pubkey`
--   Decode, Decode/*     src/decode.rs: `parse_create`, `parse_trade`, `parse_migrate`,
--                        `parse_curve_account`, and the encoding that they read; the reader
--                        `parse_stonkfun_launches`
--   Ingest, Ingest/*     src/ingest.rs: `SlotClock`, `handle_instructions`, `LiveFeed::apply_update`,
--                        `ReplayFeed`
--   WsFeed, WsFeed/*     src/wsfeed.rs: `parse_ws_line`, `extract_create`, `extract_trade`,
--                        `enrich_create`, `enrich_trade`, `plan_trade_subs`
--   Recorder, Recorder/* src/wsfeed.rs: `run_ws_loop`
--   LiveLoop, LiveLoop/* src/liveloop.rs: `stream_loop` and `after_event`, and `run_live_loop` in
--                        LiveLoop/Sessions
--   Metrics              src/metrics.rs: `render_prometheus_text` and the answers of the endpoint
--   Alerts, Alerts/*     src/alerts.rs: `Alerter`
--   Live, Live/*         src/live.rs: `TokenBucket`, the conversions of money, `rpc_call`,
--                        `poll_bundle_landing`, `confirm_signature`, and `LiveExecutor` as calls
--                        that change a state and may fail, over its clients as an interface
--   Live/Fields, Replies, Requests, Upstream, Await
--                        src/live.rs: those clients over HTTP: the readers of the replies, the
--                        requests, `JupiterClient`, `RpcClient` and `JitoClient`, and the landing
--                        loop over them
--   Live/Orders, Landed, Ends, Answers
--                        what a filled order went through, and what the answers of Jito mean
--   Live/Arming, Armed, Signing
--                        src/live.rs: the constructors of `LiveExecutor`, and the signing of
--                        swaps and tips
--   Boot, Boot/*         src/main.rs: from the environment to an engine, its executor and what drives
--                        it
--   Tests, Tests/*       fixtures, and the theorems at concrete inputs
--
-- How the code is modelled:
--   - A method on `&mut self` takes the state and returns the new one, beside its result. A chain of
--     early returns is a chain of `if`; a `match` with effects in its arms is a helper by clauses.
--   - `Decimal`, `DateTime<Utc>` and the executor are parameters, with interfaces for what the code
--     calls. The operations of an interface are total, so a run is one in which no decimal
--     overflows. The theorems that need it name the laws they use: the order of decimals, exact
--     sums (the bot rounds its amounts so that its sums are exact), or the order of instants.
--   - A `HashMap` is an association list, and its iteration order is the order of the list. What is
--     proved holds for every list, so for every order.
--   - The block time of a slot is taken to fit an i64 in milliseconds.
--   - u64, usize and u32 counters are natural numbers, with `as i64` and `as u32` written out where
--     the code casts. The counters of orders and of failed exits are not wrapped: they count single
--     events of one run.
--   - The await points run in sequence, as the engine owns its executor. The audit trail is the list
--     of its records and an append does not fail, since the code ignores its failures. Of the
--     alerts the calls of `fire` are kept. Strings that spell a fixed reason or action are
--     enumerations, and formatted details are the values that are formatted.
--   - Loops are structural recursion on the list that they walk. The digits of an order number are
--     written with fuel 20, enough for every u64.
--
--   - The decoders read a list of bytes at an offset, with the overflow check of a 64-bit usize and
--     the check of UTF-8 written out. Whether a tip account parses as a public key is a parameter of
--     `validate`.
--
--   - A JSON value is a data type, and an f64 is an interface with the tests and conversions that
--     the code calls. The parsers of both, base 58, sockets and the network are parameters. The
--     inputs of a stream and the readings of the clocks are given as lists or functions. A file is
--     the list of what was written to it.
--   - The polls of src/live.rs run on fuel, one unit for a round; it is shown how much is enough. The
--     landing loop has a round for every second of its timeout and one more, which is enough where
--     the clock does not go back, since a round sleeps for two seconds or up to the deadline. A
--     shift of the monotonic clock that the code saturates is subtraction of natural numbers.
--   - HTTP is an interface over a state of the world: a request yields the text of its answer or
--     none, and the clock and the sleep are calls of it. So are base 58, base 64 and the key pairs,
--     messages and signatures of the Solana crates. The floats of a JSON reply stand for their 64
--     bits.
--   - Files are a map from paths to bytes. A write may stop after any number of bytes, and a crash
--     in a call is a call that fails. The recorder and the live loop only log a write that fails,
--     and its failures are left out there, but for the write of the book.
--   - What the outside does to a connection loop is a list of attempts, each with its inputs, and the
--     shutdown may come at any of its points.
--   - The build is the one without the feature `pg`.
--
-- Not modelled: the gRPC connection of src/ingest.rs, whose client is generated code; the webhook
-- worker of src/alerts.rs, the sockets, the heartbeat and the panic hook of src/metrics.rs; the
-- servers and the log of src/main.rs, and the binaries under src/bin, which parse arguments and call
-- the library; the Postgres mirror of src/pg_audit.rs, a database client behind a feature flag. They
-- are network and file I/O around what is modelled. The texts of errors and log lines are left out.
pub mod Prelude
pub mod Platform
pub mod Types
pub mod Config
pub mod Keys
pub mod Risk
pub mod Strategy
pub mod Exec
pub mod Persist
pub mod Engine
pub mod Borsh
pub mod Decode
pub mod Ingest
pub mod WsFeed
pub mod LiveLoop
pub mod Recorder
pub mod Metrics
pub mod Boot
pub mod Alerts
pub mod Live
pub mod Tests
