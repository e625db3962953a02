-- ===== src/Live/Await.antt =====
-- The landing of a bundle on the network (src/live.rs, `poll_bundle_landing` over
-- `get_bundle_statuses`), and the clients of the executor.
use Prim.Native.Nat.{min}
use hfmcbot.Prelude.{ℕ, zero, suc, ◌+◌, ◌-◌, ◌%◌, ◌^◌, List, Option, none, some, leb, if◌then◌else◌}
use hfmcbot.Prelude.Text.{Text}
use hfmcbot.Exec.{transport}
use hfmcbot.Live.Executor.{Clients}
use hfmcbot.Live.Landing.{Verdict, done, wait, bundle_verdict, nanos}
use hfmcbot.Live.Replies.{Parsers}
use hfmcbot.Live.Rpc.{Reply, err}
use hfmcbot.Live.Upstream.{
  Http, Net, quote, swap, fetch_token_decimals, fetch_token_balance, fetch_recent_blockhash,
  send_bundle, get_bundle_statuses,
}
use hfmcbot.Platform.Decimal.{Decimal}

-- a loop that is out of fuel has not ended
abbrev pub Ended : Type 0 → Type 0
Ended W = Option (Net W × Reply (List Text))

module _ {W : Type 0} ⦃http : Http W⦄ where
  -- the end of a round: the answer of the match, or the deadline, or the next round
  unfoldable pub after_status : Verdict (List Text) → ℕ → Net W → Ended W → Ended W
  after_status (done reply) deadline s next = some (s, reply)
  after_status wait deadline s next =
      if leb deadline (http.instant s.world) then some (s, err transport) else next

  -- the sleep of two seconds, or of what remains
  unfoldable pub nap : ℕ → Net W → Net W
  nap deadline s = record s {
    world = http.sleep (min (deadline - http.instant s.world) (nanos 2)) s.world;
  }

  -- the result of a loop, which the fuel that is given always yields
  unfoldable pub ended : Net W → Ended W → Net W × Reply (List Text)
  ended s none = (s, err transport)
  ended s (some r) = r

module _ {W D : Type 0} (parsers : Parsers D) ⦃http : Http W⦄ where
  -- the loop, with fuel for its rounds, from the request of number `id` on
  unfoldable pub landing_loop : Text → ℕ → ℕ → ℕ → Net W → Ended W
  unfolding get_bundle_statuses bundle_verdict after_status nap
  landing_loop uuid deadline zero id s = none
  landing_loop uuid deadline (suc fuel) id s =
      let (s', answer) = get_bundle_statuses parsers id uuid s in
      after_status (bundle_verdict answer) deadline s'
        (landing_loop uuid deadline fuel ((id + 1) % 2 ^ 64) (nap deadline s'))

  -- the loop as `poll_bundle_landing` starts it, with a round for every second and one more
  unfoldable pub start_landing : Text → ℕ → Net W → Ended W
  unfolding landing_loop
  start_landing uuid timeout_secs s =
      landing_loop uuid (http.instant s.world + nanos timeout_secs) (suc timeout_secs) 1 s

  unfoldable pub await_landing : Text → ℕ → Net W → Net W × Reply (List Text)
  unfolding ended start_landing
  await_landing uuid timeout_secs s = ended s (start_landing uuid timeout_secs s)

  unfoldable pub live_clients : ⦃d : Decimal D⦄ → Clients (Net W) D
  unfolding quote swap fetch_token_decimals fetch_token_balance fetch_recent_blockhash send_bundle
      await_landing
  live_clients = record {
    quote = quote parsers;
    swap = swap parsers;
    fetch_token_decimals = fetch_token_decimals parsers;
    fetch_token_balance = fetch_token_balance parsers;
    fetch_recent_blockhash = fetch_recent_blockhash parsers;
    send_bundle = send_bundle parsers;
    landing = await_landing;
    instant = λ s. http.instant s.world;
  }
