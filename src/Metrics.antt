-- ===== src/Metrics.antt =====
-- The metrics endpoint (src/metrics.rs): the text of a snapshot, and the answer to a request. The socket
-- is not modelled.
use hfmcbot.Prelude.{◌++◌, length, if◌then◌else◌}
use hfmcbot.Prelude.Text.{Text, bytes, text_eq, show_u64}
use hfmcbot.Engine.View.{EngineSnapshot}

-- the three lines of a metric: its help, its type and its value
unfoldable pub metric : Text → Text → Text → Text → Text
metric name help kind value =
    bytes "# HELP "
    ++ name
    ++ bytes " "
    ++ help
    ++ bytes "\n# TYPE "
    ++ name
    ++ bytes " "
    ++ kind
    ++ bytes "\n"
    ++ name
    ++ bytes " "
    ++ value
    ++ bytes "\n"

-- with the text of a `Decimal`
unfoldable pub render_prometheus_text : {D : Type 0} → (D → Text) → EngineSnapshot D → Text
unfolding metric show_u64
render_prometheus_text show_dec s =
    metric (bytes "hfmcbot_equity_usd") (bytes "Realized equity in USD.") (bytes "gauge")
      (show_dec s.equity_usd)
    ++ metric (bytes "hfmcbot_deployed_usd") (bytes "USD locked in open positions.") (bytes "gauge")
        (show_dec s.deployed_usd)
    ++ metric (bytes "hfmcbot_open_positions") (bytes "Open position count.") (bytes "gauge")
        (show_u64 s.open_positions)
    ++ metric (bytes "hfmcbot_closed_trades_total") (bytes "Closed trade count.") (bytes "counter")
        (show_u64 s.closed_trades)
    ++ metric (bytes "hfmcbot_trade_wins_total") (bytes "Winning closed trades.") (bytes "counter")
        (show_u64 s.wins)
    ++ metric (bytes "hfmcbot_trade_losses_total") (bytes "Losing closed trades.") (bytes "counter")
        (show_u64 s.losses)
    ++ metric (bytes "hfmcbot_realized_pnl_usd") (bytes "Cumulative realized P&L in USD.")
        (bytes "counter") (show_dec s.realized_pnl_usd)
    ++ metric (bytes "hfmcbot_day_realized_pnl_usd") (bytes "Current UTC-day realized P&L.")
        (bytes "gauge") (show_dec s.day_realized_pnl_usd)
    ++ metric (bytes "hfmcbot_kill_switch") (bytes "Circuit-breaker state (1 = tripped).")
        (bytes "gauge") (show_u64 (if s.kill_switch then 1 else 0))
    ++ metric (bytes "hfmcbot_stuck_positions") (bytes "Positions marked unsellable.")
        (bytes "gauge") (show_u64 s.stuck_positions)

-- The answer to a request for a path: its status, its type and its body.
pub record Answer : Type 0 where
  pub status : Text
  pub content_type : Text
  pub body : Text

-- `metrics` is the text of the snapshot, which is empty where its lock is poisoned
unfoldable pub answer : Text → Text → Answer
unfolding text_eq
answer path metrics =
    if text_eq path (bytes "/healthz")
    then record { status = bytes "200 OK"; content_type = bytes "text/plain"; body = bytes "ok\n" }
    else if text_eq path (bytes "/metrics")
    then record {
      status = bytes "200 OK";
      content_type = bytes "text/plain; version=0.0.4";
      body = metrics;
    }
    else record {
      status = bytes "404 Not Found";
      content_type = bytes "text/plain";
      body = bytes "not found\n";
    }

unfoldable pub response : Answer → Text
unfolding show_u64
response a =
    bytes "HTTP/1.1 "
    ++ a.status
    ++ bytes "\r\ncontent-type: "
    ++ a.content_type
    ++ bytes "\r\ncontent-length: "
    ++ show_u64 (length a.body)
    ++ bytes "\r\nconnection: close\r\n\r\n"
    ++ a.body
