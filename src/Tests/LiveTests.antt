-- ===== src/Tests/LiveTests.antt =====
-- Examples of the theorems on the parts of the live executor.
use hfmcbot.Prelude.{ℕ, ◌+◌, ◌-◌, ◌*◌, ◌≤◌, refl, List, [], ◌∷◌, ◌==◌, if◌then◌else◌, arith}
use hfmcbot.Prelude.Text.{Text, bytes}
use hfmcbot.Exec.{transport}
use hfmcbot.Live.Rpc.{Reply, ok, err, RpcClient, IsAnswered, fixed, rpc_call, rpc_call-IsAnswered}
use hfmcbot.Live.TokenBucket.{Request, new, take_all, take_all_bound}

abbrev burst : List Request
burst =
    record { now = 1000; later = 1001; tokens = 5 }
    ∷ record { now = 1002; later = 1003; tokens = 1 }
    ∷ record { now = 600000000; later = 600000001; tokens = 1 }
    ∷ []

take_all_bound_example :
    let (b, total) = take_all burst (new 5 2 1000) in
    total * 1000000000 ≤ 5 * 1000000000 + (b.last_refill - 1000) * 2
take_all_bound_example =
    take_all_bound 5 2 1000 burst (omega arith, (omega arith, (omega arith, tt)))

-- three endpoints, of which the last one answers
abbrev answers : ℕ → Reply Text
answers i = if i == 2 then ok (bytes "{}") else err transport

abbrev client : RpcClient
client = record { endpoints = 3; active = 1 }

rpc_call-IsAnswered_example : IsAnswered answers 3 (rpc_call (fixed answers) client [])
rpc_call-IsAnswered_example =
    rpc_call-IsAnswered answers client [] 2 (bytes "{}") (omega arith) refl
