-- ===== src/Live/Rpc.antt =====
-- The failover of the RPC client (src/live.rs, `rpc_call`). The network is a state N with the answer
-- of `post_one` at an endpoint.
use Prim.Native.Nat.{min}
use native.Mathlib.Nat.{mod-lt, mod-eq_of_lt, add-mod_right, eq-or-lt_of_le}
use hfmcbot.Prelude.{
  Bool-cases, leb, ℕ, zero, suc, ◌+◌, ◌-◌, ◌%◌, ◌<◌, ◌≤◌, ◌≡◌, refl, sym, ◌∙◌, ap, inl, inr, true,
  List, ◌∷◌, arith,
}
use hfmcbot.Prelude.Text.{Text}
use hfmcbot.Exec.{ExecError, transport}

-- `Result<A, ExecError>`
pub data Reply (A : Type 0) : Type 0 where
  ok : A → Reply A
  err : ExecError → Reply A

-- the endpoints by their number, and the one that answered last
pub record RpcClient : Type 0 where
  pub endpoints : ℕ
  pub active : ℕ

-- `post_one` of a request at the endpoint of a number
abbrev pub Post : Type 0 → Type 0
Post N = N → ℕ → N × Reply Text

-- the match on the answer of the endpoint i
unfoldable pub settle :
    {N : Type 0}
    → ℕ
    → RpcClient
    → N
    → Reply Text
    → (ExecError → (N × RpcClient) × Reply Text)
    → (N × RpcClient) × Reply Text
settle i client net (ok body) next = ((net, record client { active = i }), ok body)
settle i client net (err e) next = next e

module _ {N : Type 0} (post : Post N) where
  -- the loop from its round k on, with `left` rounds to come
  unfoldable pub rpc_loop : ℕ → ℕ → ℕ → RpcClient → N → ExecError → (N × RpcClient) × Reply Text
  unfolding settle
  rpc_loop zero start k client net last_err = ((net, client), err last_err)
  rpc_loop (suc left) start k client net last_err =
      let i = (start + k) % client.endpoints in
      let (net', reply) = post net i in
      settle i client net' reply (rpc_loop left start (suc k) client net')

  unfoldable pub rpc_call : RpcClient → N → (N × RpcClient) × Reply Text
  unfolding rpc_loop
  rpc_call client net =
      rpc_loop client.endpoints (min client.active (client.endpoints - 1)) 0 client net transport

-- the number of the endpoint of `active_url`
unfoldable pub active_url : RpcClient → ℕ
active_url client = min client.active (client.endpoints - 1)

-- Endpoints that each give one answer, on a network that keeps the numbers of the endpoints that
-- were asked, the last one first.
abbrev pub fixed : (ℕ → Reply Text) → Post (List ℕ)
fixed answers asked i = (i ∷ asked, answers i)

-- The call is answered by an endpoint that is then the active one.
pub record IsAnswered (answers : ℕ → Reply Text) (n : ℕ) (r : (List ℕ × RpcClient) × Reply Text)
    : Type 0 where
  pub body : Text
  pub is_ok : r.1 ≡ ok body
  pub in_range : r.0.1.active < n
  pub is_answer : answers r.0.1.active ≡ ok body

settle-IsAnswered :
    (answers : ℕ → Reply Text) (n i : ℕ) (client : RpcClient) (asked : List ℕ) (reply : Reply Text)
    (next : ExecError → (List ℕ × RpcClient) × Reply Text)
    → i < n
    → answers i ≡ reply
    → ((e : ExecError) → answers i ≡ err e → IsAnswered answers n (next e))
    → IsAnswered answers n (settle i client asked reply next)
unfolding settle
settle-IsAnswered answers n i client asked (ok body) next h is_reply later = record {
  body = body;
  is_ok = refl;
  in_range = h;
  is_answer = is_reply;
}
settle-IsAnswered answers n i client asked (err e) next h is_reply later = later e is_reply

gone : {k j : ℕ} → k ≤ j → j < k + 0 → ⊥
gone h1 h2 = omega arith

clash : {e : ExecError} {body : Text} → err e ≡ ok body → ⊥
clash h = ground arith

rpc_loop-IsAnswered :
    (answers : ℕ → Reply Text) (left start k : ℕ) (client : RpcClient) (asked : List ℕ)
    (e : ExecError)
    → 0 < client.endpoints
    → (j : ℕ) → k ≤ j
    → j < k + left
    → (body : Text) → answers ((start + j) % client.endpoints) ≡ ok body
    → IsAnswered answers client.endpoints (rpc_loop (fixed answers) left start k client asked e)
unfolding rpc_loop
rpc_loop-IsAnswered answers zero start k client asked e pos j h1 h2 body good =
    elim (gone h1 h2) [ ]
rpc_loop-IsAnswered answers (suc left) start k client asked e pos j h1 h2 body good =
    let i = (start + k) % client.endpoints in
    settle-IsAnswered answers client.endpoints i client (i ∷ asked) (answers i)
      (rpc_loop (fixed answers) left start (suc k) client (i ∷ asked)) (mod-lt (start + k) pos) refl
      (λ e' bad. elim (eq-or-lt_of_le h1) [
        | inl same ↦
            elim (clash
              (sym bad ∙ ap (λ t. answers ((start + t) % client.endpoints)) same ∙ good)) [ ]
        | inr after ↦
            rpc_loop-IsAnswered answers left start (suc k) client (i ∷ asked) e' pos j after
              (omega arith) body good
      ])

near_round : (start i : ℕ) → leb start i ≡ true → start + (i - start) ≡ i
near_round start i h = ground arith

far_round : (n start i : ℕ) → start < n → start + (i + n - start) ≡ i + n
far_round n start i h = omega arith

round_of : (n start i : ℕ) → start < n → i < n → (j : ℕ) × (j < n) × ((start + j) % n ≡ i)
round_of n start i h1 h2 = elim (Bool-cases (leb start i)) [
  | inl near ↦
      (i - start, ground arith, ap (λ t. t % n) (near_round start i near) ∙ mod-eq_of_lt h2)
  | inr far ↦ (
    i + n - start,
    ground arith,
    ap (λ t. t % n) (far_round n start i h1) ∙ add-mod_right i n ∙ mod-eq_of_lt h2,
  )
]

-- Where one of the endpoints answers, the call is answered, whichever endpoint was active before and
-- however many of the others fail, and by an endpoint that is active from then on.
pub rpc_call-IsAnswered :
    (answers : ℕ → Reply Text) (client : RpcClient) (asked : List ℕ) (i : ℕ) (body : Text)
    → i < client.endpoints
    → answers i ≡ ok body
    → IsAnswered answers client.endpoints (rpc_call (fixed answers) client asked)
unfolding rpc_call
rpc_call-IsAnswered answers client asked i body h good =
    let n = client.endpoints in
    let start = min client.active (n - 1) in
    let (j, in_time, hit) = round_of n start i (omega arith) h in
    rpc_loop-IsAnswered answers n start 0 client asked transport (omega arith) j (omega arith)
      (omega arith) body (ap answers hit ∙ good)
