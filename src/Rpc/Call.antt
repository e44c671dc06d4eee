-- ===== src/Rpc/Call.antt =====
-- Client.Call: the attempts of one request (client.go). Between the calls of its methods the client is
-- the caller's alone; `inflight` is as before after each request.
pub mod Trace
pub mod Patience
use titanarb_engine.Base.{
  ℕ, zero, suc, ◌+◌, Bool, true, false, not, ◌&&◌, Option, none, some, ◌⊎◌, inl, inr, List, [], ◌∷◌,
  ◌++◌, Text, bytes, text_eq, ltb, ◌==◌, if◌then◌else◌, get_elem?, set,
}
use titanarb_engine.Base.Int.{pos}
use titanarb_engine.Rpc.Limiter.{RateLimiter, MinuteBudget, allow, reserve_delay}
use titanarb_engine.Rpc.Errors.{
  Failure, typed, message, network, Reply, call_provider, provider_failure,
}
use titanarb_engine.Rpc.Provider.{Provider, RequestClass, critical, is_critical, is_hot_path}
use titanarb_engine.Rpc.Health.{record_request, record_success, record_failure, update_latency}
use titanarb_engine.Rpc.Choice.{Client, choose_read_provider, choose_provider, failover}

-- A request that was sent: the index of its provider, the time, and what came of it.
pub record Sent (A : Type 0) : Type 0 where
  pub index : ℕ
  pub sent_at : ℕ
  pub outcome : Failure ⊎ A

-- What surrounds one attempt: the clock, whether the context ends one of the waits, the time by which
-- the wait for the provider is overslept, the reply of each provider, and whether the context has
-- ended after it and during the pause before the next attempt.
pub record Turn (A : Type 0) : Type 0 where
  pub now : ℕ
  pub chosen_at : ℕ
  pub read_ended : Bool
  pub premium_ended : Bool
  pub wait_ended : Bool
  pub overslept : ℕ
  pub reply : ℕ → Reply A
  pub latency : ℕ
  pub answered_at : ℕ
  pub ended : Bool
  pub pause_ended : Bool

-- A request: its method, class and stage, the error of its context, the text of a result, and the
-- float expression of the moving average.
pub record Asked (A : Type 0) : Type 0 where
  pub method : Text
  pub class : RequestClass
  pub stage : Text
  pub stop : Failure
  pub text_of : A → Option Text
  pub blend : ℕ → ℕ → ℕ

-- An error of the client itself.
unfoldable pub refusal : Text → Failure
refusal text = typed (record {
  kind = network;
  cause = message text;
  http_status = 0;
  rpc_code = pos 0;
  rpc_message = [];
})

-- A call of a budget where the request needs it and the client has it.
unfoldable pub spend : Bool → ℕ → Option MinuteBudget → Bool × Option MinuteBudget
spend false now b = (true, b)
spend true now none = (true, none)
spend true now (some b) = ((allow b now).0, some (allow b now).1)

-- rateLimiter.Wait: whether the context ended it, and the limiter.
unfoldable pub wait_on : Bool → ℕ → RateLimiter → Bool × RateLimiter
wait_on ended now l = (ltb 0 (reserve_delay l now).0 && ended, (reserve_delay l now).1)

unfoldable pub wait_where : Bool → Bool → ℕ → Option RateLimiter → Bool × Option RateLimiter
wait_where needed ended now none = (false, none)
wait_where needed ended now (some l) =
    if needed then ((wait_on ended now l).0, some (wait_on ended now l).1) else (false, some l)

-- A change of the provider at an index.
unfoldable pub change : ℕ → (Provider → Provider) → Client → Client
change i f c = elim (get_elem? c.providers i) [
  | none ↦ c
  | some p ↦ record c { providers = set c.providers i (f p) }
]

-- What an attempt ends with: the call returns, or it goes on after an error.
pub data Verdict (A : Type 0) : Type 0 where
  returned : Failure ⊎ A → Verdict A
  again : Failure → Verdict A

pub record Attempt (A : Type 0) : Type 0 where
  pub client : Client
  pub log : List (Sent A)
  pub verdict : Verdict A

module _ {A : Type 0} (asked : Asked A) where
  abbrev pub give_up : Client → Failure → Attempt A
  give_up c e = record { client = c; log = []; verdict = returned (inl e) }

  -- The request to the chosen provider, and what is recorded of it.
  unfoldable pub serve : Turn A → ℕ → ℕ → Client → Attempt A
  serve turn i sent_at c =
      let asking = change i (record_request asked.method asked.class asked.stage sent_at) c in
      let outcome = call_provider (turn.reply i) in
      let log = record { index = i; sent_at = sent_at; outcome = outcome } ∷ [] in
      elim outcome [
        | inr a ↦ record {
          client =
              change i
                (λ p.
                  record_success asked.method (asked.text_of a) turn.answered_at
                    (update_latency asked.blend turn.latency p))
                asking;
          log = log;
          verdict = returned (inr a);
        }
        | inl e ↦
            if turn.ended
            then record { client = asking; log = log; verdict = returned (inl e) }
            else if not (provider_failure e)
            then record { client = asking; log = log; verdict = returned (inl e) }
            else record {
              client =
                  (failover i turn.answered_at
                    (change i (λ p. (record_failure e turn.answered_at p).0) asking)).0;
              log = log;
              verdict = again e;
            }
      ]

  abbrev is_premium : ℕ → Client → Bool
  is_premium i c = elim (get_elem? c.providers i) [
    | none ↦ false
    | some p ↦ text_eq p.cfg.tier (bytes "premium")
  ]

  -- The waits for the chosen provider, and the request.
  unfoldable pub approach : Turn A → ℕ → ℕ → Client → Attempt A
  approach turn i delay c =
      let premium =
        wait_where (is_premium i c && not (is_critical asked.class)) turn.premium_ended
          turn.chosen_at c.premium_limiter in
      let c' = record c { premium_limiter = premium.1 } in
      if premium.0
      then give_up c' asked.stop
      else if ltb 0 delay && turn.wait_ended
      then give_up c' asked.stop
      else serve turn i (turn.chosen_at + delay + turn.overslept) c'

  -- The choice of a provider.
  unfoldable pub dispatch : Turn A → Client → Attempt A
  dispatch turn c = elim (choose_read_provider asked.class turn.chosen_at c) [
    | none ↦ give_up c (refusal (bytes "no eligible RPC provider configured"))
    | some (i, delay, c') ↦ approach turn i delay c'
  ]

  -- One round of the loop.
  unfoldable pub call_round : Turn A → Client → Attempt A
  call_round turn c =
      let is_call = text_eq asked.method (bytes "eth_call") in
      let hot = spend (is_call && is_hot_path asked.class) turn.now c.hot_budget in
      let c1 = record c { hot_budget = hot.1 } in
      let eth = spend (is_call && not (is_critical asked.class)) turn.now c1.eth_budget in
      let c2 = record c1 { eth_budget = eth.1 } in
      let read =
        wait_where (not (is_critical asked.class)) turn.read_ended turn.now c2.read_limiter in
      let c3 = record c2 { read_limiter = read.1 } in
      if not hot.0
      then give_up c1 (refusal (bytes "RPC hot-path minute budget exhausted"))
      else if not eth.0
      then give_up c2 (refusal (bytes "RPC eth_call minute budget exhausted"))
      else if read.0
      then give_up c3 asked.stop
      else dispatch turn c3

  -- What a call gives: the client, the requests that were sent, and the result.
  pub record Called : Type 0 where
    pub client : Client
    pub log : List (Sent A)
    pub result : Failure ⊎ A

  -- The loop from the attempt `k` on, with the attempts that are left.
  unfoldable pub call_loop : (ℕ → Turn A) → ℕ → ℕ → Client → Called
  call_loop turns k zero c = record { client = c; log = []; result = inl asked.stop }
  call_loop turns k (suc left) c =
      let a = call_round (turns k) c in
      let more = call_loop turns (suc k) left a.client in
      elim a.verdict [
        | returned r ↦ record { client = a.client; log = a.log; result = r }
        | again e ↦
            if left == 0
            then record { client = a.client; log = a.log; result = inl e }
            else if (turns k).pause_ended
            then record { client = a.client; log = a.log; result = inl asked.stop }
            else record { client = more.client; log = a.log ++ more.log; result = more.result }
      ]

  -- The request of callOnceNoFailover, and what is recorded of it. It is neither repeated nor moved
  -- to another provider.
  unfoldable pub serve_once : Turn A → ℕ → ℕ → Client → Called
  serve_once turn i sent_at c =
      let asking = change i (record_request asked.method critical asked.stage sent_at) c in
      let outcome = call_provider (turn.reply i) in
      let log = record { index = i; sent_at = sent_at; outcome = outcome } ∷ [] in
      elim outcome [
        | inr a ↦ record {
          client =
              change i
                (λ p.
                  record_success asked.method (asked.text_of a) turn.answered_at
                    (update_latency asked.blend turn.latency p))
                asking;
          log = log;
          result = inr a;
        }
        | inl e ↦
            if not turn.ended && provider_failure e
            then record {
              client = change i (λ p. (record_failure e turn.answered_at p).0) asking;
              log = log;
              result = inl e;
            }
            else record { client = asking; log = log; result = inl e }
      ]

  -- callOnceNoFailover
  unfoldable pub call_once : Turn A → Client → Called
  call_once turn c = elim (choose_provider turn.chosen_at c) [
    | none ↦ record {
      client = c;
      log = [];
      result = inl (refusal (bytes "no RPC provider configured"));
    }
    | some (i, c1) ↦
        let wait = elim (get_elem? c1.providers i) as (λ _. ℕ) [
          | none ↦ 0
          | some p ↦ (reserve_delay p.limiter turn.chosen_at).0
        ] in
        let c2 =
          change i (λ p. record p { limiter = (reserve_delay p.limiter turn.chosen_at).1 }) c1 in
        if ltb 0 wait && turn.wait_ended
        then record { client = c2; log = []; result = inl asked.stop }
        else serve_once turn i (turn.chosen_at + wait + turn.overslept) c2
  ]

  -- Call
  unfoldable pub call : (ℕ → Turn A) → Client → Called
  call turns c =
      if text_eq asked.method (bytes "eth_sendRawTransaction")
      then call_once (turns 0) c
      else call_loop turns 0 (suc c.retries) c
