-- ===== src/Rpc/Tests.antt =====
-- A client of two providers, a premium one and a secondary one.
use titanarb_engine.Base.{
  ℕ, ◌+◌, ◌≤◌, ◌≡◌, refl, ◌⊎◌, inl, inr, true, false, none, some, List, [], ◌∷◌, bytes, Text, arith,
  if◌then◌else◌, ◌==◌, text_eq, trim_space, contains, decimal, to_lower,
}
use titanarb_engine.Base.Int.{pos}
use titanarb_engine.Base.Dict.{lookup, insert}
use titanarb_engine.Rpc.Limiter.{
  RateLimiter, allow, prune_before, reserve_delay, delay, new_rate_limiter_with_burst, next_slot,
  minute,
}
use titanarb_engine.Rpc.Limiter.Window.{answers, specified, granted, answers_lem}
use titanarb_engine.Rpc.Limiter.Bound.{within, granted-bound}
use titanarb_engine.Rpc.Errors.{
  Failure, typed, http, message, bare, canceled, Reply, response, call_provider, provider_failure,
}
use titanarb_engine.Rpc.Errors.Blame.{blamed, call_provider-blamed}
use titanarb_engine.Rpc.Provider.{
  Provider, ProviderConfig, standard, critical, is_critical, new_provider, tier_rank, effective_rps,
  is_hot_path, effective_burst,
}
use titanarb_engine.Rpc.Health.{
  record_failure, provider_lagged, record_request, record_success, update_latency,
}
use titanarb_engine.Rpc.Health.Cooldown.{record_failure_lem}
use titanarb_engine.Rpc.Choice.{
  Client, choose_read_provider, is_passed_over, is_cooling, best_known_block, read_index, pass_over,
  pass_from, weigh, preferred_read_tier, tier_choice, add_tier, read_score, take_better, enter_tier,
  wait_for, after_choice, delay_with_cooldown, any_from, failover, ready_from,
}
use titanarb_engine.Rpc.Choice.Usable.{IsUsable}
use titanarb_engine.Rpc.Choice.Chosen.{
  IsChosen, choose_read_provider-IsUsable, choose_read_provider-tier,
}
use titanarb_engine.Rpc.Call.{
  Turn, Asked, call, call_loop, call_round, spend, wait_where, wait_on, dispatch, approach, serve,
  change, refusal,
}
use titanarb_engine.Rpc.Call.Trace.{Ran, call-Ran}
use titanarb_engine.Rpc.Call.Patience.{IsPatient, call_round-IsPatient}

abbrev limiter : RateLimiter
limiter = record { interval = 100; burst = 2; next = 0 }

abbrev call_times : List ℕ
call_times = 1 ∷ 2 ∷ 3 ∷ (minute + 2) ∷ []

budget_run : answers (record { limit = 2; calls = [] }) call_times ≡ true ∷ true ∷ false ∷ true ∷ []
unfolding answers allow prune_before
budget_run = refl

answers_lem_example :
    answers (record { limit = 2; calls = [] }) call_times ≡ specified 2 [] call_times
answers_lem_example = answers_lem 2 call_times (omega arith)

granted-bound_example :
    within 1 (granted (answers (record { limit = 2; calls = [] }) call_times) call_times) ≤ 2
granted-bound_example = granted-bound 2 call_times (omega arith) 1

abbrev overloaded : Reply ℕ
overloaded = response 503 [] (inl (bytes "no JSON"))

abbrev overload : Failure
overload = typed (record {
  kind = http;
  cause = message (bytes "rpc HTTP status 503");
  http_status = 503;
  rpc_code = pos 0;
  rpc_message = [];
})

overloaded_run : call_provider overloaded ≡ inl overload
unfolding call_provider trim_space contains decimal to_lower text_eq
overloaded_run = refl

call_provider-blamed_example : provider_failure overload ≡ blamed overloaded
call_provider-blamed_example = call_provider-blamed overloaded overload (omega arith) overloaded_run

abbrev config : Text → Text → ProviderConfig
config name tier = record {
  name = name;
  url = bytes "https://rpc";
  max_rps = 10;
  target_rps = 0;
  burst = 1;
  max_block_lag = 5;
  tier = tier;
}

abbrev premium : Provider
premium = new_provider (config (bytes "a") (bytes "premium"))

abbrev secondary : Provider
secondary = new_provider (config (bytes "b") (bytes "secondary"))

abbrev client : Client
client = record {
  retries = 2;
  providers = premium ∷ secondary ∷ [];
  read_limiter = some limiter;
  premium_limiter = none;
  eth_budget = some (record { limit = 5; calls = [] });
  hot_budget = none;
  active = 0;
  last_switch = 0;
}

record_failure_lem_example : (record_failure overload 7 premium).0.failures ≡ premium.failures + 1
record_failure_lem_example = (record_failure_lem overload 7 premium).5

premium-IsUsable : IsUsable true 7 client.providers premium
unfolding is_passed_over is_cooling provider_lagged best_known_block new_provider
premium-IsUsable = refl

choose_read_provider-IsUsable_example :
    (j : ℕ) × (q : Provider) × (wait : ℕ) × (after : Client) × IsChosen standard 7 client j q wait
      after
    × IsUsable true 7 client.providers q
choose_read_provider-IsUsable_example =
    choose_read_provider-IsUsable standard 7 client true 0 premium refl premium-IsUsable

choose_read_provider-tier_example :
    (j : ℕ) × (q : Provider) × (wait : ℕ) × (after : Client) × IsChosen critical 7 client j q wait
      after
    × (tier_rank critical q.cfg.tier ≤ tier_rank critical premium.cfg.tier)
choose_read_provider-tier_example =
    choose_read_provider-tier critical 7 client 0 premium refl premium-IsUsable
      (unfold is_critical in refl)

chosen_run : choose_read_provider standard 7 client ≡ some (0, 0, after_choice 7 0 premium client)
unfolding choose_read_provider read_index pass_over pass_from weigh is_passed_over is_cooling
    provider_lagged best_known_block preferred_read_tier tier_choice add_tier tier_rank read_score
    take_better enter_tier wait_for reserve_delay delay delay_with_cooldown new_provider is_critical
    effective_rps text_eq next_slot any_from
chosen_run = refl

-- The first provider is overloaded, the second one answers.
abbrev turn : ℕ → Turn ℕ
turn k = record {
  now = k;
  chosen_at = k;
  read_ended = false;
  premium_ended = false;
  wait_ended = false;
  overslept = 0;
  reply = λ i.
      if i == 0
      then overloaded
      else response 200 [] (inr (record { failure = none; result = inr 42 }));
  latency = 1;
  answered_at = k + 1;
  ended = false;
  pause_ended = false;
}

abbrev asked : Asked ℕ
asked = record {
  method = bytes "eth_call";
  class = standard;
  stage = bytes "quote";
  stop = bare canceled;
  text_of = λ _. none;
  blend = λ old latency. old;
}

call-Ran_example :
    Ran asked 3 (call asked turn client)
    × ((text_eq asked.method (bytes "eth_sendRawTransaction") ≡ false)
        ⊎ Ran asked 1 (call asked turn client))
call-Ran_example = call-Ran asked turn client

call_round-IsPatient_example : IsPatient asked client.providers (call_round asked (turn 0) client)
call_round-IsPatient_example = call_round-IsPatient asked (turn 0) client

call_run : (call asked turn client).result ≡ inr 42
unfolding call call_loop call_round spend wait_where wait_on dispatch approach serve change refusal
    choose_read_provider read_index pass_over pass_from weigh is_passed_over is_cooling
    provider_lagged best_known_block preferred_read_tier tier_choice add_tier tier_rank read_score
    take_better enter_tier wait_for after_choice reserve_delay delay delay_with_cooldown
    new_provider is_critical is_hot_path effective_rps text_eq next_slot any_from allow prune_before
    call_provider record_request record_failure record_success update_latency failover ready_from
    provider_failure lookup insert contains decimal to_lower trim_space effective_burst
    new_rate_limiter_with_burst
call_run = refl
