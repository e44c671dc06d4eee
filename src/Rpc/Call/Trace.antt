-- ===== src/Rpc/Call/Trace.antt =====
-- Which requests a call sends, and how they end (client.go).
use titanarb_engine.Base.{
  ℕ, zero, suc, ◌≤◌, ◌≡◌, refl, sym, true, false, not, ◌&&◌, ◌⊎◌, inl, inr, List, [], ◌∷◌, bytes,
  text_eq, length, arith, Bool-cases, Option-cases, sum_cases, ◌==◌, if_both,
}
use titanarb_engine.Rpc.Errors.{Failure, call_provider, provider_failure}
use titanarb_engine.Rpc.Choice.{Client, choose_read_provider, choose_provider}
use titanarb_engine.Rpc.Call.{
  Sent, Turn, Asked, Attempt, Verdict, returned, again, Called, serve, approach, call_round,
  call_loop, dispatch, serve_once, call_once, call, give_up,
}

-- The requests of a call and its result: each request but the last failed in a way that blames its
-- provider, and the result is that of the last request, or an error that was met afterwards.
abbrev pub IsRun : {A : Type 0} → List (Sent A) → Failure ⊎ A → Type 0
IsRun [] r = (e : Failure) × (r ≡ inl e)
IsRun (s ∷ rest) r =
    ((rest ≡ []) × (r ≡ s.outcome))
    ⊎ ((e : Failure) × (s.outcome ≡ inl e) × (provider_failure e ≡ true) × IsRun rest r)

-- The requests of an attempt, at most one, and what they say of its verdict.
abbrev Decides : {A : Type 0} → List (Sent A) → Verdict A → Type 0
Decides log (returned r) = IsRun log r × (length log ≤ 1)
Decides {A} log (again e) =
    (s : Sent A) × (log ≡ s ∷ []) × (s.outcome ≡ inl e) × (provider_failure e ≡ true)

Verdict-cases :
    {A : Type 0} (v : Verdict A)
    → ((r : Failure ⊎ A) × (v ≡ returned r)) ⊎ ((e : Failure) × (v ≡ again e))
Verdict-cases (returned r) = inl (r, refl)
Verdict-cases (again e) = inr (e, refl)

module _ {A : Type 0} (asked : Asked A) where
  record IsDecided (a : Attempt A) : Type 0 where
    decided : Decides a.log a.verdict

  give_up-IsDecided : (c : Client) (e : Failure) → IsDecided (give_up asked c e)
  give_up-IsDecided c e = record { decided = ((e, refl), omega arith) }

  serve-Decides :
      (turn : Turn A) (i at : ℕ) (c : Client)
      → Decides (serve asked turn i at c).log (serve asked turn i at c).verdict
  unfolding serve
  serve-Decides turn i at c = elim (sum_cases (call_provider (turn.reply i))) [
    | inr (a, good) ↦ rw (good, serve) (inl (refl, sym good), omega arith)
    | inl (e, bad) ↦ elim (Bool-cases turn.ended) [
      | inl over ↦ rw (bad, over, serve) (inl (refl, sym bad), omega arith)
      | inr going ↦ elim (Bool-cases (provider_failure e)) [
        | inl blamed ↦ rw (bad, going, blamed, serve) (_, refl, bad, blamed)
        | inr innocent ↦ rw (bad, going, innocent, serve) (inl (refl, sym bad), omega arith)
      ]
    ]
  ]

  serve-IsDecided : (turn : Turn A) (i at : ℕ) (c : Client) → IsDecided (serve asked turn i at c)
  serve-IsDecided turn i at c = record { decided = serve-Decides turn i at c }

  approach-Decides :
      (turn : Turn A) (i wait : ℕ) (c : Client) → IsDecided (approach asked turn i wait c)
  unfolding approach
  approach-Decides turn i wait c = search (if_both IsDecided, give_up-IsDecided, serve-IsDecided)

  dispatch-Decides : (turn : Turn A) (c : Client) → IsDecided (dispatch asked turn c)
  unfolding dispatch
  dispatch-Decides turn c =
      elim (Option-cases (choose_read_provider asked.class turn.chosen_at c)) [
        | inl lost ↦ rw (lost, dispatch) (give_up-IsDecided c _)
        | inr (x, got) ↦ rw (got, dispatch) (approach-Decides turn x.0 x.1 x.2)
      ]

  call_round-Decides : (turn : Turn A) (c : Client) → IsDecided (call_round asked turn c)
  unfolding call_round
  call_round-Decides turn c = search (if_both IsDecided, give_up-IsDecided, dispatch-Decides)

  -- A call is a run with at most the given number of requests.
  pub record Ran (n : ℕ) (x : Called asked) : Type 0 where
    pub run : IsRun x.log x.result
    pub few : length x.log ≤ n

  call_loop-Ran :
      (turns : ℕ → Turn A) (k left : ℕ) (c : Client) → Ran left (call_loop asked turns k left c)
  unfolding call_loop
  call_loop-Ran turns k zero c = record { run = (asked.stop, refl); few = omega arith }
  call_loop-Ran turns k (suc left) c =
      let a = call_round asked (turns k) c in
      let d = (call_round-Decides (turns k) c).decided in
      let rest = call_loop-Ran turns (suc k) left a.client in
      let more = call_loop asked turns (suc k) left a.client in
      elim (Verdict-cases a.verdict) [
        | inl (r, e) ↦
            let d' : Decides a.log (returned r) = rw e at d in
            rw (e, call_loop) (record { run = d'.0; few = omega (arith, d'.1) })
        | inr (f, e) ↦
            let d' : Decides a.log (again f) = rw e at d in
            let (s, one, failed, blamed) = d' in
            elim (Bool-cases (left == 0)) [
              | inl last ↦
                  rw (e, last, one, call_loop)
                    (record { run = inl (refl, sym failed); few = omega arith })
              | inr further ↦
                  rw (e, further, one, call_loop)
                    (if_both (Ran (suc left)) (turns k).pause_ended
                      (record { client = a.client; log = s ∷ []; result = inl asked.stop })
                      (record { client = more.client; log = s ∷ more.log; result = more.result })
                      (record {
                        run = inr (f, failed, blamed, (asked.stop, refl));
                        few = omega arith;
                      })
                      (record {
                        run = inr (f, failed, blamed, rest.run);
                        few = let few = rest.few in omega arith;
                      }))
            ]
      ]

  serve_once-Ran : (turn : Turn A) (i at : ℕ) (c : Client) → Ran 1 (serve_once asked turn i at c)
  unfolding serve_once
  serve_once-Ran turn i at c = elim (sum_cases (call_provider (turn.reply i))) [
    | inr (a, good) ↦
        rw (good, serve_once) (record { run = inl (refl, sym good); few = omega arith })
    | inl (e, bad) ↦ elim (Bool-cases (not turn.ended && provider_failure e)) [
      | inl blamed ↦
          rw (bad, blamed, serve_once) (record { run = inl (refl, sym bad); few = omega arith })
      | inr innocent ↦
          rw (bad, innocent, serve_once) (record { run = inl (refl, sym bad); few = omega arith })
    ]
  ]

  call_once-Ran : (turn : Turn A) (c : Client) → Ran 1 (call_once asked turn c)
  unfolding call_once
  call_once-Ran turn c = elim (Option-cases (choose_provider turn.chosen_at c)) [
    | inl lost ↦ rw (lost, call_once) (record { run = (_, refl); few = omega arith })
    | inr (x, got) ↦ rw (got, call_once) (search (if_both (Ran 1), serve_once-Ran, stopped))
  ]
    where
      stopped : (c' : Client) → Ran 1 (record { client = c'; log = []; result = inl asked.stop })
      stopped c' = record { run = (asked.stop, refl); few = omega arith }

  -- A call is a run: it sends its request again only after a failure that blames the provider, and
  -- otherwise returns what came of the last request at once, or an error. It sends at most one
  -- request more than the retries, and a raw transaction at most once.
  pub call-Ran :
      (turns : ℕ → Turn A) (c : Client)
      → Ran (suc c.retries) (call asked turns c)
        × ((text_eq asked.method (bytes "eth_sendRawTransaction") ≡ false)
            ⊎ Ran 1 (call asked turns c))
  unfolding call
  call-Ran turns c = elim (Bool-cases (text_eq asked.method (bytes "eth_sendRawTransaction"))) [
    | inl raw ↦
        let once = call_once-Ran (turns 0) c in
        rw (raw, call)
          (record { run = once.run; few = let few = once.few in omega arith }, inr once)
    | inr other ↦ rw (other, call) (call_loop-Ran turns 0 (suc c.retries) c, inl refl)
  ]
