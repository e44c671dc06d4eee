-- ===== src/Execution/Requests/Whole.antt =====
-- The requests built from opportunities (BuildRequest of pipeline.go).
use titanarb_engine.Base.{
  ℕ, suc, ◌+◌, ◌%◌, ◌≤◌, ◌<◌, ◌≡◌, refl, sym, ap, ◌∙◌, inl, inr, true, not, ◌||◌, Option, none,
  some, List, [], ◌∷◌, Text, arith, length, Bool-cases, Option-cases, text_eq, text_eq_iff, u64,
  ltb, ◌==◌, subst, inr-inj, sum_cases,
}
use titanarb_engine.Base.Int.{pos}
use titanarb_engine.Base.Dict.{lookup}
use titanarb_engine.Pools.{positive}
use titanarb_engine.Opportunity.{Hop, Opportunity}
use titanarb_engine.Execution.{Address, SwapStep, Request, first_in, last_out}
use titanarb_engine.Execution.Validation.{IsConnected, IsExecutable}
use titanarb_engine.Execution.Build.{
  Token, Config, AddressParser, build_steps, build_request, first_symbol, last_symbol,
  latest_timestamp,
}
use titanarb_engine.Execution.Requests.{IsConfigured, address_of, AreStepsOf, build_steps_lem}

module _ (parser : AddressParser) (cfg : Config) where
  first_in-IsConnected :
      (out : Address) (ss : List SwapStep)
      → 1 ≤ length ss
      → IsConnected (some out) ss
      → (first_in ss ≡ out) × IsConnected none ss
  first_in-IsConnected out [] h c = absurd (omega arith)
  first_in-IsConnected out (s ∷ ss) h c = c

  length-AreStepsOf :
      (symbols : List Text) (hops : List Hop) (ss : List SwapStep)
      → AreStepsOf parser cfg symbols hops ss
      → length ss ≡ length hops
  length-AreStepsOf [] hops ss h = elim h [ ]
  length-AreStepsOf (a ∷ []) [] [] h = refl
  length-AreStepsOf (a ∷ []) [] (s ∷ ss) h = elim h [ ]
  length-AreStepsOf (a ∷ []) (hop ∷ hops) ss h = elim h [ ]
  length-AreStepsOf (a ∷ b ∷ symbols) [] ss h = elim h [ ]
  length-AreStepsOf (a ∷ b ∷ symbols) (hop ∷ hops) [] h = elim h [ ]
  length-AreStepsOf (a ∷ b ∷ symbols) (hop ∷ hops) (s ∷ ss) h =
      ap suc (length-AreStepsOf (b ∷ symbols) hops ss h.1)

  last_out-AreStepsOf :
      (a : Text) (symbols : List Text) (hop : Hop) (hops : List Hop) (ss : List SwapStep)
      → AreStepsOf parser cfg (a ∷ symbols) (hop ∷ hops) ss
      → last_out ss ≡ address_of parser cfg (last_symbol (a ∷ symbols))
  last_out-AreStepsOf a [] hop hops ss h = elim h [ ]
  last_out-AreStepsOf a (b ∷ symbols) hop hops [] h = elim h [ ]
  last_out-AreStepsOf a (b ∷ []) hop [] (s ∷ []) h = h.0.token_out
  last_out-AreStepsOf a (b ∷ []) hop [] (s ∷ t ∷ ss) h = elim h.1 [ ]
  last_out-AreStepsOf a (b ∷ []) hop (k ∷ hops) (s ∷ ss) h = elim h.1 [ ]
  last_out-AreStepsOf a (b ∷ c ∷ symbols) hop [] (s ∷ ss) h = elim h.1 [ ]
  last_out-AreStepsOf a (b ∷ c ∷ symbols) hop (k ∷ hops) (s ∷ []) h = elim h.1 [ ]
  last_out-AreStepsOf a (b ∷ c ∷ symbols) hop (k ∷ hops) (s ∷ t ∷ ss) h =
      last_out-AreStepsOf b (c ∷ symbols) k hops (t ∷ ss) h.1

  -- What a successful build has passed.
  record IsBuilt (timestamp : Option Text) (opp : Opportunity) (r : Request) : Type 0 where
    asset : Token
    steps : List SwapStep
    block : ℕ
    hop_count : (2 ≤ length opp.hops) × (length opp.hops ≤ 4)
    symbol_count : length opp.route.symbols ≡ length opp.hops + 1
    configured : lookup (first_symbol opp.route.symbols) cfg.tokens ≡ some asset
    returns : last_symbol opp.route.symbols ≡ first_symbol opp.route.symbols
    built : build_steps parser cfg 0 opp.route.symbols opp.hops ≡ inr steps
    timed : latest_timestamp timestamp ≡ some block
    request : r ≡ record {
      asset = parser.hex_to_address asset.address;
      amount = some opp.amount_in;
      steps = steps;
      deadline = some (pos ((block + cfg.deadline_seconds) % u64));
      min_profit = some cfg.min_profit;
    }

  build_request-IsBuilt :
      (timestamp : Option Text) (opp : Opportunity) (r : Request)
      → build_request parser cfg timestamp (some opp) ≡ inr r
      → IsBuilt timestamp opp r
  unfolding build_request
  build_request-IsBuilt timestamp opp r e =
      let symbols = opp.route.symbols in
      let hops = length opp.hops in
      elim (Bool-cases (ltb hops 2 || ltb 4 hops || not (length symbols == hops + 1))) [
        | inl bad ↦ let e' = rw (bad, build_request) at e in absurd (ground arith)
        | inr good ↦ elim (Option-cases (lookup (first_symbol symbols) cfg.tokens)) [
          | inl missing ↦ let e' = rw (good, missing, build_request) at e in absurd (ground arith)
          | inr (asset, found) ↦
              elim (Bool-cases (text_eq (last_symbol symbols) (first_symbol symbols))) [
                | inr open_route ↦
                    let e' = rw (good, found, open_route, build_request) at e in
                    absurd (ground arith)
                | inl closed ↦ elim (sum_cases (build_steps parser cfg 0 symbols opp.hops)) [
                  | inl (x, lost) ↦
                      let e' = rw (good, found, closed, lost, build_request) at e in
                      absurd (ground arith)
                  | inr (steps, got) ↦ elim (Option-cases (latest_timestamp timestamp)) [
                    | inl late ↦
                        let e' = rw (good, found, closed, got, late, build_request) at e in
                        absurd (ground arith)
                    | inr (block, time) ↦
                        let e' = rw (good, found, closed, got, time, build_request) at e in
                        record {
                          asset = asset;
                          steps = steps;
                          block = block;
                          hop_count = (ground arith, ground arith);
                          symbol_count = ground arith;
                          configured = found;
                          returns = (text_eq_iff _ _).0 closed;
                          built = got;
                          timed = time;
                          request = sym (inr-inj e');
                        }
                  ]
                ]
              ]
        ]
      ]

-- A request that is built from an opportunity passes the validation of the executor: with a positive
-- loan and minimum profit and a deadline that is positive and does not overflow, and no configured
-- address that is zero, and with a slippage of at most 10000 basis points. Its steps are those of the
-- hops, in order, each with the quoted output less the slippage, rounded down, as its minimum.
pub build_request-IsExecutable :
    (parser : AddressParser) (cfg : Config) (timestamp : Option Text) (opp : Opportunity)
    (r : Request)
    → IsConfigured parser cfg
    → cfg.slippage_bps ≤ 10000
    → positive opp.amount_in ≡ true
    → positive cfg.min_profit ≡ true
    → 0 < cfg.deadline_seconds
    → ((block : ℕ) → latest_timestamp timestamp ≡ some block → block + cfg.deadline_seconds < u64)
    → build_request parser cfg timestamp (some opp) ≡ inr r
    → IsExecutable r × AreStepsOf parser cfg opp.route.symbols opp.hops r.steps
build_request-IsExecutable parser cfg timestamp opp r ok mild loan profit later fits e =
    let b = build_request-IsBuilt parser cfg timestamp opp r e in
    subst
      (λ (t : Request). IsExecutable t × AreStepsOf parser cfg opp.route.symbols opp.hops t.steps)
      (sym b.request) (whole b opp.route.symbols opp.hops refl refl)
  where
    whole :
        (b : IsBuilt parser cfg timestamp opp r) (symbols : List Text) (hops : List Hop)
        → opp.route.symbols ≡ symbols
        → opp.hops ≡ hops
        → IsExecutable (record {
          asset = parser.hex_to_address b.asset.address;
          amount = some opp.amount_in;
          steps = b.steps;
          deadline = some (pos ((b.block + cfg.deadline_seconds) % u64));
          min_profit = some cfg.min_profit;
        })
          × AreStepsOf parser cfg symbols hops b.steps
    whole b [] hops es eh = absurd (let n = b.symbol_count in let n' = rw es at n in omega arith)
    whole b (a ∷ symbols) [] es eh =
        absurd (let n = b.hop_count.0 in let n' = rw eh at n in omega arith)
    whole b (a ∷ symbols) (hop ∷ hops) es eh =
        let count : length (a ∷ symbols) ≡ length (hop ∷ hops) + 1 =
          rw (es, eh) at b.symbol_count in
        let few : length (hop ∷ hops) ≤ 4 = rw eh at b.hop_count.1 in
        let many : 2 ≤ length (hop ∷ hops) = rw eh at b.hop_count.0 in
        let built = rw (es, eh) at b.built in
        let (valid, are, connected) =
          build_steps_lem parser cfg ok mild 0 a symbols (hop ∷ hops) b.steps (omega arith) built in
        let size = length-AreStepsOf parser cfg (a ∷ symbols) (hop ∷ hops) b.steps are in
        let (first, chained) =
          first_in-IsConnected parser cfg (address_of parser cfg a) b.steps (omega arith)
            connected in
        let last = last_out-AreStepsOf parser cfg a symbols hop hops b.steps are in
        let configured : lookup a cfg.tokens ≡ some b.asset = rw es at b.configured in
        let same : address_of parser cfg a ≡ parser.hex_to_address b.asset.address =
          rw (configured, address_of) refl in
        let home : last_symbol (a ∷ symbols) ≡ a = rw es at b.returns in
        let whole_sum : (b.block + cfg.deadline_seconds) % u64 ≡ b.block + cfg.deadline_seconds =
          omega (arith, fits b.block b.timed) in
        (
          record {
            asset = ok.tokens a b.asset configured;
            amount = loan;
            hop_count = (omega arith, omega arith);
            deadline = rw whole_sum (ground arith);
            min_profit = profit;
            closed = (first ∙ same, last ∙ ap (address_of parser cfg) home ∙ same);
            valid = valid;
            connected = chained;
          },
          are,
        )
