-- ===== src/Execution/Requests.antt =====
-- The steps of the requests built from opportunities (BuildRequest of pipeline.go).
pub mod Whole
use titanarb_engine.Base.{
  ℕ, zero, suc, ◌+◌, ◌-◌, ◌*◌, ◌/◌, ◌%◌, ◌≤◌, ◌<◌, ◌≡◌, ◌≢◌, ◌⊎◌, ◌↔◌, refl, sym, ap, ◌∙◌, inl, inr,
  Bool, true, false, not, ◌||◌, subst, inr-inj, sum_cases, Option, none, some, List, [], ◌∷◌, Text,
  arith, length, All, Bool-cases, Option-cases, text_eq, text_eq_iff, u64, ltb, ◌==◌,
}
use titanarb_engine.Base.Int.{ℤ, pos, negsuc, ◌*ℤ◌, pos-mul}
use titanarb_engine.Base.Dict.{lookup}
use titanarb_engine.Pools.{positive, is_positive, camelot_v3}
use titanarb_engine.Opportunity.{Hop, Opportunity}
use titanarb_engine.Execution.{Address, SwapStep, Request, first_in, last_out, encode_uniswap_fee}
use titanarb_engine.Execution.Validation.{IsValidStep, IsConnected, IsExecutable}
use titanarb_engine.Execution.Build.{
  Token, Config, AddressParser, BuildError, token_of, adapter_of, minimum_out, div_floor,
  build_step, build_steps, build_request, first_symbol, last_symbol, latest_timestamp, cons_step,
  kept_bps, fee_out_of_range, invalid_address, zero_minimum, invalid_opportunity,
  asset_not_configured, does_not_return, no_timestamp,
}

-- No configured address is the zero address, and the empty text is no address.
pub record IsConfigured (parser : AddressParser) (cfg : Config) : Type 0 where
  pub empty : parser.is_hex_address [] ≡ false
  pub uniswap : parser.hex_to_address cfg.uniswap_v3_adapter ≢ 0
  pub camelot : parser.hex_to_address cfg.camelot_v3_adapter ≢ 0
  pub tokens :
      (symbol : Text) (t : Token)
      → lookup symbol cfg.tokens ≡ some t
      → parser.hex_to_address t.address ≢ 0

not_positive : (n k : ℕ) → positive (div_floor (negsuc n *ℤ pos k) 10000) ≡ true → ⊥
unfolding ◌*ℤ◌
not_positive n k h = ground arith

-- A product of signed numbers, divided and rounded down, is positive only if the first one is.
minimum_of :
    (cfg : Config)
    → cfg.slippage_bps ≤ 10000
    → (z : ℤ) → positive (div_floor (z *ℤ pos (kept_bps cfg)) 10000) ≡ true
    → (n : ℕ) × (m : ℕ) × (z ≡ pos n)
      × (div_floor (z *ℤ pos (kept_bps cfg)) 10000 ≡ pos m)
      × (10000 * m ≤ n * (10000 - cfg.slippage_bps))
      × (n * (10000 - cfg.slippage_bps) < 10000 * (m + 1))
minimum_of cfg mild (pos n) h =
    let kept : kept_bps cfg ≡ 10000 - cfg.slippage_bps = omega arith in
    let k = 10000 - cfg.slippage_bps in
    (n, n * k / 10000, refl, rw (kept, pos-mul n k) refl, omega arith, omega arith)
minimum_of cfg mild (negsuc n) h = absurd (not_positive n (kept_bps cfg) h)

module _ (parser : AddressParser) (cfg : Config) where
  abbrev pub address_of : Text → Address
  address_of symbol = parser.hex_to_address (token_of cfg symbol).address

  -- A step trades its two symbols for at least the quoted output less the slippage, rounded down.
  pub record IsStepOf (a b : Text) (hop : Hop) (s : SwapStep) : Type 0 where
    pub adapter : s.adapter ≡ parser.hex_to_address (adapter_of cfg hop).0
    pub token_in : s.token_in ≡ address_of a
    pub token_out : s.token_out ≡ address_of b
    pub quoted : ℕ
    pub output : hop.amount_out ≡ pos quoted
    pub floor : ℕ
    pub minimum : s.amount_out_minimum ≡ some (pos floor)
    pub allowed : 10000 * floor ≤ quoted * (10000 - cfg.slippage_bps)
    pub tight : quoted * (10000 - cfg.slippage_bps) < 10000 * (floor + 1)

  -- The steps of the hops, one for each.
  abbrev pub AreStepsOf : List Text → List Hop → List SwapStep → Type 0
  AreStepsOf (a ∷ b ∷ symbols) (hop ∷ hops) (s ∷ ss) =
      IsStepOf a b hop s × AreStepsOf (b ∷ symbols) hops ss
  AreStepsOf (a ∷ []) [] [] = Unit
  AreStepsOf _ _ _ = ⊥

  module _ (ok : IsConfigured parser cfg) (mild : cfg.slippage_bps ≤ 10000) where
    address_of-nonzero :
        (symbol : Text)
        → parser.is_hex_address (token_of cfg symbol).address ≡ true
        → address_of symbol ≢ 0
    address_of-nonzero symbol h = elim (Option-cases (lookup symbol cfg.tokens)) [
      | inl missing ↦ let h' = rw missing at h in absurd (ground (arith, ok.empty))
      | inr (t, e) ↦ rw (e, address_of) (ok.tokens symbol t e)
    ]

    adapter_of-nonzero : (hop : Hop) → parser.hex_to_address (adapter_of cfg hop).0 ≢ 0
    adapter_of-nonzero hop = elim (Bool-cases (text_eq hop.pool.dex camelot_v3)) [
      | inl c ↦ rw c ok.camelot
      | inr u ↦ rw u ok.uniswap
    ]

    -- The minimum of a step, which is positive.
    step_of :
        (a b : Text) (hop : Hop) (s : SwapStep)
        → s.adapter ≡ parser.hex_to_address (adapter_of cfg hop).0
        → s.token_in ≡ address_of a
        → s.token_out ≡ address_of b
        → s.amount_out_minimum ≡ some (minimum_out cfg hop)
        → positive (minimum_out cfg hop) ≡ true
        → IsStepOf a b hop s
    step_of a b hop s ad ti to mi high =
        let (n, m, output, floor, allowed, tight) = minimum_of cfg mild hop.amount_out high in
        record {
          adapter = ad;
          token_in = ti;
          token_out = to;
          quoted = n;
          output = output;
          floor = m;
          minimum = mi ∙ ap some floor;
          allowed = allowed;
          tight = tight;
        }

    build_step_lem :
        (i : ℕ) (a b : Text) (hop : Hop) (s : SwapStep)
        → build_step parser cfg i a b hop ≡ inr s
        → IsValidStep s × IsStepOf a b hop s
    unfolding build_step
    build_step_lem i a b hop s e =
        let bad =
          not (parser.is_hex_address (adapter_of cfg hop).0)
          || not (parser.is_hex_address (token_of cfg a).address)
          || not (parser.is_hex_address (token_of cfg b).address) in
        elim (Option-cases (adapter_of cfg hop).1) [
          | inl lost ↦ let e' = rw (lost, build_step) at e in absurd (ground arith)
          | inr (payload, got) ↦ elim (Bool-cases bad) [
            | inl wrong ↦ let e' = rw (got, wrong, build_step) at e in absurd (ground arith)
            | inr right ↦ elim (Bool-cases (positive (minimum_out cfg hop))) [
              | inr low ↦ let e' = rw (got, right, low, build_step) at e in absurd (ground arith)
              | inl high ↦
                  let e' = rw (got, right, high, build_step) at e in
                  let in_ok : parser.is_hex_address (token_of cfg a).address ≡ true =
                    ground arith in
                  let out_ok : parser.is_hex_address (token_of cfg b).address ≡ true =
                    ground arith in
                  subst (λ t. IsValidStep t × IsStepOf a b hop t) (inr-inj e')
                    (
                      record {
                        adapter = adapter_of-nonzero hop;
                        token_in = address_of-nonzero a in_ok;
                        token_out = address_of-nonzero b out_ok;
                        minimum = high;
                      },
                      step_of a b hop _ refl refl refl refl high,
                    )
            ]
          ]
        ]

    build_steps-cons :
        (i : ℕ) (a b : Text) (symbols : List Text) (hop : Hop) (hops : List Hop)
        (steps : List SwapStep)
        → build_steps parser cfg i (a ∷ b ∷ symbols) (hop ∷ hops) ≡ inr steps
        → (s : SwapStep) × (ss : List SwapStep) × (build_step parser cfg i a b hop ≡ inr s)
          × (build_steps parser cfg (suc i) (b ∷ symbols) hops ≡ inr ss)
          × (steps ≡ s ∷ ss)
    unfolding build_steps
    build_steps-cons i a b symbols hop hops steps e =
        elim (sum_cases (build_step parser cfg i a b hop)) [
          | inl (x, lost) ↦ let e' = rw (lost, build_steps) at e in absurd (ground arith)
          | inr (s, got) ↦ elim (sum_cases (build_steps parser cfg (suc i) (b ∷ symbols) hops)) [
            | inl (x, lost) ↦ let e' = rw (got, lost, build_steps) at e in absurd (ground arith)
            | inr (ss, more) ↦
                let e' = rw (got, more, build_steps) at e in (s, ss, got, more, sym (inr-inj e'))
          ]
        ]

    pub build_steps_lem :
        (i : ℕ) (a : Text) (symbols : List Text) (hops : List Hop) (steps : List SwapStep)
        → length symbols ≡ length hops
        → build_steps parser cfg i (a ∷ symbols) hops ≡ inr steps
        → All IsValidStep steps
          × AreStepsOf (a ∷ symbols) hops steps
          × IsConnected (some (address_of a)) steps
    unfolding build_steps
    build_steps_lem i a [] [] steps len e =
        subst
          (λ t. All IsValidStep t × AreStepsOf (a ∷ []) [] t × IsConnected (some (address_of a)) t)
          (inr-inj e) (tt, tt, tt)
    build_steps_lem i a [] (hop ∷ hops) steps len e = absurd (omega arith)
    build_steps_lem i a (b ∷ symbols) [] steps len e = absurd (omega arith)
    build_steps_lem i a (b ∷ symbols) (hop ∷ hops) steps len e =
        let (s, ss, first, more, same) = build_steps-cons i a b symbols hop hops steps e in
        let (valid, step) = build_step_lem i a b hop s first in
        let (all, are, connected) = build_steps_lem (suc i) b symbols hops ss (omega arith) more in
        subst
          (λ t.
            All IsValidStep t
            × AreStepsOf (a ∷ b ∷ symbols) (hop ∷ hops) t
            × IsConnected (some (address_of a)) t)
          (sym same) ((valid, all), (step, are), (step.token_in, rw step.token_out connected))
