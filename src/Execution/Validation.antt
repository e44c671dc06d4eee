-- ===== src/Execution/Validation.antt =====
-- Which requests the validation lets through (builder.go), and which candidates are fresh (pipeline.go).
use titanarb_engine.Base.{
  ℕ, suc, ◌+◌, ◌≤◌, ◌≡◌, ◌≢◌, ◌⊎◌, ◌↔◌, refl, inl, inr, Bool, true, not, Option, none, some, List,
  [], ◌∷◌, arith, length, All, Bool-cases, ==_iff, ◌==◌, ◌&&◌, ◌||◌, ltb,
}
use titanarb_engine.Pools.{is_positive}
use titanarb_engine.Execution.{
  Address, SwapStep, Request, validate, check_steps, is_valid_step, continues, first_in, last_out,
  candidate_is_fresh,
}

-- A step with an adapter, two tokens and a positive minimum.
pub record IsValidStep (s : SwapStep) : Type 0 where
  pub adapter : s.adapter ≢ 0
  pub token_in : s.token_in ≢ 0
  pub token_out : s.token_out ≢ 0
  pub minimum : is_positive s.amount_out_minimum ≡ true

-- Each step takes the token that the step before gives; before the first comes `previous`, if any.
abbrev pub IsConnected : Option Address → List SwapStep → Type 0
IsConnected previous [] = Unit
IsConnected none (s ∷ ss) = IsConnected (some s.token_out) ss
IsConnected (some out) (s ∷ ss) = (s.token_in ≡ out) × IsConnected (some s.token_out) ss

-- A closed chain of 2 to 4 valid swaps of a positive loan.
pub record IsExecutable (r : Request) : Type 0 where
  pub asset : r.asset ≢ 0
  pub amount : is_positive r.amount ≡ true
  pub hop_count : (2 ≤ length r.steps) × (length r.steps ≤ 4)
  pub deadline : is_positive r.deadline ≡ true
  pub min_profit : is_positive r.min_profit ≡ true
  pub closed : (first_in r.steps ≡ r.asset) × (last_out r.steps ≡ r.asset)
  pub valid : All IsValidStep r.steps
  pub connected : IsConnected none r.steps

is_valid_step_iff : (s : SwapStep) → (is_valid_step s ≡ true) ↔ IsValidStep s
is_valid_step_iff s = (
  λ h. record {
    adapter = λ e. ground arith;
    token_in = λ e. ground arith;
    token_out = λ e. ground arith;
    minimum = ground arith;
  },
  λ v. ground (arith, v.adapter, v.token_in, v.token_out, v.minimum),
)

check_steps-cons :
    (i : ℕ) (previous : Option Address) (s : SwapStep) (ss : List SwapStep)
    → (check_steps i previous (s ∷ ss) ≡ none) ↔ (
        (is_valid_step s ≡ true)
        × (continues previous s ≡ true)
        × (check_steps (suc i) (some s.token_out) ss ≡ none))
unfolding check_steps
check_steps-cons i previous s ss = elim (Bool-cases (is_valid_step s)) [
  | inr bad ↦ rw (bad, check_steps) (ground arith)
  | inl valid ↦ elim (Bool-cases (continues previous s)) [
    | inr broken ↦ rw (valid, broken, check_steps) (ground arith)
    | inl joined ↦ rw (valid, joined, check_steps) (ground arith)
  ]
]

IsConnected-cons :
    (previous : Option Address) (s : SwapStep) (ss : List SwapStep)
    → ((continues previous s ≡ true) × IsConnected (some s.token_out) ss)
      ↔ IsConnected previous (s ∷ ss)
IsConnected-cons none s ss = ((λ h. h.1), λ h. (refl, h))
IsConnected-cons (some out) s ss =
    let (to, from) = ==_iff s.token_in out in ((λ h. (to h.0, h.1)), λ h. (from h.0, h.1))

check_steps_iff :
    (i : ℕ) (previous : Option Address) (ss : List SwapStep)
    → (check_steps i previous ss ≡ none) ↔ (All IsValidStep ss × IsConnected previous ss)
unfolding check_steps
check_steps_iff i previous [] = (λ e. (tt, tt), λ h. refl)
check_steps_iff i previous (s ∷ ss) =
    let (split, join) = check_steps-cons i previous s ss in
    let (to, from) = check_steps_iff (suc i) (some s.token_out) ss in
    let (valid, is_valid) = is_valid_step_iff s in
    let (link, unlink) = IsConnected-cons previous s ss in
    (
      λ e.
          let (v, c, rest) = split e in
          let (all, linked) = to rest in ((valid v, all), link (c, linked)),
      λ h. let (c, linked) = unlink h.1 in join (is_valid h.0.0, c, from (h.0.1, linked)),
    )

-- The tests before the loop.
abbrev passes_head : Request → Bool
passes_head r =
    not (r.asset == 0 || not (is_positive r.amount))
    && not (ltb (length r.steps) 2 || ltb 4 (length r.steps))
    && not (not (is_positive r.deadline) || not (is_positive r.min_profit))
    && not (not (first_in r.steps == r.asset) || not (last_out r.steps == r.asset))

validate-head :
    (r : Request)
    → (validate r ≡ none) ↔ ((passes_head r ≡ true) × (check_steps 0 none r.steps ≡ none))
unfolding validate
validate-head r = ground arith

-- The validation accepts exactly the closed chains of 2 to 4 valid swaps of a positive loan, with a
-- positive deadline and a positive minimum profit.
pub validate_iff : (r : Request) → (validate r ≡ none) ↔ IsExecutable r
validate_iff r =
    let (split, join) = validate-head r in
    let (to, from) = check_steps_iff 0 none r.steps in
    (
      λ e.
          let (h, steps) = split e in
          let (valid, connected) = to steps in
          record {
            asset = λ z. ground arith;
            amount = ground arith;
            hop_count = (ground arith, ground arith);
            deadline = ground arith;
            min_profit = ground arith;
            closed = (ground arith, ground arith);
            valid = valid;
            connected = connected;
          },
      λ x. join (
        ground (
          arith, x.asset, x.amount, x.hop_count, x.deadline, x.min_profit, x.closed.0, x.closed.1,
        ),
        from (x.valid, x.connected),
      ),
    )

-- A candidate is fresh when its block is not known, or when the latest observed block is at most the
-- allowed number of blocks ahead of it.
pub candidate_is_fresh_iff :
    (source observed staleness : ℕ)
    → (candidate_is_fresh source observed staleness ≡ true)
      ↔ ((source ≡ 0) ⊎ (observed ≤ source + staleness))
unfolding candidate_is_fresh
candidate_is_fresh_iff source observed staleness = ground arith
