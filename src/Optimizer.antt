-- ===== src/Optimizer.antt =====
-- go/internal/optimizer/optimizer.go: sample sizes of a loan, and the best of their evaluations. The
-- workers run at the same time, so the evaluations arrive in any order; a cancelled context drops some.
pub mod Samples
pub mod Best
mod Tests
use titanarb_engine.Base.{
  ℕ, zero, suc, ◌+◌, ◌-◌, ◌*◌, ◌/◌, ◌≡◌, Bool, true, false, not, ◌&&◌, ◌||◌, Option, none, some,
  List, [], ◌∷◌, Text, bytes, ltb, leb, ◌==◌, if◌then◌else◌,
}
use titanarb_engine.Base.Int.{ℤ, pos, negsuc, ltb_ℤ}
use titanarb_engine.Graph.{GraphRoute}

pub record Evaluation : Type 0 where
  pub amount : ℤ
  pub net_profit : Option ℤ
  pub executable : Bool
  pub reason : Text
  pub price_impact_bps : ℕ

-- A size range, after the test that its ends are set and positive.
pub record SizeRange : Type 0 where
  pub min : ℕ
  pub max : ℕ
  pub samples : ℕ

pub record OptimalLoan : Type 0 where
  pub asset : Text
  pub route : GraphRoute
  pub amount : Option ℤ
  pub net_profit : ℤ
  pub evaluated : ℕ
  pub confidence : Text

-- values[amount.String()] = amount, and the sorting of the values.
pub add_amount : ℕ → List ℕ → List ℕ
add_amount a [] = a ∷ []
add_amount a (x ∷ xs) =
    let rest = add_amount a xs in
    if a == x then x ∷ xs else if ltb a x then a ∷ x ∷ xs else x ∷ rest

abbrev pub sample_count : ℕ → ℕ
sample_count samples = if ltb samples 2 then 2 else samples

abbrev pub sample : SizeRange → ℕ → ℕ
sample r i = (r.max - r.min) * i / (sample_count r.samples - 1) + r.min

-- The first `n` samples.
pub samples_to : SizeRange → ℕ → List ℕ
unfolding add_amount
samples_to r zero = []
samples_to r (suc i) = add_amount (sample r i) (samples_to r i)

pub candidates : SizeRange → List ℕ
unfolding samples_to
candidates r = samples_to r (sample_count r.samples)

-- The guard of Optimize: both ends are set, the lower one is positive and not above the upper one.
unfoldable pub valid_range : Option ℤ → Option ℤ → ℕ → Option SizeRange
valid_range (some (pos low)) (some (pos high)) samples =
    if ltb 0 low && leb low high
    then some (record { min = low; max = high; samples = samples })
    else none
valid_range _ _ samples = none

abbrev take_evaluation : Evaluation → ℤ → OptimalLoan → OptimalLoan
take_evaluation e profit best = record best {
  amount = some e.amount;
  net_profit = profit;
  confidence = bytes "quote_and_fee_screened";
}

abbrev pub is_better : ℤ → OptimalLoan → Bool
is_better profit best = elim best.amount [ none ↦ true | some _ ↦ ltb_ℤ best.net_profit profit ]

-- A result with this profit.
pub score : Evaluation → Option ℤ → OptimalLoan → OptimalLoan
score e none best = record best { evaluated = best.evaluated + 1 }
score e (some profit) best =
    let counted = record best { evaluated = best.evaluated + 1 } in
    if is_better profit best then take_evaluation e profit counted else counted

-- One result; `none` is an error of the evaluator.
pub consider : Option Evaluation → OptimalLoan → OptimalLoan
unfolding score
consider none best = record best { evaluated = best.evaluated + 1 }
consider (some e) best = score e e.net_profit best

pub best_of : List (Option Evaluation) → OptimalLoan → OptimalLoan
unfolding consider
best_of [] best = best
best_of (r ∷ rs) best = best_of rs (consider r best)

abbrev pub no_loan : Text → GraphRoute → OptimalLoan
no_loan asset route = record {
  asset = asset;
  route = route;
  amount = none;
  net_profit = negsuc 0;
  evaluated = 0;
  confidence = [];
}

-- Optimize, for the results in the order of their arrival; whether it returns no error, and the loan.
unfoldable pub optimize :
    Text
    → GraphRoute
    → Option SizeRange
    → (List ℕ → List (Option Evaluation))
    → Option (Bool × OptimalLoan)
unfolding best_of candidates
optimize asset route none arrivals = none
optimize asset route (some r) arrivals =
    let best = best_of (arrivals (candidates r)) (no_loan asset route) in
    some (elim best.amount [ none ↦ (false, best) | some _ ↦ (true, best) ])
