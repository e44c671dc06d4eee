-- ===== src/Optimizer/Tests.antt =====
-- Sizes and evaluations of one route.
use titanarb_engine.Base.{ℕ, ◌≡◌, ◌⊎◌, refl, false, Option, none, some, List, [], ◌∷◌, bytes}
use titanarb_engine.Base.Int.{ℤ, pos, negsuc, ◌≤ℤ◌}
use titanarb_engine.Graph.{GraphRoute}
use titanarb_engine.Optimizer.{Evaluation, SizeRange, candidates, best_of, no_loan}
use titanarb_engine.Optimizer.Best.{Scored, best_of_lem}

abbrev sizes : SizeRange
sizes = record { min = 10; max = 21; samples = 4 }

candidates_run : candidates sizes ≡ 10 ∷ 13 ∷ 17 ∷ 21 ∷ []
unfolding candidates
candidates_run = refl

abbrev loss : ℕ → ℕ → Evaluation
loss amount n = record {
  amount = pos amount;
  net_profit = some (negsuc n);
  executable = false;
  reason = bytes "fees";
  price_impact_bps = 3;
}

abbrev route : GraphRoute
route = record { assets = []; hops = [] }

abbrev results : List (Option Evaluation)
results = some (loss 10 8) ∷ none ∷ some (loss 13 4) ∷ some (loss 17 6) ∷ []

-- A size is chosen although every one loses and none is executable.
loss_chosen : (best_of results (no_loan (bytes "A") route)).amount ≡ some (pos 13)
unfolding best_of
loss_chosen = refl

best_of_lem_example :
    ((e : Evaluation) (q : ℤ)
      → Scored results e q
      → (q ≤ℤ (best_of results (no_loan (bytes "A") route)).net_profit)
        × ((a : ℤ) × ((best_of results (no_loan (bytes "A") route)).amount ≡ some a)))
    × (((best_of results (no_loan (bytes "A") route)).amount ≡ none)
        ⊎ ((e : Evaluation) × Scored results e
              (best_of results (no_loan (bytes "A") route)).net_profit
            × ((best_of results (no_loan (bytes "A") route)).amount ≡ some e.amount)))
best_of_lem_example = best_of_lem (bytes "A") route results
