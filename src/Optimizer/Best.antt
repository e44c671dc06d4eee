-- ===== src/Optimizer/Best.antt =====
-- The choice of the best evaluation (Optimize of optimizer.go).
use titanarb_engine.Base.{
  ◌≡◌, refl, sym, ap, ◌∙◌, ◌⊎◌, inl, inr, Option, none, some, List, [], ◌∷◌, Text, arith, In,
  Bool-cases, Option-cases, subst,
}
use titanarb_engine.Base.Int.{ℤ, ◌≤ℤ◌}
use titanarb_engine.Graph.{GraphRoute}
use titanarb_engine.Optimizer.{
  Evaluation, OptimalLoan, score, consider, best_of, no_loan, is_better,
}

-- An evaluation among the results that has a profit.
abbrev pub Scored : List (Option Evaluation) → Evaluation → ℤ → Type 0
Scored rs e profit = In (some e) rs × (e.net_profit ≡ some profit)

-- What one result does to the best so far.
record IsStep (r : Option Evaluation) (old new : OptimalLoan) : Type 0 where
  covers :
      (e : Evaluation) (q : ℤ)
      → r ≡ some e
      → e.net_profit ≡ some q
      → (q ≤ℤ new.net_profit) × ((a : ℤ) × (new.amount ≡ some a))
  keeps :
      (a : ℤ)
      → old.amount ≡ some a
      → (old.net_profit ≤ℤ new.net_profit) × ((b : ℤ) × (new.amount ≡ some b))
  origin :
      ((new.amount ≡ old.amount) × (new.net_profit ≡ old.net_profit))
      ⊎ ((e : Evaluation) × (r ≡ some e)
          × (new.amount ≡ some e.amount)
          × (e.net_profit ≡ some new.net_profit))

same :
    (e x : Evaluation) (a q : ℤ)
    → some e ≡ some x
    → e.net_profit ≡ some a
    → x.net_profit ≡ some q
    → a ≡ q
same e x a q s h k = cc

at_most : {q : ℤ} (a b : ℤ) → a ≡ q → a ≤ℤ b → q ≤ℤ b
at_most a b e h = subst (λ t. t ≤ℤ b) e h

score-IsStep :
    (e : Evaluation) (profit : Option ℤ) (old : OptimalLoan)
    → e.net_profit ≡ profit
    → IsStep (some e) old (score e profit old)
unfolding score
score-IsStep e none old unscored = record {
  covers = λ x q s p. absurd (unscored_no e x q s unscored p);
  keeps = λ a s. (omega arith, (a, s));
  origin = inl (refl, refl);
}
  where
    unscored_no :
        (e x : Evaluation) (q : ℤ)
        → some e ≡ some x
        → e.net_profit ≡ none
        → x.net_profit ≡ some q
        → ⊥
    unscored_no e x q s h k = cc
score-IsStep e (some profit) old scored = elim (Bool-cases (is_better profit old)) [
  | inl better ↦
      rw (better, score)
        (record {
          covers = λ x q s p. (
            at_most profit profit (same e x profit q s scored p) (omega arith),
            (e.amount, refl),
          );
          keeps = λ a s. ((let b = rw s at better in ground arith), (e.amount, refl));
          origin = inr (e, refl, refl, scored);
        })
  | inr worse ↦ elim (Option-cases old.amount) [
    | inl missing ↦ absurd (let w = rw missing at worse in ground arith)
    | inr (a, present) ↦
        rw (worse, score)
          (record {
            covers = λ x q s p. (
              at_most profit old.net_profit (same e x profit q s scored p)
                  (let w = rw present at worse in ground arith),
              (a, present),
            );
            keeps = λ b s. (omega arith, (b, s));
            origin = inl (refl, refl);
          })
  ]
]

consider-IsStep : (r : Option Evaluation) (old : OptimalLoan) → IsStep r old (consider r old)
unfolding consider
consider-IsStep none old = record {
  covers = λ e q s p. absurd (ground arith);
  keeps = λ a s. (omega arith, (a, s));
  origin = inl (refl, refl);
}
consider-IsStep (some e) old = score-IsStep e e.net_profit old refl

best_of-IsStep :
    (rs : List (Option Evaluation)) (old : OptimalLoan)
    → ((e : Evaluation) (q : ℤ)
        → Scored rs e q
        → (q ≤ℤ (best_of rs old).net_profit) × ((a : ℤ) × ((best_of rs old).amount ≡ some a)))
      × ((a : ℤ)
          → old.amount ≡ some a
          → (old.net_profit ≤ℤ (best_of rs old).net_profit)
            × ((b : ℤ) × ((best_of rs old).amount ≡ some b)))
      × (((best_of rs old).amount ≡ old.amount) × ((best_of rs old).net_profit ≡ old.net_profit)
          ⊎ ((e : Evaluation) × Scored rs e (best_of rs old).net_profit
              × ((best_of rs old).amount ≡ some e.amount)))
unfolding best_of
best_of-IsStep [] old = (λ e q s. elim s.0 [ ], λ a s. (omega arith, (a, s)), inl (refl, refl))
best_of-IsStep (r ∷ rs) old =
    let step = consider-IsStep r old in
    let mid = consider r old in
    let (covers, keeps, origin) = best_of-IsStep rs mid in
    (
      λ e q s. elim s.0 [
        | inl here ↦
            let (low, (a, set)) = step.covers e q (sym here) s.1 in
            let (high, kept) = keeps a set in (omega (arith, low, high), kept)
        | inr later ↦ covers e q (later, s.1)
      ],
      λ a s.
          let (low, (b, set)) = step.keeps a s in
          let (high, kept) = keeps b set in (omega (arith, low, high), kept),
      elim origin [
        | inr (e, s, amount) ↦ inr (e, (inr s.0, s.1), amount)
        | inl (amount, profit) ↦ elim step.origin [
          | inl (old_amount, old_profit) ↦ inl (amount ∙ old_amount, profit ∙ old_profit)
          | inr (e, here, taken, scored) ↦
              inr (e, (inl (sym here), scored ∙ ap some (sym profit)), amount ∙ taken)
        ]
      ],
    )

-- Whatever the order in which the results arrive, the chosen loan is one of the evaluated sizes, and
-- its net profit is at least that of every other one that has a profit; there is no loan only if no
-- result has one.
pub best_of_lem :
    (asset : Text) (route : GraphRoute) (rs : List (Option Evaluation))
    → ((e : Evaluation) (q : ℤ)
        → Scored rs e q
        → (q ≤ℤ (best_of rs (no_loan asset route)).net_profit)
          × ((a : ℤ) × ((best_of rs (no_loan asset route)).amount ≡ some a)))
      × (((best_of rs (no_loan asset route)).amount ≡ none)
          ⊎ ((e : Evaluation) × Scored rs e (best_of rs (no_loan asset route)).net_profit
              × ((best_of rs (no_loan asset route)).amount ≡ some e.amount)))
best_of_lem asset route rs =
    let (covers, _, origin) = best_of-IsStep rs (no_loan asset route) in
    (covers, elim origin [ inl (nothing, _) ↦ inl nothing | inr found ↦ inr found ])
