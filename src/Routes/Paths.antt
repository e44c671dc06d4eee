-- ===== src/Routes/Paths.antt =====
-- `permutations` of routes.go: which choices it makes.
use mathlib.Core.List.{append_assoc, append-nil}
use titanarb_engine.Base.{
  ℕ, zero, suc, ◌≡◌, refl, sym, ap, ◌∙◌, ◌≢◌, ◌↔◌, inl, inr, List, [], ◌∷◌, ◌++◌, map, Text, arith,
  length, In, Distinct, In-append, In-append_left, In-append_right, subst,
}
use titanarb_engine.Routes.{picks, each_pick, walk, permutations, sort_texts}
use titanarb_engine.Routes.Symbols.{In-sort_texts, Distinct-sort_texts}

In-map {ℓ κ} :
    {A : Type ℓ} {B : Type κ} (f : A → B) (y : B) (xs : List A)
    → In y (map f xs)
    → (x : A) × In x xs × (y ≡ f x)
In-map f y [] h = elim h [ ]
In-map f y (x ∷ xs) (inl e) = (x, inl refl, e)
In-map f y (x ∷ xs) (inr h) = let (z, k, e) = In-map f y xs h in (z, inr k, e)

In-map_of {ℓ κ} :
    {A : Type ℓ} {B : Type κ} (f : A → B) (x : A) (xs : List A) → In x xs → In (f x) (map f xs)
In-map_of f x [] h = elim h [ ]
In-map_of f x (y ∷ xs) (inl e) = inl (ap f e)
In-map_of f x (y ∷ xs) (inr h) = inr (In-map_of f x xs h)

-- A pick takes one value out.
record IsPick (rem : List Text) (v : Text) (others : List Text) : Type 0 where
  taken : In v rem
  kept : (x : Text) → In x others → In x rem
  distinct : Distinct rem → Distinct (v ∷ others)

IsPick-skip :
    (x : Text) (xs : List Text) (w : Text) (ws : List Text)
    → IsPick xs w ws
    → IsPick (x ∷ xs) w (x ∷ ws)
IsPick-skip x xs w ws p = record {
  taken = inr p.taken;
  kept = λ y h. elim h [ inl e ↦ inl e | inr k ↦ inr (p.kept y k) ];
  distinct = λ (fresh, d).
      let (fresh_w, dw) = p.distinct d in
      (
        λ h. elim h [ inl e ↦ fresh (subst (λ t. In t xs) e p.taken) | inr k ↦ fresh_w k ],
        ((λ k. fresh (p.kept x k)), dw),
      );
}

picks-IsPick :
    (rem : List Text) (v : Text) (others : List Text)
    → In (v, others) (picks rem)
    → IsPick rem v others
unfolding picks
picks-IsPick [] v others h = elim h [ ]
picks-IsPick (x ∷ xs) v others (inl e) =
    subst (λ (t : Text × List Text). IsPick (x ∷ xs) t.0 t.1) (sym e)
      (record { taken = inl refl; kept = λ y k. inr k; distinct = λ d. d })
picks-IsPick (x ∷ xs) v others (inr h) =
    let ((w, ws), k, e) = In-map _ (v, others) (picks xs) h in
    subst (λ (t : Text × List Text). IsPick (x ∷ xs) t.0 t.1) (sym e)
      (IsPick-skip x xs w ws (picks-IsPick xs w ws k))

picks_complete :
    (rem : List Text) (v : Text)
    → In v rem
    → (others : List Text) × In (v, others) (picks rem)
      × ((x : Text) → In x rem → x ≢ v → In x others)
unfolding picks
picks_complete [] v h = elim h [ ]
picks_complete (y ∷ ys) v (inl e) = (
  ys,
  inl (ap (λ t. (t, ys)) e),
  λ x k ne. elim k [ inl same ↦ absurd (ne (same ∙ sym e)) | inr r ↦ r ],
)
picks_complete (y ∷ ys) v (inr h) =
    let (others, k, rest) = picks_complete ys v h in
    (
      y ∷ others,
      inr (In-map_of _ (v, others) (picks ys) k),
      λ x q ne. elim q [ inl same ↦ inl same | inr r ↦ inr (rest x r ne) ],
    )

In-each_pick :
    (f : Text → List Text → List (List Text)) (p : List Text) (ps : List (Text × List Text))
    → In p (each_pick f ps)
    → (v : Text) × (others : List Text) × In (v, others) ps × In p (f v others)
In-each_pick f p [] h = elim h [ ]
In-each_pick f p ((v, others) ∷ rest) h = elim (In-append p (f v others) (each_pick f rest) h) [
  | inl here ↦ (v, others, inl refl, here)
  | inr later ↦ let (w, ws, k, q) = In-each_pick f p rest later in (w, ws, inr k, q)
]

In-each_pick_of :
    (f : Text → List Text → List (List Text)) (p : List Text) (ps : List (Text × List Text))
    (v : Text) (others : List Text)
    → In (v, others) ps
    → In p (f v others)
    → In p (each_pick f ps)
In-each_pick_of f p [] v others k h = elim k [ ]
In-each_pick_of f p ((w, ws) ∷ rest) v others (inl e) h =
    In-append_left p (f w ws) (each_pick f rest)
      (subst (λ (t : Text × List Text). In p (f t.0 t.1)) e h)
In-each_pick_of f p ((w, ws) ∷ rest) v others (inr k) h =
    In-append_right p (f w ws) (each_pick f rest) (In-each_pick_of f p rest v others k h)

-- A choice of `n` distinct values from `rem`.
abbrev pub IsChoice : ℕ → List Text → List Text → Type 0
IsChoice n rem q = (length q ≡ n) × Distinct q × ((x : Text) → In x q → In x rem)

walk-IsChoice :
    (n : ℕ) (path rem p : List Text)
    → Distinct rem
    → In p (walk n path rem)
    → (q : List Text) × (p ≡ path ++ q) × IsChoice n rem q
unfolding walk
walk-IsChoice zero path rem p d (inl e) =
    ([], e ∙ sym (append-nil path), (refl, tt, λ x h. elim h [ ]))
walk-IsChoice zero path rem p d (inr h) = elim h [ ]
walk-IsChoice (suc n) path rem p d h =
    let (v, others, k, inside) = In-each_pick _ p (picks rem) h in
    let pick = picks-IsPick rem v others k in
    let (fresh, dist) = pick.distinct d in
    let (q, e, (len, dq, sub)) = walk-IsChoice n (path ++ v ∷ []) others p dist inside in
    (
      v ∷ q,
      e ∙ append_assoc path (v ∷ []) q,
      (
        ap suc len,
        ((λ hv. fresh (sub v hv)), dq),
        λ x hx. elim hx [
          | inl same ↦ subst (λ t. In t rem) (sym same) pick.taken
          | inr r ↦ pick.kept x (sub x r)
        ],
      ),
    )

walk_complete :
    (n : ℕ) (path rem q : List Text) → IsChoice n rem q → In (path ++ q) (walk n path rem)
unfolding walk
walk_complete zero path rem [] c = inl (append-nil path)
walk_complete zero path rem (x ∷ q) (len, _, _) = absurd (omega (arith, len))
walk_complete (suc n) path rem [] (len, _, _) = absurd (omega (arith, len))
walk_complete (suc n) path rem (v ∷ q) (len, (fresh, dq), sub) =
    let (others, k, rest) = picks_complete rem v (sub v (inl refl)) in
    let ih = walk_complete n (path ++ v ∷ []) others q (
      omega (arith, len),
      dq,
      λ x h. rest x (sub x (inr h)) (λ e. fresh (subst (λ t. In t q) e h)),
    ) in
    In-each_pick_of _ (path ++ v ∷ q) (picks rem) v others k
      (subst (λ t. In t (walk n (path ++ v ∷ []) others)) (append_assoc path (v ∷ []) q) ih)

-- The permutations of distinct values are exactly the choices of `n` different ones among them, in
-- any order.
pub permutations_lem :
    (values : List Text) (n : ℕ) (p : List Text)
    → Distinct values
    → In p (permutations values n) ↔ IsChoice n values p
unfolding permutations
permutations_lem values n p d = (
  λ h.
      let (q, e, (len, dq, sub)) =
        walk-IsChoice n [] (sort_texts values) p (Distinct-sort_texts values d) h in
      rw e (len, dq, λ x k. (In-sort_texts x values).0 (sub x k)),
  λ (len, dq, sub).
      walk_complete n [] (sort_texts values) p
        (len, dq, λ x k. (In-sort_texts x values).1 (sub x k)),
)
