-- ===== src/Graph/Cycles.antt =====
-- What the enumerated cycles of the graph are (CyclesFrom of graph.go).
use titanarb_engine.Base.{
  ℕ, zero, suc, ◌+◌, ◌≤◌, ◌≡◌, refl, sym, ap, subst, inl, inr, false, ◌||◌, List, [], ◌∷◌, ◌++◌,
  Text, arith, length, length-append, ltb, leb, In, In-append, Distinct, All, All-append,
  Bool-cases, Option-cases, text_eq, text_eq_iff, text_mem, text_mem_iff, to_lower, Bool-ne,
}
use titanarb_engine.Base.Dict.{lookup}
use titanarb_engine.Pools.{Pool}
use titanarb_engine.Graph.{
  Edge, Graph, GraphRoute, Trail, edges_of, each_edge, extend, visit, walk_graph, first_trail,
  cycles_from,
}

-- The key under which a pool counts as visited.
abbrev pub keys : List Pool → List Text
keys [] = []
keys (p ∷ ps) = to_lower p.address ∷ keys ps

keys-append : (ps qs : List Pool) → keys (ps ++ qs) ≡ keys ps ++ keys qs
keys-append [] qs = refl
keys-append (p ∷ ps) qs = ap (◌∷◌ (to_lower p.address)) (keys-append ps qs)

module _ {F : Type 0} (edges : List (Text × List (Edge F))) where
  -- An edge of the graph between two assets, over the pool.
  abbrev pub HasEdge : Text → Text → Pool → Type 0
  HasEdge a b p = (e : Edge F) × In e (edges_of a edges) × (e.to ≡ b) × (e.pool ≡ p)

  -- Each hop is an edge between the consecutive assets.
  abbrev pub Linked : List Text → List Pool → Type 0
  Linked [] hops = ⊥
  Linked (a ∷ []) [] = Unit
  Linked (a ∷ []) (p ∷ ps) = ⊥
  Linked (a ∷ b ∷ s) [] = ⊥
  Linked (a ∷ b ∷ s) (p ∷ ps) = HasEdge a b p × Linked (b ∷ s) ps

  Linked-snoc :
      (xs : List Text) (c d : Text) (hs : List Pool) (p : Pool)
      → Linked (xs ++ c ∷ []) hs
      → HasEdge c d p
      → Linked ((xs ++ c ∷ []) ++ d ∷ []) (hs ++ p ∷ [])
  Linked-snoc [] c d [] p l h = (h, tt)
  Linked-snoc [] c d (q ∷ hs) p l h = elim l [ ]
  Linked-snoc (x ∷ []) c d [] p l h = elim l [ ]
  Linked-snoc (x ∷ []) c d (q ∷ hs) p l h = (l.0, Linked-snoc [] c d hs p l.1 h)
  Linked-snoc (x ∷ y ∷ xs) c d [] p l h = elim l [ ]
  Linked-snoc (x ∷ y ∷ xs) c d (q ∷ hs) p l h = (l.0, Linked-snoc (y ∷ xs) c d hs p l.1 h)

  -- A cycle of 2 hops at least from an asset through different others, over different pools.
  pub record IsSimpleCycle (asset : Text) (max_hops : ℕ) (r : GraphRoute) : Type 0 where
    pub middle : List Text
    pub closed : r.assets ≡ asset ∷ (middle ++ asset ∷ [])
    pub hop_bounds : (2 ≤ length r.hops) × (length r.hops ≤ max_hops)
    pub distinct : Distinct (asset ∷ middle)
    pub distinct_pools : Distinct (keys r.hops)
    pub linked : Linked r.assets r.hops

  record IsTrail (asset current : Text) (t : Trail) : Type 0 where
    middle : List Text
    starts : t.assets ≡ asset ∷ middle
    before : List Text
    ends : t.assets ≡ before ++ current ∷ []
    distinct : Distinct t.assets
    seen : (x : Text) → In x t.assets → In x t.visited_assets
    distinct_pools : Distinct (keys t.hops)
    seen_pools : (k : Text) → In k (keys t.hops) → In k t.visited_pools
    linked : Linked t.assets t.hops

Distinct-snoc {ℓ} :
    {A : Type ℓ} (xs : List A) (y : A) → Distinct xs → (In y xs → ⊥) → Distinct (xs ++ y ∷ [])
Distinct-snoc [] y d fresh = ((λ h. elim h [ ]), tt)
Distinct-snoc (x ∷ xs) y (other, d) fresh = (
  λ h. elim (In-append x xs (y ∷ []) h) [
    | inl inside ↦ other inside
    | inr last ↦ elim last [ inl e ↦ fresh (inl (sym e)) | inr i ↦ elim i [ ] ]
  ],
  Distinct-snoc xs y d (λ i. fresh (inr i)),
)

In-snoc {ℓ} :
    {A : Type ℓ} (xs vs : List A) (y x : A)
    → ((z : A) → In z xs → In z vs)
    → In x (xs ++ y ∷ [])
    → In x (y ∷ vs)
In-snoc xs vs y x sub h = elim (In-append x xs (y ∷ []) h) [
  | inl inside ↦ inr (sub x inside)
  | inr last ↦ elim last [ inl e ↦ inl e | inr i ↦ elim i [ ] ]
]

not-text_mem : (a : Text) (xs : List Text) → text_mem a xs ≡ false → In a xs → ⊥
not-text_mem a xs e i = Bool-ne ((text_mem_iff a xs).1 i) e

module _ {F : Type 0} (edges : List (Text × List (Edge F))) (asset : Text)
    (limit max_hops : ℕ) where
  module _ (current : Text) (t : Trail) (ok : IsTrail edges asset current t) (e : Edge F)
      (edge : In e (edges_of current edges))
      (fresh_pool : text_mem (to_lower e.pool.address) t.visited_pools ≡ false) where
    longer : Linked edges (t.assets ++ e.to ∷ []) (t.hops ++ e.pool ∷ [])
    longer =
        subst (λ xs. Linked edges (xs ++ e.to ∷ []) (t.hops ++ e.pool ∷ [])) (sym ok.ends)
          (Linked-snoc edges ok.before current e.to t.hops e.pool
            (subst (λ xs. Linked edges xs t.hops) ok.ends ok.linked) (e, edge, refl, refl))

    fresh_keys : Distinct (keys (t.hops ++ e.pool ∷ []))
    fresh_keys = subst Distinct (sym (keys-append t.hops (e.pool ∷ []))) (
        Distinct-snoc (keys t.hops) (to_lower e.pool.address) ok.distinct_pools
          (λ i. not-text_mem _ t.visited_pools fresh_pool (ok.seen_pools _ i)))

    extend-IsTrail : text_mem e.to t.visited_assets ≡ false → IsTrail edges asset e.to (extend t e)
    extend-IsTrail fresh = record {
      middle = ok.middle ++ e.to ∷ [];
      starts = ap (λ xs. xs ++ e.to ∷ []) ok.starts;
      before = t.assets;
      ends = refl;
      distinct =
          Distinct-snoc t.assets e.to ok.distinct
            (λ i. not-text_mem e.to t.visited_assets fresh (ok.seen e.to i));
      seen = λ x h. In-snoc t.assets t.visited_assets e.to x ok.seen h;
      distinct_pools = fresh_keys;
      seen_pools = λ k h.
          In-snoc (keys t.hops) t.visited_pools (to_lower e.pool.address) k ok.seen_pools
            (subst (In k) (keys-append t.hops (e.pool ∷ [])) h);
      linked = longer;
    }

    closed-IsSimpleCycle :
        e.to ≡ asset
        → 2 ≤ length t.hops + 1
        → length t.hops + 1 ≤ max_hops
        → IsSimpleCycle edges asset max_hops
            (record { assets = t.assets ++ asset ∷ []; hops = t.hops ++ e.pool ∷ [] })
    closed-IsSimpleCycle home two few =
        let size = length-append t.hops (e.pool ∷ []) in
        record {
          middle = ok.middle;
          closed = ap (λ xs. xs ++ asset ∷ []) ok.starts;
          hop_bounds = (omega (arith, size), omega (arith, size));
          distinct = subst Distinct ok.starts ok.distinct;
          distinct_pools = fresh_keys;
          linked =
              subst (λ a. Linked edges (t.assets ++ a ∷ []) (t.hops ++ e.pool ∷ [])) home longer;
        }

  Cycles : List GraphRoute → Type 0
  Cycles = All (IsSimpleCycle edges asset max_hops)

  each_edge-All :
      (f : Edge F → List GraphRoute → List GraphRoute) (es : List (Edge F))
      → ((e : Edge F) (r : List GraphRoute) → In e es → Cycles r → Cycles (f e r))
      → (r : List GraphRoute) → Cycles r
      → Cycles (each_edge f es r)
  each_edge-All f [] keep r h = h
  each_edge-All f (e ∷ es) keep r h =
      each_edge-All f es (λ x q i. keep x q (inr i)) (f e r) (keep e r (inl refl) h)

  visit-All :
      (deeper : Text → Trail → List GraphRoute → List GraphRoute) (current : Text) (t : Trail)
      (e : Edge F)
      → IsTrail edges asset current t
      → length t.hops + 1 ≤ max_hops
      → In e (edges_of current edges)
      → (IsTrail edges asset e.to (extend t e)
          → (r : List GraphRoute) → Cycles r
          → Cycles (deeper e.to (extend t e) r))
      → (r : List GraphRoute) → Cycles r
      → Cycles (visit deeper asset t e r)
  unfolding Cycles
  visit-All deeper current t e ok few edge deep r h =
      elim (Bool-cases (text_mem (to_lower e.pool.address) t.visited_pools)) [
        | inl seen ↦ rw (seen, visit) h
        | inr fresh ↦ elim (Bool-cases (text_eq e.to asset)) [
          | inl home ↦ elim (Bool-cases (leb 2 (length t.hops + 1))) [
            | inr short ↦ rw (fresh, home, short, visit) h
            | inl long ↦
                rw (fresh, home, long, visit)
                  (All-append (IsSimpleCycle edges asset max_hops) r _ h (
                    closed-IsSimpleCycle current t ok e edge fresh ((text_eq_iff e.to asset).0 home)
                        (ground arith) few,
                    tt,
                  ))
          ]
          | inr away ↦ elim (Bool-cases (text_mem e.to t.visited_assets)) [
            | inl again ↦ rw (fresh, away, again, visit) h
            | inr new ↦
                rw (fresh, away, new, visit)
                  (deep (extend-IsTrail current t ok e edge fresh new) r h)
          ]
        ]
      ]

  walk_graph-All :
      (left : ℕ) (current : Text) (t : Trail)
      → IsTrail edges asset current t
      → length t.hops + left ≡ max_hops
      → (r : List GraphRoute) → Cycles r
      → Cycles (walk_graph edges asset limit left current t r)
  unfolding walk_graph Cycles
  walk_graph-All zero current t ok size r h = h
  walk_graph-All (suc left) current t ok size r h = elim (Bool-cases (leb limit (length r))) [
    | inl full ↦ rw (full, walk_graph) h
    | inr room ↦
        rw (room, walk_graph)
          (each_edge-All (visit (walk_graph edges asset limit left) asset t)
            (edges_of current edges)
            (λ e q i k.
              visit-All (walk_graph edges asset limit left) current t e ok (omega arith) i
                (λ next.
                  walk_graph-All left e.to (extend t e) next
                    (omega (arith, length-append t.hops (e.pool ∷ []))))
                q k)
            r h)
  ]

  first_trail-IsTrail : IsTrail edges asset asset (first_trail asset)
  first_trail-IsTrail = record {
    middle = [];
    starts = refl;
    before = [];
    ends = refl;
    distinct = ((λ h. elim h [ ]), tt);
    seen = λ x h. h;
    distinct_pools = tt;
    seen_pools = λ k h. elim h [ ];
    linked = tt;
  }

-- Every enumerated cycle starts and ends in the given asset, passes pairwise different other assets
-- and pairwise different pools in 2 to `max_hops` hops, each of them an edge of the graph.
pub cycles_from-IsSimpleCycle :
    {F : Type 0} (g : Graph F) (asset : Text) (max_hops limit : ℕ)
    → All (IsSimpleCycle g.edges asset max_hops) (cycles_from g asset max_hops limit)
unfolding cycles_from Cycles
cycles_from-IsSimpleCycle g asset max_hops limit =
    elim (Bool-cases (ltb max_hops 2 || ltb limit 1)) [
      | inl none_wanted ↦ rw (none_wanted, cycles_from) tt
      | inr wanted ↦ elim (Option-cases (lookup asset g.edges)) [
        | inl unknown ↦ rw (wanted, unknown, cycles_from) tt
        | inr (es, known) ↦
            rw (wanted, known, cycles_from)
              (walk_graph-All g.edges asset limit max_hops max_hops asset (first_trail asset)
                (first_trail-IsTrail g.edges asset limit max_hops) (omega arith) [] tt)
      ]
    ]
