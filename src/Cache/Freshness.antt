-- ===== src/Cache/Freshness.antt =====
-- What a reader of the pool cache finds (pool_cache.go).
use titanarb_engine.Base.{
  ℕ, ◌≤◌, ◌≡◌, refl, sym, ap, ◌∙◌, subst, inl, inr, true, false, Option, none, some, List, [], ◌∷◌,
  Text, arith, In, Bool-cases, Option-cases, text_eq, text_eq_iff, text_eq_refl, if◌then◌else◌,
  some-inj,
}
use titanarb_engine.Base.Dict.{lookup, insert, lookup-insert}
use titanarb_engine.Pools.{Pool}
use titanarb_engine.Cache.{PoolCache, get, put, put_all, refresh, is_newer, indexed, replace, found}

-- The entry of an address, at block `b` or later.
abbrev pub HasEntry : Text → ℕ → PoolCache → Type 0
HasEntry a b c = (p : Pool) × (lookup a c.pools ≡ some p) × (b ≤ p.last_updated_block)

put-newer :
    (p : Pool) (c : PoolCache)
    → is_newer p (lookup p.address c.pools) ≡ true
    → (put p c).pools ≡ insert p.address p c.pools
unfolding put
put-newer p c newer = rw (newer, put)

put-older : (p : Pool) (c : PoolCache) → is_newer p (lookup p.address c.pools) ≡ false → put p c ≡ c
unfolding put
put-older p c older = rw (older, put)

put-HasEntry_self : (p : Pool) (c : PoolCache) → HasEntry p.address p.last_updated_block (put p c)
put-HasEntry_self p c = elim (Bool-cases (is_newer p (lookup p.address c.pools))) [
  | inl newer ↦ (p, stored newer, omega arith)
  | inr older ↦ elim (Option-cases (lookup p.address c.pools)) [
    | inl missing ↦ let e = rw missing at older in absurd (ground arith)
    | inr (q, e) ↦ (q, rw (put-older p c older) e, (let o = rw e at older in ground arith))
  ]
]
  where
    stored :
        is_newer p (lookup p.address c.pools) ≡ true → lookup p.address (put p c).pools ≡ some p
    stored newer =
        rw
          (put-newer p c newer, lookup-insert p.address p.address p c.pools, text_eq_refl p.address)
          refl

put-HasEntry :
    (a : Text) (b : ℕ) (p : Pool) (c : PoolCache) → HasEntry a b c → HasEntry a b (put p c)
put-HasEntry a b p c (q, e, h) = elim (Bool-cases (is_newer p (lookup p.address c.pools))) [
  | inr older ↦ rw (put-older p c older) (q, e, h)
  | inl newer ↦ elim (Bool-cases (text_eq p.address a)) [
    | inr other ↦ (q, rw (put-newer p c newer, lookup-insert p.address a p c.pools, other) e, h)
    | inl same ↦
        let at : p.address ≡ a = (text_eq_iff p.address a).0 same in
        let n = rw (at, e) at newer in
        (p, rw (put-newer p c newer, lookup-insert p.address a p c.pools, same) refl, ground arith)
  ]
]

put_all-HasEntry :
    (a : Text) (b : ℕ) (ps : List Pool) (c : PoolCache)
    → HasEntry a b c
    → HasEntry a b (put_all ps c)
unfolding put_all
put_all-HasEntry a b [] c h = h
put_all-HasEntry a b (p ∷ ps) c h = put_all-HasEntry a b ps (put p c) (put-HasEntry a b p c h)

put_all-In :
    (p : Pool) (ps : List Pool) (c : PoolCache)
    → In p ps
    → HasEntry p.address p.last_updated_block (put_all ps c)
unfolding put_all
put_all-In p [] c i = elim i [ ]
put_all-In p (q ∷ ps) c (inl e) = put_all-HasEntry p.address p.last_updated_block ps (put q c) (
    subst (λ (t : Pool). HasEntry t.address t.last_updated_block (put q c)) (sym e)
      (put-HasEntry_self q c))
put_all-In p (q ∷ ps) c (inr i) = put_all-In p ps (put q c) i

fresh-HasEntry : (a : Text) (b : ℕ) (c : PoolCache) → (get a b c).0.1 ≡ true → HasEntry a b c
unfolding get
fresh-HasEntry a b c h = elim (Option-cases (lookup a c.pools)) [
  | inl missing ↦ let h' = rw (missing, get) at h in absurd (ground arith)
  | inr (p, e) ↦ (p, e, (let h' = rw (e, get) at h in ground arith))
]

HasEntry-fresh : (a : Text) (b : ℕ) (c : PoolCache) → HasEntry a b c → (get a b c).0.1 ≡ true
unfolding get
HasEntry-fresh a b c (p, e, h) = rw (e, get) (ground arith)

-- After a refresh, a reader who asks for a loaded pool at the block it was loaded for gets a fresh
-- entry; and an entry that was fresh for some block before the refresh, successful or not, still is.
pub refresh-fresh :
    (updated : Option (List Pool)) (c : PoolCache)
    → ((ps : List Pool) (p : Pool)
        → updated ≡ some ps
        → In p ps
        → (get p.address p.last_updated_block (refresh updated c).1).0.1 ≡ true)
      × ((a : Text) (b : ℕ) → (get a b c).0.1 ≡ true → (get a b (refresh updated c).1).0.1 ≡ true)
unfolding refresh
refresh-fresh none c = (λ ps p e i. absurd (ground arith), λ a b h. h)
refresh-fresh (some qs) c = (
  λ ps p e i.
      HasEntry-fresh p.address p.last_updated_block (put_all qs c)
        (put_all-In p qs c (subst (In p) (sym (some-inj e)) i)),
  λ a b h. HasEntry-fresh a b (put_all qs c) (put_all-HasEntry a b qs c (fresh-HasEntry a b c h)),
)

-- The last pool of a list with the given address.
abbrev pub last_with : Text → List Pool → Option Pool → Option Pool
last_with a [] seen = seen
last_with a (p ∷ ps) seen = last_with a ps (if text_eq p.address a then some p else seen)

indexed-last_with :
    (a : Text) (ps : List Pool) (m : List (Text × Pool))
    → lookup a (indexed ps m) ≡ last_with a ps (lookup a m)
unfolding indexed
indexed-last_with a [] m = refl
indexed-last_with a (p ∷ ps) m =
    indexed-last_with a ps (insert p.address p m)
    ∙ ap (last_with a ps) (lookup-insert p.address a p m)

-- Replacing installs exactly the given universe: of several pools with one address the last, and
-- nothing of what was cached before, whatever its block.
pub replace-get :
    (updated : List Pool) (c : PoolCache) (a : Text) (b : ℕ)
    → (get a b (replace updated c)).0 ≡ found b (last_with a updated none)
unfolding get replace lookup
replace-get updated c a b = ap (found b) (indexed-last_with a updated [])
