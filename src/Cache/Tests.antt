-- ===== src/Cache/Tests.antt =====
-- A cache of one pool.
use titanarb_engine.Base.{ℕ, ◌≡◌, refl, true, none, some, List, [], ◌∷◌, Text, bytes, In, text_eq}
use titanarb_engine.Base.Dict.{lookup, insert}
use titanarb_engine.Pools.{Pool}
use titanarb_engine.Cache.{PoolCache, new, get, put, refresh, no_pool}
use titanarb_engine.Cache.Freshness.{refresh-fresh}

abbrev pool : ℕ → Pool
pool block = record no_pool { address = bytes "0xa"; last_updated_block = block }

put_older_runs : (get (bytes "0xa") 6 (put (pool 5) (put (pool 7) (new none)))).0 ≡ (pool 7, true)
unfolding get put new lookup insert text_eq
put_older_runs = refl

abbrev cached : PoolCache
cached = record {
  pools = (bytes "0xa", pool 7) ∷ [];
  metrics = some (record { hits = 0; misses = 0 });
}

refresh-fresh_example :
    ((ps : List Pool) (p : Pool)
      → some (pool 9 ∷ []) ≡ some ps
      → In p ps
      → (get p.address p.last_updated_block (refresh (some (pool 9 ∷ [])) cached).1).0.1 ≡ true)
    × ((a : Text) (b : ℕ)
        → (get a b cached).0.1 ≡ true
        → (get a b (refresh (some (pool 9 ∷ [])) cached).1).0.1 ≡ true)
refresh-fresh_example = refresh-fresh (some (pool 9 ∷ [])) cached
