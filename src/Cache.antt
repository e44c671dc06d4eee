-- ===== src/Cache.antt =====
-- go/internal/cache/pool_cache.go: the pool cache. Each method is one critical section of the lock.
pub mod Freshness
mod Tests
use titanarb_engine.Base.{
  ℕ, ◌+◌, ◌≤◌, ◌≡◌, Bool, true, false, Option, none, some, List, [], ◌∷◌, Text, leb, if◌then◌else◌,
}
use titanarb_engine.Base.Dict.{lookup, insert}
use titanarb_engine.Pools.{Pool}

-- The two counters of the metrics that the cache moves.
pub record CacheMetrics : Type 0 where
  pub hits : ℕ
  pub misses : ℕ

pub record PoolCache : Type 0 where
  pub pools : List (Text × Pool)
  pub metrics : Option CacheMetrics

pub new : Option CacheMetrics → PoolCache
new metrics = record { pools = []; metrics = metrics }

abbrev pub count_get : Bool → Option CacheMetrics → Option CacheMetrics
count_get fresh none = none
count_get true (some m) = some (record m { hits = m.hits + 1 })
count_get false (some m) = some (record m { misses = m.misses + 1 })

-- pools.Pool{}
abbrev pub no_pool : Pool
no_pool = record {
  address = [];
  token0 = [];
  token1 = [];
  dex = [];
  fee = 0;
  liquidity = none;
  sqrt_price_x96 = none;
  last_updated_block = 0;
}

abbrev pub found : ℕ → Option Pool → Pool × Bool
found minimum_block none = (no_pool, false)
found minimum_block (some p) = (p, leb minimum_block p.last_updated_block)

pub get : Text → ℕ → PoolCache → (Pool × Bool) × PoolCache
get address minimum_block c =
    let r = found minimum_block (lookup address c.pools) in
    (r, record c { metrics = count_get r.1 c.metrics })

abbrev pub is_newer : Pool → Option Pool → Bool
is_newer p none = true
is_newer p (some current) = leb current.last_updated_block p.last_updated_block

pub put : Pool → PoolCache → PoolCache
put p c =
    if is_newer p (lookup p.address c.pools)
    then record c { pools = insert p.address p c.pools }
    else c

pub put_all : List Pool → PoolCache → PoolCache
put_all [] c = c
put_all (p ∷ ps) c = put_all ps (put p c)

-- Refresh, for the pools that `load` returned; `none` for its error, which is returned.
pub refresh : Option (List Pool) → PoolCache → Bool × PoolCache
unfolding put_all
refresh none c = (false, c)
refresh (some updated) c = (true, put_all updated c)

pub indexed : List Pool → List (Text × Pool) → List (Text × Pool)
indexed [] m = m
indexed (p ∷ ps) m = indexed ps (insert p.address p m)

pub replace : List Pool → PoolCache → PoolCache
unfolding indexed
replace updated c = record c { pools = indexed updated [] }
