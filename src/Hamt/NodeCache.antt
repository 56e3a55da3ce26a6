-- ===== src/Hamt/NodeCache.antt =====
-- packages/kvgit-ts/src/hamt.ts, `NodeCache`: a bounded LRU of parsed nodes by hash. The order of
-- the map's entries is the order of use, oldest first. Generic in the type of nodes.
pub mod Bounds
pub mod Insertion
use agex_ts.Prelude.{
  ℕ, zero, suc, ◌+◌, ◌-◌, ◌*◌, Str, str_Eq, Option, none, some, List, [], ◌∷◌, ltb, if◌then◌else◌,
}
use agex_ts.JsMap
use agex_ts.JsMap.{JsMap}

pub record Held {ℓ} (Node : Type ℓ) : Type ℓ where
  pub node : Node
  pub size : ℕ

pub record NodeCache {ℓ} (Node : Type ℓ) : Type ℓ where
  pub max_bytes : ℕ
  pub map : JsMap Str (Held Node)
  pub bytes : ℕ
  pub hits : ℕ
  pub misses : ℕ
  pub evictions : ℕ

pub record Stats : Type 0 where
  pub hits : ℕ
  pub misses : ℕ
  pub evictions : ℕ
  pub entries : ℕ
  pub bytes : ℕ

-- the bound when none is given: 16 MiB
abbrev pub default_max_bytes : ℕ
default_max_bytes = 16 * 1024 * 1024

module _ {ℓ} {Node : Type ℓ} where
  unfoldable pub new_cache : Option ℕ → NodeCache Node
  new_cache max = record {
    max_bytes = elim max [ none ↦ default_max_bytes | some n ↦ n ];
    map = [];
    bytes = 0;
    hits = 0;
    misses = 0;
    evictions = 0;
  }

  -- `get` once the map has answered
  abbrev answered : NodeCache Node → Str → Option (Held Node) → Option Node × NodeCache Node
  answered c hash none = (none, record c { misses = c.misses + 1 })
  answered c hash (some hit) = (
    some hit.node,
    record c { hits = c.hits + 1; map = JsMap.set (JsMap.delete c.map hash) hash hit },
  )

  unfoldable pub get : NodeCache Node → Str → Option Node × NodeCache Node
  get c hash = answered c hash (JsMap.get c.map hash)

  -- The loop that evicts the oldest entries past the bound: what it leaves of the map, the bytes
  -- held, and the count of evictions. `none` is the exception that destructuring the oldest entry
  -- of an empty map throws. It recurs on the map, which each round makes shorter.
  unfoldable pub evict : ℕ → JsMap Str (Held Node) → ℕ → ℕ → Option (JsMap Str (Held Node) × ℕ × ℕ)
  evict max [] bytes evictions = if ltb max bytes then none else some ([], bytes, evictions)
  evict max ((oldest, entry) ∷ m) bytes evictions =
      let rest = evict max m (bytes - entry.size) (evictions + 1) in
      if ltb max bytes then rest else some ((oldest, entry) ∷ m, bytes, evictions)

  -- the entry already there under the hash is dropped first
  abbrev drop_prior : NodeCache Node → Str → Option (Held Node) → NodeCache Node
  drop_prior c hash none = c
  drop_prior c hash (some prior) = record c {
    map = JsMap.delete c.map hash;
    bytes = c.bytes - prior.size;
  }

  abbrev evicted : NodeCache Node → Option (JsMap Str (Held Node) × ℕ × ℕ) → Option (NodeCache Node)
  evicted c none = none
  evicted c (some (m, bytes, evictions)) =
      some (record c { map = m; bytes = bytes; evictions = evictions })

  abbrev insert : NodeCache Node → Str → Node → ℕ → Option (NodeCache Node)
  insert c hash node size = evicted c (
      evict c.max_bytes (JsMap.set c.map hash (record { node = node; size = size }))
        (c.bytes + size) c.evictions)

  -- `none` is an exception.
  unfoldable pub set : NodeCache Node → Str → Node → ℕ → Option (NodeCache Node)
  set c hash node size =
      let c' = drop_prior c hash (JsMap.get c.map hash) in
      if ltb c'.max_bytes size then some c' else insert c' hash node size

  unfoldable pub stats : NodeCache Node → Stats
  stats c = record {
    hits = c.hits;
    misses = c.misses;
    evictions = c.evictions;
    entries = JsMap.size c.map;
    bytes = c.bytes;
  }

  unfoldable pub reset_stats : NodeCache Node → NodeCache Node
  reset_stats c = record c { hits = 0; misses = 0; evictions = 0 }

  unfoldable pub clear : NodeCache Node → NodeCache Node
  clear c = record c { map = []; bytes = 0 }
