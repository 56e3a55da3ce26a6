-- ===== src/Examples/Stores.antt =====
-- The backend and the node cache on concrete contents.
use agex_ts.Prelude.{
  ℕ, Str, str_Eq, str_eq, ◌≡◌, refl, true, Option, some, none, [], ◌∷◌, codes, arith,
}
use agex_ts.Prelude.Result.{ok}
use agex_ts.JsMap
use agex_ts.JsMap.{JsMap}
use agex_ts.JsMap.Batch.{set_all, delete_all}
use agex_ts.Store.{Bytes}
use agex_ts.Store.Memory
use agex_ts.Store.Memory.{Memory}
use agex_ts.Store.Memory.Batches
use agex_ts.Store.Memory.Batches.{
  Disjoint, Holds, after_batch, cas_many_lands, cas_many_guarded, cas_many_atomic,
}
use agex_ts.Hamt.NodeCache
use agex_ts.Hamt.NodeCache.{Held, NodeCache, evict}
use agex_ts.Hamt.NodeCache.Bounds.{total, IsWithin}
use agex_ts.Hamt.NodeCache.Insertion.{Inserted, set_lem}

abbrev head : Str
head = codes "HEAD"

abbrev blob : Str
blob = codes "blob"

abbrev store : Memory
store = record { entries = (head, 1 ∷ []) ∷ (blob, 2 ∷ []) ∷ [] }

abbrev moved_head : JsMap Str (Option Bytes)
moved_head = (head, some (1 ∷ [])) ∷ []

abbrev new_head : JsMap Str Bytes
new_head = (head, 3 ∷ []) ∷ []

cas_many_run :
    Memory.cas_many store moved_head new_head (blob ∷ [])
    ≡ (ok true, record { entries = (head, 3 ∷ []) ∷ [] })
unfolding Memory.cas_many JsMap.get JsMap.delete JsMap.set str_eq delete_all set_all
cas_many_run = refl

cas_many_lands_example :
    ((Memory.cas_many store moved_head new_head (blob ∷ [])).0 ≡ ok true)
    × ((j : Str)
        → Memory.get (Memory.cas_many store moved_head new_head (blob ∷ [])).1 j
          ≡ after_batch store new_head (blob ∷ []) j)
unfolding Memory.get JsMap.get str_eq
cas_many_lands_example =
    cas_many_lands store moved_head new_head (blob ∷ []) (refl, tt) (refl, tt) (refl, tt)

cas_many_atomic_example : (Memory.cas_many store ((head, none) ∷ []) new_head []).1 ≡ store
unfolding Memory.cas_many JsMap.get str_eq
cas_many_atomic_example = cas_many_atomic store ((head, none) ∷ []) new_head [] (λ e. ground arith)

cas-eq-cas_many_example :
    Memory.cas_many store ((head, some (1 ∷ [])) ∷ []) ((head, 3 ∷ []) ∷ []) [] ≡ (
      ok (Memory.cas store head (3 ∷ []) (some (1 ∷ []))).0,
      (Memory.cas store head (3 ∷ []) (some (1 ∷ []))).1,
    )
cas-eq-cas_many_example = Batches.cas-eq-cas_many store head (3 ∷ []) (some (1 ∷ []))

-- A cache with room for ten bytes, of nodes that are numbers.
abbrev cache : NodeCache ℕ
cache = record {
  max_bytes = 10;
  map = (head, record { node = 7; size = 4 }) ∷ (blob, record { node = 8; size = 5 }) ∷ [];
  bytes = 9;
  hits = 0;
  misses = 0;
  evictions = 0;
}

cache-IsWithin : IsWithin cache
unfolding JsMap.get str_eq total
cache-IsWithin = record { unique = (refl, (refl, tt)); counted = refl; bounded = omega arith }

set_lem_example :
    (c' : NodeCache ℕ) × (NodeCache.set cache (codes "new") 9 6 ≡ some c')
    × Inserted 10 (codes "new") 9 6 c'
set_lem_example = set_lem cache (codes "new") 9 6 cache-IsWithin
