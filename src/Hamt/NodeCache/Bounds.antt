-- ===== src/Hamt/NodeCache/Bounds.antt =====
-- The cache's invariant: the byte count is what the entries add up to, and within the bound.
use agex_ts.Prelude.{
  ℕ, ◌+◌, ◌-◌, ◌≤◌, ◌<◌, Str, str_Eq, str_eq_iff, ◌≡◌, refl, Option, length, Bool-cases, inl, inr,
  ap, ◌++◌, none, some, [], ◌∷◌, arith, ltb,
}
use agex_ts.JsMap
use agex_ts.JsMap.{JsMap}
use agex_ts.JsMap.Laws.{IsUnique, get-delete, delete-IsUnique, eq_refl}
use agex_ts.Hamt.NodeCache.{Held, NodeCache, drop_prior, evict}

module _ {ℓ} {Node : Type ℓ} where
  unfoldable pub total : JsMap Str (Held Node) → ℕ
  total [] = 0
  total ((k, h) ∷ m) = h.size + total m

  abbrev pub size_of : Option (Held Node) → ℕ
  size_of none = 0
  size_of (some h) = h.size

  pub total-delete :
      (m : JsMap Str (Held Node)) (k : Str)
      → IsUnique m
      → total (JsMap.delete m k) + size_of (JsMap.get m k) ≡ total m
  unfolding total JsMap.delete JsMap.get
  total-delete [] k u = refl
  total-delete ((j, h) ∷ m) k (fresh, u) = ground (arith, total-delete m k u, str_eq_iff j k)

  pub total-set_fresh :
      (m : JsMap Str (Held Node)) (k : Str) (h : Held Node)
      → JsMap.get m k ≡ none
      → total (JsMap.set m k h) ≡ total m + h.size
  unfolding total JsMap.set JsMap.get
  total-set_fresh [] k h fresh = omega arith
  total-set_fresh ((j, i) ∷ m) k h fresh = ground (arith, total-set_fresh m k h)

  pub record IsWithin (c : NodeCache Node) : Type ℓ where
    pub unique : IsUnique c.map
    pub counted : c.bytes ≡ total c.map
    pub bounded : c.bytes ≤ c.max_bytes

  -- Every dropped entry was dropped while what stood from it on was over the bound.
  abbrev pub Needed : ℕ → JsMap Str (Held Node) → JsMap Str (Held Node) → Type 0
  Needed max [] left = Unit
  Needed max (x ∷ dropped) left = (max < total (x ∷ dropped ++ left)) × Needed max dropped left

  -- The oldest entries were dropped, each counted; what is left is within the bound.
  pub record Evicts (max : ℕ) (m : JsMap Str (Held Node)) (n : ℕ)
      (r : Option (JsMap Str (Held Node) × ℕ × ℕ)) : Type ℓ where
    pub dropped : JsMap Str (Held Node)
    pub left : JsMap Str (Held Node)
    pub bytes : ℕ
    pub result : r ≡ some (left, bytes, n + length dropped)
    pub split : m ≡ dropped ++ left
    pub needed : Needed max dropped left
    pub counted : bytes ≡ total left
    pub bounded : bytes ≤ max

  -- From a byte count that is what the entries add up to, eviction ends by its test: it drops the
  -- oldest entries, no more than needed, counting each, and what is left adds up to its bytes and is
  -- within the bound.
  pub evict-Evicts :
      (max : ℕ) (m : JsMap Str (Held Node)) (bytes n : ℕ)
      → bytes ≡ total m
      → Evicts max m n (evict max m bytes n)
  unfolding evict total
  evict-Evicts max [] bytes n h = record {
    dropped = [];
    left = [];
    bytes = bytes;
    result = ground arith;
    split = refl;
    needed = tt;
    counted = h;
    bounded = omega arith;
  }
  evict-Evicts max ((k, e) ∷ m) bytes n h = elim (Bool-cases (ltb max bytes)) [
    | inl over ↦
        let r = evict-Evicts max m (bytes - e.size) (n + 1) (omega arith) in
        rw over (record {
          dropped = (k, e) ∷ r.dropped;
          left = r.left;
          bytes = r.bytes;
          result = ground (arith, r.result);
          split = ap (◌∷◌ (k, e)) r.split;
          needed = (rw (← r.split) (ground arith), r.needed);
          counted = r.counted;
          bounded = r.bounded;
        })
    | inr fits ↦ rw fits (record {
      dropped = [];
      left = (k, e) ∷ m;
      bytes = bytes;
      result = ground arith;
      split = refl;
      needed = tt;
      counted = h;
      bounded = ground arith;
    })
  ]

  pub drop_prior-IsWithin :
      (c : NodeCache Node) (hash : Str) (o : Option (Held Node))
      → IsWithin c
      → JsMap.get c.map hash ≡ o
      → IsWithin (drop_prior c hash o) × (JsMap.get (drop_prior c hash o).map hash ≡ none)
  drop_prior-IsWithin c hash none w p = (w, p)
  drop_prior-IsWithin c hash (some prior) w p = (
    record {
      unique = delete-IsUnique c.map hash w.unique;
      counted = omega (arith, total-delete c.map hash w.unique, ap size_of p);
      bounded = omega arith;
    },
    rw (get-delete, eq_refl) refl,
  )
