-- ===== src/Hamt/NodeCache/Insertion.antt =====
-- What `set` leaves: the node is held if it fits the bound at all, and the invariant is kept. What
-- `get` leaves: the same entries, the one asked for last.
use agex_ts.Prelude.{
  ℕ, ◌+◌, ◌∙◌, subst, ◌≤◌, ◌<◌, sym, Str, str_Eq, str_eq_iff, ◌≡◌, refl, Option, length, Bool-cases,
  inl, inr, ap, ◌++◌, none, some, [], ◌∷◌, arith, ltb,
}
use agex_ts.JsMap
use agex_ts.JsMap.{JsMap}
use agex_ts.JsMap.Laws.{IsUnique, get-set, get-delete, set-IsUnique, delete-IsUnique, eq_refl}
use agex_ts.Hamt.NodeCache.{Held, NodeCache, insert, drop_prior, answered, get, set}
use agex_ts.Hamt.NodeCache.Bounds.{
  total, size_of, total-delete, total-set_fresh, IsWithin, Needed, evict-Evicts,
  drop_prior-IsWithin,
}

module _ {ℓ} {Node : Type ℓ} where
  -- An entry that fits the bound, put in last, is never evicted by its own insertion.
  last_stays :
      (max : ℕ) (dropped left m : JsMap Str (Held Node)) (x : Str × Held Node)
      → m ++ x ∷ [] ≡ dropped ++ left
      → Needed max dropped left
      → x.1.size ≤ max
      → (l : JsMap Str (Held Node)) × (left ≡ l ++ x ∷ [])
  unfolding total
  last_stays max [] left m x p d fits = (m, sym p)
  last_stays max (y ∷ ds) left [] x p d fits = absurd (omega (arith, ap total p))
  last_stays max (y ∷ ds) left (z ∷ m) x p d fits = last_stays max ds left m x (cc) d.1 fits

  set_fresh-append :
      (m : JsMap Str (Held Node)) (k : Str) (h : Held Node)
      → JsMap.get m k ≡ none
      → JsMap.set m k h ≡ m ++ (k, h) ∷ []
  unfolding JsMap.set JsMap.get
  set_fresh-append [] k h fresh = refl
  set_fresh-append ((j, i) ∷ m) k h fresh = ground (arith, set_fresh-append m k h)

  append_right-IsUnique : (xs ys : JsMap Str (Held Node)) → IsUnique (xs ++ ys) → IsUnique ys
  append_right-IsUnique [] ys u = u
  append_right-IsUnique (x ∷ xs) ys u = append_right-IsUnique xs ys u.1

  get-append_last :
      (l : JsMap Str (Held Node)) (k : Str) (h : Held Node)
      → IsUnique (l ++ (k, h) ∷ [])
      → JsMap.get (l ++ (k, h) ∷ []) k ≡ some h
  unfolding JsMap.get
  get-append_last [] k h u = ground (arith, str_eq_iff k k)
  get-append_last ((j, i) ∷ l) k h u = ground (arith, get-append_last l k h u.1, str_eq_iff j k)

  -- What `set` leaves, when the node fits the bound at all.
  pub record Inserted (max : ℕ) (hash : Str) (node : Node) (size : ℕ) (c' : NodeCache Node)
      : Type ℓ where
    pub within : IsWithin c'
    pub same_bound : c'.max_bytes ≡ max
    pub held : size ≤ max → JsMap.get c'.map hash ≡ some (record { node = node; size = size })
    pub refused : max < size → JsMap.get c'.map hash ≡ none

  insert-Inserted :
      (c : NodeCache Node) (hash : Str) (node : Node) (size : ℕ)
      → IsWithin c
      → JsMap.get c.map hash ≡ none
      → size ≤ c.max_bytes
      → (c' : NodeCache Node) × (insert c hash node size ≡ some c')
        × Inserted c.max_bytes hash node size c'
  insert-Inserted c hash node size w fresh fits =
      let h : Held Node = record { node = node; size = size } in
      let m = JsMap.set c.map hash h in
      let r =
        evict-Evicts c.max_bytes m (c.bytes + size) c.evictions
          (omega (arith, total-set_fresh c.map hash h fresh, w.counted)) in
      let u =
        append_right-IsUnique r.dropped r.left
          (rw r.split at (set-IsUnique c.map hash h w.unique)) in
      let (l, e) =
        last_stays c.max_bytes r.dropped r.left c.map (hash, h)
          (sym (set_fresh-append c.map hash h fresh) ∙ r.split) r.needed fits in
      (
        record c { map = r.left; bytes = r.bytes; evictions = c.evictions + length r.dropped },
        rw r.result,
        record {
          within = record { unique = u; counted = r.counted; bounded = r.bounded };
          same_bound = refl;
          held = λ _. rw e (get-append_last l hash h (rw e at u));
          refused = λ over. absurd (omega arith);
        },
      )

  max_bytes-drop_prior :
      (c : NodeCache Node) (hash : Str) (o : Option (Held Node))
      → (drop_prior c hash o).max_bytes ≡ c.max_bytes
  max_bytes-drop_prior c hash none = refl
  max_bytes-drop_prior c hash (some prior) = refl

  -- From a cache within its bound, `set` never throws. The cache it leaves is within the same
  -- bound; a node no larger than the bound is then held under its hash, and a larger one is not,
  -- nor is what the hash held before.
  pub set_lem :
      (c : NodeCache Node) (hash : Str) (node : Node) (size : ℕ)
      → IsWithin c
      → (c' : NodeCache Node) × (set c hash node size ≡ some c')
        × Inserted c.max_bytes hash node size c'
  unfolding set
  set_lem c hash node size w =
      let o = JsMap.get c.map hash in
      let c0 = drop_prior c hash o in
      let same = max_bytes-drop_prior c hash o in
      let (w0, fresh) = drop_prior-IsWithin c hash o w refl in
      elim (Bool-cases (ltb c0.max_bytes size)) [
        | inl over ↦ (
          c0,
          rw over,
          record {
            within = w0;
            same_bound = same;
            held = λ fits. absurd (ground arith);
            refused = λ _. fresh;
          },
        )
        | inr fits ↦
            let (c', e, i) = insert-Inserted c0 hash node size w0 fresh (ground arith) in
            (c', rw fits e, subst (λ m. Inserted m hash node size c') same i)
      ]

  touched-lookup :
      (m : JsMap Str (Held Node)) (hash j : Str) (hit : Held Node)
      → JsMap.get m hash ≡ some hit
      → JsMap.get (JsMap.set (JsMap.delete m hash) hash hit) j ≡ JsMap.get m j
  touched-lookup m hash j hit p = simp (get-set, get-delete) (ground (arith, str_eq_iff hash j))

  answered-IsWithin :
      (c : NodeCache Node) (hash : Str) (o : Option (Held Node))
      → IsWithin c
      → JsMap.get c.map hash ≡ o
      → IsWithin (answered c hash o).1
  answered-IsWithin c hash none w p = record {
    unique = w.unique;
    counted = w.counted;
    bounded = w.bounded;
  }
  answered-IsWithin c hash (some hit) w p =
      let m = JsMap.delete c.map hash in
      record {
        unique = set-IsUnique m hash hit (delete-IsUnique c.map hash w.unique);
        counted = omega (
          arith,
          w.counted,
          total-set_fresh m hash hit (rw (get-delete, eq_refl) refl),
          total-delete c.map hash w.unique,
          ap size_of p,
        );
        bounded = w.bounded;
      }

  abbrev pub node_of : Option (Held Node) → Option Node
  node_of none = none
  node_of (some h) = some h.node

  answered-lookup :
      (c : NodeCache Node) (hash j : Str) (o : Option (Held Node))
      → JsMap.get c.map hash ≡ o
      → ((answered c hash o).0 ≡ node_of o)
        × (JsMap.get (answered c hash o).1.map j ≡ JsMap.get c.map j)
  answered-lookup c hash j none p = (refl, refl)
  answered-lookup c hash j (some hit) p = (refl, touched-lookup c.map hash j hit p)

  -- `get` answers with the node held under the hash, and leaves every entry held as it was, in a
  -- cache within its bound.
  pub get_lem :
      (c : NodeCache Node) (hash : Str)
      → IsWithin c
      → ((get c hash).0 ≡ node_of (JsMap.get c.map hash))
        × ((j : Str) → JsMap.get (get c hash).1.map j ≡ JsMap.get c.map j)
        × IsWithin (get c hash).1
  unfolding get
  get_lem c hash w =
      let o = JsMap.get c.map hash in
      (
        (answered-lookup c hash hash o refl).0,
        λ j. (answered-lookup c hash j o refl).1,
        answered-IsWithin c hash o w refl,
      )

  -- The entry that `get` finds becomes the last to be evicted.
  pub get-last :
      (c : NodeCache Node) (hash : Str) (hit : Held Node)
      → JsMap.get c.map hash ≡ some hit
      → (get c hash).1.map ≡ JsMap.delete c.map hash ++ (hash, hit) ∷ []
  unfolding get
  get-last c hash hit p =
      rw p (set_fresh-append (JsMap.delete c.map hash) hash hit (rw (get-delete, eq_refl) refl))
