-- ===== src/Hamt/Diff/Compare.antt =====
-- What comparing two lists of entries adds to a diff.
use agex_ts.Prelude.{
  Str, str_Eq, str_eq_iff, ◌≡◌, refl, ◌∙◌, ap, Bool, true, is_some, Option, none, some, [], ◌∷◌,
  arith, if◌then◌else◌, ◌==◌, sym, Bool-cases, inl, inr,
}
use agex_ts.JsMap
use agex_ts.JsMap.{JsMap}
use agex_ts.JsMap.Laws.{IsUnique, get-set, get-empty}
use agex_ts.JsMap.Batch.{first_some}
use agex_ts.Store.{Bytes}
use agex_ts.Hamt.Diff.{
  HamtDiff, compare_old, compare_new, compare_olds, compare_news, compare_items,
}

module _ {V : Type 0} (same : V → V → Bool) (bytes : V → Bytes) where
  -- What one key's values on both sides say of it, or else what the diff already has.
  abbrev pub added_of : Option V → Option V → Option Bytes → Option Bytes
  added_of (some v) b rest = rest
  added_of none none rest = rest
  added_of none (some bv) rest = some (bytes bv)

  abbrev pub removed_of : Option V → Option V → Option Bytes → Option Bytes
  removed_of none b rest = rest
  removed_of (some v) (some bv) rest = rest
  removed_of (some v) none rest = some (bytes v)

  abbrev pub modified_of : Option V → Option V → Option (Bytes × Bytes) → Option (Bytes × Bytes)
  modified_of none b rest = rest
  modified_of (some v) none rest = rest
  modified_of (some v) (some bv) rest = if same bv v then rest else some (bytes v, bytes bv)

  removed-compare_old :
      (d : HamtDiff) (k j : Str) (v : V) (o : Option V)
      → JsMap.get (compare_old same bytes d k v o).removed j
        ≡ (if k == j then removed_of (some v) o (JsMap.get d.removed j) else JsMap.get d.removed j)
  removed-compare_old d k j v none = get-set d.removed k j (bytes v)
  removed-compare_old d k j v (some bv) = ground arith

  removed-compare_olds :
      (a b : JsMap Str V) (d : HamtDiff) (j : Str)
      → IsUnique a
      → JsMap.get (compare_olds same bytes a b d).removed j
        ≡ removed_of (JsMap.get a j) (JsMap.get b j) (JsMap.get d.removed j)
  unfolding compare_olds JsMap.get
  removed-compare_olds [] b d j u = refl
  removed-compare_olds ((k, v) ∷ a) b d j (fresh, u) =
      let next = compare_old same bytes d k v (JsMap.get b k) in
      elim (Bool-cases (k == j)) [
        | inl here ↦
            let same_key = (str_eq_iff k j).0 here in
            rw
              (
                removed-compare_olds a b next j u,
                removed-compare_old d k j v (JsMap.get b k),
                here,
                sym same_key,
                fresh,
              )
              refl
        | inr there ↦
            rw
              (
                removed-compare_olds a b next j u,
                removed-compare_old d k j v (JsMap.get b k),
                there,
              )
              refl
      ]

  modified-compare_old :
      (d : HamtDiff) (k j : Str) (v : V) (o : Option V)
      → JsMap.get (compare_old same bytes d k v o).modified j ≡ (
          if k == j
          then modified_of (some v) o (JsMap.get d.modified j)
          else JsMap.get d.modified j)
  modified-compare_old d k j v none = ground arith
  modified-compare_old d k j v (some bv) =
      ground (arith, get-set d.modified k j (bytes v, bytes bv))

  modified-compare_olds :
      (a b : JsMap Str V) (d : HamtDiff) (j : Str)
      → IsUnique a
      → JsMap.get (compare_olds same bytes a b d).modified j
        ≡ modified_of (JsMap.get a j) (JsMap.get b j) (JsMap.get d.modified j)
  unfolding compare_olds JsMap.get
  modified-compare_olds [] b d j u = refl
  modified-compare_olds ((k, v) ∷ a) b d j (fresh, u) =
      let next = compare_old same bytes d k v (JsMap.get b k) in
      elim (Bool-cases (k == j)) [
        | inl here ↦
            let same_key = (str_eq_iff k j).0 here in
            rw
              (
                modified-compare_olds a b next j u,
                modified-compare_old d k j v (JsMap.get b k),
                here,
                sym same_key,
                fresh,
              )
              refl
        | inr there ↦
            rw
              (
                modified-compare_olds a b next j u,
                modified-compare_old d k j v (JsMap.get b k),
                there,
              )
              refl
      ]

  compare_old-added :
      (d : HamtDiff) (k : Str) (v : V) (o : Option V)
      → (compare_old same bytes d k v o).added ≡ d.added
  compare_old-added d k v none = refl
  compare_old-added d k v (some bv) = ground arith

  added-compare_olds :
      (a b : JsMap Str V) (d : HamtDiff) → (compare_olds same bytes a b d).added ≡ d.added
  unfolding compare_olds
  added-compare_olds [] b d = refl
  added-compare_olds ((k, v) ∷ a) b d =
      added-compare_olds a b (compare_old same bytes d k v (JsMap.get b k))
      ∙ compare_old-added d k v (JsMap.get b k)

  added-compare_new :
      (d : HamtDiff) (k j : Str) (v : V) (o : Option V)
      → JsMap.get (compare_new same bytes d k v o).added j
        ≡ (if k == j then added_of o (some v) (JsMap.get d.added j) else JsMap.get d.added j)
  added-compare_new d k j v none = get-set d.added k j (bytes v)
  added-compare_new d k j v (some av) = ground arith

  added-compare_news :
      (a b : JsMap Str V) (d : HamtDiff) (j : Str)
      → IsUnique b
      → JsMap.get (compare_news same bytes a b d).added j
        ≡ added_of (JsMap.get a j) (JsMap.get b j) (JsMap.get d.added j)
  unfolding compare_news JsMap.get
  added-compare_news a [] d j u = ground arith
  added-compare_news a ((k, v) ∷ b) d j (fresh, u) =
      let next = compare_new same bytes d k v (JsMap.get a k) in
      elim (Bool-cases (k == j)) [
        | inl here ↦
            let same_key = (str_eq_iff k j).0 here in
            rw
              (
                added-compare_news a b next j u,
                added-compare_new d k j v (JsMap.get a k),
                here,
                sym same_key,
                fresh,
              )
              (ground arith)
        | inr there ↦
            rw (added-compare_news a b next j u, added-compare_new d k j v (JsMap.get a k), there)
              refl
      ]

  compare_new-Kept :
      (d : HamtDiff) (k : Str) (v : V) (o : Option V)
      → ((compare_new same bytes d k v o).removed ≡ d.removed)
        × ((compare_new same bytes d k v o).modified ≡ d.modified)
  compare_new-Kept d k v none = (refl, refl)
  compare_new-Kept d k v (some av) = (refl, refl)

  compare_news-Kept :
      (a b : JsMap Str V) (d : HamtDiff)
      → ((compare_news same bytes a b d).removed ≡ d.removed)
        × ((compare_news same bytes a b d).modified ≡ d.modified)
  unfolding compare_news
  compare_news-Kept a [] d = (refl, refl)
  compare_news-Kept a ((k, v) ∷ b) d =
      let (r, m) = compare_news-Kept a b (compare_new same bytes d k v (JsMap.get a k)) in
      let (r', m') = compare_new-Kept d k v (JsMap.get a k) in (r ∙ r', m ∙ m')

  -- Comparing two lists of entries, neither with a key twice, puts under every key, of the three
  -- maps of the diff, what its values on the two sides say: added if only the second has one, removed
  -- if only the first has, modified if both have and they differ. All else the diff had it keeps.
  pub compare_items_lem :
      (a b : JsMap Str V) (d : HamtDiff) (j : Str)
      → IsUnique a
      → IsUnique b
      → let e = compare_items same bytes a b d in
        (JsMap.get e.added j ≡ added_of (JsMap.get a j) (JsMap.get b j) (JsMap.get d.added j))
        × (JsMap.get e.removed j
            ≡ removed_of (JsMap.get a j) (JsMap.get b j) (JsMap.get d.removed j))
        × (JsMap.get e.modified j
            ≡ modified_of (JsMap.get a j) (JsMap.get b j) (JsMap.get d.modified j))
  unfolding compare_items
  compare_items_lem a b d j u w =
      let d' = compare_olds same bytes a b d in
      let (r, m) = compare_news-Kept a b d' in
      (
        rw (added-compare_news a b d' j w, added-compare_olds a b d) refl,
        rw r (removed-compare_olds a b d j u),
        rw m (modified-compare_olds a b d j u),
      )

  abbrev value_bytes : Option V → Option Bytes
  value_bytes none = none
  value_bytes (some v) = some (bytes v)

  abbrev new_side : Option (Bytes × Bytes) → Option Bytes
  new_side none = none
  new_side (some m) = some m.1

  -- A key's value after a diff is applied, from its old one.
  abbrev pub patched : HamtDiff → Str → Option Bytes → Option Bytes
  patched d j old =
      if JsMap.has d.removed j
      then none
      else first_some (JsMap.get d.added j) (first_some (new_side (JsMap.get d.modified j)) old)

  patched_of :
      (oa ob : Option V)
      → ((x y : V) → same x y ≡ true → bytes x ≡ bytes y)
      → (if is_some (removed_of oa ob none)
          then none
          else first_some
              (added_of oa ob none)
              (first_some (new_side (modified_of oa ob none)) (value_bytes oa)))
        ≡ value_bytes ob
  patched_of none none f = refl
  patched_of none (some bv) f = refl
  patched_of (some v) none f = refl
  patched_of (some v) (some bv) f = elim (Bool-cases (same bv v)) [
    | inl equal ↦ rw equal (ap some (sym (f bv v equal)))
    | inr differ ↦ rw differ refl
  ]

  -- Where values that compare as equal have the same bytes, the diff that comparing two lists of
  -- entries makes, neither with a key twice, turns every key's value of the first into that of the
  -- second, when it is applied.
  pub patched-compare_items :
      (a b : JsMap Str V) (j : Str)
      → ((x y : V) → same x y ≡ true → bytes x ≡ bytes y)
      → IsUnique a
      → IsUnique b
      → patched
          (compare_items same bytes a b (record { added = []; removed = []; modified = [] }))
          j
          (value_bytes (JsMap.get a j))
        ≡ value_bytes (JsMap.get b j)
  patched-compare_items a b j f u w =
      let empty : HamtDiff = record { added = []; removed = []; modified = [] } in
      let (added, removed, modified) = compare_items_lem a b empty j u w in
      rw (added, removed, modified, get-empty {V = Bytes} j, get-empty {V = Bytes × Bytes} j)
        (patched_of (JsMap.get a j) (JsMap.get b j) f)
