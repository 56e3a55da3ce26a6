-- ===== src/Ancestry/Walks/Keysets.antt =====
-- `diffKeysets` tells every key that is not the same on both sides.
use agex_ts.Prelude.{
  Str, str_Eq, str_eq_iff, ◌==◌, ◌≡◌, refl, ◌∙◌, ap, Bool, true, false, not, ◌||◌, ◌&&◌, Option,
  none, some, [], ◌∷◌, if◌then◌else◌, arith, is_some, Bool-cases, inl, inr,
}
use agex_ts.JsMap
use agex_ts.JsMap.{JsMap, JsSet}
use agex_ts.JsMap.Laws.{IsUnique, get-set}
use agex_ts.Ancestry.Walks.{DiffResult, added_keys, compare_key, compare_keys, diff_keysets}

has-added_keys :
    (a b : JsMap Str Str) (added : JsSet Str) (j : Str)
    → JsMap.has (added_keys a b added) j
      ≡ (JsMap.has added j || (not (JsMap.has a j) && JsMap.has b j))
unfolding added_keys JsMap.get
has-added_keys a [] added j = ground arith
has-added_keys a ((k, v) ∷ b) added j = elim (Bool-cases (k == j)) [
  | inl here ↦ rw ((str_eq_iff k j).0 here) (
      ground (
        arith,
        has-added_keys a b (if JsMap.has a j then added else JsMap.add added j) j,
        get-set added j j tt,
        str_eq_iff j j,
      ))
  | inr there ↦ ground (
    arith,
    has-added_keys a b (if JsMap.has a k then added else JsMap.add added k) j,
    get-set added k j tt,
    there,
  )
]

-- a key that only the first side has
abbrev gone : Option Str → Option Str → Bool
gone (some v) none = true
gone (some v) (some w) = false
gone none w = false

-- a key that both sides have, with different blobs
abbrev pub differs : Option Str → Option Str → Bool
differs (some v) (some w) = not (w == v)
differs (some v) none = false
differs none w = false

removed_of : (v w : Option Str) → gone v w ≡ (is_some v && not (is_some w))
removed_of (some v) none = refl
removed_of (some v) (some w) = refl
removed_of none w = refl

compare_key_lem :
    (k j v : Str) (w : Option Str) (d : DiffResult)
    → (JsMap.has (compare_key k v w d).removed j
        ≡ (JsMap.has d.removed j || (k == j && gone (some v) w)))
      × (JsMap.has (compare_key k v w d).modified j
          ≡ (JsMap.has d.modified j || (k == j && differs (some v) w)))
      × ((compare_key k v w d).added ≡ d.added)
compare_key_lem k j v none d = ground (arith, get-set d.removed k j tt)
compare_key_lem k j v (some w) d = ground (arith, get-set d.modified k j tt)

compare_keys_lem :
    (a b : JsMap Str Str) (d : DiffResult) (j : Str)
    → IsUnique a
    → (JsMap.has (compare_keys a b d).removed j
        ≡ (JsMap.has d.removed j || gone (JsMap.get a j) (JsMap.get b j)))
      × (JsMap.has (compare_keys a b d).modified j
          ≡ (JsMap.has d.modified j || differs (JsMap.get a j) (JsMap.get b j)))
      × ((compare_keys a b d).added ≡ d.added)
unfolding compare_keys JsMap.get
compare_keys_lem [] b d j u = ground arith
compare_keys_lem ((k, v) ∷ a) b d j (fresh, u) =
    let d' = compare_key k v (JsMap.get b k) d in
    let (r, m, s) = compare_keys_lem a b d' j u in
    let (r', m', s') = compare_key_lem k j v (JsMap.get b k) d in
    elim (Bool-cases (k == j)) [
      | inl here ↦
          let same = (str_eq_iff k j).0 here in
          ground (arith, ap (JsMap.get a) same, ap (JsMap.get b) same)
      | inr there ↦ ground arith
    ]

-- The three sets of `diffKeysets` are disjoint descriptions of every key: added if only the second
-- keyset has it, removed if only the first has, modified if both have it with different blobs.
pub diff_keysets_lem :
    (a b : JsMap Str Str) (j : Str)
    → IsUnique a
    → let d = diff_keysets a b in
      (JsMap.has d.added j ≡ (not (JsMap.has a j) && JsMap.has b j))
      × (JsMap.has d.removed j ≡ (JsMap.has a j && not (JsMap.has b j)))
      × (JsMap.has d.modified j ≡ differs (JsMap.get a j) (JsMap.get b j))
unfolding diff_keysets JsMap.get
diff_keysets_lem a b j u =
    let start : DiffResult = record { added = added_keys a b []; removed = []; modified = [] } in
    let (r, m, s) = compare_keys_lem a b start j u in
    (rw s (has-added_keys a b [] j), r ∙ removed_of (JsMap.get a j) (JsMap.get b j), m)
