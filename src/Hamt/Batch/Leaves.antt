-- ===== src/Hamt/Batch/Leaves.antt =====
-- What `applyAt` makes of a leaf.
use agex_ts.Prelude.{
  ℕ, ◌+◌, Str, str_Eq, str_eq_iff, ◌==◌, ◌≡◌, refl, sym, ◌∙◌, ap, Bool, false, Option, none, some,
  List, [], ◌∷◌, arith, if◌then◌else◌, Bool-cases, Option-cases, inl, inr,
}
use mathlib.Core.Option.{some-injective}
use agex_ts.JsMap
use agex_ts.JsMap.{JsMap}
use agex_ts.JsMap.Laws.{IsUnique, get-set, get-delete, set-IsUnique, delete-IsUnique}
use agex_ts.Hamt.Trie.{leaf, Format, Hamt, Pending, hash_len, load}
use agex_ts.Hamt.Trie.Walk.{walk, IsAddressed, Grows, load-UniqueNode}
use agex_ts.Hamt.Trie.Stored.{walk_at_leaf}
use agex_ts.Hamt.Delete.{Subtree}
use agex_ts.Hamt.Batch.{KeyChange, set_item, change_item, change_items, apply_items, subtree_of}
use agex_ts.Hamt.Batch.Canon.{subtree_of_lem}

-- A key's value after changes, from its old one.
abbrev pub after : List KeyChange → Str → Option Str → Option Str
after [] j old = old
after (c ∷ changes) j old = after changes j (if c.key == j then c.value else old)

get-set_item :
    (items : JsMap Str Str) (key j v : Str) (old : Option Str) (changed : Bool)
    → JsMap.get items key ≡ old
    → JsMap.get (set_item items key v old changed).0 j
      ≡ (if key == j then some v else JsMap.get items j)
get-set_item items key j v none changed e = get-set items key j v
get-set_item items key j v (some o) changed e =
    ground (arith, get-set items key j v, str_eq_iff key j, str_eq_iff o v)

get-change_item :
    (r : JsMap Str Str × Bool) (key j : Str) (value : Option Str)
    → JsMap.get (change_item r key value).0 j ≡ (if key == j then value else JsMap.get r.0 j)
get-change_item r key j none = ground (arith, get-delete r.0 key j, str_eq_iff key j)
get-change_item r key j (some v) = get-set_item r.0 key j v (JsMap.get r.0 key) r.1 refl

get-change_items :
    (r : JsMap Str Str × Bool) (changes : List KeyChange) (j : Str)
    → JsMap.get (change_items r changes).0 j ≡ after changes j (JsMap.get r.0 j)
unfolding change_items
get-change_items r [] j = refl
get-change_items r (c ∷ changes) j =
    get-change_items (change_item r c.key c.value) changes j
    ∙ ap (after changes j) (get-change_item r c.key j c.value)

set_item-IsUnique :
    (items : JsMap Str Str) (key v : Str) (old : Option Str) (changed : Bool)
    → IsUnique items
    → IsUnique (set_item items key v old changed).0
set_item-IsUnique items key v none changed u = set-IsUnique items key v u
set_item-IsUnique items key v (some o) changed u = ground (arith, set-IsUnique items key v u)

change_item-IsUnique :
    (r : JsMap Str Str × Bool) (key : Str) (value : Option Str)
    → IsUnique r.0
    → IsUnique (change_item r key value).0
change_item-IsUnique r key none u = ground (arith, delete-IsUnique r.0 key u)
change_item-IsUnique r key (some v) u = set_item-IsUnique r.0 key v (JsMap.get r.0 key) r.1 u

change_items-IsUnique :
    (r : JsMap Str Str × Bool) (changes : List KeyChange)
    → IsUnique r.0
    → IsUnique (change_items r changes).0
unfolding change_items
change_items-IsUnique r [] u = u
change_items-IsUnique r (c ∷ changes) u =
    change_items-IsUnique (change_item r c.key c.value) changes
      (change_item-IsUnique r c.key c.value u)

-- with no change noted, the entries are as they were
change_item-Same :
    (r : JsMap Str Str × Bool) (key : Str) (value : Option Str)
    → (change_item r key value).1 ≡ false
    → change_item r key value ≡ r
change_item-Same r key none h = ground (arith, h)
change_item-Same r key (some v) h = elim (Option-cases (JsMap.get r.0 key)) [
  | inl absent ↦ absurd (ground (arith, h, absent))
  | inr (o, there) ↦ rw there (ground (arith, rw there at h))
]

change_items-Same :
    (r : JsMap Str Str × Bool) (changes : List KeyChange)
    → (change_items r changes).1 ≡ false
    → change_items r changes ≡ r
unfolding change_items
change_items-Same r [] h = refl
change_items-Same r (c ∷ changes) h =
    let next = change_items-Same (change_item r c.key c.value) changes h in
    next ∙ change_item-Same r c.key c.value (ap (λ x. x.1) (sym next) ∙ h)

module _ (format : Format) (hamt : Hamt) where
  -- what a walk of a subtree ends in, where none is an empty one
  abbrev pub ends : Pending → ℕ → ℕ → Str → Option Str → Option (Option Str)
  ends p left depth j none = some none
  ends p left depth j (some h) = walk format hamt p left depth j h

  -- Nodes that were there stay, and where a walk ended in a value, it ends in that value after the
  -- changes.
  pub record Applied (p : Pending) (left depth : ℕ) (hash : Str) (changes : List KeyChange)
      (r : Subtree) : Type 0 where
    pub grows : Grows format hamt p r.1
    pub finds :
        (j : Str) (o : Option Str)
        → walk format hamt p left depth j hash ≡ some o
        → ends r.1 left depth j r.0 ≡ some (after changes j o)

  ends-at :
      (q : Pending) (left depth : ℕ) (j h : Str) (s : Option Str) (o : Option (Option Str))
      → s ≡ some h
      → walk format hamt q left depth j h ≡ o
      → ends q left depth j s ≡ o
  ends-at q left depth j h s o e w = rw e w

  pub subtree-ends :
      (left depth : ℕ) (items : JsMap Str Str) (p : Pending)
      → left + depth ≡ hash_len
      → IsUnique items
      → IsAddressed format hamt p
      → let r = subtree_of format hamt items depth p in
        Grows format hamt p r.1 × ((j : Str) → ends r.1 left depth j r.0 ≡ some (JsMap.get items j))
  unfolding subtree_of JsMap.get
  subtree-ends left depth [] p d u a = (record { kept = λ h n l. l; addressed = a }, λ j. refl)
  subtree-ends left depth (e ∷ items) p d u a =
      let (nothing, h, here, g, found) = subtree_of_lem format hamt left depth e items p d u a in
      (g, λ j. ends-at _ left depth j h _ _ here (found j))

  pub leaf-Applied :
      (p : Pending) (left depth : ℕ) (hash : Str) (items : JsMap Str Str) (changes : List KeyChange)
      → left + depth ≡ hash_len
      → IsAddressed format hamt p
      → load format hamt p hash ≡ some (leaf items)
      → Applied p left depth hash changes
          (apply_items format hamt depth hash p (change_items (items, false) changes))
  leaf-Applied p left depth hash items changes d a l =
      let r = change_items (items, false) changes in
      elim (Bool-cases r.1) [
        | inl changed ↦
            let (g, e) =
              subtree-ends left depth r.0 p d
                (change_items-IsUnique (items, false) changes
                  (load-UniqueNode format hamt p hash (leaf items) l))
                a in
            rw changed (record {
              grows = g;
              finds = λ j o w.
                  e j
                  ∙ ap some (
                      get-change_items (items, false) changes j
                      ∙ ap (after changes j) (
                          some-injective _ _ (
                            sym (
                              walk_at_leaf format hamt items p left depth j hash (leaf items) l
                                (λ k. refl))
                            ∙ w)));
            })
        | inr same ↦ rw same (record {
          grows = record { kept = λ h n k. k; addressed = a };
          finds = λ j o w.
              walk_at_leaf format hamt items p left depth j hash (leaf items) l (λ k. refl)
              ∙ ap some (
                  ap (λ x. JsMap.get x.0 j) (sym (change_items-Same (items, false) changes same))
                  ∙ get-change_items (items, false) changes j
                  ∙ ap (after changes j) (
                      some-injective _ _ (
                        sym (
                          walk_at_leaf format hamt items p left depth j hash (leaf items) l
                            (λ k. refl))
                        ∙ w)));
        })
      ]
