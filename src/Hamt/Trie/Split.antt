-- ===== src/Hamt/Trie/Split.antt =====
-- What splitting a leaf leaves: every entry is found under the branch that takes its place.
use agex_ts.Prelude.{
  ℕ, zero, suc, ◌+◌, Str, str_Eq, str_eq_iff, ◌==◌, ◌≡◌, subst, ◌∙◌, ap, Option, none, some, [],
  ◌∷◌, if◌then◌else◌, Bool-cases, inl, inr, arith, leb, or_else,
}
use agex_ts.JsMap
use agex_ts.JsMap.{JsMap}
use agex_ts.JsMap.Laws.{IsUnique, get-set}
use agex_ts.Hamt.Trie.{
  leaf, branch, Format, Hamt, Pending, nibble, store_node, follow, group_items, bucket,
  split_groups, split_by, wrapped, split_leaf,
}
use agex_ts.Hamt.Trie.Groups.{
  Groups, AllUnique, in_group, group_items-IsUnique, in_group-group_items,
}
use agex_ts.Hamt.Trie.Stored.{walk-leaf, walk-branch}
use agex_ts.Hamt.Trie.Walk.{walk, IsAddressed, Grows, Grows-trans, store_node-Grows, walk-Grows}

module _ (format : Format) (hamt : Hamt) where
  -- What `go` must do for a group: store a subtree, `left` levels deep at most, that has its entries.
  abbrev pub Splits : ℕ → ℕ → (JsMap Str Str → Pending → Str × Pending) → Type 0
  Splits left depth go =
      (items : JsMap Str Str) (p : Pending)
      → IsUnique items
      → IsAddressed format hamt p
      → Grows format hamt p (go items p).1
        × ((j : Str)
            → walk format hamt (go items p).1 left depth j (go items p).0
              ≡ some (JsMap.get items j))

  pub bucket-Splits :
      (left depth : ℕ) (go : JsMap Str Str → Pending → Str × Pending)
      → Splits left depth go
      → Splits left depth (bucket format hamt go)
  bucket-Splits left depth go s items p u a =
      elim (Bool-cases (leb (JsMap.size items) hamt.bucket_max)) [
        | inl fits ↦ rw fits (
          store_node-Grows format hamt (leaf items) p a,
          λ j. walk-leaf format hamt items p left depth j,
        )
        | inr over ↦ rw over (s items p u a)
      ]

  -- what is still to come for a key: its group, or else the child already there
  abbrev pub Awaits :
      Pending → ℕ → ℕ → Str → Option Str → Option (JsMap Str Str) → Option Str → Type 0
  Awaits p left depth j o (some items) child = JsMap.get items j ≡ o
  Awaits p left depth j o none child =
      follow (λ next. walk format hamt p left (depth + 1) j next) child ≡ some o

  pub Awaits-Grows :
      (p q : Pending) (left depth : ℕ) (j : Str) (o : Option Str) (group : Option (JsMap Str Str))
      (child : Option Str)
      → Grows format hamt p q
      → Awaits p left depth j o group child
      → Awaits q left depth j o group child
  Awaits-Grows p q left depth j o (some items) child g h = h
  Awaits-Grows p q left depth j o none none g h = h
  Awaits-Grows p q left depth j o none (some next) g h =
      walk-Grows format hamt p q left (depth + 1) j next o g h

  split_groups-Grows :
      (left depth : ℕ) (go : JsMap Str Str → Pending → Str × Pending) (groups : Groups)
      (children : JsMap Str Str) (p : Pending)
      → Splits left (depth + 1) go
      → AllUnique groups
      → IsAddressed format hamt p
      → Grows format hamt p (split_groups format hamt go groups children p).1
  unfolding split_groups
  split_groups-Grows left depth go [] children p s us a =
      store_node-Grows format hamt (branch children) p a
  split_groups-Grows left depth go ((chunk, items) ∷ groups) children p s (u, us) a =
      let r = bucket format hamt go items p in
      let g = (bucket-Splits left (depth + 1) go s items p u a).0 in
      Grows-trans format hamt p r.1 _ g (
        split_groups-Grows left depth go groups (JsMap.set children chunk r.0) r.1 s us g.addressed)

  walk-split_groups :
      (left depth : ℕ) (go : JsMap Str Str → Pending → Str × Pending) (groups : Groups)
      (children : JsMap Str Str) (p : Pending) (j : Str) (o : Option Str)
      → Splits left (depth + 1) go
      → IsUnique groups
      → AllUnique groups
      → IsAddressed format hamt p
      → Awaits p left depth j o
          (JsMap.get groups (nibble (format.key_hash j) depth))
          (JsMap.get children (nibble (format.key_hash j) depth))
      → let r = split_groups format hamt go groups children p in
        walk format hamt r.1 (suc left) depth j r.0 ≡ some o
  unfolding split_groups JsMap.get
  walk-split_groups left depth go [] children p j o s u us a w =
      let q = (store_node format hamt (branch children) p).1 in
      walk-branch format hamt children p left depth j
      ∙ Awaits-Grows p q left depth j o none (JsMap.get children (nibble (format.key_hash j) depth))
          (store_node-Grows format hamt (branch children) p a) w
  walk-split_groups left depth go ((chunk, items) ∷ groups) children p j o s (fresh, u) (ui, us) a
        w =
      let c = nibble (format.key_hash j) depth in
      let r = bucket format hamt go items p in
      let (g, found) = bucket-Splits left (depth + 1) go s items p ui a in
      walk-split_groups left depth go groups (JsMap.set children chunk r.0) r.1 j o s u us
        g.addressed
        (rw (get-set children chunk c r.0) (elim (Bool-cases (chunk == c)) [
          | inl here ↦
              let gone : JsMap.get groups c ≡ none =
                subst (λ x. JsMap.get groups x ≡ none) ((str_eq_iff chunk c).0 here) fresh in
              rw (gone, here) (found j ∙ ap some (rw here at w))
          | inr there ↦ rw there (
              Awaits-Grows p r.1 left depth j o (JsMap.get groups c) (JsMap.get children c) g
                (rw there at w))
        ]))

  Awaits-group :
      (p : Pending) (left depth : ℕ) (j : Str) (o : Option Str) (group : Option (JsMap Str Str))
      → JsMap.get (or_else group []) j ≡ o
      → Awaits p left depth j o group none
  unfolding JsMap.get
  Awaits-group p left depth j o none e = ap some e
  Awaits-group p left depth j o (some items) e = e

  split_by-Grows :
      (left depth : ℕ) (go : JsMap Str Str → Pending → Str × Pending) (groups : Groups)
      (p : Pending)
      → Splits left (depth + 1) go
      → AllUnique groups
      → IsAddressed format hamt p
      → Grows format hamt p (split_by format hamt go groups p).1
  split_by-Grows left depth go [] p s us a = split_groups-Grows left depth go [] [] p s us a
  split_by-Grows left depth go ((chunk, items) ∷ []) p s (u, us) a =
      let r = go items p in
      let g = (s items p u a).0 in
      Grows-trans format hamt p r.1 _ g
        (store_node-Grows format hamt (branch ((chunk, r.0) ∷ [])) r.1 g.addressed)
  split_by-Grows left depth go (x ∷ y ∷ groups) p s us a =
      split_groups-Grows left depth go (x ∷ y ∷ groups) [] p s us a

  walk-wrapped :
      (left depth : ℕ) (chunk : Str) (items : JsMap Str Str) (r : Str × Pending) (j : Str)
      (o : Option Str)
      → IsAddressed format hamt r.1
      → ((i : Str) → walk format hamt r.1 left (depth + 1) i r.0 ≡ some (JsMap.get items i))
      → (if chunk == nibble (format.key_hash j) depth then JsMap.get items j else none) ≡ o
      → let w = wrapped format hamt chunk r in walk format hamt w.1 (suc left) depth j w.0 ≡ some o
  unfolding JsMap.get
  walk-wrapped left depth chunk items r j o a found w =
      let c = nibble (format.key_hash j) depth in
      let q = (store_node format hamt (branch ((chunk, r.0) ∷ [])) r.1).1 in
      let g = store_node-Grows format hamt (branch ((chunk, r.0) ∷ [])) r.1 a in
      walk-branch format hamt ((chunk, r.0) ∷ []) r.1 left depth j
      ∙ elim (Bool-cases (chunk == c)) [
        | inl here ↦ rw here (
            walk-Grows format hamt r.1 q left (depth + 1) j r.0 (JsMap.get items j) g (found j)
            ∙ ap some (rw here at w))
        | inr there ↦ rw there (ap some (rw there at w))
      ]

  walk-split_by :
      (left depth : ℕ) (go : JsMap Str Str → Pending → Str × Pending) (groups : Groups)
      (p : Pending) (j : Str) (o : Option Str)
      → Splits left (depth + 1) go
      → IsUnique groups
      → AllUnique groups
      → IsAddressed format hamt p
      → in_group groups (nibble (format.key_hash j) depth) j ≡ o
      → let r = split_by format hamt go groups p in
        walk format hamt r.1 (suc left) depth j r.0 ≡ some o
  unfolding JsMap.get
  walk-split_by left depth go [] p j o s u us a w =
      walk-split_groups left depth go [] [] p j o s u us a (Awaits-group p left depth j o none w)
  walk-split_by left depth go ((chunk, items) ∷ []) p j o s u (ui, us) a w =
      let (g, found) = s items p ui a in
      walk-wrapped left depth chunk items (go items p) j o g.addressed found
        (elim (Bool-cases (chunk == nibble (format.key_hash j) depth)) [
          | inl here ↦ rw here (rw here at w)
          | inr there ↦ rw there (rw there at w)
        ])
  walk-split_by left depth go (x ∷ y ∷ groups) p j o s u us a w =
      walk-split_groups left depth go (x ∷ y ∷ groups) [] p j o s u us a
        (Awaits-group p left depth j o _ w)

  pub split_leaf-Splits : (left depth : ℕ) → Splits left depth (split_leaf format hamt left depth)
  unfolding split_leaf JsMap.get
  split_leaf-Splits zero depth items p u a = (
    store_node-Grows format hamt (leaf items) p a,
    λ j. walk-leaf format hamt items p zero depth j,
  )
  split_leaf-Splits (suc left) depth items p u a =
      let groups = group_items format hamt depth items [] in
      let (gu, gus) = group_items-IsUnique format hamt depth items [] tt tt in
      let s = split_leaf-Splits left (depth + 1) in
      (
        split_by-Grows left depth (split_leaf format hamt left (depth + 1)) groups p s gus a,
        λ j.
            walk-split_by left depth (split_leaf format hamt left (depth + 1)) groups p j
              (JsMap.get items j) s gu gus a
              (ground (arith, in_group-group_items format hamt depth items [] j u)),
      )

  -- Where nodes stand under their own digests, splitting entries with distinct keys, given as many
  -- levels as are left, stores a subtree of them: every node that was there stays, and a walk from its
  -- root that starts at its depth finds, for every key, what the entries have.
  pub split_leaf_lem :
      (left depth : ℕ) (items : JsMap Str Str) (p : Pending)
      → IsUnique items
      → IsAddressed format hamt p
      → let r = split_leaf format hamt left depth items p in
        Grows format hamt p r.1
        × ((j : Str) → walk format hamt r.1 left depth j r.0 ≡ some (JsMap.get items j))
  split_leaf_lem left depth items p u a = split_leaf-Splits left depth items p u a
