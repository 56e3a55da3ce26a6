-- ===== src/Hamt/Trie/Stored.antt =====
-- Walks that start at a node just stored.
use agex_ts.Prelude.{ℕ, zero, suc, ◌+◌, Str, str_Eq, ◌≡◌, refl, ap, some}
use agex_ts.JsMap
use agex_ts.JsMap.{JsMap}
use agex_ts.Hamt.Trie.{
  Node, leaf, branch, SameNode, Format, Hamt, Pending, nibble, load, store_node, follow,
}
use agex_ts.Hamt.Trie.Walk.{walk, load-store_node}

module _ (format : Format) (hamt : Hamt) where
  -- A walk at a leaf that is there.
  pub walk_at_leaf :
      (items : JsMap Str Str) (q : Pending) (left depth : ℕ) (j hash : Str) (m : Node)
      → load format hamt q hash ≡ some m
      → SameNode m (leaf items)
      → walk format hamt q left depth j hash ≡ some (JsMap.get items j)
  unfolding walk
  walk_at_leaf items q zero depth j hash (leaf x) e s = rw e (ap some (s j))
  walk_at_leaf items q (suc left) depth j hash (leaf x) e s = rw e (ap some (s j))
  walk_at_leaf items q left depth j hash (branch x) e s = absurd s

  -- A walk at a branch that is there.
  pub walk_at_branch :
      (children : JsMap Str Str) (q : Pending) (left depth : ℕ) (j hash : Str) (m : Node)
      → load format hamt q hash ≡ some m
      → SameNode m (branch children)
      → walk format hamt q (suc left) depth j hash
        ≡ follow
            (λ next. walk format hamt q left (depth + 1) j next)
            (JsMap.get children (nibble (format.key_hash j) depth))
  unfolding walk
  walk_at_branch children q left depth j hash (branch x) e s =
      rw (e, s (nibble (format.key_hash j) depth)) refl
  walk_at_branch children q left depth j hash (leaf x) e s = absurd s

  -- A walk to a stored leaf.
  pub walk-leaf :
      (items : JsMap Str Str) (p : Pending) (left depth : ℕ) (j : Str)
      → let r = store_node format hamt (leaf items) p in
        walk format hamt r.1 left depth j r.0 ≡ some (JsMap.get items j)
  walk-leaf items p left depth j =
      let r = store_node format hamt (leaf items) p in
      let (m, e, s) = load-store_node format hamt (leaf items) p in
      walk_at_leaf items r.1 left depth j r.0 m e s

  -- A walk through a stored branch.
  pub walk-branch :
      (children : JsMap Str Str) (p : Pending) (left depth : ℕ) (j : Str)
      → let r = store_node format hamt (branch children) p in
        walk format hamt r.1 (suc left) depth j r.0
        ≡ follow
            (λ next. walk format hamt r.1 left (depth + 1) j next)
            (JsMap.get children (nibble (format.key_hash j) depth))
  walk-branch children p left depth j =
      let r = store_node format hamt (branch children) p in
      let (m, e, s) = load-store_node format hamt (branch children) p in
      walk_at_branch children r.1 left depth j r.0 m e s
