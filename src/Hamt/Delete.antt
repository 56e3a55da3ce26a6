-- ===== src/Hamt/Delete.antt =====
-- packages/kvgit-ts/src/hamt.ts: `delete`, `deleteAt` and `tryCollapse` of `Hamt`.
use agex_ts.Prelude.{
  ℕ, zero, suc, ◌+◌, Str, str_Eq, ◌==◌, Bool, not, false, Option, none, some, List, [], ◌∷◌, ltb,
  map, is_empty, if◌then◌else◌,
}
use agex_ts.JsMap
use agex_ts.JsMap.{JsMap}
use agex_ts.Hamt.Trie.{
  Node, leaf, branch, Format, Hamt, Pending, hash_len, nibble, load, store_node,
}

-- A subtree's new hash, or none if it is now empty.
abbrev pub Subtree : Type 0
Subtree = Option Str × Pending

module _ (format : Format) (hamt : Hamt) where
  -- The inner loop of `tryCollapse`: the entries merged and their count, or none once they are more
  -- than a bucket.
  unfoldable pub merge_items : JsMap Str Str → JsMap Str Str → ℕ → Option (JsMap Str Str × ℕ)
  merge_items [] merged count = some (merged, count)
  merge_items ((k, v) ∷ items) merged count =
      let fresh = not (JsMap.has merged k) in
      let merged' = if fresh then JsMap.set merged k v else merged in
      let count' = if fresh then count + 1 else count in
      let rest = merge_items items merged' count' in
      if ltb hamt.bucket_max count' then none else rest

  abbrev merge_child :
      (JsMap Str Str → ℕ → Option (JsMap Str Str))
      → Option (JsMap Str Str × ℕ)
      → Option (JsMap Str Str)
  merge_child go none = none
  merge_child go (some (merged, count)) = go merged count

  abbrev merge_node :
      (JsMap Str Str → ℕ → Option (JsMap Str Str))
      → JsMap Str Str
      → ℕ
      → Option Node
      → Option (JsMap Str Str)
  merge_node go merged count none = none
  merge_node go merged count (some (branch children)) = none
  merge_node go merged count (some (leaf items)) = merge_child go (merge_items items merged count)

  -- The outer loop: every child is a leaf, and the union of their entries fits one bucket.
  unfoldable pub merge_leaves : List Str → Pending → JsMap Str Str → ℕ → Option (JsMap Str Str)
  unfolding merge_items load
  merge_leaves [] pending merged count = some merged
  merge_leaves (child_hash ∷ rest) pending merged count =
      merge_node (λ m c. merge_leaves rest pending m c) merged count
        (load format hamt pending child_hash)

  abbrev collapsed : JsMap Str Str → Pending → Option (JsMap Str Str) → Str × Pending
  collapsed children pending (some merged) = store_node format hamt (leaf merged) pending
  collapsed children pending none = store_node format hamt (branch children) pending

  -- The last steps of `deleteAt`: the collapsed leaf, or else the branch.
  unfoldable pub collapse_or_store : JsMap Str Str → Pending → Str × Pending
  unfolding merge_leaves store_node
  collapse_or_store children pending =
      collapsed children pending (merge_leaves (map (λ e. e.1) children) pending [] 0)

  abbrev stored : Str × Pending → Subtree
  stored r = (some r.0, r.1)

  abbrev delete_item : Str → Str → JsMap Str Str → Pending → Subtree
  delete_item node_hash key items pending =
      let new_items = JsMap.delete items key in
      if JsMap.has items key
      then if is_empty new_items
        then (none, pending)
        else stored (store_node format hamt (leaf new_items) pending)
      else (some node_hash, pending)

  abbrev same_hash : Option Str → Str → Bool
  same_hash none child = false
  same_hash (some h) child = h == child

  abbrev relinked : JsMap Str Str → Str → Option Str → JsMap Str Str
  relinked children chunk none = JsMap.delete children chunk
  relinked children chunk (some h) = JsMap.set children chunk h

  abbrev delete_returned : JsMap Str Str → Str → Str → Str → Option Subtree → Option Subtree
  delete_returned children chunk node_hash child none = none
  delete_returned children chunk node_hash child (some r) =
      let new_children = relinked children chunk r.0 in
      some (
        if same_hash r.0 child
        then (some node_hash, r.1)
        else if is_empty new_children
        then (none, r.1)
        else stored (collapse_or_store new_children r.1))

  abbrev delete_child :
      (Str → Pending → Option Subtree)
      → JsMap Str Str
      → Str
      → Str
      → Pending
      → Option Str
      → Option Subtree
  delete_child go children chunk node_hash pending none = some (some node_hash, pending)
  delete_child go children chunk node_hash pending (some child) =
      delete_returned children chunk node_hash child (go child pending)

  abbrev delete_node :
      (Str → Pending → Option Subtree) → Str → Str → Str → Pending → Option Node → Option Subtree
  delete_node go chunk key node_hash pending none = some (some node_hash, pending)
  delete_node go chunk key node_hash pending (some (leaf items)) =
      some (delete_item node_hash key items pending)
  delete_node go chunk key node_hash pending (some (branch children)) =
      delete_child go children chunk node_hash pending (JsMap.get children chunk)

  -- With no fuel left it has not returned.
  unfoldable pub delete_at : ℕ → ℕ → Str → Str → Pending → Option Subtree
  unfolding load store_node collapse_or_store
  delete_at zero depth key node_hash pending = none
  delete_at (suc fuel) depth key node_hash pending =
      delete_node (λ child p. delete_at fuel (depth + 1) key child p)
        (nibble (format.key_hash key) depth) key node_hash pending
        (load format hamt pending node_hash)

  abbrev pub rooted : Option Subtree → Option (Str × Pending)
  rooted none = none
  rooted (some (none, pending)) = some (format.empty_hash, pending)
  rooted (some (some h, pending)) = some (h, pending)

  unfoldable pub delete : Str → Str → Pending → Option (Str × Pending)
  delete root_hash key pending =
      if root_hash == format.empty_hash
      then some (format.empty_hash, pending)
      else rooted (delete_at (suc hash_len) 0 key root_hash pending)
