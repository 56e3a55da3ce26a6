-- ===== src/Hamt/Batch.antt =====
-- packages/kvgit-ts/src/hamt.ts: `updatedBatch`, `applyAt` and `subtreeOf` of `Hamt`.
pub mod Canon
pub mod Leaves
pub mod Loops
pub mod Updates
pub mod Steps
pub mod Groups
use agex_ts.Prelude.{
  ℕ, zero, suc, ◌+◌, Str, str_Eq, ◌==◌, Bool, true, false, not, ◌&&◌, ◌||◌, Option, none, some,
  List, [], ◌∷◌, ◌++◌, any, is_some, is_empty, or_else, length, map, if◌then◌else◌,
}
use agex_ts.JsMap
use agex_ts.JsMap.{JsMap}
use agex_ts.JsMap.Batch.{set_all}
use agex_ts.Store.{Bytes}
use agex_ts.Hamt.Trie.{
  Node, leaf, branch, Format, Hamt, Pending, hash_len, nibble, load, store_node, bucket, split_leaf,
}
use agex_ts.Hamt.Insert.{put_items}
use agex_ts.Hamt.Delete.{Subtree, collapse_or_store, rooted}
use agex_ts.Hamt.Update.{finished}

-- One key's change: its new encoded value, or none to remove it. Its hash is computed where it is read.
pub record KeyChange : Type 0 where
  pub key : Str
  pub value : Option Str

-- what one change makes of a leaf's entries, and whether that differs
abbrev pub set_item : JsMap Str Str → Str → Str → Option Str → Bool → JsMap Str Str × Bool
set_item items key v none changed = (JsMap.set items key v, true)
set_item items key v (some old) changed =
    if old == v then (items, changed) else (JsMap.set items key v, true)

abbrev pub change_item : JsMap Str Str × Bool → Str → Option Str → JsMap Str Str × Bool
change_item r key none = if JsMap.has r.0 key then (JsMap.delete r.0 key, true) else r
change_item r key (some v) = set_item r.0 key v (JsMap.get r.0 key) r.1

unfoldable pub change_items : JsMap Str Str × Bool → List KeyChange → JsMap Str Str × Bool
change_items r [] = r
change_items r (c ∷ changes) = change_items (change_item r c.key c.value) changes

-- the entries that a group of changes sets
abbrev pub set_value : JsMap Str Str → Str → Option Str → JsMap Str Str
set_value items key none = items
set_value items key (some v) = JsMap.set items key v

unfoldable pub new_items : JsMap Str Str → List KeyChange → JsMap Str Str
new_items items [] = items
new_items items (c ∷ changes) = new_items (set_value items c.key c.value) changes

abbrev pub removes : KeyChange → Bool
removes c = not (is_some c.value)

-- the state of the loop over the groups
pub record Branching : Type 0 where
  pub children : JsMap Str Str
  pub changed : Bool
  pub removed : Bool
  pub pending : Pending

abbrev pub link : JsMap Str Str → Str → Option Str → JsMap Str Str
link children chunk none = JsMap.delete children chunk
link children chunk (some h) = JsMap.set children chunk h

abbrev pub linked : Branching → Str → List KeyChange → Subtree → Branching
linked b chunk group next = record {
  children = link b.children chunk next.0;
  changed = true;
  removed = b.removed || any removes group;
  pending = next.1;
}

-- a group with no child yet
abbrev pub grown : Branching → Str → List KeyChange → Subtree → Branching
grown b chunk group (none, pending) = record b { pending = pending }
grown b chunk group (some h, pending) = linked b chunk group (some h, pending)

abbrev pub same_child : Option Str → Str → Bool
same_child none child = false
same_child (some h) child = h == child

-- a group under a child, once that is changed
abbrev pub regrown : Branching → Str → List KeyChange → Str → Option Subtree → Option Branching
regrown b chunk group child none = none
regrown b chunk group child (some next) =
    some
      (if same_child next.0 child then record b { pending = next.1 } else linked b chunk group next)

abbrev pub then_next : (Branching → Option Branching) → Option Branching → Option Branching
then_next go none = none
then_next go (some b) = go b

module _ (format : Format) (hamt : Hamt) where
  -- A leaf if the entries fit one bucket, else split; none if there are none.
  unfoldable pub subtree_of : JsMap Str Str → ℕ → Pending → Subtree
  unfolding store_node split_leaf
  subtree_of [] depth pending = (none, pending)
  subtree_of (e ∷ items) depth pending =
      let r = put_items format hamt depth (e ∷ items) pending in (some r.0, r.1)

  -- the changes by the nibble they take at `depth`
  unfoldable pub group_changes :
      ℕ → List KeyChange → JsMap Str (List KeyChange) → JsMap Str (List KeyChange)
  group_changes depth [] groups = groups
  group_changes depth (c ∷ changes) groups =
      let chunk = nibble (format.key_hash c.key) depth in
      group_changes depth changes
        (JsMap.set groups chunk (or_else (JsMap.get groups chunk) [] ++ c ∷ []))

  abbrev pub apply_child :
      (Str → List KeyChange → Pending → Option Subtree)
      → ℕ
      → Branching
      → Str
      → List KeyChange
      → Option Str
      → Option Branching
  apply_child go depth b chunk group none =
      some (grown b chunk group (subtree_of (new_items [] group) (depth + 1) b.pending))
  apply_child go depth b chunk group (some child) =
      regrown b chunk group child (go child group b.pending)

  unfoldable pub apply_groups :
      (Str → List KeyChange → Pending → Option Subtree)
      → ℕ
      → JsMap Str (List KeyChange)
      → Branching
      → Option Branching
  unfolding subtree_of new_items
  apply_groups go depth [] b = some b
  apply_groups go depth ((chunk, group) ∷ groups) b =
      then_next (λ b'. apply_groups go depth groups b')
        (apply_child go depth b chunk group (JsMap.get b.children chunk))

  abbrev pub present : Str × Pending → Subtree
  present r = (some r.0, r.1)

  abbrev pub settled : Str → Branching → Subtree
  settled node_hash b =
      if not b.changed
      then (some node_hash, b.pending)
      else if is_empty b.children
      then (none, b.pending)
      else if b.removed
      then present (collapse_or_store format hamt b.children b.pending)
      else present (store_node format hamt (branch b.children) b.pending)

  abbrev pub branched : Str → Option Branching → Option Subtree
  branched node_hash none = none
  branched node_hash (some b) = some (settled node_hash b)

  abbrev pub apply_items : ℕ → Str → Pending → JsMap Str Str × Bool → Subtree
  apply_items depth node_hash pending r =
      if not r.1 then (some node_hash, pending) else subtree_of r.0 depth pending

  abbrev pub apply_node :
      (Str → List KeyChange → Pending → Option Subtree)
      → ℕ
      → Str
      → List KeyChange
      → Pending
      → Option Node
      → Option Subtree
  apply_node go depth node_hash changes pending none =
      some (apply_items depth node_hash pending (change_items ([], true) changes))
  apply_node go depth node_hash changes pending (some (leaf items)) =
      some (apply_items depth node_hash pending (change_items (items, false) changes))
  apply_node go depth node_hash changes pending (some (branch children)) = branched node_hash (
      apply_groups go depth (group_changes depth changes [])
        (record { children = children; changed = false; removed = false; pending = pending }))

  -- With no fuel left it has not returned.
  unfoldable pub apply_at : ℕ → Str → ℕ → List KeyChange → Pending → Option Subtree
  unfolding load store_node subtree_of change_items apply_groups group_changes collapse_or_store
  apply_at zero node_hash depth changes pending = none
  apply_at (suc fuel) node_hash depth changes pending =
      apply_node (λ child group p. apply_at fuel child (depth + 1) group p) depth node_hash changes
        pending (load format hamt pending node_hash)

  -- the changes by key: the updates, then the removals
  abbrev encoded : List (Str × Bytes) → List (Str × Option Str)
  encoded [] = []
  encoded ((key, value) ∷ updates) = (key, some (format.encode_value value)) ∷ encoded updates

  abbrev dropped : List Str → List (Str × Option Str)
  dropped [] = []
  dropped (key ∷ removals) = (key, none) ∷ dropped removals

  abbrev changes_of : JsMap Str (Option Str) → List KeyChange
  changes_of ops = map (λ e. record { key = e.0; value = e.1 }) ops

  unfoldable pub updated_batch : List (Str × Bytes) → List Str → Option Hamt
  unfolding set_all
  updated_batch updates removals =
      let ops = set_all (set_all [] (encoded updates)) (dropped removals) in
      if is_empty ops
      then some hamt
      else finished format hamt
          (rooted format hamt (apply_at (suc hash_len) hamt.root 0 (changes_of ops) hamt.pending))
