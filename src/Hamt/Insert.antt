-- ===== src/Hamt/Insert.antt =====
-- packages/kvgit-ts/src/hamt.ts: `insert` and `insertAt` of `Hamt`.
pub mod Lookup
pub mod Branches
pub mod Runs
pub mod Roots
use agex_ts.Prelude.{
  ℕ, zero, suc, ◌+◌, ◌-◌, Str, str_Eq, ◌==◌, Option, none, some, List, [], ◌∷◌, leb, if◌then◌else◌,
}
use agex_ts.JsMap
use agex_ts.JsMap.{JsMap}
use agex_ts.Store.{Bytes}
use agex_ts.Hamt.Trie.{
  Node, leaf, branch, Format, Hamt, Pending, hash_len, nibble, load, store_node, split_leaf,
}

module _ (format : Format) (hamt : Hamt) where
  -- a leaf over the bucket size becomes a branch
  abbrev pub put_items : ℕ → JsMap Str Str → Pending → Str × Pending
  put_items depth items pending =
      if leb (JsMap.size items) hamt.bucket_max
      then store_node format hamt (leaf items) pending
      else split_leaf format hamt (hash_len - depth) depth items pending

  abbrev pub insert_item :
      ℕ → JsMap Str Str → Str → Str → Str → Pending → Option Str → Str × Pending
  insert_item depth items key encoded node_hash pending none =
      put_items depth (JsMap.set items key encoded) pending
  insert_item depth items key encoded node_hash pending (some existing) =
      if existing == encoded
      then (node_hash, pending)
      else put_items depth (JsMap.set items key encoded) pending

  abbrev pub relink : JsMap Str Str → Str → Str → Str → Str × Pending → Str × Pending
  relink children chunk node_hash child r =
      if r.0 == child
      then (node_hash, r.1)
      else store_node format hamt (branch (JsMap.set children chunk r.0)) r.1

  abbrev pub returned :
      JsMap Str Str → Str → Str → Str → Option (Str × Pending) → Option (Str × Pending)
  returned children chunk node_hash child none = none
  returned children chunk node_hash child (some r) = some (relink children chunk node_hash child r)

  abbrev pub new_leaf : Str → Str → Pending → Str × Pending
  new_leaf key encoded pending = store_node format hamt (leaf ((key, encoded) ∷ [])) pending

  abbrev pub graft : JsMap Str Str → Str → Str × Pending → Str × Pending
  graft children chunk r = store_node format hamt (branch (JsMap.set children chunk r.0)) r.1

  abbrev pub insert_child :
      (Str → Pending → Option (Str × Pending))
      → JsMap Str Str
      → Str
      → Str
      → Str
      → Str
      → Pending
      → Option Str
      → Option (Str × Pending)
  insert_child go children chunk key encoded node_hash pending (some child) =
      returned children chunk node_hash child (go child pending)
  insert_child go children chunk key encoded node_hash pending none =
      some (graft children chunk (new_leaf key encoded pending))

  abbrev pub insert_node :
      (Str → Pending → Option (Str × Pending))
      → ℕ
      → Str
      → Str
      → Str
      → Str
      → Pending
      → Option Node
      → Option (Str × Pending)
  insert_node go depth chunk key encoded node_hash pending none =
      some (new_leaf key encoded pending)
  insert_node go depth chunk key encoded node_hash pending (some (leaf items)) =
      some (insert_item depth items key encoded node_hash pending (JsMap.get items key))
  insert_node go depth chunk key encoded node_hash pending (some (branch children)) =
      insert_child go children chunk key encoded node_hash pending (JsMap.get children chunk)

  -- With no fuel left it has not returned.
  unfoldable pub insert_at : ℕ → ℕ → Str → Str → Str → Pending → Option (Str × Pending)
  unfolding load store_node split_leaf
  insert_at zero depth key encoded node_hash pending = none
  insert_at (suc fuel) depth key encoded node_hash pending =
      insert_node (λ child p. insert_at fuel (depth + 1) key encoded child p) depth
        (nibble (format.key_hash key) depth) key encoded node_hash pending
        (load format hamt pending node_hash)

  unfoldable pub insert : Str → Str → Bytes → Pending → Option (Str × Pending)
  insert root_hash key value pending =
      let encoded = format.encode_value value in
      if root_hash == format.empty_hash
      then some (new_leaf key encoded pending)
      else insert_at (suc hash_len) 0 key encoded root_hash pending

  abbrev pub continue :
      (Str → Pending → Option (Str × Pending)) → Option (Str × Pending) → Option (Str × Pending)
  continue go none = none
  continue go (some r) = go r.0 r.1

  -- The first loop of `updated`.
  unfoldable pub insert_all : Str → List (Str × Bytes) → Pending → Option (Str × Pending)
  insert_all current_root [] pending = some (current_root, pending)
  insert_all current_root ((key, value) ∷ updates) pending =
      continue (λ root p. insert_all root updates p) (insert current_root key value pending)
