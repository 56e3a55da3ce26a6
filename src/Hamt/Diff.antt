-- ===== src/Hamt/Diff.antt =====
-- packages/kvgit-ts/src/hamt.ts: `itemsFrom`, `diff` and `diffWalk` of `Hamt`.
pub mod Compare
use agex_ts.Prelude.{
  ℕ, zero, suc, ◌+◌, Str, str_Eq, ◌==◌, Bool, Option, none, some, List, [], ◌∷◌, ◌++◌, or_else, map,
  if◌then◌else◌, is_some,
}
use agex_ts.JsMap
use agex_ts.JsMap.{JsMap, JsSet}
use agex_ts.JsMap.Batch.{set_all}
use agex_ts.Store.{Bytes}
use agex_ts.Hamt.Trie.{Node, leaf, branch, Format, Hamt, hash_len, load}
use agex_ts.Hamt.Update.{child_hashes}

pub record HamtDiff : Type 0 where
  pub added : JsMap Str Bytes
  pub removed : JsMap Str Bytes
  pub modified : JsMap Str (Bytes × Bytes)

-- The two loops that compare the entries of both sides, of a pair of leaves or of whole subtrees;
-- `same` compares two values there, and `bytes` makes of one what the diff holds.
module _ {V : Type 0} (same : V → V → Bool) (bytes : V → Bytes) where
  abbrev pub compare_old : HamtDiff → Str → V → Option V → HamtDiff
  compare_old d k v none = record d { removed = JsMap.set d.removed k (bytes v) }
  compare_old d k v (some bv) =
      if same bv v then d else record d { modified = JsMap.set d.modified k (bytes v, bytes bv) }

  unfoldable pub compare_olds : JsMap Str V → JsMap Str V → HamtDiff → HamtDiff
  compare_olds [] b_items d = d
  compare_olds ((k, v) ∷ a_items) b_items d =
      compare_olds a_items b_items (compare_old d k v (JsMap.get b_items k))

  abbrev pub compare_new : HamtDiff → Str → V → Option V → HamtDiff
  compare_new d k v none = record d { added = JsMap.set d.added k (bytes v) }
  compare_new d k v (some av) = d

  unfoldable pub compare_news : JsMap Str V → JsMap Str V → HamtDiff → HamtDiff
  compare_news a_items [] d = d
  compare_news a_items ((k, v) ∷ b_items) d =
      compare_news a_items b_items (compare_new d k v (JsMap.get a_items k))

  unfoldable pub compare_items : JsMap Str V → JsMap Str V → HamtDiff → HamtDiff
  unfolding compare_olds compare_news
  compare_items a_items b_items d = compare_news a_items b_items (compare_olds a_items b_items d)

abbrev both :
    Option (List (Str × Bytes)) → Option (List (Str × Bytes)) → Option (List (Str × Bytes))
both none ys = none
both (some xs) none = none
both (some xs) (some ys) = some (xs ++ ys)

abbrev then_walk : (HamtDiff → Option HamtDiff) → Option HamtDiff → Option HamtDiff
then_walk go none = none
then_walk go (some d) = go d

abbrev all_added : HamtDiff → Option (List (Str × Bytes)) → Option HamtDiff
all_added d none = none
all_added d (some items) = some (record d { added = set_all d.added items })

abbrev all_removed : HamtDiff → Option (List (Str × Bytes)) → Option HamtDiff
all_removed d none = none
all_removed d (some items) = some (record d { removed = set_all d.removed items })

-- the keys of both sides' children, once each
abbrev chunks : JsMap Str Str → JsMap Str Str → JsSet Str
chunks a_children b_children =
    set_all (set_all [] (map (λ e. (e.0, tt)) a_children)) (map (λ e. (e.0, tt)) b_children)

module _ (format : Format) where
  module _ (hamt : Hamt) where
    -- the loop over a branch's children
    unfoldable pub items_of_children :
        (Str → Option (List (Str × Bytes))) → List Str → Option (List (Str × Bytes))
    items_of_children go [] = some []
    items_of_children go (child_hash ∷ rest) = both (go child_hash) (items_of_children go rest)

    abbrev items_of_node :
        (Str → Option (List (Str × Bytes))) → Option Node → Option (List (Str × Bytes))
    items_of_node go none = some []
    items_of_node go (some (leaf items)) = some (map (λ e. (e.0, format.decode_value e.1)) items)
    items_of_node go (some (branch children)) =
        items_of_children go (child_hashes (branch children))

    -- What `itemsFrom` yields. With no fuel left it has not returned.
    unfoldable pub items_from : ℕ → Str → Option (List (Str × Bytes))
    unfolding load items_of_children
    items_from zero node_hash = none
    items_from (suc fuel) node_hash =
        items_of_node (items_from fuel) (load format hamt [] node_hash)

  -- `this` and `other`
  module _ (hamt other : Hamt) where
    abbrev compare_leaves : JsMap Str Str → JsMap Str Str → HamtDiff → HamtDiff
    compare_leaves = compare_items (λ bv v. bv == v) format.decode_value

    -- the whole subtrees of two nodes of different kinds
    abbrev reconciled :
        HamtDiff → Option (List (Str × Bytes)) → Option (List (Str × Bytes)) → Option HamtDiff
    reconciled d none b_items = none
    reconciled d (some a_items) none = none
    reconciled d (some a_items) (some b_items) =
        some (compare_items (λ bv v. v == bv) (λ v. v) (set_all [] a_items) (set_all [] b_items) d)

    -- the loop over the children of two branches
    unfoldable pub diff_children :
        (Str → Str → HamtDiff → Option HamtDiff)
        → JsMap Str Str
        → JsMap Str Str
        → JsSet Str
        → HamtDiff
        → Option HamtDiff
    diff_children go a_children b_children [] d = some d
    diff_children go a_children b_children ((chunk, u) ∷ rest) d =
        let a_child = or_else (JsMap.get a_children chunk) format.empty_hash in
        let b_child = or_else (JsMap.get b_children chunk) format.empty_hash in
        then_walk (λ d'. diff_children go a_children b_children rest d') (go a_child b_child d)

    abbrev diff_nodes :
        (Str → Str → HamtDiff → Option HamtDiff)
        → ℕ
        → Str
        → Str
        → HamtDiff
        → Option Node
        → Option Node
        → Option HamtDiff
    diff_nodes go fuel a_hash b_hash d none none = some d
    diff_nodes go fuel a_hash b_hash d (some a) none = all_removed d (items_from hamt fuel a_hash)
    diff_nodes go fuel a_hash b_hash d none (some b) = all_added d (items_from other fuel b_hash)
    diff_nodes go fuel a_hash b_hash d (some (leaf a_items)) (some (leaf b_items)) =
        some (compare_leaves a_items b_items d)
    diff_nodes go fuel a_hash b_hash d (some (branch a_children)) (some (branch b_children)) =
        diff_children go a_children b_children (chunks a_children b_children) d
    diff_nodes go fuel a_hash b_hash d (some (leaf items)) (some (branch children)) =
        reconciled d (items_from hamt fuel a_hash) (items_from other fuel b_hash)
    diff_nodes go fuel a_hash b_hash d (some (branch children)) (some (leaf items)) =
        reconciled d (items_from hamt fuel a_hash) (items_from other fuel b_hash)

    -- With no fuel left it has not returned.
    unfoldable pub diff_walk : ℕ → Str → Str → HamtDiff → Option HamtDiff
    unfolding load items_from diff_children compare_items set_all
    diff_walk zero a_hash b_hash d = none
    diff_walk (suc fuel) a_hash b_hash d =
        let below =
          diff_nodes (diff_walk fuel) (suc fuel) a_hash b_hash d (load format hamt [] a_hash)
            (load format other [] b_hash) in
        if a_hash == b_hash
        then some d
        else if a_hash == format.empty_hash
        then all_added d (items_from other (suc fuel) b_hash)
        else if b_hash == format.empty_hash
        then all_removed d (items_from hamt (suc fuel) a_hash)
        else below

    unfoldable pub diff : Option HamtDiff
    unfolding diff_walk
    diff =
        diff_walk (suc hash_len) hamt.root other.root
          (record { added = []; removed = []; modified = [] })
