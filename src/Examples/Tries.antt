-- ===== src/Examples/Tries.antt =====
-- A trie with one entry to a leaf, in the written-out format.
use agex_ts.Prelude.{
  Str, str_Eq, ◌≡◌, refl, none, some, List, [], ◌∷◌, codes, suc, str_eq, str_eq_iff, ◌==◌, ap, some,
  or_else,
}
use agex_ts.JsMap
use agex_ts.JsMap.{JsMap}
use agex_ts.JsMap.Laws.{IsUnique}
use agex_ts.Store.{Bytes}
use agex_ts.Hamt.Trie
use agex_ts.Hamt.Trie.{leaf, branch, Hamt, Pending, hash_len, find, split_leaf, load}
use agex_ts.Hamt.Trie.Walk.{IsAddressed}
use agex_ts.Hamt.Insert.{insert_all, insert_at, insert}
use agex_ts.Hamt.Insert.Runs.{Returns, insert_at-Returns}
use agex_ts.Hamt.Insert.Roots.{AllInserted, empty-Contains, insert_all-AllInserted, find-insert_all}
use agex_ts.Hamt.Delete.{delete_at, delete}
use agex_ts.Hamt.Update.{updated, filter_pending, delete_all_keys}
use agex_ts.Hamt.Batch.{KeyChange, updated_batch, apply_at}
use agex_ts.Hamt.Batch.Updates.{Returned, apply_at-Returned}
use agex_ts.Hamt.Diff.{diff, compare_items}
use agex_ts.Hamt.Diff.Compare.{patched, patched-compare_items}
use agex_ts.Hamt.Update.Kept.{Filters}
use agex_ts.Hamt.Update.Filter.{filter_pending-Filters}
use mathlib.Core.Option.{map}
use agex_ts.Examples.Formats.{plain}

abbrev trie : Hamt
trie = record {
  store = λ k. none;
  root = plain.empty_hash;
  prefix = codes "hamt:";
  bucket_max = 1;
  pending = [];
}

trie-IsAddressed : IsAddressed plain trie []
unfolding JsMap.get
trie-IsAddressed = record { named = λ hash b e. cc }

-- the first two share a nibble
abbrev changes : List (Str × Bytes)
changes =
    (codes "aa", 1 ∷ []) ∷ (codes "ab", 2 ∷ []) ∷ (codes "b", 3 ∷ []) ∷ (codes "aa", 4 ∷ []) ∷ []

find-insert_all_example :
    (r : Str × Pending) × (insert_all plain trie plain.empty_hash changes [] ≡ some r)
    × (find plain trie r.1 (suc hash_len) 0 (codes "aa") r.0 ≡ some (some (4 ∷ [])))
unfolding str_eq
find-insert_all_example = find-insert_all plain trie [] changes (codes "aa") trie-IsAddressed

insert_all-AllInserted_example :
    AllInserted plain trie []
      (λ k. none)
      changes
      (insert_all plain trie plain.empty_hash changes [])
insert_all-AllInserted_example =
    insert_all-AllInserted plain trie [] plain.empty_hash (λ k. none) changes
      (empty-Contains plain trie [] trie-IsAddressed)

abbrev two_items : JsMap Str Str
two_items = (codes "aa", codes "1") ∷ (codes "ab", codes "2") ∷ []

insert_at-Returns_example :
    Returns plain trie
      (codes "aa")
      (codes "1")
      []
      64
      0
      plain.empty_hash
      (insert_at plain trie 65 0 (codes "aa") (codes "1") plain.empty_hash [])
insert_at-Returns_example =
    insert_at-Returns plain trie (codes "aa") (codes "1") [] 64 0 plain.empty_hash none refl
      trie-IsAddressed ((empty-Contains plain trie [] trie-IsAddressed).ends (codes "aa"))

-- Removing a key leaves the root that never having it leaves.
canonical_run :
    map (λ h. h.root) (updated plain trie changes (codes "ab" ∷ []))
    ≡ map (λ h. h.root) (updated plain trie ((codes "aa", 4 ∷ []) ∷ (codes "b", 3 ∷ []) ∷ []) [])
unfolding updated delete_all_keys insert_all delete insert str_eq Trie.store_node insert_at
    JsMap.get JsMap.set JsMap.delete delete_at
canonical_run = refl

-- a branch with a leaf below it, and a leaf that nothing refers to
abbrev held_nodes : Pending
held_nodes =
    (codes "hamt:r", plain.node_bytes (branch ((codes "0", codes "x") ∷ [])))
    ∷ (codes "hamt:x", plain.node_bytes (leaf two_items))
    ∷ []

abbrev more_nodes : Pending
more_nodes = (codes "hamt:y", plain.node_bytes (leaf [])) ∷ held_nodes

filter_run : filter_pending plain trie (codes "r") more_nodes ≡ some held_nodes
unfolding filter_pending JsMap.get JsMap.set JsMap.delete str_eq
filter_run = refl

more_nodes-IsUnique : IsUnique more_nodes
unfolding JsMap.get str_eq
more_nodes-IsUnique = (refl, (refl, (refl, tt)))

filter_pending-Filters_example :
    Filters plain trie (codes "r") more_nodes (filter_pending plain trie (codes "r") more_nodes)
filter_pending-Filters_example =
    filter_pending-Filters plain trie (codes "r") more_nodes more_nodes-IsUnique

-- One pass makes the root that the changes make one after another.
batch_run :
    map (λ h. h.root) (updated_batch plain trie changes (codes "ab" ∷ []))
    ≡ map (λ h. h.root) (updated plain trie changes (codes "ab" ∷ []))
unfolding updated updated_batch apply_at delete_all_keys insert_all delete insert str_eq
    Trie.store_node insert_at JsMap.get JsMap.set JsMap.delete delete_at
batch_run = refl

abbrev built : List (Str × Bytes) → Hamt
built updates = or_else (updated plain trie updates []) trie

-- a leaf against a branch
diff_run :
    diff plain (built ((codes "aa", 1 ∷ []) ∷ [])) (built changes)
    ≡ some (record {
      added = (codes "ab", 2 ∷ []) ∷ (codes "b", 3 ∷ []) ∷ [];
      removed = [];
      modified = (codes "aa", (1 ∷ [], 4 ∷ [])) ∷ [];
    })
unfolding diff updated delete_all_keys insert_all delete insert str_eq Trie.store_node insert_at
    JsMap.get JsMap.set JsMap.delete delete_at
diff_run = refl

abbrev other_items : JsMap Str Str
other_items = (codes "ab", codes "3") ∷ (codes "b", codes "4") ∷ []

patched-compare_items_example :
    patched
      (λ x y. x == y)
      plain.decode_value
      (compare_items
        (λ x y. x == y)
        plain.decode_value
        two_items
        other_items
        (record { added = []; removed = []; modified = [] }))
      (codes "ab")
      (some (plain.decode_value (codes "2")))
    ≡ some (plain.decode_value (codes "3"))
unfolding JsMap.get str_eq
patched-compare_items_example =
    patched-compare_items (λ x y. x == y) plain.decode_value two_items other_items (codes "ab")
      (λ x y e. ap plain.decode_value ((str_eq_iff x y).0 e)) (refl, (refl, tt)) (refl, (refl, tt))

abbrev two_updates : List KeyChange
two_updates =
    record { key = codes "aa"; value = some (codes "1") }
    ∷ record { key = codes "ab"; value = some (codes "2") }
    ∷ []

apply_at-Returned_example :
    Returned plain trie [] 64 0 plain.empty_hash two_updates
      (apply_at plain trie 65 plain.empty_hash 0 two_updates [])
apply_at-Returned_example =
    let found = (empty-Contains plain trie [] trie-IsAddressed).ends in
    apply_at-Returned plain trie 64 0 plain.empty_hash []
      (record { key = codes "aa"; value = some (codes "1") })
      (record { key = codes "ab"; value = some (codes "2") } ∷ []) refl trie-IsAddressed
      ((refl, none, found (codes "aa")), ((refl, none, found (codes "ab")), tt))
