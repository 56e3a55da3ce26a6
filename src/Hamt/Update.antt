-- ===== src/Hamt/Update.antt =====
-- packages/kvgit-ts/src/hamt.ts: `updated`, `filterPending`, `persist` and `flush` of `Hamt`.
pub mod Kept
pub mod Filter
use agex_ts.Prelude.{
  ℕ, zero, suc, ◌+◌, length, Str, str_Eq, ◌==◌, ◌||◌, not, Option, none, some, List, [], ◌∷◌, ◌++◌,
  map, if◌then◌else◌,
}
use agex_ts.JsMap
use agex_ts.JsMap.{JsMap}
use agex_ts.JsMap.Batch.{set_all}
use agex_ts.Store.{Bytes}
use agex_ts.Hamt.Trie.{Node, leaf, branch, Format, Hamt, Pending}
use agex_ts.Hamt.Insert.{continue, insert_all}
use agex_ts.Hamt.Delete.{delete}

-- The queue, last in first out: its top is the first of the list.
abbrev pub push_all : List Str → List Str → List Str
push_all [] queue = queue
push_all (h ∷ hs) queue = push_all hs (h ∷ queue)

abbrev pub child_hashes : Node → List Str
child_hashes (leaf items) = []
child_hashes (branch children) = map (λ e. e.1) children

module _ (format : Format) (hamt : Hamt) where
  -- The second loop of `updated`.
  unfoldable pub delete_all_keys : Str → List Str → Pending → Option (Str × Pending)
  delete_all_keys current_root [] pending = some (current_root, pending)
  delete_all_keys current_root (key ∷ removals) pending =
      continue format hamt (λ root p. delete_all_keys root removals p)
        (delete format hamt current_root key pending)

  abbrev pub reached :
      (Pending → List Str → Option Pending)
      → Pending
      → Str
      → List Str
      → Option Bytes
      → Option Pending
  reached go result prefixed queue none = go result queue
  reached go result prefixed queue (some bytes) =
      if JsMap.has result prefixed
      then go result queue
      else go (JsMap.set result prefixed bytes)
          (push_all (child_hashes (format.parse_node bytes)) queue)

  -- The loop of `filterPending`. With no fuel left it has not returned.
  unfoldable pub filter_from : ℕ → Pending → Pending → List Str → Option Pending
  filter_from fuel pending result [] = some result
  filter_from zero pending result (h ∷ queue) = none
  filter_from (suc fuel) pending result (h ∷ queue) =
      let prefixed = hamt.prefix ++ h in
      reached (λ r q. filter_from fuel pending r q) result prefixed queue
        (JsMap.get pending prefixed)

  -- the fuel: one round for the root, and one for each child of each pending node
  abbrev pub rounds : Pending → ℕ
  rounds [] = 1
  rounds ((k, bytes) ∷ pending) = length (child_hashes (format.parse_node bytes)) + rounds pending

  unfoldable pub filter_pending : Str → Pending → Option Pending
  unfolding filter_from
  filter_pending root pending =
      if root == format.empty_hash
      then some []
      else filter_from (rounds pending) pending [] (root ∷ [])

  abbrev pub derived : Str → Option Pending → Option Hamt
  derived root none = none
  derived root (some pending) = some (record hamt { root = root; pending = pending })

  abbrev pub finished : Option (Str × Pending) → Option Hamt
  finished none = none
  finished (some r) = derived r.0 (filter_pending r.0 r.1)

  unfoldable pub updated : List (Str × Bytes) → List Str → Option Hamt
  unfolding filter_pending
  updated updates removals = finished (
      continue format hamt (λ root p. delete_all_keys root removals p)
        (insert_all format hamt hamt.root updates hamt.pending))
