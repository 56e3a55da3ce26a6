-- ===== src/Ancestry/Walks.antt =====
-- packages/kvgit-ts/src/versioned/ancestry.ts, `ancestorsByWalk` and the walk of `ancestryDelta`, and
-- helpers.ts: `walkHistory` and `diffKeysets`.
pub mod Delta
pub mod Keysets
use agex_ts.Prelude.{
  ℕ, zero, suc, Str, str_Eq, ◌==◌, Bool, false, true, Option, none, some, List, [], ◌∷◌,
  if◌then◌else◌,
}
use agex_ts.Prelude.Result.{Result, ok, err}
use agex_ts.JsMap
use agex_ts.JsMap.{JsMap, JsSet}
use agex_ts.Store.{Bytes}
use agex_ts.Json.{Json}
use agex_ts.Ancestry.{parents_of}
use agex_ts.Ancestry.Search.{Seen, search, push_all, push_back}

abbrev pub nothing : Str → Bool
nothing c = false

module _ (parse : Bytes → Option Json) (store : Str → Option Bytes) where
  -- Every commit reachable from `starts`, as the keys of what is seen; the last start is on top.
  unfoldable pub ancestors_by_walk : ℕ → List Str → Option (Result Str Seen)
  unfolding search push_all
  ancestors_by_walk fuel starts =
      search push_all nothing false (parents_of parse store) fuel [] (push_all starts [])

  -- The walk of `ancestryDelta`, where the generations do not tell.
  unfoldable pub delta_walk : ℕ → Str → Seen → Option (Result Str Seen)
  unfolding search push_all
  delta_walk fuel want have_set =
      search push_all (JsMap.has have_set) true (parents_of parse store) fuel [] (want ∷ [])

module _ (parent_loader : Str → List Str) where
  -- `walkHistory` with `allParents`: what it yields are the keys, in order.
  unfoldable pub walk_all : ℕ → Str → Option (Result Str Seen)
  unfolding search
  walk_all fuel start =
      search push_back nothing false (λ c. some (parent_loader c)) fuel [] (start ∷ [])

  abbrev first_parent : List Str → Option Str
  first_parent [] = none
  first_parent (p ∷ parents) = some p

  -- `walkHistory` along the first parents, for so many steps at most; and whether it came to an end.
  unfoldable pub walk_first : ℕ → Option Str → List Str × Bool
  walk_first fuel none = ([], true)
  walk_first zero (some c) = ([], false)
  walk_first (suc fuel) (some c) =
      let (rest, ended) = walk_first fuel (first_parent (parent_loader c)) in (c ∷ rest, ended)

pub record DiffResult : Type 0 where
  pub added : JsSet Str
  pub removed : JsSet Str
  pub modified : JsSet Str

unfoldable pub added_keys : JsMap Str Str → JsMap Str Str → JsSet Str → JsSet Str
added_keys a [] added = added
added_keys a ((k, v) ∷ b) added =
    added_keys a b (if JsMap.has a k then added else JsMap.add added k)

abbrev compare_key : Str → Str → Option Str → DiffResult → DiffResult
compare_key k v none d = record d { removed = JsMap.add d.removed k }
compare_key k v (some w) d = if w == v then d else record d { modified = JsMap.add d.modified k }

unfoldable pub compare_keys : JsMap Str Str → JsMap Str Str → DiffResult → DiffResult
compare_keys [] b d = d
compare_keys ((k, v) ∷ a) b d = compare_keys a b (compare_key k v (JsMap.get b k) d)

unfoldable pub diff_keysets : JsMap Str Str → JsMap Str Str → DiffResult
unfolding added_keys compare_keys
diff_keysets keyset_a keyset_b =
    compare_keys keyset_a keyset_b
      (record { added = added_keys keyset_a keyset_b []; removed = []; modified = [] })
