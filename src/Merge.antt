-- ===== src/Merge.antt =====
-- packages/kvgit-ts/src/versioned/merge.ts: the three-way merge, from each side's changes since the
-- common ancestor. `policy` may be called on any bytes and may throw.
pub mod Outcome
pub mod Slots
pub mod Policy
pub mod Refines
use agex_ts.Prelude.{
  ℕ, zero, suc, ◌+◌, Str, str_eq, str_Eq, starts_with, length, Bool, true, false, ◌&&◌, ◌||◌,
  Option, none, some, List, [], ◌∷◌, ◌++◌, leb, ltb, nat_eq, if◌then◌else◌, is_some, or_else, sort,
}
use agex_ts.Prelude.Result.{Result, ok, err}
use agex_ts.JsMap
use agex_ts.JsMap.{JsMap, JsSet, keys}
use agex_ts.JsMap.Batch.{first_some}
use agex_ts.PyJson.{no_later}
use agex_ts.Store.{Bytes}

-- types.ts: an entry's creation time, in seconds, is only ever compared; it is any number.
pub record MetaEntry : Type 0 where
  pub size : ℕ
  pub created_at : Option ℕ
  pub chunks : Option (List Str)

pub record KeysetEntry : Type 0 where
  pub blob : Str
  pub meta : MetaEntry

pub data MergeChoice : Type 0 where
  ours theirs : MergeChoice

-- What a merge function does: return bytes or a choice, or throw (the error as its text).
pub data FnResult : Type 0 where
  bytes : Bytes → FnResult
  chose : MergeChoice → FnResult
  threw : Str → FnResult

pub data MergePolicy : Type 0 where
  choice : MergeChoice → MergePolicy
  function : (Option Bytes → Option Bytes → Option Bytes → FnResult) → MergePolicy

pub record Change : Type 0 where
  pub old : Option KeysetEntry
  pub new : Option KeysetEntry

-- The loop of `pickMergePolicy`. `bound` is `bestLen + 1`: a prefix wins from that length on.
unfoldable pub pick_prefix :
    Str → List (Str × MergePolicy) → Option MergePolicy → ℕ → Option MergePolicy
pick_prefix key [] best bound = best
pick_prefix key ((prefix, candidate) ∷ rest) best bound =
    let longer = starts_with key prefix && leb bound (length prefix) in
    pick_prefix key rest (if longer then some candidate else best)
      (if longer then suc (length prefix) else bound)

unfoldable pub pick_merge_policy :
    Str → JsMap Str MergePolicy → JsMap Str MergePolicy → Option MergePolicy → Option MergePolicy
unfolding pick_prefix
pick_merge_policy key merge_fns merge_prefixes default_merge =
    first_some (JsMap.get merge_fns key)
      (first_some (pick_prefix key merge_prefixes none 0) default_merge)

chunks_equal : List Str → List Str → Bool
chunks_equal [] [] = true
chunks_equal [] (d ∷ ds) = false
chunks_equal (c ∷ cs) [] = false
chunks_equal (c ∷ cs) (d ∷ ds) = str_eq c d && chunks_equal cs ds

abbrev created_equal : Option ℕ → Option ℕ → Bool
created_equal none none = true
created_equal none (some b) = false
created_equal (some a) none = false
created_equal (some a) (some b) = nat_eq a b

unfoldable pub same_entry : Option KeysetEntry → Option KeysetEntry → Bool
unfolding chunks_equal
same_entry none none = true
same_entry none (some b) = false
same_entry (some a) none = false
same_entry (some a) (some b) =
    str_eq a.blob b.blob
    && (nat_eq a.meta.size b.meta.size
        && (created_equal a.meta.created_at b.meta.created_at
            && chunks_equal (or_else a.meta.chunks []) (or_else b.meta.chunks [])))

-- the variables of `resolveMerge` that the loop writes
pub record Progress : Type 0 where
  pub updates : JsMap Str KeysetEntry
  pub removals : JsSet Str
  pub merged_values : JsMap Str Bytes
  pub auto_merged : List Str
  pub carried : List Str
  pub conflicts : JsSet Str
  pub merge_errors : JsMap Str Str

pub record Options : Type 0 where
  pub ours : JsMap Str Change
  pub theirs : JsMap Str Change
  pub blob_reader : Str → Option Bytes
  pub merge_fns : JsMap Str MergePolicy
  pub merge_prefixes : JsMap Str MergePolicy
  pub default_merge : Option MergePolicy

abbrev pub put : Progress → Str → Option KeysetEntry → Progress
put p key none = record p { removals = JsMap.add p.removals key }
put p key (some entry) = record p { updates = JsMap.set p.updates key entry }

-- the local function `take`
unfoldable pub take : Progress → Str → Option KeysetEntry → Option KeysetEntry → Progress
take p key entry current = if same_entry entry current then p else put p key entry

abbrev auto : Progress → Str → Progress
auto p key = record p { auto_merged = p.auto_merged ++ key ∷ [] }

abbrev conflict : Progress → Str → Progress
conflict p key = record p { conflicts = JsMap.add p.conflicts key }

-- A side with no change has the ancestor's entry, which the other side's change names.
abbrev pub ancestor_of : Option Change → Option Change → Option KeysetEntry
ancestor_of (some o) t = o.old
ancestor_of none (some t) = t.old
ancestor_of none none = none

abbrev pub entry_of : Option Change → Option KeysetEntry → Option KeysetEntry
entry_of (some c) ancestor = c.new
entry_of none ancestor = ancestor

abbrev pub read : (Str → Option Bytes) → Option KeysetEntry → Option Bytes
read reader none = none
read reader (some e) = reader e.blob

-- both sides removed the key, or both have the same blob
abbrev pub agree : Option KeysetEntry → Option KeysetEntry → Bool
agree none none = true
agree (some a) (some b) = str_eq a.blob b.blob
agree none (some b) = false
agree (some a) none = false

-- what a merge function's answer does
unfoldable pub settle :
    Progress → Str → Option KeysetEntry → Option KeysetEntry → FnResult → Progress
unfolding take
settle p key our their (threw e) = record (conflict p key) {
  merge_errors = JsMap.set p.merge_errors key e;
}
settle p key our their (chose theirs) = auto (take p key their our) key
settle p key our their (chose ours) = auto p key
settle p key our their (bytes b) =
    auto (record p { merged_values = JsMap.set p.merged_values key b }) key

-- a key both sides changed, under no `MergeChoice` registration
unfoldable pub contested :
    (Str → Option Bytes) → Option MergePolicy → Progress → Str → Change → Change → Progress
unfolding settle
contested reader (some (choice c)) p key o t = p
contested reader none p key o t = if agree o.new t.new then p else conflict p key
contested reader (some (function f)) p key o t =
    if agree o.new t.new
    then p
    else settle p key o.new t.new (f (read reader o.old) (read reader o.new) (read reader t.new))

-- one round of the loop, by the governing policy and each side's change
unfoldable pub resolve_key :
    (Str → Option Bytes)
    → Option MergePolicy
    → Progress
    → Str
    → Option Change
    → Option Change
    → Progress
unfolding contested
resolve_key reader (some (choice ours)) p key o t = auto p key
resolve_key reader (some (choice theirs)) p key o t =
    let ancestor = ancestor_of o t in
    auto (take p key (entry_of t ancestor) (entry_of o ancestor)) key
resolve_key reader policy p key o none = p
resolve_key reader policy p key none (some t) =
    let q = take p key t.new t.old in record q { carried = q.carried ++ key ∷ [] }
resolve_key reader policy p key (some o) (some t) = contested reader policy p key o t

unfoldable pub policy_for : Options → Str → Option MergePolicy
unfolding pick_merge_policy
policy_for opts key = pick_merge_policy key opts.merge_fns opts.merge_prefixes opts.default_merge

unfoldable pub resolve_all : Options → Progress → List Str → Progress
unfolding resolve_key policy_for
resolve_all opts p [] = p
resolve_all opts p (key ∷ rest) =
    resolve_all opts
      (resolve_key opts.blob_reader (policy_for opts key) p key (JsMap.get opts.ours key)
        (JsMap.get opts.theirs key))
      rest

add_all : JsSet Str → List Str → JsSet Str
add_all s [] = s
add_all s (k ∷ ks) = add_all (JsMap.add s k) ks

-- `[...new Set([...ours.keys(), ...theirs.keys()])].sort(compareCodePoints)`
unfoldable pub changed_keys : Options → List Str
unfolding add_all keys sort no_later
changed_keys opts = sort no_later (keys (add_all [] (keys opts.ours ++ keys opts.theirs)))

abbrev pub start : Progress
start = record {
  updates = [];
  removals = [];
  merged_values = [];
  auto_merged = [];
  carried = [];
  conflicts = [];
  merge_errors = [];
}

pub record MergeResolution : Type 0 where
  pub updates : JsMap Str KeysetEntry
  pub removals : JsSet Str
  pub merged_values : JsMap Str Bytes
  pub auto_merged_keys : List Str
  pub carried_keys : List Str

-- `MergeConflict`: the keys, and the error of each merge function that threw
pub record MergeConflict : Type 0 where
  pub keys : JsSet Str
  pub causes : JsMap Str Str

unfoldable pub changes_ours : MergeResolution → Bool
changes_ours r =
    ltb 0 (JsMap.size r.updates)
    || (ltb 0 (JsMap.size r.removals) || ltb 0 (JsMap.size r.merged_values))

unfoldable pub finish : Progress → Result MergeConflict MergeResolution
finish p =
    if ltb 0 (JsMap.size p.conflicts)
    then err (record { keys = p.conflicts; causes = p.merge_errors })
    else ok (record {
      updates = p.updates;
      removals = p.removals;
      merged_values = p.merged_values;
      auto_merged_keys = p.auto_merged;
      carried_keys = p.carried;
    })

unfoldable pub resolve_merge : Options → Result MergeConflict MergeResolution
unfolding resolve_all changed_keys finish
resolve_merge opts = finish (resolve_all opts start (changed_keys opts))
