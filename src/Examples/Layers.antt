-- ===== src/Examples/Layers.antt =====
-- `Staged` and `Namespaced` over a store that is one map.
use agex_ts.Prelude.{
  Str, str_Eq, str_eq, str_eq_iff, ◌==◌, ◌≡◌, refl, true, false, Bool, Option, some, none, [], ◌∷◌,
  ◌&&◌, codes, any, is_some, if◌then◌else◌, or_else, includes, starts_with, arith,
}
use agex_ts.Prelude.Result.{Result, ok, err}
use agex_ts.JsMap
use agex_ts.JsMap.{JsMap, JsSet, keys}
use agex_ts.JsMap.Laws.{any-keys, get-set, get-delete}
use agex_ts.JsMap.Batch.{member, set_all, delete_all}
use agex_ts.Store.{Bytes}
use agex_ts.Versioned.{Versioned, MergeResult, apply, CommitOptions}
use agex_ts.Staged
use agex_ts.Staged.{
  Staged, Codec, StagedCommitOptions, StagedMergeHeadsOptions, new_staged, has_changes,
  staged_changes, flushed_updates, flushed_removals, landed, encode_all, clear_cache,
}
use agex_ts.Staged.Buffer.{IsDisjoint}
use agex_ts.Staged.Reads.{IsCoherent, Answers, view, get-Answers, view-writes, all_keys-eq-has}
use mathlib.Core.Logic.{◌⊎◌}
use agex_ts.Staged.Branches.{lands}
use agex_ts.Staged.Commit.{Throws, Commits, flush_lem, commit_lem}
use agex_ts.Staged.Heads.{Refuses, Merges, merge_heads_lem}
use agex_ts.Staged.Calls.{sets, deletes, gets, commits, run, KeepsReads, IsSound, run-IsSound}
use agex_ts.Namespaced
use agex_ts.Namespaced.{NamespaceableStore, Namespaced, slash, prefixed, descendant_keys}
use agex_ts.Namespaced.Keys.{direct, keys_lem, view-set_apart}

-- A store of one branch: a commit applies its changes, and is refused with none to apply.
abbrev changed : JsMap Str Bytes → CommitOptions → JsMap Str Bytes
changed m o = delete_all (set_all m (or_else o.updates [])) (JsMap.keys (or_else o.removals []))

abbrev answer : Bool → MergeResult
answer merged = record {
  merged = merged;
  commit = none;
  strategy = apply;
  auto_merged_keys = [];
  carried_keys = [];
}

abbrev committed : Bool → JsMap Str Bytes → CommitOptions → Result Str MergeResult × JsMap Str Bytes
committed true m o = (ok (answer true), changed m o)
committed false m o = (ok (answer false), m)

abbrev no_branch : Str
no_branch = codes "no such branch"

abbrev map_store : Versioned (JsMap Str Bytes)
map_store = record {
  get = JsMap.get;
  has = λ m k. JsMap.has m k;
  keys = keys;
  peek = λ m k branch. err no_branch;
  commit = λ m o. committed (is_some o.updates) m o;
  merge_heads = λ m head o. (ok (answer true), m);
  switch_branch = λ m name. (err no_branch, m);
  reset_to = λ m hash. (ok false, m);
  refresh = λ m. (ok tt, m);
  create_branch = λ m name at_commit. (ok m, m);
  checkout = λ m hash branch. ok none;
  has_lem = λ m k. refl;
  keys_lem = λ m k. any-keys m k;
}

commit_kept_by :
    (m : JsMap Str Bytes) (o : CommitOptions) (b : Bool) (k : Str)
    → lands (committed b m o).0 ≡ false
    → JsMap.get (committed b m o).1 k ≡ JsMap.get m k
commit_kept_by m o true k h = cc
commit_kept_by m o false k h = refl

map_store-KeepsReads : KeepsReads map_store
map_store-KeepsReads = record {
  commit_kept = λ m o h k. commit_kept_by m o (is_some o.updates) k h;
  merge_kept = λ m head o h k. refl;
  switch_kept = λ m name h k. refl;
  refresh_kept = λ m h k. refl;
  reset_kept = λ m hash h k. refl;
  branch_kept = λ m name at_commit k. refl;
}

-- values that are their bytes; the empty value does not encode
abbrev encode_text : Str → Result Str Bytes
encode_text [] = err (codes "empty")
encode_text (c ∷ s) = ok (c ∷ s)

abbrev text : Codec Str
text = record { encode = encode_text; decode = λ raw. ok raw }

abbrev a : Str
a = codes "a"

abbrev b : Str
b = codes "b"

abbrev stored : JsMap Str Bytes
stored = (a, 1 ∷ []) ∷ (b, 2 ∷ []) ∷ []

-- `a` replaced and `b` removed, not yet committed
abbrev pending : Staged (JsMap Str Bytes) Str
pending = record {
  versioned = stored;
  updates = (a, 3 ∷ []) ∷ [];
  removals = (b, tt) ∷ [];
  cache = (b, 2 ∷ []) ∷ [];
  user_merge_fns = [];
  user_default_merge = none;
}

pending-IsCoherent : IsCoherent map_store text pending
unfolding JsMap.get str_eq
pending-IsCoherent = record { current = λ k v h. ground (arith, str_eq_iff a k, str_eq_iff b k) }

pending-IsDisjoint : IsDisjoint pending
unfolding JsMap.get
pending-IsDisjoint = record { apart = λ k h. ground (arith, str_eq_iff a k, str_eq_iff b k) }

get-Answers_example : Answers map_store text pending a (Staged.get map_store text pending a)
get-Answers_example = get-Answers map_store text pending a pending-IsCoherent

view-writes_example :
    (view map_store text (Staged.set pending b (4 ∷ [])) a
      ≡ (if b == a then ok (some (4 ∷ [])) else view map_store text pending a))
    × (view map_store text (Staged.delete pending b) a
        ≡ (if b == a then ok none else view map_store text pending a))
view-writes_example = view-writes map_store text pending b a (4 ∷ [])

all_keys-eq-has_example :
    any (λ j. j == a) (Staged.all_keys map_store text pending) ≡ Staged.has map_store text pending a
all_keys-eq-has_example = all_keys-eq-has map_store text pending a pending-IsDisjoint

flush_lem_example :
    (JsMap.get (flushed_updates pending (some (a ∷ []))) a ≡ JsMap.get pending.updates a)
    × (JsMap.has (flushed_removals pending (some (a ∷ []))) a ≡ JsMap.has pending.removals a)
    × (JsMap.get (landed pending (some (a ∷ []))).updates a ≡ none)
    × (JsMap.has (landed pending (some (a ∷ []))).removals a ≡ false)
    × (JsMap.get (landed pending (some (a ∷ []))).cache a ≡ none)
unfolding member str_eq
flush_lem_example = flush_lem pending (some (a ∷ [])) a

abbrev commit_a : StagedCommitOptions Str
commit_a = record {
  keys = some (a ∷ []);
  on_conflict = none;
  merge_fns = none;
  default_merge = none;
  info = none;
}

commit_lem_example :
    Throws map_store text pending commit_a ⊎ Commits map_store text pending commit_a
unfolding JsMap.get
commit_lem_example =
    commit_lem map_store text pending commit_a (refl, tt) (record { registered = tt; given = tt })

abbrev merge_opts : StagedMergeHeadsOptions Str
merge_opts = record { on_conflict = none; merge_fns = none; default_merge = none; info = none }

merge_heads_lem_example :
    Refuses map_store text pending b merge_opts ⊎ Merges map_store text pending b merge_opts
merge_heads_lem_example =
    merge_heads_lem map_store text pending b merge_opts (record { registered = tt; given = tt })

run-IsSound_example : IsSound map_store text (
    run map_store text
      (new_staged stored)
      (gets a ∷ sets b (5 ∷ []) ∷ deletes a ∷ commits commit_a ∷ []))
run-IsSound_example =
    run-IsSound map_store text map_store-KeepsReads stored
      (gets a ∷ sets b (5 ∷ []) ∷ deletes a ∷ commits commit_a ∷ [])

ok_if :
    (c : Bool) (x y : Option Str)
    → ◌≡◌ {A = Result Str (Option Str)} (ok (if c then x else y)) (if c then ok x else ok y)
ok_if true x y = refl
ok_if false x y = refl

-- one map of values
abbrev map_names : NamespaceableStore (JsMap Str Str) Str
map_names = record {
  Valid = λ m. Unit {0};
  view = λ m k. ok (JsMap.get m k);
  get = λ m k. (ok (JsMap.get m k), m);
  has = λ m k. JsMap.has m k;
  set = JsMap.set;
  delete = JsMap.delete;
  keys = keys;
  get_answer = λ m k v. refl;
  get_view = λ m k j v. refl;
  set_view = λ m k j v. rw (get-set m k j v) (ok_if (k == j) _ _);
  delete_view = λ m k j. rw (get-delete m k j) (ok_if (k == j) _ _);
  keys_has = λ m k v. any-keys m k;
}

abbrev notes : Namespaced
notes = record { namespace = codes "notes" }

abbrev tasks : Namespaced
tasks = record { namespace = codes "tasks" }

abbrev named : JsMap Str Str
named = (codes "notes/a", 1 ∷ []) ∷ (codes "notes/x/b", 2 ∷ []) ∷ (codes "tasks/a", 3 ∷ []) ∷ []

keys_run : Namespaced.keys map_names notes named ≡ a ∷ []
unfolding Namespaced.keys keys starts_with includes
keys_run = refl

keys_lem_example :
    (any (λ j. j == a) (Namespaced.keys map_names notes named)
      ≡ (Namespaced.has map_names notes named a && direct a))
    × (any (λ j. j == a) (descendant_keys map_names notes named)
        ≡ Namespaced.has map_names notes named a)
keys_lem_example = keys_lem map_names notes named a tt

view-set_apart_example :
    (map_names.view (Namespaced.set map_names notes named a (9 ∷ [])) (prefixed tasks a)
      ≡ map_names.view named (prefixed tasks a))
    × (map_names.view (Namespaced.delete map_names notes named a) (prefixed tasks a)
        ≡ map_names.view named (prefixed tasks a))
unfolding includes
view-set_apart_example =
    view-set_apart map_names notes tasks named a a (9 ∷ []) refl refl (λ e. ground arith)
