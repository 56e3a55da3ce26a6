-- ===== src/Examples/Merges.antt =====
-- A three-way merge on concrete changes.
use agex_ts.Prelude.{
  Str, str_Eq, str_eq, ◌≡◌, ◌<◌, ◌⊎◌, refl, false, Option, some, none, [], ◌∷◌, codes, starts_with,
}
use agex_ts.Prelude.Result.{ok, err}
use agex_ts.JsMap
use agex_ts.JsMap.{JsMap}
use agex_ts.Merge.{
  KeysetEntry, MergePolicy, choice, ours, theirs, Change, Options, MergeResolution, MergeConflict,
  same_entry, resolve_merge, policy_for, pick_merge_policy, pick_prefix,
}
use agex_ts.Merge.Outcome.{merge_key}
use agex_ts.Merge.Policy.{Below, Longest, pick_merge_policy_lem}
use agex_ts.Merge.Slots.{merge_at, our_side}
use agex_ts.Merge.Refines.{
  SameState, state_after, merged_state, is_clash, cause_of, resolved_slot, Sole,
  resolve_merge-SameState, resolve_merge-conflicts, resolve_merge_succeeds, resolve_merge-Sole,
}

abbrev a : Str
a = codes "a"

abbrev b : Str
b = codes "b"

abbrev entry : Str → KeysetEntry
entry blob = record { blob = blob; meta = record { size = 1; created_at = none; chunks = none } }

-- ours changed `a`; theirs changed it too, and added `b`
abbrev contested : Options
contested = record {
  ours = (a, record { old = some (entry (codes "0")); new = some (entry (codes "1")) }) ∷ [];
  theirs =
      (a, record { old = some (entry (codes "0")); new = none })
      ∷ (b, record { old = none; new = some (entry (codes "2")) })
      ∷ [];
  blob_reader = λ k. some k;
  merge_fns = [];
  merge_prefixes = [];
  default_merge = none;
}

-- with their side's choice for the keys that start with `a`
abbrev chosen : Options
chosen = record contested { merge_prefixes = (a, choice theirs) ∷ [] }

abbrev resolution : MergeResolution
resolution = record {
  updates = (b, entry (codes "2")) ∷ [];
  removals = (a, tt) ∷ [];
  merged_values = [];
  auto_merged_keys = a ∷ [];
  carried_keys = b ∷ [];
}

chosen_run : resolve_merge chosen ≡ ok resolution
unfolding resolve_merge JsMap.set str_eq JsMap.get starts_with same_entry
chosen_run = refl

abbrev conflicted : MergeConflict
conflicted = record { keys = (a, tt) ∷ []; causes = [] }

contested_run : resolve_merge contested ≡ err conflicted
unfolding resolve_merge JsMap.set str_eq JsMap.get same_entry
contested_run = refl

resolve_merge-SameState_example :
    SameState
      (state_after resolution a (some (entry (codes "1"))))
      (merged_state (merge_at chosen a) (some (entry (codes "1"))))
unfolding JsMap.get str_eq
resolve_merge-SameState_example =
    resolve_merge-SameState chosen resolution a (some (entry (codes "1"))) chosen_run refl

resolve_merge-conflicts_example :
    (0 < JsMap.size conflicted.keys)
    × (JsMap.has conflicted.keys a ≡ is_clash (merge_at contested a))
    × (JsMap.get conflicted.causes a ≡ cause_of (merge_at contested a))
resolve_merge-conflicts_example = resolve_merge-conflicts contested conflicted a contested_run

resolve_merge-Sole_example : Sole (resolved_slot resolution b) (our_side chosen b)
resolve_merge-Sole_example = resolve_merge-Sole chosen resolution b chosen_run

-- every contested key goes to their side
abbrev given : Options
given = record contested { default_merge = some (choice theirs) }

given_never_clashes :
    (o t : Option Change) → is_clash (merge_key (λ k. some k) (some (choice theirs)) o t) ≡ false
unfolding merge_key
given_never_clashes none none = refl
given_never_clashes none (some t) = refl
given_never_clashes (some o) none = refl
given_never_clashes (some o) (some t) = refl

given-is_clash : (j : Str) → is_clash (merge_at given j) ≡ false
unfolding policy_for pick_merge_policy pick_prefix JsMap.get
given-is_clash j = given_never_clashes _ _

resolve_merge_succeeds_example : (r : MergeResolution) × (resolve_merge given ≡ ok r)
resolve_merge_succeeds_example = resolve_merge_succeeds given given-is_clash

-- `ab` starts with both prefixes, and the longer one governs it.
abbrev prefixes : JsMap Str MergePolicy
prefixes = (a, choice ours) ∷ (codes "ab", choice theirs) ∷ []

abbrev governing : Option MergePolicy
governing = pick_merge_policy (codes "ab") [] prefixes none

pick_merge_policy_lem_example :
    ((c : MergePolicy) × (JsMap.get {K = Str} {V = MergePolicy} [] (codes "ab") ≡ some c)
      × (governing ≡ some c))
    ⊎ (JsMap.get {K = Str} {V = MergePolicy} [] (codes "ab") ≡ none)
      × ((governing ≡ none) × Below (codes "ab") 0 prefixes
          ⊎ Longest (codes "ab") prefixes 0 governing)
unfolding JsMap.get str_eq
pick_merge_policy_lem_example =
    pick_merge_policy_lem (codes "ab") [] prefixes none (refl, (refl, tt))
