-- ===== src/Merge/Refines.antt =====
-- `resolveMerge` against the merge of each key.
use agex_ts.Prelude.{
  ◌<◌, Str, str_Eq, ◌≡◌, refl, Bool, true, false, Option, none, some, [], ◌∷◌, arith, subst,
  Bool-cases, inl, inr, ap, sym, ◌∙◌, is_some, ◌⊎◌, not, ◌&&◌, if◌then◌else◌,
}
use agex_ts.Prelude.Result.{ok, err}
use agex_ts.JsMap
use agex_ts.JsMap.{JsSet}
use agex_ts.JsMap.Laws.{eq_refl}
use agex_ts.Store.{Bytes}
use agex_ts.Merge.{
  KeysetEntry, Change, Options, MergeResolution, MergeConflict, Progress, start, changed_keys,
  resolve_all, finish, resolve_merge, same_entry, MergePolicy, policy_for,
}
use agex_ts.Merge.Outcome.{
  Outcome, keep, carry, value, clash, merge_key, Slot, written, empty, carry_slot,
}
use agex_ts.Merge.Slots.{merge_at, our_entry, our_side, slot-resolved}

-- The merged state of a key: absent, an entry, or bytes still to be written as a blob.
pub data MergedState : Type 0 where
  absent : MergedState
  entry : KeysetEntry → MergedState
  fresh : Bytes → MergedState

abbrev pub of_entry : Option KeysetEntry → MergedState
of_entry none = absent
of_entry (some e) = entry e

abbrev state_of : Option Bytes → Bool → Option KeysetEntry → Option KeysetEntry → MergedState
state_of (some b) removed update current = fresh b
state_of none true update current = absent
state_of none false (some e) current = entry e
state_of none false none current = of_entry current

-- What applying the resolution to our side makes of a key that has `current` there.
abbrev pub state_after : MergeResolution → Str → Option KeysetEntry → MergedState
state_after r j current =
    state_of (JsMap.get r.merged_values j) (JsMap.has r.removals j) (JsMap.get r.updates j) current

-- What an outcome makes of it.
abbrev pub merged_state : Outcome → Option KeysetEntry → MergedState
merged_state keep current = of_entry current
merged_state (carry e) current = of_entry e
merged_state (value b) current = fresh b
merged_state (clash cause) current = of_entry current

-- Equal, or two entries that `sameEntry` takes for one.
abbrev pub SameState : MergedState → MergedState → Type 0
SameState (entry a) (entry b) = (a ≡ b) ⊎ (same_entry (some b) (some a) ≡ true)
SameState a b = a ≡ b

-- Our side has the entry that our change, or else theirs, names.
abbrev pub IsOurs : Option Change → Option Change → Option KeysetEntry → Type 0
IsOurs (some o) t current = current ≡ o.new
IsOurs none (some t) current = current ≡ t.old
IsOurs none none current = Unit

abbrev slot_state : Slot → Option KeysetEntry → MergedState
slot_state s current = state_of s.merged s.removed s.update current

written-SameState :
    (out : Outcome) (our : Option KeysetEntry)
    → SameState (slot_state (written out our) our) (merged_state out our)
written-SameState keep none = refl
written-SameState keep (some e) = inl refl
written-SameState (carry none) none = unfold same_entry in refl
written-SameState (carry none) (some e) = unfold same_entry in refl
written-SameState (carry (some f)) none = unfold same_entry in inl refl
written-SameState (carry (some f)) (some e) = elim (Bool-cases (same_entry (some f) (some e))) [
  | inl same ↦ rw same (inr same)
  | inr other ↦ rw other (inl refl)
]
written-SameState (value b) our = refl
written-SameState (clash c) none = refl
written-SameState (clash c) (some e) = inl refl

finish-ok :
    (p : Progress) (r : MergeResolution)
    → finish p ≡ ok r
    → (JsMap.size p.conflicts ≡ 0)
      × (r.updates ≡ p.updates)
      × (r.removals ≡ p.removals)
      × (r.merged_values ≡ p.merged_values)
unfolding finish
finish-ok p r h = ground arith

finish-succeeds :
    (p : Progress) → JsMap.size p.conflicts ≡ 0 → (r : MergeResolution) × (finish p ≡ ok r)
unfolding finish
finish-succeeds p h = (
  record {
    updates = p.updates;
    removals = p.removals;
    merged_values = p.merged_values;
    auto_merged_keys = p.auto_merged;
    carried_keys = p.carried;
  },
  ground arith,
)

finish-err :
    (p : Progress) (c : MergeConflict)
    → finish p ≡ err c
    → (0 < JsMap.size p.conflicts) × (c.keys ≡ p.conflicts) × (c.causes ≡ p.merge_errors)
unfolding finish
finish-err p r h = ground arith

key-SameState :
    (reader : Str → Option Bytes) (policy : Option MergePolicy) (o t : Option Change)
    (current : Option KeysetEntry)
    → IsOurs o t current
    → SameState
        (slot_state (written (merge_key reader policy o t) (our_entry o t)) current)
        (merged_state (merge_key reader policy o t) current)
key-SameState reader policy none none none h = unfold merge_key in refl
key-SameState reader policy none none (some e) h = unfold merge_key in inl refl
key-SameState reader policy none (some t) current h =
    rw h (written-SameState (merge_key reader policy none (some t)) t.old)
key-SameState reader policy (some o) t current h =
    rw h (written-SameState (merge_key reader policy (some o) t) o.new)

-- When the merge succeeds, every key's state after the resolution is applied to our side is the one
-- that the three-way merge of that key alone gives, up to entries that `sameEntry` takes for one.
pub resolve_merge-SameState :
    (opts : Options) (r : MergeResolution) (j : Str) (current : Option KeysetEntry)
    → resolve_merge opts ≡ ok r
    → IsOurs (JsMap.get opts.ours j) (JsMap.get opts.theirs j) current
    → SameState (state_after r j current) (merged_state (merge_at opts j) current)
unfolding resolve_merge
resolve_merge-SameState opts r j current h ours =
    let p = resolve_all opts start (changed_keys opts) in
    let (_, u, x, m) = finish-ok p r h in
    rw (u, x, m)
      (subst (λ s. SameState (slot_state s current) (merged_state (merge_at opts j) current))
        (sym (slot-resolved opts j))
        (key-SameState opts.blob_reader (policy_for opts j) (JsMap.get opts.ours j)
          (JsMap.get opts.theirs j) current ours))

-- A key that nothing resolves, and the error of the merge function that threw, if one did.
abbrev pub is_clash : Outcome → Bool
is_clash (clash cause) = true
is_clash keep = false
is_clash (carry e) = false
is_clash (value b) = false

abbrev pub cause_of : Outcome → Option Str
cause_of (clash cause) = cause
cause_of keep = none
cause_of (carry e) = none
cause_of (value b) = none

written-clash :
    (out : Outcome) (our : Option KeysetEntry)
    → ((written out our).conflict ≡ is_clash out) × ((written out our).cause ≡ cause_of out)
written-clash keep our = (refl, refl)
written-clash (carry none) our = ground arith
written-clash (carry (some e)) our = ground arith
written-clash (value b) our = (refl, refl)
written-clash (clash cause) our = (refl, refl)

conflict_at :
    (opts : Options) (j : Str)
    → let p = resolve_all opts start (changed_keys opts) in
      (JsMap.has p.conflicts j ≡ is_clash (merge_at opts j))
      × (JsMap.get p.merge_errors j ≡ cause_of (merge_at opts j))
conflict_at opts j =
    let s = slot-resolved opts j in
    let (a, b) = written-clash (merge_at opts j) (our_side opts j) in
    (ap (λ (s : Slot). s.conflict) s ∙ a, ap (λ (s : Slot). s.cause) s ∙ b)

size_zero : (s : JsSet Str) → ((j : Str) → JsMap.has s j ≡ false) → JsMap.size s ≡ 0
unfolding JsMap.get
size_zero [] h = refl
size_zero ((k, x) ∷ s) h = ground (arith, h k, eq_refl k)

-- A merge that fails names exactly the keys that nothing resolves, each with its cause, and there is
-- one.
pub resolve_merge-conflicts :
    (opts : Options) (c : MergeConflict) (j : Str)
    → resolve_merge opts ≡ err c
    → (0 < JsMap.size c.keys)
      × (JsMap.has c.keys j ≡ is_clash (merge_at opts j))
      × (JsMap.get c.causes j ≡ cause_of (merge_at opts j))
unfolding resolve_merge
resolve_merge-conflicts opts c j h =
    let (some_key, k, e) = finish-err (resolve_all opts start (changed_keys opts)) c h in
    (rw k some_key, rw k (conflict_at opts j).0, rw e (conflict_at opts j).1)

-- A merge with no key that nothing resolves succeeds.
pub resolve_merge_succeeds :
    (opts : Options)
    → ((j : Str) → is_clash (merge_at opts j) ≡ false)
    → (r : MergeResolution) × (resolve_merge opts ≡ ok r)
unfolding resolve_merge
resolve_merge_succeeds opts h =
    let p = resolve_all opts start (changed_keys opts) in
    finish-succeeds p (size_zero p.conflicts (λ j. (conflict_at opts j).0 ∙ h j))

-- What a resolution has at one key.
abbrev pub resolved_slot : MergeResolution → Str → Slot
resolved_slot r j = record {
  update = JsMap.get r.updates j;
  removed = JsMap.has r.removals j;
  merged = JsMap.get r.merged_values j;
  conflict = false;
  cause = none;
}

-- What a slot has of each pair: an update, a removal or a merged value at most one of them; the
-- update is not what our side has, and a removal is of a key that our side has.
abbrev pub Sole : Slot → Option KeysetEntry → Type 0
Sole s our =
    (is_some s.update && s.removed ≡ false)
    × (is_some s.update && is_some s.merged ≡ false)
    × (s.removed && is_some s.merged ≡ false)
    × (is_some s.update && same_entry s.update our ≡ false)
    × (s.removed && not (is_some our) ≡ false)

carry-Sole :
    (e our : Option KeysetEntry) → Sole (if same_entry e our then empty else carry_slot e) our
unfolding same_entry
carry-Sole none none = (refl, refl, refl, refl, refl)
carry-Sole none (some o) = (refl, refl, refl, refl, refl)
carry-Sole (some e) our = elim (Bool-cases (same_entry (some e) our)) [
  | inl same ↦ rw same (refl, refl, refl, refl, refl)
  | inr other ↦ rw (other, other) (refl, refl, refl, refl, refl)
]

written-Sole : (out : Outcome) (our : Option KeysetEntry) → Sole (written out our) our
written-Sole keep our = (refl, refl, refl, refl, refl)
written-Sole (carry e) our = carry-Sole e our
written-Sole (value b) our = (refl, refl, refl, refl, refl)
written-Sole (clash c) our = (refl, refl, refl, refl, refl)

-- A successful resolution has at most one thing to do at a key: an update, which then is not what
-- our side has already, a removal of a key our side has, or a merged value to write.
pub resolve_merge-Sole :
    (opts : Options) (r : MergeResolution) (j : Str)
    → resolve_merge opts ≡ ok r
    → Sole (resolved_slot r j) (our_side opts j)
unfolding resolve_merge
resolve_merge-Sole opts r j h =
    let p = resolve_all opts start (changed_keys opts) in
    let (_, u, x, m) = finish-ok p r h in
    rw (u, x, m)
      (subst (λ s. Sole (record s { conflict = false; cause = none }) (our_side opts j))
        (sym (slot-resolved opts j)) (written-Sole (merge_at opts j) (our_side opts j)))
