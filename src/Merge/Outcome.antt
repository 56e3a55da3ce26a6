-- ===== src/Merge/Outcome.antt =====
-- The three-way merge of one key, with no accumulators, and what it leaves in each of the maps that
-- the loop of `resolveMerge` writes.
use agex_ts.Prelude.{Str, Bool, true, false, ◌||◌, Option, none, some, if◌then◌else◌}
use agex_ts.JsMap
use agex_ts.JsMap.Batch.{first_some}
use agex_ts.Store.{Bytes}
use agex_ts.Merge.{
  KeysetEntry, ours, theirs, FnResult, bytes, chose, threw, MergePolicy, choice, function, Change,
  Progress, same_entry, read, agree,
}
use agex_ts.Prelude.{str_Eq}

-- Our side's state stands; their side's state is taken; a merge function's bytes; or a conflict,
-- with the error of a merge function that threw.
pub data Outcome : Type 0 where
  keep : Outcome
  carry : Option KeysetEntry → Outcome
  value : Bytes → Outcome
  clash : Option Str → Outcome

abbrev pub answer : Option KeysetEntry → FnResult → Outcome
answer their (threw e) = clash (some e)
answer their (chose ours) = keep
answer their (chose theirs) = carry their
answer their (bytes b) = value b

-- both sides changed the key
abbrev pub merge_changes : (Str → Option Bytes) → Option MergePolicy → Change → Change → Outcome
merge_changes reader none o t = if agree o.new t.new then keep else clash none
merge_changes reader (some (choice ours)) o t = keep
merge_changes reader (some (choice theirs)) o t = carry t.new
merge_changes reader (some (function f)) o t =
    if agree o.new t.new
    then keep
    else answer t.new (f (read reader o.old) (read reader o.new) (read reader t.new))

unfoldable pub merge_key :
    (Str → Option Bytes) → Option MergePolicy → Option Change → Option Change → Outcome
merge_key reader policy none none = keep
-- a side that alone changed the key wins, unless a registered choice gives the key to the other
merge_key reader (some (choice theirs)) (some o) none = carry o.old
merge_key reader _ (some o) none = keep
merge_key reader (some (choice ours)) none (some t) = keep
merge_key reader _ none (some t) = carry t.new
merge_key reader policy (some o) (some t) = merge_changes reader policy o t

-- What the maps have at one key.
pub record Slot : Type 0 where
  pub update : Option KeysetEntry
  pub removed : Bool
  pub merged : Option Bytes
  pub conflict : Bool
  pub cause : Option Str

abbrev pub slot : Progress → Str → Slot
slot p j = record {
  update = JsMap.get p.updates j;
  removed = JsMap.has p.removals j;
  merged = JsMap.get p.merged_values j;
  conflict = JsMap.has p.conflicts j;
  cause = JsMap.get p.merge_errors j;
}

abbrev pub empty : Slot
empty = record { update = none; removed = false; merged = none; conflict = false; cause = none }

-- a slot written over another
abbrev pub over : Slot → Slot → Slot
over a b = record {
  update = first_some a.update b.update;
  removed = a.removed || b.removed;
  merged = first_some a.merged b.merged;
  conflict = a.conflict || b.conflict;
  cause = first_some a.cause b.cause;
}

abbrev pub carry_slot : Option KeysetEntry → Slot
carry_slot none = record empty { removed = true }
carry_slot (some e) = record empty { update = some e }

-- What an outcome writes, where our side has the entry `our`.
abbrev pub written : Outcome → Option KeysetEntry → Slot
written keep our = empty
written (carry e) our = if same_entry e our then empty else carry_slot e
written (value b) our = record empty { merged = some b }
written (clash cause) our = record empty { conflict = true; cause = cause }
