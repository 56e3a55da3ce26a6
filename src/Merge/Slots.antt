-- ===== src/Merge/Slots.antt =====
-- One round of the loop writes what the key's own merge says, at that key and nowhere else; so the
-- whole loop leaves at each key what the merge of that key says.
use agex_ts.Prelude.{
  Str, str_eq_iff, str_Eq, ◌≡◌, refl, Bool, true, false, ◌||◌, Option, none, some, List, [], ◌∷◌,
  arith, if◌then◌else◌, ◌==◌, any, Bool-cases, inl, inr, ◌∙◌, ap, sym, ◌++◌, is_some, any-sort,
  any-append,
}
use agex_ts.JsMap
use agex_ts.JsMap.{JsSet, keys}
use agex_ts.PyJson.{no_later}
use agex_ts.JsMap.Laws.{get-set, any-keys}
use agex_ts.Store.{Bytes}
use agex_ts.Merge.{
  KeysetEntry, ours, theirs, FnResult, bytes, chose, threw, MergePolicy, choice, function, Change,
  Progress, Options, start, changed_keys, add_all, policy_for, resolve_all, same_entry, ancestor_of,
  entry_of, read, put, take, settle, contested, resolve_key,
}
use agex_ts.Merge.Outcome.{
  Outcome, carry, answer, merge_changes, merge_key, Slot, slot, empty, over, carry_slot, written,
}

-- `p'` is `p` with `s` written at `key`.
abbrev Writes : Progress → Str → Slot → Progress → Type 0
Writes p key s p' = (j : Str) → slot p' j ≡ (if key == j then over s (slot p j) else slot p j)

put-Writes :
    (p : Progress) (key : Str) (e : Option KeysetEntry) → Writes p key (carry_slot e) (put p key e)
put-Writes p key none j = ground (arith, get-set p.removals key j tt)
put-Writes p key (some e) j = ground (arith, get-set p.updates key j e)

take-Writes :
    (p : Progress) (key : Str) (e our : Option KeysetEntry)
    → Writes p key (written (carry e) our) (take p key e our)
unfolding take
take-Writes p key e our j = ground (arith, put-Writes p key e j)

settle-Writes :
    (p : Progress) (key : Str) (our their : Option KeysetEntry) (r : FnResult)
    → Writes p key (written (answer their r) our) (settle p key our their r)
unfolding settle
settle-Writes p key our their (threw e) j =
    ground (arith, get-set p.conflicts key j tt, get-set p.merge_errors key j e)
settle-Writes p key our their (chose ours) j = ground arith
settle-Writes p key our their (chose theirs) j = take-Writes p key their our j
settle-Writes p key our their (bytes b) j = ground (arith, get-set p.merged_values key j b)

-- not a registered `MergeChoice`
abbrev Uncommitted : Option MergePolicy → Type 0
Uncommitted none = Unit
Uncommitted (some (choice c)) = ⊥
Uncommitted (some (function f)) = Unit

contested-Writes :
    (reader : Str → Option Bytes) (policy : Option MergePolicy) (p : Progress) (key : Str)
    (o t : Change)
    → Uncommitted policy
    → Writes p key
        (written (merge_changes reader policy o t) o.new)
        (contested reader policy p key o t)
unfolding contested
contested-Writes reader none p key o t u j = ground (arith, get-set p.conflicts key j tt)
contested-Writes reader (some (choice c)) p key o t u j = absurd u
contested-Writes reader (some (function f)) p key o t u j =
    let r = f (read reader o.old) (read reader o.new) (read reader t.new) in
    ground (arith, settle-Writes p key o.new t.new r j)

abbrev pub our_entry : Option Change → Option Change → Option KeysetEntry
our_entry o t = entry_of o (ancestor_of o t)

resolve_key-Writes :
    (reader : Str → Option Bytes) (policy : Option MergePolicy) (p : Progress) (key : Str)
    (o t : Option Change)
    → Writes p key
        (written (merge_key reader policy o t) (our_entry o t))
        (resolve_key reader policy p key o t)
unfolding resolve_key merge_key
resolve_key-Writes reader (some (choice ours)) p key none none j = ground arith
resolve_key-Writes reader (some (choice ours)) p key none (some t) j = ground arith
resolve_key-Writes reader (some (choice ours)) p key (some o) none j = ground arith
resolve_key-Writes reader (some (choice ours)) p key (some o) (some t) j = ground arith
resolve_key-Writes reader (some (choice theirs)) p key none none j =
    unfold same_entry in take-Writes p key none none j
resolve_key-Writes reader (some (choice theirs)) p key none (some t) j =
    take-Writes p key t.new t.old j
resolve_key-Writes reader (some (choice theirs)) p key (some o) none j =
    take-Writes p key o.old o.new j
resolve_key-Writes reader (some (choice theirs)) p key (some o) (some t) j =
    take-Writes p key t.new o.new j
resolve_key-Writes reader none p key none none j = ground arith
resolve_key-Writes reader none p key (some o) none j = ground arith
resolve_key-Writes reader none p key none (some t) j = take-Writes p key t.new t.old j
resolve_key-Writes reader none p key (some o) (some t) j =
    contested-Writes reader none p key o t tt j
resolve_key-Writes reader (some (function f)) p key none none j = ground arith
resolve_key-Writes reader (some (function f)) p key (some o) none j = ground arith
resolve_key-Writes reader (some (function f)) p key none (some t) j =
    take-Writes p key t.new t.old j
resolve_key-Writes reader (some (function f)) p key (some o) (some t) j =
    contested-Writes reader (some (function f)) p key o t tt j

abbrev pub merge_at : Options → Str → Outcome
merge_at opts j =
    merge_key opts.blob_reader (policy_for opts j) (JsMap.get opts.ours j) (JsMap.get opts.theirs j)

abbrev pub our_side : Options → Str → Option KeysetEntry
our_side opts j = our_entry (JsMap.get opts.ours j) (JsMap.get opts.theirs j)

over-over : (a b : Slot) → over a (over a b) ≡ over a b
over-over a b = ground arith

-- a slot written in this round, in a later one, or in both
over_twice :
    (now later : Bool) (w s₀ s₁ s₂ : Slot)
    → s₁ ≡ (if now then over w s₀ else s₀)
    → s₂ ≡ (if later then over w s₁ else s₁)
    → s₂ ≡ (if now || later then over w s₀ else s₀)
over_twice false later w s₀ s₁ s₂ p q = rw p at q
over_twice true false w s₀ s₁ s₂ p q = q ∙ p
over_twice true true w s₀ s₁ s₂ p q = q ∙ (ap (over w) p ∙ over-over w s₀)

abbrev pub writes_at : Options → Str → Slot
writes_at opts j = written (merge_at opts j) (our_side opts j)

written_here :
    (opts : Options) (k j : Str) (s : Slot)
    → (if k == j then over (writes_at opts k) s else s)
      ≡ (if k == j then over (writes_at opts j) s else s)
written_here opts k j s = elim (Bool-cases (k == j)) [
  | inl here ↦ rw (here, (str_eq_iff k j).0 here) refl
  | inr there ↦ rw there refl
]

slot-resolve_all :
    (opts : Options) (p : Progress) (ks : List Str) (j : Str)
    → slot (resolve_all opts p ks) j
      ≡ (if any (λ k. k == j) ks then over (writes_at opts j) (slot p j) else slot p j)
unfolding resolve_all any
slot-resolve_all opts p [] j = refl
slot-resolve_all opts p (k ∷ ks) j =
    let o = JsMap.get opts.ours k in
    let t = JsMap.get opts.theirs k in
    let q = resolve_key opts.blob_reader (policy_for opts k) p k o t in
    over_twice (k == j) (any (λ i. i == j) ks) (writes_at opts j) (slot p j) (slot q j) _
      (resolve_key-Writes opts.blob_reader (policy_for opts k) p k o t j
        ∙ written_here opts k j (slot p j))
      (slot-resolve_all opts q ks j)

any-add_all :
    (s : JsSet Str) (ks : List Str) (j : Str)
    → JsMap.has (add_all s ks) j ≡ (any (λ k. k == j) ks || JsMap.has s j)
unfolding add_all any
any-add_all s [] j = refl
any-add_all s (k ∷ ks) j = ground (arith, any-add_all (JsMap.add s k) ks j, get-set s k j tt)

-- The loop visits exactly the keys that a side changed.
any-changed_keys :
    (opts : Options) (j : Str)
    → any (λ k. k == j) (changed_keys opts) ≡ (JsMap.has opts.ours j || JsMap.has opts.theirs j)
unfolding changed_keys
any-changed_keys opts j =
    let o = keys opts.ours in
    let t = keys opts.theirs in
    let s = add_all [] (o ++ t) in
    any-sort (λ k. k == j) no_later (keys s)
    ∙ (any-keys s j
        ∙ unfold JsMap.get in
          grind (
            arith,
            any-add_all [] (o ++ t) j,
            any-append (λ k. k == j) o t,
            any-keys opts.ours j,
            any-keys opts.theirs j,
          ))

unchanged :
    (reader : Str → Option Bytes) (policy : Option MergePolicy) (o t : Option Change)
    → (is_some o || is_some t) ≡ false
    → written (merge_key reader policy o t) (our_entry o t) ≡ empty
unfolding merge_key
unchanged reader policy none none h = refl
unchanged reader policy none (some t) h = cc
unchanged reader policy (some o) t h = cc

over-empty : (s : Slot) → over s empty ≡ s
over-empty s = ground arith

-- The whole loop leaves at each key what the merge of that key says.
pub slot-resolved :
    (opts : Options) (j : Str)
    → slot (resolve_all opts start (changed_keys opts)) j ≡ writes_at opts j
unfolding JsMap.get
slot-resolved opts j =
    slot-resolve_all opts start (changed_keys opts) j
    ∙ elim (Bool-cases (JsMap.has opts.ours j || JsMap.has opts.theirs j)) [
      | inl changed ↦ rw (any-changed_keys opts j, changed) (over-empty (writes_at opts j))
      | inr same ↦
          rw (any-changed_keys opts j, same)
            (sym (
              unchanged opts.blob_reader (policy_for opts j) (JsMap.get opts.ours j)
                (JsMap.get opts.theirs j) same))
    ]
