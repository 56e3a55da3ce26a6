-- ===== src/Examples/Commits.antt =====
-- Searches over a small history: `a` and `b` are children of `r`.
use agex_ts.Prelude.{
  ℕ, ◌<◌, Str, str_Eq, str_eq_iff, str_eq, ◌==◌, ◌≡◌, refl, sym, ◌∙◌, subst, Bool, true, false, not,
  ◌&&◌, Option, none, some, List, [], ◌∷◌, codes, if◌then◌else◌, Bool-cases, inl, inr, arith, map,
}
use mathlib.Core.Option.{some-injective}
use agex_ts.Prelude.Result.{ok}
use agex_ts.JsMap
use agex_ts.JsMap.{JsMap}
use agex_ts.JsMap.Batch.{member}
use agex_ts.JsMap.Laws.{IsUnique}
use agex_ts.Store.{Bytes}
use agex_ts.Json.{Json, string, natural, array, nil, cons}
use agex_ts.Layout.{parent_commit, parent_gens, strings, naturals}
use agex_ts.Ancestry.{record_of, parents_of, generation_of_record, CommitRecord}
use agex_ts.Ancestry.Search.Reach.{remaining}
use agex_ts.Ancestry.Walks.{ancestors_by_walk, diff_keysets}
use agex_ts.Ancestry.Walks.Delta.{Ancestor, HasExactly, IsDelta, ancestors_by_walk-HasExactly}
use agex_ts.Ancestry.Walks.Keysets.{diff_keysets_lem, differs}
use agex_ts.Ancestry.Paint.{ancestry_delta, is_ancestor}
use agex_ts.Ancestry.Paint.State.{IsGeneration}
use agex_ts.Ancestry.Paint.Delta.{ancestry_delta-IsDelta}
use agex_ts.Ancestry.Paint.Asked.{Answers, is_ancestor-Answers}

abbrev r : Str
r = codes "r"

abbrev a : Str
a = codes "a"

abbrev b : Str
b = codes "b"

-- the texts, as `JSON.parse` gives them
abbrev parse : Bytes → Option Json
parse raw =
    if raw == codes "[]"
    then some (array nil)
    else if raw == codes "[\"r\"]"
    then some (array (cons (string r) nil))
    else if raw == codes "[0]"
    then some (array (cons (natural 0) nil))
    else none

abbrev store : Str → Option Bytes
store key =
    if key == parent_commit r
    then some (codes "[]")
    else if key == parent_commit a
    then some (codes "[\"r\"]")
    else if key == parent_commit b
    then some (codes "[\"r\"]")
    else if key == parent_gens a
    then some (codes "[0]")
    else if key == parent_gens b
    then some (codes "[0]")
    else none

abbrev commits : JsMap Str (List Str)
commits = (r, []) ∷ (a, r ∷ []) ∷ (b, r ∷ []) ∷ []

abbrev gen : Str → ℕ
gen c = if c == a then 1 else if c == b then 1 else 0

delta_of_a : ancestry_delta parse store 9 a (b ∷ []) ≡ some (ok ((a, r ∷ []) ∷ []))
unfolding ancestry_delta str_eq strings naturals JsMap.set JsMap.get JsMap.delete
delta_of_a = refl

other_way : (c d : Str) → (c == d) ≡ false → (d == c) ≡ false
other_way c d h = ground (arith, h, str_eq_iff c d, str_eq_iff d c)

-- A property of every commit, from the three and from any other
by_commit :
    (P : Str → Type 0)
    → P r
    → P a
    → P b
    → ((c : Str) → (c == r) ≡ false → (c == a) ≡ false → (c == b) ≡ false → P c)
    → (c : Str) → P c
by_commit P on_r on_a on_b on_other c = elim (Bool-cases (c == r)) [
  | inl is_r ↦ subst P (sym ((str_eq_iff c r).0 is_r)) on_r
  | inr not_r ↦ elim (Bool-cases (c == a)) [
    | inl is_a ↦ subst P (sym ((str_eq_iff c a).0 is_a)) on_a
    | inr not_a ↦ elim (Bool-cases (c == b)) [
      | inl is_b ↦ subst P (sym ((str_eq_iff c b).0 is_b)) on_b
      | inr not_b ↦ on_other c not_r not_a not_b
    ]
  ]
]

not_stored :
    (c : Str)
    → (c == r) ≡ false
    → (c == a) ≡ false
    → (c == b) ≡ false
    → (store (parent_commit c) ≡ none) × (store (parent_gens c) ≡ none)
unfolding str_eq
not_stored c not_r not_a not_b = (rw (not_r, not_a, not_b) refl, rw (not_a, not_b) refl)

listed : (c : Str) → parents_of parse store c ≡ JsMap.get commits c
unfolding parents_of JsMap.get strings str_eq
listed =
    by_commit (λ c. parents_of parse store c ≡ JsMap.get commits c) refl refl refl
      (λ c not_r not_a not_b.
        rw
          (
            (not_stored c not_r not_a not_b).0,
            other_way c r not_r,
            other_way c a not_a,
            other_way c b not_b,
          )
          refl)

distinct : IsUnique commits
unfolding JsMap.get str_eq
distinct = (refl, (refl, (refl, tt)))

record_of_root : record_of parse store r ≡ record { present = true; parents = []; gens = none }
unfolding record_of strings naturals str_eq
record_of_root = refl

record_of-a :
    record_of parse store a ≡ record { present = true; parents = r ∷ []; gens = some (0 ∷ []) }
unfolding record_of strings naturals str_eq
record_of-a = refl

record_of-b :
    record_of parse store b ≡ record { present = true; parents = r ∷ []; gens = some (0 ∷ []) }
unfolding record_of strings naturals str_eq
record_of-b = refl

record_of_other :
    (c : Str)
    → (c == r) ≡ false
    → (c == a) ≡ false
    → (c == b) ≡ false
    → record_of parse store c ≡ record { present = false; parents = []; gens = none }
unfolding record_of
record_of_other c not_r not_a not_b =
    let (gone, no_gens) = not_stored c not_r not_a not_b in rw (gone, no_gens) refl

-- what the record of a commit has to say of its generation
record Agrees (c : Str) (k : CommitRecord) : Type 0 where
  lower : (p : Str) → member k.parents p ≡ true → gen p < gen c
  same : (gens : List ℕ) → k.gens ≡ some gens → gens ≡ map gen k.parents
  mine : (g : ℕ) → k.present ≡ true → generation_of_record k ≡ some g → g ≡ gen c

child_of_root :
    (c : Str)
    → gen c ≡ 1
    → Agrees c (record { present = true; parents = r ∷ []; gens = some (0 ∷ []) })
unfolding member str_eq generation_of_record
child_of_root c e = record {
  lower =
      λ p h. subst (λ y. gen y < gen c) ((str_eq_iff r p).0 (ground (arith, h))) (omega (arith, e));
  same = λ gens h. sym (some-injective (0 ∷ []) gens h);
  mine = λ g h k. sym (some-injective 1 g k) ∙ sym e;
}

no_parents :
    (c : Str) (there : Bool)
    → (there ≡ true → gen c ≡ 0)
    → Agrees c (record { present = there; parents = []; gens = none })
unfolding member generation_of_record
no_parents c there e = record {
  lower = λ p h. cc;
  same = λ gens h. cc;
  mine = λ g h k. sym (some-injective 0 g k) ∙ sym (e h);
}

agrees : (c : Str) → Agrees c (record_of parse store c)
unfolding str_eq
agrees =
    by_commit (λ c. Agrees c (record_of parse store c))
      (rw record_of_root (no_parents r true (λ h. refl))) (rw record_of-a (child_of_root a refl))
      (rw record_of-b (child_of_root b refl))
      (λ c not_r not_a not_b.
        rw (record_of_other c not_r not_a not_b) (no_parents c false (λ h. cc)))

gen-IsGeneration : IsGeneration parse store gen
gen-IsGeneration = record {
  below = λ c. (agrees c).lower;
  stored = λ c. (agrees c).same;
  own = λ c. (agrees c).mine;
}

-- `a`, without what is already at `b`
ancestry_delta-IsDelta_example :
    IsDelta parse store commits listed distinct a (b ∷ []) (ancestry_delta parse store 9 a (b ∷ []))
unfolding JsMap.get remaining
ancestry_delta-IsDelta_example =
    ancestry_delta-IsDelta parse store commits listed distinct gen gen-IsGeneration 9 a (b ∷ [])
      (omega arith)

root_of_b : is_ancestor parse store 9 r b ≡ some (ok true)
unfolding is_ancestor str_eq strings naturals JsMap.set JsMap.get JsMap.delete
root_of_b = refl

is_ancestor-Answers_example :
    Answers parse store commits listed distinct gen gen-IsGeneration r b
      (is_ancestor parse store 9 r b)
unfolding JsMap.get remaining
is_ancestor-Answers_example =
    is_ancestor-Answers parse store commits listed distinct gen gen-IsGeneration 9 r b (omega arith)

ancestors_by_walk-HasExactly_example :
    HasExactly parse store commits listed distinct
      (Ancestor parse store commits listed distinct (a ∷ b ∷ []))
      (ancestors_by_walk parse store 9 (a ∷ b ∷ []))
unfolding JsMap.get remaining
ancestors_by_walk-HasExactly_example =
    ancestors_by_walk-HasExactly parse store commits listed distinct 9 (a ∷ b ∷ []) (omega arith)

-- one key removed, one changed
abbrev before : JsMap Str Str
before = (a, codes "1") ∷ (b, codes "2") ∷ []

abbrev after : JsMap Str Str
after = (b, codes "3") ∷ []

before-IsUnique : IsUnique before
unfolding JsMap.get str_eq
before-IsUnique = (refl, (refl, tt))

diff_keysets_lem_example :
    let d = diff_keysets before after in
    (JsMap.has d.added b ≡ (not (JsMap.has before b) && JsMap.has after b))
    × (JsMap.has d.removed b ≡ (JsMap.has before b && not (JsMap.has after b)))
    × (JsMap.has d.modified b ≡ differs (JsMap.get before b) (JsMap.get after b))
diff_keysets_lem_example = diff_keysets_lem before after b before-IsUnique
