-- ===== src/Ancestry/Paint.antt =====
-- packages/kvgit-ts/src/versioned/ancestry.ts: `paint`, and the questions that it answers. A read of a
-- record that was read before gives the same, so the map of records read is left out. `pending`, which
-- may count below zero, is the difference of two counts.
pub mod Count
pub mod State
pub mod Starts
pub mod Delta
pub mod Asked
pub mod Rounds
pub mod Levels
pub mod Visits
pub mod Parents
use agex_ts.Prelude.{
  ℕ, zero, suc, ◌+◌, Str, str_Eq, ◌==◌, codes, Bool, true, false, not, ◌&&◌, ◌||◌, Option, none,
  some, List, [], ◌∷◌, leb, ltb, nat_eq, nat_Eq, if◌then◌else◌, or_else, is_empty, is_some, sort,
  map,
}
use agex_ts.Prelude.Result.{Result, ok, err}
use agex_ts.JsMap
use agex_ts.JsMap.{JsMap, JsSet, keys}
use agex_ts.Store.{Bytes}
use agex_ts.Json.{Json}
use agex_ts.Layout.{highest}
use agex_ts.Ancestry.{CommitRecord, record_of, generation_of_record, parents_of}
use agex_ts.Ancestry.Search.{Seen}
use agex_ts.Ancestry.Walks.{ancestors_by_walk, delta_walk}

-- `WANT`, `HAVE` and both bits
pub data Flag : Type 0 where
  want have both : Flag

-- `before | f`
abbrev pub join : Flag → Flag → Flag
join want want = want
join want have = both
join want both = both
join have want = both
join have have = have
join have both = both
join both f = both

abbrev pub same_flag : Flag → Flag → Bool
same_flag want want = true
same_flag have have = true
same_flag both both = true
same_flag want have = false
same_flag want both = false
same_flag have want = false
same_flag have both = false
same_flag both want = false
same_flag both have = false

abbrev pub joined : Option Flag → Flag → Flag
joined none f = f
joined (some b) f = join b f

-- `NoGenerations`, and `commit record missing for ...`
pub data PaintError : Type 0 where
  no_generations : PaintError
  missing : Str → PaintError

pub record Painting : Type 0 where
  pub flags : JsMap Str Flag
  pub levels : JsMap ℕ (JsSet Str)
  pub queued : ℕ
  pub settled : ℕ
  pub delta : JsMap Str (List Str)
  pub had : JsSet Str

abbrev pub level : JsMap ℕ (JsSet Str) → ℕ → JsSet Str
level levels g = or_else (JsMap.get levels g) []

abbrev pub enqueue : JsMap ℕ (JsSet Str) → Str → ℕ → JsMap ℕ (JsSet Str)
enqueue levels c g = JsMap.set levels g (JsMap.add (level levels g) c)

abbrev pub one_if : Flag → ℕ
one_if want = 1
one_if have = 0
one_if both = 0

-- One parent of a visited commit is flagged as that is.
abbrev pub flag_parent : Painting → Flag → Str → ℕ → Option Flag → Painting
flag_parent s f p g none = record s {
  flags = JsMap.set s.flags p f;
  levels = enqueue s.levels p g;
  queued = s.queued + one_if f;
}
flag_parent s f p g (some b) =
    if same_flag (join b f) b
    then s
    else record s { flags = JsMap.set s.flags p (join b f); settled = s.settled + one_if b }

-- Generations stand beside the parents, one for each.
unfoldable pub paint_parents : ℕ → Flag → List Str → List ℕ → Painting → Result PaintError Painting
paint_parents level_gen f [] gens s = ok s
paint_parents level_gen f (p ∷ parents) [] s = err no_generations
paint_parents level_gen f (p ∷ parents) (g ∷ gens) s =
    let rest = paint_parents level_gen f parents gens (flag_parent s f p g (JsMap.get s.flags p)) in
    if leb level_gen g then err no_generations else rest

abbrev pub paint_record :
    ℕ → Flag → List Str → Option (List ℕ) → Painting → Result PaintError Painting
paint_record level_gen f parents none s = if is_empty parents then ok s else err no_generations
paint_record level_gen f parents (some gens) s = paint_parents level_gen f parents gens s

-- A visit: the painting, and whether the search stops here.
abbrev pub going_on : Result PaintError Painting → Result PaintError (Painting × Bool)
going_on (ok s) = ok (s, false)
going_on (err e) = err e

abbrev pub visit_wanted :
    Bool → ℕ → Str → CommitRecord → Painting → Result PaintError (Painting × Bool)
visit_wanted first level_gen c r s =
    let s' = record s { settled = s.settled + 1; delta = JsMap.set s.delta c r.parents } in
    if not r.present
    then err (missing c)
    else if first
    then ok (s', true)
    else going_on (paint_record level_gen want r.parents r.gens s')

abbrev pub visit_had :
    ℕ → Flag → Str → CommitRecord → Painting → Result PaintError (Painting × Bool)
visit_had level_gen f c r s =
    if not r.present
    then ok (s, false)
    else going_on (paint_record level_gen f r.parents r.gens (record s { had = JsMap.add s.had c }))

abbrev pub visit_flagged :
    Bool → ℕ → Str → CommitRecord → Painting → Option Flag → Result PaintError (Painting × Bool)
visit_flagged first level_gen c r s (some want) = visit_wanted first level_gen c r s
visit_flagged first level_gen c r s (some have) = visit_had level_gen have c r s
visit_flagged first level_gen c r s (some both) = visit_had level_gen both c r s
visit_flagged first level_gen c r s none = ok (s, false)

abbrev pub then_rest :
    (Painting → Result PaintError (Painting × Bool))
    → Result PaintError (Painting × Bool)
    → Result PaintError (Painting × Bool)
then_rest go (err e) = err e
then_rest go (ok (s, true)) = ok (s, true)
then_rest go (ok (s, false)) = go s

-- JavaScript's default order of strings, by code unit
unfoldable pub str_leb : Str → Str → Bool
str_leb [] t = true
str_leb (x ∷ s) [] = false
str_leb (x ∷ s) (y ∷ t) = ltb x y || (nat_eq x y && str_leb s t)

abbrev pub highest_key : JsMap ℕ (JsSet Str) → ℕ
highest_key levels = highest 0 (keys levels)

module _ (parse : Bytes → Option Json) (store : Str → Option Bytes) (first : Bool)
    (floor : Option ℕ) where
  -- the commits of one level, in order
  unfoldable pub visit_all : ℕ → List Str → Painting → Result PaintError (Painting × Bool)
  unfolding paint_parents record_of
  visit_all level_gen [] s = ok (s, false)
  visit_all level_gen (c ∷ cs) s =
      then_rest (visit_all level_gen cs)
        (visit_flagged first level_gen c (record_of parse store c) s (JsMap.get s.flags c))

  abbrev pub below_floor : ℕ → Option ℕ → Bool
  below_floor level_gen none = true
  below_floor level_gen (some f) = ltb level_gen f

  abbrev pub then_round :
      (Painting → Option (Result PaintError Painting))
      → Result PaintError (Painting × Bool)
      → Option (Result PaintError Painting)
  then_round go (err e) = some (err e)
  then_round go (ok (s, true)) = some (ok s)
  then_round go (ok (s, false)) = go s

  -- The loop over the levels, the highest first. With no fuel left it has not returned.
  unfoldable pub paint_levels : ℕ → Painting → Option (Result PaintError Painting)
  unfolding visit_all highest keys sort str_leb
  paint_levels zero s = none
  paint_levels (suc fuel) s =
      let level_gen = highest_key s.levels in
      let round = then_round (paint_levels fuel) (
        visit_all level_gen (sort str_leb (keys (level s.levels level_gen)))
          (record s { levels = JsMap.delete s.levels level_gen })) in
      if is_empty s.levels
      then some (ok s)
      else if nat_eq s.queued s.settled && below_floor level_gen floor
      then some (ok s)
      else round

abbrev pub empty_painting : Painting
empty_painting = record { flags = []; levels = []; queued = 0; settled = 0; delta = []; had = [] }

abbrev pub start_at : Str → Option ℕ → Result PaintError Painting
start_at c none = err no_generations
start_at c (some g) =
    ok (record empty_painting { flags = (c, want) ∷ []; levels = enqueue [] c g; queued = 1 })

abbrev pub wanted_before : Option Flag → ℕ
wanted_before none = 0
wanted_before (some f) = one_if f

abbrev pub have_at : Painting → Str → Option ℕ → Result PaintError Painting
have_at s h none = err no_generations
have_at s h (some g) =
    let before = JsMap.get s.flags h in
    ok (record s {
      settled = s.settled + wanted_before before;
      flags = JsMap.set s.flags h (joined before have);
      levels = enqueue s.levels h g;
    })

module _ (parse : Bytes → Option Json) (store : Str → Option Bytes) where
  abbrev pub start_want : Option Str → Result PaintError Painting
  start_want none = ok empty_painting
  start_want (some c) =
      let r = record_of parse store c in
      if not r.present then err (missing c) else start_at c (generation_of_record r)

  abbrev pub start_have : Painting → Str → Result PaintError Painting
  start_have s h =
      let r = record_of parse store h in
      if not r.present then ok s else have_at s h (generation_of_record r)

  abbrev then_haves :
      (Painting → Result PaintError Painting)
      → Result PaintError Painting
      → Result PaintError Painting
  then_haves go (err e) = err e
  then_haves go (ok s) = go s

  unfoldable pub start_haves : List Str → Painting → Result PaintError Painting
  unfolding record_of generation_of_record
  start_haves [] s = ok s
  start_haves (h ∷ haves) s = then_haves (start_haves haves) (start_have s h)

  -- the fuel: a round for each generation, and one to see that none is left
  abbrev pub run_from :
      Bool → Option ℕ → Result PaintError Painting → Option (Result PaintError Painting)
  run_from first floor (err e) = some (err e)
  run_from first floor (ok s) =
      paint_levels parse store first floor (suc (suc (highest_key s.levels))) s

  -- `[...new Set(have)]`
  abbrev pub unique : List Str → JsSet Str → List Str
  unique [] seen = keys seen
  unique (c ∷ cs) seen = unique cs (JsMap.add seen c)

  unfoldable pub paint :
      Bool → Option ℕ → Option Str → List Str → Option (Result PaintError Painting)
  unfolding start_haves paint_levels keys
  paint first floor wanted haves =
      run_from first floor (then_haves (start_haves (unique haves [])) (start_want wanted))

  -- `ancestryDelta`: with the fuel of the walk that it falls back on
  abbrev pub delta_from : ℕ → Str → Option (Result Str Seen) → Option (Result Str Seen)
  delta_from fuel c none = none
  delta_from fuel c (some (err e)) = some (err e)
  delta_from fuel c (some (ok have_set)) = delta_walk parse store fuel c have_set

  abbrev pub delta_or_walk :
      ℕ → Str → List Str → Option (Result PaintError Painting) → Option (Result Str Seen)
  delta_or_walk fuel c haves none = none
  delta_or_walk fuel c haves (some (ok s)) = some (ok s.delta)
  delta_or_walk fuel c haves (some (err (missing m))) = some (err m)
  delta_or_walk fuel c haves (some (err no_generations)) =
      delta_from fuel c (ancestors_by_walk parse store fuel haves)

  unfoldable pub ancestry_delta : ℕ → Str → List Str → Option (Result Str Seen)
  unfolding paint ancestors_by_walk delta_walk
  ancestry_delta fuel wanted haves =
      delta_or_walk fuel wanted haves (paint false none (some wanted) haves)

  abbrev pub walk_has : Str → Option (Result Str Seen) → Option (Result Str Bool)
  walk_has c none = none
  walk_has c (some (err e)) = some (err e)
  walk_has c (some (ok out)) = some (ok (JsMap.has out c))

  abbrev pub none_left :
      ℕ → Str → Str → Option (Result PaintError Painting) → Option (Result Str Bool)
  none_left fuel c from none = none
  none_left fuel c from (some (ok s)) = some (ok (is_empty s.delta))
  none_left fuel c from (some (err (missing m))) = some (err m)
  none_left fuel c from (some (err no_generations)) =
      walk_has c (ancestors_by_walk parse store fuel (from ∷ []))

  unfoldable pub is_ancestor : ℕ → Str → Str → Option (Result Str Bool)
  unfolding paint ancestors_by_walk parents_of
  is_ancestor fuel ancestor from =
      if not (is_some (parents_of parse store ancestor))
      then some (ok false)
      else if ancestor == from
      then some (ok true)
      else none_left fuel ancestor from (paint true none (some ancestor) (from ∷ []))

  abbrev had_or_walk :
      ℕ → List Str → Option (Result PaintError Painting) → Option (Result Str (List Str))
  had_or_walk fuel haves none = none
  had_or_walk fuel haves (some (ok s)) = some (ok (keys s.had))
  had_or_walk fuel haves (some (err (missing m))) = some (err m)
  had_or_walk fuel haves (some (err no_generations)) =
      elim (ancestors_by_walk parse store fuel haves) [
        | none ↦ none
        | some (err e) ↦ some (err e)
        | some (ok out) ↦ some (ok (keys out))
      ]

  unfoldable pub ancestors_above : ℕ → List Str → ℕ → Option (Result Str (List Str))
  unfolding paint ancestors_by_walk keys
  ancestors_above fuel haves floor = had_or_walk fuel haves (paint false (some floor) none haves)
