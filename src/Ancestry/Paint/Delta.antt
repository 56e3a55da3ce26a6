-- ===== src/Ancestry/Paint/Delta.antt =====
-- What the painting shows of a commit: of the delta is what `wanted` reaches and none of the haves does.
use agex_ts.Prelude.{
  ℕ, suc, ◌+◌, ◌≤◌, ◌<◌, Str, str_Eq, str_eq_iff, ◌==◌, ◌≡◌, refl, sym, ◌∙◌, ap, subst, Bool, true,
  false, Option, none, some, List, [], Bool-cases, Option-cases, inl, inr, arith, is_some, any,
  nat_Eq, length,
}
use mathlib.Core.Option.{some-injective}
use agex_ts.Prelude.Result.{Result, ok, err}
use agex_ts.JsMap
use agex_ts.JsMap.{JsMap}
use agex_ts.JsMap.Batch.{member}
use agex_ts.JsMap.Laws.{IsUnique}
use agex_ts.Store.{Bytes}
use agex_ts.Json.{Json}
use agex_ts.Ancestry.{record_of, parents_of}
use agex_ts.Ancestry.Search.{Seen}
use agex_ts.Ancestry.Search.Reach.{Reaches, itself, parent, remaining}
use agex_ts.Ancestry.Walks.{ancestors_by_walk}
use agex_ts.Ancestry.Walks.Delta.{
  Ancestor, HasExactly, IsDelta, delta, lacking, ancestors_by_walk-HasExactly, delta_walk-IsDelta,
}
use agex_ts.Ancestry.Paint.{
  Flag, want, have, both, Painting, PaintError, no_generations, missing, paint, ancestry_delta,
  delta_or_walk, delta_from,
}
use agex_ts.Ancestry.Paint.State.{waiting, Good, IsGeneration, HadFrom, is_had, covers, starts_as}
use agex_ts.Ancestry.Paint.Visits.{nobody, parents_of-present, parents_of-absent}
use agex_ts.Ancestry.Paint.Rounds.{Finished, complete, stopped, Outcome}
use agex_ts.Ancestry.Paint.Starts.{paint-Outcome}

covers_on :
    (o : Option Flag) (f : Flag)
    → covers o f ≡ true
    → covers (some f) have ≡ true
    → covers o have ≡ true
covers_on o f h k = ground arith

wants_alone : (f : Flag) → covers (some f) want ≡ true → (is_had f ≡ true → ⊥) → f ≡ want
wants_alone want h k = refl
wants_alone have h k = cc
wants_alone both h k = absurd (k refl)

module _ (parse : Bytes → Option Json) (store : Str → Option Bytes) where
  present-of :
      (c : Str) (ps : List Str)
      → parents_of parse store c ≡ some ps
      → ((record_of parse store c).present ≡ true) × ((record_of parse store c).parents ≡ ps)
  present-of c ps e = elim (Bool-cases (record_of parse store c).present) [
    | inl there ↦ (
      there,
      some-injective (record_of parse store c).parents ps
          (sym (parents_of-present parse store c there) ∙ e),
    )
    | inr gone ↦ absurd (ground (arith, parents_of-absent parse store c gone, e))
  ]

  -- what reaches a commit that is there is there
  present-back :
      (a c : Str)
      → Reaches (parents_of parse store) a c
      → is_some (parents_of parse store c) ≡ true
      → is_some (parents_of parse store a) ≡ true
  present-back a c itself h = h
  present-back a c (parent {b} ps r l m) h = present-back a b r (rw l refl)

module _ (gen : Str → ℕ) (parse : Bytes → Option Json) (store : Str → Option Bytes) (wanted : Str)
    (haves : List Str) (g : IsGeneration parse store gen) where
  -- Along a path from a have every commit that is due is flagged.
  had_along :
      (top : ℕ) (rest : List Str) (pass : Str → Bool) (s : Painting) (h c : Str)
      → Good gen parse store wanted haves top rest pass s
      → ((b : Str) → top < gen b → pass b ≡ false)
      → starts_as gen parse store wanted haves h have ≡ true
      → Reaches (parents_of parse store) h c
      → top ≤ gen c
      → covers (JsMap.get s.flags c) have ≡ true
  had_along top rest pass s h c q due start itself n = q.begun h have start
  had_along top rest pass s h c q due start (parent {b} ps r l m) n =
      let m' : member (record_of parse store b).parents c ≡ true =
        rw (present-of parse store b ps l).1 m in
      let up : gen c < gen b = g.below b c m' in
      let above : covers (JsMap.get s.flags b) have ≡ true =
        had_along top rest pass s h b q due start r (omega (arith, n, up)) in
      let done : waiting gen s.levels rest b ≡ false =
        elim (Bool-cases (waiting gen s.levels rest b)) [
          | inl yet ↦ elim (Bool-cases (any (λ x. x == b) rest)) [
            | inl now ↦ absurd (omega (arith, n, up, q.at_top b now))
            | inr later ↦
                absurd (omega (arith, n, up, q.placed b (gen b) (ground (arith, yet, later))))
          ]
          | inr no_more ↦ no_more
        ] in
      elim (Option-cases (JsMap.get s.flags b)) [
        | inl gone ↦ absurd (ground (arith, above, gone))
        | inr (f, there) ↦
            let down = q.closed b c f there done (due b (omega (arith, n, up))) m' in
            covers_on (JsMap.get s.flags c) f down (rw there at above)
      ]

  HadFrom-starts :
      (s c : Str)
      → is_some (parents_of parse store c) ≡ true
      → member haves s ≡ true
      → Reaches (parents_of parse store) s c
      → starts_as gen parse store wanted haves s have ≡ true
  HadFrom-starts s c there m r = elim (Option-cases (parents_of parse store s)) [
    | inl gone ↦ absurd (ground (arith, present-back parse store s c r there, gone))
    | inr (ps, held) ↦ rw (m, (present-of parse store s ps held).0) refl
  ]

  -- A commit of the delta is reached by `wanted` and by none of the haves.
  pub delta_sound :
      (top : ℕ) (rest : List Str) (pass : Str → Bool) (s : Painting) (c : Str)
      → Good gen parse store wanted haves top rest pass s
      → ((b : Str) → top < gen b → pass b ≡ false)
      → JsMap.has s.delta c ≡ true
      → Reaches (parents_of parse store) wanted c
        × (HadFrom gen parse store wanted haves c → ⊥)
        × (is_some (parents_of parse store c) ≡ true)
  delta_sound top rest pass s c q due h =
      let (ps, is_ps) : (ps : List Str) × (JsMap.get s.delta c ≡ some ps) =
        elim (Option-cases (JsMap.get s.delta c)) [
          | inl gone ↦ absurd (ground (arith, h, gone))
          | inr (ps, there) ↦ (ps, there)
        ] in
      let (is_want, done, held) = q.painted c ps is_ps in
      let there : is_some (parents_of parse store c) ≡ true = rw held refl in
      (
        q.wants_sound c want is_want refl,
        λ a.
            let (x, m, r) = a in
            let yes =
              had_along top rest pass s x c q due (HadFrom-starts x c there m r) r
                (q.above c want is_want done) in
            ground (arith, rw is_want at yes),
        there,
      )

  only_wanted :
      (top : ℕ) (s : Painting) (c : Str)
      → Good gen parse store wanted haves top [] nobody s
      → covers (JsMap.get s.flags c) want ≡ true
      → (HadFrom gen parse store wanted haves c → ⊥)
      → JsMap.get s.flags c ≡ some want
  only_wanted top s c q k not_had = elim (Option-cases (JsMap.get s.flags c)) [
    | inl gone ↦ absurd (ground (arith, k, gone))
    | inr (f, there) ↦
        there ∙ ap some (wants_alone f (rw there at k) (λ w. not_had (q.had_sound c f there w)))
  ]

  -- With nothing left that is wanted alone, along a path from `wanted` all that no have reaches is.
  want_along :
      (top : ℕ) (s : Painting) (c : Str)
      → Good gen parse store wanted haves top [] nobody s
      → ((x : Str) → JsMap.get s.flags x ≡ some want → waiting gen s.levels [] x ≡ false)
      → Reaches (parents_of parse store) wanted c
      → (HadFrom gen parse store wanted haves c → ⊥)
      → JsMap.get s.flags c ≡ some want
  want_along top s c q none_left itself not_had =
      only_wanted top s wanted q (q.begun wanted want ((str_eq_iff wanted wanted).1 refl)) not_had
  want_along top s c q none_left (parent {b} ps r l m) not_had =
      let m' : member (record_of parse store b).parents c ≡ true =
        rw (present-of parse store b ps l).1 m in
      let above =
        want_along top s b q none_left r
          (λ a. let (x, in_haves, x_b) = a in not_had (x, in_haves, parent ps x_b l m)) in
      only_wanted top s c q (q.closed b c want above (none_left b above) refl m') not_had

module _ (parse : Bytes → Option Json) (store : Str → Option Bytes) (commits : JsMap Str (List Str))
    (listed : (c : Str) → parents_of parse store c ≡ JsMap.get commits c)
    (distinct : IsUnique commits) (gen : Str → ℕ) (g : IsGeneration parse store gen) where
  Finished-IsDelta :
      (wanted : Str) (haves : List Str) (s : Painting)
      → Finished gen parse store wanted haves false s
      → IsDelta parse store commits listed distinct wanted haves (some (ok s.delta))
  unfolding member
  Finished-IsDelta wanted haves s (stopped top c later t first of_top q there) = cc
  Finished-IsDelta wanted haves s (complete top t q none_left) =
      delta t.delta
        (λ c. (
          λ h.
              let (r, not_had, there) =
                delta_sound gen parse store wanted haves g top [] nobody t c q (λ b n. refl) h in
              (
                (there, wanted, ground (arith, str_eq_iff wanted wanted), r),
                λ a. let (_, x, m, x_c) = a in not_had (x, m, x_c),
              ),
          λ a.
              let (there, x, m, r) = a.0 in
              let r' =
                subst (λ y. Reaches (parents_of parse store) y c)
                  (sym ((str_eq_iff wanted x).0 (ground (arith, m)))) r in
              let is_want =
                want_along gen parse store wanted haves g top t c q none_left r'
                  (λ had. let (y, in_haves, y_c) = had in a.1 (there, y, in_haves, y_c)) in
              q.visited c is_want (none_left c is_want),
        ))
        (λ c ps k. (q.painted c ps k).2)

  by_walk :
      (fuel : ℕ) (wanted : Str) (haves : List Str) (r : Option (Result Str Seen))
      → HasExactly parse store commits listed distinct
          (Ancestor parse store commits listed distinct haves)
          r
      → suc (remaining commits []) ≤ fuel
      → IsDelta parse store commits listed distinct wanted haves
          (delta_from parse store fuel wanted r)
  by_walk fuel wanted haves r h n =
      rw h.is_out
        (delta_walk-IsDelta parse store commits listed distinct fuel wanted haves h.out h.exactly n)

  either_way :
      (fuel : ℕ) (wanted : Str) (haves : List Str) (r : Option (Result PaintError Painting))
      → Outcome gen parse store wanted haves false r
      → length haves + suc (remaining commits []) ≤ fuel
      → IsDelta parse store commits listed distinct wanted haves
          (delta_or_walk parse store fuel wanted haves r)
  either_way fuel wanted haves none o n = absurd o
  either_way fuel wanted haves (some (ok s)) o n = Finished-IsDelta wanted haves s o
  either_way fuel wanted haves (some (err (missing c))) o n = lacking c o.0 o.1
  either_way fuel wanted haves (some (err no_generations)) o n =
      by_walk fuel wanted haves (ancestors_by_walk parse store fuel haves)
        (ancestors_by_walk-HasExactly parse store commits listed distinct fuel haves
          (omega (arith, n)))
        (omega (arith, n))

  -- `ancestryDelta` ends, painting by generation or walking where none are stored: in the commits of
  -- the store that `wanted` reaches and that none of `haves` is or reaches, each with its parents; or
  -- in a commit that `wanted` reaches and the store lacks. The store holds a finite list of commits,
  -- every commit has a generation above its parents', the stored ones are these, and the fuel of the
  -- walks is for the haves, `wanted` and every parent of every commit.
  pub ancestry_delta-IsDelta :
      (fuel : ℕ) (wanted : Str) (haves : List Str)
      → length haves + suc (remaining commits []) ≤ fuel
      → IsDelta parse store commits listed distinct wanted haves
          (ancestry_delta parse store fuel wanted haves)
  unfolding ancestry_delta
  ancestry_delta-IsDelta fuel wanted haves n =
      either_way fuel wanted haves (paint parse store false none (some wanted) haves)
        (paint-Outcome gen parse store wanted haves false g) n
