-- ===== src/Ancestry/Paint/Levels.antt =====
-- The visits of a level's commits, one after another.
use agex_ts.Prelude.{
  ℕ, ◌+◌, Str, str_Eq, str_eq_iff, ◌==◌, ◌≡◌, refl, sym, ◌∙◌, ap, subst, Bool, true, false, not,
  ◌&&◌, Option, none, some, List, [], ◌∷◌, if◌then◌else◌, Bool-cases, inl, inr, arith, any, nat_Eq,
  is_empty,
}
use mathlib.Core.Option.{some-injective}
use agex_ts.Prelude.Result.{Result, ok, err}
use agex_ts.JsMap
use agex_ts.JsMap.{JsMap, JsSet}
use agex_ts.JsMap.Batch.{member}
use agex_ts.JsMap.Laws.{get-set}
use agex_ts.Store.{Bytes}
use agex_ts.Json.{Json}
use agex_ts.Ancestry.{record_of, parents_of}
use agex_ts.Ancestry.Search.Reach.{Reaches, parent}
use agex_ts.Ancestry.Paint.{
  Flag, want, have, both, one_if, Painting, level, paint_record, PaintError, no_generations,
  missing, visit_flagged, visit_wanted, visit_had, going_on, then_rest, visit_all,
}
use agex_ts.Ancestry.Paint.Count.{total-but}
use agex_ts.Ancestry.Paint.State.{wants, is_had, covers, waiting, weigh, Good, IsGeneration}
use agex_ts.Ancestry.Paint.Visits.{
  nobody, all_parents, parents_of-present, parents_of-absent, no_parents-absent,
}

module _ (gen : Str → ℕ) (parse : Bytes → Option Json) (store : Str → Option Bytes) (wanted : Str)
    (haves : List Str) where
  -- A visited commit is no longer waiting; its parents are still to be flagged.
  unqueue :
      (top : ℕ) (rest : List Str) (c : Str) (s : Painting) (f : Flag) (settled' : ℕ)
      (delta' : JsMap Str (List Str)) (had' : JsSet Str)
      → Good gen parse store wanted haves top (c ∷ rest) nobody s
      → JsMap.get s.flags c ≡ some f
      → settled' ≡ s.settled + one_if f
      → (JsMap.get s.flags c ≡ some want → JsMap.has delta' c ≡ true)
      → ((x : Str) → JsMap.has s.delta x ≡ true → JsMap.has delta' x ≡ true)
      → ((x : Str) (ps : List Str)
          → (c == x) ≡ false
          → JsMap.get delta' x ≡ some ps
          → JsMap.get s.delta x ≡ some ps)
      → ((ps : List Str)
          → JsMap.get delta' c ≡ some ps
          → (JsMap.get s.flags c ≡ some want) × (parents_of parse store c ≡ some ps))
      → Good gen parse store wanted haves top rest
          (λ x. c == x)
          (record s { settled = settled'; delta = delta'; had = had' })
  unfolding any
  unqueue top rest c s f settled' delta' had' q e n mine more less held =
      let here : (c == c) ≡ true = (str_eq_iff c c).1 refl in
      let of_top : gen c ≡ top = q.at_top c (ground (arith, here)) in
      let not_below : JsMap.has (level s.levels (gen c)) c ≡ false =
        elim (Bool-cases (JsMap.has (level s.levels (gen c)) c)) [
          | inl there ↦ absurd (omega (arith, of_top, q.placed c (gen c) there))
          | inr no_more ↦ no_more
        ] in
      let done : waiting gen s.levels rest c ≡ false = ground (arith, not_below, q.in_turn.0) in
      let others : (x : Str)
          → (c == x) ≡ false
          → waiting gen s.levels (c ∷ rest) x ≡ waiting gen s.levels rest x =
        λ x k. ground (arith, k) in
      let old : (x : Str) → (c == x) ≡ true → c ≡ x = λ x k. (str_eq_iff c x).0 k in
      record {
        wants_sound = q.wants_sound;
        had_sound = q.had_sound;
        placed = q.placed;
        in_range = q.in_range;
        at_top = λ x k. q.at_top x (ground (arith, k));
        flagged = λ x k. q.flagged x (ground (arith, k));
        above = λ x g k w. elim (Bool-cases (c == x)) [
          | inl is_c ↦ omega (arith, of_top, ap gen (old x is_c))
          | inr other ↦ q.above x g k (others x other ∙ w)
        ];
        begun = q.begun;
        closed = λ x p g k w not_c m. q.closed x p g k (others x not_c ∙ w) refl m;
        visited = λ x k w. elim (Bool-cases (c == x)) [
          | inl is_c ↦
              subst (λ y. JsMap.has delta' y ≡ true) (old x is_c)
                (mine (subst (λ y. JsMap.get s.flags y ≡ some want) (sym (old x is_c)) k))
          | inr other ↦ more x (q.visited x k (others x other ∙ w))
        ];
        painted = λ x ps k. elim (Bool-cases (c == x)) [
          | inl is_c ↦
              let (is_want, held_c) =
                held ps (subst (λ y. JsMap.get delta' y ≡ some ps) (sym (old x is_c)) k) in
              (
                subst (λ y. JsMap.get s.flags y ≡ some want) (old x is_c) is_want,
                subst (λ y. waiting gen s.levels rest y ≡ false) (old x is_c) done,
                subst (λ y. parents_of parse store y ≡ some ps) (old x is_c) held_c,
              )
          | inr other ↦
              let (is_want, gone, held_x) = q.painted x ps (less x ps other k) in
              (is_want, sym (others x other) ∙ gone, held_x)
        ];
        counted =
            let w = weigh gen s.levels (c ∷ rest) in
            let w' = weigh gen s.levels rest in
            let change =
              total-but w w' s.flags c
                (λ x g k.
                  ap (λ b. if b then one_if g else 0)
                    (others x (ground (arith, k, str_eq_iff c x, str_eq_iff x c))))
                q.one_flag in
            let before : w c f ≡ one_if f = ground (arith, here) in
            let after : w' c f ≡ 0 = rw done refl in
            omega (arith, n, q.counted, before, after, rw e at change);
        one_flag = q.one_flag;
        one_place = q.one_place;
        in_turn = q.in_turn.1;
      }

  -- With its parents flagged the commit is as all visited ones are.
  closing :
      (top : ℕ) (rest : List Str) (c : Str) (s : Painting) (f : Flag)
      → Good gen parse store wanted haves top rest (λ x. c == x) s
      → JsMap.get s.flags c ≡ some f
      → ((p : Str)
          → member (record_of parse store c).parents p ≡ true
          → covers (JsMap.get s.flags p) f ≡ true)
      → Good gen parse store wanted haves top rest nobody s
  closing top rest c s f q e all = record {
    wants_sound = q.wants_sound;
    had_sound = q.had_sound;
    placed = q.placed;
    in_range = q.in_range;
    at_top = q.at_top;
    flagged = q.flagged;
    above = q.above;
    begun = q.begun;
    closed = λ x p g k w n m. elim (Bool-cases (c == x)) [
      | inl is_c ↦
          let same = (str_eq_iff c x).0 is_c in
          let is_f : f ≡ g =
            some-injective f g (sym e ∙ subst (λ y. JsMap.get s.flags y ≡ some g) (sym same) k) in
          subst (λ y. covers (JsMap.get s.flags p) y ≡ true) is_f
            (all p (subst (λ y. member (record_of parse store y).parents p ≡ true) (sym same) m))
      | inr other ↦ q.closed x p g k w other m
    ];
    visited = q.visited;
    painted = q.painted;
    counted = q.counted;
    one_flag = q.one_flag;
    one_place = q.one_place;
    in_turn = q.in_turn;
  }

  -- What a visit may end in. Stopping early leaves a commit of the delta.
  abbrev pub After : Bool → ℕ → List Str → Result PaintError (Painting × Bool) → Type 0
  After first top rest (ok (s, false)) = Good gen parse store wanted haves top rest nobody s
  After first top rest (ok (s, true)) =
      (first ≡ true)
      × (c : Str) × (later : List Str) × (gen c ≡ top)
      × Good gen parse store wanted haves top later (λ x. c == x) s
      × (JsMap.has s.delta c ≡ true)
  After first top rest (err no_generations) =
      (c : Str) × ((record_of parse store c).gens ≡ none)
      × (is_empty (record_of parse store c).parents ≡ false)
  After first top rest (err (missing c)) =
      Reaches (parents_of parse store) wanted c × (parents_of parse store c ≡ none)

  record-After :
      (first : Bool) (top : ℕ) (rest : List Str) (c : Str) (s : Painting) (f : Flag)
      (o : Option (List ℕ))
      → IsGeneration parse store gen
      → Good gen parse store wanted haves top rest (λ x. c == x) s
      → JsMap.get s.flags c ≡ some f
      → gen c ≡ top
      → (record_of parse store c).present ≡ true
      → (record_of parse store c).gens ≡ o
      → After first top rest (going_on (paint_record top f (record_of parse store c).parents o s))
  unfolding member
  record-After first top rest c s f none g q e of_top here is_o =
      elim (Bool-cases (is_empty (record_of parse store c).parents)) [
        | inl alone ↦
            let no_one : (p : Str) → member (record_of parse store c).parents p ≡ false =
              λ p. ground (arith, alone) in
            rw alone (closing top rest c s f q e (λ p m. absurd (ground (arith, m, no_one p))))
        | inr not_alone ↦ rw not_alone (c, is_o, not_alone)
      ]
  record-After first top rest c s f (some gens) g q e of_top here is_o =
      let ps = (record_of parse store c).parents in
      let held = parents_of-present parse store c here in
      let (t, is_t, flags) =
        all_parents gen parse store wanted haves top rest (λ x. c == x) f ps s q
          (λ p m. omega (arith, of_top, g.below c p m))
          (λ p m. record {
            wanted_by = λ w. parent ps (q.wants_sound c f e w) held m;
            had_by = λ w.
                let (x, in_haves, r) = q.had_sound c f e w in (x, in_haves, parent ps r held m);
          }) in
      rw (g.stored c gens is_o, is_t)
        (closing top rest c t f flags.good (flags.kept c (omega (arith, of_top)) ∙ e) flags.flagged)

  wanted-After :
      (first : Bool) (top : ℕ) (rest : List Str) (c : Str) (s : Painting)
      → IsGeneration parse store gen
      → Good gen parse store wanted haves top (c ∷ rest) nobody s
      → JsMap.get s.flags c ≡ some want
      → gen c ≡ top
      → After first top rest (visit_wanted first top c (record_of parse store c) s)
  wanted-After first top rest c s g q e of_top =
      let r = record_of parse store c in
      elim (Bool-cases r.present) [
        | inr absent ↦
            rw absent (q.wants_sound c want e refl, parents_of-absent parse store c absent)
        | inl here ↦
            let held = parents_of-present parse store c here in
            let delta' = JsMap.set s.delta c r.parents in
            let s' = record s { settled = s.settled + 1; delta = delta' } in
            let get' : (x : Str)
                → JsMap.get delta' x ≡ (if c == x then some r.parents else JsMap.get s.delta x) =
              λ x. get-set s.delta c x r.parents in
            let there : JsMap.has delta' c ≡ true = ground (arith, get' c, str_eq_iff c c) in
            let q' =
              unqueue top rest c s want (s.settled + 1) delta' s.had q e refl (λ w. there)
                (λ x k. ground (arith, k, get' x)) (λ x ps k m. rw (get' x, k) at m)
                (λ ps k. (e, held ∙ (rw (get' c, (str_eq_iff c c).1 refl) at k))) in
            rw here (elim (Bool-cases first) [
              | inl stops ↦ rw stops (refl, c, rest, of_top, q', there)
              | inr goes ↦
                  rw goes (record-After false top rest c s' want r.gens g q' e of_top here refl)
            ])
      ]

  had-After :
      (first : Bool) (top : ℕ) (rest : List Str) (c : Str) (s : Painting) (f : Flag)
      → IsGeneration parse store gen
      → Good gen parse store wanted haves top (c ∷ rest) nobody s
      → JsMap.get s.flags c ≡ some f
      → wants f && not (is_had f) ≡ false
      → gen c ≡ top
      → After first top rest (visit_had top f c (record_of parse store c) s)
  unfolding member
  had-After first top rest c s f g q e had of_top =
      let r = record_of parse store c in
      let not_want : JsMap.get s.flags c ≡ some want → ⊥ = λ k. ground (arith, e, k, had) in
      let one : one_if f ≡ 0 = ground (arith, had) in
      let same : (had' : JsSet Str)
          → Good gen parse store wanted haves top rest (λ x. c == x) (record s { had = had' }) =
        λ had'.
          unqueue top rest c s f s.settled s.delta had' q e (omega (arith, one))
            (λ k. absurd (not_want k)) (λ x k. k) (λ x ps k m. m)
            (λ ps k. absurd (not_want (q.painted c ps k).0)) in
      elim (Bool-cases r.present) [
        | inr absent ↦
            let no_one : (p : Str) → member r.parents p ≡ false =
              λ p. rw (no_parents-absent parse store c absent) refl in
            rw absent
              (closing top rest c s f (same s.had) e (λ p m. absurd (ground (arith, m, no_one p))))
        | inl here ↦ rw here (
            record-After first top rest c (record s { had = JsMap.add s.had c }) f r.gens g
              (same (JsMap.add s.had c)) e of_top here refl)
      ]

  visit-After :
      (first : Bool) (top : ℕ) (rest : List Str) (c : Str) (s : Painting) (o : Option Flag)
      → IsGeneration parse store gen
      → Good gen parse store wanted haves top (c ∷ rest) nobody s
      → JsMap.get s.flags c ≡ o
      → After first top rest (visit_flagged first top c (record_of parse store c) s o)
  unfolding any
  visit-After first top rest c s o g q e =
      let of_top : gen c ≡ top = q.at_top c (ground (arith, str_eq_iff c c)) in visit_by o e of_top
    where
      visit_by :
          (o : Option Flag)
          → JsMap.get s.flags c ≡ o
          → gen c ≡ top
          → After first top rest (visit_flagged first top c (record_of parse store c) s o)
      visit_by none e of_top =
          absurd (ground (arith, q.flagged c (ground (arith, str_eq_iff c c)), e))
      visit_by (some want) e of_top = wanted-After first top rest c s g q e of_top
      visit_by (some have) e of_top = had-After first top rest c s have g q e refl of_top
      visit_by (some both) e of_top = had-After first top rest c s both g q e refl of_top

  rest-After :
      (first : Bool) (top : ℕ) (rest : List Str)
      (go : Painting → Result PaintError (Painting × Bool))
      (r : Result PaintError (Painting × Bool))
      → After first top rest r
      → ((t : Painting)
          → Good gen parse store wanted haves top rest nobody t
          → After first top [] (go t))
      → After first top [] (then_rest go r)
  rest-After first top rest go (ok (t, false)) a k = k t a
  rest-After first top rest go (ok (t, true)) a k = a
  rest-After first top rest go (err no_generations) a k = a
  rest-After first top rest go (err (missing m)) a k = a

  pub visit_all-After :
      (first : Bool) (floor : Option ℕ) (top : ℕ) (rest : List Str) (s : Painting)
      → IsGeneration parse store gen
      → Good gen parse store wanted haves top rest nobody s
      → After first top [] (visit_all parse store first floor top rest s)
  unfolding visit_all
  visit_all-After first floor top [] s g q = q
  visit_all-After first floor top (c ∷ rest) s g q =
      rest-After first top rest (visit_all parse store first floor top rest)
        (visit_flagged first top c (record_of parse store c) s (JsMap.get s.flags c))
        (visit-After first top rest c s (JsMap.get s.flags c) g q refl)
        (λ t q'. visit_all-After first floor top rest t g q')
