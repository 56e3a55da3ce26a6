-- ===== src/Ancestry/Paint/Asked.antt =====
-- What the painting shows of two commits: one reaches the other where no commit of the delta is found.
use agex_ts.Prelude.{
  ℕ, suc, ◌≤◌, ◌<◌, Str, str_Eq, str_eq_iff, ◌==◌, ◌≡◌, refl, ap, Bool, true, false, Option, none,
  some, List, [], ◌∷◌, Bool-cases, inl, inr, arith, is_some, nat_Eq, is_empty, ◌↔◌,
}
use agex_ts.Prelude.Result.{Result, ok, err}
use agex_ts.JsMap
use agex_ts.JsMap.{JsMap}
use agex_ts.JsMap.Batch.{member}
use agex_ts.JsMap.Laws.{IsUnique}
use agex_ts.Store.{Bytes}
use agex_ts.Json.{Json}
use agex_ts.Ancestry.{parents_of}
use agex_ts.Ancestry.Search.{Seen}
use agex_ts.Ancestry.Search.Reach.{Reaches, itself, parent, remaining}
use agex_ts.Ancestry.Walks.{ancestors_by_walk}
use agex_ts.Ancestry.Walks.Delta.{Ancestor, HasExactly, ancestors_by_walk-HasExactly}
use agex_ts.Ancestry.Paint.{
  Flag, want, have, both, Painting, PaintError, no_generations, missing, paint, is_ancestor,
  none_left, walk_has,
}
use agex_ts.Ancestry.Paint.State.{waiting, Good, IsGeneration, HadFrom, covers}
use agex_ts.Ancestry.Paint.Visits.{nobody}
use agex_ts.Ancestry.Paint.Rounds.{Finished, complete, stopped, Outcome}
use agex_ts.Ancestry.Paint.Starts.{paint-Outcome}
use agex_ts.Ancestry.Paint.Delta.{delta_sound}

trans :
    {next : Str → Option (List Str)} {a b c : Str}
    → Reaches next a b
    → Reaches next b c
    → Reaches next a c
trans r itself = r
trans r (parent ps r' l m) = parent ps (trans r r') l m

some_key : {V : Type 0} (m : JsMap Str V) → is_empty m ≡ false → (c : Str) × (JsMap.has m c ≡ true)
unfolding JsMap.get
some_key [] h = cc
some_key ((c, v) ∷ m) h = (c, rw ((str_eq_iff c c).1 refl) refl)

no_key : {V : Type 0} (m : JsMap Str V) (c : Str) → is_empty m ≡ true → JsMap.has m c ≡ false
unfolding JsMap.get
no_key [] c h = refl
no_key (e ∷ m) c h = cc

module _ (gen : Str → ℕ) (parse : Bytes → Option Json) (store : Str → Option Bytes) (wanted : Str)
    (haves : List Str) (g : IsGeneration parse store gen) where
  -- A delta with a commit shows that no have reaches `wanted`.
  not_had :
      (top : ℕ) (rest : List Str) (pass : Str → Bool) (s : Painting) (c : Str)
      → Good gen parse store wanted haves top rest pass s
      → ((b : Str) → top < gen b → pass b ≡ false)
      → JsMap.has s.delta c ≡ true
      → HadFrom gen parse store wanted haves wanted
      → ⊥
  not_had top rest pass s c q due h (x, m, r) =
      let (to_c, not_c, _) = delta_sound gen parse store wanted haves g top rest pass s c q due h in
      not_c (x, m, trans r to_c)

  -- With no commit in the delta, and nothing wanted alone left, one of them does.
  had :
      (top : ℕ) (s : Painting)
      → Good gen parse store wanted haves top [] nobody s
      → ((x : Str) → JsMap.get s.flags x ≡ some want → waiting gen s.levels [] x ≡ false)
      → is_empty s.delta ≡ true
      → HadFrom gen parse store wanted haves wanted
  had top s q none_left e =
      flagged_had (JsMap.get s.flags wanted) refl
        (q.begun wanted want ((str_eq_iff wanted wanted).1 refl))
    where
      flagged_had :
          (o : Option Flag)
          → JsMap.get s.flags wanted ≡ o
          → covers o want ≡ true
          → HadFrom gen parse store wanted haves wanted
      flagged_had none k w = cc
      flagged_had (some want) k w =
          absurd (ground (arith, q.visited wanted k (none_left wanted k), no_key s.delta wanted e))
      flagged_had (some have) k w = cc
      flagged_had (some both) k w = q.had_sound wanted both k refl

  -- `delta.size === 0` tells whether one of the haves reaches `wanted`.
  Finished-tells :
      (s : Painting)
      → Finished gen parse store wanted haves true s
      → (is_empty s.delta ≡ true) ↔ HadFrom gen parse store wanted haves wanted
  Finished-tells s (complete top t q none_left) = (
    had top t q none_left,
    λ h. elim (Bool-cases (is_empty t.delta)) [
      | inl empty ↦ empty
      | inr there ↦
          let (c, has_c) = some_key t.delta there in
          absurd (not_had top [] nobody t c q (λ b n. refl) has_c h)
    ],
  )
  Finished-tells s (stopped top c later t first of_top q there) = (
    λ e. absurd (ground (arith, there, no_key t.delta c e)),
    λ h. absurd (not_had top later (λ x. c == x) t c q (λ b n. not_c b n) there h),
  )
    where
      not_c : (b : Str) → top < gen b → (c == b) ≡ false
      not_c b n = elim (Bool-cases (c == b)) [
        | inl same ↦ absurd (omega (arith, n, of_top, ap gen ((str_eq_iff c b).0 same)))
        | inr other ↦ other
      ]

module _ (parse : Bytes → Option Json) (store : Str → Option Bytes) (commits : JsMap Str (List Str))
    (listed : (c : Str) → parents_of parse store c ≡ JsMap.get commits c)
    (distinct : IsUnique commits) (gen : Str → ℕ) (g : IsGeneration parse store gen) where
  -- What `isAncestor` ends in.
  pub data Answers (ancestor from : Str) : Option (Result Str Bool) → Type 0 where
    answer :
        (b : Bool)
        → (b ≡ true) ↔ Ancestor parse store commits listed distinct (from ∷ []) ancestor
        → Answers ancestor from (some (ok b))
    lacking :
        (c : Str)
        → Reaches (parents_of parse store) ancestor c
        → parents_of parse store c ≡ none
        → Answers ancestor from (some (err c))

  walk-Answers :
      (ancestor from : Str) (r : Option (Result Str Seen))
      → HasExactly parse store commits listed distinct
          (Ancestor parse store commits listed distinct (from ∷ []))
          r
      → Answers ancestor from (walk_has parse store ancestor r)
  walk-Answers ancestor from r h =
      rw h.is_out (answer (JsMap.has h.out ancestor) (h.exactly ancestor))

  either-Answers :
      (fuel : ℕ) (ancestor from : Str) (r : Option (Result PaintError Painting))
      → is_some (parents_of parse store ancestor) ≡ true
      → Outcome gen parse store ancestor (from ∷ []) true r
      → suc (remaining commits []) ≤ fuel
      → Answers ancestor from (none_left parse store fuel ancestor from r)
  either-Answers fuel ancestor from none there o n = absurd o
  either-Answers fuel ancestor from (some (ok s)) there o n =
      let tells = Finished-tells gen parse store ancestor (from ∷ []) g s o in
      answer (is_empty s.delta) (
        λ e. let (x, m, r) = tells.0 e in (there, x, m, r),
        λ a. let (_, x, m, r) = a in tells.1 (x, m, r),
      )
  either-Answers fuel ancestor from (some (err (missing c))) there o n = lacking c o.0 o.1
  either-Answers fuel ancestor from (some (err no_generations)) there o n =
      walk-Answers ancestor from (ancestors_by_walk parse store fuel (from ∷ [])) (
        ancestors_by_walk-HasExactly parse store commits listed distinct fuel (from ∷ [])
          (omega (arith, n)))

  -- `isAncestor` ends, painting by generation or walking where none are stored: in whether `ancestor` is
  -- in the store and is, or is reachable from, `from`; or in a commit that `ancestor` reaches and the
  -- store lacks. The store holds a finite list of commits, every commit has a generation above its
  -- parents', the stored ones are these, and the fuel of the walk is for `from` and every parent of
  -- every commit.
  pub is_ancestor-Answers :
      (fuel : ℕ) (ancestor from : Str)
      → suc (remaining commits []) ≤ fuel
      → Answers ancestor from (is_ancestor parse store fuel ancestor from)
  unfolding is_ancestor member
  is_ancestor-Answers fuel ancestor from n =
      elim (Bool-cases (is_some (parents_of parse store ancestor))) [
        | inr absent ↦ rw absent (answer false (λ e. cc, λ a. absurd (ground (arith, a.0, absent))))
        | inl there ↦ elim (Bool-cases (ancestor == from)) [
          | inl same ↦
              let is_from = (str_eq_iff ancestor from).0 same in
              rw (there, same)
                (answer true (
                  λ e. (there, ancestor, ground (arith, str_eq_iff from ancestor, is_from), itself),
                  λ a. refl,
                ))
          | inr other ↦
              rw (there, other)
                (either-Answers fuel ancestor from
                  (paint parse store true none (some ancestor) (from ∷ [])) there
                  (paint-Outcome gen parse store ancestor (from ∷ []) true g) n)
        ]
      ]
