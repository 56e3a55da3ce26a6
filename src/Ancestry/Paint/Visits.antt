-- ===== src/Ancestry/Paint/Visits.antt =====
-- A visit of one commit, and of all of a level.
use agex_ts.Prelude.{
  ℕ, ◌≤◌, ◌<◌, Str, str_Eq, str_eq_iff, ◌==◌, ◌≡◌, refl, sym, ◌∙◌, ap, subst, Bool, true, false,
  ◌||◌, Option, none, some, List, [], ◌∷◌, if◌then◌else◌, Bool-cases, Option-cases, inl, inr, arith,
  map, nat_Eq, leb,
}
use mathlib.Core.Option.{some-injective}
use agex_ts.Prelude.Result.{ok}
use agex_ts.JsMap
use agex_ts.JsMap.{JsMap, JsSet}
use agex_ts.JsMap.Batch.{member}
use agex_ts.JsMap.Laws.{get-set}
use agex_ts.Store.{Bytes}
use agex_ts.Json.{Json}
use agex_ts.Layout.{parent_commit}
use agex_ts.Ancestry.{record_of, parents_of}
use agex_ts.Ancestry.Paint.{Flag, join, same_flag, Painting, flag_parent, paint_parents}
use agex_ts.Ancestry.Paint.State.{covers, Good}
use agex_ts.Ancestry.Paint.Parents.{
  Adds, Says, new-Good, old-Good, covers_trans, covers_self, covers-join,
}

abbrev pub nobody : Str → Bool
nobody c = false

covers-before : (b f : Flag) → covers (some (join b f)) b ≡ true
covers-before b f = ground arith

module _ (parse : Bytes → Option Json) (store : Str → Option Bytes) where
  pub parents_of-present :
      (c : Str)
      → (record_of parse store c).present ≡ true
      → parents_of parse store c ≡ some (record_of parse store c).parents
  unfolding record_of parents_of
  parents_of-present c h = elim (Option-cases (store (parent_commit c))) [
    | inl gone ↦ absurd (ground (arith, rw gone at h))
    | inr (raw, there) ↦ rw there refl
  ]

  pub parents_of-absent :
      (c : Str) → (record_of parse store c).present ≡ false → parents_of parse store c ≡ none
  unfolding record_of parents_of
  parents_of-absent c h = elim (Option-cases (store (parent_commit c))) [
    | inl gone ↦ rw gone refl
    | inr (raw, there) ↦ absurd (ground (arith, rw there at h))
  ]

  pub no_parents-absent :
      (c : Str) → (record_of parse store c).present ≡ false → (record_of parse store c).parents ≡ []
  unfolding record_of
  no_parents-absent c h = elim (Option-cases (store (parent_commit c))) [
    | inl gone ↦ rw gone refl
    | inr (raw, there) ↦ absurd (ground (arith, rw there at h))
  ]

module _ (gen : Str → ℕ) (parse : Bytes → Option Json) (store : Str → Option Bytes) (wanted : Str)
    (haves : List Str) where
  -- Commits as `ps` are flagged as `f`, and none of the generation `top` or above is touched.
  pub record Flags (top : ℕ) (rest : List Str) (pass : Str → Bool) (f : Flag) (ps : List Str)
      (s t : Painting) : Type 0 where
    pub good : Good gen parse store wanted haves top rest pass t
    pub adds : Adds gen parse store wanted haves s t
    pub flagged : (p : Str) → member ps p ≡ true → covers (JsMap.get t.flags p) f ≡ true
    pub kept : (c : Str) → top ≤ gen c → JsMap.get t.flags c ≡ JsMap.get s.flags c
    pub same_delta : t.delta ≡ s.delta

  one_parent :
      (top : ℕ) (rest : List Str) (pass : Str → Bool) (s : Painting) (f : Flag) (p : Str)
      (o : Option Flag)
      → Good gen parse store wanted haves top rest pass s
      → JsMap.get s.flags p ≡ o
      → gen p < top
      → Says gen parse store wanted haves f p
      → Flags top rest pass f (p ∷ []) s (flag_parent s f p (gen p) o)
  unfolding member
  one_parent top rest pass s f p none q e lower says =
      let get' : (c : Str)
          → JsMap.get (JsMap.set s.flags p f) c ≡ (if p == c then some f else JsMap.get s.flags c) =
        λ c. get-set s.flags p c f in
      record {
        good = new-Good gen parse store wanted haves top rest pass s f p q e lower says;
        adds = λ c g k. elim (Bool-cases (p == c)) [
          | inl here ↦ absurd (
              ground
                (arith, k, subst (λ y. JsMap.get s.flags y ≡ none) ((str_eq_iff p c).0 here) e))
          | inr there ↦ rw (get' c, there, k) (covers_self g)
        ];
        flagged = λ x m. ground (arith, get' x, m, covers_self f);
        kept = λ c h. elim (Bool-cases (p == c)) [
          | inl here ↦ absurd (omega (arith, h, lower, ap gen ((str_eq_iff p c).0 here)))
          | inr there ↦ rw (get' c, there) refl
        ];
        same_delta = refl;
      }
  one_parent top rest pass s f p (some b) q e lower says =
      elim (Bool-cases (same_flag (join b f) b)) [
        | inl same ↦ rw same (record {
          good = q;
          adds = λ c g k. rw k (covers_self g);
          flagged = λ x m.
              subst (λ y. covers (JsMap.get s.flags y) f ≡ true)
                ((str_eq_iff p x).0 (ground (arith, m))) (rw e same);
          kept = λ c h. refl;
          same_delta = refl;
        })
        | inr changes ↦
            let get' : (c : Str)
                → JsMap.get (JsMap.set s.flags p (join b f)) c
                  ≡ (if p == c then some (join b f) else JsMap.get s.flags c) =
              λ c. get-set s.flags p c (join b f) in
            rw changes (record {
              good =
                  old-Good gen parse store wanted haves top rest pass s f b p q e changes lower
                    says;
              adds = λ c g k. elim (Bool-cases (p == c)) [
                | inl here ↦
                    let is_b : b ≡ g = some-injective b g (
                      sym (subst (λ y. JsMap.get s.flags y ≡ some b) ((str_eq_iff p c).0 here) e)
                      ∙ k) in
                    rw (get' c, here)
                      (subst (λ y. covers (some (join b f)) y ≡ true) is_b (covers-before b f))
                | inr there ↦ rw (get' c, there, k) (covers_self g)
              ];
              flagged = λ x m. ground (arith, get' x, m, covers-join b f);
              kept = λ c h. elim (Bool-cases (p == c)) [
                | inl here ↦ absurd (omega (arith, h, lower, ap gen ((str_eq_iff p c).0 here)))
                | inr there ↦ rw (get' c, there) refl
              ];
              same_delta = refl;
            })
      ]

  pub all_parents :
      (top : ℕ) (rest : List Str) (pass : Str → Bool) (f : Flag) (ps : List Str) (s : Painting)
      → Good gen parse store wanted haves top rest pass s
      → ((p : Str) → member ps p ≡ true → gen p < top)
      → ((p : Str) → member ps p ≡ true → Says gen parse store wanted haves f p)
      → (t : Painting) × (paint_parents top f ps (map gen ps) s ≡ ok t)
        × Flags top rest pass f ps s t
  unfolding paint_parents member
  all_parents top rest pass f [] s q lower says = (
    s,
    refl,
    record {
      good = q;
      adds = λ c g k. rw k (covers_self g);
      flagged = λ p m. cc;
      kept = λ c h. refl;
      same_delta = refl;
    },
  )
  all_parents top rest pass f (p ∷ ps) s q lower says =
      let first_in : (p == p || member ps p) ≡ true = ground (arith, str_eq_iff p p) in
      let s' = flag_parent s f p (gen p) (JsMap.get s.flags p) in
      let one =
        one_parent top rest pass s f p (JsMap.get s.flags p) q refl (lower p first_in)
          (says p first_in) in
      let (t, is_t, more) =
        all_parents top rest pass f ps s' one.good (λ x m. lower x (ground (arith, m)))
          (λ x m. says x (ground (arith, m))) in
      let in_range : leb top (gen p) ≡ false = ground (arith, lower p first_in) in
      (
        t,
        rw in_range is_t,
        record {
          good = more.good;
          adds = λ c g k. elim (Option-cases (JsMap.get s'.flags c)) [
            | inl gone ↦ absurd (ground (arith, one.adds c g k, gone))
            | inr (b, there) ↦
                covers_trans (JsMap.get t.flags c) b g (more.adds c b there)
                  (rw there at (one.adds c g k))
          ];
          flagged = λ x m. elim (Bool-cases (p == x)) [
            | inl here ↦ elim (Option-cases (JsMap.get s'.flags x)) [
              | inl gone ↦ absurd (ground (arith, one.flagged x (ground (arith, here)), gone))
              | inr (b, there) ↦
                  covers_trans (JsMap.get t.flags x) b f (more.adds x b there)
                    (rw there at (one.flagged x (ground (arith, here))))
            ]
            | inr other ↦ more.flagged x (ground (arith, m, other))
          ];
          kept = λ c h. more.kept c h ∙ one.kept c h;
          same_delta = more.same_delta ∙ one.same_delta;
        },
      )
