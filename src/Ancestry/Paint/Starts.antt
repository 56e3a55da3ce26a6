-- ===== src/Ancestry/Paint/Starts.antt =====
-- The start of a search.
use agex_ts.Prelude.{
  ℕ, suc, ◌+◌, Str, str_Eq, str_eq_iff, ◌==◌, ◌≡◌, refl, sym, ◌∙◌, ap, subst, Bool, true, false,
  ◌||◌, ◌&&◌, Option, none, some, List, [], ◌∷◌, if◌then◌else◌, Bool-cases, Option-cases, inl, inr,
  arith, is_some, any, nat_Eq, nat_eq_iff, is_empty,
}
use mathlib.Core.Option.{some-injective}
use agex_ts.Prelude.Result.{Result, ok, err}
use agex_ts.JsMap
use agex_ts.JsMap.{JsMap, JsSet, keys}
use agex_ts.JsMap.Batch.{member}
use agex_ts.JsMap.Laws.{IsUnique, get-set, any-keys, set-IsUnique}
use agex_ts.Store.{Bytes}
use agex_ts.Json.{Json}
use agex_ts.Ancestry.{record_of, parents_of, generation_of_record, CommitRecord}
use agex_ts.Ancestry.Search.Reach.{Reaches, itself}
use agex_ts.Ancestry.Paint.{
  Flag, want, have, both, one_if, Painting, level, enqueue, PaintError, no_generations, missing,
  empty_painting, start_haves, joined, wanted_before, highest_key, unique, run_from, paint,
}
use agex_ts.Ancestry.Paint.Count.{total, total-set, total-same_at}
use agex_ts.Ancestry.Paint.State.{
  waiting, weigh, Good, IsGeneration, HadFrom, is_had, wants, covers, starts_as, has-level-enqueue,
  level_enqueue-IsUnique,
}
use agex_ts.Ancestry.{generation_by}
use agex_ts.Ancestry.Paint.Parents.{covers-join}
use agex_ts.Ancestry.Paint.Visits.{nobody, parents_of-absent}
use agex_ts.Ancestry.Paint.Rounds.{highest_key-ge, has-level, Outcome, paint_levels-Outcome}

abbrev count : Str → Flag → ℕ
count c f = one_if f

no_entry : (c : Str) (ps : List Str) → JsMap.get {K = Str} [] c ≡ some ps → ⊥
unfolding JsMap.get
no_entry c ps k = cc

no_generation_by :
    (ps : List Str) (gens : Option (List ℕ))
    → generation_by ps gens ≡ none
    → (gens ≡ none) × (is_empty ps ≡ false)
no_generation_by [] gens e = cc
no_generation_by (p ∷ ps) none e = (refl, refl)
no_generation_by (p ∷ ps) (some gens) e = cc

no_generation :
    (r : CommitRecord)
    → generation_of_record r ≡ none
    → (r.gens ≡ none) × (is_empty r.parents ≡ false)
unfolding generation_of_record
no_generation r e = no_generation_by r.parents r.gens e

covers-joined : (o : Option Flag) → covers (some (joined o have)) have ≡ true
covers-joined none = refl
covers-joined (some b) = covers-join b have

module _ (gen : Str → ℕ) (parse : Bytes → Option Json) (store : Str → Option Bytes) (wanted : Str)
    (haves : List Str) where
  -- Before the first round every flagged commit waits, and no other.
  pub record Starting (s : Painting) : Type 0 where
    pub wants_sound :
        (c : Str) (f : Flag)
        → JsMap.get s.flags c ≡ some f
        → wants f ≡ true
        → Reaches (parents_of parse store) wanted c
    pub had_sound :
        (c : Str) (f : Flag)
        → JsMap.get s.flags c ≡ some f
        → is_had f ≡ true
        → HadFrom gen parse store wanted haves c
    pub placed : (c : Str) (g : ℕ) → JsMap.has (level s.levels g) c ≡ true → gen c ≡ g
    pub waits : (c : Str) → JsMap.has (level s.levels (gen c)) c ≡ is_some (JsMap.get s.flags c)
    pub counted : s.queued ≡ s.settled + total count s.flags
    pub one_flag : IsUnique s.flags
    pub one_place : (g : ℕ) → IsUnique (level s.levels g)
    pub no_delta : s.delta ≡ []
    pub is_wanted : covers (JsMap.get s.flags wanted) want ≡ true

  begins :
      (s : Painting) (c : Str) (f : Flag)
      → Starting s
      → ((h : Str)
          → starts_as gen parse store wanted haves h have ≡ true
          → covers (JsMap.get s.flags h) have ≡ true)
      → starts_as gen parse store wanted haves c f ≡ true
      → covers (JsMap.get s.flags c) f ≡ true
  begins s c want q taken k =
      subst (λ y. covers (JsMap.get s.flags y) want ≡ true) ((str_eq_iff wanted c).0 k) q.is_wanted
  begins s c have q taken k = taken c k
  begins s c both q taken k = cc

  -- The first round finds it ready.
  pub Starting-Good :
      (s : Painting)
      → Starting s
      → ((h : Str)
          → starts_as gen parse store wanted haves h have ≡ true
          → covers (JsMap.get s.flags h) have ≡ true)
      → Good gen parse store wanted haves (suc (highest_key s.levels)) [] nobody s
  unfolding any
  Starting-Good s q taken =
      let not_done : (c : Str) (f : Flag)
          → JsMap.get s.flags c ≡ some f
          → waiting gen s.levels [] c ≡ false
          → ⊥ =
        λ c f k w. ground (arith, q.waits c, k, w) in
      record {
        wants_sound = q.wants_sound;
        had_sound = q.had_sound;
        placed = λ c g k.
            (q.placed c g k, omega (arith, highest_key-ge s.levels g (has-level s.levels g c k)));
        in_range = λ k h. omega (arith, highest_key-ge s.levels k h);
        at_top = λ c m. cc;
        flagged = λ c k. ground (arith, q.waits c, k);
        above = λ c f k w. absurd (not_done c f k w);
        begun = λ c f k. begins s c f q taken k;
        closed = λ c p f k w n m. absurd (not_done c f k w);
        visited = λ c k w. absurd (not_done c want k w);
        painted = λ c ps k. absurd (no_entry c ps (rw q.no_delta at k));
        counted = omega (
          arith,
          q.counted,
          total-same_at count (weigh gen s.levels []) s.flags q.one_flag
              (λ c f k. rw (q.waits c, k) refl),
        );
        one_flag = q.one_flag;
        one_place = q.one_place;
        in_turn = tt;
      }

  abbrev wanted_painting : Painting
  wanted_painting = record empty_painting {
    flags = (wanted, want) ∷ [];
    levels = enqueue [] wanted (gen wanted);
    queued = 1;
  }

  want-Starting : Starting wanted_painting
  unfolding JsMap.get total
  want-Starting =
      let in_level : (c : Str) (g : ℕ)
          → JsMap.has (level (enqueue [] wanted (gen wanted)) g) c
            ≡ (gen wanted == g && wanted == c) =
        λ c g. ground (arith, has-level-enqueue [] wanted c (gen wanted) g) in
      let only : (c : Str) (f : Flag)
          → JsMap.get ((wanted, want) ∷ []) c ≡ some f
          → (wanted ≡ c) × (want ≡ f) =
        λ c f k. elim (Bool-cases (wanted == c)) [
          | inl here ↦ ((str_eq_iff wanted c).0 here, some-injective want f (rw here at k))
          | inr there ↦ absurd (ground (arith, rw there at k))
        ] in
      record {
        wants_sound =
            λ c f k w. subst (Reaches (parents_of parse store) wanted) (only c f k).0 itself;
        had_sound = λ c f k w. absurd (ground (arith, w, (only c f k).1));
        placed = λ c g k.
            let both_hold : (gen wanted == g && wanted == c) ≡ true = sym (in_level c g) ∙ k in
            sym (ap gen ((str_eq_iff wanted c).0 (ground (arith, both_hold))))
            ∙ (nat_eq_iff (gen wanted) g).0 (ground (arith, both_hold));
        waits = λ c. elim (Bool-cases (wanted == c)) [
          | inl here ↦
              rw
                (
                  in_level c (gen c),
                  here,
                  (nat_eq_iff (gen wanted) (gen c)).1 (ap gen ((str_eq_iff wanted c).0 here)),
                )
                refl
          | inr there ↦ rw (in_level c (gen c), there) (ground arith)
        ];
        counted = refl;
        one_flag = (refl, tt);
        one_place = λ g. level_enqueue-IsUnique [] wanted (gen wanted) (λ k. tt) g;
        no_delta = refl;
        is_wanted = rw ((str_eq_iff wanted wanted).1 refl) refl;
      }

  joins_have : (o : Option Flag) → one_if (joined o have) ≡ 0
  joins_have none = refl
  joins_have (some want) = refl
  joins_have (some have) = refl
  joins_have (some both) = refl

  abbrev taking : Painting → Str → Painting
  taking s h = record s {
    settled = s.settled + wanted_before (JsMap.get s.flags h);
    flags = JsMap.set s.flags h (joined (JsMap.get s.flags h) have);
    levels = enqueue s.levels h (gen h);
  }

  -- a have that is there is taken up
  have-Starting :
      (s : Painting) (h : Str) → Starting s → member haves h ≡ true → Starting (taking s h)
  have-Starting s h q mine =
      let o = JsMap.get s.flags h in
      let flags' = JsMap.set s.flags h (joined o have) in
      let get' : (c : Str)
          → JsMap.get flags' c ≡ (if h == c then some (joined o have) else JsMap.get s.flags c) =
        λ c. get-set s.flags h c (joined o have) in
      let old : (c : Str) (b : Flag) → (h == c) ≡ true → o ≡ some b → JsMap.get s.flags c ≡ some b =
        λ c b here k. subst (λ y. JsMap.get s.flags y ≡ some b) ((str_eq_iff h c).0 here) k in
      record {
        wants_sound = λ c f k w. elim (Bool-cases (h == c)) [
          | inl here ↦
              let is_f : joined o have ≡ f =
                some-injective (joined o have) f (rw (get' c, here) at k) in
              elim (Option-cases o) [
                | inl gone ↦ absurd (ground (arith, w, is_f, gone))
                | inr (b, there) ↦
                    q.wants_sound c b (old c b here there) (ground (arith, w, is_f, there))
              ]
          | inr there ↦ q.wants_sound c f (rw (get' c, there) at k) w
        ];
        had_sound = λ c f k w. elim (Bool-cases (h == c)) [
          | inl here ↦
              subst (HadFrom gen parse store wanted haves) ((str_eq_iff h c).0 here)
                (h, mine, itself)
          | inr there ↦ q.had_sound c f (rw (get' c, there) at k) w
        ];
        placed = λ c g k. elim (Bool-cases (gen h == g && h == c)) [
          | inl here ↦
              sym (ap gen ((str_eq_iff h c).0 (ground (arith, here))))
              ∙ (nat_eq_iff (gen h) g).0 (ground (arith, here))
          | inr there ↦
              q.placed c g (ground (arith, there, k, has-level-enqueue s.levels h c (gen h) g))
        ];
        waits = λ c. elim (Bool-cases (h == c)) [
          | inl here ↦
              rw
                (
                  has-level-enqueue s.levels h c (gen h) (gen c),
                  get' c,
                  here,
                  (nat_eq_iff (gen h) (gen c)).1 (ap gen ((str_eq_iff h c).0 here)),
                )
                refl
          | inr there ↦
              ground
                (arith, has-level-enqueue s.levels h c (gen h) (gen c), there, get' c, q.waits c)
        ];
        counted =
            ground (arith, q.counted, total-set count s.flags h (joined o have), joins_have o);
        one_flag = set-IsUnique s.flags h (joined o have) q.one_flag;
        one_place = level_enqueue-IsUnique s.levels h (gen h) q.one_place;
        no_delta = q.no_delta;
        is_wanted = elim (Bool-cases (h == wanted)) [
          | inl here ↦ ground (
            arith,
            get' wanted,
            here,
            ap (JsMap.get s.flags) ((str_eq_iff h wanted).0 here),
            q.is_wanted,
          )
          | inr there ↦ rw (get' wanted, there) q.is_wanted
        ];
      }

  covers_new :
      (s : Painting) (h c : Str)
      → (h == c) ≡ true
      → covers (JsMap.get (taking s h).flags c) have ≡ true
  covers_new s h c k =
      rw (get-set s.flags h c (joined (JsMap.get s.flags h) have), k)
        (covers-joined (JsMap.get s.flags h))

  covers_kept :
      (s : Painting) (h c : Str)
      → covers (JsMap.get s.flags c) have ≡ true
      → covers (JsMap.get (taking s h).flags c) have ≡ true
  covers_kept s h c k = elim (Bool-cases (h == c)) [
    | inl here ↦ covers_new s h c here
    | inr there ↦ rw (get-set s.flags h c (joined (JsMap.get s.flags h) have), there) k
  ]

  -- What the haves `hs` are begun with: those that are there are flagged.
  abbrev pub Started : (Str → Bool) → Painting → Result PaintError Painting → Type 0
  Started hs s (ok t) =
      Starting t
      × ((h : Str)
          → (hs h && (record_of parse store h).present) ≡ true
          → covers (JsMap.get t.flags h) have ≡ true)
      × ((h : Str)
          → covers (JsMap.get s.flags h) have ≡ true
          → covers (JsMap.get t.flags h) have ≡ true)
  Started hs s (err no_generations) =
      (c : Str) × ((record_of parse store c).gens ≡ none)
      × (is_empty (record_of parse store c).parents ≡ false)
  Started hs s (err (missing c)) = ⊥

  widen :
      (P Q : Str → Bool) (s t : Painting) (r : Result PaintError Painting)
      → Started P t r
      → ((h : Str)
          → (Q h && (record_of parse store h).present) ≡ true
          → P h ≡ false
          → covers (JsMap.get t.flags h) have ≡ true)
      → ((h : Str)
          → covers (JsMap.get s.flags h) have ≡ true
          → covers (JsMap.get t.flags h) have ≡ true)
      → Started Q s r
  widen P Q s t (ok u) (q, taken, kept) more keep = (
    q,
    λ h k. elim (Bool-cases (P h)) [
      | inl later ↦ taken h (ground (arith, later, k))
      | inr now ↦ kept h (more h k now)
    ],
    λ h k. kept h (keep h k),
  )
  widen P Q s t (err no_generations) e more keep = e
  widen P Q s t (err (missing c)) e more keep = e

  start_haves-Started :
      (hs : List Str) (s : Painting)
      → IsGeneration parse store gen
      → Starting s
      → ((h : Str) → any (λ x. x == h) hs ≡ true → member haves h ≡ true)
      → Started (λ h. any (λ x. x == h) hs) s (start_haves parse store hs s)
  unfolding start_haves any
  start_haves-Started [] s g q mine = (q, λ h k. cc, λ h k. k)
  start_haves-Started (h ∷ hs) s g q mine =
      let later : Str → Bool = λ x. any (λ y. y == x) hs in
      let all : Str → Bool = λ x. h == x || later x in
      let r = record_of parse store h in
      let mine_later : (x : Str) → later x ≡ true → member haves x ≡ true =
        λ x m. mine x (ground (arith, m)) in
      let known : (x : Str) → (h == x) ≡ true → r.present ≡ (record_of parse store x).present =
        λ x k. ap (λ y. (record_of parse store y).present) ((str_eq_iff h x).0 k) in
      elim (Bool-cases r.present) [
        | inr absent ↦ rw absent (
            widen later all s s (start_haves parse store hs s)
              (start_haves-Started hs s g q mine_later)
              (λ x k n. absurd (ground (arith, k, n, absent, known x))) (λ x k. k))
        | inl there ↦ elim (Option-cases (generation_of_record r)) [
          | inl ungraded ↦
              rw (there, ungraded) (h, (no_generation r ungraded).0, (no_generation r ungraded).1)
          | inr (i, graded) ↦
              let t = taking s h in
              let q' = have-Starting s h q (mine h (ground (arith, str_eq_iff h h))) in
              rw (there, graded, g.own h i there graded)
                (widen later all s t (start_haves parse store hs t)
                  (start_haves-Started hs t g q' mine_later)
                  (λ x k n. covers_new s h x (ground (arith, k, n))) (covers_kept s h))
        ]
      ]

  any-unique :
      (cs : List Str) (seen : JsSet Str) (c : Str)
      → any (λ x. x == c) (unique parse store cs seen) ≡ (member cs c || JsMap.has seen c)
  unfolding member
  any-unique [] seen c = any-keys seen c
  any-unique (x ∷ cs) seen c =
      ground (arith, any-unique cs (JsMap.add seen x) c, get-set seen x c tt)

  starts-Outcome :
      (first : Bool)
      → IsGeneration parse store gen
      → (s : Painting) (r : Result PaintError Painting)
      → Started (λ h. any (λ x. x == h) (unique parse store haves [])) s r
      → Outcome gen parse store wanted haves first (run_from parse store first none r)
  unfolding member JsMap.get
  starts-Outcome first g s (ok t) (q, taken, kept) =
      paint_levels-Outcome gen parse store wanted haves first (suc (suc (highest_key t.levels)))
        (suc (highest_key t.levels)) t g
        (Starting-Good t q (λ h k. taken h (ground (arith, k, any-unique haves [] h))))
        (omega arith)
  starts-Outcome first g s (err no_generations) e = e
  starts-Outcome first g s (err (missing c)) e = absurd e

  -- `paint` ends, and with what it promises.
  pub paint-Outcome :
      (first : Bool)
      → IsGeneration parse store gen
      → Outcome gen parse store wanted haves first
          (paint parse store first none (some wanted) haves)
  unfolding paint start_haves JsMap.get member
  paint-Outcome first g =
      let r = record_of parse store wanted in
      elim (Bool-cases r.present) [
        | inr absent ↦ rw absent (itself, parents_of-absent parse store wanted absent)
        | inl there ↦ elim (Option-cases (generation_of_record r)) [
          | inl ungraded ↦
              rw (there, ungraded)
                (wanted, (no_generation r ungraded).0, (no_generation r ungraded).1)
          | inr (i, graded) ↦
              rw (there, graded, g.own wanted i there graded)
                (starts-Outcome first g wanted_painting
                  (start_haves parse store (unique parse store haves []) wanted_painting)
                  (start_haves-Started (unique parse store haves []) wanted_painting g want-Starting
                    (λ h k. ground (arith, k, any-unique haves [] h))))
        ]
      ]
