-- ===== src/Ancestry/Paint/Rounds.antt =====
-- The rounds of a search end, with nothing left that is wanted alone.
use agex_ts.Prelude.{
  ℕ, zero, suc, ◌≤◌, ◌<◌, Str, str_Eq, ◌==◌, ◌≡◌, refl, sym, ◌∙◌, ap, subst, Bool, true, false, not,
  ◌||◌, ◌&&◌, Option, none, some, List, [], ◌∷◌, if◌then◌else◌, Bool-cases, Option-cases, inl, inr,
  arith, is_some, any, nat_Eq, nat_eq, nat_eq_iff, is_empty, leb, sort, any-sort, sort-IsDistinct,
  IsDistinct,
}
use agex_ts.Prelude.Result.{Result, ok, err}
use agex_ts.JsMap
use agex_ts.JsMap.{JsMap, JsSet, keys}
use agex_ts.JsMap.Laws.{IsUnique, get-delete, any-keys}
use agex_ts.Store.{Bytes}
use agex_ts.Json.{Json}
use agex_ts.Layout.{highest}
use agex_ts.Ancestry.{record_of, parents_of}
use agex_ts.Ancestry.Search.Reach.{Reaches}
use agex_ts.Ancestry.Paint.{
  want, one_if, Painting, level, PaintError, no_generations, missing, highest_key, str_leb,
  visit_all, paint_levels, then_round,
}
use agex_ts.Ancestry.Paint.Count.{total-same, weight-le-total}
use agex_ts.Ancestry.Paint.State.{waiting, weigh, Good, IsGeneration}
use agex_ts.Ancestry.Paint.Visits.{nobody}
use agex_ts.Ancestry.Paint.Levels.{After, visit_all-After}

highest-ge :
    (g : ℕ) (gs : List ℕ) (k : ℕ) → (g == k || any (λ j. j == k) gs) ≡ true → k ≤ highest g gs
unfolding highest any
highest-ge g [] k h = ground (arith, nat_eq_iff g k)
highest-ge g (x ∷ gs) k h = ground (
  arith,
  nat_eq_iff g k,
  nat_eq_iff x k,
  highest-ge (if leb g x then x else g) gs k,
  highest-ge (if leb g x then x else g) gs (if leb g x then x else g),
  nat_eq_iff (if leb g x then x else g) (if leb g x then x else g),
)

highest-there :
    (g : ℕ) (gs : List ℕ) → (g == highest g gs || any (λ j. j == highest g gs) gs) ≡ true
unfolding highest any
highest-there g [] = ground (arith, nat_eq_iff g g)
highest-there g (x ∷ gs) = ground (arith, highest-there (if leb g x then x else g) gs)

pub highest_key-ge :
    (levels : JsMap ℕ (JsSet Str)) (k : ℕ)
    → is_some (JsMap.get levels k) ≡ true
    → k ≤ highest_key levels
highest_key-ge levels k h = highest-ge 0 (keys levels) k (ground (arith, any-keys levels k, h))

highest_key-there :
    (levels : JsMap ℕ (JsSet Str))
    → is_empty levels ≡ false
    → is_some (JsMap.get levels (highest_key levels)) ≡ true
highest_key-there [] h = cc
highest_key-there ((k, cs) ∷ levels) h =
    let all = (k, cs) ∷ levels in
    let top = highest_key all in
    let one : is_some (JsMap.get all k) ≡ true =
      unfold JsMap.get in (ground (arith, nat_eq_iff k k)) in
    let bound : k ≤ top = highest_key-ge all k one in
    elim (Bool-cases (nat_eq 0 top)) [
      | inl lowest ↦
          let same : k ≡ top = ground (arith, bound, lowest) in
          subst (λ x. is_some (JsMap.get all x) ≡ true) same one
      | inr other ↦ ground (arith, highest-there 0 (keys all), other, any-keys all top)
    ]

keys-IsDistinct : (cs : JsSet Str) → IsUnique cs → IsDistinct (keys cs)
unfolding keys
keys-IsDistinct [] u = tt
keys-IsDistinct ((c, x) ∷ cs) (fresh, u) =
    (ground (arith, any-keys cs c, fresh), keys-IsDistinct cs u)

pub has-level :
    (levels : JsMap ℕ (JsSet Str)) (k : ℕ) (c : Str)
    → JsMap.has (level levels k) c ≡ true
    → is_some (JsMap.get levels k) ≡ true
has-level levels k c h = elim (Option-cases (JsMap.get levels k)) [
  | inl gone ↦ absurd (unfold JsMap.get in (ground (arith, rw gone at h)))
  | inr (cs, there) ↦ rw there refl
]

no_level :
    (levels : JsMap ℕ (JsSet Str)) (k : ℕ) (c : Str)
    → is_empty levels ≡ true
    → JsMap.has (level levels k) c ≡ false
unfolding JsMap.get
no_level [] k c h = refl
no_level (l ∷ levels) k c h = cc

delete-range :
    (levels : JsMap ℕ (JsSet Str)) (k : ℕ)
    → is_some (JsMap.get (JsMap.delete levels (highest_key levels)) k) ≡ true
    → k < highest_key levels
delete-range levels k h =
    let g = highest_key levels in
    elim (Bool-cases (nat_eq g k)) [
      | inl here ↦ absurd (ground (arith, h, get-delete levels g k, here))
      | inr there ↦
          let held : is_some (JsMap.get levels k) ≡ true =
            ground (arith, h, get-delete levels g k, there) in
          ground (arith, highest_key-ge levels k held, there)
    ]

delete-IsUnique :
    (levels : JsMap ℕ (JsSet Str)) (g : ℕ)
    → ((k : ℕ) → IsUnique (level levels k))
    → (k : ℕ) → IsUnique (level (JsMap.delete levels g) k)
delete-IsUnique levels g u k = elim (Bool-cases (nat_eq g k)) [
  | inl here ↦ rw (get-delete levels g k, here) tt
  | inr there ↦ rw (get-delete levels g k, there) (u k)
]

module _ (gen : Str → ℕ) (parse : Bytes → Option Json) (store : Str → Option Bytes) (wanted : Str)
    (haves : List Str) where
  -- The highest level becomes the one in progress.
  next-Good :
      (top : ℕ) (s : Painting)
      → Good gen parse store wanted haves top [] nobody s
      → is_empty s.levels ≡ false
      → let g = highest_key s.levels in
        Good gen parse store wanted haves g
          (sort str_leb (keys (level s.levels g)))
          nobody
          (record s { levels = JsMap.delete s.levels g })
  unfolding any
  next-Good top s q some_left =
      let g = highest_key s.levels in
      let rest = sort str_leb (keys (level s.levels g)) in
      let levels' = JsMap.delete s.levels g in
      let lower : g < top = q.in_range g (highest_key-there s.levels some_left) in
      let get' : (k : ℕ) → JsMap.get levels' k ≡ (if g == k then none else JsMap.get s.levels k) =
        λ k. get-delete s.levels g k in
      let in_rest : (c : Str) → any (λ x. x == c) rest ≡ JsMap.has (level s.levels g) c = λ c.
        any-sort (λ x. x == c) str_leb (keys (level s.levels g)) ∙ any-keys (level s.levels g) c in
      let at_g : (c : Str) → JsMap.has (level s.levels g) c ≡ true → gen c ≡ g =
        λ c h. (q.placed c g h).0 in
      let has' : (c : Str) (k : ℕ)
          → JsMap.has (level levels' k) c ≡ (not (g == k) && JsMap.has (level s.levels k) c) =
        λ c k. unfold JsMap.get in (ground (arith, get' k)) in
      let waiting' : (c : Str) → waiting gen levels' rest c ≡ waiting gen s.levels [] c = λ c.
        elim (Bool-cases (nat_eq g (gen c))) [
          | inl here ↦
              let same : g ≡ gen c = (nat_eq_iff g (gen c)).0 here in
              ground (
                arith,
                in_rest c,
                has' c (gen c),
                here,
                ap (λ k. JsMap.has (level s.levels k) c) same,
              )
          | inr there ↦
              ground (arith, in_rest c, has' c (gen c), there, at_g c, nat_eq_iff g (gen c))
        ] in
      record {
        wants_sound = q.wants_sound;
        had_sound = q.had_sound;
        placed = λ c k h. (
          (q.placed c k (ground (arith, h, has' c k))).0,
          delete-range s.levels k (has-level levels' k c h),
        );
        in_range = delete-range s.levels;
        at_top = λ c h. at_g c (sym (in_rest c) ∙ h);
        flagged = λ c h. q.flagged c (sym (waiting' c) ∙ h);
        above = λ c f h w. omega (arith, lower, q.above c f h (sym (waiting' c) ∙ w));
        begun = q.begun;
        closed = λ c p f h w n m. q.closed c p f h (sym (waiting' c) ∙ w) n m;
        visited = λ c h w. q.visited c h (sym (waiting' c) ∙ w);
        painted = λ c ps h.
            let (is_want, gone, held) = q.painted c ps h in (is_want, waiting' c ∙ gone, held);
        counted = omega (
          arith,
          q.counted,
          total-same (weigh gen levels' rest) (weigh gen s.levels []) s.flags
              (λ c f. ap (λ b. if b then one_if f else 0) (waiting' c)),
        );
        one_flag = q.one_flag;
        one_place = delete-IsUnique s.levels g q.one_place;
        in_turn =
            sort-IsDistinct str_leb (keys (level s.levels g))
              (keys-IsDistinct (level s.levels g) (q.one_place g));
      }

  -- Where a search is done: nothing is left that is wanted alone, or it stopped at a commit of the delta.
  pub data Finished (first : Bool) : Painting → Type 0 where
    complete :
        (top : ℕ) (s : Painting)
        → Good gen parse store wanted haves top [] nobody s
        → ((c : Str) → JsMap.get s.flags c ≡ some want → waiting gen s.levels [] c ≡ false)
        → Finished first s
    stopped :
        (top : ℕ) (c : Str) (later : List Str) (s : Painting)
        → first ≡ true
        → gen c ≡ top
        → Good gen parse store wanted haves top later (λ x. c == x) s
        → JsMap.has s.delta c ≡ true
        → Finished first s

  abbrev pub Outcome : Bool → Option (Result PaintError Painting) → Type 0
  Outcome first none = ⊥
  Outcome first (some (ok s)) = Finished first s
  Outcome first (some (err no_generations)) =
      (c : Str) × ((record_of parse store c).gens ≡ none)
      × (is_empty (record_of parse store c).parents ≡ false)
  Outcome first (some (err (missing c))) =
      Reaches (parents_of parse store) wanted c × (parents_of parse store c ≡ none)

  -- with as many settled as queued, none is left
  none_wanted :
      (top : ℕ) (s : Painting)
      → Good gen parse store wanted haves top [] nobody s
      → nat_eq s.queued s.settled ≡ true
      → (c : Str) → JsMap.get s.flags c ≡ some want
      → waiting gen s.levels [] c ≡ false
  none_wanted top s q even c e = elim (Bool-cases (waiting gen s.levels [] c)) [
    | inr done ↦ done
    | inl yet ↦
        let w = weigh gen s.levels [] in
        let one : w c want ≡ 1 = rw yet refl in
        absurd (ground (arith, even, q.counted, rw e at (weight-le-total w s.flags c), one))
  ]

  round-Outcome :
      (first : Bool) (top : ℕ) (go : Painting → Option (Result PaintError Painting))
      (r : Result PaintError (Painting × Bool))
      → After gen parse store wanted haves first top [] r
      → ((t : Painting) → Good gen parse store wanted haves top [] nobody t → Outcome first (go t))
      → Outcome first (then_round parse store first none go r)
  round-Outcome first top go (ok (t, false)) a k = k t a
  round-Outcome first top go (ok (t, true)) (stops, c, later, of_top, q, there) k =
      stopped top c later t stops of_top q there
  round-Outcome first top go (err no_generations) a k = a
  round-Outcome first top go (err (missing m)) a k = a

  -- The rounds end, given fuel for as many as there are generations below the top.
  pub paint_levels-Outcome :
      (first : Bool) (fuel top : ℕ) (s : Painting)
      → IsGeneration parse store gen
      → Good gen parse store wanted haves top [] nobody s
      → top < fuel
      → Outcome first (paint_levels parse store first none fuel s)
  unfolding paint_levels any
  paint_levels-Outcome first zero top s g q n = absurd (omega arith)
  paint_levels-Outcome first (suc fuel) top s g q n = elim (Bool-cases (is_empty s.levels)) [
    | inl empty ↦
        rw empty (complete top s q (λ c e. ground (arith, no_level s.levels (gen c) c empty)))
    | inr some_left ↦ elim (Bool-cases (nat_eq s.queued s.settled)) [
      | inl even ↦ rw (some_left, even) (complete top s q (none_wanted top s q even))
      | inr not_even ↦
          let level_gen = highest_key s.levels in
          let lower : level_gen < top =
            q.in_range level_gen (highest_key-there s.levels some_left) in
          rw (some_left, not_even)
            (round-Outcome first level_gen (paint_levels parse store first none fuel)
              (visit_all parse store first none level_gen
                (sort str_leb (keys (level s.levels level_gen)))
                (record s { levels = JsMap.delete s.levels level_gen }))
              (visit_all-After gen parse store wanted haves first none level_gen
                (sort str_leb (keys (level s.levels level_gen)))
                (record s { levels = JsMap.delete s.levels level_gen }) g
                (next-Good top s q some_left))
              (λ t q'. paint_levels-Outcome first fuel level_gen t g q' (omega (arith, n, lower))))
    ]
  ]
