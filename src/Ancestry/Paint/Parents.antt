-- ===== src/Ancestry/Paint/Parents.antt =====
-- Flagging the parents of a commit.
use agex_ts.Prelude.{
  ℕ, ◌+◌, ◌<◌, Str, str_Eq, str_eq_iff, ◌==◌, ◌≡◌, refl, ap, subst, Bool, true, false, ◌||◌, ◌&&◌,
  Option, none, some, List, if◌then◌else◌, Bool-cases, inl, inr, arith, nat_Eq, nat_eq_iff,
}
use mathlib.Core.Option.{some-injective}
use agex_ts.JsMap
use agex_ts.JsMap.{JsMap, JsSet}
use agex_ts.JsMap.Laws.{IsUnique, get-set, set-IsUnique}
use agex_ts.Store.{Bytes}
use agex_ts.Json.{Json}
use agex_ts.Ancestry.{parents_of}
use agex_ts.Ancestry.Search.Reach.{Reaches}
use agex_ts.Ancestry.Paint.{
  Flag, want, have, both, join, same_flag, one_if, Painting, level, enqueue, flag_parent,
}
use agex_ts.Ancestry.Paint.Count.{total, total-but, total-set}
use agex_ts.Ancestry.Paint.State.{
  wants, is_had, covers, waiting, weigh, waiting-enqueue, has-level-enqueue, level_enqueue-IsUnique,
  HadFrom, Good,
}

joins : (b f : Flag) → same_flag (join b f) b ≡ false → one_if (join b f) ≡ 0
joins want want h = cc
joins want have h = refl
joins want both h = refl
joins have want h = refl
joins have have h = cc
joins have both h = refl
joins both f h = ground arith

pub covers-join : (b f : Flag) → covers (some (join b f)) f ≡ true
covers-join b f = ground arith

covers-same : (b f : Flag) → same_flag (join b f) b ≡ true → covers (some b) f ≡ true
covers-same b f h = h

pub covers_trans :
    (o : Option Flag) (b f : Flag)
    → covers o b ≡ true
    → covers (some b) f ≡ true
    → covers o f ≡ true
covers_trans o b f h k = ground arith

pub covers_self : (f : Flag) → covers (some f) f ≡ true
covers_self f = ground arith

wants-join : (b f : Flag) → wants (join b f) ≡ (wants b || wants f)
wants-join b f = ground arith

is_had-join : (b f : Flag) → is_had (join b f) ≡ (is_had b || is_had f)
is_had-join b f = ground arith

module _ (gen : Str → ℕ) (parse : Bytes → Option Json) (store : Str → Option Bytes) (wanted : Str)
    (haves : List Str) where
  -- Flags are only added.
  abbrev pub Adds : Painting → Painting → Type 0
  Adds s t =
      (c : Str) (f : Flag) → JsMap.get s.flags c ≡ some f → covers (JsMap.get t.flags c) f ≡ true

  -- What a flag says of a commit that bears it.
  pub record Says (f : Flag) (p : Str) : Type 0 where
    pub wanted_by : wants f ≡ true → Reaches (parents_of parse store) wanted p
    pub had_by : is_had f ≡ true → HadFrom gen parse store wanted haves p

  new-counted :
      (s : Painting) (rest : List Str) (f : Flag) (p : Str)
      → IsUnique s.flags
      → JsMap.get s.flags p ≡ none
      → s.queued ≡ s.settled + total (weigh gen s.levels rest) s.flags
      → s.queued + one_if f
        ≡ s.settled + total (weigh gen (enqueue s.levels p (gen p)) rest) (JsMap.set s.flags p f)
  new-counted s rest f p u e n =
      let w = weigh gen s.levels rest in
      let w' = weigh gen (enqueue s.levels p (gen p)) rest in
      let agree : (c : Str) (g : Flag) → (c == p) ≡ false → w c g ≡ w' c g = λ c g k.
        ground (arith, waiting-enqueue gen s.levels rest p c, k, str_eq_iff c p, str_eq_iff p c) in
      let mine : w' p f ≡ one_if f =
        ground (arith, waiting-enqueue gen s.levels rest p p, str_eq_iff p p) in
      omega (
        arith,
        n,
        mine,
        rw e at (total-but w w' s.flags p agree u),
        rw e at (total-set w' s.flags p f),
      )

  old-counted :
      (s : Painting) (rest : List Str) (f b : Flag) (p : Str)
      → waiting gen s.levels rest p ≡ true
      → JsMap.get s.flags p ≡ some b
      → same_flag (join b f) b ≡ false
      → s.queued ≡ s.settled + total (weigh gen s.levels rest) s.flags
      → s.queued
        ≡ (s.settled + one_if b) + total (weigh gen s.levels rest) (JsMap.set s.flags p (join b f))
  old-counted s rest f b p in_line e k n =
      let w = weigh gen s.levels rest in
      let before : w p b ≡ one_if b = rw in_line refl in
      let after : w p (join b f) ≡ 0 = rw in_line (joins b f k) in
      omega (arith, n, before, after, rw e at (total-set w s.flags p (join b f)))

  -- a commit flagged for the first time
  pub new-Good :
      (top : ℕ) (rest : List Str) (pass : Str → Bool) (s : Painting) (f : Flag) (p : Str)
      → Good gen parse store wanted haves top rest pass s
      → JsMap.get s.flags p ≡ none
      → gen p < top
      → Says f p
      → Good gen parse store wanted haves top rest pass (flag_parent s f p (gen p) none)
  new-Good top rest pass s f p q e lower says =
      let levels' = enqueue s.levels p (gen p) in
      let flags' = JsMap.set s.flags p f in
      let get' : (c : Str) → JsMap.get flags' c ≡ (if p == c then some f else JsMap.get s.flags c) =
        λ c. get-set s.flags p c f in
      let waiting' : (c : Str)
          → waiting gen levels' rest c ≡ (waiting gen s.levels rest c || p == c) =
        λ c. waiting-enqueue gen s.levels rest p c in
      record {
        wants_sound = λ c g k w. elim (Bool-cases (p == c)) [
          | inl here ↦
              let is_f = some-injective f g (rw (get' c, here) at k) in
              subst (Reaches (parents_of parse store) wanted) ((str_eq_iff p c).0 here)
                (says.wanted_by (rw is_f w))
          | inr there ↦ q.wants_sound c g (rw (get' c, there) at k) w
        ];
        had_sound = λ c g k w. elim (Bool-cases (p == c)) [
          | inl here ↦
              let is_f = some-injective f g (rw (get' c, here) at k) in
              subst (HadFrom gen parse store wanted haves) ((str_eq_iff p c).0 here)
                (says.had_by (rw is_f w))
          | inr there ↦ q.had_sound c g (rw (get' c, there) at k) w
        ];
        placed = λ c g k. elim (Bool-cases (gen p == g && p == c)) [
          | inl here ↦ ground (
            arith,
            here,
            lower,
            nat_eq_iff (gen p) g,
            ap gen ((str_eq_iff p c).0 (ground (arith, here))),
          )
          | inr there ↦
              q.placed c g (ground (arith, there, k, has-level-enqueue s.levels p c (gen p) g))
        ];
        in_range = λ k h. ground (
          arith,
          h,
          get-set s.levels (gen p) k (JsMap.add (level s.levels (gen p)) p),
          lower,
          nat_eq_iff (gen p) k,
          q.in_range k,
        );
        at_top = q.at_top;
        flagged = λ c k. ground (arith, k, waiting' c, get' c, q.flagged c);
        above = λ c g k w.
            q.above c g (ground (arith, k, w, waiting' c, get' c)) (ground (arith, w, waiting' c));
        begun = λ c g k. elim (Bool-cases (p == c)) [
          | inl here ↦ absurd (
              ground (
                arith,
                q.begun c g k,
                subst (λ y. JsMap.get s.flags y ≡ none) ((str_eq_iff p c).0 here) e,
              ))
          | inr there ↦ rw (get' c, there) (q.begun c g k)
        ];
        closed = λ c x g k w n m.
            let old =
              q.closed c x g (ground (arith, k, w, waiting' c, get' c))
                (ground (arith, w, waiting' c)) n m in
            elim (Bool-cases (p == x)) [
              | inl here ↦
                  let none_there : JsMap.get s.flags x ≡ none =
                    subst (λ y. JsMap.get s.flags y ≡ none) ((str_eq_iff p x).0 here) e in
                  absurd (ground (arith, old, none_there))
              | inr there ↦ rw (get' x, there) old
            ];
        visited = λ c k w.
            q.visited c (ground (arith, k, w, waiting' c, get' c)) (ground (arith, w, waiting' c));
        painted = λ c ps k.
            let (is_want, gone, held) = q.painted c ps k in
            elim (Bool-cases (p == c)) [
              | inl here ↦
                  let none_there : JsMap.get s.flags c ≡ none =
                    subst (λ y. JsMap.get s.flags y ≡ none) ((str_eq_iff p c).0 here) e in
                  absurd (ground (arith, is_want, none_there))
              | inr there ↦
                  (rw (get' c, there) is_want, ground (arith, waiting' c, gone, there), held)
            ];
        counted = new-counted s rest f p q.one_flag e q.counted;
        one_flag = set-IsUnique s.flags p f q.one_flag;
        one_place = level_enqueue-IsUnique s.levels p (gen p) q.one_place;
        in_turn = q.in_turn;
      }

  -- a commit that bears a flag already
  pub old-Good :
      (top : ℕ) (rest : List Str) (pass : Str → Bool) (s : Painting) (f b : Flag) (p : Str)
      → Good gen parse store wanted haves top rest pass s
      → JsMap.get s.flags p ≡ some b
      → same_flag (join b f) b ≡ false
      → gen p < top
      → Says f p
      → Good gen parse store wanted haves top rest pass
          (record s { flags = JsMap.set s.flags p (join b f); settled = s.settled + one_if b })
  old-Good top rest pass s f b p q e changes lower says =
      let flags' = JsMap.set s.flags p (join b f) in
      let get' : (c : Str)
          → JsMap.get flags' c ≡ (if p == c then some (join b f) else JsMap.get s.flags c) =
        λ c. get-set s.flags p c (join b f) in
      let in_line : waiting gen s.levels rest p ≡ true =
        elim (Bool-cases (waiting gen s.levels rest p)) [
          | inl yet ↦ yet
          | inr done ↦ absurd (omega (arith, lower, q.above p b e done))
        ] in
      let others : (c : Str) → waiting gen s.levels rest c ≡ false → (p == c) ≡ false = λ c w.
        elim (Bool-cases (p == c)) [
          | inl here ↦ absurd (
              ground (
                arith,
                w,
                subst (λ y. waiting gen s.levels rest y ≡ true) ((str_eq_iff p c).0 here) in_line,
              ))
          | inr there ↦ there
        ] in
      let at_p : (c : Str) → (p == c) ≡ true → JsMap.get s.flags c ≡ some b =
        λ c here. subst (λ y. JsMap.get s.flags y ≡ some b) ((str_eq_iff p c).0 here) e in
      record {
        wants_sound = λ c g k w. elim (Bool-cases (p == c)) [
          | inl here ↦
              let is_f = some-injective (join b f) g (rw (get' c, here) at k) in
              elim (Bool-cases (wants b)) [
                | inl before ↦ q.wants_sound c b (at_p c here) before
                | inr new ↦
                    subst (Reaches (parents_of parse store) wanted) ((str_eq_iff p c).0 here)
                      (says.wanted_by (ground (arith, w, is_f, wants-join b f, new)))
              ]
          | inr there ↦ q.wants_sound c g (rw (get' c, there) at k) w
        ];
        had_sound = λ c g k w. elim (Bool-cases (p == c)) [
          | inl here ↦
              let is_f = some-injective (join b f) g (rw (get' c, here) at k) in
              elim (Bool-cases (is_had b)) [
                | inl before ↦ q.had_sound c b (at_p c here) before
                | inr new ↦
                    subst (HadFrom gen parse store wanted haves) ((str_eq_iff p c).0 here)
                      (says.had_by (ground (arith, w, is_f, is_had-join b f, new)))
              ]
          | inr there ↦ q.had_sound c g (rw (get' c, there) at k) w
        ];
        placed = q.placed;
        in_range = q.in_range;
        at_top = q.at_top;
        flagged = λ c k. ground (arith, q.flagged c k, get' c);
        above = λ c g k w. q.above c g (ground (arith, k, get' c, others c w)) w;
        begun = λ c g k. elim (Bool-cases (p == c)) [
          | inl here ↦ rw (get' c, here) (ground (arith, rw (at_p c here) at (q.begun c g k)))
          | inr there ↦ rw (get' c, there) (q.begun c g k)
        ];
        closed = λ c x g k w n m.
            let old = q.closed c x g (ground (arith, k, get' c, others c w)) w n m in
            elim (Bool-cases (p == x)) [
              | inl here ↦ rw (get' x, here) (ground (arith, rw (at_p x here) at old))
              | inr there ↦ rw (get' x, there) old
            ];
        visited = λ c k w. q.visited c (ground (arith, k, get' c, others c w)) w;
        painted = λ c ps k.
            let (is_want, gone, held) = q.painted c ps k in
            (rw (get' c, others c gone) is_want, gone, held);
        counted = old-counted s rest f b p in_line e changes q.counted;
        one_flag = set-IsUnique s.flags p (join b f) q.one_flag;
        one_place = q.one_place;
        in_turn = q.in_turn;
      }
