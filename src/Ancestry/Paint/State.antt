-- ===== src/Ancestry/Paint/State.antt =====
-- What holds while a search paints: the flags are sound, closed upwards at every visited commit, and
-- the count of queued commits is right. Some function gives every commit's generation.
use agex_ts.Prelude.{
  ℕ, ◌+◌, ◌≤◌, ◌<◌, Str, str_Eq, str_eq_iff, ◌==◌, ◌≡◌, refl, Bool, true, false, ◌||◌, ◌&&◌, Option,
  none, some, List, if◌then◌else◌, Bool-cases, inl, inr, arith, is_some, map, any, nat_Eq,
  nat_eq_iff, IsDistinct,
}
use agex_ts.JsMap
use agex_ts.JsMap.{JsMap, JsSet}
use agex_ts.JsMap.Batch.{member}
use agex_ts.JsMap.Laws.{IsUnique, get-set, set-IsUnique}
use agex_ts.Store.{Bytes}
use agex_ts.Json.{Json}
use agex_ts.Ancestry.{record_of, parents_of, generation_of_record}
use agex_ts.Ancestry.Search.Reach.{Reaches}
use agex_ts.Ancestry.Paint.{
  Flag, want, have, both, join, same_flag, one_if, Painting, level, enqueue,
}
use agex_ts.Ancestry.Paint.Count.{total}

abbrev pub wants : Flag → Bool
wants want = true
wants have = false
wants both = true

abbrev pub is_had : Flag → Bool
is_had want = false
is_had have = true
is_had both = true

-- the bits of the second are among those of the first
abbrev pub covers : Option Flag → Flag → Bool
covers none f = false
covers (some b) f = same_flag (join b f) b

module _ (parse : Bytes → Option Json) (store : Str → Option Bytes) where
  -- Every commit's generation is above its parents', and where generations are stored they are these.
  pub record IsGeneration (gen : Str → ℕ) : Type 0 where
    pub below : (c p : Str) → member (record_of parse store c).parents p ≡ true → gen p < gen c
    pub stored :
        (c : Str) (gens : List ℕ)
        → (record_of parse store c).gens ≡ some gens
        → gens ≡ map gen (record_of parse store c).parents
    pub own :
        (c : Str) (g : ℕ)
        → (record_of parse store c).present ≡ true
        → generation_of_record (record_of parse store c) ≡ some g
        → g ≡ gen c

pub has-level-enqueue :
    (levels : JsMap ℕ (JsSet Str)) (p c : Str) (g k : ℕ)
    → JsMap.has (level (enqueue levels p g) k) c
      ≡ ((g == k && p == c) || JsMap.has (level levels k) c)
has-level-enqueue levels p c g k = elim (Bool-cases (g == k)) [
  | inl here ↦
      rw
        (
          get-set levels g k (JsMap.add (level levels g) p),
          (nat_eq_iff g k).0 here,
          (nat_eq_iff k k).1 refl,
        )
        (ground (arith, get-set (level levels k) p c tt))
  | inr there ↦ rw (get-set levels g k (JsMap.add (level levels g) p), there) refl
]

pub level_enqueue-IsUnique :
    (levels : JsMap ℕ (JsSet Str)) (p : Str) (g : ℕ)
    → ((k : ℕ) → IsUnique (level levels k))
    → (k : ℕ) → IsUnique (level (enqueue levels p g) k)
level_enqueue-IsUnique levels p g u k = elim (Bool-cases (g == k)) [
  | inl here ↦
      rw (get-set levels g k (JsMap.add (level levels g) p), here)
        (set-IsUnique (level levels g) p tt (u g))
  | inr there ↦ rw (get-set levels g k (JsMap.add (level levels g) p), there) (u k)
]

module _ (gen : Str → ℕ) where
  -- still to be visited: of the level in progress, or of a level below
  abbrev pub waiting : JsMap ℕ (JsSet Str) → List Str → Str → Bool
  waiting levels rest c = any (λ x. x == c) rest || JsMap.has (level levels (gen c)) c

  abbrev pub weigh : JsMap ℕ (JsSet Str) → List Str → Str → Flag → ℕ
  weigh levels rest c f = if waiting levels rest c then one_if f else 0

  pub waiting-enqueue :
      (levels : JsMap ℕ (JsSet Str)) (rest : List Str) (p c : Str)
      → waiting (enqueue levels p (gen p)) rest c ≡ (waiting levels rest c || p == c)
  waiting-enqueue levels rest p c = elim (Bool-cases (p == c)) [
    | inl here ↦
        rw
          (
            has-level-enqueue levels p c (gen p) (gen c),
            (str_eq_iff p c).0 here,
            (str_eq_iff c c).1 refl,
            (nat_eq_iff (gen c) (gen c)).1 refl,
          )
          (ground arith)
    | inr there ↦ rw (has-level-enqueue levels p c (gen p) (gen c), there) (ground arith)
  ]

  module _ (parse : Bytes → Option Json) (store : Str → Option Bytes) (wanted : Str)
      (haves : List Str) where
    -- a commit that one of `haves` is or reaches
    abbrev pub HadFrom : Str → Type 0
    HadFrom c = (s : Str) × (member haves s ≡ true) × Reaches (parents_of parse store) s c

    -- what a start is to be flagged as
    abbrev pub starts_as : Str → Flag → Bool
    starts_as c want = wanted == c
    starts_as c have = member haves c && (record_of parse store c).present
    starts_as c both = false

    -- `top` bounds the levels, and is the generation of `rest`. The parents of a commit of `pass` need
    -- not be flagged yet.
    pub record Good (top : ℕ) (rest : List Str) (pass : Str → Bool) (s : Painting) : Type 0 where
      pub wants_sound :
          (c : Str) (f : Flag)
          → JsMap.get s.flags c ≡ some f
          → wants f ≡ true
          → Reaches (parents_of parse store) wanted c
      pub had_sound :
          (c : Str) (f : Flag) → JsMap.get s.flags c ≡ some f → is_had f ≡ true → HadFrom c
      pub placed :
          (c : Str) (g : ℕ) → JsMap.has (level s.levels g) c ≡ true → (gen c ≡ g) × (g < top)
      pub in_range : (k : ℕ) → is_some (JsMap.get s.levels k) ≡ true → k < top
      pub at_top : (c : Str) → any (λ x. x == c) rest ≡ true → gen c ≡ top
      pub flagged :
          (c : Str) → waiting s.levels rest c ≡ true → is_some (JsMap.get s.flags c) ≡ true
      pub above :
          (c : Str) (f : Flag)
          → JsMap.get s.flags c ≡ some f
          → waiting s.levels rest c ≡ false
          → top ≤ gen c
      pub begun :
          (c : Str) (f : Flag) → starts_as c f ≡ true → covers (JsMap.get s.flags c) f ≡ true
      pub closed :
          (c p : Str) (f : Flag)
          → JsMap.get s.flags c ≡ some f
          → waiting s.levels rest c ≡ false
          → pass c ≡ false
          → member (record_of parse store c).parents p ≡ true
          → covers (JsMap.get s.flags p) f ≡ true
      pub visited :
          (c : Str)
          → JsMap.get s.flags c ≡ some want
          → waiting s.levels rest c ≡ false
          → JsMap.has s.delta c ≡ true
      pub painted :
          (c : Str) (ps : List Str)
          → JsMap.get s.delta c ≡ some ps
          → (JsMap.get s.flags c ≡ some want)
            × (waiting s.levels rest c ≡ false)
            × (parents_of parse store c ≡ some ps)
      pub counted : s.queued ≡ s.settled + total (weigh s.levels rest) s.flags
      pub one_flag : IsUnique s.flags
      pub one_place : (g : ℕ) → IsUnique (level s.levels g)
      pub in_turn : IsDistinct rest
