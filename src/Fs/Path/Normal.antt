-- ===== src/Fs/Path/Normal.antt =====
-- What `normalize` makes of a path: an absolute one whose segments are names, and which it keeps.
use agex_ts.Prelude.{
  ℕ, Str, str_Eq, nat_Eq, str_eq, nat_eq, ◌==◌, ◌≡◌, refl, sym, ◌∙◌, ap, true, false, List, [], ◌∷◌,
  ◌++◌, includes, All, filter, Bool-cases, inl, inr, arith,
}
use mathlib.Core.List.{append_assoc, append-nil}
use agex_ts.Fs.Path.{slash, dot_dot, split, join, extend, pop, collapse, kept, normalize}

-- A segment that names something: not empty, not `.` or `..`, with no slash in it.
pub record IsName (s : Str) : Type 0 where
  pub is_kept : kept s ≡ true
  pub no_dots : (s == dot_dot) ≡ false
  pub no_slash : includes s slash ≡ false

extend-All :
    (c : ℕ) (ss : List Str)
    → nat_eq c slash ≡ false
    → All (λ s. includes s slash ≡ false) ss
    → All (λ s. includes s slash ≡ false) (extend c ss)
unfolding includes
extend-All c [] h a = (rw h, tt)
extend-All c (s ∷ ss) h (b, a) = (rw h b, a)

-- no segment of a split path has a slash
split-includes : (p : Str) → All (λ s. includes s slash ≡ false) (split p)
unfolding split includes
split-includes [] = (refl, tt)
split-includes (c ∷ p) = elim (Bool-cases (nat_eq c slash)) [
  | inl cut ↦ rw cut (refl, split-includes p)
  | inr inside ↦ rw inside (extend-All c (split p) inside (split-includes p))
]

filter-All :
    (ss : List Str)
    → All (λ s. includes s slash ≡ false) ss
    → All (λ s. (kept s ≡ true) × (includes s slash ≡ false)) (filter kept ss)
unfolding filter
filter-All [] a = tt
filter-All (s ∷ ss) (b, a) = elim (Bool-cases (kept s)) [
  | inl stays ↦ rw stays ((stays, b), filter-All ss a)
  | inr dropped ↦ rw dropped (filter-All ss a)
]

pop-All : (out : List Str) → All IsName out → All IsName (pop out)
unfolding pop
pop-All [] a = tt
pop-All (s ∷ []) a = tt
pop-All (s ∷ t ∷ ss) (b, a) = (b, pop-All (t ∷ ss) a)

push-All : (out : List Str) (s : Str) → All IsName out → IsName s → All IsName (out ++ s ∷ [])
push-All [] s a n = (n, tt)
push-All (o ∷ out) s (b, a) n = (b, push-All out s a n)

collapse-All :
    (ss out : List Str)
    → All (λ s. (kept s ≡ true) × (includes s slash ≡ false)) ss
    → All IsName out
    → All IsName (collapse ss out)
unfolding collapse
collapse-All [] out a o = o
collapse-All (s ∷ ss) out ((k, i), a) o = elim (Bool-cases (s == dot_dot)) [
  | inl up ↦ rw up (collapse-All ss (pop out) a (pop-All out o))
  | inr down ↦ rw down (
      collapse-All ss (out ++ s ∷ []) a
        (push-All out s o (record { is_kept = k; no_dots = down; no_slash = i })))
]

-- names collapse to themselves
collapse-names : (ss out : List Str) → All IsName ss → collapse ss out ≡ out ++ ss
unfolding collapse
collapse-names [] out a = sym (append-nil out)
collapse-names (s ∷ ss) out (n, a) =
    rw n.no_dots (collapse-names ss (out ++ s ∷ []) a ∙ append_assoc out (s ∷ []) ss)

filter-names : (ss : List Str) → All IsName ss → filter kept ss ≡ ss
unfolding filter
filter-names [] a = refl
filter-names (s ∷ ss) (n, a) = rw n.is_kept (ap (◌∷◌ s) (filter-names ss a))

-- a name followed by a slash splits off
split-name : (s rest : Str) → includes s slash ≡ false → split (s ++ slash ∷ rest) ≡ s ∷ split rest
unfolding split includes
split-name [] rest h = refl
split-name (c ∷ s) rest h =
    let inside : nat_eq c slash ≡ false = ground arith in
    rw inside (ap (extend c) (split-name s rest (ground arith)))

split-last : (s : Str) → includes s slash ≡ false → split s ≡ s ∷ []
unfolding split includes
split-last [] h = refl
split-last (c ∷ s) h =
    let inside : nat_eq c slash ≡ false = ground arith in
    rw inside (ap (extend c) (split-last s (ground arith)))

split-join : (s : Str) (ss : List Str) → All IsName (s ∷ ss) → split (join (s ∷ ss)) ≡ s ∷ ss
unfolding join
split-join s [] (n, a) = split-last s n.no_slash
split-join s (t ∷ ss) (n, a) =
    split-name s (join (t ∷ ss)) n.no_slash ∙ ap (◌∷◌ s) (split-join t ss a)

kept_of_join : (ss : List Str) → All IsName ss → filter kept (split (slash ∷ join ss)) ≡ ss
unfolding split filter join str_eq
kept_of_join [] a = refl
kept_of_join (s ∷ ss) a = ap (filter kept) (split-join s ss a) ∙ filter-names (s ∷ ss) a

-- the segments that `normalize` joins
segments : Str → List Str
segments path = collapse (filter kept (split path)) []

segments-All : (path : Str) → All IsName (segments path)
unfolding segments
segments-All path =
    collapse-All (filter kept (split path)) [] (filter-All (split path) (split-includes path)) tt

-- A normalized path is a slash and the names it is made of, with slashes between them; they are names,
-- so that none is empty, `.` or `..`; and normalizing it again leaves it as it is.
pub normalize_lem :
    (path : Str)
    → (names : List Str) × (normalize path ≡ slash ∷ join names)
      × All IsName names
      × (normalize (normalize path) ≡ normalize path)
unfolding normalize segments
normalize_lem path =
    let names = segments path in
    let a = segments-All path in
    (
      names,
      refl,
      a,
      ap (λ ss. slash ∷ join (collapse ss [])) (kept_of_join names a)
          ∙ ap (λ ss. slash ∷ join ss) (collapse-names names [] a),
    )
