-- ===== src/Brace/Limits.antt =====
-- Expansion ends, and within the limit.
use agex_ts.Prelude.{
  ℕ, zero, suc, ◌+◌, ◌-◌, ◌≤◌, ◌<◌, Str, ◌≡◌, refl, Bool, true, false, Option, none, some, List, [],
  ◌∷◌, ◌++◌, ltb, nat_eq, ◌&&◌, if◌then◌else◌, length, take, drop, Bool-cases, inl, inr, arith, All,
  includes, or_else,
}
use agex_ts.Prelude.Result.{Result, ok, err}
use agex_ts.Brace.{
  BraceError, brace_limit, Brace, split_top, in_first, parameter_end, matching, sequence,
  sequence_or, brace_at, first_brace, Expanded, and_with, push_tails, or_error, push_heads,
  push_items, expanded, expand, expand_braces, next_is,
}

-- It ends, in no more words than the limit, or in the error.
abbrev pub Ends : Expanded → Type 0
Ends none = ⊥
Ends (some (err e)) = Unit
Ends (some (ok out)) = length out ≤ brace_limit

abbrev Fits : Result BraceError (List Str) → Type 0
Fits (err e) = Unit
Fits (ok out) = length out ≤ brace_limit

and_with-Ends :
    (r : Expanded) (f : List Str → Expanded)
    → Ends r
    → ((out : List Str) → length out ≤ brace_limit → Ends (f out))
    → Ends (and_with r f)
and_with-Ends none f h k = h
and_with-Ends (some (err e)) f h k = tt
and_with-Ends (some (ok out)) f h k = k out h

push_tails-Fits :
    (before : Str) (tails out : List Str)
    → length out ≤ brace_limit
    → Fits (push_tails before tails out)
unfolding push_tails
push_tails-Fits before [] out h = h
push_tails-Fits before (tail ∷ tails) out h =
    let out' = out ++ (before ++ tail) ∷ [] in
    elim (Bool-cases (ltb brace_limit (length out'))) [
      | inl more ↦ rw more tt
      | inr fits ↦ rw fits (push_tails-Fits before tails out' (ground (arith, fits)))
    ]

or_error-Fits :
    (r : Result BraceError (List Str)) (f : List Str → Result BraceError (List Str))
    → Fits r
    → ((out : List Str) → length out ≤ brace_limit → Fits (f out))
    → Fits (or_error r f)
or_error-Fits (err e) f h k = tt
or_error-Fits (ok out) f h k = k out h

push_heads-Fits :
    (prefix : Str) (tails heads out : List Str)
    → length out ≤ brace_limit
    → Fits (push_heads prefix tails heads out)
unfolding push_heads
push_heads-Fits prefix tails [] out h = h
push_heads-Fits prefix tails (head ∷ heads) out h =
    or_error-Fits (push_tails (prefix ++ head) tails out)
      (λ out'. push_heads prefix tails heads out') (push_tails-Fits (prefix ++ head) tails out h)
      (λ out' h'. push_heads-Fits prefix tails heads out' h')

Ends-of_Fits : (r : Result BraceError (List Str)) → Fits r → Ends (some r)
Ends-of_Fits (err e) h = tt
Ends-of_Fits (ok out) h = h

-- the items that are expanded themselves are shorter than `n`
abbrev Short : ℕ → Bool → List Str → Type 0
Short n literal items = literal ≡ false → All (λ item. length item < n) items

push_items-Ends :
    (go : Str → Expanded) (n : ℕ) (literal : Bool) (prefix : Str) (tails items out : List Str)
    → ((word : Str) → length word < n → Ends (go word))
    → Short n literal items
    → length out ≤ brace_limit
    → Ends (push_items go literal prefix tails items out)
unfolding push_items
push_items-Ends go n literal prefix tails [] out g s h = h
push_items-Ends go n literal prefix tails (item ∷ items) out g s h =
    and_with-Ends (if literal then some (ok (item ∷ [])) else go item) _ (heads_end literal s)
      (λ heads _.
        and_with-Ends (some (push_heads prefix tails heads out)) _
          (Ends-of_Fits (push_heads prefix tails heads out)
            (push_heads-Fits prefix tails heads out h))
          (λ out' h'. push_items-Ends go n literal prefix tails items out' g (λ l. (s l).1) h'))
  where
    heads_end :
        (b : Bool) → Short n b (item ∷ items) → Ends (if b then some (ok (item ∷ [])) else go item)
    heads_end true s = omega arith
    heads_end false s = g item (s refl).0

if_both : {A : Type 0} (P : A → Type 0) (b : Bool) (x y : A) → P x → P y → P (if b then x else y)
if_both P true x y p q = p
if_both P false x y p q = q

All-shorter :
    (m n : ℕ) (items : List Str)
    → m ≤ n
    → All (λ item. length item < m) items
    → All (λ item. length item < n) items
All-shorter m n [] h a = tt
All-shorter m n (item ∷ items) h (x, a) = (omega (arith, x, h), All-shorter m n items h a)

in_first-All :
    (c n : ℕ) (items : List Str)
    → All (λ item. length item < suc n) items
    → All (λ item. length item < suc (suc n)) (in_first c items)
in_first-All c n [] a = (omega arith, tt)
in_first-All c n (item ∷ items) (h, a) =
    (omega (arith, h), All-shorter (suc n) (suc (suc n)) items (omega arith) a)

split_top-All :
    (opened closed : ℕ) (s : Str)
    → All (λ item. length item < suc (length s)) (split_top opened closed s)
unfolding split_top
split_top-All opened closed [] = (omega arith, tt)
split_top-All opened closed (c ∷ s) =
    let P : List Str → Type 0 = λ items. All (λ item. length item < suc (suc (length s))) items in
    let joined : (o k : ℕ) → P (in_first c (split_top o k s)) =
      λ o k. in_first-All c (length s) (split_top o k s) (split_top-All o k s) in
    let parted : P ([] ∷ split_top opened closed s) = (
      omega arith,
      All-shorter (suc (length s)) (suc (suc (length s))) (split_top opened closed s) (omega arith)
          (split_top-All opened closed s),
    ) in
    if_both P (nat_eq c 123) _ _ (joined (suc opened) closed) (
      if_both P (nat_eq c 125) _ _ (joined opened (suc closed))
        (if_both P (nat_eq c 44 && nat_eq opened closed) _ _ parted (joined opened closed)))

length-take_le : (n : ℕ) (s : Str) → length (take n s) ≤ length s
length-take_le zero s = omega arith
length-take_le (suc n) [] = omega arith
length-take_le (suc n) (c ∷ s) = omega (arith, length-take_le n s)

drop-shorter : (n c : ℕ) (s : Str) → length (drop (suc n) (c ∷ s)) < suc (length s)
drop-shorter zero c s = omega arith
drop-shorter (suc n) c [] = omega arith
drop-shorter (suc n) c (d ∷ s) = omega (arith, drop-shorter n d s)

abbrev Found : ℕ → Result BraceError (Option Brace) → Type 0
Found n (err e) = Unit
Found n (ok none) = Unit
Found n (ok (some b)) = (0 < n) × Short n b.literal b.items

Found-more : (n : ℕ) (r : Result BraceError (Option Brace)) → Found n r → Found (suc n) r
Found-more n (err e) f = tt
Found-more n (ok none) f = tt
Found-more n (ok (some b)) (p, f) =
    (omega (arith, p), λ l. All-shorter n (suc n) b.items (omega arith) (f l))

sequence_or-Found :
    (n i stop : ℕ) (r : Result BraceError (Option (List Str)))
    (on : Result BraceError (Option Brace))
    → Found (suc n) on
    → Found (suc n) (sequence_or i stop r on)
sequence_or-Found n i stop (err e) on f = tt
sequence_or-Found n i stop (ok none) on f = f
sequence_or-Found n i stop (ok (some items)) on f = (omega arith, λ l. cc)

brace_at-Found :
    (i : ℕ) (s : Str) (o : Option ℕ) (on : Result BraceError (Option Brace))
    → Found (suc (length s)) on
    → Found (suc (length s)) (brace_at i s o on)
brace_at-Found i s none on f = f
brace_at-Found i s (some e) on f =
    let inner = take (e - 1) s in
    let items = split_top 0 0 inner in
    elim (Bool-cases (ltb 1 (length items))) [
      | inl several ↦ rw several (
        omega arith,
        λ l.
            All-shorter (suc (length inner)) (suc (length s)) items
              (omega (arith, length-take_le (e - 1) s)) (split_top-All 0 0 inner),
      )
      | inr one ↦ rw one (sequence_or-Found (length s) i (i + e) (sequence inner) on f)
    ]

first_brace-Found : (skip i : ℕ) (s : Str) → Found (length s) (first_brace skip i s)
unfolding first_brace
first_brace-Found skip i [] = tt
first_brace-Found (suc skip) i (c ∷ s) =
    Found-more (length s) (first_brace skip (suc i) s) (first_brace-Found skip (suc i) s)
first_brace-Found zero i (c ∷ s) =
    let close = or_else (parameter_end 0 0 0 (c ∷ s)) 1 in
    let n = suc (length s) in
    let later : (k : ℕ) → Found n (first_brace k (suc i) s) =
      λ k. Found-more (length s) (first_brace k (suc i) s) (first_brace-Found k (suc i) s) in
    if_both (Found n) (nat_eq c 36 && next_is 123 s) _ _ (later close) (
      if_both (Found n) (nat_eq c 123) _ _
        (brace_at-Found i s (matching 0 0 (c ∷ s)) (first_brace 0 (suc i) s) (later 0)) (later 0))

expanded-Ends :
    (go : Str → Expanded) (word : Str) (r : Result BraceError (Option Brace))
    → Found (length word) r
    → ((w : Str) → length w < length word → Ends (go w))
    → Ends (expanded go word r)
expanded-Ends go word (err e) f g = tt
expanded-Ends go word (ok none) f g = omega arith
expanded-Ends go [] (ok (some b)) f g = absurd (omega (arith, f.0))
expanded-Ends go (c ∷ s) (ok (some b)) f g =
    and_with-Ends (go (drop (suc b.stop) (c ∷ s))) _
      (g (drop (suc b.stop) (c ∷ s)) (drop-shorter b.stop c s))
      (λ tails _.
        push_items-Ends go (suc (length s)) b.literal (take b.start (c ∷ s)) tails b.items [] g f.1
          (omega arith))

expand-Ends : (fuel : ℕ) (word : Str) → length word < fuel → Ends (expand fuel word)
unfolding expand
expand-Ends zero word h = absurd (omega arith)
expand-Ends (suc fuel) word h =
    expanded-Ends (expand fuel) word (first_brace 0 0 word) (first_brace-Found 0 0 word)
      (λ w l. expand-Ends fuel w (omega (arith, h, l)))

-- `expandBraces` ends for any word: in at most `BRACE_LIMIT` words, or in the error that there are more.
pub expand_braces-Ends : (word : Str) → Ends (expand_braces word)
unfolding expand_braces
expand_braces-Ends word =
    if_both Ends (includes word 123) _ _
      (and_with-Ends (expand (suc (length word)) word) _
        (expand-Ends (suc (length word)) word (omega arith))
        (λ out h. if_both Fits_in (ltb brace_limit (length out)) _ _ tt h))
      (omega arith)
  where
    Fits_in : Result BraceError (List Str) → Type 0
    Fits_in r = Ends (some r)
