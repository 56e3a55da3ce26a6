-- ===== src/World/Inbox/Block.antt =====
-- A rendered block is found again.
use agex_ts.Prelude.{
  ℕ, ◌+◌, ◌-◌, Str, str_Eq, str_eq_iff, ◌≡◌, refl, ap, subst, ◌||◌, sym, false, some, List, [], ◌∷◌,
  ◌++◌, arith, Bool-cases, Option-cases, inl, inr, includes, length, length-append, take, drop,
  starts_with, decimal, AllDigits, decimal-AllDigits, decimal-NonEmpty, number-decimal, is_digit,
  take_digits, number, drop-append, ltb, append-drop_of_starts_with,
}
use mathlib.Core.List.{append_assoc}
use agex_ts.World.Inbox.{
  Note, joined, mark, trailer, trailer_start, trailer_end, render, trailer_at, find_trailer, split,
}

-- digits, up to the end of a trailer
take_digits_lem : (s : Str) → AllDigits s → take_digits (s ++ trailer_end) ≡ (s, trailer_end)
unfolding take_digits
take_digits_lem [] a = refl
take_digits_lem (c ∷ s) (h, a) = rw (take_digits_lem s a, h) refl

read_back : (n d : ℕ) (t : Str) → decimal n ≡ d ∷ t → trailer_at (trailer n) ≡ some n
unfolding trailer_at starts_with
read_back n d t e =
    let whole : AllDigits (d ∷ t) = subst AllDigits e (decimal-AllDigits n) in
    let back : number (d ∷ t) ≡ n = subst (λ x. number x ≡ n) e (number-decimal n) in
    rw (e, take_digits_lem (d ∷ t) whole, (str_eq_iff trailer_end trailer_end).1 refl)
      (ap some back)

trailer_at-trailer : (n : ℕ) → trailer_at (trailer n) ≡ some n
trailer_at-trailer n = let (d, t, e) = decimal-NonEmpty n in read_back n d t e

includes-append : (s t : Str) (c : ℕ) → includes (s ++ t) c ≡ (includes s c || includes t c)
unfolding includes
includes-append [] t c = refl
includes-append (x ∷ s) t c = ground (arith, includes-append s t c)

-- what the digits and the rest are made of has no line break
read-no_break : (s : Str) → (take_digits s).1 ≡ trailer_end → includes s 10 ≡ false
unfolding take_digits includes
read-no_break [] h = refl
read-no_break (c ∷ s) h = elim (Bool-cases (is_digit c)) [
  | inl digit ↦
      let rest : includes s 10 ≡ false = read-no_break s (rw digit at h) in
      ground (arith, rest, digit)
  | inr other ↦
      let whole : c ∷ s ≡ trailer_end = rw other at h in
      subst (λ x. includes x 10 ≡ false) (sym whole) refl
]

-- A trailer holds one line break, its first character.
one_break : (s : Str) (n : ℕ) → trailer_at s ≡ some n → includes (drop 1 s) 10 ≡ false
unfolding trailer_at includes
one_break s n h = elim (Bool-cases (starts_with s trailer_start)) [
  | inr not_at ↦ absurd (ground (arith, rw not_at at h))
  | inl at_start ↦
      let r = drop (length trailer_start) s in
      let last : (take_digits r).1 ≡ trailer_end =
        ground (arith, rw at_start at h, str_eq_iff (take_digits r).1 trailer_end) in
      let whole : trailer_start ++ r ≡ s = append-drop_of_starts_with s trailer_start at_start in
      subst (λ x. includes (drop 1 x) 10 ≡ false) whole (read-no_break r last)
]

-- The regular expression finds the trailer at the end, and none before it.
find_trailer-append :
    (i : ℕ) (xs : Str) (n : ℕ) → find_trailer i (xs ++ trailer n) ≡ some (i + length xs, n)
unfolding find_trailer includes
find_trailer-append i [] n = rw (trailer_at-trailer n) (ap (λ k. some (k, n)) (omega arith))
find_trailer-append i (x ∷ xs) n =
    let later = find_trailer-append (i + 1) xs n in
    elim (Option-cases (trailer_at (x ∷ (xs ++ trailer n)))) [
      | inl not_here ↦ rw (not_here, later) (ap (λ k. some (k, n)) (omega arith))
      | inr (m, here) ↦
          let broken : includes (xs ++ trailer n) 10 ≡ false =
            one_break (x ∷ (xs ++ trailer n)) m here in
          absurd (ground (arith, broken, includes-append xs (trailer n) 10))
    ]

take-append : (s t : Str) → take (length s) (s ++ t) ≡ s
take-append [] t = refl
take-append (x ∷ s) t = ap (λ r. x ∷ r) (take-append s t)

module _ {Answer : Type 0} where
  -- Any text with a rendered block of notes behind it is split into the text and the block, whatever
  -- the text, the notes and their frame hold.
  pub split-append :
      (text : Str) (note : Note Answer) (notes : List (Note Answer)) (frame : Note Answer → Str)
      → let block = render (note ∷ notes) frame in split (text ++ block) ≡ (text, block)
  unfolding split render starts_with
  split-append text note notes frame =
      let body = joined frame (note ∷ notes) in
      let n = length (mark ++ body) in
      let whole : text ++ ((mark ++ body) ++ trailer n) ≡ (text ++ (mark ++ body)) ++ trailer n =
        sym (append_assoc text (mark ++ body) (trailer n)) in
      let found : find_trailer 0 (text ++ ((mark ++ body) ++ trailer n))
          ≡ some (length text + n, n) =
        rw (whole, find_trailer-append 0 (text ++ (mark ++ body)) n)
          (ap (λ k. some (k, n)) (omega (arith, length-append text (mark ++ body)))) in
      let start : (length text + n) - n ≡ length text = omega arith in
      let before : ltb (length text + n) n ≡ false = ground arith in
      rw
        (
          found,
          before,
          start,
          drop-append text ((mark ++ body) ++ trailer n),
          take-append text ((mark ++ body) ++ trailer n),
        )
        refl
