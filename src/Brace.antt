-- ===== src/Brace.antt =====
-- packages/termish-ts/src/brace.ts: bash's brace expansion of one word. A place in a text is the text
-- from there on; what the code skips with an index is counted down.
pub mod Limits
use agex_ts.Prelude.{
  ℕ, zero, suc, ◌+◌, ◌-◌, ◌*◌, ◌/◌, Str, codes, Bool, true, false, not, ◌&&◌, ◌||◌, Option, none,
  some, List, [], ◌∷◌, ◌++◌, leb, ltb, nat_eq, if◌then◌else◌, length, take, drop, map, is_digit,
  take_digits, number, decimal, or_else, includes, is_empty,
}
use agex_ts.Prelude.Result.{Result, ok, err}
use agex_ts.Json.{ℤ, pos, negsuc}
use agex_ts.PyJson.Write.{replicate}

-- `TerminalError` of a word that expands to too many
pub data BraceError : Type 0 where
  too_many : BraceError

abbrev pub brace_limit : ℕ
brace_limit = 100000

pub record Brace : Type 0 where
  pub start : ℕ
  pub stop : ℕ
  pub items : List Str
  pub literal : Bool

abbrev pub next_is : ℕ → Str → Bool
next_is c [] = false
next_is c (x ∷ s) = nat_eq x c

-- `parameterEnd`, from the `$` on, with the units still to be passed over
unfoldable pub parameter_end : ℕ → ℕ → ℕ → Str → Option ℕ
parameter_end depth skip i [] = none
parameter_end depth (suc skip) i (c ∷ s) = parameter_end depth skip (suc i) s
parameter_end depth zero i (c ∷ s) =
    let escaped = parameter_end depth 1 (suc i) s in
    let deeper = parameter_end (suc depth) 1 (suc i) s in
    let higher = parameter_end (depth - 1) 0 (suc i) s in
    let on = parameter_end depth 0 (suc i) s in
    if nat_eq c 92
    then escaped
    else if nat_eq c 36 && next_is 123 s
    then deeper
    else if nat_eq c 125
    then (if nat_eq depth 1 then some i else higher)
    else on

-- `matching`, from the `{` on
unfoldable pub matching : ℕ → ℕ → Str → Option ℕ
matching depth i [] = none
matching depth i (c ∷ s) =
    let deeper = matching (suc depth) (suc i) s in
    let higher = matching (depth - 1) (suc i) s in
    let on = matching depth (suc i) s in
    if nat_eq c 123
    then deeper
    else if nat_eq c 125
    then (if nat_eq depth 1 then some i else higher)
    else on

abbrev in_first : ℕ → List Str → List Str
in_first c [] = (c ∷ []) ∷ []
in_first c (item ∷ items) = (c ∷ item) ∷ items

-- `splitTop`; the depth is what was opened less what was closed
unfoldable pub split_top : ℕ → ℕ → Str → List Str
split_top opened closed [] = [] ∷ []
split_top opened closed (c ∷ s) =
    let deeper = in_first c (split_top (suc opened) closed s) in
    let higher = in_first c (split_top opened (suc closed) s) in
    let next = [] ∷ split_top opened closed s in
    let on = in_first c (split_top opened closed s) in
    if nat_eq c 123
    then deeper
    else if nat_eq c 125
    then higher
    else if nat_eq c 44 && nat_eq opened closed
    then next
    else on

-- `(-?\d+)`: its text and what follows
abbrev digits_there : Str → Str × Str → Option (Str × Str)
digits_there sign (digits, rest) = if is_empty digits then none else some (sign ++ digits, rest)

abbrev pub integer_at : Str → Option (Str × Str)
integer_at [] = none
integer_at (c ∷ s) =
    if nat_eq c 45
    then digits_there (45 ∷ []) (take_digits s)
    else digits_there [] (take_digits (c ∷ s))

-- `(?:\.\.(-?\d+))?$`: none where the text does not end in one
abbrev pub step_at : Str → Option (Option Str)
step_at [] = some none
step_at (a ∷ []) = none
step_at (a ∷ b ∷ s) =
    if nat_eq a 46 && nat_eq b 46
    then elim (integer_at s) [
      | none ↦ none
      | some (text, rest) ↦ if is_empty rest then some (some text) else none
    ]
    else none

-- `\.\.` and what follows
abbrev pub behind_dots : Str → Option Str
behind_dots [] = none
behind_dots (a ∷ []) = none
behind_dots (a ∷ b ∷ s) = if nat_eq a 46 && nat_eq b 46 then some s else none

abbrev pub bind : {A B : Type 0} → Option A → (A → Option B) → Option B
bind none f = none
bind (some a) f = f a

-- `NUMBERS.exec` and `LETTERS.exec`
abbrev pub numbers_at : Str → Option (Str × Str × Option Str)
numbers_at s = bind (integer_at s) (λ a.
    bind (behind_dots a.1)
      (λ t. bind (integer_at t) (λ b. bind (step_at b.1) (λ step. some (a.0, b.0, step)))))

abbrev is_letter : ℕ → Bool
is_letter c = (leb 65 c && leb c 90) || (leb 97 c && leb c 122)

abbrev pub letter_at : Str → Option (ℕ × Str)
letter_at [] = none
letter_at (c ∷ s) = if is_letter c then some (c, s) else none

abbrev pub letters_at : Str → Option (ℕ × ℕ × Option Str)
letters_at s = bind (letter_at s) (λ a.
    bind (behind_dots a.1)
      (λ t. bind (letter_at t) (λ b. bind (step_at b.1) (λ step. some (a.0, b.0, step)))))

-- `BigInt`
abbrev negated : ℕ → ℤ
negated zero = pos 0
negated (suc n) = negsuc n

abbrev pub big_int : Str → ℤ
big_int [] = pos 0
big_int (c ∷ s) = if nat_eq c 45 then negated (number s) else pos (number (c ∷ s))

abbrev size_of : ℤ → ℕ
size_of (pos n) = n
size_of (negsuc n) = suc n

-- `stepOf`
abbrev pub step_of : Option Str → ℕ
step_of none = 1
step_of (some text) = let n = size_of (big_int text) in if nat_eq n 0 then 1 else n

abbrev pub le : ℤ → ℤ → Bool
le (pos m) (pos n) = leb m n
le (negsuc m) (pos n) = true
le (pos m) (negsuc n) = false
le (negsuc m) (negsuc n) = leb n m

abbrev pub distance : ℤ → ℤ → ℕ
distance (pos m) (pos n) = (m - n) + (n - m)
distance (negsuc m) (negsuc n) = (m - n) + (n - m)
distance (negsuc m) (pos n) = suc m + n
distance (pos m) (negsuc n) = m + suc n

abbrev pub up : ℤ → ℕ → ℤ
up (pos m) k = pos (m + k)
up (negsuc m) k = if leb k m then negsuc (m - k) else pos (k - suc m)

abbrev pub down : ℤ → ℕ → ℤ
down (pos m) k = if leb k m then pos (m - k) else negsuc (k - suc m)
down (negsuc m) k = negsuc (m + k)

-- `range`, which takes this many steps from its start
unfoldable pub range_up : ℕ → ℤ → ℕ → List ℤ
range_up zero from step = from ∷ []
range_up (suc n) from step = from ∷ range_up n (up from step) step

unfoldable pub range_down : ℕ → ℤ → ℕ → List ℤ
range_down zero from step = from ∷ []
range_down (suc n) from step = from ∷ range_down n (down from step) step

abbrev pub range : ℤ → ℤ → ℕ → List ℤ
range from to step =
    if le from to
    then range_up (distance from to / step) from step
    else range_down (distance from to / step) from step

-- `/^-?0\d/`
abbrev zero_then : Str → Bool
zero_then [] = false
zero_then (c ∷ []) = false
zero_then (c ∷ d ∷ s) = nat_eq c 48 && is_digit d

abbrev pub leading_zero : Str → Bool
leading_zero [] = false
leading_zero (c ∷ s) = if nat_eq c 45 then zero_then s else zero_then (c ∷ s)

abbrev pub width_of : Str → Str → ℕ
width_of a b =
    if leading_zero a || leading_zero b
    then (if leb (length a) (length b) then length b else length a)
    else 0

abbrev padded : ℕ → Str → Str
padded width digits = replicate (width - length digits) 48 ++ digits

abbrev pub pad : ℕ → ℤ → Str
pad width (pos n) = padded width (decimal n)
pad width (negsuc n) = 45 ∷ padded (width - 1) (decimal (suc n))

abbrev unit_of : ℤ → Str
unit_of (pos n) = n ∷ []
unit_of (negsuc n) = []

abbrev pub number_items : Str × Str × Option Str → Result BraceError (Option (List Str))
number_items (a, b, s) =
    let from = big_int a in
    let to = big_int b in
    let step = step_of s in
    if ltb brace_limit (distance from to / step + 1)
    then err too_many
    else ok (some (map (pad (width_of a b)) (range from to step)))

abbrev pub letter_items : Option (ℕ × ℕ × Option Str) → Option (List Str)
letter_items none = none
letter_items (some (a, b, s)) = some (map unit_of (range (pos a) (pos b) (step_of s)))

abbrev items_by : Option (Str × Str × Option Str) → Str → Result BraceError (Option (List Str))
items_by (some found) inner = number_items found
items_by none inner = ok (letter_items (letters_at inner))

unfoldable pub sequence : Str → Result BraceError (Option (List Str))
unfolding take_digits decimal range_up range_down replicate
sequence inner = items_by (numbers_at inner) inner

abbrev pub sequence_or :
    ℕ
    → ℕ
    → Result BraceError (Option (List Str))
    → Result BraceError (Option Brace)
    → Result BraceError (Option Brace)
sequence_or i stop (err e) on = err e
sequence_or i stop (ok none) on = on
sequence_or i stop (ok (some items)) on =
    ok (some (record { start = i; stop = stop; items = items; literal = true }))

-- `s` is behind the `{` at `i`, whose `}` is `e` units on
abbrev pub brace_at :
    ℕ → Str → Option ℕ → Result BraceError (Option Brace) → Result BraceError (Option Brace)
brace_at i s none on = on
brace_at i s (some e) on =
    let inner = take (e - 1) s in
    let items = split_top 0 0 inner in
    if ltb 1 (length items)
    then ok (some (record { start = i; stop = i + e; items = items; literal = false }))
    else sequence_or i (i + e) (sequence inner) on

-- `firstBrace`, with the units still to be passed over
unfoldable pub first_brace : ℕ → ℕ → Str → Result BraceError (Option Brace)
unfolding parameter_end matching split_top sequence
first_brace skip i [] = ok none
first_brace (suc skip) i (c ∷ s) = first_brace skip (suc i) s
first_brace zero i (c ∷ s) =
    let behind = first_brace (or_else (parameter_end 0 0 0 (c ∷ s)) 1) (suc i) s in
    let on = first_brace 0 (suc i) s in
    if nat_eq c 36 && next_is 123 s
    then behind
    else if nat_eq c 123
    then brace_at i s (matching 0 0 (c ∷ s)) on
    else on

-- The words, or the error; none with no fuel left.
abbrev pub Expanded : Type 0
Expanded = Option (Result BraceError (List Str))

abbrev pub and_with : Expanded → (List Str → Expanded) → Expanded
and_with none f = none
and_with (some (err e)) f = some (err e)
and_with (some (ok words)) f = f words

abbrev pub checked : List Str → Result BraceError (List Str) → Result BraceError (List Str)
checked out more = if ltb brace_limit (length out) then err too_many else more

-- the loops over the tails, the heads and the items
unfoldable pub push_tails : Str → List Str → List Str → Result BraceError (List Str)
push_tails before [] out = ok out
push_tails before (tail ∷ tails) out =
    let out' = out ++ (before ++ tail) ∷ [] in
    let more = push_tails before tails out' in
    if ltb brace_limit (length out') then err too_many else more

abbrev or_error :
    Result BraceError (List Str)
    → (List Str → Result BraceError (List Str))
    → Result BraceError (List Str)
or_error (err e) f = err e
or_error (ok out) f = f out

unfoldable pub push_heads : Str → List Str → List Str → List Str → Result BraceError (List Str)
unfolding push_tails
push_heads prefix tails [] out = ok out
push_heads prefix tails (head ∷ heads) out =
    or_error (push_tails (prefix ++ head) tails out) (λ out'. push_heads prefix tails heads out')

unfoldable pub push_items :
    (Str → Expanded) → Bool → Str → List Str → List Str → List Str → Expanded
unfolding push_heads
push_items go literal prefix tails [] out = some (ok out)
push_items go literal prefix tails (item ∷ items) out =
    and_with (if literal then some (ok (item ∷ [])) else go item) (λ heads.
      and_with (some (push_heads prefix tails heads out))
        (λ out'. push_items go literal prefix tails items out'))

abbrev pub expanded : (Str → Expanded) → Str → Result BraceError (Option Brace) → Expanded
expanded go word (err e) = some (err e)
expanded go word (ok none) = some (ok (word ∷ []))
expanded go word (ok (some b)) =
    and_with (go (drop (suc b.stop) word))
      (λ tails. push_items go b.literal (take b.start word) tails b.items [])

unfoldable pub expand : ℕ → Str → Expanded
unfolding first_brace push_items
expand zero word = none
expand (suc fuel) word = expanded (expand fuel) word (first_brace 0 0 word)

-- `expandBraces`; the fuel is the word's length and one.
unfoldable pub expand_braces : Str → Expanded
unfolding expand includes
expand_braces word =
    if includes word 123
    then and_with (expand (suc (length word)) word) (λ out. some (checked out (ok out)))
    else some (ok (word ∷ []))
