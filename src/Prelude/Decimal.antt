-- ===== src/Prelude/Decimal.antt =====
-- `String(n)` of a non-negative integer, and `Number(s)` of a text of decimal digits.
use Prim.Native.Nat.{ℕ, zero, suc, ◌+◌, ◌-◌, ◌*◌, ◌/◌, ◌%◌, ◌<◌}
use mathlib.Core.Path.{◌≡◌, refl, sym, ap, ◌∙◌}
use mathlib.Core.Bool.{Bool, true, ◌&&◌}
use mathlib.Core.List.{[], ◌∷◌, ◌++◌}
use native.Mathlib.Omega.{arith}
use agex_ts.Prelude.Tests.{ltb, leb, if◌then◌else◌, Bool-cases}
use agex_ts.Prelude.Lists.{All}
use agex_ts.Prelude.Text.{Str}
use mathlib.Core.Logic.{inl, inr}

abbrev pub is_digit : ℕ → Bool
is_digit c = leb 48 c && leb c 57

-- the digits of `n`; any fuel above `n` is enough
unfoldable pub digits_of : ℕ → ℕ → Str
digits_of zero n = []
digits_of (suc fuel) n =
    let more = digits_of fuel (n / 10) ++ (48 + n % 10) ∷ [] in
    if ltb n 10 then (48 + n) ∷ [] else more

unfoldable pub decimal : ℕ → Str
unfolding digits_of
decimal n = digits_of (suc n) n

unfoldable pub value_from : ℕ → Str → ℕ
value_from acc [] = acc
value_from acc (c ∷ s) = value_from (acc * 10 + (c - 48)) s

abbrev pub number : Str → ℕ
number s = value_from 0 s

-- `(\d+)` and what follows it
unfoldable pub take_digits : Str → Str × Str
take_digits [] = ([], [])
take_digits (c ∷ s) =
    let (digits, rest) = take_digits s in if is_digit c then (c ∷ digits, rest) else ([], c ∷ s)

abbrev pub AllDigits : Str → Type 0
AllDigits s = All (λ c. is_digit c ≡ true) s

value_from-append :
    (acc : ℕ) (s : Str) (c : ℕ) → value_from acc (s ++ c ∷ []) ≡ value_from acc s * 10 + (c - 48)
unfolding value_from
value_from-append acc [] c = refl
value_from-append acc (x ∷ s) c = value_from-append (acc * 10 + (x - 48)) s c

number-digits_of : (fuel n : ℕ) → n < fuel → number (digits_of fuel n) ≡ n
unfolding digits_of value_from
number-digits_of zero n h = absurd (omega arith)
number-digits_of (suc fuel) n h = elim (Bool-cases (ltb n 10)) [
  | inl small ↦ rw small (omega arith)
  | inr large ↦ rw large (
      value_from-append 0 (digits_of fuel (n / 10)) (48 + n % 10)
      ∙ omega (arith, number-digits_of fuel (n / 10) (ground arith)))
]

-- Reading what is written gives the number back.
pub number-decimal : (n : ℕ) → number (decimal n) ≡ n
unfolding decimal
number-decimal n = number-digits_of (suc n) n (omega arith)

pub decimal-injective : (m n : ℕ) → decimal m ≡ decimal n → m ≡ n
decimal-injective m n e = sym (number-decimal m) ∙ ap number e ∙ number-decimal n

AllDigits-append : (s t : Str) → AllDigits s → AllDigits t → AllDigits (s ++ t)
AllDigits-append [] t a b = b
AllDigits-append (c ∷ s) t (h, a) b = (h, AllDigits-append s t a b)

digits_of-AllDigits : (fuel n : ℕ) → AllDigits (digits_of fuel n)
unfolding digits_of
digits_of-AllDigits zero n = tt
digits_of-AllDigits (suc fuel) n = elim (Bool-cases (ltb n 10)) [
  | inl small ↦ rw small (ground arith, tt)
  | inr large ↦ rw large (
      AllDigits-append (digits_of fuel (n / 10)) ((48 + n % 10) ∷ [])
        (digits_of-AllDigits fuel (n / 10)) (ground arith, tt))
]

pub decimal-AllDigits : (n : ℕ) → AllDigits (decimal n)
unfolding decimal
decimal-AllDigits n = digits_of-AllDigits (suc n) n

append-NonEmpty : (s : Str) (c : ℕ) → (d : ℕ) × (t : Str) × (s ++ c ∷ [] ≡ d ∷ t)
append-NonEmpty [] c = (c, [], refl)
append-NonEmpty (x ∷ s) c = (x, s ++ c ∷ [], refl)

-- A number has at least one digit.
pub decimal-NonEmpty : (n : ℕ) → (d : ℕ) × (t : Str) × (decimal n ≡ d ∷ t)
unfolding decimal digits_of
decimal-NonEmpty n = elim (Bool-cases (ltb n 10)) [
  | inl small ↦ (48 + n, [], rw small refl)
  | inr large ↦
      let (d, t, e) = append-NonEmpty (digits_of n (n / 10)) (48 + n % 10) in (d, t, rw large e)
]
