-- ===== src/PyJson/Numbers.antt =====
-- Numbers are read back as they were written.
use agex_ts.Prelude.{
  ℕ, suc, Str, ◌≡◌, refl, ap, ◌∙◌, Bool, true, false, not, ◌&&◌, ◌||◌, some, [], ◌∷◌, ◌++◌, nat_eq,
  arith, AllDigits, is_digit, take_digits, is_empty, starts_with,
}
use mathlib.Core.List.{append_assoc}
use agex_ts.Json.{float, Float}
use agex_ts.PyJson.Write.{minus}
use agex_ts.PyJson.Read.{
  gives, whole_at, fraction_at, exponent_at, number_from, number_at, word_at, integer, is_space,
  value,
}

-- what may stand behind a value: nothing, a comma, or a closing bracket
abbrev pub closes : Str → Bool
closes [] = true
closes (c ∷ s) = nat_eq c 44 || nat_eq c 93 || nat_eq c 125

abbrev no_digit : Str → Bool
no_digit [] = true
no_digit (c ∷ s) = not (is_digit c)

take_digits_all : (ds t : Str) → AllDigits ds → no_digit t ≡ true → take_digits (ds ++ t) ≡ (ds, t)
unfolding take_digits
take_digits_all [] [] a n = refl
take_digits_all [] (c ∷ t) a n = let other : is_digit c ≡ false = ground arith in rw other refl
take_digits_all (d ∷ ds) t (h, a) n = rw (take_digits_all ds t a n, h) refl

pub data IsWhole : Str → Type 0 where
  zero_whole : IsWhole (48 ∷ [])
  from_digit :
      (d : ℕ) (ds : Str) → is_digit d ≡ true → nat_eq d 48 ≡ false → AllDigits ds → IsWhole (d ∷ ds)

pub data IsFraction : Str → Type 0 where
  no_fraction : IsFraction []
  point : (d : ℕ) (ds : Str) → AllDigits (d ∷ ds) → IsFraction (46 ∷ d ∷ ds)

pub data IsExponent : Str → Type 0 where
  no_exponent : IsExponent []
  power :
      (sign d : ℕ) (ds : Str)
      → nat_eq sign 43 || nat_eq sign 45 ≡ true
      → AllDigits (d ∷ ds)
      → IsExponent (101 ∷ sign ∷ d ∷ ds)

-- A text that `#number` takes whole, with a fraction or an exponent.
pub data Numeral (text : Str) : Type 0 where
  numeral :
      (signed : Bool) (whole fraction exponent : Str)
      → IsWhole whole
      → IsFraction fraction
      → IsExponent exponent
      → is_empty fraction && is_empty exponent ≡ false
      → text ≡ minus signed ++ (whole ++ (fraction ++ exponent))
      → Numeral text

closes-no_digit : (rest : Str) → closes rest ≡ true → no_digit rest ≡ true
closes-no_digit [] h = refl
closes-no_digit (c ∷ s) h = ground arith

behind-no_digit :
    (fraction exponent rest : Str)
    → IsFraction fraction
    → IsExponent exponent
    → closes rest ≡ true
    → no_digit (fraction ++ (exponent ++ rest)) ≡ true
behind-no_digit f e rest (point d ds a) x h = refl
behind-no_digit f e rest no_fraction (power sign d ds s a) h = refl
behind-no_digit f e rest no_fraction no_exponent h = closes-no_digit rest h

whole_at-append :
    (whole t : Str) → IsWhole whole → no_digit t ≡ true → whole_at (whole ++ t) ≡ some (whole, t)
unfolding take_digits
whole_at-append w t zero_whole n = refl
whole_at-append w t (from_digit d ds h k a) n = rw (k, h, take_digits_all ds t a n) refl

exponent_at-append :
    (exponent rest : Str)
    → IsExponent exponent
    → closes rest ≡ true
    → exponent_at (exponent ++ rest) ≡ (exponent, rest)
exponent_at-append e [] no_exponent h = refl
exponent_at-append e (c ∷ s) no_exponent h =
    let other : (nat_eq c 101 || nat_eq c 69) ≡ false = ground arith in rw other refl
exponent_at-append e rest (power sign d ds s a) h =
    rw (s, take_digits_all (d ∷ ds) rest a (closes-no_digit rest h)) refl

fraction_at-append :
    (fraction exponent rest : Str)
    → IsFraction fraction
    → IsExponent exponent
    → closes rest ≡ true
    → fraction_at (fraction ++ (exponent ++ rest)) ≡ (fraction, exponent ++ rest)
fraction_at-append f e rest (point d ds a) x h =
    rw (take_digits_all (d ∷ ds) (e ++ rest) a (behind-no_digit [] e rest no_fraction x h)) refl
fraction_at-append f e rest no_fraction (power sign d ds s a) h = refl
fraction_at-append f e [] no_fraction no_exponent h = refl
fraction_at-append f e (c ∷ s) no_fraction no_exponent h =
    let other : nat_eq c 46 ≡ false = ground arith in rw other refl

pub drop_group :
    (a b c d rest : Str) → (a ++ (b ++ (c ++ d))) ++ rest ≡ a ++ (b ++ (c ++ (d ++ rest)))
drop_group a b c d rest =
    append_assoc a (b ++ (c ++ d)) rest
    ∙ ap (λ t. a ++ t) (append_assoc b (c ++ d) rest ∙ ap (λ t. b ++ t) (append_assoc c d rest))

pub whole-head :
    (whole : Str) → IsWhole whole → (d : ℕ) × (ds : Str) × (whole ≡ d ∷ ds) × (is_digit d ≡ true)
whole-head w zero_whole = (48, [], refl, refl)
whole-head w (from_digit d ds h k a) = (d, ds, refl, h)

module _ (number_of : Str → Float) where
  number_at-signed :
      (signed : Bool) (whole t : Str)
      → IsWhole whole
      → number_at number_of (minus signed ++ (whole ++ t))
        ≡ number_from number_of signed (whole_at (whole ++ t))
  number_at-signed true whole t w = refl
  number_at-signed false whole t w =
      let (d, ds, is_d, h) = whole-head whole w in
      let other : nat_eq d 45 ≡ false = ground (arith, h) in rw (is_d, other) refl

  pub number_at-float :
      (signed : Bool) (whole fraction exponent rest : Str)
      → IsWhole whole
      → IsFraction fraction
      → IsExponent exponent
      → is_empty fraction && is_empty exponent ≡ false
      → closes rest ≡ true
      → number_at number_of (minus signed ++ (whole ++ (fraction ++ (exponent ++ rest))))
        ≡ gives (float (number_of (minus signed ++ (whole ++ (fraction ++ exponent))))) rest
  number_at-float signed whole fraction exponent rest w f x some_part h =
      number_at-signed signed whole (fraction ++ (exponent ++ rest)) w
      ∙ rw
          (
            whole_at-append whole (fraction ++ (exponent ++ rest)) w
                (behind-no_digit fraction exponent rest f x h),
            fraction_at-append fraction exponent rest f x h,
            exponent_at-append exponent rest x h,
            some_part,
          )
          refl

  pub number_at-integer :
      (signed : Bool) (whole rest : Str)
      → IsWhole whole
      → closes rest ≡ true
      → number_at number_of (minus signed ++ (whole ++ rest)) ≡ gives (integer signed whole) rest
  number_at-integer signed whole rest w h =
      number_at-signed signed whole rest w
      ∙ rw
          (
            whole_at-append whole rest w (closes-no_digit rest h),
            fraction_at-append [] [] rest no_fraction no_exponent h,
            exponent_at-append [] rest no_exponent h,
          )
          refl

  word_at-digit :
      (c : ℕ) (s : Str)
      → is_digit c ≡ true
      → word_at number_of (c ∷ s) ≡ number_at number_of (c ∷ s)
  unfolding starts_with
  word_at-digit c s h =
      let t : nat_eq c 116 ≡ false = ground (arith, h) in
      let f : nat_eq c 102 ≡ false = ground (arith, h) in
      let n : nat_eq c 110 ≡ false = ground (arith, h) in
      let nan : nat_eq c 78 ≡ false = ground (arith, h) in
      let inf : nat_eq c 73 ≡ false = ground (arith, h) in
      let neg : nat_eq c 45 ≡ false = ground (arith, h) in rw (t, f, n, nan, inf, neg) refl

  word_at-minus :
      (c : ℕ) (s : Str)
      → is_digit c ≡ true
      → word_at number_of (45 ∷ c ∷ s) ≡ number_at number_of (45 ∷ c ∷ s)
  unfolding starts_with
  word_at-minus c s h = let inf : nat_eq c 73 ≡ false = ground (arith, h) in rw inf refl

  -- `value` takes a number.
  pub value-number :
      (fuel : ℕ) (signed : Bool) (whole t : Str)
      → IsWhole whole
      → value number_of (suc fuel) (minus signed ++ (whole ++ t))
        ≡ number_at number_of (minus signed ++ (whole ++ t))
  unfolding value
  value-number fuel true whole t w =
      let (d, ds, is_d, h) = whole-head whole w in rw is_d (word_at-minus d (ds ++ t) h)
  value-number fuel false whole t w =
      let (d, ds, is_d, h) = whole-head whole w in
      let not_space : is_space d ≡ false = ground (arith, h) in
      let a : nat_eq d 123 ≡ false = ground (arith, h) in
      let b : nat_eq d 91 ≡ false = ground (arith, h) in
      let c : nat_eq d 34 ≡ false = ground (arith, h) in
      rw (is_d, not_space, a, b, c) (word_at-digit d (ds ++ t) h)
