-- ===== src/PyJson/Floats.antt =====
-- The texts of integers and floats are such as `#number` takes whole.
use agex_ts.Prelude.{
  ℕ, zero, suc, ◌+◌, ◌-◌, ◌<◌, Str, ◌≡◌, refl, sym, ap, subst, ◌∙◌, Bool, true, false, ◌&&◌, ◌||◌,
  [], ◌∷◌, ◌++◌, leb, ltb, nat_eq, if◌then◌else◌, Bool-cases, inl, inr, arith, AllDigits, is_digit,
  is_empty, drop, take, length, decimal, digits_of, decimal-AllDigits, decimal-NonEmpty,
  number-decimal, ◌/◌, ◌%◌,
}
use mathlib.Core.List.{append-nil}
use agex_ts.Json.{natural, negative, bigint, float, Float, finite, zero_float, ℤ, pos, negsuc}
use agex_ts.PyJson.Write.{
  minus, py_float, replicate, or_zero, pad_start, after_point, exponent_notation, fixed_notation,
}
use agex_ts.PyJson.Numbers.{
  IsWhole, zero_whole, from_digit, IsFraction, no_fraction, point, IsExponent, no_exponent, power,
  Numeral, numeral, closes, value-number, number_at-float, number_at-integer, drop_group,
  whole-head,
}
use agex_ts.PyJson.Read.{max_safe, gives, integer, value}

all_append : (s t : Str) → AllDigits s → AllDigits t → AllDigits (s ++ t)
all_append [] t a b = b
all_append (c ∷ s) t (h, a) b = (h, all_append s t a b)

all_replicate : (n : ℕ) → AllDigits (replicate n 48)
unfolding replicate
all_replicate zero = tt
all_replicate (suc n) = (refl, all_replicate n)

all_take : (n : ℕ) (s : Str) → AllDigits s → AllDigits (take n s)
all_take zero s a = tt
all_take (suc n) [] a = tt
all_take (suc n) (c ∷ s) (h, a) = (h, all_take n s a)

all_drop : (n : ℕ) (s : Str) → AllDigits s → AllDigits (drop n s)
all_drop zero s a = a
all_drop (suc n) [] a = tt
all_drop (suc n) (c ∷ s) (h, a) = all_drop n s a

point-IsFraction : (s : Str) → AllDigits s → is_empty s ≡ false → IsFraction (46 ∷ s)
point-IsFraction [] a e = cc
point-IsFraction (c ∷ s) a e = point c s a

power-IsExponent :
    (sign : ℕ) (s : Str)
    → nat_eq sign 43 || nat_eq sign 45 ≡ true
    → AllDigits s
    → is_empty s ≡ false
    → IsExponent (101 ∷ sign ∷ s)
power-IsExponent sign [] h a e = cc
power-IsExponent sign (c ∷ s) h a e = power sign c s h a

empty-append : (s t : Str) → is_empty t ≡ false → is_empty (s ++ t) ≡ false
empty-append [] t e = e
empty-append (c ∷ s) t e = refl

-- A text of digits that starts with none but a zero that is alone
leading :
    (fuel n : ℕ)
    → 0 < n
    → n < fuel
    → (d : ℕ) × (ds : Str) × (digits_of fuel n ≡ d ∷ ds)
      × (is_digit d ≡ true)
      × (nat_eq d 48 ≡ false)
      × AllDigits ds
unfolding digits_of
leading zero n p h = absurd (omega arith)
leading (suc fuel) n p h = elim (Bool-cases (ltb n 10)) [
  | inl small ↦ (48 + n, [], rw small refl, ground arith, ground arith, tt)
  | inr large ↦
      let (d, ds, e, is_d, not_zero, a) = leading fuel (n / 10) (ground arith) (ground arith) in
      (
        d,
        ds ++ (48 + n % 10) ∷ [],
        rw (large, e) refl,
        is_d,
        not_zero,
        all_append ds ((48 + n % 10) ∷ []) a (ground arith, tt),
      )
]

decimal-IsWhole : (n : ℕ) → IsWhole (decimal n)
unfolding decimal digits_of
decimal-IsWhole zero = zero_whole
decimal-IsWhole (suc n) =
    let (d, ds, e, is_d, not_zero, a) = leading (suc (suc n)) (suc n) (omega arith) (omega arith) in
    subst IsWhole (sym e) (from_digit d ds is_d not_zero a)

-- the digits of a finite float, the first no zero
pub record IsDigits (digits : Str) : Type 0 where
  pub first : ℕ
  pub more : Str
  pub split : digits ≡ first ∷ more
  pub is_first : is_digit first ≡ true
  pub not_zero : nat_eq first 48 ≡ false
  pub all_more : AllDigits more

pad_start-power :
    (sign k : ℕ)
    → nat_eq sign 43 || nat_eq sign 45 ≡ true
    → IsExponent (101 ∷ sign ∷ pad_start (decimal k))
pad_start-power sign k h =
    let (d, ds, e) = decimal-NonEmpty k in
    power-IsExponent sign (pad_start (decimal k)) h
      (all_append (replicate (2 - length (decimal k)) 48) (decimal k)
        (all_replicate (2 - length (decimal k))) (decimal-AllDigits k))
      (empty-append (replicate (2 - length (decimal k)) 48) (decimal k) (rw e refl))

after_point-IsFraction : (s : Str) → AllDigits s → IsFraction (after_point s)
after_point-IsFraction [] a = no_fraction
after_point-IsFraction (c ∷ s) a = point c s a

point_or_power : (s : Str) → is_empty s && false ≡ false
point_or_power [] = refl
point_or_power (c ∷ s) = refl

exponent_notation-Numeral :
    (signed below : Bool) (digits : Str) (k : ℕ)
    → IsDigits digits
    → Numeral (minus signed ++ exponent_notation digits below k)
exponent_notation-Numeral signed below digits k q =
    subst (λ s. Numeral (minus signed ++ exponent_notation s below k)) (sym q.split)
      (numeral signed (q.first ∷ []) (after_point q.more)
        (101 ∷ (if below then 45 else 43) ∷ pad_start (decimal k))
        (from_digit q.first [] q.is_first q.not_zero tt) (after_point-IsFraction q.more q.all_more)
        (pad_start-power (if below then 45 else 43) k (sign_known below))
        (point_or_power (after_point q.more)) refl)
  where
    sign_known :
        (b : Bool) → nat_eq (if b then 45 else 43) 43 || nat_eq (if b then 45 else 43) 45 ≡ true
    sign_known true = refl
    sign_known false = refl

or_zero-IsFraction : (s : Str) → AllDigits s → IsFraction (46 ∷ or_zero s)
or_zero-IsFraction [] a = point 48 [] (refl, tt)
or_zero-IsFraction (c ∷ s) a = point c s a

fixed_notation-Numeral :
    (signed : Bool) (digits : Str) (exp : ℤ)
    → IsDigits digits
    → Numeral (minus signed ++ fixed_notation digits exp)
fixed_notation-Numeral signed digits (pos e) q = elim (Bool-cases (leb 16 e)) [
  | inl far ↦ rw far (exponent_notation-Numeral signed false digits e q)
  | inr near ↦
      rw (near, q.split)
        (numeral signed
          (q.first ∷ take e q.more ++ replicate (suc e - suc (length (take e q.more))) 48)
          (46 ∷ or_zero (drop e q.more)) []
          (from_digit q.first (take e q.more ++ replicate (suc e - suc (length (take e q.more))) 48)
            q.is_first q.not_zero
            (all_append (take e q.more) (replicate (suc e - suc (length (take e q.more))) 48)
              (all_take e q.more q.all_more)
              (all_replicate (suc e - suc (length (take e q.more))))))
          (or_zero-IsFraction (drop e q.more) (all_drop e q.more q.all_more)) no_exponent refl
          (rw (append-nil (or_zero (drop e q.more))) refl))
]
fixed_notation-Numeral signed digits (negsuc n) q = elim (Bool-cases (leb 4 n)) [
  | inl far ↦ rw far (exponent_notation-Numeral signed true digits (suc n) q)
  | inr near ↦ rw near (
      numeral signed (48 ∷ []) (46 ∷ replicate n 48 ++ digits) [] zero_whole
        (point-IsFraction (replicate n 48 ++ digits)
          (all_append (replicate n 48) digits (all_replicate n)
            (rw q.split (q.is_first, q.all_more)))
          (empty-append (replicate n 48) digits (rw q.split refl)))
        no_exponent refl (rw (append-nil (replicate n 48 ++ digits)) refl))
]

pub finite-Numeral :
    (signed : Bool) (digits : Str) (exp : ℤ)
    → IsDigits digits
    → Numeral (py_float (finite signed digits exp))
unfolding py_float
finite-Numeral signed digits exp q = fixed_notation-Numeral signed digits exp q

pub zero_float-Numeral : (signed : Bool) → Numeral (py_float (zero_float signed))
unfolding py_float
zero_float-Numeral true =
    numeral true (48 ∷ []) (46 ∷ 48 ∷ []) [] zero_whole (point 48 [] (refl, tt)) no_exponent refl
      refl
zero_float-Numeral false =
    numeral false (48 ∷ []) (46 ∷ 48 ∷ []) [] zero_whole (point 48 [] (refl, tt)) no_exponent refl
      refl

module _ (number_of : Str → Float) where
  -- A float's text is taken whole, and `Number` is called on it.
  pub value-Numeral :
      (fuel : ℕ) (text rest : Str)
      → Numeral text
      → closes rest ≡ true
      → value number_of (suc fuel) (text ++ rest) ≡ gives (float (number_of text)) rest
  value-Numeral fuel text rest (numeral signed whole fraction exponent w f x some_part e) h = rw e (
      ap (value number_of (suc fuel)) (drop_group (minus signed) whole fraction exponent rest)
      ∙ value-number number_of fuel signed whole (fraction ++ (exponent ++ rest)) w
      ∙ number_at-float number_of signed whole fraction exponent rest w f x some_part h)

  integer_text :
      (fuel : ℕ) (signed : Bool) (whole rest : Str)
      → IsWhole whole
      → closes rest ≡ true
      → value number_of (suc fuel) (minus signed ++ (whole ++ rest))
        ≡ gives (integer signed whole) rest
  integer_text fuel signed whole rest w h =
      value-number number_of fuel signed whole rest w
      ∙ number_at-integer number_of signed whole rest w h

  pub value-natural :
      (fuel n : ℕ) (rest : Str)
      → leb n max_safe ≡ true
      → closes rest ≡ true
      → value number_of (suc fuel) (decimal n ++ rest) ≡ gives (natural n) rest
  value-natural fuel n rest safe h =
      integer_text fuel false (decimal n) rest (decimal-IsWhole n) h
      ∙ rw (number-decimal n, safe) refl

  pub value-bigint :
      (fuel n : ℕ) (rest : Str)
      → leb n max_safe ≡ false
      → closes rest ≡ true
      → value number_of (suc fuel) (decimal n ++ rest) ≡ gives (bigint (pos n)) rest
  value-bigint fuel n rest large h =
      integer_text fuel false (decimal n) rest (decimal-IsWhole n) h
      ∙ rw (number-decimal n, large) refl

  signed_text :
      (fuel n : ℕ) (rest : Str)
      → closes rest ≡ true
      → value number_of (suc fuel) (45 ∷ decimal (suc n) ++ rest)
        ≡ gives (if leb (suc n) max_safe then negative n else bigint (negsuc n)) rest
  signed_text fuel n rest h =
      let some_left : nat_eq (suc n) 0 ≡ false = ground arith in
      let less : suc n - 1 ≡ n = omega arith in
      integer_text fuel true (decimal (suc n)) rest (decimal-IsWhole (suc n)) h
      ∙ rw (number-decimal (suc n), some_left, less) refl

  pub value-negative :
      (fuel n : ℕ) (rest : Str)
      → leb (suc n) max_safe ≡ true
      → closes rest ≡ true
      → value number_of (suc fuel) (45 ∷ decimal (suc n) ++ rest) ≡ gives (negative n) rest
  value-negative fuel n rest safe h = signed_text fuel n rest h ∙ rw safe refl

  pub value-negative_bigint :
      (fuel n : ℕ) (rest : Str)
      → leb (suc n) max_safe ≡ false
      → closes rest ≡ true
      → value number_of (suc fuel) (45 ∷ decimal (suc n) ++ rest) ≡ gives (bigint (negsuc n)) rest
  value-negative_bigint fuel n rest large h = signed_text fuel n rest h ∙ rw large refl

-- what a number's text starts with
pub Numeral-head :
    (text : Str)
    → Numeral text
    → (c : ℕ) × (s : Str) × (text ≡ c ∷ s) × ((nat_eq c 45 || is_digit c) ≡ true)
Numeral-head text (numeral true whole f x w q y some_part e) = (45, whole ++ (f ++ x), e, refl)
Numeral-head text (numeral false whole f x w q y some_part e) =
    let (d, ds, is_d, h) = whole-head whole w in
    (d, ds ++ (f ++ x), e ∙ ap (λ s. s ++ (f ++ x)) is_d, ground (arith, h))

pub decimal-head :
    (n : ℕ) → (c : ℕ) × (s : Str) × (decimal n ≡ c ∷ s) × ((nat_eq c 45 || is_digit c) ≡ true)
decimal-head n =
    let (d, ds, is_d, h) = whole-head (decimal n) (decimal-IsWhole n) in
    (d, ds, is_d, ground (arith, h))
