-- ===== src/PyJson/Write.antt =====
-- packages/kvgit-ts/src/pyjson.ts: `pyDumps`. Strings and keys are texts of UTF-16 code units.
use agex_ts.Prelude.{
  ℕ, suc, ◌+◌, ◌/◌, ◌%◌, Str, codes, Bool, true, false, Option, none, some, List, [], ◌∷◌, ◌++◌,
  leb, ltb, ◌&&◌, nat_eq, if◌then◌else◌, sort, map, decimal, take, drop, length, ◌-◌, zero,
}
use agex_ts.Json.{
  Json, null, boolean, natural, negative, other_number, bigint, float, string, array, object, Jsons,
  nil, cons, Fields, end, field, Float, not_a_number, infinity, zero_float, finite, ℤ, pos, negsuc,
}
use agex_ts.PyJson.{no_later}

-- `SHORT_ESCAPES`: the letter behind the backslash
abbrev pub short_escape : ℕ → Option ℕ
short_escape c =
    if nat_eq c 34
    then some 34
    else if nat_eq c 92
    then some 92
    else if nat_eq c 10
    then some 110
    else if nat_eq c 13
    then some 114
    else if nat_eq c 9
    then some 116
    else if nat_eq c 8
    then some 98
    else if nat_eq c 12
    then some 102
    else none

abbrev pub hex_digit : ℕ → ℕ
hex_digit n = if ltb n 10 then 48 + n else 87 + n

-- `toString(16).padStart(4, '0')` of a code unit
abbrev pub hex4 : ℕ → Str
hex4 c =
    hex_digit (c / 4096)
    ∷ hex_digit (c / 256 % 16)
    ∷ hex_digit (c / 16 % 16)
    ∷ hex_digit (c % 16)
    ∷ []

abbrev pub escaped : ℕ → Option ℕ → Str
escaped c (some e) = 92 ∷ e ∷ []
escaped c none = if leb 32 c && leb c 126 then c ∷ [] else 92 ∷ 117 ∷ hex4 c

unfoldable pub escape_all : Str → Str
escape_all [] = []
escape_all (c ∷ s) = escaped c (short_escape c) ++ escape_all s

abbrev pub py_string : Str → Str
py_string s = 34 ∷ escape_all s ++ 34 ∷ []

unfoldable pub replicate : ℕ → ℕ → Str
replicate zero c = []
replicate (suc n) c = c ∷ replicate n c

abbrev pub pad_start : Str → Str
pad_start s = replicate (2 - length s) 48 ++ s

abbrev pub pad_end : ℕ → Str → Str
pad_end n s = s ++ replicate (n - length s) 48

abbrev pub minus : Bool → Str
minus true = 45 ∷ []
minus false = []

abbrev pub after_point : Str → Str
after_point [] = []
after_point (c ∷ frac) = 46 ∷ c ∷ frac

abbrev pub exponent_notation : Str → Bool → ℕ → Str
exponent_notation digits below exp =
    take 1 digits
    ++ after_point (drop 1 digits)
    ++ 101 ∷ (if below then 45 else 43) ∷ pad_start (decimal exp)

abbrev pub or_zero : Str → Str
or_zero [] = 48 ∷ []
or_zero (c ∷ frac) = c ∷ frac

abbrev pub fixed_notation : Str → ℤ → Str
fixed_notation digits (pos e) =
    if leb 16 e
    then exponent_notation digits false e
    else pad_end (suc e) (take (suc e) digits) ++ 46 ∷ or_zero (drop (suc e) digits)
fixed_notation digits (negsuc n) =
    if leb 4 n then exponent_notation digits true (suc n) else 48 ∷ 46 ∷ replicate n 48 ++ digits

unfoldable pub py_float : Float → Str
unfolding replicate decimal
py_float not_a_number = codes "NaN"
py_float (infinity false) = codes "Infinity"
py_float (infinity true) = codes "-Infinity"
py_float (zero_float false) = codes "0.0"
py_float (zero_float true) = codes "-0.0"
py_float (finite signed digits exp) = minus signed ++ fixed_notation digits exp

-- A plain number that is no safe integer: an integer is written by `String`, whose fixed notation
-- goes up to 21 digits, and any other number as a float.
abbrev pub plain_integer : Str → ℕ → Str
plain_integer digits e =
    if leb 21 e then exponent_notation digits false e else pad_end (suc e) digits

unfoldable pub plain_number : Float → Str
unfolding py_float replicate decimal
plain_number (finite signed digits (pos e)) =
    if leb (length digits) (suc e)
    then minus signed ++ plain_integer digits e
    else py_float (finite signed digits (pos e))
plain_number (finite signed digits (negsuc n)) = py_float (finite signed digits (negsuc n))
plain_number not_a_number = py_float not_a_number
plain_number (infinity signed) = py_float (infinity signed)
plain_number (zero_float signed) = py_float (zero_float signed)

abbrev pub bigint_text : ℤ → Str
bigint_text (pos n) = decimal n
bigint_text (negsuc n) = 45 ∷ decimal (suc n)

-- `join(',')`
unfoldable pub comma_joined : List Str → Str
comma_joined [] = []
comma_joined (s ∷ []) = s
comma_joined (s ∷ t ∷ rest) = s ++ 44 ∷ comma_joined (t ∷ rest)

abbrev pub pair_text : Str × Str → Str
pair_text (key, text) = py_string key ++ 58 ∷ text

-- `pairs.sort`: the values do not count, so that they may be written first.
abbrev pub in_order : Bool → List (Str × Str) → List (Str × Str)
in_order true pairs = sort (λ p q. no_later p.0 q.0) pairs
in_order false pairs = pairs

unfoldable mutual
  unfolding escape_all py_float plain_number comma_joined

  pub encode : Bool → Json → Str
  encode sort_keys null = codes "null"
  encode sort_keys (boolean true) = codes "true"
  encode sort_keys (boolean false) = codes "false"
  encode sort_keys (string s) = py_string s
  encode sort_keys (natural n) = decimal n
  encode sort_keys (negative n) = 45 ∷ decimal (suc n)
  encode sort_keys (other_number x) = plain_number x
  encode sort_keys (bigint z) = bigint_text z
  encode sort_keys (float x) = py_float x
  encode sort_keys (array values) = 91 ∷ comma_joined (encode_all sort_keys values) ++ 93 ∷ []
  encode sort_keys (object entries) =
      123 ∷ comma_joined (map pair_text (in_order sort_keys (encode_entries sort_keys entries)))
      ++ 125 ∷ []

  pub encode_all : Bool → Jsons → List Str
  encode_all sort_keys nil = []
  encode_all sort_keys (cons v rest) = encode sort_keys v ∷ encode_all sort_keys rest

  pub encode_entries : Bool → Fields → List (Str × Str)
  encode_entries sort_keys end = []
  encode_entries sort_keys (field key v rest) =
      (key, encode sort_keys v) ∷ encode_entries sort_keys rest
