-- ===== src/PyJson/Read.antt =====
-- packages/kvgit-ts/src/pyjson.ts: `pyLoads`. The parser's state is the text that is left. An error is
-- given by what it says; the position is left out. `Number` of a text with a fraction or an exponent
-- is a parameter. An object's entries are in JavaScript's order: keys that are array indices first, by
-- their value, and the others in the order in which they were set first.
use agex_ts.Prelude.{
  ℕ, zero, suc, ◌+◌, ◌-◌, ◌*◌, Str, str_Eq, ◌==◌, codes, Bool, true, false, ◌&&◌, ◌||◌, Option,
  none, some, [], ◌∷◌, ◌++◌, leb, ltb, nat_eq, if◌then◌else◌, drop, is_empty, length, starts_with,
  take_digits, number, decimal, is_digit,
}
use agex_ts.Prelude.Result.{Result, ok, err}
use agex_ts.Json.{
  Json, null, boolean, natural, negative, other_number, bigint, float, string, array, object, Jsons,
  nil, cons, Fields, end, field, Float, not_a_number, infinity, zero_float, pos, negsuc,
}
use agex_ts.PyJson.Write.{minus}

-- `SyntaxError`, from `#fail` or from `JSON.parse` of a string
pub data LoadError : Type 0 where
  extra_data expected_key expected_colon expected_comma unterminated bad_string expected_value :
      LoadError

-- A value, and the text that is left; none with no fuel left.
abbrev pub Parsed : Type 0 → Type 0
Parsed A = Option (Result LoadError (A × Str))

abbrev pub gives : {A : Type 0} → A → Str → Parsed A
gives a rest = some (ok (a, rest))

abbrev pub fails : {A : Type 0} → LoadError → Parsed A
fails e = some (err e)

abbrev pub and_then : {A B : Type 0} → Parsed A → (A → Str → Parsed B) → Parsed B
and_then none f = none
and_then (some (err e)) f = some (err e)
and_then (some (ok (a, rest))) f = f a rest

-- the text starts with this code unit
abbrev pub begins : ℕ → Str → Bool
begins c [] = false
begins c (x ∷ s) = nat_eq x c

abbrev pub is_space : ℕ → Bool
is_space c = nat_eq c 32 || nat_eq c 9 || nat_eq c 10 || nat_eq c 13

-- `#space`
unfoldable pub space : Str → Str
space [] = []
space (c ∷ s) = let rest = space s in if is_space c then rest else c ∷ s

-- the units of a string before its closing quote, and what follows that
abbrev pub with_unit : ℕ → Option (Str × Str) → Option (Str × Str)
with_unit c none = none
with_unit c (some (body, rest)) = some (c ∷ body, rest)

unfoldable pub string_end : Str → Option (Str × Str)
string_end [] = none
string_end (c ∷ []) = if nat_eq c 92 then none else if nat_eq c 34 then some ([], []) else none
string_end (c ∷ d ∷ s) =
    let one = with_unit c (string_end (d ∷ s)) in
    let two = with_unit c (with_unit d (string_end s)) in
    if nat_eq c 92 then two else if nat_eq c 34 then some ([], d ∷ s) else one

-- `JSON.parse` of a string: a unit for itself, or an escape
pub data Reading : Type 0 where
  plain after_backslash : Reading
  hex : ℕ → ℕ → Reading

unfoldable pub hex_value : ℕ → Option ℕ
hex_value c =
    if leb 48 c && leb c 57
    then some (c - 48)
    else if leb 97 c && leb c 102
    then some (c - 87)
    else if leb 65 c && leb c 70
    then some (c - 55)
    else none

abbrev pub unescaped : ℕ → Option ℕ
unescaped c =
    if nat_eq c 34
    then some 34
    else if nat_eq c 92
    then some 92
    else if nat_eq c 47
    then some 47
    else if nat_eq c 98
    then some 8
    else if nat_eq c 102
    then some 12
    else if nat_eq c 110
    then some 10
    else if nat_eq c 114
    then some 13
    else if nat_eq c 116
    then some 9
    else none

abbrev pub unit_and : ℕ → Option Str → Option Str
unit_and c none = none
unit_and c (some s) = some (c ∷ s)

abbrev pub with_value : Option ℕ → (ℕ → Option Str) → Option Str
with_value none f = none
with_value (some v) f = f v

abbrev pub read_unit : (Reading → Option Str) → Reading → ℕ → Option Str
read_unit go plain c =
    if nat_eq c 92 then go after_backslash else if ltb c 32 then none else unit_and c (go plain)
read_unit go after_backslash c =
    if nat_eq c 117 then go (hex 3 0) else with_value (unescaped c) (λ d. unit_and d (go plain))
read_unit go (hex zero acc) c = with_value (hex_value c) (λ v. unit_and (acc * 16 + v) (go plain))
read_unit go (hex (suc n) acc) c = with_value (hex_value c) (λ v. go (hex n (acc * 16 + v)))

unfoldable pub unquoted : Str → Reading → Option Str
unfolding hex_value
unquoted [] plain = some []
unquoted [] after_backslash = none
unquoted [] (hex n acc) = none
unquoted (c ∷ s) reading = read_unit (unquoted s) reading c

abbrev pub string_read : Option Str → Str → Parsed Str
string_read none rest = fails bad_string
string_read (some s) rest = gives s rest

abbrev pub string_of_end : Option (Str × Str) → Parsed Str
string_of_end none = fails unterminated
string_of_end (some (body, rest)) = string_read (unquoted body plain) rest

-- `#string`, behind the opening quote
abbrev pub string_at : Str → Parsed Str
string_at t = string_of_end (string_end t)

-- `(0|[1-9]\d*)` and what follows
abbrev pub whole_at : Str → Option (Str × Str)
whole_at [] = none
whole_at (c ∷ s) =
    if nat_eq c 48
    then some (48 ∷ [], s)
    else if is_digit c
    then some (take_digits (c ∷ s))
    else none

abbrev pub digits_behind : Str → Str → Str × Str → Str × Str
digits_behind before whole (digits, rest) =
    if is_empty digits then ([], whole) else (before ++ digits, rest)

-- `(\.\d+)?`
abbrev pub fraction_at : Str → Str × Str
fraction_at [] = ([], [])
fraction_at (c ∷ s) =
    if nat_eq c 46 then digits_behind (46 ∷ []) (c ∷ s) (take_digits s) else ([], c ∷ s)

abbrev pub signed_digits : Str → Str → Str → Str × Str
signed_digits before whole [] = ([], whole)
signed_digits before whole (c ∷ s) =
    if nat_eq c 43 || nat_eq c 45
    then digits_behind (before ++ c ∷ []) whole (take_digits s)
    else digits_behind before whole (take_digits (c ∷ s))

-- `([eE][-+]?\d+)?`
abbrev pub exponent_at : Str → Str × Str
exponent_at [] = ([], [])
exponent_at (c ∷ s) =
    if nat_eq c 101 || nat_eq c 69 then signed_digits (c ∷ []) (c ∷ s) s else ([], c ∷ s)

abbrev pub max_safe : ℕ
max_safe = 9007199254740991

-- `Number.isSafeInteger(n) ? n : BigInt(m[0])`; -0 is safe, and a number of its own.
abbrev pub integer : Bool → Str → Json
integer false digits = let n = number digits in if leb n max_safe then natural n else bigint (pos n)
integer true digits =
    let n = number digits in
    if nat_eq n 0
    then other_number (zero_float true)
    else if leb n max_safe
    then negative (n - 1)
    else bigint (negsuc (n - 1))

-- A key that is an array index: a number below 2 ^ 32 - 1 in its own decimal digits.
unfoldable pub array_index : Str → Option ℕ
array_index key =
    let n = number key in if leb n 4294967294 && decimal n == key then some n else none

abbrev pub index_before : Option ℕ → Option ℕ → Bool
index_before none k = false
index_before (some m) none = true
index_before (some m) (some n) = ltb m n

-- whether a new key goes before one that is there
abbrev pub key_before : Str → Str → Bool
key_before key k = index_before (array_index key) (array_index k)

unfoldable pub set_field : Fields → Str → Json → Fields
unfolding array_index
set_field end key v = field key v end
set_field (field k w rest) key v =
    let later = field k w (set_field rest key v) in
    if k == key
    then field k v rest
    else if key_before key k
    then field key v (field k w rest)
    else later

module _ (number_of : Str → Float) where
  abbrev pub number_from : Bool → Option (Str × Str) → Parsed Json
  number_from signed none = fails expected_value
  number_from signed (some (whole, t)) =
      let (fraction, u) = fraction_at t in
      let (exponent, rest) = exponent_at u in
      if is_empty fraction && is_empty exponent
      then gives (integer signed whole) rest
      else gives (float (number_of (minus signed ++ (whole ++ (fraction ++ exponent))))) rest

  -- `#number`
  abbrev pub number_at : Str → Parsed Json
  number_at t =
      if begins 45 t then number_from true (whole_at (drop 1 t)) else number_from false (whole_at t)

  abbrev pub word_at : Str → Parsed Json
  word_at t =
      if starts_with t (codes "true")
      then gives (boolean true) (drop 4 t)
      else if starts_with t (codes "false")
      then gives (boolean false) (drop 5 t)
      else if starts_with t (codes "null")
      then gives null (drop 4 t)
      else if starts_with t (codes "NaN")
      then gives (float not_a_number) (drop 3 t)
      else if starts_with t (codes "Infinity")
      then gives (float (infinity false)) (drop 8 t)
      else if starts_with t (codes "-Infinity")
      then gives (float (infinity true)) (drop 9 t)
      else number_at t

  -- the loop of `#array`
  unfoldable pub elements : (Str → Parsed Json) → ℕ → Str → Parsed Jsons
  unfolding space
  elements go zero t = none
  elements go (suc n) t = and_then (go t) (λ v r.
      let u = space r in
      let more = and_then (elements go n (drop 1 u)) (λ vs rest. gives (cons v vs) rest) in
      if begins 93 u
      then gives (cons v nil) (drop 1 u)
      else if begins 44 u
      then more
      else fails expected_comma)

  abbrev pub array_at : (Str → Parsed Json) → ℕ → Str → Parsed Json
  array_at go fuel s =
      let t = space s in
      if begins 93 t
      then gives (array nil) (drop 1 t)
      else and_then (elements go fuel t) (λ vs rest. gives (array vs) rest)

  -- the loop of `#object`
  unfoldable pub members : (Str → Parsed Json) → ℕ → Fields → Str → Parsed Fields
  unfolding space set_field string_end unquoted
  members go zero out s = none
  members go (suc n) out s =
      let t = space s in
      let entry = and_then (string_at (drop 1 t)) (λ key r.
        let u = space r in
        let value_then = and_then (go (drop 1 u)) (λ v r'.
          let out' = set_field out key v in
          let w = space r' in
          let more = members go n out' (drop 1 w) in
          if begins 125 w
          then gives out' (drop 1 w)
          else if begins 44 w
          then more
          else fails expected_comma) in
        if begins 58 u then value_then else fails expected_colon) in
      if begins 34 t then entry else fails expected_key

  abbrev pub object_at : (Str → Parsed Json) → ℕ → Str → Parsed Json
  object_at go fuel s =
      let t = space s in
      if begins 125 t
      then gives (object end) (drop 1 t)
      else and_then (members go fuel end t) (λ out rest. gives (object out) rest)

  abbrev pub value_at : (Str → Parsed Json) → ℕ → Str → Parsed Json
  value_at go fuel t =
      if begins 123 t
      then object_at go fuel (drop 1 t)
      else if begins 91 t
      then array_at go fuel (drop 1 t)
      else if begins 34 t
      then and_then (string_at (drop 1 t)) (λ s rest. gives (string s) rest)
      else word_at t

  -- `value`: with no fuel left it has not returned.
  unfoldable pub value : ℕ → Str → Parsed Json
  unfolding space elements members string_end unquoted starts_with take_digits
  value zero t = none
  value (suc fuel) t = value_at (value fuel) fuel (space t)

  abbrev at_end : Parsed Json → Option (Result LoadError Json)
  at_end none = none
  at_end (some (err e)) = some (err e)
  at_end (some (ok (v, rest))) =
      if is_empty (space rest) then some (ok v) else some (err extra_data)

  unfoldable pub py_loads : Str → Option (Result LoadError Json)
  unfolding value
  py_loads text = at_end (value (suc (length text)) text)
