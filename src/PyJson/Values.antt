-- ===== src/PyJson/Values.antt =====
-- The values that are read back as they were written.
pub mod Entries
pub mod Steps
pub mod Sizes
pub mod Round
use agex_ts.Prelude.{
  ℕ, zero, suc, ◌+◌, ◌<◌, ◌≤◌, Str, str_Eq, str_eq_iff, ◌==◌, ◌≡◌, refl, sym, ap, subst, ◌∙◌, Bool,
  true, false, not, ◌&&◌, ◌||◌, Option, none, some, List, [], ◌∷◌, ◌++◌, leb, ltb, nat_eq,
  nat_eq_iff, if◌then◌else◌, Bool-cases, inl, inr, arith, is_digit, drop, length, decimal, map,
  length-append, is_empty, starts_with,
}
use mathlib.Core.List.{append_assoc, append-nil}
use agex_ts.Prelude.Result.{Result, ok, err}
use agex_ts.Json.{
  Json, null, boolean, natural, negative, other_number, bigint, float, string, array, object, Jsons,
  nil, cons, Fields, end, field, Float, not_a_number, infinity, zero_float, finite, ℤ, pos, negsuc,
}
use agex_ts.PyJson.Write.{
  py_string, py_float, comma_joined, pair_text, encode, encode_all, encode_entries, escape_all,
}
use agex_ts.PyJson.Read.{
  LoadError, Parsed, gives, value, elements, members, space, is_space, set_field, py_loads,
  string_at, begins, and_then, max_safe, key_before,
}
use agex_ts.PyJson.Escapes.{AllUnits, string_at-escape_all}
use agex_ts.PyJson.Numbers.{closes, Numeral}
use agex_ts.PyJson.Floats.{
  IsDigits, finite-Numeral, zero_float-Numeral, value-Numeral, value-natural, value-negative,
  Numeral-head, decimal-head,
}

-- the entries have this key
abbrev pub has_key : Fields → Str → Bool
has_key end key = false
has_key (field k v rest) key = k == key || has_key rest key

-- no key of the entries belongs before this one
abbrev pub none_before : Fields → Str → Bool
none_before end key = true
none_before (field k v rest) key = not (key_before k key) && none_before rest key

-- not a safe integer
abbrev pub IsLarge : ℤ → Type 0
IsLarge (pos n) = max_safe < n
IsLarge (negsuc n) = max_safe < suc n

mutual
  pub size : Json → ℕ
  size null = 0
  size (boolean b) = 0
  size (natural n) = 0
  size (negative n) = 0
  size (other_number x) = 0
  size (bigint z) = 0
  size (float x) = 0
  size (string s) = 0
  size (array values) = suc (sizes values)
  size (object entries) = suc (sizes_of entries)

  pub sizes : Jsons → ℕ
  sizes nil = 0
  sizes (cons v rest) = suc (size v + sizes rest)

  pub sizes_of : Fields → ℕ
  sizes_of end = 0
  sizes_of (field key v rest) = suc (size v + sizes_of rest)

pub put_all : Fields → Fields → Fields
put_all out end = out
put_all out (field key v rest) = put_all (set_field out key v) rest

abbrev pub not_nil : Jsons → Bool
not_nil nil = false
not_nil (cons v vs) = true

abbrev pub not_end : Fields → Bool
not_end end = false
not_end (field key v fs) = true

pub all_text : Jsons → Str
all_text values = comma_joined (encode_all false values)

pub entries_text : Fields → Str
entries_text entries = comma_joined (map pair_text (encode_entries false entries))

pub then_fields : Fields → Fields → Fields
then_fields end fs = fs
then_fields (field key v rest) fs = field key v (then_fields rest fs)

module _ (number_of : Str → Float) where
  -- A float that is read back from its text
  abbrev pub FloatReadsBack : Float → Type 0
  FloatReadsBack not_a_number = Unit
  FloatReadsBack (infinity signed) = Unit
  FloatReadsBack (zero_float signed) = number_of (py_float (zero_float signed)) ≡ zero_float signed
  FloatReadsBack (finite signed digits exp) =
      IsDigits digits × (number_of (py_float (finite signed digits exp)) ≡ finite signed digits exp)

  -- What `pyLoads` tells apart: safe integers are plain numbers and others bigints, and no other
  -- number is plain. An object's keys differ, and are in JavaScript's order. Strings are of code units.
  unfoldable mutual
    pub IsValue : Json → Type 0
    IsValue null = Unit
    IsValue (boolean b) = Unit
    IsValue (natural n) = n ≤ max_safe
    IsValue (negative n) = suc n ≤ max_safe
    IsValue (other_number x) = ⊥
    IsValue (bigint z) = IsLarge z
    IsValue (float x) = FloatReadsBack x
    IsValue (string s) = AllUnits s
    IsValue (array values) = AreValues values
    IsValue (object entries) = AreEntries entries

    pub AreValues : Jsons → Type 0
    AreValues nil = Unit
    AreValues (cons v rest) = IsValue v × AreValues rest

    pub AreEntries : Fields → Type 0
    AreEntries end = Unit
    AreEntries (field key v rest) =
        AllUnits key
        × (has_key rest key ≡ false)
        × (none_before rest key ≡ true)
        × IsValue v
        × AreEntries rest

  pub float-head :
      (x : Float)
      → FloatReadsBack x
      → (c : ℕ) × (s : Str) × (py_float x ≡ c ∷ s) × (is_space c ≡ false) × (nat_eq c 93 ≡ false)
  unfolding py_float
  float-head not_a_number p = (78, _, refl, refl, refl)
  float-head (infinity false) p = (73, _, refl, refl, refl)
  float-head (infinity true) p = (45, _, refl, refl, refl)
  float-head (zero_float false) p = (48, _, refl, refl, refl)
  float-head (zero_float true) p = (45, _, refl, refl, refl)
  float-head (finite signed digits exp) p =
      let (c, s, e, h) =
        Numeral-head (py_float (finite signed digits exp)) (finite-Numeral signed digits exp p.0) in
      (c, s, e, ground (arith, h), ground (arith, h))

  -- what a value's text starts with
  pub encode-head :
      (v : Json)
      → IsValue v
      → (c : ℕ) × (s : Str) × (encode false v ≡ c ∷ s)
        × (is_space c ≡ false)
        × (nat_eq c 93 ≡ false)
  unfolding encode IsValue
  encode-head null p = (110, _, refl, refl, refl)
  encode-head (boolean true) p = (116, _, refl, refl, refl)
  encode-head (boolean false) p = (102, _, refl, refl, refl)
  encode-head (natural n) p =
      let (c, s, e, h) = decimal-head n in (c, s, e, ground (arith, h), ground (arith, h))
  encode-head (negative n) p = (45, _, refl, refl, refl)
  encode-head (other_number x) p = absurd p
  encode-head (bigint (pos n)) p =
      let (c, s, e, h) = decimal-head n in (c, s, e, ground (arith, h), ground (arith, h))
  encode-head (bigint (negsuc n)) p = (45, _, refl, refl, refl)
  encode-head (float x) p = float-head x p
  encode-head (string s) p = (34, _, refl, refl, refl)
  encode-head (array values) p = (91, _, refl, refl, refl)
  encode-head (object entries) p = (123, _, refl, refl, refl)

  -- The text of a value is read back, whatever may stand behind it.
  pub ReadsBack : ℕ → Json → Type 0
  ReadsBack fuel v =
      (rest : Str)
      → closes rest ≡ true
      → value number_of fuel (encode false v ++ rest) ≡ gives v rest
