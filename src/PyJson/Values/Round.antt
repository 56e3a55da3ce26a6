-- ===== src/PyJson/Values/Round.antt =====
-- Any value is read back as it was written.
use agex_ts.Prelude.{
  ℕ, zero, suc, ◌<◌, ◌≤◌, Str, str_Eq, ◌≡◌, refl, sym, ap, ◌∙◌, true, false, some, [], ◌∷◌, ◌++◌,
  arith, length, starts_with,
}
use mathlib.Core.List.{append-nil}
use agex_ts.Prelude.Result.{ok}
use agex_ts.Json.{
  Json, null, boolean, natural, negative, other_number, bigint, float, string, array, object, Jsons,
  nil, cons, Fields, end, field, Float, pos, negsuc,
}
use agex_ts.PyJson.Write.{encode}
use agex_ts.PyJson.Read.{gives, value, elements, members, set_field, py_loads}
use agex_ts.PyJson.Floats.{value-natural, value-negative, value-bigint, value-negative_bigint}
use agex_ts.PyJson.Values.{
  IsValue, AreValues, AreEntries, ReadsBack, size, sizes, sizes_of, put_all, not_nil, not_end,
  all_text, entries_text,
}
use agex_ts.PyJson.Values.Steps.{
  array-step, elements-step, members-step, object-step, string-step, value-float,
}
use agex_ts.PyJson.Values.Sizes.{size-le}

module _ (number_of : Str → Float) where
  mutual
    unfolding encode IsValue size ReadsBack value starts_with

    value-encode :
        (v : Json) → IsValue number_of v → (fuel : ℕ) → size v < fuel → ReadsBack number_of fuel v
    value-encode v p zero n rest h = absurd (omega (arith, n))
    value-encode null p (suc fuel) n rest h = refl
    value-encode (boolean true) p (suc fuel) n rest h = refl
    value-encode (boolean false) p (suc fuel) n rest h = refl
    value-encode (natural k) p (suc fuel) n rest h =
        value-natural number_of fuel k rest (ground (arith, p)) h
    value-encode (negative k) p (suc fuel) n rest h =
        value-negative number_of fuel k rest (ground (arith, p)) h
    value-encode (other_number x) p (suc fuel) n rest h = absurd p
    value-encode (bigint (pos k)) p (suc fuel) n rest h =
        value-bigint number_of fuel k rest (ground (arith, p)) h
    value-encode (bigint (negsuc k)) p (suc fuel) n rest h =
        value-negative_bigint number_of fuel k rest (ground (arith, p)) h
    value-encode (float x) p (suc fuel) n rest h = value-float number_of fuel x rest p h
    value-encode (string s) p (suc fuel) n rest h = string-step number_of fuel s rest p
    value-encode (array vs) p (suc fuel) n rest h =
        array-step number_of fuel vs rest p (λ some_value.
          elements-encode vs p fuel fuel (omega (arith, n)) (omega (arith, n)) some_value rest)
    value-encode (object fs) p (suc fuel) n rest h =
        object-step number_of fuel fs rest p (λ some_entry.
          members-encode fs p fuel fuel end (omega (arith, n)) (omega (arith, n)) some_entry rest)

    elements-encode :
        (vs : Jsons)
        → AreValues number_of vs
        → (fuel n : ℕ) → sizes vs ≤ n
        → sizes vs ≤ fuel
        → not_nil vs ≡ true
        → (rest : Str)
        → elements number_of (value number_of fuel) n (all_text vs ++ 93 ∷ rest) ≡ gives vs rest
    elements-encode nil p fuel n k m e rest = cc
    elements-encode (cons v vs) p fuel zero k m e rest = absurd (omega (arith, k))
    elements-encode (cons v vs) (p, ps) fuel (suc n) k m e rest =
        elements-step number_of fuel n v vs rest
          (λ r c. value-encode v p fuel (omega (arith, m)) r c)
          (λ some_value.
            elements-encode vs ps fuel n (omega (arith, k)) (omega (arith, m)) some_value rest)

    members-encode :
        (fs : Fields)
        → AreEntries number_of fs
        → (fuel n : ℕ) (out : Fields) → sizes_of fs ≤ n
        → sizes_of fs ≤ fuel
        → not_end fs ≡ true
        → (rest : Str)
        → members number_of (value number_of fuel) n out (entries_text fs ++ 125 ∷ rest)
          ≡ gives (put_all out fs) rest
    members-encode end p fuel n out k m e rest = cc
    members-encode (field key v fs) p fuel zero out k m e rest = absurd (omega (arith, k))
    members-encode (field key v fs) (u, once, ordered, p, ps) fuel (suc n) out k m e rest =
        members-step number_of fuel n out key v fs rest u
          (λ r c. value-encode v p fuel (omega (arith, m)) r c)
          (λ some_entry.
            members-encode fs ps fuel n (set_field out key v) (omega (arith, k)) (omega (arith, m))
              some_entry rest)

  -- `pyLoads` ends, and gives back a value that `pyDumps` wrote, in the order of its keys, where the
  -- value is of the kinds that `pyLoads` tells apart: plain numbers are safe integers other than -0,
  -- bigints are not in the safe range, floats are `PyFloat`s that `Number` reads back from the text that
  -- `pyFloat` gives them, strings are of code units, and objects have each key once, array indices
  -- first and ascending.
  pub py_loads-encode :
      (v : Json) → IsValue number_of v → py_loads number_of (encode false v) ≡ some (ok v)
  unfolding py_loads ReadsBack
  py_loads-encode v p =
      let text = encode false v in
      let all : value number_of (suc (length text)) text ≡ gives v [] =
        ap (value number_of (suc (length text))) (sym (append-nil text))
        ∙ value-encode v p (suc (length text)) (omega (arith, size-le v)) [] refl in
      rw all refl
