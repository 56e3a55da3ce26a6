-- ===== src/PyJson/Values/Sizes.antt =====
-- A text is long enough for the fuel of its parse.
use agex_ts.Prelude.{
  suc, ◌≤◌, Str, str_Eq, ◌≡◌, refl, true, false, [], ◌∷◌, arith, length, length-append,
}
use agex_ts.Json.{
  Json, null, boolean, natural, negative, other_number, bigint, float, string, array, object, Jsons,
  nil, cons, Fields, end, field,
}
use agex_ts.PyJson.Write.{py_string, comma_joined, pair_text, encode}
use agex_ts.PyJson.Values.{size, sizes, sizes_of, not_nil, not_end, all_text, entries_text}

array-le :
    (vs : Jsons)
    → (not_nil vs ≡ true → sizes vs ≤ suc (length (all_text vs)))
    → suc (sizes vs) ≤ length (encode false (array vs))
unfolding size encode all_text comma_joined
array-le nil h = omega arith
array-le (cons v vs) h = omega (arith, h refl, length-append (all_text (cons v vs)) (93 ∷ []))

object-le :
    (fs : Fields)
    → (not_end fs ≡ true → sizes_of fs ≤ suc (length (entries_text fs)))
    → suc (sizes_of fs) ≤ length (encode false (object fs))
unfolding size encode entries_text comma_joined
object-le end h = omega arith
object-le (field key v fs) h =
    omega (arith, h refl, length-append (entries_text (field key v fs)) (125 ∷ []))

elements-le :
    (v : Json) (vs : Jsons)
    → size v ≤ length (encode false v)
    → (not_nil vs ≡ true → sizes vs ≤ suc (length (all_text vs)))
    → sizes (cons v vs) ≤ suc (length (all_text (cons v vs)))
unfolding size encode all_text comma_joined
elements-le v nil h k = omega (arith, h)
elements-le v (cons w ws) h k =
    omega (arith, h, k refl, length-append (encode false v) (44 ∷ all_text (cons w ws)))

entries-le :
    (key : Str) (v : Json) (fs : Fields)
    → size v ≤ length (encode false v)
    → (not_end fs ≡ true → sizes_of fs ≤ suc (length (entries_text fs)))
    → sizes_of (field key v fs) ≤ suc (length (entries_text (field key v fs)))
unfolding size encode entries_text comma_joined
entries-le key v end h k = omega (arith, h, length-append (py_string key) (58 ∷ encode false v))
entries-le key v (field key' w fs) h k =
    let more = entries_text (field key' w fs) in
    omega (
      arith,
      h,
      k refl,
      length-append (py_string key) (58 ∷ encode false v),
      length-append (pair_text (key, encode false v)) (44 ∷ more),
    )

mutual
  unfolding size

  pub size-le : (v : Json) → size v ≤ length (encode false v)
  size-le null = omega arith
  size-le (boolean b) = omega arith
  size-le (natural n) = omega arith
  size-le (negative n) = omega arith
  size-le (other_number x) = omega arith
  size-le (bigint z) = omega arith
  size-le (float x) = omega arith
  size-le (string s) = omega arith
  size-le (array vs) = array-le vs (sizes-le vs)
  size-le (object fs) = object-le fs (sizes_of-le fs)

  sizes-le : (vs : Jsons) → not_nil vs ≡ true → sizes vs ≤ suc (length (all_text vs))
  sizes-le nil h = cc
  sizes-le (cons v vs) h = elements-le v vs (size-le v) (sizes-le vs)

  sizes_of-le : (fs : Fields) → not_end fs ≡ true → sizes_of fs ≤ suc (length (entries_text fs))
  sizes_of-le end h = cc
  sizes_of-le (field key v fs) h = entries-le key v fs (size-le v) (sizes_of-le fs)
