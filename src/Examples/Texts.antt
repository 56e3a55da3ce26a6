-- ===== src/Examples/Texts.antt =====
-- A JSON value, written and read.
use agex_ts.Prelude.{
  value_from, decimal, ◌≡◌, refl, arith, Str, str_Eq, str_eq, ◌==◌, codes, true, false, some,
  if◌then◌else◌, sort, [], ◌∷◌,
}
use agex_ts.Prelude.Result.{ok}
use agex_ts.Json.{
  Json, null, boolean, natural, negative, other_number, bigint, float, string, array, object, nil,
  cons, end, field, Fields, Float, not_a_number, infinity, finite, pos,
}
use agex_ts.PyJson.{no_later}
use agex_ts.PyJson.Write.{encode, py_float}
use agex_ts.PyJson.Read.{array_index, py_loads, set_field}
use agex_ts.PyJson.Floats.{IsDigits}
use agex_ts.PyJson.Values.{IsValue}
use agex_ts.PyJson.Values.Round.{py_loads-encode}

abbrev number_of : Str → Float
number_of text = if text == codes "1.5" then finite false (codes "15") (pos 0) else not_a_number

abbrev list : Json
list = array (
    cons (natural 10) (
      cons (negative 1) (
        cons (float (finite false (codes "15") (pos 0))) (
          cons (float (infinity true))
            (cons (string (233 ∷ 10 ∷ [])) (cons (bigint (pos 9007199254740992)) nil))))))

abbrev document : Json
document =
    object (field (codes "7") null (field (codes "b") list (field (codes "a") (boolean true) end)))

text_of_document :
    encode false document
    ≡ codes "{\"7\":null,\"b\":[10,-2,1.5,-Infinity,\"\\u00e9\\n\",9007199254740992],\"a\":true}"
unfolding encode
text_of_document = refl

text_in_order :
    encode true document
    ≡ codes "{\"7\":null,\"a\":true,\"b\":[10,-2,1.5,-Infinity,\"\\u00e9\\n\",9007199254740992]}"
unfolding encode sort no_later
text_in_order = refl

-- 2 ** 60 as a plain number, and as a bigint
text_of_large :
    encode false (
      array (
        cons
          (other_number (finite false (codes "1152921504606847") (pos 18)))
          (cons (bigint (pos 1152921504606846976)) nil)))
    ≡ codes "[1152921504606847000,1152921504606846976]"
unfolding encode
text_of_large = refl

abbrev two_keys : Fields
two_keys = field (codes "10") null (field (codes "b") null end)

-- Array indices stand first, whenever they are set.
index_first :
    set_field two_keys (codes "9") (boolean true) ≡ field (codes "9") (boolean true) two_keys
unfolding set_field value_from decimal str_eq
index_first = refl

one_and_a_half : IsDigits (codes "15")
one_and_a_half = record {
  first = 49;
  more = codes "5";
  split = refl;
  is_first = refl;
  not_zero = refl;
  all_more = (refl, tt);
}

document-IsValue : IsValue number_of document
unfolding IsValue py_float str_eq array_index value_from
document-IsValue = (
  (omega arith, tt),
  refl,
  refl,
  tt,
  (
    (omega arith, tt),
    refl,
    refl,
    (
      omega arith,
      (
        omega arith,
        ((one_and_a_half, refl), (tt, ((omega arith, (omega arith, tt)), (omega arith, tt)))),
      ),
    ),
    ((omega arith, tt), refl, refl, tt, tt),
  ),
)

py_loads-encode_example : py_loads number_of (encode false document) ≡ some (ok document)
py_loads-encode_example = py_loads-encode number_of document document-IsValue
