-- ===== src/PyJson/Values/Steps.antt =====
-- The steps of the parser over the texts of values.
use agex_ts.Prelude.{
  ℕ, suc, Str, str_Eq, ◌≡◌, refl, sym, ap, ◌∙◌, true, false, List, [], ◌∷◌, ◌++◌, nat_eq, map,
  starts_with,
}
use mathlib.Core.List.{append_assoc}
use agex_ts.Json.{
  Json, float, string, array, object, Jsons, nil, cons, Fields, end, field, Float, not_a_number,
  infinity, zero_float, finite,
}
use agex_ts.PyJson.Write.{
  py_float, comma_joined, pair_text, encode, encode_all, encode_entries, escape_all,
}
use agex_ts.PyJson.Read.{Parsed, gives, value, elements, members, is_space, set_field, string_at}
use agex_ts.PyJson.Escapes.{AllUnits, string_at-escape_all}
use agex_ts.PyJson.Numbers.{closes}
use agex_ts.PyJson.Floats.{finite-Numeral, zero_float-Numeral, value-Numeral}
use agex_ts.PyJson.Values.{
  FloatReadsBack, IsValue, AreValues, AreEntries, then_fields, ReadsBack, put_all, not_nil, not_end,
  all_text, entries_text, encode-head,
}
use agex_ts.PyJson.Values.Entries.{put_all-new}

joined-head :
    (x : Str) (xs : List Str) (c : ℕ) (s : Str)
    → x ≡ c ∷ s
    → (s' : Str) × (comma_joined (x ∷ xs) ≡ c ∷ s')
unfolding comma_joined
joined-head x [] c s e = (s, e)
joined-head x (y ∷ xs) c s e =
    (s ++ 44 ∷ comma_joined (y ∷ xs), ap (λ z. z ++ 44 ∷ comma_joined (y ∷ xs)) e)

pair_apart :
    (key text rest : Str)
    → ((key ++ 34 ∷ []) ++ 58 ∷ text) ++ rest ≡ key ++ 34 ∷ 58 ∷ (text ++ rest)
pair_apart key text rest =
    append_assoc (key ++ 34 ∷ []) (58 ∷ text) rest
    ∙ append_assoc key (34 ∷ []) (58 ∷ (text ++ rest))

pair_apart_more :
    (key text more rest : Str)
    → (((key ++ 34 ∷ []) ++ 58 ∷ text) ++ 44 ∷ more) ++ rest
      ≡ key ++ 34 ∷ 58 ∷ (text ++ 44 ∷ (more ++ rest))
pair_apart_more key text more rest =
    append_assoc ((key ++ 34 ∷ []) ++ 58 ∷ text) (44 ∷ more) rest
    ∙ pair_apart key text (44 ∷ (more ++ rest))

module _ (number_of : Str → Float) where
  pub value-float :
      (fuel : ℕ) (x : Float) (rest : Str)
      → FloatReadsBack number_of x
      → closes rest ≡ true
      → value number_of (suc fuel) (py_float x ++ rest) ≡ gives (float x) rest
  unfolding value py_float starts_with
  value-float fuel not_a_number rest p h = refl
  value-float fuel (infinity false) rest p h = refl
  value-float fuel (infinity true) rest p h = refl
  value-float fuel (zero_float signed) rest p h =
      value-Numeral number_of fuel (py_float (zero_float signed)) rest (zero_float-Numeral signed) h
      ∙ ap (λ y. gives (float y) rest) p
  value-float fuel (finite signed digits exp) rest p h =
      value-Numeral number_of fuel (py_float (finite signed digits exp)) rest
        (finite-Numeral signed digits exp p.0) h
      ∙ ap (λ y. gives (float y) rest) p.1

  value-string :
      (fuel : ℕ) (s rest : Str)
      → AllUnits s
      → value number_of (suc fuel) (34 ∷ escape_all s ++ 34 ∷ rest) ≡ gives (string s) rest
  unfolding value
  value-string fuel s rest u = rw (string_at-escape_all s rest u) refl

  value-array :
      (fuel c : ℕ) (s rest : Str) (values : Jsons)
      → is_space c ≡ false
      → nat_eq c 93 ≡ false
      → elements number_of (value number_of fuel) fuel (c ∷ s) ≡ gives values rest
      → value number_of (suc fuel) (91 ∷ c ∷ s) ≡ gives (array values) rest
  unfolding value
  value-array fuel c s rest values not_space not_end e = rw (not_space, not_end, e) refl

  value-object :
      (fuel : ℕ) (s rest : Str) (entries : Fields)
      → members number_of (value number_of fuel) fuel end (34 ∷ s) ≡ gives entries rest
      → value number_of (suc fuel) (123 ∷ 34 ∷ s) ≡ gives (object entries) rest
  unfolding value
  value-object fuel s rest entries e = rw e refl

  elements-last :
      (go : Str → Parsed Json) (n : ℕ) (t rest : Str) (v : Json)
      → go t ≡ gives v (93 ∷ rest)
      → elements number_of go (suc n) t ≡ gives (cons v nil) rest
  unfolding elements
  elements-last go n t rest v e = rw e refl

  elements-more :
      (go : Str → Parsed Json) (n : ℕ) (t u rest : Str) (v : Json) (vs : Jsons)
      → go t ≡ gives v (44 ∷ u)
      → elements number_of go n u ≡ gives vs rest
      → elements number_of go (suc n) t ≡ gives (cons v vs) rest
  unfolding elements
  elements-more go n t u rest v vs e m = rw (e, m) refl

  members-last :
      (go : Str → Parsed Json) (n : ℕ) (out : Fields) (s u rest key : Str) (v : Json)
      → string_at s ≡ gives key (58 ∷ u)
      → go u ≡ gives v (125 ∷ rest)
      → members number_of go (suc n) out (34 ∷ s) ≡ gives (set_field out key v) rest
  unfolding members
  members-last go n out s u rest key v k e = rw (k, e) refl

  members-more :
      (go : Str → Parsed Json) (n : ℕ) (out out' : Fields) (s u w rest key : Str) (v : Json)
      → string_at s ≡ gives key (58 ∷ u)
      → go u ≡ gives v (44 ∷ w)
      → members number_of go n (set_field out key v) w ≡ gives out' rest
      → members number_of go (suc n) out (34 ∷ s) ≡ gives out' rest
  unfolding members
  members-more go n out out' s u w rest key v k e m = rw (k, e, m) refl

  pub array-step :
      (fuel : ℕ) (vs : Jsons) (rest : Str)
      → AreValues number_of vs
      → (not_nil vs ≡ true
          → elements number_of (value number_of fuel) fuel (all_text vs ++ 93 ∷ rest)
            ≡ gives vs rest)
      → value number_of (suc fuel) (encode false (array vs) ++ rest) ≡ gives (array vs) rest
  unfolding encode IsValue all_text value comma_joined
  array-step fuel nil rest p later = refl
  array-step fuel (cons v vs) rest (p, ps) later =
      let (c, s, e, not_space, not_last) = encode-head number_of v p in
      let (s', e') = joined-head (encode false v) (encode_all false vs) c s e in
      let whole : all_text (cons v vs) ++ 93 ∷ rest ≡ c ∷ s' ++ 93 ∷ rest =
        ap (λ t. t ++ 93 ∷ rest) e' in
      ap (λ t. value number_of (suc fuel) (91 ∷ t))
        (append_assoc (all_text (cons v vs)) (93 ∷ []) rest ∙ whole)
      ∙ value-array fuel c (s' ++ 93 ∷ rest) rest (cons v vs) not_space not_last
          (ap (elements number_of (value number_of fuel) fuel) (sym whole) ∙ later refl)

  pub elements-step :
      (fuel n : ℕ) (v : Json) (vs : Jsons) (rest : Str)
      → ReadsBack number_of fuel v
      → (not_nil vs ≡ true
          → elements number_of (value number_of fuel) n (all_text vs ++ 93 ∷ rest) ≡ gives vs rest)
      → elements number_of (value number_of fuel) (suc n) (all_text (cons v vs) ++ 93 ∷ rest)
        ≡ gives (cons v vs) rest
  unfolding encode all_text comma_joined ReadsBack
  elements-step fuel n v nil rest first later =
      elements-last (value number_of fuel) n (encode false v ++ 93 ∷ rest) rest v
        (first (93 ∷ rest) refl)
  elements-step fuel n v (cons w ws) rest first later =
      let more = all_text (cons w ws) ++ 93 ∷ rest in
      ap (elements number_of (value number_of fuel) (suc n))
        (append_assoc (encode false v) (44 ∷ all_text (cons w ws)) (93 ∷ rest))
      ∙ elements-more (value number_of fuel) n (encode false v ++ 44 ∷ more) more rest v (cons w ws)
          (first (44 ∷ more) refl) (later refl)

  pub members-step :
      (fuel n : ℕ) (out : Fields) (key : Str) (v : Json) (fs : Fields) (rest : Str)
      → AllUnits key
      → ReadsBack number_of fuel v
      → (not_end fs ≡ true
          → members number_of
              (value number_of fuel)
              n
              (set_field out key v)
              (entries_text fs ++ 125 ∷ rest)
            ≡ gives (put_all (set_field out key v) fs) rest)
      → members number_of
          (value number_of fuel)
          (suc n)
          out
          (entries_text (field key v fs) ++ 125 ∷ rest)
        ≡ gives (put_all out (field key v fs)) rest
  unfolding encode entries_text comma_joined ReadsBack put_all
  members-step fuel n out key v end rest u first later =
      let last = encode false v ++ 125 ∷ rest in
      ap (λ t. members number_of (value number_of fuel) (suc n) out (34 ∷ t))
        (pair_apart (escape_all key) (encode false v) (125 ∷ rest))
      ∙ members-last (value number_of fuel) n out (escape_all key ++ 34 ∷ 58 ∷ last) last rest key v
          (string_at-escape_all key (58 ∷ last) u) (first (125 ∷ rest) refl)
  members-step fuel n out key v (field key' w fs) rest u first later =
      let more = entries_text (field key' w fs) ++ 125 ∷ rest in
      let next = encode false v ++ 44 ∷ more in
      ap (λ t. members number_of (value number_of fuel) (suc n) out (34 ∷ t))
        (pair_apart_more (escape_all key) (encode false v) (entries_text (field key' w fs))
          (125 ∷ rest))
      ∙ members-more (value number_of fuel) n out (put_all (set_field out key v) (field key' w fs))
          (escape_all key ++ 34 ∷ 58 ∷ next) next more rest key v
          (string_at-escape_all key (58 ∷ next) u) (first (44 ∷ more) refl) (later refl)

  pub object-step :
      (fuel : ℕ) (fs : Fields) (rest : Str)
      → AreEntries number_of fs
      → (not_end fs ≡ true
          → members number_of (value number_of fuel) fuel end (entries_text fs ++ 125 ∷ rest)
            ≡ gives (put_all end fs) rest)
      → value number_of (suc fuel) (encode false (object fs) ++ rest) ≡ gives (object fs) rest
  unfolding encode entries_text value comma_joined then_fields
  object-step fuel end rest p later = refl
  object-step fuel (field key v fs) rest p later =
      let all = field key v fs in
      let (s', e') =
        joined-head (pair_text (key, encode false v)) (map pair_text (encode_entries false fs)) 34 _
          refl in
      let whole : entries_text all ++ 125 ∷ rest ≡ 34 ∷ s' ++ 125 ∷ rest =
        ap (λ t. t ++ 125 ∷ rest) e' in
      ap (λ t. value number_of (suc fuel) (123 ∷ t))
        (append_assoc (entries_text all) (125 ∷ []) rest ∙ whole)
      ∙ value-object fuel (s' ++ 125 ∷ rest) rest (put_all end all)
          (ap (members number_of (value number_of fuel) fuel end) (sym whole) ∙ later refl)
      ∙ ap (λ o. gives (object o) rest) (put_all-new number_of end all p (λ j h. (refl, refl)))

  pub string-step :
      (fuel : ℕ) (s rest : Str)
      → AllUnits s
      → value number_of (suc fuel) (encode false (string s) ++ rest) ≡ gives (string s) rest
  unfolding encode
  string-step fuel s rest u =
      ap (λ t. value number_of (suc fuel) (34 ∷ t)) (append_assoc (escape_all s) (34 ∷ []) rest)
      ∙ value-string fuel s rest u
