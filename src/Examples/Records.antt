-- ===== src/Examples/Records.antt =====
-- The records of a merge of two commits.
use agex_ts.Prelude.{
  Str, str_Eq, ◌≡◌, refl, codes, true, Option, some, none, List, [], ◌∷◌, value_from,
}
use agex_ts.Prelude.Result.{Result, ok, err}
use agex_ts.JsMap
use agex_ts.JsMap.{JsMap}
use agex_ts.Store.{Bytes}
use agex_ts.Json.{Json, null, not_a_number}
use agex_ts.Layout.{commit_records, string_array, natural_array}
use agex_ts.PyJson.Write.{encode}
use agex_ts.PyJson.Read.{LoadError, py_loads}
use agex_ts.Ancestry.{record_of}
use agex_ts.Ancestry.Records.{record_of-commit_records}

abbrev loaded : Option (Result LoadError Json) → Option Json
loaded none = none
loaded (some (err e)) = none
loaded (some (ok v)) = some v

abbrev parse : Bytes → Option Json
parse raw = loaded (py_loads (λ text. not_a_number) raw)

abbrev merge : Str
merge = codes "c3"

abbrev both : List Str
both = codes "c1" ∷ codes "c2" ∷ []

abbrev store : Str → Option Bytes
store key =
    JsMap.get (commit_records merge (codes "r3") both (some (1 ∷ 4 ∷ [])) not_a_number null) key

record_of-commit_records_example :
    record_of parse store merge
    ≡ record { present = true; parents = both; gens = some (1 ∷ 4 ∷ []) }
unfolding encode string_array natural_array py_loads value_from
record_of-commit_records_example =
    record_of-commit_records merge (codes "r3") both not_a_number null parse store
      (some (1 ∷ 4 ∷ [])) refl (refl, refl) refl refl
