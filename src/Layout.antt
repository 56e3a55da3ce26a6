-- ===== src/Layout.antt =====
-- packages/kvgit-ts/src/versioned/layout.ts: the keys of a commit's records, and how records are
-- written and read. `JSON.parse` on decoded bytes is a parameter; none is a text that does not parse.
use agex_ts.Prelude.{
  ℕ, suc, number, ◌+◌, Str, str_Eq, codes, true, false, or_else, Option, none, some, List, [], ◌∷◌,
  ◌++◌, leb, length, if◌then◌else◌, nat_eq,
}
use agex_ts.JsMap
use agex_ts.JsMap.{JsMap}
use agex_ts.Store.{Bytes}
use agex_ts.Json.{
  Json, null, boolean, natural, negative, other_number, bigint, float, string, array, object, Jsons,
  nil, cons, Float, not_a_number, infinity, zero_float, finite, pos, negsuc,
}
use agex_ts.PyJson.Write.{encode, pad_end, replicate}

abbrev pub parent_commit : Str → Str
parent_commit commit = codes "__parent_commit__" ++ commit

abbrev pub parent_gens : Str → Str
parent_gens commit = codes "__parent_gens__" ++ commit

abbrev pub branch_head : Str → Str
branch_head branch = codes "__branch_head__" ++ branch

abbrev pub commit_root : Str → Str
commit_root commit = codes "__commit_root__" ++ commit

abbrev pub commit_time : Str → Str
commit_time commit = codes "__commit_time__" ++ commit

abbrev pub info_key : Str → Str
info_key commit = codes "__info__" ++ commit

-- `Math.max` over one number and more
unfoldable pub highest : ℕ → List ℕ → ℕ
highest g [] = g
highest g (h ∷ gens) = highest (if leb g h then h else g) gens

-- A commit's generation is one more than its highest parent's, and 0 for a commit with none.
unfoldable pub generation_of : List ℕ → ℕ
unfolding highest
generation_of [] = 0
generation_of (g ∷ gens) = 1 + highest g gens

-- the strings of an array
unfoldable pub strings : Jsons → List Str
strings nil = []
strings (cons (string s) rest) = s ∷ strings rest
strings (cons null rest) = strings rest
strings (cons (boolean b) rest) = strings rest
strings (cons (natural n) rest) = strings rest
strings (cons (negative n) rest) = strings rest
strings (cons (other_number x) rest) = strings rest
strings (cons (bigint z) rest) = strings rest
strings (cons (float x) rest) = strings rest
strings (cons (array a) rest) = strings rest
strings (cons (object o) rest) = strings rest

-- A record of parents: one string, or the strings of an array.
abbrev pub parent_list : Json → List Str
parent_list (string s) = s ∷ []
parent_list (array a) = strings a
parent_list null = []
parent_list (boolean b) = []
parent_list (natural n) = []
parent_list (negative n) = []
parent_list (other_number x) = []
parent_list (bigint z) = []
parent_list (float x) = []
parent_list (object o) = []

abbrev pub with_gen : ℕ → Option (List ℕ) → Option (List ℕ)
with_gen n none = none
with_gen n (some gens) = some (n ∷ gens)

-- a plain number that is no safe integer, as a generation; -0 passes as one
abbrev pub whole_number : Float → Option ℕ
whole_number (finite false digits (pos e)) =
    if leb (length digits) (suc e) then some (number (pad_end (suc e) digits)) else none
whole_number (finite true digits (pos e)) = none
whole_number (finite signed digits (negsuc n)) = none
whole_number not_a_number = none
whole_number (infinity signed) = none
whole_number (zero_float signed) = some 0

abbrev pub with_whole : Option ℕ → Option (List ℕ) → Option (List ℕ)
with_whole none gens = none
with_whole (some n) gens = with_gen n gens

-- `gens.every(...)`: non-negative integers and nothing else
unfoldable pub naturals : Jsons → Option (List ℕ)
unfolding replicate
naturals nil = some []
naturals (cons (natural n) rest) = with_gen n (naturals rest)
naturals (cons null rest) = none
naturals (cons (boolean b) rest) = none
naturals (cons (negative n) rest) = none
naturals (cons (other_number x) rest) = with_whole (whole_number x) (naturals rest)
naturals (cons (bigint z) rest) = none
naturals (cons (float x) rest) = none
naturals (cons (string s) rest) = none
naturals (cons (array a) rest) = none
naturals (cons (object o) rest) = none

abbrev pub of_length : ℕ → Option (List ℕ) → Option (List ℕ)
of_length n none = none
of_length n (some gens) = if nat_eq (length gens) n then some gens else none

-- A record of generations, valid for so many parents.
abbrev pub gen_list : ℕ → Json → Option (List ℕ)
gen_list n (array a) = of_length n (naturals a)
gen_list n null = none
gen_list n (boolean b) = none
gen_list n (natural m) = none
gen_list n (negative m) = none
gen_list n (other_number x) = none
gen_list n (bigint z) = none
gen_list n (float x) = none
gen_list n (string s) = none
gen_list n (object o) = none

abbrev string_of : Json → Option Str
string_of (string s) = some s
string_of (array a) = none
string_of null = none
string_of (boolean b) = none
string_of (natural n) = none
string_of (negative n) = none
string_of (other_number x) = none
string_of (bigint z) = none
string_of (float x) = none
string_of (object o) = none

module _ (parse : Bytes → Option Json) where
  abbrev pub safe_loads : Bytes → Json
  safe_loads raw = or_else (parse raw) null

  abbrev head_of : Option Bytes → Option Str
  head_of none = none
  head_of (some raw) = string_of (safe_loads raw)

  unfoldable pub read_branch_head : (Str → Option Bytes) → Str → Option Str
  read_branch_head store branch = head_of (store (branch_head branch))

-- A record's bytes: the text of `pyDumps` is ASCII.
abbrev pub dumps : Json → Bytes
dumps value = encode false value

unfoldable pub string_array : List Str → Jsons
string_array [] = nil
string_array (s ∷ rest) = cons (string s) (string_array rest)

unfoldable pub natural_array : List ℕ → Jsons
natural_array [] = nil
natural_array (n ∷ rest) = cons (natural n) (natural_array rest)

abbrev pub gens_record : Str → Option (List ℕ) → JsMap Str Bytes → JsMap Str Bytes
gens_record commit none out = out
gens_record commit (some gens) out =
    JsMap.set out (parent_gens commit) (dumps (array (natural_array gens)))

abbrev pub info_record : Str → Json → JsMap Str Bytes → JsMap Str Bytes
info_record commit null out = out
info_record commit (boolean b) out = JsMap.set out (info_key commit) (dumps (boolean b))
info_record commit (natural n) out = JsMap.set out (info_key commit) (dumps (natural n))
info_record commit (negative n) out = JsMap.set out (info_key commit) (dumps (negative n))
info_record commit (other_number x) out = JsMap.set out (info_key commit) (dumps (other_number x))
info_record commit (bigint z) out = JsMap.set out (info_key commit) (dumps (bigint z))
info_record commit (float x) out = JsMap.set out (info_key commit) (dumps (float x))
info_record commit (string s) out = JsMap.set out (info_key commit) (dumps (string s))
info_record commit (array a) out = JsMap.set out (info_key commit) (dumps (array a))
info_record commit (object o) out = JsMap.set out (info_key commit) (dumps (object o))

-- `commitRecords`
unfoldable pub commit_records :
    Str → Str → List Str → Option (List ℕ) → Float → Json → JsMap Str Bytes
unfolding encode string_array natural_array JsMap.set
commit_records commit root parents gens created info =
    let first =
      JsMap.set (JsMap.set [] (commit_root commit) (dumps (string root))) (parent_commit commit)
        (dumps (array (string_array parents))) in
    info_record commit info
      (JsMap.set (gens_record commit gens first) (commit_time commit) (dumps (float created)))
