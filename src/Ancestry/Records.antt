-- ===== src/Ancestry/Records.antt =====
-- The records that `commitRecords` writes are read back by `loadRecords`.
use agex_ts.Prelude.{
  ℕ, Str, str_Eq, str_eq_iff, str_eq, ◌==◌, ◌≡◌, refl, ◌∙◌, ap, true, false, Option, none, some,
  List, [], ◌∷◌, length, nat_eq_iff, ◌++◌,
}
use agex_ts.JsMap
use agex_ts.JsMap.{JsMap}
use agex_ts.JsMap.Laws.{get-set}
use agex_ts.Store.{Bytes}
use agex_ts.Json.{
  Json, null, boolean, natural, negative, other_number, bigint, float, string, array, object, Float,
}
use agex_ts.Layout.{
  parent_commit, parent_gens, commit_root, commit_time, info_key, dumps, string_array,
  natural_array, commit_records, strings, naturals, info_record, gens_record, with_gen,
}
use agex_ts.Ancestry.{record_of}

strings-string_array : (ss : List Str) → strings (string_array ss) ≡ ss
unfolding strings string_array
strings-string_array [] = refl
strings-string_array (s ∷ ss) = ap (λ r. s ∷ r) (strings-string_array ss)

naturals-natural_array : (ns : List ℕ) → naturals (natural_array ns) ≡ some ns
unfolding naturals natural_array
naturals-natural_array [] = refl
naturals-natural_array (n ∷ ns) = ap (with_gen n) (naturals-natural_array ns)

same_prefix : (p s : Str) → str_eq (p ++ s) (p ++ s) ≡ true
same_prefix p s = (str_eq_iff (p ++ s) (p ++ s)).1 refl

-- the info's record is under a key of its own
get-info_record :
    (commit : Str) (info : Json) (out : JsMap Str Bytes) (key : Str)
    → (info_key commit == key) ≡ false
    → JsMap.get (info_record commit info out) key ≡ JsMap.get out key
get-info_record commit null out key h = refl
get-info_record commit (boolean b) out key h =
    rw (get-set out (info_key commit) key (dumps (boolean b)), h) refl
get-info_record commit (natural n) out key h =
    rw (get-set out (info_key commit) key (dumps (natural n)), h) refl
get-info_record commit (negative n) out key h =
    rw (get-set out (info_key commit) key (dumps (negative n)), h) refl
get-info_record commit (other_number x) out key h =
    rw (get-set out (info_key commit) key (dumps (other_number x)), h) refl
get-info_record commit (bigint z) out key h =
    rw (get-set out (info_key commit) key (dumps (bigint z)), h) refl
get-info_record commit (float x) out key h =
    rw (get-set out (info_key commit) key (dumps (float x)), h) refl
get-info_record commit (string s) out key h =
    rw (get-set out (info_key commit) key (dumps (string s)), h) refl
get-info_record commit (array a) out key h =
    rw (get-set out (info_key commit) key (dumps (array a)), h) refl
get-info_record commit (object o) out key h =
    rw (get-set out (info_key commit) key (dumps (object o)), h) refl

module _ (commit root : Str) (parents : List Str) (created : Float) (info : Json) where
  abbrev written : Option (List ℕ) → JsMap Str Bytes
  written gens =
      JsMap.set
        (gens_record commit gens (
          JsMap.set (JsMap.set [] (commit_root commit) (dumps (string root))) (parent_commit commit)
            (dumps (array (string_array parents)))))
        (commit_time commit) (dumps (float created))

  get-parents :
      (gens : Option (List ℕ))
      → JsMap.get (commit_records commit root parents gens created info) (parent_commit commit)
        ≡ some (dumps (array (string_array parents)))
  unfolding commit_records str_eq JsMap.get JsMap.set
  get-parents none =
      get-info_record commit info (written none) (parent_commit commit) refl
      ∙ rw ((str_eq_iff commit commit).1 refl) refl
  get-parents (some gens) =
      get-info_record commit info (written (some gens)) (parent_commit commit) refl
      ∙ rw ((str_eq_iff commit commit).1 refl) refl

  abbrev gens_bytes : Option (List ℕ) → Option Bytes
  gens_bytes none = none
  gens_bytes (some gens) = some (dumps (array (natural_array gens)))

  get-gens :
      (gens : Option (List ℕ))
      → JsMap.get (commit_records commit root parents gens created info) (parent_gens commit)
        ≡ gens_bytes gens
  unfolding commit_records str_eq JsMap.get JsMap.set
  get-gens none = get-info_record commit info (written none) (parent_gens commit) refl
  get-gens (some gens) =
      get-info_record commit info (written (some gens)) (parent_gens commit) refl
      ∙ rw ((str_eq_iff commit commit).1 refl) refl

  -- one generation for each parent
  abbrev pub Graded : Option (List ℕ) → Type 0
  Graded none = Unit
  Graded (some gens) = length gens ≡ length parents

  abbrev pub ReadsGens : (Bytes → Option Json) → Option (List ℕ) → Type 0
  ReadsGens parse none = Unit
  ReadsGens parse (some gens) =
      parse (dumps (array (natural_array gens))) ≡ some (array (natural_array gens))

  -- What `commitRecords` writes of a commit is read back by `loadRecords` from a store that holds it: the
  -- commit is there, with its parents and their generations, where there is one for each parent and
  -- `JSON.parse` reads back the two arrays from what `pyDumps` writes.
  pub record_of-commit_records :
      (parse : Bytes → Option Json) (store : Str → Option Bytes) (gens : Option (List ℕ))
      → Graded gens
      → (let out = commit_records commit root parents gens created info in
          (store (parent_commit commit) ≡ JsMap.get out (parent_commit commit))
          × (store (parent_gens commit) ≡ JsMap.get out (parent_gens commit)))
      → parse (dumps (array (string_array parents))) ≡ some (array (string_array parents))
      → ReadsGens parse gens
      → record_of parse store commit ≡ record { present = true; parents = parents; gens = gens }
  unfolding record_of
  record_of-commit_records parse store none g (held, held_gens) read read_gens =
      rw (held, get-parents none, held_gens, get-gens none, read, strings-string_array parents) refl
  record_of-commit_records parse store (some gens) g (held, held_gens) read read_gens =
      rw
        (
          held,
          get-parents (some gens),
          held_gens,
          get-gens (some gens),
          read,
          read_gens,
          strings-string_array parents,
          naturals-natural_array gens,
          (nat_eq_iff (length gens) (length parents)).1 g,
        )
        refl
