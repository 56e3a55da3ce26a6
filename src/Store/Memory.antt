-- ===== src/Store/Memory.antt =====
-- packages/kvgit-ts/src/backends/memory.ts and _batch.ts: the in-process backend.
pub mod Batches
use agex_ts.Prelude.{
  Str, Bool, true, false, Option, none, some, List, [], ◌∷◌, map, str_eq, starts_with, is_some,
  str_Eq, if◌then◌else◌,
}
use agex_ts.Prelude.Result.{Result, ok, err, ◌>>=◌}
use agex_ts.JsMap
use agex_ts.JsMap.{JsMap, keys}
use agex_ts.JsMap.Batch.{set_all, delete_all}
use agex_ts.Store.{Bytes, BatchError, written_and_removed}

pub record Memory : Type 0 where
  pub entries : JsMap Str Bytes

-- `checkBatch`: the removals, unless one of them is also written
unfoldable pub check_batch : JsMap Str Bytes → List Str → Result BatchError (List Str)
check_batch writes [] = ok []
check_batch writes (key ∷ removes) =
    if JsMap.has writes key
    then err (written_and_removed key)
    else (do list ← check_batch writes removes; ok (key ∷ list))

-- `bytesEqual`; `str_eq` compares lists of numbers, which bytes are too
unfoldable pub bytes_equal : Option Bytes → Option Bytes → Bool
bytes_equal none none = true
bytes_equal none (some b) = false
bytes_equal (some a) none = false
bytes_equal (some a) (some b) = str_eq a b

unfoldable pub get : Memory → Str → Option Bytes
get s key = JsMap.get s.entries key

unfoldable pub set : Memory → Str → Bytes → Memory
set s key value = record { entries = JsMap.set s.entries key value }

unfoldable pub remove : Memory → Str → Memory
remove s key = record { entries = JsMap.delete s.entries key }

unfoldable pub has : Memory → Str → Bool
has s key = JsMap.has s.entries key

-- the body of the loop in `getMany`
abbrev found : Str → Option Bytes → JsMap Str Bytes → JsMap Str Bytes
found k none out = out
found k (some v) out = JsMap.set out k v

get_many_from : Memory → List Str → JsMap Str Bytes → JsMap Str Bytes
get_many_from s [] out = out
get_many_from s (k ∷ ks) out = get_many_from s ks (found k (JsMap.get s.entries k) out)

unfoldable pub get_many : Memory → List Str → JsMap Str Bytes
unfolding get_many_from
get_many s ks = get_many_from s ks []

unfoldable pub set_many : Memory → List (Str × Bytes) → Memory
set_many s items = record { entries = set_all s.entries items }

unfoldable pub remove_many : Memory → List Str → Memory
remove_many s ks = record { entries = delete_all s.entries ks }

unfoldable pub cas : Memory → Str → Bytes → Option Bytes → Bool × Memory
unfolding bytes_equal
cas s key value expected =
    if bytes_equal (JsMap.get s.entries key) expected
    then (true, record { entries = JsMap.set s.entries key value })
    else (false, s)

-- the first loop of `casMany`
expected_hold : Memory → JsMap Str (Option Bytes) → Bool
expected_hold s [] = true
expected_hold s ((key, value) ∷ expected) =
    if bytes_equal (JsMap.get s.entries key) value then expected_hold s expected else false

-- `casMany` once the batch is checked
abbrev land :
    Memory
    → JsMap Str (Option Bytes)
    → JsMap Str Bytes
    → Result BatchError (List Str)
    → Result BatchError Bool × Memory
land s expected writes (err x) = (err x, s)
land s expected writes (ok remove_list) =
    if expected_hold s expected
    then (ok true, record { entries = delete_all (set_all s.entries writes) remove_list })
    else (ok false, s)

unfoldable pub cas_many :
    Memory → JsMap Str (Option Bytes) → JsMap Str Bytes → List Str → Result BatchError Bool × Memory
unfolding check_batch expected_hold bytes_equal
cas_many s expected writes removes = land s expected writes (check_batch writes removes)

keys_from : Str → List Str → List Str
keys_from p [] = []
keys_from p (k ∷ ks) = let rest = keys_from p ks in if starts_with k p then k ∷ rest else rest

-- `keys(prefix?)`
unfoldable pub all_keys : Memory → Option Str → List Str
unfolding keys_from
all_keys s none = keys s.entries
all_keys s (some p) = keys_from p (keys s.entries)

items_from : Option Str → JsMap Str Bytes → List (Str × Bytes)
items_from none l = l
items_from (some p) [] = []
items_from (some p) ((k, v) ∷ l) =
    let rest = items_from (some p) l in if starts_with k p then (k, v) ∷ rest else rest

unfoldable pub items : Memory → Option Str → List (Str × Bytes)
unfolding items_from
items s p = items_from p s.entries

unfoldable pub clear : Memory → Memory
clear s = record { entries = [] }
