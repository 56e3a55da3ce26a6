-- ===== src/Examples/Sweeps.antt =====
-- A sweep that takes a lease, and a writer that had read none.
use agex_ts.Prelude.{
  value_from, ℕ, ◌+◌, ◌≢◌, refl, Str, str_Eq, str_eq, codes, false, Option, some, none, List, [],
  ◌∷◌, ltb, decimal, number, take_digits,
}
use agex_ts.Prelude.Result.{Result, ok, err}
use agex_ts.JsMap
use agex_ts.JsMap.{JsMap}
use agex_ts.Store.{Bytes}
use agex_ts.Store.Memory
use agex_ts.Store.Memory.{Memory, bytes_equal}
use agex_ts.Json.{
  Json, null, boolean, natural, negative, other_number, bigint, float, string, array, object, Float,
  not_a_number, infinity, zero_float, finite, pos,
}
use agex_ts.PyJson.Write.{encode}
use agex_ts.PyJson.Read.{LoadError, py_loads}
use agex_ts.Lease.{Clock, landed, HeldLease, claim, try_land, owner_in, lease_record}
use agex_ts.Lease.Runs.{Calls, no_call, elsewhere, claim_won, try_land-Calls}

-- whole seconds below 1000, as 605.0
abbrev number_of : Str → Float
number_of text = finite false (take_digits text).0 (pos 2)

abbrev loaded : Option (Result LoadError Json) → Option Json
loaded none = none
loaded (some (err e)) = none
loaded (some (ok v)) = some v

abbrev parse : Bytes → Option Json
parse raw = loaded (py_loads number_of raw)

abbrev seconds_of : Json → Option ℕ
seconds_of (natural n) = some n
seconds_of (float (finite signed digits exp)) = some (number digits)
seconds_of (float not_a_number) = none
seconds_of (float (infinity signed)) = none
seconds_of (float (zero_float signed)) = some 0
seconds_of null = none
seconds_of (boolean b) = none
seconds_of (negative n) = none
seconds_of (other_number x) = none
seconds_of (bigint z) = none
seconds_of (string s) = none
seconds_of (array a) = none
seconds_of (object o) = none

abbrev clock : Clock
clock = record {
  Seconds = ℕ;
  nothing = 0;
  exceeds = λ a b. ltb b a;
  plus = λ a b. a + b;
  to_float = λ n. finite false (decimal n) (pos 2);
  of_json = seconds_of;
}

abbrev store : Memory
store = record { entries = [] }

abbrev sweep : Str
sweep = codes "ts-1"

abbrev leased : Memory
leased = (claim parse clock store none 5 600 sweep).1

-- the sweep begins, and another handle writes
calls : Calls parse clock none store 1 (Memory.set leased (codes "k") (7 ∷ []))
unfolding Memory.get Memory.set JsMap.get JsMap.set str_eq lease_record encode owner_in claim
    py_loads decimal value_from
calls =
    elsewhere (Memory.set leased (codes "k") (7 ∷ []))
      (claim_won none 5 600 sweep _ no_call (λ v e. cc) refl refl refl) refl

try_land-Calls_example :
    ((expected : JsMap Str (Option Bytes)) (writes : JsMap Str Bytes) (removes : List Str)
      → (try_land (Memory.set leased (codes "k") (7 ∷ [])) none expected writes removes).0
        ≢ ok landed)
    × ((at ttl : ℕ) (owner : Str) (b : HeldLease parse clock)
        → (claim parse clock (Memory.set leased (codes "k") (7 ∷ [])) none at ttl owner).0 ≢ ok b)
try_land-Calls_example =
    try_land-Calls parse clock none store (Memory.set leased (codes "k") (7 ∷ [])) 0 calls
