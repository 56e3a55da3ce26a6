-- ===== src/Lease.antt =====
-- packages/kvgit-ts/src/versioned/lease.ts: the lease that keeps a sweep and the writers apart. A
-- number of seconds is of a type that is given, with its order, its sum, and how JSON holds it; the
-- clock's time and a new owner's name are arguments. `JSON.parse` is a parameter, as in Layout. A text
-- that `pyDumps` writes is ASCII, so that its bytes are its code units.
pub mod Runs
use agex_ts.Prelude.{
  ℕ, Str, str_Eq, ◌==◌, codes, Bool, true, false, Option, none, some, List, [], ◌∷◌, if◌then◌else◌,
}
use agex_ts.Prelude.Result.{Result, ok, err}
use agex_ts.JsMap
use agex_ts.JsMap.{JsMap}
use agex_ts.Store.{Bytes, BatchError}
use agex_ts.Store.Memory
use agex_ts.Store.Memory.{Memory, bytes_equal}
use agex_ts.Json.{
  Json, null, boolean, natural, negative, other_number, bigint, float, string, array, object,
  Fields, end, field, Float,
}
use agex_ts.PyJson.Write.{encode}
use agex_ts.Layout.{safe_loads}

abbrev pub gc_lease_key : Str
gc_lease_key = codes "__gc_lease__"

-- Seconds, as JavaScript's numbers.
pub record Clock : Type 1 where
  pub Seconds : Type 0
  pub nothing : Seconds
  pub exceeds : Seconds → Seconds → Bool
  pub plus : Seconds → Seconds → Seconds
  pub to_float : Seconds → Float
  pub of_json : Json → Option Seconds

-- `tryLand`: true, false and null
pub data Landing : Type 0 where
  landed refused moved : Landing

-- the two errors that a sweep meets
pub data GcBusy : Type 0 where
  held : Option Json → GcBusy
  lost : GcBusy

unfoldable pub field_of : Fields → Str → Option Json
field_of end key = none
field_of (field k v rest) key = let later = field_of rest key in if k == key then some v else later

unfoldable pub lease_record : Str → Json → Bytes
unfolding encode
lease_record owner expires =
    encode false
      (object (field (codes "owner") (string owner) (field (codes "expires") expires end)))

abbrev pub try_answer :
    Result BatchError Bool × Memory → Option Bytes → Result BatchError Landing × Memory
try_answer (err e, s) lease = (err e, s)
try_answer (ok true, s) lease = (ok landed, s)
try_answer (ok false, s) lease =
    (ok (if bytes_equal (Memory.get s gc_lease_key) lease then refused else moved), s)

-- The look at the lease after a batch that did not land comes at once.
unfoldable pub try_land :
    Memory
    → Option Bytes
    → JsMap Str (Option Bytes)
    → JsMap Str Bytes
    → List Str
    → Result BatchError Landing × Memory
unfolding Memory.cas_many Memory.get bytes_equal JsMap.set
try_land s lease expected writes removes =
    try_answer (Memory.cas_many s (JsMap.set expected gc_lease_key lease) writes removes) lease

abbrev string_or : Option Json → Str → Str
string_or (some (string s)) t = s
string_or (some null) t = t
string_or (some (boolean b)) t = t
string_or (some (natural n)) t = t
string_or (some (negative n)) t = t
string_or (some (other_number x)) t = t
string_or (some (bigint z)) t = t
string_or (some (float x)) t = t
string_or (some (array a)) t = t
string_or (some (object o)) t = t
string_or none t = t

abbrev member_of : Json → Str → Option Json
member_of (object fs) key = field_of fs key
member_of null key = none
member_of (boolean b) key = none
member_of (natural n) key = none
member_of (negative n) key = none
member_of (other_number x) key = none
member_of (bigint z) key = none
member_of (float x) key = none
member_of (string s) key = none
member_of (array a) key = none

module _ (parse : Bytes → Option Json) where
  unfoldable pub owner_in : Bytes → Str
  unfolding field_of
  owner_in raw = string_or (member_of (safe_loads parse raw) (codes "owner")) []

  module _ (clock : Clock) where
    abbrev seconds_or : Option Json → clock.Seconds
    seconds_or none = clock.nothing
    seconds_or (some v) = elim (clock.of_json v) [ none ↦ clock.nothing | some n ↦ n ]

    unfoldable pub lease_expiry : Option Bytes → clock.Seconds
    unfolding field_of
    lease_expiry none = clock.nothing
    lease_expiry (some raw) = seconds_or (member_of (safe_loads parse raw) (codes "expires"))

    -- What each look finds, and the time then. With no look left it still waits.
    unfoldable pub wait_for_gc : List (Option Bytes × clock.Seconds) → Option (Option Bytes)
    unfolding lease_expiry
    wait_for_gc [] = none
    wait_for_gc ((none, now) ∷ looks) = some none
    wait_for_gc ((some raw, now) ∷ looks) =
        let later = wait_for_gc looks in
        if clock.exceeds (lease_expiry (some raw)) now then later else some (some raw)

    -- `inFlightMarker` and `markerLive`
    abbrev pub in_flight_marker : clock.Seconds → clock.Seconds → Bytes
    in_flight_marker now ttl = encode false (float (clock.to_float (clock.plus now ttl)))

    abbrev lasts : clock.Seconds → Option clock.Seconds → Bool
    lasts now none = false
    lasts now (some expires) = clock.exceeds expires now

    abbrev pub marker_live : Option Bytes → clock.Seconds → Bool
    marker_live none now = false
    marker_live (some raw) now = lasts now (clock.of_json (safe_loads parse raw))

    pub record HeldLease : Type 0 where
      pub bytes : Bytes
      pub expires : clock.Seconds

    abbrev holder : Option Bytes → Option Json
    holder none = none
    holder (some raw) = member_of (safe_loads parse raw) (codes "owner")

    abbrev claimed : HeldLease → Bool × Memory → Result GcBusy HeldLease × Memory
    claimed lease (true, s) = (ok lease, s)
    claimed lease (false, s) = (err lost, s)

    -- `acquireGcLease` from the record that it read: other calls may come between.
    unfoldable pub claim :
        Memory
        → Option Bytes
        → clock.Seconds
        → clock.Seconds
        → Str
        → Result GcBusy HeldLease × Memory
    unfolding lease_expiry lease_record Memory.cas
    claim s raw at ttl owner =
        let expires = clock.plus at ttl in
        let bytes = lease_record owner (float (clock.to_float expires)) in
        if clock.exceeds (lease_expiry raw) at
        then (err (held (holder raw)), s)
        else claimed (record { bytes = bytes; expires = expires })
            (Memory.cas s gc_lease_key bytes raw)

    unfoldable pub release_gc_lease : Memory → HeldLease → Memory
    unfolding lease_record Memory.cas owner_in
    release_gc_lease s lease =
        (Memory.cas s gc_lease_key (lease_record (owner_in lease.bytes) (natural 0))
          (some lease.bytes)).1
