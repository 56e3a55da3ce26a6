-- ===== src/Versioned.antt =====
-- packages/kvgit-ts/src/types.ts, `Versioned`: the versioned store as `Staged` and the layers above
-- see it. A call that may throw gives a `Result` beside the state it leaves. Reads are pure: a read
-- that the backend rejects is not modelled.
use agex_ts.Prelude.{Str, str_Eq, ◌≡◌, Bool, Option, List, ◌==◌, any, is_some}
use agex_ts.Prelude.Result.{Result}
use agex_ts.JsMap.{JsMap, JsSet}
use agex_ts.Store.{Bytes}
use agex_ts.Merge.{FnResult}

pub data ConflictDisposition : Type 0 where
  raise abandon : ConflictDisposition

pub data Strategy : Type 0 where
  no_op fast_forward three_way apply : Strategy

pub record MergeResult : Type 0 where
  pub merged : Bool
  pub commit : Option Str
  pub strategy : Strategy
  pub auto_merged_keys : List Str
  pub carried_keys : List Str

abbrev pub BytesMergeFn : Type 0
BytesMergeFn = Option Bytes → Option Bytes → Option Bytes → FnResult

-- The options of `commit` that `Staged` passes; `info` is carried through unread, as its text.
pub record CommitOptions : Type 0 where
  pub updates : Option (JsMap Str Bytes)
  pub removals : Option (JsSet Str)
  pub on_conflict : Option ConflictDisposition
  pub merge_fns : Option (JsMap Str BytesMergeFn)
  pub default_merge : Option BytesMergeFn
  pub info : Option Str

pub record MergeHeadsOptions : Type 0 where
  pub on_conflict : Option ConflictDisposition
  pub merge_fns : Option (JsMap Str BytesMergeFn)
  pub default_merge : Option BytesMergeFn
  pub info : Option Str

-- An implementation over a state `V`. What the clients rely on: `has` and `keys` agree with `get`.
pub record Versioned (V : Type 0) : Type 0 where
  pub get : V → Str → Option Bytes
  pub has : V → Str → Bool
  pub keys : V → List Str
  pub peek : V → Str → Str → Result Str (Option Bytes)
  pub commit : V → CommitOptions → Result Str MergeResult × V
  pub merge_heads : V → Str → MergeHeadsOptions → Result Str MergeResult × V
  pub switch_branch : V → Str → Result Str (Unit {0}) × V
  pub reset_to : V → Str → Result Str Bool × V
  pub refresh : V → Result Str (Unit {0}) × V
  pub create_branch : V → Str → Option Str → Result Str V × V
  pub checkout : V → Str → Option Str → Result Str (Option V)
  pub has_lem : (v : V) (k : Str) → has v k ≡ is_some (get v k)
  pub keys_lem : (v : V) (k : Str) → any (λ j. j == k) (keys v) ≡ is_some (get v k)
