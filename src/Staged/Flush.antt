-- ===== src/Staged/Flush.antt =====
-- packages/kvgit-ts/src/staged.ts: values to and from bytes, user-level merge functions, and the
-- loops of `commit` over the buffer.
use agex_ts.Prelude.{Str, str_Eq, Option, none, some, List, [], ◌∷◌, ltb, if◌then◌else◌}
use agex_ts.Prelude.Result.{Result, ok, err, ◌>>=◌}
use agex_ts.JsMap
use agex_ts.JsMap.{JsMap, JsSet}
use agex_ts.Store.{Bytes}
use agex_ts.Merge.{MergeChoice, FnResult, bytes, chose, threw}
use agex_ts.Versioned.{BytesMergeFn}

-- The encoder and the decoder of values; either may throw.
pub record Codec (Val : Type 0) : Type 0 where
  pub encode : Val → Result Str Bytes
  pub decode : Bytes → Result Str Val

-- What a user-level merge function does.
pub data UserResult (Val : Type 0) : Type 0 where
  value : Val → UserResult Val
  picks : MergeChoice → UserResult Val
  throws : Str → UserResult Val

abbrev pub MergeFn : Type 0 → Type 0
MergeFn Val = Option Val → Option Val → Option Val → UserResult Val

-- decoding what may be absent
abbrev pub decode_opt : {Val : Type 0} → Codec Val → Option Bytes → Result Str (Option Val)
decode_opt codec none = ok none
decode_opt codec (some raw) = do v ← codec.decode raw; ok (some v)

module _ {Val : Type 0} where
  abbrev pub match_update : Str → Option Val → JsMap Str Val → JsMap Str Val
  match_update k none out = out
  match_update k (some v) out = JsMap.set out k v

  -- the loop over the filter's keys that are staged as updates
  unfoldable pub matched_updates : JsMap Str Val → List Str → JsMap Str Val → JsMap Str Val
  matched_updates updates [] out = out
  matched_updates updates (k ∷ ks) out =
      matched_updates updates ks (match_update k (JsMap.get updates k) out)

unfoldable pub matched_removals : JsSet Str → List Str → JsSet Str → JsSet Str
matched_removals removals [] out = out
matched_removals removals (k ∷ ks) out =
    matched_removals removals ks (if JsMap.has removals k then JsMap.add out k else out)

-- `x.size > 0 ? x : null`
abbrev pub non_empty : {A : Type 0} → JsMap Str A → Option (JsMap Str A)
non_empty m = if ltb 0 (JsMap.size m) then some m else none

module _ {Val : Type 0} (codec : Codec Val) where
  -- `wrapMergeFn`: decode the sides, call the function, encode a value it returns
  abbrev pub encoded : UserResult Val → FnResult
  encoded (picks c) = chose c
  encoded (throws e) = threw e
  encoded (value v) = elim (codec.encode v) [ ok b ↦ bytes b | err e ↦ threw e ]

  abbrev pub thrown : Result Str FnResult → FnResult
  thrown (ok r) = r
  thrown (err e) = threw e

  unfoldable pub wrap_merge_fn : MergeFn Val → BytesMergeFn
  wrap_merge_fn fn old_b ours_b theirs_b = thrown (do
    old ← decode_opt codec old_b
    ours ← decode_opt codec ours_b
    theirs ← decode_opt codec theirs_b
    ok (encoded (fn old ours theirs)))

  unfoldable pub wrap_all :
      JsMap Str (MergeFn Val) → JsMap Str BytesMergeFn → JsMap Str BytesMergeFn
  wrap_all [] out = out
  wrap_all ((k, fn) ∷ fns) out = wrap_all fns (JsMap.set out k (wrap_merge_fn fn))

  abbrev pub wrap_default : Option (MergeFn Val) → Option BytesMergeFn
  wrap_default none = none
  wrap_default (some fn) = some (wrap_merge_fn fn)

  unfoldable pub encode_all : JsMap Str Val → JsMap Str Bytes → Result Str (JsMap Str Bytes)
  encode_all [] out = ok out
  encode_all ((k, v) ∷ m) out = do b ← codec.encode v; encode_all m (JsMap.set out k b)
