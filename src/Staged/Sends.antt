-- ===== src/Staged/Sends.antt =====
-- What the loops of `commit` over the buffer and over the merge functions make, at every key.
use agex_ts.Prelude.{
  Str, str_Eq, str_eq_iff, ◌≡◌, refl, sym, ap, ◌∙◌, Option, none, some, List, [], ◌∷◌, arith, ◌==◌,
  Bool-cases, inl, inr, or_else,
}
use mathlib.Core.Option.{map}
use agex_ts.Prelude.Result.{Result, ok, err, Result-cases}
use agex_ts.JsMap
use agex_ts.JsMap.{JsMap}
use agex_ts.JsMap.Laws.{IsUnique, get-set, set-IsUnique}
use agex_ts.JsMap.Batch.{first_some, get-set_all, set_all-IsUnique}
use agex_ts.Store.{Bytes}
use agex_ts.Versioned.{BytesMergeFn}
use agex_ts.Staged.{
  Staged, effective_fns, Codec, MergeFn, encode_all, wrap_all, wrap_default, wrap_merge_fn,
  matched_updates, match_update, non_empty,
}

pub or_else-non_empty : {A : Type 0} → (m : JsMap Str A) → or_else (non_empty m) [] ≡ m
or_else-non_empty [] = refl
or_else-non_empty (e ∷ m) = ground arith

module _ {Val : Type 0} where
  pub matched_updates-IsUnique :
      (updates : JsMap Str Val) (ks : List Str) (out : JsMap Str Val)
      → IsUnique out
      → IsUnique (matched_updates updates ks out)
  unfolding matched_updates
  matched_updates-IsUnique updates [] out u = u
  matched_updates-IsUnique updates (k ∷ ks) out u =
      matched_updates-IsUnique updates ks (match_update k (JsMap.get updates k) out)
        (match_update-IsUnique (JsMap.get updates k))
    where
      match_update-IsUnique : (o : Option Val) → IsUnique (match_update k o out)
      match_update-IsUnique none = u
      match_update-IsUnique (some v) = set-IsUnique out k v u

ok_injective :
    {a b : JsMap Str Bytes} → ◌≡◌ {A = Result Str (JsMap Str Bytes)} (ok a) (ok b) → a ≡ b
ok_injective e = cc

err_injective : {x y : Str} → ◌≡◌ {A = Result Str (JsMap Str Bytes)} (err x) (err y) → x ≡ y
err_injective e = cc

module _ {Val : Type 0} (codec : Codec Val) where
  -- The bytes of a value that may be absent, over the bytes that were there.
  abbrev pub EncodesOver : Option Val → Option Bytes → Option Bytes → Type 0
  EncodesOver none before after = after ≡ before
  EncodesOver (some v) before after = (b : Bytes) × (codec.encode v ≡ ok b) × (after ≡ some b)

  pub get-encode_all :
      (m : JsMap Str Val) (out r : JsMap Str Bytes) (j : Str)
      → IsUnique m
      → encode_all codec m out ≡ ok r
      → EncodesOver (JsMap.get m j) (JsMap.get out j) (JsMap.get r j)
  unfolding encode_all JsMap.get
  get-encode_all [] out r j u h = ap (λ x. JsMap.get x j) (sym (ok_injective h))
  get-encode_all ((k, v) ∷ m) out r j (fresh, u) h = elim (Result-cases (codec.encode v)) [
    | inr (x, throws) ↦ absurd (ground (arith, rw throws at h))
    | inl (b, encodes) ↦
        let later = get-encode_all m (JsMap.set out k b) r j u (rw encodes at h) in
        elim (Bool-cases (k == j)) [
          | inl here ↦
              let gone = ap (JsMap.get m) (sym ((str_eq_iff k j).0 here)) ∙ fresh in
              rw here (b, encodes, rw (gone, get-set out k j b, here) at later)
          | inr there ↦ rw there (rw (get-set out k j b, there) at later)
        ]
  ]

  -- Where encoding throws, a value's own encoding does.
  pub encode_all-err :
      (m : JsMap Str Val) (out : JsMap Str Bytes) (e : Str)
      → IsUnique m
      → encode_all codec m out ≡ err e
      → (k : Str) × (v : Val) × (JsMap.get m k ≡ some v) × (codec.encode v ≡ err e)
  unfolding encode_all JsMap.get
  encode_all-err [] out e u h = cc
  encode_all-err ((k, v) ∷ m) out e (fresh, u) h = elim (Result-cases (codec.encode v)) [
    | inr (x, throws) ↦
        let same : x ≡ e = err_injective (rw throws at h) in
        (k, v, ground (arith, str_eq_iff k k), throws ∙ ap err same)
    | inl (b, encodes) ↦
        let (j, w, found, throws) = encode_all-err m (JsMap.set out k b) e u (rw encodes at h) in
        elim (Bool-cases (k == j)) [
          | inl here ↦
              absurd
                (ground (arith, ap (JsMap.get m) (sym ((str_eq_iff k j).0 here)) ∙ fresh, found))
          | inr there ↦ (j, w, rw there found, throws)
        ]
  ]

  pub get-wrap_all :
      (fns : JsMap Str (MergeFn Val)) (out : JsMap Str BytesMergeFn) (j : Str)
      → IsUnique fns
      → JsMap.get (wrap_all codec fns out) j
        ≡ first_some (map (wrap_merge_fn codec) (JsMap.get fns j)) (JsMap.get out j)
  unfolding wrap_all JsMap.get
  get-wrap_all [] out j u = refl
  get-wrap_all ((k, fn) ∷ fns) out j (fresh, u) = ground (
    arith,
    get-wrap_all fns (JsMap.set out k (wrap_merge_fn codec fn)) j u,
    get-set out k j (wrap_merge_fn codec fn),
    str_eq_iff k j,
  )

  pub wrap_default_lem :
      (o : Option (MergeFn Val)) → wrap_default codec o ≡ map (wrap_merge_fn codec) o
  wrap_default_lem none = refl
  wrap_default_lem (some fn) = refl

first_some-none : {A : Type 0} → (o : Option A) → first_some o none ≡ o
first_some-none none = refl
first_some-none (some a) = refl

module _ {V Val : Type 0} where
  -- every name of a merge function once
  pub record FnsUnique (s : Staged V Val) (fns : Option (JsMap Str (MergeFn Val))) : Type 0 where
    pub registered : IsUnique s.user_merge_fns
    pub given : IsUnique (or_else fns [])

module _ {V Val : Type 0} (codec : Codec Val) where
  -- The merge functions that are sent: the call's own, else the registered ones, wrapped.
  pub record SendsFns (s : Staged V Val) (fns : Option (JsMap Str (MergeFn Val)))
      (default : Option (MergeFn Val)) (sent : Option (JsMap Str BytesMergeFn))
      (sent_default : Option BytesMergeFn) : Type 0 where
    pub merge_fns :
        (j : Str)
        → JsMap.get (or_else sent []) j
          ≡ map
              (wrap_merge_fn codec)
              (first_some (JsMap.get (or_else fns []) j) (JsMap.get s.user_merge_fns j))
    pub default_merge :
        sent_default ≡ map (wrap_merge_fn codec) (first_some default s.user_default_merge)

  effective_fns_lem :
      (s : Staged V Val) (fns : Option (JsMap Str (MergeFn Val))) (j : Str)
      → FnsUnique s fns
      → (IsUnique (effective_fns s fns))
        × (JsMap.get (effective_fns s fns) j
            ≡ first_some (JsMap.get (or_else fns []) j) (JsMap.get s.user_merge_fns j))
  unfolding JsMap.get
  effective_fns_lem s none j u = (u.registered, refl)
  effective_fns_lem s (some fns) j u = (
    set_all-IsUnique s.user_merge_fns fns u.registered,
    get-set_all s.user_merge_fns fns j u.given,
  )

  pub fns-SendsFns :
      (s : Staged V Val) (fns : Option (JsMap Str (MergeFn Val))) (default : Option (MergeFn Val))
      → FnsUnique s fns
      → SendsFns s fns default
          (non_empty (wrap_all codec (effective_fns s fns) []))
          (wrap_default codec (first_some default s.user_default_merge))
  unfolding JsMap.get
  fns-SendsFns s fns default u = record {
    merge_fns = λ j.
        let (once, at_key) = effective_fns_lem s fns j u in
        let all = effective_fns s fns in
        ap (λ m. JsMap.get m j) (or_else-non_empty (wrap_all codec all []))
        ∙ get-wrap_all codec all [] j once
        ∙ first_some-none (map (wrap_merge_fn codec) (JsMap.get all j))
        ∙ ap (map (wrap_merge_fn codec)) at_key;
    default_merge = wrap_default_lem codec (first_some default s.user_default_merge);
  }
