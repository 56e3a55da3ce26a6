-- ===== src/PyJson/Values/Entries.antt =====
-- An object's entries, set one after another.
use agex_ts.Prelude.{
  Str, str_Eq, str_eq_iff, ◌==◌, ◌≡◌, refl, sym, ap, ◌∙◌, Bool, true, false, not, ◌&&◌, ◌||◌,
  Bool-cases, inl, inr, arith,
}
use agex_ts.Json.{Json, Fields, end, field, Float}
use agex_ts.PyJson.Read.{set_field, key_before}
use agex_ts.PyJson.Values.{IsValue, AreEntries, has_key, none_before, then_fields, put_all}

-- this key belongs before none of the entries
abbrev goes_last : Fields → Str → Bool
goes_last end key = true
goes_last (field k v rest) key = not (key_before key k) && goes_last rest key

none_before-at :
    (fs : Fields) (key j : Str)
    → none_before fs key ≡ true
    → has_key fs j ≡ true
    → key_before j key ≡ false
none_before-at end key j n h = cc
none_before-at (field k v rest) key j n h = elim (Bool-cases (k == j)) [
  | inl same ↦ ap (λ x. key_before x key) (sym ((str_eq_iff k j).0 same)) ∙ ground (arith, n)
  | inr other ↦ none_before-at rest key j (ground (arith, n)) (ground (arith, h, other))
]

goes_last-then_fields :
    (out : Fields) (key : Str) (v : Json) (j : Str)
    → goes_last (then_fields out (field key v end)) j ≡ (goes_last out j && not (key_before j key))
unfolding then_fields
goes_last-then_fields end key v j = ground arith
goes_last-then_fields (field k w rest) key v j = ground (arith, goes_last-then_fields rest key v j)

set_field-new :
    (out : Fields) (key : Str) (v : Json)
    → has_key out key ≡ false
    → goes_last out key ≡ true
    → set_field out key v ≡ then_fields out (field key v end)
unfolding set_field then_fields
set_field-new end key v h l = refl
set_field-new (field k w rest) key v h l = elim (Bool-cases (k == key)) [
  | inl same ↦ absurd (ground (arith, h, same))
  | inr other ↦
      let behind : key_before key k ≡ false = ground (arith, l) in
      rw (other, behind)
        (ap (field k w) (set_field-new rest key v (ground (arith, h, other)) (ground (arith, l))))
]

then_fields_assoc :
    (out : Fields) (key : Str) (v : Json) (fs : Fields)
    → then_fields (then_fields out (field key v end)) fs ≡ then_fields out (field key v fs)
unfolding then_fields
then_fields_assoc end key v fs = refl
then_fields_assoc (field k w rest) key v fs = ap (field k w) (then_fields_assoc rest key v fs)

has_key-then_fields :
    (out : Fields) (key : Str) (v : Json) (j : Str)
    → has_key (then_fields out (field key v end)) j ≡ (has_key out j || key == j)
unfolding then_fields
has_key-then_fields end key v j = ground arith
has_key-then_fields (field k w rest) key v j = ground (arith, has_key-then_fields rest key v j)

module _ (number_of : Str → Float) where
  -- Entries with new and distinct keys, in order, are put behind those that they follow.
  pub put_all-new :
      (out fs : Fields)
      → AreEntries number_of fs
      → ((j : Str) → has_key fs j ≡ true → (has_key out j ≡ false) × (goes_last out j ≡ true))
      → put_all out fs ≡ then_fields out fs
  unfolding put_all IsValue then_fields
  put_all-new out end p apart = nothing_behind out
    where
      nothing_behind : (out : Fields) → out ≡ then_fields out end
      nothing_behind end = refl
      nothing_behind (field k w rest) = ap (field k w) (nothing_behind rest)
  put_all-new out (field key v rest) (u, once, ordered, p, ps) apart =
      let out' = then_fields out (field key v end) in
      let behind : (j : Str)
          → has_key rest j ≡ true
          → (has_key out' j ≡ false) × (goes_last out' j ≡ true) =
        λ j h. elim (Bool-cases (key == j)) [
          | inl same ↦
              absurd (ground (arith, h, once, ap (has_key rest) ((str_eq_iff key j).0 same)))
          | inr other ↦
              let (fresh, last) = apart j (ground (arith, h)) in
              (
                ground (arith, has_key-then_fields out key v j, fresh, other),
                ground (
                  arith,
                  goes_last-then_fields out key v j,
                  last,
                  none_before-at rest key j ordered h,
                ),
              )
        ] in
      let here = apart key (ground (arith, str_eq_iff key key)) in
      ap (λ o. put_all o rest) (set_field-new out key v here.0 here.1)
      ∙ put_all-new out' rest ps behind
      ∙ then_fields_assoc out key v rest
