-- ===== src/Hamt/Trie/Groups.antt =====
-- The entries of a leaf, grouped by nibble.
use agex_ts.Prelude.{
  ℕ, Str, str_Eq, str_eq_iff, ◌==◌, ◌≡◌, refl, subst, Option, some, [], ◌∷◌, if◌then◌else◌,
  Bool-cases, Option-cases, inl, inr, arith, All, or_else,
}
use mathlib.Core.Option.{some-injective}
use agex_ts.JsMap
use agex_ts.JsMap.{JsMap}
use agex_ts.JsMap.Laws.{IsUnique, get-set, set-IsUnique}
use agex_ts.JsMap.Batch.{first_some}
use agex_ts.Hamt.Trie.{Format, Hamt, nibble, group_items}

module _ {V : Type 0} (P : V → Type 0) where
  All-set :
      (m : JsMap Str V) (k : Str) (v : V)
      → All (λ e. P e.1) m
      → P v
      → All (λ e. P e.1) (JsMap.set m k v)
  unfolding JsMap.set
  All-set [] k v a p = (p, tt)
  All-set ((j, w) ∷ m) k v (b, a) p = elim (Bool-cases (j == k)) [
    | inl here ↦ rw here (p, a)
    | inr there ↦ rw there (b, All-set m k v a p)
  ]

  get-All : (m : JsMap Str V) (k : Str) (v : V) → All (λ e. P e.1) m → JsMap.get m k ≡ some v → P v
  unfolding JsMap.get
  get-All [] k v a e = cc
  get-All ((j, w) ∷ m) k v (b, a) e = elim (Bool-cases (j == k)) [
    | inl here ↦ subst P (some-injective w v (rw here at e)) b
    | inr there ↦ get-All m k v a (rw there at e)
  ]

abbrev pub Groups : Type 0
Groups = JsMap Str (JsMap Str Str)

abbrev pub AllUnique : Groups → Type 0
AllUnique groups = All (λ e. IsUnique e.1) groups

-- what the group of a nibble has at a key
abbrev pub in_group : Groups → Str → Str → Option Str
in_group groups chunk j = JsMap.get (or_else (JsMap.get groups chunk) []) j

module _ (format : Format) (hamt : Hamt) where
  group-IsUnique :
      (groups : Groups) (chunk : Str)
      → AllUnique groups
      → IsUnique (or_else (JsMap.get groups chunk) [])
  group-IsUnique groups chunk a = elim (Option-cases (JsMap.get groups chunk)) [
    | inl e ↦ rw e tt
    | inr (g, e) ↦ rw e (get-All IsUnique groups chunk g a e)
  ]

  pub group_items-IsUnique :
      (depth : ℕ) (items : JsMap Str Str) (groups : Groups)
      → IsUnique groups
      → AllUnique groups
      → IsUnique (group_items format hamt depth items groups)
        × AllUnique (group_items format hamt depth items groups)
  unfolding group_items
  group_items-IsUnique depth [] groups u a = (u, a)
  group_items-IsUnique depth ((k, v) ∷ items) groups u a =
      let chunk = nibble (format.key_hash k) depth in
      let group = JsMap.set (or_else (JsMap.get groups chunk) []) k v in
      group_items-IsUnique depth items (JsMap.set groups chunk group)
        (set-IsUnique groups chunk group u)
        (All-set IsUnique groups chunk group a
          (set-IsUnique (or_else (JsMap.get groups chunk) []) k v (group-IsUnique groups chunk a)))

  in_group-set :
      (depth : ℕ) (groups : Groups) (k v j : Str)
      → let chunk = nibble (format.key_hash k) depth in
        in_group
          (JsMap.set groups chunk (JsMap.set (or_else (JsMap.get groups chunk) []) k v))
          (nibble (format.key_hash j) depth)
          j
        ≡ (if k == j then some v else in_group groups (nibble (format.key_hash j) depth) j)
  in_group-set depth groups k v j =
      let chunk = nibble (format.key_hash k) depth in
      let c = nibble (format.key_hash j) depth in
      let old = or_else (JsMap.get groups chunk) [] in
      elim (Bool-cases (chunk == c)) [
        | inl same ↦
            rw
              (
                get-set groups chunk c (JsMap.set old k v),
                same,
                get-set old k j v,
                (str_eq_iff chunk c).0 same,
              )
              refl
        | inr apart ↦
            rw (get-set groups chunk c (JsMap.set old k v), apart)
              (ground (arith, str_eq_iff k j, str_eq_iff chunk c))
      ]

  -- The group of a key's nibble has what the entries have at it.
  pub in_group-group_items :
      (depth : ℕ) (items : JsMap Str Str) (groups : Groups) (j : Str)
      → IsUnique items
      → in_group (group_items format hamt depth items groups) (nibble (format.key_hash j) depth) j
        ≡ first_some (JsMap.get items j) (in_group groups (nibble (format.key_hash j) depth) j)
  unfolding group_items JsMap.get
  in_group-group_items depth [] groups j u = refl
  in_group-group_items depth ((k, v) ∷ items) groups j (fresh, u) =
      let chunk = nibble (format.key_hash k) depth in
      let next = JsMap.set groups chunk (JsMap.set (or_else (JsMap.get groups chunk) []) k v) in
      ground (
        arith,
        in_group-group_items depth items next j u,
        in_group-set depth groups k v j,
        str_eq_iff k j,
        fresh,
      )
