-- ===== src/Hamt/Batch/Groups.antt =====
-- The changes of a batch, grouped by nibble.
use agex_ts.Prelude.{
  ℕ, Str, str_Eq, str_eq_iff, ◌==◌, ◌≡◌, refl, sym, ◌∙◌, ap, false, Option, none, some, List, [],
  ◌∷◌, ◌++◌, arith, if◌then◌else◌, Bool-cases, inl, inr, or_else, All, is_empty,
}
use mathlib.Core.Option.{some-injective}
use agex_ts.JsMap
use agex_ts.JsMap.{JsMap}
use agex_ts.JsMap.Laws.{IsUnique, get-set, set-IsUnique}
use agex_ts.Hamt.Trie.{Format, Hamt, nibble}
use agex_ts.Hamt.Batch.{KeyChange, group_changes}
use agex_ts.Hamt.Batch.Leaves.{after}

pub after-append :
    (xs ys : List KeyChange) (j : Str) (o : Option Str)
    → after (xs ++ ys) j o ≡ after ys j (after xs j o)
after-append [] ys j o = refl
after-append (c ∷ xs) ys j o = after-append xs ys j (if c.key == j then c.value else o)

module _ (format : Format) (hamt : Hamt) (depth : ℕ) where
  -- the group of a nibble, empty if there is none
  abbrev pub group : JsMap Str (List KeyChange) → Str → List KeyChange
  group groups chunk = or_else (JsMap.get groups chunk) []

  abbrev grouped : JsMap Str (List KeyChange) → KeyChange → JsMap Str (List KeyChange)
  grouped groups c =
      let chunk = nibble (format.key_hash c.key) depth in
      JsMap.set groups chunk (group groups chunk ++ c ∷ [])

  after-grouped :
      (groups : JsMap Str (List KeyChange)) (c : KeyChange) (j : Str) (o : Option Str)
      → let chunk = nibble (format.key_hash j) depth in
        after (group (grouped groups c) chunk) j o
        ≡ after (c ∷ []) j (after (group groups chunk) j o)
  after-grouped groups c j o =
      let chunk = nibble (format.key_hash j) depth in
      let mine = nibble (format.key_hash c.key) depth in
      rw (get-set groups mine chunk (group groups mine ++ c ∷ []))
        (elim (Bool-cases (mine == chunk)) [
          | inl here ↦
              let same = (str_eq_iff mine chunk).0 here in
              rw (here, same) (after-append (group groups chunk) (c ∷ []) j o)
          | inr there ↦
              let apart : (c.key == j) ≡ false = elim (Bool-cases (c.key == j)) [
                | inl k ↦ absurd (
                    ground (
                      arith,
                      there,
                      str_eq_iff mine chunk,
                      ap (λ x. nibble (format.key_hash x) depth) ((str_eq_iff c.key j).0 k),
                    ))
                | inr k ↦ k
              ] in
              rw (there, apart) refl
        ])

  -- A key's changes are those of its nibble's group.
  pub after-group_changes :
      (changes : List KeyChange) (groups : JsMap Str (List KeyChange)) (j : Str) (o : Option Str)
      → let chunk = nibble (format.key_hash j) depth in
        after (group (group_changes format hamt depth changes groups) chunk) j o
        ≡ after changes j (after (group groups chunk) j o)
  unfolding group_changes
  after-group_changes [] groups j o = refl
  after-group_changes (c ∷ changes) groups j o =
      after-group_changes changes (grouped groups c) j o
      ∙ ap (after changes j) (after-grouped groups c j o)

  pub group_changes-IsUnique :
      (changes : List KeyChange) (groups : JsMap Str (List KeyChange))
      → IsUnique groups
      → IsUnique (group_changes format hamt depth changes groups)
  unfolding group_changes
  group_changes-IsUnique [] groups u = u
  group_changes-IsUnique (c ∷ changes) groups u =
      let chunk = nibble (format.key_hash c.key) depth in
      group_changes-IsUnique changes (grouped groups c)
        (set-IsUnique groups chunk (group groups chunk ++ c ∷ []) u)

  abbrev pub Good : (KeyChange → Type 0) → Str → List KeyChange → Type 0
  Good Q chunk g =
      (is_empty g ≡ false) × All (λ c. (nibble (format.key_hash c.key) depth ≡ chunk) × Q c) g

  -- Every group has a change in it, and its changes are of its nibble and have `Q`.
  abbrev pub AllGood : (KeyChange → Type 0) → JsMap Str (List KeyChange) → Type 0
  AllGood Q groups =
      (chunk : Str) (g : List KeyChange) → JsMap.get groups chunk ≡ some g → Good Q chunk g

  Good-append :
      (Q : KeyChange → Type 0) (chunk : Str) (xs : List KeyChange) (c : KeyChange)
      → All (λ c. (nibble (format.key_hash c.key) depth ≡ chunk) × Q c) xs
      → nibble (format.key_hash c.key) depth ≡ chunk
      → Q c
      → Good Q chunk (xs ++ c ∷ [])
  Good-append Q chunk [] c a e q = (refl, ((e, q), tt))
  Good-append Q chunk (x ∷ xs) c (h, a) e q = (refl, (h, (Good-append Q chunk xs c a e q).1))

  All-group :
      (Q : KeyChange → Type 0) (chunk : Str) (o : Option (List KeyChange))
      → ((g : List KeyChange) → o ≡ some g → Good Q chunk g)
      → All (λ c. (nibble (format.key_hash c.key) depth ≡ chunk) × Q c) (or_else o [])
  All-group Q chunk none h = tt
  All-group Q chunk (some g) h = (h g refl).1

  grouped-AllGood :
      (Q : KeyChange → Type 0) (groups : JsMap Str (List KeyChange)) (c : KeyChange)
      → AllGood Q groups
      → Q c
      → AllGood Q (grouped groups c)
  grouped-AllGood Q groups c a q chunk g e =
      let mine = nibble (format.key_hash c.key) depth in
      elim (Bool-cases (mine == chunk)) [
        | inl here ↦
            let all = All-group Q mine (JsMap.get groups mine) (a mine) in
            let good = Good-append Q mine (group groups mine) c all refl q in
            let is_g =
              some-injective _ _
                (rw (get-set groups mine chunk (group groups mine ++ c ∷ []), here) at e) in
            rw (sym ((str_eq_iff mine chunk).0 here), sym is_g) good
        | inr there ↦
            a chunk g (rw (get-set groups mine chunk (group groups mine ++ c ∷ []), there) at e)
      ]

  pub group_changes-AllGood :
      (Q : KeyChange → Type 0) (changes : List KeyChange) (groups : JsMap Str (List KeyChange))
      → AllGood Q groups
      → All Q changes
      → AllGood Q (group_changes format hamt depth changes groups)
  unfolding group_changes
  group_changes-AllGood Q [] groups a q = a
  group_changes-AllGood Q (c ∷ changes) groups a (h, q) =
      group_changes-AllGood Q changes (grouped groups c) (grouped-AllGood Q groups c a h) q
