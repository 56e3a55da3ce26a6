-- ===== src/Hamt/Insert/Branches.antt =====
-- Inserting a key under a branch: a new child, or the new root of the child that is there.
use agex_ts.Prelude.{
  ℕ, suc, ◌+◌, Str, str_Eq, str_eq_iff, ◌==◌, ◌≡◌, refl, sym, ◌∙◌, ap, false, Option, none, some,
  [], ◌∷◌, if◌then◌else◌, Bool-cases, inl, inr, arith,
}
use mathlib.Core.Option.{some-injective}
use agex_ts.JsMap
use agex_ts.JsMap.{JsMap}
use agex_ts.JsMap.Laws.{get-set}
use agex_ts.Hamt.Trie.{leaf, branch, Format, Hamt, Pending, nibble, load, store_node, follow}
use agex_ts.Hamt.Trie.Walk.{walk, IsAddressed, Grows, Grows-trans, store_node-Grows, walk-Grows}
use agex_ts.Hamt.Trie.Stored.{walk_at_branch, walk-leaf, walk-branch}
use agex_ts.Hamt.Trie.Split.{Awaits-Grows}
use agex_ts.Hamt.Insert.{relink, graft, new_leaf}
use agex_ts.Hamt.Insert.Lookup.{updated, Inserts}

kept_child :
    (children : JsMap Str Str) (c cj child h : Str)
    → JsMap.get children c ≡ some child
    → h ≡ child
    → JsMap.get children cj ≡ (if c == cj then some h else JsMap.get children cj)
kept_child children c cj child h there e = elim (Bool-cases (c == cj)) [
  | inl here ↦
      rw here (ap (JsMap.get children) (sym ((str_eq_iff c cj).0 here)) ∙ there ∙ ap some (sym e))
  | inr apart ↦ rw apart
]

module _ (format : Format) (hamt : Hamt) (key encoded : Str) where
  -- A branch that has `child` under the key's nibble, and else the old branch's children.
  branch_lookup :
      (p q : Pending) (left depth : ℕ) (children : JsMap Str Str) (hash child j : Str)
      (o : Option Str)
      → let c = nibble (format.key_hash key) depth in
        let cj = nibble (format.key_hash j) depth in
        Grows format hamt p q
        → walk format hamt q (suc left) depth j hash
          ≡ follow
              (λ next. walk format hamt q left (depth + 1) j next)
              (if c == cj then some child else JsMap.get children cj)
        → (follow (λ next. walk format hamt p left (depth + 1) j next) (JsMap.get children c)
              ≡ some o
            → walk format hamt q left (depth + 1) j child
              ≡ some (updated format hamt key encoded j o))
        → follow (λ next. walk format hamt p left (depth + 1) j next) (JsMap.get children cj)
          ≡ some o
        → walk format hamt q (suc left) depth j hash ≡ some (updated format hamt key encoded j o)
  branch_lookup p q left depth children hash child j o g e k h =
      let c = nibble (format.key_hash key) depth in
      let cj = nibble (format.key_hash j) depth in
      e ∙ elim (Bool-cases (c == cj)) [
        | inl here ↦ rw here (k (rw ((str_eq_iff c cj).0 here) h))
        | inr there ↦
            let other : (key == j) ≡ false =
              ground (arith, str_eq_iff key j, str_eq_iff c cj, there) in
            rw (there, other)
              (Awaits-Grows format hamt p q left depth j o none (JsMap.get children cj) g h)
      ]

  pub graft-Inserts :
      (p : Pending) (left depth : ℕ) (hash : Str) (children : JsMap Str Str)
      → let c = nibble (format.key_hash key) depth in
        IsAddressed format hamt p
        → load format hamt p hash ≡ some (branch children)
        → JsMap.get children c ≡ none
        → Inserts format hamt key encoded p
            (suc left)
            depth
            hash
            (graft format hamt children c (new_leaf format hamt key encoded p))
  unfolding JsMap.get
  graft-Inserts p left depth hash children a l absent =
      let c = nibble (format.key_hash key) depth in
      let r = new_leaf format hamt key encoded p in
      let g = store_node-Grows format hamt (leaf ((key, encoded) ∷ [])) p a in
      let top = branch (JsMap.set children c r.0) in
      let s = store_node format hamt top r.1 in
      let g' = store_node-Grows format hamt top r.1 g.addressed in
      let both = Grows-trans format hamt p r.1 s.1 g g' in
      record {
        grows = both;
        lookup = λ j o h.
            branch_lookup p s.1 left depth children s.0 r.0 j o both
              (walk-branch format hamt (JsMap.set children c r.0) r.1 left depth j
                ∙ ap (follow (λ next. walk format hamt s.1 left (depth + 1) j next))
                    (get-set children c (nibble (format.key_hash j) depth) r.0))
              (λ k.
                walk-Grows format hamt r.1 s.1 left (depth + 1) j r.0 _ g'
                  (walk-leaf format hamt ((key, encoded) ∷ []) p left (depth + 1) j)
                ∙ ap (λ o'. some (updated format hamt key encoded j o'))
                    (some-injective none o (rw absent at k)))
              (sym (
                  walk_at_branch format hamt children p left depth j hash (branch children) l
                    (λ k. refl))
                ∙ h);
      }

  pub relink-Inserts :
      (p : Pending) (left depth : ℕ) (hash child : Str) (children : JsMap Str Str)
      (r : Str × Pending)
      → let c = nibble (format.key_hash key) depth in
        load format hamt p hash ≡ some (branch children)
        → JsMap.get children c ≡ some child
        → Inserts format hamt key encoded p left (depth + 1) child r
        → Inserts format hamt key encoded p
            (suc left)
            depth
            hash
            (relink format hamt children c hash child r)
  relink-Inserts p left depth hash child children r l there i =
      let c = nibble (format.key_hash key) depth in
      let top = branch (JsMap.set children c r.0) in
      let s = store_node format hamt top r.1 in
      let g' = store_node-Grows format hamt top r.1 i.grows.addressed in
      let both = Grows-trans format hamt p r.1 s.1 i.grows g' in
      elim (Bool-cases (r.0 == child)) [
        | inl same ↦ rw same (record {
          grows = i.grows;
          lookup = λ j o h.
              let cj = nibble (format.key_hash j) depth in
              branch_lookup p r.1 left depth children hash r.0 j o i.grows
                (walk_at_branch format hamt children r.1 left depth j hash (branch children)
                    (i.grows.kept hash (branch children) l) (λ k. refl)
                  ∙ ap (follow (λ next. walk format hamt r.1 left (depth + 1) j next))
                      (kept_child children c cj child r.0 there ((str_eq_iff r.0 child).0 same)))
                (λ k. i.lookup j o (rw there at k))
                (sym (
                    walk_at_branch format hamt children p left depth j hash (branch children) l
                      (λ k. refl))
                  ∙ h);
        })
        | inr new ↦ rw new (record {
          grows = both;
          lookup = λ j o h.
              branch_lookup p s.1 left depth children s.0 r.0 j o both
                (walk-branch format hamt (JsMap.set children c r.0) r.1 left depth j
                  ∙ ap (follow (λ next. walk format hamt s.1 left (depth + 1) j next))
                      (get-set children c (nibble (format.key_hash j) depth) r.0))
                (λ k.
                  walk-Grows format hamt r.1 s.1 left (depth + 1) j r.0 _ g'
                    (i.lookup j o (rw there at k)))
                (sym (
                    walk_at_branch format hamt children p left depth j hash (branch children) l
                      (λ k. refl))
                  ∙ h);
        })
      ]
