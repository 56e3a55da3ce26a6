-- ===== src/Hamt/Insert/Lookup.antt =====
-- Inserting a key into a leaf sets what a walk finds at it, and at no other key.
use agex_ts.Prelude.{
  ℕ, ◌+◌, ◌-◌, Str, str_Eq, str_eq_iff, ◌==◌, ◌≡◌, refl, sym, ◌∙◌, ap, Option, none, some,
  if◌then◌else◌, Bool-cases, inl, inr, arith,
}
use mathlib.Core.Option.{some-injective}
use agex_ts.JsMap
use agex_ts.JsMap.{JsMap}
use agex_ts.JsMap.Laws.{get-set, set-IsUnique}
use agex_ts.Hamt.Trie.{leaf, Format, Hamt, Pending, hash_len, load, split_leaf}
use agex_ts.Hamt.Trie.Walk.{walk, IsAddressed, Grows, load-UniqueNode}
use agex_ts.Hamt.Trie.Stored.{walk_at_leaf}
use agex_ts.Hamt.Trie.Split.{Splits, bucket-Splits, split_leaf-Splits}
use agex_ts.Hamt.Insert.{put_items, insert_item}

module _ (format : Format) (hamt : Hamt) (key encoded : Str) where
  abbrev pub updated : Str → Option Str → Option Str
  updated j o = if key == j then some encoded else o

  -- What inserting under a node, `left` levels above the end of the hash, must return.
  pub record Inserts (p : Pending) (left depth : ℕ) (hash : Str) (r : Str × Pending) : Type 0 where
    pub grows : Grows format hamt p r.1
    pub lookup :
        (j : Str) (o : Option Str)
        → walk format hamt p left depth j hash ≡ some o
        → walk format hamt r.1 left depth j r.0 ≡ some (updated j o)

  put_items-Splits :
      (left depth : ℕ)
      → left + depth ≡ hash_len
      → Splits format hamt left depth (put_items format hamt depth)
  put_items-Splits left depth e =
      let same : hash_len - depth ≡ left = omega (arith, e) in
      rw same (
        bucket-Splits format hamt left depth (split_leaf format hamt left depth)
          (split_leaf-Splits format hamt left depth))

  item-Inserts :
      (p : Pending) (left depth : ℕ) (hash : Str) (items : JsMap Str Str)
      → left + depth ≡ hash_len
      → IsAddressed format hamt p
      → load format hamt p hash ≡ some (leaf items)
      → Inserts p left depth hash (put_items format hamt depth (JsMap.set items key encoded) p)
  item-Inserts p left depth hash items e a l =
      let (g, found) =
        put_items-Splits left depth e (JsMap.set items key encoded) p
          (set-IsUnique items key encoded (load-UniqueNode format hamt p hash (leaf items) l)) a in
      record {
        grows = g;
        lookup = λ j o h.
            let at_j = some-injective _ _ (
              sym (walk_at_leaf format hamt items p left depth j hash (leaf items) l (λ k. refl))
              ∙ h) in
            found j ∙ ap some (get-set items key j encoded ∙ ap (updated j) at_j);
      }

  Grows-refl : (p : Pending) → IsAddressed format hamt p → Grows format hamt p p
  Grows-refl p a = record { kept = λ hash n h. h; addressed = a }

  pub leaf-Inserts :
      (p : Pending) (left depth : ℕ) (hash : Str) (items : JsMap Str Str) (here : Option Str)
      → left + depth ≡ hash_len
      → IsAddressed format hamt p
      → load format hamt p hash ≡ some (leaf items)
      → JsMap.get items key ≡ here
      → Inserts p left depth hash (insert_item format hamt depth items key encoded hash p here)
  leaf-Inserts p left depth hash items none e a l h = item-Inserts p left depth hash items e a l
  leaf-Inserts p left depth hash items (some existing) e a l h =
      elim (Bool-cases (existing == encoded)) [
        | inl same ↦ rw same (record {
          grows = Grows-refl p a;
          lookup = λ j o w.
              let at_j = some-injective _ _ (
                sym (walk_at_leaf format hamt items p left depth j hash (leaf items) l (λ k. refl))
                ∙ w) in
              w
              ∙ ap some
                  (ground (arith, at_j, h, str_eq_iff key j, (str_eq_iff existing encoded).0 same));
        })
        | inr other ↦ rw other (item-Inserts p left depth hash items e a l)
      ]
