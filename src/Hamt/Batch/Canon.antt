-- ===== src/Hamt/Batch/Canon.antt =====
-- `subtreeOf` stores what it is given.
use agex_ts.Prelude.{ℕ, ◌+◌, ◌-◌, Str, str_Eq, ◌≡◌, refl, none, some, [], ◌∷◌, arith}
use agex_ts.JsMap
use agex_ts.JsMap.{JsMap}
use agex_ts.JsMap.Laws.{IsUnique}
use agex_ts.Hamt.Trie.{Format, Hamt, Pending, hash_len, bucket, split_leaf}
use agex_ts.Hamt.Trie.Walk.{walk, IsAddressed, Grows}
use agex_ts.Hamt.Trie.Split.{bucket-Splits, split_leaf-Splits}
use agex_ts.Hamt.Batch.{subtree_of}

module _ (format : Format) (hamt : Hamt) where
  -- Where nodes stand under their own digests, of entries with distinct keys, at a depth within the
  -- hash, `subtreeOf` has a subtree exactly if
  -- there are any: then nodes that were there stay, and a walk from the subtree's root at that depth
  -- finds for every key what the entries have.
  pub subtree_of_lem :
      (left depth : ℕ) (e : Str × Str) (items : JsMap Str Str) (p : Pending)
      → left + depth ≡ hash_len
      → IsUnique (e ∷ items)
      → IsAddressed format hamt p
      → (subtree_of format hamt [] depth p ≡ (none, p))
        × (h : Str) × ((subtree_of format hamt (e ∷ items) depth p).0 ≡ some h)
        × Grows format hamt p (subtree_of format hamt (e ∷ items) depth p).1
        × ((j : Str)
            → walk format hamt (subtree_of format hamt (e ∷ items) depth p).1 left depth j h
              ≡ some (JsMap.get (e ∷ items) j))
  unfolding subtree_of
  subtree_of_lem left depth e items p d u a =
      let same : hash_len - depth ≡ left = omega (arith, d) in
      let (g, found) =
        bucket-Splits format hamt left depth (split_leaf format hamt left depth)
          (split_leaf-Splits format hamt left depth) (e ∷ items) p u a in
      rw same (
        refl,
        (bucket format hamt (split_leaf format hamt left depth) (e ∷ items) p).0,
        refl,
        g,
        found,
      )
