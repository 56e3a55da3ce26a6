-- ===== src/Hamt/Insert/Runs.antt =====
-- `insertAt` returns, and what a run of insertions leaves.
use agex_ts.Prelude.{ℕ, zero, suc, ◌+◌, Str, str_Eq, ◌≡◌, refl, Option, none, some, arith}
use agex_ts.JsMap
use agex_ts.JsMap.{JsMap}
use agex_ts.Hamt.Trie.{Node, leaf, branch, Format, Hamt, Pending, hash_len, nibble, load, follow}
use agex_ts.Hamt.Trie.Walk.{walk, visit_last, visit_strict, IsAddressed}
use agex_ts.Hamt.Insert.{insert_item, relink, graft, new_leaf, insert_at, insert_node, insert_child}
use agex_ts.Hamt.Insert.Lookup.{Inserts, leaf-Inserts}
use agex_ts.Hamt.Insert.Branches.{graft-Inserts, relink-Inserts}

module _ (format : Format) (hamt : Hamt) (key encoded : Str) where
  -- An insertion that returns, with its result.
  pub record Returns (p : Pending) (left depth : ℕ) (hash : Str) (result : Option (Str × Pending))
      : Type 0 where
    pub value : Str × Pending
    pub is_value : result ≡ some value
    pub inserts : Inserts format hamt key encoded p left depth hash value

  leaf-Returns :
      (go : Str → Pending → Option (Str × Pending)) (chunk : Str) (p : Pending) (left depth : ℕ)
      (hash : Str) (items : JsMap Str Str)
      → left + depth ≡ hash_len
      → IsAddressed format hamt p
      → load format hamt p hash ≡ some (leaf items)
      → Returns p left depth hash
          (insert_node format hamt go depth chunk key encoded hash p (some (leaf items)))
  leaf-Returns go chunk p left depth hash items e a l = record {
    value = insert_item format hamt depth items key encoded hash p (JsMap.get items key);
    is_value = refl;
    inserts =
        leaf-Inserts format hamt key encoded p left depth hash items (JsMap.get items key) e a l
          refl;
  }

  last-Returns :
      (go : Str → Pending → Option (Str × Pending)) (chunk : Str) (p : Pending) (depth : ℕ)
      (hash : Str) (n : Option Node) (o : Option Str)
      → zero + depth ≡ hash_len
      → IsAddressed format hamt p
      → load format hamt p hash ≡ n
      → visit_last key n ≡ some o
      → Returns p zero depth hash (insert_node format hamt go depth chunk key encoded hash p n)
  last-Returns go chunk p depth hash none o e a l w = absurd (ground arith)
  last-Returns go chunk p depth hash (some (leaf items)) o e a l w =
      leaf-Returns go chunk p zero depth hash items e a l
  last-Returns go chunk p depth hash (some (branch children)) o e a l w = absurd (ground arith)

  child-Returns :
      (go : Str → Pending → Option (Str × Pending)) (p : Pending) (left depth : ℕ) (hash : Str)
      (children : JsMap Str Str) (here o : Option Str)
      → let c = nibble (format.key_hash key) depth in
        IsAddressed format hamt p
        → load format hamt p hash ≡ some (branch children)
        → JsMap.get children c ≡ here
        → follow (λ next. walk format hamt p left (depth + 1) key next) here ≡ some o
        → ((child : Str)
            → walk format hamt p left (depth + 1) key child ≡ some o
            → Returns p left (depth + 1) child (go child p))
        → Returns p
            (suc left)
            depth
            hash
            (insert_child format hamt go children c key encoded hash p here)
  child-Returns go p left depth hash children none o a l h w k =
      let c = nibble (format.key_hash key) depth in
      record {
        value = graft format hamt children c (new_leaf format hamt key encoded p);
        is_value = refl;
        inserts = graft-Inserts format hamt key encoded p left depth hash children a l h;
      }
  child-Returns go p left depth hash children (some child) o a l h w k =
      let c = nibble (format.key_hash key) depth in
      let r = k child w in
      record {
        value = relink format hamt children c hash child r.value;
        is_value = rw r.is_value;
        inserts =
            relink-Inserts format hamt key encoded p left depth hash child children r.value l h
              r.inserts;
      }

  above-Returns :
      (go : Str → Pending → Option (Str × Pending)) (p : Pending) (left depth : ℕ) (hash : Str)
      (n : Option Node) (o : Option Str)
      → let c = nibble (format.key_hash key) depth in
        suc left + depth ≡ hash_len
        → IsAddressed format hamt p
        → load format hamt p hash ≡ n
        → visit_strict (λ next. walk format hamt p left (depth + 1) key next) c key n ≡ some o
        → ((child : Str)
            → walk format hamt p left (depth + 1) key child ≡ some o
            → Returns p left (depth + 1) child (go child p))
        → Returns p (suc left) depth hash (insert_node format hamt go depth c key encoded hash p n)
  above-Returns go p left depth hash none o e a l w k = absurd (ground arith)
  above-Returns go p left depth hash (some (leaf items)) o e a l w k =
      leaf-Returns go (nibble (format.key_hash key) depth) p (suc left) depth hash items e a l
  above-Returns go p left depth hash (some (branch children)) o e a l w k =
      child-Returns go p left depth hash children
        (JsMap.get children (nibble (format.key_hash key) depth)) o a l refl w k

  -- Where nodes stand under their own digests, under a node from which the key's walk ends, with no
  -- more levels below it than the hash has, `insertAt` returns. Nodes that were there stay, and of what any walk from the node ended in, the
  -- walk from the new one ends in the same, but at the inserted key in the new value.
  pub insert_at-Returns :
      (p : Pending) (left depth : ℕ) (hash : Str) (o : Option Str)
      → left + depth ≡ hash_len
      → IsAddressed format hamt p
      → walk format hamt p left depth key hash ≡ some o
      → Returns p left depth hash (insert_at format hamt (suc left) depth key encoded hash p)
  unfolding insert_at walk
  insert_at-Returns p zero depth hash o e a w =
      last-Returns (λ child q. none) (nibble (format.key_hash key) depth) p depth hash
        (load format hamt p hash) o e a refl w
  insert_at-Returns p (suc left) depth hash o e a w =
      above-Returns (λ child q. insert_at format hamt (suc left) (depth + 1) key encoded child q) p
        left depth hash (load format hamt p hash) o e a refl w
        (λ child v. insert_at-Returns p left (depth + 1) child o (omega (arith, e)) a v)
