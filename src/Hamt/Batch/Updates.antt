-- ===== src/Hamt/Batch/Updates.antt =====
-- A batch of updates, applied at a node in one pass.
use agex_ts.Prelude.{
  ℕ, zero, ◌+◌, Str, str_Eq, ◌≡◌, refl, sym, ◌∙◌, ap, true, false, Option, none, some, List, [],
  ◌∷◌, arith, Bool-cases, inl, inr, All, All-map, is_empty, suc,
}
use agex_ts.JsMap
use agex_ts.JsMap.{JsMap}
use agex_ts.Hamt.Trie.{
  Node, leaf, branch, Format, Hamt, Pending, hash_len, nibble, follow, load, store_node,
}
use agex_ts.Hamt.Trie.Walk.{
  walk, IsAddressed, Grows, Grows-trans, store_node-Grows, visit_strict, visit_last,
}
use agex_ts.Hamt.Trie.Stored.{walk_at_branch, walk-branch}
use agex_ts.Hamt.Delete.{Subtree}
use agex_ts.Hamt.Batch.{KeyChange, Branching, group_changes, apply_at, apply_node, settled}
use agex_ts.Hamt.Batch.Leaves.{after, ends, Applied, leaf-Applied}
use agex_ts.Hamt.Batch.Groups.{after-group_changes, group_changes-IsUnique, group_changes-AllGood}
use agex_ts.Hamt.Batch.Steps.{below, follow-Grows}
use agex_ts.Hamt.Batch.Loops.{Under, Ready, Applies, apply_groups-Run}

module _ (format : Format) (hamt : Hamt) where
  abbrev start : JsMap Str Str → Pending → Branching
  start children p = record { children = children; changed = false; removed = false; pending = p }

  empty-below :
      (left depth : ℕ) (b : Branching) (children : JsMap Str Str) (j : Str) (o : Option Str)
      → is_empty children ≡ true
      → follow
          (λ next. walk format hamt b.pending left (depth + 1) j next)
          (JsMap.get children (nibble (format.key_hash j) depth))
        ≡ some o
      → ends format hamt b.pending (suc left) depth j none ≡ some o
  unfolding JsMap.get
  empty-below left depth b [] j o e w = w
  empty-below left depth b (x ∷ children) j o e w = absurd (ground (arith, e))

  settled-Applied :
      (left depth : ℕ) (hash : Str) (children : JsMap Str Str) (p : Pending)
      (changes : List KeyChange) (b : Branching)
      → load format hamt p hash ≡ some (branch children)
      → Grows format hamt p b.pending
      → ((j : Str) (o : Option Str)
          → below format hamt left depth (start children p) j ≡ some o
          → below format hamt left depth b j ≡ some (after changes j o))
      → (b.changed ≡ false → b.children ≡ children)
      → b.removed ≡ false
      → Applied format hamt p (suc left) depth hash changes (settled format hamt hash b)
  settled-Applied left depth hash children p changes b l grows found same kept =
      let finds : (j : Str) (o : Option Str)
          → walk format hamt p (suc left) depth j hash ≡ some o
          → below format hamt left depth b j ≡ some (after changes j o) =
        λ j o w. found j o (
          sym (
            walk_at_branch format hamt children p left depth j hash (branch children) l (λ k. refl))
          ∙ w) in
      let stored = store_node-Grows format hamt (branch b.children) b.pending grows.addressed in
      elim (Bool-cases b.changed) [
        | inr as_before ↦ rw as_before (record {
          grows = grows;
          finds = λ j o w.
              walk_at_branch format hamt children b.pending left depth j hash (branch children)
                (grows.kept hash (branch children) l) (λ k. refl)
              ∙ (rw (same as_before) at finds j o w);
        })
        | inl changed ↦ elim (Bool-cases (is_empty b.children)) [
          | inl all_gone ↦
              rw (changed, all_gone)
                (record {
                  grows = grows;
                  finds = λ j o w.
                      empty-below left depth b b.children j (after changes j o) all_gone
                        (finds j o w);
                })
          | inr some_left ↦
              rw (changed, some_left, kept)
                (record {
                  grows =
                      Grows-trans format hamt p b.pending
                        (store_node format hamt (branch b.children) b.pending).1 grows stored;
                  finds = λ j o w.
                      walk-branch format hamt b.children b.pending left depth j
                      ∙ follow-Grows format hamt left depth b.pending
                          (store_node format hamt (branch b.children) b.pending).1 j
                          (JsMap.get b.children (nibble (format.key_hash j) depth))
                          (after changes j o) stored (finds j o w);
                })
        ]
      ]

  -- A call of `applyAt` that returns, with its result.
  abbrev pub Returned : Pending → ℕ → ℕ → Str → List KeyChange → Option Subtree → Type 0
  Returned p left depth hash changes result =
      (r : Subtree) × (result ≡ some r) × Applied format hamt p left depth hash changes r

  branch-Returned :
      (go : Str → List KeyChange → Pending → Option Subtree) (left depth : ℕ) (hash : Str)
      (children : JsMap Str Str) (p : Pending) (changes : List KeyChange)
      → left + (depth + 1) ≡ hash_len
      → Applies format hamt left depth go
      → IsAddressed format hamt p
      → load format hamt p hash ≡ some (branch children)
      → All (Under format hamt p (suc left) depth hash) changes
      → Returned p
          (suc left)
          depth
          hash
          changes
          (apply_node format hamt go depth hash changes p (some (branch children)))
  unfolding JsMap.get
  branch-Returned go left depth hash children p changes d k a l under =
      let b = start children p in
      let groups = group_changes format hamt depth changes [] in
      let ready = All-map _ (Ready format hamt left depth b) changes under (λ c (update, o, w). (
        update,
        o,
        sym (
              walk_at_branch format hamt children p left depth c.key hash (branch children) l
                (λ k. refl))
            ∙ w,
      )) in
      let good =
        group_changes-AllGood format hamt depth (Ready format hamt left depth b) changes []
          (λ chunk g e. absurd (ground (arith, e))) ready in
      let (b', is_b', run) =
        apply_groups-Run format hamt left depth go groups b d k
          (group_changes-IsUnique format hamt depth changes [] tt) a good in
      (
        settled format hamt hash b',
        rw is_b' refl,
        settled-Applied left depth hash children p changes b' l run.grows
            (λ j o w.
              run.finds j o w ∙ ap some (after-group_changes format hamt depth changes [] j o))
            (λ e. (run.unchanged e).0) run.no_removal,
      )

  last-Returned :
      (go : Str → List KeyChange → Pending → Option Subtree) (depth : ℕ) (hash : Str) (p : Pending)
      (changes : List KeyChange) (n : Option Node) (key : Str) (o : Option Str)
      → zero + depth ≡ hash_len
      → IsAddressed format hamt p
      → load format hamt p hash ≡ n
      → visit_last key n ≡ some o
      → Returned p zero depth hash changes (apply_node format hamt go depth hash changes p n)
  last-Returned go depth hash p changes none key o d a l w = absurd (ground (arith, w))
  last-Returned go depth hash p changes (some (branch children)) key o d a l w =
      absurd (ground (arith, w))
  last-Returned go depth hash p changes (some (leaf items)) key o d a l w =
      (_, refl, leaf-Applied format hamt p zero depth hash items changes d a l)

  above-Returned :
      (go : Str → List KeyChange → Pending → Option Subtree) (left depth : ℕ) (hash : Str)
      (p : Pending) (changes : List KeyChange) (n : Option Node) (key : Str) (o : Option Str)
      → suc left + depth ≡ hash_len
      → Applies format hamt left depth go
      → IsAddressed format hamt p
      → load format hamt p hash ≡ n
      → visit_strict
          (λ next. walk format hamt p left (depth + 1) key next)
          (nibble (format.key_hash key) depth)
          key
          n
        ≡ some o
      → All (Under format hamt p (suc left) depth hash) changes
      → Returned p (suc left) depth hash changes (apply_node format hamt go depth hash changes p n)
  above-Returned go left depth hash p changes none key o d k a l w under =
      absurd (ground (arith, w))
  above-Returned go left depth hash p changes (some (leaf items)) key o d k a l w under =
      (_, refl, leaf-Applied format hamt p (suc left) depth hash items changes d a l)
  above-Returned go left depth hash p changes (some (branch children)) key o d k a l w under =
      branch-Returned go left depth hash children p changes (omega (arith, d)) k a l under

  -- Where nodes stand under their own digests, at a node within the hash's depth, for one or more
  -- updates, where the walk of each one's key from the node ends, `applyAt` returns, given fuel for
  -- one level more than are left. Nodes that were there stay, and of what any walk from the node
  -- ended in, the walk from the new one ends in what the updates, one after another, make of it.
  pub apply_at-Returned :
      (left depth : ℕ) (hash : Str) (p : Pending) (c : KeyChange) (changes : List KeyChange)
      → left + depth ≡ hash_len
      → IsAddressed format hamt p
      → All (Under format hamt p left depth hash) (c ∷ changes)
      → Returned p left depth hash
          (c ∷ changes)
          (apply_at format hamt (suc left) hash depth (c ∷ changes) p)
  unfolding apply_at walk
  apply_at-Returned zero depth hash p c changes d a under =
      let (update, o, w) = under.0 in
      last-Returned (λ child group q. none) depth hash p (c ∷ changes) (load format hamt p hash)
        c.key o d a refl w
  apply_at-Returned (suc left) depth hash p c changes d a under =
      let (update, o, w) = under.0 in
      above-Returned (λ child group q. apply_at format hamt (suc left) child (depth + 1) group q)
        left depth hash p (c ∷ changes) (load format hamt p hash) c.key o d
        (λ child g q b.
          elim g
            as (λ k.
              is_empty k ≡ false
              → All (Under format hamt q left (depth + 1) child) k
              → Returned q left (depth + 1) child k
                  (apply_at format hamt (suc left) child (depth + 1) k q)) [
                    | [] ↦ λ full under'. absurd (ground (arith, full))
                    | x ∷ xs ↦ λ full under'.
                        apply_at-Returned left (depth + 1) child q x xs (omega (arith, d)) b under'
                  ])
        a refl w under
