-- ===== src/Hamt/Insert/Roots.antt =====
-- `insert` from a root, and the insertions of `updated`, one after another.
use agex_ts.Prelude.{
  suc, Str, str_Eq, str_eq_iff, ◌==◌, ◌≡◌, refl, sym, ◌∙◌, ap, Option, none, some, List, [], ◌∷◌,
  Bool-cases, inl, inr,
}
use mathlib.Core.Option.{some-injective}
use agex_ts.JsMap
use agex_ts.JsMap.Laws.{eq_refl}
use agex_ts.Store.{Bytes}
use agex_ts.Hamt.Trie.{leaf, Format, Hamt, Pending, hash_len, load, find}
use agex_ts.Hamt.Trie.Walk.{walk, IsAddressed, store_node-Grows, find-walk}
use agex_ts.Hamt.Trie.Stored.{walk_at_leaf, walk-leaf}
use agex_ts.Hamt.Insert.{new_leaf, insert, insert_all}
use agex_ts.Hamt.Insert.Lookup.{updated}
use agex_ts.Hamt.Insert.Runs.{Returns, insert_at-Returns}

module _ (format : Format) (hamt : Hamt) where
  -- From the root the walk of every key ends, in what `contents` has of it.
  pub record Contains (p : Pending) (root : Str) (contents : Str → Option Str) : Type 0 where
    pub addressed : IsAddressed format hamt p
    pub ends : (j : Str) → walk format hamt p hash_len 0 j root ≡ some (contents j)

  load-empty : (p : Pending) → load format hamt p format.empty_hash ≡ some (leaf [])
  unfolding load
  load-empty p = rw (eq_refl format.empty_hash) refl

  -- The empty root contains nothing.
  pub empty-Contains :
      (p : Pending) → IsAddressed format hamt p → Contains p format.empty_hash (λ j. none)
  unfolding JsMap.get
  empty-Contains p a = record {
    addressed = a;
    ends = λ j.
        walk_at_leaf format hamt [] p hash_len 0 j format.empty_hash (leaf []) (load-empty p)
          (λ k. refl);
  }

  abbrev pub InsertReturns : Pending → Str → Str → Str → Option (Str × Pending) → Type 0
  InsertReturns p root key encoded result = Returns format hamt key encoded p hash_len 0 root result

  insert-Returns :
      (p : Pending) (root : Str) (contents : Str → Option Str) (key : Str) (value : Bytes)
      → Contains p root contents
      → InsertReturns p root key (format.encode_value value) (insert format hamt root key value p)
  unfolding insert JsMap.get
  insert-Returns p root contents key value c =
      let encoded = format.encode_value value in
      elim (Bool-cases (root == format.empty_hash)) [
        | inl empty ↦ rw empty (record {
          value = new_leaf format hamt key encoded p;
          is_value = refl;
          inserts = record {
            grows = store_node-Grows format hamt (leaf ((key, encoded) ∷ [])) p c.addressed;
            lookup = λ j o w.
                let none_there : some none ≡ some o =
                  sym ((empty-Contains p c.addressed).ends j)
                  ∙ ap (λ r. walk format hamt p hash_len 0 j r)
                      (sym ((str_eq_iff root format.empty_hash).0 empty))
                  ∙ w in
                walk-leaf format hamt ((key, encoded) ∷ []) p hash_len 0 j
                ∙ ap (λ o'. some (updated format hamt key encoded j o'))
                    (some-injective none o none_there);
          };
        })
        | inr held ↦ rw held (
            insert_at-Returns format hamt key encoded p hash_len 0 root (contents key) refl
              c.addressed (c.ends key))
      ]

  -- `contents` with the updates made in order.
  abbrev pub after : (Str → Option Str) → List (Str × Bytes) → Str → Option Str
  after contents [] = contents
  after contents ((key, value) ∷ updates) =
      after (λ j. updated format hamt key (format.encode_value value) j (contents j)) updates

  -- The updates returned, and the new root contains what they make of the contents.
  pub record AllInserted (p : Pending) (contents : Str → Option Str) (updates : List (Str × Bytes))
      (result : Option (Str × Pending)) : Type 0 where
    pub value : Str × Pending
    pub is_value : result ≡ some value
    pub contains : Contains value.1 value.0 (after contents updates)

  -- From a root with given contents, inserting any updates in order returns, and the new root has the
  -- contents with the updates made: every key's walk ends in its last update, or as it did before.
  pub insert_all-AllInserted :
      (p : Pending) (root : Str) (contents : Str → Option Str) (updates : List (Str × Bytes))
      → Contains p root contents
      → AllInserted p contents updates (insert_all format hamt root updates p)
  unfolding insert_all
  insert_all-AllInserted p root contents [] c = record {
    value = (root, p);
    is_value = refl;
    contains = c;
  }
  insert_all-AllInserted p root contents ((key, value) ∷ updates) c =
      let encoded = format.encode_value value in
      let r = insert-Returns p root contents key value c in
      let next =
        insert_all-AllInserted r.value.1 r.value.0
          (λ j. updated format hamt key encoded j (contents j)) updates
          (record {
            addressed = r.inserts.grows.addressed;
            ends = λ j. r.inserts.lookup j (contents j) (c.ends j);
          }) in
      record {
        value = next.value;
        is_value = rw r.is_value next.is_value;
        contains = next.contains;
      }

  -- Where nodes stand under their own digests, after updates of an empty trie `get`'s loop finds at
  -- every key its last update, or nothing where it has none: it returns, within the levels that a
  -- hash has.
  pub find-insert_all :
      (p : Pending) (updates : List (Str × Bytes)) (j : Str)
      → IsAddressed format hamt p
      → (r : Str × Pending) × (insert_all format hamt format.empty_hash updates p ≡ some r)
        × (find format hamt r.1 (suc hash_len) 0 j r.0 ≡ some (after (λ k. none) updates j))
  find-insert_all p updates j a =
      let r = insert_all-AllInserted p format.empty_hash (λ k. none) updates (empty-Contains p a) in
      (
        r.value,
        r.is_value,
        find-walk format hamt r.value.1 hash_len 0 j r.value.0 _ (r.contains.ends j),
      )
