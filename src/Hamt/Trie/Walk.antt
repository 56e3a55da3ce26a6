-- ===== src/Hamt/Trie/Walk.antt =====
-- A walk that meets no missing node, and what storing a node leaves of it.
use agex_ts.Prelude.{
  ℕ, zero, suc, ◌+◌, Str, str_Eq, str_eq_iff, eq-append, ◌==◌, ◌≡◌, refl, sym, subst, ◌∙◌, ap,
  Option, none, some, [], ◌++◌, if◌then◌else◌, Bool-cases, Option-cases, inl, inr, arith,
}
use mathlib.Core.Option.{some-injective}
use agex_ts.JsMap
use agex_ts.JsMap.{JsMap}
use agex_ts.JsMap.Laws.{get-set}
use agex_ts.Store.{Bytes}
use agex_ts.Hamt.Trie.{
  Node, leaf, branch, SameNode, UniqueNode, Format, Hamt, Pending, nibble, raw, load, store_node,
  find, visit, follow,
}

-- As `visit`, but a missing node is no answer.
abbrev pub visit_strict :
    (Str → Option (Option Str)) → Str → Str → Option Node → Option (Option Str)
visit_strict go chunk key none = none
visit_strict go chunk key (some (leaf items)) = some (JsMap.get items key)
visit_strict go chunk key (some (branch children)) = follow go (JsMap.get children chunk)

SameNode-join : (m a b : Node) → SameNode m a → SameNode m b → SameNode a b
SameNode-join (leaf m) (leaf a) (leaf b) s t = λ k. sym (s k) ∙ t k
SameNode-join (branch m) (branch a) (branch b) s t = λ k. sym (s k) ∙ t k
SameNode-join (leaf m) (branch a) b s t = absurd s
SameNode-join (leaf m) (leaf a) (branch b) s t = absurd t
SameNode-join (branch m) (leaf a) b s t = absurd s
SameNode-join (branch m) (branch a) (leaf b) s t = absurd t

-- Only a leaf, where no level is left below.
abbrev pub visit_last : Str → Option Node → Option (Option Str)
visit_last key none = none
visit_last key (some (leaf items)) = some (JsMap.get items key)
visit_last key (some (branch children)) = none

module _ (format : Format) (hamt : Hamt) where
  -- What a key has under a node, at most `left` levels below it: `some o` where the walk meets only
  -- nodes that are there and ends with the answer `o`.
  unfoldable pub walk : Pending → ℕ → ℕ → Str → Str → Option (Option Str)
  unfolding load
  walk p zero depth key hash = visit_last key (load format hamt p hash)
  walk p (suc left) depth key hash =
      visit_strict (λ next. walk p left (depth + 1) key next) (nibble (format.key_hash key) depth)
        key (load format hamt p hash)

  -- Every node's bytes stand under their own digest.
  pub record IsAddressed (p : Pending) : Type 0 where
    pub named :
        (hash : Str) (b : Bytes) → raw format hamt p hash ≡ some b → format.sha256_hex b ≡ hash

  -- Storing nodes keeps every node that was there.
  pub record Grows (p q : Pending) : Type 0 where
    pub kept :
        (hash : Str) (n : Node)
        → load format hamt p hash ≡ some n
        → load format hamt q hash ≡ some n
    pub addressed : IsAddressed q

  pub Grows-trans : (p q r : Pending) → Grows p q → Grows q r → Grows p r
  Grows-trans p q r a b = record {
    kept = λ hash n h. b.kept hash n (a.kept hash n h);
    addressed = b.addressed;
  }

  raw-set :
      (p : Pending) (hash j : Str) (b : Bytes)
      → raw format hamt (JsMap.set p (hamt.prefix ++ hash) b) j
        ≡ (if hash == j then some b else raw format hamt p j)
  raw-set p hash j b =
      rw (get-set p (hamt.prefix ++ hash) (hamt.prefix ++ j) b, eq-append hamt.prefix hash j)
        (ground arith)

  -- bytes that are there stay
  raw-store_node :
      (n : Node) (p : Pending) (j : Str) (b : Bytes)
      → IsAddressed p
      → raw format hamt p j ≡ some b
      → raw format hamt (store_node format hamt n p).1 j ≡ some b
  unfolding store_node
  raw-store_node n p j b a e =
      let mine = format.node_bytes n in
      let hash = format.sha256_hex mine in
      rw (raw-set p hash j mine) (elim (Bool-cases (hash == j)) [
        | inl here ↦ rw here (
            ap some
              (format.hash_injective mine b ((str_eq_iff hash j).0 here ∙ sym (a.named j b e))))
        | inr there ↦ rw there e
      ])

  store_node-IsAddressed :
      (n : Node) (p : Pending) → IsAddressed p → IsAddressed (store_node format hamt n p).1
  unfolding store_node
  store_node-IsAddressed n p a = record {
    named = λ j b e.
        let mine = format.node_bytes n in
        let hash = format.sha256_hex mine in
        elim (Bool-cases (hash == j)) [
          | inl here ↦
              ap format.sha256_hex
                (sym (some-injective _ _ (rw (raw-set p hash j mine, here) at e)))
              ∙ (str_eq_iff hash j).0 here
          | inr there ↦ a.named j b (rw (raw-set p hash j mine, there) at e)
        ];
  }

  kept_by :
      (p q : Pending) (j : Str) (n : Node) (o : Option Bytes)
      → raw format hamt p j ≡ o
      → ((b : Bytes) → raw format hamt p j ≡ some b → raw format hamt q j ≡ some b)
      → load format hamt p j ≡ some n
      → load format hamt q j ≡ some n
  unfolding load
  kept_by p q j n none e k h = ground (arith, e)
  kept_by p q j n (some b) e k h = rw (k b e) (rw e at h)

  -- Storing a node keeps every other node.
  pub store_node-Grows :
      (n : Node) (p : Pending) → IsAddressed p → Grows p (store_node format hamt n p).1
  store_node-Grows n p a = record {
    kept = λ j m h.
        kept_by p (store_node format hamt n p).1 j m (raw format hamt p j) refl
          (λ b e. raw-store_node n p j b a e) h;
    addressed = store_node-IsAddressed n p a;
  }

  -- A stored node loads as the same node.
  pub load-store_node :
      (n : Node) (p : Pending)
      → let r = store_node format hamt n p in
        (m : Node) × (load format hamt r.1 r.0 ≡ some m) × SameNode m n
  unfolding store_node load
  load-store_node n p =
      let mine = format.node_bytes n in
      let hash = format.sha256_hex mine in
      elim (Bool-cases (hash == format.empty_hash)) [
        | inl empty ↦ (
          leaf [],
          rw empty refl,
          let same =
                format.hash_injective mine (format.node_bytes (leaf []))
                  ((str_eq_iff hash format.empty_hash).0 empty ∙ sym format.empty_lem) in
              SameNode-join (format.parse_node mine) (leaf []) n
                (rw same (format.parse_written (leaf []))) (format.parse_written n),
        )
        | inr other ↦ (
          format.parse_node mine,
          rw (other, raw-set p hash hash mine, (str_eq_iff hash hash).1 refl) refl,
          format.parse_written n,
        )
      ]

  visit_last-Grows :
      (p q : Pending) (key hash : Str) (o : Option Str) (n : Option Node)
      → Grows p q
      → load format hamt p hash ≡ n
      → visit_last key n ≡ some o
      → visit_last key (load format hamt q hash) ≡ some o
  visit_last-Grows p q key hash o none g e h = cc
  visit_last-Grows p q key hash o (some (leaf items)) g e h = rw (g.kept hash (leaf items) e) h
  visit_last-Grows p q key hash o (some (branch children)) g e h = cc

  visit-Grows :
      (p q : Pending) (go go' : Str → Option (Option Str)) (chunk key hash : Str) (o : Option Str)
      (n : Option Node)
      → Grows p q
      → ((next : Str) → go next ≡ some o → go' next ≡ some o)
      → load format hamt p hash ≡ n
      → visit_strict go chunk key n ≡ some o
      → visit_strict go' chunk key (load format hamt q hash) ≡ some o
  visit-Grows p q go go' chunk key hash o none g k e h = cc
  visit-Grows p q go go' chunk key hash o (some (leaf items)) g k e h =
      rw (g.kept hash (leaf items) e) h
  visit-Grows p q go go' chunk key hash o (some (branch children)) g k e h =
      rw (g.kept hash (branch children) e) (elim (Option-cases (JsMap.get children chunk)) [
        | inl absent ↦ rw absent (rw absent at h)
        | inr (next, there) ↦ rw there (k next (rw there at h))
      ])

  -- A walk stays as it is when nodes are stored.
  pub walk-Grows :
      (p q : Pending) (left depth : ℕ) (key hash : Str) (o : Option Str)
      → Grows p q
      → walk p left depth key hash ≡ some o
      → walk q left depth key hash ≡ some o
  unfolding walk
  walk-Grows p q zero depth key hash o g h = visit_last-Grows p q key hash o _ g refl h
  walk-Grows p q (suc left) depth key hash o g h =
      visit-Grows p q _ _ (nibble (format.key_hash key) depth) key hash o _ g
        (λ next e. walk-Grows p q left (depth + 1) key next o g e) refl h

  visit-strict :
      (go go' : Str → Option (Option Str)) (chunk key : Str) (o : Option Str) (n : Option Node)
      → ((next : Str) → go next ≡ some o → go' next ≡ some o)
      → visit_strict go chunk key n ≡ some o
      → visit go' chunk key n ≡ some o
  visit-strict go go' chunk key o none k h = cc
  visit-strict go go' chunk key o (some (leaf items)) k h = h
  visit-strict go go' chunk key o (some (branch children)) k h =
      elim (Option-cases (JsMap.get children chunk)) [
        | inl absent ↦ rw absent (rw absent at h)
        | inr (next, there) ↦ rw there (k next (rw there at h))
      ]

  visit-last :
      (go : Str → Option (Option Str)) (chunk key : Str) (o : Option Str) (n : Option Node)
      → visit_last key n ≡ some o
      → visit go chunk key n ≡ some o
  visit-last go chunk key o none h = cc
  visit-last go chunk key o (some (leaf items)) h = h
  visit-last go chunk key o (some (branch children)) h = cc

  -- Where a walk ends, so does the loop of `get`, given fuel for one level more, and with the same
  -- answer.
  pub find-walk :
      (p : Pending) (left depth : ℕ) (key hash : Str) (o : Option Str)
      → walk p left depth key hash ≡ some o
      → find format hamt p (suc left) depth key hash ≡ some o
  unfolding walk find
  find-walk p zero depth key hash o h =
      visit-last _ (nibble (format.key_hash key) depth) key o (load format hamt p hash) h
  find-walk p (suc left) depth key hash o h =
      visit-strict _ _ (nibble (format.key_hash key) depth) key o (load format hamt p hash)
        (λ next e. find-walk p left (depth + 1) key next o e) h

  load_by :
      (p : Pending) (hash : Str) (n : Node) (o : Option Bytes)
      → raw format hamt p hash ≡ o
      → load format hamt p hash ≡ some n
      → UniqueNode n
  unfolding load
  load_by p hash n none e h = elim (Bool-cases (hash == format.empty_hash)) [
    | inl empty ↦ subst UniqueNode (some-injective (leaf []) n (rw empty at h)) tt
    | inr other ↦ absurd (ground (arith, e, h, other))
  ]
  load_by p hash n (some b) e h = elim (Bool-cases (hash == format.empty_hash)) [
    | inl empty ↦ subst UniqueNode (some-injective (leaf []) n (rw empty at h)) tt
    | inr other ↦
        subst UniqueNode (some-injective (format.parse_node b) n (rw (other, e) at h))
          (format.parse_unique b)
  ]

  -- A node that is there has no key twice.
  pub load-UniqueNode :
      (p : Pending) (hash : Str) (n : Node) → load format hamt p hash ≡ some n → UniqueNode n
  load-UniqueNode p hash n h = load_by p hash n (raw format hamt p hash) refl h
