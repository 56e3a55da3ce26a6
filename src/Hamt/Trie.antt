-- ===== src/Hamt/Trie.antt =====
-- packages/kvgit-ts/src/hamt.ts: `Hamt`, the content-addressed trie, with no node cache (`cache` is
-- null). A node's object of strings is a map in the order of insertion.
pub mod Walk
pub mod Groups
pub mod Stored
pub mod Split
use agex_ts.Prelude.{
  ℕ, zero, suc, ◌+◌, ◌-◌, Str, str_Eq, ◌==◌, ◌≡◌, Option, none, some, List, [], ◌∷◌, ◌++◌, leb,
  drop, or_else, if◌then◌else◌, codes,
}
use agex_ts.JsMap
use agex_ts.JsMap.{JsMap}
use agex_ts.JsMap.Laws.{IsUnique}
use agex_ts.JsMap.Batch.{first_some}
use agex_ts.Store.{Bytes}

pub data Node : Type 0 where
  leaf : JsMap Str Str → Node
  branch : JsMap Str Str → Node

-- Equal as objects are compared here: the same kind, and the same string under every key.
abbrev pub SameNode : Node → Node → Type 0
SameNode (leaf a) (leaf b) = (k : Str) → JsMap.get a k ≡ JsMap.get b k
SameNode (branch a) (branch b) = (k : Str) → JsMap.get a k ≡ JsMap.get b k
SameNode (leaf a) (branch b) = ⊥
SameNode (branch a) (leaf b) = ⊥

-- An object has no key twice.
abbrev pub UniqueNode : Node → Type 0
UniqueNode (leaf items) = IsUnique items
UniqueNode (branch children) = IsUnique children

-- How nodes and values are written, and what they are named by: `nodeBytes` and `parseNode` (JSON),
-- `sha256Hex`, `keyHash`, and base64. A node parses as what was written; a digest names one text,
-- which is what content addressing takes SHA-256 to do; `EMPTY_HASH` is the empty leaf's.
pub record Format : Type 0 where
  pub node_bytes : Node → Bytes
  pub parse_node : Bytes → Node
  pub sha256_hex : Bytes → Str
  pub key_hash : Str → Str
  pub encode_value : Bytes → Str
  pub decode_value : Str → Bytes
  pub empty_hash : Str
  pub parse_written : (n : Node) → SameNode (parse_node (node_bytes n)) n
  pub parse_unique : (b : Bytes) → UniqueNode (parse_node b)
  pub hash_injective : (a b : Bytes) → sha256_hex a ≡ sha256_hex b → a ≡ b
  pub empty_lem : sha256_hex (node_bytes (leaf [])) ≡ empty_hash
  pub decode_encoded : (v : Bytes) → decode_value (encode_value v) ≡ v

-- `store` is what the store's `get` answers.
pub record Hamt : Type 0 where
  pub store : Str → Option Bytes
  pub root : Str
  pub prefix : Str
  pub bucket_max : ℕ
  pub pending : JsMap Str Bytes

abbrev pub hash_len : ℕ
hash_len = 64

abbrev pub nibble_of : Str → Str
nibble_of [] = codes "undefined"
nibble_of (c ∷ rest) = c ∷ []

-- `kh[depth]` as a property name
abbrev pub nibble : Str → ℕ → Str
nibble kh depth = nibble_of (drop depth kh)

abbrev pub Pending : Type 0
Pending = JsMap Str Bytes

-- What a walk meets at a node, when the key's nibble there is `chunk`; `go` walks a child.
abbrev pub follow : (Str → Option (Option Str)) → Option Str → Option (Option Str)
follow go none = some none
follow go (some next) = go next

abbrev pub visit : (Str → Option (Option Str)) → Str → Str → Option Node → Option (Option Str)
visit go chunk key none = some none
visit go chunk key (some (leaf items)) = some (JsMap.get items key)
visit go chunk key (some (branch children)) = follow go (JsMap.get children chunk)

module _ (format : Format) (hamt : Hamt) where
  -- the bytes under a node's hash: of the pending nodes, and then of the store
  abbrev pub raw : Pending → Str → Option Bytes
  raw pending hash =
      let prefixed = hamt.prefix ++ hash in
      first_some (first_some (JsMap.get pending prefixed) (JsMap.get hamt.pending prefixed))
        (hamt.store prefixed)

  abbrev pub parsed : Option Bytes → Option Node
  parsed none = none
  parsed (some bytes) = some (format.parse_node bytes)

  unfoldable pub load : Pending → Str → Option Node
  load pending hash =
      if hash == format.empty_hash then some (leaf []) else parsed (raw pending hash)

  -- `storeLeaf` and `storeBranch`
  unfoldable pub store_node : Node → Pending → Str × Pending
  store_node node pending =
      let bytes = format.node_bytes node in
      let hash = format.sha256_hex bytes in (hash, JsMap.set pending (hamt.prefix ++ hash) bytes)

  -- The loop of `get`, from a node at `depth`, with the pending nodes of an update in progress, if
  -- any. With no fuel left it has not returned.
  unfoldable pub find : Pending → ℕ → ℕ → Str → Str → Option (Option Str)
  unfolding load
  find pending zero depth key hash = none
  find pending (suc fuel) depth key hash =
      visit (λ next. find pending fuel (depth + 1) key next) (nibble (format.key_hash key) depth)
        key (load pending hash)

  abbrev decoded : Option Str → Option Bytes
  decoded none = none
  decoded (some v) = some (format.decode_value v)

  abbrev returned : Option (Option Str) → Option (Option Bytes)
  returned none = none
  returned (some r) = some (decoded r)

  unfoldable pub get : Str → Option (Option Bytes)
  unfolding find
  get key =
      if hamt.root == format.empty_hash
      then some none
      else returned (find [] (suc hash_len) 0 key hamt.root)

  -- the entries of a leaf, by the nibble of their keys at `depth`
  unfoldable pub group_items :
      ℕ → JsMap Str Str → JsMap Str (JsMap Str Str) → JsMap Str (JsMap Str Str)
  group_items depth [] groups = groups
  group_items depth ((k, v) ∷ items) groups =
      let chunk = nibble (format.key_hash k) depth in
      group_items depth items
        (JsMap.set groups chunk (JsMap.set (or_else (JsMap.get groups chunk) []) k v))

  abbrev pub bucket :
      (JsMap Str Str → Pending → Str × Pending) → JsMap Str Str → Pending → Str × Pending
  bucket go items pending =
      if leb (JsMap.size items) hamt.bucket_max
      then store_node (leaf items) pending
      else go items pending

  -- the loop over several groups
  unfoldable pub split_groups :
      (JsMap Str Str → Pending → Str × Pending)
      → JsMap Str (JsMap Str Str)
      → JsMap Str Str
      → Pending
      → Str × Pending
  unfolding store_node
  split_groups go [] children pending = store_node (branch children) pending
  split_groups go ((chunk, items) ∷ groups) children pending =
      let child = bucket go items pending in
      split_groups go groups (JsMap.set children chunk child.0) child.1

  abbrev pub wrapped : Str → Str × Pending → Str × Pending
  wrapped chunk child = store_node (branch ((chunk, child.0) ∷ [])) child.1

  -- entries that share the next nibble too are split one level deeper
  abbrev pub split_by :
      (JsMap Str Str → Pending → Str × Pending)
      → JsMap Str (JsMap Str Str)
      → Pending
      → Str × Pending
  split_by go ((chunk, items) ∷ []) pending = wrapped chunk (go items pending)
  split_by go [] pending = split_groups go [] [] pending
  split_by go (g ∷ g' ∷ groups) pending = split_groups go (g ∷ g' ∷ groups) [] pending

  -- `left` is what of the hash is left at `depth`, which ends the recursion.
  unfoldable pub split_leaf : ℕ → ℕ → JsMap Str Str → Pending → Str × Pending
  unfolding store_node split_groups group_items
  split_leaf zero depth items pending = store_node (leaf items) pending
  split_leaf (suc left) depth items pending =
      split_by (split_leaf left (depth + 1)) (group_items depth items []) pending
