-- ===== src/Examples/Formats.antt =====
-- A node format that is written out: the strings of a node one after another, each after a zero and
-- with its characters raised by one; a node is named by its own bytes, and a key hashes to itself.
use agex_ts.Prelude.{ℕ, zero, suc, Str, str_Eq, ◌≡◌, refl, ap, List, [], ◌∷◌, ◌++◌, arith}
use mathlib.Core.List.{append-nil}
use agex_ts.JsMap
use agex_ts.JsMap.{JsMap}
use agex_ts.JsMap.Laws.{IsUnique, get-delete, delete-IsUnique, eq_refl}
use agex_ts.Store.{Bytes}
use agex_ts.Hamt.Trie.{Node, leaf, branch, SameNode, UniqueNode, Format}

abbrev raised : Str → Bytes → Bytes
raised [] rest = rest
raised (c ∷ s) rest = suc c ∷ raised s rest

abbrev flat : List Str → Bytes
flat [] = []
flat (s ∷ ss) = 0 ∷ raised s (flat ss)

abbrev piece_step : ℕ → Str × List Str → Str × List Str
piece_step zero r = ([], r.0 ∷ r.1)
piece_step (suc c) r = (c ∷ r.0, r.1)

-- the characters before the first zero, and the strings after it
abbrev pieces : Bytes → Str × List Str
pieces [] = ([], [])
pieces (c ∷ b) = piece_step c (pieces b)

pieces-raised :
    (s : Str) (rest : Bytes) → pieces (raised s rest) ≡ (s ++ (pieces rest).0, (pieces rest).1)
pieces-raised [] rest = refl
pieces-raised (c ∷ s) rest = ap (piece_step (suc c)) (pieces-raised s rest)

pub pieces-flat : (ss : List Str) → pieces (flat ss) ≡ ([], ss)
pieces-flat [] = refl
pieces-flat (s ∷ ss) = rw (pieces-raised s (flat ss), pieces-flat ss, append-nil s) refl

abbrev fields : JsMap Str Str → List Str
fields [] = []
fields ((k, v) ∷ m) = k ∷ v ∷ fields m

abbrev pair_up : List Str → JsMap Str Str
pair_up [] = []
pair_up (k ∷ []) = []
pair_up (k ∷ v ∷ rest) = (k, v) ∷ pair_up rest

pair_up-fields : (m : JsMap Str Str) → pair_up (fields m) ≡ m
pair_up-fields [] = refl
pair_up-fields ((k, v) ∷ m) = ap (◌∷◌ (k, v)) (pair_up-fields m)

-- the first entry of each key
abbrev distinct : JsMap Str Str → JsMap Str Str
distinct [] = []
distinct ((k, v) ∷ m) = (k, v) ∷ JsMap.delete (distinct m) k

distinct-IsUnique : (m : JsMap Str Str) → IsUnique (distinct m)
distinct-IsUnique [] = tt
distinct-IsUnique ((k, v) ∷ m) = (
  rw (get-delete (distinct m) k k, eq_refl k) refl,
  delete-IsUnique (distinct m) k (distinct-IsUnique m),
)

get-distinct : (m : JsMap Str Str) (j : Str) → JsMap.get (distinct m) j ≡ JsMap.get m j
unfolding JsMap.get
get-distinct [] j = refl
get-distinct ((k, v) ∷ m) j = ground (arith, get-delete (distinct m) k j, get-distinct m j)

abbrev written : Node → List Str
written (leaf items) = [] ∷ fields items
written (branch children) = (1 ∷ []) ∷ fields children

abbrev node_of : List Str → Node
node_of ([] ∷ rest) = leaf (distinct (pair_up rest))
node_of [] = branch []
node_of ((c ∷ s) ∷ rest) = branch (distinct (pair_up rest))

pub node_of-written : (n : Node) → SameNode (node_of (written n)) n
node_of-written (leaf items) = λ k. rw (pair_up-fields items) (get-distinct items k)
node_of-written (branch children) = λ k. rw (pair_up-fields children) (get-distinct children k)

pub node_of-UniqueNode : (ss : List Str) → UniqueNode (node_of ss)
node_of-UniqueNode [] = tt
node_of-UniqueNode ([] ∷ rest) = distinct-IsUnique (pair_up rest)
node_of-UniqueNode ((c ∷ s) ∷ rest) = distinct-IsUnique (pair_up rest)

abbrev pub plain : Format
plain = record {
  node_bytes = λ n. flat (written n);
  parse_node = λ b. node_of (pieces b).1;
  sha256_hex = λ b. b;
  key_hash = λ k. k;
  encode_value = λ v. v;
  decode_value = λ s. s;
  empty_hash = flat (written (leaf []));
  parse_written = λ n. rw (pieces-flat (written n)) (node_of-written n);
  parse_unique = λ b. node_of-UniqueNode (pieces b).1;
  hash_injective = λ a b e. e;
  empty_lem = refl;
  decode_encoded = λ v. refl;
}
