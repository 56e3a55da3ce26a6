-- ===== src/Namespaced.antt =====
-- packages/kvgit-ts/src/namespaced.ts: a key-prefix view over a `Staged`-shaped store.
pub mod Keys
use agex_ts.Prelude.{
  ℕ, Str, str_Eq, starts_with, includes, length, drop, Bool, true, false, not, ◌&&◌, ◌||◌, Option,
  none, some, List, [], ◌∷◌, ◌++◌, ◌≡◌, if◌then◌else◌, ◌==◌, any, is_empty, codes,
}
use agex_ts.Prelude.Result.{Result, ok, err}

-- `NamespaceableStore` over a state `S`, with what its users rely on: a view of every key, which a
-- read answers and does not change, and which a write changes at its own key. `Valid` is what the
-- store keeps true of its state.
pub record NamespaceableStore (S Val : Type 0) : Type 1 where
  pub Valid : S → Type 0
  pub view : S → Str → Result Str (Option Val)
  pub get : S → Str → Result Str (Option Val) × S
  pub has : S → Str → Bool
  pub set : S → Str → Val → S
  pub delete : S → Str → S
  pub keys : S → List Str
  pub get_answer : (s : S) (k : Str) → Valid s → (get s k).0 ≡ view s k
  pub get_view : (s : S) (k j : Str) → Valid s → view (get s k).1 j ≡ view s j
  pub set_view :
      (s : S) (k j : Str) (v : Val)
      → view (set s k v) j ≡ (if k == j then ok (some v) else view s j)
  pub delete_view :
      (s : S) (k j : Str) → view (delete s k) j ≡ (if k == j then ok none else view s j)
  pub keys_has : (s : S) (k : Str) → Valid s → any (λ j. j == k) (keys s) ≡ has s k

-- The wrapped store is the state that the operations take; a view of a view has the same one.
pub record Namespaced : Type 0 where
  pub namespace : Str

abbrev pub slash : ℕ
slash = b'/'

abbrev pub no_slashes : Str
no_slashes = codes "Namespace names cannot contain '/'"

-- the constructor: `parent` is the store when that is itself a `Namespaced`
unfoldable pub new_namespaced : Option Namespaced → Str → Result Str Namespaced
new_namespaced none name =
    if includes name slash then err no_slashes else ok (record { namespace = name })
new_namespaced (some parent) name =
    if includes name slash
    then err no_slashes
    else ok (record { namespace = parent.namespace ++ (slash ∷ name) })

unfoldable pub prefixed : Namespaced → Str → Str
prefixed n key = n.namespace ++ (slash ∷ key)

-- the keys under a prefix, without it
unfoldable pub under : Str → List Str → List Str
under prefix [] = []
under prefix (k ∷ ks) =
    let rest = under prefix ks in
    if starts_with k prefix then drop (length prefix) k ∷ rest else rest

-- the keys under a prefix that are direct children of it
unfoldable pub children : Str → List Str → List Str
children prefix [] = []
children prefix (k ∷ ks) =
    let rest = children prefix ks in
    let remainder = drop (length prefix) k in
    if not (starts_with k prefix)
    then rest
    else if is_empty remainder || includes remainder slash
    then rest
    else remainder ∷ rest

module _ {S Val : Type 0} (io : NamespaceableStore S Val) where
  unfoldable pub get : Namespaced → S → Str → Result Str (Option Val) × S
  unfolding prefixed
  get n s key = io.get s (prefixed n key)

  unfoldable pub has : Namespaced → S → Str → Bool
  unfolding prefixed
  has n s key = io.has s (prefixed n key)

  unfoldable pub set : Namespaced → S → Str → Val → S
  unfolding prefixed
  set n s key v = io.set s (prefixed n key) v

  unfoldable pub delete : Namespaced → S → Str → S
  unfolding prefixed
  delete n s key = io.delete s (prefixed n key)

  unfoldable pub keys : Namespaced → S → List Str
  unfolding children
  keys n s = children (n.namespace ++ (slash ∷ [])) (io.keys s)

  unfoldable pub descendant_keys : Namespaced → S → List Str
  unfolding under
  descendant_keys n s = under (n.namespace ++ (slash ∷ [])) (io.keys s)
