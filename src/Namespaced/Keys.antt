-- ===== src/Namespaced/Keys.antt =====
-- Namespaces keep apart, and list the keys that they hold.
use mathlib.Core.List.{append_assoc}
use agex_ts.Prelude.{
  Str, str_Eq, str_eq_iff, same_remainder, not_under, nat_eq_iff, starts_with, includes, length,
  drop, Bool, false, not, ◌&&◌, ◌||◌, List, [], ◌∷◌, ◌++◌, ◌≡◌, ◌≢◌, refl, ap₂, ◌∙◌, if◌then◌else◌,
  ◌==◌, any, is_empty, Bool-cases, inl, inr, arith,
}
use agex_ts.Namespaced.{
  NamespaceableStore, Namespaced, slash, prefixed, under, children, has, set, delete, keys,
  descendant_keys,
}

-- Names without a slash can be read off a prefixed key.
name_of_prefixed :
    (a b s t : Str)
    → includes a slash ≡ false
    → includes b slash ≡ false
    → a ++ (slash ∷ s) ≡ b ++ (slash ∷ t)
    → a ≡ b
unfolding includes
name_of_prefixed [] [] s t ha hb e = refl
name_of_prefixed [] (y ∷ b) s t ha hb e = ground (arith, nat_eq_iff y slash)
name_of_prefixed (x ∷ a) [] s t ha hb e = ground (arith, nat_eq_iff x slash)
name_of_prefixed (x ∷ a) (y ∷ b) s t ha hb e =
    ap₂ ◌∷◌ (cc) (name_of_prefixed a b s t (ground arith) (ground arith) (cc))

any-under :
    (prefix : Str) (ks : List Str) (key : Str)
    → any (λ j. j == key) (under prefix ks) ≡ any (λ j. j == prefix ++ key) ks
unfolding under any
any-under prefix [] key = refl
any-under prefix (k ∷ ks) key = elim (Bool-cases (starts_with k prefix)) [
  | inl h ↦ rw (h, same_remainder prefix k key h, any-under prefix ks key)
  | inr h ↦ rw (h, not_under prefix k key h) (any-under prefix ks key)
]

-- A direct child's name: not empty, and with no slash in it.
abbrev pub direct : Str → Bool
direct key = not (is_empty key || includes key slash)

child_step :
    (r key : Str) (c : List Str) (b : Bool)
    → any (λ j. j == key) c ≡ (b && direct key)
    → any (λ j. j == key) (if is_empty r || includes r slash then c else r ∷ c)
      ≡ ((r == key || b) && direct key)
unfolding any
child_step r key c b h = elim (Bool-cases (r == key)) [
  | inl here ↦
      rw (here, (str_eq_iff r key).0 here)
        (elim (Bool-cases (is_empty key || includes key slash)) [
          | inl nested ↦ rw nested (ground (arith, h, nested))
          | inr plain ↦ rw (plain, (str_eq_iff key key).1 refl) refl
        ])
  | inr there ↦ rw there (ground arith)
]

any-children :
    (prefix : Str) (ks : List Str) (key : Str)
    → any (λ j. j == key) (children prefix ks) ≡ (any (λ j. j == prefix ++ key) ks && direct key)
unfolding children any
any-children prefix [] key = refl
any-children prefix (k ∷ ks) key = elim (Bool-cases (starts_with k prefix)) [
  | inl h ↦
      rw (h, ← same_remainder prefix k key h)
        (child_step (drop (length prefix) k) key (children prefix ks) _
          (any-children prefix ks key))
  | inr h ↦ rw (h, not_under prefix k key h) (any-children prefix ks key)
]

other_key :
    (a b : Namespaced) (k j : Str)
    → includes a.namespace slash ≡ false
    → includes b.namespace slash ≡ false
    → a.namespace ≢ b.namespace
    → (prefixed a k == prefixed b j) ≡ false
unfolding prefixed
other_key a b k j ha hb ne =
    let l : Str = a.namespace ++ (slash ∷ k) in
    let r : Str = b.namespace ++ (slash ∷ j) in
    elim (Bool-cases (l == r)) [
      | inl same ↦
          absurd (ne (name_of_prefixed a.namespace b.namespace k j ha hb ((str_eq_iff l r).0 same)))
      | inr apart ↦ apart
    ]

module _ {S Val : Type 0} (io : NamespaceableStore S Val) where
  -- In a valid state of the store, a key stands in a namespace's listing where the namespace has it
  -- and it is a direct child's name, not empty and with no slash in it; in the listing with nested
  -- namespaces, wherever the namespace has it.
  pub keys_lem :
      (n : Namespaced) (s : S) (key : Str)
      → io.Valid s
      → (any (λ j. j == key) (keys io n s) ≡ (has io n s key && direct key))
        × (any (λ j. j == key) (descendant_keys io n s) ≡ has io n s key)
  unfolding keys descendant_keys has prefixed
  keys_lem n s key v =
      let p = n.namespace ++ (slash ∷ []) in
      let at_key = io.keys_has s (prefixed n key) v in
      let joined : p ++ key ≡ prefixed n key = append_assoc n.namespace (slash ∷ []) key in
      (
        any-children p (io.keys s) key ∙ rw joined (rw at_key refl),
        any-under p (io.keys s) key ∙ rw joined at_key,
      )

  -- A write or deletion through a namespace does not show in another one, where the two have
  -- different names with no slash in them.
  pub view-set_apart :
      (a b : Namespaced) (s : S) (k j : Str) (v : Val)
      → includes a.namespace slash ≡ false
      → includes b.namespace slash ≡ false
      → a.namespace ≢ b.namespace
      → (io.view (set io a s k v) (prefixed b j) ≡ io.view s (prefixed b j))
        × (io.view (delete io a s k) (prefixed b j) ≡ io.view s (prefixed b j))
  unfolding set delete
  view-set_apart a b s k j v ha hb ne =
      let apart = other_key a b k j ha hb ne in
      (rw io.set_view (rw apart refl), rw io.delete_view (rw apart refl))
