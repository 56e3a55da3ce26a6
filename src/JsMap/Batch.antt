-- ===== src/JsMap/Batch.antt =====
-- Loops of `set` and `delete` over a map, and what they do to every lookup.
use agex_ts.Prelude.{
  ◌≡◌, refl, Bool, false, Option, none, some, List, [], ◌∷◌, arith, Eq, ◌==◌, ◌||◌, if◌then◌else◌,
}
use agex_ts.JsMap.{JsMap, get, set, delete}
use agex_ts.JsMap.Laws.{IsUnique, get-set, get-delete, set-IsUnique, delete-IsUnique}

-- `a ?? b` on values that may be absent
abbrev pub first_some {ℓ} : {A : Type ℓ} → Option A → Option A → Option A
first_some none b = b
first_some (some a) b = some a

module _ {ℓ} {K : Type ℓ} ⦃e : Eq K⦄ where
  unfoldable pub member : List K → K → Bool
  member [] k = false
  member (j ∷ ks) k = j == k || member ks k

module _ {ℓ κ} {K : Type ℓ} {V : Type κ} ⦃e : Eq K⦄ where
  -- `for (const [k, v] of items) m.set(k, v)`
  unfoldable pub set_all : JsMap K V → List (K × V) → JsMap K V
  set_all m [] = m
  set_all m ((k, v) ∷ items) = set_all (set m k v) items

  -- `for (const k of ks) m.delete(k)`
  unfoldable pub delete_all : JsMap K V → List K → JsMap K V
  delete_all m [] = m
  delete_all m (k ∷ ks) = delete_all (delete m k) ks

  pub get-set_all :
      (m items : JsMap K V) (j : K)
      → IsUnique items
      → get (set_all m items) j ≡ first_some (get items j) (get m j)
  unfolding set_all get
  get-set_all m [] j u = refl
  get-set_all m ((k, v) ∷ items) j (fresh, u) =
      ground (arith, get-set_all (set m k v) items j u, get-set m k j v, e.same_iff k j)

  pub get-delete_all :
      (m : JsMap K V) (ks : List K) (j : K)
      → get (delete_all m ks) j ≡ (if member ks j then none else get m j)
  unfolding delete_all member
  get-delete_all m [] j = refl
  get-delete_all m (k ∷ ks) j = ground (arith, get-delete_all (delete m k) ks j, get-delete m k j)

  pub set_all-IsUnique : (m items : JsMap K V) → IsUnique m → IsUnique (set_all m items)
  unfolding set_all
  set_all-IsUnique m [] u = u
  set_all-IsUnique m ((k, v) ∷ items) u = set_all-IsUnique (set m k v) items (set-IsUnique m k v u)

  pub delete_all-IsUnique : (m : JsMap K V) (ks : List K) → IsUnique m → IsUnique (delete_all m ks)
  unfolding delete_all
  delete_all-IsUnique m [] u = u
  delete_all-IsUnique m (k ∷ ks) u = delete_all-IsUnique (delete m k) ks (delete-IsUnique m k u)
