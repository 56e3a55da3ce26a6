-- ===== src/JsMap/Laws.antt =====
-- The laws of `Map`: what each change does to every lookup, and that keys stay distinct.
use agex_ts.Prelude.{
  ◌≡◌, refl, true, none, some, [], ◌∷◌, arith, Eq, ◌==◌, if◌then◌else◌, any, filter, Bool, List,
  ◌&&◌, Bool-cases, inl, inr,
}
use agex_ts.JsMap.{JsMap, get, set, delete, has, keys}

module _ {ℓ κ} {K : Type ℓ} {V : Type κ} ⦃e : Eq K⦄ where
  pub get-set :
      (m : JsMap K V) (k j : K) (v : V) → get (set m k v) j ≡ (if k == j then some v else get m j)
  unfolding get set
  get-set [] k j v = refl
  get-set ((i, w) ∷ m) k j v =
      ground (arith, get-set m k j v, e.same_iff k j, e.same_iff i j, e.same_iff i k)

  pub get-delete :
      (m : JsMap K V) (k j : K) → get (delete m k) j ≡ (if k == j then none else get m j)
  unfolding get delete
  get-delete [] k j = ground arith
  get-delete ((i, w) ∷ m) k j =
      ground (arith, get-delete m k j, e.same_iff k j, e.same_iff i j, e.same_iff i k)

  -- No key twice.
  abbrev pub IsUnique : JsMap K V → Type κ
  IsUnique [] = Unit
  IsUnique ((k, v) ∷ m) = (get m k ≡ none) × IsUnique m

  pub set-IsUnique : (m : JsMap K V) (k : K) (v : V) → IsUnique m → IsUnique (set m k v)
  unfolding get set
  set-IsUnique [] k v u = (refl, tt)
  set-IsUnique ((i, w) ∷ m) k v u =
      ground (arith, set-IsUnique m k v, get-set m k i v, e.same_iff i k, e.same_iff k i)

  pub delete-IsUnique : (m : JsMap K V) (k : K) → IsUnique m → IsUnique (delete m k)
  unfolding get delete
  delete-IsUnique [] k u = tt
  delete-IsUnique ((i, w) ∷ m) k u =
      ground (arith, delete-IsUnique m k, get-delete m k i, e.same_iff i k, e.same_iff k i)

pub get-empty {ℓ κ} : {K : Type ℓ} {V : Type κ} ⦃e : Eq K⦄ (k : K) → get {V = V} [] k ≡ none
unfolding get
get-empty k = refl

pub eq_refl {ℓ} : {K : Type ℓ} ⦃e : Eq K⦄ (k : K) → (k == k) ≡ true
eq_refl ⦃e⦄ k = (e.same_iff k k).1 refl

pub ruleset map_laws = (get-empty, get-set, get-delete)

-- A map has the keys that it lists.
pub any-keys {ℓ κ} :
    {K : Type ℓ} {V : Type κ} ⦃e : Eq K⦄ (m : JsMap K V) (j : K)
    → any (λ k. k == j) (keys m) ≡ has m j
unfolding any keys get
any-keys [] j = refl
any-keys ((k, v) ∷ m) j = ground (arith, any-keys m j)

pub any-filter {ℓ} :
    {K : Type ℓ} ⦃e : Eq K⦄ (p : K → Bool) (xs : List K) (k : K)
    → any (λ j. j == k) (filter p xs) ≡ (any (λ j. j == k) xs && p k)
unfolding any filter
any-filter p [] k = refl
any-filter ⦃e⦄ p (x ∷ xs) k = elim (Bool-cases (x == k)) [
  | inl here ↦
      rw (here, (e.same_iff x k).0 here) (ground (arith, any-filter p xs k, e.same_iff k k))
  | inr there ↦ rw there (ground (arith, any-filter p xs k))
]
