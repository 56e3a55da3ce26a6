-- ===== src/JsMap.antt =====
-- JavaScript's `Map` and `Set`: entries in the order of first insertion.
pub mod Laws
pub mod Batch
use agex_ts.Prelude.{
  ℕ, Bool, Option, none, some, List, [], ◌∷◌, map, Eq, ◌==◌, if◌then◌else◌, is_some, length,
}

abbrev pub JsMap {ℓ κ} : Type ℓ → Type κ → Type (ℓ ⊔ κ)
JsMap K V = List (K × V)

abbrev pub JsSet {ℓ} : Type ℓ → Type ℓ
JsSet K = JsMap K (Unit {0})

module _ {ℓ κ} {K : Type ℓ} {V : Type κ} where
  unfoldable pub keys : JsMap K V → List K
  keys m = map (λ e. e.0) m

  abbrev pub size : JsMap K V → ℕ
  size m = length m

module _ {ℓ κ} {K : Type ℓ} {V : Type κ} ⦃e : Eq K⦄ where
  unfoldable pub get : JsMap K V → K → Option V
  get [] k = none
  get ((j, v) ∷ m) k = if j == k then some v else get m k

  -- A key that is there keeps its place.
  unfoldable pub set : JsMap K V → K → V → JsMap K V
  set [] k v = (k, v) ∷ []
  set ((j, w) ∷ m) k v = if j == k then (j, v) ∷ m else (j, w) ∷ set m k v

  unfoldable pub delete : JsMap K V → K → JsMap K V
  delete [] k = []
  delete ((j, w) ∷ m) k = let rest = delete m k in if j == k then rest else (j, w) ∷ rest

  abbrev pub has : JsMap K V → K → Bool
  has m k = is_some (get m k)

module _ {ℓ} {K : Type ℓ} ⦃e : Eq K⦄ where
  abbrev pub add : JsSet K → K → JsSet K
  add s k = set s k tt
