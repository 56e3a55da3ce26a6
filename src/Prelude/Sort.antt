-- ===== src/Prelude/Sort.antt =====
-- `Array.prototype.sort` with a comparator: stable, so an insertion sort that keeps equal items in
-- their order computes the same array. Array loops with a test.
use mathlib.Core.Path.{◌≡◌, refl, ◌∙◌}
use mathlib.Core.Bool.{Bool, false, ◌||◌}
use mathlib.Core.List.{List, [], ◌∷◌, ◌++◌}
use native.Mathlib.Omega.{arith}
use agex_ts.Prelude.Tests.{if◌then◌else◌}
use agex_ts.Prelude.Equality.{Eq, ◌==◌}

module _ {ℓ} {A : Type ℓ} where
  -- `xs.some(p)`
  unfoldable pub any : (A → Bool) → List A → Bool
  any p [] = false
  any p (x ∷ xs) = p x || any p xs

  -- `xs.filter(p)`
  unfoldable pub filter : (A → Bool) → List A → List A
  filter p [] = []
  filter p (x ∷ xs) = let rest = filter p xs in if p x then x ∷ rest else rest

  -- `before x y`: the comparator puts `x` no later than `y`.
  insert_sorted : (A → A → Bool) → A → List A → List A
  insert_sorted before x [] = x ∷ []
  insert_sorted before x (y ∷ ys) =
      let rest = insert_sorted before x ys in if before x y then x ∷ y ∷ ys else y ∷ rest

  unfoldable pub sort : (A → A → Bool) → List A → List A
  unfolding insert_sorted
  sort before [] = []
  sort before (x ∷ xs) = insert_sorted before x (sort before xs)

  any-insert_sorted :
      (p : A → Bool) (before : A → A → Bool) (x : A) (ys : List A)
      → any p (insert_sorted before x ys) ≡ (p x || any p ys)
  unfolding any insert_sorted
  any-insert_sorted p before x [] = refl
  any-insert_sorted p before x (y ∷ ys) = ground (arith, any-insert_sorted p before x ys)

  -- Sorting keeps what is there.
  pub any-sort :
      (p : A → Bool) (before : A → A → Bool) (xs : List A) → any p (sort before xs) ≡ any p xs
  unfolding any sort
  any-sort p before [] = refl
  any-sort p before (x ∷ xs) =
      ground (arith, any-insert_sorted p before x (sort before xs), any-sort p before xs)

  pub any-append : (p : A → Bool) (xs ys : List A) → any p (xs ++ ys) ≡ (any p xs || any p ys)
  unfolding any
  any-append p [] ys = refl
  any-append p (x ∷ xs) ys = ground (arith, any-append p xs ys)

module _ {ℓ} {K : Type ℓ} ⦃e : Eq K⦄ where
  -- No element twice.
  abbrev pub IsDistinct : List K → Type 0
  IsDistinct [] = Unit {0}
  IsDistinct (x ∷ xs) = (any (λ y. y == x) xs ≡ false) × IsDistinct xs

  insert_sorted-IsDistinct :
      (before : K → K → Bool) (x : K) (ys : List K)
      → any (λ y. y == x) ys ≡ false
      → IsDistinct ys
      → IsDistinct (insert_sorted before x ys)
  unfolding any insert_sorted
  insert_sorted-IsDistinct before x [] h d = (h, d)
  insert_sorted-IsDistinct before x (y ∷ ys) h (fresh, d) = ground (
    arith,
    insert_sorted-IsDistinct before x ys,
    any-insert_sorted (λ z. z == y) before x ys,
    e.same_iff x y,
    e.same_iff y x,
  )

  -- Sorting keeps elements distinct.
  pub sort-IsDistinct :
      (before : K → K → Bool) (xs : List K) → IsDistinct xs → IsDistinct (sort before xs)
  unfolding sort
  sort-IsDistinct before [] d = d
  sort-IsDistinct before (x ∷ xs) (fresh, d) =
      insert_sorted-IsDistinct before x (sort before xs) (any-sort (λ y. y == x) before xs ∙ fresh)
        (sort-IsDistinct before xs d)
