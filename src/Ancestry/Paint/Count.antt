-- ===== src/Ancestry/Paint/Count.antt =====
-- Sums over the flags of a painting.
use agex_ts.Prelude.{
  ℕ, ◌+◌, ◌≤◌, Str, str_Eq, str_eq_iff, ◌==◌, ◌≡◌, refl, ap, false, Option, none, some, [], ◌∷◌,
  arith, Bool-cases, inl, inr, subst,
}
use agex_ts.JsMap
use agex_ts.JsMap.{JsMap}
use agex_ts.JsMap.Laws.{IsUnique}
use agex_ts.Ancestry.Paint.{Flag}

unfoldable pub total : (Str → Flag → ℕ) → JsMap Str Flag → ℕ
total w [] = 0
total w ((c, f) ∷ flags) = w c f + total w flags

abbrev pub weight : (Str → Flag → ℕ) → Str → Option Flag → ℕ
weight w c none = 0
weight w c (some f) = w c f

-- Weights that agree but at one key give sums that differ by what they say of it.
pub total-but :
    (w v : Str → Flag → ℕ) (flags : JsMap Str Flag) (k : Str)
    → ((c : Str) (f : Flag) → (c == k) ≡ false → w c f ≡ v c f)
    → IsUnique flags
    → total w flags + weight v k (JsMap.get flags k)
      ≡ total v flags + weight w k (JsMap.get flags k)
unfolding total JsMap.get
total-but w v [] k h u = refl
total-but w v ((c, f) ∷ flags) k h (fresh, u) = elim (Bool-cases (c == k)) [
  | inl here ↦
      let same = (str_eq_iff c k).0 here in
      ground (arith, total-but w v flags k h u, here, same, ap (JsMap.get flags) same)
  | inr there ↦ ground (arith, total-but w v flags k h u, there, h c f there)
]

pub total-set :
    (w : Str → Flag → ℕ) (flags : JsMap Str Flag) (k : Str) (f : Flag)
    → total w (JsMap.set flags k f) + weight w k (JsMap.get flags k) ≡ total w flags + w k f
unfolding total JsMap.get JsMap.set
total-set w [] k f = omega arith
total-set w ((c, g) ∷ flags) k f = elim (Bool-cases (c == k)) [
  | inl here ↦ rw ((str_eq_iff c k).0 here, (str_eq_iff k k).1 refl) (omega arith)
  | inr there ↦ rw there (omega (arith, total-set w flags k f))
]

pub weight-le-total :
    (w : Str → Flag → ℕ) (flags : JsMap Str Flag) (k : Str)
    → weight w k (JsMap.get flags k) ≤ total w flags
unfolding total JsMap.get
weight-le-total w [] k = omega arith
weight-le-total w ((c, g) ∷ flags) k = elim (Bool-cases (c == k)) [
  | inl here ↦ rw ((str_eq_iff c k).0 here, (str_eq_iff k k).1 refl) (omega arith)
  | inr there ↦ rw there (omega (arith, weight-le-total w flags k))
]

pub total-same :
    (w v : Str → Flag → ℕ) (flags : JsMap Str Flag)
    → ((c : Str) (f : Flag) → w c f ≡ v c f)
    → total w flags ≡ total v flags
unfolding total
total-same w v [] h = refl
total-same w v ((c, f) ∷ flags) h = omega (arith, total-same w v flags h, h c f)

-- Weights that agree on the flags that are there give one sum.
pub total-same_at :
    (w v : Str → Flag → ℕ) (flags : JsMap Str Flag)
    → IsUnique flags
    → ((c : Str) (f : Flag) → JsMap.get flags c ≡ some f → w c f ≡ v c f)
    → total w flags ≡ total v flags
unfolding total JsMap.get
total-same_at w v [] u h = refl
total-same_at w v ((c, f) ∷ flags) (fresh, u) h =
    let here : w c f ≡ v c f = h c f (rw ((str_eq_iff c c).1 refl) refl) in
    let later : (x : Str) (g : Flag) → JsMap.get flags x ≡ some g → w x g ≡ v x g = λ x g k.
      elim (Bool-cases (c == x)) [
        | inl is_c ↦ absurd (
            ground
              (arith, k, subst (λ y. JsMap.get flags y ≡ none) ((str_eq_iff c x).0 is_c) fresh))
        | inr other ↦ h x g (rw other k)
      ] in
    omega (arith, here, total-same_at w v flags u later)
