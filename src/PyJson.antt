-- ===== src/PyJson.antt =====
-- packages/kvgit-ts/src/pyjson.ts: the order of strings by code point.
pub mod Write
pub mod Read
pub mod Escapes
pub mod Numbers
pub mod Floats
pub mod Values
use Prim.Native.Nat.{compare, Ordering}
use agex_ts.Prelude.{
  ℕ, ◌+◌, ◌-◌, ◌*◌, Str, Bool, true, false, ◌&&◌, List, [], ◌∷◌, leb, ltb, if◌then◌else◌,
}

is_high_surrogate : ℕ → Bool
is_high_surrogate u = leb 0xD800 u && ltb u 0xDC00

is_low_surrogate : ℕ → Bool
is_low_surrogate u = leb 0xDC00 u && ltb u 0xE000

-- What a string's iterator yields, as numbers: a surrogate pair is one code point.
unfoldable pub code_points : Str → List ℕ
unfolding is_high_surrogate is_low_surrogate
code_points [] = []
code_points (h ∷ []) = h ∷ []
code_points (h ∷ l ∷ s) =
    let pair = ((h - 0xD800) * 0x400 + (l - 0xDC00) + 0x10000) ∷ code_points s in
    let single = h ∷ code_points (l ∷ s) in
    if is_high_surrogate h && is_low_surrogate l then pair else single

-- the loop over both iterators
unfoldable pub compare_units : List ℕ → List ℕ → Ordering
compare_units [] [] = Ordering.eq
compare_units [] (y ∷ ys) = Ordering.lt
compare_units (x ∷ xs) [] = Ordering.gt
compare_units (x ∷ xs) (y ∷ ys) = elim (compare x y) [
  | Ordering.lt ↦ Ordering.lt
  | Ordering.eq ↦ compare_units xs ys
  | Ordering.gt ↦ Ordering.gt
]

-- `compareCodePoints`: -1, 0 and 1 are `lt`, `eq` and `gt`.
unfoldable pub compare_code_points : Str → Str → Ordering
unfolding code_points compare_units
compare_code_points a b = compare_units (code_points a) (code_points b)

-- the order `sort(compareCodePoints)` sorts by
unfoldable pub no_later : Str → Str → Bool
unfolding compare_code_points
no_later a b = elim (compare_code_points a b) [ Ordering.gt ↦ false | _ ↦ true ]
