-- ===== src/Prelude/Text.antt =====
-- A JavaScript string as the list of its UTF-16 code units, with the methods the sources call.
use Prim.Native.Nat.{ℕ}
use Prim.Native.Char.{code}
use Prim.Native.String.{String}
use mathlib.Core.Path.{◌≡◌, refl}
use mathlib.Core.Logic.{◌↔◌}
use mathlib.Core.Bool.{Bool, true, false, ◌&&◌, ◌||◌}
use mathlib.Core.List.{List, [], ◌∷◌, ◌++◌}
use native.Mathlib.Omega.{arith}
use agex_ts.Prelude.Tests.{nat_eq_iff, nat_eq}
use agex_ts.Prelude.Equality.{Eq, ◌==◌}
use agex_ts.Prelude.Lists.{length, drop}

abbrev pub Str : Type 0
Str = List ℕ

-- The code units of a literal in the Basic Multilingual Plane.
abbrev pub codes : String → Str
codes String.[] = []
codes (String.◌∷◌ c s) = code c ∷ codes s

unfoldable pub str_eq : Str → Str → Bool
str_eq [] [] = true
str_eq [] (y ∷ ys) = false
str_eq (x ∷ xs) [] = false
str_eq (x ∷ xs) (y ∷ ys) = nat_eq x y && str_eq xs ys

str_eq→eq : (a b : Str) → str_eq a b ≡ true → a ≡ b
unfolding str_eq
str_eq→eq [] [] h = refl
str_eq→eq [] (y ∷ ys) h = cc
str_eq→eq (x ∷ xs) [] h = cc
str_eq→eq (x ∷ xs) (y ∷ ys) h = ground (arith, str_eq→eq xs ys)

str_eq_refl : (a : Str) → str_eq a a ≡ true
unfolding str_eq
str_eq_refl [] = refl
str_eq_refl (x ∷ xs) = ground (arith, str_eq_refl xs)

pub str_eq_iff : (a b : Str) → (str_eq a b ≡ true) ↔ (a ≡ b)
str_eq_iff a b = (str_eq→eq a b, λ p. rw p (str_eq_refl b))

instance abbrev pub str_Eq : Eq Str
str_Eq = record { same = str_eq; same_iff = str_eq_iff }

-- `s.startsWith(p)`
unfoldable pub starts_with : Str → Str → Bool
starts_with s [] = true
starts_with [] (y ∷ p) = false
starts_with (x ∷ s) (y ∷ p) = nat_eq x y && starts_with s p

-- `s.includes(c)` for one code unit
unfoldable pub includes : Str → ℕ → Bool
includes [] c = false
includes (x ∷ s) c = nat_eq x c || includes s c

pub starts_with-append : (p s : Str) → starts_with (p ++ s) p ≡ true
unfolding starts_with
starts_with-append [] s = refl
starts_with-append (x ∷ p) s = ground (arith, starts_with-append p s)

-- A string that starts with `p` is `p` followed by what `slice` leaves.
pub append-drop_of_starts_with : (s p : Str) → starts_with s p ≡ true → p ++ drop (length p) s ≡ s
unfolding starts_with
append-drop_of_starts_with s [] h = refl
append-drop_of_starts_with [] (y ∷ p) h = cc
append-drop_of_starts_with (x ∷ s) (y ∷ p) h = ground (arith, append-drop_of_starts_with s p)

pub drop-append : (p s : Str) → drop (length p) (p ++ s) ≡ s
drop-append [] s = refl
drop-append (x ∷ p) s = drop-append p s

pub eq-append : (p s t : Str) → (p ++ s == p ++ t) ≡ (s == t)
unfolding str_eq
eq-append [] s t = refl
eq-append (x ∷ p) s t = ground (arith, eq-append p s t, nat_eq_iff x x)

-- A string under a prefix is the prefix and a rest that tells it apart; no other string is.
pub same_remainder :
    (prefix k key : Str)
    → starts_with k prefix ≡ true
    → (drop (length prefix) k == key) ≡ (k == prefix ++ key)
unfolding starts_with str_eq
same_remainder [] k key h = refl
same_remainder (y ∷ prefix) [] key h = cc
same_remainder (y ∷ prefix) (x ∷ k) key h = ground (arith, same_remainder prefix k key)

pub not_under : (prefix k key : Str) → starts_with k prefix ≡ false → (k == prefix ++ key) ≡ false
unfolding starts_with str_eq
not_under [] k key h = cc
not_under (y ∷ prefix) [] key h = refl
not_under (y ∷ prefix) (x ∷ k) key h = ground (arith, not_under prefix k key)
