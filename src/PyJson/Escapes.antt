-- ===== src/PyJson/Escapes.antt =====
-- Strings are read back as they were written.
use agex_ts.Prelude.{
  ℕ, zero, suc, ◌+◌, ◌*◌, ◌/◌, ◌%◌, ◌<◌, Str, ◌≡◌, refl, ap, ◌∙◌, true, false, Option, none, some,
  [], ◌∷◌, ◌++◌, leb, ltb, nat_eq, ◌&&◌, Bool-cases, inl, inr, arith, All,
}
use mathlib.Core.List.{append_assoc}
use agex_ts.PyJson.Write.{short_escape, hex_digit, hex4, escaped, escape_all}
use agex_ts.PyJson.Read.{
  string_end, with_unit, unquoted, unit_and, plain, hex, hex_value, string_at, gives, unescaped,
}

-- UTF-16 code units
abbrev pub AllUnits : Str → Type 0
AllUnits s = All (λ c. c < 65536) s

hex_value-hex_digit : (n : ℕ) → n < 16 → hex_value (hex_digit n) ≡ some n
unfolding hex_value
hex_value-hex_digit n h = ground arith

next_hex :
    (n acc d : ℕ) (s : Str)
    → d < 16
    → unquoted (hex_digit d ∷ s) (hex (suc n) acc) ≡ unquoted s (hex n (acc * 16 + d))
unfolding unquoted
next_hex n acc d s h = rw (hex_value-hex_digit d h) refl

last_hex :
    (acc d : ℕ) (s : Str)
    → d < 16
    → unquoted (hex_digit d ∷ s) (hex zero acc) ≡ unit_and (acc * 16 + d) (unquoted s plain)
unfolding unquoted
last_hex acc d s h = rw (hex_value-hex_digit d h) refl

unquoted-hex4 :
    (c : ℕ) (s : Str)
    → c < 65536
    → unquoted (92 ∷ 117 ∷ hex4 c ++ s) plain ≡ unit_and c (unquoted s plain)
unfolding unquoted
unquoted-hex4 c s h =
    let d1 = c / 4096 in
    let d2 = c / 256 % 16 in
    let d3 = c / 16 % 16 in
    let d4 = c % 16 in
    next_hex 2 0 d1 (hex_digit d2 ∷ hex_digit d3 ∷ hex_digit d4 ∷ s) (omega arith)
    ∙ next_hex 1 (0 * 16 + d1) d2 (hex_digit d3 ∷ hex_digit d4 ∷ s) (omega arith)
    ∙ next_hex 0 ((0 * 16 + d1) * 16 + d2) d3 (hex_digit d4 ∷ s) (omega arith)
    ∙ last_hex (((0 * 16 + d1) * 16 + d2) * 16 + d3) d4 s (omega arith)
    ∙ ap (λ d. unit_and d (unquoted s plain)) (omega arith)

short-unescaped :
    (c e : ℕ) → short_escape c ≡ some e → (nat_eq e 117 ≡ false) × (unescaped e ≡ some c)
short-unescaped c e h = ground arith

unquoted-short :
    (c e : ℕ) (s : Str)
    → short_escape c ≡ some e
    → unquoted (92 ∷ e ∷ s) plain ≡ unit_and c (unquoted s plain)
unfolding unquoted
unquoted-short c e s h = rw ((short-unescaped c e h).0, (short-unescaped c e h).1) refl

plain_unit :
    (c : ℕ)
    → short_escape c ≡ none
    → leb 32 c && leb c 126 ≡ true
    → (nat_eq c 92 ≡ false) × (ltb c 32 ≡ false) × (nat_eq c 34 ≡ false)
plain_unit c h shown = ground arith

unquoted-escaped :
    (c : ℕ) (o : Option ℕ) (s : Str)
    → short_escape c ≡ o
    → c < 65536
    → unquoted (escaped c o ++ s) plain ≡ unit_and c (unquoted s plain)
unfolding unquoted
unquoted-escaped c (some e) s h u = unquoted-short c e s h
unquoted-escaped c none s h u = elim (Bool-cases (leb 32 c && leb c 126)) [
  | inl shown ↦ rw (shown, (plain_unit c h shown).0, (plain_unit c h shown).1) refl
  | inr hidden ↦ rw hidden (unquoted-hex4 c s u)
]

unquoted-escape_all : (s : Str) → AllUnits s → unquoted (escape_all s) plain ≡ some s
unfolding escape_all unquoted
unquoted-escape_all [] u = refl
unquoted-escape_all (c ∷ s) (h, u) =
    unquoted-escaped c (short_escape c) (escape_all s) refl h
    ∙ ap (unit_and c) (unquoted-escape_all s u)

string_end-plain :
    (c : ℕ) (s : Str)
    → nat_eq c 92 ≡ false
    → nat_eq c 34 ≡ false
    → string_end (c ∷ s) ≡ with_unit c (string_end s)
unfolding string_end
string_end-plain c [] h k = rw (h, k) refl
string_end-plain c (d ∷ s) h k = rw (h, k) refl

closing : (rest : Str) → string_end (34 ∷ rest) ≡ some ([], rest)
unfolding string_end
closing [] = refl
closing (c ∷ rest) = refl

-- in front of what is found
abbrev before : Str → Option (Str × Str) → Option (Str × Str)
before [] o = o
before (c ∷ s) o = with_unit c (before s o)

before-some : (s body rest : Str) → before s (some (body, rest)) ≡ some (s ++ body, rest)
before-some [] body rest = refl
before-some (c ∷ s) body rest = ap (with_unit c) (before-some s body rest)

string_end-hex_digit :
    (n : ℕ) (s : Str)
    → n < 16
    → string_end (hex_digit n ∷ s) ≡ with_unit (hex_digit n) (string_end s)
string_end-hex_digit n s h = string_end-plain (hex_digit n) s (ground arith) (ground arith)

string_end-hex4 :
    (c : ℕ) (t : Str) → c < 65536 → string_end (hex4 c ++ t) ≡ before (hex4 c) (string_end t)
string_end-hex4 c t h =
    let d1 = c / 4096 in
    let d2 = c / 256 % 16 in
    let d3 = c / 16 % 16 in
    let d4 = c % 16 in
    rw
      (
        string_end-hex_digit d1 (hex_digit d2 ∷ hex_digit d3 ∷ hex_digit d4 ∷ t) (omega arith),
        string_end-hex_digit d2 (hex_digit d3 ∷ hex_digit d4 ∷ t) (omega arith),
        string_end-hex_digit d3 (hex_digit d4 ∷ t) (omega arith),
        string_end-hex_digit d4 t (omega arith),
      )
      refl

string_end-escaped :
    (c : ℕ) (o : Option ℕ) (t : Str)
    → short_escape c ≡ o
    → c < 65536
    → string_end (escaped c o ++ t) ≡ before (escaped c o) (string_end t)
unfolding string_end
string_end-escaped c (some e) t h u = refl
string_end-escaped c none t h u = elim (Bool-cases (leb 32 c && leb c 126)) [
  | inl shown ↦ rw shown (string_end-plain c t (plain_unit c h shown).0 (plain_unit c h shown).2)
  | inr hidden ↦ rw hidden (ap (λ o. with_unit 92 (with_unit 117 o)) (string_end-hex4 c t u))
]

string_end-escape_all :
    (s rest : Str) → AllUnits s → string_end (escape_all s ++ 34 ∷ rest) ≡ some (escape_all s, rest)
unfolding escape_all
string_end-escape_all [] rest u = closing rest
string_end-escape_all (c ∷ s) rest (h, u) =
    let one = escaped c (short_escape c) in
    ap string_end (append_assoc one (escape_all s) (34 ∷ rest))
    ∙ string_end-escaped c (short_escape c) (escape_all s ++ 34 ∷ rest) refl h
    ∙ ap (before one) (string_end-escape_all s rest u)
    ∙ before-some one (escape_all s) rest

-- A string that is written is read, up to its closing quote.
pub string_at-escape_all :
    (s rest : Str) → AllUnits s → string_at (escape_all s ++ 34 ∷ rest) ≡ gives s rest
string_at-escape_all s rest u = rw (string_end-escape_all s rest u, unquoted-escape_all s u) refl
