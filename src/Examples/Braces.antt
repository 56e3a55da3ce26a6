-- ===== src/Examples/Braces.antt =====
-- Words with braces.
use agex_ts.Prelude.{◌≡◌, refl, codes, some, [], ◌∷◌, value_from}
use agex_ts.Prelude.Result.{ok}
use agex_ts.Brace.{expand_braces}
use agex_ts.Brace.Limits.{Ends, expand_braces-Ends}

nested :
    expand_braces (codes "a{b,{08..10}}c")
    ≡ some (ok (codes "abc" ∷ codes "a08c" ∷ codes "a09c" ∷ codes "a10c" ∷ []))
unfolding expand_braces value_from
nested = refl

-- A parameter keeps its braces.
parameter : expand_braces (codes "${x}{a,b}") ≡ some (ok (codes "${x}a" ∷ codes "${x}b" ∷ []))
unfolding expand_braces
parameter = refl

expand_braces-Ends_example : Ends (expand_braces (codes "a{b,{08..10}}c"))
expand_braces-Ends_example = expand_braces-Ends (codes "a{b,{08..10}}c")
