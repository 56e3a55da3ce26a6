-- ===== src/Fs/Memory/Listing/Below.antt =====
-- What a recursive listing has in it.
use agex_ts.Prelude.{
  Str, str_Eq, ◌==◌, ◌≡◌, refl, sym, ap, ◌∙◌, true, ◌||◌, List, [], ◌∷◌, ◌++◌, any, any-sort, sort,
  starts_with, length, drop, same_remainder, not_under, Bool-cases, inl, inr, arith,
}
use agex_ts.Prelude.Result.{ok}
use agex_ts.JsMap
use agex_ts.JsMap.{JsSet, keys}
use agex_ts.JsMap.Laws.{any-keys, get-set, get-empty}
use agex_ts.Fs.Path.{resolve}
use agex_ts.Fs.Memory.{MemoryFs}
use agex_ts.Fs.Memory.Listing.{collect, others, list_prefix, list, units_no_later}

has-collect :
    (prefix : Str) (ks : List Str) (out : JsSet Str) (name : Str)
    → JsMap.has (collect true prefix ks out) name
      ≡ (any (λ k. k == prefix ++ name) ks || JsMap.has out name)
unfolding collect any
has-collect prefix [] out name = refl
has-collect prefix (k ∷ ks) out name =
    let rest = drop (length prefix) k in
    elim (Bool-cases (starts_with k prefix)) [
      | inl below ↦
          rw
            (
              below,
              has-collect prefix ks (JsMap.add out rest) name,
              get-set out rest name tt,
              ← same_remainder prefix k name below,
            )
            (ground arith)
      | inr outside ↦
          rw (outside, has-collect prefix ks out name, not_under prefix k name outside) refl
    ]

-- A recursive listing that returns has exactly the files below the directory, and the explicit
-- directories below it other than itself, each by its path from there.
pub any-list :
    (s : MemoryFs) (path name : Str) (names : List Str)
    → let prefix = list_prefix (resolve path s.cwd) in
      list s path true ≡ ok names
      → any (λ n. n == name) names ≡ (
          any (λ d. d == prefix ++ name) (others (resolve path s.cwd) (keys s.explicit_dirs))
          || any (λ k. k == prefix ++ name) (keys s.files))
unfolding list
any-list s path name names h =
    let abs = resolve path s.cwd in
    let prefix = list_prefix abs in
    let below = collect true prefix (keys s.files) [] in
    let all = collect true prefix (others abs (keys s.explicit_dirs)) below in
    let sorted : sort units_no_later (keys all) ≡ names = ground arith in
    ap (any (λ n. n == name)) (sym sorted)
    ∙ any-sort (λ n. n == name) units_no_later (keys all)
    ∙ any-keys all name
    ∙ rw
        (
          has-collect prefix (others abs (keys s.explicit_dirs)) below name,
          has-collect prefix (keys s.files) [] name,
        )
        (ground (arith, get-empty {V = Unit {0}} name))
