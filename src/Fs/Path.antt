-- ===== src/Fs/Path.antt =====
-- packages/termish-ts/src/fs/path.ts: POSIX paths as strings.
pub mod Normal
use agex_ts.Prelude.{
  ℕ, zero, suc, ◌+◌, Str, str_Eq, nat_Eq, ◌==◌, Bool, not, ◌&&◌, Option, none, some, List, [], ◌∷◌,
  ◌++◌, drop, filter, starts_with, if◌then◌else◌, codes,
}
use agex_ts.Fs.{root}

abbrev pub slash : ℕ
slash = b'/'

abbrev pub dot : Str
dot = codes "."

abbrev pub dot_dot : Str
dot_dot = codes ".."

abbrev pub extend : ℕ → List Str → List Str
extend c [] = (c ∷ []) ∷ []
extend c (s ∷ ss) = (c ∷ s) ∷ ss

-- `path.split('/')`
unfoldable pub split : Str → List Str
split [] = [] ∷ []
split (c ∷ s) = let rest = split s in if c == slash then [] ∷ rest else extend c rest

-- `segments.join('/')`
unfoldable pub join : List Str → Str
join [] = []
join (s ∷ []) = s
join (s ∷ t ∷ ss) = s ++ slash ∷ join (t ∷ ss)

-- `out.pop()`, on an array that may be empty
unfoldable pub pop : List Str → List Str
pop [] = []
pop (s ∷ []) = []
pop (s ∷ t ∷ ss) = s ∷ pop (t ∷ ss)

-- the loop of `normalize`
unfoldable pub collapse : List Str → List Str → List Str
unfolding pop
collapse [] out = out
collapse (seg ∷ segments) out =
    collapse segments (if seg == dot_dot then pop out else out ++ seg ∷ [])

abbrev pub kept : Str → Bool
kept s = not (s == []) && not (s == dot)

unfoldable pub normalize : Str → Str
unfolding split join collapse filter
normalize path = slash ∷ join (collapse (filter kept (split path)) [])

unfoldable pub resolve : Str → Str → Str
unfolding normalize
resolve path cwd = normalize (if starts_with path root then path else cwd ++ slash ∷ path)

abbrev pub later : ℕ → Option ℕ → Option ℕ
later c (some i) = some (i + 1)
later c none = if c == slash then some 0 else none

-- `path.lastIndexOf('/')`; -1 is none
unfoldable pub last_slash : Str → Option ℕ
last_slash [] = none
last_slash (c ∷ s) = later c (last_slash s)

abbrev pub take : ℕ → Str → Str
take zero s = []
take (suc n) [] = []
take (suc n) (c ∷ s) = c ∷ take n s

abbrev pub cut_at : Str → Option ℕ → Str
cut_at path none = root
cut_at path (some zero) = root
cut_at path (some (suc i)) = take (suc i) path

unfoldable pub dirname : Str → Str
unfolding last_slash
dirname path = cut_at path (last_slash path)

abbrev past : Str → Option ℕ → Str
past path none = path
past path (some i) = drop (i + 1) path

unfoldable pub basename : Str → Str
unfolding last_slash
basename path = past path (last_slash path)

unfoldable pub join_path : Str → Str → Str
join_path parent child = if parent == root then slash ∷ child else parent ++ slash ∷ child
