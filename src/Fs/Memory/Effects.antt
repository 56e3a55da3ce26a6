-- ===== src/Fs/Memory/Effects.antt =====
-- What a call that returns leaves in the files, and that the error for a missing parent is found.
use agex_ts.Prelude.{
  ℕ, zero, suc, ◌+◌, ◌≤◌, ◌<◌, length, Str, str_Eq, str_eq, ◌==◌, ◌≡◌, refl, ◌∙◌, true, false, not,
  ◌&&◌, ◌||◌, Option, none, some, [], ◌∷◌, is_some, or_else, starts_with, filter, if◌then◌else◌,
  Bool-cases, inl, inr, arith, ◌⊎◌,
}
use mathlib.Core.Option.{some-injective}
use agex_ts.Prelude.Result.{ok, err}
use agex_ts.JsMap
use agex_ts.JsMap.Laws.{get-set, eq_refl}
use agex_ts.Store.{Bytes}
use agex_ts.Fs.{FsError, eisdir, enoent, root}
use agex_ts.Fs.Path.{resolve, dirname, last_slash, take, later, cut_at, split, join, collapse}
use agex_ts.Fs.Memory.{
  MemoryFs, WriteMode, written, write, read, exists, dir_exists, missing_parent, read_found,
}

found_is :
    (s : MemoryFs) (path abs : Str) (fs : JsMap.JsMap Str Bytes) (v : Bytes)
    → JsMap.get fs abs ≡ some v
    → read_found (record s { files = fs }) path abs (JsMap.get fs abs) ≡ ok v
found_is s path abs fs v e = rw e refl

-- A write throws and changes nothing; or it returns, and then the file reads as what was written, put
-- after the old content in the append mode, and no other file differs.
pub write_lem :
    (s : MemoryFs) (path : Str) (content : Bytes) (mode : WriteMode) (now : Str)
    → let abs = resolve path s.cwd in
      let r = write s path content mode now in
      let next = written mode (JsMap.get s.files abs) content in
      ((e : FsError) × (r ≡ (err e, s)))
      ⊎ (r.0 ≡ ok tt)
        × (read r.1 path ≡ ok next)
        × ((j : Str)
            → JsMap.get r.1.files j ≡ (if abs == j then some next else JsMap.get s.files j))
unfolding write read
write_lem s path content mode now =
    let abs = resolve path s.cwd in
    let next = written mode (JsMap.get s.files abs) content in
    elim (Bool-cases (dir_exists s abs && not (JsMap.has s.files abs))) [
      | inl dir ↦ inl (record { code = eisdir; path = path }, rw dir refl)
      | inr free ↦ elim (Bool-cases (not (dir_exists s (dirname abs)))) [
        | inl lost ↦
            let parent = dirname abs in
            let code = or_else (missing_parent (length parent + 2) s parent) enoent in
            inl (record { code = code; path = parent }, rw (free, lost) refl)
        | inr there ↦ inr (
          rw (free, there) refl,
          rw (free, there)
              (found_is s path abs _ next (get-set s.files abs abs next ∙ rw (eq_refl abs) refl)),
          λ j. rw (free, there) (get-set s.files abs j next),
        )
      ]
    ]

length-take : (n : ℕ) (s : Str) → length (take n s) ≤ n
length-take zero s = omega arith
length-take (suc n) [] = omega arith
length-take (suc n) (c ∷ s) = omega (arith, length-take n s)

later-lt :
    (c n i : ℕ) (o : Option ℕ) → ((k : ℕ) → o ≡ some k → k < n) → later c o ≡ some i → i < suc n
later-lt c n i none k h = ground arith
later-lt c n i (some j) k h = omega (arith, k j refl, some-injective (j + 1) i h)

last_slash-lt : (s : Str) (i : ℕ) → last_slash s ≡ some i → i < length s
unfolding last_slash
last_slash-lt [] i h = absurd (ground arith)
last_slash-lt (c ∷ s) i h = later-lt c (length s) i (last_slash s) (λ k e. last_slash-lt s k e) h

cut-shorter :
    (path : Str) (o : Option ℕ)
    → ((i : ℕ) → o ≡ some i → i < length path)
    → (cut_at path o ≡ root) ⊎ (length (cut_at path o) < length path)
cut-shorter path none k = inl refl
cut-shorter path (some zero) k = inl refl
cut-shorter path (some (suc i)) k = inr (omega (arith, length-take (suc i) path, k (suc i) refl))

-- The directory of a path is the root, or shorter than the path.
dirname-shorter : (path : Str) → (dirname path ≡ root) ⊎ (length (dirname path) < length path)
unfolding dirname
dirname-shorter path = cut-shorter path (last_slash path) (λ i e. last_slash-lt path i e)

resolve-root : (cwd : Str) → resolve root cwd ≡ root
unfolding resolve starts_with split filter join collapse str_eq
resolve-root cwd = refl

dir_exists-root : (s : MemoryFs) → dir_exists s root ≡ true
unfolding dir_exists
dir_exists-root s = ground (arith, eq_refl root)

exists_at :
    (s : MemoryFs) (abs : Str) → abs ≡ root → (JsMap.has s.files abs || dir_exists s abs) ≡ true
exists_at s abs e = rw (e, dir_exists-root s) (ground arith)

exists-root : (s : MemoryFs) → exists s root ≡ true
unfolding exists
exists-root s = exists_at s (resolve root s.cwd) (resolve-root s.cwd)

root-returns : (s : MemoryFs) (fuel : ℕ) → 0 < fuel → is_some (missing_parent fuel s root) ≡ true
unfolding missing_parent
root-returns s zero n = absurd (omega arith)
root-returns s (suc fuel) n = rw (exists-root s) refl

nonempty : (path : Str) → (path == root || path == []) ≡ false → 0 < length path
unfolding str_eq
nonempty [] h = absurd (ground arith)
nonempty (c ∷ path) h = omega arith

-- The search for the error of a missing parent ends, on fuel for two more rounds than characters.
pub missing_parent-returns :
    (s : MemoryFs) (fuel : ℕ) (path : Str)
    → length path + 2 ≤ fuel
    → is_some (missing_parent fuel s path) ≡ true
unfolding missing_parent
missing_parent-returns s zero path n = absurd (omega arith)
missing_parent-returns s (suc fuel) path n = elim (Bool-cases (exists s path)) [
  | inl there ↦ rw there refl
  | inr gone ↦ elim (Bool-cases (path == root || path == [])) [
    | inl top ↦ rw (gone, top) refl
    | inr below ↦
        rw (gone, below)
          (elim (dirname-shorter path) [
            | inl e ↦ rw e (root-returns s fuel (omega (arith, nonempty path below)))
            | inr shorter ↦ missing_parent-returns s fuel (dirname path) (omega arith)
          ])
  ]
]
