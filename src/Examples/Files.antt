-- ===== src/Examples/Files.antt =====
-- A file system with one directory and one file in it.
use agex_ts.Prelude.{
  Str, str_Eq, str_eq, ◌==◌, ◌≡◌, ◌⊎◌, refl, true, false, some, List, [], ◌∷◌, codes, All, is_some,
  if◌then◌else◌, starts_with, any, filter, ◌||◌,
}
use agex_ts.Prelude.Result.{ok, err}
use agex_ts.JsMap
use agex_ts.Fs.{FsError, eexist, root}
use agex_ts.Fs.Path.{slash, split, join, collapse, resolve, normalize}
use agex_ts.Fs.Path.Normal.{IsName, normalize_lem}
use agex_ts.Fs.Memory
use agex_ts.Fs.Memory.{
  MemoryFs, MkdirOptions, append, truncate, new_memory_fs, written, write, read, mkdir, rename,
  dir_exists, stat, missing_parent,
}
use agex_ts.Fs.Memory.Listing.{list, others}
use agex_ts.Fs.Memory.Listing.Below.{any-list}
use agex_ts.Fs.Memory.Calls.{mkdirs, writes, renames, apply, run, apply_unchanged, stat-run}
use agex_ts.Fs.Memory.Effects.{write_lem}

abbrev now : Str
now = codes "2026-01-01T00:00:00.000Z"

abbrev docs : Str
docs = codes "/docs"

abbrev page : Str
page = codes "/docs/page"

abbrev no_options : MkdirOptions
no_options = record { parents = false; exist_ok = false }

abbrev one_page : MemoryFs
one_page = record new_memory_fs {
  files = (page, 1 ∷ []) ∷ [];
  file_meta = (page, record { created_at = now; modified_at = now }) ∷ [];
  explicit_dirs = (root, tt) ∷ (docs, tt) ∷ [];
}

normalize_run : normalize (codes "a/./b//../c") ≡ codes "/a/c"
unfolding normalize str_eq
normalize_run = refl

normalize_lem_example :
    (names : List Str) × (normalize (codes "a/../b") ≡ slash ∷ join names)
    × All IsName names
    × (normalize (normalize (codes "a/../b")) ≡ normalize (codes "a/../b"))
normalize_lem_example = normalize_lem (codes "a/../b")

write_lem_example :
    let r = write one_page page (2 ∷ []) append now in
    ((e : FsError) × (r ≡ (err e, one_page)))
    ⊎ (r.0 ≡ ok tt)
      × (read r.1 page ≡ ok (1 ∷ 2 ∷ []))
      × ((j : Str)
          → JsMap.get r.1.files j
            ≡ (if page == j then some (1 ∷ 2 ∷ []) else JsMap.get one_page.files j))
unfolding new_memory_fs resolve split join collapse filter starts_with JsMap.get str_eq
write_lem_example = write_lem one_page page (2 ∷ []) append now

apply_unchanged_example : (apply one_page (mkdirs docs no_options now)).1 ≡ one_page
unfolding apply mkdir str_eq starts_with JsMap.get dir_exists new_memory_fs
apply_unchanged_example =
    apply_unchanged one_page (mkdirs docs no_options now) (record { code = eexist; path = docs })
      refl

stat-run_example :
    is_some (
      stat
        (run new_memory_fs (
          mkdirs docs no_options now
          ∷ writes page (1 ∷ []) truncate now
          ∷ renames docs (codes "/d")
          ∷ []))
        (codes "/d/page"))
    ≡ true
stat-run_example =
    stat-run
      (mkdirs docs no_options now
        ∷ writes page (1 ∷ []) truncate now
        ∷ renames docs (codes "/d")
        ∷ [])
      (codes "/d/page")

-- The root moves into itself: the call returns, and the root is no longer an explicit directory.
rename_root_run : rename new_memory_fs root docs ≡ (
  ok tt,
  record new_memory_fs {
    explicit_dirs = (docs, tt) ∷ [];
    dir_meta = (docs, Memory.synthetic_dir_meta) ∷ [];
  },
)
unfolding rename str_eq starts_with JsMap.get new_memory_fs JsMap.set JsMap.delete
rename_root_run = refl

list_run : list one_page root true ≡ ok (codes "docs" ∷ codes "docs/page" ∷ [])
unfolding list JsMap.get str_eq starts_with JsMap.set
list_run = refl

any-list_example : any (λ n. n == codes "docs/page") (codes "docs" ∷ codes "docs/page" ∷ []) ≡ (
    any (λ d. d == page) (others root (JsMap.keys one_page.explicit_dirs))
    || any (λ k. k == page) (JsMap.keys one_page.files))
unfolding resolve split join collapse filter starts_with str_eq
any-list_example =
    any-list one_page root (codes "docs/page") (codes "docs" ∷ codes "docs/page" ∷ []) list_run
