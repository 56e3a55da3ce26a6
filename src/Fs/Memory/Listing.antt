-- ===== src/Fs/Memory/Listing.antt =====
-- packages/termish-ts/src/fs/memory.ts: `list` and `listDetailed`.
pub mod Below
use agex_ts.Prelude.{
  ℕ, length, drop, Str, str_Eq, nat_Eq, ◌==◌, ◌≡◌, refl, ◌∙◌, Bool, true, false, not, ◌&&◌, ◌||◌,
  Option, none, some, List, [], ◌∷◌, ◌++◌, any, sort, starts_with, ltb, if◌then◌else◌, or_else,
}
use agex_ts.Prelude.Result.{Result, ok, err, ◌>>=◌}
use agex_ts.JsMap
use agex_ts.JsMap.{JsSet, keys}
use agex_ts.Store.{Bytes}
use agex_ts.Fs.{FsError, enoent, enotdir, root}
use agex_ts.Fs.Path.{slash, resolve, basename, join_path}
use agex_ts.Fs.Memory.{MemoryFs, FileMeta, exists, dir_exists, synthetic_dir_meta}

-- `sort()` with no comparator: by UTF-16 code units
unfoldable pub units_no_later : Str → Str → Bool
units_no_later [] t = true
units_no_later (c ∷ s) [] = false
units_no_later (c ∷ s) (d ∷ t) = if c == d then units_no_later s t else ltb c d

-- `rest.slice(0, rest.indexOf('/'))`, or all of it
unfoldable pub before_slash : Str → Str
before_slash [] = []
before_slash (c ∷ s) = if c == slash then [] else c ∷ before_slash s

abbrev pub entry : Bool → Str → Str
entry recursive rest = if recursive then rest else before_slash rest

-- the paths under a prefix, each as its entry, into the set
unfoldable pub collect : Bool → Str → List Str → JsSet Str → JsSet Str
unfolding before_slash
collect recursive prefix [] out = out
collect recursive prefix (k ∷ ks) out =
    collect recursive prefix ks (
      if starts_with k prefix
      then JsMap.add out (entry recursive (drop (length prefix) k))
      else out)

-- the directories but the listed one itself
unfoldable pub others : Str → List Str → List Str
others abs [] = []
others abs (d ∷ ds) = let rest = others abs ds in if d == abs then rest else d ∷ rest

abbrev pub list_prefix : Str → Str
list_prefix abs = if abs == root then root else abs ++ slash ∷ []

unfoldable pub list : MemoryFs → Str → Bool → Result FsError (List Str)
unfolding exists dir_exists collect others units_no_later resolve sort keys
list s path recursive =
    let abs = resolve path s.cwd in
    let prefix = list_prefix abs in
    let below = collect recursive prefix (keys s.files) [] in
    if not (dir_exists s abs)
    then err (record { code = if exists s path then enotdir else enoent; path = path })
    else ok (
        sort units_no_later
          (keys (collect recursive prefix (others abs (keys s.explicit_dirs)) below)))

pub record FileInfo : Type 0 where
  pub name : Str
  pub path : Str
  pub size : ℕ
  pub created_at : Str
  pub modified_at : Str
  pub is_directory : Bool

-- `path.replace(/\/$/, '')`
unfoldable pub strip_slash : Str → Str
strip_slash [] = []
strip_slash (c ∷ []) = if c == slash then [] else c ∷ []
strip_slash (c ∷ d ∷ s) = c ∷ strip_slash (d ∷ s)

abbrev file_info : Str → Str → Option Bytes → Option FileMeta → List FileInfo → List FileInfo
file_info name user_path (some value) (some meta) rest =
    record {
      name = basename name;
      path = user_path;
      size = length value;
      created_at = meta.created_at;
      modified_at = meta.modified_at;
      is_directory = false;
    }
    ∷ rest
file_info name user_path none _ rest = rest
file_info name user_path (some value) none rest = rest

abbrev dir_info : Str → Str → FileMeta → FileInfo
dir_info name user_path meta = record {
  name = basename name;
  path = user_path;
  size = 0;
  created_at = meta.created_at;
  modified_at = meta.modified_at;
  is_directory = true;
}

-- the loop of `listDetailed`
unfoldable pub detail_all : MemoryFs → Str → Str → List Str → List FileInfo
detail_all s abs user_prefix [] = []
detail_all s abs user_prefix (name ∷ names) =
    let child_abs = join_path abs name in
    let user_path = join_path user_prefix name in
    let rest = detail_all s abs user_prefix names in
    let value = JsMap.get s.files child_abs in
    if dir_exists s child_abs && not (JsMap.has s.files child_abs)
    then dir_info name user_path (or_else (JsMap.get s.dir_meta child_abs) synthetic_dir_meta)
      ∷ rest
    else file_info name user_path value (JsMap.get s.file_meta child_abs) rest

unfoldable pub list_detailed : MemoryFs → Str → Bool → Result FsError (List FileInfo)
unfolding list detail_all strip_slash join_path basename resolve
list_detailed s path recursive = do
  names ← list s path recursive
  ok (detail_all s (resolve path s.cwd) (if path == root then root else strip_slash path) names)
