-- ===== src/Fs/Memory.antt =====
-- packages/termish-ts/src/fs/memory.ts: `MemoryFS`, files in a map by absolute path. A call that may
-- throw gives a `Result` beside the state; what reads the clock takes the time.

mod Renaming
unfoldable pub use Renaming.*
pub mod Listing
pub mod Calls
pub mod Effects
use agex_ts.Prelude.{
  ℕ, zero, suc, ◌+◌, length, Str, str_Eq, ◌==◌, Bool, true, false, not, ◌&&◌, ◌||◌, Option, none,
  some, List, [], ◌∷◌, ◌++◌, any, filter, is_some, or_else, starts_with, if◌then◌else◌, codes,
}
use agex_ts.Prelude.Result.{Result, ok, err}
use agex_ts.JsMap
use agex_ts.JsMap.{JsMap, JsSet, keys}
use agex_ts.Store.{Bytes}
use agex_ts.Fs.{FsErrorCode, enoent, eisdir, enotdir, eexist, enotempty, einval, FsError, root}
use agex_ts.Fs.Path.{slash, split, resolve, dirname}

pub data WriteMode : Type 0 where
  truncate append : WriteMode

pub record MkdirOptions : Type 0 where
  pub parents : Bool
  pub exist_ok : Bool

pub record FileMetadata : Type 0 where
  pub size : ℕ
  pub created_at : Str
  pub modified_at : Str
  pub is_directory : Bool

abbrev pub epoch : Str
epoch = codes "1970-01-01T00:00:00.000Z"

abbrev pub synthetic_dir_meta : FileMeta
synthetic_dir_meta = record { created_at = epoch; modified_at = epoch }

unfoldable pub new_memory_fs : MemoryFs
new_memory_fs = record {
  cwd = root;
  files = [];
  file_meta = [];
  explicit_dirs = (root, tt) ∷ [];
  dir_meta = (root, synthetic_dir_meta) ∷ [];
}

abbrev pub Outcome : Type 0
Outcome = Result FsError (Unit {0}) × MemoryFs

abbrev pub throw : MemoryFs → FsErrorCode → Str → Outcome
throw s code path = (err (record { code = code; path = path }), s)

abbrev pub done : MemoryFs → Outcome
done s = (ok tt, s)

unfoldable pub exists : MemoryFs → Str → Bool
unfolding dir_exists resolve
exists s path = let abs = resolve path s.cwd in JsMap.has s.files abs || dir_exists s abs

unfoldable pub is_file : MemoryFs → Str → Bool
unfolding resolve
is_file s path = JsMap.has s.files (resolve path s.cwd)

unfoldable pub is_dir : MemoryFs → Str → Bool
unfolding dir_exists resolve
is_dir s path = dir_exists s (resolve path s.cwd)

unfoldable pub chdir : MemoryFs → Str → Outcome
unfolding exists dir_exists resolve
chdir s path =
    let abs = resolve path s.cwd in
    if not (dir_exists s abs)
    then throw s (if exists s path then enotdir else enoent) path
    else done (record s { cwd = abs })

abbrev pub read_found : MemoryFs → Str → Str → Option Bytes → Result FsError Bytes
read_found s path abs (some v) = ok v
read_found s path abs none =
    err (record { code = if dir_exists s abs then eisdir else enoent; path = path })

unfoldable pub read : MemoryFs → Str → Result FsError Bytes
unfolding dir_exists resolve
read s path = let abs = resolve path s.cwd in read_found s path abs (JsMap.get s.files abs)

abbrev found : JsMap Str Bytes → Str → Option Bytes → JsMap Str Bytes
found out path none = out
found out path (some v) = JsMap.set out path v

unfoldable pub read_many_from : MemoryFs → List Str → JsMap Str Bytes → JsMap Str Bytes
read_many_from s [] out = out
read_many_from s (path ∷ paths) out =
    read_many_from s paths (found out path (JsMap.get s.files (resolve path s.cwd)))

unfoldable pub read_many : MemoryFs → List Str → JsMap Str Bytes
unfolding read_many_from resolve
read_many s paths = read_many_from s paths []

abbrev pub of_dir : FileMeta → FileMetadata
of_dir meta = record {
  size = 0;
  created_at = meta.created_at;
  modified_at = meta.modified_at;
  is_directory = true;
}

-- A file with no metadata would be an exception, here `none`.
abbrev pub stat_found :
    MemoryFs → Str → Str → Option Bytes → Option FileMeta → Option (Result FsError FileMetadata)
stat_found s path abs (some v) none = none
stat_found s path abs (some v) (some meta) = some (
    ok (record {
      size = length v;
      created_at = meta.created_at;
      modified_at = meta.modified_at;
      is_directory = false;
    }))
stat_found s path abs none _ = some (
    if dir_exists s abs
    then ok (of_dir (or_else (JsMap.get s.dir_meta abs) synthetic_dir_meta))
    else err (record { code = enoent; path = path }))

unfoldable pub stat : MemoryFs → Str → Option (Result FsError FileMetadata)
unfolding dir_exists resolve
stat s path =
    let abs = resolve path s.cwd in
    stat_found s path abs (JsMap.get s.files abs) (JsMap.get s.file_meta abs)

-- errors.ts, the loop of `missingParent`: the code. With no fuel left it has not returned.
unfoldable pub missing_parent : ℕ → MemoryFs → Str → Option FsErrorCode
unfolding exists is_dir dirname
missing_parent zero s path = none
missing_parent (suc fuel) s path =
    let rest = missing_parent fuel s (dirname path) in
    if exists s path
    then some (if is_dir s path then enoent else enotdir)
    else if path == root || path == []
    then some enoent
    else rest

-- Each round cuts a character off, but the last two.
unfoldable pub throw_missing : MemoryFs → Str → Outcome
unfolding missing_parent
throw_missing s parent =
    throw s (or_else (missing_parent (length parent + 2) s parent) enoent) parent

abbrev pub written : WriteMode → Option Bytes → Bytes → Bytes
written truncate existing content = content
written append none content = content
written append (some existing) content = existing ++ content

abbrev pub touched : Option FileMeta → Str → FileMeta
touched none now = record { created_at = now; modified_at = now }
touched (some meta) now = record { created_at = meta.created_at; modified_at = now }

unfoldable pub write : MemoryFs → Str → Bytes → WriteMode → Str → Outcome
unfolding dir_exists throw_missing resolve dirname
write s path content mode now =
    let abs = resolve path s.cwd in
    if dir_exists s abs && not (JsMap.has s.files abs)
    then throw s eisdir path
    else if not (dir_exists s (dirname abs))
    then throw_missing s (dirname abs)
    else done (record s {
      files = JsMap.set s.files abs (written mode (JsMap.get s.files abs) content);
      file_meta = JsMap.set s.file_meta abs (touched (JsMap.get s.file_meta abs) now);
    })

abbrev pub add_dir : MemoryFs → Str → Str → MemoryFs
add_dir s abs now = record s {
  explicit_dirs = JsMap.add s.explicit_dirs abs;
  dir_meta = JsMap.set s.dir_meta abs (record { created_at = now; modified_at = now });
}

-- the segments of an absolute path
abbrev pub segments : Str → List Str
segments abs = filter (λ seg. not (seg == [])) (split abs)

-- the loop of `mkdir` with `parents`
unfoldable pub add_dirs : MemoryFs → List Str → Str → Str → MemoryFs
add_dirs s [] prefix now = s
add_dirs s (seg ∷ segs) prefix now =
    let next = prefix ++ slash ∷ seg in
    add_dirs (if dir_exists s next then s else add_dir s next now) segs next now

-- the loop of `#refuseAFileOnTheWay`: whether a component is a file
unfoldable pub file_on_the_way : MemoryFs → List Str → Str → Bool
file_on_the_way s [] current = false
file_on_the_way s (part ∷ parts) current =
    let next = current ++ slash ∷ part in JsMap.has s.files next || file_on_the_way s parts next

unfoldable pub mkdir : MemoryFs → Str → MkdirOptions → Str → Outcome
unfolding dir_exists throw_missing add_dirs file_on_the_way resolve dirname split filter
mkdir s path opts now =
    let abs = resolve path s.cwd in
    if JsMap.has s.files abs
    then throw s eexist path
    else if dir_exists s abs
    then if opts.exist_ok then done s else throw s eexist path
    else if opts.parents
    then if file_on_the_way s (segments abs) []
      then throw s enotdir path
      else done (add_dirs s (segments abs) [] now)
    else if not (dir_exists s (dirname abs))
    then throw_missing s (dirname abs)
    else done (add_dir s abs now)

unfoldable pub remove : MemoryFs → Str → Outcome
unfolding dir_exists resolve
remove s path =
    let abs = resolve path s.cwd in
    if not (JsMap.has s.files abs)
    then throw s (if dir_exists s abs then eisdir else enoent) path
    else done
        (record s { files = JsMap.delete s.files abs; file_meta = JsMap.delete s.file_meta abs })

abbrev pub drop_dir : MemoryFs → Str → MemoryFs
drop_dir s abs = record s {
  explicit_dirs = JsMap.delete s.explicit_dirs abs;
  dir_meta = JsMap.delete s.dir_meta abs;
}

unfoldable pub rmdir : MemoryFs → Str → Outcome
unfolding dir_exists dir_has_children resolve
rmdir s path =
    let abs = resolve path s.cwd in
    if abs == root
    then throw s einval path
    else if JsMap.has s.files abs
    then throw s enotdir path
    else if not (dir_exists s abs)
    then throw s enoent path
    else if dir_has_children s abs
    then throw s enotempty path
    else done (drop_dir s abs)

unfoldable pub rename : MemoryFs → Str → Str → Outcome
unfolding exists dir_exists dir_has_children throw_missing move_dir resolve dirname
rename s src dst =
    let abs_src = resolve src s.cwd in
    let abs_dst = resolve dst s.cwd in
    if abs_src == abs_dst && exists s abs_src
    then done s
    else if JsMap.has s.files abs_src
    then if dir_exists s abs_dst
      then throw s eisdir dst
      else if not (dir_exists s (dirname abs_dst))
      then throw_missing s (dirname abs_dst)
      else done (move_file s abs_src abs_dst)
    else if dir_exists s abs_src
    then if JsMap.has s.files abs_dst
      then throw s enotdir dst
      else if starts_with abs_dst (abs_src ++ slash ∷ [])
      then throw s einval dst
      else if dir_exists s abs_dst && dir_has_children s abs_dst
      then throw s enotempty dst
      else if not (dir_exists s abs_dst) && not (dir_exists s (dirname abs_dst))
      then throw_missing s (dirname abs_dst)
      else done (move_dir (if dir_exists s abs_dst then drop_dir s abs_dst else s) abs_src abs_dst)
    else throw s enoent src
