-- ===== src/Fs/Memory/Renaming.antt =====
-- packages/termish-ts/src/fs/memory.ts: the state of `MemoryFS`, its tests of directories, and the
-- loops of `rename`.
use agex_ts.Prelude.{
  length, drop, Str, str_Eq, ◌==◌, Bool, not, ◌&&◌, ◌||◌, Option, none, some, List, [], ◌∷◌, ◌++◌,
  any, starts_with, if◌then◌else◌,
}
use agex_ts.JsMap
use agex_ts.JsMap.{JsMap, JsSet, keys}
use agex_ts.Store.{Bytes}
use agex_ts.Fs.{root}
use agex_ts.Fs.Path.{slash}

pub record FileMeta : Type 0 where
  pub created_at : Str
  pub modified_at : Str

pub record MemoryFs : Type 0 where
  pub cwd : Str
  pub files : JsMap Str Bytes
  pub file_meta : JsMap Str FileMeta
  pub explicit_dirs : JsSet Str
  pub dir_meta : JsMap Str FileMeta

unfoldable pub dir_exists : MemoryFs → Str → Bool
unfolding keys any
dir_exists s abs =
    let prefix = abs ++ slash ∷ [] in
    JsMap.has s.explicit_dirs abs
    || (abs == root
        || (any (λ k. starts_with k prefix) (keys s.files)
            || any (λ d. starts_with d prefix) (keys s.explicit_dirs)))

unfoldable pub dir_has_children : MemoryFs → Str → Bool
unfolding keys any
dir_has_children s abs =
    let prefix = if abs == root then root else abs ++ slash ∷ [] in
    any (λ k. starts_with k prefix) (keys s.files)
    || any (λ d. not (d == abs) && starts_with d prefix) (keys s.explicit_dirs)

-- A file moves with its metadata. Only paths that are there are moved.
abbrev pub move_entry : MemoryFs → Str → Str → Option Bytes → Option FileMeta → MemoryFs
move_entry s from to (some value) (some meta) = record s {
  files = JsMap.set (JsMap.delete s.files from) to value;
  file_meta = JsMap.set (JsMap.delete s.file_meta from) to meta;
}
move_entry s from to none _ = s
move_entry s from to (some value) none = s

unfoldable pub move_file : MemoryFs → Str → Str → MemoryFs
move_file s from to = move_entry s from to (JsMap.get s.files from) (JsMap.get s.file_meta from)

-- where a path below the source goes
abbrev pub moved : Str → Str → Str → Str
moved abs_src abs_dst k = abs_dst ++ slash ∷ drop (length (abs_src ++ slash ∷ [])) k

-- `moves` in order
unfoldable pub move_files : Str → Str → List Str → MemoryFs → MemoryFs
unfolding move_file
move_files abs_src abs_dst [] s = s
move_files abs_src abs_dst (k ∷ ks) s =
    move_files abs_src abs_dst ks
      (if starts_with k (abs_src ++ slash ∷ []) then move_file s k (moved abs_src abs_dst k) else s)

abbrev with_meta : JsMap Str FileMeta → Str → Option FileMeta → JsMap Str FileMeta
with_meta metas to none = metas
with_meta metas to (some meta) = JsMap.set metas to meta

abbrev pub move_dir_entry : MemoryFs → Str → Str → MemoryFs
move_dir_entry s from to = record s {
  explicit_dirs = JsMap.add (JsMap.delete s.explicit_dirs from) to;
  dir_meta = with_meta (JsMap.delete s.dir_meta from) to (JsMap.get s.dir_meta from);
}

-- `dirMoves` in order
unfoldable pub move_dirs : Str → Str → List Str → MemoryFs → MemoryFs
move_dirs abs_src abs_dst [] s = s
move_dirs abs_src abs_dst (d ∷ ds) s = move_dirs abs_src abs_dst ds (
    if d == abs_src
    then move_dir_entry s d abs_dst
    else if starts_with d (abs_src ++ slash ∷ [])
    then move_dir_entry s d (moved abs_src abs_dst d)
    else s)

-- The files first, and then the explicit directories; each list of moves is made before its loop.
unfoldable pub move_dir : MemoryFs → Str → Str → MemoryFs
unfolding move_files move_dirs
move_dir s abs_src abs_dst =
    let s' = move_files abs_src abs_dst (keys s.files) s in
    move_dirs abs_src abs_dst (keys s'.explicit_dirs) s'
