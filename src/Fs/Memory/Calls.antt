-- ===== src/Fs/Memory/Calls.antt =====
-- Any sequence of calls of `MemoryFS`: one that throws changes nothing, and every file keeps its
-- metadata.
use agex_ts.Prelude.{
  Str, str_Eq, ◌==◌, ◌≡◌, refl, sym, Bool, true, false, Option, none, some, List, [], ◌∷◌, ◌++◌,
  is_some, starts_with, if◌then◌else◌, arith,
}
use agex_ts.Prelude.Result.{err}
use agex_ts.JsMap
use agex_ts.JsMap.{JsMap, keys}
use agex_ts.JsMap.Laws.{get-set, get-delete}
use agex_ts.Store.{Bytes}
use agex_ts.Fs.{FsError}
use agex_ts.Fs.Path.{slash, resolve}
use agex_ts.Fs.Memory.{
  MemoryFs, FileMeta, Outcome, WriteMode, MkdirOptions, new_memory_fs, chdir, write, mkdir, remove,
  rmdir, rename, stat, stat_found, move_entry, move_file, move_files, move_dirs, move_dir,
  move_dir_entry, add_dirs, add_dir, drop_dir, written, touched, segments, moved, dir_exists,
}

-- The calls that change a file system.
pub data Call : Type 0 where
  chdirs : Str → Call
  writes : Str → Bytes → WriteMode → Str → Call
  mkdirs : Str → MkdirOptions → Str → Call
  removes : Str → Call
  rmdirs : Str → Call
  renames : Str → Str → Call

unfoldable pub apply : MemoryFs → Call → Outcome
unfolding chdir write mkdir remove rmdir rename
apply s (chdirs path) = chdir s path
apply s (writes path content mode now) = write s path content mode now
apply s (mkdirs path opts now) = mkdir s path opts now
apply s (removes path) = remove s path
apply s (rmdirs path) = rmdir s path
apply s (renames src dst) = rename s src dst

pub run : MemoryFs → List Call → MemoryFs
run s [] = s
run s (c ∷ calls) = run (apply s c).1 calls

-- Whatever the call, one that throws leaves the file system as it was.
pub apply_unchanged :
    (s : MemoryFs) (c : Call) (e : FsError) → (apply s c).0 ≡ err e → (apply s c).1 ≡ s
unfolding apply
apply_unchanged s (chdirs path) e h = ground arith
apply_unchanged s (writes path content mode now) e h = ground arith
apply_unchanged s (mkdirs path opts now) e h = ground arith
apply_unchanged s (removes path) e h = ground arith
apply_unchanged s (rmdirs path) e h = ground arith
apply_unchanged s (renames src dst) e h = ground arith

-- The files and the metadata have the same paths.
pub record HasMeta (s : MemoryFs) : Type 0 where
  pub same : (k : Str) → JsMap.has s.files k ≡ JsMap.has s.file_meta k

move_entry-HasMeta :
    (s : MemoryFs) (from to : Str) (v : Option Bytes) (m : Option FileMeta)
    → HasMeta s
    → HasMeta (move_entry s from to v m)
move_entry-HasMeta s from to (some v) (some m) h = record {
  same = λ k. simp (get-set, get-delete) (ground (arith, h.same k));
}
move_entry-HasMeta s from to none m h = h
move_entry-HasMeta s from to (some v) none h = h

if_HasMeta : (c : Bool) (a b : MemoryFs) → HasMeta a → HasMeta b → HasMeta (if c then a else b)
if_HasMeta true a b ha hb = ha
if_HasMeta false a b ha hb = hb

move_files-HasMeta :
    (src dst : Str) (ks : List Str) (s : MemoryFs) → HasMeta s → HasMeta (move_files src dst ks s)
unfolding move_files move_file
move_files-HasMeta src dst [] s h = h
move_files-HasMeta src dst (k ∷ ks) s h =
    let below = starts_with k (src ++ slash ∷ []) in
    let to = moved src dst k in
    move_files-HasMeta src dst ks (if below then move_file s k to else s) (
      if_HasMeta below (move_file s k to) s
        (move_entry-HasMeta s k to (JsMap.get s.files k) (JsMap.get s.file_meta k) h) h)

move_dirs-HasMeta :
    (src dst : Str) (ds : List Str) (s : MemoryFs) → HasMeta s → HasMeta (move_dirs src dst ds s)
unfolding move_dirs
move_dirs-HasMeta src dst [] s h = h
move_dirs-HasMeta src dst (d ∷ ds) s h =
    let below = starts_with d (src ++ slash ∷ []) in
    let a = move_dir_entry s d dst in
    let b = move_dir_entry s d (moved src dst d) in
    let c = if below then b else s in
    move_dirs-HasMeta src dst ds (if d == src then a else c) (
      if_HasMeta (d == src) a c (record { same = h.same })
        (if_HasMeta below b s (record { same = h.same }) h))

add_dirs-HasMeta :
    (s : MemoryFs) (segs : List Str) (prefix now : Str)
    → HasMeta s
    → HasMeta (add_dirs s segs prefix now)
unfolding add_dirs
add_dirs-HasMeta s [] prefix now h = h
add_dirs-HasMeta s (seg ∷ segs) prefix now h =
    let next = prefix ++ slash ∷ seg in
    let there = dir_exists s next in
    add_dirs-HasMeta (if there then s else add_dir s next now) segs next now
      (if_HasMeta there s (add_dir s next now) h (record { same = h.same }))

move_dir-HasMeta : (s : MemoryFs) (src dst : Str) → HasMeta s → HasMeta (move_dir s src dst)
unfolding move_dir
move_dir-HasMeta s src dst h =
    let s' = move_files src dst (keys s.files) s in
    move_dirs-HasMeta src dst (keys s'.explicit_dirs) s'
      (move_files-HasMeta src dst (keys s.files) s h)

apply-HasMeta : (s : MemoryFs) (c : Call) → HasMeta s → HasMeta (apply s c).1
unfolding apply
apply-HasMeta s (chdirs path) h = record { same = λ k. ground (arith, h.same k) }
apply-HasMeta s (writes path content mode now) h = record {
  same = λ k.
      let abs = resolve path s.cwd in
      ground (
        arith,
        h.same k,
        get-set s.files abs k (written mode (JsMap.get s.files abs) content),
        get-set s.file_meta abs k (touched (JsMap.get s.file_meta abs) now),
      );
}
apply-HasMeta s (mkdirs path opts now) h = record {
  same = λ k.
      ground
        (arith, h.same k, (add_dirs-HasMeta s (segments (resolve path s.cwd)) [] now h).same k);
}
apply-HasMeta s (removes path) h = record {
  same = λ k.
      let abs = resolve path s.cwd in
      ground (arith, h.same k, get-delete s.files abs k, get-delete s.file_meta abs k);
}
apply-HasMeta s (rmdirs path) h = record { same = λ k. ground (arith, h.same k) }
apply-HasMeta s (renames src dst) h = record {
  same = λ k.
      let a = resolve src s.cwd in
      let b = resolve dst s.cwd in
      ground (
        arith,
        h.same k,
        (move_entry-HasMeta s a b (JsMap.get s.files a) (JsMap.get s.file_meta a) h).same k,
        (move_dir-HasMeta s a b h).same k,
        (move_dir-HasMeta (drop_dir s b) a b (record { same = h.same })).same k,
      );
}

-- Whatever calls are made of a new file system, every file has its metadata, and nothing else has a
-- file's.
pub run-HasMeta : (s : MemoryFs) (calls : List Call) → HasMeta s → HasMeta (run s calls)
unfolding run
run-HasMeta s [] h = h
run-HasMeta s (c ∷ calls) h = run-HasMeta (apply s c).1 calls (apply-HasMeta s c h)

new_memory_fs-HasMeta : HasMeta new_memory_fs
unfolding new_memory_fs JsMap.get
new_memory_fs-HasMeta = record { same = λ k. refl }

stat_found-returns :
    (s : MemoryFs) (path abs : Str) (v : Option Bytes) (m : Option FileMeta)
    → is_some v ≡ is_some m
    → is_some (stat_found s path abs v m) ≡ true
stat_found-returns s path abs none m e = refl
stat_found-returns s path abs (some v) none e = sym e
stat_found-returns s path abs (some v) (some m) e = refl

stat-returns : (s : MemoryFs) (path : Str) → HasMeta s → is_some (stat s path) ≡ true
unfolding stat
stat-returns s path h =
    stat_found-returns s path (resolve path s.cwd) (JsMap.get s.files (resolve path s.cwd))
      (JsMap.get s.file_meta (resolve path s.cwd)) (h.same (resolve path s.cwd))

-- After any calls of a new file system, `stat` never reads metadata that is missing.
pub stat-run :
    (calls : List Call) (path : Str) → is_some (stat (run new_memory_fs calls) path) ≡ true
stat-run calls path =
    stat-returns (run new_memory_fs calls) path
      (run-HasMeta new_memory_fs calls new_memory_fs-HasMeta)
