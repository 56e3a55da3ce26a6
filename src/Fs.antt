-- ===== src/Fs.antt =====
-- packages/termish-ts/src/fs: paths and the in-process file system.
pub mod Path
pub mod Memory
use agex_ts.Prelude.{Str, codes}

-- errors.ts: the codes that `MemoryFS` throws.
pub data FsErrorCode : Type 0 where
  enoent eisdir enotdir eexist enotempty einval : FsErrorCode

-- errors.ts, `FsError`, without its text.
pub record FsError : Type 0 where
  pub code : FsErrorCode
  pub path : Str

abbrev pub root : Str
root = codes "/"
