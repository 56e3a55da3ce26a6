-- ===== src/Store.antt =====
-- packages/kvgit-ts/src/types.ts, `KVStore`: what every backend offers.
pub mod Memory
use agex_ts.Prelude.{ℕ, Str, List}

-- A `Uint8Array`, as a value: every backend copies on the way in and on the way out.
abbrev pub Bytes : Type 0
Bytes = List ℕ

-- The one error a batch throws: `casMany: '<key>' is both written and removed`.
pub data BatchError : Type 0 where
  written_and_removed : Str → BatchError
