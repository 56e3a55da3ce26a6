-- ===== src/Hamt.antt =====
-- packages/kvgit-ts/src/hamt.ts: the content-addressed trie and its node cache.
pub mod NodeCache
pub mod Trie
pub mod Insert
pub mod Delete
pub mod Update
pub mod Batch
pub mod Diff
