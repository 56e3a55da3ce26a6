-- ===== src/Lib.antt =====
-- agex-ts, a model of its storage and file-system core.
--
-- The program. kvgit-ts is a versioned key-value store. At the bottom a backend maps keys to bytes.
-- On it `Hamt`, a content-addressed trie, holds a commit's keyset: nodes that are not yet written
-- wait in a map of pending nodes, and `NodeCache` keeps parsed ones. A versioned store has a head
-- commit; two commits meet in `resolveMerge`, which is given each side's changes since their common
-- ancestor. `Staged` buffers an agent's writes over a versioned store and sends them as one commit,
-- and `Namespaced` is a key-prefix view over `Staged`. Commits refer to their parents, and transfers
-- and merges ask which commits one reaches and another does not. world keeps notes for a model that is
-- working in an inbox, from which they are put into a tool's result. termish-ts is a shell for agents, whose
-- commands run on a file system: paths, and `MemoryFS`, the one that is held in a map.
--
-- The files, with the code that each is about:
--   Store, Store/Memory, Store/Memory/Batches: `KVStore` of packages/kvgit-ts/src/types.ts, and
--     packages/kvgit-ts/src/backends/memory.ts with _batch.ts. The state is the map of entries; an
--     operation takes it and gives its answer beside the state it leaves.
--   Hamt/NodeCache: `NodeCache` of packages/kvgit-ts/src/hamt.ts.
--   Hamt/Trie, Hamt/Insert, Hamt/Delete, Hamt/Update, Hamt/Batch, Hamt/Diff: `Hamt` of the same file. `get` is
--     `find`; `insertAt`, `deleteAt`, `tryCollapse`, `splitLeaf`, `updated`, `filterPending`,
--     `applyAt`, `subtreeOf`, `updatedBatch`, `itemsFrom` and `diffWalk` keep their names. Children of these modules have the
--     lemmas: Hamt/Trie/Walk on walks that meet no missing node, Hamt/Trie/Split on splitting,
--     Hamt/Insert/Roots on insertion from a root, Hamt/Batch/Updates on batches, Hamt/Update/Filter
--     and Kept on pending nodes.
--   PyJson: packages/kvgit-ts/src/pyjson.ts: `compareCodePoints`, in PyJson/Write `pyDumps`, in PyJson/Read
--     `pyLoads`. Escapes, Numbers, Floats and Values follow a text from the writer to the reader.
--   Merge: packages/kvgit-ts/src/versioned/merge.ts, with the types of types.ts and errors.ts there.
--     Merge/Outcome is an independent description, the three-way merge of one key.
--   Versioned: the `Versioned` interface of packages/kvgit-ts/src/types.ts, as a record of
--     operations on a state.
--   Staged, Staged/Flush: packages/kvgit-ts/src/staged.ts over any such record. Staged/Sends, Commit and
--     Heads are on what it sends; Staged/Calls is on any calls.
--   Namespaced: packages/kvgit-ts/src/namespaced.ts over an interface that `Staged` fills.
--   Json, Layout: JSON values, and the records of packages/kvgit-ts/src/versioned/layout.ts.
--   Ancestry: `loadRecords` and `parentsOf` of packages/kvgit-ts/src/versioned/ancestry.ts.
--     Ancestry/Records has what they read of what `commitRecords` of layout.ts writes.
--     Ancestry/Search is the loop that the walks share, and Ancestry/Search/Reach what it finds.
--     Ancestry/Walks has `ancestorsByWalk` and the walk of `ancestryDelta`, and of helpers.ts
--     there `walkHistory` and `diffKeysets`. Ancestry/Paint has `paint` and the questions that it answers;
--     its children follow a search: State is what holds throughout, Count and Parents and Visits and
--     Levels what a visit keeps, Rounds and Starts the loop and its start, Delta and Asked the answers.
--   Lease: packages/kvgit-ts/src/versioned/lease.ts over Store/Memory; Lease/Runs has the calls of sweeps
--     and writers, in any order. What a call reads and what it does with that are steps of their own.
--   World/Inbox: packages/world/src/inbox.ts, with Counts on any sequence of calls, Moves on restored
--     notes and Block on rendered ones.
--   Fs, Fs/Path, Fs/Memory with Renaming and Listing: packages/termish-ts/src/fs/errors.ts, path.ts,
--     memory.ts and the types of protocol.ts.
--   Brace: packages/termish-ts/src/brace.ts, with Brace/Limits on its end and its bound.
--   JsMap: JavaScript's `Map`, `Set` and objects of strings, as entries in the order of insertion.
--   Prelude: library names passed on, tests on numbers, text, sorting and results.
--   Examples: concrete runs.
--
-- Strings are lists of UTF-16 code units. Bytes are a value, since the backends copy them on the way
-- in and out. A function that may throw gives a `Result`; where an object is changed, the state after
-- the throw stands beside it. Awaits run in sequence: each operation is one step, and what happens
-- between two steps is a sequence of calls.
--
-- Parameters. `Format` stands for JSON, SHA-256 and base64 in `Hamt`. Its laws: a node that is parsed
-- from its own bytes has the same entries, a parsed node has distinct keys, distinct bytes have
-- distinct hashes, the empty leaf's hash is the empty hash, and a value that is decoded from its own
-- encoding is the same. Examples/Formats has an instance. `JSON.parse` is a parameter of the commits'
-- records, and a commit store is what it answers to `get`. `Number` of a
-- text with a fraction or an exponent is one of `pyLoads`. The lease is over numbers of seconds of a
-- given type. A merge function, a value's encoder and
-- decoder, and the versioned store are parameters as well.
--
-- Fuel. A walk down the trie takes one unit for each level, and a hash's 64 characters and one are
-- given. `filterPending` takes one for each node to visit and each reference in a pending node. The
-- walk up to a missing parent takes the path's length and two. A walk over commits takes one for each
-- start and each parent of each commit in the store. `paint` is given the highest generation that is
-- queued and two, as each round visits a lower one. Brace expansion takes the length of the word and
-- one. `pyLoads` takes the length of the text and one.
--
-- Not modelled. Of `Hamt`: `getMany`, `walk`, the iterators but `itemsFrom`, and the node cache's use. The
-- versioned store itself, its refs and garbage collection, and the hashes of commits, which are asynchronous over
-- a backend; the backends on SQLite, IndexedDB and GitHub, and synchronization, which are calls of
-- other systems; line merging. Of termish-ts: the parser, the interpreter, the
-- commands, globs, and the file systems over Node and over a store. The packages of agents, worlds
-- and SQL.
pub mod Prelude
pub mod JsMap
pub mod Store
pub mod Hamt
pub mod PyJson
pub mod Merge
pub mod Ancestry
pub mod Brace
pub mod Lease
pub mod Json
pub mod Layout
pub mod Versioned
pub mod World
pub mod Staged
pub mod Namespaced
pub mod Fs
pub mod Examples
