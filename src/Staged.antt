-- ===== src/Staged.antt =====
-- packages/kvgit-ts/src/staged.ts: buffered writes over a `Versioned`.
mod Flush
pub mod Buffer
unfoldable pub use Flush.*
pub mod Reads
pub mod Sends
pub mod Branches
pub mod Commit
pub mod Heads
pub mod Calls
use agex_ts.Prelude.{
  Str, str_Eq, Bool, true, false, not, ◌||◌, Option, none, some, List, [], ◌∷◌, ◌++◌, ltb, is_some,
  if◌then◌else◌, filter, any, ◌==◌, codes,
}
use agex_ts.Prelude.Result.{Result, ok, err, ◌>>=◌}
use agex_ts.JsMap
use agex_ts.JsMap.{JsMap, JsSet, keys}
use agex_ts.JsMap.Batch.{first_some, set_all, delete_all}
use agex_ts.Store.{Bytes}
use agex_ts.Merge.{MergeChoice, FnResult, bytes, chose, threw}
use agex_ts.Versioned
use agex_ts.Versioned.{
  Versioned, ConflictDisposition, MergeResult, BytesMergeFn, CommitOptions, MergeHeadsOptions,
}

pub record Staged (V Val : Type 0) : Type 0 where
  pub versioned : V
  pub updates : JsMap Str Val
  pub removals : JsSet Str
  pub cache : JsMap Str Val
  pub user_merge_fns : JsMap Str (MergeFn Val)
  pub user_default_merge : Option (MergeFn Val)

pub record StagedCommitOptions (Val : Type 0) : Type 0 where
  pub keys : Option (List Str)
  pub on_conflict : Option ConflictDisposition
  pub merge_fns : Option (JsMap Str (MergeFn Val))
  pub default_merge : Option (MergeFn Val)
  pub info : Option Str

pub record StagedMergeHeadsOptions (Val : Type 0) : Type 0 where
  pub on_conflict : Option ConflictDisposition
  pub merge_fns : Option (JsMap Str (MergeFn Val))
  pub default_merge : Option (MergeFn Val)
  pub info : Option Str

module _ {V Val : Type 0} where
  unfoldable pub new_staged : V → Staged V Val
  new_staged v = record {
    versioned = v;
    updates = [];
    removals = [];
    cache = [];
    user_merge_fns = [];
    user_default_merge = none;
  }

  unfoldable pub set : Staged V Val → Str → Val → Staged V Val
  set s key v = record s {
    removals = JsMap.delete s.removals key;
    updates = JsMap.set s.updates key v;
  }

  unfoldable pub delete : Staged V Val → Str → Staged V Val
  delete s key = record s {
    updates = JsMap.delete s.updates key;
    removals = JsMap.add s.removals key;
  }

  unfoldable pub has_changes : Staged V Val → Bool
  has_changes s = ltb 0 (JsMap.size s.updates) || ltb 0 (JsMap.size s.removals)

  unfoldable pub is_staged : Staged V Val → Str → Bool
  is_staged s key = JsMap.has s.updates key || JsMap.has s.removals key

  abbrev pub clear_buffer : Staged V Val → Staged V Val
  clear_buffer s = record s { updates = []; removals = [] }

  abbrev pub clear_cache : Staged V Val → Staged V Val
  clear_cache s = record s { cache = [] }

  unfoldable pub reset : Staged V Val → Staged V Val
  reset s = clear_cache (clear_buffer s)

  unfoldable pub set_merge_fn : Staged V Val → Str → MergeFn Val → Staged V Val
  set_merge_fn s key fn = record s { user_merge_fns = JsMap.set s.user_merge_fns key fn }

  unfoldable pub set_default_merge : Staged V Val → MergeFn Val → Staged V Val
  set_default_merge s fn = record s { user_default_merge = some fn }

  -- registered functions first, the call's own on top
  abbrev pub effective_fns :
      Staged V Val → Option (JsMap Str (MergeFn Val)) → JsMap Str (MergeFn Val)
  effective_fns s none = s.user_merge_fns
  effective_fns s (some fns) = set_all s.user_merge_fns fns

  -- what this commit flushes
  unfoldable pub flushed_updates : Staged V Val → Option (List Str) → JsMap Str Val
  unfolding matched_updates
  flushed_updates s none = s.updates
  flushed_updates s (some filter_keys) = matched_updates s.updates filter_keys []

  unfoldable pub flushed_removals : Staged V Val → Option (List Str) → JsSet Str
  unfolding matched_removals
  flushed_removals s none = s.removals
  flushed_removals s (some filter_keys) = matched_removals s.removals filter_keys []

  -- what a commit that landed takes out of the buffer, and the whole read cache
  unfoldable pub landed : Staged V Val → Option (List Str) → Staged V Val
  landed s none = clear_cache (clear_buffer s)
  landed s (some filter_keys) = clear_cache (record s {
    updates = delete_all s.updates filter_keys;
    removals = delete_all s.removals filter_keys;
  })

  -- a decoded value is cached
  abbrev pub cached : Staged V Val → Str → Result Str Val → Result Str (Option Val) × Staged V Val
  cached s key (err e) = (err e, s)
  cached s key (ok v) = (ok (some v), record s { cache = JsMap.set s.cache key v })

-- the message of the error that `mergeHeads` throws
abbrev pub staged_changes : Str
staged_changes = codes "cannot merge with staged changes; commit or reset first"

module _ {V Val : Type 0} (io : Versioned V) (codec : Codec Val) where
  abbrev pub read_through :
      Staged V Val → Str → Option Bytes → Result Str (Option Val) × Staged V Val
  read_through s key none = (ok none, s)
  read_through s key (some raw) = cached s key (codec.decode raw)

  abbrev pub past_buffer :
      Staged V Val → Str → Option Val → Option Val → Result Str (Option Val) × Staged V Val
  past_buffer s key (some v) held = (ok (some v), s)
  past_buffer s key none (some v) = (ok (some v), s)
  past_buffer s key none none = read_through s key (io.get s.versioned key)

  unfoldable pub get : Staged V Val → Str → Result Str (Option Val) × Staged V Val
  get s key =
      if JsMap.has s.removals key
      then (ok none, s)
      else past_buffer s key (JsMap.get s.updates key) (JsMap.get s.cache key)

  unfoldable pub has : Staged V Val → Str → Bool
  has s key =
      if JsMap.has s.removals key
      then false
      else if JsMap.has s.updates key
      then true
      else io.has s.versioned key

  -- the keys in the order they are yielded: the store's first, then those only staged
  unfoldable pub all_keys : Staged V Val → List Str
  unfolding filter
  all_keys s =
      let seen = filter (λ k. not (JsMap.has s.removals k)) (io.keys s.versioned) in
      seen ++ filter (λ k. not (any (λ j. j == k) seen)) (keys s.updates)

  unfoldable pub peek : Staged V Val → Str → Str → Result Str (Option Val)
  peek s key branch = do raw ← io.peek s.versioned key branch; decode_opt codec raw

  abbrev pub moved : Staged V Val → Result Str (Unit {0}) × V → Result Str (Unit {0}) × Staged V Val
  moved s (ok x, v) = (ok x, reset (record s { versioned = v }))
  moved s (err e, v) = (err e, record s { versioned = v })

  unfoldable pub switch_branch : Staged V Val → Str → Result Str (Unit {0}) × Staged V Val
  unfolding reset
  switch_branch s name = moved s (io.switch_branch s.versioned name)

  unfoldable pub refresh : Staged V Val → Result Str (Unit {0}) × Staged V Val
  unfolding reset
  refresh s = moved s (io.refresh s.versioned)

  abbrev pub reset_if : Staged V Val → Result Str Bool × V → Result Str Bool × Staged V Val
  reset_if s (ok true, v) = (ok true, reset (record s { versioned = v }))
  reset_if s (ok false, v) = (ok false, record s { versioned = v })
  reset_if s (err e, v) = (err e, record s { versioned = v })

  unfoldable pub reset_to : Staged V Val → Str → Result Str Bool × Staged V Val
  unfolding reset
  reset_to s commit_hash = reset_if s (io.reset_to s.versioned commit_hash)

  abbrev pub forked : Staged V Val → Result Str V × V → Result Str (Staged V Val) × Staged V Val
  forked s (ok w, v) = (ok (new_staged w), record s { versioned = v })
  forked s (err e, v) = (err e, record s { versioned = v })

  unfoldable pub create_branch :
      Staged V Val → Str → Option Str → Result Str (Staged V Val) × Staged V Val
  unfolding new_staged
  create_branch s name at_commit = forked s (io.create_branch s.versioned name at_commit)

  abbrev opened : Option V → Option (Staged V Val)
  opened none = none
  opened (some v) = some (new_staged v)

  unfoldable pub checkout : Staged V Val → Str → Option Str → Result Str (Option (Staged V Val))
  unfolding new_staged
  checkout s commit_hash branch = do v ← io.checkout s.versioned commit_hash branch; ok (opened v)

  -- the options that the versioned store is called with
  unfoldable pub commit_options :
      Staged V Val → StagedCommitOptions Val → JsMap Str Bytes → CommitOptions
  unfolding wrap_all flushed_removals
  commit_options s opts encoded_updates = record {
    updates = non_empty encoded_updates;
    removals = non_empty (flushed_removals s opts.keys);
    on_conflict = opts.on_conflict;
    merge_fns = non_empty (wrap_all codec (effective_fns s opts.merge_fns) []);
    default_merge = wrap_default codec (first_some opts.default_merge s.user_default_merge);
    info = opts.info;
  }

  abbrev pub after_commit :
      Staged V Val
      → Option (List Str)
      → Result Str MergeResult × V
      → Result Str MergeResult × Staged V Val
  after_commit s filter_keys (err e, v) = (err e, record s { versioned = v })
  after_commit s filter_keys (ok r, v) =
      let s' = record s { versioned = v } in (ok r, if r.merged then landed s' filter_keys else s')

  abbrev pub commit_encoded :
      Staged V Val
      → StagedCommitOptions Val
      → Result Str (JsMap Str Bytes)
      → Result Str MergeResult × Staged V Val
  commit_encoded s opts (err e) = (err e, s)
  commit_encoded s opts (ok encoded_updates) =
      after_commit s opts.keys (io.commit s.versioned (commit_options s opts encoded_updates))

  unfoldable pub commit :
      Staged V Val → StagedCommitOptions Val → Result Str MergeResult × Staged V Val
  unfolding encode_all flushed_updates landed
  commit s opts = commit_encoded s opts (encode_all codec (flushed_updates s opts.keys) [])

  unfoldable pub merge_heads_options :
      Staged V Val → StagedMergeHeadsOptions Val → MergeHeadsOptions
  unfolding wrap_all
  merge_heads_options s opts = record {
    on_conflict = opts.on_conflict;
    merge_fns = non_empty (wrap_all codec (effective_fns s opts.merge_fns) []);
    default_merge = wrap_default codec (first_some opts.default_merge s.user_default_merge);
    info = opts.info;
  }

  abbrev pub after_merge :
      Staged V Val → Result Str MergeResult × V → Result Str MergeResult × Staged V Val
  after_merge s (err e, v) = (err e, record s { versioned = v })
  after_merge s (ok r, v) =
      let s' = record s { versioned = v } in (ok r, if r.merged then clear_cache s' else s')

  unfoldable pub merge_heads :
      Staged V Val → Str → StagedMergeHeadsOptions Val → Result Str MergeResult × Staged V Val
  unfolding has_changes
  merge_heads s their_head opts =
      if has_changes s
      then (err staged_changes, s)
      else after_merge s (io.merge_heads s.versioned their_head (merge_heads_options s opts))
