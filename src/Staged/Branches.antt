-- ===== src/Staged/Branches.antt =====
-- The branches of `commit` and `mergeHeads`, for proofs over any sequence of calls.
use agex_ts.Prelude.{
  Str, str_Eq, ◌≡◌, refl, Bool, true, false, Option, none, some, List, [], arith, if◌then◌else◌,
}
use agex_ts.Prelude.Result.{Result, ok, err}
use agex_ts.JsMap.{JsMap}
use agex_ts.Store.{Bytes}
use agex_ts.Versioned.{Versioned, MergeResult}
use agex_ts.Staged.{
  Staged, StagedCommitOptions, Codec, commit, landed, flushed_updates, encode_all, commit_options,
  after_commit, merge_heads, has_changes, staged_changes, StagedMergeHeadsOptions,
  merge_heads_options, clear_cache,
}

-- Whether a call landed.
abbrev pub lands : Result Str MergeResult → Bool
lands (ok r) = r.merged
lands (err e) = false

module _ {V Val : Type 0} where
  -- `s'` has the buffer and the cache of `t`.
  pub record SameBuffer (t s' : Staged V Val) : Type 0 where
    pub updates : s'.updates ≡ t.updates
    pub removals : s'.removals ≡ t.removals
    pub cache : s'.cache ≡ t.cache

  -- what a call of the versioned store's `commit` or `mergeHeads` comes back as
  pub record Passed (t : Staged V Val) (call : Result Str MergeResult × V)
      (r : Result Str MergeResult × Staged V Val) : Type 0 where
    pub answer : r.0 ≡ call.0
    pub store : r.1.versioned ≡ call.1
    pub buffer : SameBuffer t r.1

module _ {V Val : Type 0} (io : Versioned V) (codec : Codec Val) where
  after_commit-Passed :
      (s : Staged V Val) (filter_keys : Option (List Str)) (call : Result Str MergeResult × V)
      → Passed
          (if lands call.0 then landed s filter_keys else s)
          call
          (after_commit io codec s filter_keys call)
  unfolding landed
  after_commit-Passed s filter_keys (err e, v) = ground arith
  after_commit-Passed s none (ok r, v) = ground arith
  after_commit-Passed s (some ks) (ok r, v) = ground arith

  -- How a commit ends, by whether the flushed values encode.
  abbrev pub Encodes :
      Staged V Val → StagedCommitOptions Val → Result Str (JsMap Str Bytes) → Type 0
  Encodes s opts (err e) = commit io codec s opts ≡ (err e, s)
  Encodes s opts (ok encoded) =
      let call = io.commit s.versioned (commit_options io codec s opts encoded) in
      Passed (if lands call.0 then landed s opts.keys else s) call (commit io codec s opts)

  commit_by :
      (s : Staged V Val) (opts : StagedCommitOptions Val) (r : Result Str (JsMap Str Bytes))
      → encode_all codec (flushed_updates s opts.keys) [] ≡ r
      → Encodes s opts r
  unfolding commit
  commit_by s opts (err e) p = rw p
  commit_by s opts (ok encoded) p = rw p (after_commit-Passed s opts.keys _)

  pub commit_branches :
      (s : Staged V Val) (opts : StagedCommitOptions Val)
      → Encodes s opts (encode_all codec (flushed_updates s opts.keys) [])
  commit_branches s opts = commit_by s opts (encode_all codec (flushed_updates s opts.keys) []) refl

  -- How a merge of heads ends, by whether anything is staged.
  abbrev pub Merges : Staged V Val → Str → StagedMergeHeadsOptions Val → Bool → Type 0
  Merges s their_head opts true = merge_heads io codec s their_head opts ≡ (err staged_changes, s)
  Merges s their_head opts false =
      let call = io.merge_heads s.versioned their_head (merge_heads_options io codec s opts) in
      Passed (if lands call.0 then clear_cache s else s) call
        (merge_heads io codec s their_head opts)

  merge_heads_by :
      (s : Staged V Val) (their_head : Str) (opts : StagedMergeHeadsOptions Val) (b : Bool)
      → has_changes s ≡ b
      → Merges s their_head opts b
  unfolding merge_heads
  merge_heads_by s their_head opts true h = rw h
  merge_heads_by s their_head opts false h = rw h (ground arith)

  pub merge_heads_branches :
      (s : Staged V Val) (their_head : Str) (opts : StagedMergeHeadsOptions Val)
      → Merges s their_head opts (has_changes s)
  merge_heads_branches s their_head opts = merge_heads_by s their_head opts (has_changes s) refl
