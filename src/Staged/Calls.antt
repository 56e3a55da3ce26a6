-- ===== src/Staged/Calls.antt =====
-- Any sequence of calls of `Staged`: the buffer and the cache stay sound.
use agex_ts.Prelude.{
  Str, str_Eq, ◌≡◌, refl, ◌∙◌, Bool, true, false, Option, none, some, List, [], ◌∷◌, if◌then◌else◌,
  Bool-cases, inl, inr,
}
use agex_ts.Prelude.Result.{Result, ok, err}
use agex_ts.JsMap
use agex_ts.Store.{Bytes}
use agex_ts.Versioned.{Versioned, MergeResult, CommitOptions, MergeHeadsOptions}
use agex_ts.Staged.{
  Staged, MergeFn, StagedCommitOptions, StagedMergeHeadsOptions, Codec, new_staged, set, delete,
  get, reset, set_merge_fn, set_default_merge, switch_branch, refresh, reset_to, create_branch,
  commit, merge_heads, landed, clear_cache, moved, reset_if, forked, has_changes, encode_all,
  flushed_updates, commit_options, merge_heads_options,
}
use agex_ts.Staged.Buffer.{
  IsDisjoint, new_staged-IsDisjoint, set-IsDisjoint, delete-IsDisjoint, cleared-IsDisjoint,
  landed-IsDisjoint,
}
use agex_ts.Staged.Reads.{IsCoherent, get-Answers}
use agex_ts.Staged.Branches.{
  lands, SameBuffer, Passed, Encodes, Merges, commit_branches, merge_heads_branches,
}

-- The calls that change a `Staged`.
pub data Call (Val : Type 0) : Type 0 where
  sets : Str → Val → Call Val
  deletes : Str → Call Val
  gets : Str → Call Val
  resets : Call Val
  registers : Str → MergeFn Val → Call Val
  defaults : MergeFn Val → Call Val
  switches : Str → Call Val
  refreshes : Call Val
  resets_to : Str → Call Val
  branches : Str → Option Str → Call Val
  commits : StagedCommitOptions Val → Call Val
  merges : Str → StagedMergeHeadsOptions Val → Call Val

module _ {V Val : Type 0} (io : Versioned V) (codec : Codec Val) where
  -- The state after a call, whether it returned or threw.
  pub step : Staged V Val → Call Val → Staged V Val
  step s (sets key v) = set s key v
  step s (deletes key) = delete s key
  step s (gets key) = (get io codec s key).1
  step s resets = reset s
  step s (registers key fn) = set_merge_fn s key fn
  step s (defaults fn) = set_default_merge s fn
  step s (switches name) = (switch_branch io codec s name).1
  step s refreshes = (refresh io codec s).1
  step s (resets_to commit_hash) = (reset_to io codec s commit_hash).1
  step s (branches name at_commit) = (create_branch io codec s name at_commit).1
  step s (commits opts) = (commit io codec s opts).1
  step s (merges their_head opts) = (merge_heads io codec s their_head opts).1

  pub run : Staged V Val → List (Call Val) → Staged V Val
  run s [] = s
  run s (c ∷ calls) = run (step s c) calls

-- What the store promises of a call that does not move its head: every key reads as before.
abbrev pub SameReads : {V : Type 0} → Versioned V → V → V → Type 0
SameReads io v w = (k : Str) → io.get w k ≡ io.get v k

abbrev pub is_ok : {A : Type 0} → Result Str A → Bool
is_ok (ok a) = true
is_ok (err e) = false

abbrev pub is_true : Result Str Bool → Bool
is_true (ok b) = b
is_true (err e) = false

pub record KeepsReads {V : Type 0} (io : Versioned V) : Type 0 where
  pub commit_kept :
      (v : V) (o : CommitOptions)
      → lands (io.commit v o).0 ≡ false
      → SameReads io v (io.commit v o).1
  pub merge_kept :
      (v : V) (h : Str) (o : MergeHeadsOptions)
      → lands (io.merge_heads v h o).0 ≡ false
      → SameReads io v (io.merge_heads v h o).1
  pub switch_kept :
      (v : V) (n : Str)
      → is_ok (io.switch_branch v n).0 ≡ false
      → SameReads io v (io.switch_branch v n).1
  pub refresh_kept : (v : V) → is_ok (io.refresh v).0 ≡ false → SameReads io v (io.refresh v).1
  pub reset_kept :
      (v : V) (h : Str) → is_true (io.reset_to v h).0 ≡ false → SameReads io v (io.reset_to v h).1
  pub branch_kept : (v : V) (n : Str) (c : Option Str) → SameReads io v (io.create_branch v n c).1

module _ {V Val : Type 0} (io : Versioned V) (codec : Codec Val) where
  -- No key is staged both ways, and every cached value is what the store holds.
  pub record IsSound (s : Staged V Val) : Type 0 where
    pub disjoint : IsDisjoint s
    pub coherent : IsCoherent io codec s

  cleared-IsCoherent : (s : Staged V Val) → s.cache ≡ [] → IsCoherent io codec s
  unfolding JsMap.get
  cleared-IsCoherent s e = record { current = λ k v h. cc (rw e at h) }

  kept-IsSound :
      (s s' : Staged V Val)
      → SameBuffer s s'
      → SameReads io s.versioned s'.versioned
      → IsSound s
      → IsSound s'
  kept-IsSound s s' b same h = record {
    disjoint = record { apart = λ k u. rw b.removals (h.disjoint.apart k (rw b.updates at u)) };
    coherent = record { current = λ k v g. rw (same k) (h.coherent.current k v (rw b.cache at g)) };
  }

  emptied-IsSound :
      (t s' : Staged V Val) → SameBuffer t s' → IsDisjoint t → t.cache ≡ [] → IsSound s'
  emptied-IsSound t s' b d e = record {
    disjoint = record { apart = λ k u. rw b.removals (d.apart k (rw b.updates at u)) };
    coherent = cleared-IsCoherent s' (b.cache ∙ e);
  }

  landed-cache :
      (s : Staged V Val) (filter_keys : Option (List Str)) → (landed s filter_keys).cache ≡ []
  unfolding landed
  landed-cache s none = refl
  landed-cache s (some ks) = refl

  Passed-IsSound :
      (s t : Staged V Val) (call : Result Str MergeResult × V)
      (r : Result Str MergeResult × Staged V Val)
      → IsSound s
      → IsDisjoint t
      → t.cache ≡ []
      → (lands call.0 ≡ false → SameReads io s.versioned call.1)
      → Passed (if lands call.0 then t else s) call r
      → IsSound r.1
  Passed-IsSound s t call r h d e same p = elim (Bool-cases (lands call.0)) [
    | inl landed_call ↦ emptied-IsSound t r.1 (rw landed_call at p.buffer) d e
    | inr kept ↦ kept-IsSound s r.1 (rw kept at p.buffer) (λ k. rw p.store (same kept k)) h
  ]

  reset-IsSound : (s : Staged V Val) → IsSound (reset s)
  unfolding reset
  reset-IsSound s = record {
    disjoint = record { apart = (cleared-IsDisjoint s).apart };
    coherent = cleared-IsCoherent (reset s) refl;
  }

  moved-IsSound :
      (s : Staged V Val) (call : Result Str (Unit {0}) × V)
      → IsSound s
      → (is_ok call.0 ≡ false → SameReads io s.versioned call.1)
      → IsSound (moved io codec s call).1
  moved-IsSound s (ok x, v) h same = reset-IsSound (record s { versioned = v })
  moved-IsSound s (err e, v) h same =
      kept-IsSound s (record s { versioned = v })
        (record { updates = refl; removals = refl; cache = refl }) (same refl) h

  reset_if-IsSound :
      (s : Staged V Val) (call : Result Str Bool × V)
      → IsSound s
      → (is_true call.0 ≡ false → SameReads io s.versioned call.1)
      → IsSound (reset_if io codec s call).1
  reset_if-IsSound s (ok true, v) h same = reset-IsSound (record s { versioned = v })
  reset_if-IsSound s (ok false, v) h same =
      kept-IsSound s (record s { versioned = v })
        (record { updates = refl; removals = refl; cache = refl }) (same refl) h
  reset_if-IsSound s (err e, v) h same =
      kept-IsSound s (record s { versioned = v })
        (record { updates = refl; removals = refl; cache = refl }) (same refl) h

  forked-IsSound :
      (s : Staged V Val) (call : Result Str V × V)
      → IsSound s
      → SameReads io s.versioned call.1
      → IsSound (forked io codec s call).1
  forked-IsSound s (ok w, v) h same =
      kept-IsSound s (record s { versioned = v })
        (record { updates = refl; removals = refl; cache = refl }) same h
  forked-IsSound s (err e, v) h same =
      kept-IsSound s (record s { versioned = v })
        (record { updates = refl; removals = refl; cache = refl }) same h

  module _ (kept : KeepsReads io) where
    commit-IsSound :
        (s : Staged V Val) (opts : StagedCommitOptions Val) (r : Result Str (JsMap.JsMap Str Bytes))
        → IsSound s
        → Encodes io codec s opts r
        → IsSound (commit io codec s opts).1
    commit-IsSound s opts (err e) h p = rw p h
    commit-IsSound s opts (ok encoded) h p =
        Passed-IsSound s (landed s opts.keys) _ (commit io codec s opts) h
          (landed-IsDisjoint s opts.keys h.disjoint) (landed-cache s opts.keys)
          (kept.commit_kept s.versioned (commit_options io codec s opts encoded)) p

    merge_heads-IsSound :
        (s : Staged V Val) (their_head : Str) (opts : StagedMergeHeadsOptions Val) (b : Bool)
        → IsSound s
        → Merges io codec s their_head opts b
        → IsSound (merge_heads io codec s their_head opts).1
    merge_heads-IsSound s their_head opts true h p = rw p h
    merge_heads-IsSound s their_head opts false h p =
        Passed-IsSound s (clear_cache s) _ (merge_heads io codec s their_head opts) h
          (record { apart = h.disjoint.apart }) refl
          (kept.merge_kept s.versioned their_head (merge_heads_options io codec s opts)) p

    step-IsSound : (s : Staged V Val) (c : Call Val) → IsSound s → IsSound (step io codec s c)
    unfolding step
    step-IsSound s (sets key v) h = record {
      disjoint = set-IsDisjoint s key v h.disjoint;
      coherent = unfold set in record { current = h.coherent.current };
    }
    step-IsSound s (deletes key) h = record {
      disjoint = delete-IsDisjoint s key h.disjoint;
      coherent = unfold delete in record { current = h.coherent.current };
    }
    step-IsSound s (gets key) h =
        let a = get-Answers io codec s key h.coherent in
        record {
          disjoint = record {
            apart = λ k u. rw a.same_removals (h.disjoint.apart k (rw a.same_updates at u));
          };
          coherent = a.coherent;
        }
    step-IsSound s resets h = reset-IsSound s
    step-IsSound s (registers key fn) h =
        unfold set_merge_fn in
        record {
          disjoint = record { apart = h.disjoint.apart };
          coherent = record { current = h.coherent.current };
        }
    step-IsSound s (defaults fn) h =
        unfold set_default_merge in
        record {
          disjoint = record { apart = h.disjoint.apart };
          coherent = record { current = h.coherent.current };
        }
    step-IsSound s (switches name) h =
        unfold switch_branch in
        moved-IsSound s (io.switch_branch s.versioned name) h (kept.switch_kept s.versioned name)
    step-IsSound s refreshes h =
        unfold refresh in moved-IsSound s (io.refresh s.versioned) h (kept.refresh_kept s.versioned)
    step-IsSound s (resets_to commit_hash) h =
        unfold reset_to in
        reset_if-IsSound s (io.reset_to s.versioned commit_hash) h
          (kept.reset_kept s.versioned commit_hash)
    step-IsSound s (branches name at_commit) h =
        unfold create_branch in
        forked-IsSound s (io.create_branch s.versioned name at_commit) h
          (kept.branch_kept s.versioned name at_commit)
    step-IsSound s (commits opts) h =
        commit-IsSound s opts (encode_all codec (flushed_updates s opts.keys) []) h
          (commit_branches io codec s opts)
    step-IsSound s (merges their_head opts) h =
        merge_heads-IsSound s their_head opts (has_changes s) h
          (merge_heads_branches io codec s their_head opts)

    run_from-IsSound :
        (s : Staged V Val) (calls : List (Call Val)) → IsSound s → IsSound (run io codec s calls)
    unfolding run
    run_from-IsSound s [] h = h
    run_from-IsSound s (c ∷ calls) h =
        run_from-IsSound (step io codec s c) calls (step-IsSound s c h)

    -- Over a store that keeps its reads where a call does not land, whatever calls are made of a new
    -- `Staged`, failing or not, no key is staged both as an update and as a removal, and every cached
    -- value is the decoded value that the store holds.
    pub run-IsSound :
        (v : V) (calls : List (Call Val)) → IsSound (run io codec (new_staged v) calls)
    run-IsSound v calls = run_from-IsSound (new_staged v) calls (record {
      disjoint = new_staged-IsDisjoint v;
      coherent = cleared-IsCoherent (new_staged v) (unfold new_staged in refl);
    })
