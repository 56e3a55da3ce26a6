-- ===== src/Staged/Commit.antt =====
-- What `commit` sends to the versioned store, and what it leaves staged.
use agex_ts.Prelude.{
  Str, str_Eq, str_eq_iff, ◌≡◌, refl, sym, ◌∙◌, Bool, true, false, not, ◌||◌, ◌&&◌, Option, none,
  some, List, [], ◌∷◌, arith, ◌==◌, if◌then◌else◌, or_else, Bool-cases, inl, inr,
}
use mathlib.Core.Logic.{◌⊎◌}
use agex_ts.Prelude.Result.{Result, ok, err, Result-cases}
use agex_ts.JsMap
use agex_ts.JsMap.{JsMap, JsSet}
use agex_ts.JsMap.Laws.{IsUnique, get-set}
use agex_ts.JsMap.Batch.{member, first_some, get-delete_all}
use agex_ts.Versioned.{Versioned, MergeResult, CommitOptions}
use agex_ts.Staged.{
  Staged, StagedCommitOptions, Codec, commit, landed, match_update, matched_updates,
  matched_removals, flushed_updates, flushed_removals, encode_all, commit_options, after_commit,
}
use agex_ts.Staged.Sends.{
  EncodesOver, get-encode_all, encode_all-err, or_else-non_empty, matched_updates-IsUnique,
}
use agex_ts.Staged.Sends.{FnsUnique, SendsFns, fns-SendsFns}
use agex_ts.Staged.Branches.{lands}

abbrev pub in_filter : Option (List Str) → Str → Bool
in_filter none k = true
in_filter (some ks) k = member ks k

module _ {Val : Type 0} where
  get-match_update :
      (k j : Str) (o : Option Val) (out : JsMap Str Val)
      → JsMap.get (match_update k o out) j
        ≡ (if k == j then first_some o (JsMap.get out j) else JsMap.get out j)
  get-match_update k j none out = ground arith
  get-match_update k j (some v) out = get-set out k j v

  get-matched_updates :
      (updates : JsMap Str Val) (ks : List Str) (out : JsMap Str Val) (j : Str)
      → JsMap.get (matched_updates updates ks out) j ≡ (
          if member ks j
          then first_some (JsMap.get updates j) (JsMap.get out j)
          else JsMap.get out j)
  unfolding matched_updates member
  get-matched_updates updates [] out j = refl
  get-matched_updates updates (k ∷ ks) out j =
      let o = JsMap.get updates k in
      ground (
        arith,
        get-matched_updates updates ks (match_update k o out) j,
        get-match_update k j o out,
        str_eq_iff k j,
      )

has-add_if :
    (here : Bool) (k j : Str) (out : JsSet Str)
    → JsMap.has (if here then JsMap.add out k else out) j ≡ (k == j && here || JsMap.has out j)
has-add_if true k j out = ground (arith, get-set out k j tt)
has-add_if false k j out = ground arith

has-matched_removals :
    (removals : JsSet Str) (ks : List Str) (out : JsSet Str) (j : Str)
    → JsMap.has (matched_removals removals ks out) j
      ≡ (member ks j && JsMap.has removals j || JsMap.has out j)
unfolding matched_removals member
has-matched_removals removals [] out j = refl
has-matched_removals removals (k ∷ ks) out j =
    let here = JsMap.has removals k in
    ground (
      arith,
      has-matched_removals removals ks (if here then JsMap.add out k else out) j,
      has-add_if here k j out,
      str_eq_iff k j,
    )

module _ {V Val : Type 0} where
  -- A commit flushes exactly what is staged under its filter, and once landed leaves staged exactly
  -- what is not under it, and no cached value. With no filter every key is under it.
  pub flush_lem :
      (s : Staged V Val) (filter_keys : Option (List Str)) (j : Str)
      → (JsMap.get (flushed_updates s filter_keys) j
          ≡ (if in_filter filter_keys j then JsMap.get s.updates j else none))
        × (JsMap.has (flushed_removals s filter_keys) j
            ≡ (in_filter filter_keys j && JsMap.has s.removals j))
        × (JsMap.get (landed s filter_keys).updates j
            ≡ (if in_filter filter_keys j then none else JsMap.get s.updates j))
        × (JsMap.has (landed s filter_keys).removals j
            ≡ (not (in_filter filter_keys j) && JsMap.has s.removals j))
        × (JsMap.get (landed s filter_keys).cache j ≡ none)
  unfolding flushed_updates flushed_removals landed JsMap.get
  flush_lem s none j = ground arith
  flush_lem s (some ks) j = ground (
    arith,
    get-matched_updates s.updates ks [] j,
    has-matched_removals s.removals ks [] j,
    get-delete_all s.updates ks j,
    get-delete_all s.removals ks j,
  )

module _ {V Val : Type 0} where
  landed-versioned :
      (s : Staged V Val) (filter_keys : Option (List Str))
      → (landed s filter_keys).versioned ≡ s.versioned
  unfolding landed
  landed-versioned s none = refl
  landed-versioned s (some ks) = refl

  -- what is staged under a filter
  abbrev pub staged_update : Staged V Val → Option (List Str) → Str → Option Val
  staged_update s filter_keys j = if in_filter filter_keys j then JsMap.get s.updates j else none

  -- What a commit leaves: after one that landed, what is not under the filter, with an empty cache;
  -- after any other, everything.
  abbrev pub Leaves : Bool → Option (List Str) → Staged V Val → Staged V Val → Type 0
  Leaves true filter_keys s s' =
      (j : Str)
      → (JsMap.get s'.updates j ≡ (if in_filter filter_keys j then none else JsMap.get s.updates j))
        × (JsMap.has s'.removals j ≡ (not (in_filter filter_keys j) && JsMap.has s.removals j))
        × (JsMap.get s'.cache j ≡ none)
  Leaves false filter_keys s s' =
      (s'.updates ≡ s.updates) × (s'.removals ≡ s.removals) × (s'.cache ≡ s.cache)

module _ {V Val : Type 0} (io : Versioned V) (codec : Codec Val) where
  -- The options that a commit sends: under the filter, each staged value's encoding and each removal,
  -- and the call's other options.
  pub record Sends (s : Staged V Val) (opts : StagedCommitOptions Val) (o : CommitOptions)
      : Type 0 where
    pub updates :
        (j : Str)
        → EncodesOver codec (staged_update s opts.keys j) none (JsMap.get (or_else o.updates []) j)
    pub removals :
        (j : Str)
        → JsMap.has (or_else o.removals []) j ≡ (in_filter opts.keys j && JsMap.has s.removals j)
    pub fns : SendsFns codec s opts.merge_fns opts.default_merge o.merge_fns o.default_merge
    pub on_conflict : o.on_conflict ≡ opts.on_conflict
    pub info : o.info ≡ opts.info

  -- A staged value under the filter does not encode, and its error is thrown.
  pub record Throws (s : Staged V Val) (opts : StagedCommitOptions Val) : Type 0 where
    pub key : Str
    pub v : Val
    pub error : Str
    pub is_staged : staged_update s opts.keys key ≡ some v
    pub throws : codec.encode v ≡ err error
    pub unchanged : commit io codec s opts ≡ (err error, s)

  -- The store's `commit` is called with these options, and its answer comes back.
  pub record Commits (s : Staged V Val) (opts : StagedCommitOptions Val) : Type 0 where
    pub sent : CommitOptions
    pub sends : Sends s opts sent
    pub answer : (commit io codec s opts).0 ≡ (io.commit s.versioned sent).0
    pub store : (commit io codec s opts).1.versioned ≡ (io.commit s.versioned sent).1
    pub leaves :
        Leaves (lands (io.commit s.versioned sent).0) opts.keys s (commit io codec s opts).1

  flushed_updates-IsUnique :
      (s : Staged V Val) (filter_keys : Option (List Str))
      → IsUnique s.updates
      → IsUnique (flushed_updates s filter_keys)
  unfolding flushed_updates
  flushed_updates-IsUnique s none u = u
  flushed_updates-IsUnique s (some ks) u = matched_updates-IsUnique s.updates ks [] tt

  after_commit-Leaves :
      (s : Staged V Val) (filter_keys : Option (List Str)) (call : Result Str MergeResult × V)
      → ((after_commit io codec s filter_keys call).0 ≡ call.0)
        × ((after_commit io codec s filter_keys call).1.versioned ≡ call.1)
        × Leaves (lands call.0) filter_keys s (after_commit io codec s filter_keys call).1
  after_commit-Leaves s filter_keys (err e, v) = (refl, refl, (refl, refl, refl))
  after_commit-Leaves s filter_keys (ok r, v) =
      let s' = record s { versioned = v } in
      elim (Bool-cases r.merged) [
        | inl merged ↦ rw merged (
          refl,
          landed-versioned s' filter_keys,
          λ j.
              let (u, d, updates, removals, cache) = flush_lem s' filter_keys j in
              (updates, removals, cache),
        )
        | inr refused ↦ rw refused (refl, refl, (refl, refl, refl))
      ]

  -- A commit throws where a staged value under its filter does not encode, with nothing changed.
  -- Otherwise the store is called with the encodings of the values staged under the filter, the
  -- removals staged there, the merge functions of the call before those registered, and the call's
  -- other options; and its answer comes back. If that landed, what was under the filter is no longer
  -- staged and no value is cached, and else buffer and cache are kept. The maps of staged updates and of
  -- merge functions have no key twice.
  pub commit_lem :
      (s : Staged V Val) (opts : StagedCommitOptions Val)
      → IsUnique s.updates
      → FnsUnique s opts.merge_fns
      → Throws s opts ⊎ Commits s opts
  unfolding commit commit_options JsMap.get
  commit_lem s opts u f =
      let flushed = flushed_updates s opts.keys in
      let once = flushed_updates-IsUnique s opts.keys u in
      elim (Result-cases (encode_all codec flushed [])) [
        | inr (e, failed) ↦
            let (k, v, found, throws) = encode_all-err codec flushed [] e once failed in
            inl (record {
              key = k;
              v = v;
              error = e;
              is_staged = sym (flush_lem s opts.keys k).0 ∙ found;
              throws = throws;
              unchanged = rw failed refl;
            })
        | inl (encoded, done) ↦
            let sent = commit_options io codec s opts encoded in
            let (answer, store, leaves) =
              after_commit-Leaves s opts.keys (io.commit s.versioned sent) in
            inr (record {
              sent = sent;
              sends = record {
                updates = λ j.
                    rw (or_else-non_empty encoded, ← (flush_lem s opts.keys j).0)
                      (get-encode_all codec flushed [] encoded j once done);
                removals = λ j.
                    rw (or_else-non_empty (flushed_removals s opts.keys))
                      (flush_lem s opts.keys j).1;
                fns = fns-SendsFns codec s opts.merge_fns opts.default_merge f;
                on_conflict = refl;
                info = refl;
              };
              answer = rw done answer;
              store = rw done store;
              leaves = rw done leaves;
            })
      ]
