-- ===== src/Staged/Heads.antt =====
-- `mergeHeads`, by what is staged.
use agex_ts.Prelude.{
  Str, str_Eq, str_eq_iff, ◌≡◌, refl, Bool, true, false, ◌||◌, [], ◌∷◌, arith, if◌then◌else◌, ltb,
  Bool-cases, inl, inr,
}
use mathlib.Core.Logic.{◌⊎◌}
use agex_ts.Prelude.Result.{Result, ok, err}
use agex_ts.JsMap
use agex_ts.JsMap.{JsMap, JsSet}
use agex_ts.Versioned.{Versioned, MergeResult, MergeHeadsOptions}
use agex_ts.Staged.{
  Staged, Codec, after_merge, merge_heads, has_changes, staged_changes, StagedMergeHeadsOptions,
  merge_heads_options,
}
use agex_ts.Staged.Sends.{FnsUnique, SendsFns, fns-SendsFns}
use agex_ts.Staged.Branches.{lands}

some_key :
    {A : Type 0}
    → (m : JsMap Str A) → ltb 0 (JsMap.size m) ≡ true
    → (k : Str) × (JsMap.has m k ≡ true)
unfolding JsMap.get
some_key [] h = cc
some_key ((k, v) ∷ m) h = (k, ground (arith, str_eq_iff k k))

no_key :
    {A : Type 0}
    → (m : JsMap Str A) (j : Str) → ltb 0 (JsMap.size m) ≡ false
    → JsMap.has m j ≡ false
unfolding JsMap.get
no_key [] j h = refl
no_key (e ∷ m) j h = absurd (ground (arith, h))

module _ {V Val : Type 0} where
  -- The buffer is kept; the cache is emptied where the merge landed.
  abbrev pub KeepsBuffer : Bool → Staged V Val → Staged V Val → Type 0
  KeepsBuffer merged s s' =
      (s'.updates ≡ s.updates)
      × (s'.removals ≡ s.removals)
      × (s'.cache ≡ (if merged then [] else s.cache))

  abbrev pub is_in_buffer : Staged V Val → Str → Bool
  is_in_buffer s j = JsMap.has s.updates j || JsMap.has s.removals j

  has_changes-in_buffer :
      (s : Staged V Val) → has_changes s ≡ true → (k : Str) × (is_in_buffer s k ≡ true)
  unfolding has_changes
  has_changes-in_buffer s h = elim (Bool-cases (ltb 0 (JsMap.size s.updates))) [
    | inl updated ↦ let (k, e) = some_key s.updates updated in (k, ground (arith, e))
    | inr none_updated ↦
        let (k, e) = some_key s.removals (ground (arith, h, none_updated)) in (k, ground (arith, e))
  ]

  no_change-in_buffer :
      (s : Staged V Val) → has_changes s ≡ false → (j : Str) → is_in_buffer s j ≡ false
  unfolding has_changes
  no_change-in_buffer s h j =
      rw (no_key s.updates j (ground (arith, h)), no_key s.removals j (ground (arith, h))) refl

module _ {V Val : Type 0} (io : Versioned V) (codec : Codec Val) where
  -- The options that a merge of heads sends.
  pub record SendsMerge (s : Staged V Val) (opts : StagedMergeHeadsOptions Val)
      (o : MergeHeadsOptions) : Type 0 where
    pub fns : SendsFns codec s opts.merge_fns opts.default_merge o.merge_fns o.default_merge
    pub on_conflict : o.on_conflict ≡ opts.on_conflict
    pub info : o.info ≡ opts.info

  after_merge-Keeps :
      (s : Staged V Val) (call : Result Str MergeResult × V)
      → ((after_merge io codec s call).0 ≡ call.0)
        × ((after_merge io codec s call).1.versioned ≡ call.1)
        × KeepsBuffer (lands call.0) s (after_merge io codec s call).1
  after_merge-Keeps s (err e, v) = (refl, refl, (refl, refl, refl))
  after_merge-Keeps s (ok r, v) = elim (Bool-cases r.merged) [
    | inl merged ↦ rw merged (refl, refl, (refl, refl, refl))
    | inr refused ↦ rw refused (refl, refl, (refl, refl, refl))
  ]

  pub record Refuses (s : Staged V Val) (their_head : Str) (opts : StagedMergeHeadsOptions Val)
      : Type 0 where
    pub key : Str
    pub is_staged : is_in_buffer s key ≡ true
    pub unchanged : merge_heads io codec s their_head opts ≡ (err staged_changes, s)

  pub record Merges (s : Staged V Val) (their_head : Str) (opts : StagedMergeHeadsOptions Val)
      : Type 0 where
    pub clean : (j : Str) → is_in_buffer s j ≡ false
    pub sent : MergeHeadsOptions
    pub sends : SendsMerge s opts sent
    pub answer :
        (merge_heads io codec s their_head opts).0 ≡ (io.merge_heads s.versioned their_head sent).0
    pub store :
        (merge_heads io codec s their_head opts).1.versioned
        ≡ (io.merge_heads s.versioned their_head sent).1
    pub keeps :
        KeepsBuffer
          (lands (io.merge_heads s.versioned their_head sent).0)
          s
          (merge_heads io codec s their_head opts).1

  -- Merging heads is refused while any key is staged, as an update or as a removal, with nothing
  -- changed. With no key staged the store is called with the call's options and the merge functions of
  -- the call before those registered; its answer comes back, and the buffer is kept, and the cache
  -- too unless the merge landed. The maps of merge functions
  -- have no key twice.
  pub merge_heads_lem :
      (s : Staged V Val) (their_head : Str) (opts : StagedMergeHeadsOptions Val)
      → FnsUnique s opts.merge_fns
      → Refuses s their_head opts ⊎ Merges s their_head opts
  unfolding merge_heads merge_heads_options
  merge_heads_lem s their_head opts f = elim (Bool-cases (has_changes s)) [
    | inl changed ↦
        let (k, h) = has_changes-in_buffer s changed in
        inl (record { key = k; is_staged = h; unchanged = rw changed refl })
    | inr clean ↦
        let sent = merge_heads_options io codec s opts in
        let (answer, store, keeps) =
          after_merge-Keeps s (io.merge_heads s.versioned their_head sent) in
        inr (record {
          clean = no_change-in_buffer s clean;
          sent = sent;
          sends = record {
            fns = fns-SendsFns codec s opts.merge_fns opts.default_merge f;
            on_conflict = refl;
            info = refl;
          };
          answer = rw clean answer;
          store = rw clean store;
          keeps = rw clean keeps;
        })
  ]
