-- ===== src/Hamt/Batch/Loops.antt =====
-- The loop of `applyAt` over the groups of changes under a branch.
use agex_ts.Prelude.{
  ℕ, ◌+◌, Str, str_Eq, str_eq_iff, ◌==◌, ◌≡◌, refl, sym, ◌∙◌, false, Option, none, some, List, [],
  ◌∷◌, arith, Bool-cases, inl, inr, All, All-map, is_empty,
}
use agex_ts.JsMap
use agex_ts.JsMap.{JsMap}
use agex_ts.JsMap.Laws.{IsUnique, eq_refl}
use agex_ts.Hamt.Trie.{Format, Hamt, Pending, hash_len, nibble}
use agex_ts.Hamt.Trie.Walk.{walk, IsAddressed, Grows, Grows-trans}
use agex_ts.Hamt.Delete.{Subtree}
use agex_ts.Hamt.Batch.{KeyChange, Branching, apply_groups}
use agex_ts.Hamt.Batch.Leaves.{after, Applied}
use agex_ts.Hamt.Batch.Groups.{group, AllGood}
use agex_ts.Hamt.Batch.Steps.{IsUpdate, below, Step, apply_child-Step}

module _ (format : Format) (hamt : Hamt) where
  -- an update whose key's walk ends
  abbrev pub Under : Pending → ℕ → ℕ → Str → KeyChange → Type 0
  Under p left depth hash c =
      IsUpdate c × (o : Option Str) × (walk format hamt p left depth c.key hash ≡ some o)

module _ (format : Format) (hamt : Hamt) (left depth : ℕ) where
  abbrev pub Ready : Branching → KeyChange → Type 0
  Ready b c = IsUpdate c × (o : Option Str) × (below format hamt left depth b c.key ≡ some o)

  -- `go` applies changes to a child.
  abbrev pub Applies : (Str → List KeyChange → Pending → Option Subtree) → Type 0
  Applies go =
      (child : Str) (g : List KeyChange) (p : Pending)
      → IsAddressed format hamt p
      → is_empty g ≡ false
      → All (Under format hamt p left (depth + 1) child) g
      → (r : Subtree) × (go child g p ≡ some r) × Applied format hamt p left (depth + 1) child g r

  pub record Run (b : Branching) (groups : JsMap Str (List KeyChange)) (b' : Branching)
      : Type 0 where
    pub grows : Grows format hamt b.pending b'.pending
    pub finds :
        (j : Str) (o : Option Str)
        → below format hamt left depth b j ≡ some o
        → below format hamt left depth b' j
          ≡ some (after (group format hamt depth groups (nibble (format.key_hash j) depth)) j o)
    pub unchanged : b'.changed ≡ false → (b'.children ≡ b.children) × (b.changed ≡ false)
    pub no_removal : b'.removed ≡ b.removed

  rest-AllGood :
      (b b' : Branching) (chunk : Str) (g : List KeyChange) (groups : JsMap Str (List KeyChange))
      → JsMap.get groups chunk ≡ none
      → AllGood format hamt depth (Ready b) ((chunk, g) ∷ groups)
      → Step format hamt left depth b chunk g b'
      → AllGood format hamt depth (Ready b') groups
  unfolding JsMap.get
  rest-AllGood b b' chunk g groups fresh good step c h e =
      let apart : (chunk == c) ≡ false = elim (Bool-cases (chunk == c)) [
        | inl same ↦
            let gone : JsMap.get groups c ≡ none = rw (sym ((str_eq_iff chunk c).0 same)) fresh in
            absurd (ground (arith, e, gone))
        | inr other ↦ other
      ] in
      let (full, all) = good c h (rw apart e) in
      (
        full,
        All-map _ _ h all (λ x (there, (update, o, w)).
            (there, (update, o, step.others x.key o (rw there apart) w))),
      )

  joined :
      (b b' b'' : Branching) (chunk : Str) (g : List KeyChange)
      (groups : JsMap Str (List KeyChange))
      → JsMap.get groups chunk ≡ none
      → Step format hamt left depth b chunk g b'
      → Run b' groups b''
      → Run b ((chunk, g) ∷ groups) b''
  unfolding JsMap.get
  joined b b' b'' chunk g groups fresh step run = record {
    grows = Grows-trans format hamt b.pending b'.pending b''.pending step.grows run.grows;
    finds = λ j o w.
        let c = nibble (format.key_hash j) depth in
        elim (Bool-cases (chunk == c)) [
          | inl here ↦
              let same = (str_eq_iff chunk c).0 here in
              let rest = run.finds j (after g j o) (step.mine j o (sym same) w) in
              let gone : JsMap.get groups c ≡ none = rw (sym same) fresh in
              rw here (rw gone at rest)
          | inr there ↦ rw there (run.finds j o (step.others j o there w))
        ];
    unchanged = λ e.
        let (same, before) = run.unchanged e in
        let (same', before') = step.unchanged before in (same ∙ same', before');
    no_removal = run.no_removal ∙ step.no_removal;
  }

  pub apply_groups-Run :
      (go : Str → List KeyChange → Pending → Option Subtree) (groups : JsMap Str (List KeyChange))
      (b : Branching)
      → left + (depth + 1) ≡ hash_len
      → Applies go
      → IsUnique groups
      → IsAddressed format hamt b.pending
      → AllGood format hamt depth (Ready b) groups
      → (b' : Branching) × (apply_groups format hamt go depth groups b ≡ some b') × Run b groups b'
  unfolding apply_groups JsMap.get
  apply_groups-Run go [] b d k u a good = (
    b,
    refl,
    record {
      grows = record { kept = λ h n e. e; addressed = a };
      finds = λ j o w. w;
      unchanged = λ e. (refl, e);
      no_removal = refl;
    },
  )
  apply_groups-Run go ((chunk, g) ∷ groups) b d k (fresh, u) a good =
      let (full, all) = good chunk g (rw (eq_refl chunk) refl) in
      let (b', is_b', step) =
        apply_child-Step format hamt left depth go b chunk g (JsMap.get b.children chunk) d a refl
          (All-map _ IsUpdate g all (λ x h. h.1.0))
          (λ child e.
            k child g b.pending a full
              (All-map _ _ g all (λ x (there, (update, o, w)). (update, o, rw (there, e) at w)))) in
      let (b'', is_b'', run) =
        apply_groups-Run go groups b' d k u step.grows.addressed
          (rest-AllGood b b' chunk g groups fresh good step) in
      (b'', rw is_b' is_b'', joined b b' b'' chunk g groups fresh step run)
