-- ===== src/Staged/Reads.antt =====
-- What a read answers: the staged value, or else what the versioned store holds, decoded.
use agex_ts.Prelude.{
  Str, str_Eq, str_eq_iff, ◌≡◌, refl, sym, ◌∙◌, subst, Bool, true, false, Option, none, some, arith,
  ◌==◌, if◌then◌else◌, Bool-cases, inl, inr, ◌↔◌, is_some, any, any-append,
}
use agex_ts.Prelude.Result.{Result, ok, err}
use agex_ts.JsMap
use agex_ts.JsMap.{keys}
use agex_ts.JsMap.Laws.{get-set, get-delete, any-filter, any-keys}
use agex_ts.Store.{Bytes}
use agex_ts.Versioned.{Versioned}
use agex_ts.Staged.{
  Staged, Codec, set, delete, get, has, all_keys, decode_opt, past_buffer, read_through, cached,
}
use agex_ts.Staged.Buffer.{IsDisjoint}

module _ {V Val : Type 0} (io : Versioned V) (codec : Codec Val) where
  -- What the versioned store holds at a key, decoded.
  abbrev pub stored : V → Str → Result Str (Option Val)
  stored v k = decode_opt codec (io.get v k)

  -- Every cached value is what the store holds.
  pub record IsCoherent (s : Staged V Val) : Type 0 where
    pub current :
        (k : Str) (v : Val) → JsMap.get s.cache k ≡ some v → stored s.versioned k ≡ ok (some v)

  -- The view that the buffer gives of the store: a staged removal hides a key, a staged update
  -- shows its value, and every other key reads as the store has it.
  abbrev overlay : Bool → Option Val → Result Str (Option Val) → Result Str (Option Val)
  overlay true update below = ok none
  overlay false (some v) below = ok (some v)
  overlay false none below = below

  abbrev pub view : Staged V Val → Str → Result Str (Option Val)
  view s k = overlay (JsMap.has s.removals k) (JsMap.get s.updates k) (stored s.versioned k)

  -- A read answers the view, and changes nothing that a later read or a commit can tell.
  pub record Answers (s : Staged V Val) (k : Str) (r : Result Str (Option Val) × Staged V Val)
      : Type 0 where
    pub answer : r.0 ≡ view s k
    pub coherent : IsCoherent r.1
    pub same_view : (j : Str) → view r.1 j ≡ view s j
    pub same_updates : r.1.updates ≡ s.updates
    pub same_removals : r.1.removals ≡ s.removals
    pub same_store : r.1.versioned ≡ s.versioned

  cached-IsCoherent :
      (s : Staged V Val) (k : Str) (v : Val)
      → IsCoherent s
      → stored s.versioned k ≡ ok (some v)
      → IsCoherent (record s { cache = JsMap.set s.cache k v })
  cached-IsCoherent s k v c h = record {
    current = λ j w g. elim (Bool-cases (k == j)) [
      | inl here ↦
          subst (λ (x : Str). stored s.versioned x ≡ ok (some w)) ((str_eq_iff k j).0 here)
            (rw h (ground (arith, get-set s.cache k j v)))
      | inr there ↦ c.current j w (ground (arith, get-set s.cache k j v))
    ];
  }

  -- only the cache differs
  answers :
      (s : Staged V Val) (k : Str) (r : Result Str (Option Val)) (c : JsMap.JsMap Str Val)
      → r ≡ view s k
      → IsCoherent (record s { cache = c })
      → Answers s k (r, record s { cache = c })
  answers s k r c e h = record {
    answer = e;
    coherent = h;
    same_view = λ j. refl;
    same_updates = refl;
    same_removals = refl;
    same_store = refl;
  }

  decoded-Answers :
      (s : Staged V Val) (k : Str) (d : Result Str Val) (raw : Bytes)
      → IsCoherent s
      → io.get s.versioned k ≡ some raw
      → codec.decode raw ≡ d
      → view s k ≡ stored s.versioned k
      → Answers s k (cached s k d)
  decoded-Answers s k (err x) raw c h p e =
      let below : stored s.versioned k ≡ err x = rw (h, p) in
      answers s k (err x) s.cache (sym (e ∙ below)) c
  decoded-Answers s k (ok v) raw c h p e =
      let below : stored s.versioned k ≡ ok (some v) = rw (h, p) in
      answers s k (ok (some v)) (JsMap.set s.cache k v) (sym (e ∙ below))
        (cached-IsCoherent s k v c below)

  read_through-Answers :
      (s : Staged V Val) (k : Str) (o : Option Bytes)
      → IsCoherent s
      → io.get s.versioned k ≡ o
      → view s k ≡ stored s.versioned k
      → Answers s k (read_through io codec s k o)
  read_through-Answers s k none c h e =
      let below : stored s.versioned k ≡ ok none = rw h in
      answers s k (ok none) s.cache (sym (e ∙ below)) c
  read_through-Answers s k (some raw) c h e = decoded-Answers s k (codec.decode raw) raw c h refl e

  past_buffer-Answers :
      (s : Staged V Val) (k : Str) (update held : Option Val)
      → IsCoherent s
      → JsMap.has s.removals k ≡ false
      → JsMap.get s.updates k ≡ update
      → JsMap.get s.cache k ≡ held
      → Answers s k (past_buffer io codec s k update held)
  past_buffer-Answers s k (some v) held c r u h = answers s k (ok (some v)) s.cache (rw (r, u)) c
  past_buffer-Answers s k none (some v) c r u h =
      answers s k (ok (some v)) s.cache (rw (r, u) (sym (c.current k v h))) c
  past_buffer-Answers s k none none c r u h =
      read_through-Answers s k (io.get s.versioned k) c refl (rw (r, u))

  -- From a coherent cache, `get` answers the view of the buffer over the store, keeps the cache
  -- coherent, and changes neither the buffer nor the view of any key.
  pub get-Answers : (s : Staged V Val) (k : Str) → IsCoherent s → Answers s k (get io codec s k)
  unfolding get
  get-Answers s k c = elim (Bool-cases (JsMap.has s.removals k)) [
    | inl gone ↦ rw gone (answers s k (ok none) s.cache (rw gone) c)
    | inr kept ↦
        rw kept
          (past_buffer-Answers s k (JsMap.get s.updates k) (JsMap.get s.cache k) c kept refl refl)
  ]

  -- A staged write shows at its own key, a staged removal hides its own key, and neither changes
  -- what any other key reads as.
  pub view-writes :
      (s : Staged V Val) (k j : Str) (v : Val)
      → (view (set s k v) j ≡ (if k == j then ok (some v) else view s j))
        × (view (delete s k) j ≡ (if k == j then ok none else view s j))
  unfolding set delete
  view-writes s k j v = elim (Bool-cases (k == j)) [
    | inl here ↦ simp (get-set, get-delete) (rw here (refl, refl))
    | inr there ↦ simp (get-set, get-delete) (rw there (refl, refl))
  ]

  decode_opt-none : (o : Option Bytes) → (is_some o ≡ false) ↔ (decode_opt codec o ≡ ok none)
  decode_opt-none none = (λ _. refl, λ _. refl)
  decode_opt-none (some raw) = (λ h. cc, λ h. absurd (ground arith))

  has-iff-overlay :
      (v : V) (k : Str) (gone : Bool) (update : Option Val)
      → ((if gone then false else if is_some update then true else io.has v k) ≡ false)
        ↔ (overlay gone update (stored v k) ≡ ok none)
  has-iff-overlay v k true update = (λ _. refl, λ _. refl)
  has-iff-overlay v k false (some w) = (λ h. cc, λ h. absurd (ground arith))
  has-iff-overlay v k false none = rw io.has_lem (decode_opt-none (io.get v k))

  -- `has` answers false exactly where the view holds nothing.
  pub has-iff-view :
      (s : Staged V Val) (k : Str) → (has io codec s k ≡ false) ↔ (view s k ≡ ok none)
  unfolding has
  has-iff-view s k = has-iff-overlay s.versioned k (JsMap.has s.removals k) (JsMap.get s.updates k)

  -- The keys listed are exactly those that `has` answers true for.
  pub all_keys-eq-has :
      (s : Staged V Val) (k : Str)
      → IsDisjoint s
      → any (λ j. j == k) (all_keys io codec s) ≡ has io codec s k
  unfolding all_keys has
  all_keys-eq-has s k d =
      simp (any-append, any-filter, any-keys, io.has_lem, io.keys_lem) (ground (arith, d.apart k))
