-- ===== src/Store/Memory/Batches.antt =====
-- `casMany` is all or nothing, and batches read as the single operations do.
use agex_ts.Prelude.{
  Str, ◌≡◌, refl, ap, true, false, Option, none, some, List, [], ◌∷◌, arith, ◌==◌, str_eq_iff,
  str_Eq, ◌⊎◌, ◌≢◌, if◌then◌else◌, Bool-cases, inl, inr,
}
use agex_ts.Prelude.Result.{ok, err}
use agex_ts.JsMap
use agex_ts.JsMap.{JsMap}
use agex_ts.JsMap.Laws.{IsUnique, get-set, get-empty}
use agex_ts.JsMap.Batch.{first_some, member, set_all, delete_all, get-set_all, get-delete_all}
use agex_ts.Store.{Bytes, written_and_removed}
use agex_ts.Store.Memory.{
  Memory, cas, check_batch, bytes_equal, get, found, get_many_from, get_many, expected_hold,
  cas_many,
}

pub bytes_equal_iff : (a b : Option Bytes) → (bytes_equal a b ≡ true) → a ≡ b
unfolding bytes_equal
bytes_equal_iff none none h = refl
bytes_equal_iff none (some b) h = cc
bytes_equal_iff (some a) none h = cc
bytes_equal_iff (some a) (some b) h = ap some ((str_eq_iff a b).0 h)

pub bytes_equal_refl : (a : Option Bytes) → bytes_equal a a ≡ true
unfolding bytes_equal
bytes_equal_refl none = refl
bytes_equal_refl (some a) = (str_eq_iff a a).1 refl

-- What a batch leaves at a key: removals win over writes, and writes over what was there.
abbrev pub after_batch : Memory → JsMap Str Bytes → List Str → Str → Option Bytes
after_batch s writes removes j =
    if member removes j then none else first_some (JsMap.get writes j) (get s j)

-- No key is both written and removed.
abbrev pub Disjoint : JsMap Str Bytes → List Str → Type 0
Disjoint writes [] = Unit
Disjoint writes (key ∷ removes) = (JsMap.has writes key ≡ false) × Disjoint writes removes

-- `checkBatch` passes the removals on, or throws for a key that is both.
check_batch-cases :
    (writes : JsMap Str Bytes) (removes : List Str)
    → (check_batch writes removes ≡ ok removes) × Disjoint writes removes
      ⊎ ((k : Str) × (check_batch writes removes ≡ err (written_and_removed k)))
unfolding check_batch
check_batch-cases writes [] = inl (refl, tt)
check_batch-cases writes (key ∷ removes) = elim (Bool-cases (JsMap.has writes key)) [
  | inl both ↦ inr (key, rw both)
  | inr free ↦ elim (check_batch-cases writes removes) [
    | inl (e, d) ↦ inl (rw (free, e), (free, d))
    | inr (k, e) ↦ inr (k, rw (free, e))
  ]
]

check_batch-Disjoint :
    (writes : JsMap Str Bytes) (removes : List Str)
    → Disjoint writes removes
    → check_batch writes removes ≡ ok removes
unfolding check_batch
check_batch-Disjoint writes [] d = refl
check_batch-Disjoint writes (key ∷ removes) (free, d) =
    rw (free, check_batch-Disjoint writes removes d)

-- Every expectation holds of what the store has.
abbrev pub Holds : Memory → JsMap Str (Option Bytes) → Type 0
Holds s [] = Unit
Holds s ((key, value) ∷ expected) = (get s key ≡ value) × Holds s expected

expected_hold_sound :
    (s : Memory) (expected : JsMap Str (Option Bytes))
    → expected_hold s expected ≡ true
    → Holds s expected
unfolding expected_hold get
expected_hold_sound s [] h = tt
expected_hold_sound s ((key, value) ∷ expected) h =
    ground (arith, bytes_equal_iff (JsMap.get s.entries key) value, expected_hold_sound s expected)

expected_hold_complete :
    (s : Memory) (expected : JsMap Str (Option Bytes))
    → Holds s expected
    → expected_hold s expected ≡ true
unfolding expected_hold get
expected_hold_complete s [] h = refl
expected_hold_complete s ((key, value) ∷ expected) (p, h) =
    rw (p, bytes_equal_refl) (expected_hold_complete s expected h)

module _ (s : Memory) (expected : JsMap Str (Option Bytes)) (writes : JsMap Str Bytes)
    (removes : List Str) where
  -- When every expectation holds and no key is both written and removed, the batch lands: it
  -- answers true, and afterwards each key reads as removed, as written, or as before.
  pub cas_many_lands :
      IsUnique writes
      → Disjoint writes removes
      → Holds s expected
      → ((cas_many s expected writes removes).0 ≡ ok true)
        × ((j : Str)
            → get (cas_many s expected writes removes).1 j ≡ after_batch s writes removes j)
  unfolding cas_many get
  cas_many_lands u d h =
      rw (check_batch-Disjoint writes removes d, expected_hold_complete s expected h)
        (refl, λ j. simp (get-delete_all) (rw (get-set_all s.entries writes j u)))

  by_answer :
      ((cas_many s expected writes removes).0 ≡ ok true
        → Holds s expected × Disjoint writes removes)
      × ((cas_many s expected writes removes).0 ≢ ok true
          → (cas_many s expected writes removes).1 ≡ s)
  unfolding cas_many
  by_answer = elim (check_batch-cases writes removes) [
    | inl (e, d) ↦ elim (Bool-cases (expected_hold s expected)) [
      | inl held ↦
          rw (e, held) (λ _. (expected_hold_sound s expected held, d), λ n. absurd (n refl))
      | inr lost ↦ rw (e, lost) (λ p. cc, λ _. refl)
    ]
    | inr (k, e) ↦ rw e (λ p. cc, λ _. refl)
  ]

  -- A batch that answers true had every expectation met, and no key both written and removed.
  pub cas_many_guarded :
      (cas_many s expected writes removes).0 ≡ ok true → Holds s expected × Disjoint writes removes
  cas_many_guarded h = by_answer.0 h

  -- A batch that answers anything but true, an error included, leaves the store as it was.
  pub cas_many_atomic :
      (cas_many s expected writes removes).0 ≢ ok true → (cas_many s expected writes removes).1 ≡ s
  cas_many_atomic h = by_answer.1 h

-- A single compare-and-swap is the batch of one expectation and one write.
pub cas-eq-cas_many :
    (s : Memory) (key : Str) (value : Bytes) (expected : Option Bytes)
    → cas_many s ((key, expected) ∷ []) ((key, value) ∷ []) []
      ≡ (ok (cas s key value expected).0, (cas s key value expected).1)
unfolding cas cas_many set_all delete_all
cas-eq-cas_many s key value expected = ground arith

get-found :
    (k j : Str) (o : Option Bytes) (out : JsMap Str Bytes)
    → JsMap.get (found k o out) j
      ≡ (if k == j then first_some o (JsMap.get out j) else JsMap.get out j)
get-found k j none out = ground arith
get-found k j (some v) out = get-set out k j v

get_many_from_lem :
    (s : Memory) (ks : List Str) (out : JsMap Str Bytes) (j : Str)
    → JsMap.get (get_many_from s ks out) j
      ≡ (if member ks j then first_some (get s j) (JsMap.get out j) else JsMap.get out j)
unfolding get_many_from get member
get_many_from_lem s [] out j = refl
get_many_from_lem s (k ∷ ks) out j =
    let o = JsMap.get s.entries k in
    ground (arith, get_many_from_lem s ks (found k o out) j, get-found k j o out, str_eq_iff k j)

-- `getMany` holds exactly the asked keys that the store has, each with its value.
pub get-get_many :
    (s : Memory) (ks : List Str) (j : Str)
    → JsMap.get (get_many s ks) j ≡ (if member ks j then get s j else none)
unfolding get_many
get-get_many s ks j = rw (get_many_from_lem s ks [] j, get-empty) (ground arith)
