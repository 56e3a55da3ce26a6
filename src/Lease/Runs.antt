-- ===== src/Lease/Runs.antt =====
-- Sweeps and writers, one call after another: what a writer or a sweep read before a sweep began does
-- not serve it any more.
use agex_ts.Prelude.{
  ℕ, suc, Str, str_Eq, str_eq_iff, ◌==◌, ◌≡◌, ◌≢◌, ◌⊎◌, refl, sym, ◌∙◌, ap, subst, Bool, true,
  false, Option, some, List, [], ◌∷◌, Bool-cases, inl, inr, arith,
}
use mathlib.Core.Option.{some-injective}
use agex_ts.Prelude.Result.{Result, ok, err}
use agex_ts.JsMap
use agex_ts.JsMap.{JsMap}
use agex_ts.JsMap.Laws.{get-set}
use agex_ts.Store.{Bytes, BatchError}
use agex_ts.Store.Memory
use agex_ts.Store.Memory.{Memory, bytes_equal}
use agex_ts.Store.Memory.Batches.{Holds, cas_many_guarded, bytes_equal_iff, bytes_equal_refl}
use agex_ts.Json.{Json, natural, float}
use agex_ts.Lease.{
  gc_lease_key, Clock, landed, GcBusy, lost, lease_record, owner_in, lease_expiry, try_land,
  try_answer, claim, claimed, HeldLease, release_gc_lease,
}

Holds-set :
    (s : Memory) (expected : JsMap Str (Option Bytes)) (key : Str) (value : Option Bytes)
    → Holds s (JsMap.set expected key value)
    → Memory.get s key ≡ value
unfolding JsMap.set
Holds-set s [] key value h = h.0
Holds-set s ((k, v) ∷ expected) key value h = elim (Bool-cases (k == key)) [
  | inl same ↦ head_of same (rw same at h)
  | inr other ↦ Holds-set s expected key value (rest_of (rw other at h))
]
  where
    head_of : (k == key) ≡ true → Holds s ((k, value) ∷ expected) → Memory.get s key ≡ value
    head_of same h = subst (λ x. Memory.get s x ≡ value) ((str_eq_iff k key).0 same) h.0

    rest_of :
        Holds s ((k, v) ∷ JsMap.set expected key value) → Holds s (JsMap.set expected key value)
    rest_of h = h.1

-- A batch that lands found the lease as the writer had read it.
try_land-landed :
    (s : Memory) (lease : Option Bytes) (expected : JsMap Str (Option Bytes))
    (writes : JsMap Str Bytes) (removes : List Str)
    → (try_land s lease expected writes removes).0 ≡ ok landed
    → Memory.get s gc_lease_key ≡ lease
unfolding try_land
try_land-landed s lease expected writes removes h =
    let all = JsMap.set expected gc_lease_key lease in
    Holds-set s expected gc_lease_key lease
      (cas_many_guarded s all writes removes (answered (Memory.cas_many s all writes removes) h)).0
  where
    answered :
        (r : Result BatchError Bool × Memory) → (try_answer r lease).0 ≡ ok landed → r.0 ≡ ok true
    answered (err e, t) h = cc
    answered (ok true, t) h = refl
    answered (ok false, t) h = elim (Bool-cases (bytes_equal (Memory.get t gc_lease_key) lease)) [
      | inl same ↦ absurd (ground (arith, rw same at h))
      | inr other ↦ absurd (ground (arith, rw other at h))
    ]

cas-cases :
    (s : Memory) (value : Bytes) (expected : Option Bytes)
    → let r = Memory.cas s gc_lease_key value expected in
      ((r.0 ≡ true)
        × (Memory.get s gc_lease_key ≡ expected)
        × (Memory.get r.1 gc_lease_key ≡ some value))
      ⊎ ((r.0 ≡ false) × (Memory.get s gc_lease_key ≢ expected) × (r.1 ≡ s))
unfolding Memory.cas Memory.get
cas-cases s value expected =
    elim (Bool-cases (bytes_equal (JsMap.get s.entries gc_lease_key) expected)) [
      | inl same ↦ rw same (
          inl (
            refl,
            bytes_equal_iff (JsMap.get s.entries gc_lease_key) expected same,
            rw
                (
                  get-set s.entries gc_lease_key gc_lease_key value,
                  (str_eq_iff gc_lease_key gc_lease_key).1 refl,
                )
                refl,
          ))
      | inr other ↦ rw other (
          inr (
            refl,
            (λ e. absurd (
                ground (
                  arith,
                  subst (λ x. bytes_equal x expected ≡ false) e other,
                  bytes_equal_refl expected,
                ))),
            refl,
          ))
    ]

module _ (parse : Bytes → Option Json) (clock : Clock) where
  -- `JSON.parse` finds the owner in the record that names it.
  abbrev pub Keeps : Str → Json → Type 0
  Keeps owner expires = owner_in parse (lease_record owner expires) ≡ owner

  -- Calls after a read of the lease, and how many of them began a sweep. Each sweep has an owner of
  -- whom the record that was read says nothing.
  pub data Calls (lease : Option Bytes) (s : Memory) : ℕ → Memory → Type 0 where
    no_call : Calls lease s 0 s
    -- any call that leaves the lease's key alone
    elsewhere :
        {n : ℕ} {t : Memory} (u : Memory)
        → Calls lease s n t
        → Memory.get u gc_lease_key ≡ Memory.get t gc_lease_key
        → Calls lease s n u
    claim_lost :
        {n : ℕ} {t : Memory} (raw : Option Bytes) (at ttl : clock.Seconds) (owner : Str)
        (busy : GcBusy)
        → Calls lease s n t
        → (claim parse clock t raw at ttl owner).0 ≡ err busy
        → Calls lease s n (claim parse clock t raw at ttl owner).1
    claim_won :
        {n : ℕ} {t : Memory} (raw : Option Bytes) (at ttl : clock.Seconds) (owner : Str)
        (won : HeldLease parse clock)
        → Calls lease s n t
        → ((v : Json) → some (lease_record owner v) ≢ lease)
        → Keeps owner (float (clock.to_float (clock.plus at ttl)))
        → Keeps owner (natural 0)
        → (claim parse clock t raw at ttl owner).0 ≡ ok won
        → Calls lease s (suc n) (claim parse clock t raw at ttl owner).1
    release :
        {n : ℕ} {t : Memory} (lease' : HeldLease parse clock)
        → Calls lease s n t
        → Calls lease s n (release_gc_lease parse clock t lease')

  -- the record names an owner of whom the record that was read says nothing
  record Newer (lease : Option Bytes) (t : Memory) : Type 0 where
    owner : Str
    expires : Json
    stored : Memory.get t gc_lease_key ≡ some (lease_record owner expires)
    apart : (v : Json) → some (lease_record owner v) ≢ lease
    keeps : Keeps owner expires
    keeps_released : Keeps owner (natural 0)

  claimed-true :
      (b : HeldLease parse clock) (r : Bool × Memory)
      → r.0 ≡ true
      → claimed parse clock b r ≡ (ok b, r.1)
  claimed-true b (true, t) h = refl
  claimed-true b (false, t) h = cc

  claimed-false :
      (b : HeldLease parse clock) (r : Bool × Memory)
      → r.0 ≡ false
      → claimed parse clock b r ≡ (err lost, r.1)
  claimed-false b (true, t) h = cc
  claimed-false b (false, t) h = refl

  claim-cases :
      (t : Memory) (raw : Option Bytes) (at ttl : clock.Seconds) (owner : Str)
      → let r = claim parse clock t raw at ttl owner in
        ((b : HeldLease parse clock) × (r.0 ≡ ok b)
          × (Memory.get t gc_lease_key ≡ raw)
          × (Memory.get r.1 gc_lease_key
              ≡ some (lease_record owner (float (clock.to_float (clock.plus at ttl))))))
        ⊎ ((e : GcBusy) × (r.0 ≡ err e) × (r.1 ≡ t))
  unfolding claim
  claim-cases t raw at ttl owner =
      let expires = clock.plus at ttl in
      let bytes = lease_record owner (float (clock.to_float expires)) in
      let lease : HeldLease parse clock = record { bytes = bytes; expires = expires } in
      elim (Bool-cases (clock.exceeds (lease_expiry parse clock raw) at)) [
        | inl live ↦ rw live (inr (_, refl, refl))
        | inr over ↦ elim (cas-cases t bytes raw) [
          | inl (won, was, now) ↦
              rw (over, claimed-true lease (Memory.cas t gc_lease_key bytes raw) won)
                (inl (lease, refl, was, now))
          | inr (lost_it, _, same) ↦
              rw (over, claimed-false lease (Memory.cas t gc_lease_key bytes raw) lost_it)
                (inr (lost, refl, same))
        ]
      ]

  release-Newer :
      (lease : Option Bytes) (t : Memory) (held : HeldLease parse clock)
      → Newer lease t
      → Newer lease (release_gc_lease parse clock t held)
  unfolding release_gc_lease
  release-Newer lease t held q =
      elim (cas-cases t (lease_record (owner_in parse held.bytes) (natural 0)) (some held.bytes)) [
        | inr (_, _, same) ↦ subst (Newer lease) (sym same) q
        | inl (_, was, now) ↦
            let mine : lease_record q.owner q.expires ≡ held.bytes =
              some-injective _ _ (sym q.stored ∙ was) in
            let its : owner_in parse held.bytes ≡ q.owner =
              ap (owner_in parse) (sym mine) ∙ q.keeps in
            record {
              owner = q.owner;
              expires = natural 0;
              stored = now ∙ ap (λ o. some (lease_record o (natural 0))) its;
              apart = q.apart;
              keeps = q.keeps_released;
              keeps_released = q.keeps_released;
            }
      ]

  kept-Newer :
      (lease : Option Bytes) (t u : Memory)
      → Memory.get u gc_lease_key ≡ Memory.get t gc_lease_key
      → Newer lease t
      → Newer lease u
  kept-Newer lease t u same q = record {
    owner = q.owner;
    expires = q.expires;
    stored = same ∙ q.stored;
    apart = q.apart;
    keeps = q.keeps;
    keeps_released = q.keeps_released;
  }

  Calls-Newer :
      {lease : Option Bytes} {s : Memory} {n : ℕ} {t : Memory}
      → Calls lease s (suc n) t
      → Newer lease t
  Calls-Newer (elsewhere {t = t} u calls same) = kept-Newer _ t u same (Calls-Newer calls)
  Calls-Newer (claim_lost {t = t} raw at ttl owner busy calls h) =
      elim (claim-cases t raw at ttl owner) [
        | inl (b, won, _, _) ↦ absurd (not_both (claim parse clock t raw at ttl owner).0 won h)
        | inr (e, _, same) ↦ subst (Newer _) (sym same) (Calls-Newer calls)
      ]
    where
      not_both :
          {b : HeldLease parse clock} (r : Result GcBusy (HeldLease parse clock))
          → r ≡ ok b
          → r ≡ err busy
          → ⊥
      not_both r p q = absurd (ground (arith, p, q))
  Calls-Newer (claim_won {t = t} raw at ttl owner won calls apart k k' h) =
      elim (claim-cases t raw at ttl owner) [
        | inl (b, _, _, now) ↦ record {
          owner = owner;
          expires = float (clock.to_float (clock.plus at ttl));
          stored = now;
          apart = apart;
          keeps = k;
          keeps_released = k';
        }
        | inr (e, busy, _) ↦ absurd (ground (arith, h, busy))
      ]
  Calls-Newer (release {t = t} held calls) = release-Newer _ t held (Calls-Newer calls)

  -- Once a sweep has begun after the lease was read, and whatever calls have come since, a batch that
  -- expects the record read does not land, and no sweep that read it takes the lease; where each new
  -- sweep has an owner whom the record read does not name, and `JSON.parse` finds the owner in the
  -- records that are written.
  pub try_land-Calls :
      (lease : Option Bytes) (s t : Memory) (n : ℕ)
      → Calls lease s (suc n) t
      → ((expected : JsMap Str (Option Bytes)) (writes : JsMap Str Bytes) (removes : List Str)
          → (try_land t lease expected writes removes).0 ≢ ok landed)
        × ((at ttl : clock.Seconds) (owner : Str) (b : HeldLease parse clock)
            → (claim parse clock t lease at ttl owner).0 ≢ ok b)
  try_land-Calls lease s t n calls =
      let q = Calls-Newer calls in
      let gone : Memory.get t gc_lease_key ≢ lease = λ e. q.apart q.expires (sym q.stored ∙ e) in
      (
        λ expected writes removes h. gone (try_land-landed t lease expected writes removes h),
        λ at ttl owner b h. elim (claim-cases t lease at ttl owner) [
          | inl (_, _, was, _) ↦ gone was
          | inr (e, busy, _) ↦ absurd (ground (arith, h, busy))
        ],
      )
