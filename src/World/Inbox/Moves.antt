-- ===== src/World/Inbox/Moves.antt =====
-- Taking a delivery back.
use agex_ts.Prelude.{
  ℕ, ◌+◌, ◌≤◌, Str, str_Eq, str_eq_iff, ◌≡◌, refl, ap, true, false, List, [], ◌∷◌, ◌++◌, arith,
  filter, any,
}
use agex_ts.World.Inbox.{Note, Inbox, has_id, drain, apart, restore}
use agex_ts.World.Inbox.Counts.{count, IsSound}
use mathlib.Core.List.{append-nil}

module _ {Answer : Type 0} where
  has_id-of-count : (id : Str) (xs : List (Note Answer)) → count id xs ≡ 0 → has_id id xs ≡ false
  unfolding any count
  has_id-of-count id [] h = refl
  has_id-of-count id (n ∷ xs) h = ground (arith, has_id-of-count id xs)

  apart-append :
      (notes xs ys : List (Note Answer)) → apart notes (xs ++ ys) ≡ apart notes xs ++ apart notes ys
  unfolding apart filter
  apart-append notes [] ys = refl
  apart-append notes (n ∷ xs) ys = ground (arith, apart-append notes xs ys)

  -- none of the notes is among the others
  apart-all :
      (notes xs : List (Note Answer))
      → ((id : Str) → count id notes + count id xs ≤ 1)
      → apart notes xs ≡ xs
  unfolding apart filter count
  apart-all notes [] h = refl
  apart-all notes (n ∷ xs) h =
      let gone : has_id n.id notes ≡ false =
        has_id-of-count n.id notes (ground (arith, h n.id, str_eq_iff n.id n.id)) in
      rw gone (ap (λ r. n ∷ r) (apart-all notes xs (λ id. omega (arith, h id))))

  -- every one of the notes is
  apart-more :
      (notes xs : List (Note Answer))
      → ((n : Note Answer) → has_id n.id xs ≡ true → has_id n.id notes ≡ true)
      → apart notes xs ≡ []
  unfolding apart filter any
  apart-more notes [] h = refl
  apart-more notes (n ∷ xs) h =
      let there : has_id n.id notes ≡ true = h n (ground (arith, str_eq_iff n.id n.id)) in
      rw there (apart-more notes xs (λ m e. h m (ground (arith, e))))

  restored :
      (p d : List (Note Answer)) (m : ℕ)
      → ((id : Str) → count id p + count id d ≤ 1)
      → let b : Inbox Answer = record { pending = p; delivered = d; minted = m } in
        restore (drain b).1 (drain b).0 ≡ b
  unfolding restore drain count
  restored [] d m once = rw (apart-all [] d (λ id. omega (arith, once id))) refl
  restored (n ∷ p) d m once =
      rw
        (
          apart-append (n ∷ p) d (n ∷ p),
          apart-all (n ∷ p) d once,
          apart-more (n ∷ p) (n ∷ p) (λ k e. e),
          append-nil d,
          append-nil p,
        )
        refl

  -- In a sound inbox, restoring the notes just drained gives the inbox back as it was.
  pub restore-drain : (b : Inbox Answer) → IsSound b → restore (drain b).1 (drain b).0 ≡ b
  restore-drain b s = restored b.pending b.delivered b.minted s.once
