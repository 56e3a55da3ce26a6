-- ===== src/World/Inbox/Counts.antt =====
-- Any sequence of moves of an inbox: every note it holds is held once.
use agex_ts.Prelude.{
  ℕ, suc, ◌+◌, ◌≤◌, ◌<◌, Str, str_Eq, str_eq_iff, ◌==◌, ◌≡◌, refl, ap, false, List, [], ◌∷◌, ◌++◌,
  arith, if◌then◌else◌, filter, any, Bool-cases, inl, inr, decimal-injective, drop,
}
use agex_ts.World.Inbox.{
  Note, NoteOptions, Inbox, note_id, minted_note, new_inbox, put, splice_id, has_id, withdraw,
  drain, deliver_now, settle, apart, restore, requeue,
}

note_id-injective : (m n : ℕ) → note_id m ≡ note_id n → m ≡ n
unfolding note_id
note_id-injective m n e = decimal-injective m n (ap (drop 1) e)

other_id : (m k : ℕ) → suc m < k → (note_id (suc m) == note_id k) ≡ false
other_id m k h = elim (Bool-cases (note_id (suc m) == note_id k)) [
  | inl same ↦ absurd (
      omega
        (arith, note_id-injective (suc m) k ((str_eq_iff (note_id (suc m)) (note_id k)).0 same)))
  | inr other ↦ other
]

module _ {Answer : Type 0} where
  -- how many of the notes have an id
  unfoldable pub count : Str → List (Note Answer) → ℕ
  count id [] = 0
  count id (n ∷ notes) = (if n.id == id then 1 else 0) + count id notes

  pub count-append :
      (id : Str) (xs ys : List (Note Answer)) → count id (xs ++ ys) ≡ count id xs + count id ys
  unfolding count
  count-append id [] ys = omega arith
  count-append id (n ∷ xs) ys = omega (arith, count-append id xs ys)

  count-splice_id : (id j : Str) (xs : List (Note Answer)) → count j (splice_id id xs) ≤ count j xs
  unfolding count splice_id
  count-splice_id id j [] = omega arith
  count-splice_id id j (n ∷ xs) = ground (arith, count-splice_id id j xs)

  pub count-apart :
      (id : Str) (notes xs : List (Note Answer))
      → count id (apart notes xs) ≡ (if has_id id notes then 0 else count id xs)
  unfolding count apart filter
  count-apart id notes [] = ground arith
  count-apart id notes (n ∷ xs) = elim (Bool-cases (n.id == id)) [
    | inl here ↦
        rw ((str_eq_iff n.id id).0 here) (ground (arith, count-apart id notes xs, str_eq_iff id id))
    | inr other ↦ ground (arith, count-apart id notes xs)
  ]

  pub has_id-count : (id : Str) (xs : List (Note Answer)) → has_id id xs ≡ false → count id xs ≡ 0
  unfolding any count
  has_id-count id [] h = refl
  has_id-count id (n ∷ xs) h = ground (arith, has_id-count id xs)

  -- These notes are delivered and not settled, each at most as often as it was delivered.
  pub record IsHeld (notes : List (Note Answer)) (b : Inbox Answer) : Type 0 where
    pub held : (id : Str) → count id notes ≤ count id b.delivered

  pub data Move : Inbox Answer → Inbox Answer → Type 0 where
    put_note :
        (b : Inbox Answer) (text : Str) (opts : NoteOptions Answer) (now : ℕ)
        → Move b (put b text opts now).1
    withdraw_note : (b : Inbox Answer) (id : Str) → Move b (withdraw b id).1
    drain_notes : (b : Inbox Answer) → Move b (drain b).1
    deliver_note :
        (b : Inbox Answer) (text : Str) (opts : NoteOptions Answer) (now : ℕ)
        → Move b (deliver_now b text opts now).1
    settle_notes : (b : Inbox Answer) → Move b (settle b)
    restore_notes :
        (b : Inbox Answer) (notes : List (Note Answer)) → IsHeld notes b → Move b (restore b notes)
    requeue_notes : (b : Inbox Answer) → Move b (requeue b).1

  pub data Moves (b : Inbox Answer) : Inbox Answer → Type 0 where
    none_yet : Moves b b
    then_move : {c d : Inbox Answer} → Moves b c → Move c d → Moves b d

  -- Every id is held at most once, queued or delivered, and none that is still to be made.
  pub record IsSound (b : Inbox Answer) : Type 0 where
    pub once : (id : Str) → count id b.pending + count id b.delivered ≤ 1
    pub fresh :
        (k : ℕ) → b.minted < k → count (note_id k) b.pending + count (note_id k) b.delivered ≡ 0

  one_more :
      (b : Inbox Answer) (id : Str)
      → IsSound b
      → (if note_id (suc b.minted) == id then 1 else 0) + count id b.pending + count id b.delivered
        ≤ 1
  one_more b id s = elim (Bool-cases (note_id (suc b.minted) == id)) [
    | inl here ↦ rw here (
        rw (← (str_eq_iff (note_id (suc b.minted)) id).0 here)
          (omega (arith, s.fresh (suc b.minted) (omega arith))))
    | inr other ↦ rw other (omega (arith, s.once id))
  ]

  put-IsSound :
      (b : Inbox Answer) (text : Str) (opts : NoteOptions Answer) (now : ℕ)
      → IsSound b
      → IsSound (put b text opts now).1
  unfolding put count
  put-IsSound b text opts now s =
      let note = minted_note (suc b.minted) text opts now in
      record {
        once = λ id. omega (arith, one_more b id s, count-append id b.pending (note ∷ []));
        fresh = λ k h.
            rw (count-append (note_id k) b.pending (note ∷ []), other_id b.minted k h)
              (omega (arith, s.fresh k (omega arith)));
      }

  deliver_now-IsSound :
      (b : Inbox Answer) (text : Str) (opts : NoteOptions Answer) (now : ℕ)
      → IsSound b
      → IsSound (deliver_now b text opts now).1
  unfolding deliver_now count
  deliver_now-IsSound b text opts now s =
      let note = minted_note (suc b.minted) text opts now in
      record {
        once = λ id. omega (arith, one_more b id s, count-append id b.delivered (note ∷ []));
        fresh = λ k h.
            rw (count-append (note_id k) b.delivered (note ∷ []), other_id b.minted k h)
              (omega (arith, s.fresh k (omega arith)));
      }

  -- a move that makes no note and holds none more often
  fewer :
      (b c : Inbox Answer)
      → ((id : Str)
          → count id c.pending + count id c.delivered ≤ count id b.pending + count id b.delivered)
      → c.minted ≡ b.minted
      → IsSound b
      → IsSound c
  fewer b c le same s = record {
    once = λ id. omega (arith, le id, s.once id);
    fresh = λ k h. omega (arith, le (note_id k), s.fresh k (omega arith));
  }

  withdraw-le :
      (b : Inbox Answer) (w id : Str)
      → count id (withdraw b w).1.pending + count id (withdraw b w).1.delivered
        ≤ count id b.pending + count id b.delivered
  unfolding withdraw
  withdraw-le b w id = ground (arith, count-splice_id w id b.pending)

  restore-le :
      (b : Inbox Answer) (notes : List (Note Answer)) (id : Str)
      → IsHeld notes b
      → count id (restore b notes).pending + count id (restore b notes).delivered
        ≤ count id b.pending + count id b.delivered
  unfolding restore
  restore-le b notes id h = ground (
    arith,
    count-append id notes b.pending,
    count-apart id notes b.delivered,
    h.held id,
    has_id-count id notes,
  )

  drain-le :
      (b : Inbox Answer) (id : Str)
      → count id (drain b).1.pending + count id (drain b).1.delivered
        ≤ count id b.pending + count id b.delivered
  unfolding drain count
  drain-le b id = ground (arith, count-append id b.delivered b.pending)

  Move-IsSound : {b c : Inbox Answer} → Move b c → IsSound b → IsSound c
  unfolding withdraw drain settle restore requeue count
  Move-IsSound (put_note b text opts now) s = put-IsSound b text opts now s
  Move-IsSound (deliver_note b text opts now) s = deliver_now-IsSound b text opts now s
  Move-IsSound (withdraw_note b id) s =
      fewer b (withdraw b id).1 (λ j. withdraw-le b id j) (ground arith) s
  Move-IsSound (drain_notes b) s = fewer b (drain b).1 (λ j. drain-le b j) (ground arith) s
  Move-IsSound (settle_notes b) s = fewer b (settle b) (λ j. omega arith) refl s
  Move-IsSound (restore_notes b notes h) s =
      fewer b (restore b notes) (λ j. restore-le b notes j h) refl s
  Move-IsSound (requeue_notes b) s =
      fewer b (requeue b).1 (λ j. omega (arith, count-append j b.delivered b.pending)) refl s

  -- Whatever moves are made of a new inbox, where only notes that are delivered are restored, every
  -- id is held at most once, queued or delivered, and no note is held that is still to be made.
  pub Moves-IsSound : {b : Inbox Answer} → Moves new_inbox b → IsSound b
  unfolding count
  Moves-IsSound none_yet = record { once = λ id. omega arith; fresh = λ k h. omega arith }
  Moves-IsSound (then_move moves move) = Move-IsSound move (Moves-IsSound moves)
