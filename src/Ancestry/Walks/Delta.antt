-- ===== src/Ancestry/Walks/Delta.antt =====
-- The walks find exactly what is reachable.
use agex_ts.Prelude.{
  ℕ, suc, ◌+◌, ◌≤◌, Str, str_Eq, str_eq_iff, ◌≡◌, refl, sym, ◌∙◌, subst, true, false, ◌||◌, Option,
  none, some, List, [], ◌∷◌, ◌++◌, if◌then◌else◌, Bool-cases, Option-cases, inl, inr, arith, length,
  is_some, length-append, ◌↔◌,
}
use agex_ts.Prelude.Result.{Result, ok, err}
use agex_ts.JsMap
use agex_ts.JsMap.{JsMap}
use agex_ts.JsMap.Batch.{member}
use agex_ts.JsMap.Laws.{IsUnique}
use agex_ts.Store.{Bytes}
use agex_ts.Json.{Json}
use agex_ts.Ancestry.{parents_of}
use agex_ts.Ancestry.Search.{Seen, push_all, push_back}
use agex_ts.Ancestry.Search.Reach.{
  IsPush, Reaches, itself, parent, remaining, Ends, search-Ends, start-Searching,
}
use agex_ts.Ancestry.Walks.{nothing, ancestors_by_walk, delta_walk}

member-append : (xs ys : List Str) (x : Str) → member (xs ++ ys) x ≡ (member xs x || member ys x)
unfolding member
member-append [] ys x = refl
member-append (y ∷ xs) ys x = ground (arith, member-append xs ys x)

member-push_all :
    (cs work : List Str) (x : Str) → member (push_all cs work) x ≡ (member cs x || member work x)
unfolding member push_all
member-push_all [] work x = refl
member-push_all (c ∷ cs) work x = ground (arith, member-push_all cs (c ∷ work) x)

length-push_all : (cs work : List Str) → length (push_all cs work) ≡ length cs + length work
unfolding push_all
length-push_all [] work = omega arith
length-push_all (c ∷ cs) work = omega (arith, length-push_all cs (c ∷ work))

pub push_all-IsPush : IsPush push_all
push_all-IsPush = record { member-push = member-push_all; length-push = length-push_all }

pub push_back-IsPush : IsPush push_back
push_back-IsPush = record {
  member-push = λ cs work x. ground (arith, member-append work cs x);
  length-push = λ cs work. omega (arith, length-append work cs);
}

module _ (parse : Bytes → Option Json) (store : Str → Option Bytes) (commits : JsMap Str (List Str))
    (listed : (c : Str) → parents_of parse store c ≡ JsMap.get commits c)
    (distinct : IsUnique commits) where
  -- the commit is in the store, and one of `starts` or reachable from one
  abbrev pub Ancestor : List Str → Str → Type 0
  Ancestor starts c =
      (is_some (parents_of parse store c) ≡ true)
      × (s : Str) × (member starts s ≡ true)
      × Reaches (parents_of parse store) s c

  -- the commits seen are these, with their parents
  pub record HasExactly (P : Str → Type 0) (r : Option (Result Str Seen)) : Type 0 where
    pub out : Seen
    pub is_out : r ≡ some (ok out)
    pub exactly : (c : Str) → (JsMap.has out c ≡ true) ↔ P c
    pub parents :
        (c : Str) (ps : List Str) → JsMap.get out c ≡ some ps → parents_of parse store c ≡ some ps

  present :
      (out : Seen) (c : Str)
      → JsMap.has out c ≡ true
      → ((c : Str) (ps : List Str) → JsMap.get out c ≡ some ps → parents_of parse store c ≡ some ps)
      → is_some (parents_of parse store c) ≡ true
  present out c h f = elim (Option-cases (JsMap.get out c)) [
    | inl gone ↦ absurd (ground (arith, h, gone))
    | inr (ps, there) ↦ rw (f c ps there) refl
  ]

  walk-HasExactly :
      (starts work : List Str) (r : Option (Result Str Seen))
      → ((s : Str) → member work s ≡ member starts s)
      → Ends nothing false (parents_of parse store) work r
      → HasExactly (Ancestor starts) r
  walk-HasExactly starts work none m e = absurd e
  walk-HasExactly starts work (some (err c)) m e = absurd (ground (arith, e.0))
  walk-HasExactly starts work (some (ok out)) m e = record {
    out = out;
    is_out = refl;
    exactly = λ c. (
      λ h. (
        present out c h e.parents,
        (e.exactly c h).0,
        sym (m (e.exactly c h).0) ∙ (e.exactly c h).1,
        (e.exactly c h).2,
      ),
      λ a. ground (arith, e.all c (a.1, m a.1 ∙ a.2, a.3), a.0),
    );
    parents = e.parents;
  }

  -- `ancestorsByWalk` ends, given fuel for the starts and every parent of every commit, and has exactly
  -- the commits that are in the store and are, or are reachable from, one of the starts.
  pub ancestors_by_walk-HasExactly :
      (fuel : ℕ) (starts : List Str)
      → length starts + remaining commits [] ≤ fuel
      → HasExactly (Ancestor starts) (ancestors_by_walk parse store fuel starts)
  unfolding ancestors_by_walk member
  ancestors_by_walk-HasExactly fuel starts n =
      let work = push_all starts [] in
      walk-HasExactly starts work (ancestors_by_walk parse store fuel starts)
        (λ s. ground (arith, member-push_all starts [] s))
        (search-Ends nothing false (parents_of parse store) work push_all push_all-IsPush commits
          listed distinct fuel [] work (start-Searching nothing false (parents_of parse store) work)
          (omega (arith, n, length-push_all starts [])))

  -- reached around the commits of `skip`
  module _ (have_set : Seen) where
    abbrev around : Str → Option (List Str)
    around c = if JsMap.has have_set c then none else parents_of parse store c

    around-parents :
        (b : Str) (ps : List Str)
        → around b ≡ some ps
        → (JsMap.has have_set b ≡ false) × (parents_of parse store b ≡ some ps)
    around-parents b ps e = elim (Bool-cases (JsMap.has have_set b)) [
      | inl there ↦ absurd (ground (arith, rw there at e))
      | inr gone ↦ (gone, rw gone at e)
    ]

    Reaches-of_around : (a c : Str) → Reaches around a c → Reaches (parents_of parse store) a c
    Reaches-of_around a c itself = itself
    Reaches-of_around a c (parent {b} ps r l m) =
        parent ps (Reaches-of_around a b r) (around-parents b ps l).1 m

    around-of_Reaches :
        (starts : List Str) (a c : Str)
        → ((c : Str) → (JsMap.has have_set c ≡ true) ↔ Ancestor starts c)
        → is_some (parents_of parse store c) ≡ true
        → JsMap.has have_set c ≡ false
        → Reaches (parents_of parse store) a c
        → Reaches around a c
    around-of_Reaches starts a c h present gone itself = itself
    around-of_Reaches starts a c h present gone (parent {b} ps r l m) =
        elim (Bool-cases (JsMap.has have_set b)) [
          | inl there ↦
              let (p, s, in_starts, s_b) = (h b).0 there in
              absurd (ground (arith, gone, (h c).1 (present, s, in_starts, parent ps s_b l m)))
          | inr not_there ↦
              parent ps (around-of_Reaches starts a b h (rw l refl) not_there r) (rw not_there l) m
        ]

  -- What the walk of `ancestryDelta` ends in, where the commits of `starts` are had.
  pub data IsDelta (want : Str) (starts : List Str) : Option (Result Str Seen) → Type 0 where
    delta :
        (out : Seen)
        → ((c : Str)
            → (JsMap.has out c ≡ true) ↔ (Ancestor (want ∷ []) c × (Ancestor starts c → ⊥)))
        → ((c : Str) (ps : List Str)
            → JsMap.get out c ≡ some ps
            → parents_of parse store c ≡ some ps)
        → IsDelta want starts (some (ok out))
    lacking :
        (c : Str)
        → Reaches (parents_of parse store) want c
        → parents_of parse store c ≡ none
        → IsDelta want starts (some (err c))

  only_start : (want s : Str) → member (want ∷ []) s ≡ true → want ≡ s
  unfolding member
  only_start want s m = (str_eq_iff want s).0 (ground (arith, m))

  walk-IsDelta :
      (want : Str) (starts : List Str) (have_set : Seen) (r : Option (Result Str Seen))
      → ((c : Str) → (JsMap.has have_set c ≡ true) ↔ Ancestor starts c)
      → Ends (JsMap.has have_set) true (parents_of parse store) (want ∷ []) r
      → IsDelta want starts r
  unfolding member
  walk-IsDelta want starts have_set none h e = absurd e
  walk-IsDelta want starts have_set (some (err c)) h e =
      let (s, m, r) = e.1 in
      lacking c
        (subst (λ x. Reaches (parents_of parse store) x c) (sym (only_start want s m))
          (Reaches-of_around have_set s c r))
        e.3
  walk-IsDelta want starts have_set (some (ok out)) h e =
      delta out
        (λ c. (
          λ k.
              let (s, m, r) = e.exactly c k in
              elim (Option-cases (JsMap.get out c)) [
                | inl gone ↦ absurd (ground (arith, k, gone))
                | inr (ps, there) ↦
                    let (not_had, held) = around-parents have_set c ps (e.parents c ps there) in
                    (
                      (rw held refl, s, m, Reaches-of_around have_set s c r),
                      λ a. ground (arith, (h c).1 a, not_had),
                    )
              ],
          λ a.
              let (present, s, m, r) = a.0 in
              let not_had : JsMap.has have_set c ≡ false =
                elim (Bool-cases (JsMap.has have_set c)) [
                  | inl had ↦ absurd (a.1 ((h c).0 had))
                  | inr not_had ↦ not_had
                ] in
              ground (
                arith,
                e.all c (s, m, around-of_Reaches have_set starts s c h present not_had r),
                not_had,
              ),
        ))
        (λ c ps k. (around-parents have_set c ps (e.parents c ps k)).1)

  -- The walk of `ancestryDelta` ends, given fuel for the start and every parent of every commit: in the
  -- commits of the store that `want` reaches and that none of `starts` is or reaches, where `have_set`
  -- holds what those are and reach; or in one that `want` reaches and the store lacks.
  pub delta_walk-IsDelta :
      (fuel : ℕ) (want : Str) (starts : List Str) (have_set : Seen)
      → ((c : Str) → (JsMap.has have_set c ≡ true) ↔ Ancestor starts c)
      → suc (remaining commits []) ≤ fuel
      → IsDelta want starts (delta_walk parse store fuel want have_set)
  unfolding delta_walk
  delta_walk-IsDelta fuel want starts have_set h n =
      walk-IsDelta want starts have_set (delta_walk parse store fuel want have_set) h (
        search-Ends (JsMap.has have_set) true (parents_of parse store) (want ∷ []) push_all
          push_all-IsPush commits listed distinct fuel [] (want ∷ [])
          (start-Searching (JsMap.has have_set) true (parents_of parse store) (want ∷ []))
          (omega (arith, n)))
