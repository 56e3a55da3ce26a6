-- ===== src/Ancestry/Search/Reach.antt =====
-- What the loop finds: every commit that a start reaches.
use agex_ts.Prelude.{
  ℕ, zero, suc, ◌+◌, ◌≤◌, Str, str_Eq, str_eq_iff, ◌==◌, ◌≡◌, refl, sym, ◌∙◌, ap, subst, Bool, true,
  false, not, ◌||◌, ◌&&◌, Option, none, some, List, [], ◌∷◌, if◌then◌else◌, Bool-cases,
  Option-cases, inl, inr, arith, length, is_some, filter,
}
use mathlib.Core.Option.{some-injective}
use agex_ts.Prelude.Result.{Result, ok, err}
use agex_ts.JsMap
use agex_ts.JsMap.{JsMap}
use agex_ts.JsMap.Batch.{member}
use agex_ts.JsMap.Laws.{IsUnique, get-set}
use agex_ts.Ancestry.Search.{Seen, unseen, visited, search}

-- `push` adds what it is given, and nothing else.
pub record IsPush (push : List Str → List Str → List Str) : Type 0 where
  pub member-push :
      (cs work : List Str) (x : Str) → member (push cs work) x ≡ (member cs x || member work x)
  pub length-push : (cs work : List Str) → length (push cs work) ≡ length cs + length work

-- A commit reaches itself, and the parents of each commit that it reaches.
pub data Reaches (next : Str → Option (List Str)) (a : Str) : Str → Type 0 where
  itself : Reaches next a a
  parent :
      {b c : Str} (parents : List Str)
      → Reaches next a b
      → next b ≡ some parents
      → member parents c ≡ true
      → Reaches next a c

member-unseen :
    (skip : Str → Bool) (out : Seen) (ps : List Str) (x : Str)
    → member (unseen skip out ps) x ≡ (member ps x && not (JsMap.has out x || skip x))
unfolding member unseen filter
member-unseen skip out [] x = refl
member-unseen skip out (p ∷ ps) x = elim (Bool-cases (p == x)) [
  | inl here ↦
      rw ((str_eq_iff p x).0 here) (ground (arith, member-unseen skip out ps x, str_eq_iff x x))
  | inr there ↦ ground (arith, member-unseen skip out ps x)
]

length-unseen :
    (skip : Str → Bool) (out : Seen) (ps : List Str) → length (unseen skip out ps) ≤ length ps
unfolding unseen filter
length-unseen skip out [] = omega arith
length-unseen skip out (p ∷ ps) = ground (arith, length-unseen skip out ps)

-- the parents of the commits not yet seen
unfoldable pub remaining : JsMap Str (List Str) → Seen → ℕ
remaining [] out = 0
remaining ((c, ps) ∷ commits) out =
    (if JsMap.has out c then 0 else length ps) + remaining commits out

remaining-set_other :
    (commits : JsMap Str (List Str)) (out : Seen) (c : Str) (ps : List Str)
    → JsMap.get commits c ≡ none
    → remaining commits (JsMap.set out c ps) ≡ remaining commits out
unfolding remaining JsMap.get
remaining-set_other [] out c ps h = refl
remaining-set_other ((j, qs) ∷ commits) out c ps h = ground (
  arith,
  remaining-set_other commits out c ps,
  get-set out c j ps,
  str_eq_iff j c,
  str_eq_iff c j,
)

remaining-set :
    (commits : JsMap Str (List Str)) (out : Seen) (c : Str) (ps : List Str)
    → IsUnique commits
    → JsMap.get commits c ≡ some ps
    → JsMap.has out c ≡ false
    → remaining commits (JsMap.set out c ps) + length ps ≡ remaining commits out
unfolding remaining JsMap.get
remaining-set [] out c ps u h fresh = cc
remaining-set ((j, qs) ∷ commits) out c ps (gone, u) h fresh = elim (Bool-cases (j == c)) [
  | inl here ↦
      let same = (str_eq_iff j c).0 here in
      ground (
        arith,
        remaining-set_other commits out c ps (subst (λ x. JsMap.get commits x ≡ none) same gone),
        get-set out c j ps,
        str_eq_iff c j,
        same,
        h,
      )
  | inr there ↦ ground (
    arith,
    remaining-set commits out c ps u (rw there at h) fresh,
    get-set out c j ps,
    str_eq_iff j c,
    str_eq_iff c j,
  )
]

module _ (skip : Str → Bool) (strict : Bool) (next : Str → Option (List Str))
    (starts : List Str) where
  -- the parents of a commit that is there and not passed over
  abbrev pub live : Str → Option (List Str)
  live c = if skip c then none else next c

  -- Some start reaches the commit.
  abbrev pub Reached : Str → Type 0
  Reached c = (s : Str) × (member starts s ≡ true) × Reaches live s c

  -- passed over, or found
  abbrev settled : Seen → Str → Bool
  settled out x = (skip x || JsMap.has out x) || (not strict && not (is_some (next x)))

  abbrev covered : Seen → List Str → Str → Bool
  covered out work x = settled out x || member work x

  pub record Searching (out : Seen) (work : List Str) : Type 0 where
    pub kept :
        (c : Str) (ps : List Str) → JsMap.get out c ≡ some ps → (live c ≡ some ps) × Reached c
    pub source : (c : Str) → member work c ≡ true → Reached c
    pub begun : (s : Str) → member starts s ≡ true → covered out work s ≡ true
    pub closed :
        (c : Str) (ps : List Str) (p : Str)
        → JsMap.get out c ≡ some ps
        → member ps p ≡ true
        → covered out work p ≡ true

  pub start-Searching : Searching [] starts
  unfolding JsMap.get
  start-Searching = record {
    kept = λ c ps h. cc;
    source = λ c h. (c, h, itself);
    begun = λ s h. ground (arith, h);
    closed = λ c ps p h m. cc;
  }

  covered-pass :
      (out : Seen) (work : List Str) (c x : Str)
      → settled out c ≡ true
      → covered out (c ∷ work) x ≡ true
      → covered out work x ≡ true
  unfolding member
  covered-pass out work c x h k = elim (Bool-cases (c == x)) [
    | inl here ↦
        let h' = subst (λ y. settled out y ≡ true) ((str_eq_iff c x).0 here) h in ground (arith, h')
    | inr there ↦ ground (arith, k, there)
  ]

  pass-Searching :
      (out : Seen) (work : List Str) (c : Str)
      → settled out c ≡ true
      → Searching out (c ∷ work)
      → Searching out work
  unfolding member
  pass-Searching out work c h s = record {
    kept = s.kept;
    source = λ x m. s.source x (ground (arith, m));
    begun = λ x m. covered-pass out work c x h (s.begun x m);
    closed = λ b ps p e m. covered-pass out work c p h (s.closed b ps p e m);
  }

  module _ (push : List Str → List Str → List Str) (adds : IsPush push) where
    covered-visit :
        (out : Seen) (work : List Str) (c x : Str) (ps : List Str)
        → live c ≡ some ps
        → covered out (c ∷ work) x ≡ true
        → covered (JsMap.set out c ps) (push (unseen skip (JsMap.set out c ps) ps) work) x ≡ true
    unfolding member
    covered-visit out work c x ps l k =
        let out' = JsMap.set out c ps in
        ground (
          arith,
          k,
          get-set out c x ps,
          str_eq_iff c x,
          adds.member-push (unseen skip out' ps) work x,
        )

    -- a parent of the commit just seen
    covered-parent :
        (out : Seen) (work : List Str) (c x : Str) (ps : List Str)
        → member ps x ≡ true
        → covered (JsMap.set out c ps) (push (unseen skip (JsMap.set out c ps) ps) work) x ≡ true
    covered-parent out work c x ps m =
        let out' = JsMap.set out c ps in
        ground
          (arith, m, member-unseen skip out' ps x, adds.member-push (unseen skip out' ps) work x)

    visit-Searching :
        (out : Seen) (work : List Str) (c : Str) (ps : List Str)
        → live c ≡ some ps
        → Searching out (c ∷ work)
        → Searching (JsMap.set out c ps) (push (unseen skip (JsMap.set out c ps) ps) work)
    unfolding member
    visit-Searching out work c ps l s =
        let out' = JsMap.set out c ps in
        let found : Reached c = s.source c (ground (arith, str_eq_iff c c)) in
        record {
          kept = λ b qs e. elim (Bool-cases (c == b)) [
            | inl here ↦
                let same = (str_eq_iff c b).0 here in
                let is_ps = some-injective ps qs (rw (get-set out c b ps, here) at e) in
                (subst (λ x. live x ≡ some qs) same (l ∙ ap some is_ps), subst Reached same found)
            | inr there ↦ s.kept b qs (rw (get-set out c b ps, there) at e)
          ];
          source = λ x m. elim (Bool-cases (member work x)) [
            | inl old ↦ s.source x (ground (arith, old))
            | inr new ↦
                let mine : member ps x ≡ true = ground (
                  arith,
                  m,
                  new,
                  adds.member-push (unseen skip out' ps) work x,
                  member-unseen skip out' ps x,
                ) in
                (found.0, found.1, parent ps found.2 l mine)
          ];
          begun = λ x m. covered-visit out work c x ps l (s.begun x m);
          closed = λ b qs p e m. elim (Bool-cases (c == b)) [
            | inl here ↦
                let is_ps = some-injective ps qs (rw (get-set out c b ps, here) at e) in
                covered-parent out work c p ps (subst (λ x. member x p ≡ true) (sym is_ps) m)
            | inr there ↦
                covered-visit out work c p ps l
                  (s.closed b qs p (rw (get-set out c b ps, there) at e) m)
          ];
        }

  settled-reached :
      (out : Seen) (s c : Str)
      → Searching out []
      → member starts s ≡ true
      → Reaches live s c
      → settled out c ≡ true
  unfolding member
  settled-reached out s c q m itself = ground (arith, q.begun s m)
  settled-reached out s c q m (parent {b} ps r l in_ps) =
      let here = settled-reached out s b q m r in
      let (qs, is_qs) : (qs : List Str) × (JsMap.get out b ≡ some qs) =
        elim (Option-cases (JsMap.get out b)) [
          | inl gone ↦ absurd (ground (arith, here, l, gone))
          | inr (qs, there) ↦ (qs, there)
        ] in
      let same = some-injective ps qs (sym l ∙ (q.kept b qs is_qs).0) in
      ground (arith, q.closed b qs c is_qs (subst (λ x. member x c ≡ true) same in_ps))

  -- What the loop ends in: the commits that a start reaches and that are there, with their parents;
  -- or, if strict, one that a start reaches and that is not there.
  pub record Finds (out : Seen) : Type 0 where
    pub exactly : (c : Str) → JsMap.has out c ≡ true → Reached c
    pub all :
        (c : Str)
        → Reached c
        → (skip c || JsMap.has out c || (not strict && not (is_some (next c)))) ≡ true
    pub parents : (c : Str) (ps : List Str) → JsMap.get out c ≡ some ps → live c ≡ some ps

  abbrev pub Ends : Option (Result Str Seen) → Type 0
  Ends none = ⊥
  Ends (some (ok out)) = Finds out
  Ends (some (err c)) = (strict ≡ true) × Reached c × (skip c ≡ false) × (next c ≡ none)

  end-Finds : (out : Seen) → Searching out [] → Finds out
  end-Finds out q = record {
    exactly = λ c h. elim (Option-cases (JsMap.get out c)) [
      | inl gone ↦ absurd (ground (arith, h, gone))
      | inr (ps, there) ↦ (q.kept c ps there).1
    ];
    all = λ c r. ground (arith, settled-reached out r.0 c q r.1 r.2);
    parents = λ c ps h. (q.kept c ps h).0;
  }

  module _ (push : List Str → List Str → List Str) (adds : IsPush push)
      (commits : JsMap Str (List Str)) (listed : (c : Str) → next c ≡ JsMap.get commits c)
      (distinct : IsUnique commits) where
    visited-Ends :
        (go : Seen → List Str → Option (Result Str Seen)) (fuel : ℕ) (out : Seen) (work : List Str)
        (c : Str) (o : Option (List Str))
        → Searching out (c ∷ work)
        → (JsMap.has out c || skip c) ≡ false
        → next c ≡ o
        → length work + remaining commits out ≤ fuel
        → ((out' : Seen) (work' : List Str)
            → Searching out' work'
            → length work' + remaining commits out' ≤ fuel
            → Ends (go out' work'))
        → Ends (visited push skip strict next go out work c o)
    unfolding member
    visited-Ends go fuel out work c none q fresh e n k = elim (Bool-cases strict) [
      | inl throws ↦
          subst (λ x. Ends (if x then some (err c) else go out work)) (sym throws)
            (throws, q.source c (ground (arith, str_eq_iff c c)), ground (arith, fresh), e)
      | inr passes ↦
          subst (λ x. Ends (if x then some (err c) else go out work)) (sym passes)
            (k out work (pass-Searching out work c (ground (arith, e, passes)) q) n)
    ]
    visited-Ends go fuel out work c (some ps) q fresh e n k =
        let out' = JsMap.set out c ps in
        k out' (push (unseen skip out' ps) work)
          (visit-Searching push adds out work c ps (ground (arith, fresh, e)) q)
          (omega (
            arith,
            n,
            adds.length-push (unseen skip out' ps) work,
            length-unseen skip out' ps,
            remaining-set commits out c ps distinct (sym (listed c) ∙ e) (ground (arith, fresh)),
          ))

    -- With a list of the commits that are there, and fuel for the worklist and for all their parents,
    -- the loop ends, in what the starts reach.
    pub search-Ends :
        (fuel : ℕ) (out : Seen) (work : List Str)
        → Searching out work
        → length work + remaining commits out ≤ fuel
        → Ends (search push skip strict next fuel out work)
    unfolding search
    search-Ends fuel out [] q n = end-Finds out q
    search-Ends zero out (c ∷ work) q n = absurd (omega arith)
    search-Ends (suc fuel) out (c ∷ work) q n = elim (Bool-cases (JsMap.has out c || skip c)) [
      | inl seen ↦ rw seen (
          search-Ends fuel out work (pass-Searching out work c (ground (arith, seen)) q)
            (omega arith))
      | inr fresh ↦ rw fresh (
          visited-Ends (search push skip strict next fuel) fuel out work c (next c) q fresh refl
            (omega arith) (λ out' work' q' n'. search-Ends fuel out' work' q' n'))
    ]
