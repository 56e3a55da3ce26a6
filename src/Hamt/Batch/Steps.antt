-- ===== src/Hamt/Batch/Steps.antt =====
-- One group of changes under a branch.
use agex_ts.Prelude.{
  ℕ, ◌+◌, Str, str_Eq, str_eq_iff, ◌==◌, ◌≡◌, refl, sym, ◌∙◌, ap, true, false, Option, none, some,
  List, [], ◌∷◌, arith, if◌then◌else◌, Bool-cases, Option-cases, inl, inr, All, any, is_some,
}
use mathlib.Core.Option.{some-injective}
use agex_ts.JsMap
use agex_ts.JsMap.{JsMap}
use agex_ts.JsMap.Laws.{IsUnique, get-set, get-delete, set-IsUnique, get-empty}
use agex_ts.Hamt.Trie.{Format, Hamt, Pending, hash_len, nibble, follow}
use agex_ts.Hamt.Trie.Walk.{walk, IsAddressed, Grows, walk-Grows}
use agex_ts.Hamt.Delete.{Subtree}
use agex_ts.Hamt.Batch.{
  KeyChange, Branching, new_items, subtree_of, removes, link, linked, grown, same_child,
  apply_child,
}
use agex_ts.Hamt.Batch.Leaves.{after, ends, subtree-ends, Applied}

abbrev pub IsUpdate : KeyChange → Type 0
IsUpdate c = is_some c.value ≡ true

get-new_items :
    (items : JsMap Str Str) (g : List KeyChange) (j : Str)
    → All IsUpdate g
    → JsMap.get (new_items items g) j ≡ after g j (JsMap.get items j)
unfolding new_items
get-new_items items [] j u = refl
get-new_items items (c ∷ g) j (u, us) = elim (Option-cases c.value) [
  | inl gone ↦ absurd (ground (arith, u, gone))
  | inr (v, there) ↦
      rw there
        (get-new_items (JsMap.set items c.key v) g j us ∙ ap (after g j) (get-set items c.key j v))
]

new_items-IsUnique :
    (items : JsMap Str Str) (g : List KeyChange) → IsUnique items → IsUnique (new_items items g)
unfolding new_items
new_items-IsUnique items [] u = u
new_items-IsUnique items (c ∷ g) u = elim (Option-cases c.value) [
  | inl gone ↦ rw gone (new_items-IsUnique items g u)
  | inr (v, there) ↦
      rw there (new_items-IsUnique (JsMap.set items c.key v) g (set-IsUnique items c.key v u))
]

any-removes : (g : List KeyChange) → All IsUpdate g → any removes g ≡ false
unfolding any
any-removes [] u = refl
any-removes (c ∷ g) (u, us) = ground (arith, any-removes g us)

get-link :
    (children : JsMap Str Str) (chunk c : Str) (s : Option Str)
    → JsMap.get (link children chunk s) c ≡ (if chunk == c then s else JsMap.get children c)
get-link children chunk c none = get-delete children chunk c
get-link children chunk c (some h) = get-set children chunk c h

module _ (format : Format) (hamt : Hamt) (left depth : ℕ) where
  -- what a walk from the branch ends in, by its children
  abbrev pub below : Branching → Str → Option (Option Str)
  below b j =
      follow (λ next. walk format hamt b.pending left (depth + 1) j next)
        (JsMap.get b.children (nibble (format.key_hash j) depth))

  -- What a group leaves: of its own keys what its changes say, of all others what there was.
  pub record Step (b : Branching) (chunk : Str) (g : List KeyChange) (b' : Branching) : Type 0 where
    pub grows : Grows format hamt b.pending b'.pending
    pub mine :
        (j : Str) (o : Option Str)
        → nibble (format.key_hash j) depth ≡ chunk
        → below b j ≡ some o
        → below b' j ≡ some (after g j o)
    pub others :
        (j : Str) (o : Option Str)
        → (chunk == nibble (format.key_hash j) depth) ≡ false
        → below b j ≡ some o
        → below b' j ≡ some o
    pub unchanged : b'.changed ≡ false → (b'.children ≡ b.children) × (b.changed ≡ false)
    pub no_removal : b'.removed ≡ b.removed

  follow-ends :
      (p : Pending) (j : Str) (s : Option Str)
      → follow (λ next. walk format hamt p left (depth + 1) j next) s
        ≡ ends format hamt p left (depth + 1) j s
  follow-ends p j none = refl
  follow-ends p j (some h) = refl

  pub follow-Grows :
      (p q : Pending) (j : Str) (s : Option Str) (o : Option Str)
      → Grows format hamt p q
      → follow (λ next. walk format hamt p left (depth + 1) j next) s ≡ some o
      → follow (λ next. walk format hamt q left (depth + 1) j next) s ≡ some o
  follow-Grows p q j none o g h = h
  follow-Grows p q j (some next) o g h = walk-Grows format hamt p q left (depth + 1) j next o g h

  -- a group's subtree in its place
  relay :
      (b b' : Branching) (chunk : Str) (g : List KeyChange) (s : Option Str)
      → ((c : Str) → JsMap.get b'.children c ≡ (if chunk == c then s else JsMap.get b.children c))
      → Grows format hamt b.pending b'.pending
      → ((j : Str) (o : Option Str)
          → nibble (format.key_hash j) depth ≡ chunk
          → below b j ≡ some o
          → ends format hamt b'.pending left (depth + 1) j s ≡ some (after g j o))
      → (b'.changed ≡ false → (b'.children ≡ b.children) × (b.changed ≡ false))
      → b'.removed ≡ b.removed
      → Step b chunk g b'
  relay b b' chunk g s slots grows here same kept = record {
    grows = grows;
    mine = λ j o e w.
        let c = nibble (format.key_hash j) depth in
        rw (slots c, (str_eq_iff chunk c).1 (sym e)) (follow-ends b'.pending j s ∙ here j o e w);
    others = λ j o e w.
        let c = nibble (format.key_hash j) depth in
        rw (slots c, e) (follow-Grows b.pending b'.pending j (JsMap.get b.children c) o grows w);
    unchanged = same;
    no_removal = kept;
  }

  linked-Step :
      (b : Branching) (chunk : Str) (g : List KeyChange) (next : Subtree)
      → All IsUpdate g
      → Grows format hamt b.pending next.1
      → ((j : Str) (o : Option Str)
          → nibble (format.key_hash j) depth ≡ chunk
          → below b j ≡ some o
          → ends format hamt next.1 left (depth + 1) j next.0 ≡ some (after g j o))
      → Step b chunk g (linked b chunk g next)
  linked-Step b chunk g next u grows here =
      relay b (linked b chunk g next) chunk g next.0 (λ c. get-link b.children chunk c next.0) grows
        here (λ e. absurd (ground (arith, e))) (ground (arith, any-removes g u))

  kept-Step :
      (b : Branching) (chunk : Str) (g : List KeyChange) (s : Option Str) (p : Pending)
      → JsMap.get b.children chunk ≡ s
      → Grows format hamt b.pending p
      → ((j : Str) (o : Option Str)
          → nibble (format.key_hash j) depth ≡ chunk
          → below b j ≡ some o
          → ends format hamt p left (depth + 1) j s ≡ some (after g j o))
      → Step b chunk g (record b { pending = p })
  kept-Step b chunk g s p e grows here =
      relay b (record b { pending = p }) chunk g s
        (λ c. elim (Bool-cases (chunk == c)) [
          | inl here_too ↦ rw (here_too, sym ((str_eq_iff chunk c).0 here_too)) e
          | inr other ↦ rw other refl
        ])
        grows here (λ f. (refl, f)) refl

  grown-Step :
      (b : Branching) (chunk : Str) (g : List KeyChange) (next : Subtree)
      → JsMap.get b.children chunk ≡ none
      → All IsUpdate g
      → Grows format hamt b.pending next.1
      → ((j : Str) (o : Option Str)
          → nibble (format.key_hash j) depth ≡ chunk
          → below b j ≡ some o
          → ends format hamt next.1 left (depth + 1) j next.0 ≡ some (after g j o))
      → Step b chunk g (grown b chunk g next)
  grown-Step b chunk g (none, p) e u grows here = kept-Step b chunk g none p e grows here
  grown-Step b chunk g (some h, p) e u grows here = linked-Step b chunk g (some h, p) u grows here

  same_child-eq : (s : Option Str) (child : Str) → same_child s child ≡ true → s ≡ some child
  same_child-eq none child h = absurd (ground (arith, h))
  same_child-eq (some x) child h = ap some ((str_eq_iff x child).0 h)

  changed-Step :
      (b : Branching) (chunk : Str) (g : List KeyChange) (child : Str) (next : Subtree)
      → JsMap.get b.children chunk ≡ some child
      → All IsUpdate g
      → Applied format hamt b.pending left (depth + 1) child g next
      → Step b chunk g
          (if same_child next.0 child then record b { pending = next.1 } else linked b chunk g next)
  changed-Step b chunk g child next e u a =
      let here : (j : Str) (o : Option Str)
          → nibble (format.key_hash j) depth ≡ chunk
          → below b j ≡ some o
          → ends format hamt next.1 left (depth + 1) j next.0 ≡ some (after g j o) =
        λ j o k w. a.finds j o (rw (k, e) at w) in
      elim (Bool-cases (same_child next.0 child)) [
        | inl same ↦ rw same (
            kept-Step b chunk g next.0 next.1 (e ∙ sym (same_child-eq next.0 child same)) a.grows
              here)
        | inr other ↦ rw other (linked-Step b chunk g next u a.grows here)
      ]

  -- A group under a branch, whose child's changes are applied by `go`.
  pub apply_child-Step :
      (go : Str → List KeyChange → Pending → Option Subtree) (b : Branching) (chunk : Str)
      (g : List KeyChange) (s : Option Str)
      → left + (depth + 1) ≡ hash_len
      → IsAddressed format hamt b.pending
      → JsMap.get b.children chunk ≡ s
      → All IsUpdate g
      → ((child : Str)
          → s ≡ some child
          → (r : Subtree) × (go child g b.pending ≡ some r)
            × Applied format hamt b.pending left (depth + 1) child g r)
      → (b' : Branching) × (apply_child format hamt go depth b chunk g s ≡ some b')
        × Step b chunk g b'
  apply_child-Step go b chunk g none d a e u k =
      let items = new_items [] g in
      let next = subtree_of format hamt items (depth + 1) b.pending in
      let (grows, found) =
        subtree-ends format hamt left (depth + 1) items b.pending d (new_items-IsUnique [] g tt)
          a in
      (
        grown b chunk g next,
        refl,
        grown-Step b chunk g next e u grows (λ j o c w.
            found j
            ∙ ap some (
                get-new_items [] g j u
                ∙ ap (after g j) (get-empty j ∙ some-injective none o (rw (c, e) at w)))),
      )
  apply_child-Step go b chunk g (some child) d a e u k =
      let (r, is_r, applied) = k child refl in
      (
        (if same_child r.0 child then record b { pending = r.1 } else linked b chunk g r),
        rw is_r refl,
        changed-Step b chunk g child r e u applied,
      )
