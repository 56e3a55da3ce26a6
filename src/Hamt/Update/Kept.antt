-- ===== src/Hamt/Update/Kept.antt =====
-- What the loop of `filterPending` keeps, at each step.
use agex_ts.Prelude.{
  Str, str_Eq, str_eq_iff, ◌==◌, ◌≡◌, refl, sym, ◌∙◌, ap, subst, true, false, Bool, not, ◌||◌,
  Option, some, List, [], ◌∷◌, ◌++◌, Bool-cases, Option-cases, inl, inr, arith,
}
use mathlib.Core.Logic.{◌⊎◌}
use agex_ts.JsMap
use agex_ts.JsMap.{JsMap}
use agex_ts.JsMap.Laws.{get-set}
use agex_ts.JsMap.Batch.{member}
use agex_ts.Store.{Bytes}
use agex_ts.Hamt.Trie.{Format, Hamt, Pending}
use agex_ts.Hamt.Update.{push_all, child_hashes}

member-push_all :
    (hs queue : List Str) (c : Str) → member (push_all hs queue) c ≡ (member hs c || member queue c)
unfolding member
member-push_all [] queue c = refl
member-push_all (h ∷ hs) queue c = ground (arith, member-push_all hs (h ∷ queue) c)

-- The hashes that a walk from a root meets through pending nodes; it does not start at the empty leaf.
pub data Reaches (format : Format) (hamt : Hamt) (root : Str) (p : Pending) : Str → Type 0 where
  top : (root == format.empty_hash) ≡ false → Reaches format hamt root p root
  child :
      (h c : Str) (b : Bytes)
      → Reaches format hamt root p h
      → JsMap.get p (hamt.prefix ++ h) ≡ some b
      → member (child_hashes (format.parse_node b)) c ≡ true
      → Reaches format hamt root p c

set-cases :
    (r : Pending) (k j : Str) (b d : Bytes)
    → JsMap.get (JsMap.set r k b) j ≡ some d
    → ((k ≡ j) × (b ≡ d)) ⊎ (JsMap.get r j ≡ some d)
set-cases r k j b d h = elim (Bool-cases (k == j)) [
  | inl same ↦ inl ((str_eq_iff k j).0 same, ground (arith, h, get-set r k j b, same))
  | inr other ↦ inr (ground (arith, h, get-set r k j b, other))
]

module _ (format : Format) (hamt : Hamt) where
  -- a pending node under its key, at a hash that is reached
  pub record ReachedNode (root : Str) (p : Pending) (k : Str) (b : Bytes) : Type 0 where
    pub is_pending : JsMap.get p k ≡ some b
    pub hash : Str
    pub key_of : k ≡ hamt.prefix ++ hash
    pub reached_from_root : Reaches format hamt root p hash

  -- The loop ends, and keeps the pending nodes at reached hashes, all of them and no others.
  pub record Filters (root : Str) (p : Pending) (result : Option Pending) : Type 0 where
    pub value : Pending
    pub is_value : result ≡ some value
    pub keeps :
        (h : Str) (b : Bytes)
        → Reaches format hamt root p h
        → JsMap.get p (hamt.prefix ++ h) ≡ some b
        → JsMap.get value (hamt.prefix ++ h) ≡ some b
    pub only : (k : Str) (b : Bytes) → JsMap.get value k ≡ some b → ReachedNode root p k b

  -- not pending, kept, or to be visited
  settled : Pending → Pending → List Str → Str → Bool
  settled p r queue c =
      not (JsMap.has p (hamt.prefix ++ c)) || JsMap.has r (hamt.prefix ++ c) || member queue c

  pub record Inv (root : Str) (p r : Pending) (queue : List Str) : Type 0 where
    only : (k : Str) (b : Bytes) → JsMap.get r k ≡ some b → ReachedNode root p k b
    queued : (c : Str) → member queue c ≡ true → Reaches format hamt root p c
    at_root : settled p r queue root ≡ true
    closed :
        (k : Str) (b : Bytes)
        → JsMap.get r k ≡ some b
        → (c : Str) → member (child_hashes (format.parse_node b)) c ≡ true
        → settled p r queue c ≡ true

  passed :
      (p r : Pending) (h c : Str) (queue : List Str)
      → (not (JsMap.has p (hamt.prefix ++ h)) || JsMap.has r (hamt.prefix ++ h)) ≡ true
      → settled p r (h ∷ queue) c ≡ true
      → settled p r queue c ≡ true
  unfolding settled member
  passed p r h c queue e s = elim (Bool-cases (h == c)) [
    | inl same ↦
        let here =
          subst
            (λ x. (not (JsMap.has p (hamt.prefix ++ x)) || JsMap.has r (hamt.prefix ++ x)) ≡ true)
            ((str_eq_iff h c).0 same) e in
        ground (arith, here)
    | inr other ↦ ground (arith, s, other)
  ]

  -- a hash that is not pending, or was kept, is passed over
  pub pass_over :
      (root : Str) (p r : Pending) (h : Str) (queue : List Str)
      → (not (JsMap.has p (hamt.prefix ++ h)) || JsMap.has r (hamt.prefix ++ h)) ≡ true
      → Inv root p r (h ∷ queue)
      → Inv root p r queue
  unfolding member
  pass_over root p r h queue e i = record {
    only = i.only;
    queued = λ c m. i.queued c (ground (arith, m));
    at_root = passed p r h root queue e i.at_root;
    closed = λ k b at_k c m. passed p r h c queue e (i.closed k b at_k c m);
  }

  onward :
      (p r : Pending) (h c : Str) (b : Bytes) (children queue : List Str)
      → settled p r (h ∷ queue) c ≡ true
      → settled p (JsMap.set r (hamt.prefix ++ h) b) (push_all children queue) c ≡ true
  unfolding settled member
  onward p r h c b children queue s = elim (Bool-cases (h == c)) [
    | inl same ↦
        let at = ap (λ x. hamt.prefix ++ x) ((str_eq_iff h c).0 same) in
        ground (
          arith,
          get-set r (hamt.prefix ++ h) (hamt.prefix ++ c) b,
          (str_eq_iff (hamt.prefix ++ h) (hamt.prefix ++ c)).1 at,
        )
    | inr other ↦ ground (
      arith,
      s,
      other,
      get-set r (hamt.prefix ++ h) (hamt.prefix ++ c) b,
      member-push_all children queue c,
    )
  ]

  below :
      (p r : Pending) (c : Str) (children queue : List Str)
      → member children c ≡ true
      → settled p r (push_all children queue) c ≡ true
  unfolding settled
  below p r c children queue m = ground (arith, m, member-push_all children queue c)

  pub keep :
      (root : Str) (p r : Pending) (h : Str) (b : Bytes) (queue : List Str)
      → JsMap.get p (hamt.prefix ++ h) ≡ some b
      → Inv root p r (h ∷ queue)
      → Inv root p
          (JsMap.set r (hamt.prefix ++ h) b)
          (push_all (child_hashes (format.parse_node b)) queue)
  unfolding member
  keep root p r h b queue e i =
      let at = hamt.prefix ++ h in
      let children = child_hashes (format.parse_node b) in
      let here : Reaches format hamt root p h = i.queued h (ground (arith, str_eq_iff h h)) in
      record {
        only = λ k d at_k. elim (set-cases r at k b d at_k) [
          | inl (eq, bytes) ↦ record {
            is_pending = ap (JsMap.get p) (sym eq) ∙ e ∙ ap some bytes;
            hash = h;
            key_of = sym eq;
            reached_from_root = here;
          }
          | inr there ↦ i.only k d there
        ];
        queued = λ c m. elim (Bool-cases (member children c)) [
          | inl is_child ↦ child h c b here e is_child
          | inr beside ↦ i.queued c (ground (arith, m, member-push_all children queue c, beside))
        ];
        at_root = onward p r h root b children queue i.at_root;
        closed = λ k d at_k c m. elim (set-cases r at k b d at_k) [
          | inl (eq, bytes) ↦
              below p (JsMap.set r at b) c children queue
                (subst (λ x. member (child_hashes (format.parse_node x)) c ≡ true) (sym bytes) m)
          | inr there ↦ onward p r h c b children queue (i.closed k d there c m)
        ];
      }

  pub start-Inv :
      (root : Str) (p : Pending) → (root == format.empty_hash) ≡ false → Inv root p [] (root ∷ [])
  unfolding member settled JsMap.get
  start-Inv root p held = record {
    only = λ k b h. cc;
    queued = λ c m.
        subst (Reaches format hamt root p) ((str_eq_iff root c).0 (ground (arith, m))) (top held);
    at_root = ground (arith, str_eq_iff root root);
    closed = λ k b h c m. cc;
  }

  -- with an empty queue
  kept_at :
      (root : Str) (p r : Pending) (h : Str) (b : Bytes)
      → Inv root p r []
      → settled p r [] h ≡ true
      → JsMap.get p (hamt.prefix ++ h) ≡ some b
      → JsMap.get r (hamt.prefix ++ h) ≡ some b
  unfolding settled member
  kept_at root p r h b i s e = elim (Option-cases (JsMap.get r (hamt.prefix ++ h))) [
    | inl gone ↦ absurd (ground (arith, s, e, gone))
    | inr (d, found) ↦ found ∙ sym ((i.only (hamt.prefix ++ h) d found).is_pending) ∙ e
  ]

  all_settled :
      (root : Str) (p r : Pending) (h : Str)
      → Inv root p r []
      → Reaches format hamt root p h
      → settled p r [] h ≡ true
  all_settled root p r h i (top held) = i.at_root
  all_settled root p r c i (child h d b above e m) =
      i.closed (hamt.prefix ++ h) b (kept_at root p r h b i (all_settled root p r h i above) e) c m

  pub ended : (root : Str) (p r : Pending) → Inv root p r [] → Filters root p (some r)
  ended root p r i = record {
    value = r;
    is_value = refl;
    keeps = λ h b reaches e. kept_at root p r h b i (all_settled root p r h i reaches) e;
    only = i.only;
  }
