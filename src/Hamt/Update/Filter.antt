-- ===== src/Hamt/Update/Filter.antt =====
-- `filterPending` ends, and keeps the pending nodes that are reached.
use agex_ts.Prelude.{
  ℕ, zero, suc, ◌+◌, ◌≤◌, Str, str_Eq, str_eq_iff, ◌==◌, ◌≡◌, refl, subst, true, false, Option,
  none, some, List, [], ◌∷◌, ◌++◌, if◌then◌else◌, Bool-cases, inl, inr, arith, length,
}
use agex_ts.JsMap
use agex_ts.JsMap.{JsMap}
use agex_ts.JsMap.Laws.{IsUnique, get-set}
use agex_ts.Store.{Bytes}
use agex_ts.Hamt.Trie.{Format, Hamt, Pending}
use agex_ts.Hamt.Update.{push_all, child_hashes, reached, rounds, filter_from, filter_pending}
use agex_ts.Hamt.Update.Kept.{Reaches, top, child, Filters, Inv, pass_over, keep, start-Inv, ended}

length-push_all : (hs queue : List Str) → length (push_all hs queue) ≡ length hs + length queue
length-push_all [] queue = omega arith
length-push_all (h ∷ hs) queue = omega (arith, length-push_all hs (h ∷ queue))

module _ (format : Format) (hamt : Hamt) where
  width : Bytes → ℕ
  width b = length (child_hashes (format.parse_node b))

  -- the children of the pending nodes not yet reached
  remaining : Pending → Pending → ℕ
  remaining [] r = 0
  remaining ((k, b) ∷ p) r = (if JsMap.has r k then 0 else width b) + remaining p r

  remaining-set_other :
      (p r : Pending) (k : Str) (b : Bytes)
      → JsMap.get p k ≡ none
      → remaining p (JsMap.set r k b) ≡ remaining p r
  unfolding remaining JsMap.get
  remaining-set_other [] r k b h = refl
  remaining-set_other ((j, c) ∷ p) r k b h =
      ground (arith, remaining-set_other p r k b, get-set r k j b, str_eq_iff j k, str_eq_iff k j)

  remaining-set :
      (p r : Pending) (k : Str) (b : Bytes)
      → IsUnique p
      → JsMap.get p k ≡ some b
      → JsMap.has r k ≡ false
      → remaining p (JsMap.set r k b) + width b ≡ remaining p r
  unfolding remaining JsMap.get
  remaining-set [] r k b u h fresh = cc
  remaining-set ((j, c) ∷ p) r k b (gone, u) h fresh = elim (Bool-cases (j == k)) [
    | inl here ↦
        let same = (str_eq_iff j k).0 here in
        ground (
          arith,
          remaining-set_other p r k b (subst (λ x. JsMap.get p x ≡ none) same gone),
          get-set r k j b,
          str_eq_iff k j,
          same,
          h,
        )
    | inr there ↦ ground (
      arith,
      remaining-set p r k b u (rw there at h) fresh,
      get-set r k j b,
      str_eq_iff j k,
      str_eq_iff k j,
    )
  ]

  remaining-empty : (p : Pending) → suc (remaining p []) ≡ rounds format hamt p
  unfolding remaining width JsMap.get
  remaining-empty [] = refl
  remaining-empty ((k, b) ∷ p) = omega (arith, remaining-empty p)

  reached-Filters :
      (go : Pending → List Str → Option Pending) (fuel : ℕ) (root : Str) (p r : Pending) (h : Str)
      (queue : List Str) (o : Option Bytes)
      → IsUnique p
      → Inv format hamt root p r (h ∷ queue)
      → JsMap.get p (hamt.prefix ++ h) ≡ o
      → length queue + remaining p r ≤ fuel
      → ((r' : Pending) (q : List Str)
          → Inv format hamt root p r' q
          → length q + remaining p r' ≤ fuel
          → Filters format hamt root p (go r' q))
      → Filters format hamt root p (reached format hamt go r (hamt.prefix ++ h) queue o)
  reached-Filters go fuel root p r h queue none u i e n k =
      k r queue (pass_over format hamt root p r h queue (ground (arith, e)) i) n
  reached-Filters go fuel root p r h queue (some b) u i e n k =
      elim (Bool-cases (JsMap.has r (hamt.prefix ++ h))) [
        | inl seen ↦
            rw seen (k r queue (pass_over format hamt root p r h queue (ground (arith, seen)) i) n)
        | inr fresh ↦ rw fresh (
            k (JsMap.set r (hamt.prefix ++ h) b)
              (push_all (child_hashes (format.parse_node b)) queue)
              (keep format hamt root p r h b queue e i)
              (unfold width in
                omega (
                  arith,
                  n,
                  length-push_all (child_hashes (format.parse_node b)) queue,
                  remaining-set p r (hamt.prefix ++ h) b u e fresh,
                )))
      ]

  filter_from-Filters :
      (fuel : ℕ) (root : Str) (p r : Pending) (queue : List Str)
      → IsUnique p
      → Inv format hamt root p r queue
      → length queue + remaining p r ≤ fuel
      → Filters format hamt root p (filter_from format hamt fuel p r queue)
  unfolding filter_from
  filter_from-Filters fuel root p r [] u i n = ended format hamt root p r i
  filter_from-Filters zero root p r (h ∷ queue) u i n = absurd (omega arith)
  filter_from-Filters (suc fuel) root p r (h ∷ queue) u i n =
      reached-Filters (λ r' q. filter_from format hamt fuel p r' q) fuel root p r h queue _ u i refl
        (omega arith) (λ r' q i' n'. filter_from-Filters fuel root p r' q u i' n')

  none_reached :
      (root : Str) (p : Pending) (h : Str)
      → (root == format.empty_hash) ≡ true
      → Reaches format hamt root p h
      → ⊥
  none_reached root p h empty (top held) = absurd (ground (arith, empty, held))
  none_reached root p c empty (child h d b above e m) = none_reached root p h empty above

  -- `filterPending` ends, and keeps exactly the pending nodes that a walk from the root reaches through
  -- pending nodes: each of them under its key with its bytes, and no others, so none where the root is
  -- the empty leaf. No key is pending twice.
  pub filter_pending-Filters :
      (root : Str) (p : Pending)
      → IsUnique p
      → Filters format hamt root p (filter_pending format hamt root p)
  unfolding filter_pending JsMap.get
  filter_pending-Filters root p u = elim (Bool-cases (root == format.empty_hash)) [
    | inl empty ↦ rw empty (record {
      value = [];
      is_value = refl;
      keeps = λ h b reaches e. absurd (none_reached root p h empty reaches);
      only = λ k b h. cc;
    })
    | inr held ↦ rw held (
        filter_from-Filters (rounds format hamt p) root p [] (root ∷ []) u
          (start-Inv format hamt root p held) (omega (arith, remaining-empty p)))
  ]
