-- ===== src/Merge/Policy.antt =====
-- Which registration governs a key: the exact one, then the longest registered prefix, then the
-- default.
use agex_ts.Prelude.{
  ℕ, suc, ◌≤◌, ◌<◌, Str, starts_with, length, ◌≡◌, refl, true, ◌&&◌, Option, none, some, List, [],
  ◌∷◌, All, arith, leb, ◌⊎◌, inl, inr, Bool-cases, Option-cases,
}
use native.Mathlib.Nat.{le_trans}
use agex_ts.JsMap
use agex_ts.JsMap.{JsMap}
use agex_ts.JsMap.Laws.{IsUnique}
use agex_ts.Prelude.{str_Eq, str_eq_iff}
use agex_ts.Merge.{MergePolicy, pick_prefix, pick_merge_policy}

-- Every registered prefix that the key starts with has a length below `n`.
abbrev pub Below : Str → ℕ → List (Str × MergePolicy) → Type 0
Below key n l = All (λ e. starts_with key e.0 ≡ true → length e.0 < n) l

Below-le :
    (key : Str) (m n : ℕ) (l : List (Str × MergePolicy)) → m ≤ n → Below key m l → Below key n l
Below-le key m n [] h b = tt
Below-le key m n (e ∷ l) h (b, bs) = (λ s. le_trans (b s) h, Below-le key m n l h bs)

-- `r` is the policy of the longest registered prefix that the key starts with, of length `bound` at
-- least.
pub record Longest (key : Str) (l : JsMap Str MergePolicy) (bound : ℕ) (r : Option MergePolicy)
    : Type 0 where
  pub prefix : Str
  pub policy : MergePolicy
  pub registered : JsMap.get l prefix ≡ some policy
  pub starts : starts_with key prefix ≡ true
  pub longer : bound ≤ length prefix
  pub picked : r ≡ some policy
  pub longest : Below key (suc (length prefix)) l

pick_prefix-Longest :
    (key : Str) (l : JsMap Str MergePolicy) (best : Option MergePolicy) (bound : ℕ)
    → IsUnique l
    → (pick_prefix key l best bound ≡ best) × Below key bound l
      ⊎ Longest key l bound (pick_prefix key l best bound)
unfolding pick_prefix
pick_prefix-Longest key [] best bound u = inl (refl, tt)
pick_prefix-Longest key ((p, c) ∷ l) best bound (new, u) =
    elim (Bool-cases (starts_with key p && leb bound (length p))) [
      | inl longer ↦ rw longer (elim (pick_prefix-Longest key l (some c) (suc (length p)) u) [
        | inl (e, b) ↦ inr (record {
          prefix = p;
          policy = c;
          registered = unfold JsMap.get in ground (arith, str_eq_iff p p);
          starts = ground arith;
          longer = ground arith;
          picked = e;
          longest = (λ _. omega arith, b);
        })
        | inr w ↦ inr (record {
          prefix = w.prefix;
          policy = w.policy;
          registered = unfold JsMap.get in ground (arith, str_eq_iff p w.prefix, w.registered, new);
          starts = w.starts;
          longer = ground (arith, w.longer);
          picked = w.picked;
          longest = (λ _. omega arith, w.longest);
        })
      ])
      | inr shorter ↦ rw shorter (elim (pick_prefix-Longest key l best bound u) [
        | inl (e, b) ↦ inl (e, (λ s. ground arith, b))
        | inr w ↦ inr (record {
          prefix = w.prefix;
          policy = w.policy;
          registered = unfold JsMap.get in ground (arith, str_eq_iff p w.prefix, w.registered, new);
          starts = w.starts;
          longer = w.longer;
          picked = w.picked;
          longest = (λ s. ground (arith, w.longer), w.longest);
        })
      ])
    ]

-- The governing registration is the one for exactly the key, where there is one. Else it is that of
-- the longest registered prefix that the key starts with, and where there is no such prefix, the
-- default.
pub pick_merge_policy_lem :
    (key : Str) (merge_fns merge_prefixes : JsMap Str MergePolicy)
    (default_merge : Option MergePolicy)
    → IsUnique merge_prefixes
    → let r = pick_merge_policy key merge_fns merge_prefixes default_merge in
      ((c : MergePolicy) × (JsMap.get merge_fns key ≡ some c) × (r ≡ some c))
      ⊎ (JsMap.get merge_fns key ≡ none)
        × ((r ≡ default_merge) × Below key 0 merge_prefixes ⊎ Longest key merge_prefixes 0 r)
unfolding pick_merge_policy
pick_merge_policy_lem key fns prefixes default_merge u = elim (Option-cases (JsMap.get fns key)) [
  | inl h ↦ inr (
    h,
    elim (pick_prefix-Longest key prefixes none 0 u) [
      | inl (e, b) ↦ inl (rw (h, e), b)
      | inr w ↦ inr (record {
        prefix = w.prefix;
        policy = w.policy;
        registered = w.registered;
        starts = w.starts;
        longer = w.longer;
        picked = rw (h, w.picked);
        longest = w.longest;
      })
    ],
  )
  | inr (c, h) ↦ inl (c, h, rw h)
]
