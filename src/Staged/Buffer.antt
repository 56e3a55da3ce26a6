-- ===== src/Staged/Buffer.antt =====
-- The staged buffer holds no key as both an update and a removal.
use agex_ts.Prelude.{Str, str_Eq, ◌≡◌, refl, true, false, Option, none, some, List, arith}
use agex_ts.JsMap
use agex_ts.JsMap.Laws.{get-set, get-delete}
use agex_ts.JsMap.Batch.{get-delete_all}
use agex_ts.Staged.{Staged, new_staged, set, delete, landed, clear_buffer}

module _ {V Val : Type 0} where
  pub record IsDisjoint (s : Staged V Val) : Type 0 where
    pub apart : (k : Str) → JsMap.has s.updates k ≡ true → JsMap.has s.removals k ≡ false

  pub new_staged-IsDisjoint : (v : V) → IsDisjoint (new_staged v)
  unfolding new_staged JsMap.get
  new_staged-IsDisjoint v = record { apart = λ k h. refl }

  pub set-IsDisjoint :
      (s : Staged V Val) (key : Str) (v : Val) → IsDisjoint s → IsDisjoint (set s key v)
  unfolding set
  set-IsDisjoint s key v d = record {
    apart =
        λ k h. ground (arith, get-set s.updates key k v, get-delete s.removals key k, d.apart k);
  }

  pub delete-IsDisjoint : (s : Staged V Val) (key : Str) → IsDisjoint s → IsDisjoint (delete s key)
  unfolding delete
  delete-IsDisjoint s key d = record {
    apart =
        λ k h. ground (arith, get-delete s.updates key k, get-set s.removals key k tt, d.apart k);
  }

  pub cleared-IsDisjoint : (s : Staged V Val) → IsDisjoint (clear_buffer s)
  unfolding JsMap.get
  cleared-IsDisjoint s = record { apart = λ k h. refl }

  pub landed-IsDisjoint :
      (s : Staged V Val) (filter_keys : Option (List Str))
      → IsDisjoint s
      → IsDisjoint (landed s filter_keys)
  unfolding landed
  landed-IsDisjoint s none d = record { apart = (cleared-IsDisjoint s).apart }
  landed-IsDisjoint s (some ks) d = record {
    apart = λ k h.
        ground (arith, get-delete_all s.updates ks k, get-delete_all s.removals ks k, d.apart k);
  }
