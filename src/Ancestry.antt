-- ===== src/Ancestry.antt =====
-- packages/kvgit-ts/src/versioned/ancestry.ts and helpers.ts: questions over stored commits. The
-- store is what its `get` answers, and does not change during a search.
pub mod Search
pub mod Records
pub mod Walks
pub mod Paint
use agex_ts.Prelude.{
  ℕ, zero, suc, ◌+◌, Str, Bool, true, false, Option, none, some, List, [], ◌∷◌, length,
}
use agex_ts.Store.{Bytes}
use agex_ts.Json.{Json}
use agex_ts.Layout.{parent_commit, parent_gens, parent_list, gen_list, safe_loads, generation_of}
use agex_ts.Prelude.{is_some}

pub record CommitRecord : Type 0 where
  pub present : Bool
  pub parents : List Str
  pub gens : Option (List ℕ)

module _ (parse : Bytes → Option Json) where
  abbrev parents_in : Option Bytes → List Str
  parents_in none = []
  parents_in (some raw) = parent_list (safe_loads parse raw)

  abbrev gens_in : ℕ → Option Bytes → Option (List ℕ)
  gens_in n none = none
  gens_in n (some raw) = gen_list n (safe_loads parse raw)

  -- One commit's record, as `loadRecords` gives it.
  unfoldable pub record_of : (Str → Option Bytes) → Str → CommitRecord
  record_of store c =
      let parents = parents_in (store (parent_commit c)) in
      record {
        present = is_some (store (parent_commit c));
        parents = parents;
        gens = gens_in (length parents) (store (parent_gens c));
      }

  abbrev found_parents : Option Bytes → Option (List Str)
  found_parents none = none
  found_parents (some raw) = some (parent_list (safe_loads parse raw))

  -- A commit's parents, or none if the store lacks it.
  unfoldable pub parents_of : (Str → Option Bytes) → Str → Option (List Str)
  parents_of store commit = found_parents (store (parent_commit commit))

abbrev pub generation_by : List Str → Option (List ℕ) → Option ℕ
generation_by [] gens = some 0
generation_by (p ∷ parents) none = none
generation_by (p ∷ parents) (some gens) = some (generation_of gens)

unfoldable pub generation_of_record : CommitRecord → Option ℕ
unfolding generation_of
generation_of_record r = generation_by r.parents r.gens
