-- ===== src/Ancestry/Search.antt =====
-- The loop that the walks over commits share: take a commit from the worklist, pass over one that was
-- seen or is not there, and else keep it with its parents and put the parents not yet seen on the
-- list. `push` puts them on a stack (its top is the first of the list) or at a queue's end.
pub mod Reach
use agex_ts.Prelude.{
  ℕ, zero, suc, ◌+◌, Str, str_Eq, Bool, ◌||◌, not, Option, none, some, List, [], ◌∷◌, ◌++◌,
  if◌then◌else◌, filter,
}
use agex_ts.Prelude.Result.{Result, ok, err}
use agex_ts.JsMap
use agex_ts.JsMap.{JsMap}

abbrev pub Seen : Type 0
Seen = JsMap Str (List Str)

-- `stack.push(...)` of several, in order
unfoldable pub push_all : List Str → List Str → List Str
push_all [] stack = stack
push_all (c ∷ cs) stack = push_all cs (c ∷ stack)

abbrev pub push_back : List Str → List Str → List Str
push_back cs queue = queue ++ cs

module _ (skip : Str → Bool) where
  -- those of the parents that are to be seen
  unfoldable pub unseen : Seen → List Str → List Str
  unfolding filter
  unseen out parents = filter (λ p. not (JsMap.has out p || skip p)) parents

-- A commit of `skip` is passed over. One that is not there throws if `strict`, and is else passed over.
module _ (push : List Str → List Str → List Str) (skip : Str → Bool) (strict : Bool)
    (next : Str → Option (List Str)) where
  abbrev pub visited :
      (Seen → List Str → Option (Result Str Seen))
      → Seen
      → List Str
      → Str
      → Option (List Str)
      → Option (Result Str Seen)
  visited go out work c none = if strict then some (err c) else go out work
  visited go out work c (some parents) =
      let out' = JsMap.set out c parents in go out' (push (unseen skip out' parents) work)

  -- With no fuel left it has not returned.
  unfoldable pub search : ℕ → Seen → List Str → Option (Result Str Seen)
  unfolding unseen
  search fuel out [] = some (ok out)
  search zero out (c ∷ work) = none
  search (suc fuel) out (c ∷ work) =
      let again = search fuel out work in
      let more = visited (search fuel) out work c (next c) in
      if JsMap.has out c || skip c then again else more
