-- ===== src/Json.antt =====
-- JSON values, as `JSON.parse` and packages/kvgit-ts/src/pyjson.ts give them. A plain number that is a
-- safe integer (-0 aside) is natural or negative (`negative n` is -(n + 1)); any other plain number is a
-- `other_number`, and `float` is a `PyFloat`. These two are finite, with a sign, the shortest digits that read
-- back and the decimal exponent, as `toExponential` gives them, or a zero, an infinity or no number. An
-- object's entries are in the order of `Object.entries`, and a `Map`'s in its own.
use agex_ts.Prelude.{ℕ, Str, Bool}

-- an integer, `negsuc n` being -(n + 1)
pub data ℤ : Type 0 where
  pos negsuc : ℕ → ℤ

pub data Float : Type 0 where
  not_a_number : Float
  infinity zero_float : Bool → Float
  finite : Bool → Str → ℤ → Float

mutual
  pub data Json : Type 0 where
    null : Json
    boolean : Bool → Json
    natural : ℕ → Json
    negative : ℕ → Json
    other_number : Float → Json
    bigint : ℤ → Json
    float : Float → Json
    string : Str → Json
    array : Jsons → Json
    object : Fields → Json

  pub data Jsons : Type 0 where
    nil : Jsons
    cons : Json → Jsons → Jsons

  pub data Fields : Type 0 where
    end : Fields
    field : Str → Json → Fields → Fields
