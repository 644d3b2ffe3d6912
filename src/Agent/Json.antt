-- ===== src/Agent/Json.antt =====
-- A response as Python's `json` reads it. A dict keeps its keys in order; the texts of numbers
-- are never read.
use agentic_negotiators_sbx.Prelude.{
  Bool, List, Option, Text, [], any_of, if◌then◌else◌, nat_eq, none, some, text_eq, ◌==◌, ◌∷◌,
}

mutual
  pub data Json : Type 0 where
    null : Json
    bool : Bool → Json
    num : Text → Json
    str : Text → Json
    arr : Items → Json
    obj : Fields → Json

  pub data Items : Type 0 where
    nil : Items
    cons : Json → Items → Items

  pub data Fields : Type 0 where
    no_more : Fields
    pair : Text → Json → Fields → Fields

-- `d.get(key)`
unfoldable pub get : Text → Fields → Option Json
get key no_more = none
get key (pair k v fs) = if key == k then some v else get key fs

-- `[key for key in d if key not in allowed]`
unfoldable pub keys_outside : List Text → Fields → List Text
keys_outside allowed no_more = []
keys_outside allowed (pair k v fs) =
    let rest = keys_outside allowed fs in if any_of (λ a. k == a) allowed then rest else k ∷ rest
