-- ===== src/Protocol/Json.antt =====
-- The values that messages carry and the code passes on unread: `Record<string, unknown>`.
use Prim.Native.String.{◌++◌}
use oacp.Prelude.{ℕ, String, Bool, Option, none, some, List, [], ◌∷◌, ◌==◌, if◌then◌else◌}

-- A number that is not a natural number is kept as its decimal text, since the code never computes with it.
pub data Number : Type 0 where
  natural : ℕ → Number
  decimal : String → Number

mutual
  pub data Json : Type 0 where
    null : Json
    bool : Bool → Json
    number : Number → Json
    text : String → Json
    array : Items → Json
    object : Fields → Json

  pub data Items : Type 0 where
    nil : Items
    cons : Json → Items → Items

  pub data Fields : Type 0 where
    end : Fields
    field : String → Json → Fields → Fields

-- A template literal: its pieces joined.
unfoldable pub template : List String → String
template [] = ""
template (s ∷ ss) = s ++ template ss

-- A property of an object.
unfoldable pub get_field : Fields → String → Option Json
get_field end k = none
get_field (field j v o) k = if j == k then some v else get_field o k

-- `typeof o[k] === 'string' ? o[k] : undefined`
abbrev pub text_of : Option Json → Option String
text_of (some (text s)) = some s
text_of _ = none

unfoldable pub text_field : Fields → String → Option String
text_field o k = text_of (get_field o k)

-- One conditional spread: `...(v !== undefined ? { k: v } : {})`
unfoldable pub optional_field : String → Option Json → Fields → Fields
optional_field k none o = o
optional_field k (some v) o = field k v o
