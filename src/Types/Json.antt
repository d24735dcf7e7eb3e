-- ===== src/Types/Json.antt =====
-- The JSON values that the Host sends (`Record<string, unknown>` in src/types.ts), and the readers
-- `isRecord`, `objectAt` and `stringAt` of src/run-events.ts.
use deepseek_harness_relay_m.Base.{
  ℕ, String, Bool, Option, none, some, ◌==◌, string_eq, if◌then◌else◌,
}

mutual
  pub data Fields : Type 0 where
    end : Fields
    field : String → Value → Fields → Fields

  pub data Elements : Type 0 where
    nil : Elements
    cons : Value → Elements → Elements

  pub data Value : Type 0 where
    string : String → Value
    number : ℕ → Value
    boolean : Bool → Value
    object : Fields → Value
    array : Elements → Value
    null : Value

-- `value[key]`; a key is listed once.
unfoldable pub at : Fields → String → Option Value
at end key = none
at (field k v rest) key = if k == key then some v else at rest key

abbrev as_string : Option Value → Option String
as_string (some (string s)) = some s
as_string _ = none

-- `isRecord`: an object that is no array.
abbrev as_record : Option Value → Option Fields
as_record (some (object fields)) = some fields
as_record _ = none

unfoldable pub string_at : Fields → String → Option String
unfolding at
string_at value key = as_string (at value key)

unfoldable pub object_at : Fields → String → Option Fields
unfolding at
object_at value key = as_record (at value key)
