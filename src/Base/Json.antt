-- ===== src/Base/Json.antt =====
-- Values as `JSON.parse` gives them. A number is a natural number: the fields that the modelled
-- code reads are counts and exit codes. A string is a text.
use symphonika.Base.{ℕ, String, Bool, false, Option, none, some, str_eq}
use symphonika.Base.Tests.{if◌then◌else◌}

mutual
  -- The members of an object, in order.
  pub data Fields : Type 0 where
    no_fields : Fields
    with_field : String → Value → Fields → Fields

  pub data Elements : Type 0 where
    no_elements : Elements
    with_element : Value → Elements → Elements

  pub data Value : Type 0 where
    text : String → Value
    number : ℕ → Value
    bool : Bool → Value
    object : Fields → Value
    array : Elements → Value
    null : Value

-- `value[key]`, where `none` is `undefined`.
abbrev pub get : String → Fields → Option Value
get k no_fields = none
get k (with_field j v fs) = let rest = get k fs in if str_eq j k then some v else rest

-- An array is an object too; none of the keys that are read is one of its own.
abbrev pub as_object : Option Value → Option Fields
as_object (some (object fs)) = some fs
as_object (some (array xs)) = some no_fields
as_object _ = none

abbrev pub as_number : Option Value → Option ℕ
as_number (some (number n)) = some n
as_number _ = none

abbrev pub as_text : Option Value → Option String
as_text (some (text s)) = some s
as_text _ = none

abbrev pub is_true : Option Value → Bool
is_true (some (bool b)) = b
is_true _ = false

abbrev pub string_field : Fields → String → Option String
string_field fs k = as_text (get k fs)

abbrev pub number_field : Option Fields → String → Option ℕ
number_field none k = none
number_field (some fs) k = as_number (get k fs)

abbrev pub object_field : Fields → String → Option Fields
object_field fs k = as_object (get k fs)

-- A normalized provider event: its type, and its other fields.
pub record Event : Type 0 where
  pub type : String
  pub fields : Fields
