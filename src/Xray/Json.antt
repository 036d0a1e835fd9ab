-- ===== src/Xray/Json.antt =====
-- The JSON that cmd/xray-controller/main.go builds for an outbound, and what it reads of decoded JSON.
use opn_box.Base.{Option, none, some, [], Bytes}
use opn_box.Base.Integers.{ℤ}

mutual
  pub data Json : Type 0 where
    string : Bytes → Json
    number : ℤ → Json
    array : Items → Json
    object : Fields → Json

  pub data Items : Type 0 where
    no_item : Items
    item : Json → Items → Items

  pub data Fields : Type 0 where
    no_field : Fields
    field : Bytes → Json → Fields → Fields

-- An array of one object.
abbrev pub one_object : Fields → Json
one_object fields = array (item (object fields) no_item)

-- A decoded value, with `int` of a number.
pub data Value : Type 0 where
  string_value : Bytes → Value
  number_value : ℤ → Value
  other_value : Value

-- `s, _ := x.(string)` on a value that may be missing
abbrev pub string_of : Option Value → Bytes
string_of (some (string_value s)) = s
string_of (some (number_value n)) = []
string_of (some other_value) = []
string_of none = []
