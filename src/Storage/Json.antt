-- ===== src/Storage/Json.antt =====
-- internal/strictjson/json.go: the value tree, and the look-ups in it. The text that `Parse` reads
-- goes through encoding/json, a library outside the repository: a tree is where the model starts.
use slivingdoc.Base.{
  ℕ, Bool, true, false, List, [], ◌∷◌, ◌==◌, bytes_eq, Bytes, if◌then◌else◌, contains, Option, none,
  some,
}

mutual
  pub data Value : Type 0 where
    object : Fields → Value
    array : Values → Value
    string : Bytes → Value
    number : ℕ → Value
    boolean : Bool → Value

  pub data Fields : Type 0 where
    no_fields : Fields
    field : Bytes → Value → Fields → Fields

  pub data Values : Type 0 where
    no_values : Values
    value : Value → Values → Values

pub data JsonKind : Type 0 where
  object_kind array_kind string_kind number_kind bool_kind : JsonKind

-- The field `Kind` of a `Value`; the others are zero where the kind is another.
abbrev pub kind_of : Value → JsonKind
kind_of (object _) = JsonKind.object_kind
kind_of (array _) = JsonKind.array_kind
kind_of (string _) = JsonKind.string_kind
kind_of (number _) = JsonKind.number_kind
kind_of (boolean _) = JsonKind.bool_kind

abbrev pub str_of : Value → Bytes
str_of (string s) = s
str_of _ = []

abbrev pub num_of : Value → ℕ
num_of (number n) = n
num_of _ = 0

abbrev pub obj_of : Value → Fields
obj_of (object fs) = fs
obj_of _ = no_fields

abbrev pub values_list : Values → List Value
values_list no_values = []
values_list (value v vs) = v ∷ values_list vs

abbrev pub arr_of : Value → List Value
arr_of (array vs) = values_list vs
arr_of _ = []

abbrev pub json_kind_beq : JsonKind → JsonKind → Bool
json_kind_beq JsonKind.object_kind JsonKind.object_kind = true
json_kind_beq JsonKind.array_kind JsonKind.array_kind = true
json_kind_beq JsonKind.string_kind JsonKind.string_kind = true
json_kind_beq JsonKind.number_kind JsonKind.number_kind = true
json_kind_beq JsonKind.bool_kind JsonKind.bool_kind = true
json_kind_beq _ _ = false

unfoldable pub find_field : Bytes → Fields → Option Value
find_field name no_fields = none
find_field name (field n v fs) = let rest = find_field name fs in if n == name then some v else rest

-- `Value.Field`
unfoldable pub get_field : Value → Bytes → Option Value
get_field v name = find_field name (obj_of v)

unfoldable pub all_allowed : List Bytes → Fields → Bool
all_allowed allowed no_fields = true
all_allowed allowed (field n v fs) =
    let rest = all_allowed allowed fs in if contains allowed n then rest else false

-- `Value.RejectUnknown`: does it return nil?
unfoldable pub only_known : Value → List Bytes → Bool
only_known v allowed = all_allowed allowed (obj_of v)
