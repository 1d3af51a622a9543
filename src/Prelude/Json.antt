-- ===== src/Prelude/Json.antt =====
-- `serde_json::Value`. A number is an integer from 0 up, or any other number by its text.
use Prim.Native.String.{String}
use Prim.Native.Nat.{ℕ, ◌^◌}
use mathlib.Core.Bool.{Bool}
use mathlib.Core.Option.{Option, none, some}
use mathlib.Core.List.{List, [], ◌∷◌}
use strkd.Prelude.Tests.{ltb, if◌then◌else◌}
use strkd.Prelude.Text.{text_eq}

-- The members of an object keep the order in which they were inserted.
mutual
  pub data Members : Type 0 where
    no_members : Members
    member : String → Value → Members → Members

  pub data Elements : Type 0 where
    no_elements : Elements
    element : Value → Elements → Elements

  pub data Value : Type 0 where
    object : Members → Value
    array : Elements → Value
    text : String → Value
    number : ℕ → Value
    other_number : String → Value
    bool : Bool → Value
    null : Value

abbrev pub elements_of : Elements → List Value
elements_of no_elements = []
elements_of (element v rest) = v ∷ elements_of rest

abbrev pub to_elements : List Value → Elements
to_elements [] = no_elements
to_elements (v ∷ rest) = element v (to_elements rest)

abbrev pub to_members : List (String × Value) → Members
to_members [] = no_members
to_members ((k, v) ∷ rest) = member k v (to_members rest)

-- `json!([...])` and `json!({...})`
abbrev pub array_of : List Value → Value
array_of vs = array (to_elements vs)

abbrev pub object_of : List (String × Value) → Value
object_of fs = object (to_members fs)

abbrev pub get_member : String → Members → Option Value
get_member key no_members = none
get_member key (member k v rest) =
    let later = get_member key rest in if text_eq k key then some v else later

-- `Value::get`
abbrev pub get : Value → String → Option Value
get (object fs) key = get_member key fs
get _ key = none

abbrev pub as_str : Value → Option String
as_str (text s) = some s
as_str _ = none

abbrev pub as_bool : Value → Option Bool
as_bool (bool b) = some b
as_bool _ = none

-- Only an integer that a `u64` holds.
abbrev pub as_u64 : Value → Option ℕ
as_u64 (number n) = if ltb n (2 ^ 64) then some n else none
as_u64 _ = none

abbrev pub as_array : Value → Option (List Value)
as_array (array vs) = some (elements_of vs)
as_array _ = none

-- A new key goes to the end; the value of an old one is replaced where it stands.
abbrev pub set_member : String → Value → Members → Members
set_member key v no_members = member key v no_members
set_member key v (member k u rest) =
    let later = set_member key v rest in if text_eq k key then member k v rest else member k u later

-- `obj.insert(key, v)`; nothing for what is no object.
abbrev pub insert : String → Value → Value → Value
insert key v (object fs) = object (set_member key v fs)
insert key v other = other
