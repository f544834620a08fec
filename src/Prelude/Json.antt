-- ===== src/Prelude/Json.antt =====
-- Parsed JSON values, with `undefined` for an absent member. A number is kept as the text that
-- `String(n)` gives, which is all that the source reads of one.
use oasis_supabase_core.Prelude.{
  Bool, false, Option, none, some, List, [], ◌∷◌, Text, codes, text_eq, if◌then◌else◌,
}

mutual
  pub data Json : Type 0 where
    undefined null : Json
    boolean : Bool → Json
    number : Text → Json
    string : Text → Json
    array : Items → Json
    object : Fields → Json

  pub data Items : Type 0 where
    nil : Items
    cons : Json → Items → Items

  pub data Fields : Type 0 where
    end : Fields
    field : Text → Json → Fields → Fields

unfoldable pub to_list : Items → List Json
to_list nil = []
to_list (cons x xs) = x ∷ to_list xs

-- The value of a key; a parsed object has one member for each key.
unfoldable pub field_of : Text → Fields → Json
field_of key end = undefined
field_of key (field k v fs) = if text_eq k key then v else field_of key fs

-- `value?.key`, where a value that is no object has no such member
unfoldable pub get : Text → Json → Json
unfolding field_of
get key (object fs) = field_of key fs
get key _ = undefined

-- `value?.[0]`, of a value whose elements are read as objects
unfoldable pub first : Json → Json
unfolding field_of
first (array (cons x xs)) = x
first (object fs) = field_of (codes "0") fs
first _ = undefined

-- `Array.isArray(value) ? value : null`
unfoldable pub as_array : Json → Option (List Json)
unfolding to_list
as_array (array xs) = some (to_list xs)
as_array _ = none

-- `typeof value === "string" ? value : null`
unfoldable pub as_text : Json → Option Text
as_text (string s) = some s
as_text _ = none

unfoldable pub is_true : Json → Bool
is_true (boolean b) = b
is_true _ = false
