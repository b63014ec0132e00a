-- ===== src/Proxy/Json.antt =====
-- JSON values, as encoding/json gives them to service/proxy.go. An object is the list of its fields,
-- each key once; parsing is a parameter of the code that parses.
use new_api_gateway.Prelude.{
  Text, text_eq, trim_space, Bool, true, false, Option, none, some, if◌then◌else◌, [],
}

mutual
  pub data Json : Type 0 where
    null : Json
    boolean : Bool → Json
    number : Text → Json
    string : Text → Json
    array : Items → Json
    object : Fields → Json

  pub data Items : Type 0 where
    no_items : Items
    item : Json → Items → Items

  pub data Fields : Type 0 where
    no_fields : Fields
    field : Text → Json → Fields → Fields

unfoldable pub lookup : Text → Fields → Option Json
lookup key no_fields = none
lookup key (field k v rest) = let later = lookup key rest in if text_eq k key then some v else later

-- getStringValue of a looked-up value: its trimmed text, or the empty one.
unfoldable pub string_or_empty : Option Json → Text
string_or_empty none = []
string_or_empty (some (string s)) = trim_space s
string_or_empty (some other) = []

unfoldable pub no_field : Fields → Bool
no_field no_fields = true
no_field (field k v rest) = false

unfoldable pub no_item : Items → Bool
no_item no_items = true
no_item (item v rest) = false
