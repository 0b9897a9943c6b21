-- ===== src/Json.antt =====
-- A decoded JSON body, as the clients of backend/pipeline read it: `value[name]` and `value.get(name)`.
use claim_automation_cloud.Prelude.{
  ℕ, Bool, true, false, not, Option, none, some, List, [], ◌∷◌, ◌==◌, if◌then◌else◌,
}
use claim_automation_cloud.Text.{Text, text_eq, nonempty}
use claim_automation_cloud.Exec.{Result, ok, err, key_error, type_error, attribute_error}

mutual
  pub data Json : Type 0 where
    null : Json
    boolean : Bool → Json
    number : ℕ → Json
    string : Text → Json
    array : Items → Json
    object : Fields → Json

  pub data Items : Type 0 where
    no_items : Items
    item : Json → Items → Items

  pub data Fields : Type 0 where
    no_fields : Fields
    field : Text → Json → Fields → Fields

abbrev pub lookup : Text → Fields → Option Json
lookup name no_fields = none
lookup name (field key value fields) = if text_eq key name then some value else lookup name fields

abbrev pub found : Option Json → Result Json
found none = err key_error
found (some value) = ok value

-- `value[name]`
abbrev pub get_item : Text → Json → Result Json
get_item name (object fields) = found (lookup name fields)
get_item name value = err type_error

abbrev pub found_or : Json → Option Json → Json
found_or default none = default
found_or default (some value) = value

-- `value.get(name, default)`
abbrev pub get_or : Text → Json → Json → Result Json
get_or name default (object fields) = ok (found_or default (lookup name fields))
get_or name default value = err attribute_error

abbrev key_values : Fields → List Json
key_values no_fields = []
key_values (field key value fields) = string key ∷ key_values fields

abbrev characters : Text → List Json
characters [] = []
characters (c ∷ s) = string (c ∷ []) ∷ characters s

abbrev pub item_list : Items → List Json
item_list no_items = []
item_list (item value items) = value ∷ item_list items

-- What `for x in value` walks through.
abbrev pub iterate : Json → Result (List Json)
iterate (array items) = ok (item_list items)
iterate (object fields) = ok (key_values fields)
iterate (string s) = ok (characters s)
iterate value = err type_error

-- `bool(value)`
abbrev pub truthy : Json → Bool
truthy null = false
truthy (boolean b) = b
truthy (number n) = not (n == 0)
truthy (string s) = nonempty s
truthy (array no_items) = false
truthy (array (item value items)) = true
truthy (object no_fields) = false
truthy (object (field key value others)) = true
