-- ===== src/Json.antt =====
-- The values of Python's `json`, which payloads and metadata are made of. A float is read as a
-- scaled integer; nothing here computes with numbers.
use chat_tree.Prelude.{ℕ, String, ◌==◌, Bool, true, false, Option, none, some, not}
use chat_tree.Dict.{Dict, get}

mutual
  pub data Value : Type 0 where
    null : Value
    bool : Bool → Value
    nat : ℕ → Value
    negative : ℕ → Value
    string : String → Value
    list : Items → Value
    object : Fields → Value

  pub data Fields : Type 0 where
    no_field : Fields
    field : String → Value → Fields → Fields

  pub data Items : Type 0 where
    no_item : Items
    item : Value → Items → Items

-- bool(v)
unfoldable pub truthy : Value → Bool
truthy null = false
truthy (bool b) = b
truthy (nat ℕ.zero) = false
truthy (nat n) = true
truthy (negative n) = true
truthy (string s) = not (s == "")
truthy (list no_item) = false
truthy (list (item v vs)) = true
truthy (object no_field) = false
truthy (object (field k v fs)) = true

-- The value for `None` or a text.
abbrev pub optional : Option String → Value
optional none = null
optional (some s) = string s

-- d.get(k)
unfoldable pub get_value : String → Dict Value → Value
get_value k d = elim (get k d) [ none ↦ null | some v ↦ v ]
