-- ===== src/Json.antt =====
-- `serde_json::Value`, which src/request_hash.rs and src/plugin.rs read and build. The fields of an
-- object stand in the order of the map behind it, and each key once.
use animus_queue_default.Common.{ℕ, String, Bool, Option, none, some, ◌==◌, if◌then◌else◌}

-- A number: a `u64`, an `i64` below zero by its distance to -1, or an `f64` by its bits.
pub data Number : Type 0 where
  unsigned negative float : ℕ → Number

mutual
  pub data Items : Type 0 where
    nil : Items
    cons : Value → Items → Items

  pub data Fields : Type 0 where
    end : Fields
    field : String → Value → Fields → Fields

  pub data Value : Type 0 where
    null : Value
    boolean : Bool → Value
    number : Number → Value
    string : String → Value
    object : Fields → Value
    array : Items → Value

unfoldable pub lookup : String → Fields → Option Value
lookup key end = none
lookup key (field k v fs) = if k == key then some v else lookup key fs

-- `map.remove(key)`.
unfoldable pub without : String → Fields → Fields
without key end = end
without key (field k v fs) = let rest = without key fs in if k == key then rest else field k v rest

-- `value.get(key)`.
abbrev pub get : Value → String → Option Value
get (object fs) key = lookup key fs
get null key = none
get (boolean b) key = none
get (number n) key = none
get (string s) key = none
get (array xs) key = none

abbrev pub as_str : Value → Option String
as_str (string s) = some s
as_str null = none
as_str (boolean b) = none
as_str (number n) = none
as_str (array xs) = none
as_str (object fs) = none

-- `json!` of an `Option<&str>`, and of an `Option<u64>`.
abbrev pub optional_string : Option String → Value
optional_string none = null
optional_string (some s) = string s

abbrev pub optional_number : Option ℕ → Value
optional_number none = null
optional_number (some n) = number (unsigned n)
