-- ===== src/Sui/Json.antt =====
-- JSON values as `serde_json::Value` holds them, and the accessors that src/relayer/src/sui.rs calls.
use nautilus_memwal_relayer.Prelude.{
  ℕ, String, Bool, true, false, ◌&&◌, Option, none, some, List, [], ◌∷◌, str_eq, nat_eq,
  if◌then◌else◌,
}
use nautilus_memwal_relayer.Types.{Bytes}

mutual
  pub data Json : Type 0 where
    null : Json
    boolean : Bool → Json
    -- a non-negative integer; any other number is kept as its text
    number : ℕ → Json
    other_number : String → Json
    string : String → Json
    array : Items → Json
    object : Fields → Json

  pub data Items : Type 0 where
    nil : Items
    cons : Json → Items → Items

  pub data Fields : Type 0 where
    end : Fields
    field : String → Json → Fields → Fields

unfoldable pub get_field : String → Fields → Option Json
get_field k end = none
get_field k (field j v fs) = if str_eq j k then some v else get_field k fs

-- `Value::get(&str)`
unfoldable pub get : String → Json → Option Json
unfolding get_field
get k (object fs) = get_field k fs
get k _ = none

unfoldable pub as_str : Json → Option String
as_str (string s) = some s
as_str _ = none

unfoldable pub as_bool : Json → Option Bool
as_bool (boolean b) = some b
as_bool _ = none

pub to_list : Items → List Json
to_list nil = []
to_list (cons v vs) = v ∷ to_list vs

unfoldable pub as_array : Json → Option (List Json)
unfolding to_list
as_array (array vs) = some (to_list vs)
as_array _ = none

-- `Option::and_then`
abbrev pub step : Option Json → (Json → Option Json) → Option Json
step none f = none
step (some v) f = f v

-- `Value::pointer`, for a path of names
unfoldable pub pointer : List String → Json → Option Json
unfolding get
pointer [] v = some v
pointer (k ∷ ks) v = step (get k v) (pointer ks)

-- Equality with the array of a key's bytes
unfoldable pub is_bytes : Bytes → List Json → Bool
is_bytes [] [] = true
is_bytes (b ∷ bs) (number n ∷ vs) = nat_eq n b && is_bytes bs vs
is_bytes _ _ = false
