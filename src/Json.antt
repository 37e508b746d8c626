-- ===== src/Json.antt =====
-- JSON values as nlohmann::json presents them to src/sync_hub.cpp and src/http.h: what `find`,
-- `contains`, `is_string`, `is_boolean` and `get` read of a value. The parser itself is not modelled.
use Prim.Native.String.{String}
use package.text.Mathlib.Text.{◌==◌ as key_eq}
use lectern_server.Error.{Result, ok, err, exception}
use lectern_server.Prelude.{ℕ, Bool, Option, none, some, List, [], ◌∷◌, if◌then◌else◌, Str}

mutual
  pub data Json : Type 0 where
    null : Json
    boolean : Bool → Json
    number : ℕ → Json
    text : Str → Json
    array : Items → Json
    object : Fields → Json

  pub data Items : Type 0 where
    nil : Items
    cons : Json → Items → Items

  pub data Fields : Type 0 where
    end : Fields
    field : String → Json → Fields → Fields

unfoldable pub find_field : String → Fields → Option Json
find_field key end = none
find_field key (field k v rest) = if key_eq k key then some v else find_field key rest

abbrev pub text_or_empty : Option Json → Str
text_or_empty (some (text s)) = s
text_or_empty _ = []

-- A list as a JSON array.
abbrev pub to_items : List Json → Items
to_items [] = nil
to_items (v ∷ vs) = cons v (to_items vs)

-- `json::value` with a text or a number for the default: a member of another type throws.
abbrev pub text_value : Option Json → Result Str
text_value none = ok []
text_value (some (text s)) = ok s
text_value _ = err exception

abbrev pub number_value : Option Json → Result ℕ
number_value none = ok 0
number_value (some (number n)) = ok n
number_value _ = err exception
