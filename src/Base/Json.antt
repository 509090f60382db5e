-- ===== src/Base/Json.antt =====
-- Parsed request bodies: what `express.json()` hands to a route.
use Prim.Native.Nat.{ℕ}
use Prim.Native.String.{String}
use mathlib.Core.Bool.{Bool}
use mathlib.Core.List.{List, [], ◌∷◌}
use mathlib.Core.Option.{Option, none, some}
use text.Mathlib.Text.{◌==◌}
use open_log_tool_server.Base.Tests.{if◌then◌else◌}
use open_log_tool_server.Base.Texts.{Text}

-- `natural n` is a number that is an integer and not negative; `other_number` is any other double
-- (negative, fractional), told apart by its bit pattern. Fields stand in the order of their keys.
mutual
  pub data Json : Type 0 where
    null : Json
    boolean : Bool → Json
    natural other_number : ℕ → Json
    string : Text → Json
    array : Items → Json
    object : Fields → Json

  pub data Items : Type 0 where
    nil : Items
    cons : Json → Items → Items

  pub data Fields : Type 0 where
    end : Fields
    field : String → Json → Fields → Fields

-- `value[key]`; `none` is `undefined`.
unfoldable pub get : String → Fields → Option Json
get key end = none
get key (field k v rest) = if k == key then some v else get key rest

-- `Object.keys`.
abbrev pub keys : Fields → List String
keys end = []
keys (field k v rest) = k ∷ keys rest

abbrev pub to_list : Items → List Json
to_list nil = []
to_list (cons j rest) = j ∷ to_list rest
