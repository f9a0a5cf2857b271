-- ===== src/Base/Json.antt =====
-- JSON values as the programs receive them; a number is kept as its text.
use Prim.Native.String.{String}
use mathlib.Core.Bool.{Bool}
use mathlib.Core.Option.{Option, none, some}
use mathlib.Core.List.{List, [], ◌∷◌}
use walmart_assignment.Base.Tests.{if◌then◌else◌}
use walmart_assignment.Base.Text.{str_eq}

mutual
  pub data Json : Type 0 where
    null : Json
    bool : Bool → Json
    num : String → Json
    str : String → Json
    arr : Items → Json
    obj : Fields → Json

  pub data Items : Type 0 where
    nil : Items
    cons : Json → Items → Items

  pub data Fields : Type 0 where
    end : Fields
    field : String → Json → Fields → Fields

-- `Object.keys(v)` of an object; other values have no keys here.
abbrev pub field_keys : Fields → List String
field_keys end = []
field_keys (field k v fs) = k ∷ field_keys fs

abbrev pub keys : Json → List String
keys (obj fs) = field_keys fs
keys _ = []

abbrev pub items : Items → List Json
items nil = []
items (cons v vs) = v ∷ items vs

-- `v[key]`, where a missing field is `undefined`.
abbrev pub field_get : String → Fields → Option Json
field_get key end = none
field_get key (field k v fs) = if str_eq k key then some v else field_get key fs

abbrev pub get : String → Json → Option Json
get key (obj fs) = field_get key fs
get key _ = none
