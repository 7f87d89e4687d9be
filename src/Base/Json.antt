-- ===== src/Base/Json.antt =====
-- JSON values, as the sources get them from `JSON.parse`: the fields of an object in order.
use mathlib.Core.Bool.{Bool}
use mathlib.Core.Option.{Option, none, some}
use mathlib.Core.List.{List, [], ◌∷◌}
use claw_crony.Base.Integers.{ℤ}
use claw_crony.Base.Text.{Text, same}
use claw_crony.Base.Tests.{if◌then◌else◌}

mutual
  pub data Json : Type 0 where
    null : Json
    bool : Bool → Json
    num : ℤ → Json
    str : Text → Json
    arr : Items → Json
    obj : Fields → Json

  pub data Items : Type 0 where
    nil : Items
    cons : Json → Items → Items

  pub data Fields : Type 0 where
    end : Fields
    field : Text → Json → Fields → Fields

-- `value[key]`, with `none` for undefined.
unfoldable pub get : Text → Fields → Option Json
unfolding same
get k end = none
get k (field j v fs) = let rest = get k fs in if same j k then some v else rest

-- `value[key] = v` for a key that is there.
unfoldable pub put : Text → Json → Fields → Fields
unfolding same
put k w end = end
put k w (field j v fs) = let rest = put k w fs in if same j k then field j w fs else field j v rest

abbrev pub keys : Fields → List Text
keys end = []
keys (field k v fs) = k ∷ keys fs
