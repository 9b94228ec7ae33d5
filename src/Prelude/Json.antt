-- ===== src/Prelude/Json.antt =====
-- JSON documents that pass through the program. A number is kept as its literal.
use Prim.Native.String.{String}
use mathlib.Core.Bool.{Bool}
use mathlib.Core.Option.{Option, none, some}
use mathlib.Core.List.{List, [], ◌∷◌}
use chat_aiagent.Prelude.Tests.{◌=s=◌, if◌then◌else◌}
use chat_aiagent.Prelude.Chars.{Text}

mutual
  pub data Json : Type 0 where
    null : Json
    bool : Bool → Json
    num : String → Json
    str : Text → Json
    arr : Items → Json
    obj : Fields → Json

  pub data Items : Type 0 where
    nil : Items
    cons : Json → Items → Items

  pub data Fields : Type 0 where
    end : Fields
    field : String → Json → Fields → Fields

-- `d.get(k)` on the object's fields
unfoldable pub get : String → Fields → Option Json
get k end = none
get k (field j v fs) = if j =s= k then some v else get k fs

abbrev pub items : Items → List Json
items nil = []
items (cons v vs) = v ∷ items vs
