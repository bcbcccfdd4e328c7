-- ===== src/Base/Json.antt =====
-- A value of Python's `dict[str, Any]` as the JSON columns store it.
use Prim.Native.String.{String}
use mathlib.Core.Bool.{Bool}
use stock_recommendation_be.Base.Int.{ℤ}

mutual
  pub data Json : Type 0 where
    null : Json
    bool : Bool → Json
    num : ℤ → Json
    str : String → Json
    arr : Items → Json
    obj : Fields → Json

  pub data Items : Type 0 where
    nil : Items
    cons : Json → Items → Items

  pub data Fields : Type 0 where
    end : Fields
    field : String → Json → Fields → Fields
