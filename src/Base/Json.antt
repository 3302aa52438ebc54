-- ===== src/Base/Json.antt =====
-- A value of Python's `json`, for what the program stores in JSON columns and passes on unread. A
-- float is the text that it is written as.
use Prim.Native.String.{String}
use mathlib.Core.Bool.{Bool}
use smart_ao_v.Base.Int.{ℤ}

mutual
  pub data Json : Type 0 where
    null : Json
    truth : Bool → Json
    integer : ℤ → Json
    float : String → Json
    text : String → Json
    array : JsonItems → Json
    object : JsonFields → Json

  pub data JsonItems : Type 0 where
    no_items : JsonItems
    item : Json → JsonItems → JsonItems

  pub data JsonFields : Type 0 where
    no_fields : JsonFields
    field : String → Json → JsonFields → JsonFields
