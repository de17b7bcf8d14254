-- ===== src/Canon/Json.antt =====
-- JSON values as src/v2/canon.rs reads them: `serde_json::Value` with its `arbitrary_precision`
-- feature, where a number keeps its text. The members of an object stand in any order.
use hacp.Common.{String, Bool, List, [], ◌∷◌}

mutual
  pub data Value : Type 0 where
    null : Value
    bool : Bool → Value
    number : (text : String) → Value
    string : String → Value
    array : Items → Value
    object : Members → Value

  pub data Items : Type 0 where
    nil : Items
    cons : Value → Items → Items

  pub data Members : Type 0 where
    end : Members
    member : (key : String) → Value → Members → Members

abbrev pub members : List (String × Value) → Members
members [] = end
members ((k, v) ∷ ms) = member k v (members ms)
