-- ===== src/Json.antt =====
-- JSON texts as trees. A number is an integer literal, or any other literal as a float64.
use mkq.Prelude.{ℕ, Bool, Bytes, ℤ}

mutual
  pub data Json : Type 0 where
    null : Json
    boolean : Bool → Json
    integer : ℤ → Json
    real : ℕ → Json
    string : Bytes → Json
    array : Elements → Json
    object : Members → Json

  pub data Elements : Type 0 where
    no_element : Elements
    element : Json → Elements → Elements

  pub data Members : Type 0 where
    no_member : Members
    member : Bytes → Json → Members → Members
