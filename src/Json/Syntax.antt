-- ===== src/Json/Syntax.antt =====
-- JSON values. A number keeps the text that it was written as.
use bosh_esxi_cpi_release.Prelude.{String, Bool}

mutual
  pub data Json : Type 0 where
    null : Json
    bool : Bool → Json
    num : String → Json
    str : String → Json
    array : Items → Json
    object : Fields → Json

  pub data Items : Type 0 where
    nil : Items
    item : Json → Items → Items

  pub data Fields : Type 0 where
    end : Fields
    field : String → Json → Fields → Fields
