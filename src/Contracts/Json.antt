-- ===== src/Contracts/Json.antt =====
-- JSON values, numbers and digests (packages/contracts/src/index.ts, phase2.ts).
use georesearch_dsh.Prelude.{String, Bool}

-- A number that need not be whole, by the text that `JSON.stringify` gives it.
abbrev pub Number : Type 0
Number = String

abbrev pub Sha256Digest : Type 0
Sha256Digest = String

mutual
  pub data Json : Type 0 where
    null : Json
    boolean : Bool → Json
    number : Number → Json
    string : String → Json
    array : Items → Json
    object : Fields → Json

  pub data Items : Type 0 where
    no_items : Items
    item : Json → Items → Items

  pub data Fields : Type 0 where
    no_fields : Fields
    field : String → Json → Fields → Fields
