-- ===== src/Models/Evidence.antt =====
-- models.py: evidence references, blockers and the JSON values of their metadata.
use python_ai_agent_flow.Prelude.{
  String, Option, none, some, Bool, true, false, List, if◌then◌else◌, ◌==◌, string_eq,
}
use python_ai_agent_flow.Models.Enums.{EvidenceKind, BlockerKind}

-- A value of `Dict[str, Any]`; a number is kept by its literal.
mutual
  pub data Fields : Type 0 where
    end : Fields
    field : String → Value → Fields → Fields

  pub data Value : Type 0 where
    null : Value
    boolean : Bool → Value
    text : String → Value
    number : String → Value
    object : Fields → Value
    array : Elements → Value

  pub data Elements : Type 0 where
    done : Elements
    element : Value → Elements → Elements

-- `fields.get(key)`
unfoldable pub get : String → Fields → Option Value
get key end = none
get key (field k v rest) = if k == key then some v else get key rest

-- `value is True`
abbrev pub is_true : Option Value → Bool
is_true (some (boolean true)) = true
is_true _ = false

pub record EvidenceRef : Type 0 where
  pub id : String
  pub kind : EvidenceKind
  pub location : String
  pub description : String
  pub metadata : Fields

pub record Blocker : Type 0 where
  pub kind : BlockerKind
  pub summary : String
  pub next_action : String
  pub evidence : List EvidenceRef
