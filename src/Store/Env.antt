-- ===== src/Store/Env.antt =====
-- storage.py: what the store takes from the code around it. The checks of a resource definition
-- (`_validated_resource_definition_row`) and of a live admission
-- (`_assert_live_focused_test_admission`) read columns and files that are not modelled.
use python_ai_agent_flow.Prelude.{String, Option, Bool, List}
use python_ai_agent_flow.Models.Evidence.{Value}
use python_ai_agent_flow.Store.Rows.{Db, DefinitionRow, Definition, Admission, Job}

pub record Env : Type 0 where
  -- The definition of a row, or `none` where the check raises `StorageError`.
  pub validated : DefinitionRow → Option Definition
  -- Whether the check of an admission raises no `LeaseConflict`.
  pub admission_live : Db → Admission → Job → Bool
  -- sha256 over the JSON of a list of texts.
  pub resources_sha256 : List String → String
  -- `str(Path(p).expanduser().resolve())`
  pub resolve : String → String
  -- `{str(x) for x in value or ()}` of a JSON value
  pub members : Value → List String
