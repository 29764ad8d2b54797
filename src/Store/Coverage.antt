-- ===== src/Store/Coverage.antt =====
-- storage.py: which approvals cover a job, `_approval_covers_job` and
-- `_approval_covers_repository`.
use python_ai_agent_flow.Prelude.{
  String, Option, none, some, Bool, ◌&&◌, List, [], ◌++◌, map, all, mem, string_eq,
}
use python_ai_agent_flow.Models.Evidence.{Fields, Value, get}
use python_ai_agent_flow.Store.Env.{Env}

module _ (env : Env) where
  abbrev members_of : Option Value → List String
  members_of none = []
  members_of (some v) = env.members v

  -- `value.get("repository_paths", value.get("repositories", ()))`
  abbrev repositories_of : Fields → Option Value → Option Value
  repositories_of value none = get "repositories" value
  repositories_of value (some v) = some v

  -- _repository_scope
  unfoldable pub repository_scope : Fields → List String
  repository_scope value = members_of (repositories_of value (get "repository_paths" value))

  -- _canonical_repository_scope
  unfoldable pub canonical_repository_scope : Fields → List String
  canonical_repository_scope value = map env.resolve (repository_scope value)

  -- _approval_covers_job; nothing is required where the set is empty.
  unfoldable pub approval_covers_job : Fields → Fields → Fields → Bool
  approval_covers_job config payload scope =
      all (λ r. mem r (repository_scope scope))
        (repository_scope config ++ repository_scope payload)

  -- _approval_covers_repository
  unfoldable pub approval_covers_repository : Fields → String → Fields → Bool
  approval_covers_repository config path scope =
      mem (env.resolve path) (canonical_repository_scope config)
      && mem (env.resolve path) (canonical_repository_scope scope)
