-- ===== src/Prompts/Sound.antt =====
-- What `resolveTaskScope` and `validateStartRunInput` of src/relay-broker/run-input.ts let through.
use deepseek_harness_relay_m.Base.{
  String, ◌≡◌, true, false, ◌&&◌, Option, none, some, List, ◌==◌, string_eq, if◌then◌else◌, or_else,
  is_some, any, All,
}
use deepseek_harness_relay_m.Base.Result.{ok}
use deepseek_harness_relay_m.Types.{PermissionPreset, TaskScopeDeclaration}
use deepseek_harness_relay_m.Prompts.Scope.{
  Paths, StartRunInput, with_slashes, is_outside, contains_path, is_read_only, is_empty,
  resolve_task_scope, is_dangerous,
}

module _ (paths : Paths) where
  -- A path inside the workspace, relative to it.
  abbrev pub IsInside : String → Type 0
  IsInside path =
      (relative : String) × (is_outside paths relative ≡ false)
      × (path ≡ (if relative == "" then "." else with_slashes relative))

  -- The target lies in the context that may be read, and in no excluded path.
  abbrev pub IsReviewable : List String → List String → String → Type 0
  IsReviewable context excluded target =
      (any (λ parent. contains_path paths parent target) context ≡ true)
      × (any (λ parent. contains_path paths parent target) excluded ≡ false)

  -- A scope that the code lets through.
  abbrev pub IsSound : Option PermissionPreset → TaskScopeDeclaration → Type 0
  IsSound preset scope =
      All (IsReviewable scope.context_read_scope scope.excluded_paths) scope.review_targets
      × (is_empty paths scope.write_scope ≡ is_read_only paths preset)
      × All IsInside scope.review_targets
      × All IsInside scope.context_read_scope
      × All IsInside scope.excluded_paths
      × All IsInside scope.write_scope

  abbrev AllInside : TaskScopeDeclaration → Type 0
  AllInside scope =
      All IsInside scope.review_targets
      × All IsInside scope.context_read_scope
      × All IsInside scope.excluded_paths
      × All IsInside scope.write_scope

  abbrev pub HasScope : StartRunInput → Option TaskScopeDeclaration → Type 0
  HasScope input none = resolve_task_scope paths input ≡ ok none
  HasScope input (some scope) =
      (resolve_task_scope paths input ≡ ok (some scope)) × IsSound input.permission_preset scope

  -- What a run may be started with.
  pub record IsStartable (input : StartRunInput) : Type 0 where
    pub one_session : is_some input.session_id && is_some input.session_mode ≡ false
    pub whole_model : is_some input.provider ≡ is_some input.model
    pub effort : is_some input.reasoning_effort ≡ true → is_some input.provider ≡ true
    pub danger :
        is_dangerous paths input.permission_preset ≡ true
        → or_else input.confirmed_dangerous_permission false ≡ true
    pub scope : (scope : Option TaskScopeDeclaration) × HasScope input scope
