-- ===== src/Prompts/Scope.antt =====
-- src/relay-broker/run-input.ts: what a run may be started with. The functions of node:path and of
-- String that depend on the platform are the argument `Paths`.
use Prim.Native.String
use Prim.Native.Char.{Char, code}
use text.Mathlib.Text.{starts_with}
use deepseek_harness_relay_m.Base.{
  String, Bool, true, false, not, ◌&&◌, ◌||◌, Option, none, some, List, [], ◌∷◌, ◌==◌, nat_eq,
  string_eq, if◌then◌else◌, or_else, is_some, any,
}
use deepseek_harness_relay_m.Base.Result.{Result, ok, err, ◌>>=◌, ◌>>◌}
use deepseek_harness_relay_m.Types.{
  PromptPart, PermissionPreset, read_only, workspace_write, danger_full_access,
  TaskScopeDeclaration,
}
use deepseek_harness_relay_m.Routing.Sessions.{SessionMode}
use deepseek_harness_relay_m.Broker.Errors.{RelayError, NextAction}

-- `relative(root, resolve(root, value))` of the resolved workspace, `isAbsolute`, `trim() === ''`, the
-- separator after `..`, and the folding of case that Windows needs.
pub record Paths : Type 0 where
  pub relative_to : String → String → String
  pub is_absolute : String → Bool
  pub is_blank : String → Bool
  pub separator : String
  pub fold_case : String → String

pub record StartRunInput : Type 0 where
  pub task : Option String
  pub content : Option (List PromptPart)
  pub workspace : String
  pub session_id : Option String
  pub session_mode : Option SessionMode
  pub provider : Option String
  pub model : Option String
  pub reasoning_effort : Option String
  pub agent_preset : Option String
  pub permission_preset : Option PermissionPreset
  pub open_browser : Option Bool
  pub parent_run_id : Option String
  pub idempotency_key : Option String
  pub confirmed_dangerous_permission : Option Bool
  pub is_reply : Bool
  pub review_targets : Option (List String)
  pub context_read_scope : Option (List String)
  pub excluded_paths : Option (List String)
  pub write_scope : Option (List String)
  pub authorization_basis : Option String

-- The field of a path that is refused.
pub data Field : Type 0 where
  review_targets_field context_read_scope_field excluded_paths_field write_scope_field : Field

pub data InputError : Type 0 where
  session_and_mode provider_without_model effort_without_model : InputError
  review_targets_required context_read_scope_required : InputError
  bad_entry : Field → InputError
  escapes : Field → String → InputError
  outside_context is_excluded : String → InputError
  write_scope_forbidden write_scope_required : InputError
  relay : RelayError → InputError

-- `value.includes('\0')`
pub has_nul : String → Bool
has_nul String.[] = false
has_nul (String.◌∷◌ c s) = if code c == 0 then true else has_nul s

abbrev slash : Char
slash = "/"

-- `local.replaceAll('\\', '/')`
pub with_slashes : String → String
with_slashes String.[] = String.[]
with_slashes (String.◌∷◌ c s) = String.◌∷◌ (if code c == 92 then slash else c) (with_slashes s)

-- `[...new Set(values)]`
unfoldable pub without : String → List String → List String
without s [] = []
without s (t ∷ rest) = if t == s then without s rest else t ∷ without s rest

unfoldable pub unique : List String → List String
unfolding without
unique [] = []
unique (s ∷ rest) = s ∷ without s (unique rest)

module _ (paths : Paths) where
  -- A path that leaves the workspace.
  abbrev pub is_outside : String → Bool
  is_outside relative =
      relative == ".."
      || (starts_with relative (String.◌++◌ ".." paths.separator) || paths.is_absolute relative)

  unfoldable pub normalized : Field → String → String → Result InputError String
  unfolding with_slashes
  normalized field value relative =
      if is_outside relative
      then err (escapes field value)
      else ok (if relative == "" then "." else with_slashes relative)

  unfoldable pub normalize_path : String → Field → String → Result InputError String
  unfolding normalized has_nul
  normalize_path workspace field value =
      if paths.is_blank value || has_nul value
      then err (bad_entry field)
      else normalized field value (paths.relative_to workspace value)

  unfoldable pub normalize_each : String → Field → List String → Result InputError (List String)
  unfolding normalize_path
  normalize_each workspace field [] = ok []
  normalize_each workspace field (value ∷ values) = normalize_path workspace field value >>= λ path.
      normalize_each workspace field values >>= λ rest. ok (path ∷ rest)

  -- `normalizePaths`
  unfoldable pub normalize_paths : String → Field → List String → Result InputError (List String)
  unfolding normalize_each unique
  normalize_paths workspace field values =
      normalize_each workspace field values >>= λ found. ok (unique found)

  -- `containsPath`
  unfoldable pub contains_path : String → String → Bool
  contains_path parent child =
      paths.fold_case parent == "."
      || (paths.fold_case child == paths.fold_case parent
          || starts_with (paths.fold_case child) (String.◌++◌ (paths.fold_case parent) "/"))

  unfoldable pub check_targets :
      List String → List String → List String → Result InputError (Unit {0})
  unfolding contains_path
  check_targets context excluded [] = ok tt
  check_targets context excluded (target ∷ targets) =
      let rest = check_targets context excluded targets in
      if not (any (λ parent. contains_path parent target) context)
      then err (outside_context target)
      else if any (λ parent. contains_path parent target) excluded
      then err (is_excluded target)
      else rest

  abbrev pub is_read_only : Option PermissionPreset → Bool
  is_read_only none = true
  is_read_only (some read_only) = true
  is_read_only (some workspace_write) = false
  is_read_only (some danger_full_access) = false

  abbrev pub is_empty : List String → Bool
  is_empty [] = true
  is_empty (s ∷ rest) = false

  unfoldable pub check_write :
      Option PermissionPreset → TaskScopeDeclaration → Result InputError TaskScopeDeclaration
  check_write preset scope =
      if is_read_only preset && not (is_empty scope.write_scope)
      then err write_scope_forbidden
      else if not (is_read_only preset) && is_empty scope.write_scope
      then err write_scope_required
      else ok scope

  unfoldable pub check_scope :
      Option PermissionPreset → TaskScopeDeclaration → Result InputError TaskScopeDeclaration
  unfolding check_targets check_write
  check_scope preset scope =
      check_targets scope.context_read_scope scope.excluded_paths scope.review_targets
      >> check_write preset scope

  -- The four lists, normalised one after the other.
  unfoldable pub declared :
      String
      → List String
      → List String
      → List String
      → List String
      → Result InputError TaskScopeDeclaration
  unfolding normalize_paths
  declared workspace targets context excluded writes =
      normalize_paths workspace review_targets_field targets >>= λ t.
      normalize_paths workspace context_read_scope_field context >>= λ c.
      normalize_paths workspace excluded_paths_field excluded >>= λ e.
      normalize_paths workspace write_scope_field writes >>= λ w.
      ok
        (record { review_targets = t; context_read_scope = c; excluded_paths = e; write_scope = w })

  -- The two lists that a structured scope needs, and the rest.
  unfoldable pub scope_from :
      StartRunInput
      → Option (List String)
      → Option (List String)
      → Result InputError (Option TaskScopeDeclaration)
  unfolding declared check_scope
  scope_from input none context = err review_targets_required
  scope_from input (some []) context = err review_targets_required
  scope_from input (some (t ∷ targets)) none = err context_read_scope_required
  scope_from input (some (t ∷ targets)) (some []) = err context_read_scope_required
  scope_from input (some (t ∷ targets)) (some (c ∷ context)) =
      declared input.workspace (t ∷ targets) (c ∷ context) (or_else input.excluded_paths [])
        (or_else input.write_scope [])
      >>= λ scope. check_scope input.permission_preset scope >>= λ checked. ok (some checked)

  abbrev pub is_supplied : StartRunInput → Bool
  is_supplied input =
      is_some input.review_targets
      || (is_some input.context_read_scope
          || (is_some input.excluded_paths || is_some input.write_scope))

  -- `resolveTaskScope`
  unfoldable pub resolve_task_scope :
      StartRunInput → Result InputError (Option TaskScopeDeclaration)
  unfolding scope_from
  resolve_task_scope input =
      if is_supplied input
      then scope_from input input.review_targets input.context_read_scope
      else ok none

  abbrev confirm_dangerous : RelayError
  confirm_dangerous = record {
    code = "DANGEROUS_PERMISSION_CONFIRMATION_REQUIRED";
    message = "danger-full-access requires confirmedDangerousPermission=true";
    retryable = false;
    operation_id = none;
    run_id = none;
    last_known_state = none;
    next_action = some NextAction.confirm;
  }

  abbrev pub is_dangerous : Option PermissionPreset → Bool
  is_dangerous (some danger_full_access) = true
  is_dangerous _ = false

  -- `validateStartRunInput`
  unfoldable pub validate_start_run_input : StartRunInput → Result InputError (Unit {0})
  unfolding resolve_task_scope
  validate_start_run_input input =
      if is_some input.session_id && is_some input.session_mode
      then err session_and_mode
      else if not (is_some input.provider) && is_some input.model
          || is_some input.provider && not (is_some input.model)
      then err provider_without_model
      else if is_some input.reasoning_effort
          && (not (is_some input.provider) || not (is_some input.model))
      then err effort_without_model
      else if is_dangerous input.permission_preset
          && not (or_else input.confirmed_dangerous_permission false)
      then err (relay confirm_dangerous)
      else resolve_task_scope input >>= λ scope. ok tt

-- `inheritTaskScope`; each field that is not supplied comes from the parent's scope.
abbrev inherited_list : Option (List String) → List String → Option (List String)
inherited_list none list = some list
inherited_list (some own) list = some own

unfoldable pub inherit_task_scope : StartRunInput → Option TaskScopeDeclaration → StartRunInput
inherit_task_scope input none = input
inherit_task_scope input (some scope) = record input {
  review_targets = inherited_list input.review_targets scope.review_targets;
  context_read_scope = inherited_list input.context_read_scope scope.context_read_scope;
  excluded_paths = inherited_list input.excluded_paths scope.excluded_paths;
  write_scope = inherited_list input.write_scope scope.write_scope;
}
