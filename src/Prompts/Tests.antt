-- ===== src/Prompts/Tests.antt =====
-- Runs of src/prompt.ts and src/relay-broker/run-input.ts.
use deepseek_harness_relay_m.Base.{
  ◌≡◌, ◌↔◌, refl, false, none, some, List, [], ◌∷◌, ◌==◌, string_eq,
}
use deepseek_harness_relay_m.Base.Result.{ok, err}
use deepseek_harness_relay_m.Types.{PromptPart, png, workspace_write, TaskScopeDeclaration}
use deepseek_harness_relay_m.Prompts.Base64.{validate_base64}
use deepseek_harness_relay_m.Prompts.Content.{
  Input, Limits, resolve_prompt, prompt_of, image_too_large, append_task_scope,
}
use deepseek_harness_relay_m.Prompts.Limits.{IsGiven, IsTaken, resolve_prompt_iff}
use deepseek_harness_relay_m.Prompts.Scope.{
  Paths, StartRunInput, resolve_task_scope, is_excluded, inherit_task_scope,
}

abbrev limits : Limits
limits = record {
  max_image_bytes = 3;
  max_task_characters = 10;
  max_images_per_message = 2;
  max_message_image_bytes = 5;
}

two_bytes : validate_base64 "QUI=" ≡ some 2
unfolding validate_base64
two_bytes = refl

-- The last letter has bits that no byte uses.
not_canonical : validate_base64 "QUJ=" ≡ none
unfolding validate_base64
not_canonical = refl

abbrev parts : List PromptPart
parts = PromptPart.text "see" ∷ PromptPart.image png "QUI=" none ∷ []

abbrev input : Input
input = record { task = none; content = some parts }

accepted : resolve_prompt limits input ≡ ok (prompt_of parts 1)
unfolding resolve_prompt
accepted = refl

resolve_prompt_iff_example :
    (resolve_prompt limits input ≡ ok (prompt_of parts 1))
    ↔ (IsGiven limits input parts × IsTaken limits (prompt_of parts 1))
unfolding prompt_of
resolve_prompt_iff_example = resolve_prompt_iff limits input (prompt_of parts 1)

refused :
    resolve_prompt limits
      (record { task = none; content = some (PromptPart.image png "QUJDREVG" none ∷ []) })
    ≡ err image_too_large
unfolding resolve_prompt
refused = refl

-- Paths are already relative to the workspace, and none is absolute.
abbrev paths : Paths
paths = record {
  relative_to = λ workspace value. value;
  is_absolute = λ path. false;
  is_blank = λ path. path == "";
  separator = "/";
  fold_case = λ path. path;
}

abbrev start : StartRunInput
start = record {
  task = some "review";
  content = none;
  workspace = "w";
  session_id = none;
  session_mode = none;
  provider = none;
  model = none;
  reasoning_effort = none;
  agent_preset = none;
  permission_preset = some workspace_write;
  open_browser = none;
  parent_run_id = none;
  idempotency_key = none;
  confirmed_dangerous_permission = none;
  is_reply = false;
  review_targets = some ("src/a.ts" ∷ []);
  context_read_scope = some ("src" ∷ "src" ∷ []);
  excluded_paths = some ("docs" ∷ []);
  write_scope = some ("src/a.ts" ∷ []);
  authorization_basis = none;
}

abbrev scope : TaskScopeDeclaration
scope = record {
  review_targets = "src/a.ts" ∷ [];
  context_read_scope = "src" ∷ [];
  excluded_paths = "docs" ∷ [];
  write_scope = "src/a.ts" ∷ [];
}

resolved : resolve_task_scope paths start ≡ ok (some scope)
unfolding resolve_task_scope
resolved = refl

excluded :
    resolve_task_scope paths (record start { excluded_paths = some ("src" ∷ []) })
    ≡ err (is_excluded "src/a.ts")
unfolding resolve_task_scope
excluded = refl

-- A reply inherits the scope of its parent.
inherited :
    resolve_task_scope paths (
      inherit_task_scope
        (record start {
          review_targets = none;
          context_read_scope = none;
          excluded_paths = none;
          write_scope = none;
        })
        (some scope))
    ≡ ok (some scope)
unfolding inherit_task_scope resolve_task_scope
inherited = refl

unchanged : append_task_scope (λ list. "") input none none ≡ input
unfolding append_task_scope
unchanged = refl
