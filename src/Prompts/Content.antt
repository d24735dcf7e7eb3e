-- ===== src/Prompts/Content.antt =====
-- src/prompt.ts: the content of a prompt, its limits, and the declaration that is appended to it.
-- `JSON.stringify` of a list of texts is the argument `stringify`.
use Prim.Native.String
use deepseek_harness_relay_m.Base.{
  ℕ, ◌+◌, String, not, ◌&&◌, Option, none, some, List, [], ◌∷◌, ◌++◌, ltb, if◌then◌else◌, or_else,
  is_some,
}
use deepseek_harness_relay_m.Base.Result.{Result, ok, err, ◌>>=◌}
use deepseek_harness_relay_m.Types.{PromptPart, TaskScopeDeclaration}
use deepseek_harness_relay_m.Prompts.Base64.{utf16_length, validate_base64}

-- `{ task?, content? }`
pub record Input : Type 0 where
  pub task : Option String
  pub content : Option (List PromptPart)

-- The limits of `RelayConfig`.
pub record Limits : Type 0 where
  pub max_image_bytes : ℕ
  pub max_task_characters : ℕ
  pub max_images_per_message : ℕ
  pub max_message_image_bytes : ℕ

pub data PromptError : Type 0 where
  not_exactly_one empty_content not_base64 image_too_large : PromptError
  too_many_characters too_many_images images_too_large : PromptError

pub record Tally : Type 0 where
  pub image_count : ℕ
  pub image_bytes : ℕ
  pub text_characters : ℕ

pub record Prompt : Type 0 where
  pub content : List PromptPart
  pub summary : String
  pub image_count : ℕ

-- One image of the loop, and the rest of it.
unfoldable pub tally_image :
    Limits → Option ℕ → Tally → (Tally → Result PromptError Tally) → Result PromptError Tally
tally_image limits none t rest = err not_base64
tally_image limits (some bytes) t rest =
    if ltb limits.max_image_bytes bytes
    then err image_too_large
    else rest (record t { image_count = t.image_count + 1; image_bytes = t.image_bytes + bytes })

-- The loop over the parts.
unfoldable pub tally : Limits → List PromptPart → Tally → Result PromptError Tally
unfolding tally_image validate_base64 utf16_length
tally limits [] t = ok t
tally limits (PromptPart.text s ∷ parts) t =
    tally limits parts (record t { text_characters = t.text_characters + utf16_length s })
tally limits (PromptPart.image media bytes name ∷ parts) t =
    tally_image limits (validate_base64 bytes) t (λ u. tally limits parts u)

abbrev pub nothing_yet : Tally
nothing_yet = record { image_count = 0; image_bytes = 0; text_characters = 0 }

unfoldable pub within : Limits → Tally → Result PromptError Tally
within limits t =
    if ltb limits.max_task_characters t.text_characters
    then err too_many_characters
    else if ltb limits.max_images_per_message t.image_count
    then err too_many_images
    else if ltb limits.max_message_image_bytes t.image_bytes
    then err images_too_large
    else ok t

-- `parts.join(separator)`
pub join : String → List String → String
join separator [] = ""
join separator (s ∷ []) = s
join separator (s ∷ (t ∷ rest)) = String.◌++◌ s (String.◌++◌ separator (join separator (t ∷ rest)))

pub texts : List PromptPart → List String
texts [] = []
texts (PromptPart.text s ∷ parts) = s ∷ texts parts
texts (PromptPart.image media bytes name ∷ parts) = texts parts

-- What `resolvePrompt` returns for the content, whose images it has counted.
unfoldable pub prompt_of : List PromptPart → ℕ → Prompt
unfolding join texts
prompt_of parts count = record {
  content = parts;
  summary = join "\n" (texts parts);
  image_count = count;
}

unfoldable pub checked : Limits → List PromptPart → Result PromptError Prompt
unfolding tally within prompt_of
checked limits [] = err empty_content
checked limits (part ∷ parts) = tally limits (part ∷ parts) nothing_yet >>= within limits >>= λ t.
    ok (prompt_of (part ∷ parts) t.image_count)

-- Exactly one of the two is given: `task` is a content of one text.
unfoldable pub content_of :
    Option String → Option (List PromptPart) → Result PromptError (List PromptPart)
content_of none none = err not_exactly_one
content_of (some task) (some content) = err not_exactly_one
content_of (some task) none = ok (PromptPart.text task ∷ [])
content_of none (some content) = ok content

-- `resolvePrompt`
unfoldable pub resolve_prompt : Limits → Input → Result PromptError Prompt
unfolding content_of checked
resolve_prompt limits input = content_of input.task input.content >>= checked limits

-- The lines of the declaration that names the basis of the authorization.
basis_lines : Option String → List String
basis_lines none = []
basis_lines (some basis) =
    String.◌++◌ "authorizationBasis: " basis
    ∷ "The caller records that the user explicitly selected Harness to inspect this authorized workspace. This evidence does not authorize any broader workspace, scope, permission, provider, or external action."
    ∷ []

scope_lines : (List String → String) → Option TaskScopeDeclaration → List String
scope_lines stringify none = []
scope_lines stringify (some scope) =
    "Task scope declaration (instructions only; not a filesystem access control):"
    ∷ String.◌++◌ "reviewTargets: " (stringify scope.review_targets)
    ∷ String.◌++◌ "contextReadScope: " (stringify scope.context_read_scope)
    ∷ String.◌++◌ "excludedPaths: " (stringify scope.excluded_paths)
    ∷ String.◌++◌ "writeScope: " (stringify scope.write_scope)
    ∷ "Treat reviewTargets as the subjects of the review, not as a read whitelist. Read or search within contextReadScope only as needed to verify the targets. Do not read excludedPaths. Do not write outside writeScope."
    ∷ []

unfoldable pub declaration :
    (List String → String) → Option TaskScopeDeclaration → Option String → String
unfolding join basis_lines scope_lines
declaration stringify scope basis =
    join "\n" ("Delegated task metadata:" ∷ basis_lines basis ++ scope_lines stringify scope)

append_to : String → Option String → Option (List PromptPart) → Input
append_to text (some task) content = record {
  task = some (String.◌++◌ task (String.◌++◌ "\n\n" text));
  content = none;
}
append_to text none content = record {
  task = none;
  content = some (or_else content [] ++ PromptPart.text text ∷ []);
}

-- `appendTaskScope`
unfoldable pub append_task_scope :
    (List String → String) → Input → Option TaskScopeDeclaration → Option String → Input
unfolding append_to declaration
append_task_scope stringify input scope basis =
    if not (is_some scope) && not (is_some basis)
    then input
    else append_to (declaration stringify scope basis) input.task input.content
