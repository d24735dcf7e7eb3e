-- ===== src/Routing/Tests.antt =====
-- Runs of src/session-routing and src/model-selection.ts: the latest idle session is reused, and the
-- default model is restored.
use deepseek_harness_relay_m.Base.{
  ℕ, String, refl, Bool, true, false, Option, none, some, List, [], ◌∷◌, ◌==◌, string_eq,
}
use deepseek_harness_relay_m.Base.Map
use deepseek_harness_relay_m.Base.Result.{Result, ok, err}
use deepseek_harness_relay_m.Types.{ModelSelection}
use deepseek_harness_relay_m.Types.Json.{Value, string, object, field, end}
use deepseek_harness_relay_m.Routing.Sessions.{
  SessionWorkspace, SessionSummary, latest_idle, SessionResolveRequest, CreatedSession,
}
use deepseek_harness_relay_m.Routing.Models.{
  Settings, Replies, replace_settings, select_locked, IsRestoration, select_locked-IsRestoration,
}

abbrev same_path : String → String → Bool
same_path a b = a == b

abbrev session : String → ℕ → Bool → SessionSummary
session id updated running = record {
  session_id = id;
  updated_at = updated;
  running = running;
  blank = false;
  parent_session_id = none;
  origin = none;
  cwd = some "/w";
  agent_preset = none;
}

abbrev workspace : SessionWorkspace
workspace = record { workspace_id = "w"; path = "/w"; session_ids = "a" ∷ "b" ∷ "c" ∷ [] }

abbrev request : SessionResolveRequest
request = record {
  session_id = none;
  session_mode = some latest_idle;
  agent_preset = none;
  archived_session_ids = [];
}

abbrev listed : Result String (List SessionSummary)
listed = ok (session "a" 3 false ∷ session "b" 9 true ∷ session "c" 5 false ∷ [])

abbrev created : Result String CreatedSession
created = err "unused"

abbrev selection : ModelSelection
selection = record { provider = "p"; model = "m"; reasoning_effort = none }

abbrev settings : ℕ → Option Value → Settings
settings revision user = record {
  writable = true;
  namespaces = record { ns = "agent-default-model"; revision = revision; user = user } ∷ [];
}

abbrev chosen : Value
chosen = object (field "provider" (string "p") (field "model" (string "m") end))

abbrev replies : Replies String
replies = record {
  before = some (settings 4 (some (object end)));
  selected = ok selection;
  after = some (settings 5 (some chosen));
  written = ok tt;
}

select_locked-IsRestoration_example : IsRestoration replies selection (replace_settings end 5)
unfolding select_locked
select_locked-IsRestoration_example =
    select_locked-IsRestoration replies (replace_settings end 5) _ refl
