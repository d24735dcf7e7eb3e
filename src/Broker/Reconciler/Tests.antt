-- ===== src/Broker/Reconciler/Tests.antt =====
-- Runs of src/relay-broker/run-reconciler.ts: a Host whose log has two pages, and a run that ends.
use deepseek_harness_relay_m.Base.{
  ℕ, ◌<◌, String, ◌≡◌, ◌≢◌, refl, inl, inr, ◌⊎◌, true, false, Option, none, some, List, [], ◌∷◌,
  arith, ◌==◌, nat_eq, if◌then◌else◌, string_eq, Bool-cases,
}
use deepseek_harness_relay_m.Base.Map
use deepseek_harness_relay_m.Base.Result.{Result, ok, err}
use deepseek_harness_relay_m.Base.Stamp.{iso}
use deepseek_harness_relay_m.Types.{
  RunSnapshot, RunStatus, PermissionPreset, PromptAdmission, ModelDefaultRestore, RpcEvent,
  OperationRecord, OperationKind, OperationState,
}
use deepseek_harness_relay_m.Types.Json.{Fields, field, end, string, object}
use deepseek_harness_relay_m.Events.RunEvents.Merge.{merge_events, has_seq, IsAscending}
use deepseek_harness_relay_m.Broker.Permissions.{
  Failure, restore_session, restore_found, active_for_session,
}
use deepseek_harness_relay_m.Broker.Reconciler.History.{Page, HistoryError, oldest, history_after}
use deepseek_harness_relay_m.Broker.Reconciler.Complete.{
  IsBelow, Serves, IsWhole, history_after-IsWhole,
}
use deepseek_harness_relay_m.Broker.Reconciler.Run.{
  Config, World, Env, incremental_start_seq, owned_events, is_foreign, last_turn_end,
  record_progress,
}
use deepseek_harness_relay_m.Broker.Reconciler.Refresh.{
  refresh, listed_sessions, refresh_session, loaded, by_prompt, acknowledge_known, acknowledge,
  acknowledged, read_owned, ended, settle,
}
use deepseek_harness_relay_m.Broker.Reconciler.Finish.{finalize, restored, prompt_missing}
use deepseek_harness_relay_m.Broker.Journal
use deepseek_harness_relay_m.Broker.Journal.{transition}
use deepseek_harness_relay_m.Events.RunEvents.{
  highest_seq, user_rpc_id, terminal_outcome, final_assistant_interrupted,
}
use deepseek_harness_relay_m.Events.RunEvents.Assistant.{final_assistant_text}
use deepseek_harness_relay_m.Events.RunEvents.Text.{utf8_tail}
use deepseek_harness_relay_m.Broker.Reconciler.Ending.{Settles}
use deepseek_harness_relay_m.Broker.Reconciler.Settles.{refresh-Settles}
use deepseek_harness_relay_m.Broker.Reconciler.Evidence.{Evidence}
use deepseek_harness_relay_m.Broker.Reconciler.Success.{refresh-succeeded}

abbrev event : String → ℕ → Fields → RpcEvent
event type seq payload = record { type = type; seq = seq; time = 0; payload = payload }

abbrev prompt : RpcEvent
prompt =
    event "user/message" 4
      (field "id" (string "m") (field "source" (object (field "rpcId" (string "p") end)) end))

abbrev turn_end : RpcEvent
turn_end = event "turn/end" 6 (field "reason" (object (field "kind" (string "completed") end)) end)

abbrev log : List RpcEvent
log = prompt ∷ turn_end ∷ []

-- The newest event first, one to a page.
abbrev first_page : Page
first_page = record { events = turn_end ∷ []; has_more = true }

abbrev second_page : Page
second_page = record { events = prompt ∷ []; has_more = false }

abbrev read : Option ℕ → Result String Page
read none = ok first_page
read (some before) = if before == 6 then ok second_page else err "no page"

serves : Serves log read
unfolding has_seq oldest
serves = record { from_log = from_log; served = served }
  where
    from_log :
        (before : Option ℕ) (page : Page) (n : ℕ)
        → read before ≡ ok page
        → has_seq n page.events ≡ true
        → has_seq n log ≡ true
    from_log none page n r h =
        let same : first_page ≡ page = ground (arith, r) in ground (arith, same)
    from_log (some before) page n r h =
        let same : second_page ≡ page = ground (arith, r) in ground (arith, same)

    served :
        (before : Option ℕ) (page : Page) (n : ℕ)
        → read before ≡ ok page
        → has_seq n log ≡ true
        → IsBelow before n
        → (has_seq n page.events ≡ true)
          ⊎ ((m : ℕ) × (page.has_more ≡ true) × (oldest page.events ≡ some m) × (n < m))
    served none page n r h below =
        let same : first_page ≡ page = ground (arith, r) in
        elim (Bool-cases (6 == n)) [
          | inl newest ↦ inl (ground (arith, same))
          | inr older ↦ inr (6, ground (arith, same), ground (arith, same), ground arith)
        ]
    served (some before) page n r h below =
        let same : second_page ≡ page = ground (arith, r) in
        let ends : before ≡ 6 = ground arith in inl (ground (arith, same))

two_pages : history_after read 2 3 ≡ ok log
unfolding history_after
two_pages = refl

one_page_only : history_after read 2 1 ≡ err HistoryError.too_many_pages
unfolding history_after
one_page_only = refl

history_after-IsWhole_example : IsWhole log read 2 serves log × IsAscending log
unfolding history_after
history_after-IsWhole_example = history_after-IsWhole log read 2 serves 3 log (omega arith) refl

abbrev snapshot : RunSnapshot
snapshot = record {
  run_id = "r";
  operation_id = none;
  idempotency_key = none;
  service_id = "s";
  session_id = "c";
  session_reused = false;
  parent_run_id = none;
  workspace = "/w";
  web_url = "u";
  status = RunStatus.running;
  model_selection = none;
  permission_preset = PermissionPreset.read_only;
  agent_preset = none;
  model_default_restore = ModelDefaultRestore.not_needed;
  warnings = [];
  task = "t";
  task_persisted = true;
  task_image_count = 0;
  task_scope = none;
  cancel_requested = false;
  started_at = iso 1;
  last_progress_at = none;
  finished_at = none;
  attention_reason = none;
  prompt_admission = PromptAdmission.pending;
  prompt_message_id = none;
  assistant_text = "";
  assistant_text_bytes = 0;
  assistant_text_truncated = false;
  last_event_seq = 2;
  error = none;
}

abbrev pub world : World
world = record {
  run = record {
    snapshot = snapshot;
    baseline_seq = 2;
    prompt_rpc_id = "p";
    events = [];
    last_observed_projection_seq = none;
  };
  active = ("s:c", "r") ∷ [];
  operations = [];
  permissions = record { leases = []; log = [] };
}

abbrev pub config : Config
config = record {
  max_assistant_text_bytes = 100;
  max_history_pages = 3;
  rpc_timeout = 10;
  run_stall = 50;
}

abbrev pub error_text : Failure String → String
error_text e = "error"

abbrev pub env : Env String
env = record {
  listed = ok (record { session_id = "c"; running = false; as_of_seq = none } ∷ []);
  read = read;
  persisted = ok tt;
  replies = record {
    previous = ok none;
    prepared = ok tt;
    accepted = ok true;
    confirmed = ok none;
    finished = ok tt;
    failed = ok tt;
    now = 9;
    fresh_id = "l";
  };
  has_pending = false;
  now = 9;
}

still_running : RunStatus.running ≢ RunStatus.succeeded
still_running e = absurd (cc)

refresh-Settles_example : Settles 9 snapshot (refresh config 60 error_text env world)
refresh-Settles_example = refresh-Settles config 60 error_text env world refl

-- The turn was completed, so the run has succeeded.
succeeds : (refresh config 60 error_text env world).1.run.snapshot.status ≡ RunStatus.succeeded
unfolding refresh listed_sessions refresh_session loaded by_prompt prompt_missing acknowledge_known
    acknowledge acknowledged read_owned ended settle finalize restored restore_session transition
    Journal.allowed history_after incremental_start_seq highest_seq user_rpc_id terminal_outcome
    final_assistant_interrupted final_assistant_text utf8_tail owned_events is_foreign last_turn_end
    record_progress restore_found active_for_session merge_events Map.get
succeeds = refl

refresh-succeeded_example : Evidence (refresh config 60 error_text env world).1
refresh-succeeded_example = refresh-succeeded config 60 error_text env world still_running succeeds

-- A prepared operation stops the refresh once its prompt is seen: the journal refuses to acknowledge it.
abbrev pub prepared : OperationRecord
prepared = record {
  operation_id = "o";
  client_principal_id = "a";
  idempotency_key = "k";
  request_fingerprint = "f";
  run_id = "r";
  kind = OperationKind.start;
  rpc_id = "p";
  fencing_epoch = 0;
  state = OperationState.prepared;
  message_id = none;
  error = none;
  created_at = iso 1;
  updated_at = iso 1;
}

abbrev with_prepared : World
with_prepared = record world {
  run = record world.run { snapshot = record snapshot { operation_id = some "o" } };
  operations = ("o", prepared) ∷ [];
}

stays_running :
    (refresh config 60 error_text env with_prepared).1.run.snapshot.status ≡ RunStatus.running
unfolding refresh listed_sessions refresh_session loaded by_prompt prompt_missing acknowledge_known
    acknowledge acknowledged read_owned ended settle finalize restored restore_session transition
    Journal.allowed history_after incremental_start_seq highest_seq user_rpc_id terminal_outcome
    final_assistant_interrupted final_assistant_text utf8_tail owned_events is_foreign last_turn_end
    record_progress restore_found active_for_session merge_events Map.get
stays_running = refl
