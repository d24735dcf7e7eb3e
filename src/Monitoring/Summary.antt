-- ===== src/Monitoring/Summary.antt =====
-- src/monitoring/monitoring-facade.ts: the summary of a run for its client, and the capabilities.
use deepseek_harness_relay_m.Base.{
  ℕ, ◌-◌, String, ◌≡◌, ◌↔◌, Bool, true, false, ◌&&◌, Option, none, some, arith, or_else,
}
use deepseek_harness_relay_m.Base.Stamp.{Stamp, date_parse}
use deepseek_harness_relay_m.Types.{RunStatus, RunSnapshot, ModelSelection, PermissionPreset}

pub data Reason : Type 0 where
  await_answer confirm_permission host_disconnected restore_failed stalled : Reason

pub data Action : Type 0 where
  wait reply respond_interaction cancel open_session nothing : Action

pub record RunAttention : Type 0 where
  pub reason : Reason
  pub detail : Option String
  pub requested_input : Option String

pub record RunProgress : Type 0 where
  pub completed : Option ℕ
  pub total : Option ℕ
  pub message : Option String

pub record RunUsage : Type 0 where
  pub input_tokens : Option ℕ
  pub output_tokens : Option ℕ
  pub estimated_cost : Option ℕ

pub record MonitoringProjection : Type 0 where
  pub attention : Option RunAttention
  pub progress : Option RunProgress
  pub usage : Option RunUsage
  pub updated_at : Option Stamp

pub record RunSummary : Type 0 where
  pub run_id : String
  pub status : RunStatus
  pub attention : Option RunAttention
  pub model : Option ModelSelection
  pub permission_mode : PermissionPreset
  pub started_at : Stamp
  pub updated_at : Stamp
  pub finished_at : Option Stamp
  pub elapsed_ms : Option ℕ
  pub progress : Option RunProgress
  pub usage : Option RunUsage
  pub next_action : Action

pub action_for_attention : Option RunAttention → Action
action_for_attention none = reply
action_for_attention (some a) = elim a.reason [
  | restore_failed ↦ open_session
  | stalled ↦ open_session
  | host_disconnected ↦ wait
  | await_answer ↦ respond_interaction
  | confirm_permission ↦ respond_interaction
]

abbrev waiting_action : Option RunAttention → Action
waiting_action none = wait
waiting_action (some a) = action_for_attention (some a)

pub resolve_next_action : RunStatus → Option RunAttention → Action
unfolding action_for_attention
resolve_next_action RunStatus.needs_attention attention = action_for_attention attention
resolve_next_action RunStatus.incomplete attention = reply
resolve_next_action RunStatus.running attention = waiting_action attention
resolve_next_action RunStatus.unknown attention = waiting_action attention
resolve_next_action _ attention = nothing

-- `Math.max(0, ended - started)`
abbrev elapsed_between : Option ℕ → Option ℕ → Option ℕ
elapsed_between (some started) (some ended) = some (ended - started)
elapsed_between _ _ = none

pub calculate_elapsed_ms : Stamp → Stamp → Option ℕ
calculate_elapsed_ms started_at ended_at =
    elapsed_between (date_parse started_at) (date_parse ended_at)

pub project : RunSnapshot → MonitoringProjection → RunSummary
unfolding resolve_next_action calculate_elapsed_ms
project s p =
    let updated_at =
      or_else p.updated_at (or_else s.finished_at (or_else s.last_progress_at s.started_at)) in
    record {
      run_id = s.run_id;
      status = s.status;
      attention = p.attention;
      model = s.model_selection;
      permission_mode = s.permission_preset;
      started_at = s.started_at;
      updated_at = updated_at;
      finished_at = s.finished_at;
      elapsed_ms = calculate_elapsed_ms s.started_at (or_else s.finished_at updated_at);
      progress = p.progress;
      usage = p.usage;
      next_action = resolve_next_action s.status p.attention;
    }

-- A client's request for `notifications` and `progress`, and the enabled features that depend on it.
pub record Capabilities : Type 0 where
  pub notifications : Bool
  pub cursor_replay : Bool
  pub progress : Bool

pub get_capabilities : Bool → Bool → Capabilities
get_capabilities notifications progress = record {
  notifications = notifications;
  cursor_replay = notifications;
  progress = notifications && progress;
}

-- A run that has ended, and is not to be continued.
abbrev pub is_over : RunStatus → Bool
is_over RunStatus.succeeded = true
is_over RunStatus.failed = true
is_over RunStatus.cancelled = true
is_over _ = false

-- The summary of a run asks its client for no further action exactly if the run has succeeded, failed
-- or been cancelled, whatever attention is noted for it.
pub project-nothing :
    (s : RunSnapshot) (p : MonitoringProjection)
    → ((project s p).next_action ≡ nothing) ↔ (is_over s.status ≡ true)
unfolding project resolve_next_action action_for_attention
project-nothing s p = next_action-nothing s.status p.attention
  where
    next_action-nothing :
        (status : RunStatus) (attention : Option RunAttention)
        → (resolve_next_action status attention ≡ nothing) ↔ (is_over status ≡ true)
    next_action-nothing status attention = ground arith
