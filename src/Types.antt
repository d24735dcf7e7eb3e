-- ===== src/Types.antt =====
-- src/types.ts: the records that the relay keeps, persists and returns. Identifiers and texts are
-- strings, times are `Stamp`s. Sequence numbers of Host events are integers from -1 on, where -1
-- stands before the first event: the model stores s + 1, so that -1 is 0.
use deepseek_harness_relay_m.Base.{ℕ, String, Bool, true, false, Option, List}
use deepseek_harness_relay_m.Base.Stamp.{Stamp}
use deepseek_harness_relay_m.Types.Json.{Fields}
pub mod Json

pub data MediaType : Type 0 where
  png jpeg webp gif : MediaType

pub data PromptPart : Type 0 where
  text : String → PromptPart
  image : MediaType → String → Option String → PromptPart

pub record ModelSelection : Type 0 where
  pub provider : String
  pub model : String
  pub reasoning_effort : Option String

pub data RunStatus : Type 0 where
  running needs_attention succeeded incomplete failed cancelled unknown : RunStatus

pub data PromptAdmission : Type 0 where
  pending accepted unknown rejected : PromptAdmission

pub data ServiceStatus : Type 0 where
  running stopped failed : ServiceStatus

pub data PermissionPreset : Type 0 where
  read_only workspace_write danger_full_access : PermissionPreset

pub data AuthorityMode : Type 0 where
  embedded standalone : AuthorityMode

-- `enforcement` has one value, and is left out.
pub record TaskScopeDeclaration : Type 0 where
  pub review_targets : List String
  pub context_read_scope : List String
  pub excluded_paths : List String
  pub write_scope : List String

pub data LegacyVersion : Type 0 where
  v1 v2 : LegacyVersion

pub record StateMigrationMarker : Type 0 where
  pub source_schema_version : LegacyVersion
  pub source_path : String
  pub source_digest : String
  pub copied_at : Stamp

-- `Omit<StateAuthorityMetadata, 'migration'>`
pub record StateAuthority : Type 0 where
  pub authority_id : String
  pub mode : AuthorityMode
  pub host_identity : String
  pub instance_id : String

-- `managedProcess` and `processId` have one value each, and are left out.
pub record ServiceSnapshot : Type 0 where
  pub service_id : String
  pub workspace_id : String
  pub workspace : String
  pub status : ServiceStatus
  pub web_url : String
  pub browser_opened : Bool
  pub browser_error : Option String
  pub attached_at : Stamp
  pub stopped_at : Option Stamp

pub data ModelDefaultRestore : Type 0 where
  restored not_needed skipped_concurrent_change unavailable : ModelDefaultRestore

pub data AttentionReason : Type 0 where
  run_stalled permission_restore_failed permission_confirm await_user_answer : AttentionReason

-- `pendingInteractions` is projected at read time and never stored: it is left out here.
pub record RunSnapshot : Type 0 where
  pub run_id : String
  pub operation_id : Option String
  pub idempotency_key : Option String
  pub service_id : String
  pub session_id : String
  pub session_reused : Bool
  pub parent_run_id : Option String
  pub workspace : String
  pub web_url : String
  pub status : RunStatus
  pub model_selection : Option ModelSelection
  pub permission_preset : PermissionPreset
  pub agent_preset : Option String
  pub model_default_restore : ModelDefaultRestore
  pub warnings : List String
  pub task : String
  pub task_persisted : Bool
  pub task_image_count : ℕ
  pub task_scope : Option TaskScopeDeclaration
  pub cancel_requested : Bool
  pub started_at : Stamp
  pub last_progress_at : Option Stamp
  pub finished_at : Option Stamp
  pub attention_reason : Option AttentionReason
  pub prompt_admission : PromptAdmission
  pub prompt_message_id : Option String
  pub assistant_text : String
  pub assistant_text_bytes : ℕ
  pub assistant_text_truncated : Bool
  pub last_event_seq : ℕ
  pub error : Option String

pub record PersistedRun : Type 0 where
  pub snapshot : RunSnapshot
  pub baseline_seq : ℕ
  pub prompt_rpc_id : String

pub data OperationKind : Type 0 where
  start steer reply cancel : OperationKind

pub data OperationState : Type 0 where
  prepared submitted acknowledged unknown reconciled failed : OperationState

pub record OperationRecord : Type 0 where
  pub operation_id : String
  pub client_principal_id : String
  pub idempotency_key : String
  pub request_fingerprint : String
  pub run_id : String
  pub kind : OperationKind
  pub rpc_id : String
  pub fencing_epoch : ℕ
  pub state : OperationState
  pub message_id : Option String
  pub error : Option String
  pub created_at : Stamp
  pub updated_at : Stamp

pub data LeaseState : Type 0 where
  prepared acquired restoring released needs_attention : LeaseState

pub record PermissionLease : Type 0 where
  pub lease_id : String
  pub session_id : String
  pub owner_operation_id : String
  pub previous_permission : PermissionPreset
  pub granted_permission : PermissionPreset
  pub expires_at : Stamp
  pub state : LeaseState
  pub error : Option String
  pub created_at : Stamp
  pub updated_at : Stamp

-- `PersistedRelayStateV3`, and the body that `PersistedRelayStateV2` has too.
pub record StateBody : Type 0 where
  pub services : List ServiceSnapshot
  pub runs : List PersistedRun
  pub operations : List OperationRecord
  pub permission_leases : List PermissionLease

pub record PersistedRelayState : Type 0 where
  pub authority : StateAuthority
  pub migration : Option StateMigrationMarker
  pub body : StateBody

pub record RpcEvent : Type 0 where
  pub type : String
  pub seq : ℕ
  pub time : ℕ
  pub payload : Fields

pub record ModelSelectionResult : Type 0 where
  pub selected : ModelSelection
  pub restore : ModelDefaultRestore
  pub warnings : List String
