-- ===== src/StateStore/Tests.antt =====
-- Runs of src/state-store.ts on small states: a file with one finished run, one operation and one
-- lease.
use deepseek_harness_relay_m.Base.{
  ℕ, String, ◌≡◌, refl, true, false, Option, none, some, List, [], ◌∷◌, arith,
}
use deepseek_harness_relay_m.Base.Map
use deepseek_harness_relay_m.Base.Stamp.{Stamp, iso}
use deepseek_harness_relay_m.Types.{
  AuthorityMode, embedded, StateAuthority, v2, PermissionPreset, RunStatus, PromptAdmission,
  ModelDefaultRestore, RunSnapshot, PersistedRun, OperationKind, OperationState, OperationRecord,
  LeaseState, PermissionLease, StateBody, PersistedRelayState,
}
use deepseek_harness_relay_m.StateStore.{
  Stored, schema_v2, schema_v3, Config, Disk, Io, Claim, written, promoted_then_failed,
  migrate_from, migration_marker, empty_v3_state,
}
use deepseek_harness_relay_m.StateStore.Freshest.{freshest_run}
use deepseek_harness_relay_m.StateStore.Order.{freshest_run_unfinished}
use deepseek_harness_relay_m.StateStore.Fence.{source_body, source_version, migrate_from-carries}
use deepseek_harness_relay_m.StateStore.Convergence.{freshest_run_comm}

abbrev snapshot : RunStatus → Option Stamp → ℕ → RunSnapshot
snapshot status finished bytes = record {
  run_id = "r1";
  operation_id = none;
  idempotency_key = none;
  service_id = "s1";
  session_id = "c1";
  session_reused = false;
  parent_run_id = none;
  workspace = "/w";
  web_url = "http://localhost";
  status = status;
  model_selection = none;
  permission_preset = PermissionPreset.read_only;
  agent_preset = none;
  model_default_restore = ModelDefaultRestore.not_needed;
  warnings = [];
  task = "t";
  task_persisted = false;
  task_image_count = 0;
  task_scope = none;
  cancel_requested = false;
  started_at = iso 1;
  last_progress_at = none;
  finished_at = finished;
  attention_reason = none;
  prompt_admission = PromptAdmission.accepted;
  prompt_message_id = none;
  assistant_text = "";
  assistant_text_bytes = bytes;
  assistant_text_truncated = false;
  last_event_seq = 7;
  error = none;
}

abbrev persisted : RunStatus → Option Stamp → ℕ → PersistedRun
persisted status finished bytes = record {
  snapshot = snapshot status finished bytes;
  baseline_seq = 0;
  prompt_rpc_id = "p1";
}

abbrev finished : PersistedRun
finished = persisted RunStatus.succeeded (some (iso 5)) 10

abbrev stale : PersistedRun
stale = persisted RunStatus.running none 3

abbrev operation : String → OperationRecord
operation id = record {
  operation_id = id;
  client_principal_id = "client";
  idempotency_key = "k";
  request_fingerprint = "f";
  run_id = "r1";
  kind = OperationKind.start;
  rpc_id = "p1";
  fencing_epoch = 0;
  state = OperationState.acknowledged;
  message_id = none;
  error = none;
  created_at = iso 1;
  updated_at = iso 4;
}

abbrev lease : PermissionLease
lease = record {
  lease_id = "l1";
  session_id = "c1";
  owner_operation_id = "o1";
  previous_permission = PermissionPreset.read_only;
  granted_permission = PermissionPreset.workspace_write;
  expires_at = iso 100;
  state = LeaseState.acquired;
  error = none;
  created_at = iso 1;
  updated_at = iso 4;
}

abbrev authority : AuthorityMode → StateAuthority
authority mode = record { authority_id = "a"; mode = mode; host_identity = "h"; instance_id = "i" }

abbrev config : Config
config = record { path = "/state"; authority = authority embedded }

abbrev full_body : StateBody
full_body = record {
  services = [];
  runs = finished ∷ [];
  operations = operation "o1" ∷ [];
  permission_leases = lease ∷ [];
}

abbrev stale_body : StateBody
stale_body = record { services = []; runs = stale ∷ []; operations = []; permission_leases = [] }

abbrev state : AuthorityMode → PersistedRelayState
state mode = record { authority = authority mode; migration = none; body = full_body }

abbrev disk : AuthorityMode → Disk
disk mode = record { file = some (schema_v3 (state mode)); quarantined = [] }

abbrev no_file : Disk
no_file = record { file = none; quarantined = [] }

abbrev io : Io
io = record { locked = true; write = written; now = 9 }

abbrev broken_io : Io
broken_io = record { locked = true; write = promoted_then_failed; now = 9 }

abbrev to_json : PersistedRun → List ℕ
to_json r = r.snapshot.assistant_text_bytes ∷ []

abbrev digest : Stored → String
digest s = "sha"

abbrev claimed_disk : Disk
claimed_disk = record {
  file = some (schema_v3 (empty_v3_state (config.authority) (operation "o1" ∷ [])));
  quarantined = [];
}

abbrev first_claim : Claim
first_claim = record { claimed = operation "o1"; created = true }

abbrev other_claims : List (Io × OperationRecord)
other_claims =
    (broken_io, record (operation "o3") { idempotency_key = "other" }) ∷ (io, operation "o4") ∷ []

abbrev migrated : PersistedRelayState
migrated = record {
  authority = authority embedded;
  migration = some (migration_marker v2 "/old" "sha" (iso 9));
  body = full_body;
}

abbrev migrated_disk : Disk
migrated_disk = record { file = some (schema_v3 migrated); quarantined = [] }

migrate_from-carries_example :
    (no_file.file ≡ none)
    × (migrated_disk ≡ record no_file { file = some (schema_v3 migrated) })
    × (source_body (schema_v2 full_body) ≡ some migrated.body)
    × (migrated.authority ≡ config.authority)
    × (migrated.migration
        ≡ some (
            migration_marker
              (source_version (schema_v2 full_body))
              "/old"
              (digest (schema_v2 full_body))
              (iso io.now)))
unfolding migrate_from
migrate_from-carries_example =
    migrate_from-carries to_json digest config io no_file migrated_disk "/old" (schema_v2 full_body)
      migrated refl

abbrev longer : PersistedRun
longer = persisted RunStatus.failed (some (iso 5)) 12

lengths_differ : to_json finished ≡ to_json longer → finished ≡ longer
lengths_differ e = absurd (ground arith)

freshest_run_comm_example :
    freshest_run to_json finished longer ≡ freshest_run to_json longer finished
freshest_run_comm_example = freshest_run_comm to_json finished longer lengths_differ 5 5 refl refl

abbrev short_pending : PersistedRun
short_pending = persisted RunStatus.unknown none 0

freshest_run_unfinished_example : freshest_run to_json stale short_pending ≡ short_pending
freshest_run_unfinished_example =
    freshest_run_unfinished to_json stale short_pending refl refl refl refl
