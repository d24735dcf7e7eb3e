-- ===== src/StateStore/Saves.antt =====
-- What `save` of src/state-store.ts leaves in the file, on every branch: success, a lock that times
-- out, a write that fails before or after its rename, a state that does not validate.
use deepseek_harness_relay_m.Base.{String, Option, none, some}
use deepseek_harness_relay_m.Base.Result.{Result}
use deepseek_harness_relay_m.Types.{PersistedRun, OperationRecord, PermissionLease}
use deepseek_harness_relay_m.StateStore.{Stored, schema_v3}
use deepseek_harness_relay_m.StateStore.Merge.{run_key}
use deepseek_harness_relay_m.StateStore.Retention.{held}

abbrev pub operation_key : OperationRecord → String
operation_key o = o.operation_id

abbrev pub lease_key : PermissionLease → String
lease_key l = l.lease_id

-- The record that a v3 file has under an identifier.
abbrev pub run_in : String → Option Stored → Option PersistedRun
run_in id (some (schema_v3 s)) = held run_key s.body.runs id
run_in id _ = none

abbrev pub operation_in : String → Option Stored → Option OperationRecord
operation_in id (some (schema_v3 s)) = held operation_key s.body.operations id
operation_in id _ = none

abbrev pub lease_in : String → Option Stored → Option PermissionLease
lease_in id (some (schema_v3 s)) = held lease_key s.body.permission_leases id
lease_in id _ = none
