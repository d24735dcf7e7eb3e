-- ===== src/Broker/Journal/Tests.antt =====
-- Runs of src/relay-broker/operation-journal.ts on one operation.
use deepseek_harness_relay_m.Base.{◌≤◌, String, ◌≡◌, refl, true, false, none, some, List, [], ◌∷◌}
use deepseek_harness_relay_m.Base.Map
use deepseek_harness_relay_m.Base.Result.{Result, ok, err}
use deepseek_harness_relay_m.Base.Stamp.{iso}
use deepseek_harness_relay_m.Types.{OperationKind, OperationState, OperationRecord}
use deepseek_harness_relay_m.Broker.Journal.{
  Journal, Request, Claimed, PreparedOperation, key, no_update,
}
use deepseek_harness_relay_m.Broker.Journal.Lifecycle.{
  Call, transitions, correlates, rank, run, changes, lifecycle_bounded, run-final,
}

abbrev request : String → String → Request
request id fingerprint = record {
  principal = "client";
  kind = OperationKind.start;
  run_id = "r1";
  fingerprint = fingerprint;
  idempotency_key = some "k";
  fresh_key = "unused";
  fresh_id = id;
  fresh_rpc = "p";
  now = iso 1;
}

abbrev operation : OperationState → OperationRecord
operation s = record {
  operation_id = "o1";
  client_principal_id = "client";
  idempotency_key = "k";
  request_fingerprint = "f";
  run_id = "r1";
  kind = OperationKind.start;
  rpc_id = "p";
  fencing_epoch = 0;
  state = s;
  message_id = none;
  error = none;
  created_at = iso 1;
  updated_at = iso 1;
}

abbrev calls : List (Call String)
calls =
    transitions OperationState.submitted no_update (iso 2) (ok tt)
    ∷ correlates "p2" (iso 3) (err "disk")
    ∷ transitions OperationState.acknowledged no_update (iso 4) (ok tt)
    ∷ transitions OperationState.prepared no_update (iso 5) (ok tt)
    ∷ []

lifecycle_bounded_example :
    (changes (operation OperationState.prepared) calls ≤ 4)
    × (rank OperationState.prepared ≤ rank (run (operation OperationState.prepared) calls).state)
lifecycle_bounded_example = lifecycle_bounded (operation OperationState.prepared) calls

run-final_example : run (operation OperationState.failed) calls ≡ operation OperationState.failed
run-final_example = run-final calls (operation OperationState.failed) refl

abbrev empty : Journal
empty = record { records = []; by_idempotency = [] }

abbrev one_operation : Journal
one_operation = record {
  records = ("o1", operation OperationState.prepared) ∷ [];
  by_idempotency = (key "client" "k", "o1") ∷ [];
}

abbrev created : OperationRecord → Result String Claimed
created r = ok (record { canonical = r; created = true })

abbrev unavailable : OperationRecord → Result String Claimed
unavailable r = err "no disk"

abbrev first_result : PreparedOperation
first_result = record { operation = operation OperationState.prepared; replayed = false }

abbrev principal : String
principal = "client"
