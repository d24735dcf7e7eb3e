-- ===== src/StateStore/Freshest.antt =====
-- src/state-store.ts: `freshestService`, `freshestRun`, `freshestOperation`, `freshestLease`, which
-- choose between two versions of one record.
use deepseek_harness_relay_m.Base.{
  ℕ, Bool, true, false, Option, none, some, List, [], ◌∷◌, ltb, leb, if◌then◌else◌,
}
use deepseek_harness_relay_m.Base.Stamp.{
  Stamp, timestamp, difference, instant_difference, instant_ge, prefer,
}
use deepseek_harness_relay_m.Types.{
  RunStatus, ServiceStatus, ServiceSnapshot, PersistedRun, OperationState, OperationRecord,
  LeaseState, PermissionLease,
}

-- `stableRunStatuses.has`
abbrev pub is_stable : RunStatus → Bool
is_stable RunStatus.running = false
is_stable RunStatus.unknown = false
is_stable _ = true

abbrev pub run_status_rank : RunStatus → ℕ
run_status_rank RunStatus.succeeded = 7
run_status_rank RunStatus.incomplete = 6
run_status_rank RunStatus.failed = 5
run_status_rank RunStatus.cancelled = 4
run_status_rank RunStatus.needs_attention = 3
run_status_rank RunStatus.running = 2
run_status_rank RunStatus.unknown = 1

abbrev pub service_rank : ServiceStatus → ℕ
service_rank ServiceStatus.running = 1
service_rank ServiceStatus.stopped = 2
service_rank ServiceStatus.failed = 3

abbrev pub operation_rank : OperationState → ℕ
operation_rank OperationState.prepared = 1
operation_rank OperationState.submitted = 2
operation_rank OperationState.unknown = 3
operation_rank OperationState.failed = 4
operation_rank OperationState.acknowledged = 5
operation_rank OperationState.reconciled = 6

abbrev pub lease_rank : LeaseState → ℕ
lease_rank LeaseState.prepared = 1
lease_rank LeaseState.acquired = 2
lease_rank LeaseState.restoring = 3
lease_rank LeaseState.needs_attention = 4
lease_rank LeaseState.released = 5

-- `service.stoppedAt ?? service.attachedAt`
abbrev pub last_change : ServiceSnapshot → Option Stamp
last_change s = elim s.stopped_at [ none ↦ some s.attached_at | some t ↦ some t ]

unfoldable pub freshest_service : ServiceSnapshot → ServiceSnapshot → ServiceSnapshot
freshest_service left right =
    prefer (difference (service_rank left.status) (service_rank right.status)) left right (
      if instant_ge (timestamp (last_change left)) (timestamp (last_change right))
      then left
      else right)

-- `left >= right` on texts, by UTF-16 code units.
unfoldable pub text_ge : List ℕ → List ℕ → Bool
text_ge xs [] = true
text_ge [] (y ∷ ys) = false
text_ge (x ∷ xs) (y ∷ ys) = if ltb y x then true else if ltb x y then false else text_ge xs ys

module _ (to_json : PersistedRun → List ℕ) where
  -- The part of `freshestRun` below the test of `finishedComparison`.
  unfoldable pub freshest_finished : PersistedRun → PersistedRun → PersistedRun
  freshest_finished left right =
      prefer (difference left.snapshot.assistant_text_bytes right.snapshot.assistant_text_bytes)
        left right
        (prefer
          (difference (run_status_rank left.snapshot.status)
            (run_status_rank right.snapshot.status))
          left right (if text_ge (to_json left) (to_json right) then left else right))

  -- The part of `freshestRun` below the test on `leftTerminal !== rightTerminal`.
  unfoldable pub freshest_progress : PersistedRun → PersistedRun → PersistedRun
  freshest_progress left right =
      prefer (difference left.snapshot.last_event_seq right.snapshot.last_event_seq) left right (
        prefer
          (instant_difference (timestamp left.snapshot.finished_at)
            (timestamp right.snapshot.finished_at))
          left right (freshest_finished left right))

  unfoldable pub freshest_run : PersistedRun → PersistedRun → PersistedRun
  freshest_run left right =
      if is_stable left.snapshot.status
      then (if is_stable right.snapshot.status then freshest_progress left right else left)
      else (if is_stable right.snapshot.status then right else freshest_progress left right)

unfoldable pub freshest_operation : OperationRecord → OperationRecord → OperationRecord
freshest_operation left right =
    prefer
      (instant_difference (timestamp (some left.updated_at)) (timestamp (some right.updated_at)))
      left right
      (if leb (operation_rank right.state) (operation_rank left.state) then left else right)

unfoldable pub freshest_lease : PermissionLease → PermissionLease → PermissionLease
freshest_lease left right =
    prefer
      (instant_difference (timestamp (some left.updated_at)) (timestamp (some right.updated_at)))
      left right (if leb (lease_rank right.state) (lease_rank left.state) then left else right)
