-- ===== src/Broker/Journal/Lifecycle.antt =====
-- The life of an operation under `transition` and `correlateRpcId` of
-- src/relay-broker/operation-journal.ts, whatever is called in whatever order.
use deepseek_harness_relay_m.Base.{
  ℕ, ◌+◌, ◌≤◌, ◌<◌, String, ◌≡◌, refl, ◌∙◌, Bool, true, false, List, [], ◌∷◌, arith, string_eq,
  if◌then◌else◌,
}
use deepseek_harness_relay_m.Base.Stamp.{Stamp}
use deepseek_harness_relay_m.Base.Result.{Result}
use deepseek_harness_relay_m.Types.{OperationState, OperationRecord}
use deepseek_harness_relay_m.Broker.Journal.{
  Update, allowed, transition, correlate_rpc_id, acknowledged_or_final,
}

-- How far an operation has come.
abbrev pub rank : OperationState → ℕ
rank OperationState.prepared = 0
rank OperationState.submitted = 1
rank OperationState.unknown = 2
rank OperationState.acknowledged = 3
rank OperationState.reconciled = 4
rank OperationState.failed = 4

abbrev pub is_final : OperationState → Bool
is_final OperationState.reconciled = true
is_final OperationState.failed = true
is_final _ = false

allowed-rank : (a b : OperationState) → allowed a b ≡ true → rank a < rank b
unfolding allowed
allowed-rank OperationState.prepared b h = ground arith
allowed-rank _ b h = ground arith

rank-le-four : (a : OperationState) → rank a ≤ 4
rank-le-four a = ground arith

final-not-allowed : (a b : OperationState) → is_final a ≡ true → allowed a b ≡ false
unfolding allowed
final-not-allowed OperationState.prepared b h = ground arith
final-not-allowed _ b h = ground arith

-- A call on one operation, with the outcome of its `persist`.
pub data Call {ℓ} (E : Type ℓ) : Type ℓ where
  transitions : OperationState → Update → Stamp → Result E (Unit {0}) → Call E
  correlates : String → Stamp → Result E (Unit {0}) → Call E

module _ {ℓ} {E : Type ℓ} where
  unfoldable pub step : OperationRecord → Call E → OperationRecord
  step r (transitions state update now persisted) = (transition r state update now persisted).1
  step r (correlates rpc_id now persisted) = (correlate_rpc_id r rpc_id now persisted).1

  unfoldable pub run : OperationRecord → List (Call E) → OperationRecord
  run r [] = r
  run r (c ∷ cs) = run (step r c) cs

  abbrev pub changes_by : OperationRecord → Call E → ℕ
  changes_by r (transitions state update now persisted) = if allowed r.state state then 1 else 0
  changes_by r (correlates rpc_id now persisted) = 0

  -- The number of calls that changed the state.
  unfoldable pub changes : OperationRecord → List (Call E) → ℕ
  changes r [] = 0
  changes r (c ∷ cs) = changes_by r c + changes (step r c) cs

  step-rank :
      (r : OperationRecord) (c : Call E) → rank r.state + changes_by r c ≤ rank (step r c).state
  unfolding step transition correlate_rpc_id
  step-rank r (transitions state update now persisted) = ground (arith, allowed-rank r.state state)
  step-rank r (correlates rpc_id now persisted) = ground arith

  run-rank :
      (calls : List (Call E)) (r : OperationRecord)
      → rank r.state + changes r calls ≤ rank (run r calls).state
  unfolding run changes
  run-rank [] r = omega arith
  run-rank (c ∷ cs) r = omega (arith, step-rank r c, run-rank cs (step r c))

  -- Whatever calls are made on an operation, in whatever order and whether they succeed or throw,
  -- its state changes at most four times, and its rank never falls.
  pub lifecycle_bounded :
      (r : OperationRecord) (calls : List (Call E))
      → (changes r calls ≤ 4) × (rank r.state ≤ rank (run r calls).state)
  lifecycle_bounded r calls = (
    omega (arith, run-rank calls r, rank-le-four (run r calls).state),
    omega (arith, run-rank calls r),
  )

  step-final : (c : Call E) (r : OperationRecord) → is_final r.state ≡ true → step r c ≡ r
  unfolding step transition correlate_rpc_id
  step-final (transitions state update now persisted) r h =
      ground (arith, final-not-allowed r.state state h)
  step-final (correlates rpc_id now persisted) r h = ground arith

  -- No sequence of calls changes anything of an operation that is reconciled or failed.
  pub run-final :
      (calls : List (Call E)) (r : OperationRecord) → is_final r.state ≡ true → run r calls ≡ r
  unfolding run
  run-final [] r h = refl
  run-final (c ∷ cs) r h = rw (step-final c r h) (run-final cs r h)

  step-acknowledged :
      (c : Call E) (r : OperationRecord)
      → acknowledged_or_final r.state ≡ true
      → (acknowledged_or_final (step r c).state ≡ true) × ((step r c).rpc_id ≡ r.rpc_id)
  unfolding step transition correlate_rpc_id allowed
  step-acknowledged (transitions state update now persisted) r h = ground arith
  step-acknowledged (correlates rpc_id now persisted) r h = ground arith

  -- From acknowledgement on no sequence of calls changes the rpc id by which the operation is found
  -- in the Host's history.
  pub run-acknowledged :
      (calls : List (Call E)) (r : OperationRecord)
      → acknowledged_or_final r.state ≡ true
      → (run r calls).rpc_id ≡ r.rpc_id
  unfolding run
  run-acknowledged [] r h = refl
  run-acknowledged (c ∷ cs) r h =
      let (kept, same) = step-acknowledged c r h in run-acknowledged cs (step r c) kept ∙ same
