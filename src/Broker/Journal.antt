-- ===== src/Broker/Journal.antt =====
-- src/relay-broker/operation-journal.ts: operations by id, the index by principal and idempotency
-- key, and the life of an operation. A record that the code mutates is returned anew; `persist` and
-- `claim` are calls of the state store, whose outcomes are arguments.
pub mod Lifecycle
pub mod Idempotency
pub mod Keys
mod Tests
use Prim.Native.String
use deepseek_harness_relay_m.Base.{
  ℕ, String, Bool, true, false, ◌&&◌, ◌||◌, not, Option, none, some, List, [], ◌∷◌, ◌==◌, string_eq,
  if◌then◌else◌, or_else,
}
use deepseek_harness_relay_m.Base.Map
use deepseek_harness_relay_m.Base.Map.{Map}
use deepseek_harness_relay_m.Base.Stamp.{Stamp}
use deepseek_harness_relay_m.Base.Result.{Result, ok, err, ◌>>=◌}
use deepseek_harness_relay_m.Types.{OperationKind, OperationState, OperationRecord}
use deepseek_harness_relay_m.Broker.Errors.{RelayError, NextAction}

pub record Journal : Type 0 where
  pub records : Map String OperationRecord
  pub by_idempotency : Map String String

pub record PreparedOperation : Type 0 where
  pub operation : OperationRecord
  pub replayed : Bool

-- `${clientPrincipalId}\u0000${idempotencyKey}`
pub key : String → String → String
key principal idempotency_key = String.◌++◌ principal (String.◌++◌ "\0" idempotency_key)

abbrev pub state_text : OperationState → String
state_text OperationState.prepared = "prepared"
state_text OperationState.submitted = "submitted"
state_text OperationState.acknowledged = "acknowledged"
state_text OperationState.unknown = "unknown"
state_text OperationState.reconciled = "reconciled"
state_text OperationState.failed = "failed"

abbrev pub same_kind : OperationKind → OperationKind → Bool
same_kind OperationKind.start OperationKind.start = true
same_kind OperationKind.steer OperationKind.steer = true
same_kind OperationKind.reply OperationKind.reply = true
same_kind OperationKind.cancel OperationKind.cancel = true
same_kind _ _ = false

-- An error that names the operation.
abbrev pub operation_error : String → String → OperationRecord → NextAction → RelayError
operation_error code message r next = record {
  code = code;
  message = message;
  retryable = false;
  operation_id = some r.operation_id;
  run_id = some r.run_id;
  last_known_state = some (state_text r.state);
  next_action = some next;
}

pub conflict : OperationRecord → RelayError
conflict r =
    operation_error "OPERATION_CONFLICT"
      "The idempotency key was already used for a different operation" r NextAction.status

-- `unknown(record, message)`
pub unknown_outcome : OperationRecord → String → RelayError
unknown_outcome r message = operation_error "OPERATION_UNKNOWN" message r NextAction.reconcile

restore_from : Map String String → Map String OperationRecord → Map String String
restore_from index [] = index
restore_from index ((id, r) ∷ rest) =
    restore_from (Map.set index (key r.client_principal_id r.idempotency_key) r.operation_id) rest

unfoldable pub restore_index : Journal → Journal
unfolding restore_from
restore_index j = record j { by_idempotency = restore_from [] j.records }

unfoldable pub list : Journal → List OperationRecord
list j = Map.values j.records

-- What the caller of `prepare` asks for. `fresh_key`, `fresh_id` and `fresh_rpc` are the results of
-- `randomUUID`; `fingerprint` is `requestFingerprint(request)`.
pub record Request : Type 0 where
  pub principal : String
  pub kind : OperationKind
  pub run_id : String
  pub fingerprint : String
  pub idempotency_key : Option String
  pub fresh_key : String
  pub fresh_id : String
  pub fresh_rpc : String
  pub now : Stamp

abbrev pub key_of : Request → String
key_of q = or_else q.idempotency_key q.fresh_key

-- `!(record.kind !== kind || record.requestFingerprint !== fingerprint)`
abbrev pub fits : Request → OperationRecord → Bool
fits q r = same_kind r.kind q.kind && r.request_fingerprint == q.fingerprint

pub previous : Journal → Request → Option OperationRecord
previous j q = elim (Map.get j.by_idempotency (key q.principal (key_of q))) [
  | none ↦ none
  | some id ↦ Map.get j.records id
]

pub candidate : Request → OperationRecord
candidate q = record {
  operation_id = q.fresh_id;
  client_principal_id = q.principal;
  idempotency_key = key_of q;
  request_fingerprint = q.fingerprint;
  run_id = q.run_id;
  kind = q.kind;
  rpc_id = q.fresh_rpc;
  fencing_epoch = 0;
  state = OperationState.prepared;
  message_id = none;
  error = none;
  created_at = q.now;
  updated_at = q.now;
}

-- What `claimOperation` returns.
pub record Claimed : Type 0 where
  pub canonical : OperationRecord
  pub created : Bool

pub data Failure {ℓ} (E : Type ℓ) : Type ℓ where
  relay : RelayError → Failure E
  thrown : E → Failure E

module _ {ℓ} {E : Type ℓ} where
  -- `records.set`, `byIdempotency.set` and the return, unless the canonical operation is another.
  settle : Journal → Request → Claimed → Result (Failure E) PreparedOperation × Journal
  unfolding conflict key
  settle j q c =
      if fits q c.canonical
      then (
        ok (record { operation = c.canonical; replayed = not c.created }),
        record {
          records = Map.set j.records c.canonical.operation_id c.canonical;
          by_idempotency =
              Map.set j.by_idempotency (key q.principal (key_of q)) c.canonical.operation_id;
        },
      )
      else (err (relay (conflict c.canonical)), j)

  after_claim :
      Journal → Request → Result E Claimed → Result (Failure E) PreparedOperation × Journal
  unfolding settle
  after_claim j q (err e) = (err (thrown e), j)
  after_claim j q (ok c) = settle j q c

  replay_or_claim :
      Journal
      → Request
      → (OperationRecord → Result E Claimed)
      → Option OperationRecord
      → Result (Failure E) PreparedOperation × Journal
  unfolding after_claim candidate
  replay_or_claim j q claim none = after_claim j q (claim (candidate q))
  replay_or_claim j q claim (some r) =
      if fits q r
      then (ok (record { operation = r; replayed = true }), j)
      else (err (relay (conflict r)), j)

  pub prepare :
      Journal
      → Request
      → (OperationRecord → Result E Claimed)
      → Result (Failure E) PreparedOperation × Journal
  unfolding replay_or_claim
  prepare j q claim = replay_or_claim j q claim (previous j q)

-- `allowedTransitions[from].has(to)`
unfoldable pub allowed : OperationState → OperationState → Bool
allowed OperationState.prepared OperationState.submitted = true
allowed OperationState.prepared OperationState.failed = true
allowed OperationState.prepared OperationState.reconciled = true
allowed OperationState.submitted OperationState.acknowledged = true
allowed OperationState.submitted OperationState.unknown = true
allowed OperationState.submitted OperationState.failed = true
allowed OperationState.submitted OperationState.reconciled = true
allowed OperationState.unknown OperationState.acknowledged = true
allowed OperationState.unknown OperationState.reconciled = true
allowed OperationState.unknown OperationState.failed = true
allowed OperationState.acknowledged OperationState.reconciled = true
allowed _ _ = false

-- `none` is a key that is absent from the update, `some none` one that is null.
pub record Update : Type 0 where
  pub message_id : Option (Option String)
  pub error : Option (Option String)

abbrev pub no_update : Update
no_update = record { message_id = none; error = none }

-- `acknowledged`, `reconciled` or `failed`
abbrev pub acknowledged_or_final : OperationState → Bool
acknowledged_or_final OperationState.acknowledged = true
acknowledged_or_final OperationState.reconciled = true
acknowledged_or_final OperationState.failed = true
acknowledged_or_final _ = false

pub invalid_transition : OperationRecord → OperationState → RelayError
invalid_transition r to =
    operation_error "OPERATION_STATE_CONFLICT"
      (String.◌++◌ "Invalid operation transition: "
        (String.◌++◌ (state_text r.state) (String.◌++◌ " -> " (state_text to))))
      r NextAction.reconcile

-- Each call returns how it ended and the record as it left it: a failure of `persist` comes after
-- the record was changed.
module _ {ℓ} {E : Type ℓ} where
  unfoldable pub transition :
      OperationRecord
      → OperationState
      → Update
      → Stamp
      → Result E (Unit {0})
      → Result (Failure E) (Unit {0}) × OperationRecord
  unfolding allowed
  transition r state update now persisted =
      if allowed r.state state
      then (
        elim persisted [ ok _ ↦ ok tt | err e ↦ err (thrown e) ],
        record r {
          state = state;
          message_id = or_else update.message_id r.message_id;
          error = or_else update.error r.error;
          updated_at = now;
        },
      )
      else (err (relay (invalid_transition r state)), r)

  unfoldable pub correlate_rpc_id :
      OperationRecord
      → String
      → Stamp
      → Result E (Unit {0})
      → Result (Failure E) (Unit {0}) × OperationRecord
  correlate_rpc_id r rpc_id now persisted =
      if r.rpc_id == rpc_id
      then (ok tt, r)
      else if rpc_id == "" || acknowledged_or_final r.state
      then (
        err (
            relay (
              operation_error "OPERATION_STATE_CONFLICT"
                "Operation correlation cannot change after terminal acknowledgement" r
                NextAction.reconcile)),
        r,
      )
      else (
        elim persisted [ ok _ ↦ ok tt | err e ↦ err (thrown e) ],
        record r { rpc_id = rpc_id; updated_at = now },
      )
