-- ===== src/StateStore.antt =====
-- src/state-store.ts and src/state-repository/state-schema.ts: the state file of one authority, its
-- validation and normalisation, the merge of two relay processes' states, and operation claims.
-- `save`, `claim_operation` and `migrate_from` run under the file lock, one at a time, as the code
-- runs them between `acquire` and `release`.
pub mod Freshest
pub mod Merge
pub mod Order
pub mod Retention
pub mod Saves
pub mod Claims
pub mod Once
pub mod Fence
pub mod Convergence
mod Tests
use deepseek_harness_relay_m.Base.{
  ℕ, String, Bool, true, false, ◌&&◌, Option, none, some, List, [], ◌∷◌, ◌++◌, ◌==◌, string_eq,
  if◌then◌else◌, find, or_else,
}
use deepseek_harness_relay_m.Base.Stamp.{Stamp, iso}
use deepseek_harness_relay_m.Base.Result.{Result, ok, err, ◌>>=◌, ◌>>◌}
use deepseek_harness_relay_m.Types.{
  AuthorityMode, embedded, standalone, StateAuthority, LegacyVersion, v1, v2, StateMigrationMarker,
  ServiceSnapshot, PersistedRun, RunSnapshot, AttentionReason, permission_confirm,
  await_user_answer, OperationRecord, PermissionLease, StateBody, PersistedRelayState,
}
use Merge.{merge_states_with}

-- What the text of a state file is to the three schemas.
pub data Stored : Type 0 where
  malformed : String → Stored
  schema_v1 : List ServiceSnapshot → List PersistedRun → Stored
  schema_v2 : StateBody → Stored
  schema_v3 : PersistedRelayState → Stored

-- The union type `PersistedRelayState`.
pub data StateInput : Type 0 where
  version_2 : StateBody → StateInput
  version_3 : PersistedRelayState → StateInput

pub data StoreError : Type 0 where
  invalid_state lock_timeout write_failed no_source target_exists same_file not_legacy : StoreError
  authority_mismatch : StateAuthority → StateAuthority → StoreError

-- The part of `stateV3Schema` that the types of the fields leave open.
abbrev is_datetime : Stamp → Bool
is_datetime (iso n) = true
is_datetime _ = false

abbrev valid_migration : Option StateMigrationMarker → Bool
valid_migration none = true
valid_migration (some m) = is_datetime m.copied_at

-- `attentionReason: z.enum(['run_stalled', 'permission_restore_failed']).optional()`
abbrev storable_reason : Option AttentionReason → Bool
storable_reason (some permission_confirm) = false
storable_reason (some await_user_answer) = false
storable_reason _ = true

abbrev storable_runs : List PersistedRun → Bool
storable_runs [] = true
storable_runs (r ∷ rs) = storable_reason r.snapshot.attention_reason && storable_runs rs

abbrev non_empty : String → Bool
non_empty s = if s == "" then false else true

valid_v3 : PersistedRelayState → Bool
valid_v3 s =
    non_empty s.authority.authority_id
    && (non_empty s.authority.host_identity
        && (non_empty s.authority.instance_id
            && (valid_migration s.migration && storable_runs s.body.runs)))

pub validate_v3_state : PersistedRelayState → Result StoreError PersistedRelayState
unfolding valid_v3
validate_v3_state s = if valid_v3 s then ok s else err invalid_state

abbrev same_mode : AuthorityMode → AuthorityMode → Bool
same_mode embedded embedded = true
same_mode standalone standalone = true
same_mode _ _ = false

pub same_authority : StateAuthority → StateAuthority → Bool
same_authority a b =
    a.authority_id == b.authority_id
    && (same_mode a.mode b.mode
        && (a.host_identity == b.host_identity && a.instance_id == b.instance_id))

-- `assertAuthority`
pub assert_authority : StateAuthority → PersistedRelayState → Result StoreError (Unit {0})
unfolding same_authority
assert_authority expected actual =
    if same_authority expected actual.authority
    then ok tt
    else err (authority_mismatch expected actual.authority)

pub migration_marker : LegacyVersion → String → String → Stamp → StateMigrationMarker
migration_marker version path digest now = record {
  source_schema_version = version;
  source_path = path;
  source_digest = digest;
  copied_at = now;
}

-- `fromLegacy`
pub from_legacy :
    StateBody → StateAuthority → StateMigrationMarker → Result StoreError PersistedRelayState
unfolding validate_v3_state
from_legacy body authority migration =
    validate_v3_state (record { authority = authority; migration = some migration; body = body })

pub empty_v3_state : StateAuthority → List OperationRecord → PersistedRelayState
empty_v3_state authority operations = record {
  authority = authority;
  migration = none;
  body = record { services = []; runs = []; operations = operations; permission_leases = [] };
}

-- `legacySchemaVersion`
pub legacy_schema_version : Stored → Result StoreError LegacyVersion
legacy_schema_version (schema_v2 body) = ok v2
legacy_schema_version (schema_v1 services runs) = ok v1
legacy_schema_version _ = err not_legacy

pub record Config : Type 0 where
  pub path : String
  pub authority : StateAuthority

-- The file at `path`, and those that were renamed to `….corrupt.…`.
pub record Disk : Type 0 where
  pub file : Option Stored
  pub quarantined : List Stored

-- How `atomicWriteJson` ends: it may throw before the rename, or after it (`syncDirectory`).
pub data WriteOutcome : Type 0 where
  written lost promoted_then_failed : WriteOutcome

pub record Io : Type 0 where
  pub locked : Bool
  pub write : WriteOutcome
  pub now : ℕ

pub record Claim : Type 0 where
  pub claimed : OperationRecord
  pub created : Bool

-- The predicate of `existing.operations.find`.
abbrev pub same_claim : OperationRecord → OperationRecord → Bool
same_claim candidate operation =
    operation.client_principal_id == candidate.client_principal_id
    && operation.idempotency_key == candidate.idempotency_key

abbrev pub find_claim : OperationRecord → List OperationRecord → Option OperationRecord
find_claim candidate = find (same_claim candidate)

abbrev pub Outcome {ℓ} : Type ℓ → Type ℓ
Outcome A = Result StoreError A × Disk

-- `atomicWriteJson(this.path, …)`, then `return a`.
write_then {ℓ} : {A : Type ℓ} → Io → Disk → PersistedRelayState → A → Result StoreError A × Disk
write_then io disk next a = elim io.write [
  | written ↦ (ok a, record disk { file = some (schema_v3 next) })
  | lost ↦ (err write_failed, disk)
  | promoted_then_failed ↦ (err write_failed, record disk { file = some (schema_v3 next) })
]

-- `existing === null ? emptyV3State(…) : { ...existing, operations: [...] }`
pub with_operation : Config → Option PersistedRelayState → OperationRecord → PersistedRelayState
unfolding empty_v3_state
with_operation c none candidate = empty_v3_state c.authority (candidate ∷ [])
with_operation c (some s) candidate = record s {
  body = record (s.body) { operations = s.body.operations ++ candidate ∷ [] };
}

abbrev pub claims_of : Option PersistedRelayState → List OperationRecord
claims_of none = []
claims_of (some s) = s.body.operations

claim_new : Io → Disk → OperationRecord → Result StoreError PersistedRelayState → Outcome Claim
unfolding write_then
claim_new io disk candidate (err e) = (err e, disk)
claim_new io disk candidate (ok next) =
    write_then io disk next (record { claimed = candidate; created = true })

pub claim_found :
    Config
    → Io
    → Disk
    → Option PersistedRelayState
    → OperationRecord
    → Option OperationRecord
    → Outcome Claim
unfolding claim_new with_operation validate_v3_state
claim_found c io disk existing candidate (some previous) =
    (ok (record { claimed = previous; created = false }), disk)
claim_found c io disk existing candidate none =
    claim_new io disk candidate (validate_v3_state (with_operation c existing candidate))

-- `to_json` is `JSON.stringify` of a run, as UTF-16 code units; `digest` is the SHA-256 of a text.
module _ (to_json : PersistedRun → List ℕ) (digest : Stored → String) where
  pub parse_and_normalize_state :
      Stored → Config → Option StateMigrationMarker → Stamp → Result StoreError PersistedRelayState
  unfolding from_legacy assert_authority migration_marker
  parse_and_normalize_state (malformed text) c marker now = err invalid_state
  parse_and_normalize_state (schema_v3 s) c marker now = do assert_authority c.authority s; ok s
  parse_and_normalize_state (schema_v2 body) c marker now =
      from_legacy body c.authority
        (or_else marker (migration_marker v2 c.path (digest (schema_v2 body)) now))
  parse_and_normalize_state (schema_v1 services runs) c marker now =
      from_legacy
        (record { services = services; runs = runs; operations = []; permission_leases = [] })
        c.authority
        (or_else marker (migration_marker v1 c.path (digest (schema_v1 services runs)) now))

  pub normalize_state_input : StateInput → Config → Stamp → Result StoreError PersistedRelayState
  unfolding from_legacy migration_marker assert_authority validate_v3_state
  normalize_state_input (version_3 s) c now = do assert_authority c.authority s; validate_v3_state s
  normalize_state_input (version_2 body) c now =
      from_legacy body c.authority (migration_marker v2 c.path (digest (schema_v2 body)) now)

  -- The `catch` of `readState(true)`.
  after_parse :
      Disk → Stored → Result StoreError PersistedRelayState → Outcome (Option PersistedRelayState)
  after_parse disk text (ok s) = (ok (some s), disk)
  after_parse disk text (err (authority_mismatch e a)) = (err (authority_mismatch e a), disk)
  after_parse disk text (err _) =
      (ok none, record { file = none; quarantined = text ∷ disk.quarantined })

  pub read_state : Config → Disk → ℕ → Outcome (Option PersistedRelayState)
  unfolding after_parse parse_and_normalize_state
  read_state c disk now = elim disk.file [
    | none ↦ (ok none, disk)
    | some text ↦ after_parse disk text (parse_and_normalize_state text c none (iso now))
  ]

  -- `mergeStates`
  pub merge_states :
      Option PersistedRelayState → PersistedRelayState → Result StoreError PersistedRelayState
  unfolding validate_v3_state
  merge_states none incoming = ok incoming
  merge_states (some existing) incoming =
      validate_v3_state (merge_states_with to_json existing incoming)

  save_merged : Io → Disk → Result StoreError PersistedRelayState → Outcome (Unit {0})
  unfolding write_then
  save_merged io disk (err e) = (err e, disk)
  save_merged io disk (ok next) = write_then io disk next tt

  save_read : PersistedRelayState → Io → Outcome (Option PersistedRelayState) → Outcome (Unit {0})
  unfolding save_merged merge_states
  save_read validated io (err e, disk) = (err e, disk)
  save_read validated io (ok existing, disk) = save_merged io disk (merge_states existing validated)

  save_validated : Config → Io → Disk → Result StoreError PersistedRelayState → Outcome (Unit {0})
  unfolding save_read read_state
  save_validated c io disk (err e) = (err e, disk)
  save_validated c io disk (ok validated) =
      if io.locked
      then save_read validated io (read_state c disk io.now)
      else (err lock_timeout, disk)

  pub save : Config → Io → Disk → StateInput → Outcome (Unit {0})
  unfolding save_validated normalize_state_input
  save c io disk input = save_validated c io disk (normalize_state_input input c (iso io.now))

  pub claim_read :
      Config → Io → OperationRecord → Outcome (Option PersistedRelayState) → Outcome Claim
  unfolding claim_found
  claim_read c io candidate (err e, disk) = (err e, disk)
  claim_read c io candidate (ok existing, disk) =
      claim_found c io disk existing candidate (find_claim candidate (claims_of existing))

  pub claim_operation : Config → Io → Disk → OperationRecord → Outcome Claim
  unfolding claim_read read_state
  claim_operation c io disk candidate =
      if io.locked
      then claim_read c io candidate (read_state c disk io.now)
      else (err lock_timeout, disk)

  migrate_parsed : Io → Disk → Result StoreError PersistedRelayState → Outcome PersistedRelayState
  unfolding write_then
  migrate_parsed io disk (err e) = (err e, disk)
  migrate_parsed io disk (ok migrated) = write_then io disk migrated migrated

  -- `legacySchemaVersion`, the marker, and `parseAndNormalizeState` with it.
  migrated_state : Config → Io → String → Stored → Result StoreError PersistedRelayState
  unfolding parse_and_normalize_state legacy_schema_version migration_marker
  migrated_state c io path source = do
    version ← legacy_schema_version source
    let marker = migration_marker version path (digest source) (iso io.now)
    parse_and_normalize_state source c (some marker) (iso io.now)

  migrate_source :
      Config → Io → Disk → String → Option Stored → Option Stored → Outcome PersistedRelayState
  unfolding migrate_parsed migrated_state
  migrate_source c io disk path source (some target) = (err target_exists, disk)
  migrate_source c io disk path none none = (err no_source, disk)
  migrate_source c io disk path (some text) none =
      migrate_parsed io disk (migrated_state c io path text)

  -- `path` is the source's path, resolved as that of the target is; `source` is its content.
  pub migrate_from : Config → Io → Disk → String → Option Stored → Outcome PersistedRelayState
  unfolding migrate_source
  migrate_from c io disk path source =
      if path == c.path
      then (err same_file, disk)
      else if io.locked
      then migrate_source c io disk path source disk.file
      else (err lock_timeout, disk)
