-- ===== src/Broker/Facade.antt =====
-- src/relay-broker/relay-broker-facade.ts: the broker's maps, how they are written and read back, and its
-- services. The browser, the Host and the state store are arguments by their outcomes.
pub mod RoundTrip
pub mod Services
pub mod Indexed
mod Tests
use Prim.Native.String
use deepseek_harness_relay_m.Base.{
  ℕ, String, Bool, true, false, not, ◌&&◌, ◌||◌, Option, none, some, List, [], ◌∷◌, ◌==◌, string_eq,
  if◌then◌else◌, or_else, is_some,
}
use deepseek_harness_relay_m.Base.Map
use deepseek_harness_relay_m.Base.Map.{Map}
use deepseek_harness_relay_m.Base.Result.{Result, ok, err}
use deepseek_harness_relay_m.Base.Stamp.{Stamp, iso}
use deepseek_harness_relay_m.Types.{
  ServiceSnapshot, ServiceStatus, RunSnapshot, RunStatus, PersistedRun, OperationRecord,
  PermissionLease, StateBody, AttentionReason,
}
use deepseek_harness_relay_m.Broker.Journal.{Journal, restore_index, list}
use deepseek_harness_relay_m.Broker.Permissions.{Controller, mark_expired, Failure}
use deepseek_harness_relay_m.Broker.Reconciler.Run.{RunRecord, active_key, is_stalled}

pub record Broker : Type 0 where
  pub services : Map String ServiceSnapshot
  pub service_by_workspace : Map String String
  pub runs : Map String RunRecord
  pub active_sessions : Map String String
  pub journal : Journal
  pub permissions : Controller

abbrev pub new_broker : Broker
new_broker = record {
  services = [];
  service_by_workspace = [];
  runs = [];
  active_sessions = [];
  journal = record { records = []; by_idempotency = [] };
  permissions = record { leases = []; log = [] };
}

-- `persistedSnapshot`
abbrev pub persisted_snapshot : Bool → RunSnapshot → RunSnapshot
persisted_snapshot persist_text s =
    if persist_text
    then s
    else record s { task = "[prompt text not persisted]"; task_persisted = false }

unfoldable pub persisted_runs : Bool → List RunRecord → List PersistedRun
persisted_runs persist_text [] = []
persisted_runs persist_text (r ∷ rest) =
    record {
      snapshot = persisted_snapshot persist_text r.snapshot;
      baseline_seq = r.baseline_seq;
      prompt_rpc_id = r.prompt_rpc_id;
    }
    ∷ persisted_runs persist_text rest

-- What `persistState` passes to the store.
unfoldable pub persisted_state : Bool → Broker → StateBody
persisted_state persist_text b = record {
  services = Map.values b.services;
  runs = persisted_runs persist_text (Map.values b.runs);
  operations = list b.journal;
  permission_leases = Map.values b.permissions.leases;
}

-- The loops of `restoreState`.
module _ {ℓ} {A V : Type ℓ} (key : A → String) (value : A → V) where
  unfoldable pub restore_by : List A → Map String V → Map String V
  restore_by [] m = m
  restore_by (x ∷ rest) m = restore_by rest (Map.set m (key x) (value x))

unfoldable pub restore_services :
    List ServiceSnapshot → Map String ServiceSnapshot → Map String ServiceSnapshot
restore_services = restore_by (λ s. s.service_id) (λ s. s)

abbrev pub is_running_service : ServiceStatus → Bool
is_running_service ServiceStatus.running = true
is_running_service _ = false

unfoldable pub restore_workspaces : List ServiceSnapshot → Map String String → Map String String
restore_workspaces [] by_workspace = by_workspace
restore_workspaces (s ∷ rest) by_workspace = restore_workspaces rest (
    if is_running_service s.status
    then Map.set by_workspace s.workspace s.service_id
    else by_workspace)

abbrev pub run_of : PersistedRun → RunRecord
run_of p = record {
  snapshot = p.snapshot;
  baseline_seq = p.baseline_seq;
  prompt_rpc_id = p.prompt_rpc_id;
  events = [];
  last_observed_projection_seq = none;
}

unfoldable pub restore_runs : List PersistedRun → Map String RunRecord → Map String RunRecord
restore_runs = restore_by (λ p. p.snapshot.run_id) run_of

abbrev pub is_running : RunStatus → Bool
is_running RunStatus.running = true
is_running _ = false

unfoldable pub restore_active : List PersistedRun → Map String String → Map String String
restore_active [] active = active
restore_active (p ∷ rest) active = restore_active rest (
    if is_running p.snapshot.status
    then Map.set active (active_key p.snapshot) p.snapshot.run_id
    else active)

unfoldable pub restore_operations :
    List OperationRecord → Map String OperationRecord → Map String OperationRecord
restore_operations = restore_by (λ o. o.operation_id) (λ o. o)

unfoldable pub restore_leases :
    List PermissionLease → Map String PermissionLease → Map String PermissionLease
restore_leases = restore_by (λ l. l.lease_id) (λ l. l)

-- The broker once the loops are done and the index is rebuilt.
unfoldable pub loaded : StateBody → Broker → Broker
loaded state b = record b {
  services = restore_services state.services b.services;
  service_by_workspace = restore_workspaces state.services b.service_by_workspace;
  runs = restore_runs state.runs b.runs;
  active_sessions = restore_active state.runs b.active_sessions;
  journal =
      restore_index
        (record b.journal { records = restore_operations state.operations b.journal.records });
  permissions = record b.permissions {
    leases = restore_leases state.permission_leases b.permissions.leases;
  };
}

module _ {ℓ} {E : Type ℓ} where
  unfoldable pub expired :
      Broker → Result (Failure E) ℕ × Controller → Result (Failure E) (Unit {0}) × Broker
  expired b (ok n, c) = (ok tt, record b { permissions = c })
  expired b (err e, c) = (err e, record b { permissions = c })

  -- `restoreState` with what the store has loaded; `written` is the outcome of persisting leases that
  -- have expired.
  unfoldable pub restore_state :
      Option StateBody → ℕ → Result E (Unit {0}) → Broker → Result (Failure E) (Unit {0}) × Broker
  restore_state none now written b = (ok tt, b)
  restore_state (some state) now written b =
      expired (loaded state b) (mark_expired (loaded state b).permissions now written)

abbrev pub operation_of : Broker → RunSnapshot → Option OperationRecord
operation_of b s = elim s.operation_id [ none ↦ none | some id ↦ Map.get b.journal.records id ]

pub record Owner : Type 0 where
  pub run_id : String
  pub session_id : String
  pub client_principal_id : String

abbrev pub may_answer : String → RunSnapshot → Bool
may_answer session_id s =
    s.session_id == session_id
    && (not s.cancel_requested
        && (not (is_some s.finished_at) && (is_running s.status || is_stalled s.attention_reason)))

owner_by : RunSnapshot → String → Option OperationRecord → Option Owner → Option Owner
owner_by s session_id none rest = rest
owner_by s session_id (some o) rest = some (record {
  run_id = s.run_id;
  session_id = session_id;
  client_principal_id = o.client_principal_id;
})

owner_of_run : Broker → String → Option RunRecord → Option Owner → Option Owner
unfolding owner_by
owner_of_run b session_id none rest = rest
owner_of_run b session_id (some r) rest =
    if may_answer session_id r.snapshot
    then owner_by r.snapshot session_id (operation_of b r.snapshot) rest
    else rest

unfoldable pub owner_among : Broker → String → List String → Option Owner
unfolding owner_of_run
owner_among b session_id [] = none
owner_among b session_id (id ∷ rest) =
    owner_of_run b session_id (Map.get b.runs id) (owner_among b session_id rest)

-- `interactionOwner`
unfoldable pub interaction_owner : Broker → String → Option Owner
unfolding owner_among
interaction_owner b session_id = owner_among b session_id (Map.values b.active_sessions)
