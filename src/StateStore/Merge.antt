-- ===== src/StateStore/Merge.antt =====
-- src/state-store.ts: `mergeBy`, and the state that `mergeStates` builds from its four lists.
use deepseek_harness_relay_m.Base.{ℕ, String, Option, none, some, List, [], ◌∷◌, string_eq}
use deepseek_harness_relay_m.Base.Map
use deepseek_harness_relay_m.Base.Map.{Map}
use deepseek_harness_relay_m.Types.{PersistedRun, StateMigrationMarker, PersistedRelayState}
use deepseek_harness_relay_m.StateStore.Freshest.{
  freshest_service, freshest_run, freshest_operation, freshest_lease,
}

module _ {ℓ} {T : Type ℓ} where
  -- `previous === undefined ? item : choose(previous, item)`
  abbrev pub chosen : (T → T → T) → Option T → T → T
  chosen choose none item = item
  chosen choose (some previous) item = choose previous item

module _ {ℓ} {T : Type ℓ} (key : T → String) where
  -- `new Map(left.map(item => [key(item), item]))`, onto a map that is there.
  unfoldable pub index : Map String T → List T → Map String T
  unfolding Map.set
  index m [] = m
  index m (item ∷ rest) = index (Map.set m (key item) item) rest

  -- The loop of `mergeBy`.
  unfoldable pub merge_into : (T → T → T) → Map String T → List T → Map String T
  unfolding Map.set Map.get
  merge_into choose m [] = m
  merge_into choose m (item ∷ rest) =
      merge_into choose (Map.set m (key item) (chosen choose (Map.get m (key item)) item)) rest

  unfoldable pub merge_by : (T → T → T) → List T → List T → List T
  unfolding index merge_into
  merge_by choose left right = Map.values (merge_into choose (index [] left) right)

-- `existing.migration ?? incoming.migration`
abbrev first_marker :
    Option StateMigrationMarker → Option StateMigrationMarker → Option StateMigrationMarker
first_marker none b = b
first_marker (some a) b = some a

abbrev pub run_key : PersistedRun → String
run_key r = r.snapshot.run_id

unfoldable pub merge_states_with :
    (PersistedRun → List ℕ) → PersistedRelayState → PersistedRelayState → PersistedRelayState
unfolding merge_by freshest_service freshest_run freshest_operation freshest_lease
merge_states_with to_json existing incoming = record {
  authority = existing.authority;
  migration = first_marker existing.migration incoming.migration;
  body = record {
    services =
        merge_by (λ s. s.service_id) freshest_service existing.body.services incoming.body.services;
    runs = merge_by run_key (freshest_run to_json) existing.body.runs incoming.body.runs;
    operations =
        merge_by (λ o. o.operation_id) freshest_operation existing.body.operations
          incoming.body.operations;
    permission_leases =
        merge_by (λ l. l.lease_id) freshest_lease existing.body.permission_leases
          incoming.body.permission_leases;
  };
}
