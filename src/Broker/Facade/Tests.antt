-- ===== src/Broker/Facade/Tests.antt =====
-- Runs of src/relay-broker/relay-broker-facade.ts.
use deepseek_harness_relay_m.Base.{String, ◌≡◌, refl, true, false, none, some, [], ◌∷◌}
use deepseek_harness_relay_m.Base.Map
use deepseek_harness_relay_m.Base.Result.{ok, err}
use deepseek_harness_relay_m.Base.Stamp.{iso}
use deepseek_harness_relay_m.Types.{
  ServiceSnapshot, ServiceStatus, StateBody, PermissionLease, PermissionPreset, LeaseState,
}
use deepseek_harness_relay_m.Broker.Facade.{new_broker, persisted_state, restore_state}
use deepseek_harness_relay_m.Broker.Facade.RoundTrip.{IsKeyed, restore_state-persisted_state}
use deepseek_harness_relay_m.Broker.Facade.Services.{
  Outside, Resolution, start_resolved_service, open_service, stop_service, attached, reuse,
  start_new, attach, persist_and_return,
}
use deepseek_harness_relay_m.Broker.Facade.Indexed.{IsIndexed, service_calls-IsIndexed}

abbrev service : String → ServiceStatus → ServiceSnapshot
service id status = record {
  service_id = id;
  workspace_id = "w";
  workspace = "/w";
  status = status;
  web_url = "u";
  browser_opened = false;
  browser_error = none;
  attached_at = iso 3;
  stopped_at = none;
}

abbrev lease : PermissionLease
lease = record {
  lease_id = "l";
  session_id = "c";
  owner_operation_id = "o";
  previous_permission = PermissionPreset.read_only;
  granted_permission = PermissionPreset.workspace_write;
  expires_at = iso 100;
  state = LeaseState.acquired;
  error = none;
  created_at = iso 1;
  updated_at = iso 1;
}

abbrev state : StateBody
state = record {
  services = service "s1" ServiceStatus.stopped ∷ service "s2" ServiceStatus.running ∷ [];
  runs = [];
  operations = [];
  permission_leases = lease ∷ [];
}

state-IsKeyed : IsKeyed state
state-IsKeyed = record {
  services = ((refl, tt), (tt, tt));
  runs = tt;
  operations = tt;
  leases = (tt, tt);
}

restore_state-persisted_state_example :
    ((restore_state {E = String} (some state) 5 (err "no disk") new_broker).0 ≡ ok tt)
    × (persisted_state true (restore_state {E = String} (some state) 5 (err "no disk") new_broker).1
        ≡ state)
restore_state-persisted_state_example =
    restore_state-persisted_state state 5 (err "no disk") state-IsKeyed (refl, tt)

abbrev outside : Outside String
outside = record {
  opens = err "no browser";
  described = ok tt;
  created = ok (record { workspace_id = "w"; path = "/w" });
  persisted = ok tt;
  fresh_id = "s1";
  host_url = "u";
  now = 3;
}

abbrev request : Resolution
request = record { path = "/w"; workspace = none }

started : start_resolved_service outside new_broker false request ≡ (
  ok (service "s1" ServiceStatus.running),
  attached outside new_broker (record { workspace_id = "w"; path = "/w" }),
)
unfolding start_resolved_service reuse start_new attach persist_and_return Map.get
started = refl

new_broker-IsIndexed : IsIndexed new_broker
unfolding Map.get
new_broker-IsIndexed = record { keyed = λ id s h. absurd (cc); indexed = λ path id h. absurd (cc) }

service_calls-IsIndexed_example :
    IsIndexed (start_resolved_service outside new_broker true request).1
    × IsIndexed (open_service outside new_broker "s1").1
    × IsIndexed (stop_service outside new_broker "s1").1
unfolding Map.get
service_calls-IsIndexed_example =
    service_calls-IsIndexed outside new_broker new_broker-IsIndexed true request "s1" refl
