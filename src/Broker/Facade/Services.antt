-- ===== src/Broker/Facade/Services.antt =====
-- `startResolvedService`, `openService`, `stopService` and `open` of
-- src/relay-broker/relay-broker-facade.ts. `openUrl` and the Host are arguments by their outcomes.
use deepseek_harness_relay_m.Base.{
  ℕ, String, Bool, true, false, Option, none, some, string_eq, if◌then◌else◌,
}
use deepseek_harness_relay_m.Base.Map
use deepseek_harness_relay_m.Base.Map.{Map}
use deepseek_harness_relay_m.Base.Result.{Result, ok, err}
use deepseek_harness_relay_m.Base.Stamp.{iso}
use deepseek_harness_relay_m.Types.{ServiceSnapshot, ServiceStatus}
use deepseek_harness_relay_m.Broker.Facade.{Broker, is_running_service}

-- `WorkspaceView`, as far as a service reads it.
pub record Workspace : Type 0 where
  pub workspace_id : String
  pub path : String

pub record Resolution : Type 0 where
  pub path : String
  pub workspace : Option Workspace

-- What a call meets outside: `openUrl` with the text of its error, `describeHost`, `createWorkspace`
-- and `persistState`.
pub record Outside {ℓ} (E : Type ℓ) : Type ℓ where
  pub opens : Result String (Unit {0})
  pub described : Result E (Unit {0})
  pub created : Result E Workspace
  pub persisted : Result E (Unit {0})
  pub fresh_id : String
  pub host_url : String
  pub now : ℕ

pub data ServiceError {ℓ} (E : Type ℓ) : Type ℓ where
  unknown_service not_running : String → ServiceError E
  not_opened : String → ServiceError E
  outside : E → ServiceError E

abbrev pub Done {ℓ} : Type ℓ → Type ℓ
Done E = Result (ServiceError E) ServiceSnapshot × Broker

abbrev pub put : Broker → ServiceSnapshot → Broker
put b s = record b { services = Map.set b.services s.service_id s }

abbrev pub existing : Broker → String → Option ServiceSnapshot
existing b path = elim (Map.get b.service_by_workspace path) [
  | none ↦ none
  | some id ↦ Map.get b.services id
]

abbrev pub stopped : ℕ → ServiceSnapshot → ServiceSnapshot
stopped now s = record s { status = ServiceStatus.stopped; stopped_at = some (iso now) }

abbrev pub with_stopped : ℕ → Broker → ServiceSnapshot → Broker
with_stopped now b s = record (put b (stopped now s)) {
  service_by_workspace = Map.delete b.service_by_workspace s.workspace;
}

module _ {ℓ} {E : Type ℓ} where
  -- `open`, then `rest` unless it throws.
  unfoldable pub open_service_page :
      Result String (Unit {0})
      → Broker
      → ServiceSnapshot
      → (Broker → ServiceSnapshot → Done E)
      → Done E
  open_service_page (ok _) b s rest =
      let opened = record s { browser_opened = true; browser_error = none } in
      rest (put b opened) opened
  open_service_page (err text) b s rest =
      (err (not_opened text), put b (record s { browser_error = some text }))

  -- `await this.persistState()`, and the copy that is returned.
  unfoldable pub persist_and_return : Result E (Unit {0}) → Broker → ServiceSnapshot → Done E
  persist_and_return (ok _) b s = (ok s, b)
  persist_and_return (err e) b s = (err (outside e), b)

  abbrev pub new_service : Outside E → Workspace → ServiceSnapshot
  new_service o w = record {
    service_id = o.fresh_id;
    workspace_id = w.workspace_id;
    workspace = w.path;
    status = ServiceStatus.running;
    web_url = o.host_url;
    browser_opened = false;
    browser_error = none;
    attached_at = iso o.now;
    stopped_at = none;
  }

  abbrev pub attached : Outside E → Broker → Workspace → Broker
  attached o b w = record b {
    services = Map.set b.services o.fresh_id (new_service o w);
    service_by_workspace = Map.set b.service_by_workspace w.path o.fresh_id;
  }

  unfoldable pub attach : Outside E → Broker → Bool → Result E Workspace → Done E
  attach o b open_browser (err e) = (err (outside e), b)
  attach o b open_browser (ok w) =
      if open_browser
      then open_service_page o.opens (attached o b w) (new_service o w)
          (persist_and_return o.persisted)
      else persist_and_return o.persisted (attached o b w) (new_service o w)

  abbrev workspace_from : Result E Workspace → Option Workspace → Result E Workspace
  workspace_from created none = created
  workspace_from created (some w) = ok w

  unfoldable pub start_new :
      Outside E → Broker → Bool → Option Workspace → Result E (Unit {0}) → Done E
  start_new o b open_browser w (err e) = (err (outside e), b)
  start_new o b open_browser w (ok _) = attach o b open_browser (workspace_from o.created w)

  unfoldable pub reuse : Outside E → Broker → Bool → Resolution → Option ServiceSnapshot → Done E
  reuse o b open_browser r none = start_new o b open_browser r.workspace o.described
  reuse o b open_browser r (some s) =
      if is_running_service s.status
      then (if open_browser
          then open_service_page o.opens b s (λ left opened. (ok opened, left))
          else (ok s, b))
      else start_new o b open_browser r.workspace o.described

  -- `startResolvedService`
  unfoldable pub start_resolved_service : Outside E → Broker → Bool → Resolution → Done E
  start_resolved_service o b open_browser r = reuse o b open_browser r (existing b r.path)

  unfoldable pub open_known : Outside E → Broker → String → Option ServiceSnapshot → Done E
  open_known o b id none = (err (unknown_service id), b)
  open_known o b id (some s) =
      if is_running_service s.status
      then open_service_page o.opens b s (persist_and_return o.persisted)
      else (err (not_running id), b)

  -- `openService`
  unfoldable pub open_service : Outside E → Broker → String → Done E
  open_service o b id = open_known o b id (Map.get b.services id)

  unfoldable pub stop_known : Outside E → Broker → String → Option ServiceSnapshot → Done E
  stop_known o b id none = (err (unknown_service id), b)
  stop_known o b id (some s) =
      if is_running_service s.status
      then persist_and_return o.persisted (with_stopped o.now b s) (stopped o.now s)
      else persist_and_return o.persisted b s

  -- `stopService`
  unfoldable pub stop_service : Outside E → Broker → String → Done E
  stop_service o b id = stop_known o b id (Map.get b.services id)
