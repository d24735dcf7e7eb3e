-- ===== src/Broker/Permissions.antt =====
-- src/relay-broker/permission-controller.ts: permission leases, by which a session's permission is
-- raised for one run and restored after it.
pub mod Gateway
pub mod OneLease
pub mod Recorded
mod Tests
use Prim.Native.String
use deepseek_harness_relay_m.Base.{
  ℕ, suc, ◌+◌, String, Bool, true, false, not, ◌&&◌, ◌||◌, Option, none, some, List, [], ◌∷◌, ltb,
  leb, ◌==◌, string_eq, if◌then◌else◌, find, length, filter,
}
use deepseek_harness_relay_m.Base.Map
use deepseek_harness_relay_m.Base.Map.{Map}
use deepseek_harness_relay_m.Base.Stamp.{Stamp, iso, other}
use deepseek_harness_relay_m.Base.Result.{Result, ok, err, ◌>>=◌}
use deepseek_harness_relay_m.Types.{LeaseState, PermissionLease, PermissionPreset}
use deepseek_harness_relay_m.Broker.Errors.{RelayError, NextAction}
use Gateway.{GatewayFailure, same_preset, current, select}

-- What the controller does outside: a successful `persist`, with the leases that it wrote, and a call
-- of the provider's `select`.
pub data Effect : Type 0 where
  persists : Map String PermissionLease → Effect
  selects : String → PermissionPreset → Effect

-- The leases in memory, and what was done, the newest first.
pub record Controller : Type 0 where
  pub leases : Map String PermissionLease
  pub log : List Effect

pub data Failure {ℓ} (E : Type ℓ) : Type ℓ where
  relay : RelayError → Failure E
  refused : GatewayFailure E → Failure E
  not_persisted : E → Failure E

abbrev pub is_released : LeaseState → Bool
is_released LeaseState.released = true
is_released _ = false

-- The predicate of `activeForSession`.
abbrev pub active_in : String → PermissionLease → Bool
active_in session_id lease = lease.session_id == session_id && not (is_released lease.state)

unfoldable pub active_for_session : Map String PermissionLease → String → Option PermissionLease
active_for_session leases session_id = find (active_in session_id) (Map.values leases)

-- A change of the object that `activeForSession` returned.
unfoldable pub change_active :
    String
    → (PermissionLease → PermissionLease)
    → Map String PermissionLease
    → Map String PermissionLease
change_active session_id f [] = []
change_active session_id f ((id, lease) ∷ rest) =
    if active_in session_id lease
    then (id, f lease) ∷ rest
    else (id, lease) ∷ change_active session_id f rest

-- `Date.parse(lease.expiresAt) > now`; NaN is not above.
abbrev pub expires_after : Stamp → ℕ → Bool
expires_after (iso n) now = ltb now n
expires_after (other s) now = false

-- `Date.parse(active.expiresAt) <= Date.now()`
abbrev pub has_expired : Stamp → ℕ → Bool
has_expired (iso n) now = leb n now
has_expired (other s) now = false

abbrev pub is_settled : LeaseState → Bool
is_settled LeaseState.released = true
is_settled LeaseState.needs_attention = true
is_settled _ = false

-- The guard of the loop in `markExpired`.
abbrev pub stays : ℕ → PermissionLease → Bool
stays now lease = is_settled lease.state || expires_after lease.expires_at now

abbrev expired_message : String
expired_message =
    "Permission lease expired before its owning run reached a reconciled terminal state"

abbrev pub expire : ℕ → PermissionLease → PermissionLease
expire now lease = record lease {
  state = LeaseState.needs_attention;
  error = some expired_message;
  updated_at = iso now;
}

unfoldable pub expire_all : ℕ → Map String PermissionLease → ℕ × Map String PermissionLease
expire_all now [] = (0, [])
expire_all now ((id, lease) ∷ rest) =
    let (changed, left) = expire_all now rest in
    if stays now lease
    then (changed, (id, lease) ∷ left)
    else (suc changed, (id, expire now lease) ∷ left)

module _ {ℓ} {E : Type ℓ} where
  -- `await this.persist()`
  unfoldable pub persist :
      Controller → Result E (Unit {0}) → Result (Failure E) (Unit {0}) × Controller
  persist c (ok _) = (ok tt, record c { log = persists c.leases ∷ c.log })
  persist c (err e) = (err (not_persisted e), c)

  abbrev after_expiry : ℕ → Controller → Result E (Unit {0}) → Result (Failure E) ℕ × Controller
  after_expiry changed c written =
      let (outcome, left) = persist c written in
      (elim outcome [ ok _ ↦ ok changed | err e ↦ err e ], left)

  unfoldable pub mark_expired :
      Controller → ℕ → Result E (Unit {0}) → Result (Failure E) ℕ × Controller
  unfolding expire_all persist
  mark_expired c now written =
      let (changed, leases) = expire_all now c.leases in
      if ltb 0 changed
      then after_expiry changed (record c { leases = leases }) written
      else (ok 0, record c { leases = leases })

-- The replies to the calls that `selectForRun` makes: the readings and the selection of the provider,
-- and the outcomes of the three places that persist.
pub record Replies {ℓ} (E : Type ℓ) : Type ℓ where
  pub previous : Result E (Option PermissionPreset)
  pub prepared : Result E (Unit {0})
  pub accepted : Result E Bool
  pub confirmed : Result E (Option PermissionPreset)
  pub finished : Result E (Unit {0})
  pub failed : Result E (Unit {0})
  pub now : ℕ
  pub fresh_id : String

pub conflict : String → PermissionLease → ℕ → RelayError
conflict session_id active now =
    let expired = has_expired active.expires_at now in
    record {
      code = if expired then "PERMISSION_LEASE_EXPIRED" else "PERMISSION_LEASE_CONFLICT";
      message =
          String.◌++◌ (if expired then "Expired" else "Active")
            (String.◌++◌ " permission lease requires reconciliation for session: " session_id);
      retryable = false;
      operation_id = some active.owner_operation_id;
      run_id = none;
      last_known_state = some (state_text active.state);
      next_action = some (if expired then NextAction.reconcile else NextAction.wait);
    }
  where
    state_text : LeaseState → String
    state_text LeaseState.prepared = "prepared"
    state_text LeaseState.acquired = "acquired"
    state_text LeaseState.restoring = "restoring"
    state_text LeaseState.released = "released"
    state_text LeaseState.needs_attention = "needs_attention"

abbrev pub in_state : LeaseState → Option String → ℕ → PermissionLease → PermissionLease
in_state state error now lease = record lease { state = state; error = error; updated_at = iso now }

-- `duration` is `leaseDurationMs`, `error_text` is `errorText`.
module _ {ℓ} {E : Type ℓ} (duration : ℕ) (error_text : Failure E → String) where
  -- `this.select`: the provider is asked, then the preset is confirmed.
  unfoldable pub select_preset :
      Controller
      → String
      → PermissionPreset
      → Result E Bool
      → Result E (Option PermissionPreset)
      → Result (Failure E) PermissionPreset × Controller
  unfolding select
  select_preset c session_id preset accepted confirmed = (
    elim (select session_id preset accepted confirmed) [ ok p ↦ ok p | err e ↦ err (refused e) ],
    record c { log = selects session_id preset ∷ c.log },
  )

  abbrev pub new_lease :
      String → String → PermissionPreset → PermissionPreset → Replies E → PermissionLease
  new_lease session_id operation_id preset previous r = record {
    lease_id = r.fresh_id;
    session_id = session_id;
    owner_operation_id = operation_id;
    previous_permission = previous;
    granted_permission = preset;
    expires_at = iso (r.now + duration);
    state = LeaseState.prepared;
    error = none;
    created_at = iso r.now;
    updated_at = iso r.now;
  }

  -- The `catch` of `selectForRun`: the lease needs attention, and the error is thrown on unless the
  -- last `persist` throws.
  unfoldable pub grant_failed :
      Controller
      → PermissionLease
      → Replies E
      → Failure E
      → Result (Failure E) (Option PermissionLease) × Controller
  unfolding persist Map.set
  grant_failed c lease r e =
      let marked = in_state LeaseState.needs_attention (some (error_text e)) r.now lease in
      let (outcome, left) =
        persist (record c { leases = Map.set c.leases r.fresh_id marked }) r.failed in
      (elim outcome [ ok _ ↦ err e | err again ↦ err again ], left)

  -- After the selection: the lease is acquired, and persisted.
  unfoldable pub grant_selected :
      PermissionLease
      → Replies E
      → Result (Failure E) PermissionPreset × Controller
      → Result (Failure E) (Option PermissionLease) × Controller
  unfolding persist Map.set grant_failed
  grant_selected lease r (err e, c) = grant_failed c lease r e
  grant_selected lease r (ok _, c) =
      let acquired = record lease { state = LeaseState.acquired; updated_at = iso r.now } in
      let (outcome, left) =
        persist (record c { leases = Map.set c.leases r.fresh_id acquired }) r.finished in
      elim outcome [ ok _ ↦ (ok (some acquired), left) | err e ↦ grant_failed left acquired r e ]

  -- From the first `persist` on.
  unfoldable pub grant :
      String
      → PermissionPreset
      → PermissionLease
      → Replies E
      → Result (Failure E) (Unit {0}) × Controller
      → Result (Failure E) (Option PermissionLease) × Controller
  unfolding grant_selected select_preset
  grant session_id preset lease r (err e, c) = (err e, c)
  grant session_id preset lease r (ok _, c) =
      grant_selected lease r (select_preset c session_id preset r.accepted r.confirmed)

  unfoldable pub grant_over :
      Controller
      → String
      → String
      → PermissionPreset
      → Replies E
      → Result (GatewayFailure E) PermissionPreset
      → Result (Failure E) (Option PermissionLease) × Controller
  unfolding grant persist Map.set
  grant_over c session_id operation_id preset r (err e) = (err (refused e), c)
  grant_over c session_id operation_id preset r (ok previous) =
      let lease = new_lease session_id operation_id preset previous r in
      if same_preset previous preset
      then (ok none, c)
      else grant session_id preset lease r
          (persist (record c { leases = Map.set c.leases r.fresh_id lease }) r.prepared)

  -- `selectForRun` with `restoreRequired`, from the active lease of the session on.
  unfoldable pub select_restorable :
      Controller
      → String
      → String
      → PermissionPreset
      → Replies E
      → Option PermissionLease
      → Result (Failure E) (Option PermissionLease) × Controller
  unfolding grant_over current
  select_restorable c session_id operation_id preset r (some active) =
      (err (relay (conflict session_id active r.now)), c)
  select_restorable c session_id operation_id preset r none =
      grant_over c session_id operation_id preset r (current session_id r.previous)

  unfoldable pub select_for_run :
      Controller
      → String
      → String
      → PermissionPreset
      → Bool
      → Replies E
      → Result (Failure E) (Option PermissionLease) × Controller
  unfolding select_restorable select_preset active_for_session
  select_for_run c session_id operation_id preset false r =
      let (outcome, left) = select_preset c session_id preset r.accepted r.confirmed in
      (elim outcome [ ok _ ↦ ok none | err e ↦ err e ], left)
  select_for_run c session_id operation_id preset true r =
      select_restorable c session_id operation_id preset r (active_for_session c.leases session_id)

  -- The `catch` of `restoreLease`.
  unfoldable pub restore_failed :
      String → Replies E → Failure E → Controller → Result (Failure E) Bool × Controller
  unfolding persist change_active
  restore_failed session_id r e c =
      let marked = in_state LeaseState.needs_attention (some (error_text e)) r.now in
      let (outcome, left) =
        persist (record c { leases = change_active session_id marked c.leases }) r.failed in
      (elim outcome [ ok _ ↦ ok false | err again ↦ err again ], left)

  -- The end of `restoreLease`, after the selection. If the last `persist` throws, the `catch` writes
  -- over what the release has changed.
  unfoldable pub restored :
      String
      → Replies E
      → Result (Failure E) PermissionPreset × Controller
      → Result (Failure E) Bool × Controller
  unfolding persist change_active restore_failed
  restored session_id r (err e, c) = restore_failed session_id r e c
  restored session_id r (ok _, c) =
      let released = in_state LeaseState.released none r.now in
      let (outcome, left) =
        persist (record c { leases = change_active session_id released c.leases }) r.finished in
      elim outcome [ ok _ ↦ (ok true, left) | err e ↦ restore_failed session_id r e c ]

  unfoldable pub restoring :
      String
      → PermissionPreset
      → Replies E
      → Result (Failure E) (Unit {0}) × Controller
      → Result (Failure E) Bool × Controller
  unfolding restored select_preset
  restoring session_id previous r (err e, c) = (err e, c)
  restoring session_id previous r (ok _, c) =
      restored session_id r (select_preset c session_id previous r.accepted r.confirmed)

  abbrev pub start_restoring : ℕ → PermissionLease → PermissionLease
  start_restoring now lease = record lease { state = LeaseState.restoring; updated_at = iso now }

  unfoldable pub restore_lease :
      Controller → String → PermissionLease → Replies E → Result (Failure E) Bool × Controller
  unfolding restoring persist change_active
  restore_lease c session_id lease r = restoring session_id lease.previous_permission r (
      persist (record c { leases = change_active session_id (start_restoring r.now) c.leases })
        r.prepared)

  -- `ownerOperationId !== undefined && lease.ownerOperationId !== ownerOperationId`
  abbrev pub owned_by_other : Option String → PermissionLease → Bool
  owned_by_other none lease = false
  owned_by_other (some owner) lease = not (lease.owner_operation_id == owner)

  unfoldable pub restore_found :
      Controller
      → String
      → Option String
      → Replies E
      → Option PermissionLease
      → Result (Failure E) Bool × Controller
  unfolding restore_lease
  restore_found c session_id owner r none = (ok true, c)
  restore_found c session_id owner r (some lease) =
      if owned_by_other owner lease then (ok true, c) else restore_lease c session_id lease r

  unfoldable pub restore_session :
      Controller → String → Option String → Replies E → Result (Failure E) Bool × Controller
  unfolding restore_found active_for_session
  restore_session c session_id owner r =
      restore_found c session_id owner r (active_for_session c.leases session_id)
