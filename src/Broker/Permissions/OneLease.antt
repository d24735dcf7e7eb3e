-- ===== src/Broker/Permissions/OneLease.antt =====
-- How many unreleased leases a session has after each call of
-- src/relay-broker/permission-controller.ts.
use deepseek_harness_relay_m.Base.{
  ℕ, ◌+◌, ◌≤◌, String, ◌≡◌, refl, Bool, true, false, Option, none, some, [], ◌∷◌, arith, string_eq,
  if◌then◌else◌, ltb, ◌∙◌, ==_iff, inl, inr, Bool-cases,
}
use deepseek_harness_relay_m.Base.Map
use deepseek_harness_relay_m.Base.Map.{Map, set-set}
use deepseek_harness_relay_m.Base.Result.{Result, ok, err, Result-cases}
use deepseek_harness_relay_m.Base.Stamp.{iso}
use deepseek_harness_relay_m.Types.{LeaseState, PermissionLease, PermissionPreset}
use deepseek_harness_relay_m.Broker.Permissions.{
  Controller, Failure, not_persisted, Replies, active_in, active_for_session, change_active,
  expire_all, persist, mark_expired, select_preset, new_lease, grant_failed, grant_selected, grant,
  grant_over, select_restorable, select_for_run, restore_failed, restored, restoring, restore_lease,
  restore_found, restore_session, in_state, start_restoring, owned_by_other,
}
use deepseek_harness_relay_m.Broker.Permissions.Gateway.{GatewayFailure, same_preset}

-- 1 for an active lease of the session.
abbrev pub weight : String → PermissionLease → ℕ
weight s lease = if active_in s lease then 1 else 0

-- The number of active leases of a session.
unfoldable pub active_count : String → Map String PermissionLease → ℕ
active_count s [] = 0
active_count s ((id, lease) ∷ rest) = weight s lease + active_count s rest

count-set :
    (m : Map String PermissionLease) (s id : String) (lease : PermissionLease)
    → active_count s (Map.set m id lease) ≤ active_count s m + weight s lease
unfolding active_count Map.set
count-set [] s id lease = omega arith
count-set ((j, l) ∷ m) s id lease = ground (arith, count-set m s id lease)

count-change_active :
    (m : Map String PermissionLease) (s t : String) (f : PermissionLease → PermissionLease)
    → ((lease : PermissionLease) → (f lease).session_id ≡ lease.session_id)
    → active_count t (change_active s f m) ≤ active_count t m
unfolding active_count change_active
count-change_active [] s t f keeps = omega arith
count-change_active ((j, l) ∷ m) s t f keeps =
    ground (arith, count-change_active m s t f keeps, keeps l)

count-expire_all :
    (m : Map String PermissionLease) (s : String) (now : ℕ)
    → active_count s (expire_all now m).1 ≡ active_count s m
unfolding active_count expire_all
count-expire_all [] s now = refl
count-expire_all ((j, l) ∷ m) s now = ground (arith, count-expire_all m s now)

none-active :
    (m : Map String PermissionLease) (s : String)
    → active_for_session m s ≡ none
    → active_count s m ≡ 0
unfolding active_count active_for_session
none-active [] s h = refl
none-active ((j, l) ∷ m) s h = ground (arith, none-active m s)

-- At most one lease of any session is active.
abbrev pub OneLease : Map String PermissionLease → Type 0
OneLease m = (s : String) → active_count s m ≤ 1

OneLease-change_active :
    (m : Map String PermissionLease) (s : String) (f : PermissionLease → PermissionLease)
    → ((lease : PermissionLease) → (f lease).session_id ≡ lease.session_id)
    → OneLease m
    → OneLease (change_active s f m)
OneLease-change_active m s f keeps one t = omega (arith, count-change_active m s t f keeps, one t)

-- A lease of a session without an active one is set.
OneLease-set :
    (m : Map String PermissionLease) (id : String) (lease : PermissionLease)
    → active_for_session m lease.session_id ≡ none
    → OneLease m
    → OneLease (Map.set m id lease)
OneLease-set m id lease free one t = ground (
  arith,
  count-set m t id lease,
  one t,
  none-active m lease.session_id free,
  ==_iff lease.session_id t,
)

-- The leases are those of `m` with some lease of the session set under the identifier.
abbrev Sets : Map String PermissionLease → String → String → Map String PermissionLease → Type 0
Sets m id s n = (lease : PermissionLease) × (lease.session_id ≡ s) × (n ≡ Map.set m id lease)

module _ {ℓ} {E : Type ℓ} where
  persist-leases :
      (c : Controller) (written : Result E (Unit {0})) → (persist c written).1.leases ≡ c.leases
  unfolding persist
  persist-leases c (ok _) = refl
  persist-leases c (err e) = refl

module _ {ℓ} {E : Type ℓ} (duration : ℕ) (error_text : Failure E → String)
    (m : Map String PermissionLease) (s : String) (r : Replies E) where
  set_again :
      (n : Map String PermissionLease) (a b : PermissionLease)
      → n ≡ Map.set m r.fresh_id a
      → Map.set n r.fresh_id b ≡ Map.set m r.fresh_id b
  set_again n a b h = rw h (set-set m r.fresh_id a b)

  grant_failed-Sets :
      (c : Controller) (a lease : PermissionLease) (e : Failure E)
      → c.leases ≡ Map.set m r.fresh_id a
      → lease.session_id ≡ s
      → Sets m r.fresh_id s (grant_failed duration error_text c lease r e).1.leases
  unfolding grant_failed
  grant_failed-Sets c a lease e h k =
      let marked = in_state LeaseState.needs_attention (some (error_text e)) r.now lease in
      (marked, k, persist-leases _ r.failed ∙ set_again c.leases a marked h)

  grant_selected-Sets :
      (o : Result (Failure E) PermissionPreset) (c : Controller) (lease : PermissionLease)
      → c.leases ≡ Map.set m r.fresh_id lease
      → lease.session_id ≡ s
      → Sets m r.fresh_id s (grant_selected duration error_text lease r (o, c)).1.leases
  unfolding grant_selected
  grant_selected-Sets (err e) c lease h k = grant_failed-Sets c lease lease e h k
  grant_selected-Sets (ok _) c lease h k =
      let acquired = record lease { state = LeaseState.acquired; updated_at = iso r.now } in
      let again = set_again c.leases lease acquired h in
      elim (Result-cases r.finished) [
        | inl (u, e) ↦ rw e (unfold persist in (acquired, k, again))
        | inr (x, e) ↦
            rw e (unfold persist in grant_failed-Sets _ acquired acquired (not_persisted x) again k)
      ]

  grant-Sets :
      (o : Result (Failure E) (Unit {0})) (c : Controller) (p : PermissionPreset)
      (lease : PermissionLease)
      → c.leases ≡ Map.set m r.fresh_id lease
      → lease.session_id ≡ s
      → Sets m r.fresh_id s (grant duration error_text s p lease r (o, c)).1.leases
  unfolding grant select_preset
  grant-Sets (err e) c p lease h k = (lease, k, h)
  grant-Sets (ok _) c p lease h k = grant_selected-Sets _ _ lease h k

module _ {ℓ} {E : Type ℓ} (duration : ℕ) (error_text : Failure E → String) (c : Controller)
    (s : String) (r : Replies E) (one : OneLease c.leases) where
  grant_over-OneLease :
      (o : Result (GatewayFailure E) PermissionPreset) (operation : String) (p : PermissionPreset)
      → active_for_session c.leases s ≡ none
      → OneLease (grant_over duration error_text c s operation p r o).1.leases
  unfolding grant_over
  grant_over-OneLease (err e) operation p free = one
  grant_over-OneLease (ok q) operation p free = elim (Bool-cases (same_preset q p)) [
    | inl same ↦ rw same one
    | inr new ↦
        let lease = new_lease duration error_text s operation p q r in
        let (x, k, h) =
          grant-Sets duration error_text c.leases s r
            (persist (record c { leases = Map.set c.leases r.fresh_id lease }) r.prepared).0
            (persist (record c { leases = Map.set c.leases r.fresh_id lease }) r.prepared).1 p lease
            (persist-leases _ r.prepared) refl in
        let free' : active_for_session c.leases x.session_id ≡ none = rw k free in
        rw (new, h) (OneLease-set c.leases r.fresh_id x free' one)
  ]

  select_restorable-OneLease :
      (o : Option PermissionLease) (operation : String) (p : PermissionPreset)
      → active_for_session c.leases s ≡ o
      → OneLease (select_restorable duration error_text c s operation p r o).1.leases
  unfolding select_restorable
  select_restorable-OneLease (some active) operation p e = one
  select_restorable-OneLease none operation p e = grant_over-OneLease _ operation p e

  pub select_for_run-OneLease :
      (b : Bool) (operation : String) (p : PermissionPreset)
      → OneLease (select_for_run duration error_text c s operation p b r).1.leases
  unfolding select_for_run select_preset
  select_for_run-OneLease false operation p = one
  select_for_run-OneLease true operation p = select_restorable-OneLease _ operation p refl

  change_state :
      (d : Controller) (f : PermissionLease → PermissionLease)
      → ((lease : PermissionLease) → (f lease).session_id ≡ lease.session_id)
      → OneLease d.leases
      → (written : Result E (Unit {0}))
      → OneLease (persist (record d { leases = change_active s f d.leases }) written).1.leases
  change_state d f keeps h written =
      rw (persist-leases (record d { leases = change_active s f d.leases }) written)
        (OneLease-change_active d.leases s f keeps h)

  restored-OneLease :
      (o : Result (Failure E) PermissionPreset) (d : Controller)
      → OneLease d.leases
      → OneLease (restored duration error_text s r (o, d)).1.leases
  unfolding restored restore_failed
  restored-OneLease (err e) d h = change_state d _ (λ lease. refl) h r.failed
  restored-OneLease (ok _) d h = elim (Result-cases r.finished) [
    | inl (u, e) ↦ rw e (unfold persist in OneLease-change_active d.leases s _ (λ lease. refl) h)
    | inr (x, e) ↦ rw e (unfold persist in change_state d _ (λ lease. refl) h r.failed)
  ]

  restoring-OneLease :
      (o : Result (Failure E) (Unit {0})) (d : Controller) (p : PermissionPreset)
      → OneLease d.leases
      → OneLease (restoring duration error_text s p r (o, d)).1.leases
  unfolding restoring select_preset
  restoring-OneLease (err e) d p h = h
  restoring-OneLease (ok _) d p h = restored-OneLease _ _ h

  restore_found-OneLease :
      (o : Option PermissionLease) (owner : Option String)
      → OneLease (restore_found duration error_text c s owner r o).1.leases
  unfolding restore_found restore_lease
  restore_found-OneLease none owner = one
  restore_found-OneLease (some lease) owner =
      elim (Bool-cases (owned_by_other duration error_text owner lease)) [
        | inl other ↦ rw other one
        | inr own ↦ rw own (
            restoring-OneLease _ _ lease.previous_permission (
              change_state c (start_restoring duration error_text r.now) (λ l. refl) one
                r.prepared))
      ]

  pub restore_session-OneLease :
      (owner : Option String) → OneLease (restore_session duration error_text c s owner r).1.leases
  unfolding restore_session
  restore_session-OneLease owner = restore_found-OneLease _ owner

module _ {ℓ} {E : Type ℓ} where
  pub mark_expired-OneLease :
      (c : Controller) (now : ℕ) (written : Result E (Unit {0}))
      → OneLease c.leases
      → OneLease (mark_expired c now written).1.leases
  unfolding mark_expired
  mark_expired-OneLease c now written one s =
      elim (Bool-cases (ltb 0 (expire_all now c.leases).0)) [
        | inl some_changed ↦
            rw
              (
                some_changed,
                persist-leases (record c { leases = (expire_all now c.leases).1 }) written,
                count-expire_all c.leases s now,
              )
              (one s)
        | inr unchanged ↦ rw (unchanged, count-expire_all c.leases s now) (one s)
      ]
