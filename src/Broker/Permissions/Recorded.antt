-- ===== src/Broker/Permissions/Recorded.antt =====
-- Sequences of calls of src/relay-broker/permission-controller.ts: what they persist, and what they ask
-- of the provider.
use deepseek_harness_relay_m.Base.{
  ℕ, String, ◌≡◌, Bool, true, Option, is_some, List, [], ◌∷◌, string_eq,
}
use deepseek_harness_relay_m.Base.Map
use deepseek_harness_relay_m.Base.Map.{Map}
use deepseek_harness_relay_m.Base.Result.{Result}
use deepseek_harness_relay_m.Types.{PermissionLease, PermissionPreset}
use deepseek_harness_relay_m.Broker.Permissions.{
  Effect, persists, selects, Controller, Failure, Replies, active_for_session, mark_expired,
  select_for_run, restore_session,
}
use deepseek_harness_relay_m.Broker.Permissions.OneLease.{OneLease}

-- The leases on disk, by the log.
abbrev pub on_disk : List Effect → Map String PermissionLease
on_disk [] = []
on_disk (persists leases ∷ older) = leases
on_disk (selects s p ∷ older) = on_disk older

abbrev pub is_leased : Map String PermissionLease → String → Bool
is_leased m s = is_some (active_for_session m s)

-- Whenever the provider was asked to change a session's permission, an unreleased lease of the session
-- was on disk.
abbrev pub Recorded : List Effect → Type 0
Recorded [] = Unit
Recorded (persists leases ∷ older) = Recorded older
Recorded (selects s p ∷ older) = (is_leased (on_disk older) s ≡ true) × Recorded older

-- A call of the controller, with what the Host and the store answer.
pub data Call {ℓ} (E : Type ℓ) : Type ℓ where
  borrows : String → String → PermissionPreset → Replies E → Call E
  restores : String → Option String → Replies E → Call E
  expires : ℕ → Result E (Unit {0}) → Call E

module _ {ℓ} {E : Type ℓ} (duration : ℕ) (error_text : Failure E → String) where
  unfoldable pub step : Controller → Call E → Controller
  step c (borrows s operation p r) = (select_for_run duration error_text c s operation p true r).1
  step c (restores s owner r) = (restore_session duration error_text c s owner r).1
  step c (expires now written) = (mark_expired c now written).1

  unfoldable pub run : List (Call E) → Controller → Controller
  run [] c = c
  run (call ∷ rest) c = run rest (step c call)
