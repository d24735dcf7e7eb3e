-- ===== src/Broker/Facade/RoundTrip.antt =====
-- What `restoreState` of src/relay-broker/relay-broker-facade.ts reads is what `persistState` writes.
use deepseek_harness_relay_m.Base.{
  ℕ, String, ◌≡◌, refl, ap, ◌∙◌, inl, inr, true, false, none, some, List, [], ◌∷◌, ◌++◌, map, arith,
  ◌==◌, string_eq, All, Bool-cases,
}
use deepseek_harness_relay_m.Base.Map
use deepseek_harness_relay_m.Base.Map.{Map}
use deepseek_harness_relay_m.Base.Result.{Result, ok}
use deepseek_harness_relay_m.Types.{PersistedRun, PermissionLease, StateBody}
use deepseek_harness_relay_m.Broker.Journal.{restore_index, list}
use deepseek_harness_relay_m.Broker.Permissions.{Controller, stays, expire_all, mark_expired}
use deepseek_harness_relay_m.Broker.Facade.{
  new_broker, persisted_runs, persisted_state, restore_by, restore_services, restore_runs, run_of,
  restore_operations, restore_leases, loaded, expired, restore_state,
}

append_assoc {ℓ} : {A : Type ℓ} (xs ys zs : List A) → (xs ++ ys) ++ zs ≡ xs ++ (ys ++ zs)
append_assoc [] ys zs = refl
append_assoc (x ∷ xs) ys zs = ap (λ rest. x ∷ rest) (append_assoc xs ys zs)

append_nil {ℓ} : {A : Type ℓ} (xs : List A) → xs ≡ xs ++ []
append_nil [] = refl
append_nil (x ∷ xs) = ap (λ rest. x ∷ rest) (append_nil xs)

values-set {ℓ} :
    {V : Type ℓ} (m : Map String V) (k : String) (v : V)
    → Map.get m k ≡ none
    → Map.values (Map.set m k v) ≡ Map.values m ++ v ∷ []
unfolding Map.get Map.set
values-set [] k v h = refl
values-set ((j, w) ∷ m) k v h = elim (Bool-cases (j == k)) [
  | inl same ↦ absurd (ground arith)
  | inr different ↦ rw different (ap (λ rest. w ∷ rest) (values-set m k v (rw different at h)))
]

module _ {ℓ} {A V : Type ℓ} (key : A → String) (value : A → V) where
  -- No two of the entries have one key.
  abbrev pub IsDistinct : List A → Type 0
  IsDistinct [] = Unit
  IsDistinct (x ∷ rest) = All (λ y. (key x == key y) ≡ false) rest × IsDistinct rest

  abbrev IsNew : Map String V → List A → Type ℓ
  IsNew m list = All (λ y. Map.get m (key y) ≡ none) list

  set-IsNew :
      (list : List A) (m : Map String V) (x : A)
      → All (λ y. (key x == key y) ≡ false) list
      → IsNew m list
      → IsNew (Map.set m (key x) (value x)) list
  set-IsNew [] m x d n = tt
  set-IsNew (y ∷ list) m x d n =
      (Map.get-set m (key x) (key y) (value x) ∙ rw d.0 n.0, set-IsNew list m x d.1 n.1)

  values-restore_by :
      (list : List A) (m : Map String V)
      → IsDistinct list
      → IsNew m list
      → Map.values (restore_by key value list m) ≡ Map.values m ++ map value list
  unfolding restore_by
  values-restore_by [] m d n = append_nil (Map.values m)
  values-restore_by (x ∷ list) m d n =
      values-restore_by list (Map.set m (key x) (value x)) d.1 (set-IsNew list m x d.0 n.1)
      ∙ ap (λ vs. vs ++ map value list) (values-set m (key x) (value x) n.0)
      ∙ append_assoc (Map.values m) (value x ∷ []) (map value list)

  new : (list : List A) → IsNew [] list
  unfolding Map.get
  new [] = tt
  new (x ∷ list) = (refl, new list)

  values_restored :
      (list : List A) → IsDistinct list → Map.values (restore_by key value list []) ≡ map value list
  values_restored list d = values-restore_by list [] d (new list)

-- The ids of a state's records are their own.
pub record IsKeyed (state : StateBody) : Type 0 where
  pub services : IsDistinct (λ s. s.service_id) (λ s. s) state.services
  pub runs : IsDistinct (λ p. p.snapshot.run_id) run_of state.runs
  pub operations : IsDistinct (λ o. o.operation_id) (λ o. o) state.operations
  pub leases : IsDistinct (λ l. l.lease_id) (λ l. l) state.permission_leases

map_same {ℓ} : {A : Type ℓ} (xs : List A) → map (λ x. x) xs ≡ xs
map_same [] = refl
map_same (x ∷ xs) = ap (λ rest. x ∷ rest) (map_same xs)

persisted_runs-run_of : (runs : List PersistedRun) → persisted_runs true (map run_of runs) ≡ runs
unfolding persisted_runs
persisted_runs-run_of [] = refl
persisted_runs-run_of (p ∷ runs) = ap (λ rest. p ∷ rest) (persisted_runs-run_of runs)

expire_all-stays :
    (now : ℕ) (m : Map String PermissionLease)
    → All (λ l. stays now l ≡ true) (Map.values m)
    → expire_all now m ≡ (0, m)
unfolding expire_all
expire_all-stays now [] h = refl
expire_all-stays now ((id, lease) ∷ m) h = rw (expire_all-stays now m h.1, h.0) refl

services_back :
    (state : StateBody)
    → IsKeyed state
    → Map.values (loaded state new_broker).services ≡ state.services
unfolding loaded restore_services
services_back state k =
    values_restored (λ s. s.service_id) (λ s. s) state.services k.services ∙ map_same state.services

runs_back :
    (state : StateBody)
    → IsKeyed state
    → persisted_runs true (Map.values (loaded state new_broker).runs) ≡ state.runs
unfolding loaded restore_runs
runs_back state k =
    ap (λ rs. persisted_runs true rs)
      (values_restored (λ p. p.snapshot.run_id) run_of state.runs k.runs)
    ∙ persisted_runs-run_of state.runs

operations_back :
    (state : StateBody) → IsKeyed state → list (loaded state new_broker).journal ≡ state.operations
unfolding loaded restore_operations restore_index list
operations_back state k =
    values_restored (λ o. o.operation_id) (λ o. o) state.operations k.operations
    ∙ map_same state.operations

leases_back :
    (state : StateBody)
    → IsKeyed state
    → Map.values (loaded state new_broker).permissions.leases ≡ state.permission_leases
unfolding loaded restore_leases
leases_back state k =
    values_restored (λ l. l.lease_id) (λ l. l) state.permission_leases k.leases
    ∙ map_same state.permission_leases

persisted-loaded :
    (state : StateBody) → IsKeyed state → persisted_state true (loaded state new_broker) ≡ state
unfolding persisted_state
persisted-loaded state k =
    rw (services_back state k, runs_back state k, operations_back state k, leases_back state k) refl

mark_expired-stays {ℓ} :
    {E : Type ℓ} (c : Controller) (now : ℕ) (written : Result E (Unit {0}))
    → All (λ l. stays now l ≡ true) (Map.values c.leases)
    → mark_expired c now written ≡ (ok 0, c)
unfolding mark_expired
mark_expired-stays c now written h = rw (expire_all-stays now c.leases h) refl

-- A relay that starts anew on a state whose ids are distinct, none of whose leases has expired, loads
-- it without an error, and writes the same state again where prompt texts are persisted.
pub restore_state-persisted_state {ℓ} :
    {E : Type ℓ} (state : StateBody) (now : ℕ) (written : Result E (Unit {0}))
    → IsKeyed state
    → All (λ l. stays now l ≡ true) state.permission_leases
    → ((restore_state (some state) now written new_broker).0 ≡ ok tt)
      × (persisted_state true (restore_state (some state) now written new_broker).1 ≡ state)
unfolding restore_state expired
restore_state-persisted_state state now written k fresh =
    let kept : All (λ l. stays now l ≡ true)
        (Map.values (loaded state new_broker).permissions.leases) =
      rw (leases_back state k) fresh in
    rw (mark_expired-stays (loaded state new_broker).permissions now written kept)
      (refl, persisted-loaded state k)
