-- ===== src/StateStore/Order.antt =====
-- How src/state-store.ts chooses between two versions of a record: what a choice keeps.
use deepseek_harness_relay_m.Base.{
  ℕ, ◌≤◌, ◌<◌, ◌≡◌, refl, ◌⊎◌, inl, inr, Bool, true, false, none, some, List, arith, leb,
  Bool-cases, if◌then◌else◌,
}
use deepseek_harness_relay_m.Base.Stamp.{
  Stamp, iso, other, Difference, timestamp, instant_difference, prefer,
}
use deepseek_harness_relay_m.Types.{PersistedRun, ServiceSnapshot, OperationRecord, PermissionLease}
use deepseek_harness_relay_m.StateStore.Freshest.{
  is_stable, freshest_service, freshest_finished, freshest_progress, freshest_run,
  freshest_operation, freshest_lease, operation_rank, lease_rank,
}

module _ {ℓ κ} {A : Type ℓ} (P : A → Type κ) where
  -- Whatever holds of the three candidates holds of the choice.
  pub prefer-All : (d : Difference) (l r rest : A) → P l → P r → P rest → P (prefer d l r rest)
  unfolding prefer
  prefer-All Difference.negative l r rest pl pr ps = pr
  prefer-All Difference.same l r rest pl pr ps = ps
  prefer-All Difference.positive l r rest pl pr ps = pl
  prefer-All Difference.nan l r rest pl pr ps = pr

  if-All : (b : Bool) (l r : A) → P l → P r → P (if b then l else r)
  if-All true l r pl pr = pl
  if-All false l r pl pr = pr

module _ {κ} (to_json : PersistedRun → List ℕ) (P : PersistedRun → Type κ) where
  freshest_finished-All : (l r : PersistedRun) → P l → P r → P (freshest_finished to_json l r)
  unfolding freshest_finished
  freshest_finished-All l r pl pr =
      prefer-All P _ l r _ pl pr (prefer-All P _ l r _ pl pr (if-All P _ l r pl pr))

  freshest_progress-All : (l r : PersistedRun) → P l → P r → P (freshest_progress to_json l r)
  unfolding freshest_progress
  freshest_progress-All l r pl pr =
      prefer-All P _ l r _ pl pr (prefer-All P _ l r _ pl pr (freshest_finished-All l r pl pr))

  -- The choice is one of the two versions.
  pub freshest_run-All : (l r : PersistedRun) → P l → P r → P (freshest_run to_json l r)
  unfolding freshest_run
  freshest_run-All l r pl pr =
      let between = freshest_progress-All l r pl pr in
      if-All P _ _ _ (if-All P _ _ _ between pl) (if-All P _ _ _ pr between)

module _ {κ} (P : OperationRecord → Type κ) where
  pub freshest_operation-All : (l r : OperationRecord) → P l → P r → P (freshest_operation l r)
  unfolding freshest_operation
  freshest_operation-All l r pl pr = prefer-All P _ l r _ pl pr (if-All P _ l r pl pr)

module _ {κ} (P : PermissionLease → Type κ) where
  pub freshest_lease-All : (l r : PermissionLease) → P l → P r → P (freshest_lease l r)
  unfolding freshest_lease
  freshest_lease-All l r pl pr = prefer-All P _ l r _ pl pr (if-All P _ l r pl pr)

module _ {κ} (P : ServiceSnapshot → Type κ) where
  pub freshest_service-All : (l r : ServiceSnapshot) → P l → P r → P (freshest_service l r)
  unfolding freshest_service
  freshest_service-All l r pl pr = prefer-All P _ l r _ pl pr (if-All P _ l r pl pr)

abbrev pub IsSettled : PersistedRun → Type 0
IsSettled r = is_stable r.snapshot.status ≡ true

-- A choice against a settled run is settled, whatever the other version is.
pub freshest_run-IsSettled_left :
    (to_json : PersistedRun → List ℕ) (l r : PersistedRun)
    → IsSettled l
    → IsSettled (freshest_run to_json l r)
unfolding freshest_run
freshest_run-IsSettled_left to_json l r h = elim (Bool-cases (is_stable r.snapshot.status)) [
  | inl e ↦ rw (h, e) (freshest_progress-All to_json IsSettled l r h e)
  | inr e ↦ rw (h, e) h
]

-- A time, and within it a rank, is reached.
abbrev pub ReachedAt : ℕ → ℕ → Stamp → ℕ → Type 0
ReachedAt n k (iso m) q = (n < m) ⊎ ((n ≡ m) × (k ≤ q))
ReachedAt n k (other s) q = ⊥

abbrev pub OperationReached : ℕ → ℕ → OperationRecord → Type 0
OperationReached n k o = ReachedAt n k o.updated_at (operation_rank o.state)

abbrev pub LeaseReached : ℕ → ℕ → PermissionLease → Type 0
LeaseReached n k l = ReachedAt n k l.updated_at (lease_rank l.state)

-- The choice by time and then by rank, on the two values that it looks at.
abbrev newer_stamp : Stamp → ℕ → Stamp → ℕ → Bool
newer_stamp a p b q =
    prefer (instant_difference (timestamp (some a)) (timestamp (some b))) true false (leb q p)

newer_stamp-Reached :
    (n k : ℕ) (a b : Stamp) (p q : ℕ)
    → ReachedAt n k a p
    → (newer_stamp a p b q ≡ true) ⊎ ReachedAt n k b q
unfolding prefer timestamp instant_difference
newer_stamp-Reached n k (iso m) (iso m') p q h = ground arith
newer_stamp-Reached n k (iso m) (other t) p q h = inl refl
newer_stamp-Reached n k (other s) b p q h = absurd h

module _ {ℓ} {A : Type ℓ} where
  prefer-newer :
      (d : Difference) (b : Bool) (l r : A)
      → prefer d l r (if b then l else r) ≡ (if prefer d true false b then l else r)
  unfolding prefer
  prefer-newer Difference.negative b l r = refl
  prefer-newer Difference.same b l r = refl
  prefer-newer Difference.positive b l r = refl
  prefer-newer Difference.nan b l r = refl

-- A newer version is never replaced by an older one.
pub freshest_operation-Reached :
    (n k : ℕ) (l r : OperationRecord)
    → OperationReached n k l
    → OperationReached n k (freshest_operation l r)
unfolding freshest_operation
freshest_operation-Reached n k l r h =
    rw prefer-newer
      (elim (newer_stamp-Reached n k l.updated_at r.updated_at (operation_rank l.state)
        (operation_rank r.state) h) [
          | inl e ↦ rw e h
          | inr q ↦ if-All (OperationReached n k) _ l r h q
        ])

pub freshest_lease-Reached :
    (n k : ℕ) (l r : PermissionLease) → LeaseReached n k l → LeaseReached n k (freshest_lease l r)
unfolding freshest_lease
freshest_lease-Reached n k l r h =
    rw prefer-newer
      (elim (newer_stamp-Reached n k l.updated_at r.updated_at (lease_rank l.state)
        (lease_rank r.state) h) [ inl e ↦ rw e h | inr q ↦ if-All (LeaseReached n k) _ l r h q ])

freshest_progress_unfinished :
    (to_json : PersistedRun → List ℕ) (l r : PersistedRun)
    → l.snapshot.last_event_seq ≡ r.snapshot.last_event_seq
    → l.snapshot.finished_at ≡ none
    → r.snapshot.finished_at ≡ none
    → freshest_progress to_json l r ≡ r
unfolding freshest_progress prefer timestamp instant_difference
freshest_progress_unfinished to_json l r seq fl fr = rw (fl, fr) (ground arith)

-- Of two versions of a run that both have no finish time, stand at the same last event and are both
-- stable or both not, `freshestRun` returns the second, whatever else they hold: also where the
-- first has more assistant text, or a status of higher rank.
pub freshest_run_unfinished :
    (to_json : PersistedRun → List ℕ) (l r : PersistedRun)
    → is_stable l.snapshot.status ≡ is_stable r.snapshot.status
    → l.snapshot.last_event_seq ≡ r.snapshot.last_event_seq
    → l.snapshot.finished_at ≡ none
    → r.snapshot.finished_at ≡ none
    → freshest_run to_json l r ≡ r
unfolding freshest_run
freshest_run_unfinished to_json l r stable seq fl fr =
    ground (arith, freshest_progress_unfinished to_json l r seq fl fr)
