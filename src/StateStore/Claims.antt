-- ===== src/StateStore/Claims.antt =====
-- `claimOperation` of src/state-store.ts across relay processes, and the authority fence of the
-- state file.
use deepseek_harness_relay_m.Base.{
  ℕ, String, ◌≡◌, refl, ap, subst, inl, inr, true, Option, none, some, List, [], ◌∷◌, ◌++◌, arith,
  ==_iff, string_eq, find-append_last, Bool-cases,
}
use deepseek_harness_relay_m.Base.Result.{ok, err}
use deepseek_harness_relay_m.Base.Stamp.{iso}
use deepseek_harness_relay_m.Types.{
  StateAuthority, AuthorityMode, embedded, standalone, v1, v2, PersistedRun, OperationRecord,
  PersistedRelayState,
}
use deepseek_harness_relay_m.StateStore.{
  Stored, malformed, schema_v1, schema_v2, schema_v3, Config, Disk, Io, Outcome, Claim, same_mode,
  same_authority, same_claim, find_claim, claims_of, read_state, claim_read, claim_found,
  claim_operation, validate_v3_state, with_operation, migration_marker,
}

same_mode_refl : (m : AuthorityMode) → same_mode m m ≡ true
same_mode_refl embedded = refl
same_mode_refl standalone = refl

pub same_authority_refl : (a : StateAuthority) → same_authority a a ≡ true
unfolding same_authority
same_authority_refl a = ground (
  arith,
  same_mode_refl a.mode,
  ==_iff a.authority_id a.authority_id,
  ==_iff a.host_identity a.host_identity,
  ==_iff a.instance_id a.instance_id,
)

pub same_claim_refl : (o : OperationRecord) → same_claim o o ≡ true
same_claim_refl o = ground (
  arith,
  ==_iff o.client_principal_id o.client_principal_id,
  ==_iff o.idempotency_key o.idempotency_key,
)

-- Two candidates with one principal and one key claim the same operations.
pub same_claim_transfer :
    (a b : OperationRecord)
    → same_claim a b ≡ true
    → (ops : List OperationRecord) → find_claim a ops ≡ find_claim b ops
same_claim_transfer a b h ops =
    let p = (==_iff b.client_principal_id a.client_principal_id).0 (ground arith) in
    let k = (==_iff b.idempotency_key a.idempotency_key).0 (ground arith) in rw (p, k)

module _ (to_json : PersistedRun → List ℕ) (digest : Stored → String) (c : Config) where
  -- The file reads as a state with these operations, now and later, and is left as it is.
  abbrev pub Reads : Disk → List OperationRecord → Type 0
  Reads disk ops =
      (now : ℕ)
      → (s : PersistedRelayState) × (read_state to_json digest c disk now ≡ (ok (some s), disk))
        × (s.body.operations ≡ ops)

  pub read_again_at :
      (file : Option Stored) (q : List Stored) (now : ℕ) (s : PersistedRelayState) (disk' : Disk)
      → read_state to_json digest c (record { file = file; quarantined = q }) now
        ≡ (ok (some s), disk')
      → Reads disk' s.body.operations
  unfolding read_state validate_v3_state
  read_again_at none q now s disk' e = cc
  read_again_at (some (malformed t)) q now s disk' e = cc
  read_again_at (some (schema_v3 t)) q now s disk' e = λ now'. (s, ground arith, refl)
  read_again_at (some (schema_v2 body)) q now s disk' e = λ now'. (
    record s { migration = some (migration_marker v2 c.path (digest (schema_v2 body)) (iso now')) },
    ground arith,
    refl,
  )
  read_again_at (some (schema_v1 ss rs)) q now s disk' e = λ now'. (
    record s {
      migration = some (migration_marker v1 c.path (digest (schema_v1 ss rs)) (iso now'));
    },
    ground arith,
    refl,
  )

  -- A v3 file of this authority reads as its state.
  pub written-Reads :
      (disk : Disk) (s : PersistedRelayState)
      → disk.file ≡ some (schema_v3 s)
      → same_authority c.authority s.authority ≡ true
      → Reads disk s.body.operations
  unfolding read_state
  written-Reads disk s e h = λ now. (s, ground arith, refl)

  pub read_authority_at :
      (file : Option Stored) (q : List Stored) (now : ℕ) (s : PersistedRelayState) (disk' : Disk)
      → read_state to_json digest c (record { file = file; quarantined = q }) now
        ≡ (ok (some s), disk')
      → same_authority c.authority s.authority ≡ true
  unfolding read_state validate_v3_state
  read_authority_at none q now s disk' e = cc
  read_authority_at (some (malformed t)) q now s disk' e = cc
  read_authority_at (some (schema_v3 t)) q now s disk' e =
      elim (Bool-cases (same_authority c.authority t.authority)) [
        | inl same ↦ ground arith
        | inr differ ↦ ground arith
      ]
  read_authority_at (some (schema_v2 body)) q now s disk' e =
      ground (arith, same_authority_refl c.authority)
  read_authority_at (some (schema_v1 ss rs)) q now s disk' e =
      ground (arith, same_authority_refl c.authority)

  abbrev pub Claimed : OperationRecord → Claim → Disk → Type 0
  Claimed a r disk =
      (ops : List OperationRecord) × Reads disk ops × (find_claim a ops ≡ some r.claimed)

  claim_new-Claimed :
      (io : Io) (d disk' : Disk) (existing : Option PersistedRelayState) (a : OperationRecord)
      (r : Claim)
      → same_authority c.authority (with_operation c existing a).authority ≡ true
      → find_claim a (claims_of existing) ≡ none
      → claim_found c io d existing a none ≡ (ok r, disk')
      → Claimed a r disk'
  unfolding claim_found
  claim_new-Claimed io d disk' none a r same absent e = (
    a ∷ [],
    written-Reads disk' (with_operation c none a) (ground arith) same,
    ground (arith, same_claim_refl a),
  )
  claim_new-Claimed io d disk' (some s) a r same absent e = (
    s.body.operations ++ a ∷ [],
    written-Reads disk' (with_operation c (some s) a) (ground arith) same,
    ground (arith, find-append_last (same_claim a) s.body.operations a absent (same_claim_refl a)),
  )

  claim_found-Claimed :
      (io : Io) (d disk' : Disk) (s : PersistedRelayState) (a : OperationRecord) (r : Claim)
      → Reads d s.body.operations
      → same_authority c.authority s.authority ≡ true
      → (o : Option OperationRecord) → find_claim a s.body.operations ≡ o
      → claim_found c io d (some s) a o ≡ (ok r, disk')
      → Claimed a r disk'
  unfolding claim_found
  claim_found-Claimed io d disk' s a r reads same (some p) found e = (
    s.body.operations,
    subst (λ x. Reads x s.body.operations) (ap (λ (x : Outcome Claim). x.1) e) reads,
    rw found (ground arith),
  )
  claim_found-Claimed io d disk' s a r reads same none absent e =
      claim_new-Claimed io d disk' (some s) a r same absent e

  claim_read-Claimed :
      (io : Io) (disk disk' : Disk) (a : OperationRecord) (r : Claim)
      (o : Outcome (Option PersistedRelayState))
      → read_state to_json digest c disk io.now ≡ o
      → claim_read to_json digest c io a o ≡ (ok r, disk')
      → Claimed a r disk'
  unfolding claim_read
  claim_read-Claimed io disk disk' a r (err x, d) read e = cc
  claim_read-Claimed io disk disk' a r (ok none, d) read e =
      claim_new-Claimed io d disk' none a r (same_authority_refl c.authority) refl e
  claim_read-Claimed io disk disk' a r (ok (some s), d) read e =
      claim_found-Claimed io d disk' s a r
        (read_again_at disk.file disk.quarantined io.now s d read)
        (read_authority_at disk.file disk.quarantined io.now s d read)
        (find_claim a s.body.operations) refl e

  pub claim_operation-Claimed :
      (io : Io) (disk disk' : Disk) (a : OperationRecord) (r : Claim)
      → claim_operation to_json digest c io disk a ≡ (ok r, disk')
      → Claimed a r disk'
  unfolding claim_operation
  claim_operation-Claimed io disk disk' a r e = elim (Bool-cases io.locked) [
    | inl locked ↦
        claim_read-Claimed io disk disk' a r (read_state to_json digest c disk io.now) refl
          (rw locked at e)
    | inr free ↦ absurd (ground arith)
  ]
