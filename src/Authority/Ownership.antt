-- ===== src/Authority/Ownership.antt =====
-- Who may own a Host after `acquire` and `release` of src/authority/authority-registry-facade.ts.
use deepseek_harness_relay_m.Base.{
  suc, String, ◌≡◌, refl, ◌⊎◌, inl, inr, Bool, true, ◌&&◌, Option, none, some, arith, ltb, ◌==◌,
  ==_iff, nat_eq, string_eq, or_else, Bool-cases,
}
use deepseek_harness_relay_m.Base.Result.{Result, ok}
use deepseek_harness_relay_m.StateStore.{WriteOutcome, written, lost, promoted_then_failed}
use deepseek_harness_relay_m.Authority.Registry.{
  OwnerRecord, OwnerText, valid, invalid, AcquireInput, Process, Liveness, alive, dead, unknown,
  AcquireError, World, Lease, Env, read_owner, is_exact_owner, lease, previous_epoch, new_owner,
  write_owner, take_over, is_dead, acquire_over, acquire_read, acquire, release_file, release,
}

-- The owner in the file has a dead process, the caller asked for recovery, and the new owner's epoch is
-- one more.
abbrev pub Recovers : AcquireInput → Env → OwnerRecord → OwnerRecord → Type 0
Recovers input env current r =
    (env.probe current.process_id ≡ dead)
    × (input.recover_stale ≡ true)
    × (r.epoch ≡ suc current.epoch)

-- Whom the file named before, and why the owner may follow.
abbrev pub Follows : AcquireInput → Env → Option OwnerText → OwnerRecord → Type 0
Follows input env file r =
    (file ≡ some (valid r))
    ⊎ ((file ≡ none) × (r.epoch ≡ 1))
    ⊎ ((current : OwnerRecord) × (file ≡ some (valid current)) × Recovers input env current r)

abbrev pub Owns : Process → AcquireInput → World → OwnerRecord → Type 0
Owns p input w r =
    (w.file ≡ some (valid r))
    × (r.process_id ≡ p.process_id)
    × (r.authority_id ≡ input.authority_id)

write_owner-ok :
    (o : WriteOutcome) (w w' : World) (r : OwnerRecord) (l : Lease)
    → write_owner o w r ≡ (ok l, w')
    → (l.owner ≡ r) × (w'.file ≡ some (valid r))
unfolding write_owner lease
write_owner-ok written w w' r l e = ground arith
write_owner-ok lost w w' r l e = absurd (ground arith)
write_owner-ok promoted_then_failed w w' r l e = absurd (ground arith)

take_over-ok :
    (p : Process) (input : AcquireInput) (env : Env) (w w' : World) (l : Lease) (token : String)
    (current : Option OwnerRecord)
    → take_over p input env w token current ≡ (ok l, w')
    → Owns p input w' l.owner × (l.owner.epoch ≡ suc (previous_epoch current))
unfolding take_over new_owner
take_over-ok p input env w w' l token current e =
    let (same, file) = write_owner-ok env.write w w' (new_owner p input env token current) l e in
    rw same ((file, refl, refl), omega arith)

exact-Owns :
    (current : OwnerRecord) (input : AcquireInput) (token : String) (p : Process) (w : World)
    → is_exact_owner current input token p ≡ true
    → w.file ≡ some (valid current)
    → Owns p input w current
unfolding is_exact_owner
exact-Owns current input token p w e file = (
  file,
  ground (arith, ==_iff current.process_id p.process_id),
  ground (arith, ==_iff current.authority_id input.authority_id),
)

dead_probe : (x : Liveness) → is_dead x ≡ true → x ≡ dead
dead_probe alive h = absurd (cc)
dead_probe dead h = refl
dead_probe unknown h = absurd (cc)

ok-injective :
    (a b : Lease) (v w : World)
    → ◌≡◌ {A = Result AcquireError Lease × World} (ok a, v) (ok b, w)
    → (a ≡ b) × (v ≡ w)
ok-injective a b v w e = ground arith

acquire_over-ok :
    (p : Process) (input : AcquireInput) (env : Env) (w w' : World) (l : Lease) (token : String)
    (current : OwnerRecord)
    → w.file ≡ some (valid current)
    → acquire_over p input env w token current ≡ (ok l, w')
    → Owns p input w' l.owner × Follows input env w.file l.owner
unfolding acquire_over
acquire_over-ok p input env w w' l token current file e =
    elim (Bool-cases (is_exact_owner current input token p)) [
      | inl exact ↦
          let (same, left) = ok-injective _ l _ w' (rw exact at e) in
          rw⁻¹ (same, left) (exact-Owns current input token p w exact file, inl file)
      | inr differs ↦ elim (Bool-cases (is_dead (env.probe current.process_id))) [
        | inr lives ↦ absurd (ground arith)
        | inl gone ↦ elim (Bool-cases input.recover_stale) [
          | inr keeps ↦ absurd (ground arith)
          | inl recovers ↦
              let (owns, next) =
                take_over-ok p input env w w' l token (some current)
                  (rw (differs, gone, recovers) at e) in
              (owns, inr (inr (current, file, (dead_probe _ gone, recovers, next))))
        ]
      ]
    ]

acquire_read-ok :
    (p : Process) (input : AcquireInput) (env : Env) (w w' : World) (l : Lease)
    (file : Option OwnerText)
    → w.file ≡ file
    → acquire_read p input env w (read_owner file) ≡ (ok l, w')
    → Owns p input w' l.owner × Follows input env w.file l.owner
unfolding acquire_read read_owner
acquire_read-ok p input env w w' l none f e =
    let (owns, first) =
      take_over-ok p input env w w' l (or_else input.owner_token env.fresh_token) none e in
    (owns, inr (inl (f, first)))
acquire_read-ok p input env w w' l (some invalid) f e = absurd (ground arith)
acquire_read-ok p input env w w' l (some (valid current)) f e =
    acquire_over-ok p input env w w' l (or_else input.owner_token env.fresh_token) current f e

-- An acquisition that succeeds leaves the file with the owner that it returns, which is this process
-- under the input's authority. Either the file already named this very owner, and it is kept with its
-- epoch; or there was no file, and the epoch is 1; or the file named an owner whose process is dead,
-- recovery was asked for, and the epoch is one more than that owner's.
pub acquire-ok :
    (p : Process) (input : AcquireInput) (env : Env) (w w' : World) (l : Lease)
    → acquire p input env w ≡ (ok l, w')
    → Owns p input w' l.owner × Follows input env w.file l.owner
unfolding acquire
acquire-ok p input env w w' l e = acquire_read-ok p input env w w' l w.file refl e

-- The file is left, or it named the owner and is removed.
abbrev pub Releases : OwnerRecord → World → World → Type 0
Releases r w w' =
    (w'.file ≡ w.file)
    ⊎ ((w'.file ≡ none)
        × ((current : OwnerRecord) × (w.file ≡ some (valid current))
            × (current.owner_token ≡ r.owner_token)
            × (current.epoch ≡ r.epoch)))

release_file-file :
    (r : OwnerRecord) (unlinks : Bool) (w : World) (file : Option OwnerText)
    → w.file ≡ file
    → Releases r w (release_file r w unlinks (read_owner file)).1
unfolding release_file read_owner
release_file-file r unlinks w none f = inl refl
release_file-file r unlinks w (some invalid) f = inl refl
release_file-file r unlinks w (some (valid current)) f =
    elim (Bool-cases (current.owner_token == r.owner_token && current.epoch == r.epoch)) [
      | inr differs ↦ rw differs (inl refl)
      | inl own ↦ rw own (
          inr (
            refl,
            (
              current,
              f,
              ground (arith, ==_iff current.owner_token r.owner_token),
              ground (arith, ==_iff current.epoch r.epoch),
            ),
          ))
    ]

-- A release leaves the file as it is, or removes it, and then the file named the very owner that is
-- released, by token and epoch: a lease whose owner was replaced removes nothing.
pub release-file :
    (r : OwnerRecord) (unlinks : Bool) (w : World) → Releases r w (release r unlinks w).1
unfolding release
release-file r unlinks w =
    elim (Bool-cases (ltb 1 (or_else (w.references r.owner_token r.epoch) 1))) [
      | inl shared ↦ rw shared (inl refl)
      | inr last ↦ rw last (release_file-file r unlinks _ w.file refl)
    ]
