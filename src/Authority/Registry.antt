-- ===== src/Authority/Registry.antt =====
-- src/authority/authority-registry-facade.ts: the owner file of one Host, under the registry guard,
-- which lets one process in at a time. The Host's normalised identity, the process probe, the clock and
-- the outcome of the write are arguments.
use deepseek_harness_relay_m.Base.{
  ℕ, ◌+◌, ◌-◌, String, Bool, true, false, not, ◌&&◌, Option, none, some, ltb, ◌==◌, nat_eq,
  string_eq, if◌then◌else◌, or_else,
}
use deepseek_harness_relay_m.Base.Result.{Result, ok, err}
use deepseek_harness_relay_m.Base.Stamp.{Stamp, iso, other}
use deepseek_harness_relay_m.Types.{AuthorityMode, embedded, standalone}
use deepseek_harness_relay_m.StateStore.{WriteOutcome, written, lost, promoted_then_failed}

pub record OwnerRecord : Type 0 where
  pub host_identity : String
  pub authority_id : String
  pub mode : AuthorityMode
  pub instance_id : String
  pub owner_token : String
  pub epoch : ℕ
  pub process_id : ℕ
  pub process_started_at : Stamp
  pub acquired_at : Stamp
  pub updated_at : Stamp

-- The content of the owner file: a text that `ownerSchema` takes, or another.
pub data OwnerText : Type 0 where
  valid : OwnerRecord → OwnerText
  invalid : OwnerText

pub record AcquireInput : Type 0 where
  pub host_identity : String
  pub authority_id : String
  pub mode : AuthorityMode
  pub instance_id : String
  pub owner_token : Option String
  pub recover_stale : Bool

pub record Process : Type 0 where
  pub process_id : ℕ
  pub process_started_at : Stamp

pub data Liveness : Type 0 where
  alive dead unknown : Liveness

-- `AuthorityConflictError` by its code, or the error of a failed write.
pub data AcquireError : Type 0 where
  owned stale_owner : OwnerRecord → AcquireError
  registry_invalid write_failed : AcquireError

-- The owner file, and `activeLeaseReferences` of the process, by token and epoch.
pub record World : Type 0 where
  pub file : Option OwnerText
  pub references : String → ℕ → Option ℕ

pub record Lease : Type 0 where
  pub owner : OwnerRecord
  pub reused : Bool

-- What a call of `acquire` meets outside.
pub record Env : Type 0 where
  pub probe : ℕ → Liveness
  pub now : ℕ
  pub fresh_token : String
  pub write : WriteOutcome

unfoldable pub read_owner : Option OwnerText → Result AcquireError (Option OwnerRecord)
read_owner none = ok none
read_owner (some invalid) = err registry_invalid
read_owner (some (valid r)) = ok (some r)

abbrev pub same_mode : AuthorityMode → AuthorityMode → Bool
same_mode embedded embedded = true
same_mode standalone standalone = true
same_mode _ _ = false

abbrev pub same_stamp : Stamp → Stamp → Bool
same_stamp (iso m) (iso n) = m == n
same_stamp (other s) (other t) = s == t
same_stamp _ _ = false

unfoldable pub is_exact_owner : OwnerRecord → AcquireInput → String → Process → Bool
is_exact_owner r input token p =
    r.owner_token == token
    && (r.authority_id == input.authority_id
        && (same_mode r.mode input.mode
            && (r.instance_id == input.instance_id
                && (r.process_id == p.process_id
                    && same_stamp r.process_started_at p.process_started_at))))

abbrev pub with_references :
    (String → ℕ → Option ℕ) → OwnerRecord → Option ℕ → String → ℕ → Option ℕ
with_references references r count token epoch =
    if token == r.owner_token && epoch == r.epoch then count else references token epoch

-- `#lease`
unfoldable pub lease : World → OwnerRecord → Bool → Lease × World
lease w r reused = (
  record { owner = r; reused = reused },
  record w {
    references =
        with_references w.references r (some (or_else (w.references r.owner_token r.epoch) 0 + 1));
  },
)

abbrev pub previous_epoch : Option OwnerRecord → ℕ
previous_epoch none = 0
previous_epoch (some r) = r.epoch

unfoldable pub new_owner : Process → AcquireInput → Env → String → Option OwnerRecord → OwnerRecord
new_owner p input env token current = record {
  host_identity = input.host_identity;
  authority_id = input.authority_id;
  mode = input.mode;
  instance_id = input.instance_id;
  owner_token = token;
  epoch = previous_epoch current + 1;
  process_id = p.process_id;
  process_started_at = p.process_started_at;
  acquired_at = iso env.now;
  updated_at = iso env.now;
}

-- `atomicWriteJson`, then the lease.
unfoldable pub write_owner : WriteOutcome → World → OwnerRecord → Result AcquireError Lease × World
unfolding lease
write_owner written w r =
    let (l, left) = lease (record w { file = some (valid r) }) r false in (ok l, left)
write_owner lost w r = (err write_failed, w)
write_owner promoted_then_failed w r = (err write_failed, record w { file = some (valid r) })

-- `acquire` from the new record on.
unfoldable pub take_over :
    Process
    → AcquireInput
    → Env
    → World
    → String
    → Option OwnerRecord
    → Result AcquireError Lease × World
unfolding new_owner write_owner
take_over p input env w token current =
    write_owner env.write w (new_owner p input env token current)

abbrev pub is_dead : Liveness → Bool
is_dead dead = true
is_dead _ = false

unfoldable pub acquire_over :
    Process → AcquireInput → Env → World → String → OwnerRecord → Result AcquireError Lease × World
unfolding take_over is_exact_owner lease
acquire_over p input env w token current =
    let (l, left) = lease w current true in
    if is_exact_owner current input token p
    then (ok l, left)
    else if not (is_dead (env.probe current.process_id))
    then (err (owned current), w)
    else if not input.recover_stale
    then (err (stale_owner current), w)
    else take_over p input env w token (some current)

unfoldable pub acquire_read :
    Process
    → AcquireInput
    → Env
    → World
    → Result AcquireError (Option OwnerRecord)
    → Result AcquireError Lease × World
unfolding acquire_over
acquire_read p input env w (err e) = (err e, w)
acquire_read p input env w (ok none) =
    take_over p input env w (or_else input.owner_token env.fresh_token) none
acquire_read p input env w (ok (some current)) =
    acquire_over p input env w (or_else input.owner_token env.fresh_token) current

unfoldable pub acquire : Process → AcquireInput → Env → World → Result AcquireError Lease × World
unfolding acquire_read read_owner
acquire p input env w = acquire_read p input env w (read_owner w.file)

-- A release whose `released` flag is not set yet; the flag is the caller's. `unlinks` says whether the
-- file is still there for `unlink`.
unfoldable pub release_file :
    OwnerRecord
    → World
    → Bool
    → Result AcquireError (Option OwnerRecord)
    → Result AcquireError Bool × World
release_file r w unlinks (err e) = (err e, w)
release_file r w unlinks (ok none) = (ok false, w)
release_file r w unlinks (ok (some current)) =
    if current.owner_token == r.owner_token && current.epoch == r.epoch
    then (ok unlinks, record w { file = none })
    else (ok false, w)

unfoldable pub release : OwnerRecord → Bool → World → Result AcquireError Bool × World
unfolding release_file read_owner
release r unlinks w =
    let count = or_else (w.references r.owner_token r.epoch) 1 in
    if ltb 1 count
    then (ok false, record w { references = with_references w.references r (some (count - 1)) })
    else release_file r (record w { references = with_references w.references r none }) unlinks
        (read_owner w.file)
