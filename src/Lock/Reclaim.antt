-- ===== src/Lock/Reclaim.antt =====
-- `reclaimStaleLock`, `restoreClaimByCopy`, `recoverStale` and the release of a lease in
-- src/state-repository/file-lock-facade.ts.
use deepseek_harness_relay_m.Base.{
  String, Bool, true, false, ℕ, Option, none, some, if◌then◌else◌, string_eq,
}
use deepseek_harness_relay_m.Base.Map
use deepseek_harness_relay_m.Base.Result.{Result, ok, err}
use deepseek_harness_relay_m.Types.Json.{Value, Fields, object}
use deepseek_harness_relay_m.Lock.Files.{
  Code, enoent, eexist, eperm, enosys, eopnotsupp, Content, text, undecodable, Files, Done, rename,
  link, unlink, create, write, restrict,
}
use deepseek_harness_relay_m.Lock.Record.{
  ReadLock, LockRecord, Inspection, inspected, OwnerState, alive, dead, unknown, matches, inspect,
  read_lock_record,
}

-- What goes wrong in each call, and what other processes do after the lock was claimed and before it
-- is copied back.
pub record Run : Type 0 where
  pub on_rename : Option Code
  pub on_read : Option Code
  pub on_delete : Option Code
  pub on_link : Option Code
  pub on_unlink : Option Code
  pub on_create : Option Code
  pub on_write : Option Content
  pub on_restrict : Option Code
  pub on_copied : Option Code
  pub after_claim : Files → Files
  pub before_copy : Files → Files

pub data Reason : Type 0 where
  missing deleted unreadable_claim restored path_reacquired claim_left restored_copy : Reason
  invalid_record : Reason
  owner_is : OwnerState → Reason

pub record Reclaimed : Type 0 where
  pub is_deleted : Bool
  pub reason : Reason

abbrev pub Outcome : Type 0
Outcome = Result Code Reclaimed × Files

abbrev pub kept : Reason → Files → Outcome
kept reason files = (ok (record { is_deleted = false; reason = reason }), files)

abbrev pub gone : Files → Outcome
gone files = (ok (record { is_deleted = true; reason = deleted }), files)

-- What `readTextFileStrict` and `JSON.parse` make of the claimed file.
pub data Claimed : Type 0 where
  unreadable vanished : Claimed
  parsed : String → Value → Claimed

parsed_text : String → Option Value → Claimed
parsed_text t none = unreadable
parsed_text t (some v) = parsed t v

claimed_content : (String → Option Value) → Option Content → Claimed
unfolding parsed_text
claimed_content parse none = vanished
claimed_content parse (some undecodable) = unreadable
claimed_content parse (some (text t)) = parsed_text t (parse t)

unfoldable pub read_claim : (String → Option Value) → Option Code → Option Content → Claimed
unfolding claimed_content
read_claim parse none content = claimed_content parse content
read_claim parse (some enoent) content = vanished
read_claim parse (some code) content = unreadable

-- `isRecord(claimed) && matches(claimed)`
unfoldable pub is_match : (Fields → Bool) → Value → Bool
is_match test (object fields) = test fields
is_match test v = false

module _ (run : Run) (lock_path tombstone : String) where
  unfoldable pub copied_unlink : Done → Outcome
  copied_unlink (ok _, files) = kept restored_copy files
  copied_unlink (err code, files) = (err code, files)

  unfoldable pub copied_restrict : Done → Outcome
  unfolding copied_unlink unlink
  copied_restrict (err code, files) = (err code, files)
  copied_restrict (ok _, files) = copied_unlink (unlink run.on_copied files tombstone)

  unfoldable pub copied_write : Done → Outcome
  unfolding copied_restrict restrict
  copied_write (err code, files) = (err code, files)
  copied_write (ok _, files) = copied_restrict (restrict run.on_restrict files)

  unfoldable pub copied_create : String → Done → Outcome
  unfolding copied_write write
  copied_create body (err eexist, files) = kept path_reacquired files
  copied_create body (err code, files) = kept claim_left files
  copied_create body (ok _, files) = copied_write (write run.on_write files lock_path body)

  unfoldable pub restore_claim_by_copy : String → Files → Outcome
  unfolding copied_create create
  restore_claim_by_copy body files =
      copied_create body (create run.on_create (run.before_copy files) lock_path)

  -- Whether the codes of a file system without hard links stand.
  abbrev lacks_links : Code → Bool
  lacks_links eperm = true
  lacks_links enosys = true
  lacks_links eopnotsupp = true
  lacks_links _ = false

  unfoldable pub link_failed : Option String → Code → Files → Outcome
  unfolding restore_claim_by_copy
  link_failed body eexist files = kept path_reacquired files
  link_failed none code files = (err code, files)
  link_failed (some body) code files =
      if lacks_links code then restore_claim_by_copy body files else (err code, files)

  -- The second `unlink` stands in the `try` of `link`.
  unfoldable pub relinked : Option String → Done → Outcome
  unfolding link_failed
  relinked body (ok _, files) = kept restored files
  relinked body (err enoent, files) = kept restored files
  relinked body (err code, files) = link_failed body code files

  unfoldable pub linked : Option String → Done → Outcome
  unfolding relinked link_failed unlink
  linked body (ok _, files) = relinked body (unlink run.on_unlink files tombstone)
  linked body (err code, files) = link_failed body code files

  unfoldable pub put_back : Option String → Files → Outcome
  unfolding linked link
  put_back body files = linked body (link run.on_link files tombstone lock_path)

  unfoldable pub deleted_claim : Done → Outcome
  deleted_claim (ok _, files) = gone files
  deleted_claim (err enoent, files) = gone files
  deleted_claim (err code, files) = (err code, files)

  unfoldable pub decide : (Fields → Bool) → Claimed → Files → Outcome
  unfolding put_back deleted_claim unlink is_match
  decide test unreadable files = kept unreadable_claim files
  decide test vanished files = put_back none files
  decide test (parsed body v) files =
      if is_match test v
      then deleted_claim (unlink run.on_delete files tombstone)
      else put_back (some body) files

  unfoldable pub claimed_lock : (String → Option Value) → (Fields → Bool) → Done → Outcome
  unfolding decide read_claim
  claimed_lock parse test (err enoent, files) = kept missing files
  claimed_lock parse test (err code, files) = (err code, files)
  claimed_lock parse test (ok _, files) =
      decide test (read_claim parse run.on_read (Map.get (run.after_claim files) tombstone))
        (run.after_claim files)

  unfoldable pub reclaim_stale_lock : (String → Option Value) → (Fields → Bool) → Files → Outcome
  unfolding claimed_lock rename
  reclaim_stale_lock parse test files =
      claimed_lock parse test (rename run.on_rename files lock_path tombstone)

  -- `recoverStale` after its call of `inspect`, whose result stands before what others did since.
  unfoldable pub recover_inspected : (String → Option Value) → Inspection → Files → Outcome
  unfolding reclaim_stale_lock
  recover_inspected parse Inspection.missing files = kept missing files
  recover_inspected parse Inspection.invalid files = kept invalid_record files
  recover_inspected parse (inspected r alive) files = kept (owner_is alive) files
  recover_inspected parse (inspected r unknown) files = kept (owner_is unknown) files
  recover_inspected parse (inspected r dead) files = reclaim_stale_lock parse (matches r) files

  unfoldable pub recover_read :
      (String → Option Value)
      → (ℕ → OwnerState)
      → (Files → Files)
      → Result Code ReadLock
      → Files
      → Outcome
  unfolding recover_inspected inspect
  recover_read parse probe meanwhile (err code) files = (err code, files)
  recover_read parse probe meanwhile (ok r) files =
      recover_inspected parse (inspect probe r) (meanwhile files)

  -- `recoverStale`; others act between the inspection and the claim.
  unfoldable pub recover_stale :
      (String → Option Value) → (ℕ → OwnerState) → Option Code → (Files → Files) → Files → Outcome
  unfolding recover_read read_lock_record
  recover_stale parse probe on_inspect meanwhile files =
      recover_read parse probe meanwhile (read_lock_record parse on_inspect files lock_path) files

-- A lease, with its flag `released`.
pub record Lease : Type 0 where
  pub expected : LockRecord
  pub is_released : Bool

pub data Released : Type 0 where
  answer : Bool → Released
  thrown : Code → Released

abbrev answered : Outcome → Released × Files
answered (ok r, files) = (answer r.is_deleted, files)
answered (err code, files) = (thrown code, files)

-- `release`, with the lease after it.
unfoldable pub release :
    Run → String → String → (String → Option Value) → Lease → Files → Released × Files × Lease
unfolding reclaim_stale_lock
release run lock_path tombstone parse lease files =
    if lease.is_released
    then (answer false, files, lease)
    else let (outcome, left) =
        answered
          (reclaim_stale_lock run lock_path tombstone parse (matches lease.expected) files) in
      (outcome, left, record lease { is_released = true })
