-- ===== src/Lock/Exclusion.antt =====
-- `acquire` of src/state-repository/file-lock-facade.ts while another process holds the lock, whichever
-- of its calls fail.
use deepseek_harness_relay_m.Base.{
  ℕ, zero, suc, String, ◌≡◌, ◌≢◌, refl, inl, inr, Option, none, some, arith, leb, string_eq, ==_iff,
  Option-cases, Bool-cases,
}
use deepseek_harness_relay_m.Base.Map
use deepseek_harness_relay_m.Base.Result.{Result, ok, err}
use deepseek_harness_relay_m.Types.Json.{Value}
use deepseek_harness_relay_m.Lock.Files.{
  Code, enoent, eexist, eperm, enosys, eopnotsupp, failure, Content, text, Files, Done, link,
  unlink, create, write, restrict,
}
use deepseek_harness_relay_m.Lock.Record.{LockRecord, ReadLock, read_lock_record}
use deepseek_harness_relay_m.Lock.Acquire.{
  Round, Ended, leased, Owner, after_read, after_cleanup, cleaned, failed_created, linked,
  restricted, written, created, round, acquire,
}

-- A call on another path leaves the lock file.
module _ (lock_path : String) (c : Content) where
  abbrev Holds : Files → Type 0
  Holds files = Map.get files lock_path ≡ some c

  create-Holds :
      (fault : Option Code) (files : Files) (path : String)
      → path ≢ lock_path
      → Holds files
      → Holds (create fault files path).1
  unfolding create
  create-Holds (some code) files path apart h = h
  create-Holds none files path apart h = elim (Option-cases (Map.get files path)) [
    | inl free ↦
        rw free (ground (arith, Map.get-set files path lock_path (text ""), ==_iff path lock_path))
    | inr (d, taken) ↦ rw taken h
  ]

  write-Holds :
      (fault : Option Content) (files : Files) (path body : String)
      → path ≢ lock_path
      → Holds files
      → Holds (write fault files path body).1
  unfolding write
  write-Holds none files path body apart h =
      ground (arith, Map.get-set files path lock_path (text body), ==_iff path lock_path)
  write-Holds (some partial) files path body apart h =
      ground (arith, Map.get-set files path lock_path partial, ==_iff path lock_path)

  unlink-Holds :
      (fault : Option Code) (files : Files) (path : String)
      → path ≢ lock_path
      → Holds files
      → Holds (unlink fault files path).1
  unfolding unlink
  unlink-Holds (some code) files path apart h = h
  unlink-Holds none files path apart h = elim (Option-cases (Map.get files path)) [
    | inl free ↦ rw free h
    | inr (d, taken) ↦
        rw taken (ground (arith, Map.get-delete files path lock_path, ==_iff path lock_path))
  ]

  -- A link to a held lock fails, and leaves it.
  link-Holds :
      (fault : Option Code) (files : Files) (path : String)
      → Holds files
      → (code : Code) × (link fault files path lock_path ≡ (err code, files))
  unfolding link
  link-Holds (some code) files path h = (code, refl)
  link-Holds none files path h = elim (Option-cases (Map.get files path)) [
    | inl free ↦ rw free (Code.enoent, refl)
    | inr (d, taken) ↦ rw (taken, h) (Code.eexist, refl)
  ]

module _ (parse : String → Option Value) (print : LockRecord → String) (owner : Owner)
    (lock_path : String) (deadline : ℕ) (c : Content) where
  -- The lock file is as it was, and no lease was returned.
  abbrev pub Excluded : Ended × Files → Type 0
  Excluded e = ((r : LockRecord) → e.0 ≢ leased r) × (Map.get e.1 lock_path ≡ some c)

  module _ (r : Round) (rest : Files → Ended × Files) (apart : r.temporary ≢ lock_path)
      (goes_on : (files : Files) → Holds lock_path c files → Excluded (rest files)) where
    after_read-Excluded :
        (read : Result Code ReadLock) (files : Files)
        → Holds lock_path c files
        → Excluded (after_read parse print owner lock_path deadline r read files (rest files))
    unfolding after_read
    after_read-Excluded (err code) files h = (λ l. cc, h)
    after_read-Excluded (ok read) files h = elim (Bool-cases (leb deadline r.clock)) [
      | inl late ↦ rw late (λ l. cc, h)
      | inr early ↦ rw early (goes_on files h)
    ]

    after_cleanup-Excluded :
        (code : Code) (files : Files)
        → Holds lock_path c files
        → Excluded (after_cleanup parse print owner lock_path deadline r code files (rest files))
    unfolding after_cleanup
    after_cleanup-Excluded eexist files h =
        after_read-Excluded (read_lock_record parse r.on_read files lock_path) files h
    after_cleanup-Excluded enoent files h = (λ l. cc, h)
    after_cleanup-Excluded eperm files h = (λ l. cc, h)
    after_cleanup-Excluded enosys files h = (λ l. cc, h)
    after_cleanup-Excluded eopnotsupp files h = (λ l. cc, h)
    after_cleanup-Excluded failure files h = (λ l. cc, h)

    cleaned-Excluded :
        (d : Done) (code : Code)
        → Holds lock_path c d.1
        → Excluded (cleaned parse print owner lock_path deadline r code d rest)
    unfolding cleaned
    cleaned-Excluded (ok _, files) code h = after_cleanup-Excluded code files h
    cleaned-Excluded (err enoent, files) code h = after_cleanup-Excluded code files h
    cleaned-Excluded (err eexist, files) code h = (λ l. cc, h)
    cleaned-Excluded (err eperm, files) code h = (λ l. cc, h)
    cleaned-Excluded (err enosys, files) code h = (λ l. cc, h)
    cleaned-Excluded (err eopnotsupp, files) code h = (λ l. cc, h)
    cleaned-Excluded (err failure, files) code h = (λ l. cc, h)

    failed_created-Excluded :
        (code : Code) (files : Files)
        → Holds lock_path c files
        → Excluded (failed_created parse print owner lock_path deadline r code files rest)
    unfolding failed_created
    failed_created-Excluded code files h =
        cleaned-Excluded (unlink r.on_cleanup files r.temporary) code
          (unlink-Holds lock_path c r.on_cleanup files r.temporary apart h)

    restricted-Excluded :
        (d : Done)
        → Holds lock_path c d.1
        → Excluded (restricted parse print owner lock_path deadline r d rest)
    unfolding restricted linked
    restricted-Excluded (err code, files) h = failed_created-Excluded code files h
    restricted-Excluded (ok _, files) h =
        let (code, fails) = link-Holds lock_path c r.on_link files r.temporary h in
        rw fails (failed_created-Excluded code files h)

    restrict-Holds :
        (fault : Option Code) (files : Files)
        → Holds lock_path c files
        → Holds lock_path c (restrict fault files).1
    unfolding restrict
    restrict-Holds none files h = h
    restrict-Holds (some code) files h = h

    written-Excluded :
        (d : Done)
        → Holds lock_path c d.1
        → Excluded (written parse print owner lock_path deadline r d rest)
    unfolding written
    written-Excluded (err code, files) h = failed_created-Excluded code files h
    written-Excluded (ok _, files) h =
        restricted-Excluded (restrict r.on_restrict files) (restrict-Holds r.on_restrict files h)

    created-Excluded :
        (d : Done)
        → Holds lock_path c d.1
        → Excluded (created parse print owner lock_path deadline r d rest)
    unfolding created
    created-Excluded (err code, files) h = after_cleanup-Excluded code files h
    created-Excluded (ok _, files) h =
        written-Excluded (write r.on_write files r.temporary _)
          (write-Holds lock_path c r.on_write files r.temporary _ apart h)

    round-Excluded :
        (files : Files)
        → Holds lock_path c (r.before files)
        → Excluded (round parse print owner lock_path deadline r files rest)
    unfolding round
    round-Excluded files h =
        created-Excluded (create r.on_create (r.before files) r.temporary)
          (create-Holds lock_path c r.on_create (r.before files) r.temporary apart h)

  -- A held lock is never taken: whichever calls fail and however many rounds there are, if the
  -- lock's file has a content that the other processes leave in place, `acquire` returns no lease
  -- and leaves that content.
  pub acquire-Excluded :
      (rounds : ℕ → Round) (fuel n : ℕ) (files : Files)
      → ((i : ℕ) → (rounds i).temporary ≢ lock_path)
      → ((i : ℕ) (left : Files)
          → Map.get left lock_path ≡ some c
          → Map.get ((rounds i).before left) lock_path ≡ some c)
      → Map.get files lock_path ≡ some c
      → Excluded (acquire parse print owner lock_path deadline rounds fuel n files)
  unfolding acquire
  acquire-Excluded rounds zero n files apart quiet h = (λ l. cc, h)
  acquire-Excluded rounds (suc fuel) n files apart quiet h =
      round-Excluded (rounds n) _ (apart n)
        (λ left held. acquire-Excluded rounds fuel (suc n) left apart quiet held) files
        (quiet n files h)
