-- ===== src/Lock/Acquire.antt =====
-- `acquire` of src/state-repository/file-lock-facade.ts. Round n of its loop meets a fresh token, the
-- clock, what goes wrong in each call, and what other processes did since the round before, which are
-- arguments; `JSON.stringify` is `print`.
use deepseek_harness_relay_m.Base.{
  ℕ, zero, suc, String, Option, some, leb, string_eq, if◌then◌else◌,
}
use deepseek_harness_relay_m.Base.Result.{Result, ok, err}
use deepseek_harness_relay_m.Types.Json.{Value}
use deepseek_harness_relay_m.Lock.Files.{
  Code, enoent, eexist, Content, Files, Done, link, unlink, create, write, restrict,
}
use deepseek_harness_relay_m.Lock.Record.{LockRecord, ReadLock, read_lock_record}

pub record Round : Type 0 where
  pub token : String
  pub temporary : String
  pub acquired_at : String
  pub before : Files → Files
  pub on_create : Option Code
  pub on_write : Option Content
  pub on_restrict : Option Code
  pub on_link : Option Code
  pub on_unlink : Option Code
  pub on_cleanup : Option Code
  pub on_read : Option Code
  pub clock : ℕ

pub data Ended : Type 0 where
  leased : LockRecord → Ended
  thrown : Code → Ended
  timed_out out_of_fuel : Ended

-- `processId` and `processStartedAt` of the facade.
pub record Owner : Type 0 where
  pub process_id : ℕ
  pub process_started_at : String

unfoldable pub record_for : Owner → Round → LockRecord
record_for owner r = record {
  owner_token = r.token;
  process_id = owner.process_id;
  process_started_at = some owner.process_started_at;
  acquired_at = r.acquired_at;
}

-- `deadline` is the time at which the call gives up.
module _ (parse : String → Option Value) (print : LockRecord → String) (owner : Owner)
    (lock_path : String) (deadline : ℕ) where
  -- After `readLockRecord` in the handler of the error.
  unfoldable pub after_read : Round → Result Code ReadLock → Files → Ended × Files → Ended × Files
  after_read r (err code) files rest = (thrown code, files)
  after_read r (ok read) files rest = if leb deadline r.clock then (timed_out, files) else rest

  -- After the temporary file was removed: only EEXIST is waited out.
  unfoldable pub after_cleanup : Round → Code → Files → Ended × Files → Ended × Files
  unfolding after_read read_lock_record
  after_cleanup r eexist files rest =
      after_read r (read_lock_record parse r.on_read files lock_path) files rest
  after_cleanup r code files rest = (thrown code, files)

  unfoldable pub cleaned : Round → Code → Done → (Files → Ended × Files) → Ended × Files
  unfolding after_cleanup
  cleaned r code (ok _, files) rest = after_cleanup r code files (rest files)
  cleaned r code (err enoent, files) rest = after_cleanup r code files (rest files)
  cleaned r code (err failed, files) rest = (thrown failed, files)

  -- The handler of an error that was thrown once the temporary file existed.
  unfoldable pub failed_created : Round → Code → Files → (Files → Ended × Files) → Ended × Files
  unfolding cleaned unlink
  failed_created r code files rest = cleaned r code (unlink r.on_cleanup files r.temporary) rest

  unfoldable pub unlinked : Round → Done → (Files → Ended × Files) → Ended × Files
  unfolding failed_created record_for
  unlinked r (ok _, files) rest = (leased (record_for owner r), files)
  unlinked r (err code, files) rest = failed_created r code files rest

  unfoldable pub linked : Round → Done → (Files → Ended × Files) → Ended × Files
  unfolding unlinked failed_created unlink
  linked r (err code, files) rest = failed_created r code files rest
  linked r (ok _, files) rest = unlinked r (unlink r.on_unlink files r.temporary) rest

  unfoldable pub restricted : Round → Done → (Files → Ended × Files) → Ended × Files
  unfolding linked failed_created link
  restricted r (err code, files) rest = failed_created r code files rest
  restricted r (ok _, files) rest = linked r (link r.on_link files r.temporary lock_path) rest

  unfoldable pub written : Round → Done → (Files → Ended × Files) → Ended × Files
  unfolding restricted failed_created restrict
  written r (err code, files) rest = failed_created r code files rest
  written r (ok _, files) rest = restricted r (restrict r.on_restrict files) rest

  unfoldable pub created : Round → Done → (Files → Ended × Files) → Ended × Files
  unfolding written write after_cleanup record_for
  created r (err code, files) rest = after_cleanup r code files (rest files)
  created r (ok _, files) rest =
      written r (write r.on_write files r.temporary (print (record_for owner r))) rest

  -- One round; `rest` is the loop from the next round on.
  unfoldable pub round : Round → Files → (Files → Ended × Files) → Ended × Files
  unfolding created create
  round r files rest = created r (create r.on_create (r.before files) r.temporary) rest

  unfoldable pub acquire : (ℕ → Round) → ℕ → ℕ → Files → Ended × Files
  unfolding round
  acquire rounds zero n files = (out_of_fuel, files)
  acquire rounds (suc fuel) n files =
      let rest : Files → Ended × Files = λ left. acquire rounds fuel (suc n) left in
      round (rounds n) files rest
