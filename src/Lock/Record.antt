-- ===== src/Lock/Record.antt =====
-- `readLockRecord` and `inspect` of src/state-repository/file-lock-facade.ts. `JSON.parse` is the
-- argument `parse`, which is `none` where it throws.
use deepseek_harness_relay_m.Base.{
  ℕ, String, Bool, true, false, not, ◌&&◌, Option, none, some, leb, ◌==◌, nat_eq, string_eq,
  if◌then◌else◌,
}
use deepseek_harness_relay_m.Base.Map
use deepseek_harness_relay_m.Base.Result.{Result, ok, err}
use deepseek_harness_relay_m.Types.Json.{Value, Fields, string, number, object, null, at, string_at}
use deepseek_harness_relay_m.Lock.Files.{Code, failure, Content, text, undecodable, Files}

pub record LockRecord : Type 0 where
  pub owner_token : String
  pub process_id : ℕ
  pub process_started_at : Option String
  pub acquired_at : String

-- `ReadLockResult | null`, and its `invalid`.
pub data ReadLock : Type 0 where
  absent malformed : ReadLock
  found : LockRecord → ReadLock

-- `Number.isSafeInteger(n) && n > 0`
abbrev pub is_process_id : ℕ → Bool
is_process_id n = leb 1 n && leb n 9007199254740991

-- `processStartedAt`: missing in a legacy record, otherwise a text.
unfoldable pub with_start : Option Value → String → ℕ → String → ReadLock
with_start none token process acquired = found (record {
  owner_token = token;
  process_id = process;
  process_started_at = none;
  acquired_at = acquired;
})
with_start (some (string started)) token process acquired = found (record {
  owner_token = token;
  process_id = process;
  process_started_at = some started;
  acquired_at = acquired;
})
with_start (some v) token process acquired = malformed

abbrev as_number : Option Value → Option ℕ
as_number (some (number n)) = some n
as_number _ = none

-- The number in a field, if it holds one.
unfoldable pub number_at : Fields → String → Option ℕ
unfolding at
number_at fields key = as_number (at fields key)

unfoldable pub with_required : Option String → Option ℕ → Option String → Option Value → ReadLock
unfolding with_start
with_required (some token) (some process) (some acquired) started =
    if not (token == "") && is_process_id process
    then with_start started token process acquired
    else malformed
with_required _ _ _ _ = malformed

unfoldable pub record_of : Option Value → ReadLock
unfolding with_required at string_at number_at
record_of (some (object fields)) =
    with_required (string_at fields "ownerToken") (number_at fields "processId")
      (string_at fields "acquiredAt") (at fields "processStartedAt")
record_of _ = malformed

-- `readTextFileStrict` and `readLockRecord`; `fault` is the error of `readFile`.
unfoldable pub read_content : (String → Option Value) → Option Content → Result Code ReadLock
unfolding record_of
read_content parse none = ok absent
read_content parse (some undecodable) = err failure
read_content parse (some (text t)) = ok (record_of (parse t))

unfoldable pub read_lock_record :
    (String → Option Value) → Option Code → Files → String → Result Code ReadLock
unfolding read_content
read_lock_record parse (some code) files path = err code
read_lock_record parse none files path = read_content parse (Map.get files path)

-- `LockOwnerState` of a valid record.
pub data OwnerState : Type 0 where
  alive dead unknown : OwnerState

-- `FileLockInspection`, without the path and the detail.
pub data Inspection : Type 0 where
  missing invalid : Inspection
  inspected : LockRecord → OwnerState → Inspection

unfoldable pub inspect : (ℕ → OwnerState) → ReadLock → Inspection
inspect probe absent = missing
inspect probe malformed = invalid
inspect probe (found r) = inspected r (probe r.process_id)

-- `record.ownerToken === expected.ownerToken`, and the same for the process.
abbrev pub is_text : Option String → String → Bool
is_text none expected = false
is_text (some s) expected = s == expected

abbrev pub is_number : Option ℕ → ℕ → Bool
is_number none expected = false
is_number (some n) expected = n == expected

-- `record.processStartedAt === expected.processStartedAt`: a missing field is `undefined`, which
-- differs from `null`.
abbrev pub is_start : Option Value → Option String → Bool
is_start (some (string s)) (some expected) = s == expected
is_start (some null) none = true
is_start _ _ = false

-- The comparison that `recoverStale` and `release` pass to `reclaimStaleLock`.
unfoldable pub matches : LockRecord → Fields → Bool
unfolding at string_at number_at
matches expected fields =
    is_text (string_at fields "ownerToken") expected.owner_token
    && (is_number (number_at fields "processId") expected.process_id
        && is_start (at fields "processStartedAt") expected.process_started_at)
