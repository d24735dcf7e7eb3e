-- ===== src/Lock/Recovery.antt =====
-- `recoverStale` of src/state-repository/file-lock-facade.ts where no call fails and no other process
-- acts meanwhile: which locks it removes.
use deepseek_harness_relay_m.Base.{
  ℕ, String, ◌≡◌, ◌≢◌, refl, inl, inr, Bool, true, false, ◌&&◌, Option, none, some, arith,
  string_eq, nat_eq, ==_iff, Bool-cases, Option-cases, if◌then◌else◌, is_some,
}
use deepseek_harness_relay_m.Base.Map
use deepseek_harness_relay_m.Base.Result.{Result, ok, err}
use deepseek_harness_relay_m.Types.Json.{
  Value, object, string, number, boolean, array, null, at, string_at,
}
use deepseek_harness_relay_m.Lock.Files.{
  Code, Content, text, undecodable, Files, rename, link, unlink,
}
use deepseek_harness_relay_m.Lock.Record.{
  LockRecord, ReadLock, absent, malformed, found, with_start, with_required, record_of,
  read_content, read_lock_record, Inspection, OwnerState, alive, dead, unknown, inspect, is_text,
  is_number, is_start, matches, number_at,
}
use deepseek_harness_relay_m.Lock.Reclaim.{
  Claimed, Run, Outcome, read_claim, is_match, put_back, decide, claimed_lock, reclaim_stale_lock,
  linked, relinked, deleted_claim, recover_inspected, recover_read, recover_stale,
}

-- No call fails, and no other process acts.
abbrev pub calm : Run
calm = record {
  on_rename = none;
  on_read = none;
  on_delete = none;
  on_link = none;
  on_unlink = none;
  on_create = none;
  on_write = none;
  on_restrict = none;
  on_copied = none;
  after_claim = λ files. files;
  before_copy = λ files. files;
}

with_start-matches :
    (started : Option Value) (token : String) (process : ℕ) (acquired : String) (r : LockRecord)
    → with_start started token process acquired ≡ found r
    → (is_start started r.process_started_at ≡ is_some r.process_started_at)
      × (token ≡ r.owner_token)
      × (process ≡ r.process_id)
unfolding with_start
with_start-matches none token process acquired r e = ground arith
with_start-matches (some (string s)) token process acquired r e = ground (arith, ==_iff s s)
with_start-matches (some (number n)) token process acquired r e = absurd (ground arith)
with_start-matches (some (boolean b)) token process acquired r e = absurd (ground arith)
with_start-matches (some (object fields)) token process acquired r e = absurd (ground arith)
with_start-matches (some (array vs)) token process acquired r e = absurd (ground arith)
with_start-matches (some null) token process acquired r e = absurd (ground arith)

-- A record that is read matches itself just if it names the owner's start.
with_required-matches :
    (token : Option String) (process : Option ℕ) (acquired : Option String) (started : Option Value)
    (r : LockRecord)
    → with_required token process acquired started ≡ found r
    → (is_text token r.owner_token
        && (is_number process r.process_id && is_start started r.process_started_at))
      ≡ is_some r.process_started_at
unfolding with_required
with_required-matches none process acquired started r e = absurd (ground arith)
with_required-matches (some token) none acquired started r e = absurd (ground arith)
with_required-matches (some token) (some process) none started r e = absurd (ground arith)
with_required-matches (some token) (some process) (some acquired) started r e =
    let all = with_start-matches started token process acquired r (ground arith) in
    ground (arith, all, ==_iff token r.owner_token, ==_iff process r.process_id)

record_of-matches :
    (v : Value) (r : LockRecord)
    → record_of (some v) ≡ found r
    → is_match (matches r) v ≡ is_some r.process_started_at
unfolding record_of is_match matches
record_of-matches (object fields) r e =
    with_required-matches (string_at fields "ownerToken") (number_at fields "processId")
      (string_at fields "acquiredAt") (at fields "processStartedAt") r e
record_of-matches (string s) r e = absurd (ground arith)
record_of-matches (number n) r e = absurd (ground arith)
record_of-matches (boolean b) r e = absurd (ground arith)
record_of-matches (array vs) r e = absurd (ground arith)
record_of-matches null r e = absurd (ground arith)

broken_record : (r : LockRecord) → record_of none ≢ found r
unfolding record_of
broken_record r e = cc

-- The answer, where the call returns: an exception deletes nothing.
abbrev pub deletes : Outcome → Bool
deletes (ok r, files) = r.is_deleted
deletes (err code, files) = false

module _ (lock_path tombstone : String) (distinct : lock_path ≢ tombstone) where
  -- The answer, and what the lock's name then holds.
  abbrev Ends : Bool → Option Content → Outcome → Type 0
  Ends answer content o = (deletes o ≡ answer) × (Map.get o.1 lock_path ≡ content)

  put_back-Ends :
      (body : Option String) (files : Files) (c : Content)
      → Map.get files tombstone ≡ some c
      → Map.get files lock_path ≡ none
      → Ends false (some c) (put_back calm lock_path tombstone body files)
  unfolding put_back link linked relinked unlink
  put_back-Ends body files c t l =
      let kept : Map.get (Map.set files lock_path c) tombstone ≡ some c =
        ground (arith, Map.get-set files lock_path tombstone c, ==_iff lock_path tombstone, t) in
      let left : Map.get (Map.delete (Map.set files lock_path c) tombstone) lock_path ≡ some c =
        ground (
          arith,
          Map.get-delete (Map.set files lock_path c) tombstone lock_path,
          Map.get-set files lock_path lock_path c,
          ==_iff tombstone lock_path,
          ==_iff lock_path lock_path,
        ) in
      rw (t, l, kept) (refl, left)

  delete-Ends :
      (files : Files) (c : Content)
      → Map.get files tombstone ≡ some c
      → Map.get files lock_path ≡ none
      → Ends true none (deleted_claim calm lock_path tombstone (unlink none files tombstone))
  unfolding deleted_claim unlink
  delete-Ends files c t l = rw t (refl, ground (arith, Map.get-delete files tombstone lock_path))

  module _ (parse : String → Option Value) (probe : ℕ → OwnerState) where
    abbrev is_dead : OwnerState → Bool
    is_dead dead = true
    is_dead _ = false

    -- A valid record of a dead owner that names the owner's start.
    abbrev pub is_recoverable : ReadLock → Bool
    is_recoverable absent = false
    is_recoverable malformed = false
    is_recoverable (found r) = is_dead (probe r.process_id) && is_some r.process_started_at

    abbrev pub is_recoverable_file : Result Code ReadLock → Bool
    is_recoverable_file (err code) = false
    is_recoverable_file (ok r) = is_recoverable r

    -- The claimed file, after the rename.
    decide-Ends :
        (body : String) (v : Value) (r : LockRecord) (files : Files)
        → record_of (some v) ≡ found r
        → Map.get files tombstone ≡ some (text body)
        → Map.get files lock_path ≡ none
        → Ends
            (is_some r.process_started_at)
            (if is_some r.process_started_at then none else some (text body))
            (decide calm lock_path tombstone (matches r) (Claimed.parsed body v) files)
    unfolding decide
    decide-Ends body v r files e t l =
        rw (record_of-matches v r e) (elim (Bool-cases (is_some r.process_started_at)) [
          | inl named ↦ rw named (delete-Ends files (text body) t l)
          | inr legacy ↦ rw legacy (put_back-Ends (some body) files (text body) t l)
        ])

    reclaim-Ends :
        (body : String) (v : Value) (r : LockRecord) (files : Files)
        → parse body ≡ some v
        → record_of (some v) ≡ found r
        → Map.get files lock_path ≡ some (text body)
        → Ends
            (is_some r.process_started_at)
            (if is_some r.process_started_at then none else some (text body))
            (reclaim_stale_lock calm lock_path tombstone parse (matches r) files)
    unfolding reclaim_stale_lock rename claimed_lock read_claim
    reclaim-Ends body v r files p e h =
        let claimed_at : Map.get (Map.set (Map.delete files lock_path) tombstone (text body))
              tombstone
            ≡ some (text body) =
          ground (
            arith,
            Map.get-set (Map.delete files lock_path) tombstone tombstone (text body),
            ==_iff tombstone tombstone,
          ) in
        let free : Map.get (Map.set (Map.delete files lock_path) tombstone (text body)) lock_path
            ≡ none =
          ground (
            arith,
            Map.get-set (Map.delete files lock_path) tombstone lock_path (text body),
            Map.get-delete files lock_path lock_path,
            ==_iff tombstone lock_path,
            ==_iff lock_path lock_path,
          ) in
        rw (h, claimed_at, p) (decide-Ends body v r _ e claimed_at free)

    found-Ends :
        (state : OwnerState) (body : String) (v : Value) (r : LockRecord) (files : Files)
        → parse body ≡ some v
        → record_of (some v) ≡ found r
        → Map.get files lock_path ≡ some (text body)
        → Ends
            (is_dead state && is_some r.process_started_at)
            (if is_dead state && is_some r.process_started_at then none else some (text body))
            (recover_inspected calm lock_path tombstone parse (Inspection.inspected r state) files)
    unfolding recover_inspected
    found-Ends alive body v r files p e h = (refl, h)
    found-Ends unknown body v r files p e h = (refl, h)
    found-Ends dead body v r files p e h = reclaim-Ends body v r files p e h

    read-Ends :
        (read : ReadLock) (body : String) (files : Files)
        → record_of (parse body) ≡ read
        → Map.get files lock_path ≡ some (text body)
        → Ends
            (is_recoverable read)
            (if is_recoverable read then none else some (text body))
            (recover_inspected calm lock_path tombstone parse (inspect probe read) files)
    unfolding inspect recover_inspected
    read-Ends absent body files e h = (refl, h)
    read-Ends malformed body files e h = (refl, h)
    read-Ends (found r) body files e h = elim (Option-cases (parse body)) [
      | inl broken ↦ absurd (broken_record r (rw broken at e))
      | inr (v, p) ↦ found-Ends (probe r.process_id) body v r files p (rw p at e) h
    ]

    content-Ends :
        (content : Option Content) (files : Files)
        → Map.get files lock_path ≡ content
        → Ends
            (is_recoverable_file (read_content parse content))
            (if is_recoverable_file (read_content parse content) then none else content)
            (recover_read calm lock_path tombstone parse probe
              (λ f. f)
              (read_content parse content)
              files)
    unfolding recover_read read_content recover_inspected inspect
    content-Ends none files h = (refl, h)
    content-Ends (some undecodable) files h = (refl, h)
    content-Ends (some (text body)) files h = read-Ends (record_of (parse body)) body files refl h

    -- Where no call fails and nobody interferes, `recoverStale` removes the lock just if the file
    -- holds a valid record that names the owner's start and whose process is dead, and says so; else
    -- it leaves the lock's content as it was.
    pub recover_stale-removes :
        (files : Files)
        → (deletes (recover_stale calm lock_path tombstone parse probe none (λ f. f) files)
            ≡ is_recoverable_file (read_content parse (Map.get files lock_path)))
          × (Map.get
                (recover_stale calm lock_path tombstone parse probe none (λ f. f) files).1
                lock_path
              ≡ (if is_recoverable_file (read_content parse (Map.get files lock_path))
                  then none
                  else Map.get files lock_path))
    unfolding recover_stale read_lock_record
    recover_stale-removes files = content-Ends (Map.get files lock_path) files refl
