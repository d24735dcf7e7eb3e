-- ===== src/Lock/Tests.antt =====
-- Runs of src/state-repository/file-lock-facade.ts. The texts of the lock's records are read by a
-- small table.
use deepseek_harness_relay_m.Base.{
  ℕ, ◌<◌, String, ◌≡◌, ◌≢◌, refl, true, false, Option, none, some, [], ◌∷◌, arith, ◌==◌, string_eq,
  nat_eq, if◌then◌else◌,
}
use deepseek_harness_relay_m.Base.Map
use deepseek_harness_relay_m.Base.Result.{ok}
use deepseek_harness_relay_m.Types.Json.{Value, Fields, string, number, object, field, end}
use deepseek_harness_relay_m.Lock.Files.{text, Files, eperm, failure}
use deepseek_harness_relay_m.Lock.Record.{LockRecord, dead, record_of, read_content, matches}
use deepseek_harness_relay_m.Lock.Reclaim.{
  Run, recover_stale, reclaim_stale_lock, deleted, path_reacquired, Lease, release, answer,
}
use deepseek_harness_relay_m.Lock.NeverLost.{Quiet, Settled, reclaim_stale_lock-Settled}
use deepseek_harness_relay_m.Lock.Recovery.{calm, deletes, recover_stale-removes}
use deepseek_harness_relay_m.Lock.Acquire.{Round, Owner, leased, record_for, acquire}
use deepseek_harness_relay_m.Lock.Waiting.{Works, acquire-leased}
use deepseek_harness_relay_m.Lock.Exclusion.{Excluded, acquire-Excluded}

abbrev fields_of : String → Fields → Fields
fields_of token rest =
    field "ownerToken" (string token)
      (field "processId" (number 7) (field "acquiredAt" (string "t") rest))

abbrev parse : String → Option Value
parse t =
    if t == "new"
    then some (object (fields_of "a" (field "processStartedAt" (string "s") end)))
    else if t == "legacy"
    then some (object (fields_of "a" end))
    else none

abbrev files : String → Files
files t = ("lock", text t) ∷ []

abbrev lock_name : String
lock_name = "lock"

abbrev stale_name : String
stale_name = "stale"

abbrev temporary_name : String
temporary_name = "temporary"

distinct : lock_name ≢ stale_name
distinct e = absurd (cc)

-- A stale lock that names its owner's start is removed; a legacy one is put back.
new_removed :
    recover_stale calm "lock" "stale" parse (λ id. dead) none (λ f. f) (files "new")
    ≡ (ok (record { is_deleted = true; reason = deleted }), [])
unfolding recover_stale Map.get Map.set Map.delete matches
new_removed = refl

recover_stale-removes_example :
    (deletes (recover_stale calm "lock" "stale" parse (λ id. dead) none (λ f. f) (files "legacy"))
      ≡ false)
    × (Map.get
          (recover_stale calm "lock" "stale" parse (λ id. dead) none (λ f. f) (files "legacy")).1
          "lock"
        ≡ some (text "legacy"))
unfolding Map.get Map.set read_content record_of
recover_stale-removes_example =
    recover_stale-removes "lock" "stale" distinct parse (λ id. dead) (files "legacy")

-- No hard links, and another process takes the lock before the copy.
abbrev without_links : Run
without_links = record calm {
  on_link = some eperm;
  before_copy = λ f. Map.set f "lock" (text "other");
}

quiet : Quiet without_links "lock" "stale" distinct
quiet = (λ f. refl, λ f. ground (arith, Map.get-set f "lock" "stale" (text "other")))

reacquired : reclaim_stale_lock without_links "lock" "stale" parse (λ f. false) (files "new") ≡ (
  ok (record { is_deleted = false; reason = path_reacquired }),
  ("stale", text "new") ∷ ("lock", text "other") ∷ [],
)
unfolding reclaim_stale_lock Map.get Map.set Map.delete
reacquired = refl

reclaim_stale_lock-Settled_example :
    Settled without_links "lock" "stale" distinct quiet parse
      (λ f. false)
      (text "new")
      (
        ok (record { is_deleted = false; reason = path_reacquired }),
        ("stale", text "new") ∷ ("lock", text "other") ∷ [],
      )
unfolding reclaim_stale_lock Map.get Map.set Map.delete
reclaim_stale_lock-Settled_example =
    reclaim_stale_lock-Settled without_links "lock" "stale" distinct quiet parse (λ f. false)
      (files "new") (text "new") refl

abbrev owner : Owner
owner = record { process_id = 7; process_started_at = "s" }

abbrev print : LockRecord → String
print r = "new"

-- The lock is held in round 0, and free from round 1 on.
abbrev others : ℕ → Files → Files
others n f = if n == 0 then files "other" else []

abbrev rounds : ℕ → Round
rounds n = record {
  token = "a";
  temporary = "temporary";
  acquired_at = "t";
  before = others n;
  on_create = none;
  on_write = none;
  on_restrict = none;
  on_link = none;
  on_unlink = none;
  on_cleanup = none;
  on_read = none;
  clock = n;
}

works : (i : ℕ) → Works (rounds i)
works i = record {
  creates = refl;
  writes = refl;
  restricts = refl;
  links = refl;
  unlinks = refl;
  cleans = refl;
  reads = refl;
}

not_temporary : temporary_name ≢ lock_name
not_temporary e = absurd (cc)

no_temporary : (i : ℕ) (f : Files) → Map.get (others i f) "temporary" ≡ none
unfolding Map.get
no_temporary i f = ground arith

held_first :
    (i : ℕ)
    → i < 1
    → ((f : Files) → (body : String) × (Map.get (others i f) "lock" ≡ some (text body))) × (i < 5)
unfolding Map.get
held_first i below = (λ f. ("other", ground arith), omega arith)

acquire-leased_example :
    ((acquire parse print owner "lock" 5 rounds 2 0 []).0 ≡ leased (record_for owner (rounds 1)))
    × (Map.get (acquire parse print owner "lock" 5 rounds 2 0 []).1 "lock" ≡ some (text "new"))
unfolding Map.get
acquire-leased_example =
    acquire-leased parse print owner "lock" 5 rounds works (λ i. (not_temporary, no_temporary i)) 1
      [] held_first (λ f. refl)

-- The link fails by itself, and the lock stays as it is.
abbrev failing : ℕ → Round
failing n = record (rounds n) { before = λ f. f; on_link = some failure }

acquire-Excluded_example :
    Excluded parse print owner "lock" 5
      (text "other")
      (acquire parse print owner "lock" 5 failing 3 0 (files "other"))
unfolding Map.get
acquire-Excluded_example =
    acquire-Excluded parse print owner "lock" 5 (text "other") failing 3 0 (files "other")
      (λ i. not_temporary) (λ i f held. held) refl

abbrev lease : Lease
lease = record {
  expected = record {
    owner_token = "a";
    process_id = 7;
    process_started_at = some "s";
    acquired_at = "t";
  };
  is_released = false;
}

-- The owner removes its lock, and its second release does nothing.
released_once :
    release calm "lock" "stale" parse lease (files "new")
    ≡ (answer true, [], record lease { is_released = true })
unfolding release Map.get Map.set Map.delete matches
released_once = refl
