-- ===== src/Authority/Tests.antt =====
-- Runs of src/authority/authority-registry-facade.ts: a dead owner is replaced, and a retry that waits.
use deepseek_harness_relay_m.Base.{
  ℕ, String, refl, true, false, none, some, ◌==◌, nat_eq, if◌then◌else◌,
}
use deepseek_harness_relay_m.Base.Result.{ok, err}
use deepseek_harness_relay_m.Base.Stamp.{iso}
use deepseek_harness_relay_m.Types.{embedded}
use deepseek_harness_relay_m.StateStore.{written}
use deepseek_harness_relay_m.Authority.Registry.{
  OwnerRecord, valid, AcquireInput, Process, dead, World, Lease, Env, owned, acquire, release,
  with_references,
}
use deepseek_harness_relay_m.Authority.Ownership.{Owns, Follows, Releases, acquire-ok, release-file}
use deepseek_harness_relay_m.Authority.Retry.{
  Options, Round, acquired, EndsWithin, acquire_with_retry, acquire_with_retry-EndsWithin,
}

abbrev owner : String → ℕ → ℕ → OwnerRecord
owner token epoch process = record {
  host_identity = "h";
  authority_id = "a";
  mode = embedded;
  instance_id = "i";
  owner_token = token;
  epoch = epoch;
  process_id = process;
  process_started_at = iso 1;
  acquired_at = iso 7;
  updated_at = iso 7;
}

abbrev process : Process
process = record { process_id = 2; process_started_at = iso 1 }

abbrev input : AcquireInput
input = record {
  host_identity = "h";
  authority_id = "a";
  mode = embedded;
  instance_id = "i";
  owner_token = some "t2";
  recover_stale = true;
}

abbrev env : Env
env = record { probe = λ id. dead; now = 7; fresh_token = "unused"; write = written }

abbrev before : World
before = record { file = some (valid (owner "t1" 4 1)); references = λ token epoch. none }

abbrev after : World
after = record {
  file = some (valid (owner "t2" 5 2));
  references = with_references (λ token epoch. none) (owner "t2" 5 2) (some 1);
}

abbrev taken : Lease
taken = record { owner = owner "t2" 5 2; reused = false }

acquire-ok_example :
    Owns process input after (owner "t2" 5 2)
    × Follows input env (some (valid (owner "t1" 4 1))) (owner "t2" 5 2)
unfolding acquire
acquire-ok_example = acquire-ok process input env before after taken refl

release-file_example : Releases (owner "t1" 4 1) after (release (owner "t1" 4 1) true after).1
release-file_example = release-file (owner "t1" 4 1) true after

abbrev options : Options
options = record { budget = 10; initial_delay = 4; max_delay = 100; jitter = 25 }

-- The Host is owned in the first round, and then free.
abbrev rounds : ℕ → Round
rounds n = record {
  is_aborted = false;
  clock_before = 0;
  attempt = if n == 1 then ok taken else err (owned (owner "t1" 4 1));
  clock_after = 0;
  jitter = 1;
  sleeps = true;
  aborted_in_sleep = false;
}

acquire_with_retry-EndsWithin_example : EndsWithin 10 (acquired taken, 5)
unfolding acquire_with_retry
acquire_with_retry-EndsWithin_example =
    acquire_with_retry-EndsWithin options rounds (acquired taken, 5) refl
