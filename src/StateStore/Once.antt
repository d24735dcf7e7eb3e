-- ===== src/StateStore/Once.antt =====
-- Sequences of calls of `claimOperation` of src/state-store.ts, by any processes.
use deepseek_harness_relay_m.Base.{ℕ, String, List, [], ◌∷◌}
use deepseek_harness_relay_m.Types.{PersistedRun, OperationRecord}
use deepseek_harness_relay_m.StateStore.{Stored, Config, Disk, Io, claim_operation}

module _ (to_json : PersistedRun → List ℕ) (digest : Stored → String) (c : Config) where
  -- Claims by any processes, in the order of the lock.
  unfoldable pub claim_all : Disk → List (Io × OperationRecord) → Disk
  claim_all disk [] = disk
  claim_all disk ((io, b) ∷ rest) = claim_all (claim_operation to_json digest c io disk b).1 rest
