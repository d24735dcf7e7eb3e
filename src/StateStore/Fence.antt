-- ===== src/StateStore/Fence.antt =====
-- The authority fence of src/state-store.ts, and what `migrateFrom` copies.
use deepseek_harness_relay_m.Base.{ℕ, String, ◌≡◌, Option, none, some, List, [], arith}
use deepseek_harness_relay_m.Base.Result.{ok}
use deepseek_harness_relay_m.Base.Stamp.{iso}
use deepseek_harness_relay_m.Types.{
  PersistedRun, StateBody, PersistedRelayState, LegacyVersion, v1, v2,
}
use deepseek_harness_relay_m.StateStore.{
  Stored, malformed, schema_v1, schema_v2, schema_v3, Config, Disk, Io, migrate_from,
  validate_v3_state, migration_marker,
}

-- The body that the source of a migration carries.
abbrev pub source_body : Stored → Option StateBody
source_body (schema_v1 ss rs) =
    some (record { services = ss; runs = rs; operations = []; permission_leases = [] })
source_body (schema_v2 body) = some body
source_body _ = none

abbrev pub source_version : Stored → LegacyVersion
source_version (schema_v1 ss rs) = v1
source_version _ = v2

module _ (to_json : PersistedRun → List ℕ) (digest : Stored → String) (c : Config) where
  -- A migration that succeeds found no target file, wrote the state that it returns and set nothing
  -- aside; that state carries the source's services, runs, operations and leases unchanged, belongs
  -- to this authority, and is marked with the source's path and digest.
  pub migrate_from-carries :
      (io : Io) (disk disk' : Disk) (path : String) (source : Stored) (m : PersistedRelayState)
      → migrate_from to_json digest c io disk path (some source) ≡ (ok m, disk')
      → (disk.file ≡ none)
        × (disk' ≡ record disk { file = some (schema_v3 m) })
        × (source_body source ≡ some m.body)
        × (m.authority ≡ c.authority)
        × (m.migration
            ≡ some (migration_marker (source_version source) path (digest source) (iso io.now)))
  unfolding migrate_from validate_v3_state
  migrate_from-carries io disk disk' path (malformed t) m e = absurd (ground arith)
  migrate_from-carries io disk disk' path (schema_v1 ss rs) m e = ground arith
  migrate_from-carries io disk disk' path (schema_v2 body) m e = ground arith
  migrate_from-carries io disk disk' path (schema_v3 s) m e = absurd (ground arith)
