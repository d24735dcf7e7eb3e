-- ===== src/Broker/Permissions/Tests.antt =====
-- Runs of src/relay-broker/permission-controller.ts: a session's permission is raised and restored.
use deepseek_harness_relay_m.Base.{String, Bool, true, some, List, [], ◌∷◌}
use deepseek_harness_relay_m.Base.Result.{Result, ok, err}
use deepseek_harness_relay_m.Types.{PermissionPreset, read_only, workspace_write}
use deepseek_harness_relay_m.Broker.Permissions.{Controller, Failure, Replies}
use deepseek_harness_relay_m.Broker.Permissions.OneLease.{OneLease}
use deepseek_harness_relay_m.Broker.Permissions.Recorded.{
  Recorded, Call, borrows, restores, expires,
}

abbrev replies : PermissionPreset → PermissionPreset → Replies String
replies before after = record {
  previous = ok (some before);
  prepared = ok tt;
  accepted = ok true;
  confirmed = ok (some after);
  finished = ok tt;
  failed = err "no disk";
  now = 5;
  fresh_id = "l1";
}

abbrev calls : List (Call String)
calls =
    borrows "c1" "o1" workspace_write (replies read_only workspace_write)
    ∷ expires 90 (ok tt)
    ∷ borrows "c1" "o2" workspace_write (replies read_only workspace_write)
    ∷ restores "c1" (some "o1") (replies workspace_write read_only)
    ∷ []

abbrev empty : Controller
empty = record { leases = []; log = [] }

abbrev error_text : Failure String → String
error_text e = "error"

abbrev accepted : Result String Bool
accepted = ok true
