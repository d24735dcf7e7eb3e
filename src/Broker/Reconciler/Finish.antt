-- ===== src/Broker/Reconciler/Finish.antt =====
-- `finalize` and `reconcileMissingPrompt` of src/relay-broker/run-reconciler.ts. The Host's replies, the outcome of
-- `persist`, the clock and `hasPendingInteraction` are arguments.

use deepseek_harness_relay_m.Base.{
  ℕ, String, Bool, true, false, not, ◌&&◌, Option, none, some, leb, nat_eq, string_eq,
  if◌then◌else◌, or_else,
}
use deepseek_harness_relay_m.Base.Map
use deepseek_harness_relay_m.Base.Map.{Map}
use deepseek_harness_relay_m.Base.Result.{Result, ok, err}
use deepseek_harness_relay_m.Base.Stamp.{iso}
use deepseek_harness_relay_m.Types.{
  RunSnapshot, RunStatus, PromptAdmission, AttentionReason, OperationRecord, OperationState,
}
use deepseek_harness_relay_m.Broker.Journal.{Update, no_update, transition}
use deepseek_harness_relay_m.Broker.Journal
use deepseek_harness_relay_m.Broker.Permissions.{Controller, Replies, restore_session}
use deepseek_harness_relay_m.Broker.Permissions
use deepseek_harness_relay_m.Broker.Reconciler.Run.{
  Config, World, Env, journal_failed, permission_failed, Refreshed, active_key, has_passed,
  with_run, add_warning, mark_stalled, operation_of,
}

abbrev pub restore_warning : String
restore_warning = "Permission restoration requires attention before this session is reused"

module _ {ℓ} {E : Type ℓ} (config : Config) (duration : ℕ)
    (error_text : Permissions.Failure E → String) where
  abbrev pub needs_restoring : RunSnapshot → RunSnapshot
  needs_restoring s = record s {
    status = RunStatus.needs_attention;
    attention_reason = some AttentionReason.permission_restore_failed;
    error =
        some "The run completed, but the previous Harness permission preset could not be restored";
    warnings = add_warning restore_warning s.warnings;
  }

  -- `restorePermission` after the call of the controller.
  unfoldable pub restored : World → Result (Permissions.Failure E) Bool × Controller → Refreshed E
  restored w (err e, c) = (err (permission_failed e), record w { permissions = c })
  restored w (ok true, c) = (ok tt, record w { permissions = c })
  restored w (ok false, c) =
      (ok tt, with_run (record w { permissions = c }) (needs_restoring w.run.snapshot))

  abbrev pub finished : RunStatus → Option String → ℕ → RunSnapshot → RunSnapshot
  finished status error now s = record s {
    status = status;
    error = error;
    attention_reason = none;
    finished_at = some (iso now);
    last_progress_at = some (iso now);
  }

  -- The world before the permission is restored.
  abbrev pub finished_world : ℕ → World → RunStatus → Option String → World
  finished_world now w status error =
      record (with_run w (finished status error now w.run.snapshot)) {
        active = Map.delete w.active (active_key w.run.snapshot);
      }

  unfoldable pub finalize : Env E → World → RunStatus → Option String → Refreshed E
  finalize env w status error = restored (finished_world env.now w status error) (
      restore_session duration error_text w.permissions w.run.snapshot.session_id
        w.run.snapshot.operation_id env.replies)

  abbrev pub not_persisted : String
  not_persisted = "Harness did not persist the submitted prompt"

  abbrev pub may_be_submitted : Option OperationRecord → Bool
  may_be_submitted none = false
  may_be_submitted (some o) = is_early o.state
    where
      is_early : OperationState → Bool
      is_early OperationState.prepared = true
      is_early OperationState.submitted = true
      is_early _ = false

  abbrev pub is_accepted : PromptAdmission → Bool
  is_accepted PromptAdmission.accepted = true
  is_accepted _ = false

  unfoldable pub fail_operation :
      Env E → World → String → Result (Journal.Failure E) (Unit {0}) × OperationRecord → Refreshed E
  fail_operation env w id (err e, o) =
      (err (journal_failed e), record w { operations = Map.set w.operations id o })
  fail_operation env w id (ok _, o) =
      finalize env (record w { operations = Map.set w.operations id o }) RunStatus.failed
        (some (or_else w.run.snapshot.error not_persisted))

  abbrev pub is_failed : OperationState → Bool
  is_failed OperationState.failed = true
  is_failed _ = false

  -- The prompt was not persisted: the operation, if it has not failed yet, and the run fail.
  unfoldable pub rejected : Env E → World → Option OperationRecord → Refreshed E
  rejected env w none =
      finalize env w RunStatus.failed (some (or_else w.run.snapshot.error not_persisted))
  rejected env w (some o) =
      if is_failed o.state
      then finalize env w RunStatus.failed (some (or_else w.run.snapshot.error not_persisted))
      else fail_operation env w o.operation_id (
          transition o OperationState.failed
            (record no_update { error = some (some (or_else w.run.snapshot.error not_persisted)) })
            (iso env.now) env.persisted)

  abbrev pub reject : RunSnapshot → RunSnapshot
  reject s = record s { prompt_admission = PromptAdmission.rejected }

  -- `reconcileMissingPrompt`
  unfoldable pub reconcile_missing_prompt : Env E → World → Bool → ℕ → Refreshed E
  reconcile_missing_prompt env w running previous_last_seq =
      let s = w.run.snapshot in
      if not running && s.cancel_requested
      then finalize env w RunStatus.cancelled none
      else if not running
          && (not (is_accepted s.prompt_admission)
              && (has_passed env.now s.started_at config.rpc_timeout
                  && (leb s.last_event_seq previous_last_seq
                      && not (may_be_submitted (operation_of w)))))
      then rejected env (with_run w (reject s)) (operation_of w)
      else (ok tt, w)

  -- The prompt's event was not found.
  unfoldable pub prompt_missing : Env E → World → Bool → ℕ → Refreshed E
  prompt_missing env w running previous_last_seq =
      let s = w.run.snapshot in
      let stalled = with_run w (mark_stalled env.has_pending env.now config.run_stall s) in
      reconcile_missing_prompt env
        (if running && is_accepted s.prompt_admission then stalled else w) running previous_last_seq
