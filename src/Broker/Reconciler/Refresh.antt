-- ===== src/Broker/Reconciler/Refresh.antt =====
-- `refresh` of src/relay-broker/run-reconciler.ts and what it calls. The Host's replies, the outcome of
-- `persist`, the clock and `hasPendingInteraction` are arguments.
use Prim.Native.String
use deepseek_harness_relay_m.Base.{
  ℕ, max, String, Bool, true, false, ◌||◌, Option, none, some, List, leb, ltb, ◌==◌, nat_eq,
  string_eq, if◌then◌else◌, or_else, find, filter,
}
use deepseek_harness_relay_m.Base.Map
use deepseek_harness_relay_m.Base.Map.{Map}
use deepseek_harness_relay_m.Base.Result.{Result, ok, err}
use deepseek_harness_relay_m.Base.Stamp.{iso}
use deepseek_harness_relay_m.Types.{
  RunSnapshot, RunStatus, PromptAdmission, AttentionReason, OperationRecord, OperationState,
  RpcEvent,
}
use deepseek_harness_relay_m.Types.Json.{string_at}
use deepseek_harness_relay_m.Events.RunEvents.{
  highest_seq, user_rpc_id, terminal_outcome, final_assistant_interrupted, TerminalOutcome,
}
use deepseek_harness_relay_m.Events.RunEvents.Merge.{merge_events}
use deepseek_harness_relay_m.Events.RunEvents.Text.{Retained, utf8_tail}
use deepseek_harness_relay_m.Events.RunEvents.Assistant.{final_assistant_text}
use deepseek_harness_relay_m.Broker.Journal.{Update, no_update, transition}
use deepseek_harness_relay_m.Broker.Journal
use deepseek_harness_relay_m.Broker.Permissions.{Controller, Replies, restore_session}
use deepseek_harness_relay_m.Broker.Permissions
use deepseek_harness_relay_m.Broker.Reconciler.History.{HistoryError, history_after}
use deepseek_harness_relay_m.Broker.Reconciler.Run.{
  Listed, Config, World, Env, not_listed, no_history, journal_failed, Refreshed, active_key,
  incremental_start_seq, with_run, add_warning, is_stalled, record_progress, mark_stalled,
  owned_events, last_turn_end, operation_of,
}
use deepseek_harness_relay_m.Broker.Reconciler.Finish.{finalize, prompt_missing}

module _ {ℓ} {E : Type ℓ} (config : Config) (duration : ℕ)
    (error_text : Permissions.Failure E → String) where
  abbrev pub with_outcome : TerminalOutcome → RunSnapshot → RunSnapshot
  with_outcome o s = elim o.warning [
    | none ↦ s
    | some warning ↦ record s { warnings = add_warning warning s.warnings }
  ]

  abbrev pub with_text : Retained → RunSnapshot → RunSnapshot
  with_text r s = record s {
    assistant_text = r.text;
    assistant_text_bytes = r.bytes;
    assistant_text_truncated = r.truncated;
  }

  abbrev pub up_to : Option RpcEvent → RpcEvent → Bool
  up_to none e = true
  up_to (some terminal) e = leb e.seq terminal.seq

  unfoldable pub settle : Env E → World → TerminalOutcome → Refreshed E
  settle env w o =
      finalize config duration error_text env (with_run w (with_outcome o w.run.snapshot)) o.status
        o.error

  -- The end of `refresh`, by the last event that ends a turn; `w` holds the retained text.
  unfoldable pub ended : Env E → World → Bool → List RpcEvent → Option RpcEvent → Refreshed E
  ended env w running relevant none =
      let stalled =
        with_run w (mark_stalled env.has_pending env.now config.run_stall w.run.snapshot) in
      (ok tt, if running then stalled else w)
  ended env w running relevant (some terminal) = settle env w (
      terminal_outcome terminal w.run.snapshot.cancel_requested
        (final_assistant_interrupted relevant))

  -- From `ownedEvents` on.
  unfoldable pub read_owned : Env E → World → Bool → RpcEvent → Refreshed E
  read_owned env w running prompt =
      let owned = owned_events w prompt in
      let terminal = last_turn_end owned in
      let relevant = filter (up_to terminal) owned in
      let retained = utf8_tail (final_assistant_text relevant) config.max_assistant_text_bytes in
      ended env (with_run w (with_text retained w.run.snapshot)) running relevant terminal

  unfoldable pub acknowledged :
      Env E
      → World
      → Bool
      → RpcEvent
      → String
      → Result (Journal.Failure E) (Unit {0}) × OperationRecord
      → Refreshed E
  acknowledged env w running prompt id (err e, o) =
      (err (journal_failed e), record w { operations = Map.set w.operations id o })
  acknowledged env w running prompt id (ok _, o) =
      read_owned env (record w { operations = Map.set w.operations id o }) running prompt

  -- The state that an operation moves to once its prompt is seen.
  abbrev pub target : OperationState → Option OperationState
  target OperationState.prepared = some OperationState.acknowledged
  target OperationState.submitted = some OperationState.acknowledged
  target OperationState.unknown = some OperationState.reconciled
  target _ = none

  unfoldable pub acknowledge :
      Env E → World → Bool → RpcEvent → OperationRecord → Option OperationState → Refreshed E
  acknowledge env w running prompt o none = read_owned env w running prompt
  acknowledge env w running prompt o (some state) =
      acknowledged env w running prompt o.operation_id (
        transition o state (record no_update { message_id = some w.run.snapshot.prompt_message_id })
          (iso env.now) env.persisted)

  unfoldable pub acknowledge_known :
      Env E → World → Bool → RpcEvent → Option OperationRecord → Refreshed E
  acknowledge_known env w running prompt none = read_owned env w running prompt
  acknowledge_known env w running prompt (some o) =
      acknowledge env w running prompt o (target o.state)

  abbrev pub seen_prompt : RpcEvent → RunSnapshot → RunSnapshot
  seen_prompt prompt s = record s {
    prompt_admission = PromptAdmission.accepted;
    error = none;
    prompt_message_id = string_at prompt.payload "id";
  }

  unfoldable pub by_prompt : Env E → World → Bool → ℕ → Option RpcEvent → Refreshed E
  by_prompt env w running previous_last_seq none =
      prompt_missing config duration error_text env w running previous_last_seq
  by_prompt env w running previous_last_seq (some prompt) =
      let seen = with_run w (seen_prompt prompt w.run.snapshot) in
      acknowledge_known env seen running prompt (operation_of seen)

  abbrev pub is_prompt : String → RpcEvent → Bool
  is_prompt rpc_id e = elim (user_rpc_id e) [ none ↦ false | some id ↦ id == rpc_id ]

  -- Whether the projection has moved since the last refresh.
  abbrev pub has_moved : Option ℕ → Option ℕ → Bool
  has_moved (some seq) (some seen) = ltb seen seq
  has_moved _ _ = false

  abbrev pub observed_projection : Option ℕ → Option ℕ → Option ℕ
  observed_projection none seen = seen
  observed_projection (some seq) seen = some (max (or_else seen seq) seq)

  abbrev pub with_progress : Bool → ℕ → RunSnapshot → RunSnapshot
  with_progress progressed now s = if progressed then record_progress now s else s

  -- After the history was read: `durable` is where it was read from.
  unfoldable pub loaded :
      Env E → World → Listed → ℕ → Result (HistoryError E) (List RpcEvent) → Refreshed E
  loaded env w session durable (err e) = (err (no_history e), w)
  loaded env w session durable (ok events) =
      let all = merge_events w.run.events events in
      let durable_last = highest_seq all w.run.baseline_seq in
      let s = w.run.snapshot in
      let numbered = record s {
        last_event_seq =
            max (max s.last_event_seq durable_last) (or_else session.as_of_seq s.last_event_seq);
      } in
      let progressed =
        ltb durable durable_last
        || has_moved session.as_of_seq w.run.last_observed_projection_seq in
      by_prompt env
        (record w {
          run = record w.run {
            snapshot = with_progress progressed env.now numbered;
            events = all;
            last_observed_projection_seq =
                observed_projection session.as_of_seq w.run.last_observed_projection_seq;
          };
        })
        session.running s.last_event_seq (find (is_prompt w.run.prompt_rpc_id) all)

  unfoldable pub refresh_session : Env E → World → Option Listed → Refreshed E
  refresh_session env w none =
      finalize config duration error_text env w RunStatus.failed
        (some (String.◌++◌ "Harness session is no longer listed: " w.run.snapshot.session_id))
  refresh_session env w (some session) =
      let s = w.run.snapshot in
      let start = incremental_start_seq w.run.events w.run.baseline_seq in
      loaded env
        (record w {
          active = if session.running then Map.set w.active (active_key s) s.run_id else w.active;
        })
        session start (history_after env.read start config.max_history_pages)

  unfoldable pub listed_sessions : Env E → World → Result E (List Listed) → Refreshed E
  listed_sessions env w (err e) = (err (not_listed e), w)
  listed_sessions env w (ok sessions) =
      refresh_session env w (find (λ item. item.session_id == w.run.snapshot.session_id) sessions)

  -- Running, or marked as stalled.
  abbrev pub is_watched : RunStatus → Option AttentionReason → Bool
  is_watched RunStatus.running reason = true
  is_watched RunStatus.needs_attention reason = is_stalled reason
  is_watched _ reason = false

  unfoldable pub refresh : Env E → World → Refreshed E
  refresh env w =
      if is_watched w.run.snapshot.status w.run.snapshot.attention_reason
      then listed_sessions env w env.listed
      else (ok tt, w)
