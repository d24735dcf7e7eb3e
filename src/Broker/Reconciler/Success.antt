-- ===== src/Broker/Reconciler/Success.antt =====
-- When a `refresh` of src/relay-broker/run-reconciler.ts reports a run as succeeded.
use deepseek_harness_relay_m.Base.{
  ℕ, ◌<◌, String, ◌≡◌, ◌≢◌, refl, inl, inr, Bool, true, false, not, ◌&&◌, ◌||◌, Option, none, some,
  List, arith, leb, ==_iff, string_eq, or_else, find_sound, Bool-cases, Option-cases,
}
use deepseek_harness_relay_m.Base.Result.{Result, ok, err}
use deepseek_harness_relay_m.Types.{
  RunSnapshot, RunStatus, OperationRecord, OperationState, RpcEvent,
}
use deepseek_harness_relay_m.Events.RunEvents.{
  TerminalOutcome, user_rpc_id, terminal_outcome-succeeded, final_assistant_interrupted,
}
use deepseek_harness_relay_m.Events.RunEvents.Merge.{merge_events}
use deepseek_harness_relay_m.Broker.Journal
use deepseek_harness_relay_m.Broker.Permissions
use deepseek_harness_relay_m.Broker.Permissions.{Controller, restore_session}
use deepseek_harness_relay_m.Broker.Reconciler.History.{HistoryError}
use deepseek_harness_relay_m.Broker.Reconciler.Run.{
  Listed, Config, World, Env, Refreshed, has_passed, is_recent, with_run, is_stalled,
  record_progress, mark_stalled, operation_of, owned_events,
}
use deepseek_harness_relay_m.Broker.Reconciler.Finish.{
  is_accepted, may_be_submitted, is_failed, finished_world, restored, finalize, fail_operation,
  rejected, reconcile_missing_prompt, prompt_missing,
}
use deepseek_harness_relay_m.Broker.Reconciler.Refresh.{
  settle, ended, read_owned, acknowledged, acknowledge, acknowledge_known, by_prompt, is_prompt,
  with_progress, loaded, refresh_session, listed_sessions, is_watched, refresh,
}
use deepseek_harness_relay_m.Broker.Reconciler.Evidence.{
  IsIn, IsIn-find, last_turn_end-IsIn, Evidence, IsSuccess, Supported, owned_events-IsIn,
}

module _ {ℓ} {E : Type ℓ} (config : Config) (duration : ℕ)
    (error_text : Permissions.Failure E → String) (env : Env E) where
  no_success : (o : Refreshed E) → o.1.run.snapshot.status ≢ RunStatus.succeeded → Supported o
  no_success o h = record { support = λ s. absurd (h s) }

  restored-Supported :
      (w : World) (r : Result (Permissions.Failure E) Bool × Controller)
      → (IsSuccess w → Evidence w)
      → Supported (restored config duration error_text w r)
  unfolding restored
  restored-Supported w (err e, c) h = record { support = h }
  restored-Supported w (ok true, c) h = record { support = h }
  restored-Supported w (ok false, c) h = no_success _ (λ s. cc)

  finalize-Supported :
      (w : World) (status : RunStatus) (error : Option String)
      → (status ≡ RunStatus.succeeded → Evidence w)
      → Supported (finalize config duration error_text env w status error)
  unfolding finalize
  finalize-Supported w status error h =
      restored-Supported (finished_world config duration error_text env.now w status error)
        (restore_session duration error_text w.permissions w.run.snapshot.session_id
          w.run.snapshot.operation_id env.replies)
        h

  -- A world whose run has not succeeded.
  abbrev IsGoing : World → Type 0
  IsGoing w = w.run.snapshot.status ≢ RunStatus.succeeded

  mark_stalled-IsGoing :
      (has_pending : Bool) (now stall : ℕ) (t : RunSnapshot)
      → t.status ≢ RunStatus.succeeded
      → (mark_stalled has_pending now stall t).status ≢ RunStatus.succeeded
  unfolding mark_stalled
  mark_stalled-IsGoing has_pending now stall t g =
      elim (Bool-cases
        (has_pending || is_recent now (or_else t.last_progress_at t.started_at) stall)) [
          | inl fine ↦ rw fine g
          | inr stalls ↦ rw stalls (λ s. cc)
        ]

  record_progress-IsGoing :
      (now : ℕ) (t : RunSnapshot)
      → t.status ≢ RunStatus.succeeded
      → (record_progress now t).status ≢ RunStatus.succeeded
  unfolding record_progress
  record_progress-IsGoing now t g = elim (Bool-cases (is_stalled t.attention_reason)) [
    | inl stalled ↦ rw stalled (λ s. cc)
    | inr fine ↦ rw fine g
  ]

  with_progress-IsGoing :
      (progressed : Bool) (now : ℕ) (t : RunSnapshot)
      → t.status ≢ RunStatus.succeeded
      → (with_progress config duration error_text progressed now t).status ≢ RunStatus.succeeded
  with_progress-IsGoing true now t g = record_progress-IsGoing now t g
  with_progress-IsGoing false now t g = g

  fail_operation-Supported :
      (r : Result (Journal.Failure E) (Unit {0}) × OperationRecord) (w : World) (id : String)
      → IsGoing w
      → Supported (fail_operation config duration error_text env w id r)
  unfolding fail_operation
  fail_operation-Supported (err e, o) w id g = no_success _ g
  fail_operation-Supported (ok _, o) w id g = finalize-Supported _ _ _ (λ s. absurd (cc))

  rejected-Supported :
      (o : Option OperationRecord) (w : World)
      → IsGoing w
      → Supported (rejected config duration error_text env w o)
  unfolding rejected
  rejected-Supported none w g = finalize-Supported w _ _ (λ s. absurd (cc))
  rejected-Supported (some o) w g =
      elim (Bool-cases (is_failed config duration error_text o.state)) [
        | inl failed ↦ rw failed (finalize-Supported w _ _ (λ s. absurd (cc)))
        | inr open_still ↦ rw open_still (fail_operation-Supported _ w _ g)
      ]

  reconcile_missing_prompt-Supported :
      (w : World) (running : Bool) (previous : ℕ)
      → IsGoing w
      → Supported (reconcile_missing_prompt config duration error_text env w running previous)
  unfolding reconcile_missing_prompt
  reconcile_missing_prompt-Supported w running previous g =
      elim (Bool-cases (not running && w.run.snapshot.cancel_requested)) [
        | inl cancels ↦ rw cancels (finalize-Supported w _ _ (λ s. absurd (cc)))
        | inr goes_on ↦
            elim (Bool-cases (
              not running
              && (not (is_accepted config duration error_text w.run.snapshot.prompt_admission)
                  && (has_passed env.now w.run.snapshot.started_at config.rpc_timeout
                      && (leb w.run.snapshot.last_event_seq previous
                          && not
                              (may_be_submitted config duration error_text (operation_of w))))))) [
                                | inl rejects ↦
                                    rw (goes_on, rejects) (rejected-Supported (operation_of w) _ g)
                                | inr waits ↦ rw (goes_on, waits) (no_success _ g)
                              ]
      ]

  prompt_missing-Supported :
      (w : World) (running : Bool) (previous : ℕ)
      → IsGoing w
      → Supported (prompt_missing config duration error_text env w running previous)
  unfolding prompt_missing
  prompt_missing-Supported w running previous g =
      elim (Bool-cases
        (running && is_accepted config duration error_text w.run.snapshot.prompt_admission)) [
          | inl stalls ↦ rw stalls (
              reconcile_missing_prompt-Supported
                (with_run w (mark_stalled env.has_pending env.now config.run_stall w.run.snapshot))
                running previous
                (mark_stalled-IsGoing env.has_pending env.now config.run_stall w.run.snapshot g))
          | inr fine ↦ rw fine (reconcile_missing_prompt-Supported w running previous g)
        ]

  settle-Supported :
      (o : TerminalOutcome) (w : World)
      → (o.status ≡ RunStatus.succeeded → Evidence w)
      → Supported (settle config duration error_text env w o)
  unfolding settle
  settle-Supported o w h = finalize-Supported _ _ _ h

  -- The prompt is one of the events, and the prompt's.
  abbrev IsPrompt : World → RpcEvent → Type 0
  IsPrompt w prompt = IsIn prompt w.run.events × (user_rpc_id prompt ≡ some w.run.prompt_rpc_id)

  ended-Supported :
      (terminal : Option RpcEvent) (w : World) (running : Bool) (relevant : List RpcEvent)
      (prompt : RpcEvent)
      → IsGoing w
      → IsPrompt w prompt
      → ((e : RpcEvent)
          → terminal ≡ some e
          → IsIn e w.run.events × (prompt.seq < e.seq) × (e.type ≡ "turn/end"))
      → Supported (ended config duration error_text env w running relevant terminal)
  unfolding ended
  ended-Supported none w running relevant prompt g p t = elim (Bool-cases running) [
    | inl runs ↦ rw runs (
        no_success _
          (mark_stalled-IsGoing env.has_pending env.now config.run_stall w.run.snapshot g))
    | inr idle ↦ rw idle (no_success _ g)
  ]
  ended-Supported (some terminal) w running relevant prompt g p t =
      let (inside, after, ends) = t terminal refl in
      settle-Supported _ w (λ s. (
        prompt,
        terminal,
        p.0,
        inside,
        p.1,
        after,
        ends,
        (terminal_outcome-succeeded terminal w.run.snapshot.cancel_requested
            (final_assistant_interrupted relevant) s).0,
      ))

  read_owned-Supported :
      (w : World) (running : Bool) (prompt : RpcEvent)
      → IsGoing w
      → IsPrompt w prompt
      → Supported (read_owned config duration error_text env w running prompt)
  unfolding read_owned
  read_owned-Supported w running prompt g p = ended-Supported _ _ running _ prompt g p (λ e h.
      let (owned, ends) = last_turn_end-IsIn (owned_events w prompt) e h in
      let (inside, after) = owned_events-IsIn w prompt e owned in (inside, after, ends))

  acknowledged-Supported :
      (r : Result (Journal.Failure E) (Unit {0}) × OperationRecord) (w : World) (running : Bool)
      (prompt : RpcEvent) (id : String)
      → IsGoing w
      → IsPrompt w prompt
      → Supported (acknowledged config duration error_text env w running prompt id r)
  unfolding acknowledged
  acknowledged-Supported (err e, o) w running prompt id g p = no_success _ g
  acknowledged-Supported (ok _, o) w running prompt id g p =
      read_owned-Supported _ running prompt g p

  acknowledge-Supported :
      (to : Option OperationState) (w : World) (running : Bool) (prompt : RpcEvent)
      (o : OperationRecord)
      → IsGoing w
      → IsPrompt w prompt
      → Supported (acknowledge config duration error_text env w running prompt o to)
  unfolding acknowledge
  acknowledge-Supported none w running prompt o g p = read_owned-Supported w running prompt g p
  acknowledge-Supported (some state) w running prompt o g p =
      acknowledged-Supported _ w running prompt o.operation_id g p

  acknowledge_known-Supported :
      (o : Option OperationRecord) (w : World) (running : Bool) (prompt : RpcEvent)
      → IsGoing w
      → IsPrompt w prompt
      → Supported (acknowledge_known config duration error_text env w running prompt o)
  unfolding acknowledge_known
  acknowledge_known-Supported none w running prompt g p = read_owned-Supported w running prompt g p
  acknowledge_known-Supported (some o) w running prompt g p =
      acknowledge-Supported _ w running prompt o g p

  by_prompt-Supported :
      (found : Option RpcEvent) (w : World) (running : Bool) (previous : ℕ)
      → IsGoing w
      → ((e : RpcEvent) → found ≡ some e → IsPrompt w e)
      → Supported (by_prompt config duration error_text env w running previous found)
  unfolding by_prompt
  by_prompt-Supported none w running previous g p = prompt_missing-Supported w running previous g
  by_prompt-Supported (some prompt) w running previous g p =
      acknowledge_known-Supported _ _ running prompt g (p prompt refl)

  is_prompt-user_rpc_id :
      (rpc_id : String) (e : RpcEvent)
      → is_prompt config duration error_text rpc_id e ≡ true
      → user_rpc_id e ≡ some rpc_id
  is_prompt-user_rpc_id rpc_id e h = elim (Option-cases (user_rpc_id e)) [
    | inl absent ↦ absurd (ground arith)
    | inr (id, present) ↦ ground (arith, ==_iff id rpc_id)
  ]

  loaded-Supported :
      (r : Result (HistoryError E) (List RpcEvent)) (w : World) (session : Listed) (start : ℕ)
      → IsGoing w
      → Supported (loaded config duration error_text env w session start r)
  unfolding loaded
  loaded-Supported (err e) w session start g = no_success _ g
  loaded-Supported (ok events) w session start g =
      by_prompt-Supported _ _ session.running _ (with_progress-IsGoing _ env.now _ g) (λ e found. (
        IsIn-find _ _ e found,
        is_prompt-user_rpc_id w.run.prompt_rpc_id e (
            find_sound (is_prompt config duration error_text w.run.prompt_rpc_id)
              (merge_events w.run.events events) e found),
      ))

  refresh_session-Supported :
      (found : Option Listed) (w : World)
      → IsGoing w
      → Supported (refresh_session config duration error_text env w found)
  unfolding refresh_session
  refresh_session-Supported none w g = finalize-Supported w _ _ (λ s. absurd (cc))
  refresh_session-Supported (some session) w g = loaded-Supported _ _ session _ g

  listed_sessions-Supported :
      (r : Result E (List Listed)) (w : World)
      → IsGoing w
      → Supported (listed_sessions config duration error_text env w r)
  unfolding listed_sessions
  listed_sessions-Supported (err e) w g = no_success _ g
  listed_sessions-Supported (ok sessions) w g = refresh_session-Supported _ w g

  -- A refresh makes a run succeeded only if the run's events hold the prompt's message and, after it,
  -- the end of a turn whose reason is that it was completed.
  pub refresh-succeeded :
      (w : World)
      → w.run.snapshot.status ≢ RunStatus.succeeded
      → (refresh config duration error_text env w).1.run.snapshot.status ≡ RunStatus.succeeded
      → Evidence (refresh config duration error_text env w).1
  unfolding refresh
  refresh-succeeded w g s =
      elim (Bool-cases (
        is_watched config duration error_text w.run.snapshot.status
          w.run.snapshot.attention_reason)) [
            | inr settled ↦ absurd (g (rw settled at s))
            | inl watched ↦
                rw watched ((listed_sessions-Supported env.listed w g).support (rw watched at s))
          ]
