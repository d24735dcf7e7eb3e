-- ===== src/Broker/Reconciler/Settles.antt =====
-- What a `refresh` of src/relay-broker/run-reconciler.ts leaves of a run that it settles.
use deepseek_harness_relay_m.Base.{
  ℕ, String, ◌≡◌, refl, inl, inr, Bool, true, false, Option, none, some, List, arith, string_eq,
  Bool-cases, Option-cases,
}
use deepseek_harness_relay_m.Base.Result.{Result, ok, err}
use deepseek_harness_relay_m.Types.{
  RunSnapshot, RunStatus, AttentionReason, OperationRecord, OperationState, RpcEvent,
}
use deepseek_harness_relay_m.Events.RunEvents.{TerminalOutcome}
use deepseek_harness_relay_m.Broker.Journal
use deepseek_harness_relay_m.Broker.Permissions
use deepseek_harness_relay_m.Broker.Permissions.{Controller, restore_session}
use deepseek_harness_relay_m.Broker.Reconciler.History.{HistoryError}
use deepseek_harness_relay_m.Broker.Reconciler.Run.{
  Listed, Config, World, Env, is_stalled, record_progress,
}
use deepseek_harness_relay_m.Broker.Reconciler.Refresh.{
  with_outcome, settle, ended, read_owned, acknowledged, acknowledge, acknowledge_known, by_prompt,
  with_progress, loaded, refresh_session, listed_sessions, is_watched, refresh,
}
use deepseek_harness_relay_m.Broker.Reconciler.Ending.{
  is_open, IsLater, Settles, IsGoing, going, mark_stalled-IsGoing, finalize-Settles,
  prompt_missing-Settles,
}

module _ {ℓ} {E : Type ℓ} (config : Config) (duration : ℕ)
    (error_text : Permissions.Failure E → String) (env : Env E) (s : RunSnapshot) where
  with_outcome-IsLater :
      (o : TerminalOutcome) (t : RunSnapshot)
      → IsLater s t
      → IsLater s (with_outcome config duration error_text o t)
  with_outcome-IsLater o t l = elim (Option-cases o.warning) [
    | inl none_given ↦ rw none_given l
    | inr (warning, given) ↦ rw given (record {
      run_id = l.run_id;
      session_id = l.session_id;
      service_id = l.service_id;
      forward = l.forward;
    })
  ]

  settle-Settles :
      (o : TerminalOutcome) (w : World)
      → IsGoing s w.run.snapshot
      → Settles env.now s (settle config duration error_text env w o)
  unfolding settle
  settle-Settles o w g =
      finalize-Settles config duration error_text env s _ _ _
        (with_outcome-IsLater o w.run.snapshot g.0)

  ended-Settles :
      (terminal : Option RpcEvent) (w : World) (running : Bool) (relevant : List RpcEvent)
      → IsGoing s w.run.snapshot
      → Settles env.now s (ended config duration error_text env w running relevant terminal)
  unfolding ended
  ended-Settles none w running relevant g = elim (Bool-cases running) [
    | inl runs ↦ rw runs (
        going _ (
          mark_stalled-IsGoing config duration error_text env s env.has_pending env.now
            config.run_stall w.run.snapshot g))
    | inr idle ↦ rw idle (going _ g)
  ]
  ended-Settles (some terminal) w running relevant g = settle-Settles _ w g

  read_owned-Settles :
      (w : World) (running : Bool) (prompt : RpcEvent)
      → IsGoing s w.run.snapshot
      → Settles env.now s (read_owned config duration error_text env w running prompt)
  unfolding read_owned
  read_owned-Settles w running prompt g = ended-Settles _ _ running _ (
    record {
      run_id = g.0.run_id;
      session_id = g.0.session_id;
      service_id = g.0.service_id;
      forward = g.0.forward;
    },
    g.1,
  )

  acknowledged-Settles :
      (r : Result (Journal.Failure E) (Unit {0}) × OperationRecord) (w : World) (running : Bool)
      (prompt : RpcEvent) (id : String)
      → IsGoing s w.run.snapshot
      → Settles env.now s (acknowledged config duration error_text env w running prompt id r)
  unfolding acknowledged
  acknowledged-Settles (err e, o) w running prompt id g = going _ g
  acknowledged-Settles (ok _, o) w running prompt id g = read_owned-Settles _ running prompt g

  acknowledge-Settles :
      (to : Option OperationState) (w : World) (running : Bool) (prompt : RpcEvent)
      (o : OperationRecord)
      → IsGoing s w.run.snapshot
      → Settles env.now s (acknowledge config duration error_text env w running prompt o to)
  unfolding acknowledge
  acknowledge-Settles none w running prompt o g = read_owned-Settles w running prompt g
  acknowledge-Settles (some state) w running prompt o g =
      acknowledged-Settles _ w running prompt o.operation_id g

  acknowledge_known-Settles :
      (o : Option OperationRecord) (w : World) (running : Bool) (prompt : RpcEvent)
      → IsGoing s w.run.snapshot
      → Settles env.now s (acknowledge_known config duration error_text env w running prompt o)
  unfolding acknowledge_known
  acknowledge_known-Settles none w running prompt g = read_owned-Settles w running prompt g
  acknowledge_known-Settles (some o) w running prompt g = acknowledge-Settles _ w running prompt o g

  by_prompt-Settles :
      (found : Option RpcEvent) (w : World) (running : Bool) (previous : ℕ)
      → IsGoing s w.run.snapshot
      → Settles env.now s (by_prompt config duration error_text env w running previous found)
  unfolding by_prompt
  by_prompt-Settles none w running previous g =
      prompt_missing-Settles config duration error_text env s w running previous g
  by_prompt-Settles (some prompt) w running previous g =
      acknowledge_known-Settles _ _ running prompt (
        record {
          run_id = g.0.run_id;
          session_id = g.0.session_id;
          service_id = g.0.service_id;
          forward = g.0.forward;
        },
        g.1,
      )

  record_progress-IsGoing :
      (now : ℕ) (t : RunSnapshot) → IsGoing s t → IsGoing s (record_progress now t)
  unfolding record_progress
  record_progress-IsGoing now t g = elim (Bool-cases (is_stalled t.attention_reason)) [
    | inl stalled ↦ rw stalled (
      record {
        run_id = g.0.run_id;
        session_id = g.0.session_id;
        service_id = g.0.service_id;
        forward = g.0.forward;
      },
      refl,
    )
    | inr fine ↦ rw fine (
      record {
        run_id = g.0.run_id;
        session_id = g.0.session_id;
        service_id = g.0.service_id;
        forward = g.0.forward;
      },
      g.1,
    )
  ]

  with_progress-IsGoing :
      (progressed : Bool) (now : ℕ) (t : RunSnapshot)
      → IsGoing s t
      → IsGoing s (with_progress config duration error_text progressed now t)
  with_progress-IsGoing true now t g = record_progress-IsGoing now t g
  with_progress-IsGoing false now t g = g

  loaded-Settles :
      (r : Result (HistoryError E) (List RpcEvent)) (w : World) (session : Listed) (start : ℕ)
      → IsGoing s w.run.snapshot
      → Settles env.now s (loaded config duration error_text env w session start r)
  unfolding loaded
  loaded-Settles (err e) w session start g = going _ g
  loaded-Settles (ok events) w session start g = by_prompt-Settles _ _ session.running _ (
      with_progress-IsGoing _ env.now _ (
        record {
          run_id = g.0.run_id;
          session_id = g.0.session_id;
          service_id = g.0.service_id;
          forward = omega (arith, g.0.forward);
        },
        g.1,
      ))

  refresh_session-Settles :
      (found : Option Listed) (w : World)
      → IsGoing s w.run.snapshot
      → Settles env.now s (refresh_session config duration error_text env w found)
  unfolding refresh_session
  refresh_session-Settles none w g = finalize-Settles config duration error_text env s w _ _ g.0
  refresh_session-Settles (some session) w g = loaded-Settles _ _ session _ g

  listed_sessions-Settles :
      (r : Result E (List Listed)) (w : World)
      → IsGoing s w.run.snapshot
      → Settles env.now s (listed_sessions config duration error_text env w r)
  unfolding listed_sessions
  listed_sessions-Settles (err e) w g = going _ g
  listed_sessions-Settles (ok sessions) w g = refresh_session-Settles _ w g

module _ {ℓ} {E : Type ℓ} (config : Config) (duration : ℕ)
    (error_text : Permissions.Failure E → String) where
  watched_open :
      (status : RunStatus) (reason : Option AttentionReason)
      → is_watched config duration error_text status reason ≡ true
      → is_open status ≡ true
  watched_open RunStatus.running reason h = refl
  watched_open RunStatus.needs_attention reason h = refl
  watched_open RunStatus.succeeded reason h = absurd (cc)
  watched_open RunStatus.incomplete reason h = absurd (cc)
  watched_open RunStatus.failed reason h = absurd (cc)
  watched_open RunStatus.cancelled reason h = absurd (cc)
  watched_open RunStatus.unknown reason h = absurd (cc)

  -- Whatever the Host replies, whichever calls fail and whenever it runs, a refresh of a run that is
  -- running or stalled leaves the run's ids, never lowers its last event, and leaves it running, in
  -- need of attention, or ended with its finish time, its session being no longer active.
  pub refresh-Settles :
      (env : Env E) (w : World)
      → is_watched config duration error_text w.run.snapshot.status w.run.snapshot.attention_reason
        ≡ true
      → Settles env.now w.run.snapshot (refresh config duration error_text env w)
  unfolding refresh
  refresh-Settles env w watched = rw watched (
      listed_sessions-Settles config duration error_text env w.run.snapshot env.listed w (
        record { run_id = refl; session_id = refl; service_id = refl; forward = omega arith },
        watched_open w.run.snapshot.status w.run.snapshot.attention_reason watched,
      ))
