-- ===== src/Broker/Reconciler/Ending.antt =====
-- What `finalize` and a missing prompt of src/relay-broker/run-reconciler.ts leave of a run.
use deepseek_harness_relay_m.Base.{
  ℕ, ◌≤◌, String, ◌≡◌, refl, ◌⊎◌, inl, inr, Bool, true, false, not, ◌&&◌, ◌||◌, Option, none, some,
  arith, leb, ==_iff, string_eq, or_else, Bool-cases,
}
use deepseek_harness_relay_m.Base.Map
use deepseek_harness_relay_m.Base.Result.{Result, ok, err}
use deepseek_harness_relay_m.Base.Stamp.{iso}
use deepseek_harness_relay_m.Types.{RunSnapshot, RunStatus, OperationRecord}
use deepseek_harness_relay_m.Broker.Journal
use deepseek_harness_relay_m.Broker.Permissions
use deepseek_harness_relay_m.Broker.Permissions.{Controller, restore_session}
use deepseek_harness_relay_m.Broker.Reconciler.Run.{
  Config, World, Env, Refreshed, active_key, has_passed, is_recent, with_run, mark_stalled,
  operation_of,
}
use deepseek_harness_relay_m.Broker.Reconciler.Finish.{
  is_accepted, may_be_submitted, is_failed, finished_world, restored, finalize, fail_operation,
  rejected, reconcile_missing_prompt, prompt_missing,
}

-- Not yet ended.
abbrev pub is_open : RunStatus → Bool
is_open RunStatus.running = true
is_open RunStatus.needs_attention = true
is_open _ = false

-- The same run, with no event forgotten.
pub record IsLater (s t : RunSnapshot) : Type 0 where
  pub run_id : t.run_id ≡ s.run_id
  pub session_id : t.session_id ≡ s.session_id
  pub service_id : t.service_id ≡ s.service_id
  pub forward : s.last_event_seq ≤ t.last_event_seq

-- A run that has ended has the time at which it did, and its session is no longer active.
abbrev pub IsSettled : ℕ → World → Type 0
IsSettled now w =
    (w.run.snapshot.finished_at ≡ some (iso now))
    × (Map.get w.active (active_key w.run.snapshot) ≡ none)

pub record Settles {ℓ} {E : Type ℓ} (now : ℕ) (s : RunSnapshot) (o : Refreshed E) : Type 0 where
  pub later : IsLater s o.1.run.snapshot
  pub end : (is_open o.1.run.snapshot.status ≡ true) ⊎ IsSettled now o.1

-- The same run, and not ended.
abbrev pub IsGoing : RunSnapshot → RunSnapshot → Type 0
IsGoing s t = IsLater s t × (is_open t.status ≡ true)

pub going {ℓ} :
    {E : Type ℓ} {now : ℕ} {s : RunSnapshot} (o : Refreshed E)
    → IsGoing s o.1.run.snapshot
    → Settles now s o
going o g = record { later = g.0; end = inl g.1 }

module _ {ℓ} {E : Type ℓ} (config : Config) (duration : ℕ)
    (error_text : Permissions.Failure E → String) (env : Env E) (s : RunSnapshot) where
  restored-Settles :
      (w : World) (r : Result (Permissions.Failure E) Bool × Controller)
      → IsLater s w.run.snapshot
      → IsSettled env.now w
      → Settles env.now s (restored config duration error_text w r)
  unfolding restored
  restored-Settles w (err e, c) l d = record { later = l; end = inr d }
  restored-Settles w (ok true, c) l d = record { later = l; end = inr d }
  restored-Settles w (ok false, c) l d = record {
    later = record {
      run_id = l.run_id;
      session_id = l.session_id;
      service_id = l.service_id;
      forward = l.forward;
    };
    end = inl refl;
  }

  pub finalize-Settles :
      (w : World) (status : RunStatus) (error : Option String)
      → IsLater s w.run.snapshot
      → Settles env.now s (finalize config duration error_text env w status error)
  unfolding finalize
  finalize-Settles w status error l =
      let key = active_key w.run.snapshot in
      let gone : Map.get (Map.delete w.active key) key ≡ none =
        ground (arith, Map.get-delete w.active key key, ==_iff key key) in
      restored-Settles (finished_world config duration error_text env.now w status error)
        (restore_session duration error_text w.permissions w.run.snapshot.session_id
          w.run.snapshot.operation_id env.replies)
        (record {
          run_id = l.run_id;
          session_id = l.session_id;
          service_id = l.service_id;
          forward = l.forward;
        })
        (refl, gone)

  pub mark_stalled-IsGoing :
      (has_pending : Bool) (now stall : ℕ) (t : RunSnapshot)
      → IsGoing s t
      → IsGoing s (mark_stalled has_pending now stall t)
  unfolding mark_stalled
  mark_stalled-IsGoing has_pending now stall t g =
      elim (Bool-cases
        (has_pending || is_recent now (or_else t.last_progress_at t.started_at) stall)) [
          | inl fine ↦ rw fine g
          | inr stalls ↦ rw stalls (
            record {
              run_id = g.0.run_id;
              session_id = g.0.session_id;
              service_id = g.0.service_id;
              forward = g.0.forward;
            },
            refl,
          )
        ]

  fail_operation-Settles :
      (r : Result (Journal.Failure E) (Unit {0}) × OperationRecord) (w : World) (id : String)
      → IsGoing s w.run.snapshot
      → Settles env.now s (fail_operation config duration error_text env w id r)
  unfolding fail_operation
  fail_operation-Settles (err e, o) w id g = going _ g
  fail_operation-Settles (ok _, o) w id g = finalize-Settles _ _ _ g.0

  rejected-Settles :
      (o : Option OperationRecord) (w : World)
      → IsGoing s w.run.snapshot
      → Settles env.now s (rejected config duration error_text env w o)
  unfolding rejected
  rejected-Settles none w g = finalize-Settles w _ _ g.0
  rejected-Settles (some o) w g = elim (Bool-cases (is_failed config duration error_text o.state)) [
    | inl failed ↦ rw failed (finalize-Settles w _ _ g.0)
    | inr open_still ↦ rw open_still (fail_operation-Settles _ w _ g)
  ]

  reconcile_missing_prompt-Settles :
      (w : World) (running : Bool) (previous : ℕ)
      → IsGoing s w.run.snapshot
      → Settles env.now s
          (reconcile_missing_prompt config duration error_text env w running previous)
  unfolding reconcile_missing_prompt
  reconcile_missing_prompt-Settles w running previous g =
      elim (Bool-cases (not running && w.run.snapshot.cancel_requested)) [
        | inl cancels ↦ rw cancels (finalize-Settles w _ _ g.0)
        | inr goes_on ↦
            elim (Bool-cases (
              not running
              && (not (is_accepted config duration error_text w.run.snapshot.prompt_admission)
                  && (has_passed env.now w.run.snapshot.started_at config.rpc_timeout
                      && (leb w.run.snapshot.last_event_seq previous
                          && not
                              (may_be_submitted config duration error_text (operation_of w))))))) [
                                | inl rejects ↦
                                    rw (goes_on, rejects)
                                      (rejected-Settles (operation_of w) _ (
                                        record {
                                          run_id = g.0.run_id;
                                          session_id = g.0.session_id;
                                          service_id = g.0.service_id;
                                          forward = g.0.forward;
                                        },
                                        g.1,
                                      ))
                                | inr waits ↦ rw (goes_on, waits) (going _ g)
                              ]
      ]

  pub prompt_missing-Settles :
      (w : World) (running : Bool) (previous : ℕ)
      → IsGoing s w.run.snapshot
      → Settles env.now s (prompt_missing config duration error_text env w running previous)
  unfolding prompt_missing
  prompt_missing-Settles w running previous g =
      elim (Bool-cases
        (running && is_accepted config duration error_text w.run.snapshot.prompt_admission)) [
          | inl stalls ↦ rw stalls (
              reconcile_missing_prompt-Settles
                (with_run w (mark_stalled env.has_pending env.now config.run_stall w.run.snapshot))
                running previous
                (mark_stalled-IsGoing env.has_pending env.now config.run_stall w.run.snapshot g))
          | inr fine ↦ rw fine (reconcile_missing_prompt-Settles w running previous g)
        ]
