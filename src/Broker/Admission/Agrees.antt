-- ===== src/Broker/Admission/Agrees.antt =====
-- What `submit` of src/relay-broker/prompt-admission-controller.ts leaves of the run and its operation.
use deepseek_harness_relay_m.Base.{
  ℕ, String, ◌≡◌, refl, ◌∙◌, inl, inr, Bool, true, false, Option, none, some, arith, string_eq,
  Bool-cases,
}
use deepseek_harness_relay_m.Base.Result.{Result, ok, err}
use deepseek_harness_relay_m.Base.Stamp.{Stamp, iso}
use deepseek_harness_relay_m.Types.{RunStatus, PromptAdmission, OperationRecord, OperationState}
use deepseek_harness_relay_m.Broker.Journal
use deepseek_harness_relay_m.Broker.Journal.{Update, no_update, transition, correlate_rpc_id}
use deepseek_harness_relay_m.Broker.Permissions
use deepseek_harness_relay_m.Broker.Permissions.{Controller, restore_session}
use deepseek_harness_relay_m.Broker.Reconciler.Run.{Config, World, Env}
use deepseek_harness_relay_m.Broker.Reconciler.Finish.{restored, finalize, finished_world}
use deepseek_harness_relay_m.Broker.Admission.{
  Accepted, SubmitError, Submission, Submitted, transitioned, accepted_run, refused, with_error,
  unknown_run, replied, correlated, asked, first_moved, submit,
}

-- The run's admission and the operation's state say the same of the prompt.
pub data Agrees : PromptAdmission → OperationState → Type 0 where
  both_accepted : Agrees PromptAdmission.accepted OperationState.acknowledged
  both_rejected : Agrees PromptAdmission.rejected OperationState.failed
  both_unknown : Agrees PromptAdmission.unknown OperationState.unknown

-- A transition that is allowed from `submitted`, and persisted.
moved {ℓ} :
    (E : Type ℓ) (o : OperationRecord) (to : OperationState) (u : Update) (now : Stamp)
    → Journal.allowed OperationState.submitted to ≡ true
    → o.state ≡ OperationState.submitted
    → (transition {E = E} o to u now (ok tt)).1.state ≡ to
unfolding transition
moved E o to u now fine h = rw (h, fine) refl

state-correlate {ℓ} :
    {E : Type ℓ} (o : OperationRecord) (rpc_id : String) (now : Stamp) (r : Result E (Unit {0}))
    → (correlate_rpc_id o rpc_id now r).1.state ≡ o.state
unfolding correlate_rpc_id
state-correlate o rpc_id now r = ground arith

module _ {ℓ} {E : Type ℓ} (config : Config) (duration : ℕ)
    (error_text : Permissions.Failure E → String) (env : Env E)
    (journal_text : Journal.Failure E → String) where
  admission-restored :
      (w : World) (r : Result (Permissions.Failure E) Bool × Controller)
      → (restored config duration error_text w r).1.run.snapshot.prompt_admission
        ≡ w.run.snapshot.prompt_admission
  unfolding restored
  admission-restored w (err e, c) = refl
  admission-restored w (ok true, c) = refl
  admission-restored w (ok false, c) = refl

  admission-finalize :
      (w : World) (status : RunStatus) (error : Option String)
      → (finalize config duration error_text env w status error).1.run.snapshot.prompt_admission
        ≡ w.run.snapshot.prompt_admission
  unfolding finalize
  admission-finalize w status error =
      admission-restored (finished_world config duration error_text env.now w status error) (
        restore_session duration error_text w.permissions w.run.snapshot.session_id
          w.run.snapshot.operation_id env.replies)

  AgreesAfter : Submitted config duration error_text env journal_text → Type 0
  AgreesAfter s = Agrees s.0.1.run.snapshot.prompt_admission s.1.state

  transitioned-Agrees :
      (w : World) (m : Result (Journal.Failure E) (Unit {0}) × OperationRecord)
      → Agrees w.run.snapshot.prompt_admission m.1.state
      → AgreesAfter (transitioned config duration error_text env journal_text w m)
  unfolding transitioned AgreesAfter
  transitioned-Agrees w (ok _, o) a = a
  transitioned-Agrees w (err e, o) a = a

  refused-Agrees :
      (w : World) (text : String) (m : Result (Journal.Failure E) (Unit {0}) × OperationRecord)
      → w.run.snapshot.prompt_admission ≡ PromptAdmission.rejected
      → m.1.state ≡ OperationState.failed
      → AgreesAfter (refused config duration error_text env journal_text w text m)
  unfolding refused AgreesAfter
  refused-Agrees w text (ok _, o) a s =
      rw (admission-finalize w RunStatus.failed (some text), a, s) both_rejected
  refused-Agrees w text (err e, o) a s = rw (a, s) both_rejected

  replied-Agrees :
      (reply : Result SubmitError Accepted) (w : World) (o : OperationRecord)
      → o.state ≡ OperationState.submitted
      → AgreesAfter (replied config duration error_text env journal_text (ok tt) w o reply)
  unfolding replied Journal.allowed
  replied-Agrees (ok a) w o h =
      transitioned-Agrees (accepted_run config duration error_text env journal_text a w) _
        (rw (moved E o OperationState.acknowledged _ (iso env.now) refl h) both_accepted)
  replied-Agrees (err e) w o h = elim (Bool-cases e.definitive) [
    | inl definitive ↦ rw definitive (
        refused-Agrees
          (with_error config duration error_text env journal_text PromptAdmission.rejected e.text w)
          e.text _ refl (moved E o OperationState.failed _ (iso env.now) refl h))
    | inr open_still ↦ rw open_still (
        transitioned-Agrees (unknown_run config duration error_text env journal_text e.text w) _
          (rw (moved E o OperationState.unknown _ (iso env.now) refl h) both_unknown))
  ]

  correlated-Agrees :
      (m : Result (Journal.Failure E) (Unit {0}) × OperationRecord) (w : World)
      (reply : Result SubmitError Accepted)
      → m.1.state ≡ OperationState.submitted
      → AgreesAfter (correlated config duration error_text env journal_text (ok tt) w reply m)
  unfolding correlated
  correlated-Agrees (ok _, o) w reply h = replied-Agrees reply w o h
  correlated-Agrees (err e, o) w reply h = replied-Agrees _ w o h

  asked-Agrees :
      (rpc_id : Option String) (s : Submission E) (w : World) (o : OperationRecord)
      → s.settled ≡ ok tt
      → o.state ≡ OperationState.submitted
      → AgreesAfter (asked config duration error_text env journal_text s w o rpc_id)
  unfolding asked
  asked-Agrees none s w o p h = rw p (replied-Agrees s.reply w o h)
  asked-Agrees (some id) s w o p h = rw p (
      correlated-Agrees (correlate_rpc_id o id (iso env.now) s.correlated) _ s.reply
        (state-correlate o id (iso env.now) s.correlated ∙ h))

  first_moved-Agrees :
      (m : Result (Journal.Failure E) (Unit {0}) × OperationRecord) (s : Submission E) (w : World)
      → m.0 ≡ ok tt
      → m.1.state ≡ OperationState.submitted
      → s.settled ≡ ok tt
      → AgreesAfter (first_moved config duration error_text env journal_text s w m)
  unfolding first_moved
  first_moved-Agrees (ok _, o) s w e h p = asked-Agrees s.actual_rpc_id s w o p h
  first_moved-Agrees (err x, o) s w e h p = absurd (cc)

  -- A prompt that is submitted for a prepared operation is settled the same in both places: where the
  -- first and the last transition are persisted, then whatever the Host answers, and whether or not
  -- the rpc id can be correlated, the run's prompt is accepted and its operation acknowledged, or
  -- rejected and failed, or both are unknown.
  pub submit-Agrees :
      (s : Submission E) (w : World) (o : OperationRecord)
      → o.state ≡ OperationState.prepared
      → s.submitted ≡ ok tt
      → s.settled ≡ ok tt
      → Agrees
          (submit config duration error_text env journal_text s w
            o).0.1.run.snapshot.prompt_admission
          (submit config duration error_text env journal_text s w o).1.state
  unfolding submit AgreesAfter transition Journal.allowed
  submit-Agrees s w o h first last = rw h (first_moved-Agrees _ s w (rw first refl) refl last)
