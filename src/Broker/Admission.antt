-- ===== src/Broker/Admission.antt =====
-- src/relay-broker/prompt-admission-controller.ts: a prompt is submitted to the Host. The Host's reply,
-- with the rpc id that it hands to the callback before it dispatches, and the outcomes of the calls
-- that persist are arguments.
pub mod Agrees
mod Tests
use deepseek_harness_relay_m.Base.{
  ℕ, String, Bool, true, false, Option, none, some, List, if◌then◌else◌, any, string_eq, ◌==◌, ◌++◌,
  [], ◌∷◌,
}
use deepseek_harness_relay_m.Base.Map
use deepseek_harness_relay_m.Base.Result.{Result, ok, err}
use deepseek_harness_relay_m.Base.Stamp.{Stamp, iso}
use deepseek_harness_relay_m.Types.{
  RunSnapshot, RunStatus, PromptAdmission, OperationRecord, OperationState,
}
use deepseek_harness_relay_m.Broker.Journal
use deepseek_harness_relay_m.Broker.Journal.{no_update, transition, correlate_rpc_id}
use deepseek_harness_relay_m.Broker.Permissions
use deepseek_harness_relay_m.Broker.Reconciler.Run.{
  Config, World, Env, Refreshed, journal_failed, with_run, add_warning,
}
use deepseek_harness_relay_m.Broker.Reconciler.Finish.{finalize}

pub record Accepted : Type 0 where
  pub rpc_id : String
  pub message_id : Option String

-- An error of `submitPrompt`: its text, and whether the Host has refused the prompt for good.
pub record SubmitError : Type 0 where
  pub text : String
  pub definitive : Bool

-- What the Host and the store answer in turn: the first transition, the callback's rpc id if the Host
-- dispatches, its correlation, the prompt, and the last transition.
pub record Submission {ℓ} (E : Type ℓ) : Type ℓ where
  pub submitted : Result E (Unit {0})
  pub actual_rpc_id : Option String
  pub correlated : Result E (Unit {0})
  pub reply : Result SubmitError Accepted
  pub settled : Result E (Unit {0})

abbrev pub unavailable : String
unavailable =
    "The prompt response was unavailable; DSH Relay is reconciling durable history by rpcId"

abbrev is_prepared : OperationState → Bool
is_prepared OperationState.prepared = true
is_prepared _ = false

module _ {ℓ} {E : Type ℓ} (config : Config) (duration : ℕ)
    (error_text : Permissions.Failure E → String) (env : Env E)
    (journal_text : Journal.Failure E → String) where
  -- The world and the operation, which is the broker's own record of it.
  abbrev pub Submitted : Type ℓ
  Submitted = Refreshed E × OperationRecord

  -- After the first transition or the last one has returned.
  unfoldable pub transitioned :
      World → Result (Journal.Failure E) (Unit {0}) × OperationRecord → Submitted
  transitioned w (ok _, o) = ((ok tt, w), o)
  transitioned w (err e, o) = ((err (journal_failed e), w), o)

  abbrev pub accepted_run : Accepted → World → World
  accepted_run a w = record w {
    run = record w.run {
      prompt_rpc_id = a.rpc_id;
      snapshot = record w.run.snapshot {
        prompt_admission = PromptAdmission.accepted;
        prompt_message_id = a.message_id;
        error = none;
      };
    };
  }

  -- The Host has refused the prompt: the operation fails, then the run.
  unfoldable pub refused :
      World → String → Result (Journal.Failure E) (Unit {0}) × OperationRecord → Submitted
  refused w text (err e, o) = ((err (journal_failed e), w), o)
  refused w text (ok _, o) =
      (finalize config duration error_text env w RunStatus.failed (some text), o)

  abbrev pub with_error : PromptAdmission → String → World → World
  with_error admission text w =
      with_run w (record w.run.snapshot { prompt_admission = admission; error = some text })

  abbrev pub unknown_run : String → World → World
  unknown_run text w = with_run w (record w.run.snapshot {
    prompt_admission = PromptAdmission.unknown;
    error = some text;
    warnings = add_warning unavailable w.run.snapshot.warnings;
  })

  -- By the reply of `submitPrompt`.
  unfoldable pub replied :
      Result E (Unit {0}) → World → OperationRecord → Result SubmitError Accepted → Submitted
  replied settled w o (ok a) = transitioned (accepted_run a w) (
      transition o OperationState.acknowledged
        (record { message_id = some a.message_id; error = some none }) (iso env.now) settled)
  replied settled w o (err e) =
      if e.definitive
      then refused (with_error PromptAdmission.rejected e.text w) e.text (
          transition o OperationState.failed (record no_update { error = some (some e.text) })
            (iso env.now) settled)
      else transitioned (unknown_run e.text w) (
          transition o OperationState.unknown (record no_update { error = some (some e.text) })
            (iso env.now) settled)

  abbrev dispatched : String → World → World
  dispatched rpc_id w = record w { run = record w.run { prompt_rpc_id = rpc_id } }

  -- A callback that throws makes `submitPrompt` throw its error, which is no refusal of the Host.
  unfoldable pub correlated :
      Result E (Unit {0})
      → World
      → Result SubmitError Accepted
      → Result (Journal.Failure E) (Unit {0}) × OperationRecord
      → Submitted
  correlated settled w reply (ok _, o) = replied settled w o reply
  correlated settled w reply (err e, o) =
      replied settled w o (err (record { text = journal_text e; definitive = false }))

  unfoldable pub asked : Submission E → World → OperationRecord → Option String → Submitted
  asked s w o none = replied s.settled w o s.reply
  asked s w o (some rpc_id) =
      correlated s.settled (dispatched rpc_id w) s.reply
        (correlate_rpc_id o rpc_id (iso env.now) s.correlated)

  unfoldable pub first_moved :
      Submission E → World → Result (Journal.Failure E) (Unit {0}) × OperationRecord → Submitted
  first_moved s w (err e, o) = ((err (journal_failed e), w), o)
  first_moved s w (ok _, o) = asked s w o s.actual_rpc_id

  -- `submit`
  unfoldable pub submit : Submission E → World → OperationRecord → Submitted
  submit s w o =
      if is_prepared o.state
      then first_moved s w
          (transition o OperationState.submitted no_update (iso env.now) s.submitted)
      else asked s w o s.actual_rpc_id
