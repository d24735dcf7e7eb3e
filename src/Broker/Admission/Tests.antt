-- ===== src/Broker/Admission/Tests.antt =====
-- A run of src/relay-broker/prompt-admission-controller.ts: the Host's answer is lost.
use deepseek_harness_relay_m.Base.{String, refl, false, some}
use deepseek_harness_relay_m.Base.Result.{ok, err}
use deepseek_harness_relay_m.Broker.Journal
use deepseek_harness_relay_m.Broker.Journal.{transition, correlate_rpc_id}
use deepseek_harness_relay_m.Broker.Admission.{Submission, submit}
use deepseek_harness_relay_m.Broker.Admission.Agrees.{Agrees, submit-Agrees}
use deepseek_harness_relay_m.Broker.Reconciler.Tests.{world, config, error_text, env, prepared}

abbrev submission : Submission String
submission = record {
  submitted = ok tt;
  actual_rpc_id = some "p2";
  correlated = ok tt;
  reply = err (record { text = "timeout"; definitive = false });
  settled = ok tt;
}

abbrev journal_text : Journal.Failure String → String
journal_text e = "error"

submit-Agrees_example :
    Agrees
      (submit config 60 error_text env journal_text submission world
        prepared).0.1.run.snapshot.prompt_admission
      (submit config 60 error_text env journal_text submission world prepared).1.state
submit-Agrees_example =
    submit-Agrees config 60 error_text env journal_text submission world prepared refl refl refl
