-- ===== src/Broker/Errors.antt =====
-- src/relay-broker/errors.ts: the structured errors that a caller of the relay sees.
use deepseek_harness_relay_m.Base.{String, Bool, Option}

pub data NextAction : Type 0 where
  wait status reply reconcile choose_model confirm nothing : NextAction

pub record RelayError : Type 0 where
  pub code : String
  pub message : String
  pub retryable : Bool
  pub operation_id : Option String
  pub run_id : Option String
  pub last_known_state : Option String
  pub next_action : Option NextAction
