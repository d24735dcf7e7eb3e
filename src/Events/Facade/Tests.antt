-- ===== src/Events/Facade/Tests.antt =====
-- Runs of src/event-monitoring/event-monitoring-facade.ts.
use deepseek_harness_relay_m.Base.{
  suc, zero, ℕ, String, ◌≡◌, refl, ◌≢◌, ap, true, false, some, List, [], ◌∷◌, arith,
}
use deepseek_harness_relay_m.Base.Map
use deepseek_harness_relay_m.Base.Result.{Result, ok}
use deepseek_harness_relay_m.Types.{RpcEvent}
use deepseek_harness_relay_m.Types.Json.{end, nil}
use deepseek_harness_relay_m.Events.Sequencer.{
  observe_known, observe_pending, observe, observe_session, state_for,
}
use deepseek_harness_relay_m.Events.Facade.{
  event_observed, observed_as, ask, warn_gap, emit, and_then, Notice, polling_required,
  stream_restored, mux, stream_scope, stream_error, error_text, Options, Facade, MuxFrame,
  session_event_frame, question_requested, mux_error, passed_over, handle_mux, closes, aborts,
  Connection, pump,
}
use deepseek_harness_relay_m.Events.Facade.Bounded.{Call, mux_frame, run, IsBounded, run-IsBounded}
use deepseek_harness_relay_m.Events.Facade.Asks.{AsksFor, handle_mux-Asks}

abbrev accepts : Notice → Result String (Unit {0})
accepts n = ok tt

abbrev options : Options
options = record { max_pending_events_per_session = 2; max_remembered_interactions = 1 }

abbrev start : Facade
start = record {
  sessions = [];
  seen_interactions = [];
  approval_rpc_ids = [];
  mux_degraded = false;
  host_degraded = false;
  sent = [];
}

abbrev event : ℕ → RpcEvent
event n = record { type = "x"; seq = n; time = 0; payload = end }

-- A question is announced once, until a newer one takes its place.
abbrev calls : List Call
calls =
    mux_frame "r" (question_requested "s" nil)
    ∷ mux_frame "r" (question_requested "s" nil)
    ∷ mux_frame "q" (question_requested "s" nil)
    ∷ []

remembered : Map.size (run accepts options calls start).seen_interactions ≡ 1
unfolding run Map.get Map.set Map.delete
remembered = refl

start-IsBounded : IsBounded accepts options start
start-IsBounded = record { interactions = omega arith; approvals = omega arith; sequences = tt }

run-IsBounded_example : IsBounded accepts options (run accepts options calls start)
run-IsBounded_example = run-IsBounded accepts options (omega arith) calls start start-IsBounded

-- The first event of a session asks for its history.
abbrev observed : Facade
observed = (handle_mux accepts options "r" (session_event_frame "s" (event 3)) start).1

observed-changed : state_for observed.sessions "s" ≢ state_for start.sessions "s"
unfolding handle_mux event_observed observed_as ask warn_gap emit and_then observe_session observe
    observe_known observe_pending Map.get Map.set
observed-changed e = one_pending (ap (λ s. Map.size s.pending) e)
  where
    one_pending : suc zero ≢ zero
    one_pending n = absurd (omega arith)

handle_mux-Asks_example : AsksFor accepts options (λ n. refl) "s" observed.sent
handle_mux-Asks_example =
    handle_mux-Asks accepts options (λ n. refl) "r" (session_event_frame "s" (event 3)) start "s"
      observed-changed

-- A broken stream asks for polling, and is announced as restored when it opens again.
abbrev connections : List (Connection MuxFrame)
connections =
    record {
      opens = true;
      frames = passed_over ∷ mux_error "lost" ∷ passed_over ∷ [];
      closing = closes;
    }
    ∷ record { opens = true; frames = []; closing = aborts }
    ∷ []

restored_after :
    (pump accepts options mux (handle_mux accepts options "r") connections start).1.sent
    ≡ stream_restored mux
      ∷ polling_required (stream_scope mux) stream_error (some (error_text "lost"))
      ∷ []
unfolding pump handle_mux
restored_after = refl
