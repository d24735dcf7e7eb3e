-- ===== src/Events/Sequencer/Tests.antt =====
-- Runs of src/event-monitoring/event-sequencer.ts on one session.
use deepseek_harness_relay_m.Base.{ℕ, ◌≡◌, refl, true, false, none, some, [], ◌∷◌, arith}
use deepseek_harness_relay_m.Base.Map
use deepseek_harness_relay_m.Types.{RpcEvent}
use deepseek_harness_relay_m.Types.Json.{end}
use deepseek_harness_relay_m.Events.Sequencer.{SessionSequence, progress, seen, observe, rebase}
use deepseek_harness_relay_m.Events.Sequencer.Rebase.{IsRebased, rebase-IsRebased}
use deepseek_harness_relay_m.Events.Sequencer.Invariant.{Inv, observe_live}

abbrev event : ℕ → RpcEvent
event n = record { type = "agent/text"; seq = n; time = 0; payload = end }

-- Events 6, 7 and 9 wait for the history.
abbrev waiting : SessionSequence
waiting = record {
  durable_seq = none;
  awaiting_history = true;
  pending = (6, event 6) ∷ (9, event 9) ∷ (7, event 7) ∷ [];
}

abbrev live : SessionSequence
live = record { durable_seq = some 5; awaiting_history = false; pending = [] }

rebase-IsRebased_example : IsRebased waiting 5 (rebase waiting 5).0 (rebase waiting 5).1
rebase-IsRebased_example = rebase-IsRebased waiting 5

live-Inv : Inv 8 live
unfolding Map.get
live-Inv = record {
  idle = λ h. refl;
  known = λ h. refl;
  above = λ d n h k. cc;
  bounded = omega arith;
}

observe_live_example :
    observe 8 live (event 6) ≡ (seen progress 6, record live { durable_seq = some 6 })
observe_live_example = observe_live 8 live live-Inv (event 6) 5 (omega arith) refl refl
