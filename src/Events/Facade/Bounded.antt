-- ===== src/Events/Facade/Bounded.antt =====
-- The memory of src/event-monitoring/event-monitoring-facade.ts under any interleaving of its streams and
-- of the confirmations of history.

use deepseek_harness_relay_m.Base.{
  ℕ, zero, suc, ◌+◌, ◌≤◌, String, inl, inr, Bool, true, false, Option, none, some, List, [], ◌∷◌,
  arith, string_eq, ==_iff, Option-cases, Bool-cases, All,
}
use deepseek_harness_relay_m.Base.Map
use deepseek_harness_relay_m.Base.Map.{Map, All-set, All-get, size-set-le, size-delete-le}
use deepseek_harness_relay_m.Base.Result.{Result, ok, err}
use deepseek_harness_relay_m.Types.{RpcEvent}
use deepseek_harness_relay_m.Events.Sequencer.{
  Sessions, SessionSequence, state_for, subscribe, observe, rebase, subscribe_session,
  observe_session, rebase_session, SequenceObservation, Kind, duplicate, progress, history_required,
  overflow,
}
use deepseek_harness_relay_m.Events.Sequencer.Invariant.{
  Inv, fresh-Inv, subscribe-Inv, observe-Inv, rebase-Inv,
}
use deepseek_harness_relay_m.Events.Facade.{
  Notice, Options, Facade, Handled, trim, trim_oldest, Message, PollingReason, MuxFrame,
  session_subscribed, session_event_frame, approval_requested, question_requested,
  approval_resolved, question_resolved, mux_error, passed_over, HostFrame, session_added,
  session_removed, session_status, agent_error, host_error, host_passed_over, Stream, mux, host,
  emit, and_then, remember, once, ask, warn_gap, observed_as, event_observed, approval_settled,
  handle_mux, handle_host, rebased, confirm_history, restored, disconnected, is_degraded, mark,
}

size-trim :
    {A : Type 0} (fuel maximum : ℕ) (m : Map String A)
    → Map.size m ≤ maximum + fuel
    → Map.size (trim fuel maximum m) ≤ maximum
unfolding trim Map.delete
size-trim zero maximum m h = omega (arith, h)
size-trim (suc fuel) maximum [] h = omega arith
size-trim (suc fuel) maximum ((key, v) ∷ rest) h =
    ground
      (arith, ==_iff key key, size-delete-le rest key, size-trim fuel maximum (Map.delete rest key))

size-trim_oldest :
    {A : Type 0} (m : Map String A) (maximum : ℕ) → Map.size (trim_oldest m maximum) ≤ maximum
size-trim_oldest m maximum = size-trim (Map.size m) maximum m (omega arith)

-- What any of the calls may do: a frame of either stream, an opened or a lost stream, and the
-- confirmation of history.
pub data Call : Type 0 where
  mux_frame : String → MuxFrame → Call
  host_frame : HostFrame → Call
  opened : Stream → Call
  lost : Stream → PollingReason → Option Message → Call
  confirmed : String → ℕ → Call

module _ (accepts : Notice → Result String (Unit {0})) (options : Options) where
  unfoldable pub step : Call → Facade → Facade
  unfolding handle_mux handle_host restored disconnected confirm_history
  step (mux_frame rpc_id frame) f = (handle_mux accepts options rpc_id frame f).1
  step (host_frame frame) f = (handle_host accepts options frame f).1
  step (opened stream) f = restored accepts options stream f
  step (lost stream reason message) f = (disconnected accepts options stream reason message f).1
  step (confirmed session_id last) f = confirm_history accepts options session_id last f

  unfoldable pub run : List Call → Facade → Facade
  unfolding step
  run [] f = f
  run (c ∷ calls) f = run calls (step c f)

  -- The two memories of interactions and what is pending of each session are bounded, and each
  -- session keeps the sequencer's invariant.
  pub record IsBounded (f : Facade) : Type 0 where
    pub interactions : Map.size f.seen_interactions ≤ options.max_remembered_interactions
    pub approvals : Map.size f.approval_rpc_ids ≤ options.max_remembered_interactions
    pub sequences : All (λ s. Inv options.max_pending_events_per_session s) (Map.values f.sessions)

  abbrev max_pending : ℕ
  max_pending = options.max_pending_events_per_session

  abbrev Keeps : Sessions → Type 0
  Keeps sessions = All (λ s. Inv max_pending s) (Map.values sessions)

  state_for-Inv :
      (sessions : Sessions) (id : String) → Keeps sessions → Inv max_pending (state_for sessions id)
  state_for-Inv sessions id h = elim (Option-cases (Map.get sessions id)) [
    | inl new ↦ rw new (fresh-Inv max_pending)
    | inr (s, known) ↦ rw known (All-get (λ t. Inv max_pending t) sessions id s h known)
  ]

  set-Keeps :
      (sessions : Sessions) (id : String) (s : SessionSequence)
      → Keeps sessions
      → Inv max_pending s
      → Keeps (Map.set sessions id s)
  set-Keeps sessions id s h v = All-set (λ t. Inv max_pending t) sessions id s v h

  with_sessions :
      (f : Facade) (sessions : Sessions)
      → IsBounded f
      → Keeps sessions
      → IsBounded (record f { sessions = sessions })
  with_sessions f sessions b k = record {
    interactions = b.interactions;
    approvals = b.approvals;
    sequences = k;
  }

  emit-IsBounded : (n : Notice) (f : Facade) → IsBounded f → IsBounded (emit accepts options n f).1
  unfolding emit
  emit-IsBounded n f b = record {
    interactions = b.interactions;
    approvals = b.approvals;
    sequences = b.sequences;
  }

  once-IsBounded :
      (key : String) (n : Notice) (f : Facade)
      → IsBounded f
      → IsBounded (once accepts options key n f).1
  unfolding once remember emit
  once-IsBounded key n f b = elim (Bool-cases (Map.has f.seen_interactions key)) [
    | inl known ↦ rw known b
    | inr new ↦ rw new (record {
      interactions =
          size-trim_oldest (Map.set f.seen_interactions key tt) options.max_remembered_interactions;
      approvals = b.approvals;
      sequences = b.sequences;
    })
  ]

  and_then-IsBounded :
      (h : Handled) (rest : Facade → Handled)
      → IsBounded h.1
      → ((f : Facade) → IsBounded f → IsBounded (rest f).1)
      → IsBounded (and_then h rest).1
  unfolding and_then
  and_then-IsBounded (ok _, f) rest b k = k f b
  and_then-IsBounded (err e, f) rest b k = b

  warn_gap-IsBounded :
      (expected : Option ℕ) (id : String) (observed : ℕ) (f : Facade)
      → IsBounded f
      → IsBounded (warn_gap accepts options id observed expected f).1
  unfolding warn_gap
  warn_gap-IsBounded none id observed f b = b
  warn_gap-IsBounded (some n) id observed f b = emit-IsBounded _ f b

  observed_as-IsBounded :
      (k : Kind) (id : String) (o : SequenceObservation) (f : Facade)
      → IsBounded f
      → IsBounded (observed_as accepts options k id o f).1
  unfolding observed_as ask
  observed_as-IsBounded duplicate id o f b = b
  observed_as-IsBounded progress id o f b = emit-IsBounded _ f b
  observed_as-IsBounded overflow id o f b =
      and_then-IsBounded (emit accepts options _ f) (ask accepts options id o)
        (emit-IsBounded _ f b) (λ g. emit-IsBounded _ g)
  observed_as-IsBounded history_required id o f b =
      and_then-IsBounded (warn_gap accepts options id o.observed_seq o.expected_seq f)
        (ask accepts options id o) (warn_gap-IsBounded o.expected_seq id o.observed_seq f b)
        (λ g. emit-IsBounded _ g)

  approval_settled-IsBounded :
      (known : Option String) (id approval_id outcome : String) (f : Facade)
      → IsBounded f
      → IsBounded (approval_settled accepts options known id approval_id outcome f).1
  unfolding approval_settled
  approval_settled-IsBounded none id approval_id outcome f b = b
  approval_settled-IsBounded (some rpc_id) id approval_id outcome f b = once-IsBounded _ _ f b

  module _ (room : 1 ≤ options.max_pending_events_per_session) where
    event_observed-IsBounded :
        (id : String) (event : RpcEvent) (f : Facade)
        → IsBounded f
        → IsBounded
            (event_observed accepts options id
              (observe_session max_pending f.sessions id event)
              f).1
    unfolding event_observed observe_session
    event_observed-IsBounded id event f b =
        let v = state_for-Inv f.sessions id b.sequences in
        let seen = observe max_pending (state_for f.sessions id) event in
        observed_as-IsBounded seen.0.kind id seen.0 _ (
          with_sessions f (Map.set f.sessions id seen.1) b (
            set-Keeps f.sessions id seen.1 b.sequences
              (observe-Inv max_pending (state_for f.sessions id) v event room)))

    handle_mux-IsBounded :
        (rpc_id : String) (frame : MuxFrame) (f : Facade)
        → IsBounded f
        → IsBounded (handle_mux accepts options rpc_id frame f).1
    unfolding handle_mux subscribe_session
    handle_mux-IsBounded rpc_id (session_subscribed id last_seq) f b = emit-IsBounded _ _ (
        with_sessions f (Map.set f.sessions id (subscribe (state_for f.sessions id))) b (
          set-Keeps f.sessions id _ b.sequences (
            subscribe-Inv max_pending (state_for f.sessions id)
              (state_for-Inv f.sessions id b.sequences))))
    handle_mux-IsBounded rpc_id (session_event_frame id event) f b =
        event_observed-IsBounded id event f b
    handle_mux-IsBounded rpc_id (approval_requested id approval_id tool_name call_id reason) f b =
        once-IsBounded _ _ _ (record {
          interactions = b.interactions;
          approvals =
              size-trim_oldest (Map.set f.approval_rpc_ids approval_id rpc_id)
                options.max_remembered_interactions;
          sequences = b.sequences;
        })
    handle_mux-IsBounded rpc_id (question_requested id questions) f b = once-IsBounded _ _ f b
    handle_mux-IsBounded rpc_id (approval_resolved id approval_id outcome) f b =
        approval_settled-IsBounded (Map.get f.approval_rpc_ids approval_id) id approval_id outcome _
          (record {
            interactions = b.interactions;
            approvals = omega (arith, size-delete-le f.approval_rpc_ids approval_id, b.approvals);
            sequences = b.sequences;
          })
    handle_mux-IsBounded rpc_id (question_resolved id question_rpc_id outcome) f b =
        once-IsBounded _ _ f b
    handle_mux-IsBounded rpc_id (mux_error message) f b = b
    handle_mux-IsBounded rpc_id passed_over f b = b

    handle_host-IsBounded :
        (frame : HostFrame) (f : Facade)
        → IsBounded f
        → IsBounded (handle_host accepts options frame f).1
    unfolding handle_host
    handle_host-IsBounded (session_added id) f b = emit-IsBounded _ f b
    handle_host-IsBounded (session_removed id) f b = emit-IsBounded _ f b
    handle_host-IsBounded (session_status id) f b = emit-IsBounded _ f b
    handle_host-IsBounded (agent_error id) f b = emit-IsBounded _ f b
    handle_host-IsBounded (host_error message) f b = b
    handle_host-IsBounded host_passed_over f b = b

    marked :
        (stream : Stream) (d : Bool) (f : Facade)
        → IsBounded f
        → IsBounded (mark accepts options stream d f)
    marked mux d f b = record {
      interactions = b.interactions;
      approvals = b.approvals;
      sequences = b.sequences;
    }
    marked host d f b = record {
      interactions = b.interactions;
      approvals = b.approvals;
      sequences = b.sequences;
    }

    restored-IsBounded :
        (stream : Stream) (f : Facade) → IsBounded f → IsBounded (restored accepts options stream f)
    unfolding restored
    restored-IsBounded stream f b = elim (Bool-cases (is_degraded accepts options stream f)) [
      | inl degraded ↦ rw degraded (emit-IsBounded _ _ (marked stream false f b))
      | inr fine ↦ rw fine b
    ]

    confirm_history-IsBounded :
        (id : String) (last : ℕ) (f : Facade)
        → IsBounded f
        → IsBounded (confirm_history accepts options id last f)
    unfolding confirm_history rebased rebase_session
    confirm_history-IsBounded id last f b =
        let s = state_for f.sessions id in
        let told =
          emit-IsBounded (Notice.session_stream_rebased id last)
            (record f { sessions = Map.set f.sessions id (rebase s last).1 })
            (with_sessions f _ b (
              set-Keeps f.sessions id _ b.sequences
                (rebase-Inv max_pending s last (state_for-Inv f.sessions id b.sequences)))) in
        elim (Bool-cases (rebase s last).0.gap) [
          | inl gap ↦ rw gap (emit-IsBounded _ _ told)
          | inr none_left ↦ rw none_left told
        ]

    step-IsBounded : (c : Call) (f : Facade) → IsBounded f → IsBounded (step c f)
    unfolding step disconnected
    step-IsBounded (mux_frame rpc_id frame) f b = handle_mux-IsBounded rpc_id frame f b
    step-IsBounded (host_frame frame) f b = handle_host-IsBounded frame f b
    step-IsBounded (opened stream) f b = restored-IsBounded stream f b
    step-IsBounded (lost stream reason message) f b = emit-IsBounded _ _ (marked stream true f b)
    step-IsBounded (confirmed id last) f b = confirm_history-IsBounded id last f b

    -- Whatever the streams bring, whichever of them are lost, whenever history is confirmed and
    -- whether the sink throws or not: with room for one pending event, the facade remembers at most
    -- the given number of interactions and of approvals, and every session keeps the sequencer's
    -- invariant, so that its pending events are bounded too.
    pub run-IsBounded : (calls : List Call) (f : Facade) → IsBounded f → IsBounded (run calls f)
    unfolding run
    run-IsBounded [] f b = b
    run-IsBounded (c ∷ calls) f b = run-IsBounded calls (step c f) (step-IsBounded c f b)
