-- ===== src/Events/Facade/Asks.antt =====
-- When src/event-monitoring/event-monitoring-facade.ts asks for the durable history of a session.
use deepseek_harness_relay_m.Base.{
  ℕ, String, ◌≡◌, ◌≢◌, refl, ap, subst, ◌∙◌, inl, inr, ◌||◌, Option, none, some, List, ◌∷◌, arith,
  leb, string_eq, nat_eq, ◌==◌, ==_iff, Option-cases, Bool-cases,
}
use deepseek_harness_relay_m.Base.Map
use deepseek_harness_relay_m.Base.Result.{Result, ok, err}
use deepseek_harness_relay_m.Types.{RpcEvent}
use deepseek_harness_relay_m.Events.Sequencer.{
  Sessions, SessionSequence, state_for, observe, observe_pending, observe_known, is_durable,
  subscribe_session, observe_session, SequenceObservation, Kind, duplicate, progress,
  history_required, overflow,
}
use deepseek_harness_relay_m.Events.Facade.{
  Notice, HistoryReason, history_reconcile, subscribed, Options, Facade, Handled, MuxFrame,
  session_subscribed, session_event_frame, approval_requested, question_requested,
  approval_resolved, question_resolved, mux_error, passed_over, emit, and_then, once, remember, ask,
  warn_gap, observed_as, event_observed, approval_settled, handle_mux,
}

observe_known-not_duplicate :
    (s : SessionSequence) (durable seq : ℕ) → (observe_known s durable seq).0.kind ≢ duplicate
unfolding observe_known
observe_known-not_duplicate s durable seq e = absurd (ground arith)

observe_pending-not_duplicate :
    (s : SessionSequence) (seq : ℕ) → (observe_pending s seq).0.kind ≢ duplicate
unfolding observe_pending
observe_pending-not_duplicate s seq e = elim (Option-cases s.durable_seq) [
  | inl unknown ↦ absurd (ground arith)
  | inr (d, known) ↦
      observe_known-not_duplicate (record s { durable_seq = some d }) d seq (rw known at e)
]

observe-duplicate :
    (m : ℕ) (s : SessionSequence) (event : RpcEvent)
    → (observe m s event).0.kind ≡ duplicate
    → (observe m s event).1 ≡ s
unfolding observe
observe-duplicate m s event e =
    elim (Bool-cases (is_durable s.durable_seq event.seq || Map.has s.pending event.seq)) [
      | inl known ↦ rw known refl
      | inr new ↦ elim (Bool-cases (leb m (Map.size s.pending))) [
        | inl full ↦ absurd (ground arith)
        | inr room ↦ absurd (observe_pending-not_duplicate _ event.seq (rw (new, room) at e))
      ]
    ]

module _ (accepts : Notice → Result String (Unit {0})) (options : Options)
    (quiet : (n : Notice) → accepts n ≡ ok tt) where
  -- The newest notice asks to read the session's history.
  abbrev pub AsksFor : String → List Notice → Type 0
  AsksFor id sent =
      (rest : List Notice) × (reason : HistoryReason) × (seen expected : Option ℕ) × (sent
        ≡ history_reconcile id reason seen expected ∷ rest)

  -- Where the session's sequence differs, its history is asked for.
  abbrev Asks : String → Facade → Facade → Type 0
  Asks id f g = state_for g.sessions id ≢ state_for f.sessions id → AsksFor id g.sent

  other_session :
      (sessions : Sessions) (id session_id : String) (s : SessionSequence)
      → state_for (Map.set sessions session_id s) id ≢ state_for sessions id
      → (session_id ≡ id) × (s ≢ state_for sessions id)
  other_session sessions id session_id s changed = elim (Bool-cases (session_id == id)) [
    | inl same ↦ (
      (==_iff session_id id).0 same,
      λ e. changed (rw (Map.get-set sessions session_id id s, same) e),
    )
    | inr different ↦ absurd (changed (rw (Map.get-set sessions session_id id s, different) refl))
  ]

  same_sessions : (id : String) (f g : Facade) → g.sessions ≡ f.sessions → Asks id f g
  same_sessions id f g e changed = absurd (changed (rw e refl))

  sessions-once :
      (key : String) (n : Notice) (f : Facade)
      → (once accepts options key n f).1.sessions ≡ f.sessions
  unfolding once emit remember
  sessions-once key n f = elim (Bool-cases (Map.has f.seen_interactions key)) [
    | inl known ↦ rw known refl
    | inr new ↦ rw new refl
  ]

  once-Asks :
      (id : String) (f : Facade) (key : String) (n : Notice) (g : Facade)
      → g.sessions ≡ f.sessions
      → Asks id f (once accepts options key n g).1
  once-Asks id f key n g e =
      same_sessions id f (once accepts options key n g).1 (sessions-once key n g ∙ e)

  approval_settled-Asks :
      (known : Option String) (id session_id approval_id outcome : String) (f g : Facade)
      → g.sessions ≡ f.sessions
      → Asks id f (approval_settled accepts options known session_id approval_id outcome g).1
  unfolding approval_settled
  approval_settled-Asks none id session_id approval_id outcome f g e = same_sessions id f g e
  approval_settled-Asks (some rpc_id) id session_id approval_id outcome f g e =
      once-Asks id f _ _ g e

  ask_after :
      (id : String) (o : SequenceObservation) (h : Handled)
      → h.0 ≡ ok tt
      → AsksFor id (and_then h (ask accepts options id o)).1.sent
  unfolding and_then ask emit
  ask_after id o (ok _, f) fine = (f.sent, _, _, _, refl)
  ask_after id o (err e, f) fine = absurd (cc)

  warn_gap-ok :
      (expected : Option ℕ) (id : String) (seen : ℕ) (f : Facade)
      → (warn_gap accepts options id seen expected f).0 ≡ ok tt
  unfolding warn_gap emit
  warn_gap-ok none id seen f = refl
  warn_gap-ok (some n) id seen f = quiet _

  observed_as-AsksFor :
      (k : Kind) (id : String) (o : SequenceObservation) (f : Facade)
      → k ≢ duplicate
      → AsksFor id (observed_as accepts options k id o f).1.sent
  unfolding observed_as ask emit
  observed_as-AsksFor duplicate id o f new = absurd (new refl)
  observed_as-AsksFor progress id o f new = (f.sent, _, _, _, refl)
  observed_as-AsksFor overflow id o f new = ask_after id o (emit accepts options _ f) (quiet _)
  observed_as-AsksFor history_required id o f new =
      ask_after id o (warn_gap accepts options id o.observed_seq o.expected_seq f)
        (warn_gap-ok o.expected_seq id o.observed_seq f)

  sessions-and_then :
      (h : Handled) (rest : Facade → Handled) (sessions : Sessions)
      → h.1.sessions ≡ sessions
      → ((f : Facade) → (rest f).1.sessions ≡ f.sessions)
      → (and_then h rest).1.sessions ≡ sessions
  unfolding and_then
  sessions-and_then (ok _, f) rest sessions e k = k f ∙ e
  sessions-and_then (err x, f) rest sessions e k = e

  sessions-warn_gap :
      (expected : Option ℕ) (id : String) (seen : ℕ) (f : Facade)
      → (warn_gap accepts options id seen expected f).1.sessions ≡ f.sessions
  unfolding warn_gap emit
  sessions-warn_gap none id seen f = refl
  sessions-warn_gap (some n) id seen f = refl

  sessions-observed_as :
      (k : Kind) (id : String) (o : SequenceObservation) (f : Facade)
      → (observed_as accepts options k id o f).1.sessions ≡ f.sessions
  unfolding observed_as ask emit
  sessions-observed_as duplicate id o f = refl
  sessions-observed_as progress id o f = refl
  sessions-observed_as overflow id o f =
      sessions-and_then (emit accepts options _ f) (ask accepts options id o) f.sessions refl
        (λ g. refl)
  sessions-observed_as history_required id o f =
      sessions-and_then (warn_gap accepts options id o.observed_seq o.expected_seq f)
        (ask accepts options id o) f.sessions (sessions-warn_gap o.expected_seq id o.observed_seq f)
        (λ g. refl)

  event_observed-Asks :
      (id session_id : String) (event : RpcEvent) (f : Facade)
      → Asks id f
          (event_observed accepts options session_id
            (observe_session options.max_pending_events_per_session f.sessions session_id event)
            f).1
  unfolding event_observed observe_session
  event_observed-Asks id session_id event f changed =
      let s = state_for f.sessions session_id in
      let m = options.max_pending_events_per_session in
      let o = (observe m s event).0 in
      let after = (observe m s event).1 in
      let moved : state_for (Map.set f.sessions session_id after) id ≢ state_for f.sessions id =
        λ e. changed (
          rw
            (sessions-observed_as o.kind session_id o
              (record f { sessions = Map.set f.sessions session_id after }))
            e) in
      let (same, different) = other_session f.sessions id session_id after moved in
      subst
        (λ i.
          AsksFor i
            (observed_as accepts options o.kind session_id o
              (record f { sessions = Map.set f.sessions session_id after })).1.sent)
        same
        (observed_as-AsksFor o.kind session_id o _
          (λ d. different (observe-duplicate m s event d ∙ ap (λ i. state_for f.sessions i) same)))

  -- A frame of the stream never changes what is known of a session's sequence silently: where the
  -- sink throws at no notice, if the session's sequence differs after `handleMux`, the newest notice
  -- asks to read that session's history.
  pub handle_mux-Asks :
      (rpc_id : String) (frame : MuxFrame) (f : Facade) (id : String)
      → state_for (handle_mux accepts options rpc_id frame f).1.sessions id
        ≢ state_for f.sessions id
      → AsksFor id (handle_mux accepts options rpc_id frame f).1.sent
  unfolding handle_mux subscribe_session emit
  handle_mux-Asks rpc_id (session_subscribed session_id last_seq) f id changed =
      let (same, different) = other_session f.sessions id session_id _ changed in
      subst (λ i. AsksFor i (history_reconcile session_id subscribed (some last_seq) none ∷ f.sent))
        same (f.sent, _, _, _, refl)
  handle_mux-Asks rpc_id (session_event_frame session_id event) f id changed =
      event_observed-Asks id session_id event f changed
  handle_mux-Asks rpc_id (approval_requested session_id approval_id tool_name call_id reason) f id
        changed =
      once-Asks id f _ _ _ refl changed
  handle_mux-Asks rpc_id (question_requested session_id questions) f id changed =
      once-Asks id f _ _ f refl changed
  handle_mux-Asks rpc_id (approval_resolved session_id approval_id outcome) f id changed =
      approval_settled-Asks (Map.get f.approval_rpc_ids approval_id) id session_id approval_id
        outcome f _ refl changed
  handle_mux-Asks rpc_id (question_resolved session_id question_rpc_id outcome) f id changed =
      once-Asks id f _ _ f refl changed
  handle_mux-Asks rpc_id (mux_error message) f id changed = same_sessions id f f refl changed
  handle_mux-Asks rpc_id passed_over f id changed = same_sessions id f f refl changed
