-- ===== src/Events/Facade.antt =====
-- src/event-monitoring/event-monitoring-facade.ts: what the Host's event streams make the relay do. The
-- sink is called with each notice; `accepts` says for which notices it does not throw. The rendering
-- of a gap's message is left out, and so is the reconnect delay.
pub mod Bounded
pub mod Asks
mod Tests
use Prim.Native.String
use deepseek_harness_relay_m.Base.{
  ℕ, zero, suc, String, Bool, true, false, Option, none, some, List, [], ◌∷◌, ltb, string_eq,
  if◌then◌else◌, or_else, is_some,
}
use deepseek_harness_relay_m.Base.Map
use deepseek_harness_relay_m.Base.Map.{Map}
use deepseek_harness_relay_m.Base.Result.{Result, ok, err}
use deepseek_harness_relay_m.Types.{RpcEvent}
use deepseek_harness_relay_m.Types.Json.{Fields, Elements, Value, string, array, field, end}
use deepseek_harness_relay_m.Events.Sequencer.{
  Sessions, SequenceObservation, Kind, duplicate, progress, history_required, overflow, Rebased,
  subscribe_session, observe_session, rebase_session,
}

pub data Stream : Type 0 where
  mux host : Stream

pub data Interaction : Type 0 where
  approval question : Interaction

pub data HistoryReason : Type 0 where
  subscribed session_event sequence_gap host_session_change host_agent_error : HistoryReason

pub data Scope : Type 0 where
  stream_scope : Stream → Scope
  session_scope : String → Scope

pub data PollingReason : Type 0 where
  stream_disconnected stream_error polling_gap pending_overflow : PollingReason

pub data Message : Type 0 where
  gap : Option ℕ → ℕ → Message
  error_text : String → Message

-- `EventMonitoringNotice`
pub data Notice : Type 0 where
  history_reconcile : String → HistoryReason → Option ℕ → Option ℕ → Notice
  attention_required : Interaction → String → String → Fields → Notice
  attention_resolved : Interaction → String → String → String → Notice
  polling_required : Scope → PollingReason → Option Message → Notice
  stream_restored : Stream → Notice
  session_stream_rebased : String → ℕ → Notice

-- `GatewayMuxFrame`; the frames that `handleMux` passes over are one.
pub data MuxFrame : Type 0 where
  session_subscribed : String → ℕ → MuxFrame
  session_event_frame : String → RpcEvent → MuxFrame
  approval_requested : String → String → String → Option String → Option String → MuxFrame
  question_requested : String → Elements → MuxFrame
  approval_resolved question_resolved : String → String → String → MuxFrame
  mux_error : String → MuxFrame
  passed_over : MuxFrame

-- `GatewayHostFrame`
pub data HostFrame : Type 0 where
  session_added session_removed session_status agent_error : String → HostFrame
  host_error : String → HostFrame
  host_passed_over : HostFrame

pub record Options : Type 0 where
  pub max_pending_events_per_session : ℕ
  pub max_remembered_interactions : ℕ

-- The facade, with the notices that were passed to the sink, the newest first.
pub record Facade : Type 0 where
  pub sessions : Sessions
  pub seen_interactions : Map String (Unit {0})
  pub approval_rpc_ids : Map String String
  pub mux_degraded : Bool
  pub host_degraded : Bool
  pub sent : List Notice

abbrev pub Handled : Type 0
Handled = Result String (Unit {0}) × Facade

-- `trimOldest`, with a round for each entry.
unfoldable pub trim {ℓ} : {A : Type ℓ} → ℕ → ℕ → Map String A → Map String A
trim zero maximum m = m
trim (suc fuel) maximum [] = []
trim (suc fuel) maximum ((key, v) ∷ rest) =
    let trimmed = trim fuel maximum (Map.delete ((key, v) ∷ rest) key) in
    if ltb maximum (Map.size ((key, v) ∷ rest)) then trimmed else (key, v) ∷ rest

abbrev pub trim_oldest {ℓ} : {A : Type ℓ} → Map String A → ℕ → Map String A
trim_oldest m maximum = trim (Map.size m) maximum m

abbrev pub interaction_name : Interaction → String
interaction_name approval = "approval"
interaction_name question = "question"

-- The two keys of an interaction.
abbrev pub required_key : Interaction → String → String
required_key i rpc_id = String.◌++◌ (interaction_name i) (String.◌++◌ ":" rpc_id)

abbrev pub resolved_key : Interaction → String → String → String
resolved_key i rpc_id outcome = String.◌++◌ "resolved:" (
    String.◌++◌ (interaction_name i)
      (String.◌++◌ ":" (String.◌++◌ rpc_id (String.◌++◌ ":" outcome))))

-- `details` of a requested approval.
abbrev pub optional : String → Option String → Fields → Fields
optional key none rest = rest
optional key (some v) rest = field key (string v) rest

abbrev pub approval_details : String → String → Option String → Option String → Fields
approval_details approval_id tool_name call_id reason =
    field "approvalId" (string approval_id) (
      field "toolName" (string tool_name)
        (optional "callId" call_id (optional "reason" reason end)))

-- The rest of a handler after a call that may have thrown.
unfoldable pub and_then : Handled → (Facade → Handled) → Handled
and_then (ok _, f) rest = rest f
and_then (err e, f) rest = (err e, f)

module _ (accepts : Notice → Result String (Unit {0})) (options : Options) where
  -- `await this.emit(notice)`
  unfoldable pub emit : Notice → Facade → Handled
  emit notice f = (accepts notice, record f { sent = notice ∷ f.sent })

  unfoldable pub remember : String → Facade → Facade
  unfolding trim
  remember key f = record f {
    seen_interactions =
        trim_oldest (Map.set f.seen_interactions key tt) options.max_remembered_interactions;
  }

  -- `attentionRequired` and `attentionResolved`
  unfoldable pub once : String → Notice → Facade → Handled
  unfolding remember emit
  once key notice f =
      if Map.has f.seen_interactions key then (ok tt, f) else emit notice (remember key f)

  -- The notice of an event that is no duplicate.
  abbrev reason_for : Kind → HistoryReason
  reason_for progress = session_event
  reason_for _ = sequence_gap

  unfoldable pub ask : String → SequenceObservation → Facade → Handled
  unfolding emit
  ask session_id o f =
      emit (history_reconcile session_id (reason_for o.kind) (some o.observed_seq) o.expected_seq) f

  -- The warning of a gap, where the expected number is known.
  unfoldable pub warn_gap : String → ℕ → Option ℕ → Facade → Handled
  unfolding emit
  warn_gap session_id observed none f = (ok tt, f)
  warn_gap session_id observed (some expected) f =
      emit
        (polling_required (session_scope session_id) polling_gap
          (some (gap (some expected) observed)))
        f

  unfoldable pub observed_as : Kind → String → SequenceObservation → Facade → Handled
  unfolding ask warn_gap emit and_then
  observed_as duplicate session_id o f = (ok tt, f)
  observed_as progress session_id o f = ask session_id o f
  observed_as overflow session_id o f =
      and_then (emit (polling_required (session_scope session_id) pending_overflow none) f)
        (ask session_id o)
  observed_as history_required session_id o f =
      and_then (warn_gap session_id o.observed_seq o.expected_seq f) (ask session_id o)

  unfoldable pub event_observed : String → SequenceObservation × Sessions → Facade → Handled
  unfolding observed_as
  event_observed session_id (o, sessions) f =
      observed_as o.kind session_id o (record f { sessions = sessions })

  unfoldable pub approval_settled : Option String → String → String → String → Facade → Handled
  unfolding once
  approval_settled none session_id approval_id outcome f = (ok tt, f)
  approval_settled (some rpc_id) session_id approval_id outcome f =
      once (resolved_key approval rpc_id outcome)
        (attention_resolved approval rpc_id session_id outcome) f

  unfoldable pub handle_mux : String → MuxFrame → Facade → Handled
  unfolding event_observed approval_settled once emit trim
  handle_mux rpc_id (session_subscribed id last_seq) f =
      emit (history_reconcile id subscribed (some last_seq) none)
        (record f { sessions = subscribe_session f.sessions id })
  handle_mux rpc_id (session_event_frame id event) f =
      event_observed id (observe_session options.max_pending_events_per_session f.sessions id event)
        f
  handle_mux rpc_id (approval_requested id approval_id tool_name call_id reason) f =
      once (required_key approval rpc_id)
        (attention_required approval rpc_id id
          (approval_details approval_id tool_name call_id reason))
        (record f {
          approval_rpc_ids =
              trim_oldest (Map.set f.approval_rpc_ids approval_id rpc_id)
                options.max_remembered_interactions;
        })
  handle_mux rpc_id (question_requested id questions) f =
      once (required_key question rpc_id)
        (attention_required question rpc_id id (field "questions" (array questions) end)) f
  handle_mux rpc_id (approval_resolved id approval_id outcome) f =
      approval_settled (Map.get f.approval_rpc_ids approval_id) id approval_id outcome
        (record f { approval_rpc_ids = Map.delete f.approval_rpc_ids approval_id })
  handle_mux rpc_id (question_resolved id question_rpc_id outcome) f =
      once (resolved_key question question_rpc_id outcome)
        (attention_resolved question question_rpc_id id outcome) f
  handle_mux rpc_id (mux_error message) f = (err message, f)
  handle_mux rpc_id passed_over f = (ok tt, f)

  unfoldable pub handle_host : HostFrame → Facade → Handled
  unfolding emit
  handle_host (session_added id) f = emit (history_reconcile id host_session_change none none) f
  handle_host (session_removed id) f = emit (history_reconcile id host_session_change none none) f
  handle_host (session_status id) f = emit (history_reconcile id host_session_change none none) f
  handle_host (agent_error id) f = emit (history_reconcile id host_agent_error none none) f
  handle_host (host_error message) f = (err message, f)
  handle_host host_passed_over f = (ok tt, f)

  abbrev gap_message : Rebased → Option Message
  gap_message r = elim r.observed_seq [ none ↦ none | some seen ↦ some (gap r.expected_seq seen) ]

  unfoldable pub rebased : String → ℕ → Rebased × Sessions → Facade → Facade
  unfolding emit
  rebased id last (r, sessions) f =
      let told = (emit (session_stream_rebased id last) (record f { sessions = sessions })).1 in
      if r.gap
      then (emit (polling_required (session_scope id) polling_gap (gap_message r)) told).1
      else told

  -- `confirmHistory`, which does not wait for the sink.
  unfoldable pub confirm_history : String → ℕ → Facade → Facade
  unfolding rebased
  confirm_history id last f = rebased id last (rebase_session f.sessions id last) f

  abbrev pub is_degraded : Stream → Facade → Bool
  is_degraded mux f = f.mux_degraded
  is_degraded host f = f.host_degraded

  abbrev pub mark : Stream → Bool → Facade → Facade
  mark mux b f = record f { mux_degraded = b }
  mark host b f = record f { host_degraded = b }

  unfoldable pub restored : Stream → Facade → Facade
  unfolding emit
  restored stream f =
      if is_degraded stream f then (emit (stream_restored stream) (mark stream false f)).1 else f

  unfoldable pub disconnected : Stream → PollingReason → Option Message → Facade → Handled
  unfolding emit
  disconnected stream reason message f =
      emit (polling_required (stream_scope stream) reason message) (mark stream true f)

-- How a stream ends: by itself, by an error, or because the signal is aborted.
pub data Closing : Type 0 where
  closes aborts : Closing
  fails : String → Closing

-- One connection: whether it opened, what it brought, and its end.
pub record Connection {ℓ} (Frame : Type ℓ) : Type ℓ where
  pub opens : Bool
  pub frames : List Frame
  pub closing : Closing

-- `disconnected` where the stream failed.
unfoldable pub caught : (Notice → Result String (Unit {0})) → Options → Stream → Handled → Handled
unfolding disconnected
caught accepts options stream (ok _, f) = (ok tt, f)
caught accepts options stream (err e, f) =
    disconnected accepts options stream stream_error (some (error_text e)) f

module _ {ℓ} {Frame : Type ℓ} (accepts : Notice → Result String (Unit {0})) (options : Options)
    (stream : Stream) (handle : Frame → Facade → Handled) where
  -- The `for await` loop.
  unfoldable pub handle_all : List Frame → Facade → Handled
  unfolding and_then
  handle_all [] f = (ok tt, f)
  handle_all (x ∷ frames) f = and_then (handle x f) (λ g. handle_all frames g)

  unfoldable pub close : Closing → Facade → Handled
  unfolding disconnected
  close closes f = disconnected accepts options stream stream_disconnected none f
  close (fails e) f = (err e, f)
  close aborts f = (ok tt, f)

  -- One round of `pumpMux` or `pumpHost`; an error is that of the sink, which ends the pump.
  unfoldable pub pump_once : Connection Frame → Facade → Handled
  unfolding handle_all close and_then caught restored
  pump_once c f =
      let opened = if c.opens then restored accepts options stream f else f in
      caught accepts options stream (and_then (handle_all c.frames opened) (close c.closing))

  unfoldable pub pump : List (Connection Frame) → Facade → Handled
  unfolding pump_once and_then
  pump [] f = (ok tt, f)
  pump (c ∷ connections) f = and_then (pump_once c f) (λ g. pump connections g)
