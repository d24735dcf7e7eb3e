-- ===== src/Broker/Reconciler/Run.antt =====
-- The runs of src/relay-broker/run-reconciler.ts and src/relay-broker/internal-types.ts, and what the
-- reconciler computes from them.
use Prim.Native.String
use deepseek_harness_relay_m.Base.{
  ℕ, ◌+◌, ◌-◌, max, String, Bool, true, false, not, ◌&&◌, ◌||◌, Option, none, some, List, [], ◌∷◌,
  ◌++◌, leb, ltb, ◌==◌, nat_eq, string_eq, if◌then◌else◌, or_else, is_some, find, filter, any,
}
use deepseek_harness_relay_m.Base.Map
use deepseek_harness_relay_m.Base.Map.{Map}
use deepseek_harness_relay_m.Base.Result.{Result}
use deepseek_harness_relay_m.Base.Stamp.{Stamp, iso, other}
use deepseek_harness_relay_m.Types.{
  RunSnapshot, RunStatus, AttentionReason, OperationRecord, OperationKind, RpcEvent,
}
use deepseek_harness_relay_m.Types.Json.{string_at}
use deepseek_harness_relay_m.Events.RunEvents.{highest_seq, user_rpc_id}
use deepseek_harness_relay_m.Broker.Journal.{Update, no_update, transition}
use deepseek_harness_relay_m.Broker.Journal
use deepseek_harness_relay_m.Broker.Permissions.{Controller, Replies, restore_session}
use deepseek_harness_relay_m.Broker.Permissions
use deepseek_harness_relay_m.Broker.Reconciler.History.{Page, HistoryError}

pub record RunRecord : Type 0 where
  pub snapshot : RunSnapshot
  pub baseline_seq : ℕ
  pub prompt_rpc_id : String
  pub events : List RpcEvent
  pub last_observed_projection_seq : Option ℕ

-- What `refresh` reads of a listed session.
pub record Listed : Type 0 where
  pub session_id : String
  pub running : Bool
  pub as_of_seq : Option ℕ

pub record Config : Type 0 where
  pub max_assistant_text_bytes : ℕ
  pub max_history_pages : ℕ
  pub rpc_timeout : ℕ
  pub run_stall : ℕ

-- The run, `activeSessions`, `operations`, and the permission controller.
pub record World : Type 0 where
  pub run : RunRecord
  pub active : Map String String
  pub operations : Map String OperationRecord
  pub permissions : Controller

pub record Env {ℓ} (E : Type ℓ) : Type ℓ where
  pub listed : Result E (List Listed)
  pub read : Option ℕ → Result E Page
  pub persisted : Result E (Unit {0})
  pub replies : Replies E
  pub has_pending : Bool
  pub now : ℕ

pub data RefreshError {ℓ} (E : Type ℓ) : Type ℓ where
  not_listed : E → RefreshError E
  no_history : HistoryError E → RefreshError E
  journal_failed : Journal.Failure E → RefreshError E
  permission_failed : Permissions.Failure E → RefreshError E

-- `activeKey`
abbrev pub active_key : RunSnapshot → String
active_key s = String.◌++◌ s.service_id (String.◌++◌ ":" s.session_id)

-- `incrementalStartSeq`
unfoldable pub incremental_start_seq : List RpcEvent → ℕ → ℕ
incremental_start_seq events baseline =
    let highest = highest_seq events baseline in
    if highest == baseline then baseline else max baseline (highest - 1)

-- `now - Date.parse(stamp) >= t`, and `<`; a NaN is in neither.
abbrev pub has_passed : ℕ → Stamp → ℕ → Bool
has_passed now (iso n) t = leb (n + t) now
has_passed now (other s) t = false

abbrev pub is_recent : ℕ → Stamp → ℕ → Bool
is_recent now (iso n) t = ltb now (n + t)
is_recent now (other s) t = false

abbrev pub with_run : World → RunSnapshot → World
with_run w s = record w { run = record w.run { snapshot = s } }

-- `if (!warnings.includes(warning)) warnings.push(warning)`
abbrev pub add_warning : String → List String → List String
add_warning warning warnings =
    if any (λ w. w == warning) warnings then warnings else warnings ++ warning ∷ []

abbrev pub is_stalled : Option AttentionReason → Bool
is_stalled (some AttentionReason.run_stalled) = true
is_stalled _ = false

-- `recordProgress`
unfoldable pub record_progress : ℕ → RunSnapshot → RunSnapshot
record_progress now s =
    let moved = record s { last_progress_at = some (iso now) } in
    if is_stalled s.attention_reason
    then record moved { status = RunStatus.running; error = none; attention_reason = none }
    else moved

abbrev pub stalled_error : String
stalled_error =
    "Harness reports the session as running, but no durable progress was observed before the stall timeout"

-- `markStalled`
unfoldable pub mark_stalled : Bool → ℕ → ℕ → RunSnapshot → RunSnapshot
mark_stalled has_pending now run_stall s =
    if has_pending || is_recent now (or_else s.last_progress_at s.started_at) run_stall
    then s
    else record s {
      status = RunStatus.needs_attention;
      attention_reason = some AttentionReason.run_stalled;
      error = some stalled_error;
    }

abbrev pub steer_of : String → OperationRecord → Bool
steer_of run_id o = o.run_id == run_id && is_steer o.kind
  where
    is_steer : OperationKind → Bool
    is_steer OperationKind.steer = true
    is_steer _ = false

abbrev pub is_in : Option String → List (Option String) → Bool
is_in none list = false
is_in (some s) list = any (λ o. same o s) list
  where
    same : Option String → String → Bool
    same none s = false
    same (some t) s = t == s

abbrev pub rpc_ids : List OperationRecord → List (Option String)
rpc_ids [] = []
rpc_ids (o ∷ rest) = some o.rpc_id ∷ rpc_ids rest

abbrev pub message_ids : List OperationRecord → List (Option String)
message_ids [] = []
message_ids (o ∷ rest) = o.message_id ∷ message_ids rest

-- A user message after the prompt that neither the prompt nor a steer of the run has sent.
unfoldable pub is_foreign : List (Option String) → List (Option String) → ℕ → RpcEvent → Bool
is_foreign owned_rpc_ids owned_message_ids prompt_seq e =
    ltb prompt_seq e.seq
    && (is_some (user_rpc_id e)
        && (not (is_in (user_rpc_id e) owned_rpc_ids)
            && not (is_in (string_at e.payload "id") owned_message_ids)))

abbrev pub ends_before : ℕ → Option RpcEvent → ℕ → Bool
ends_before prompt_seq none seq = ltb prompt_seq seq
ends_before prompt_seq (some foreign) seq = ltb prompt_seq seq && ltb seq foreign.seq

-- `ownedEvents`
unfoldable pub owned_events : World → RpcEvent → List RpcEvent
unfolding is_foreign
owned_events w prompt =
    let steers = filter (steer_of w.run.snapshot.run_id) (Map.values w.operations) in
    let foreign =
      find
        (is_foreign (some w.run.prompt_rpc_id ∷ rpc_ids steers)
          (w.run.snapshot.prompt_message_id ∷ message_ids steers) prompt.seq)
        w.run.events in
    filter (λ e. ends_before prompt.seq foreign e.seq) w.run.events

-- `[...owned].reverse().find(event => event.type === 'turn/end')`
unfoldable pub last_turn_end : List RpcEvent → Option RpcEvent
last_turn_end [] = none
last_turn_end (e ∷ events) = elim (last_turn_end events) [
  | some later ↦ some later
  | none ↦ if e.type == "turn/end" then some e else none
]

abbrev pub operation_of : World → Option OperationRecord
operation_of w = elim w.run.snapshot.operation_id [
  | none ↦ none
  | some id ↦ Map.get w.operations id
]

-- How `refresh` and its parts end.
abbrev pub Refreshed {ℓ} : Type ℓ → Type ℓ
Refreshed E = Result (RefreshError E) (Unit {0}) × World
