-- ===== src/Events/RunEvents.antt =====
-- src/run-events.ts: what the events of a run say of its prompt and of its end.
pub mod Merge
pub mod Text
pub mod Assistant
use Prim.Native.String
use deepseek_harness_relay_m.Base.{
  ℕ, ◌≤◌, max, String, ◌≡◌, refl, ◌⊎◌, inl, inr, Bool, true, false, not, ◌&&◌, ◌||◌, Option, none,
  some, List, [], ◌∷◌, arith, ◌==◌, ==_iff, string_eq, if◌then◌else◌, or_else, All, All-mono,
  Bool-cases, Option-cases, ap,
}
use deepseek_harness_relay_m.Types.{RpcEvent, RunStatus}
use deepseek_harness_relay_m.Types.Json.{Fields, Value, boolean, end, at, string_at, object_at}

unfoldable pub highest_seq : List RpcEvent → ℕ → ℕ
highest_seq [] fallback = fallback
highest_seq (e ∷ events) fallback = highest_seq events (max fallback e.seq)

abbrev text_in : Option Fields → String → Option String
text_in none key = none
text_in (some fields) key = string_at fields key

unfoldable pub user_rpc_id : RpcEvent → Option String
unfolding object_at string_at
user_rpc_id e =
    if e.type == "user/message" then text_in (object_at e.payload "source") "rpcId" else none

-- `value === true`
abbrev pub is_true : Option Value → Bool
is_true (some (boolean true)) = true
is_true _ = false

abbrev marked_in : Option Fields → Bool
marked_in none = false
marked_in (some fields) = is_true (at fields "interrupted")

unfoldable pub is_marked : RpcEvent → Bool
unfolding object_at at
is_marked e = is_true (at e.payload "interrupted") || marked_in (object_at e.payload "message")

-- The mark of the last assistant message.
unfoldable pub last_mark : List RpcEvent → Option Bool
unfolding is_marked
last_mark [] = none
last_mark (e ∷ events) = elim (last_mark events) [
  | some marked ↦ some marked
  | none ↦ if e.type == "assistant/message" then some (is_marked e) else none
]

unfoldable pub final_assistant_interrupted : List RpcEvent → Bool
unfolding last_mark
final_assistant_interrupted events = or_else (last_mark events) false

pub record TerminalOutcome : Type 0 where
  pub status : RunStatus
  pub error : Option String
  pub warning : Option String

abbrev outcome : RunStatus → Option String → Option String → TerminalOutcome
outcome status error warning = record { status = status; error = error; warning = warning }

-- The text of the field, or the default where there is no detail or no such text.
abbrev detail_text : Option Fields → String → String → String
detail_text detail key default = or_else (text_in detail key) default

abbrev is_user : Option String → Bool
is_user none = false
is_user (some kind) = kind == "user"

-- `terminalOutcome` below `const kind`.
outcome_of : Option Fields → Option String → Bool → Bool → TerminalOutcome
unfolding object_at string_at
outcome_of reason kind cancel_requested interrupted =
    let fields = or_else reason end in
    let detail_kind = text_in (object_at fields "reason") "kind" in
    let detail = object_at fields "error" in
    if is_kind "completed"
    then (if interrupted
        then outcome RunStatus.incomplete none (some interrupted_warning)
        else outcome RunStatus.succeeded none none)
    else if is_kind "aborted"
    then (if is_user detail_kind || cancel_requested
        then outcome RunStatus.cancelled none none
        else outcome RunStatus.failed
            (some (String.◌++◌ "turn aborted: " (or_else detail_kind "unknown"))) none)
    else if is_kind "error"
    then outcome RunStatus.failed
        (some (
          String.◌++◌ (detail_text detail "code" "ERROR")
            (String.◌++◌ ": " (detail_text detail "message" "turn failed"))))
        none
    else if is_kind "max-tokens"
    then outcome RunStatus.incomplete none (some token_warning)
    else outcome RunStatus.failed (some (String.◌++◌ "turn ended: " (or_else kind "unknown"))) none
  where
    is_kind : String → Bool
    is_kind name = elim kind [ none ↦ false | some k ↦ k == name ]

    interrupted_warning : String
    interrupted_warning =
        "Harness marked the final assistant output as interrupted; the retained result is partial and may be continued with reply_run"

    token_warning : String
    token_warning =
        "Harness reached the model output-token ceiling; the retained result is partial and may be continued with reply_run"

abbrev pub kind_of : RpcEvent → Option String
kind_of e = text_in (object_at e.payload "reason") "kind"

unfoldable pub terminal_outcome : RpcEvent → Bool → Bool → TerminalOutcome
unfolding outcome_of object_at string_at
terminal_outcome e cancel_requested interrupted =
    outcome_of (object_at e.payload "reason") (kind_of e) cancel_requested interrupted

outcome_of-succeeded :
    (kind : Option String) (reason : Option Fields) (cancel_requested interrupted : Bool)
    → (outcome_of reason kind cancel_requested interrupted).status ≡ RunStatus.succeeded
    → (kind ≡ some "completed") × (interrupted ≡ false)
unfolding outcome_of
outcome_of-succeeded none reason c i h = absurd (ground arith)
outcome_of-succeeded (some k) reason c i h = elim (Bool-cases (k == "completed")) [
  | inl done ↦ (ap some ((==_iff k "completed").0 done), ground arith)
  | inr not_done ↦ absurd (ground arith)
]

-- A run ends as succeeded only at an event whose reason is "completed", and if its last assistant
-- message was not marked as interrupted.
pub terminal_outcome-succeeded :
    (e : RpcEvent) (cancel_requested interrupted : Bool)
    → (terminal_outcome e cancel_requested interrupted).status ≡ RunStatus.succeeded
    → (kind_of e ≡ some "completed") × (interrupted ≡ false)
unfolding terminal_outcome
terminal_outcome-succeeded e c i h =
    outcome_of-succeeded (kind_of e) (object_at e.payload "reason") c i h

highest_seq-fallback : (events : List RpcEvent) (n : ℕ) → n ≤ highest_seq events n
unfolding highest_seq
highest_seq-fallback [] n = omega arith
highest_seq-fallback (e ∷ events) n = omega (arith, highest_seq-fallback events (max n e.seq))

highest_seq-All : (events : List RpcEvent) (n : ℕ) → All (λ e. e.seq ≤ highest_seq events n) events
unfolding highest_seq
highest_seq-All [] n = tt
highest_seq-All (e ∷ events) n =
    (omega (arith, highest_seq-fallback events (max n e.seq)), highest_seq-All events (max n e.seq))

highest_seq_least :
    (xs : List RpcEvent) (n bound : ℕ)
    → n ≤ bound
    → All (λ e. e.seq ≤ bound) xs
    → highest_seq xs n ≤ bound
unfolding highest_seq
highest_seq_least [] n bound h all = h
highest_seq_least (e ∷ xs) n bound h all =
    highest_seq_least xs (max n e.seq) bound (omega (arith, all.0)) all.1

-- The highest number lies at or above the fallback and the number of every event, and below every
-- number that does so.
pub highest_seq-least :
    (events : List RpcEvent) (n bound : ℕ)
    → n ≤ bound
    → All (λ e. e.seq ≤ bound) events
    → (n ≤ highest_seq events n)
      × All (λ e. e.seq ≤ highest_seq events n) events
      × (highest_seq events n ≤ bound)
highest_seq-least events n bound h all = (
  highest_seq-fallback events n,
  highest_seq-All events n,
  highest_seq_least events n bound h all,
)
