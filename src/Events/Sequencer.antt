-- ===== src/Events/Sequencer.antt =====
-- src/event-monitoring/event-sequencer.ts: the stream's events of a session against the durable
-- history. Sequence numbers are stored plus one (Types.antt), so `+ 1` is `suc` on both sides.
pub mod Advance
pub mod Invariant
pub mod Rebase
mod Tests
use deepseek_harness_relay_m.Base.{
  ℕ, zero, suc, ◌+◌, String, Bool, true, false, ◌||◌, not, Option, none, some, List, [], ◌∷◌, ◌==◌,
  nat_eq, string_eq, leb, ltb, if◌then◌else◌, or_else, is_some,
}
use deepseek_harness_relay_m.Base.Map
use deepseek_harness_relay_m.Base.Map.{Map}
use deepseek_harness_relay_m.Types.{RpcEvent}

pub record SessionSequence : Type 0 where
  pub durable_seq : Option ℕ
  pub awaiting_history : Bool
  pub pending : Map ℕ RpcEvent

pub data Kind : Type 0 where
  duplicate progress history_required overflow : Kind

pub record SequenceObservation : Type 0 where
  pub kind : Kind
  pub observed_seq : ℕ
  pub expected_seq : Option ℕ

pub record Rebased : Type 0 where
  pub gap : Bool
  pub expected_seq : Option ℕ
  pub observed_seq : Option ℕ

-- The state that `stateFor` makes for a new session.
abbrev pub fresh : SessionSequence
fresh = record { durable_seq = none; awaiting_history = true; pending = [] }

-- `while (pending.delete(durable + 1)) durable += 1`, with fuel: each round removes an entry.
pub advance : ℕ → ℕ → Map ℕ RpcEvent → ℕ × Map ℕ RpcEvent
advance zero durable pending = (durable, pending)
advance (suc fuel) durable pending =
    let rest = advance fuel (suc durable) (Map.delete pending (suc durable)) in
    if Map.has pending (suc durable) then rest else (durable, pending)

-- `advanceContiguous`
pub advance_contiguous : SessionSequence → SessionSequence
advance_contiguous s = elim s.durable_seq [
  | none ↦ s
  | some durable ↦
      let (reached, left) = advance (Map.size s.pending) durable s.pending in
      record s { durable_seq = some reached; pending = left }
]

pub subscribe : SessionSequence → SessionSequence
subscribe s = record s { awaiting_history = true }

abbrev pub seen : Kind → ℕ → SequenceObservation
seen kind seq = record { kind = kind; observed_seq = seq; expected_seq = none }

-- `state.durableSeq !== undefined && event.seq <= state.durableSeq`
abbrev pub is_durable : Option ℕ → ℕ → Bool
is_durable none seq = false
is_durable (some durable) seq = leb seq durable

-- `observe` from `state.pending.set` on, where the durable sequence is known.
unfoldable pub observe_known : SessionSequence → ℕ → ℕ → SequenceObservation × SessionSequence
unfolding advance_contiguous
observe_known s durable seq =
    if s.awaiting_history
    then (seen history_required seq, s)
    else if seq == suc durable
    then (seen progress seq, advance_contiguous s)
    else (
      record { kind = history_required; observed_seq = seq; expected_seq = some (suc durable) },
      record s { awaiting_history = true },
    )

unfoldable pub observe_pending : SessionSequence → ℕ → SequenceObservation × SessionSequence
unfolding observe_known
observe_pending s seq = elim s.durable_seq [
  | none ↦ (seen history_required seq, s)
  | some durable ↦ observe_known s durable seq
]

unfoldable pub observe : ℕ → SessionSequence → RpcEvent → SequenceObservation × SessionSequence
unfolding observe_pending
observe max_pending s event =
    if is_durable s.durable_seq event.seq || Map.has s.pending event.seq
    then (seen duplicate event.seq, s)
    else if leb max_pending (Map.size s.pending)
    then (seen overflow event.seq, record s { pending = []; awaiting_history = true })
    else observe_pending (record s { pending = Map.set s.pending event.seq event }) event.seq

-- `minimum(pending.keys())`
pub minimum : Map ℕ RpcEvent → Option ℕ
minimum [] = none
minimum ((seq, e) ∷ rest) = elim (minimum rest) [
  | none ↦ some seq
  | some least ↦ some (if ltb seq least then seq else least)
]

-- The loop that deletes `seq <= durableLastSeq`.
pub drop_durable : ℕ → Map ℕ RpcEvent → Map ℕ RpcEvent
drop_durable last [] = []
drop_durable last ((seq, e) ∷ rest) =
    if leb seq last then drop_durable last rest else (seq, e) ∷ drop_durable last rest

-- `rebase` below `const firstPending`.
rebase_rest : SessionSequence → ℕ → Option ℕ → Rebased × SessionSequence
unfolding advance_contiguous
rebase_rest s expected none = (record { gap = false; expected_seq = none; observed_seq = none }, s)
rebase_rest s expected (some first) =
    if first == expected
    then (record { gap = false; expected_seq = none; observed_seq = none }, advance_contiguous s)
    else (
      record { gap = true; expected_seq = some expected; observed_seq = some first },
      record s { awaiting_history = true },
    )

abbrev pub rebased_state : SessionSequence → ℕ → SessionSequence
rebased_state s last = record s {
  durable_seq = some last;
  awaiting_history = false;
  pending = drop_durable last s.pending;
}

pub rebase : SessionSequence → ℕ → Rebased × SessionSequence
unfolding rebase_rest
rebase s last =
    let t = advance_contiguous (rebased_state s last) in
    rebase_rest t (suc (or_else t.durable_seq last)) (minimum t.pending)

-- The sessions of a sequencer; `stateFor` adds a session that it does not know.
abbrev pub Sessions : Type 0
Sessions = Map String SessionSequence

abbrev pub state_for : Sessions → String → SessionSequence
state_for sessions id = or_else (Map.get sessions id) fresh

unfoldable pub subscribe_session : Sessions → String → Sessions
subscribe_session sessions id = Map.set sessions id (subscribe (state_for sessions id))

unfoldable pub observe_session : ℕ → Sessions → String → RpcEvent → SequenceObservation × Sessions
observe_session max_pending sessions id event =
    let (seen_as, s) = observe max_pending (state_for sessions id) event in
    (seen_as, Map.set sessions id s)

unfoldable pub rebase_session : Sessions → String → ℕ → Rebased × Sessions
rebase_session sessions id last =
    let (result, s) = rebase (state_for sessions id) last in (result, Map.set sessions id s)

-- `since()`
pub since : Sessions → List (String × ℕ)
since [] = []
since ((id, s) ∷ rest) = elim s.durable_seq [
  | none ↦ since rest
  | some durable ↦ (id, durable) ∷ since rest
]
