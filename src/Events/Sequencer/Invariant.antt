-- ===== src/Events/Sequencer/Invariant.antt =====
-- The invariant of src/event-monitoring/event-sequencer.ts, and what `observe` answers under it.
use deepseek_harness_relay_m.Base.{
  ℕ, suc, ◌≤◌, ◌<◌, ◌≡◌, refl, sym, ◌∙◌, ◌⊎◌, true, false, some, List, [], ◌∷◌, arith, ◌==◌, nat_eq,
  leb, if◌then◌else◌, is_some, Option-cases, Bool-cases, inl, inr,
}
use deepseek_harness_relay_m.Base.Map
use deepseek_harness_relay_m.Base.Map.{Map, get-set, size-set-le}
use deepseek_harness_relay_m.Types.{RpcEvent}
use deepseek_harness_relay_m.Events.Sequencer.{
  SessionSequence, SequenceObservation, duplicate, progress, history_required, fresh, seen,
  is_durable, advance, advance_contiguous, subscribe, observe, rebase,
}
use deepseek_harness_relay_m.Events.Sequencer.Rebase.{IsRebased, rebase-IsRebased, size-rebase-le}

-- While no history is awaited the durable number is known and nothing is pending; what is pending
-- lies above the durable number; and there are at most `max_pending` pending events.
pub record Inv (max_pending : ℕ) (s : SessionSequence) : Type 0 where
  pub idle : s.awaiting_history ≡ false → s.pending ≡ []
  pub known : s.awaiting_history ≡ false → is_some s.durable_seq ≡ true
  pub above : (d n : ℕ) → s.durable_seq ≡ some d → Map.has s.pending n ≡ true → d < n
  pub bounded : Map.size s.pending ≤ max_pending

pub fresh-Inv : (max_pending : ℕ) → Inv max_pending fresh
unfolding Map.get
fresh-Inv m = record {
  idle = λ h. refl;
  known = λ h. cc;
  above = λ d n h k. cc;
  bounded = omega arith;
}

pub subscribe-Inv :
    (max_pending : ℕ) (s : SessionSequence) → Inv max_pending s → Inv max_pending (subscribe s)
unfolding subscribe
subscribe-Inv m s v = record {
  idle = λ h. cc;
  known = λ h. cc;
  above = v.above;
  bounded = v.bounded;
}

-- An event that is next, seen while nothing is pending.
advance_one :
    (s : SessionSequence) (d : ℕ) (e : RpcEvent)
    → s.durable_seq ≡ some d
    → s.pending ≡ []
    → advance_contiguous (record s { pending = Map.set s.pending (suc d) e })
      ≡ record s { durable_seq = some (suc d); pending = [] }
unfolding advance_contiguous advance Map.set Map.get Map.delete
advance_one s d e known empty = ground arith

three_ways : (n d : ℕ) → (n ≤ d) ⊎ (n ≡ suc d) ⊎ (suc d < n)
three_ways n d = ground arith

module _ (max_pending : ℕ) (s : SessionSequence) (v : Inv max_pending s) (event : RpcEvent) where
  observe_each :
      (d : ℕ)
      → 1 ≤ max_pending
      → s.awaiting_history ≡ false
      → s.durable_seq ≡ some d
      → (event.seq ≤ d → observe max_pending s event ≡ (seen duplicate event.seq, s))
        × (event.seq ≡ suc d
            → observe max_pending s event
              ≡ (seen progress event.seq, record s { durable_seq = some (suc d); pending = [] }))
        × (suc d < event.seq
            → observe max_pending s event ≡ (
              record {
                kind = history_required;
                observed_seq = event.seq;
                expected_seq = some (suc d);
              },
              record s { awaiting_history = true; pending = (event.seq, event) ∷ [] },
            ))
  unfolding observe Map.get Map.set
  observe_each d room live known =
      let empty = v.idle live in
      (
        λ past. ground arith,
        λ next. ground (arith, advance_one s d event known empty),
        λ later. ground arith,
      )

  -- The answer while events arrive in order.
  abbrev live_answer : ℕ → SequenceObservation × SessionSequence
  live_answer d =
      if leb event.seq d
      then (seen duplicate event.seq, s)
      else if event.seq == suc d
      then (seen progress event.seq, record s { durable_seq = some (suc d); pending = [] })
      else (
        record { kind = history_required; observed_seq = event.seq; expected_seq = some (suc d) },
        record s { awaiting_history = true; pending = (event.seq, event) ∷ [] },
      )

  -- Under the invariant and with a bound of at least 1, while no history is awaited and the durable
  -- number is d, `observe` answers an event up to d as a duplicate and changes nothing; event d + 1
  -- is progress, and d + 1 becomes durable; any later event is kept as the only pending one, history
  -- is awaited from then on, and the gap is reported with d + 1 as the expected number.
  pub observe_live :
      (d : ℕ)
      → 1 ≤ max_pending
      → s.awaiting_history ≡ false
      → s.durable_seq ≡ some d
      → observe max_pending s event ≡ live_answer d
  observe_live d room live known =
      let (past, next, later) = observe_each d room live known in
      elim (three_ways event.seq d) [
        | inl h ↦ past h ∙ ground arith
        | inr (inl h) ↦ next h ∙ ground arith
        | inr (inr h) ↦ later h ∙ ground arith
      ]

  collect-Inv :
      s.awaiting_history ≡ true
      → is_durable s.durable_seq event.seq ≡ false
      → Map.size s.pending < max_pending
      → Inv max_pending (record s { pending = Map.set s.pending event.seq event })
  collect-Inv waiting new room = record {
    idle = λ h. cc;
    known = λ h. cc;
    above = λ d n known has. ground (arith, get-set s.pending event.seq n event, v.above d n);
    bounded = omega (arith, size-set-le s.pending event.seq event);
  }

  abbrev Waiting : SessionSequence → Type 0
  Waiting t =
      (t ≡ s)
      ⊎ (t ≡ record s { pending = []; awaiting_history = true })
      ⊎ ((is_durable s.durable_seq event.seq ≡ false)
          × (Map.size s.pending < max_pending)
          × (t ≡ record s { pending = Map.set s.pending event.seq event }))

  observe-Waiting : s.awaiting_history ≡ true → Waiting (observe max_pending s event).1
  unfolding observe
  observe-Waiting waiting = ground arith

  cleared-Inv : Inv max_pending (record s { pending = []; awaiting_history = true })
  unfolding Map.get
  cleared-Inv = record {
    idle = λ h. refl;
    known = λ h. cc;
    above = λ d n known has. cc;
    bounded = omega arith;
  }

  Waiting-Inv : (t : SessionSequence) → s.awaiting_history ≡ true → Waiting t → Inv max_pending t
  Waiting-Inv t waiting (inl e) = rw e v
  Waiting-Inv t waiting (inr (inl e)) = rw e cleared-Inv
  Waiting-Inv t waiting (inr (inr (new, room, e))) = rw e (collect-Inv waiting new room)

  advanced-Inv :
      (d : ℕ)
      → s.awaiting_history ≡ false
      → Inv max_pending (record s { durable_seq = some d; pending = [] })
  unfolding Map.get
  advanced-Inv d live = record {
    idle = λ h. refl;
    known = λ h. refl;
    above = λ c n known has. cc;
    bounded = omega arith;
  }

  gap-Inv :
      (d : ℕ)
      → 1 ≤ max_pending
      → s.durable_seq ≡ some d
      → d < event.seq
      → Inv max_pending (record s { awaiting_history = true; pending = (event.seq, event) ∷ [] })
  unfolding Map.get
  gap-Inv d room known later = record {
    idle = λ h. cc;
    known = λ h. cc;
    above = λ c n same has. ground arith;
    bounded = omega arith;
  }

  observe_live-Inv :
      (d : ℕ)
      → 1 ≤ max_pending
      → s.awaiting_history ≡ false
      → s.durable_seq ≡ some d
      → Inv max_pending (observe max_pending s event).1
  observe_live-Inv d room live known =
      let (past, next, later) = observe_each d room live known in
      elim (three_ways event.seq d) [
        | inl h ↦ rw (past h) v
        | inr (inl h) ↦ rw (next h) (advanced-Inv (suc d) live)
        | inr (inr h) ↦ rw (later h) (gap-Inv d room known (omega arith))
      ]

  pub observe-Inv : 1 ≤ max_pending → Inv max_pending (observe max_pending s event).1
  observe-Inv room = elim (Bool-cases s.awaiting_history) [
    | inl waiting ↦ Waiting-Inv _ waiting (observe-Waiting waiting)
    | inr live ↦ elim (Option-cases s.durable_seq) [
      | inl unknown ↦ absurd (ground (arith, v.known live))
      | inr (d, known) ↦ observe_live-Inv d room live known
    ]
  ]

pub rebase-Inv :
    (max_pending : ℕ) (s : SessionSequence) (last : ℕ)
    → Inv max_pending s
    → Inv max_pending (rebase s last).1
rebase-Inv m s last v = record {
  idle = λ live. r.gap_iff.0 (sym r.waits ∙ live);
  known = λ live. rw r.durable;
  above = λ d n known has. above_reached d n known has;
  bounded = omega (arith, size-rebase-le s last, v.bounded);
}
  where
    r : IsRebased s last (rebase s last).0 (rebase s last).1
    r = rebase-IsRebased s last

    above_reached :
        (d n : ℕ)
        → (rebase s last).1.durable_seq ≡ some d
        → Map.has (rebase s last).1.pending n ≡ true
        → d < n
    above_reached d n known has = ground (arith, r.durable, r.cleared n)

-- Any call on the sequencer of one session.
pub data Call : Type 0 where
  subscribes : Call
  observes : RpcEvent → Call
  rebases : ℕ → Call

unfoldable pub step : ℕ → SessionSequence → Call → SessionSequence
step m s subscribes = subscribe s
step m s (observes event) = (observe m s event).1
step m s (rebases last) = (rebase s last).1

unfoldable pub run : ℕ → SessionSequence → List Call → SessionSequence
run m s [] = s
run m s (c ∷ cs) = run m (step m s c) cs

step-Inv : (m : ℕ) (s : SessionSequence) (c : Call) → 1 ≤ m → Inv m s → Inv m (step m s c)
unfolding step
step-Inv m s subscribes room v = subscribe-Inv m s v
step-Inv m s (observes event) room v = observe-Inv m s v event room
step-Inv m s (rebases last) room v = rebase-Inv m s last v

run-Inv : (cs : List Call) (m : ℕ) (s : SessionSequence) → 1 ≤ m → Inv m s → Inv m (run m s cs)
unfolding run
run-Inv [] m s room v = v
run-Inv (c ∷ cs) m s room v = run-Inv cs m (step m s c) room (step-Inv m s c room v)

-- After any calls on a new session, with a bound of at least 1, the invariant holds: while no history
-- is awaited the durable number is known and nothing is pending, pending events lie above the
-- durable number, and there are at most as many as the bound.
pub run-fresh-Inv : (m : ℕ) (cs : List Call) → 1 ≤ m → Inv m (run m fresh cs)
run-fresh-Inv m cs room = run-Inv cs m fresh room (fresh-Inv m)
