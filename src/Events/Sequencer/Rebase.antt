-- ===== src/Events/Sequencer/Rebase.antt =====
-- What `rebase` of src/event-monitoring/event-sequencer.ts makes of the durable history's last
-- sequence number.
use deepseek_harness_relay_m.Base.{
  ℕ, suc, ◌≤◌, ◌<◌, ◌≡◌, refl, ap, sym, ◌∙◌, true, false, Option, none, some, [], arith, ◌==◌,
  nat_eq, leb, if◌then◌else◌, is_some, ◌↔◌,
}
use mathlib.Core.Bool.{false≢true}
use deepseek_harness_relay_m.Base.Map
use deepseek_harness_relay_m.Base.Map.{Map}
use deepseek_harness_relay_m.Types.{RpcEvent}
use deepseek_harness_relay_m.Events.Sequencer.{
  SessionSequence, Rebased, advance, advance_contiguous, minimum, drop_durable, rebase_rest, rebase,
}
use deepseek_harness_relay_m.Events.Sequencer.Advance.{
  Reached, advance-Reached, minimum-has, minimum-none, get-drop_durable, size-drop_durable-le,
  size-advance-le,
}

-- The state and the answer after a rebase of `s` to `last`.
pub record IsRebased (s : SessionSequence) (last : ℕ) (answer : Rebased) (t : SessionSequence)
    : Type 0 where
  -- the new durable number
  pub reached : ℕ
  pub durable : t.durable_seq ≡ some reached
  pub not_before : last ≤ reached
  -- every number that was skipped over had been seen on the stream
  pub contiguous : (n : ℕ) → last < n → n ≤ reached → Map.has s.pending n ≡ true
  -- it could not go further
  pub stopped : Map.get t.pending (suc reached) ≡ none
  -- nothing up to the new durable number is pending, and later events stay pending
  pub cleared : (n : ℕ) → n ≤ reached → Map.get t.pending n ≡ none
  pub kept : (n : ℕ) → reached < n → Map.get t.pending n ≡ Map.get s.pending n
  pub waits : t.awaiting_history ≡ answer.gap
  pub gap_iff : (answer.gap ≡ false) ↔ (t.pending ≡ [])

module _ (s : SessionSequence) (last : ℕ) where
  abbrev swept : ℕ × Map ℕ RpcEvent
  swept = advance (Map.size (drop_durable last s.pending)) last (drop_durable last s.pending)

  -- The state before the test on `firstPending`.
  abbrev before : SessionSequence
  before = record { durable_seq = some swept.0; awaiting_history = false; pending = swept.1 }

  rebase-before : rebase s last ≡ rebase_rest before (suc swept.0) (minimum swept.1)
  unfolding rebase advance_contiguous
  rebase-before = refl

  swept-Reached : Reached last (drop_durable last s.pending) swept.0 swept.1
  swept-Reached = advance-Reached _ last (drop_durable last s.pending) (omega arith)

  was_pending : (n : ℕ) → last < n → n ≤ swept.0 → Map.has s.pending n ≡ true
  was_pending n a b =
      ground (arith, get-drop_durable last s.pending n, swept-Reached.contiguous n a b)

  stays_pending : (n : ℕ) → swept.0 < n → Map.get swept.1 n ≡ Map.get s.pending n
  stays_pending n a =
      swept-Reached.kept n a
      ∙ (get-drop_durable last s.pending n ∙ later n (omega (arith, swept-Reached.forward)))
    where
      later :
          (k : ℕ)
          → last < k
          → (if leb k last then none else Map.get s.pending k) ≡ Map.get s.pending k
      later k h = ground arith

  nothing_below : (n : ℕ) → n ≤ swept.0 → Map.get swept.1 n ≡ none
  nothing_below = swept-Reached.cleared (λ m b. ground (arith, get-drop_durable last s.pending m))

  rest_size :
      (k : ℕ) (o : Option ℕ) → Map.size (rebase_rest before k o).1.pending ≤ Map.size swept.1
  unfolding rebase_rest advance_contiguous
  rest_size k none = omega arith
  rest_size k (some first) = ground (arith, size-advance-le (Map.size swept.1) swept.0 swept.1)

  pub size-rebase-le : Map.size (rebase s last).1.pending ≤ Map.size s.pending
  size-rebase-le = rw rebase-before (
      omega (
        arith,
        rest_size (suc swept.0) (minimum swept.1),
        size-advance-le (Map.size (drop_durable last s.pending)) last (drop_durable last s.pending),
        size-drop_durable-le last s.pending,
      ))

  rest-IsRebased :
      (o : Option ℕ)
      → minimum swept.1 ≡ o
      → IsRebased s last
          (rebase_rest before (suc swept.0) o).0
          (rebase_rest before (suc swept.0) o).1
  unfolding rebase_rest minimum
  rest-IsRebased none e = record {
    reached = swept.0;
    durable = refl;
    not_before = swept-Reached.forward;
    contiguous = was_pending;
    stopped = swept-Reached.stopped;
    cleared = nothing_below;
    kept = stays_pending;
    waits = refl;
    gap_iff = (λ _. minimum-none swept.1 e, λ _. refl);
  }
  rest-IsRebased (some k) e =
      let apart : (k == suc swept.0) ≡ false =
        ground (arith, minimum-has swept.1 k e, swept-Reached.stopped) in
      rw apart (record {
        reached = swept.0;
        durable = refl;
        not_before = swept-Reached.forward;
        contiguous = was_pending;
        stopped = swept-Reached.stopped;
        cleared = nothing_below;
        kept = stays_pending;
        waits = refl;
        gap_iff = (λ h. absurd (cc), λ empty. absurd (not_empty empty e));
      })
    where
      not_empty : swept.1 ≡ [] → minimum swept.1 ≡ some k → ⊥
      not_empty empty found = false≢true (ap is_some (sym (ap minimum empty)) ∙ ap is_some found)

  -- A rebase to `last` sets the durable number to the end of the unbroken run of numbers that were
  -- pending right above `last`; the number after it is not pending; every event above it is as it
  -- was; and a gap is reported, and history awaited, exactly if something is still pending.
  pub rebase-IsRebased : IsRebased s last (rebase s last).0 (rebase s last).1
  rebase-IsRebased = rw rebase-before (rest-IsRebased (minimum swept.1) refl)
