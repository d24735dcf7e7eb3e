-- ===== src/Authority/Retry.antt =====
-- `acquireWithRetry` of src/authority/authority-registry-facade.ts. Round n of the loop meets the
-- outcome of `acquire`, the readings of the clock, the jitter, the sleep and the abort signal of that
-- round, which are arguments.
use deepseek_harness_relay_m.Base.{
  ℕ, zero, suc, ◌+◌, ◌-◌, ◌*◌, ◌≤◌, ◌<◌, min, max, ◌≡◌, ◌≢◌, Bool, true, ◌&&◌, Option, none, some,
  arith, leb, if◌then◌else◌, Bool-cases, inl, inr, subst, ap, or_else,
}
use deepseek_harness_relay_m.Base.Result.{Result, ok, err}
use deepseek_harness_relay_m.Authority.Registry.{
  OwnerRecord, AcquireError, owned, stale_owner, registry_invalid, write_failed, Lease,
}

pub record Options : Type 0 where
  pub budget : ℕ
  pub initial_delay : ℕ
  pub max_delay : ℕ
  pub jitter : ℕ

-- The clock is milliseconds since the start, 0 if it ran backwards; `jitter` is what was drawn.
pub record Round : Type 0 where
  pub is_aborted : Bool
  pub clock_before : ℕ
  pub attempt : Result AcquireError Lease
  pub clock_after : ℕ
  pub jitter : ℕ
  pub sleeps : Bool
  pub aborted_in_sleep : Bool

pub data Outcome : Type 0 where
  acquired : Lease → Outcome
  refused exhausted : AcquireError → Outcome
  cancelled sleep_failed out_of_fuel : Outcome

-- The outcome, and the time slept.
abbrev pub Ended : Type 0
Ended = Outcome × ℕ

-- `boundedRetryOption`, at the four options.
pub valid_options : Options → Bool
valid_options o =
    leb o.budget 30000
    && (leb 1 o.initial_delay
        && (leb o.initial_delay 5000
            && (leb o.initial_delay o.max_delay && (leb o.max_delay 5000 && leb o.jitter 1000))))

abbrev wait_of : Options → Round → ℕ → ℕ → ℕ
wait_of o r delay waited = min (o.budget - max r.clock_after waited) (delay + r.jitter)

-- After `acquire` has thrown that the Host is owned.
pub conflicted : Options → Round → ℕ → OwnerRecord → Ended → Ended
conflicted o r waited owner rest =
    if leb o.budget (max r.clock_after waited)
    then (exhausted (owned owner), waited)
    else if r.sleeps
    then rest
    else (if r.aborted_in_sleep then cancelled else sleep_failed, waited)

pub attempted : Options → Round → ℕ → Result AcquireError Lease → (OwnerRecord → Ended) → Ended
unfolding conflicted
attempted o r waited (ok l) rest = (acquired l, waited)
attempted o r waited (err (owned owner)) rest = conflicted o r waited owner (rest owner)
attempted o r waited (err e) rest = (refused e, waited)

-- `lastConflict !== null && elapsed >= budget`
pub gives_up : Options → Round → ℕ → Option OwnerRecord → Option OwnerRecord
gives_up o r waited none = none
gives_up o r waited (some owner) =
    if leb o.budget (max r.clock_before waited) then some owner else none

pub from_budget : Option OwnerRecord → ℕ → Ended → Ended
from_budget none waited rest = rest
from_budget (some owner) waited rest = (exhausted (owned owner), waited)

unfoldable pub loop : Options → (ℕ → Round) → ℕ → ℕ → ℕ → ℕ → Option OwnerRecord → Ended
unfolding attempted gives_up from_budget
loop o rounds zero n delay waited last = (out_of_fuel, waited)
loop o rounds (suc fuel) n delay waited last =
    let r = rounds n in
    let rest : OwnerRecord → Ended = λ owner.
      loop o rounds fuel (suc n) (min o.max_delay (delay * 2)) (waited + wait_of o r delay waited)
        (some owner) in
    if r.is_aborted
    then (cancelled, waited)
    else from_budget (gives_up o r waited last) waited (attempted o r waited r.attempt rest)

-- The loop with one round more than the budget has milliseconds; `none` is the `RangeError`.
unfoldable pub acquire_with_retry : Options → (ℕ → Round) → Option Ended
unfolding loop valid_options
acquire_with_retry o rounds =
    if valid_options o then some (loop o rounds (suc o.budget) 0 o.initial_delay 0 none) else none

-- The loop has ended by itself and has not slept longer than the budget.
abbrev pub EndsWithin : ℕ → Ended → Type 0
EndsWithin budget e = (e.0 ≢ out_of_fuel) × (e.1 ≤ budget)

delays : (o : Options) → valid_options o ≡ true → (1 ≤ o.initial_delay) × (1 ≤ o.max_delay)
unfolding valid_options
delays o h = (ground arith, ground arith)

conflicted-EndsWithin :
    (o : Options) (r : Round) (waited : ℕ) (owner : OwnerRecord) (rest : Ended)
    → waited ≤ o.budget
    → (max r.clock_after waited < o.budget → EndsWithin o.budget rest)
    → EndsWithin o.budget (conflicted o r waited owner rest)
unfolding conflicted
conflicted-EndsWithin o r waited owner rest h k =
    elim (Bool-cases (leb o.budget (max r.clock_after waited))) [
      | inl late ↦ rw late (λ e. ground arith, h)
      | inr early ↦ elim (Bool-cases r.sleeps) [
        | inl slept ↦ rw (early, slept) (k (ground arith))
        | inr woken ↦ rw (early, woken) (λ e. ground arith, h)
      ]
    ]

attempted-EndsWithin :
    (a : Result AcquireError Lease) (o : Options) (r : Round) (waited : ℕ)
    (rest : OwnerRecord → Ended)
    → waited ≤ o.budget
    → ((owner : OwnerRecord)
        → max r.clock_after waited < o.budget
        → EndsWithin o.budget (rest owner))
    → EndsWithin o.budget (attempted o r waited a rest)
unfolding attempted
attempted-EndsWithin (ok l) o r waited rest h k = (λ e. ground arith, h)
attempted-EndsWithin (err (owned owner)) o r waited rest h k =
    conflicted-EndsWithin o r waited owner (rest owner) h (k owner)
attempted-EndsWithin (err (stale_owner owner)) o r waited rest h k = (λ e. ground arith, h)
attempted-EndsWithin (err registry_invalid) o r waited rest h k = (λ e. ground arith, h)
attempted-EndsWithin (err write_failed) o r waited rest h k = (λ e. ground arith, h)

from_budget-EndsWithin :
    (g : Option OwnerRecord) (budget waited : ℕ) (rest : Ended)
    → waited ≤ budget
    → EndsWithin budget rest
    → EndsWithin budget (from_budget g waited rest)
unfolding from_budget
from_budget-EndsWithin none budget waited rest h k = k
from_budget-EndsWithin (some owner) budget waited rest h k = (λ e. ground arith, h)

-- Each round that sleeps does so for at least a millisecond.
loop-EndsWithin :
    (fuel : ℕ) (o : Options) (rounds : ℕ → Round) (n delay waited : ℕ) (last : Option OwnerRecord)
    → 1 ≤ delay
    → 1 ≤ o.max_delay
    → waited ≤ o.budget
    → o.budget < waited + fuel
    → EndsWithin o.budget (loop o rounds fuel n delay waited last)
unfolding loop
loop-EndsWithin zero o rounds n delay waited last d m h f = absurd (omega arith)
loop-EndsWithin (suc fuel) o rounds n delay waited last d m h f =
    let r = rounds n in
    elim (Bool-cases r.is_aborted) [
      | inl stops ↦ rw stops (λ e. ground arith, h)
      | inr goes ↦ rw goes (
          from_budget-EndsWithin (gives_up o r waited last) o.budget waited _ h (
            attempted-EndsWithin r.attempt o r waited _ h (λ owner room.
              loop-EndsWithin fuel o rounds (suc n) (min o.max_delay (delay * 2))
                (waited + wait_of o r delay waited) (some owner) (omega arith) m (omega arith)
                (omega arith))))
    ]

-- With options that are accepted, whatever each round meets, the loop ends by itself, after at most
-- one round more than the budget has milliseconds, and it sleeps no longer than the budget in all.
pub acquire_with_retry-EndsWithin :
    (o : Options) (rounds : ℕ → Round) (e : Ended)
    → acquire_with_retry o rounds ≡ some e
    → EndsWithin o.budget e
unfolding acquire_with_retry
acquire_with_retry-EndsWithin o rounds e h = elim (Bool-cases (valid_options o)) [
  | inr bad ↦ absurd (ground arith)
  | inl good ↦
      let (initial, largest) = delays o good in
      let ended =
        loop-EndsWithin (suc o.budget) o rounds 0 o.initial_delay 0 none initial largest
          (omega arith) (omega arith) in
      subst (EndsWithin o.budget) (ap (λ x. or_else x e) (rw good at h)) ended
]
