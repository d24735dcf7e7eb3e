-- ===== src/Events/Sequencer/Advance.antt =====
-- The loop of `advanceContiguous` in src/event-monitoring/event-sequencer.ts ends, and where.
use deepseek_harness_relay_m.Base.{
  ℕ, zero, suc, ◌≤◌, ◌<◌, ◌≡◌, refl, true, false, none, some, [], ◌∷◌, arith, nat_eq, leb,
  if◌then◌else◌, Bool-cases, inl, inr,
}
use deepseek_harness_relay_m.Base.Map
use deepseek_harness_relay_m.Base.Map.{Map, get-delete, size-delete-le}
use deepseek_harness_relay_m.Types.{RpcEvent}
use deepseek_harness_relay_m.Events.Sequencer.{advance, minimum, drop_durable}

size-delete-lt :
    (p : Map ℕ RpcEvent) (k : ℕ) → Map.has p k ≡ true → Map.size (Map.delete p k) < Map.size p
unfolding Map.get Map.delete
size-delete-lt [] k h = absurd (cc)
size-delete-lt ((j, e) ∷ p) k h = ground (arith, size-delete-le p k, size-delete-lt p k)

-- Where the loop stops: at the first number above `durable` that is not pending. What is pending
-- above it stays as it was.
pub record Reached (durable : ℕ) (pending : Map ℕ RpcEvent) (reached : ℕ) (left : Map ℕ RpcEvent)
    : Type 0 where
  pub forward : durable ≤ reached
  pub stopped : Map.get left (suc reached) ≡ none
  pub contiguous : (n : ℕ) → durable < n → n ≤ reached → Map.has pending n ≡ true
  pub kept : (n : ℕ) → reached < n → Map.get left n ≡ Map.get pending n
  pub cleared :
      ((n : ℕ) → n ≤ durable → Map.get pending n ≡ none)
      → (n : ℕ) → n ≤ reached
      → Map.get left n ≡ none

Reached-step :
    (d : ℕ) (p : Map ℕ RpcEvent) (r : ℕ) (l : Map ℕ RpcEvent)
    → Map.has p (suc d) ≡ true
    → Reached (suc d) (Map.delete p (suc d)) r l
    → Reached d p r l
Reached-step d p r l here ih = record {
  forward = omega (arith, ih.forward);
  stopped = ih.stopped;
  contiguous = λ n a b. ground (arith, get-delete p (suc d) n, ih.contiguous n);
  kept = λ n a. ground (arith, get-delete p (suc d) n, ih.kept n, ih.forward);
  cleared = λ below n a. ih.cleared (λ m b. ground (arith, get-delete p (suc d) m, below m)) n a;
}

Reached-stop : (d : ℕ) (p : Map ℕ RpcEvent) → Map.has p (suc d) ≡ false → Reached d p d p
Reached-stop d p gone = record {
  forward = omega arith;
  stopped = ground arith;
  contiguous = λ n a b. absurd (omega arith);
  kept = λ n a. refl;
  cleared = λ below n a. below n a;
}

pub advance-Reached :
    (fuel durable : ℕ) (pending : Map ℕ RpcEvent)
    → Map.size pending ≤ fuel
    → Reached durable pending (advance fuel durable pending).0 (advance fuel durable pending).1
unfolding advance
advance-Reached zero durable [] h = Reached-stop durable [] (unfold Map.get in refl)
advance-Reached zero durable (x ∷ p) h = absurd (omega arith)
advance-Reached (suc fuel) durable p h = elim (Bool-cases (Map.has p (suc durable))) [
  | inl here ↦
      let ih =
        advance-Reached fuel (suc durable) (Map.delete p (suc durable))
          (omega (arith, size-delete-lt p (suc durable) here)) in
      rw here (Reached-step durable p _ _ here ih)
  | inr gone ↦ rw gone (Reached-stop durable p gone)
]

-- The least pending number is pending, and nothing is pending where there is none.
pub minimum-has : (p : Map ℕ RpcEvent) (k : ℕ) → minimum p ≡ some k → Map.has p k ≡ true
unfolding minimum Map.get
minimum-has [] k e = absurd (cc)
minimum-has ((j, e) ∷ p) k h = ground (arith, minimum-has p k)

pub minimum-none : (p : Map ℕ RpcEvent) → minimum p ≡ none → p ≡ []
unfolding minimum
minimum-none [] e = refl
minimum-none ((j, e) ∷ p) h = absurd (ground arith)

pub get-drop_durable :
    (last : ℕ) (p : Map ℕ RpcEvent) (n : ℕ)
    → Map.get (drop_durable last p) n ≡ (if leb n last then none else Map.get p n)
unfolding drop_durable Map.get
get-drop_durable last [] n = ground arith
get-drop_durable last ((j, e) ∷ p) n = ground (arith, get-drop_durable last p n)

pub size-drop_durable-le :
    (last : ℕ) (p : Map ℕ RpcEvent) → Map.size (drop_durable last p) ≤ Map.size p
unfolding drop_durable
size-drop_durable-le last [] = omega arith
size-drop_durable-le last ((j, e) ∷ p) = ground (arith, size-drop_durable-le last p)

pub size-advance-le : (fuel d : ℕ) (p : Map ℕ RpcEvent) → Map.size (advance fuel d p).1 ≤ Map.size p
unfolding advance
size-advance-le zero d p = omega arith
size-advance-le (suc fuel) d p =
    ground (arith, size-advance-le fuel (suc d) (Map.delete p (suc d)), size-delete-le p (suc d))
