-- ===== src/StateStore/Convergence.antt =====
-- `freshestRun` of src/state-store.ts with its two arguments exchanged.
use deepseek_harness_relay_m.Base.{
  ℕ, ◌≡◌, refl, true, false, Option, some, List, [], ◌∷◌, arith, if◌then◌else◌,
}
use deepseek_harness_relay_m.Base.Stamp.{
  Stamp, iso, difference, timestamp, instant_difference, prefer,
}
use deepseek_harness_relay_m.Types.{PersistedRun}
use deepseek_harness_relay_m.StateStore.Freshest.{
  text_ge, freshest_finished, freshest_progress, freshest_run,
}

text_ge_antisym : (xs ys : List ℕ) → text_ge xs ys ≡ true → text_ge ys xs ≡ true → xs ≡ ys
unfolding text_ge
text_ge_antisym [] [] h k = refl
text_ge_antisym [] (y ∷ ys) h k = absurd (cc)
text_ge_antisym (x ∷ xs) [] h k = absurd (cc)
text_ge_antisym (x ∷ xs) (y ∷ ys) h k = ground (arith, text_ge_antisym xs ys)

text_ge_total : (xs ys : List ℕ) → text_ge xs ys ≡ false → text_ge ys xs ≡ true
unfolding text_ge
text_ge_total xs [] h = absurd (cc)
text_ge_total [] (y ∷ ys) h = refl
text_ge_total (x ∷ xs) (y ∷ ys) h = ground (arith, text_ge_total xs ys)

prefer_comm {ℓ} :
    {A : Type ℓ} (a b : ℕ) (l r s t : A)
    → s ≡ t
    → prefer (difference a b) l r s ≡ prefer (difference b a) r l t
unfolding prefer
prefer_comm a b l r s t e = ground arith

finished_comm {ℓ} :
    {A : Type ℓ} (a b : Option Stamp) (m n : ℕ) (l r s t : A)
    → a ≡ some (iso m)
    → b ≡ some (iso n)
    → s ≡ t
    → prefer (instant_difference (timestamp a) (timestamp b)) l r s
      ≡ prefer (instant_difference (timestamp b) (timestamp a)) r l t
unfolding timestamp instant_difference
finished_comm a b m n l r s t ea eb e = rw (ea, eb) (prefer_comm m n l r s t e)

module _ (to_json : PersistedRun → List ℕ) (l r : PersistedRun)
    (faithful : to_json l ≡ to_json r → l ≡ r) where
  choice_comm :
      (if text_ge (to_json l) (to_json r) then l else r)
      ≡ (if text_ge (to_json r) (to_json l) then r else l)
  choice_comm = ground (
    arith,
    text_ge_total (to_json l) (to_json r),
    text_ge_antisym (to_json l) (to_json r),
    faithful,
  )

  freshest_finished_comm : freshest_finished to_json l r ≡ freshest_finished to_json r l
  unfolding freshest_finished
  freshest_finished_comm = prefer_comm _ _ l r _ _ (prefer_comm _ _ l r _ _ choice_comm)

  freshest_progress_comm :
      (m n : ℕ)
      → l.snapshot.finished_at ≡ some (iso m)
      → r.snapshot.finished_at ≡ some (iso n)
      → freshest_progress to_json l r ≡ freshest_progress to_json r l
  unfolding freshest_progress
  freshest_progress_comm m n fl fr =
      prefer_comm _ _ l r _ _ (finished_comm _ _ m n l r _ _ fl fr freshest_finished_comm)

  -- The choice of `freshestRun` between two finished versions of a run is the same in both orders,
  -- if the JSON texts of the two are equal only where the two are.
  pub freshest_run_comm :
      (m n : ℕ)
      → l.snapshot.finished_at ≡ some (iso m)
      → r.snapshot.finished_at ≡ some (iso n)
      → freshest_run to_json l r ≡ freshest_run to_json r l
  unfolding freshest_run
  freshest_run_comm m n fl fr = ground (arith, freshest_progress_comm m n fl fr)
