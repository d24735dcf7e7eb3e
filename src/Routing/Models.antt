-- ===== src/Routing/Models.antt =====
-- src/model-selection.ts: a session's model is selected, and the Host's default model, which the
-- selection changes, is restored unless someone else changed it. The gateway's replies are arguments;
-- `none` is a reading that throws.
use Prim.Native.String
use deepseek_harness_relay_m.Base.{
  ℕ, suc, ◌+◌, String, ◌≡◌, refl, Bool, true, false, not, ◌&&◌, ◌||◌, Option, none, some, List, [],
  ◌∷◌, arith, ◌==◌, nat_eq, string_eq, if◌then◌else◌, find, inl, inr, Bool-cases,
}
use deepseek_harness_relay_m.Base.Result.{Result, ok, err, Result-cases}
use deepseek_harness_relay_m.Types.{
  ModelSelection, ModelSelectionResult, ModelDefaultRestore, restored, not_needed,
  skipped_concurrent_change, unavailable,
}
use deepseek_harness_relay_m.Types.Json.{Value, string, object, Fields, at}

pub record Namespace : Type 0 where
  pub ns : String
  pub revision : ℕ
  pub user : Option Value

pub record Settings : Type 0 where
  pub writable : Bool
  pub namespaces : List Namespace

-- The call that restores the default, with the revision that it expects.
pub data Restoration : Type 0 where
  replace_settings : Fields → ℕ → Restoration
  unset_settings : ℕ → Restoration

-- `restored` is the outcome of that call, with the text of its error.
pub record Replies {ℓ} (E : Type ℓ) : Type ℓ where
  pub before : Option Settings
  pub selected : Result E ModelSelection
  pub after : Option Settings
  pub written : Result String (Unit {0})

pub default_model : List Namespace → Option Namespace
default_model = find (λ item. item.ns == "agent-default-model")

-- `value === text` for an optional text.
abbrev is_text : Option Value → Option String → Bool
is_text none none = true
is_text (some (string s)) (some t) = s == t
is_text _ _ = false

unfoldable pub same_selection : Option Value → ModelSelection → Bool
unfolding at
same_selection (some (object fields)) selection =
    is_text (at fields "provider") (some selection.provider)
    && (is_text (at fields "model") (some selection.model)
        && is_text (at fields "reasoningEffort") selection.reasoning_effort)
same_selection _ selection = false

abbrev pub restoration : Option Value → ℕ → Restoration
restoration (some (object fields)) revision = replace_settings fields revision
restoration _ revision = unset_settings revision

-- What the facade answers, and the call by which it tried to restore the default.
abbrev pub Selected {ℓ} : Type ℓ → Type ℓ
Selected E = Result E ModelSelectionResult × Option Restoration

abbrev answer {ℓ} :
    {E : Type ℓ}
    → ModelSelection
    → ModelDefaultRestore
    → List String
    → Option Restoration
    → Selected E
answer selected restore warnings call =
    (ok (record { selected = selected; restore = restore; warnings = warnings }), call)

-- The namespace before the selection, if it is known and writable.
unfoldable pub restorable : Option Settings → Option Namespace
unfolding default_model
restorable none = none
restorable (some s) = if s.writable then default_model s.namespaces else none

module _ {ℓ} {E : Type ℓ} where
  abbrev after_write : ModelSelection → Restoration → Result String (Unit {0}) → Selected E
  after_write selected call (ok _) = answer selected restored [] (some call)
  after_write selected call (err text) =
      answer selected skipped_concurrent_change
        (String.◌++◌
            "The session model was selected, but the previous Host default was not restored: " text
          ∷ [])
        (some call)

  -- From the comparison of the two revisions on.
  unfoldable pub compare_revisions :
      ModelSelection → Namespace → Option Namespace → Result String (Unit {0}) → Selected E
  unfolding same_selection
  compare_revisions selected before none written = answer selected not_needed [] none
  compare_revisions selected before (some after) written =
      if after.revision == before.revision
      then answer selected not_needed [] none
      else if not (after.revision == before.revision + 1)
          || not (same_selection after.user selected)
      then answer selected skipped_concurrent_change
          ("The Host default model changed concurrently; DSH Relay preserved the newer setting instead of overwriting it."
            ∷ [])
          none
      else after_write selected (restoration before.user after.revision) written

  abbrev compare_after :
      ModelSelection → Namespace → Option Settings → Result String (Unit {0}) → Selected E
  compare_after selected before none written =
      answer selected unavailable
        ("The session model was selected, but the Host default-model setting could not be re-read for restoration."
          ∷ [])
        none
  compare_after selected before (some after) written =
      compare_revisions selected before (default_model after.namespaces) written

  abbrev select_over :
      ModelSelection → Option Namespace → Option Settings → Result String (Unit {0}) → Selected E
  select_over selected none after written =
      answer selected unavailable
        ("Host default-model settings were unavailable or read-only; the session selection is still active."
          ∷ [])
        none
  select_over selected (some before) after written = compare_after selected before after written

  abbrev select_known : Replies E → Result E ModelSelection → Selected E
  select_known r (err e) = (err e, none)
  select_known r (ok selected) = select_over selected (restorable r.before) r.after r.written

  -- `selectLocked`
  unfoldable pub select_locked : Replies E → Selected E
  unfolding restorable compare_revisions default_model
  select_locked r = select_known r r.selected

-- Why a restoring call was made: the selection itself took the default model from revision n to n + 1.
pub record IsRestoration {ℓ} {E : Type ℓ} (r : Replies E) (selected : ModelSelection)
    (call : Restoration) : Type ℓ where
  pub before : Namespace
  pub after : Namespace
  pub settings : Settings
  pub was_known : restorable r.before ≡ some before
  pub reads : r.after ≡ some settings
  pub finds : default_model settings.namespaces ≡ some after
  pub next : after.revision ≡ suc before.revision
  pub own : same_selection after.user selected ≡ true
  pub restores : call ≡ restoration before.user after.revision

module _ {ℓ} {E : Type ℓ} where
  after_write-call :
      (written : Result String (Unit {0})) (selected : ModelSelection) (call made : Restoration)
      (result : ModelSelectionResult)
      → after_write {E = E} selected call written ≡ (ok result, some made)
      → (result.selected ≡ selected) × (made ≡ call)
  after_write-call (ok _) selected call made result e = ground arith
  after_write-call (err t) selected call made result e = ground arith

  compare_revisions-call :
      (o : Option Namespace) (selected : ModelSelection) (before : Namespace)
      (written : Result String (Unit {0})) (call : Restoration) (result : ModelSelectionResult)
      → compare_revisions {E = E} selected before o written ≡ (ok result, some call)
      → (after : Namespace) × (o ≡ some after)
        × (after.revision ≡ suc before.revision)
        × (same_selection after.user selected ≡ true)
        × (call ≡ restoration before.user after.revision)
        × (result.selected ≡ selected)
  unfolding compare_revisions
  compare_revisions-call none selected before written call result e = absurd (ground arith)
  compare_revisions-call (some after) selected before written call result e =
      elim (Bool-cases (after.revision == before.revision)) [
        | inl same ↦ absurd (ground arith)
        | inr moved ↦
            elim (Bool-cases (
              not (after.revision == before.revision + 1)
              || not (same_selection after.user selected))) [
                | inl concurrent ↦ absurd (ground arith)
                | inr own ↦
                    let (chosen, made) =
                      after_write-call written selected (restoration before.user after.revision)
                        call result (rw (moved, own) at e) in
                    (after, refl, ground arith, ground arith, made, chosen)
              ]
      ]

  select_over-call :
      (b : Option Namespace) (a : Option Settings) (r : Replies E) (selected : ModelSelection)
      (call : Restoration) (result : ModelSelectionResult)
      → restorable r.before ≡ b
      → r.after ≡ a
      → select_over {E = E} selected b a r.written ≡ (ok result, some call)
      → IsRestoration r result.selected call
  select_over-call none a r selected call result hb ha e = absurd (ground arith)
  select_over-call (some before) none r selected call result hb ha e = absurd (ground arith)
  select_over-call (some before) (some settings) r selected call result hb ha e =
      let (after, finds, next, own, made, chosen) =
        compare_revisions-call (default_model settings.namespaces) selected before r.written call
          result e in
      record {
        before = before;
        after = after;
        settings = settings;
        was_known = hb;
        reads = ha;
        finds = finds;
        next = next;
        own = rw chosen own;
        restores = made;
      }

  -- The Host's default model is written only if it was known and writable before, its revision is now
  -- exactly one higher and it now is the selected model, so that the selection made that change; the
  -- call sets it back to what it was, at the revision that was read.
  pub select_locked-IsRestoration :
      (r : Replies E) (call : Restoration) (result : ModelSelectionResult)
      → select_locked r ≡ (ok result, some call)
      → IsRestoration r result.selected call
  unfolding select_locked
  select_locked-IsRestoration r call result e = elim (Result-cases r.selected) [
    | inl (selected, s) ↦
        select_over-call (restorable r.before) r.after r selected call result refl refl (rw s at e)
    | inr (x, s) ↦ absurd (ground arith)
  ]
