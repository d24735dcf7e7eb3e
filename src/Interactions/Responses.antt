-- ===== src/Interactions/Responses.antt =====
-- What an accepted answer of src/user-interactions/user-interaction-facade.ts was accepted for.
use deepseek_harness_relay_m.Base.{
  String, ◌≡◌, refl, ap, true, Option, none, some, [], ◌∷◌, arith, ◌==◌, ==_iff, string_eq, inl,
  inr, Bool-cases,
}
use deepseek_harness_relay_m.Base.Map
use deepseek_harness_relay_m.Base.Map.{Map, get-delete}
use deepseek_harness_relay_m.Base.Result.{Result, ok, err}
use deepseek_harness_relay_m.Interactions.Answers.{Response, InteractionError, validate_response}
use deepseek_harness_relay_m.Interactions.{
  PendingEntry, Settlement, responded, aborted, Facade, Env, is_current, finish, prune_over, prune,
  owned_by, settle, respond_to, respond,
}

finish-get :
    (f : Facade) (j id : String) (s : Settlement) (e : PendingEntry)
    → Map.get (finish f j s).pending id ≡ some e
    → Map.get f.pending id ≡ some e
unfolding finish
finish-get f j id s e h = ground (arith, get-delete f.pending j id)

finish-gone :
    (f : Facade) (id : String) (s : Settlement) → Map.get (finish f id s).pending id ≡ none
unfolding finish
finish-gone f id s = ground (arith, get-delete f.pending id id, ==_iff id id)

prune_over-get :
    (m : Map String PendingEntry) (env : Env) (f : Facade) (id : String) (e : PendingEntry)
    → Map.get (prune_over env m f).pending id ≡ some e
    → Map.get f.pending id ≡ some e
unfolding prune_over
prune_over-get [] env f id e h = h
prune_over-get ((j, x) ∷ m) env f id e h = elim (Bool-cases (is_current env x)) [
  | inl now ↦ prune_over-get m env f id e (rw now at h)
  | inr gone ↦
      finish-get f j id aborted e (prune_over-get m env (finish f j aborted) id e (rw gone at h))
]

-- An entry that the loop has passed, and that is left, is current.
prune_over-is_current :
    (m : Map String PendingEntry) (env : Env) (f : Facade) (id : String) (e a : PendingEntry)
    → Map.get m id ≡ some e
    → Map.get (prune_over env m f).pending id ≡ some a
    → is_current env e ≡ true
unfolding prune_over Map.get
prune_over-is_current [] env f id e a h k = absurd (cc)
prune_over-is_current ((j, x) ∷ m) env f id e a h k = elim (Bool-cases (is_current env x)) [
  | inl now ↦ elim (Bool-cases (j == id)) [
    | inl here ↦ ground arith
    | inr there ↦ prune_over-is_current m env f id e a (rw there at h) (rw now at k)
  ]
  | inr gone ↦ elim (Bool-cases (j == id)) [
    | inl here ↦
        let same : j ≡ id = (==_iff j id).0 here in
        let left = prune_over-get m env (finish f j aborted) id a (rw gone at k) in
        let none_left = finish-gone f j aborted in absurd (ground (arith, left, none_left, same))
    | inr there ↦
        prune_over-is_current m env (finish f j aborted) id e a (rw there at h) (rw gone at k)
  ]
]

-- The entry that an answer was accepted for, and the state after it.
pub record IsAnswer (env : Env) (f : Facade) (run_id id principal : String) (response : Response)
    (g : Facade) : Type 0 where
  pub entry : PendingEntry
  pub was_pending : Map.get f.pending id ≡ some entry
  pub current : is_current env entry ≡ true
  pub own : owned_by run_id principal entry ≡ true
  pub valid : validate_response entry.view.details response ≡ ok tt
  pub gone : Map.get g.pending id ≡ none
  pub settles : g.settled ≡ (id, responded response) ∷ (prune env f).settled

finish-settled :
    (f : Facade) (id : String) (e : PendingEntry) (s : Settlement)
    → Map.get f.pending id ≡ some e
    → (finish f id s).settled ≡ (id, s) ∷ f.settled
unfolding finish
finish-settled f id e s h = ground arith

settle-ok :
    (v : Result InteractionError (Unit {0})) (f : Facade) (id a : String) (response : Response)
    (g : Facade)
    → settle f id response v ≡ (ok a, g)
    → (v ≡ ok tt) × (finish f id (responded response) ≡ g)
unfolding settle
settle-ok (err e) f id a response g h = absurd (ground arith)
settle-ok (ok _) f id a response g h = (refl, ap (λ p. p.1) h)

respond_to-IsAnswer :
    (o : Option PendingEntry) (env : Env) (f g : Facade) (run_id id principal a : String)
    (response : Response)
    → Map.get (prune env f).pending id ≡ o
    → respond_to (prune env f) run_id id principal response o ≡ (ok a, g)
    → IsAnswer env f run_id id principal response g
unfolding respond_to prune
respond_to-IsAnswer none env f g run_id id principal a response found h = absurd (ground arith)
respond_to-IsAnswer (some entry) env f g run_id id principal a response found h =
    elim (Bool-cases (owned_by run_id principal entry)) [
      | inr other ↦ absurd (ground arith)
      | inl own ↦
          let (valid, after) =
            settle-ok (validate_response entry.view.details response) (prune env f) id a response g
              (rw own at h) in
          let before = prune_over-get f.pending env f id entry found in
          record {
            entry = entry;
            was_pending = before;
            current = prune_over-is_current f.pending env f id entry entry before found;
            own = own;
            valid = valid;
            gone = rw⁻¹ after (finish-gone (prune env f) id (responded response));
            settles = rw⁻¹ after (finish-settled (prune env f) id entry (responded response) found);
          }
    ]

-- If an answer is accepted, then the request was pending; its run is still that of the agent's
-- current owner and its abort signal has not fired; the caller named that run and is the principal
-- that owns it; the answer is valid for the request; and after the call the request is no longer
-- pending, and the answer is the newest settlement, right above those of the pruning that the call
-- begins with.
pub respond-IsAnswer :
    (env : Env) (f g : Facade) (run_id id principal a : String) (response : Response)
    → respond env f run_id id principal response ≡ (ok a, g)
    → IsAnswer env f run_id id principal response g
unfolding respond
respond-IsAnswer env f g run_id id principal a response h =
    respond_to-IsAnswer _ env f g run_id id principal a response refl h
