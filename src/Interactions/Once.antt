-- ===== src/Interactions/Once.antt =====
-- Sequences of calls of src/user-interactions/user-interaction-facade.ts: how often a request is settled,
-- and how many are pending.
use deepseek_harness_relay_m.Base.{
  ℕ, ◌+◌, ◌≤◌, ◌<◌, String, ◌≡◌, refl, ◌∙◌, Bool, true, false, Option, none, some, List, [], ◌∷◌,
  arith, leb, ◌==◌, ==_iff, string_eq, if◌then◌else◌, inl, inr, Bool-cases,
}
use deepseek_harness_relay_m.Base.Map
use deepseek_harness_relay_m.Base.Map.{Map, get-set, get-delete, size-set-le, size-delete-le}
use deepseek_harness_relay_m.Base.Result.{Result, ok, err}
use deepseek_harness_relay_m.Base.Stamp.{Stamp}
use deepseek_harness_relay_m.Interactions.Answers.{Response, Details, InteractionError}
use deepseek_harness_relay_m.Interactions.{
  PendingEntry, Settlement, responded, aborted, Facade, Env, NewRequest, entry_of, is_current,
  finish, prune_over, prune, owned_by, settle, respond_to, respond, list, has_pending, abort_all,
  dispose, admit, enqueue, Owner, ask_enqueued, ask_owned, ask,
}

-- How often a request was settled.
abbrev pub times_settled : String → List (String × Settlement) → ℕ
times_settled id [] = 0
times_settled id ((j, s) ∷ rest) = (if j == id then 1 else 0) + times_settled id rest

abbrev pub is_pending : String → Facade → ℕ
is_pending id f = if Map.has f.pending id then 1 else 0

-- Settlements of a request, and the one that is still to come.
abbrev pub owed : String → Facade → ℕ
owed id f = times_settled id f.settled + is_pending id f

-- Nothing is added by a call that only settles.
record Settles (id : String) (f g : Facade) : Type 0 where
  pub owes : owed id g ≤ owed id f
  pub room : Map.size g.pending ≤ Map.size f.pending
  pub limit : g.max_pending ≡ f.max_pending

finish-Settles : (id j : String) (f : Facade) (s : Settlement) → Settles id f (finish f j s)
unfolding finish
finish-Settles id j f s = record {
  owes = ground (arith, get-delete f.pending j id, ==_iff j id);
  room = ground (arith, size-delete-le f.pending j);
  limit = ground arith;
}

Settles-trans : (id : String) (f g h : Facade) → Settles id f g → Settles id g h → Settles id f h
Settles-trans id f g h a b = record {
  owes = omega (arith, a.owes, b.owes);
  room = omega (arith, a.room, b.room);
  limit = b.limit ∙ a.limit;
}

Settles-refl : (id : String) (f : Facade) → Settles id f f
Settles-refl id f = record { owes = omega arith; room = omega arith; limit = refl }

prune_over-Settles :
    (m : Map String PendingEntry) (env : Env) (id : String) (f : Facade)
    → Settles id f (prune_over env m f)
unfolding prune_over
prune_over-Settles [] env id f = Settles-refl id f
prune_over-Settles ((j, entry) ∷ m) env id f = elim (Bool-cases (is_current env entry)) [
  | inl now ↦ rw now (prune_over-Settles m env id f)
  | inr gone ↦ rw gone (
      Settles-trans id f (finish f j aborted) _ (finish-Settles id j f aborted)
        (prune_over-Settles m env id (finish f j aborted)))
]

prune-Settles : (env : Env) (id : String) (f : Facade) → Settles id f (prune env f)
unfolding prune
prune-Settles env id f = prune_over-Settles f.pending env id f

settle-Settles :
    (v : Result InteractionError (Unit {0})) (id j : String) (f : Facade) (response : Response)
    → Settles id f (settle f j response v).1
unfolding settle
settle-Settles (err e) id j f response = Settles-refl id f
settle-Settles (ok _) id j f response = finish-Settles id j f (responded response)

respond_to-Settles :
    (o : Option PendingEntry) (id run j principal : String) (f : Facade) (response : Response)
    → Settles id f (respond_to f run j principal response o).1
unfolding respond_to
respond_to-Settles none id run j principal f response = Settles-refl id f
respond_to-Settles (some entry) id run j principal f response =
    elim (Bool-cases (owned_by run principal entry)) [
      | inl own ↦ rw own (settle-Settles _ id j f response)
      | inr other ↦ rw other (Settles-refl id f)
    ]

respond-Settles :
    (env : Env) (id : String) (f : Facade) (run j principal : String) (response : Response)
    → Settles id f (respond env f run j principal response).1
unfolding respond
respond-Settles env id f run j principal response =
    Settles-trans id f (prune env f) _ (prune-Settles env id f)
      (respond_to-Settles _ id run j principal (prune env f) response)

abort_all-Settles :
    (m : Map String PendingEntry) (id : String) (f : Facade) → Settles id f (abort_all m f)
abort_all-Settles [] id f = Settles-refl id f
abort_all-Settles ((j, entry) ∷ m) id f =
    Settles-trans id f (finish f j aborted) _ (finish-Settles id j f aborted)
      (abort_all-Settles m id (finish f j aborted))

-- A call of the facade, or an abort signal that fires.
pub data Call : Type 0 where
  asks : Env → String → Details → String → Stamp → Call
  responds : Env → String → String → String → Response → Call
  lists : Env → String → String → Call
  looks : Env → String → Call
  aborts : String → Call
  disposes : Call

unfoldable pub step : Facade → Call → Facade
step f (asks env agent details id now) = (ask env f agent details id now).1
step f (responds env run id principal response) = (respond env f run id principal response).1
step f (lists env run principal) = (list env f run principal).1
step f (looks env run) = (has_pending env f run).1
step f (aborts id) = finish f id aborted
step f disposes = dispose f

unfoldable pub run : List Call → Facade → Facade
run [] f = f
run (c ∷ cs) f = run cs (step f c)

-- How often a request was made under an identifier.
abbrev pub asked_by : String → Call → ℕ
asked_by id (asks env agent details j now) = if j == id then 1 else 0
asked_by id _ = 0

abbrev pub times_asked : String → List Call → ℕ
times_asked id [] = 0
times_asked id (c ∷ cs) = asked_by id c + times_asked id cs

-- A call adds at most the request that it makes, and stays within the capacity.
record Adds (id : String) (n : ℕ) (f g : Facade) : Type 0 where
  pub owes : owed id g ≤ owed id f + n
  pub room : Map.size f.pending ≤ f.max_pending → Map.size g.pending ≤ g.max_pending
  pub limit : g.max_pending ≡ f.max_pending

Settles-Adds : (id : String) (n : ℕ) (f g : Facade) → Settles id f g → Adds id n f g
Settles-Adds id n f g h = record {
  owes = omega (arith, h.owes);
  room = λ k. omega (arith, h.room, h.limit, k);
  limit = h.limit;
}

admit-Adds :
    (env : Env) (id : String) (f : Facade) (q : NewRequest)
    → Map.size f.pending < f.max_pending
    → Adds id (if q.fresh_id == id then 1 else 0) f (admit env f q)
unfolding admit
admit-Adds env id f q free =
    let g = record f { pending = Map.set f.pending q.fresh_id (entry_of q) } in
    let grown : Adds id (if q.fresh_id == id then 1 else 0) f g = record {
      owes = ground (arith, get-set f.pending q.fresh_id id (entry_of q));
      room = λ k. omega (arith, size-set-le f.pending q.fresh_id (entry_of q));
      limit = refl;
    } in
    let ended = finish-Settles id q.fresh_id g aborted in
    elim (Bool-cases (env.is_aborted q.fresh_id)) [
      | inr live ↦ rw live grown
      | inl dead ↦ rw dead (record {
        owes = omega (arith, ended.owes, grown.owes);
        room = λ k. omega (arith, ended.room, ended.limit, grown.room k);
        limit = ended.limit;
      })
    ]

enqueue-Adds :
    (env : Env) (id : String) (f : Facade) (q : NewRequest)
    → Adds id (if q.fresh_id == id then 1 else 0) f (enqueue env f q).1
unfolding enqueue
enqueue-Adds env id f q =
    let pruned = prune-Settles env id f in
    elim (Bool-cases (leb (prune env f).max_pending (Map.size (prune env f).pending))) [
      | inl full ↦ rw full (Settles-Adds id _ f (prune env f) pruned)
      | inr free ↦
          let added = admit-Adds env id (prune env f) q (ground arith) in
          rw free (record {
            owes = omega (arith, pruned.owes, added.owes);
            room = λ k. added.room (omega (arith, pruned.room, pruned.limit, k));
            limit = added.limit ∙ pruned.limit;
          })
    ]

ask_enqueued-Adds :
    (disposed fired : Bool) (r : Result InteractionError String × Facade) (id j : String)
    (f : Facade)
    → Adds id (if j == id then 1 else 0) f r.1
    → Adds id (if j == id then 1 else 0) f (ask_enqueued disposed fired f r).1
unfolding ask_enqueued
ask_enqueued-Adds true fired r id j f h = Settles-Adds id _ f f (Settles-refl id f)
ask_enqueued-Adds false true r id j f h = Settles-Adds id _ f f (Settles-refl id f)
ask_enqueued-Adds false false (ok x, g) id j f h = h
ask_enqueued-Adds false false (err e, g) id j f h = h

ask_owned-Adds :
    (o : Option Owner) (env : Env) (id : String) (f : Facade) (agent : String) (details : Details)
    (j : String) (now : Stamp)
    → Adds id (if j == id then 1 else 0) f (ask_owned env f agent details j now o).1
unfolding ask_owned
ask_owned-Adds none env id f agent details j now = Settles-Adds id _ f f (Settles-refl id f)
ask_owned-Adds (some owner) env id f agent details j now =
    ask_enqueued-Adds f.disposed (env.is_aborted j) _ id j f (
      enqueue-Adds env id f
        (record { owner = owner; agent = agent; details = details; fresh_id = j; now = now }))

step-Adds : (c : Call) (id : String) (f : Facade) → Adds id (asked_by id c) f (step f c)
unfolding step ask list has_pending dispose
step-Adds (asks env agent details j now) id f = ask_owned-Adds _ env id f agent details j now
step-Adds (responds env run j p response) id f =
    Settles-Adds id 0 f _ (respond-Settles env id f run j p response)
step-Adds (lists env run p) id f = Settles-Adds id 0 f _ (prune-Settles env id f)
step-Adds (looks env run) id f = Settles-Adds id 0 f _ (prune-Settles env id f)
step-Adds (aborts j) id f = Settles-Adds id 0 f _ (finish-Settles id j f aborted)
step-Adds disposes id f =
    let ended = abort_all-Settles f.pending id (record f { disposed = true }) in
    Settles-Adds id 0 f _ (record { owes = ended.owes; room = ended.room; limit = ended.limit })

run-Adds : (cs : List Call) (id : String) (f : Facade) → Adds id (times_asked id cs) f (run cs f)
unfolding run
run-Adds [] id f = Settles-Adds id 0 f f (Settles-refl id f)
run-Adds (c ∷ cs) id f =
    let first = step-Adds c id f in
    let later = run-Adds cs id (step f c) in
    record {
      owes = omega (arith, first.owes, later.owes);
      room = λ k. later.room (first.room k);
      limit = later.limit ∙ first.limit;
    }

abbrev pub opened : ℕ → Facade
opened max_pending = record {
  pending = [];
  disposed = false;
  max_pending = max_pending;
  settled = [];
}

-- On a new facade, after any calls and abort signals in any order, a request was settled at most as
-- often as one was made under its identifier, so at most once if the identifiers are unique; and at
-- most `max_pending` requests are pending.
pub settled_once :
    (max_pending : ℕ) (cs : List Call) (id : String)
    → (times_settled id (run cs (opened max_pending)).settled ≤ times_asked id cs)
      × (Map.size (run cs (opened max_pending)).pending ≤ max_pending)
unfolding Map.get
settled_once m cs id =
    let all = run-Adds cs id (opened m) in
    (omega (arith, all.owes), omega (arith, all.room (omega arith), all.limit))
