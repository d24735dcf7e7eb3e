-- ===== src/Interactions.antt =====
-- src/user-interactions/user-interaction-facade.ts and types.ts: one-shot requests of a run to its user.
-- A promise that the code resolves is an entry of `settled`, the newest first. `ownerOf` and the abort
-- signals are read from an Env at each call; display data of a question is left out.
pub mod Answers
pub mod Once
pub mod Responses
mod Tests
use deepseek_harness_relay_m.Base.{
  ℕ, String, Bool, true, false, not, ◌&&◌, ◌||◌, Option, none, some, is_some, List, [], ◌∷◌, leb,
  ◌==◌, string_eq, if◌then◌else◌, filter, any,
}
use deepseek_harness_relay_m.Base.Map
use deepseek_harness_relay_m.Base.Map.{Map}
use deepseek_harness_relay_m.Base.Result.{Result, ok, err}
use deepseek_harness_relay_m.Base.Stamp.{Stamp}
use Answers.{
  Response, Details, InteractionError, not_pending, owner_mismatch, over_capacity,
  validate_response,
}

pub record Owner : Type 0 where
  pub run_id : String
  pub session_id : String
  pub principal : String

pub record PendingInteraction : Type 0 where
  pub request_id : String
  pub run_id : String
  pub session_id : String
  pub created_at : Stamp
  pub details : Details

pub data Settlement : Type 0 where
  responded : Response → Settlement
  aborted : Settlement

-- `agent` names the agent that `isCurrent` asks `ownerOf` about.
pub record PendingEntry : Type 0 where
  pub owner : Owner
  pub view : PendingInteraction
  pub agent : String

pub record Facade : Type 0 where
  pub pending : Map String PendingEntry
  pub disposed : Bool
  pub max_pending : ℕ
  pub settled : List (String × Settlement)

pub record Env : Type 0 where
  pub owner_of : String → Option Owner
  pub is_aborted : String → Bool

abbrev pub same_owner : Owner → Option Owner → Bool
same_owner owner none = false
same_owner owner (some current) =
    current.run_id == owner.run_id && current.principal == owner.principal

-- `isCurrent`
pub is_current : Env → PendingEntry → Bool
is_current env entry =
    not (env.is_aborted entry.view.request_id) && same_owner entry.owner (env.owner_of entry.agent)

-- `finish`: the entry is pending exactly as long as its `settled` flag is false.
unfoldable pub finish : Facade → String → Settlement → Facade
unfolding Map.get Map.delete
finish f id response =
    if Map.has f.pending id
    then record f { pending = Map.delete f.pending id; settled = (id, response) ∷ f.settled }
    else f

-- The loop of `prune` over the entries.
unfoldable pub prune_over : Env → Map String PendingEntry → Facade → Facade
unfolding finish is_current
prune_over env [] f = f
prune_over env ((id, entry) ∷ rest) f =
    if is_current env entry
    then prune_over env rest f
    else prune_over env rest (finish f id aborted)

pub prune : Env → Facade → Facade
unfolding prune_over
prune env f = prune_over env f.pending f

abbrev pub owned_by : String → String → PendingEntry → Bool
owned_by run_id principal entry = entry.owner.run_id == run_id && entry.owner.principal == principal

abbrev views : List PendingEntry → List PendingInteraction
views [] = []
views (entry ∷ rest) = entry.view ∷ views rest

pub list : Env → Facade → String → String → List PendingInteraction × Facade
unfolding prune
list env f run_id principal =
    let g = prune env f in (views (filter (owned_by run_id principal) (Map.values g.pending)), g)

pub has_pending : Env → Facade → String → Bool × Facade
unfolding prune
has_pending env f run_id =
    let g = prune env f in (any (λ entry. entry.owner.run_id == run_id) (Map.values g.pending), g)

-- After `validateResponse`.
unfoldable pub settle :
    Facade
    → String
    → Response
    → Result InteractionError (Unit {0})
    → Result InteractionError String × Facade
unfolding finish
settle f request_id response (err e) = (err e, f)
settle f request_id response (ok _) = (ok request_id, finish f request_id (responded response))

-- `respond` after `prune`, from the lookup on.
unfoldable pub respond_to :
    Facade
    → String
    → String
    → String
    → Response
    → Option PendingEntry
    → Result InteractionError String × Facade
unfolding settle validate_response
respond_to f run_id request_id principal response none = (err not_pending, f)
respond_to f run_id request_id principal response (some entry) =
    if not (owned_by run_id principal entry)
    then (err owner_mismatch, f)
    else settle f request_id response (validate_response entry.view.details response)

pub respond :
    Env → Facade → String → String → String → Response → Result InteractionError String × Facade
unfolding respond_to prune Map.get
respond env f run_id request_id principal response =
    let g = prune env f in
    respond_to g run_id request_id principal response (Map.get g.pending request_id)

abbrev pub abort_all : Map String PendingEntry → Facade → Facade
abort_all [] f = f
abort_all ((id, entry) ∷ rest) f = abort_all rest (finish f id aborted)

pub dispose : Facade → Facade
unfolding finish
dispose f = abort_all f.pending (record f { disposed = true })

pub record NewRequest : Type 0 where
  pub owner : Owner
  pub agent : String
  pub details : Details
  pub fresh_id : String
  pub now : Stamp

abbrev pub entry_of : NewRequest → PendingEntry
entry_of q = record {
  owner = q.owner;
  view = record {
    request_id = q.fresh_id;
    run_id = q.owner.run_id;
    session_id = q.owner.session_id;
    created_at = q.now;
    details = q.details;
  };
  agent = q.agent;
}

-- `pending.set`, and the abort if the signal fired in the meantime.
unfoldable pub admit : Env → Facade → NewRequest → Facade
unfolding finish Map.set
admit env f q =
    let g = record f { pending = Map.set f.pending q.fresh_id (entry_of q) } in
    if env.is_aborted q.fresh_id then finish g q.fresh_id aborted else g

-- `enqueue`, where the agent's context takes the disposer without an error and without calling it.
pub enqueue : Env → Facade → NewRequest → Result InteractionError String × Facade
unfolding admit prune
enqueue env f q =
    let g = prune env f in
    if leb g.max_pending (Map.size g.pending)
    then (err over_capacity, g)
    else (ok q.fresh_id, admit env g q)

pub data Asked : Type 0 where
  passed_on already_aborted : Asked
  refused : InteractionError → Asked
  queued : String → Asked

-- With an owner: what comes of the request, if the facade is disposed, if the signal has fired, and
-- else by `enqueue`.
unfoldable pub ask_enqueued :
    Bool → Bool → Facade → Result InteractionError String × Facade → Asked × Facade
ask_enqueued true fired f r = (passed_on, f)
ask_enqueued false true f r = (already_aborted, f)
ask_enqueued false false f (ok id, g) = (queued id, g)
ask_enqueued false false f (err e, g) = (refused e, g)

-- `approval` and `question`, from the owner of the request's agent on: without one, or after
-- `dispose`, the request goes to `next`.
unfoldable pub ask_owned :
    Env → Facade → String → Details → String → Stamp → Option Owner → Asked × Facade
unfolding ask_enqueued enqueue
ask_owned env f agent details fresh_id now none = (passed_on, f)
ask_owned env f agent details fresh_id now (some owner) =
    ask_enqueued f.disposed (env.is_aborted fresh_id) f (
      enqueue env f (record {
        owner = owner;
        agent = agent;
        details = details;
        fresh_id = fresh_id;
        now = now;
      }))

pub ask : Env → Facade → String → Details → String → Stamp → Asked × Facade
unfolding ask_owned
ask env f agent details fresh_id now =
    ask_owned env f agent details fresh_id now (env.owner_of agent)
