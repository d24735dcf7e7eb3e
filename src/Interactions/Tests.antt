-- ===== src/Interactions/Tests.antt =====
-- Runs of src/user-interactions/user-interaction-facade.ts: an approval is asked for and granted.
use deepseek_harness_relay_m.Base.{◌≤◌, refl, false, none, some, List, [], ◌∷◌}
use deepseek_harness_relay_m.Base.Map
use deepseek_harness_relay_m.Base.Stamp.{iso}
use deepseek_harness_relay_m.Interactions.{Owner, Facade, Env, PendingEntry, responded, respond}
use deepseek_harness_relay_m.Interactions.Answers.{
  allowed_once, explicit_user_approval, Answer, Response, approval, QuestionItem, Details,
  asks_approval,
}
use deepseek_harness_relay_m.Interactions.Once.{
  Call, asks, responds, disposes, run, opened, times_settled, times_asked, settled_once,
}
use deepseek_harness_relay_m.Interactions.Responses.{IsAnswer, respond-IsAnswer}

abbrev owner : Owner
owner = record { run_id = "r1"; session_id = "c1"; principal = "client" }

abbrev env : Env
env = record { owner_of = λ agent. some owner; is_aborted = λ id. false }

abbrev details : Details
details = asks_approval "bash" none none

abbrev grant : Response
grant = approval allowed_once (some explicit_user_approval) "the user said yes"

abbrev calls : List Call
calls =
    asks env "agent" details "q1" (iso 1)
    ∷ responds env "r1" "q1" "client" grant
    ∷ responds env "r1" "q1" "client" grant
    ∷ disposes
    ∷ []

settled_once_example :
    (times_settled "q1" (run calls (opened 4)).settled ≤ times_asked "q1" calls)
    × (Map.size (run calls (opened 4)).pending ≤ 4)
settled_once_example = settled_once 4 calls "q1"

abbrev entry : PendingEntry
entry = record {
  owner = owner;
  view = record {
    request_id = "q1";
    run_id = "r1";
    session_id = "c1";
    created_at = iso 1;
    details = details;
  };
  agent = "agent";
}

abbrev waiting : Facade
waiting = record { pending = ("q1", entry) ∷ []; disposed = false; max_pending = 4; settled = [] }

abbrev granted : Facade
granted = record {
  pending = [];
  disposed = false;
  max_pending = 4;
  settled = ("q1", responded grant) ∷ [];
}

respond-IsAnswer_example : IsAnswer env waiting "r1" "q1" "client" grant granted
unfolding respond
respond-IsAnswer_example = respond-IsAnswer env waiting granted "r1" "q1" "client" "q1" grant refl

abbrev questions : List QuestionItem
questions = record { id = "a"; options = "x" ∷ "y" ∷ []; multi_select = false } ∷ []

abbrev answers : List Answer
answers = record { id = "a"; selected = "y" ∷ []; custom = none } ∷ []
