-- ===== src/Routing/Reuse.antt =====
-- Which sessions `resolve` of src/session-routing/session-routing-facade.ts reuses.
use deepseek_harness_relay_m.Base.{String, ◌≡◌, Bool, true, false, List, string_eq}
use deepseek_harness_relay_m.Base.Map
use deepseek_harness_relay_m.Base.Map.{Map}
use deepseek_harness_relay_m.Base.Result.{Result}
use deepseek_harness_relay_m.Routing.Sessions.{
  SessionWorkspace, SessionSummary, WorkspaceSessionSummary, includes, is_listed,
}

abbrev id_of : SessionSummary → String
id_of s = s.session_id

module _ (same_path : String → String → Bool) (w : SessionWorkspace) (archived : List String) where
  -- An entry of the list that `list` returns.
  abbrev Entry : List String → WorkspaceSessionSummary → Type 0
  Entry ids s =
      (includes ids s.session.session_id ≡ true)
      × (s.archived ≡ includes archived s.session.session_id)
      × (is_listed same_path w s.session ≡ true)

-- The session that an identifier is reused for: the workspace lists it, it is not archived and no
-- subagent's, it lies in the workspace's path, and it does not run.
pub record Reuses (same_path : String → String → Bool) (w : SessionWorkspace)
    (archived : List String) (id : String) : Type 0 where
  pub member : includes w.session_ids id ≡ true
  pub kept : includes archived id ≡ false
  pub session : SessionSummary
  pub same_id : session.session_id ≡ id
  pub listed : is_listed same_path w session ≡ true
  pub idle : session.running ≡ false
