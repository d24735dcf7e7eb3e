-- ===== src/Routing/Sessions.antt =====
-- src/session-routing/session-routing-facade.ts and types.ts: the sessions of a workspace, and the one
-- that a run reuses or creates. The Host's replies and `samePath`, which asks the platform, are
-- arguments.
use deepseek_harness_relay_m.Base.{
  ℕ, String, Bool, true, false, not, ◌&&◌, Option, none, some, List, [], ◌∷◌, leb, ◌==◌, string_eq,
  if◌then◌else◌, find, any,
}
use deepseek_harness_relay_m.Base.Map
use deepseek_harness_relay_m.Base.Map.{Map, get-set}
use deepseek_harness_relay_m.Base.Result.{Result, ok, err}
use deepseek_harness_relay_m.StateStore.Merge.{index}

pub record SessionWorkspace : Type 0 where
  pub workspace_id : String
  pub path : String
  pub session_ids : List String

pub record SessionSummary : Type 0 where
  pub session_id : String
  pub updated_at : ℕ
  pub running : Bool
  pub blank : Bool
  pub parent_session_id : Option String
  pub origin : Option String
  pub cwd : Option String
  pub agent_preset : Option String

pub record WorkspaceSessionSummary : Type 0 where
  pub session : SessionSummary
  pub archived : Bool

pub data SessionMode : Type 0 where
  fresh_mode latest_idle : SessionMode

pub record SessionResolveRequest : Type 0 where
  pub session_id : Option String
  pub session_mode : Option SessionMode
  pub agent_preset : Option String
  pub archived_session_ids : List String

pub record SessionResolution : Type 0 where
  pub session_id : String
  pub reused : Bool
  pub agent_preset : Option String

pub record CreatedSession : Type 0 where
  pub session_id : String
  pub agent_preset : Option String

pub data RoutingError {ℓ} (E : Type ℓ) : Type ℓ where
  id_with_mode not_in_workspace is_archived not_available already_running preset_differs :
      RoutingError E
  host : E → RoutingError E

abbrev pub includes : List String → String → Bool
includes ids id = any (λ x. x == id) ids

abbrev pub is_subagent : Option String → Bool
is_subagent none = false
is_subagent (some origin) = origin == "subagent"

abbrev first_of : Option String → Option String → Option String
first_of none b = b
first_of (some a) b = some a

-- `left !== right` on optional texts.
abbrev same_option : Option String → Option String → Bool
same_option none none = true
same_option (some a) (some b) = a == b
same_option _ _ = false

-- `request.agentPreset !== undefined && session.agentPreset !== request.agentPreset`
abbrev pub is_preset_changed : Option String → Option String → Bool
is_preset_changed none actual = false
is_preset_changed (some p) actual = not (same_option actual (some p))

module _ (same_path : String → String → Bool) where
  -- `session.cwd === undefined || samePath(session.cwd, workspace.path)`
  abbrev pub in_path : Option String → String → Bool
  in_path none path = true
  in_path (some cwd) path = same_path cwd path

  -- What the loop of `list` passes over, and `resolve` refuses.
  abbrev pub is_listed : SessionWorkspace → SessionSummary → Bool
  is_listed w s = not (is_subagent s.origin) && in_path s.cwd w.path

  abbrev pub collected :
      SessionWorkspace
      → List String
      → Option SessionSummary
      → List WorkspaceSessionSummary
      → List WorkspaceSessionSummary
  collected w archived none rest = rest
  collected w archived (some s) rest =
      if is_listed w s
      then record { session = s; archived = includes archived s.session_id } ∷ rest
      else rest

  -- The loop of `list`.
  unfoldable pub collect :
      SessionWorkspace
      → List String
      → Map String SessionSummary
      → List String
      → List WorkspaceSessionSummary
  unfolding Map.get
  collect w archived by_id [] = []
  collect w archived by_id (id ∷ ids) =
      collected w archived (Map.get by_id id) (collect w archived by_id ids)

  -- The stable sort by `right.updatedAt - left.updatedAt`.
  unfoldable pub insert :
      WorkspaceSessionSummary → List WorkspaceSessionSummary → List WorkspaceSessionSummary
  insert x [] = x ∷ []
  insert x (y ∷ ys) =
      if leb y.session.updated_at x.session.updated_at then x ∷ y ∷ ys else y ∷ insert x ys

  unfoldable pub sort : List WorkspaceSessionSummary → List WorkspaceSessionSummary
  unfolding insert
  sort [] = []
  sort (x ∷ xs) = insert x (sort xs)

  unfoldable pub list_sessions :
      SessionWorkspace → List String → List SessionSummary → List WorkspaceSessionSummary
  unfolding sort collect index
  list_sessions w archived listed =
      sort (collect w archived (index (λ s. s.session_id) [] listed) w.session_ids)

  abbrev pub is_idle : WorkspaceSessionSummary → Bool
  is_idle s = not s.archived && (not s.session.running && not s.session.blank)

  module _ {ℓ} {E : Type ℓ} where
    -- `createSession` and the resolution from it.
    unfoldable pub create_fresh :
        Option String → Result E CreatedSession → Result (RoutingError E) SessionResolution
    create_fresh preset (err e) = err (host e)
    create_fresh preset (ok c) = ok (record {
      session_id = c.session_id;
      reused = false;
      agent_preset = first_of c.agent_preset preset;
    })

    unfoldable pub reuse_latest :
        Option String
        → Result E CreatedSession
        → Option WorkspaceSessionSummary
        → Result (RoutingError E) SessionResolution
    unfolding create_fresh
    reuse_latest preset created none = create_fresh preset created
    reuse_latest preset created (some latest) = ok (record {
      session_id = latest.session.session_id;
      reused = true;
      agent_preset = latest.session.agent_preset;
    })

    unfoldable pub reuse_found :
        SessionWorkspace
        → Option String
        → String
        → Option SessionSummary
        → Result (RoutingError E) SessionResolution
    reuse_found w preset id none = err not_available
    reuse_found w preset id (some s) =
        if is_subagent s.origin
        then err not_available
        else if not (in_path s.cwd w.path)
        then err not_in_workspace
        else if s.running
        then err already_running
        else if is_preset_changed preset s.agent_preset
        then err preset_differs
        else ok (record { session_id = id; reused = true; agent_preset = s.agent_preset })

    -- `reuseRequested`
    unfoldable pub reuse_requested :
        SessionWorkspace
        → SessionResolveRequest
        → String
        → Result E (List SessionSummary)
        → Result (RoutingError E) SessionResolution
    unfolding reuse_found
    reuse_requested w q id listed =
        if not (includes w.session_ids id)
        then err not_in_workspace
        else if includes q.archived_session_ids id
        then err is_archived
        else (elim listed [
          | err e ↦ err (host e)
          | ok sessions ↦ reuse_found w q.agent_preset id (find (λ s. s.session_id == id) sessions)
        ])

    unfoldable pub resolve_latest :
        SessionWorkspace
        → SessionResolveRequest
        → Result E CreatedSession
        → Result E (List SessionSummary)
        → Result (RoutingError E) SessionResolution
    unfolding reuse_latest list_sessions
    resolve_latest w q created (err e) = err (host e)
    resolve_latest w q created (ok sessions) =
        reuse_latest q.agent_preset created
          (find is_idle (list_sessions w q.archived_session_ids sessions))

    abbrev pub resolve_mode :
        SessionWorkspace
        → SessionResolveRequest
        → Result E CreatedSession
        → Result E (List SessionSummary)
        → Option SessionMode
        → Option String
        → Result (RoutingError E) SessionResolution
    resolve_mode w q created listed (some latest_idle) none = resolve_latest w q created listed
    resolve_mode w q created listed mode preset = create_fresh q.agent_preset created

    abbrev pub resolve_id :
        SessionWorkspace
        → SessionResolveRequest
        → Result E CreatedSession
        → Result E (List SessionSummary)
        → Option String
        → Option SessionMode
        → Result (RoutingError E) SessionResolution
    resolve_id w q created listed (some id) (some mode) = err id_with_mode
    resolve_id w q created listed (some id) none = reuse_requested w q id listed
    resolve_id w q created listed none mode = resolve_mode w q created listed mode q.agent_preset

    -- `listed` and `created` are what the Host would answer.
    unfoldable pub resolve :
        SessionWorkspace
        → SessionResolveRequest
        → Result E (List SessionSummary)
        → Result E CreatedSession
        → Result (RoutingError E) SessionResolution
    unfolding resolve_latest reuse_requested create_fresh
    resolve w q listed created = resolve_id w q created listed q.session_id q.session_mode

    -- `assertIdle`, of the sessions that the Host lists.
    pub assert_idle : String → List SessionSummary → Result (RoutingError E) (Unit {0})
    assert_idle id sessions =
        if any (λ s. s.session_id == id && s.running) sessions then err already_running else ok tt
