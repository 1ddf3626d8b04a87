-- ===== src/Goal/Actions.antt =====
-- extensions/goal/index.ts: the `goal` command, and the tools start_goal and update_goal.
use pi_shared.Common.{
  ◌&&◌, Bool, Option, String, false, if◌then◌else◌, is_some, none, some, str_eq, true, ℕ, ◌||◌,
}
use pi_shared.Common.Result.{Result, err, ok}
use pi_shared.Goal.State.{
  active, paused, complete, blocked, budget_limited, cleared, transferring, transferred, GoalState,
  GoalStatus, Goals, continuation, create_goal, normalize_max_turns, queue_goal_prompt,
  record_status,
}
use pi_shared.Goal.AgentEnd.{is_active, set_status, with_goal}
use pi_shared.Goal.Ownership.{
  BlockReason, SessionView, outbound_goal_ownership, reactivation_block_reason,
  unresolved_child_ownership,
}

-- A goal that a self-handoff flow owns.
abbrev pub is_owned : GoalStatus → Bool
is_owned transferring = true
is_owned transferred = true
is_owned active = false
is_owned paused = false
is_owned complete = false
is_owned blocked = false
is_owned budget_limited = false
is_owned cleared = false

abbrev pub pause_option : ℕ → Goals → Option GoalState → Goals
pause_option now s none = s
pause_option now s (some g) =
    if is_owned g.status then s else with_goal (record_status paused "Paused by user." none now g) s

-- What the `goal` command does, unless an orientation holds the goal back.
abbrev pub unless_oriented : Bool → Goals → Goals → Goals
unless_oriented oriented s t = if oriented then s else t

-- `/goal pause`
unfoldable pub pause_goal : Bool → ℕ → Goals → Goals
pause_goal oriented now s = unless_oriented oriented s (pause_option now s s.goal)

abbrev pub resumed : ℕ → GoalState → GoalState
resumed now g = record (set_status active "Resumed by user." now g) {
  completed_at = none;
  budget_notice_sent = false;
}

abbrev pub is_transferring : GoalStatus → Bool
is_transferring transferring = true
is_transferring transferred = false
is_transferring active = false
is_transferring paused = false
is_transferring complete = false
is_transferring blocked = false
is_transferring budget_limited = false
is_transferring cleared = false

abbrev pub clear_option : Goals → Option GoalState → Goals
clear_option s none = s
clear_option s (some g) = if is_transferring g.status then s else record s { goal = none }

-- `/goal clear`; the record of the cleared goal is saved only.
unfoldable pub clear_goal : Bool → Goals → Goals
clear_goal oriented s = unless_oriented oriented s (clear_option s s.goal)

abbrev pub goal_id_of : Option GoalState → Option String
goal_id_of none = none
goal_id_of (some g) = some g.id

-- What a new goal is made of.
pub record NewGoal : Type 0 where
  pub id : String
  pub objective : String
  pub max_turns : Option ℕ
  pub note : String
  pub now : ℕ

abbrev pub make_goal : NewGoal → GoalState
make_goal n = create_goal n.id n.objective (normalize_max_turns n.max_turns) n.note n.now

abbrev pub or_else : Option BlockReason → Option BlockReason → Option BlockReason
or_else none b = b
or_else (some r) b = some r

pub data GoalError : Type 0 where
  no_goal : GoalError
  no_objective : GoalError
  ownership : BlockReason → GoalError
  goal_exists : GoalError
  owned_by_handoff : GoalError

-- `goal.status` is active, paused, transferring or transferred.
abbrev pub is_held : GoalStatus → Bool
is_held active = true
is_held paused = true
is_held transferring = true
is_held transferred = true
is_held complete = false
is_held blocked = false
is_held budget_limited = false
is_held cleared = false

abbrev pub has_held : Option GoalState → Bool
has_held none = false
has_held (some g) = is_held g.status

module _ (kickoff_hash : String → String) where
  abbrev pub resume_option : SessionView → ℕ → Goals → Option GoalState → Goals
  resume_option v now s none = s
  resume_option v now s (some g) =
      if is_some (reactivation_block_reason kickoff_hash v g.id) || is_owned g.status
      then s
      else queue_goal_prompt (continuation (resumed now g)) (with_goal (resumed now g) s)

  -- `/goal resume`
  unfoldable pub resume_goal : Bool → SessionView → ℕ → Goals → Goals
  resume_goal oriented v now s = unless_oriented oriented s (resume_option v now s s.goal)

  -- `unresolvedChildOwnership(ctx, goal?.id) ?? outboundGoalOwnership(ctx, goal?.id)`
  unfoldable pub unresolved_ownership : SessionView → Option GoalState → Option BlockReason
  unresolved_ownership v goal =
      or_else (unresolved_child_ownership kickoff_hash v (goal_id_of goal))
        (outbound_goal_ownership kickoff_hash v (goal_id_of goal))

  -- `/goal <objective>`, its arguments parsed.
  unfoldable pub new_goal : Bool → SessionView → NewGoal → Goals → Goals
  new_goal oriented v n s = unless_oriented oriented s (
      if str_eq n.objective "" || is_some (unresolved_ownership v s.goal)
      then s
      else queue_goal_prompt (continuation (make_goal n)) (with_goal (make_goal n) s))

  abbrev pub start_checked : NewGoal → Goals → Option BlockReason → Result GoalError Goals
  start_checked n s (some r) = err (ownership r)
  start_checked n s none =
      if has_held s.goal then err goal_exists else ok (with_goal (make_goal n) s)

  -- The tool start_goal.
  unfoldable pub start_goal : SessionView → NewGoal → Goals → Result GoalError Goals
  start_goal v n s =
      if str_eq n.objective ""
      then err no_objective
      else start_checked n s (unresolved_ownership v s.goal)

  abbrev pub update_checked :
      GoalStatus
      → String
      → Option String
      → ℕ
      → GoalState
      → Goals
      → Option BlockReason
      → Result GoalError Goals
  update_checked status note evidence now g s (some r) = err (ownership r)
  update_checked status note evidence now g s none =
      ok (with_goal (record_status status note evidence now g) s)

  abbrev pub update_option :
      SessionView
      → GoalStatus
      → String
      → Option String
      → ℕ
      → Goals
      → Option GoalState
      → Result GoalError Goals
  update_option v status note evidence now s none = err no_goal
  update_option v status note evidence now s (some g) =
      if is_owned g.status
      then err owned_by_handoff
      else update_checked status note evidence now g s
          (if is_active status then reactivation_block_reason kickoff_hash v g.id else none)

  -- The tool update_goal.
  unfoldable pub update_goal :
      SessionView → GoalStatus → String → Option String → ℕ → Goals → Result GoalError Goals
  update_goal v status note evidence now s = update_option v status note evidence now s s.goal

  abbrev pub before_start_option : SessionView → ℕ → Goals → Option GoalState → Goals
  before_start_option v now s none = s
  before_start_option v now s (some g) =
      if is_active g.status && is_some (reactivation_block_reason kickoff_hash v g.id)
      then with_goal (record_status paused "Paused because of its ownership." none now g) s
      else s

  -- `before_agent_start`, with the goal that `restore` reads.
  unfoldable pub before_agent_start : SessionView → ℕ → Option GoalState → Goals → Goals
  before_agent_start v now restored s =
      before_start_option v now (record s { goal = restored }) restored
