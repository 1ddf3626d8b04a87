-- ===== src/Goal/Gate.antt =====
-- extensions/goal/index.ts: the listeners of a handoff's events, and the end of the session.
use pi_shared.Common.{
  opt_str_eq, ◌&&◌, Bool, Option, String, [], false, if◌then◌else◌, none, some, str_eq, true, ℕ,
  ◌||◌,
}
use pi_shared.Goal.State.{
  active, paused, complete, blocked, budget_limited, cleared, transferring, transferred, GoalState,
  GoalStatus, Goals, Prompt, record_status, send_goal_prompt,
}
use pi_shared.Goal.Ownership.{is_oriented, Lookup, latest_handoff_for_request, SessionView}

-- `HandoffChildFailureEvent`
pub record ChildFailure : Type 0 where
  pub request_id : String
  pub session_id : String
  pub goal_id : Option String

abbrev pub is_paused : GoalStatus → Bool
is_paused paused = true
is_paused active = false
is_paused complete = false
is_paused blocked = false
is_paused budget_limited = false
is_paused cleared = false
is_paused transferring = false
is_paused transferred = false

-- Whether the records show that the failure is that of this session, the child.
abbrev pub is_own_failure : SessionView → ChildFailure → Lookup → Bool
is_own_failure v e l = l.malformed || elim l.found [
  | none ↦ false
  | some r ↦
      is_oriented r.status
      && str_eq r.request.id e.request_id
      && opt_str_eq r.request.goal_id e.goal_id
      && opt_str_eq r.target_session_id (some e.session_id)
      && opt_str_eq r.target_session_file v.session_file
]

abbrev pub paused_by_failure : ℕ → GoalState → GoalState
paused_by_failure now g =
    if is_paused g.status
    then g
    else record_status paused "Paused because self-handoff parent ownership could not be finalized."
        none now (record g { completed_at = none; budget_notice_sent = false })

abbrev pub child_fails_option :
    (String → String) → ChildFailure → ℕ → Goals → Option SessionView → Option GoalState → Goals
child_fails_option kickoff_hash e now s none goal = s
child_fails_option kickoff_hash e now s (some v) none = s
child_fails_option kickoff_hash e now s (some v) (some g) =
    if opt_str_eq (some e.session_id) s.gate.session_id
      && opt_str_eq (some g.id) e.goal_id
      && is_own_failure v e (latest_handoff_for_request kickoff_hash v.entries e.request_id)
    then record s {
      goal = some (paused_by_failure now g);
      gate = record s.gate { timers = []; attempt_id = none; held_prompt = none };
    }
    else s

-- The listener of SELF_HANDOFF_CHILD_FAILURE_EVENT, with the current context, if there is one.
unfoldable pub child_fails :
    (String → String) → ChildFailure → ℕ → Option SessionView → Goals → Goals
child_fails kickoff_hash e now context s = child_fails_option kickoff_hash e now s context s.goal

-- `HandoffGateEvent`
pub record GateEvent : Type 0 where
  pub attempt_id : String
  pub session_id : String

-- The listener of SELF_HANDOFF_BEGIN_EVENT.
unfoldable pub handoff_begins : GateEvent → Goals → Goals
handoff_begins e s =
    if opt_str_eq (some e.session_id) s.gate.session_id
    then record s { gate = record s.gate { attempt_id = some e.attempt_id } }
    else s

abbrev pub send_held : Option Prompt → Goals → Goals
send_held none s = s
send_held (some p) s = send_goal_prompt p s

-- The listener of SELF_HANDOFF_ROLLBACK_EVENT.
unfoldable pub handoff_rolls_back : GateEvent → Goals → Goals
handoff_rolls_back e s =
    if opt_str_eq (some e.attempt_id) s.gate.attempt_id
    then send_held s.gate.held_prompt
        (record s { gate = record s.gate { attempt_id = none; held_prompt = none } })
    else s

-- `session_shutdown`
unfoldable pub session_shutdown : Goals → Goals
session_shutdown s = record s {
  gate = record s.gate { closed = true; timers = []; attempt_id = none; held_prompt = none };
}
