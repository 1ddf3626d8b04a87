-- ===== src/Goal/State.antt =====
-- extensions/goal/index.ts: the goal, its log, and the gate that holds prompts during a handoff.
use pi_shared.Common.{
  is_truthy, Bool, List, Option, String, [], drop, false, if◌then◌else◌, length, none, some, true,
  ℕ, ◌++◌, ◌-◌, ◌∷◌, get_or,
}

pub data GoalStatus : Type 0 where
  active paused complete blocked budget_limited cleared transferring transferred : GoalStatus

pub record GoalLogEntry : Type 0 where
  pub timestamp : ℕ
  pub status : GoalStatus
  pub note : String
  pub evidence : Option String

pub record GoalState : Type 0 where
  pub id : String
  pub objective : String
  pub status : GoalStatus
  pub created_at : ℕ
  pub updated_at : ℕ
  pub completed_at : Option ℕ
  pub max_turns : ℕ
  pub turns_completed : ℕ
  pub budget_notice_sent : Bool
  pub handoff_id : Option String
  pub handoff_target : Option String
  pub progress_log : List GoalLogEntry
  pub empty_stop_streak : ℕ

abbrev pub default_max_turns : ℕ
default_max_turns = 60

abbrev pub max_log_entries : ℕ
max_log_entries = 50

abbrev pub max_empty_stop_retries : ℕ
max_empty_stop_retries = 2

-- A number as `Math.floor` sees it: none where it is not finite or not above 0.
unfoldable pub normalize_max_turns : Option ℕ → ℕ
normalize_max_turns value = get_or value default_max_turns

unfoldable pub create_goal : String → String → ℕ → String → ℕ → GoalState
create_goal id objective max_turns note now = record {
  id = id;
  objective = objective;
  status = active;
  created_at = now;
  updated_at = now;
  completed_at = none;
  max_turns = max_turns;
  turns_completed = 0;
  budget_notice_sent = false;
  handoff_id = none;
  handoff_target = none;
  progress_log = record { timestamp = now; status = active; note = note; evidence = none } ∷ [];
  empty_stop_streak = 0;
}

-- `xs.slice(-n)`
abbrev pub last_entries : ℕ → List GoalLogEntry → List GoalLogEntry
last_entries n xs = drop (length xs - n) xs

abbrev pub is_terminal : GoalStatus → Bool
is_terminal complete = true
is_terminal blocked = true
is_terminal budget_limited = true
is_terminal cleared = true
is_terminal active = false
is_terminal paused = false
is_terminal transferring = false
is_terminal transferred = false

abbrev pub completion : GoalStatus → ℕ → Option ℕ → Option ℕ
completion status now completed_at =
    if is_terminal status then some (get_or completed_at now) else completed_at

-- The function `record`.
unfoldable pub record_status : GoalStatus → String → Option String → ℕ → GoalState → GoalState
record_status status note evidence now g = record g {
  status = status;
  updated_at = now;
  completed_at = completion status now g.completed_at;
  progress_log = last_entries max_log_entries (
      g.progress_log
      ++ (record { timestamp = now; status = status; note = note; evidence = evidence } ∷ []));
}

-- What a prompt is made of; its wording is not modelled.
pub data Prompt : Type 0 where
  continuation : GoalState → Prompt
  empty_stop_nudge : GoalState → ℕ → Prompt
  summary_stall_nudge : GoalState → Prompt
  budget : GoalState → Prompt

pub record HandoffGate : Type 0 where
  pub session_id : Option String
  pub attempt_id : Option String
  pub held_prompt : Option Prompt
  pub closed : Bool
  -- The prompts that wait for their timer.
  pub timers : List Prompt

-- The extension's state: the goal, the gate, and the prompts that were sent, the last one first.
pub record Goals : Type 0 where
  pub goal : Option GoalState
  pub gate : HandoffGate
  pub sent : List Prompt

unfoldable pub send_goal_prompt : Prompt → Goals → Goals
send_goal_prompt p s = if s.gate.closed then s else record s { sent = p ∷ s.sent }

unfoldable pub queue_goal_prompt : Prompt → Goals → Goals
queue_goal_prompt p s = record s { gate = record s.gate { timers = s.gate.timers ++ (p ∷ []) } }

-- The timer's callback, for a prompt that `timers` held and holds no more.
unfoldable pub timer_fires : Prompt → Goals → Goals
timer_fires p s =
    if s.gate.closed
    then s
    else (if is_truthy s.gate.attempt_id
        then record s { gate = record s.gate { held_prompt = some p } }
        else send_goal_prompt p s)
