-- ===== src/Goal/Tests.antt =====
-- A goal with a of two turns, and the theorems applied to it.
use pi_shared.Common.{
  List, [], arith, codes, false, length, none, refl, some, true, utf16_length, trim, ◌+◌, ◌∷◌, ◌≡◌,
  ◌≤◌, any_of, all_of,
}
use pi_shared.Goal.State.{
  transferring, GoalState, Goals, HandoffGate, Prompt, continuation, create_goal,
  normalize_max_turns, queue_goal_prompt,
}
use pi_shared.Goal.AgentEnd.{
  tool_call, stop, assistant, AgentEnd, Block, agent_end, is_empty_stop, is_summary_stall,
  latest_assistant_message, productive, stalled, turn_ends, assistant_text, matches_summary,
  phrase_at,
}
use pi_shared.Goal.Actions.{NewGoal, make_goal}
use pi_shared.Goal.Gate.{GateEvent, handoff_begins, handoff_rolls_back}
use pi_shared.Goal.Budget.{run_ends, run_ends-bound}
use pi_shared.Goal.Owned.{
  pauses, clears, ends, goal_actions, goal_actions-owned, rollback-sends_last, timers_fire,
}

abbrev gate : HandoffGate
gate = record {
  session_id = some "s1";
  attempt_id = none;
  held_prompt = none;
  closed = false;
  timers = [];
}

abbrev new : NewGoal
new = record { id = "g1"; objective = "ship"; max_turns = some 2; note = "Goal created."; now = 5 }

abbrev goals : GoalState → Goals
goals g = record { goal = some g; gate = gate; sent = [] }

abbrev turn : List Block → AgentEnd
turn content = record {
  oriented = false;
  messages = assistant (record { stop_reason = stop; content = content }) ∷ [];
  counted = 10;
  ended = 11;
}

abbrev empty_turn : AgentEnd
empty_turn = turn []

abbrev work : AgentEnd
work = turn (tool_call "bash" ∷ [])

run_ends-bound_example :
    length
      (run_ends (work ∷ empty_turn ∷ empty_turn ∷ work ∷ []) (goals (make_goal new))).gate.timers
    ≤ 0 + 2 + 2
unfolding create_goal normalize_max_turns
run_ends-bound_example =
    run_ends-bound new (work ∷ empty_turn ∷ empty_turn ∷ work ∷ []) (goals (make_goal new))
      (omega arith) refl

-- Two turns of work use the budget up: a continuation, then the notice.
two_turns_test : length (run_ends (work ∷ work ∷ work ∷ []) (goals (make_goal new))).gate.timers ≡ 2
unfolding run_ends agent_end turn_ends productive stalled queue_goal_prompt latest_assistant_message
    is_empty_stop is_summary_stall all_of create_goal normalize_max_turns utf16_length trim
    assistant_text codes matches_summary
two_turns_test = refl

-- Three empty answers in a row block the goal after two prompts.
three_empty_test :
    length
      (run_ends
        (empty_turn ∷ empty_turn ∷ empty_turn ∷ empty_turn ∷ [])
        (goals (make_goal new))).gate.timers
    ≡ 2
unfolding run_ends agent_end turn_ends productive stalled queue_goal_prompt latest_assistant_message
    is_empty_stop is_summary_stall all_of create_goal normalize_max_turns
three_empty_test = refl

stall_test : matches_summary 0 (codes "So: I'll now wait") ≡ true
unfolding matches_summary codes phrase_at any_of
stall_test = refl

no_stall_test : matches_summary 0 (codes "the next steps") ≡ false
unfolding matches_summary codes phrase_at any_of
no_stall_test = refl

abbrev handed_over : GoalState
handed_over = record (make_goal new) { status = transferring; handoff_id = some "h1" }

goal_actions-owned_example :
    goal_actions (λ text. text) (pauses false 7 ∷ clears false ∷ ends work ∷ []) (goals handed_over)
    ≡ goals handed_over
goal_actions-owned_example =
    goal_actions-owned (λ text. text) (pauses false 7 ∷ clears false ∷ ends work ∷ []) handed_over
      (goals handed_over) refl refl (refl, (refl, (refl, tt)))

abbrev attempt : GateEvent
attempt = record { attempt_id = "a1"; session_id = "s1" }

abbrev prompt : Prompt
prompt = continuation (make_goal new)

rollback-sends_last_example :
    ((timers_fire (prompt ∷ []) (handoff_begins attempt (goals (make_goal new)))).sent ≡ [])
    × (handoff_rolls_back attempt
          (timers_fire (prompt ∷ []) (handoff_begins attempt (goals (make_goal new))))
        ≡ record (goals (make_goal new)) {
          gate = record gate { attempt_id = none; held_prompt = none };
          sent = prompt ∷ [];
        })
rollback-sends_last_example =
    rollback-sends_last attempt (prompt ∷ []) (goals (make_goal new)) refl refl refl
