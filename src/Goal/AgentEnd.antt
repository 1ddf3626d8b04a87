-- ===== src/Goal/AgentEnd.antt =====
-- extensions/goal/index.ts: the `agent_end` handler, which decides whether the autopilot goes on.
use Prim.Native.String.{◌++◌ as text_append}
use pi_shared.Common.{
  Bool, List, Option, String, [], all_of, any_of, false, if◌then◌else◌, leb, ltb, none, not, some,
  str_eq, trim, true, utf16_length, ℕ, ◌&&◌, ◌+◌, ◌++◌, ◌||◌, ◌∷◌, codes, length, ◌==◌,
}
use pi_shared.Goal.State.{
  complete, cleared, transferring, transferred, active, paused, blocked, budget_limited, GoalState,
  GoalStatus, Goals, Prompt, continuation, empty_stop_nudge, summary_stall_nudge, budget,
  max_empty_stop_retries, queue_goal_prompt, record_status,
}

-- A block of an assistant message.
pub data Block : Type 0 where
  tool_call : String → Block
  text_block : String → Block
  other_block : Block

pub data StopReason : Type 0 where
  stop : StopReason
  aborted : StopReason
  other_reason : StopReason

pub record AssistantLike : Type 0 where
  pub stop_reason : StopReason
  pub content : List Block

-- A message of a run; only the assistant's are looked at.
pub data Message : Type 0 where
  assistant : AssistantLike → Message
  other_message : Message

-- `latestAssistantMessage`
unfoldable pub latest_assistant_message : List Message → Option AssistantLike
latest_assistant_message [] = none
latest_assistant_message (m ∷ ms) =
    let rest = latest_assistant_message ms in
    elim rest [ some a ↦ some a | none ↦ elim m [ assistant a ↦ some a | other_message ↦ none ] ]

abbrev pub is_stop : StopReason → Bool
is_stop stop = true
is_stop aborted = false
is_stop other_reason = false

abbrev pub is_aborted : StopReason → Bool
is_aborted aborted = true
is_aborted stop = false
is_aborted other_reason = false

abbrev pub is_blank_block : Block → Bool
is_blank_block (tool_call name) = false
is_blank_block (text_block text) = not (ltb 0 (utf16_length (trim text)))
is_blank_block other_block = true

unfoldable pub is_empty_stop : Option AssistantLike → Bool
is_empty_stop none = false
is_empty_stop (some a) = is_stop a.stop_reason && all_of is_blank_block a.content

abbrev pub is_bookkeeping : String → Bool
is_bookkeeping name = str_eq name "update_goal" || str_eq name "work_plan" || str_eq name "ask_user"

unfoldable pub tool_call_names : List Block → List String
tool_call_names [] = []
tool_call_names (tool_call name ∷ bs) = name ∷ tool_call_names bs
tool_call_names (text_block text ∷ bs) = tool_call_names bs
tool_call_names (other_block ∷ bs) = tool_call_names bs

-- The texts of the blocks, each with a line feed.
unfoldable pub assistant_text : List Block → String
assistant_text [] = ""
assistant_text (text_block text ∷ bs) = text_append (text_append text "\n") (assistant_text bs)
assistant_text (tool_call name ∷ bs) = assistant_text bs
assistant_text (other_block ∷ bs) = assistant_text bs

-- `\w`
abbrev pub is_word : ℕ → Bool
is_word c =
    leb b'a' c && leb c b'z' || leb b'A' c && leb c b'Z' || leb b'0' c && leb c b'9' || c == b'_'

abbrev pub lower : ℕ → ℕ
lower c = if leb b'A' c && leb c b'Z' then c + 32 else c

-- Whether a phrase, in lower case, stands at the head of a text and ends there at a word boundary.
unfoldable pub phrase_at : List ℕ → List ℕ → Bool
phrase_at [] [] = true
phrase_at [] (c ∷ cs) = not (is_word c)
phrase_at (p ∷ ps) [] = false
phrase_at (p ∷ ps) (c ∷ cs) = p == lower c && phrase_at ps cs

abbrev pub summary_phrases : List String
summary_phrases =
    "next step" ∷ "recommended next step" ∷ "what remains" ∷ "i should" ∷ "i'll now" ∷ "i will now"
    ∷ "i can now" ∷ "to finish" ∷ "remaining cleanup" ∷ "to do next" ∷ "let me know if" ∷ []

-- `summaryPattern.test`, behind the unit `before`.
unfoldable pub matches_summary : ℕ → List ℕ → Bool
matches_summary before [] = false
matches_summary before (c ∷ cs) =
    not (is_word before) && any_of (λ phrase. phrase_at (codes phrase) (c ∷ cs)) summary_phrases
    || matches_summary c cs

unfoldable pub is_summary_stall : Option AssistantLike → Bool
is_summary_stall none = false
is_summary_stall (some a) =
    let names = tool_call_names a.content in
    let text = assistant_text a.content in
    leb 200 (utf16_length (trim text))
    && matches_summary 0 (codes text)
    && (not (ltb 0 (length names)) || all_of is_bookkeeping names)

-- What the handler meets: whether an orientation holds the goal back, the messages of the run, and
-- the clock where it is read.
pub record AgentEnd : Type 0 where
  pub oriented : Bool
  pub messages : List Message
  pub counted : ℕ
  pub ended : ℕ

abbrev pub with_goal : GoalState → Goals → Goals
with_goal g s = record s { goal = some g }

-- A goal whose status is set with an entry that is added to the whole log.
abbrev pub set_status : GoalStatus → String → ℕ → GoalState → GoalState
set_status status note now g = record g {
  status = status;
  updated_at = now;
  progress_log =
      g.progress_log
      ++ (record { timestamp = now; status = status; note = note; evidence = none } ∷ []);
}

abbrev pub count_turn : ℕ → GoalState → GoalState
count_turn now g = record g { turns_completed = g.turns_completed + 1; updated_at = now }

-- A turn that stalls: another prompt, or the goal is blocked.
unfoldable pub stalled : String → (GoalState → ℕ → Prompt) → ℕ → GoalState → Goals → Goals
stalled note nudge now g s =
    let streak = g.empty_stop_streak + 1 in
    let h : GoalState = record g { empty_stop_streak = streak } in
    if ltb max_empty_stop_retries streak
    then with_goal (set_status blocked note now h) s
    else queue_goal_prompt (nudge h streak) (with_goal h s)

-- A turn that has done something.
unfoldable pub productive : ℕ → GoalState → Goals → Goals
productive now g s =
    let h : GoalState = record g { empty_stop_streak = 0 } in
    let limited : GoalState = record (set_status budget_limited "Goal turn budget reached." now h) {
      budget_notice_sent = true;
    } in
    if leb h.max_turns h.turns_completed
    then (if h.budget_notice_sent
        then with_goal h s
        else queue_goal_prompt (budget limited) (with_goal limited s))
    else queue_goal_prompt (continuation h) (with_goal h s)

abbrev pub was_aborted : Option AssistantLike → Bool
was_aborted none = false
was_aborted (some a) = is_aborted a.stop_reason

unfoldable pub turn_ends : AgentEnd → GoalState → Goals → Goals
turn_ends e g s =
    let last = latest_assistant_message e.messages in
    let h = count_turn e.counted g in
    if was_aborted last
    then with_goal
        (record_status paused "Paused because the user interrupted the active turn." none e.ended g)
        s
    else (if is_empty_stop last
        then stalled "Autopilot stalled: empty model responses." empty_stop_nudge e.ended h s
        else (if is_summary_stall last
            then stalled "Autopilot stalled: summary-only turns." (λ g n. summary_stall_nudge g)
                e.ended h s
            else productive e.ended h s))

abbrev pub is_active : GoalStatus → Bool
is_active active = true
is_active paused = false
is_active complete = false
is_active blocked = false
is_active budget_limited = false
is_active cleared = false
is_active transferring = false
is_active transferred = false

abbrev pub agent_end_option : AgentEnd → Goals → Option GoalState → Goals
agent_end_option e s none = s
agent_end_option e s (some g) = if is_active g.status && not e.oriented then turn_ends e g s else s

unfoldable pub agent_end : AgentEnd → Goals → Goals
agent_end e s = agent_end_option e s s.goal
