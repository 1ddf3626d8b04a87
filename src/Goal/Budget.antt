-- ===== src/Goal/Budget.antt =====
-- The autopilot stops: how many prompts the ends of runs can queue.
use mathlib.Core.Path.{subst}
use pi_shared.Common.{
  String, not, sym, Bool, List, [], arith, false, if◌then◌else◌, leb, length, ltb, some, true, ℕ,
  ◌&&◌, ◌+◌, ◌++◌, ◌-◌, ◌<◌, ◌≤◌, ◌∷◌, ◌≡◌, length-append, refl, Bool-cases, inl, inr,
}
use pi_shared.Goal.State.{
  create_goal, empty_stop_nudge, summary_stall_nudge, GoalState, Goals, Prompt, queue_goal_prompt,
  record_status,
}
use pi_shared.Goal.Actions.{NewGoal, make_goal}
use pi_shared.Goal.AgentEnd.{
  AgentEnd, agent_end, agent_end_option, is_active, stalled, productive, turn_ends, count_turn,
  was_aborted, is_empty_stop, is_summary_stall, latest_assistant_message,
}

unfoldable pub run_ends : List AgentEnd → Goals → Goals
run_ends [] s = s
run_ends (e ∷ es) s = run_ends es (agent_end e s)

-- The prompts that wait to be sent.
abbrev pub queued : Goals → ℕ
queued s = length s.gate.timers

-- An active goal has turns left, or is in a row of stalls that began before they were used up.
abbrev pub IsWithin : GoalState → Type 0
IsWithin g =
    is_active g.status ≡ true
    → (g.turns_completed < g.max_turns + g.empty_stop_streak)
      × (g.empty_stop_streak ≤ 2)
      × (g.budget_notice_sent ≡ false)

-- How many prompts a goal can still lead to.
abbrev pub prompts_left : GoalState → ℕ
prompts_left g = if is_active g.status then g.max_turns + 2 - g.turns_completed else 0

-- A turn that is counted, of an active goal that was within its bound before.
record Counted (h : GoalState) : Type 0 where
  still : is_active h.status ≡ true
  bounded : h.turns_completed ≤ h.max_turns + h.empty_stop_streak
  short : h.empty_stop_streak ≤ 2
  unnoticed : h.budget_notice_sent ≡ false

record Ended (h : GoalState) (s t : Goals) : Type 0 where
  left : GoalState
  is_left : t.goal ≡ some left
  kept : IsWithin left
  paid : queued t + prompts_left left ≤ queued s + (h.max_turns + 3 - h.turns_completed)

-- What is left after one more prompt.
one_more :
    (xs : List Prompt) (p : Prompt) (left cost : ℕ)
    → left + 1 ≤ cost
    → length (xs ++ (p ∷ [])) + left ≤ length xs + cost
one_more xs p left cost h = omega (arith, h, length-append xs (p ∷ []))

if_le : (b : Bool) (n m : ℕ) → n ≤ m → (if b then n else 0) ≤ m
if_le b n m h = ground arith

stalled-Ended :
    (note : String) (nudge : GoalState → ℕ → Prompt) (now : ℕ) (h : GoalState) (s : Goals)
    → Counted h
    → Ended h s (stalled note nudge now h s)
unfolding stalled queue_goal_prompt
stalled-Ended note nudge now h s c = elim (Bool-cases (ltb 2 (h.empty_stop_streak + 1))) [
  | inl e ↦ rw e (record { left = _; is_left = refl; kept = λ a. cc; paid = omega arith })
  | inr e ↦ rw e (record {
    left = _;
    is_left = refl;
    kept = λ a. (omega (arith, c.bounded), ground arith, c.unnoticed);
    paid =
        one_more s.gate.timers _ _ (h.max_turns + 3 - h.turns_completed)
          (rw c.still (omega (arith, c.bounded, c.short)));
  })
]

productive-Ended :
    (now : ℕ) (h : GoalState) (s : Goals) → Counted h → Ended h s (productive now h s)
unfolding productive queue_goal_prompt
productive-Ended now h s c = elim (Bool-cases (leb h.max_turns h.turns_completed)) [
  | inl e ↦
      rw (e, c.unnoticed)
        (record {
          left = _;
          is_left = refl;
          kept = λ a. cc;
          paid =
              one_more s.gate.timers _ 0 (h.max_turns + 3 - h.turns_completed)
                (omega (arith, c.bounded, c.short));
        })
  | inr e ↦ rw e (record {
    left = _;
    is_left = refl;
    kept = λ a. (ground arith, omega arith, c.unnoticed);
    paid =
        one_more s.gate.timers _ _ (h.max_turns + 3 - h.turns_completed)
          (rw c.still (omega (arith, c.bounded, c.short)));
  })
]

-- One end of a run, of an active goal within its bound.
record Spends (g : GoalState) (s t : Goals) : Type 0 where
  next : GoalState
  is_next : t.goal ≡ some next
  within : IsWithin next
  spends : queued t + prompts_left next ≤ queued s + prompts_left g

Ended-Spends :
    (now : ℕ) (g : GoalState) (s t : Goals)
    → is_active g.status ≡ true
    → IsWithin g
    → Ended (count_turn now g) s t
    → Spends g s t
Ended-Spends now g s t act w e = record {
  next = e.left;
  is_next = e.is_left;
  within = e.kept;
  spends = rw act (omega (arith, e.paid));
}

Counted-count_turn :
    (now : ℕ) (g : GoalState) → is_active g.status ≡ true → IsWithin g → Counted (count_turn now g)
Counted-count_turn now g act w = record {
  still = act;
  bounded = omega (arith, (w act).0);
  short = (w act).1;
  unnoticed = (w act).2;
}

turn_ends-Spends :
    (e : AgentEnd) (g : GoalState) (s : Goals)
    → is_active g.status ≡ true
    → IsWithin g
    → Spends g s (turn_ends e g s)
unfolding turn_ends record_status
turn_ends-Spends e g s act w =
    let last = latest_assistant_message e.messages in
    let h = count_turn e.counted g in
    let c = Counted-count_turn e.counted g act w in
    elim (Bool-cases (was_aborted last)) [
      | inl a ↦ rw a (record { next = _; is_next = refl; within = λ x. cc; spends = omega arith })
      | inr a ↦ rw a (elim (Bool-cases (is_empty_stop last)) [
        | inl b ↦ rw b (
            Ended-Spends e.counted g s _ act w (
              stalled-Ended "Autopilot stalled: empty model responses." empty_stop_nudge e.ended h s
                c))
        | inr b ↦ rw b (elim (Bool-cases (is_summary_stall last)) [
          | inl d ↦ rw d (
              Ended-Spends e.counted g s _ act w (
                stalled-Ended "Autopilot stalled: summary-only turns."
                  (λ g n. summary_stall_nudge g) e.ended h s c))
          | inr d ↦ rw d (Ended-Spends e.counted g s _ act w (productive-Ended e.ended h s c))
        ])
      ])
    ]

if_Spends :
    (b : Bool) (g : GoalState) (s t : Goals)
    → (b ≡ true → Spends g s t)
    → Spends g s s
    → Spends g s (if b then t else s)
if_Spends true g s t h k = h refl
if_Spends false g s t h k = k

agent_end-Spends :
    (e : AgentEnd) (g : GoalState) (s : Goals)
    → s.goal ≡ some g
    → IsWithin g
    → Spends g s (agent_end e s)
unfolding agent_end
agent_end-Spends e g s h w =
    let stays : Spends g s s = record { next = g; is_next = h; within = w; spends = omega arith } in
    subst (λ o. Spends g s (agent_end_option e s o)) (sym h)
      (if_Spends (is_active g.status && not e.oriented) g s (turn_ends e g s)
        (λ b. turn_ends-Spends e g s (ground arith) w) stays)

run_ends-Spends :
    (es : List AgentEnd) (g : GoalState) (s : Goals)
    → s.goal ≡ some g
    → IsWithin g
    → Spends g s (run_ends es s)
unfolding run_ends
run_ends-Spends [] g s h w = record { next = g; is_next = h; within = w; spends = omega arith }
run_ends-Spends (e ∷ es) g s h w =
    let one = agent_end-Spends e g s h w in
    let rest = run_ends-Spends es one.next (agent_end e s) one.is_next one.within in
    record {
      next = rest.next;
      is_next = rest.is_next;
      within = rest.within;
      spends = omega (arith, one.spends, rest.spends);
    }

-- From a new goal with a budget of at least one turn on, however many runs of the agent end and
-- whatever they said, the autopilot queues at most two prompts more than the budget.
pub run_ends-bound :
    (n : NewGoal) (es : List AgentEnd) (s : Goals)
    → 1 ≤ (make_goal n).max_turns
    → s.goal ≡ some (make_goal n)
    → length (run_ends es s).gate.timers ≤ length s.gate.timers + (make_goal n).max_turns + 2
unfolding create_goal
run_ends-bound n es s pos h =
    let r = run_ends-Spends es (make_goal n) s h (λ a. (omega arith, omega arith, refl)) in
    omega (arith, r.spends)
