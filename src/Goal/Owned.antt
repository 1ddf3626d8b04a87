-- ===== src/Goal/Owned.antt =====
-- A goal that a handoff has taken is left alone, and a handoff holds prompts back.
use mathlib.Core.Path.{subst}
use pi_shared.Common.{
  Bool, List, Option, String, [], false, if◌then◌else◌, is_some, none, not, opt_str_eq, some,
  str_eq, true, ℕ, ◌||◌, ◌∷◌, ◌≡◌, refl, arith, Bool-cases, inl, inr, sym, ap, str_eq_refl, All,
  ◌∙◌,
}
use pi_shared.Common.Result.{Result, err, ok}
use pi_shared.Goal.State.{GoalState, GoalStatus, Goals, Prompt, send_goal_prompt, timer_fires}
use pi_shared.Goal.Ownership.{BlockReason, SessionView, reactivation_block_reason}
use pi_shared.Goal.AgentEnd.{AgentEnd, agent_end, agent_end_option, is_active}
use pi_shared.Goal.Actions.{
  NewGoal, GoalError, clear_goal, clear_option, is_owned, is_transferring, pause_goal, pause_option,
  resume_goal, resume_option, start_goal, start_checked, update_goal, update_option, has_held,
  is_held, unresolved_ownership,
}
use pi_shared.Goal.Gate.{GateEvent, handoff_begins, handoff_rolls_back, send_held}

-- What can be done to a goal that is there, by the user, the agent or the end of a run.
pub data GoalAction : Type 0 where
  pauses : Bool → ℕ → GoalAction
  resumes : Bool → SessionView → ℕ → GoalAction
  clears : Bool → GoalAction
  starts : SessionView → NewGoal → GoalAction
  updates : SessionView → GoalStatus → String → Option String → ℕ → GoalAction
  ends : AgentEnd → GoalAction

abbrev pub or_same : Goals → Result GoalError Goals → Goals
or_same s (ok t) = t
or_same s (err e) = s

unfoldable pub goal_action : (String → String) → GoalAction → Goals → Goals
goal_action kickoff_hash (pauses oriented now) s = pause_goal oriented now s
goal_action kickoff_hash (resumes oriented v now) s = resume_goal kickoff_hash oriented v now s
goal_action kickoff_hash (clears oriented) s = clear_goal oriented s
goal_action kickoff_hash (starts v n) s = or_same s (start_goal kickoff_hash v n s)
goal_action kickoff_hash (updates v status note evidence now) s =
    or_same s (update_goal kickoff_hash v status note evidence now s)
goal_action kickoff_hash (ends e) s = agent_end e s

unfoldable pub goal_actions : (String → String) → List GoalAction → Goals → Goals
goal_actions kickoff_hash [] s = s
goal_actions kickoff_hash (a ∷ rest) s =
    goal_actions kickoff_hash rest (goal_action kickoff_hash a s)

-- Clearing a goal that was transferred is the one thing that may be done to it here.
abbrev pub is_clear_of : GoalAction → GoalStatus → Bool
is_clear_of (pauses oriented now) status = false
is_clear_of (resumes oriented v now) status = false
is_clear_of (clears oriented) status = not (is_transferring status)
is_clear_of (starts v n) status = false
is_clear_of (updates v status' note evidence now) status = false
is_clear_of (ends e) status = false

owned-active : (t : GoalStatus) → is_owned t ≡ true → is_active t ≡ false
owned-active t h = ground arith

owned-held : (t : GoalStatus) → is_owned t ≡ true → is_held t ≡ true
owned-held t h = ground arith

if_or {ℓ} : {A : Type ℓ} (b c : Bool) (x y : A) → c ≡ true → (if b || c then x else y) ≡ x
if_or b c x y h = ground arith

if_same {ℓ} : {A : Type ℓ} (b : Bool) (x y z : A) → x ≡ z → y ≡ z → (if b then x else y) ≡ z
if_same true x y z h k = h
if_same false x y z h k = k

module _ (kickoff_hash : String → String) where
  start-held :
      (n : NewGoal) (s : Goals) (r : Option BlockReason)
      → has_held s.goal ≡ true
      → or_same s (start_checked kickoff_hash n s r) ≡ s
  start-held n s none h = rw h refl
  start-held n s (some e) h = refl

  start_goal-held :
      (v : SessionView) (n : NewGoal) (s : Goals)
      → has_held s.goal ≡ true
      → or_same s (start_goal kickoff_hash v n s) ≡ s
  unfolding start_goal
  start_goal-held v n s h = elim (Bool-cases (str_eq n.objective "")) [
    | inl e ↦ rw e refl
    | inr e ↦ rw e (start-held n s (unresolved_ownership kickoff_hash v s.goal) h)
  ]

  goal_action-owned :
      (a : GoalAction) (g : GoalState) (s : Goals)
      → s.goal ≡ some g
      → is_owned g.status ≡ true
      → is_clear_of a g.status ≡ false
      → goal_action kickoff_hash a s ≡ s
  unfolding goal_action pause_goal clear_goal resume_goal update_goal agent_end
  goal_action-owned (pauses oriented now) g s h k c =
      if_same oriented s _ s refl (subst (λ o. pause_option now s o ≡ s) (sym h) (rw k refl))
  goal_action-owned (resumes oriented v now) g s h k c = if_same oriented s _ s refl (
      subst (λ o. resume_option kickoff_hash v now s o ≡ s) (sym h)
        (if_or (is_some (reactivation_block_reason kickoff_hash v g.id)) (is_owned g.status) _ _ k))
  goal_action-owned (clears oriented) g s h k c =
      let t : is_transferring g.status ≡ true = ground (arith, c) in
      if_same oriented s _ s refl (subst (λ o. clear_option s o ≡ s) (sym h) (rw t refl))
  goal_action-owned (starts v n) g s h k c =
      start_goal-held v n s (subst (λ o. has_held o ≡ true) (sym h) (owned-held g.status k))
  goal_action-owned (updates v status note evidence now) g s h k c =
      subst (λ o. or_same s (update_option kickoff_hash v status note evidence now s o) ≡ s) (sym h)
        (rw k refl)
  goal_action-owned (ends e) g s h k c =
      subst (λ o. agent_end_option e s o ≡ s) (sym h) (rw (owned-active g.status k) refl)

  -- A goal that a handoff is transferring, or has transferred, is left as it is, and no prompt is
  -- queued for it, by any sequence of pauses, resumes, calls of start_goal and of update_goal, ends
  -- of runs and, while it is transferring, clears.
  pub goal_actions-owned :
      (actions : List GoalAction) (g : GoalState) (s : Goals)
      → s.goal ≡ some g
      → is_owned g.status ≡ true
      → All (λ a. is_clear_of a g.status ≡ false) actions
      → goal_actions kickoff_hash actions s ≡ s
  unfolding goal_actions
  goal_actions-owned [] g s h k c = refl
  goal_actions-owned (a ∷ rest) g s h k c =
      ap (goal_actions kickoff_hash rest) (goal_action-owned a g s h k c.0)
      ∙ goal_actions-owned rest g s h k c.1

-- The timers of several prompts fire, one after another.
unfoldable pub timers_fire : List Prompt → Goals → Goals
timers_fire [] s = s
timers_fire (p ∷ ps) s = timers_fire ps (timer_fires p s)

-- The last of some prompts, or what there was before.
abbrev pub last_prompt : Option Prompt → List Prompt → Option Prompt
last_prompt held [] = held
last_prompt held (p ∷ ps) = last_prompt (some p) ps

abbrev pub with_held : String → Option Prompt → Goals → Goals
with_held attempt held s = record s {
  gate = record s.gate { attempt_id = some attempt; held_prompt = held };
}

timer_fires-held :
    (p : Prompt) (attempt : String) (held : Option Prompt) (s : Goals)
    → s.gate.closed ≡ false
    → str_eq attempt "" ≡ false
    → timer_fires p (with_held attempt held s) ≡ with_held attempt (some p) s
unfolding timer_fires
timer_fires-held p attempt held s h named =
    let before = with_held attempt held s in
    let after = with_held attempt (some p) s in
    let sent = send_goal_prompt p before in
    ap (λ b. if b then before else (if not (str_eq attempt "") then after else sent)) h
    ∙ ap (λ b. if not b then after else sent) named

timers_fire-held :
    (ps : List Prompt) (attempt : String) (held : Option Prompt) (s : Goals)
    → s.gate.closed ≡ false
    → str_eq attempt "" ≡ false
    → timers_fire ps (with_held attempt held s) ≡ with_held attempt (last_prompt held ps) s
unfolding timers_fire
timers_fire-held [] attempt held s h named = refl
timers_fire-held (p ∷ ps) attempt held s h named =
    ap (timers_fire ps) (timer_fires-held p attempt held s h named)
    ∙ timers_fire-held ps attempt (some p) s h named

abbrev let_go : Goals → Goals
let_go s = record s { gate = record s.gate { attempt_id = none; held_prompt = none } }

handoff_begins-held :
    (e : GateEvent) (s : Goals)
    → opt_str_eq (some e.session_id) s.gate.session_id ≡ true
    → handoff_begins e s ≡ with_held e.attempt_id s.gate.held_prompt s
unfolding handoff_begins
handoff_begins-held e s k = ap (λ b. if b then with_held e.attempt_id s.gate.held_prompt s else s) k

handoff_rolls_back-held :
    (e : GateEvent) (held : Option Prompt) (s : Goals)
    → handoff_rolls_back e (with_held e.attempt_id held s) ≡ send_held held (let_go s)
unfolding handoff_rolls_back
handoff_rolls_back-held e held s =
    ap (λ b. if b then send_held held (let_go s) else with_held e.attempt_id held s)
      (str_eq_refl e.attempt_id)

-- The messages once a prompt, if there is one, has been sent.
abbrev pub with_prompt : Option Prompt → List Prompt → List Prompt
with_prompt none sent = sent
with_prompt (some p) sent = p ∷ sent

send_held-open :
    (held : Option Prompt) (s : Goals)
    → s.gate.closed ≡ false
    → send_held held s ≡ record s { sent = with_prompt held s.sent }
unfolding send_goal_prompt
send_held-open none s h = refl
send_held-open (some p) s h = ap (λ b. if b then s else record s { sent = p ∷ s.sent }) h

-- From the begin of a handoff of this session, with a nonempty attempt id, to its rollback, prompts whose timers fire are not
-- sent; the rollback adds to the sent prompts exactly the last of them, or, if none fired, the one
-- that was held before, and ends the attempt and the holding, where the session has not shut down.
pub rollback-sends_last :
    (e : GateEvent) (ps : List Prompt) (s : Goals)
    → s.gate.closed ≡ false
    → opt_str_eq (some e.session_id) s.gate.session_id ≡ true
    → str_eq e.attempt_id "" ≡ false
    → ((timers_fire ps (handoff_begins e s)).sent ≡ s.sent)
      × (handoff_rolls_back e (timers_fire ps (handoff_begins e s)) ≡ record s {
        gate = record s.gate { attempt_id = none; held_prompt = none };
        sent = with_prompt (last_prompt s.gate.held_prompt ps) s.sent;
      })
rollback-sends_last e ps s h k named =
    let fired =
      ap (timers_fire ps) (handoff_begins-held e s k)
      ∙ timers_fire-held ps e.attempt_id s.gate.held_prompt s h named in
    (
      ap (λ t. t.sent) fired,
      ap (handoff_rolls_back e) fired
          ∙ handoff_rolls_back-held e (last_prompt s.gate.held_prompt ps) s
          ∙ send_held-open (last_prompt s.gate.held_prompt ps) (let_go s) h,
    )
