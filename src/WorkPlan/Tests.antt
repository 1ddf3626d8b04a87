-- ===== src/WorkPlan/Tests.antt =====
-- Runs of the work plan at concrete states, and the theorems applied there.
use pi_shared.WorkPlan.State.{
  active, blocked, Clock, PlanItem, WorkPlanState, PlanStatus, collapse_spaces, find_item,
  is_active, normalize_title, set_active, normalize_blocked_by,
}
use pi_shared.WorkPlan.Actions.{
  set, complete, ItemInput, PlanParams, complete_plan, completed_ids, found_ids, set_items,
  set_plan, unblock_plan,
}
use pi_shared.WorkPlan.Invariant.{IsValidPlan}
use pi_shared.WorkPlan.Events.{
  called, started, ended, restored, PlanEvent, run_plan, run_plan-IsValidSession, IsValidSession,
}
use pi_shared.WorkPlan.Completion.{IsFinished, complete_plan-IsFinished}
use pi_shared.WorkPlan.Unblock.{unblock_plan-leaves_active_id}
use pi_shared.Common.Result.{ok}
use pi_shared.Common.{
  All, List, Option, String, [], arith, false, find, map, none, refl, some, true, ℕ, ◌∷◌, ◌≡◌,
  any_of, keep_if, trim,
}

abbrev pub clock : Clock
clock = record { reset = 1; acted = 2; stamp = λ _. 3; activated = 4; flushed = λ _. 5; saved = 6 }

abbrev input : String → Option (List ℕ) → ItemInput
input title blocked_by = record {
  title = some title;
  status = none;
  blocked_by = blocked_by;
  note = none;
}

abbrev pub no_params : PlanParams
no_params = record {
  items = none;
  id = none;
  ids = none;
  title = none;
  status = none;
  blocked_by = none;
  note = none;
}

abbrev two_inputs : PlanParams
two_inputs = record no_params {
  items = some (input " write  it " none ∷ input "test it" (some (1 ∷ 1 ∷ 0 ∷ [])) ∷ []);
}

abbrev pub item : ℕ → String → PlanStatus → List ℕ → Option ℕ → PlanItem
item id title status blocked_by begun = record {
  id = id;
  title = title;
  status = status;
  blocked_by = blocked_by;
  note = none;
  created_at = 3;
  updated_at = 3;
  started_at = begun;
  completed_at = none;
  active_ms = none;
  run_started_at = begun;
}

abbrev pub two_items : WorkPlanState
two_items = record {
  items = item 1 "write it" active [] (some 4) ∷ item 2 "test it" blocked (1 ∷ []) none ∷ [];
  next_id = 3;
  active_id = some 1;
  created_at = 1;
  updated_at = 6;
}

pub two_items-IsValidPlan : IsValidPlan two_items
two_items-IsValidPlan =
    ((omega arith, (omega arith, tt)), ((refl, tt), (tt, tt)), ((λ h. refl), ((λ h. cc), tt)))

abbrev session : List PlanEvent
session =
    called set clock false two_inputs
    ∷ started 7 false
    ∷ called complete clock true no_params
    ∷ ended clock false
    ∷ restored 8 1
    ∷ []

titles :
    map (λ (i : PlanItem). i.title) (set_plan clock true two_inputs).items
    ≡ "write it" ∷ "test it" ∷ []
unfolding set_plan set_items normalize_title collapse_spaces set_active trim find
    normalize_blocked_by keep_if any_of
titles = refl

run_plan-IsValidSession_example :
    IsValidSession (run_plan session (record { plan = two_items; saves = [] }))
run_plan-IsValidSession_example =
    run_plan-IsValidSession session (record { plan = two_items; saves = [] })
      (two_items-IsValidPlan, tt)

complete_plan-IsFinished_example :
    (s' : WorkPlanState) × (complete_plan clock true no_params two_items ≡ ok s')
    × IsFinished (1 ∷ []) s'
unfolding found_ids completed_ids find_item find
complete_plan-IsFinished_example =
    complete_plan-IsFinished clock true no_params (1 ∷ []) two_items two_items-IsValidPlan refl

unblock_plan-leaves_active_id_example :
    (s' : WorkPlanState) × (unblock_plan clock (record no_params { id = some 1 }) two_items ≡ ok s')
    × (s'.active_id ≡ some 1)
    × All (λ (i : PlanItem). is_active i.status ≡ false) s'.items
unfolding find_item find
unblock_plan-leaves_active_id_example =
    unblock_plan-leaves_active_id clock (record no_params { id = some 1 })
      (item 1 "write it" active [] (some 4)) two_items two_items-IsValidPlan refl refl
