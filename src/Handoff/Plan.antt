-- ===== src/Handoff/Plan.antt =====
-- extensions/_shared/handoff-state.ts: the work plan that a handoff takes along, and
-- extensions/self-handoff/index.ts: the check of the saved state before a handoff. The plan is the
-- last one that the work plan extension saved; its fields have the types of that extension's state.
use pi_shared.WorkPlan.State.{PlanItem, WorkPlanState, is_active, is_empty, find_item, Clock}
use pi_shared.WorkPlan.Actions.{PlanParams, unblock_plan, save}
use pi_shared.WorkPlan.Invariant.{IsValidPlan}
use pi_shared.WorkPlan.Unblock.{unblock_plan-leaves_active_id}
use pi_shared.Common.Result.{ok}
use pi_shared.Common.{
  All, Bool, List, Option, [], all_of, any_of, arith, false, if◌then◌else◌, keep_if, ltb, map, max,
  none, not, refl, some, str_eq, true, ℕ, ◌&&◌, ◌==◌, ◌∷◌, ◌≡◌, ◌||◌, is_some,
}

-- `validPlanItem`
unfoldable pub valid_plan_item : PlanItem → Bool
unfolding all_of
valid_plan_item item =
    ltb 0 item.id && not (str_eq item.title "") && all_of (λ id. ltb 0 id) item.blocked_by

abbrev pub active_items : List PlanItem → List PlanItem
active_items = keep_if (λ (item : PlanItem). is_active item.status)

-- `Math.max` over the ids, from 0.
unfoldable pub max_id : List PlanItem → ℕ
max_id [] = 0
max_id (item ∷ items) = max item.id (max_id items)

-- `ids.size !== items.length`, the other way round.
unfoldable pub ids_are_distinct : List PlanItem → Bool
unfolding any_of
ids_are_distinct [] = true
ids_are_distinct (item ∷ items) =
    not (any_of (λ (other : PlanItem). other.id == item.id) items) && ids_are_distinct items

unfoldable pub has_sound_blockers : List PlanItem → PlanItem → Bool
unfolding any_of all_of
has_sound_blockers items item =
    all_of (λ id. not (id == item.id) && any_of (λ (other : PlanItem). other.id == id) items)
      item.blocked_by

abbrev is_only_active : ℕ → List PlanItem → Bool
is_only_active id [] = false
is_only_active id (item ∷ []) = item.id == id
is_only_active id (item ∷ other ∷ items) = false

abbrev pub active_matches : Option ℕ → List PlanItem → Bool
active_matches none items = is_empty (active_items items)
active_matches (some id) items = is_only_active id (active_items items)

abbrev positive_id : Option ℕ → Bool
positive_id none = true
positive_id (some id) = ltb 0 id

unfoldable pub plan_is_coherent : WorkPlanState → Bool
unfolding valid_plan_item max_id ids_are_distinct has_sound_blockers keep_if all_of
plan_is_coherent s =
    all_of valid_plan_item s.items
    && ltb 0 s.next_id
    && positive_id s.active_id
    && ids_are_distinct s.items
    && ltb (max_id s.items) s.next_id
    && all_of (has_sound_blockers s.items) s.items
    && active_matches s.active_id s.items

-- `latestWorkPlanState` on the last plan that was saved.
unfoldable pub latest_work_plan_state : Option WorkPlanState → Option WorkPlanState
latest_work_plan_state none = none
latest_work_plan_state (some s) = if plan_is_coherent s then some s else none

-- The check before `collectTransferState` is called: the handoff is refused where the last goal, or the
-- last plan, was saved but does not load. `goal_malformed` is the goal's half of the test.
unfoldable pub refuses_transfer : Bool → Option WorkPlanState → Bool
refuses_transfer goal_malformed last =
    goal_malformed || is_some last && not (is_some (latest_work_plan_state last))

-- The plan's part of `collectTransferState`.
unfoldable pub collect_work_plan : Option WorkPlanState → Option WorkPlanState
collect_work_plan last = elim (latest_work_plan_state last) [
  | none ↦ none
  | some s ↦
      if is_empty s.items
      then none
      else some (record s {
        items = map (λ (item : PlanItem). record item { run_started_at = none }) s.items;
      })
]

no_active_items :
    (items : List PlanItem)
    → All (λ (i : PlanItem). is_active i.status ≡ false) items
    → active_items items ≡ []
unfolding keep_if
no_active_items [] h = refl
no_active_items (item ∷ items) h = rw (h.0, no_active_items items h.1) refl

incoherent :
    (s : WorkPlanState) (id : ℕ)
    → s.active_id ≡ some id
    → All (λ (i : PlanItem). is_active i.status ≡ false) s.items
    → plan_is_coherent s ≡ false
unfolding plan_is_coherent
incoherent s id h quiet =
    let off : active_matches s.active_id s.items ≡ false =
      rw h (rw (no_active_items s.items quiet) refl) in
    ground arith

refused :
    (goal_malformed : Bool) (s : WorkPlanState)
    → plan_is_coherent s ≡ false
    → refuses_transfer goal_malformed (some s) ≡ true
unfolding refuses_transfer latest_work_plan_state
refused true s h = refl
refused false s h = rw h refl

-- After a call of `unblock` on the item that `active_id` names, on a plan that satisfies the invariant,
-- a handoff is refused, as if the saved plan were malformed, whatever the goal is.
pub unblock_plan-refuses_transfer :
    (clock : Clock) (params : PlanParams) (item : PlanItem) (goal_malformed : Bool)
    (s : WorkPlanState)
    → IsValidPlan s
    → find_item s.items params.id ≡ some item
    → s.active_id ≡ some item.id
    → (s' : WorkPlanState) × (unblock_plan clock params s ≡ ok s')
      × (refuses_transfer goal_malformed (some (save clock s')) ≡ true)
unblock_plan-refuses_transfer clock params item goal_malformed s v found current =
    let (s', done_ok, named, quiet) =
      unblock_plan-leaves_active_id clock params item s v found current in
    let bad = incoherent (save clock s') item.id named quiet in
    (s', done_ok, refused goal_malformed (save clock s') bad)
