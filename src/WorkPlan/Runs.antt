-- ===== src/WorkPlan/Runs.antt =====
-- `update` keeps the plan's invariant, and so does every call of the tool.
use pi_shared.WorkPlan.State.{
  Clock, PlanItem, WorkPlanState, find_item, flush_run, is_active, update_item, empty_plan,
}
use pi_shared.WorkPlan.Actions.{
  set, add, update, activate, complete, block, unblock, clear, list, PlanParams, clear_active,
  is_id, revise, update_plan, PlanAction, PlanError, execute, saved, activate_plan, add_plan,
  block_plan, complete_plan, unblock_plan,
}
use pi_shared.WorkPlan.Invariant.{
  IsValidPlan, ActiveIs, flush_run-id, flush_run-status, ids_of, ids_of-update_item,
}
use pi_shared.WorkPlan.Steps.{
  plan_after, same_id, set_active-IsValidPlan, update_item-All, add_plan-IsValidPlan,
  set_plan-IsValidPlan,
}
use pi_shared.WorkPlan.Finish.{
  with_items-IsValidPlan, revise-id, unnamed, activate_plan-IsValidPlan, block_plan-IsValidPlan,
  complete_plan-IsValidPlan, unblock_plan-IsValidPlan,
}
use pi_shared.Common.{
  All, Bool, Bool-cases, List, Option-cases, [], false, inl, inr, none, refl, some, sym, true, ℕ,
  ◌==◌, ◌∙◌, ◌∷◌, ◌≡◌,
}
use pi_shared.Common.Result.{Result, err, ok}

ids_of-replace :
    (id : ℕ) (item' : PlanItem) (items : List PlanItem)
    → item'.id ≡ id
    → ids_of (update_item id (λ _. item') items) ≡ ids_of items
unfolding update_item
ids_of-replace id item' [] e = refl
ids_of-replace id item' (item ∷ items) e = elim (Bool-cases (item.id == id)) [
  | inl same ↦ rw same (rw (e ∙ sym (same_id item.id id same)) refl)
  | inr other ↦ rw other (rw (ids_of-replace id item' items e) refl)
]

module _ (clock : Clock) (params : PlanParams) (s : WorkPlanState) (v : IsValidPlan s)
    (item : PlanItem) where
  abbrev assigned : WorkPlanState
  assigned = record s { items = update_item item.id (λ _. revise clock params item) s.items }

  abbrev retired : WorkPlanState
  retired = record assigned {
    active_id = none;
    items = update_item item.id (flush_run (clock.flushed item.id)) assigned.items;
  }

  assigned-ids : ids_of assigned.items ≡ ids_of s.items
  assigned-ids =
      ids_of-replace item.id (revise clock params item) s.items (revise-id clock params item)

  assigned-ActiveIs :
      is_active (revise clock params item).status ≡ false
      → All (ActiveIs (clear_active item.id s.active_id)) assigned.items
  assigned-ActiveIs quiet =
      update_item-All (ActiveIs s.active_id) (ActiveIs (clear_active item.id s.active_id)) item.id
        (λ _. revise clock params item) (λ i same p h. cc) (unnamed s.active_id item.id) s.items v.1
        v.2

  retired-IsValidPlan :
      is_active (revise clock params item).status ≡ false
      → is_id s.active_id item.id ≡ true
      → IsValidPlan retired
  retired-IsValidPlan quiet named =
      let t = flush_run (clock.flushed item.id) in
      with_items-IsValidPlan s retired v refl
        (ids_of-update_item item.id t (flush_run-id (clock.flushed item.id)) assigned.items
          ∙ assigned-ids)
        (update_item-All (ActiveIs none) (ActiveIs none) item.id t
          (λ i same p. rw (flush_run-status (clock.flushed item.id) i) (λ on. let no = p on in cc))
          (λ i other p. p) assigned.items (rw assigned-ids v.1)
          ((rw named at assigned-ActiveIs quiet)))

  assigned-IsValidPlan :
      is_active (revise clock params item).status ≡ false
      → is_id s.active_id item.id ≡ false
      → IsValidPlan assigned
  assigned-IsValidPlan quiet named =
      with_items-IsValidPlan s assigned v refl assigned-ids (rw named at assigned-ActiveIs quiet)

update_plan-IsValidPlan :
    (clock : Clock) (streaming : Bool) (params : PlanParams) (s : WorkPlanState)
    → IsValidPlan s
    → IsValidPlan (plan_after s (update_plan clock streaming params s))
unfolding update_plan
update_plan-IsValidPlan clock streaming params s v =
    elim (Option-cases (find_item s.items params.id)) [
      | inl missing ↦ rw (plan_after, missing) v
      | inr (item, found) ↦
          rw (plan_after, found)
            (elim (Bool-cases (is_active (revise clock params item).status)) [
              | inl on ↦ rw on (
                  set_active-IsValidPlan (some item.id) streaming clock
                    (assigned clock params s v item) (rw (assigned-ids clock params s v item) v.0)
                    (rw (assigned-ids clock params s v item) v.1))
              | inr off ↦ rw off (elim (Bool-cases (is_id s.active_id item.id)) [
                | inl named ↦ rw named (retired-IsValidPlan clock params s v item off named)
                | inr other ↦ rw other (assigned-IsValidPlan clock params s v item off other)
              ])
            ])
    ]

saved-IsValidPlan :
    (clock : Clock) (s : WorkPlanState) (r : Result PlanError WorkPlanState)
    → IsValidPlan (plan_after s r)
    → IsValidPlan (plan_after s (saved clock r))
saved-IsValidPlan clock s (ok s') v = v
saved-IsValidPlan clock s (err e) v = v

pub execute-IsValidPlan :
    (action : PlanAction) (clock : Clock) (streaming : Bool) (params : PlanParams)
    (s : WorkPlanState)
    → IsValidPlan s
    → IsValidPlan (plan_after s (execute action clock streaming params s))
unfolding execute
execute-IsValidPlan set clock streaming params s v = set_plan-IsValidPlan clock streaming params
execute-IsValidPlan add clock streaming params s v =
    saved-IsValidPlan clock s (add_plan clock streaming params s)
      (add_plan-IsValidPlan clock streaming params s v)
execute-IsValidPlan update clock streaming params s v =
    saved-IsValidPlan clock s (update_plan clock streaming params s)
      (update_plan-IsValidPlan clock streaming params s v)
execute-IsValidPlan activate clock streaming params s v =
    saved-IsValidPlan clock s (activate_plan clock streaming params s)
      (activate_plan-IsValidPlan clock streaming params s v)
execute-IsValidPlan complete clock streaming params s v =
    saved-IsValidPlan clock s (complete_plan clock streaming params s)
      (complete_plan-IsValidPlan clock streaming params s v)
execute-IsValidPlan block clock streaming params s v =
    saved-IsValidPlan clock s (block_plan clock params s) (block_plan-IsValidPlan clock params s v)
execute-IsValidPlan unblock clock streaming params s v =
    saved-IsValidPlan clock s (unblock_plan clock params s)
      (unblock_plan-IsValidPlan clock params s v)
execute-IsValidPlan clear clock streaming params s v = unfold empty_plan in (tt, tt, tt)
execute-IsValidPlan list clock streaming params s v = v
