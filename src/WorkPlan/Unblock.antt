-- ===== src/WorkPlan/Unblock.antt =====
-- What `unblock` does to the item that is active.
use pi_shared.WorkPlan.State.{Clock, PlanItem, WorkPlanState, find_item, is_active, update_item}
use pi_shared.WorkPlan.Invariant.{IsValidPlan, ActiveIs}
use pi_shared.WorkPlan.Steps.{update_item-All}
use pi_shared.WorkPlan.Finish.{unblock_item-quiet}
use pi_shared.Common.{All, Bool-cases, arith, false, inl, inr, refl, some, ◌≡◌}
use pi_shared.WorkPlan.Actions.{PlanParams, unblock_item, unblock_plan}
use pi_shared.Common.Result.{ok}

-- On a plan that satisfies the invariant, a call of `unblock` that finds the item which `active_id`
-- names succeeds, and leaves a plan without an active item whose `active_id` still names that item.
pub unblock_plan-leaves_active_id :
    (clock : Clock) (params : PlanParams) (item : PlanItem) (s : WorkPlanState)
    → IsValidPlan s
    → find_item s.items params.id ≡ some item
    → s.active_id ≡ some item.id
    → (s' : WorkPlanState) × (unblock_plan clock params s ≡ ok s')
      × (s'.active_id ≡ some item.id)
      × All (λ (i : PlanItem). is_active i.status ≡ false) s'.items
unfolding unblock_plan
unblock_plan-leaves_active_id clock params item s v found current =
    rw (unblock_plan, found)
      (
        record s { items = update_item item.id (unblock_item clock params) s.items },
        refl,
        current,
        update_item-All (ActiveIs s.active_id) (λ (i : PlanItem). is_active i.status ≡ false)
            item.id (unblock_item clock params) (λ i same p. unblock_item-quiet clock params i)
            (λ i other p. elim (Bool-cases (is_active i.status)) [
              | inr off ↦ off
              | inl on ↦ let e = p on in ground arith
            ])
            s.items v.1 v.2,
      )
