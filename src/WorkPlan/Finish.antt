-- ===== src/WorkPlan/Finish.antt =====
-- The actions that assign to items keep the plan's invariant, and so does any run of the tool.
use pi_shared.WorkPlan.State.{
  done, Clock, PlanItem, WorkPlanState, update_item, find_item, is_active,
}
use pi_shared.WorkPlan.Actions.{
  PlanParams, complete_plan, finish_item, finish_items, release_item, revise, activate_plan,
  block_plan, clear_active, completed_ids, found_ids, is_id, unblock_plan, next_todo, block_item,
  unblock_item,
}
use pi_shared.WorkPlan.Invariant.{
  IsValidPlan, ActiveIs, flush_run-id, ids_of, ids_of-update_item, ids_of-map,
}
use pi_shared.WorkPlan.Steps.{plan_after, update_item-All, set_active-IsValidPlan}
use pi_shared.Common.{
  All, Bool, List, Option, [], arith, false, if◌then◌else◌, none, refl, some, ℕ, ◌==◌, ◌∷◌, ◌≡◌,
  Bool-cases, Option-cases, inl, inr, is_some, map,
}

-- A plan that differs in its items and in `active_id` alone.
pub with_items-IsValidPlan :
    (s s' : WorkPlanState)
    → IsValidPlan s
    → s'.next_id ≡ s.next_id
    → ids_of s'.items ≡ ids_of s.items
    → All (ActiveIs s'.active_id) s'.items
    → IsValidPlan s'
with_items-IsValidPlan s s' v n e a = (rw (n, e) v.0, rw e v.1, a)

-- No item but `id` is active once `active_id` no longer names it.
pub unnamed :
    (a : Option ℕ) (id : ℕ) (item : PlanItem)
    → (item.id == id) ≡ false
    → ActiveIs a item
    → ActiveIs (if is_id a id then none else a) item
unnamed none id item other h = h
unnamed (some b) id item other h = ground arith

pub revise-id :
    (clock : Clock) (params : PlanParams) (item : PlanItem)
    → (revise clock params item).id ≡ item.id
unfolding revise
revise-id clock params item = ground arith

pub finish_item-id :
    (clock : Clock) (params : PlanParams) (item : PlanItem)
    → (finish_item clock params item).id ≡ item.id
unfolding finish_item
finish_item-id clock params item = ground (arith, flush_run-id (clock.flushed item.id) item)

pub finish_item-done :
    (clock : Clock) (params : PlanParams) (item : PlanItem)
    → (finish_item clock params item).status ≡ done
unfolding finish_item
finish_item-done clock params item = ground arith

pub release_item-id :
    (clock : Clock) (ids : List ℕ) (item : PlanItem) → (release_item clock ids item).id ≡ item.id
unfolding release_item
release_item-id clock ids item = ground arith

release_item-ActiveIs :
    (a : Option ℕ) (clock : Clock) (ids : List ℕ) (item : PlanItem)
    → ActiveIs a item
    → ActiveIs a (release_item clock ids item)
unfolding release_item
release_item-ActiveIs a clock ids item h = ground arith

-- One round of the loop of `complete`.
abbrev pub finish_one : Clock → PlanParams → ℕ → WorkPlanState → WorkPlanState
finish_one clock params id s = record s {
  items = update_item id (finish_item clock params) s.items;
  active_id = clear_active id s.active_id;
}

pub finish_one-IsValidPlan :
    (clock : Clock) (params : PlanParams) (id : ℕ) (s : WorkPlanState)
    → IsValidPlan s
    → IsValidPlan (finish_one clock params id s)
finish_one-IsValidPlan clock params id s v =
    with_items-IsValidPlan s (finish_one clock params id s) v refl
      (ids_of-update_item id (finish_item clock params) (finish_item-id clock params) s.items)
      (update_item-All (ActiveIs s.active_id) (ActiveIs (clear_active id s.active_id)) id
        (finish_item clock params)
        (λ item same p h. ground (arith, finish_item-done clock params item))
        (unnamed s.active_id id) s.items v.1 v.2)

pub finish_items-IsValidPlan :
    (clock : Clock) (params : PlanParams) (ids : List ℕ) (s : WorkPlanState)
    → IsValidPlan s
    → IsValidPlan (finish_items clock params ids s)
unfolding finish_items
finish_items-IsValidPlan clock params [] s v = v
finish_items-IsValidPlan clock params (id ∷ ids) s v =
    finish_items-IsValidPlan clock params ids (finish_one clock params id s)
      (finish_one-IsValidPlan clock params id s v)

pub All-map-from {κ} :
    (P Q : PlanItem → Type κ) (f : PlanItem → PlanItem)
    → ((item : PlanItem) → P item → Q (f item))
    → (items : List PlanItem) → All P items
    → All Q (map f items)
All-map-from P Q f h [] p = tt
All-map-from P Q f h (item ∷ items) p = (h item p.0, All-map-from P Q f h items p.1)

-- Once the named items are done, the dependents are released.
abbrev pub released : Clock → PlanParams → List ℕ → WorkPlanState → WorkPlanState
released clock params ids s =
    let s' = finish_items clock params ids s in
    record s' { items = map (release_item clock ids) s'.items }

pub released-IsValidPlan :
    (clock : Clock) (params : PlanParams) (ids : List ℕ) (s : WorkPlanState)
    → IsValidPlan s
    → IsValidPlan (released clock params ids s)
released-IsValidPlan clock params ids s v =
    let s' = finish_items clock params ids s in
    let v' = finish_items-IsValidPlan clock params ids s v in
    with_items-IsValidPlan s' (released clock params ids s) v' refl
      (ids_of-map (release_item clock ids) (release_item-id clock ids) s'.items)
      (All-map-from (ActiveIs s'.active_id) (ActiveIs s'.active_id) (release_item clock ids)
        (release_item-ActiveIs s'.active_id clock ids) s'.items v'.2)

pub complete_plan-IsValidPlan :
    (clock : Clock) (streaming : Bool) (params : PlanParams) (s : WorkPlanState)
    → IsValidPlan s
    → IsValidPlan (plan_after s (complete_plan clock streaming params s))
unfolding complete_plan
complete_plan-IsValidPlan clock streaming params s v =
    elim (Option-cases (found_ids s.items (completed_ids params s))) [
      | inl none_found ↦ rw (plan_after, none_found) v
      | inr (ids, found) ↦
          rw (plan_after, found)
            (let v' = released-IsValidPlan clock params ids s v in
              elim (Bool-cases (is_some (released clock params ids s).active_id)) [
                | inl busy ↦ rw busy v'
                | inr idle ↦
                    rw idle (elim (Option-cases (next_todo (released clock params ids s).items)) [
                      | inl no_next ↦ rw no_next v'
                      | inr (next, some_next) ↦ rw some_next (
                          set_active-IsValidPlan (some next.id) streaming clock
                            (released clock params ids s) v'.0 v'.1)
                    ])
              ])
    ]

pub activate_plan-IsValidPlan :
    (clock : Clock) (streaming : Bool) (params : PlanParams) (s : WorkPlanState)
    → IsValidPlan s
    → IsValidPlan (plan_after s (activate_plan clock streaming params s))
unfolding activate_plan
activate_plan-IsValidPlan clock streaming params s v =
    elim (Option-cases (find_item s.items params.id)) [
      | inl missing ↦ rw (plan_after, missing) v
      | inr (item, found) ↦
          rw (plan_after, found) (set_active-IsValidPlan (some item.id) streaming clock s v.0 v.1)
    ]

block_item-id :
    (clock : Clock) (params : PlanParams) (item : PlanItem)
    → (block_item clock params item).id ≡ item.id
unfolding block_item
block_item-id clock params item = ground (arith, flush_run-id (clock.flushed item.id) item)

block_item-quiet :
    (clock : Clock) (params : PlanParams) (item : PlanItem)
    → is_active (block_item clock params item).status ≡ false
unfolding block_item
block_item-quiet clock params item = ground arith

unblock_item-id :
    (clock : Clock) (params : PlanParams) (item : PlanItem)
    → (unblock_item clock params item).id ≡ item.id
unfolding unblock_item
unblock_item-id clock params item = ground arith

pub unblock_item-quiet :
    (clock : Clock) (params : PlanParams) (item : PlanItem)
    → is_active (unblock_item clock params item).status ≡ false
unfolding unblock_item
unblock_item-quiet clock params item = ground arith

pub block_plan-IsValidPlan :
    (clock : Clock) (params : PlanParams) (s : WorkPlanState)
    → IsValidPlan s
    → IsValidPlan (plan_after s (block_plan clock params s))
unfolding block_plan
block_plan-IsValidPlan clock params s v = elim (Option-cases (find_item s.items params.id)) [
  | inl missing ↦ rw (plan_after, missing) v
  | inr (item, found) ↦
      rw (plan_after, found)
        (with_items-IsValidPlan s
          (record s {
            items = update_item item.id (block_item clock params) s.items;
            active_id = clear_active item.id s.active_id;
          })
          v refl
          (ids_of-update_item item.id (block_item clock params) (block_item-id clock params)
            s.items)
          (update_item-All (ActiveIs s.active_id) (ActiveIs (clear_active item.id s.active_id))
            item.id (block_item clock params)
            (λ i same p h. ground (arith, block_item-quiet clock params i))
            (unnamed s.active_id item.id) s.items v.1 v.2))
]

pub unblock_plan-IsValidPlan :
    (clock : Clock) (params : PlanParams) (s : WorkPlanState)
    → IsValidPlan s
    → IsValidPlan (plan_after s (unblock_plan clock params s))
unfolding unblock_plan
unblock_plan-IsValidPlan clock params s v = elim (Option-cases (find_item s.items params.id)) [
  | inl missing ↦ rw (plan_after, missing) v
  | inr (item, found) ↦
      rw (plan_after, found)
        (with_items-IsValidPlan s
          (record s { items = update_item item.id (unblock_item clock params) s.items }) v refl
          (ids_of-update_item item.id (unblock_item clock params) (unblock_item-id clock params)
            s.items)
          (update_item-All (ActiveIs s.active_id) (ActiveIs s.active_id) item.id
            (unblock_item clock params)
            (λ i same p h. ground (arith, unblock_item-quiet clock params i)) (λ i other p. p)
            s.items v.1 v.2))
]
