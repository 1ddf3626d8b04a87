-- ===== src/WorkPlan/Events.antt =====
-- The plan through a session: the invariant holds after any run of calls and events.
use pi_shared.WorkPlan.Actions.{
  set, add, update, activate, complete, block, unblock, clear, list, PlanError,
}
use pi_shared.Common.Result.{Result, ok, err}
use pi_shared.WorkPlan.State.{
  Clock, PlanItem, WorkPlanState, agent_end, agent_start, find_item, flush_run, is_set,
  restore_items, update_item, empty_plan,
}
use pi_shared.WorkPlan.Invariant.{
  IsValidPlan, ActiveIs, flush_run-id, flush_run-status, ids_of-map, ids_of-update_item,
}
use pi_shared.WorkPlan.Steps.{plan_after, update_item-All}
use pi_shared.WorkPlan.Finish.{with_items-IsValidPlan, All-map-from}
use pi_shared.WorkPlan.Runs.{execute-IsValidPlan}
use pi_shared.Common.{
  Bool, Bool-cases, List, Option-cases, [], any_of, arith, false, if◌then◌else◌, inl, inr, map,
  none, refl, some, true, ℕ, ◌∷◌, ◌≡◌, All, drop, not, suc, zero, ◌&&◌,
}
use pi_shared.WorkPlan.Actions.{PlanAction, PlanParams, execute, PlanError}

-- A session: its plan, and the plans that were saved to its entries, the newest first.
pub record PlanSession : Type 0 where
  pub plan : WorkPlanState
  pub saves : List WorkPlanState

-- What happens to the plan of a session: calls of the tool, the start and the end of an agent run,
-- and a restore, on a branch whose newest saved plan is one of those, or that has none.
pub data PlanEvent : Type 0 where
  called : PlanAction → Clock → Bool → PlanParams → PlanEvent
  started : ℕ → Bool → PlanEvent
  ended : Clock → Bool → PlanEvent
  restored : ℕ → ℕ → PlanEvent

abbrev is_list : PlanAction → Bool
is_list list = true
is_list set = false
is_list add = false
is_list update = false
is_list activate = false
is_list complete = false
is_list block = false
is_list unblock = false
is_list clear = false

abbrev after_call : PlanAction → Result PlanError WorkPlanState → PlanSession → PlanSession
after_call action (err e) s = s
after_call action (ok plan) s = record {
  plan = plan;
  saves = if is_list action then s.saves else plan ∷ s.saves;
}

unfoldable pub restore_plan : ℕ → List WorkPlanState → WorkPlanState
unfolding restore_items empty_plan
restore_plan t [] = empty_plan t
restore_plan t (plan ∷ saves) = record plan { items = restore_items plan.items }

-- The plan is saved if the run of an item ended.
unfoldable pub plan_step : PlanEvent → PlanSession → PlanSession
unfolding execute agent_start agent_end restore_plan
plan_step (called action clock streaming params) s =
    after_call action (execute action clock streaming params s.plan) s
plan_step (started t pending) s = record s { plan = agent_start t pending s.plan }
plan_step (ended clock pending) s =
    let plan = agent_end clock pending s.plan in
    record {
      plan = plan;
      saves =
          if not pending && any_of (λ (item : PlanItem). is_set item.run_started_at) s.plan.items
          then plan ∷ s.saves
          else s.saves;
    }
plan_step (restored t newest) s = record s { plan = restore_plan t (drop newest s.saves) }

unfoldable pub run_plan : List PlanEvent → PlanSession → PlanSession
unfolding plan_step
run_plan [] s = s
run_plan (event ∷ events) s = run_plan events (plan_step event s)

-- A change of the items one by one that keeps their ids and makes none active.
each-IsValidPlan :
    (s s' : WorkPlanState) (f : PlanItem → PlanItem)
    → ((item : PlanItem) → (f item).id ≡ item.id)
    → ((item : PlanItem) → (f item).status ≡ item.status)
    → s'.items ≡ map f s.items
    → s'.next_id ≡ s.next_id
    → s'.active_id ≡ s.active_id
    → IsValidPlan s
    → IsValidPlan s'
each-IsValidPlan s s' f ids statuses items next current v =
    with_items-IsValidPlan s s' v next (rw items (ids_of-map f ids s.items)) (
      rw (items, current)
        (All-map-from (ActiveIs s.active_id) (ActiveIs s.active_id) f
          (λ item h. rw (ids item, statuses item) h) s.items v.2))

agent_start-IsValidPlan :
    (t : ℕ) (pending : Bool) (s : WorkPlanState)
    → IsValidPlan s
    → IsValidPlan (agent_start t pending s)
unfolding agent_start
agent_start-IsValidPlan t true s v = v
agent_start-IsValidPlan t false s v = elim (Option-cases (find_item s.items s.active_id)) [
  | inl missing ↦ rw missing v
  | inr (item, found) ↦ rw found (elim (Bool-cases (is_set item.run_started_at)) [
    | inl running ↦ rw running v
    | inr idle ↦ rw idle (
        with_items-IsValidPlan s
          (record s {
            items = update_item item.id (λ i. record i { run_started_at = some t }) s.items;
          })
          v refl (ids_of-update_item item.id _ (λ i. refl) s.items)
          (update_item-All (ActiveIs s.active_id) (ActiveIs s.active_id) item.id _ (λ i same p. p)
            (λ i other p. p) s.items v.1 v.2))
  ])
]

agent_end-IsValidPlan :
    (clock : Clock) (pending : Bool) (s : WorkPlanState)
    → IsValidPlan s
    → IsValidPlan (agent_end clock pending s)
unfolding agent_end
agent_end-IsValidPlan clock true s v = v
agent_end-IsValidPlan clock false s v =
    elim (Bool-cases (any_of (λ (item : PlanItem). is_set item.run_started_at) s.items)) [
      | inr idle ↦ rw idle v
      | inl running ↦ rw running (
          each-IsValidPlan s
            (record s {
              items = map (λ (item : PlanItem). flush_run (clock.flushed item.id) item) s.items;
              updated_at = clock.saved;
            })
            (λ (item : PlanItem). flush_run (clock.flushed item.id) item)
            (λ item. flush_run-id (clock.flushed item.id) item)
            (λ item. flush_run-status (clock.flushed item.id) item) refl refl refl v)
    ]

empty_plan-IsValidPlan : (t : ℕ) → IsValidPlan (empty_plan t)
unfolding empty_plan
empty_plan-IsValidPlan t = (tt, tt, tt)

restore_plan-IsValidPlan :
    (t : ℕ) (saves : List WorkPlanState)
    → All IsValidPlan saves
    → IsValidPlan (restore_plan t saves)
unfolding restore_plan restore_items
restore_plan-IsValidPlan t [] v = empty_plan-IsValidPlan t
restore_plan-IsValidPlan t (s ∷ saves) v =
    each-IsValidPlan s (record s { items = restore_items s.items })
      (λ (item : PlanItem).
        if is_set item.run_started_at then record item { run_started_at = none } else item)
      (λ item. ground arith) (λ item. ground arith) refl refl refl v.0

-- The plan of a session and every plan that it has saved keep the invariant.
abbrev pub IsValidSession : PlanSession → Type 0
IsValidSession s = IsValidPlan s.plan × All IsValidPlan s.saves

All-drop {ℓ κ} : {A : Type ℓ} (P : A → Type κ) (n : ℕ) (xs : List A) → All P xs → All P (drop n xs)
All-drop P zero xs h = h
All-drop P (suc n) [] h = h
All-drop P (suc n) (x ∷ xs) h = All-drop P n xs h.1

after_call-IsValidSession :
    (action : PlanAction) (r : Result PlanError WorkPlanState) (s : PlanSession)
    → IsValidPlan (plan_after s.plan r)
    → All IsValidPlan s.saves
    → IsValidSession (after_call action r s)
after_call-IsValidSession action (err e) s v saves = (v, saves)
after_call-IsValidSession action (ok plan) s v saves = elim (Bool-cases (is_list action)) [
  | inl lists ↦ rw lists (v, saves)
  | inr acts ↦ rw acts (v, (v, saves))
]

plan_step-IsValidSession :
    (event : PlanEvent) (s : PlanSession) → IsValidSession s → IsValidSession (plan_step event s)
unfolding plan_step
plan_step-IsValidSession (called action clock streaming params) s v =
    after_call-IsValidSession action (execute action clock streaming params s.plan) s
      (execute-IsValidPlan action clock streaming params s.plan v.0) v.1
plan_step-IsValidSession (started t pending) s v =
    (agent_start-IsValidPlan t pending s.plan v.0, v.1)
plan_step-IsValidSession (ended clock pending) s v =
    let w = agent_end-IsValidPlan clock pending s.plan v.0 in
    elim (Bool-cases
      (not pending && any_of (λ (item : PlanItem). is_set item.run_started_at) s.plan.items)) [
        | inl saved_run ↦ rw saved_run (w, (w, v.1))
        | inr idle ↦ rw idle (w, v.1)
      ]
plan_step-IsValidSession (restored t newest) s v = (
  restore_plan-IsValidPlan t (drop newest s.saves) (All-drop IsValidPlan newest s.saves v.1),
  v.1,
)

-- After any run of calls of the tool, agent starts, agent ends and restores of saved plans that begins
-- with a session whose plans have distinct ids below the next one, and no active item but the one that
-- `active_id` names, the session has only such plans again; so at most one item is active.
pub run_plan-IsValidSession :
    (events : List PlanEvent) (s : PlanSession)
    → IsValidSession s
    → IsValidSession (run_plan events s)
unfolding run_plan
run_plan-IsValidSession [] s v = v
run_plan-IsValidSession (event ∷ events) s v =
    run_plan-IsValidSession events _ (plan_step-IsValidSession event s v)
