-- ===== src/WorkPlan/Invariant.antt =====
-- The plan keeps its items' ids distinct and has at most one active item, the one that `activeId`
-- names.
use pi_shared.WorkPlan.State.{
  Clock, PlanItem, WorkPlanState, activate_item, flush_run, is_active, update_item, waiting_status,
}
use pi_shared.Common.{
  All, Bool, Bool-cases, List, Option, [], arith, false, inl, inr, map, none, refl, some, true, ℕ,
  ◌<◌, ◌==◌, ◌∷◌, ◌≡◌,
}

-- The next id is above every id, and no two items share one.
abbrev pub NotIn : ℕ → List ℕ → Type 0
NotIn id = All (λ i. (i == id) ≡ false)

abbrev pub AllDistinct : List ℕ → Type 0
AllDistinct [] = Unit
AllDistinct (id ∷ ids) = NotIn id ids × AllDistinct ids

abbrev pub Below : ℕ → List ℕ → Type 0
Below n = All (λ i. i < n)

abbrev pub ids_of : List PlanItem → List ℕ
ids_of = map (λ (item : PlanItem). item.id)

-- An active item is the one that `active_id` names.
abbrev pub ActiveIs : Option ℕ → PlanItem → Type 0
ActiveIs a item = is_active item.status ≡ true → a ≡ some item.id

abbrev pub IsValidPlan : WorkPlanState → Type 0
IsValidPlan s =
    Below s.next_id (ids_of s.items)
    × AllDistinct (ids_of s.items)
    × All (ActiveIs s.active_id) s.items

pub All-map {κ} :
    (P : PlanItem → Type κ) (f : PlanItem → PlanItem)
    → ((item : PlanItem) → P (f item))
    → (items : List PlanItem) → All P (map f items)
All-map P f h [] = tt
All-map P f h (item ∷ items) = (h item, All-map P f h items)

pub ids_of-map :
    (f : PlanItem → PlanItem)
    → ((item : PlanItem) → (f item).id ≡ item.id)
    → (items : List PlanItem) → ids_of (map f items) ≡ ids_of items
ids_of-map f h [] = refl
ids_of-map f h (item ∷ items) = rw (h item, ids_of-map f h items) refl

pub ids_of-update_item :
    (id : ℕ) (f : PlanItem → PlanItem)
    → ((item : PlanItem) → (f item).id ≡ item.id)
    → (items : List PlanItem) → ids_of (update_item id f items) ≡ ids_of items
unfolding update_item
ids_of-update_item id f h [] = refl
ids_of-update_item id f h (item ∷ items) = elim (Bool-cases (item.id == id)) [
  | inl same ↦ rw same (rw (h item) refl)
  | inr other ↦ rw other (rw (ids_of-update_item id f h items) refl)
]

pub flush_run-id : (t : ℕ) (item : PlanItem) → (flush_run t item).id ≡ item.id
unfolding flush_run
flush_run-id t item = ground arith

pub flush_run-status : (t : ℕ) (item : PlanItem) → (flush_run t item).status ≡ item.status
unfolding flush_run
flush_run-status t item = ground arith

pub activate_item-id :
    (id : Option ℕ) (streaming : Bool) (clock : Clock) (item : PlanItem)
    → (activate_item id streaming clock item).id ≡ item.id
unfolding activate_item flush_run
activate_item-id id streaming clock item = ground arith

waiting_not_active : (ids : List ℕ) → is_active (waiting_status ids) ≡ false
waiting_not_active [] = refl
waiting_not_active (id ∷ ids) = refl

pub activate_item-ActiveIs :
    (id : Option ℕ) (streaming : Bool) (clock : Clock) (item : PlanItem)
    → ActiveIs id (activate_item id streaming clock item)
unfolding activate_item
activate_item-ActiveIs none streaming clock item =
    ground
      (arith, waiting_not_active item.blocked_by, flush_run-status (clock.flushed item.id) item)
activate_item-ActiveIs (some a) streaming clock item =
    ground
      (arith, waiting_not_active item.blocked_by, flush_run-status (clock.flushed item.id) item)
