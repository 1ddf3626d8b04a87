-- ===== src/WorkPlan/Steps.antt =====
-- Every action of the tool keeps the plan's invariant.
use mathlib.Core.Path.{subst}
use pi_shared.WorkPlan.State.{
  Clock, PlanItem, WorkPlanState, activate_item, is_active, max_items, normalize_blocked_by,
  normalize_title, set_active, update_item, empty_plan,
}
use pi_shared.WorkPlan.Invariant.{
  IsValidPlan, ActiveIs, All-map, AllDistinct, Below, NotIn, activate_item-ActiveIs,
  activate_item-id, ids_of, ids_of-map,
}
use pi_shared.WorkPlan.Actions.{
  add_plan, ItemInput, PlanError, PlanParams, new_item, set_item, set_items, set_plan,
}
use pi_shared.Common.{
  All, All-append, Bool, Bool-cases, List, Option, [], arith, false, get_or, inl, inr, leb, length,
  refl, str_eq, take, true, ℕ, ◌++◌, ◌+◌, ◌<◌, ◌==◌, ◌∷◌, ◌≡◌, some,
}
use pi_shared.Common.Result.{Result, err, ok}

pub same_id : (m n : ℕ) → (m == n) ≡ true → m ≡ n
same_id m n h = ground arith

others {κ} :
    (P Q : PlanItem → Type κ) (id : ℕ)
    → ((item : PlanItem) → (item.id == id) ≡ false → P item → Q item)
    → (items : List PlanItem) → NotIn id (ids_of items)
    → All P items
    → All Q items
others P Q id h [] n p = tt
others P Q id h (item ∷ items) n p = (h item n.0 p.0, others P Q id h items n.1 p.1)

-- What an assignment to one item does to all of them.
pub update_item-All {κ} :
    (P Q : PlanItem → Type κ) (id : ℕ) (f : PlanItem → PlanItem)
    → ((item : PlanItem) → item.id ≡ id → P item → Q (f item))
    → ((item : PlanItem) → (item.id == id) ≡ false → P item → Q item)
    → (items : List PlanItem) → AllDistinct (ids_of items)
    → All P items
    → All Q (update_item id f items)
unfolding update_item
update_item-All P Q id f here there [] d p = tt
update_item-All P Q id f here there (item ∷ items) d p = elim (Bool-cases (item.id == id)) [
  | inl same ↦ rw same (
      let eq = same_id item.id id same in
      (
        here item eq p.0,
        others P Q id there items (subst (λ n. NotIn n (ids_of items)) eq d.0) p.1,
      ))
  | inr other ↦ rw other (there item other p.0, update_item-All P Q id f here there items d.1 p.1)
]

pub set_active-IsValidPlan :
    (id : Option ℕ) (streaming : Bool) (clock : Clock) (s : WorkPlanState)
    → Below s.next_id (ids_of s.items)
    → AllDistinct (ids_of s.items)
    → IsValidPlan (set_active id streaming clock s)
unfolding set_active
set_active-IsValidPlan id streaming clock s b d =
    let ids =
      ids_of-map (activate_item id streaming clock) (activate_item-id id streaming clock) s.items in
    (
      rw ids b,
      rw ids d,
      All-map (ActiveIs id) (activate_item id streaming clock)
          (activate_item-ActiveIs id streaming clock) s.items,
    )

Below-append :
    (n : ℕ) (items : List PlanItem) (item : PlanItem)
    → Below n (ids_of items)
    → item.id ≡ n
    → Below (n + 1) (ids_of (items ++ item ∷ []))
Below-append n [] item b e = (omega arith, tt)
Below-append n (x ∷ xs) item b e = (omega (arith, b.0), Below-append n xs item b.1 e)

NotIn-append :
    (id n : ℕ) (items : List PlanItem) (item : PlanItem)
    → NotIn id (ids_of items)
    → id < n
    → item.id ≡ n
    → NotIn id (ids_of (items ++ item ∷ []))
NotIn-append id n [] item h l e = (ground arith, tt)
NotIn-append id n (x ∷ xs) item h l e = (h.0, NotIn-append id n xs item h.1 l e)

AllDistinct-append :
    (n : ℕ) (items : List PlanItem) (item : PlanItem)
    → Below n (ids_of items)
    → AllDistinct (ids_of items)
    → item.id ≡ n
    → AllDistinct (ids_of (items ++ item ∷ []))
AllDistinct-append n [] item b d e = (tt, tt)
AllDistinct-append n (x ∷ xs) item b d e =
    (NotIn-append x.id n xs item d.0 b.0 e, AllDistinct-append n xs item b.1 d.1 e)

set_items-Below :
    (clock : Clock) (inputs : List ItemInput) (n : ℕ) (items : List PlanItem)
    → Below n (ids_of items)
    → AllDistinct (ids_of items)
    → let made = set_items clock inputs n items in
      Below made.0 (ids_of made.1) × AllDistinct (ids_of made.1)
unfolding set_items set_item new_item
set_items-Below clock [] n items b d = (b, d)
set_items-Below clock (input ∷ inputs) n items b d =
    elim (Bool-cases (str_eq (normalize_title input.title) "")) [
      | inl skip ↦ rw skip (set_items-Below clock inputs n items b d)
      | inr go ↦ rw go (
          set_items-Below clock inputs (n + 1) _ (Below-append n items _ b refl)
            (AllDistinct-append n items _ b d refl))
    ]

pub set_plan-IsValidPlan :
    (clock : Clock) (streaming : Bool) (params : PlanParams)
    → IsValidPlan (set_plan clock streaming params)
unfolding set_plan
set_plan-IsValidPlan clock streaming params =
    let made = set_items-Below clock (take max_items (get_or params.items [])) 1 [] tt tt in
    set_active-IsValidPlan _ streaming clock
      (record (empty_plan clock.reset) {
        next_id = (set_items clock (take max_items (get_or params.items [])) 1 []).0;
        items = (set_items clock (take max_items (get_or params.items [])) 1 []).1;
      })
      made.0 made.1

-- The plan that a call leaves: an error changes nothing.
abbrev pub plan_after : WorkPlanState → Result PlanError WorkPlanState → WorkPlanState
plan_after s (ok s') = s'
plan_after s (err e) = s

ActiveIs-append :
    (a : Option ℕ) (items : List PlanItem) (item : PlanItem)
    → All (ActiveIs a) items
    → is_active item.status ≡ false
    → All (ActiveIs a) (items ++ item ∷ [])
ActiveIs-append a items item p quiet = All-append (ActiveIs a) items (item ∷ []) p ((λ h. cc), tt)

pub add_plan-IsValidPlan :
    (clock : Clock) (streaming : Bool) (params : PlanParams) (s : WorkPlanState)
    → IsValidPlan s
    → IsValidPlan (plan_after s (add_plan clock streaming params s))
unfolding add_plan new_item
add_plan-IsValidPlan clock streaming params s v =
    let title = normalize_title params.title in
    let item =
      new_item s.next_id title params.status (normalize_blocked_by params.blocked_by) params.note
        clock.acted in
    elim (Bool-cases (leb max_items (length s.items))) [
      | inl full ↦ rw full v
      | inr room ↦ rw room (elim (Bool-cases (str_eq title "")) [
        | inl empty ↦ rw empty v
        | inr named ↦ rw named (
            let b = Below-append s.next_id s.items item v.0 refl in
            let d = AllDistinct-append s.next_id s.items item v.0 v.1 refl in
            elim (Bool-cases (is_active item.status)) [
              | inl on ↦ rw on (
                  set_active-IsValidPlan (some s.next_id) streaming clock
                    (record s { next_id = s.next_id + 1; items = s.items ++ item ∷ [] }) b d)
              | inr off ↦ rw off (b, d, ActiveIs-append s.active_id s.items item v.2 off)
            ])
      ])
    ]
