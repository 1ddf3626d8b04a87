-- ===== src/WorkPlan/Completion.antt =====
-- What a call of `complete` leaves: the named items done, their dependents released, and the next
-- item active.
use mathlib.Core.Path.{subst}
use pi_shared.WorkPlan.State.{
  done, todo, is_todo, is_empty, Clock, PlanItem, WorkPlanState, activate_item, flush_run,
  set_active,
}
use pi_shared.WorkPlan.Invariant.{IsValidPlan, All-map, flush_run-id, flush_run-status}
use pi_shared.WorkPlan.Steps.{update_item-All, same_id}
use pi_shared.WorkPlan.Finish.{
  finish_one-IsValidPlan, finish_item-done, finish_one, All-map-from, released,
}
use pi_shared.Common.{
  All, Bool, Bool-cases, List, [], any_of, arith, false, find, inl, inr, keep_if, not, refl, some,
  true, ℕ, ◌==◌, ◌∷◌, ◌≡◌, Option, Option-cases, ap, is_some, none, sym, ◌∙◌, ◌≢◌, ◌&&◌,
}
use pi_shared.WorkPlan.Actions.{
  PlanParams, finish_item, finish_items, is_one_of, release_item, complete_plan, completed_ids,
  found_ids, next_todo,
}
use pi_shared.Common.Result.{ok}

find-All {ℓ κ} :
    {A : Type ℓ} (P : A → Type κ) (p : A → Bool) (xs : List A) (x : A)
    → find p xs ≡ some x
    → All P xs
    → P x × (p x ≡ true)
unfolding find
find-All P p [] x h a = cc
find-All P p (y ∷ ys) x h a = elim (Bool-cases (p y)) [
  | inl hit ↦
      let same : y ≡ x = ground arith in (subst P same a.0, subst (λ z. p z ≡ true) same hit)
  | inr miss ↦ find-All P p ys x (rw miss at h) a.1
]

-- What `find` misses passes nowhere.
find-none {ℓ} :
    {A : Type ℓ} (p : A → Bool) (xs : List A) → find p xs ≡ none → All (λ x. p x ≡ false) xs
unfolding find
find-none p [] h = tt
find-none p (x ∷ xs) h = elim (Bool-cases (p x)) [
  | inl hit ↦ cc
  | inr miss ↦ (miss, find-none p xs (rw miss at h))
]

any_of-keep_if-not : (p : ℕ → Bool) (xs : List ℕ) → any_of p (keep_if (λ x. not (p x)) xs) ≡ false
unfolding any_of keep_if
any_of-keep_if-not p [] = refl
any_of-keep_if-not p (x ∷ xs) = ground (arith, any_of-keep_if-not p xs)

-- Whether the item is done if it has the id, or one of the ids.
abbrev DoneAt : ℕ → PlanItem → Type 0
DoneAt id item = (item.id == id) ≡ true → item.status ≡ done

abbrev pub IsDoneIn : List ℕ → PlanItem → Type 0
IsDoneIn ids item = is_one_of ids item.id ≡ true → item.status ≡ done

abbrev pub IsFreeOf : List ℕ → PlanItem → Type 0
IsFreeOf ids item = any_of (is_one_of ids) item.blocked_by ≡ false

All-each {ℓ κ} : {A : Type ℓ} (P : A → Type κ) → ((x : A) → P x) → (xs : List A) → All P xs
All-each P h [] = tt
All-each P h (x ∷ xs) = (h x, All-each P h xs)

All-imp {ℓ κ} :
    {A : Type ℓ} (P Q : A → Type κ) → ((x : A) → P x → Q x) → (xs : List A) → All P xs → All Q xs
All-imp P Q h [] p = tt
All-imp P Q h (x ∷ xs) p = (h x p.0, All-imp P Q h xs p.1)

All-zip {ℓ κ} :
    {A : Type ℓ} (P Q R : A → Type κ)
    → ((x : A) → P x → Q x → R x)
    → (xs : List A) → All P xs
    → All Q xs
    → All R xs
All-zip P Q R h [] p q = tt
All-zip P Q R h (x ∷ xs) p q = (h x p.0 q.0, All-zip P Q R h xs p.1 q.1)

either_done :
    (id : ℕ) (ids : List ℕ) (item : PlanItem)
    → DoneAt id item
    → IsDoneIn ids item
    → IsDoneIn (id ∷ ids) item
unfolding any_of
either_done id ids item p q h = ground arith

finish_items-keeps :
    (clock : Clock) (params : PlanParams) (ids : List ℕ) (id : ℕ) (s : WorkPlanState)
    → IsValidPlan s
    → All (DoneAt id) s.items
    → All (DoneAt id) (finish_items clock params ids s).items
unfolding finish_items
finish_items-keeps clock params [] id s v d = d
finish_items-keeps clock params (i ∷ ids) id s v d =
    finish_items-keeps clock params ids id (finish_one clock params i s)
      (finish_one-IsValidPlan clock params i s v)
      (update_item-All (DoneAt id) (DoneAt id) i (finish_item clock params)
        (λ item same p h. finish_item-done clock params item) (λ item other p. p) s.items v.1 d)

finish_one-DoneAt :
    (clock : Clock) (params : PlanParams) (id : ℕ) (s : WorkPlanState)
    → IsValidPlan s
    → All (DoneAt id) (finish_one clock params id s).items
finish_one-DoneAt clock params id s v =
    update_item-All (λ item. Unit {0}) (DoneAt id) id (finish_item clock params)
      (λ item same p h. finish_item-done clock params item) (λ item other p h. cc) s.items v.1
      (All-each (λ item. Unit) (λ item. tt) s.items)

finish_items-IsDoneIn :
    (clock : Clock) (params : PlanParams) (ids : List ℕ) (s : WorkPlanState)
    → IsValidPlan s
    → All (IsDoneIn ids) (finish_items clock params ids s).items
unfolding finish_items any_of
finish_items-IsDoneIn clock params [] s v = All-each (IsDoneIn []) (λ item h. cc) s.items
finish_items-IsDoneIn clock params (id ∷ ids) s v =
    let v' = finish_one-IsValidPlan clock params id s v in
    let s' = finish_one clock params id s in
    All-zip (DoneAt id) (IsDoneIn ids) (IsDoneIn (id ∷ ids))
      (λ item p q h. either_done id ids item p q h) (finish_items clock params ids s').items
      (finish_items-keeps clock params ids id s' v' (finish_one-DoneAt clock params id s v))
      (finish_items-IsDoneIn clock params ids s' v')

release_item-IsFreeOf :
    (clock : Clock) (ids : List ℕ) (item : PlanItem) → IsFreeOf ids (release_item clock ids item)
unfolding release_item
release_item-IsFreeOf clock ids item = elim (Bool-cases (any_of (is_one_of ids) item.blocked_by)) [
  | inl waits ↦ rw waits (any_of-keep_if-not (is_one_of ids) item.blocked_by)
  | inr free ↦ rw free free
]

release_item-IsDoneIn :
    (clock : Clock) (ids : List ℕ) (item : PlanItem)
    → IsDoneIn ids item
    → IsDoneIn ids (release_item clock ids item)
unfolding release_item
release_item-IsDoneIn clock ids item h = ground (arith)

-- An item that is to be done waits for another.
abbrev pub IsNotFree : PlanItem → Type 0
IsNotFree item = item.status ≡ todo → item.blocked_by ≢ []

next_todo-none : (items : List PlanItem) → next_todo items ≡ none → All IsNotFree items
unfolding next_todo
next_todo-none items h =
    All-imp (λ item. (is_todo item.status && is_empty item.blocked_by) ≡ false) IsNotFree
      (λ item busy to_do free. ground arith) items (find-none _ items h)

-- What the call promises of the plan that it leaves.
abbrev pub IsFinished : List ℕ → WorkPlanState → Type 0
IsFinished ids s =
    All (IsDoneIn ids) s.items
    × All (IsFreeOf ids) s.items
    × (s.active_id ≡ none → All IsNotFree s.items)

activate_item-IsFreeOf :
    (id : Option ℕ) (streaming : Bool) (clock : Clock) (ids : List ℕ) (item : PlanItem)
    → IsFreeOf ids item
    → IsFreeOf ids (activate_item id streaming clock item)
unfolding activate_item flush_run
activate_item-IsFreeOf id streaming clock ids item h = ground arith

both : (b : Bool) → b ≡ true → b ≡ false → ⊥
both b h k = ground arith

activate_item-IsDoneIn :
    (next : PlanItem) (streaming : Bool) (clock : Clock) (ids : List ℕ) (item : PlanItem)
    → is_one_of ids next.id ≡ false
    → IsDoneIn ids item
    → IsDoneIn ids (activate_item (some next.id) streaming clock item)
unfolding activate_item
activate_item-IsDoneIn next streaming clock ids item open_next h =
    elim (Bool-cases (item.id == next.id)) [
      | inl same ↦ rw same λ k.
          let moved : is_one_of ids item.id ≡ is_one_of ids next.id =
            ap (is_one_of ids) (same_id item.id next.id same) in
          absurd (both (is_one_of ids next.id) (sym moved ∙ k) open_next)
      | inr other ↦ rw other (
          ground (
            arith,
            flush_run-status (clock.flushed item.id) item,
            flush_run-id (clock.flushed item.id) item,
          ))
    ]

-- The item that is made active next is none of those that were completed.
next_todo-is_open :
    (ids : List ℕ) (items : List PlanItem) (next : PlanItem)
    → next_todo items ≡ some next
    → All (IsDoneIn ids) items
    → is_one_of ids next.id ≡ false
unfolding next_todo
next_todo-is_open ids items next found d =
    let (is_finished, is_next) = find-All (IsDoneIn ids) _ items next found d in
    elim (Bool-cases (is_one_of ids next.id)) [
      | inr open_next ↦ open_next
      | inl named ↦ let over = is_finished named in ground arith
    ]

module _ (clock : Clock) (params : PlanParams) (ids : List ℕ) (s : WorkPlanState)
    (v : IsValidPlan s) where
  released-IsDoneIn : All (IsDoneIn ids) (released clock params ids s).items
  released-IsDoneIn =
      All-map-from (IsDoneIn ids) (IsDoneIn ids) (release_item clock ids)
        (release_item-IsDoneIn clock ids) (finish_items clock params ids s).items
        (finish_items-IsDoneIn clock params ids s v)

  released-IsFreeOf : All (IsFreeOf ids) (released clock params ids s).items
  released-IsFreeOf =
      All-map (IsFreeOf ids) (release_item clock ids) (release_item-IsFreeOf clock ids)
        (finish_items clock params ids s).items

  activated-IsFinished :
      (streaming : Bool) (next : PlanItem)
      → next_todo (released clock params ids s).items ≡ some next
      → IsFinished ids (set_active (some next.id) streaming clock (released clock params ids s))
  unfolding set_active
  activated-IsFinished streaming next found = (
    All-map-from (IsDoneIn ids) (IsDoneIn ids) (activate_item (some next.id) streaming clock)
        (λ item.
          activate_item-IsDoneIn next streaming clock ids item
            (next_todo-is_open ids _ next found released-IsDoneIn))
        (released clock params ids s).items released-IsDoneIn,
    All-map-from (IsFreeOf ids) (IsFreeOf ids) (activate_item (some next.id) streaming clock)
        (activate_item-IsFreeOf (some next.id) streaming clock ids)
        (released clock params ids s).items released-IsFreeOf,
    λ none_active. cc,
  )

-- A call of `complete` whose ids are all found succeeds on a plan that satisfies the invariant, and in
-- the plan that it leaves every named item is done, no item is blocked by a named one, and if its
-- active id names no item then every item with the status todo waits for another.
pub complete_plan-IsFinished :
    (clock : Clock) (streaming : Bool) (params : PlanParams) (ids : List ℕ) (s : WorkPlanState)
    → IsValidPlan s
    → found_ids s.items (completed_ids params s) ≡ some ids
    → (s' : WorkPlanState) × (complete_plan clock streaming params s ≡ ok s') × IsFinished ids s'
unfolding complete_plan
complete_plan-IsFinished clock streaming params ids s v found =
    rw (complete_plan, found)
      (let r = released clock params ids s in
        let d = released-IsDoneIn clock params ids s v in
        let f = released-IsFreeOf clock params ids s v in
        elim (Bool-cases (is_some r.active_id)) [
          | inl busy ↦ rw busy (r, refl, (d, f, λ idle. absurd (both _ busy (ap is_some idle))))
          | inr idle ↦ rw idle (elim (Option-cases (next_todo r.items)) [
            | inl no_next ↦ rw no_next (r, refl, (d, f, λ _. next_todo-none r.items no_next))
            | inr (next, some_next) ↦ rw some_next (
              set_active (some next.id) streaming clock r,
              refl,
              activated-IsFinished clock params ids s v streaming next some_next,
            )
          ])
        ])
