-- ===== src/WorkPlan/State.antt =====
-- extensions/work-plan/index.ts: the plan's state and the helpers that the actions share.
-- Ids are natural numbers: a call with a negative or fractional id finds no item, like one with an
-- id that no item has. `Date.now()` is read afresh at each use; `Clock` names the readings of one
-- call of the tool.
use Prim.Native.Char.{code}
use pi_shared.Common.{
  Bool, List, Option, String, [], any_of, false, find, get_or, if◌then◌else◌, is_space, keep_if,
  ltb, map, none, not, some, str_eq, trim, true, ℕ, ◌&&◌, ◌+◌, ◌-◌, ◌==◌, ◌||◌, ◌∷◌,
}

pub data PlanStatus : Type 0 where
  todo active done blocked : PlanStatus

pub record PlanItem : Type 0 where
  pub id : ℕ
  pub title : String
  pub status : PlanStatus
  pub blocked_by : List ℕ
  pub note : Option String
  pub created_at : ℕ
  pub updated_at : ℕ
  pub started_at : Option ℕ
  pub completed_at : Option ℕ
  pub active_ms : Option ℕ
  pub run_started_at : Option ℕ

pub record WorkPlanState : Type 0 where
  pub items : List PlanItem
  pub next_id : ℕ
  pub active_id : Option ℕ
  pub created_at : ℕ
  pub updated_at : ℕ

pub record Clock : Type 0 where
  pub reset : ℕ  -- in `emptyState`
  pub acted : ℕ
  pub stamp : ℕ → ℕ  -- when `set` makes the item with the id
  pub activated : ℕ  -- in `setActive`
  pub flushed : ℕ → ℕ  -- in `flushRun`, for the item with the id
  pub saved : ℕ

abbrev pub max_items : ℕ
max_items = 40

abbrev pub is_active : PlanStatus → Bool
is_active active = true
is_active todo = false
is_active done = false
is_active blocked = false

abbrev pub is_done : PlanStatus → Bool
is_done done = true
is_done todo = false
is_done active = false
is_done blocked = false

abbrev pub is_blocked : PlanStatus → Bool
is_blocked blocked = true
is_blocked todo = false
is_blocked active = false
is_blocked done = false

abbrev pub is_todo : PlanStatus → Bool
is_todo todo = true
is_todo active = false
is_todo done = false
is_todo blocked = false

abbrev pub is_empty {ℓ} : {A : Type ℓ} → List A → Bool
is_empty [] = true
is_empty (x ∷ xs) = false

-- `blockedBy.length ? "blocked" : "todo"`
abbrev pub waiting_status : List ℕ → PlanStatus
waiting_status ids = if is_empty ids then todo else blocked

-- A timestamp that is 0 is as good as none to the tests on `runStartedAt`.
abbrev pub is_set : Option ℕ → Bool
is_set none = false
is_set (some t) = not (t == 0)

unfoldable pub empty_plan : ℕ → WorkPlanState
empty_plan t = record { items = []; next_id = 1; active_id = none; created_at = t; updated_at = t }

-- `.replace(/\s+/g, " ")`; `in_space` says that the last character was replaced.
unfoldable pub collapse_spaces : Bool → String → String
collapse_spaces in_space String.[] = String.[]
collapse_spaces in_space (String.◌∷◌ c s) =
    let space = is_space (code c) in
    let rest = collapse_spaces space s in
    if space then (if in_space then rest else String.◌∷◌ " " rest) else String.◌∷◌ c rest

unfoldable pub normalize_title : Option String → String
unfolding collapse_spaces
normalize_title none = ""
normalize_title (some title) = collapse_spaces false (trim title)

-- `note?.trim() || undefined`
unfoldable pub normalize_note : Option String → Option String
normalize_note none = none
normalize_note (some note) = let text = trim note in if str_eq text "" then none else some text

-- `[...new Set(values)]`
unfoldable pub dedupe : List ℕ → List ℕ → List ℕ
dedupe seen [] = []
dedupe seen (v ∷ vs) =
    let rest = dedupe (v ∷ seen) vs in if any_of (λ s. s == v) seen then rest else v ∷ rest

insert_ascending : ℕ → List ℕ → List ℕ
insert_ascending v [] = v ∷ []
insert_ascending v (w ∷ ws) = if ltb w v then w ∷ insert_ascending v ws else v ∷ w ∷ ws

unfoldable pub sort_ascending : List ℕ → List ℕ
unfolding insert_ascending
sort_ascending [] = []
sort_ascending (v ∷ vs) = insert_ascending v (sort_ascending vs)

unfoldable pub normalize_blocked_by : Option (List ℕ) → List ℕ
unfolding dedupe sort_ascending
normalize_blocked_by values = sort_ascending (dedupe [] (keep_if (λ v. ltb 0 v) (get_or values [])))

unfoldable pub find_item : List PlanItem → Option ℕ → Option PlanItem
find_item items none = none
find_item items (some id) = find (λ (item : PlanItem). item.id == id) items

-- `activeMs` after a run that ends at `t`; a clock that ran backwards adds nothing.
unfoldable pub flush_run : ℕ → PlanItem → PlanItem
flush_run t item = elim item.run_started_at [
  | none ↦ item
  | some started ↦ if started == 0 then item else record item {
    active_ms = some (get_or item.active_ms 0 + (t - started));
    run_started_at = none;
  }
]

unfoldable pub open_items : List PlanItem → List PlanItem
open_items = keep_if (λ item.
    not (is_done item.status) && (not (is_blocked item.status) || not (is_empty item.blocked_by)))

-- One round of the loop in `setActive`.
unfoldable pub activate_item : Option ℕ → Bool → Clock → PlanItem → PlanItem
unfolding flush_run
activate_item id streaming clock item =
    if (elim id [ none ↦ false | some a ↦ item.id == a ])
    then record item {
      status = active;
      started_at = some (get_or item.started_at clock.activated);
      updated_at = clock.activated;
      run_started_at =
          if streaming && not (is_set item.run_started_at)
          then some clock.activated
          else item.run_started_at;
    }
    else if is_active item.status
    then record (flush_run (clock.flushed item.id) item) {
      status = waiting_status item.blocked_by;
      updated_at = clock.activated;
    }
    else if is_set item.run_started_at
    then flush_run (clock.flushed item.id) item
    else item

unfoldable pub set_active : Option ℕ → Bool → Clock → WorkPlanState → WorkPlanState
unfolding activate_item
set_active id streaming clock s = record s {
  active_id = id;
  items = map (activate_item id streaming clock) s.items;
}

-- An assignment to the item that `findItem` returned: the first with the id.
unfoldable pub update_item : ℕ → (PlanItem → PlanItem) → List PlanItem → List PlanItem
update_item id f [] = []
update_item id f (item ∷ items) =
    if item.id == id then f item ∷ items else item ∷ update_item id f items

-- Restored state: a run that was in progress in another process is not credited.
unfoldable pub restore_items : List PlanItem → List PlanItem
restore_items = map (λ (item : PlanItem).
    if is_set item.run_started_at then record item { run_started_at = none } else item)

-- The start and the end of an agent run.
unfoldable pub agent_start : ℕ → Bool → WorkPlanState → WorkPlanState
agent_start t handoff_pending s =
    if handoff_pending then s else elim (find_item s.items s.active_id) [
      | none ↦ s
      | some item ↦ if is_set item.run_started_at then s else record s {
        items = update_item item.id (λ i. record i { run_started_at = some t }) s.items;
      }
    ]

unfoldable pub agent_end : Clock → Bool → WorkPlanState → WorkPlanState
agent_end clock handoff_pending s =
    if handoff_pending
    then s
    else if any_of (λ item. is_set item.run_started_at) s.items
    then record s {
      items = map (λ (item : PlanItem). flush_run (clock.flushed item.id) item) s.items;
      updated_at = clock.saved;
    }
    else s
