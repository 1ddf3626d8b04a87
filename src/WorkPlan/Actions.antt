-- ===== src/WorkPlan/Actions.antt =====
-- extensions/work-plan/index.ts: `execute`, the actions of the `work_plan` tool.
-- The messages of errors are named; the plan is saved after every action but `list`.
use pi_shared.WorkPlan.State.{
  todo, done, blocked, Clock, PlanItem, PlanStatus, WorkPlanState, empty_plan, find_item, flush_run,
  is_active, is_blocked, is_done, is_empty, is_todo, max_items, normalize_blocked_by,
  normalize_note, normalize_title, set_active, update_item, waiting_status,
}
use pi_shared.Common.{
  Bool, List, Option, String, [], any_of, false, find, get_or, if◌then◌else◌, is_some, keep_if, leb,
  length, map, none, not, some, str_eq, take, ℕ, ◌&&◌, ◌++◌, ◌+◌, ◌==◌, ◌∷◌,
}
use pi_shared.Common.Result.{Result, err, ok}

pub record ItemInput : Type 0 where
  pub title : Option String
  pub status : Option PlanStatus
  pub blocked_by : Option (List ℕ)
  pub note : Option String

-- The parameters of a call, its action apart.
pub record PlanParams : Type 0 where
  pub items : Option (List ItemInput)
  pub id : Option ℕ
  pub ids : Option (List ℕ)
  pub title : Option String
  pub status : Option PlanStatus
  pub blocked_by : Option (List ℕ)
  pub note : Option String

pub data PlanAction : Type 0 where
  set add update activate complete block unblock clear list : PlanAction

pub data PlanError : Type 0 where
  too_many_items title_required id_required : PlanError

unfoldable pub new_item : ℕ → String → Option PlanStatus → List ℕ → Option String → ℕ → PlanItem
new_item id title status blocked_by note t = record {
  id = id;
  title = title;
  status = get_or status (waiting_status blocked_by);
  blocked_by = blocked_by;
  note = normalize_note note;
  created_at = t;
  updated_at = t;
  started_at = none;
  completed_at = none;
  active_ms = none;
  run_started_at = none;
}

-- The item that `set` makes of one input.
unfoldable pub set_item : ℕ → String → ItemInput → ℕ → PlanItem
unfolding new_item
set_item id title input t =
    let item =
      new_item id title input.status (normalize_blocked_by input.blocked_by) input.note t in
    record item {
      started_at = if is_active (get_or input.status todo) then some t else none;
      completed_at = if is_done (get_or input.status todo) then some t else none;
    }

-- The loop of `set`, with the next id and the items made so far.
unfoldable pub set_items : Clock → List ItemInput → ℕ → List PlanItem → ℕ × List PlanItem
unfolding set_item
set_items clock [] next_id items = (next_id, items)
set_items clock (input ∷ inputs) next_id items =
    let title = normalize_title input.title in
    let skip = set_items clock inputs next_id items in
    let go =
      set_items clock inputs (next_id + 1)
        (items ++ set_item next_id title input (clock.stamp next_id) ∷ []) in
    if str_eq title "" then skip else go

unfoldable pub first_active : List PlanItem → Option PlanItem
first_active items = elim (find (λ (item : PlanItem). is_active item.status) items) [
  | some item ↦ some item
  | none ↦
      find (λ (item : PlanItem). not (is_done item.status) && not (is_blocked item.status)) items
]

abbrev pub id_of : Option PlanItem → Option ℕ
id_of none = none
id_of (some item) = some item.id

unfoldable pub set_plan : Clock → Bool → PlanParams → WorkPlanState
unfolding set_items first_active empty_plan set_active
set_plan clock streaming params =
    let made = set_items clock (take max_items (get_or params.items [])) 1 [] in
    let s = record (empty_plan clock.reset) { next_id = made.0; items = made.1 } in
    set_active (id_of (first_active made.1)) streaming clock s

unfoldable pub add_plan : Clock → Bool → PlanParams → WorkPlanState → Result PlanError WorkPlanState
unfolding new_item set_active
add_plan clock streaming params s =
    let title = normalize_title params.title in
    let item =
      new_item s.next_id title params.status (normalize_blocked_by params.blocked_by) params.note
        clock.acted in
    let s' = record s { next_id = s.next_id + 1; items = s.items ++ item ∷ [] } in
    if leb max_items (length s.items)
    then err too_many_items
    else if str_eq title ""
    then err title_required
    else ok (if is_active item.status then set_active (some item.id) streaming clock s' else s')

abbrev pub retitle : String → PlanItem → PlanItem
retitle title item = if str_eq title "" then item else record item { title = title }

abbrev pub reblock : Option PlanStatus → Option (List ℕ) → PlanItem → PlanItem
reblock status none item = item
reblock status (some ids) item =
    let blocked_by = normalize_blocked_by (some ids) in
    record item {
      blocked_by = blocked_by;
      status =
          if not (is_some status) && not (is_done item.status) && not (is_active item.status)
          then waiting_status blocked_by
          else item.status;
    }

-- `if (params.note !== undefined) item.note = params.note.trim() || undefined`
abbrev pub renote : Option String → PlanItem → PlanItem
renote none item = item
renote (some note) item = record item { note = normalize_note (some note) }

-- The assignments of `update`, in their order.
unfoldable pub revise : Clock → PlanParams → PlanItem → PlanItem
revise clock params item =
    let item' =
      renote params.note
        (reblock params.status params.blocked_by (retitle (normalize_title params.title) item)) in
    record item' { status = get_or params.status item'.status; updated_at = clock.acted }

abbrev pub is_id : Option ℕ → ℕ → Bool
is_id none id = false
is_id (some a) id = a == id

abbrev pub clear_active : ℕ → Option ℕ → Option ℕ
clear_active id active_id = if is_id active_id id then none else active_id

unfoldable pub update_plan :
    Clock → Bool → PlanParams → WorkPlanState → Result PlanError WorkPlanState
unfolding set_active update_item revise flush_run
update_plan clock streaming params s = elim (find_item s.items params.id) [
  | none ↦ err id_required
  | some item ↦
      let item' = revise clock params item in
      let s' = record s { items = update_item item.id (λ _. item') s.items } in
      ok (
        if is_active item'.status
        then set_active (some item.id) streaming clock s'
        else if is_id s.active_id item.id
        then record s' {
          active_id = none;
          items = update_item item.id (flush_run (clock.flushed item.id)) s'.items;
        }
        else s')
]

unfoldable pub activate_plan :
    Clock → Bool → PlanParams → WorkPlanState → Result PlanError WorkPlanState
unfolding set_active
activate_plan clock streaming params s = elim (find_item s.items params.id) [
  | none ↦ err id_required
  | some item ↦ ok (set_active (some item.id) streaming clock s)
]

-- The ids that a call of `complete` names.
unfoldable pub completed_ids : PlanParams → WorkPlanState → List (Option ℕ)
completed_ids params s =
    let one = (elim params.id [ none ↦ s.active_id | some id ↦ some id ]) ∷ [] in
    elim params.ids [
      | none ↦ one
      | some ids ↦ if is_empty ids then one else map (λ (id : ℕ). some id) ids
    ]

-- `ids.map(findItem)`, or nothing if one is missing; of each item only the id is used.
unfoldable pub found_ids : List PlanItem → List (Option ℕ) → Option (List ℕ)
found_ids items [] = some []
found_ids items (id ∷ ids) = elim (find_item items id) [
  | none ↦ none
  | some item ↦ elim (found_ids items ids) [ none ↦ none | some rest ↦ some (item.id ∷ rest) ]
]

unfoldable pub finish_item : Clock → PlanParams → PlanItem → PlanItem
unfolding flush_run
finish_item clock params item =
    renote params.note (record (flush_run (clock.flushed item.id) item) {
      status = done;
      completed_at = some clock.acted;
      updated_at = clock.acted;
    })

unfoldable pub finish_items : Clock → PlanParams → List ℕ → WorkPlanState → WorkPlanState
unfolding finish_item update_item
finish_items clock params [] s = s
finish_items clock params (id ∷ ids) s = finish_items clock params ids (record s {
  items = update_item id (finish_item clock params) s.items;
  active_id = clear_active id s.active_id;
})

abbrev pub is_one_of : List ℕ → ℕ → Bool
is_one_of ids id = any_of (λ i. i == id) ids

-- Finished blockers release their dependents.
unfoldable pub release_item : Clock → List ℕ → PlanItem → PlanItem
release_item clock done_ids item =
    let left = keep_if (λ id. not (is_one_of done_ids id)) item.blocked_by in
    if any_of (is_one_of done_ids) item.blocked_by
    then record item {
      blocked_by = left;
      status = if is_blocked item.status && is_empty left then todo else item.status;
      updated_at = clock.acted;
    }
    else item

unfoldable pub next_todo : List PlanItem → Option PlanItem
next_todo = find (λ (item : PlanItem). is_todo item.status && is_empty item.blocked_by)

unfoldable pub complete_plan :
    Clock → Bool → PlanParams → WorkPlanState → Result PlanError WorkPlanState
unfolding completed_ids found_ids finish_items release_item next_todo set_active
complete_plan clock streaming params s = elim (found_ids s.items (completed_ids params s)) [
  | none ↦ err id_required
  | some ids ↦
      let s' = finish_items clock params ids s in
      let s'' = record s' { items = map (release_item clock ids) s'.items } in
      ok (
        if is_some s''.active_id then s'' else elim (next_todo s''.items) [
          | none ↦ s''
          | some next ↦ set_active (some next.id) streaming clock s''
        ])
]

unfoldable pub block_item : Clock → PlanParams → PlanItem → PlanItem
unfolding flush_run
block_item clock params item = renote params.note (record (flush_run (clock.flushed item.id) item) {
  status = blocked;
  blocked_by = normalize_blocked_by params.blocked_by;
  updated_at = clock.acted;
})

unfoldable pub block_plan : Clock → PlanParams → WorkPlanState → Result PlanError WorkPlanState
unfolding update_item block_item
block_plan clock params s = elim (find_item s.items params.id) [
  | none ↦ err id_required
  | some item ↦ ok (record s {
    items = update_item item.id (block_item clock params) s.items;
    active_id = clear_active item.id s.active_id;
  })
]

unfoldable pub unblock_item : Clock → PlanParams → PlanItem → PlanItem
unblock_item clock params item =
    renote params.note (record item { status = todo; blocked_by = []; updated_at = clock.acted })

unfoldable pub unblock_plan : Clock → PlanParams → WorkPlanState → Result PlanError WorkPlanState
unfolding update_item unblock_item
unblock_plan clock params s = elim (find_item s.items params.id) [
  | none ↦ err id_required
  | some item ↦ ok (record s { items = update_item item.id (unblock_item clock params) s.items })
]

abbrev pub save : Clock → WorkPlanState → WorkPlanState
save clock s = record s { updated_at = clock.saved }

abbrev pub saved : Clock → Result PlanError WorkPlanState → Result PlanError WorkPlanState
saved clock (ok s) = ok (save clock s)
saved clock (err e) = err e

-- The `switch` of `execute`. An error returns before anything is saved.
unfoldable pub execute :
    PlanAction → Clock → Bool → PlanParams → WorkPlanState → Result PlanError WorkPlanState
unfolding set_plan add_plan update_plan activate_plan complete_plan block_plan unblock_plan
    empty_plan
execute set clock streaming params s = saved clock (ok (set_plan clock streaming params))
execute add clock streaming params s = saved clock (add_plan clock streaming params s)
execute update clock streaming params s = saved clock (update_plan clock streaming params s)
execute activate clock streaming params s = saved clock (activate_plan clock streaming params s)
execute complete clock streaming params s = saved clock (complete_plan clock streaming params s)
execute block clock streaming params s = saved clock (block_plan clock params s)
execute unblock clock streaming params s = saved clock (unblock_plan clock params s)
execute clear clock streaming params s = saved clock (ok (empty_plan clock.reset))
execute list clock streaming params s = ok s
