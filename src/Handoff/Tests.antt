-- ===== src/Handoff/Tests.antt =====
-- A handoff that was prepared and given to a child, and the theorem applied to it.
use pi_shared.Handoff.Records.{
  transferred, SelfHandoffRecord, SelfHandoffRequest, StoredRequest, SessionEntry,
  parse_self_handoff_record,
}
use pi_shared.Handoff.Reduce.{
  reduced, conflict, invalid_transition, reduce_self_handoff_request, inspect_self_handoff_records,
  is_allowed_next, same_self_handoff_request,
}
use pi_shared.Handoff.Finality.{Agrees, reduce_self_handoff_request-Agrees}
use pi_shared.Common.{
  All, List, Option, String, [], codes, false, none, refl, some, true, utf16_length, ◌++◌, ◌∷◌, ◌≡◌,
  find, is_some,
}
use pi_shared.WorkPlan.Tests.{clock, no_params, two_items, two_items-IsValidPlan, item}
use pi_shared.WorkPlan.State.{active, WorkPlanState, find_item}
use pi_shared.WorkPlan.Actions.{unblock_plan, save}
use pi_shared.Handoff.Plan.{
  collect_work_plan, has_sound_blockers, refuses_transfer, unblock_plan-refuses_transfer,
  latest_work_plan_state, plan_is_coherent,
}
use pi_shared.Common.Result.{ok}

abbrev stored_request : StoredRequest
stored_request = record {
  version = 1;
  id = some "h1";
  created_at = some 5;
  origin_session_id = some "s1";
  origin_session_file = some "s1.jsonl";
  context_nonce = some "0123456789abcdef";
  kickoff_hash = none;
  goal_transferred = some false;
  goal_id = none;
  work_plan_transferred = some true;
}

abbrev request : SelfHandoffRequest
request = record {
  id = "h1";
  created_at = 5;
  origin_session_id = "s1";
  origin_session_file = "s1.jsonl";
  context_nonce = "0123456789abcdef";
  kickoff_hash = none;
  goal_transferred = false;
  goal_id = none;
  work_plan_transferred = true;
}

abbrev entry : String → String → Option String → SessionEntry
entry id status child = record {
  id = some id;
  kind = "custom";
  custom_type = some "pi-self-handoff-state";
  content = some (record {
    version = 1;
    request = some stored_request;
    status = some status;
    updated_at = some 6;
    target_session_file = child;
    target_session_id = child;
    kickoff = none;
    retry_allowed = none;
    note = none;
  });
}

abbrev entries : List SessionEntry
entries =
    entry "e1" "prepared" none
    ∷ entry "e2" "child_created" (some "s2")
    ∷ entry "e3" "transferred" (some "s2")
    ∷ []

abbrev hash : String → String
hash text = text

abbrev last : SelfHandoffRecord
last = record {
  request = request;
  status = transferred;
  updated_at = 6;
  target_session_file = some "s2";
  target_session_id = some "s2";
  kickoff = none;
  retry_allowed = none;
  note = none;
}

resolves : reduce_self_handoff_request hash entries request ≡ reduced (some last) (some "e3")
unfolding reduce_self_handoff_request parse_self_handoff_record codes utf16_length
    same_self_handoff_request is_allowed_next
resolves = refl

reopened :
    reduce_self_handoff_request hash (entries ++ entry "e4" "prepared" (some "s2") ∷ []) request
    ≡ conflict invalid_transition
unfolding reduce_self_handoff_request parse_self_handoff_record codes utf16_length
    same_self_handoff_request is_allowed_next
reopened = refl

reduce_self_handoff_request-Agrees_example :
    ((inspect_self_handoff_records hash entries).malformed ≡ false)
    × All (Agrees request last) (inspect_self_handoff_records hash entries).sources
reduce_self_handoff_request-Agrees_example =
    reduce_self_handoff_request-Agrees hash entries request last (some "e3") resolves

two_items_collected : is_some (collect_work_plan (some two_items)) ≡ true
unfolding collect_work_plan latest_work_plan_state plan_is_coherent has_sound_blockers
two_items_collected = refl

two_items_pass : refuses_transfer false (some two_items) ≡ false
unfolding refuses_transfer latest_work_plan_state plan_is_coherent has_sound_blockers
two_items_pass = refl

unblock_plan-refuses_transfer_example :
    (s' : WorkPlanState) × (unblock_plan clock (record no_params { id = some 1 }) two_items ≡ ok s')
    × (refuses_transfer false (some (save clock s')) ≡ true)
unfolding find_item find
unblock_plan-refuses_transfer_example =
    unblock_plan-refuses_transfer clock (record no_params { id = some 1 })
      (item 1 "write it" active [] (some 4)) false two_items two_items-IsValidPlan refl refl
