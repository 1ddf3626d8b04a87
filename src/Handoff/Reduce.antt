-- ===== src/Handoff/Reduce.antt =====
-- extensions/_shared/handoff-state.ts: the state of a request, from all audit records of a session.
use pi_shared.Handoff.Records.{
  prepared, child_created, received, awaiting_user, transferred, cancelled, failed,
  SelfHandoffStatus, SelfHandoffRequest, SelfHandoffRecord, SessionEntry, parse_self_handoff_record,
}
use pi_shared.Common.{
  Bool, List, Option, String, [], false, if◌then◌else◌, is_some, none, not, opt_str_eq, some,
  str_eq, true, ◌&&◌, ◌==◌, ◌||◌, ◌∷◌,
}

pub record HandoffSource : Type 0 where
  pub handoff : SelfHandoffRecord
  pub entry_id : Option String

pub record HandoffAudit : Type 0 where
  pub sources : List HandoffSource
  pub malformed : Bool

abbrev is_handoff_entry : SessionEntry → Bool
is_handoff_entry entry =
    str_eq entry.kind "custom" && opt_str_eq entry.custom_type (some "pi-self-handoff-state")

abbrev parsed_entry : (String → String) → SessionEntry → Option SelfHandoffRecord
parsed_entry kickoff_hash entry = elim entry.content [
  | none ↦ none
  | some v ↦ parse_self_handoff_record kickoff_hash v
]

abbrev add_audit : Option String → Option SelfHandoffRecord → HandoffAudit → HandoffAudit
add_audit id none audit = record audit { malformed = true }
add_audit id (some r) audit = record audit {
  sources = record { handoff = r; entry_id = id } ∷ audit.sources;
}

unfoldable pub inspect_self_handoff_records : (String → String) → List SessionEntry → HandoffAudit
inspect_self_handoff_records kickoff_hash [] = record { sources = []; malformed = false }
inspect_self_handoff_records kickoff_hash (entry ∷ entries) =
    let rest = inspect_self_handoff_records kickoff_hash entries in
    if is_handoff_entry entry
    then add_audit entry.id (parsed_entry kickoff_hash entry) rest
    else rest

unfoldable pub same_self_handoff_request : SelfHandoffRequest → SelfHandoffRequest → Bool
same_self_handoff_request l r =
    str_eq l.id r.id
    && l.created_at == r.created_at
    && str_eq l.origin_session_id r.origin_session_id
    && str_eq l.origin_session_file r.origin_session_file
    && str_eq l.context_nonce r.context_nonce
    && opt_str_eq l.kickoff_hash r.kickoff_hash
    && (if l.goal_transferred then r.goal_transferred else not r.goal_transferred)
    && opt_str_eq l.goal_id r.goal_id
    && (if l.work_plan_transferred then r.work_plan_transferred else not r.work_plan_transferred)

-- `allowedNext`
unfoldable pub is_allowed_next : SelfHandoffStatus → SelfHandoffStatus → Bool
is_allowed_next prepared prepared = true
is_allowed_next prepared child_created = true
is_allowed_next prepared cancelled = true
is_allowed_next prepared failed = true
is_allowed_next prepared received = false
is_allowed_next prepared awaiting_user = false
is_allowed_next prepared transferred = false
is_allowed_next child_created child_created = true
is_allowed_next child_created transferred = true
is_allowed_next child_created failed = true
is_allowed_next child_created prepared = false
is_allowed_next child_created received = false
is_allowed_next child_created awaiting_user = false
is_allowed_next child_created cancelled = false
is_allowed_next received received = true
is_allowed_next received awaiting_user = true
is_allowed_next received failed = true
is_allowed_next received prepared = false
is_allowed_next received child_created = false
is_allowed_next received transferred = false
is_allowed_next received cancelled = false
is_allowed_next awaiting_user awaiting_user = true
is_allowed_next awaiting_user transferred = true
is_allowed_next awaiting_user failed = true
is_allowed_next awaiting_user prepared = false
is_allowed_next awaiting_user child_created = false
is_allowed_next awaiting_user received = false
is_allowed_next awaiting_user cancelled = false
is_allowed_next transferred transferred = true
is_allowed_next transferred prepared = false
is_allowed_next transferred child_created = false
is_allowed_next transferred received = false
is_allowed_next transferred awaiting_user = false
is_allowed_next transferred cancelled = false
is_allowed_next transferred failed = false
is_allowed_next cancelled cancelled = true
is_allowed_next cancelled prepared = false
is_allowed_next cancelled child_created = false
is_allowed_next cancelled received = false
is_allowed_next cancelled awaiting_user = false
is_allowed_next cancelled transferred = false
is_allowed_next cancelled failed = false
is_allowed_next failed failed = true
is_allowed_next failed prepared = false
is_allowed_next failed child_created = false
is_allowed_next failed received = false
is_allowed_next failed awaiting_user = false
is_allowed_next failed transferred = false
is_allowed_next failed cancelled = false

pub data HandoffConflict : Type 0 where
  malformed_record request_changed child_disappeared child_changed invalid_transition :
      HandoffConflict

pub data Reduced : Type 0 where
  reduced : Option SelfHandoffRecord → Option String → Reduced
  conflict : HandoffConflict → Reduced

-- The variables of the loop.
pub record ReduceState : Type 0 where
  pub current : Option SelfHandoffRecord
  pub current_entry_id : Option String
  pub target_session_file : Option String
  pub target_session_id : Option String

-- `known !== undefined && known !== found`
abbrev pub differs : Option String → Option String → Bool
differs none found = false
differs (some k) found = not (opt_str_eq (some k) found)

abbrev pub child_differs : ReduceState → SelfHandoffRecord → Bool
child_differs s r =
    is_some r.target_session_file
    && (differs s.target_session_file r.target_session_file
        || differs s.target_session_id r.target_session_id)

abbrev pub may_follow : Option SelfHandoffRecord → SelfHandoffRecord → Bool
may_follow none r = true
may_follow (some c) r = is_allowed_next c.status r.status

abbrev pub advance : ReduceState → HandoffSource → ReduceState
advance s source = record {
  current = some source.handoff;
  current_entry_id = source.entry_id;
  target_session_file =
      if is_some source.handoff.target_session_file
      then source.handoff.target_session_file
      else s.target_session_file;
  target_session_id =
      if is_some source.handoff.target_session_file
      then source.handoff.target_session_id
      else s.target_session_id;
}

unfoldable pub reduce_sources : SelfHandoffRequest → ReduceState → List HandoffSource → Reduced
reduce_sources expected s [] = reduced s.current s.current_entry_id
reduce_sources expected s (source ∷ sources) =
    let r = source.handoff in
    let skip = reduce_sources expected s sources in
    let go = reduce_sources expected (advance s source) sources in
    if not (str_eq r.request.id expected.id)
    then skip
    else if not (same_self_handoff_request r.request expected)
    then conflict request_changed
    else if is_some s.target_session_file && not (is_some r.target_session_file)
    then conflict child_disappeared
    else if child_differs s r
    then conflict child_changed
    else if not (may_follow s.current r)
    then conflict invalid_transition
    else go

abbrev pub no_record : ReduceState
no_record = record {
  current = none;
  current_entry_id = none;
  target_session_file = none;
  target_session_id = none;
}

unfoldable pub reduce_self_handoff_request :
    (String → String) → List SessionEntry → SelfHandoffRequest → Reduced
unfolding inspect_self_handoff_records reduce_sources
reduce_self_handoff_request kickoff_hash entries expected =
    let audit = inspect_self_handoff_records kickoff_hash entries in
    if audit.malformed
    then conflict malformed_record
    else reduce_sources expected no_record audit.sources
