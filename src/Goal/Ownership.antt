-- ===== src/Goal/Ownership.antt =====
-- extensions/goal/index.ts: whether this session owns a goal that a handoff may have moved, from the
-- audit records of Handoff.
use pi_shared.Common.{
  Bool, List, Option, String, [], false, find, if◌then◌else◌, is_some, keep_if, map, none, not,
  opt_str_eq, some, str_eq, true, ◌&&◌, ◌||◌, ◌∷◌, any_of,
}
use pi_shared.Handoff.Records.{
  prepared, child_created, received, awaiting_user, transferred, cancelled, failed,
  SelfHandoffRecord, SelfHandoffStatus, SessionEntry,
}
use pi_shared.Handoff.Reduce.{
  HandoffAudit, HandoffSource, Reduced, reduced, conflict, inspect_self_handoff_records,
  reduce_self_handoff_request,
}

-- What the code reads of the session.
pub record SessionView : Type 0 where
  pub session_id : String
  pub session_file : Option String
  pub entries : List SessionEntry
  pub branch : List SessionEntry

pub data BlockReason : Type 0 where
  malformed_audit : BlockReason
  conflicting_records : BlockReason
  child_not_final : BlockReason
  not_owner : BlockReason

pub record Lookup : Type 0 where
  pub malformed : Bool
  pub found : Option SelfHandoffRecord

abbrev pub audit_records : HandoffAudit → List SelfHandoffRecord
audit_records audit = map (λ (s : HandoffSource). s.handoff) audit.sources

abbrev pub lookup_of : Reduced → Lookup
lookup_of (reduced r id) = record { malformed = false; found = r }
lookup_of (conflict c) = record { malformed = true; found = none }

abbrev pub is_open_child : SelfHandoffStatus → Bool
is_open_child received = true
is_open_child awaiting_user = true
is_open_child failed = true
is_open_child prepared = false
is_open_child child_created = false
is_open_child transferred = false
is_open_child cancelled = false

abbrev pub is_oriented : SelfHandoffStatus → Bool
is_oriented received = true
is_oriented awaiting_user = true
is_oriented failed = false
is_oriented prepared = false
is_oriented child_created = false
is_oriented transferred = false
is_oriented cancelled = false

abbrev pub is_in_progress : SelfHandoffStatus → Bool
is_in_progress prepared = true
is_in_progress child_created = true
is_in_progress received = false
is_in_progress awaiting_user = false
is_in_progress failed = false
is_in_progress transferred = false
is_in_progress cancelled = false

abbrev pub is_transferred : SelfHandoffStatus → Bool
is_transferred transferred = true
is_transferred prepared = false
is_transferred child_created = false
is_transferred received = false
is_transferred awaiting_user = false
is_transferred failed = false
is_transferred cancelled = false

-- `goalId === undefined || request.goalId === goalId`
abbrev pub concerns : Option String → SelfHandoffRecord → Bool
concerns none r = true
concerns (some id) r = opt_str_eq r.request.goal_id (some id)

abbrev pub is_target : SessionView → SelfHandoffRecord → Bool
is_target v r =
    opt_str_eq r.target_session_id (some v.session_id)
    && opt_str_eq r.target_session_file v.session_file

module _ (kickoff_hash : String → String) where
  abbrev pub found_lookup : List SessionEntry → Option SelfHandoffRecord → Lookup
  found_lookup entries none = record { malformed = false; found = none }
  found_lookup entries (some r) =
      lookup_of (reduce_self_handoff_request kickoff_hash entries r.request)

  unfoldable pub latest_handoff_for_request : List SessionEntry → String → Lookup
  latest_handoff_for_request entries request_id =
      let audit = inspect_self_handoff_records kickoff_hash entries in
      if audit.malformed
      then record { malformed = true; found = none }
      else found_lookup entries (find (λ r. str_eq r.request.id request_id) (audit_records audit))

  -- What one round of the loops over the request ids returns, if it returns.
  abbrev pub verdict : (SelfHandoffRecord → Bool) → BlockReason → Lookup → Option BlockReason
  verdict blocks reason l =
      if l.malformed
      then some conflicting_records
      else elim l.found [ none ↦ none | some r ↦ if blocks r then some reason else none ]

  -- The loop; an id that comes again gives what it gave before.
  unfoldable pub first_reason :
      List SessionEntry
      → (SelfHandoffRecord → Bool)
      → BlockReason
      → List SelfHandoffRecord
      → Option BlockReason
  first_reason entries blocks reason [] = none
  first_reason entries blocks reason (r ∷ rs) =
      let rest = first_reason entries blocks reason rs in
      elim (verdict blocks reason (latest_handoff_for_request entries r.request.id)) [
        | none ↦ rest
        | some e ↦ some e
      ]

  unfoldable pub unresolved_child_ownership : SessionView → Option String → Option BlockReason
  unresolved_child_ownership v goal_id =
      let audit = inspect_self_handoff_records kickoff_hash v.entries in
      if audit.malformed
      then some malformed_audit
      else first_reason v.entries (λ r. is_open_child r.status && concerns goal_id r)
          child_not_final
          (keep_if
            (λ r.
              is_target v r && not (opt_str_eq (some r.request.origin_session_file) v.session_file))
            (audit_records audit))

  unfoldable pub outbound_goal_ownership : SessionView → Option String → Option BlockReason
  outbound_goal_ownership v goal_id =
      let audit = inspect_self_handoff_records kickoff_hash v.entries in
      if audit.malformed
      then some malformed_audit
      else first_reason v.entries
          (λ r. is_in_progress r.status || is_some goal_id && is_transferred r.status) not_owner
          (keep_if
            (λ r.
              r.request.goal_transferred
              && str_eq r.request.origin_session_id v.session_id
              && opt_str_eq (some r.request.origin_session_file) v.session_file
              && concerns goal_id r)
            (audit_records audit))

  abbrev pub is_oriented_lookup : Lookup → Bool
  is_oriented_lookup l =
      not l.malformed && elim l.found [ none ↦ false | some r ↦ is_oriented r.status ]

  -- Whether a record of the goal lets this session, its child, reactivate it.
  unfoldable pub lets_reactivate : SessionView → String → SelfHandoffRecord → Bool
  lets_reactivate v goal_id r =
      opt_str_eq r.request.goal_id (some goal_id)
      && is_target v r
      && is_oriented_lookup (latest_handoff_for_request v.entries r.request.id)
      && is_oriented_lookup (latest_handoff_for_request v.branch r.request.id)

  abbrev pub after_child : SessionView → String → Option BlockReason → Option BlockReason
  after_child v goal_id none = none
  after_child v goal_id (some reason) =
      let audit = inspect_self_handoff_records kickoff_hash v.entries in
      if audit.malformed
      then some reason
      else (if any_of (lets_reactivate v goal_id) (audit_records audit) then none else some reason)

  abbrev pub or_child : SessionView → String → Option BlockReason → Option BlockReason
  or_child v goal_id (some reason) = some reason
  or_child v goal_id none = after_child v goal_id (unresolved_child_ownership v (some goal_id))

  unfoldable pub reactivation_block_reason : SessionView → String → Option BlockReason
  reactivation_block_reason v goal_id =
      or_child v goal_id (outbound_goal_ownership v (some goal_id))
