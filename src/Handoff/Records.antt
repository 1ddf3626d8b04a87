-- ===== src/Handoff/Records.antt =====
-- extensions/_shared/handoff-state.ts: the records and how they are parsed.
-- Of an entry's data what is modelled is a JSON object whose present fields have the types of the
-- record's; anything else is `none`. The hash of a kickoff text is the parameter `kickoff_hash`.
use pi_shared.Common.Maybe.{require, ◌>>=◌, ◌>>◌}
use pi_shared.Common.{
  Bool, Option, String, all_of, codes, false, if◌then◌else◌, is_some, leb, length, none, not, some,
  str_eq, true, utf16_length, ℕ, ◌&&◌, ◌==◌, ◌||◌,
}

pub data SelfHandoffStatus : Type 0 where
  prepared child_created received awaiting_user transferred cancelled failed : SelfHandoffStatus

pub record SelfHandoffRequest : Type 0 where
  pub id : String
  pub created_at : ℕ
  pub origin_session_id : String
  pub origin_session_file : String
  pub context_nonce : String
  pub kickoff_hash : Option String
  pub goal_transferred : Bool
  pub goal_id : Option String
  pub work_plan_transferred : Bool

pub record SelfHandoffRecord : Type 0 where
  pub request : SelfHandoffRequest
  pub status : SelfHandoffStatus
  pub updated_at : ℕ
  pub target_session_file : Option String
  pub target_session_id : Option String
  pub kickoff : Option String
  pub retry_allowed : Option Bool
  pub note : Option String

pub record StoredRequest : Type 0 where
  pub version : ℕ
  pub id : Option String
  pub created_at : Option ℕ
  pub origin_session_id : Option String
  pub origin_session_file : Option String
  pub context_nonce : Option String
  pub kickoff_hash : Option String
  pub goal_transferred : Option Bool
  pub goal_id : Option String
  pub work_plan_transferred : Option Bool

pub record StoredHandoff : Type 0 where
  pub version : ℕ
  pub request : Option StoredRequest
  pub status : Option String
  pub updated_at : Option ℕ
  pub target_session_file : Option String
  pub target_session_id : Option String
  pub kickoff : Option String
  pub retry_allowed : Option Bool
  pub note : Option String

-- An entry of a session; `content` is its data if that is an object of the form above.
pub record SessionEntry : Type 0 where
  pub id : Option String
  pub kind : String
  pub custom_type : Option String
  pub content : Option StoredHandoff

unfoldable pub handoff_status_named : String → Option SelfHandoffStatus
handoff_status_named name =
    if str_eq name "prepared"
    then some prepared
    else if str_eq name "child_created"
    then some child_created
    else if str_eq name "received"
    then some received
    else if str_eq name "awaiting_user"
    then some awaiting_user
    else if str_eq name "transferred"
    then some transferred
    else if str_eq name "cancelled"
    then some cancelled
    else if str_eq name "failed"
    then some failed
    else none

abbrev pub non_empty : String → Bool
non_empty s = not (str_eq s "")

abbrev pub absent_or_non_empty : Option String → Bool
absent_or_non_empty none = true
absent_or_non_empty (some s) = non_empty s

abbrev is_lower_hex : ℕ → Bool
is_lower_hex c = leb b'0' c && leb c b'9' || leb b'a' c && leb c b'f'

-- `/^[a-f0-9]{64}$/`
unfoldable pub is_sha256 : String → Bool
unfolding codes all_of
is_sha256 s = length (codes s) == 64 && all_of is_lower_hex (codes s)

abbrev pub absent_or_sha256 : Option String → Bool
absent_or_sha256 none = true
absent_or_sha256 (some s) = is_sha256 s

abbrev pub is_received : SelfHandoffStatus → Bool
is_received received = true
is_received prepared = false
is_received child_created = false
is_received awaiting_user = false
is_received transferred = false
is_received cancelled = false
is_received failed = false

-- The statuses that a record of a child has.
abbrev pub needs_child : SelfHandoffStatus → Bool
needs_child child_created = true
needs_child received = true
needs_child awaiting_user = true
needs_child transferred = true
needs_child prepared = false
needs_child cancelled = false
needs_child failed = false

abbrev same_presence : Option String → Option String → Bool
same_presence a b = if is_some a then is_some b else not (is_some b)

abbrev kickoff_matches : (String → String) → Option String → Option String → Bool
kickoff_matches kickoff_hash none kickoff = true
kickoff_matches kickoff_hash (some hash) none = false
kickoff_matches kickoff_hash (some hash) (some text) = str_eq (kickoff_hash text) hash

abbrev short_kickoff : Option String → Bool
short_kickoff none = true
short_kickoff (some text) = leb (utf16_length text) 100000

unfoldable pub parse_request : StoredRequest → Option SelfHandoffRequest
unfolding is_sha256
parse_request v = do
  require (v.version == 1)
  id ← v.id
  require (non_empty id)
  created ← v.created_at
  session ← v.origin_session_id
  require (non_empty session)
  file ← v.origin_session_file
  require (non_empty file)
  nonce ← v.context_nonce
  require (leb 16 (utf16_length nonce))
  require (absent_or_sha256 v.kickoff_hash)
  goal ← v.goal_transferred
  require
      (if goal then is_some v.goal_id && absent_or_non_empty v.goal_id else not (is_some v.goal_id))
  plan ← v.work_plan_transferred
  some (record {
    id = id;
    created_at = created;
    origin_session_id = session;
    origin_session_file = file;
    context_nonce = nonce;
    kickoff_hash = v.kickoff_hash;
    goal_transferred = goal;
    goal_id = v.goal_id;
    work_plan_transferred = plan;
  })

unfoldable pub parse_self_handoff_record :
    (String → String) → StoredHandoff → Option SelfHandoffRecord
unfolding parse_request handoff_status_named
parse_self_handoff_record kickoff_hash v = do
  require (v.version == 1)
  stored ← v.request
  request ← parse_request stored
  name ← v.status
  status ← handoff_status_named name
  updated ← v.updated_at
  require (absent_or_non_empty v.target_session_file)
  require (absent_or_non_empty v.target_session_id)
  require (same_presence v.target_session_file v.target_session_id)
  require (short_kickoff v.kickoff)
  require (not (is_received status) || kickoff_matches kickoff_hash request.kickoff_hash v.kickoff)
  require (not (needs_child status) || is_some v.target_session_file && is_some v.target_session_id)
  some (record {
    request = request;
    status = status;
    updated_at = updated;
    target_session_file = v.target_session_file;
    target_session_id = v.target_session_id;
    kickoff = v.kickoff;
    retry_allowed = v.retry_allowed;
    note = v.note;
  })
