-- ===== src/Coordinator/Records.antt =====
-- extensions/_shared/coordinator-state.ts: the status record of an outgoing message.
-- Of a stored file what is modelled is a JSON object whose present fields have the types of the
-- record's; `StoredStatus` is such an object.
pub mod Reading
use pi_shared.Common.Maybe.{require, ◌>>=◌, ◌>>◌}
use pi_shared.Coordinator.Ids.{is_bounded, is_runtime_id, fits_pattern}
use pi_shared.Common.{
  Bool, List, Option, String, [], codes, false, if◌then◌else◌, is_some, leb, none, not, some,
  str_eq, suc, zero, ℕ, ◌&&◌, ◌==◌, ◌||◌, ◌∷◌,
}

pub data PersistedMessageStatus : Type 0 where
  pending queued delivered surfaced acknowledged replied : PersistedMessageStatus

pub record PeerMessageStatusRecord : Type 0 where
  pub message_id : String
  pub sender_session_id : String
  pub target_room_id : String
  pub target_runtime_id : String
  pub target_session_id : Option String
  pub target_session_name : Option String
  pub tracking_supported : Bool
  pub acknowledgment_requested : Bool
  pub response_requested : Option Bool
  pub response_answered_at : Option ℕ
  pub status : PersistedMessageStatus
  pub created_at : ℕ
  pub updated_at : ℕ
  pub expires_at : ℕ
  pub delivered_at : Option ℕ
  pub surfaced_at : Option ℕ
  pub acknowledged_at : Option ℕ
  pub replied_at : Option ℕ

pub record StoredStatus : Type 0 where
  pub version : ℕ
  pub message_id : Option String
  pub sender_session_id : Option String
  pub target_room_id : Option String
  pub target_runtime_id : Option String
  pub target_session_id : Option String
  pub target_session_name : Option String
  pub tracking_supported : Option Bool
  pub acknowledgment_requested : Option Bool
  pub response_requested : Option Bool
  pub response_answered_at : Option ℕ
  pub status : Option String
  pub created_at : Option ℕ
  pub updated_at : Option ℕ
  pub expires_at : Option ℕ
  pub delivered_at : Option ℕ
  pub surfaced_at : Option ℕ
  pub acknowledged_at : Option ℕ
  pub replied_at : Option ℕ

unfoldable pub message_status_rank : PersistedMessageStatus → ℕ
message_status_rank pending = 0
message_status_rank queued = 1
message_status_rank delivered = 2
message_status_rank surfaced = 3
message_status_rank acknowledged = 4
message_status_rank replied = 5

abbrev pub status_name : PersistedMessageStatus → String
status_name pending = "pending"
status_name queued = "queued"
status_name delivered = "delivered"
status_name surfaced = "surfaced"
status_name acknowledged = "acknowledged"
status_name replied = "replied"

-- The status with the name, if `MESSAGE_STATUS_RANK` has the name as a key.
unfoldable pub status_named : String → Option PersistedMessageStatus
status_named name =
    if str_eq name "pending"
    then some pending
    else if str_eq name "queued"
    then some queued
    else if str_eq name "delivered"
    then some delivered
    else if str_eq name "surfaced"
    then some surfaced
    else if str_eq name "acknowledged"
    then some acknowledged
    else if str_eq name "replied"
    then some replied
    else none

abbrev pub bounded_string : Option String → ℕ → Option String
bounded_string none limit = none
bounded_string (some s) limit = if is_bounded s limit then some s else none

abbrev is_lower_hex : ℕ → Bool
is_lower_hex c = leb b'0' c && leb c b'9' || leb b'a' c && leb c b'f'

abbrev hex_digits : ℕ → List (ℕ → Bool)
hex_digits zero = []
hex_digits (suc n) = is_lower_hex ∷ hex_digits n

abbrev is_code : ℕ → ℕ → Bool
is_code c d = d == c

-- `ROOM_ID_RE`
unfoldable pub is_room_id : String → Bool
unfolding fits_pattern codes
is_room_id s =
    fits_pattern (is_code b'g' ∷ is_code b'i' ∷ is_code b't' ∷ is_code b'-' ∷ hex_digits 32)
      (codes s)
    || fits_pattern (is_code b'c' ∷ is_code b'w' ∷ is_code b'd' ∷ is_code b'-' ∷ hex_digits 32)
        (codes s)

-- A field that is absent or passes its test.
abbrev pub absent_or : Option String → Option String → Bool
absent_or field checked = not (is_some field) || is_some checked

abbrev pub is_true : Option Bool → Bool
is_true none = false
is_true (some b) = b

-- Its conditions in the source's order, where each returns `undefined`.
unfoldable pub normalize_message_status_record : StoredStatus → Option PeerMessageStatusRecord
normalize_message_status_record v = do
  require (v.version == 1)
  message_id ← bounded_string v.message_id 64
  require (is_runtime_id message_id)
  sender ← bounded_string v.sender_session_id 1024
  room ← bounded_string v.target_room_id 64
  require (is_room_id room)
  runtime ← bounded_string v.target_runtime_id 64
  require (is_runtime_id runtime)
  require (absent_or v.target_session_id (bounded_string v.target_session_id 1024))
  tracking ← v.tracking_supported
  acknowledgment ← v.acknowledgment_requested
  require (not (is_true v.response_requested) || is_some (bounded_string v.target_session_id 1024))
  name ← v.status
  status ← status_named name
  created ← v.created_at
  updated ← v.updated_at
  expires ← v.expires_at
  some (record {
    message_id = message_id;
    sender_session_id = sender;
    target_room_id = room;
    target_runtime_id = runtime;
    target_session_id = bounded_string v.target_session_id 1024;
    target_session_name = bounded_string v.target_session_name 200;
    tracking_supported = tracking;
    acknowledgment_requested = acknowledgment;
    response_requested = v.response_requested;
    response_answered_at = if is_true v.response_requested then v.response_answered_at else none;
    status = status;
    created_at = created;
    updated_at = updated;
    expires_at = expires;
    delivered_at = v.delivered_at;
    surfaced_at = v.surfaced_at;
    acknowledged_at = v.acknowledged_at;
    replied_at = v.replied_at;
  })

-- `JSON.stringify` of a record, as it is parsed again.
unfoldable pub status_json : PeerMessageStatusRecord → StoredStatus
status_json r = record {
  version = 1;
  message_id = some r.message_id;
  sender_session_id = some r.sender_session_id;
  target_room_id = some r.target_room_id;
  target_runtime_id = some r.target_runtime_id;
  target_session_id = r.target_session_id;
  target_session_name = r.target_session_name;
  tracking_supported = some r.tracking_supported;
  acknowledgment_requested = some r.acknowledgment_requested;
  response_requested = r.response_requested;
  response_answered_at = r.response_answered_at;
  status = some (status_name r.status);
  created_at = some r.created_at;
  updated_at = some r.updated_at;
  expires_at = some r.expires_at;
  delivered_at = r.delivered_at;
  surfaced_at = r.surfaced_at;
  acknowledged_at = r.acknowledged_at;
  replied_at = r.replied_at;
}
