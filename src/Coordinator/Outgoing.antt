-- ===== src/Coordinator/Outgoing.antt =====
-- extensions/_shared/coordinator-state.ts: the status files of the messages that a session sent.
-- A session's directory maps a message id to its file; each operation runs under its lock, and reads
-- the clock where `now` is an argument. An entry of a directory listing is a name and its file.
pub mod Progress
use pi_shared.Coordinator.Records.{
  pending, queued, delivered, surfaced, acknowledged, replied, PeerMessageStatusRecord,
  StoredStatus, PersistedMessageStatus, is_true, message_status_rank,
  normalize_message_status_record, status_json,
}
use pi_shared.Coordinator.Ledger.Claims.{
  ResponseRequestBinding, LedgerDir, ResponseStatus, LedgerError, read_response_request_status,
}
use pi_shared.Coordinator.Ledger.Claims.ResponseStatus.{answered}
use pi_shared.Common.Result.{Result, ok}
use pi_shared.Scheduler.Select.{sort, or_compare}
use pi_shared.Common.{
  Bool, List, Option, Ordering, String, [], compare, drop, false, find, get_or, if◌then◌else◌,
  is_some, keep_if, leb, ltb, none, not, opt_str_eq, some, str_eq, true, ℕ, ◌&&◌, ◌-◌, ◌==◌, ◌∷◌,
}

pub record StatusFile : Type 0 where
  pub name : String
  pub content : Option StoredStatus  -- `none` if it cannot be read or parsed

abbrev pub StatusDir : Type 0
StatusDir = List StatusFile

abbrev pub parsed : StatusFile → Option PeerMessageStatusRecord
parsed file = elim file.content [ none ↦ none | some v ↦ normalize_message_status_record v ]

abbrev pub has_name : String → StatusFile → Bool
has_name id file = str_eq file.name id

-- `normalizeMessageStatusRecord(readJsonFile(outgoingStatusPath(...)))`
unfoldable pub read_status : String → StatusDir → Option PeerMessageStatusRecord
read_status id dir = elim (find (has_name id) dir) [ none ↦ none | some file ↦ parsed file ]

abbrev status_file : String → PeerMessageStatusRecord → StatusFile
status_file id r = record { name = id; content = some (status_json r) }

-- `atomicWriteJson`: the file is replaced, or made.
unfoldable pub write_status : String → PeerMessageStatusRecord → StatusDir → StatusDir
unfolding status_json
write_status id r [] = status_file id r ∷ []
write_status id r (file ∷ files) =
    if has_name id file then status_file id r ∷ files else file ∷ write_status id r files

-- `fs.rm`
unfoldable pub remove_status : String → StatusDir → StatusDir
remove_status id = keep_if (λ file. not (has_name id file))

abbrev pub stamped : PersistedMessageStatus → ℕ → PeerMessageStatusRecord → PeerMessageStatusRecord
stamped pending now r = r
stamped queued now r = r
stamped delivered now r = record r { delivered_at = some now }
stamped surfaced now r = record r { surfaced_at = some now }
stamped acknowledged now r = record r { acknowledged_at = some now }
stamped replied now r = record r { replied_at = some now }

unfoldable pub update_outgoing_message_status :
    String
    → String
    → PersistedMessageStatus
    → ℕ
    → StatusDir
    → Option PeerMessageStatusRecord × StatusDir
unfolding read_status write_status message_status_rank
update_outgoing_message_status sender id status now dir = elim (read_status id dir) [
  | none ↦ (none, dir)
  | some current ↦
      let next = stamped status now (record current { status = status; updated_at = now }) in
      if not (str_eq current.sender_session_id sender)
      then (none, dir)
      else if leb (message_status_rank status) (message_status_rank current.status)
      then (some current, dir)
      else (some next, write_status id next dir)
]

-- The second half of `markRequestReplyQueued`, on the sender's status files.
unfoldable pub record_answer : ResponseRequestBinding → ℕ → StatusDir → StatusDir
unfolding read_status write_status
record_answer b now dir = elim (read_status b.message_id dir) [
  | none ↦ dir
  | some r ↦
      if is_true r.response_requested
        && str_eq r.sender_session_id b.sender_session_id
        && opt_str_eq r.target_session_id (some b.recipient_session_id)
        && r.expires_at == b.expires_at
        && not (is_some r.response_answered_at)
      then write_status b.message_id (record r { response_answered_at = some now }) dir
      else dir
]

abbrev by_creation :
    (String → String → Ordering) → PeerMessageStatusRecord → PeerMessageStatusRecord → Ordering
by_creation locale_compare l r =
    or_compare (compare r.created_at l.created_at) (locale_compare l.message_id r.message_id)

-- The records that can be read.
unfoldable pub normalized : List StatusFile → List PeerMessageStatusRecord
normalized [] = []
normalized (file ∷ files) =
    let rest = normalized files in elim (parsed file) [ none ↦ rest | some r ↦ r ∷ rest ]

unfoldable pub read_outgoing_status_records :
    (String → String → Ordering) → String → StatusDir → List PeerMessageStatusRecord
unfolding normalized sort
read_outgoing_status_records locale_compare sender dir =
    sort (by_creation locale_compare) (
      keep_if (λ (r : PeerMessageStatusRecord). str_eq r.sender_session_id sender) (normalized dir))

abbrev pub max_outgoing_status_records : ℕ
max_outgoing_status_records = 100

unfoldable pub remove_all : List PeerMessageStatusRecord → StatusDir → StatusDir
unfolding remove_status
remove_all [] dir = dir
remove_all (stale ∷ rest) dir = remove_all rest (remove_status stale.message_id dir)

-- The part of `persistOutgoingMessageStatus` under the lock; `r` is the record of the new message.
unfoldable pub persist_outgoing_message_status :
    (String → String → Ordering) → PeerMessageStatusRecord → StatusDir → StatusDir
unfolding read_status read_outgoing_status_records remove_all write_status
persist_outgoing_message_status locale_compare r dir = elim (read_status r.message_id dir) [
  | some existing ↦ dir
  | none ↦
      let existing = read_outgoing_status_records locale_compare r.sender_session_id dir in
      write_status r.message_id r (remove_all (drop (max_outgoing_status_records - 1) existing) dir)
]

pub data MessageStatus : Type 0 where
  persisted : PersistedMessageStatus → MessageStatus
  expired unread_session_ended : MessageStatus

abbrev is_queued : PersistedMessageStatus → Bool
is_queued queued = true
is_queued pending = false
is_queued delivered = false
is_queued surfaced = false
is_queued acknowledged = false
is_queued replied = false

-- `effectiveStatus`; `alive` is `targetOrSuccessorAlive`.
unfoldable pub effective_status : PeerMessageStatusRecord → Bool → ℕ → MessageStatus
unfolding message_status_rank
effective_status r alive now =
    if not r.tracking_supported
    then persisted r.status
    else if ltb (message_status_rank r.status) (message_status_rank surfaced)
        && leb r.expires_at now
    then expired
    else if is_queued r.status && not alive
    then unread_session_ended
    else persisted r.status

-- A recipient's session is there where a response was requested: a record without one is refused.
unfoldable pub request_response_status :
    PeerMessageStatusRecord → ℕ → LedgerDir → Result LedgerError ResponseStatus
unfolding read_response_request_status
request_response_status r now dir =
    if is_some r.response_answered_at
    then ok answered
    else read_response_request_status
        (record {
          message_id = r.message_id;
          sender_session_id = r.sender_session_id;
          recipient_session_id = get_or r.target_session_id "";
          expires_at = r.expires_at;
        })
        now dir
