-- ===== src/Coordinator/Envelopes.antt =====
-- extensions/_shared/coordinator-state.ts: envelopes, and the inbox that they are put into.
-- An envelope is modelled as far as its fields have the interface's types. Of a peer's presence there
-- are the fields that delivery reads. A file of an inbox is named by its envelope's time and id.
use Prim.Native.Char.{code}
use pi_shared.Common.Maybe.{require, ◌>>=◌, ◌>>◌}
use pi_shared.Common.Result.{Result, ok, err}
use pi_shared.Coordinator.Ids.{is_runtime_id}
use pi_shared.Coordinator.Records.{bounded_string, is_room_id, is_true, absent_or}
use pi_shared.Scheduler.State.{KillResult, is_process_alive}
use pi_shared.Common.{
  Bool, List, Option, String, [], false, if◌then◌else◌, is_some, leb, length, ltb, none, not, some,
  str_eq, trim, true, ℕ, ◌&&◌, ◌+◌, ◌==◌, ◌||◌, ◌∷◌,
}
use pi_shared.Coordinator.Outgoing.{normalized}

pub record PeerMessageSender : Type 0 where
  pub runtime_id : String
  pub session_id : String
  pub session_name : Option String
  pub worktree_root : String

pub record PeerMessageEnvelope : Type 0 where
  pub version : ℕ
  pub id : String
  pub room_id : String
  pub target_runtime_id : String
  pub target_session_id : Option String
  pub sender : PeerMessageSender
  pub message : String
  pub in_reply_to : Option String
  pub request_acknowledgment : Option Bool
  pub request_response : Option Bool
  pub hops : ℕ
  pub created_at : ℕ
  pub expires_at : ℕ
  pub untrusted : Bool

abbrev pub max_message_bytes : ℕ
max_message_bytes = 8192

abbrev pub max_inbox_messages : ℕ
max_inbox_messages = 100

-- `Buffer.byteLength(s, "utf8")`
unfoldable pub byte_length : String → ℕ
byte_length String.[] = 0
byte_length (String.◌∷◌ c s) =
    (if ltb (code c) 0x80
      then 1
      else if ltb (code c) 0x800
      then 2
      else if ltb (code c) 0x10000
      then 3
      else 4)
    + byte_length s

-- The characters that `sanitizeMessage` removes once returns are gone.
unfoldable pub is_control : ℕ → Bool
is_control c =
    leb c 8 || c == 0x0b || c == 0x0c || leb 0x0e c && leb c 0x1f || leb 0x7f c && leb c 0x9f

-- `.replace(/\r\n?/g, "\n")`; `after_return` says that the last character was a return.
unfoldable pub unify_lines : Bool → String → String
unify_lines after_return String.[] = String.[]
unify_lines after_return (String.◌∷◌ c s) =
    let rest = unify_lines (code c == 13) s in
    if code c == 13
    then String.◌∷◌ "\n" rest
    else if code c == 10 && after_return
    then rest
    else String.◌∷◌ c rest

unfoldable pub drop_controls : String → String
unfolding is_control
drop_controls String.[] = String.[]
drop_controls (String.◌∷◌ c s) =
    let rest = drop_controls s in if is_control (code c) then rest else String.◌∷◌ c rest

unfoldable pub sanitize_message : String → String
unfolding unify_lines drop_controls
sanitize_message s = trim (drop_controls (unify_lines false s))

abbrev true_or_absent : Option Bool → Option Bool
true_or_absent b = if is_true b then some true else none

abbrev is_reply_id : Option String → Bool
is_reply_id none = true
is_reply_id (some id) = is_runtime_id id

unfoldable pub normalize_envelope : PeerMessageEnvelope → Option PeerMessageEnvelope
normalize_envelope v = do
  id ← bounded_string (some v.id) 64
  room ← bounded_string (some v.room_id) 64
  target ← bounded_string (some v.target_runtime_id) 64
  runtime ← bounded_string (some v.sender.runtime_id) 64
  session ← bounded_string (some v.sender.session_id) 1024
  worktree ← bounded_string (some v.sender.worktree_root) 8192
  require (v.version == 1)
  require (is_runtime_id id && is_room_id room && is_runtime_id target && is_runtime_id runtime)
  require (not (str_eq (sanitize_message v.message) ""))
  require (leb (byte_length (sanitize_message v.message)) max_message_bytes)
  require (v.hops == 0 || v.hops == 1)
  require (absent_or v.target_session_id (bounded_string v.target_session_id 1024))
  require (is_reply_id v.in_reply_to)
  require (
      not (is_true v.request_response)
      || is_some (bounded_string v.target_session_id 1024)
        && v.hops == 0
        && not (is_some v.in_reply_to))
  require v.untrusted
  some (record {
    version = 1;
    id = id;
    room_id = room;
    target_runtime_id = target;
    target_session_id = bounded_string v.target_session_id 1024;
    sender = record {
      runtime_id = runtime;
      session_id = session;
      session_name = bounded_string v.sender.session_name 200;
      worktree_root = worktree;
    };
    message = sanitize_message v.message;
    in_reply_to = bounded_string v.in_reply_to 64;
    request_acknowledgment = true_or_absent v.request_acknowledgment;
    request_response = true_or_absent v.request_response;
    hops = v.hops;
    created_at = v.created_at;
    expires_at = v.expires_at;
    untrusted = true;
  })

pub record PeerPresence : Type 0 where
  pub room_id : String
  pub session_id : String
  pub pid : ℕ
  pub lease_expires_at : ℕ
  pub request_response_version : Option ℕ

unfoldable pub is_presence_active : (ℕ → KillResult) → ℕ → PeerPresence → Bool
unfolding is_process_alive
is_presence_active kill now peer = ltb now peer.lease_expires_at && is_process_alive kill peer.pid

pub data EnqueueError : Type 0 where
  invalid_envelope not_live session_changed no_response_support inbox_full : EnqueueError

abbrev is_one : Option ℕ → Bool
is_one none = false
is_one (some n) = n == 1

-- `envelope.targetSessionId && target.sessionId !== envelope.targetSessionId`
abbrev pub targets_other : Option String → PeerPresence → Bool
targets_other none target = false
targets_other (some id) target = not (str_eq id "") && not (str_eq target.session_id id)

abbrev pub same_file : PeerMessageEnvelope → PeerMessageEnvelope → Bool
same_file a b = a.created_at == b.created_at && str_eq a.id b.id

unfoldable pub write_message :
    PeerMessageEnvelope → List PeerMessageEnvelope → List PeerMessageEnvelope
write_message e [] = e ∷ []
write_message e (f ∷ fs) = if same_file f e then e ∷ fs else f ∷ write_message e fs

-- The part of `enqueueMessage` once the target's presence is known.
unfoldable pub enqueue_for :
    (ℕ → KillResult)
    → ℕ
    → PeerMessageEnvelope
    → PeerMessageEnvelope
    → PeerPresence
    → List PeerMessageEnvelope
    → Result EnqueueError (List PeerMessageEnvelope)
enqueue_for kill now envelope normalized target inbox =
    if not (str_eq target.room_id envelope.room_id) || not (is_presence_active kill now target)
    then err not_live
    else if targets_other envelope.target_session_id target
    then err session_changed
    else if is_true normalized.request_response && not (is_one target.request_response_version)
    then err no_response_support
    else if leb max_inbox_messages (length inbox)
    then err inbox_full
    else ok (write_message normalized inbox)

unfoldable pub enqueue_message :
    (ℕ → KillResult)
    → ℕ
    → PeerMessageEnvelope
    → Option PeerPresence
    → List PeerMessageEnvelope
    → Result EnqueueError (List PeerMessageEnvelope)
enqueue_message kill now envelope presence inbox = elim (normalize_envelope envelope) [
  | none ↦ err invalid_envelope
  | some normalized ↦ elim presence [
    | none ↦ err not_live
    | some target ↦ enqueue_for kill now envelope normalized target inbox
  ]
]
