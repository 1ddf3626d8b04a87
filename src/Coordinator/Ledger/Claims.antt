-- ===== src/Coordinator/Ledger/Claims.antt =====
-- extensions/_shared/coordinator-state.ts: reading and changing the response request ledger.
use pi_shared.Common.Result.{Result, guard, err, ok, ◌>>=◌, ◌>>◌}
use pi_shared.Common.{
  Bool, List, Option, String, [], any_of, false, find, if◌then◌else◌, keep_if, leb, length, ltb,
  none, not, some, str_eq, true, ℕ, ◌&&◌, ◌++◌, ◌==◌, ◌||◌, ◌∷◌,
}
use pi_shared.Coordinator.Ids.{is_bounded, is_runtime_id}

pub record ResponseRequestBinding : Type 0 where
  pub message_id : String
  pub sender_session_id : String
  pub recipient_session_id : String
  pub expires_at : ℕ

-- `replyAttempted` and `replyQueued` are `true` or absent.
pub record ResponseRequestRecord : Type 0 where
  pub message_id : String
  pub sender_session_id : String
  pub recipient_session_id : String
  pub expires_at : ℕ
  pub reply_attempted : Bool
  pub reply_queued : Bool

pub record ResponseRequestLedger : Type 0 where
  pub version : ℕ
  pub recipient_session_id : String
  pub requests : List ResponseRequestRecord

pub data LedgerFile : Type 0 where
  absent unreadable : LedgerFile
  stored : ResponseRequestLedger → LedgerFile

pub data LedgerError : Type 0 where
  invalid_binding unreadable_ledger corrupt_ledger binding_mismatch ledger_full : LedgerError
  reply_not_claimed : LedgerError

abbrev pub max_response_requests : ℕ
max_response_requests = 100

-- The ledger files of all recipient sessions.
abbrev pub LedgerDir : Type 0
LedgerDir = String → LedgerFile

abbrev pub write_ledger : LedgerDir → String → LedgerFile → LedgerDir
write_ledger dir id file j = if str_eq id j then file else dir j

unfoldable pub is_valid_binding : String → String → String → ℕ → Bool
is_valid_binding message_id sender recipient expires_at =
    is_runtime_id message_id
    && is_bounded sender 1024
    && is_bounded recipient 1024
    && ltb 0 expires_at

unfoldable pub binding_is_valid : ResponseRequestBinding → Bool
unfolding is_valid_binding
binding_is_valid b =
    is_valid_binding b.message_id b.sender_session_id b.recipient_session_id b.expires_at

-- The loop over the stored requests; `ids` are the ids that it has seen.
unfoldable pub requests_are_sound : String → List String → List ResponseRequestRecord → Bool
requests_are_sound session_id ids [] = true
requests_are_sound session_id ids (item ∷ items) =
    is_valid_binding item.message_id item.sender_session_id item.recipient_session_id
      item.expires_at
    && str_eq item.recipient_session_id session_id
    && not (any_of (λ id. str_eq id item.message_id) ids)
    && not (item.reply_queued && not item.reply_attempted)
    && item.reply_attempted
    && requests_are_sound session_id (item.message_id ∷ ids) items

unfoldable pub ledger_is_sound : String → ResponseRequestLedger → Bool
unfolding requests_are_sound
ledger_is_sound session_id ledger =
    ledger.version == 1
    && str_eq ledger.recipient_session_id session_id
    && leb (length ledger.requests) max_response_requests
    && requests_are_sound session_id [] ledger.requests

unfoldable pub read_response_ledger :
    String → LedgerFile → Result LedgerError (List ResponseRequestRecord)
read_response_ledger session_id absent = ok []
read_response_ledger session_id unreadable = err unreadable_ledger
read_response_ledger session_id (stored ledger) =
    if ledger_is_sound session_id ledger then ok ledger.requests else err corrupt_ledger

abbrev pub has_id : String → ResponseRequestRecord → Bool
has_id id item = str_eq item.message_id id

abbrev pub same_binding : ResponseRequestBinding → ResponseRequestRecord → Bool
same_binding b r =
    str_eq r.sender_session_id b.sender_session_id
    && r.expires_at == b.expires_at
    && str_eq r.recipient_session_id b.recipient_session_id

check_bound :
    ResponseRequestBinding
    → Option ResponseRequestRecord
    → Result LedgerError (Option ResponseRequestRecord)
check_bound b none = ok none
check_bound b (some r) = if same_binding b r then ok (some r) else err binding_mismatch

unfoldable pub bound_response_request :
    List ResponseRequestRecord
    → ResponseRequestBinding
    → Result LedgerError (Option ResponseRequestRecord)
unfolding check_bound
bound_response_request requests b = check_bound b (find (has_id b.message_id) requests)

-- The filter reads the clock for each request; the requests of a ledger that is read differ in id.
abbrev pub Readings : Type 0
Readings = ResponseRequestRecord → ℕ

abbrev pub unexpired : Readings → List ResponseRequestRecord → List ResponseRequestRecord
unexpired clock = keep_if (λ (item : ResponseRequestRecord). ltb (clock item) item.expires_at)

abbrev pub record_of : ResponseRequestBinding → ResponseRequestRecord
record_of b = record {
  message_id = b.message_id;
  sender_session_id = b.sender_session_id;
  recipient_session_id = b.recipient_session_id;
  expires_at = b.expires_at;
  reply_attempted = false;
  reply_queued = false;
}

unfoldable pub add_response_request :
    List ResponseRequestRecord
    → ResponseRequestBinding
    → Readings
    → Result LedgerError (List ResponseRequestRecord)
add_response_request requests b clock =
    let kept = unexpired clock requests in
    if leb max_response_requests (length kept)
    then err ledger_full
    else ok (kept ++ record_of b ∷ [])

-- An assignment to a field of the record that `find` returned or `push` added.
unfoldable pub update_record :
    String
    → (ResponseRequestRecord → ResponseRequestRecord)
    → List ResponseRequestRecord
    → List ResponseRequestRecord
update_record id f [] = []
update_record id f (r ∷ rs) = if has_id id r then f r ∷ rs else r ∷ update_record id f rs

abbrev pub attempt : ResponseRequestRecord → ResponseRequestRecord
attempt r = record r { reply_attempted = true }

abbrev pub queue_reply : ResponseRequestRecord → ResponseRequestRecord
queue_reply r = record r { reply_queued = true }

-- `withResponseLedger`: the operation's value and the requests that are written back.
unfoldable pub with_response_ledger {ℓ} :
    {A : Type ℓ}
    → ResponseRequestBinding
    → (List ResponseRequestRecord → Result LedgerError (A × List ResponseRequestRecord))
    → LedgerDir
    → Result LedgerError (A × LedgerDir)
with_response_ledger b fn dir = do
  guard (binding_is_valid b) invalid_binding
  requests ← read_response_ledger b.recipient_session_id (dir b.recipient_session_id)
  result ← fn requests
  ok (
    result.0,
    write_ledger dir b.recipient_session_id (
        stored (record {
          version = 1;
          recipient_session_id = b.recipient_session_id;
          requests = result.1;
        })),
  )

-- The part of a claim after the lookup; the clock is read again when a request is
-- added.
unfoldable pub claim_found :
    ResponseRequestBinding
    → ℕ
    → Readings
    → List ResponseRequestRecord
    → Option ResponseRequestRecord
    → Result LedgerError (Bool × List ResponseRequestRecord)
unfolding add_response_request update_record
claim_found b now clock requests (some r) =
    if r.reply_attempted || leb b.expires_at now
    then ok (false, requests)
    else ok (true, update_record b.message_id attempt requests)
claim_found b now clock requests none = if leb b.expires_at now then ok (false, requests) else do
  added ← add_response_request requests b clock
  ok (true, update_record b.message_id attempt added)

-- What `claimRequestReply` does to the ledger that it was given.
unfoldable pub claim_requests :
    ResponseRequestBinding
    → ℕ
    → Readings
    → List ResponseRequestRecord
    → Result LedgerError (Bool × List ResponseRequestRecord)
unfolding bound_response_request claim_found
claim_requests b now clock requests = do
  found ← bound_response_request requests b
  claim_found b now clock requests found

unfoldable pub claim_request_reply :
    ResponseRequestBinding → ℕ → Readings → LedgerDir → Result LedgerError (Bool × LedgerDir)
unfolding with_response_ledger claim_requests
claim_request_reply b now clock = with_response_ledger b (claim_requests b now clock)

unfoldable pub mark_found :
    ResponseRequestBinding
    → List ResponseRequestRecord
    → Option ResponseRequestRecord
    → Result LedgerError (Unit {0} × List ResponseRequestRecord)
mark_found b requests none = err reply_not_claimed
mark_found b requests (some r) =
    if not r.reply_attempted
    then err reply_not_claimed
    else ok (tt, update_record b.message_id queue_reply requests)

unfoldable pub mark_requests :
    ResponseRequestBinding
    → List ResponseRequestRecord
    → Result LedgerError (Unit {0} × List ResponseRequestRecord)
unfolding bound_response_request mark_found update_record
mark_requests b requests = do found ← bound_response_request requests b; mark_found b requests found

-- The first half of `markRequestReplyQueued`, on the recipient's ledger.
unfoldable pub mark_reply_queued :
    ResponseRequestBinding → LedgerDir → Result LedgerError (Unit {0} × LedgerDir)
unfolding with_response_ledger mark_requests
mark_reply_queued b = with_response_ledger b (mark_requests b)

-- An operation that throws writes nothing.
abbrev pub dir_after {ℓ} : {A : Type ℓ} → LedgerDir → Result LedgerError (A × LedgerDir) → LedgerDir
dir_after dir (ok (a, dir')) = dir'
dir_after dir (err e) = dir

pub data ResponseStatus : Type 0 where
  answered expired unanswered pending : ResponseStatus

unfoldable pub status_found : ℕ → ℕ → Option ResponseRequestRecord → ResponseStatus
status_found expires_at now none = if leb expires_at now then expired else pending
status_found expires_at now (some r) =
    if r.reply_queued
    then answered
    else if leb expires_at now
    then expired
    else if r.reply_attempted
    then unanswered
    else pending

unfoldable pub read_response_request_status :
    ResponseRequestBinding → ℕ → LedgerDir → Result LedgerError ResponseStatus
unfolding bound_response_request status_found
read_response_request_status b now dir = do
  guard (binding_is_valid b) invalid_binding
  requests ← read_response_ledger b.recipient_session_id (dir b.recipient_session_id)
  found ← bound_response_request requests b
  ok (status_found b.expires_at now found)
