-- ===== src/Coordinator/Receipts.antt =====
-- extensions/_shared/coordinator-state.ts: making an envelope, and the receipts of a session, which
-- keep a message until it has been handled.
use mathlib.Core.List.{Memᴰ}
use pi_shared.Common.Result.{Result, ok, err}
use pi_shared.Coordinator.Envelopes.{
  PeerMessageEnvelope, PeerMessageSender, normalize_envelope, sanitize_message,
}
use pi_shared.Coordinator.Records.{bounded_string, is_true}
use pi_shared.Common.{
  Bool, List, Option, String, [], any_of, get_or, if◌then◌else◌, is_some, leb, length, none, not,
  some, str_eq, true, ℕ, ◌&&◌, ◌++◌, ◌+◌, ◌==◌, ◌||◌, ◌∷◌, ◌≡◌, ◌⊎◌,
}
use pi_shared.Coordinator.Outgoing.{normalized}

pub record EnvelopeInput : Type 0 where
  pub room_id : String
  pub target_runtime_id : String
  pub target_session_id : Option String
  pub sender : PeerMessageSender
  pub message : String
  pub in_reply_to : Option String
  pub request_acknowledgment : Option Bool
  pub request_response : Option Bool
  pub hops : Option ℕ

pub data EnvelopeError : Type 0 where
  inexact_request unsound_message : EnvelopeError

abbrev default_message_ttl_ms : ℕ
default_message_ttl_ms = 86400000

-- `id` is the random id; `now` is the input's, or else the clock's.
unfoldable pub create_envelope :
    String → ℕ → EnvelopeInput → Result EnvelopeError PeerMessageEnvelope
unfolding sanitize_message normalize_envelope
create_envelope id now input =
    let made = normalize_envelope (record {
      version = 1;
      id = id;
      room_id = input.room_id;
      target_runtime_id = input.target_runtime_id;
      target_session_id = input.target_session_id;
      sender = input.sender;
      message = sanitize_message input.message;
      in_reply_to = input.in_reply_to;
      request_acknowledgment = if is_true input.request_acknowledgment then some true else none;
      request_response = input.request_response;
      hops = get_or input.hops 0;
      created_at = now;
      expires_at = now + default_message_ttl_ms;
      untrusted = true;
    }) in
    if is_true input.request_response
      && (not (is_some (bounded_string input.target_session_id 1024))
          || not (get_or input.hops 0 == 0)
          || is_some input.in_reply_to)
    then err inexact_request
    else elim made [ none ↦ err unsound_message | some envelope ↦ ok envelope ]

pub record ReceiptFile : Type 0 where
  pub name : String
  pub envelope : PeerMessageEnvelope

pub data ReceiptError : Type 0 where
  invalid_receipt receipts_full : ReceiptError

abbrev pub max_session_receipts : ℕ
max_session_receipts = 100

abbrev pub has_receipt : String → List ReceiptFile → Bool
has_receipt id = any_of (λ (file : ReceiptFile). str_eq file.name id)

-- The part under the lock.
abbrev pub persist_normalized :
    String → PeerMessageEnvelope → List ReceiptFile → Result ReceiptError (List ReceiptFile)
persist_normalized id normalized receipts =
    if has_receipt id receipts
    then ok receipts
    else if leb max_session_receipts (length receipts)
    then err receipts_full
    else ok (receipts ++ record { name = id; envelope = normalized } ∷ [])

unfoldable pub persist_session_receipt :
    PeerMessageEnvelope → List ReceiptFile → Result ReceiptError (List ReceiptFile)
persist_session_receipt envelope receipts = elim (normalize_envelope envelope) [
  | none ↦ err invalid_receipt
  | some normalized ↦ persist_normalized envelope.id normalized receipts
]

-- A receipt file of that name that is there before and after.
abbrev pub IsKept : String → List ReceiptFile → List ReceiptFile → Type 0
IsKept name receipts receipts' =
    (file : ReceiptFile) × Memᴰ file receipts × (file.name ≡ name) × (receipts' ≡ receipts)

-- What a call that persists a receipt leaves: one more file, or, where one has its name, the same.
abbrev pub IsPersisted : String → PeerMessageEnvelope → List ReceiptFile → List ReceiptFile → Type 0
IsPersisted name envelope receipts receipts' =
    (receipts' ≡ receipts ++ record { name = name; envelope = envelope } ∷ [])
    ⊎ IsKept name receipts receipts'
