-- ===== src/Coordinator/Tests.antt =====
-- Runs of the coordinator's ledgers and status files at concrete states, and the theorems applied there.
use pi_shared.Common.{
  [], List, any_of, arith, codes, false, find, if◌then◌else◌, keep_if, leb, refl, true,
  utf16_length, ◌∷◌, ◌≡◌, ◌≤◌, none, some, is_space, trim, ℕ,
}
use pi_shared.Common.Result.{ok}
use pi_shared.Coordinator.Ids.{
  is_runtime_id, is_bounded, fits_pattern, is_dash, is_hex, is_uuid_variant, is_uuid_version,
}
use pi_shared.Coordinator.Ledger.Claims.{
  absent, answered, expired, unanswered, LedgerDir, ResponseRequestBinding, add_response_request,
  binding_is_valid, bound_response_request, claim_found, claim_request_reply, claim_requests,
  is_valid_binding, ledger_is_sound, mark_found, mark_reply_queued, mark_requests,
  read_response_ledger, read_response_request_status, requests_are_sound, update_record,
  with_response_ledger,
}
use pi_shared.Coordinator.Ledger.Once.{
  claim, mark, LedgerOp, apply_op, count_wins, count_wins-le-one, won,
}
use pi_shared.Coordinator.Ledger.Soundness.{IsReadable}
use pi_shared.Coordinator.Ledger.Lifecycle.{apply_op-IsReadable}
use pi_shared.Coordinator.Ledger.Answers.{apply_ops, claim_then_mark}
use pi_shared.Coordinator.Wake.{WakeDir, WakeFile}
use pi_shared.Coordinator.Wake.Once.{WakeClaim, count_wakes, count_wakes-le-one}
use pi_shared.Coordinator.Records.{
  queued, surfaced, delivered, PeerMessageStatusRecord, status_json,
  normalize_message_status_record, is_room_id, status_named,
}
use pi_shared.Coordinator.Records.Reading.{read_again}
use pi_shared.Coordinator.Outgoing.{StatusDir, read_status}
use pi_shared.Coordinator.Outgoing.Progress.{
  StatusOp, updated, answer, Advances, run_status_ops, run_status_ops-Advances,
}
use pi_shared.Coordinator.Envelopes.{
  PeerMessageEnvelope, PeerPresence, enqueue_message, enqueue_for, write_message,
  normalize_envelope, is_presence_active, sanitize_message, byte_length,
}
use pi_shared.Coordinator.Delivery.{IsDelivered, enqueue_message-IsDelivered}
use pi_shared.Coordinator.Receipts.{ReceiptFile, persist_session_receipt}
use pi_shared.Scheduler.State.{KillResult}

abbrev binding : ResponseRequestBinding
binding = record {
  message_id = "123e4567-e89b-42d3-a456-426614174000";
  sender_session_id = "alpha";
  recipient_session_id = "beta";
  expires_at = 1000;
}

abbrev no_ledgers : LedgerDir
no_ledgers _ = absent

abbrev operations : List LedgerOp
operations = claim binding 10 (λ r. 11) ∷ mark binding ∷ claim binding 20 (λ r. 21) ∷ []

claimed : won (claim_request_reply binding 10 (λ r. 11) no_ledgers) ≡ true
unfolding claim_request_reply with_response_ledger binding_is_valid is_valid_binding is_runtime_id
    is_bounded codes utf16_length fits_pattern is_hex is_dash is_uuid_version is_uuid_variant
    read_response_ledger claim_requests bound_response_request claim_found add_response_request
    update_record find keep_if
claimed = refl

counted : count_wins binding operations no_ledgers ≡ 1
unfolding claim_request_reply with_response_ledger binding_is_valid is_valid_binding is_runtime_id
    is_bounded codes utf16_length fits_pattern is_hex is_dash is_uuid_version is_uuid_variant
    read_response_ledger claim_requests bound_response_request claim_found add_response_request
    update_record find keep_if count_wins mark_reply_queued mark_requests mark_found ledger_is_sound
    requests_are_sound any_of
counted = refl

late_claim : won (claim_request_reply binding 1000 (λ r. 1001) no_ledgers) ≡ false
unfolding claim_request_reply with_response_ledger binding_is_valid is_valid_binding is_runtime_id
    is_bounded codes utf16_length fits_pattern is_hex is_dash is_uuid_version is_uuid_variant
    read_response_ledger claim_requests bound_response_request claim_found add_response_request
    update_record find keep_if
late_claim = refl

count_wins-le-one_example : count_wins binding operations no_ledgers ≤ 1
count_wins-le-one_example = count_wins-le-one binding 5 operations no_ledgers (
  11,
  omega arith,
  omega arith,
  (λ r. omega arith),
  (21, omega arith, omega arith, (λ r. omega arith), tt),
)

apply_op-IsReadable_example :
    IsReadable "beta" (apply_op (claim binding 10 (λ r. 11)) no_ledgers "beta")
apply_op-IsReadable_example = apply_op-IsReadable (claim binding 10 (λ r. 11)) no_ledgers "beta" tt

claim_then_mark_example :
    (read_response_request_status binding 30 (apply_op (claim binding 10 (λ r. 11)) no_ledgers)
      ≡ ok (if leb 1000 30 then expired else unanswered))
    × (read_response_request_status binding 30 (
          apply_ops
            (claim binding 20 (λ r. 21) ∷ [])
            (apply_op (mark binding) (apply_op (claim binding 10 (λ r. 11)) no_ledgers)))
        ≡ ok answered)
claim_then_mark_example =
    claim_then_mark binding 10 (λ r. 11) 30 (claim binding 20 (λ r. 21) ∷ []) no_ledgers claimed
      ((λ r. omega arith), tt)

abbrev no_wakes : WakeDir
no_wakes _ = WakeFile.absent

abbrev wake_claims : List WakeClaim
wake_claims = record { binding = binding; now = 10 } ∷ record { binding = binding; now = 20 } ∷ []

count_wakes-le-one_example : count_wakes binding wake_claims no_wakes ≤ 1
count_wakes-le-one_example =
    count_wakes-le-one binding 5 wake_claims no_wakes (omega arith, (omega arith, tt))

abbrev sent : PeerMessageStatusRecord
sent = record {
  message_id = "123e4567-e89b-42d3-a456-426614174000";
  sender_session_id = "alpha";
  target_room_id = "git-00112233445566778899aabbccddeeff";
  target_runtime_id = "123e4567-e89b-42d3-a456-426614174001";
  target_session_id = some "beta";
  target_session_name = none;
  tracking_supported = true;
  acknowledgment_requested = false;
  response_requested = some true;
  response_answered_at = none;
  status = queued;
  created_at = 1;
  updated_at = 2;
  expires_at = 1000;
  delivered_at = none;
  surfaced_at = none;
  acknowledged_at = none;
  replied_at = none;
}

abbrev sent_files : StatusDir
sent_files =
    record { name = "123e4567-e89b-42d3-a456-426614174000"; content = some (status_json sent) } ∷ []

abbrev status_ops : List StatusOp
status_ops =
    updated "alpha" "123e4567-e89b-42d3-a456-426614174000" surfaced 30
    ∷ answer binding 40
    ∷ updated "alpha" "123e4567-e89b-42d3-a456-426614174000" delivered 50
    ∷ []

sent_reads : normalize_message_status_record (status_json sent) ≡ some sent
unfolding normalize_message_status_record status_json is_bounded utf16_length is_runtime_id
    fits_pattern is_hex is_dash is_uuid_version is_uuid_variant codes is_room_id status_named
sent_reads = refl

read_again_example : normalize_message_status_record (status_json sent) ≡ some sent
read_again_example = read_again (status_json sent) sent sent_reads

run_status_ops-Advances_example :
    (r' : PeerMessageStatusRecord) × (read_status "123e4567-e89b-42d3-a456-426614174000"
        (run_status_ops status_ops sent_files)
      ≡ some r')
    × Advances sent r'
unfolding read_status find
run_status_ops-Advances_example =
    run_status_ops-Advances status_ops "123e4567-e89b-42d3-a456-426614174000" sent sent_files
      sent_reads

abbrev envelope : PeerMessageEnvelope
envelope = record {
  version = 1;
  id = "123e4567-e89b-42d3-a456-426614174000";
  room_id = "git-00112233445566778899aabbccddeeff";
  target_runtime_id = "123e4567-e89b-42d3-a456-426614174001";
  target_session_id = some "beta";
  sender = record {
    runtime_id = "123e4567-e89b-42d3-a456-426614174002";
    session_id = "alpha";
    session_name = none;
    worktree_root = "/work";
  };
  message = " done ";
  in_reply_to = none;
  request_acknowledgment = none;
  request_response = none;
  hops = 0;
  created_at = 5;
  expires_at = 500;
  untrusted = true;
}

abbrev sanitized : PeerMessageEnvelope
sanitized = record envelope { message = "done" }

abbrev beta : PeerPresence
beta = record {
  room_id = "git-00112233445566778899aabbccddeeff";
  session_id = "beta";
  pid = 9;
  lease_expires_at = 100;
  request_response_version = none;
}

abbrev delivered_all : ℕ → KillResult
delivered_all pid = KillResult.delivered

enqueues : enqueue_message delivered_all 50 envelope (some beta) [] ≡ ok (sanitized ∷ [])
unfolding enqueue_message enqueue_for write_message normalize_envelope is_presence_active
    persist_session_receipt sanitize_message byte_length trim is_space is_bounded utf16_length
    is_runtime_id fits_pattern is_hex is_dash is_uuid_version is_uuid_variant codes is_room_id
    any_of
enqueues = refl

enqueue_message-IsDelivered_example :
    (normalized : PeerMessageEnvelope) × (target : PeerPresence) × (normalize_envelope envelope
      ≡ some normalized)
    × (some beta ≡ some target)
    × IsDelivered delivered_all 50 envelope normalized target (sanitized ∷ [])
enqueue_message-IsDelivered_example =
    enqueue_message-IsDelivered delivered_all 50 envelope (some beta) [] (sanitized ∷ []) enqueues

abbrev receipt : ReceiptFile
receipt = record { name = "123e4567-e89b-42d3-a456-426614174000"; envelope = sanitized }
