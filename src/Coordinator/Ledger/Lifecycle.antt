-- ===== src/Coordinator/Ledger/Lifecycle.antt =====
-- What a claim and a mark write into a readable ledger, and that every ledger stays readable.
use pi_shared.Common.{
  ◌≡◌, Bool, Bool-cases, List, Option-cases, String, [], arith, find, inl, inr, leb, length, refl,
  some, str_eq_refl, true, ℕ, ◌∷◌,
}
use pi_shared.Coordinator.Ledger.Claims.{
  stored, LedgerDir, LedgerError, LedgerFile, ResponseRequestBinding, ResponseRequestRecord,
  add_response_request, attempt, binding_is_valid, bound_response_request, claim_found,
  claim_request_reply, claim_requests, has_id, mark_reply_queued, mark_requests,
  max_response_requests, read_response_ledger, read_response_request_status, record_of,
  requests_are_sound, same_binding, unexpired, Readings, with_response_ledger, mark_found,
  queue_reply, status_found, update_record, write_ledger,
}
use pi_shared.Coordinator.Ledger.Once.{LedgerOp, claim, mark, apply_op, won}
use pi_shared.Coordinator.Ledger.Attempts.{find-keep_if_none, find-append_none}
use pi_shared.Common.Result.{Result, Result-cases, err, ok}
use pi_shared.Coordinator.Ledger.Soundness.{
  IsReadable, IsSound, claim_requests-SoundResult, mark_requests-SoundResult, read-IsSound,
  with_response_ledger-IsReadable, ledger_is_sound-written, update_record-append,
}

-- No operation, whether it succeeds or throws, makes a readable ledger of any session unreadable.
pub apply_op-IsReadable :
    (op : LedgerOp) (dir : LedgerDir) (j : String)
    → IsReadable j (dir j)
    → IsReadable j (apply_op op dir j)
unfolding claim_request_reply mark_reply_queued
apply_op-IsReadable (claim b now clock) dir j h =
    with_response_ledger-IsReadable b (claim_requests b now clock) dir j
      (λ requests valid sound. claim_requests-SoundResult b now clock requests valid sound) h
apply_op-IsReadable (mark b) dir j h =
    with_response_ledger-IsReadable b (mark_requests b) dir j
      (λ requests valid sound. mark_requests-SoundResult b requests sound) h

find-attempted :
    (session_id : String) (ids : List String) (id : String) (items : List ResponseRequestRecord)
    (r : ResponseRequestRecord)
    → requests_are_sound session_id ids items ≡ true
    → find (has_id id) items ≡ some r
    → r.reply_attempted ≡ true
unfolding requests_are_sound find
find-attempted session_id ids id [] r h f = cc
find-attempted session_id ids id (x ∷ xs) r h f =
    ground (arith, find-attempted session_id (x.message_id ∷ ids) id xs r)

-- A claim that is won leaves the binding's record, attempted and not queued.
abbrev WonExactly :
    ResponseRequestBinding → Result LedgerError (Bool × List ResponseRequestRecord) → Type 0
WonExactly b (err e) = Unit
WonExactly b (ok (v, requests)) =
    v ≡ true → find (has_id b.message_id) requests ≡ some (attempt (record_of b))

claim_requests-WonExactly :
    (b : ResponseRequestBinding) (now : ℕ) (clock : Readings)
    (requests : List ResponseRequestRecord)
    → IsSound b.recipient_session_id requests
    → WonExactly b (claim_requests b now clock requests)
unfolding claim_requests bound_response_request claim_found add_response_request
claim_requests-WonExactly b now clock requests sound =
    elim (Option-cases (find (has_id b.message_id) requests)) [
      | inl f ↦ rw f (elim (Bool-cases (leb b.expires_at now)) [
        | inl old ↦ rw old (λ v. cc)
        | inr live ↦
            rw live
              (elim (Bool-cases (leb max_response_requests (length (unexpired clock requests)))) [
                | inl full ↦ rw full tt
                | inr room ↦ rw room λ v.
                    rw
                      (update_record-append b.message_id attempt (unexpired clock requests)
                        (record_of b) (find-keep_if_none b.message_id clock requests f) refl)
                      (find-append_none b.message_id (unexpired clock requests)
                        (attempt (record_of b)) (find-keep_if_none b.message_id clock requests f)
                        refl)
              ])
      ])
      | inr (r, f) ↦ rw f (elim (Bool-cases (same_binding b r)) [
        | inl same ↦
            rw (same, find-attempted b.recipient_session_id [] b.message_id requests r sound.1 f)
              (λ v. cc)
        | inr differs ↦ rw differs tt
      ])
    ]

abbrev pub ledger_of : ResponseRequestBinding → List ResponseRequestRecord → LedgerFile
ledger_of b requests =
    stored
      (record { version = 1; recipient_session_id = b.recipient_session_id; requests = requests })

-- What a won claim has written.
pub won-file :
    (b : ResponseRequestBinding) (now : ℕ) (clock : Readings) (dir : LedgerDir)
    → won (claim_request_reply b now clock dir) ≡ true
    → (requests : List ResponseRequestRecord) × (apply_op
          (claim b now clock)
          dir
          b.recipient_session_id
        ≡ ledger_of b requests)
      × IsSound b.recipient_session_id requests
      × (find (has_id b.message_id) requests ≡ some (attempt (record_of b)))
      × (binding_is_valid b ≡ true)
unfolding claim_request_reply with_response_ledger
won-file b now clock dir = elim (Bool-cases (binding_is_valid b)) [
  | inr bad ↦ rw bad λ h. cc
  | inl valid ↦
      rw valid
        (elim (Result-cases
          (read_response_ledger b.recipient_session_id (dir b.recipient_session_id))) [
            | inr (e, failed) ↦ rw failed λ h. cc
            | inl (requests, got) ↦ rw got (
                let sound = read-IsSound b.recipient_session_id _ requests got in
                let kept = claim_requests-SoundResult b now clock requests valid sound in
                let exact = claim_requests-WonExactly b now clock requests sound in
                elim (Result-cases (claim_requests b now clock requests)) [
                  | inr (e, failed) ↦ rw failed λ h. cc
                  | inl (out, done) ↦ rw done λ h. (
                    out.1,
                    rw (str_eq_refl b.recipient_session_id),
                    (rw done at kept),
                    (rw done at exact) h,
                    refl,
                  )
                ])
          ])
]

pub same_record_of : (b : ResponseRequestBinding) → same_binding b (record_of b) ≡ true
same_record_of b =
    ground (arith, str_eq_refl b.sender_session_id, str_eq_refl b.recipient_session_id)

module _ (b : ResponseRequestBinding) (t : ℕ) (dir : LedgerDir)
    (requests : List ResponseRequestRecord) (r : ResponseRequestRecord)
    (valid : binding_is_valid b ≡ true) (file : dir b.recipient_session_id ≡ ledger_of b requests)
    (sound : IsSound b.recipient_session_id requests)
    (found : find (has_id b.message_id) requests ≡ some r) (same : same_binding b r ≡ true) where
  pub status_of_file :
      read_response_request_status b t dir ≡ ok (status_found b.expires_at t (some r))
  unfolding read_response_request_status read_response_ledger bound_response_request
  status_of_file =
      rw (valid, file)
        (rw (ledger_is_sound-written b.recipient_session_id requests sound) (rw found (rw same)))

pub mark-file :
    (b : ResponseRequestBinding) (dir : LedgerDir) (requests : List ResponseRequestRecord)
    (r : ResponseRequestRecord)
    → binding_is_valid b ≡ true
    → dir b.recipient_session_id ≡ ledger_of b requests
    → IsSound b.recipient_session_id requests
    → find (has_id b.message_id) requests ≡ some r
    → same_binding b r ≡ true
    → r.reply_attempted ≡ true
    → mark_reply_queued b dir
      ≡ ok (
        tt,
        write_ledger dir b.recipient_session_id
            (ledger_of b (update_record b.message_id queue_reply requests)),
      )
unfolding mark_reply_queued with_response_ledger read_response_ledger mark_requests
    bound_response_request mark_found
mark-file b dir requests r valid file sound found same tried =
    rw (valid, file)
      (rw (ledger_is_sound-written b.recipient_session_id requests sound)
        (rw found (rw same (rw tried))))
