-- ===== src/Coordinator/Outgoing/Progress.antt =====
-- The status of a sent message only advances, and an answer once recorded stays.
use mathlib.Core.Path.{subst}
use pi_shared.Coordinator.Records.{
  pending, queued, delivered, surfaced, acknowledged, replied, PeerMessageStatusRecord,
  PersistedMessageStatus, message_status_rank, is_true,
}
use pi_shared.Coordinator.Records.Reading.{IsValidRecord, read_written, read-IsValidRecord}
use pi_shared.Coordinator.Outgoing.{
  update_outgoing_message_status, record_answer, StatusDir, StatusFile, has_name, parsed,
  read_status, write_status, stamped,
}
use pi_shared.Coordinator.Ledger.Claims.{ResponseRequestBinding}
use pi_shared.Common.{
  Bool-cases, List, Option-cases, String, [], false, find, inl, inr, is_some, refl, some, str_eq,
  str_eq_iff, str_eq_refl, true, ℕ, ◌∷◌, ◌≡◌, ◌≤◌, ap, arith, leb, sym, ◌∙◌, Bool, not, opt_str_eq,
  ◌&&◌, ◌==◌,
}

-- What a process does to the status files of a session's messages.
pub data StatusOp : Type 0 where
  updated : String → String → PersistedMessageStatus → ℕ → StatusOp
  answer : ResponseRequestBinding → ℕ → StatusOp

abbrev pub apply_status_op : StatusOp → StatusDir → StatusDir
apply_status_op (updated sender id status now) dir =
    (update_outgoing_message_status sender id status now dir).1
apply_status_op (answer b now) dir = record_answer b now dir

unfoldable pub run_status_ops : List StatusOp → StatusDir → StatusDir
run_status_ops [] dir = dir
run_status_ops (op ∷ ops) dir = run_status_ops ops (apply_status_op op dir)

-- `s` is `r` further on.
abbrev pub Advances : PeerMessageStatusRecord → PeerMessageStatusRecord → Type 0
Advances r s =
    (message_status_rank r.status ≤ message_status_rank s.status)
    × (is_some r.response_answered_at ≡ true → s.response_answered_at ≡ r.response_answered_at)
    × (s.message_id ≡ r.message_id)

read-write_status :
    (id : String) (r : PeerMessageStatusRecord) (dir : StatusDir)
    → IsValidRecord r
    → read_status id (write_status id r dir) ≡ some r
unfolding read_status write_status find
read-write_status id r [] v = rw (read_status, str_eq_refl id) (read_written r v)
read-write_status id r (file ∷ files) v = elim (Bool-cases (str_eq file.name id)) [
  | inl here ↦ rw here (rw (read_status, str_eq_refl id) (read_written r v))
  | inr other ↦ rw other (rw (read_status, other) (read-write_status id r files v))
]

read-write_other :
    (id id' : String) (r : PeerMessageStatusRecord) (dir : StatusDir)
    → str_eq id id' ≡ false
    → read_status id' (write_status id r dir) ≡ read_status id' dir
unfolding read_status write_status find
read-write_other id id' r [] h = rw (read_status, h) refl
read-write_other id id' r (file ∷ files) h = elim (Bool-cases (str_eq file.name id)) [
  | inl here ↦ rw here (
      let same = (str_eq_iff file.name id).0 here in
      let gone = subst (λ x. str_eq x id' ≡ false) (sym same) h in
      rw (read_status, h) (rw (read_status, gone) refl))
  | inr other ↦ rw other (elim (Bool-cases (str_eq file.name id')) [
    | inl found ↦ rw (read_status, found) refl
    | inr skipped ↦ rw (read_status, skipped) (read-write_other id id' r files h)
  ])
]

parsed-IsValidRecord :
    (file : StatusFile) (r : PeerMessageStatusRecord) → parsed file ≡ some r → IsValidRecord r
parsed-IsValidRecord file r = elim (Option-cases file.content) [
  | inl unreadable ↦ rw unreadable λ h. cc
  | inr (v, content) ↦ rw content (read-IsValidRecord v r)
]

read_status-IsValidRecord :
    (id : String) (dir : StatusDir) (r : PeerMessageStatusRecord)
    → read_status id dir ≡ some r
    → IsValidRecord r
unfolding read_status
read_status-IsValidRecord id dir r = elim (Option-cases (find (has_name id) dir)) [
  | inl missing ↦ rw (read_status, missing) λ h. cc
  | inr (file, found) ↦ rw (read_status, found) (parsed-IsValidRecord file r)
]

some_eq {ℓ} : {A : Type ℓ} {a b : A} → some a ≡ some b → a ≡ b
some_eq h = ground arith

-- The file of one message after another record was written, under its own name or another.
write-Advances :
    (id id' : String) (r s current : PeerMessageStatusRecord) (dir : StatusDir)
    → read_status id dir ≡ some r
    → read_status id' dir ≡ some current
    → IsValidRecord s
    → Advances current s
    → (r' : PeerMessageStatusRecord) × (read_status id (write_status id' s dir) ≡ some r')
      × Advances r r'
write-Advances id id' r s current dir at_id at_id' v a = elim (Bool-cases (str_eq id' id)) [
  | inr other ↦ (r, read-write_other id' id s dir other ∙ at_id, (omega arith, (λ h. refl), refl))
  | inl here ↦
      let same = (str_eq_iff id' id).0 here in
      let one : current ≡ r = some_eq (sym at_id' ∙ ap (λ x. read_status x dir) same ∙ at_id) in
      (
        s,
        subst (λ x. read_status x (write_status id' s dir) ≡ some s) same
            (read-write_status id' s dir v),
        subst (λ x. Advances x s) one a,
      )
]

stamped-IsValidRecord :
    (status : PersistedMessageStatus) (now : ℕ) (r : PeerMessageStatusRecord)
    → IsValidRecord r
    → IsValidRecord (stamped status now (record r { status = status; updated_at = now }))
stamped-IsValidRecord pending now r v = v
stamped-IsValidRecord queued now r v = v
stamped-IsValidRecord delivered now r v = v
stamped-IsValidRecord surfaced now r v = v
stamped-IsValidRecord acknowledged now r v = v
stamped-IsValidRecord replied now r v = v

stamped-Advances :
    (status : PersistedMessageStatus) (now : ℕ) (r : PeerMessageStatusRecord)
    → message_status_rank r.status ≤ message_status_rank status
    → Advances r (stamped status now (record r { status = status; updated_at = now }))
stamped-Advances pending now r h = (h, (λ k. refl), refl)
stamped-Advances queued now r h = (h, (λ k. refl), refl)
stamped-Advances delivered now r h = (h, (λ k. refl), refl)
stamped-Advances surfaced now r h = (h, (λ k. refl), refl)
stamped-Advances acknowledged now r h = (h, (λ k. refl), refl)
stamped-Advances replied now r h = (h, (λ k. refl), refl)

stays :
    (id : String) (r : PeerMessageStatusRecord) (dir : StatusDir)
    → read_status id dir ≡ some r
    → (r' : PeerMessageStatusRecord) × (read_status id dir ≡ some r') × Advances r r'
stays id r dir h = (r, h, (omega arith, (λ k. refl), refl))

update-Advances :
    (sender id' : String) (status : PersistedMessageStatus) (now : ℕ) (id : String)
    (r : PeerMessageStatusRecord) (dir : StatusDir)
    → read_status id dir ≡ some r
    → (r' : PeerMessageStatusRecord) × (read_status id
          (update_outgoing_message_status sender id' status now dir).1
        ≡ some r')
      × Advances r r'
unfolding update_outgoing_message_status
update-Advances sender id' status now id r dir h = elim (Option-cases (read_status id' dir)) [
  | inl missing ↦ rw (update_outgoing_message_status, missing) (stays id r dir h)
  | inr (current, found) ↦
      rw (update_outgoing_message_status, found)
        (elim (Bool-cases (str_eq current.sender_session_id sender)) [
          | inr foreign ↦ rw foreign (stays id r dir h)
          | inl own ↦
              rw own
                (elim (Bool-cases
                  (leb (message_status_rank status) (message_status_rank current.status))) [
                    | inl old ↦ rw old (stays id r dir h)
                    | inr newer ↦ rw newer (
                        write-Advances id id' r
                          (stamped status now
                            (record current { status = status; updated_at = now }))
                          current dir h found
                          (stamped-IsValidRecord status now current
                            (read_status-IsValidRecord id' dir current found))
                          (stamped-Advances status now current (ground arith)))
                  ])
        ])
]

-- The test of `markRequestReplyQueued` on the record of the message.
abbrev is_answerable : ResponseRequestBinding → PeerMessageStatusRecord → Bool
is_answerable b r =
    is_true r.response_requested
    && str_eq r.sender_session_id b.sender_session_id
    && opt_str_eq r.target_session_id (some b.recipient_session_id)
    && r.expires_at == b.expires_at
    && not (is_some r.response_answered_at)

answered-IsValidRecord :
    (b : ResponseRequestBinding) (now : ℕ) (r : PeerMessageStatusRecord)
    → is_answerable b r ≡ true
    → IsValidRecord r
    → IsValidRecord (record r { response_answered_at = some now })
answered-IsValidRecord b now r h
      (id, uuid, sender, room, room_id, runtime, runtime_id, session, name, asks, kept) =
    let asked : is_true r.response_requested ≡ true = ground arith in
    (id, uuid, sender, room, room_id, runtime, runtime_id, session, name, asks, rw asked refl)

answered-Advances :
    (b : ResponseRequestBinding) (now : ℕ) (r : PeerMessageStatusRecord)
    → is_answerable b r ≡ true
    → Advances r (record r { response_answered_at = some now })
answered-Advances b now r h = (omega arith, (λ k. ground arith), refl)

answer-Advances :
    (b : ResponseRequestBinding) (now : ℕ) (id : String) (r : PeerMessageStatusRecord)
    (dir : StatusDir)
    → read_status id dir ≡ some r
    → (r' : PeerMessageStatusRecord) × (read_status id (record_answer b now dir) ≡ some r')
      × Advances r r'
unfolding record_answer
answer-Advances b now id r dir h = elim (Option-cases (read_status b.message_id dir)) [
  | inl missing ↦ rw (record_answer, missing) (stays id r dir h)
  | inr (current, found) ↦
      rw (record_answer, found)
        (elim (Bool-cases (is_answerable b current)) [
          | inr closed ↦ rw closed (stays id r dir h)
          | inl open_request ↦ rw open_request (
              write-Advances id b.message_id r (record current { response_answered_at = some now })
                current dir h found
                (answered-IsValidRecord b now current open_request
                  (read_status-IsValidRecord b.message_id dir current found))
                (answered-Advances b now current open_request))
        ])
]

apply_status_op-Advances :
    (op : StatusOp) (id : String) (r : PeerMessageStatusRecord) (dir : StatusDir)
    → read_status id dir ≡ some r
    → (r' : PeerMessageStatusRecord) × (read_status id (apply_status_op op dir) ≡ some r')
      × Advances r r'
apply_status_op-Advances (updated sender id' status now) id r dir h =
    update-Advances sender id' status now id r dir h
apply_status_op-Advances (answer b now) id r dir h = answer-Advances b now id r dir h

-- After any run of updates and recorded answers, by any sessions and for any messages, a message whose
-- record could be read has a record that can be read, of a status that is no lower in rank, and with
-- the same time of the answer if it had one.
pub run_status_ops-Advances :
    (ops : List StatusOp) (id : String) (r : PeerMessageStatusRecord) (dir : StatusDir)
    → read_status id dir ≡ some r
    → (r' : PeerMessageStatusRecord) × (read_status id (run_status_ops ops dir) ≡ some r')
      × Advances r r'
unfolding run_status_ops
run_status_ops-Advances [] id r dir h = stays id r dir h
run_status_ops-Advances (op ∷ ops) id r dir h =
    let (s, at_s, (up, kept, same)) = apply_status_op-Advances op id r dir h in
    let (t, at_t, (up', kept', same')) =
      run_status_ops-Advances ops id s (apply_status_op op dir) at_s in
    (
      t,
      at_t,
      (omega (arith, up, up'), (λ k. kept' (ap is_some (kept k) ∙ k) ∙ kept k), same' ∙ same),
    )
