-- ===== src/Coordinator/Records/Reading.antt =====
-- A record that was read is written and read again unchanged.
use mathlib.Core.Path.{subst}
use pi_shared.Coordinator.Records.{
  pending, queued, delivered, surfaced, acknowledged, replied, normalize_message_status_record,
  status_json, PeerMessageStatusRecord, PersistedMessageStatus, StoredStatus, absent_or,
  bounded_string, is_room_id, is_true, status_name, status_named,
}
use pi_shared.Common.Maybe.{bind-some, require-some}
use pi_shared.Common.{
  Bool, Option, String, arith, false, if◌then◌else◌, is_some, none, not, refl, some, true, ℕ, ◌||◌,
  ◌≡◌, ◌==◌, Bool-cases, inl, inr,
}
use pi_shared.Coordinator.Ids.{is_bounded, is_runtime_id}

-- The conditions that a record in memory satisfies.
abbrev pub IsValidRecord : PeerMessageStatusRecord → Type 0
IsValidRecord r =
    (is_bounded r.message_id 64 ≡ true)
    × (is_runtime_id r.message_id ≡ true)
    × (is_bounded r.sender_session_id 1024 ≡ true)
    × (is_bounded r.target_room_id 64 ≡ true)
    × (is_room_id r.target_room_id ≡ true)
    × (is_bounded r.target_runtime_id 64 ≡ true)
    × (is_runtime_id r.target_runtime_id ≡ true)
    × (bounded_string r.target_session_id 1024 ≡ r.target_session_id)
    × (bounded_string r.target_session_name 200 ≡ r.target_session_name)
    × (is_true r.response_requested ≡ true → is_some r.target_session_id ≡ true)
    × ((if is_true r.response_requested then r.response_answered_at else none)
        ≡ r.response_answered_at)

status_named-name :
    (status : PersistedMessageStatus) → status_named (status_name status) ≡ some status
unfolding status_named
status_named-name pending = refl
status_named-name queued = refl
status_named-name delivered = refl
status_named-name surfaced = refl
status_named-name acknowledged = refl
status_named-name replied = refl

present : (o : Option String) → absent_or o o ≡ true
present none = refl
present (some s) = refl

needs_session : (a b : Bool) → (a ≡ true → b ≡ true) → not a || b ≡ true
needs_session true b h = h refl
needs_session false b h = refl

pub read_written :
    (r : PeerMessageStatusRecord)
    → IsValidRecord r
    → normalize_message_status_record (status_json r) ≡ some r
unfolding normalize_message_status_record status_json
read_written r (id, uuid, sender, room, room_id, runtime, runtime_id, session, name, asks, answer) =
    rw (id, uuid, sender, room, room_id, runtime, runtime_id)
      (rw (session, name)
        (rw (present r.target_session_id, needs_session _ _ asks, status_named-name r.status)
          (rw answer refl)))

pub bounded_string-twice :
    (o : Option String) (n : ℕ) → bounded_string (bounded_string o n) n ≡ bounded_string o n
bounded_string-twice none n = refl
bounded_string-twice (some s) n = ground arith

bounded-some :
    (o : Option String) (n : ℕ) (s : String) → bounded_string o n ≡ some s → is_bounded s n ≡ true
bounded-some none n s h = cc
bounded-some (some t) n s h = elim (Bool-cases (is_bounded t n)) [
  | inl fits ↦ let same : t ≡ s = ground arith in subst (λ x. is_bounded x n ≡ true) same fits
  | inr long ↦ ground arith
]

valid_of : (x r : PeerMessageStatusRecord) → some x ≡ some r → IsValidRecord x → IsValidRecord r
valid_of x r h v = let same : x ≡ r = ground arith in subst IsValidRecord same v

asked : (a b : Bool) → not a || b ≡ true → a ≡ true → b ≡ true
asked true b h e = h
asked false b h e = cc

kept_if :
    (b : Option Bool) (o : Option ℕ)
    → (if is_true b then (if is_true b then o else none) else none)
      ≡ (if is_true b then o else none)
kept_if b o = ground arith

pub read-IsValidRecord :
    (v : StoredStatus) (r : PeerMessageStatusRecord)
    → normalize_message_status_record v ≡ some r
    → IsValidRecord r
unfolding normalize_message_status_record
read-IsValidRecord v r h =
    let (version, h1) = require-some (v.version == 1) _ r h in
    let (id, e2, h2) = bind-some (bounded_string v.message_id 64) _ r h1 in
    let (uuid, h3) = require-some (is_runtime_id id) _ r h2 in
    let (sender, e4, h4) = bind-some (bounded_string v.sender_session_id 1024) _ r h3 in
    let (room, e5, h5) = bind-some (bounded_string v.target_room_id 64) _ r h4 in
    let (room_id, h6) = require-some (is_room_id room) _ r h5 in
    let (runtime, e7, h7) = bind-some (bounded_string v.target_runtime_id 64) _ r h6 in
    let (runtime_id, h8) = require-some (is_runtime_id runtime) _ r h7 in
    let (session, h9) = require-some (absent_or v.target_session_id _) _ r h8 in
    let (tracking, e10, h10) = bind-some v.tracking_supported _ r h9 in
    let (acknowledgment, e11, h11) = bind-some v.acknowledgment_requested _ r h10 in
    let (asks, h12) = require-some (not (is_true v.response_requested) || _) _ r h11 in
    let (name, e13, h13) = bind-some v.status _ r h12 in
    let (status, e14, h14) = bind-some (status_named name) _ r h13 in
    let (created, e15, h15) = bind-some v.created_at _ r h14 in
    let (updated, e16, h16) = bind-some v.updated_at _ r h15 in
    let (expires, e17, h17) = bind-some v.expires_at _ r h16 in
    valid_of _ r h17 (
      bounded-some v.message_id 64 id e2,
      uuid,
      bounded-some v.sender_session_id 1024 sender e4,
      bounded-some v.target_room_id 64 room e5,
      room_id,
      bounded-some v.target_runtime_id 64 runtime e7,
      runtime_id,
      bounded_string-twice v.target_session_id 1024,
      bounded_string-twice v.target_session_name 200,
      asked _ _ asks,
      kept_if v.response_requested _,
    )

-- A record that was read from a status file, written by `JSON.stringify` and read again is the same.
pub read_again :
    (v : StoredStatus) (r : PeerMessageStatusRecord)
    → normalize_message_status_record v ≡ some r
    → normalize_message_status_record (status_json r) ≡ some r
read_again v r h = read_written r (read-IsValidRecord v r h)
