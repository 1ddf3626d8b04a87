-- ===== src/Coordinator/Delivery.antt =====
-- A message is put into an inbox only for the session that it is meant for, and within the limit.
use mathlib.Core.List.{Memᴰ}
use mathlib.Core.Path.{subst}
use pi_shared.Common.Result.{ok}
use pi_shared.Coordinator.Envelopes.{
  enqueue_message, PeerMessageEnvelope, PeerPresence, enqueue_for, is_presence_active,
  max_inbox_messages, normalize_envelope, same_file, targets_other, write_message,
}
use pi_shared.Scheduler.State.{KillResult}
use pi_shared.Common.{
  List, Option, Option-cases, [], Bool-cases, arith, false, inl, inr, length, refl, some, str_eq,
  true, ℕ, ◌+◌, ◌∷◌, ◌≡◌, ◌≤◌,
}

length-write_message-le :
    (e : PeerMessageEnvelope) (inbox : List PeerMessageEnvelope)
    → length (write_message e inbox) ≤ length inbox + 1
unfolding write_message
length-write_message-le e [] = omega arith
length-write_message-le e (f ∷ fs) = ground (arith, length-write_message-le e fs)

write_message-Memᴰ :
    (e : PeerMessageEnvelope) (inbox : List PeerMessageEnvelope) → Memᴰ e (write_message e inbox)
unfolding write_message
write_message-Memᴰ e [] = Memᴰ.head refl
write_message-Memᴰ e (f ∷ fs) = elim (Bool-cases (same_file f e)) [
  | inl same ↦ rw same (Memᴰ.head refl)
  | inr other ↦ rw other (Memᴰ.tail (write_message-Memᴰ e fs))
]

-- What a delivery to a peer has checked.
abbrev pub IsDelivered :
    (ℕ → KillResult)
    → ℕ
    → PeerMessageEnvelope
    → PeerMessageEnvelope
    → PeerPresence
    → List PeerMessageEnvelope
    → Type 0
IsDelivered kill now envelope normalized target inbox =
    (str_eq target.room_id envelope.room_id ≡ true)
    × (is_presence_active kill now target ≡ true)
    × (targets_other envelope.target_session_id target ≡ false)
    × (length inbox ≤ max_inbox_messages)
    × Memᴰ normalized inbox

written :
    (kill : ℕ → KillResult) (now : ℕ) (envelope normalized : PeerMessageEnvelope)
    (target : PeerPresence) (inbox inbox' : List PeerMessageEnvelope)
    → enqueue_for kill now envelope normalized target inbox ≡ ok inbox'
    → write_message normalized inbox ≡ inbox'
unfolding enqueue_for
written kill now envelope normalized target inbox inbox' h = ground arith

enqueue_for-IsDelivered :
    (kill : ℕ → KillResult) (now : ℕ) (envelope normalized : PeerMessageEnvelope)
    (target : PeerPresence) (inbox inbox' : List PeerMessageEnvelope)
    → enqueue_for kill now envelope normalized target inbox ≡ ok inbox'
    → IsDelivered kill now envelope normalized target inbox'
unfolding enqueue_for
enqueue_for-IsDelivered kill now envelope normalized target inbox inbox' h =
    let size = length-write_message-le normalized inbox in
    (
      ground arith,
      ground arith,
      ground arith,
      ground (arith, size),
      subst (Memᴰ normalized) (written kill now envelope normalized target inbox inbox' h)
          (write_message-Memᴰ normalized inbox),
    )

-- If a message is enqueued, its envelope is sound, the target has a presence in the envelope's room that
-- is live and is of the session that the envelope names, if any, and afterwards the inbox holds,
-- in full, the envelope that `normalizeEnvelope` makes of it, and at most 100 messages.
pub enqueue_message-IsDelivered :
    (kill : ℕ → KillResult) (now : ℕ) (envelope : PeerMessageEnvelope)
    (presence : Option PeerPresence) (inbox inbox' : List PeerMessageEnvelope)
    → enqueue_message kill now envelope presence inbox ≡ ok inbox'
    → (normalized : PeerMessageEnvelope) × (target : PeerPresence) × (normalize_envelope envelope
        ≡ some normalized)
      × (presence ≡ some target)
      × IsDelivered kill now envelope normalized target inbox'
unfolding enqueue_message
enqueue_message-IsDelivered kill now envelope presence inbox inbox' =
    elim (Option-cases (normalize_envelope envelope)) [
      | inl unsound ↦ rw (enqueue_message, unsound) λ h. cc
      | inr (normalized, sound) ↦ elim (Option-cases presence) [
        | inl gone ↦ rw (enqueue_message, sound) (rw gone λ h. cc)
        | inr (target, there) ↦
            rw (enqueue_message, sound)
              (rw there λ h. (
                normalized,
                target,
                refl,
                refl,
                enqueue_for-IsDelivered kill now envelope normalized target inbox inbox' h,
              ))
      ]
    ]
