-- ===== src/Coordinator/Ledger/Soundness.antt =====
-- The ledger that an operation writes passes the checks of the next read.
use mathlib.Core.Path.{subst}
use pi_shared.Common.{
  ◌≡◌, Bool, List, Option, String, [], any_of, arith, false, find, keep_if, length, none, refl,
  some, str_eq, str_eq_iff, true, ℕ, ◌++◌, ◌∷◌, ◌≤◌, Bool-cases, Option-cases, inl, inr, leb,
  length-append, str_eq_refl, ◌<◌, ◌||◌,
}
use pi_shared.Coordinator.Ledger.Claims.{
  absent, unreadable, stored, LedgerError, ResponseRequestBinding, ResponseRequestRecord,
  add_response_request, binding_is_valid, claim_found, has_id, max_response_requests, queue_reply,
  requests_are_sound, update_record, LedgerDir, LedgerFile, attempt, bound_response_request,
  claim_requests, dir_after, ledger_is_sound, mark_found, mark_requests, read_response_ledger,
  record_of, same_binding, unexpired, Readings, with_response_ledger,
}
use pi_shared.Common.Result.{Result, err, ok, Result-cases}
use pi_shared.Coordinator.Ledger.Attempts.{find-keep_if_none}

abbrev Fresh : String → List String → Type 0
Fresh id ids = any_of (λ e. str_eq e id) ids ≡ false

-- Fewer ids to avoid make the checks weaker.
requests_are_sound-fewer :
    (session_id : String) (ids ids' : List String) (items : List ResponseRequestRecord)
    → ((id : String) → Fresh id ids → Fresh id ids')
    → requests_are_sound session_id ids items ≡ true
    → requests_are_sound session_id ids' items ≡ true
unfolding requests_are_sound any_of
requests_are_sound-fewer session_id ids ids' [] sub h = refl
requests_are_sound-fewer session_id ids ids' (x ∷ xs) sub h = ground (
  arith,
  sub x.message_id,
  requests_are_sound-fewer session_id (x.message_id ∷ ids) (x.message_id ∷ ids') xs
      (λ id f. ground (arith, sub id)),
)

requests_are_sound-keep_if :
    (session_id : String) (ids : List String) (p : ResponseRequestRecord → Bool)
    (items : List ResponseRequestRecord)
    → requests_are_sound session_id ids items ≡ true
    → requests_are_sound session_id ids (keep_if p items) ≡ true
unfolding requests_are_sound keep_if any_of
requests_are_sound-keep_if session_id ids p [] h = refl
requests_are_sound-keep_if session_id ids p (x ∷ xs) h = ground (
  arith,
  requests_are_sound-keep_if session_id (x.message_id ∷ ids) p xs,
  requests_are_sound-fewer session_id (x.message_id ∷ ids) ids (keep_if p xs)
      (λ id f. ground arith),
)

requests_are_sound-append :
    (session_id : String) (ids : List String) (items : List ResponseRequestRecord)
    (y : ResponseRequestRecord)
    → requests_are_sound session_id ids items ≡ true
    → find (has_id y.message_id) items ≡ none
    → requests_are_sound session_id ids (y ∷ []) ≡ true
    → requests_are_sound session_id ids (items ++ y ∷ []) ≡ true
unfolding requests_are_sound find any_of
requests_are_sound-append session_id ids [] y h f k = k
requests_are_sound-append session_id ids (x ∷ xs) y h f k =
    ground (arith, requests_are_sound-append session_id (x.message_id ∷ ids) xs y)

pub requests_are_sound-queue_reply :
    (session_id : String) (ids : List String) (id : String) (items : List ResponseRequestRecord)
    → requests_are_sound session_id ids items ≡ true
    → requests_are_sound session_id ids (update_record id queue_reply items) ≡ true
unfolding requests_are_sound update_record
requests_are_sound-queue_reply session_id ids id [] h = refl
requests_are_sound-queue_reply session_id ids id (x ∷ xs) h =
    ground (arith, requests_are_sound-queue_reply session_id (x.message_id ∷ ids) id xs)

requests_are_sound-attempt :
    (session_id : String) (ids : List String) (id : String) (items : List ResponseRequestRecord)
    → requests_are_sound session_id ids items ≡ true
    → requests_are_sound session_id ids (update_record id attempt items) ≡ true
unfolding requests_are_sound update_record
requests_are_sound-attempt session_id ids id [] h = refl
requests_are_sound-attempt session_id ids id (x ∷ xs) h =
    ground (arith, requests_are_sound-attempt session_id (x.message_id ∷ ids) id xs)

pub update_record-append :
    (id : String) (f : ResponseRequestRecord → ResponseRequestRecord)
    (items : List ResponseRequestRecord) (y : ResponseRequestRecord)
    → find (has_id id) items ≡ none
    → y.message_id ≡ id
    → update_record id f (items ++ y ∷ []) ≡ items ++ f y ∷ []
unfolding update_record find
update_record-append id f [] y h e = ground (arith, str_eq_iff y.message_id id)
update_record-append id f (x ∷ xs) y h e = ground (arith, update_record-append id f xs y)

pub length-update_record :
    (id : String) (f : ResponseRequestRecord → ResponseRequestRecord)
    (items : List ResponseRequestRecord)
    → length (update_record id f items) ≡ length items
unfolding update_record
length-update_record id f [] = refl
length-update_record id f (x ∷ xs) = ground (arith, length-update_record id f xs)

-- The requests that a session's ledger may hold.
abbrev pub IsSound : String → List ResponseRequestRecord → Type 0
IsSound session_id requests =
    (length requests ≤ max_response_requests) × (requests_are_sound session_id [] requests ≡ true)

abbrev pub SoundResult {ℓ} :
    {A : Type ℓ} → String → Result LedgerError (A × List ResponseRequestRecord) → Type 0
SoundResult session_id (err e) = Unit
SoundResult session_id (ok (v, requests)) = IsSound session_id requests

add-IsSound :
    (b : ResponseRequestBinding) (requests : List ResponseRequestRecord)
    → binding_is_valid b ≡ true
    → length requests < max_response_requests
    → requests_are_sound b.recipient_session_id [] requests ≡ true
    → find (has_id b.message_id) requests ≡ none
    → IsSound b.recipient_session_id (requests ++ attempt (record_of b) ∷ [])
unfolding binding_is_valid
add-IsSound b requests valid room sound f = (
  omega (arith, length-append requests (attempt (record_of b) ∷ [])),
  requests_are_sound-append b.recipient_session_id [] requests (attempt (record_of b)) sound f
      (unfold requests_are_sound any_of in ground (arith, str_eq_refl b.recipient_session_id)),
)

claim_found-SoundResult :
    (b : ResponseRequestBinding) (now : ℕ) (clock : Readings)
    (requests : List ResponseRequestRecord) (found : Option ResponseRequestRecord)
    → binding_is_valid b ≡ true
    → IsSound b.recipient_session_id requests
    → find (has_id b.message_id) requests ≡ found
    → SoundResult b.recipient_session_id (claim_found b now clock requests found)
unfolding claim_found add_response_request
claim_found-SoundResult b now clock requests (some r) valid sound f =
    elim (Bool-cases (r.reply_attempted || leb b.expires_at now)) [
      | inl e ↦ rw e sound
      | inr e ↦ rw e (
        rw length-update_record sound.0,
        requests_are_sound-attempt b.recipient_session_id [] b.message_id requests sound.1,
      )
    ]
claim_found-SoundResult b now clock requests none valid sound f =
    elim (Bool-cases (leb b.expires_at now)) [
      | inl e ↦ rw e sound
      | inr e ↦
          rw e (elim (Bool-cases (leb max_response_requests (length (unexpired clock requests)))) [
            | inl full ↦ rw full tt
            | inr room ↦ rw room (
                rw
                  (update_record-append b.message_id attempt (unexpired clock requests)
                    (record_of b) (find-keep_if_none b.message_id clock requests f) refl)
                  (add-IsSound b (unexpired clock requests) valid (ground arith)
                    (requests_are_sound-keep_if b.recipient_session_id [] _ requests sound.1)
                    (find-keep_if_none b.message_id clock requests f)))
          ])
    ]

pub claim_requests-SoundResult :
    (b : ResponseRequestBinding) (now : ℕ) (clock : Readings)
    (requests : List ResponseRequestRecord)
    → binding_is_valid b ≡ true
    → IsSound b.recipient_session_id requests
    → SoundResult b.recipient_session_id (claim_requests b now clock requests)
unfolding claim_requests bound_response_request
claim_requests-SoundResult b now clock requests valid sound =
    elim (Option-cases (find (has_id b.message_id) requests)) [
      | inl f ↦ rw f (claim_found-SoundResult b now clock requests none valid sound f)
      | inr (r, f) ↦ rw f (elim (Bool-cases (same_binding b r)) [
        | inl same ↦ rw same (claim_found-SoundResult b now clock requests (some r) valid sound f)
        | inr differs ↦ rw differs tt
      ])
    ]

pub mark_requests-SoundResult :
    (b : ResponseRequestBinding) (requests : List ResponseRequestRecord)
    → IsSound b.recipient_session_id requests
    → SoundResult b.recipient_session_id (mark_requests b requests)
unfolding mark_requests bound_response_request mark_found
mark_requests-SoundResult b requests sound =
    elim (Option-cases (find (has_id b.message_id) requests)) [
      | inl f ↦ rw f tt
      | inr (r, f) ↦ rw f (elim (Bool-cases (same_binding b r)) [
        | inr differs ↦ rw differs tt
        | inl same ↦ rw same (elim (Bool-cases r.reply_attempted) [
          | inr untried ↦ rw untried tt
          | inl tried ↦ rw tried (
            rw length-update_record sound.0,
            requests_are_sound-queue_reply b.recipient_session_id [] b.message_id requests sound.1,
          )
        ])
      ])
    ]

-- A session's ledger file can be read.
abbrev pub IsReadable : String → LedgerFile → Type 0
IsReadable session_id absent = Unit
IsReadable session_id unreadable = ⊥
IsReadable session_id (stored ledger) = ledger_is_sound session_id ledger ≡ true

pub read-IsSound :
    (session_id : String) (file : LedgerFile) (requests : List ResponseRequestRecord)
    → read_response_ledger session_id file ≡ ok requests
    → IsSound session_id requests
unfolding read_response_ledger ledger_is_sound requests_are_sound
read-IsSound session_id absent requests h =
    let e : [] ≡ requests = ground arith in subst (IsSound session_id) e (omega arith, refl)
read-IsSound session_id unreadable requests h = cc
read-IsSound session_id (stored ledger) requests h =
    let e : ledger.requests ≡ requests = ground arith in subst (IsSound session_id) e (ground arith)

pub ledger_is_sound-written :
    (session_id : String) (requests : List ResponseRequestRecord)
    → IsSound session_id requests
    → ledger_is_sound session_id
        (record { version = 1; recipient_session_id = session_id; requests = requests })
      ≡ true
unfolding ledger_is_sound
ledger_is_sound-written session_id requests sound = ground (arith, str_eq_refl session_id)

written-IsReadable :
    (b : ResponseRequestBinding) (j : String) (requests : List ResponseRequestRecord)
    → str_eq b.recipient_session_id j ≡ true
    → IsSound b.recipient_session_id requests
    → ledger_is_sound j
        (record { version = 1; recipient_session_id = b.recipient_session_id; requests = requests })
      ≡ true
written-IsReadable b j requests here sound =
    rw (← ((str_eq_iff b.recipient_session_id j).0 here))
      (ledger_is_sound-written b.recipient_session_id requests sound)

pub with_response_ledger-IsReadable {ℓ} :
    {A : Type ℓ} (b : ResponseRequestBinding)
    (fn : List ResponseRequestRecord → Result LedgerError (A × List ResponseRequestRecord))
    (dir : LedgerDir) (j : String)
    → ((requests : List ResponseRequestRecord)
        → binding_is_valid b ≡ true
        → IsSound b.recipient_session_id requests
        → SoundResult b.recipient_session_id (fn requests))
    → IsReadable j (dir j)
    → IsReadable j (dir_after dir (with_response_ledger b fn dir) j)
unfolding with_response_ledger
with_response_ledger-IsReadable b fn dir j keep h = elim (Bool-cases (binding_is_valid b)) [
  | inr bad ↦ rw bad h
  | inl valid ↦
      rw valid
        (elim (Result-cases
          (read_response_ledger b.recipient_session_id (dir b.recipient_session_id))) [
            | inr (e, failed) ↦ rw failed h
            | inl (requests, got) ↦ rw got (
                let kept =
                  keep requests valid (read-IsSound b.recipient_session_id _ requests got) in
                elim (Result-cases (fn requests)) [
                  | inr (e, failed) ↦ rw failed h
                  | inl (out, done) ↦ rw done (elim (Bool-cases (str_eq b.recipient_session_id j)) [
                    | inr other ↦ rw other h
                    | inl here ↦ rw here (written-IsReadable b j out.1 here (rw done at kept))
                  ])
                ])
          ])
]
