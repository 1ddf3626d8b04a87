-- ===== src/Coordinator/Ledger/Answers.antt =====
-- A reply that is marked queued stays so while the ledgers are used, until its request is pruned.
use pi_shared.Common.{
  ◌≡◌, All, String, str_eq_refl, ◌∙◌, Bool-cases, List, Option, [], arith, find, if◌then◌else◌, inl,
  inr, leb, length, none, refl, some, str_eq, true, ℕ, ◌∷◌, ◌<◌, ◌||◌, ◌++◌,
}
use pi_shared.Common.Result.{Result-cases, ok}
use pi_shared.Coordinator.Ledger.Claims.{
  answered, expired, unanswered, absent, unreadable, stored, LedgerFile, LedgerDir, Readings,
  ResponseRequestBinding, ResponseRequestRecord, add_response_request, attempt, binding_is_valid,
  bound_response_request, claim_found, claim_request_reply, claim_requests, has_id, mark_found,
  mark_reply_queued, mark_requests, max_response_requests, queue_reply, read_response_ledger,
  read_response_request_status, record_of, same_binding, status_found, unexpired, update_record,
}
use pi_shared.Coordinator.Ledger.Attempts.{find-append, find-keep_if, find-update_record}
use pi_shared.Coordinator.Ledger.Files.{FileHas, ResultHas, with_response_ledger-FileHas}
use pi_shared.Coordinator.Ledger.Lifecycle.{
  apply_op-IsReadable, won-file, mark-file, same_record_of, status_of_file, ledger_of,
}
use pi_shared.Coordinator.Ledger.Once.{LedgerOp, claim, mark, apply_op, won}
use pi_shared.Coordinator.Ledger.Soundness.{IsReadable, IsSound, ledger_is_sound-written}

-- The requests hold the binding's, with its reply queued.
abbrev pub Queued : ResponseRequestBinding → List ResponseRequestRecord → Type 0
Queued b requests =
    (r : ResponseRequestRecord) × (find (has_id b.message_id) requests ≡ some r)
    × (same_binding b r ≡ true)
    × (r.reply_queued ≡ true)

-- What an update of a record leaves of it.
abbrev Keeps : ResponseRequestBinding → (ResponseRequestRecord → ResponseRequestRecord) → Type 0
Keeps b f =
    (x : ResponseRequestRecord)
    → ((f x).message_id ≡ x.message_id)
      × (same_binding b (f x) ≡ same_binding b x)
      × (x.reply_queued ≡ true → (f x).reply_queued ≡ true)

module _ (b c : ResponseRequestBinding) where
  update_record-Queued :
      (f : ResponseRequestRecord → ResponseRequestRecord) (requests : List ResponseRequestRecord)
      → Keeps b f
      → Queued b requests
      → Queued b (update_record c.message_id f requests)
  update_record-Queued f requests keeps (r, found, same, queued) =
      let at = find-update_record c.message_id b.message_id f requests r (λ x. (keeps x).0) found in
      elim (Bool-cases (str_eq c.message_id b.message_id)) [
        | inl e ↦ (f r, (rw e at at), rw ((keeps r).1) same, (keeps r).2 queued)
        | inr e ↦ (r, (rw e at at), same, queued)
      ]

  add-Queued :
      (clock : Readings) (requests ys : List ResponseRequestRecord)
      → ((x : ResponseRequestRecord) → clock x < b.expires_at)
      → Queued b requests
      → Queued b (unexpired clock requests ++ ys)
  add-Queued clock requests ys early (r, found, same, queued) = (
    r,
    find-append b.message_id _ ys r
        (find-keep_if b.message_id clock requests r found (ground (arith, early r))),
    same,
    queued,
  )

  claim_found-Queued :
      (now : ℕ) (clock : Readings) (requests : List ResponseRequestRecord)
      (found : Option ResponseRequestRecord)
      → ((x : ResponseRequestRecord) → clock x < b.expires_at)
      → Queued b requests
      → ResultHas (Queued b) (claim_found c now clock requests found)
  unfolding claim_found add_response_request
  claim_found-Queued now clock requests (some r) early h =
      elim (Bool-cases (r.reply_attempted || leb c.expires_at now)) [
        | inl e ↦ rw e h
        | inr e ↦ rw e (update_record-Queued attempt requests (λ x. (refl, refl, λ q. q)) h)
      ]
  claim_found-Queued now clock requests none early h = elim (Bool-cases (leb c.expires_at now)) [
    | inl e ↦ rw e h
    | inr e ↦
        rw e (elim (Bool-cases (leb max_response_requests (length (unexpired clock requests)))) [
          | inl full ↦ rw full tt
          | inr room ↦ rw room (
              update_record-Queued attempt _ (λ x. (refl, refl, λ q. q))
                (add-Queued clock requests (record_of c ∷ []) early h))
        ])
  ]

  claim_requests-Queued :
      (now : ℕ) (clock : Readings) (requests : List ResponseRequestRecord)
      → ((x : ResponseRequestRecord) → clock x < b.expires_at)
      → Queued b requests
      → ResultHas (Queued b) (claim_requests c now clock requests)
  unfolding claim_requests
  claim_requests-Queued now clock requests early h =
      elim (Result-cases (bound_response_request requests c)) [
        | inr (e, failed) ↦ rw failed tt
        | inl (found, got) ↦ rw got (claim_found-Queued now clock requests found early h)
      ]

  mark_found-Queued :
      (requests : List ResponseRequestRecord) (found : Option ResponseRequestRecord)
      → Queued b requests
      → ResultHas (Queued b) (mark_found c requests found)
  unfolding mark_found
  mark_found-Queued requests none h = tt
  mark_found-Queued requests (some r) h = elim (Bool-cases r.reply_attempted) [
    | inl e ↦ rw e (update_record-Queued queue_reply requests (λ x. (refl, refl, λ q. refl)) h)
    | inr e ↦ rw e tt
  ]

  mark_requests-Queued :
      (requests : List ResponseRequestRecord)
      → Queued b requests
      → ResultHas (Queued b) (mark_requests c requests)
  unfolding mark_requests
  mark_requests-Queued requests h = elim (Result-cases (bound_response_request requests c)) [
    | inr (e, failed) ↦ rw failed tt
    | inl (found, got) ↦ rw got (mark_found-Queued requests found h)
  ]

-- An operation that prunes by clock readings before the binding's expiry.
abbrev pub PrunesBefore : ResponseRequestBinding → LedgerOp → Type 0
PrunesBefore b (claim c now clock) = (x : ResponseRequestRecord) → clock x < b.expires_at
PrunesBefore b (mark c) = Unit

apply_op-Queued :
    (b : ResponseRequestBinding) (op : LedgerOp) (dir : LedgerDir)
    → PrunesBefore b op
    → FileHas (Queued b) (dir b.recipient_session_id)
    → FileHas (Queued b) (apply_op op dir b.recipient_session_id)
unfolding claim_request_reply mark_reply_queued
apply_op-Queued b (claim c now clock) dir early h =
    with_response_ledger-FileHas (Queued b) c b.recipient_session_id _ dir
      (λ requests q. claim_requests-Queued b c now clock requests early q) h
apply_op-Queued b (mark c) dir early h =
    with_response_ledger-FileHas (Queued b) c b.recipient_session_id _ dir
      (λ requests q. mark_requests-Queued b c requests q) h

unfoldable pub apply_ops : List LedgerOp → LedgerDir → LedgerDir
apply_ops [] dir = dir
apply_ops (op ∷ ops) dir = apply_ops ops (apply_op op dir)

readable_file :
    (P : List ResponseRequestRecord → Type 0) (j : String) (file : LedgerFile)
    → IsReadable j file
    → FileHas P file
    → (requests : List ResponseRequestRecord) × (read_response_ledger j file ≡ ok requests)
      × P requests
unfolding read_response_ledger
readable_file P j absent readable h = absurd h
readable_file P j unreadable readable h = absurd h
readable_file P j (stored ledger) readable h = (ledger.requests, (rw readable refl), h)

-- A readable ledger that holds the binding's request, with its reply queued, is read as answered.
Queued-answered :
    (b : ResponseRequestBinding) (t : ℕ) (dir : LedgerDir)
    → binding_is_valid b ≡ true
    → IsReadable b.recipient_session_id (dir b.recipient_session_id)
    → FileHas (Queued b) (dir b.recipient_session_id)
    → read_response_request_status b t dir ≡ ok answered
unfolding read_response_request_status bound_response_request status_found
Queued-answered b t dir valid readable h =
    let (requests, got, (r, found, same, queued)) =
      readable_file (Queued b) b.recipient_session_id (dir b.recipient_session_id) readable h in
    rw valid (rw got (rw found (rw same (rw queued refl))))

-- So it is after any operations that do not prune it.
Queued-stays :
    (b : ResponseRequestBinding) (t : ℕ) (ops : List LedgerOp) (dir : LedgerDir)
    → binding_is_valid b ≡ true
    → All (PrunesBefore b) ops
    → IsReadable b.recipient_session_id (dir b.recipient_session_id)
    → FileHas (Queued b) (dir b.recipient_session_id)
    → read_response_request_status b t (apply_ops ops dir) ≡ ok answered
unfolding apply_ops
Queued-stays b t [] dir valid early readable h = Queued-answered b t dir valid readable h
Queued-stays b t (op ∷ ops) dir valid early readable h =
    Queued-stays b t ops (apply_op op dir) valid early.1
      (apply_op-IsReadable op dir b.recipient_session_id readable)
      (apply_op-Queued b op dir early.0 h)

-- A mark of a request that was claimed leaves its reply queued.
mark-Queued :
    (b : ResponseRequestBinding) (dir : LedgerDir) (requests : List ResponseRequestRecord)
    → binding_is_valid b ≡ true
    → dir b.recipient_session_id ≡ ledger_of b requests
    → IsSound b.recipient_session_id requests
    → find (has_id b.message_id) requests ≡ some (attempt (record_of b))
    → FileHas (Queued b) (apply_op (mark b) dir b.recipient_session_id)
mark-Queued b dir requests valid file sound found =
    rw
      (mark-file b dir requests (attempt (record_of b)) valid file sound found (same_record_of b)
        refl)
      (rw (str_eq_refl b.recipient_session_id) (
        queue_reply (attempt (record_of b)),
        find-update_record b.message_id b.message_id queue_reply requests _ (λ x. refl) found
            ∙ rw (str_eq_refl b.message_id) refl,
        same_record_of b,
        refl,
      ))

-- After a claim that was won, a reader finds the request unanswered until it expires, and expired
-- from then on. Once the reply is marked queued, a reader finds the request answered, whatever the
-- time, also after any claims and marks of any bindings that prune by clock readings before the
-- request's expiry (pruning after it may drop the request).
pub claim_then_mark :
    (b : ResponseRequestBinding) (now : ℕ) (clock : Readings) (t : ℕ) (ops : List LedgerOp)
    (dir : LedgerDir)
    → won (claim_request_reply b now clock dir) ≡ true
    → All (PrunesBefore b) ops
    → (read_response_request_status b t (apply_op (claim b now clock) dir)
        ≡ ok (if leb b.expires_at t then expired else unanswered))
      × (read_response_request_status b t
            (apply_ops ops (apply_op (mark b) (apply_op (claim b now clock) dir)))
          ≡ ok answered)
claim_then_mark b now clock t ops dir h early =
    let (requests, file, sound, found, valid) = won-file b now clock dir h in
    let dir1 = apply_op (claim b now clock) dir in
    let readable : IsReadable b.recipient_session_id (dir1 b.recipient_session_id) =
      rw file (ledger_is_sound-written b.recipient_session_id requests sound) in
    (
      status_of_file b t dir1 requests (attempt (record_of b)) valid file sound found
            (same_record_of b)
          ∙ (unfold status_found in refl),
      Queued-stays b t ops (apply_op (mark b) dir1) valid early
          (apply_op-IsReadable (mark b) dir1 b.recipient_session_id readable)
          (mark-Queued b dir1 requests valid file sound found),
    )
