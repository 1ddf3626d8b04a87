-- ===== src/Coordinator/Ledger/Attempts.antt =====
-- Attempts in the requests of a ledger: what finds them, and what keeps them there.
use pi_shared.Common.{
  ◌≡◌, Bool, List, String, [], arith, find, if◌then◌else◌, keep_if, none, some, str_eq, str_eq_iff,
  true, ℕ, ◌++◌, ◌<◌, ◌∷◌, ◌≤◌, Bool-cases, Option, inl, inr, leb, length, ltb, refl, ◌||◌, ◌∙◌,
  ◌⊎◌, str_eq_refl, Option-cases, false,
}
use pi_shared.Common.Result.{Result, err, ok, Result-cases}
use pi_shared.Coordinator.Ledger.Claims.{
  LedgerError, LedgerFile, ResponseRequestBinding, ResponseRequestRecord, has_id, unexpired,
  Readings, update_record, add_response_request, attempt, claim_found, max_response_requests,
  queue_reply, record_of, same_binding, mark_found, bound_response_request, claim_requests,
  mark_requests,
}
use pi_shared.Coordinator.Ledger.Files.{FileHas, ResultHas}

-- The file holds an attempt for the binding's message.
abbrev pub Attempted : ResponseRequestBinding → List ResponseRequestRecord → Type 0
Attempted b requests =
    (r : ResponseRequestRecord) × (find (has_id b.message_id) requests ≡ some r)
    × (r.reply_attempted ≡ true)
    × (r.expires_at ≡ b.expires_at)

abbrev pub FileGuards : ResponseRequestBinding → LedgerFile → Type 0
FileGuards b = FileHas (Attempted b)

pub find-keep_if :
    (id : String) (clock : Readings) (requests : List ResponseRequestRecord)
    (r : ResponseRequestRecord)
    → find (has_id id) requests ≡ some r
    → clock r < r.expires_at
    → find (has_id id) (unexpired clock requests) ≡ some r
unfolding find keep_if
find-keep_if id clock [] r h live = h
find-keep_if id clock (x ∷ xs) r h live = ground (arith, find-keep_if id clock xs r)

pub find-append :
    (id : String) (xs ys : List ResponseRequestRecord) (r : ResponseRequestRecord)
    → find (has_id id) xs ≡ some r
    → find (has_id id) (xs ++ ys) ≡ some r
unfolding find
find-append id [] ys r h = cc
find-append id (x ∷ xs) ys r h = ground (arith, find-append id xs ys r)

pub find-append_none :
    (id : String) (xs : List ResponseRequestRecord) (y : ResponseRequestRecord)
    → find (has_id id) xs ≡ none
    → y.message_id ≡ id
    → find (has_id id) (xs ++ y ∷ []) ≡ some y
unfolding find
find-append_none id [] y h e = ground (arith, str_eq_iff y.message_id id)
find-append_none id (x ∷ xs) y h e = ground (arith, find-append_none id xs y)

pub find-keep_if_none :
    (id : String) (clock : Readings) (requests : List ResponseRequestRecord)
    → find (has_id id) requests ≡ none
    → find (has_id id) (unexpired clock requests) ≡ none
unfolding find keep_if
find-keep_if_none id clock [] h = h
find-keep_if_none id clock (x ∷ xs) h = ground (arith, find-keep_if_none id clock xs)

module _ (id j : String) (f : ResponseRequestRecord → ResponseRequestRecord) where
  pub find-update_record :
      (requests : List ResponseRequestRecord) (r : ResponseRequestRecord)
      → ((x : ResponseRequestRecord) → (f x).message_id ≡ x.message_id)
      → find (has_id j) requests ≡ some r
      → find (has_id j) (update_record id f requests) ≡ some (if str_eq id j then f r else r)
  unfolding find update_record
  find-update_record [] r keeps h = cc
  find-update_record (x ∷ xs) r keeps h = ground (
    arith,
    keeps x,
    str_eq_iff id j,
    str_eq_iff x.message_id id,
    str_eq_iff x.message_id j,
    find-update_record xs r keeps,
  )

abbrev pub Ids : (ResponseRequestRecord → ResponseRequestRecord) → Type 0
Ids f =
    (x : ResponseRequestRecord)
    → ((f x).message_id ≡ x.message_id)
      × ((f x).expires_at ≡ x.expires_at)
      × (x.reply_attempted ≡ true → (f x).reply_attempted ≡ true)

pub update_record-Attempted :
    (b : ResponseRequestBinding) (id : String) (f : ResponseRequestRecord → ResponseRequestRecord)
    (requests : List ResponseRequestRecord)
    → Ids f
    → Attempted b requests
    → Attempted b (update_record id f requests)
update_record-Attempted b id f requests keeps (r, found, tried, exp) = (
  (if str_eq id b.message_id then f r else r),
  find-update_record id b.message_id f requests r (λ x. (keeps x).0) found,
  elim (Bool-cases (str_eq id b.message_id)) [
    | inl e ↦ rw e ((keeps r).2 tried)
    | inr e ↦ rw e tried
  ],
  elim (Bool-cases (str_eq id b.message_id)) [
    | inl e ↦ rw e ((keeps r).1 ∙ exp)
    | inr e ↦ rw e exp
  ],
)

add-Attempted :
    (b : ResponseRequestBinding) (clock : Readings) (t : ℕ)
    (requests ys : List ResponseRequestRecord)
    → ((x : ResponseRequestRecord) → clock x ≤ t)
    → Attempted b requests
    → (b.expires_at ≤ t) ⊎ Attempted b (unexpired clock requests ++ ys)
add-Attempted b clock t requests ys before (r, found, tried, exp) =
    elim (Bool-cases (ltb (clock r) r.expires_at)) [
      | inl live ↦ inr (
        r,
        find-append b.message_id _ ys r
            (find-keep_if b.message_id clock requests r found (ground arith)),
        tried,
        exp,
      )
      | inr dead ↦ inl (ground (arith, before r))
    ]

-- The binding's attempt, unless its time is over.
abbrev pub GuardedBy : ResponseRequestBinding → ℕ → List ResponseRequestRecord → Type 0
GuardedBy b t requests = (b.expires_at ≤ t) ⊎ Attempted b requests

-- What an operation on the requests keeps.
abbrev pub ResultKeeps {ℓ} :
    {A : Type ℓ}
    → ResponseRequestBinding
    → ℕ
    → Result LedgerError (A × List ResponseRequestRecord)
    → Type 0
ResultKeeps b t = ResultHas (GuardedBy b t)

pub claim_found-keeps :
    (b c : ResponseRequestBinding) (now : ℕ) (clock : Readings) (t : ℕ)
    (requests : List ResponseRequestRecord) (found : Option ResponseRequestRecord)
    → ((x : ResponseRequestRecord) → clock x ≤ t)
    → Attempted b requests
    → ResultKeeps b t (claim_found c now clock requests found)
unfolding claim_found
claim_found-keeps b c now clock t requests (some r) before h =
    elim (Bool-cases (r.reply_attempted || leb c.expires_at now)) [
      | inl e ↦ rw e (inr h)
      | inr e ↦ rw e (
          inr (
            update_record-Attempted b c.message_id attempt requests (λ x. (refl, refl, λ _. refl))
              h))
    ]
claim_found-keeps b c now clock t requests none before h =
    elim (Bool-cases (leb c.expires_at now)) [
      | inl e ↦ rw e (inr h)
      | inr e ↦
          rw e (elim (Bool-cases (leb max_response_requests (length (unexpired clock requests)))) [
            | inl full ↦ rw (full, add_response_request) tt
            | inr room ↦
                rw (room, add_response_request)
                  (elim (add-Attempted b clock t requests (record_of c ∷ []) before h) [
                    | inl old ↦ inl old
                    | inr a ↦ inr (
                        update_record-Attempted b c.message_id attempt _
                          (λ x. (refl, refl, λ _. refl)) a)
                  ])
          ])
    ]

pub queue_reply-keeps :
    (b : ResponseRequestBinding) (id : String) (requests : List ResponseRequestRecord)
    → Attempted b requests
    → Attempted b (update_record id queue_reply requests)
queue_reply-keeps b id requests h =
    update_record-Attempted b id queue_reply requests (λ x. (refl, refl, λ t. t)) h

-- A claim that succeeds leaves an attempt in the requests.
abbrev pub WonResult :
    ResponseRequestBinding → Result LedgerError (Bool × List ResponseRequestRecord) → Type 0
WonResult b (err e) = Unit
WonResult b (ok (v, requests)) = v ≡ true → Attempted b requests

pub claim_found-WonResult :
    (b : ResponseRequestBinding) (now : ℕ) (clock : Readings)
    (requests : List ResponseRequestRecord) (found : Option ResponseRequestRecord)
    → find (has_id b.message_id) requests ≡ found
    → ((r : ResponseRequestRecord) → found ≡ some r → same_binding b r ≡ true)
    → WonResult b (claim_found b now clock requests found)
unfolding claim_found
claim_found-WonResult b now clock requests (some r) f same =
    elim (Bool-cases (r.reply_attempted || leb b.expires_at now)) [
      | inl e ↦ rw e (λ v. cc)
      | inr e ↦ rw e λ v. (
        attempt r,
        find-update_record b.message_id b.message_id attempt requests r (λ x. refl) f
            ∙ rw (str_eq_refl b.message_id),
        refl,
        ground (arith, same r refl),
      )
    ]
claim_found-WonResult b now clock requests none f same = elim (Bool-cases (leb b.expires_at now)) [
  | inl e ↦ rw e (λ v. cc)
  | inr e ↦
      rw e (elim (Bool-cases (leb max_response_requests (length (unexpired clock requests)))) [
        | inl full ↦ rw (full, add_response_request) tt
        | inr room ↦
            rw (room, add_response_request)
              λ v. (
                attempt (record_of b),
                find-update_record b.message_id b.message_id attempt _ (record_of b) (λ x. refl)
                      (find-append_none b.message_id (unexpired clock requests) (record_of b)
                        (find-keep_if_none b.message_id clock requests f) refl)
                    ∙ rw (str_eq_refl b.message_id),
                refl,
                refl,
              )
      ])
]

pub mark_found-keeps :
    (b c : ResponseRequestBinding) (t : ℕ) (requests : List ResponseRequestRecord)
    (found : Option ResponseRequestRecord)
    → Attempted b requests
    → ResultKeeps b t (mark_found c requests found)
unfolding mark_found
mark_found-keeps b c t requests none h = tt
mark_found-keeps b c t requests (some r) h = elim (Bool-cases r.reply_attempted) [
  | inl e ↦ rw e (inr (queue_reply-keeps b c.message_id requests h))
  | inr e ↦ rw e tt
]

abbrev pub won_requests : Result LedgerError (Bool × List ResponseRequestRecord) → Bool
won_requests (ok (v, requests)) = v
won_requests (err e) = false

-- An expired binding, and one with an attempt, is not won.
pub claim_requests-loses :
    (b : ResponseRequestBinding) (now : ℕ) (clock : Readings)
    (requests : List ResponseRequestRecord)
    → (b.expires_at ≤ now) ⊎ Attempted b requests
    → won_requests (claim_requests b now clock requests) ≡ false
unfolding claim_requests claim_found
claim_requests-loses b now clock requests (inl old) = ground arith
claim_requests-loses b now clock requests (inr (r, found, tried, exp)) =
    rw (found, bound_response_request) (ground arith)

-- What a claim writes when it is won holds the attempt.
pub claim_requests-WonResult :
    (b : ResponseRequestBinding) (now : ℕ) (clock : Readings)
    (requests : List ResponseRequestRecord)
    → WonResult b (claim_requests b now clock requests)
unfolding claim_requests bound_response_request
claim_requests-WonResult b now clock requests =
    elim (Option-cases (find (has_id b.message_id) requests)) [
      | inl f ↦ rw f (claim_found-WonResult b now clock requests none f (λ r e. cc))
      | inr (r, f) ↦ rw f (elim (Bool-cases (same_binding b r)) [
        | inl same ↦
            rw same (claim_found-WonResult b now clock requests (some r) f (λ q e. ground arith))
        | inr differs ↦ rw differs tt
      ])
    ]

pub claim_requests-keeps :
    (b c : ResponseRequestBinding) (now : ℕ) (clock : Readings) (t : ℕ)
    (requests : List ResponseRequestRecord)
    → ((x : ResponseRequestRecord) → clock x ≤ t)
    → Attempted b requests
    → ResultKeeps b t (claim_requests c now clock requests)
unfolding claim_requests
claim_requests-keeps b c now clock t requests before a =
    elim (Result-cases (bound_response_request requests c)) [
      | inr (e, failed) ↦ rw failed tt
      | inl (found, got) ↦ rw got (claim_found-keeps b c now clock t requests found before a)
    ]

pub mark_requests-keeps :
    (b c : ResponseRequestBinding) (t : ℕ) (requests : List ResponseRequestRecord)
    → Attempted b requests
    → ResultKeeps b t (mark_requests c requests)
unfolding mark_requests
mark_requests-keeps b c t requests a = elim (Result-cases (bound_response_request requests c)) [
  | inr (e, failed) ↦ rw failed tt
  | inl (found, got) ↦ rw got (mark_found-keeps b c t requests found a)
]
