-- ===== src/Coordinator/Ledger/Once.antt =====
-- A reply is claimed at most once, whatever else happens to the ledgers.
use mathlib.Core.Path.{subst}
use pi_shared.Common.{
  ◌≡◌, Bool, List, [], arith, false, if◌then◌else◌, str_eq, str_eq_iff, suc, true, ℕ, ◌&&◌, ◌==◌,
  ◌∷◌, ◌≤◌, Bool-cases, inl, inr, refl, ◌⊎◌, str_eq_refl,
}
use pi_shared.Common.Result.{Result, err, ok, Result-cases}
use pi_shared.Coordinator.Ledger.Claims.{
  absent, unreadable, stored, LedgerDir, LedgerError, LedgerFile, ResponseRequestBinding,
  ResponseRequestRecord, Readings, claim_request_reply, mark_reply_queued, read_response_ledger,
  with_response_ledger, binding_is_valid, claim_requests, dir_after,
}
use pi_shared.Coordinator.Ledger.Attempts.{
  Attempted, FileGuards, GuardedBy, ResultKeeps, claim_requests-WonResult, claim_requests-keeps,
  claim_requests-loses, mark_requests-keeps,
}
use pi_shared.Coordinator.Ledger.Files.{FileHas, read-FileHas, with_response_ledger-FileHas}

-- What a process does to the ledgers, with the clock that it reads; a claim reads it once, and once
-- more for each request when it adds one.
pub data LedgerOp : Type 0 where
  claim : ResponseRequestBinding → ℕ → Readings → LedgerOp
  mark : ResponseRequestBinding → LedgerOp

abbrev pub won : Result LedgerError (Bool × LedgerDir) → Bool
won (ok (b, dir)) = b
won (err e) = false

abbrev pub apply_op : LedgerOp → LedgerDir → LedgerDir
apply_op (claim b now clock) dir = dir_after dir (claim_request_reply b now clock dir)
apply_op (mark b) dir = dir_after dir (mark_reply_queued b dir)

abbrev pub binding_eq : ResponseRequestBinding → ResponseRequestBinding → Bool
binding_eq a b =
    str_eq a.message_id b.message_id
    && str_eq a.sender_session_id b.sender_session_id
    && str_eq a.recipient_session_id b.recipient_session_id
    && a.expires_at == b.expires_at

-- Whether an operation is a claim of `b` that succeeds.
abbrev pub wins : ResponseRequestBinding → LedgerOp → LedgerDir → Bool
wins b (claim c now clock) dir = binding_eq b c && won (claim_request_reply c now clock dir)
wins b (mark c) dir = false

unfoldable pub count_wins : ResponseRequestBinding → List LedgerOp → LedgerDir → ℕ
count_wins b [] dir = 0
count_wins b (op ∷ ops) dir =
    let rest = count_wins b ops (apply_op op dir) in if wins b op dir then suc rest else rest

-- The clocks never run backwards from `t` on: an operation reads nothing before the last reading of
-- those before it.
abbrev pub ClocksFrom : ℕ → List LedgerOp → Type 0
ClocksFrom t [] = Unit
ClocksFrom t (claim b now clock ∷ ops) =
    (t' : ℕ) × (t ≤ now)
    × (now ≤ t')
    × ((x : ResponseRequestRecord) → clock x ≤ t')
    × ClocksFrom t' ops
ClocksFrom t (mark b ∷ ops) = ClocksFrom t ops

-- From time `t` on the binding cannot be claimed any more.
abbrev Guarded : ResponseRequestBinding → ℕ → LedgerDir → Type 0
Guarded b t dir = (b.expires_at ≤ t) ⊎ FileGuards b (dir b.recipient_session_id)

guard_requests :
    (b : ResponseRequestBinding) (t : ℕ) (file : LedgerFile) (requests : List ResponseRequestRecord)
    → read_response_ledger b.recipient_session_id file ≡ ok requests
    → (b.expires_at ≤ t) ⊎ FileGuards b file
    → (b.expires_at ≤ t) ⊎ Attempted b requests
guard_requests b t file requests got (inl old) = inl old
guard_requests b t file requests got (inr g) =
    inr (read-FileHas (Attempted b) b.recipient_session_id file requests got g)

to-GuardedBy :
    (b : ResponseRequestBinding) (t : ℕ) (file : LedgerFile)
    → FileGuards b file
    → FileHas (GuardedBy b t) file
to-GuardedBy b t absent g = g
to-GuardedBy b t unreadable g = g
to-GuardedBy b t (stored ledger) g = inr g

from-GuardedBy :
    (b : ResponseRequestBinding) (t : ℕ) (file : LedgerFile)
    → FileHas (GuardedBy b t) file
    → (b.expires_at ≤ t) ⊎ FileGuards b file
from-GuardedBy b t absent g = absurd g
from-GuardedBy b t unreadable g = absurd g
from-GuardedBy b t (stored ledger) g = g

expired-ResultKeeps {ℓ} :
    {A : Type ℓ} (b : ResponseRequestBinding) (t : ℕ)
    (out : Result LedgerError (A × List ResponseRequestRecord))
    → b.expires_at ≤ t
    → ResultKeeps b t out
expired-ResultKeeps b t (ok (v, requests)) old = inl old
expired-ResultKeeps b t (err e) old = tt

with_response_ledger-Guarded {ℓ} :
    {A : Type ℓ} (b c : ResponseRequestBinding) (t : ℕ)
    (fn : List ResponseRequestRecord → Result LedgerError (A × List ResponseRequestRecord))
    (dir : LedgerDir)
    → ((requests : List ResponseRequestRecord)
        → Attempted b requests
        → ResultKeeps b t (fn requests))
    → FileGuards b (dir b.recipient_session_id)
    → Guarded b t (dir_after dir (with_response_ledger c fn dir))
with_response_ledger-Guarded b c t fn dir keep g = from-GuardedBy b t _ (
    with_response_ledger-FileHas (GuardedBy b t) c b.recipient_session_id fn dir
      (λ requests held. elim held [
        | inl old ↦ expired-ResultKeeps b t (fn requests) old
        | inr a ↦ keep requests a
      ])
      (to-GuardedBy b t (dir b.recipient_session_id) g))

claim-Guarded :
    (b c : ResponseRequestBinding) (now : ℕ) (clock : Readings) (t : ℕ) (dir : LedgerDir)
    → ((x : ResponseRequestRecord) → clock x ≤ t)
    → FileGuards b (dir b.recipient_session_id)
    → Guarded b t (apply_op (claim c now clock) dir)
unfolding claim_request_reply
claim-Guarded b c now clock t dir before g =
    with_response_ledger-Guarded b c t _ dir
      (λ requests. claim_requests-keeps b c now clock t requests before) g

mark-Guarded :
    (b c : ResponseRequestBinding) (t : ℕ) (dir : LedgerDir)
    → FileGuards b (dir b.recipient_session_id)
    → Guarded b t (apply_op (mark c) dir)
unfolding mark_reply_queued
mark-Guarded b c t dir g = with_response_ledger-Guarded b c t _ dir (mark_requests-keeps b c t) g

-- A guarded binding is never won.
Guarded-lost :
    (b : ResponseRequestBinding) (now : ℕ) (clock : Readings) (dir : LedgerDir)
    → Guarded b now dir
    → won (claim_request_reply b now clock dir) ≡ false
unfolding claim_request_reply with_response_ledger
Guarded-lost b now clock dir g = elim (Bool-cases (binding_is_valid b)) [
  | inr bad ↦ rw bad
  | inl valid ↦
      rw valid
        (elim (Result-cases
          (read_response_ledger b.recipient_session_id (dir b.recipient_session_id))) [
            | inr (e, failed) ↦ rw failed
            | inl (requests, got) ↦ rw got (
                let lost =
                  claim_requests-loses b now clock requests
                    (guard_requests b now (dir b.recipient_session_id) requests got g) in
                elim (Result-cases (claim_requests b now clock requests)) [
                  | inr (e, failed) ↦ rw failed
                  | inl (out, done) ↦ rw done (rw done at lost)
                ])
          ])
]

won-Guarded :
    (b : ResponseRequestBinding) (now : ℕ) (clock : Readings) (dir : LedgerDir)
    → won (claim_request_reply b now clock dir) ≡ true
    → FileGuards b (apply_op (claim b now clock) dir b.recipient_session_id)
unfolding claim_request_reply with_response_ledger
won-Guarded b now clock dir = elim (Bool-cases (binding_is_valid b)) [
  | inr bad ↦ rw bad λ h. cc
  | inl valid ↦
      rw valid
        (elim (Result-cases
          (read_response_ledger b.recipient_session_id (dir b.recipient_session_id))) [
            | inr (e, failed) ↦ rw failed λ h. cc
            | inl (requests, got) ↦ rw got (
                let wins = claim_requests-WonResult b now clock requests in
                elim (Result-cases (claim_requests b now clock requests)) [
                  | inr (e, failed) ↦ rw failed λ h. cc
                  | inl (out, done) ↦
                      rw done λ h. rw (str_eq_refl b.recipient_session_id) ((rw done at wins) h)
                ])
          ])
]

pub binding_eq→eq : (b c : ResponseRequestBinding) → binding_eq b c ≡ true → b ≡ c
binding_eq→eq b c h = ground (
  arith,
  str_eq_iff b.message_id c.message_id,
  str_eq_iff b.sender_session_id c.sender_session_id,
  str_eq_iff b.recipient_session_id c.recipient_session_id,
)

later :
    (b : ResponseRequestBinding) (t t' : ℕ) (dir : LedgerDir)
    → t ≤ t'
    → Guarded b t dir
    → Guarded b t' dir
later b t t' dir h (inl old) = inl (omega arith)
later b t t' dir h (inr g) = inr g

claim-stays :
    (b c : ResponseRequestBinding) (t now : ℕ) (clock : Readings) (t' : ℕ) (dir : LedgerDir)
    → t ≤ now
    → now ≤ t'
    → ((x : ResponseRequestRecord) → clock x ≤ t')
    → Guarded b t dir
    → Guarded b t' (apply_op (claim c now clock) dir)
claim-stays b c t now clock t' dir h k before (inl old) = inl (omega arith)
claim-stays b c t now clock t' dir h k before (inr g) = claim-Guarded b c now clock t' dir before g

Guarded-wins-false :
    (b c : ResponseRequestBinding) (now : ℕ) (clock : Readings) (dir : LedgerDir)
    → Guarded b now dir
    → wins b (claim c now clock) dir ≡ false
Guarded-wins-false b c now clock dir g = elim (Bool-cases (binding_eq b c)) [
  | inr differs ↦ rw differs
  | inl same ↦ rw (← (binding_eq→eq b c same)) (ground (arith, Guarded-lost b now clock dir g))
]

wins-Guarded :
    (b c : ResponseRequestBinding) (now : ℕ) (clock : Readings) (dir : LedgerDir)
    → wins b (claim c now clock) dir ≡ true
    → FileGuards b (apply_op (claim c now clock) dir b.recipient_session_id)
wins-Guarded b c now clock dir h =
    let same : b ≡ c = binding_eq→eq b c (ground arith) in
    subst
      (λ (x : ResponseRequestBinding).
        FileGuards b (apply_op (claim x now clock) dir b.recipient_session_id))
      same (won-Guarded b now clock dir (rw same (ground arith)))

Guarded-count_wins :
    (b : ResponseRequestBinding) (t : ℕ) (ops : List LedgerOp) (dir : LedgerDir)
    → ClocksFrom t ops
    → Guarded b t dir
    → count_wins b ops dir ≡ 0
unfolding count_wins
Guarded-count_wins b t [] dir clocks g = refl
Guarded-count_wins b t (claim c now clock ∷ ops) dir (t', h, k, before, rest) g =
    rw (Guarded-wins-false b c now clock dir (later b t now dir h g))
      (Guarded-count_wins b t' ops _ rest (claim-stays b c t now clock t' dir h k before g))
Guarded-count_wins b t (mark c ∷ ops) dir clocks (inl old) =
    Guarded-count_wins b t ops _ clocks (inl old)
Guarded-count_wins b t (mark c ∷ ops) dir clocks (inr g) =
    Guarded-count_wins b t ops _ clocks (mark-Guarded b c t dir g)

-- Over any run of claims and marks on any ledgers, by any sessions, whose clocks never run
-- backwards, a binding is claimed successfully at most once.
pub count_wins-le-one :
    (b : ResponseRequestBinding) (t : ℕ) (ops : List LedgerOp) (dir : LedgerDir)
    → ClocksFrom t ops
    → count_wins b ops dir ≤ 1
unfolding count_wins
count_wins-le-one b t [] dir clocks = omega arith
count_wins-le-one b t (claim c now clock ∷ ops) dir (t', h, k, before, rest) =
    elim (Bool-cases (wins b (claim c now clock) dir)) [
      | inl won ↦ rw won (
          omega (
            arith,
            Guarded-count_wins b t' ops (apply_op (claim c now clock) dir) rest
                (inr (wins-Guarded b c now clock dir won)),
          ))
      | inr lost ↦ rw lost (count_wins-le-one b t' ops _ rest)
    ]
count_wins-le-one b t (mark c ∷ ops) dir clocks = count_wins-le-one b t ops _ clocks
