-- ===== src/Coordinator/Ledger/Files.antt =====
-- What an operation on a ledger keeps of the file of any session.
use mathlib.Core.Path.{subst}
use pi_shared.Common.{◌≡◌, Bool-cases, List, String, arith, inl, inr, str_eq, str_eq_iff}
use pi_shared.Common.Result.{Result, err, ok, Result-cases}
use pi_shared.Coordinator.Ledger.Claims.{
  absent, unreadable, stored, LedgerDir, LedgerError, LedgerFile, ResponseRequestBinding,
  ResponseRequestRecord, binding_is_valid, dir_after, read_response_ledger, with_response_ledger,
}

-- The file is there, and its requests satisfy a predicate.
abbrev pub FileHas : (List ResponseRequestRecord → Type 0) → LedgerFile → Type 0
FileHas P absent = ⊥
FileHas P unreadable = ⊥
FileHas P (stored ledger) = P ledger.requests

-- An error writes nothing; what is written satisfies the predicate.
abbrev pub ResultHas {ℓ} :
    {A : Type ℓ}
    → (List ResponseRequestRecord → Type 0)
    → Result LedgerError (A × List ResponseRequestRecord)
    → Type 0
ResultHas P (err e) = Unit
ResultHas P (ok (v, requests)) = P requests

pub read-FileHas :
    (P : List ResponseRequestRecord → Type 0) (id : String) (file : LedgerFile)
    (requests : List ResponseRequestRecord)
    → read_response_ledger id file ≡ ok requests
    → FileHas P file
    → P requests
unfolding read_response_ledger
read-FileHas P id absent requests e g = absurd g
read-FileHas P id unreadable requests e g = absurd g
read-FileHas P id (stored ledger) requests e g =
    let same : ledger.requests ≡ requests = ground arith in subst P same g

-- A predicate that an operation keeps of the requests holds of a session's file afterwards, if it
-- did before, whoever's ledger the operation is on.
pub with_response_ledger-FileHas {ℓ} :
    {A : Type ℓ} (P : List ResponseRequestRecord → Type 0) (c : ResponseRequestBinding) (j : String)
    (fn : List ResponseRequestRecord → Result LedgerError (A × List ResponseRequestRecord))
    (dir : LedgerDir)
    → ((requests : List ResponseRequestRecord) → P requests → ResultHas P (fn requests))
    → FileHas P (dir j)
    → FileHas P (dir_after dir (with_response_ledger c fn dir) j)
unfolding with_response_ledger
with_response_ledger-FileHas P c j fn dir keep g = elim (Bool-cases (binding_is_valid c)) [
  | inr bad ↦ rw bad g
  | inl valid ↦
      rw valid
        (elim (Result-cases
          (read_response_ledger c.recipient_session_id (dir c.recipient_session_id))) [
            | inr (e, failed) ↦ rw failed g
            | inl (requests, got) ↦ rw got (elim (Result-cases (fn requests)) [
              | inr (e, failed) ↦ rw failed g
              | inl (out, done) ↦ rw done (elim (Bool-cases (str_eq c.recipient_session_id j)) [
                | inr other ↦ rw other g
                | inl here ↦ rw here (
                    let at = (str_eq_iff c.recipient_session_id j).0 here in
                    let kept = keep requests (
                      read-FileHas P c.recipient_session_id (dir c.recipient_session_id) requests
                        got (rw at g)) in
                    rw done at kept)
              ])
            ])
          ])
]
