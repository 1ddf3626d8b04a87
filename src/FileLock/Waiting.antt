-- ===== src/FileLock/Waiting.antt =====
-- extensions/_shared/file-lock.ts: `withInterprocessLock`, which tries until it has the lock, is
-- aborted or has waited too long.
use pi_shared.Common.{
  Bool, List, [], any_of, arith, Bool-cases, inl, inr, if◌then◌else◌, leb, refl, true, ℕ, ◌-◌, ◌∷◌,
  ◌≡◌, ◌≢◌,
}

-- What `tryAcquireLock` gives.
pub data Tried : Type 0 where
  acquired : Tried
  busy : Tried
  failed : Tried

-- What one round of the loop meets: the signal at its start, the attempt, the clock after the
-- reclaimer, the signal during the delay; and the signal just after the lock is acquired.
pub record Round : Type 0 where
  pub aborted : Bool
  pub tried : Tried
  pub now : ℕ
  pub delay_aborted : Bool
  pub aborted_inside : Bool

-- `waiting`: the loop goes on after the rounds that are given.
pub data LockOutcome : Type 0 where
  ran : LockOutcome
  lock_aborted : LockOutcome
  lock_failed : LockOutcome
  timed_out : LockOutcome
  waiting : LockOutcome

abbrev pub after_attempt : ℕ → ℕ → Round → LockOutcome → LockOutcome
after_attempt timeout_ms started_at r rest = elim r.tried [
  | acquired ↦ if r.aborted_inside then lock_aborted else ran
  | failed ↦ lock_failed
  | busy ↦
      if leb timeout_ms (r.now - started_at)
      then timed_out
      else (if r.delay_aborted then lock_aborted else rest)
]

unfoldable pub with_interprocess_lock : ℕ → ℕ → List Round → LockOutcome
with_interprocess_lock timeout_ms started_at [] = waiting
with_interprocess_lock timeout_ms started_at (r ∷ rs) =
    let rest = with_interprocess_lock timeout_ms started_at rs in
    if r.aborted then lock_aborted else after_attempt timeout_ms started_at r rest

-- Whether a round's clock shows that the time is over.
abbrev pub is_late : ℕ → ℕ → Round → Bool
is_late timeout_ms started_at r = leb timeout_ms (r.now - started_at)

after_attempt-late :
    (timeout_ms started_at : ℕ) (r : Round) (t : Tried) (rest : LockOutcome)
    → r.tried ≡ t
    → is_late timeout_ms started_at r ≡ true
    → after_attempt timeout_ms started_at r rest ≢ waiting
after_attempt-late timeout_ms started_at r acquired rest e h = ground arith
after_attempt-late timeout_ms started_at r busy rest e h = ground arith
after_attempt-late timeout_ms started_at r failed rest e h = ground arith

after_attempt-waiting :
    (timeout_ms started_at : ℕ) (r : Round) (t : Tried) (rest : LockOutcome)
    → r.tried ≡ t
    → rest ≢ waiting
    → after_attempt timeout_ms started_at r rest ≢ waiting
after_attempt-waiting timeout_ms started_at r acquired rest e h = ground arith
after_attempt-waiting timeout_ms started_at r busy rest e h = ground arith
after_attempt-waiting timeout_ms started_at r failed rest e h = ground arith

-- If the clock of some round shows that `timeoutMs` have passed since the start, the loop has ended
-- by then: whatever the attempts, the signal and the other rounds are, it does not go on waiting.
pub with_interprocess_lock_ends :
    (timeout_ms started_at : ℕ) (rounds : List Round)
    → any_of (is_late timeout_ms started_at) rounds ≡ true
    → with_interprocess_lock timeout_ms started_at rounds ≢ waiting
unfolding with_interprocess_lock any_of
with_interprocess_lock_ends timeout_ms started_at [] h = λ k. cc
with_interprocess_lock_ends timeout_ms started_at (r ∷ rs) h =
    let rest = with_interprocess_lock timeout_ms started_at rs in
    elim (Bool-cases r.aborted) [
      | inl e ↦ rw e (λ k. cc)
      | inr e ↦ rw e (elim (Bool-cases (is_late timeout_ms started_at r)) [
        | inl l ↦ after_attempt-late timeout_ms started_at r r.tried rest refl l
        | inr l ↦
            after_attempt-waiting timeout_ms started_at r r.tried rest refl
              (with_interprocess_lock_ends timeout_ms started_at rs (ground arith))
      ])
    ]
