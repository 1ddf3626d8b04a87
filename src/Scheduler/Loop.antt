-- ===== src/Scheduler/Loop.antt =====
-- extensions/_shared/subagent-scheduler.ts: the waiting loop of `acquire` and its cleanup, `delay`
-- and the states that `run` reports. What the environment decides in a round (the clock, the abort
-- signal, whether the file lock could be taken, what other processes did to the file in between) is
-- the round's record; the loop goes through the rounds one by one.
pub mod Ends
use pi_shared.Common.{
  Bool, List, Option, Ordering, String, [], false, if◌then◌else◌, leb, none, not, some, true, ℕ,
  ◌++◌, ◌+◌, ◌∷◌,
}
use pi_shared.Scheduler.Acquire.{Request, mutate, remove_waiter, try_acquire}
use pi_shared.Scheduler.State.{KillResult, SchedulerState, SubagentConfig}

pub data SchedulerRunState : Type 0 where
  queued running : SchedulerRunState

pub record Round : Type 0 where
  pub aborted : Bool  -- the signal, at the head of the loop
  pub now : ℕ
  pub locked : Bool  -- `withInterprocessLock` ran the operation, and did not throw
  pub others : Option SchedulerState → Option SchedulerState
  pub kill : ℕ → KillResult
  pub mutate_now : ℕ
  pub lease_id : String  -- the UUID that a grant in this round uses
  pub aborted_in_delay : Bool

pub data AcquireResult : Type 0 where
  granted : String → AcquireResult
  timed_out was_aborted lock_failed : AcquireResult
  -- The given rounds are over and the loop still waits.
  waiting : AcquireResult

pub record Acquired : Type 0 where
  pub result : AcquireResult
  pub file : Option SchedulerState
  pub states : List SchedulerRunState

-- `if (!queuedEmitted) { queuedEmitted = true; onState("queued") }`
abbrev pub report_queued : Bool → List SchedulerRunState
report_queued true = []
report_queued false = queued ∷ []

unfoldable pub wait_rounds :
    (String → String → Ordering)
    → SubagentConfig
    → Request
    → ℕ
    → Bool
    → List Round
    → Option SchedulerState
    → Acquired
wait_rounds locale_compare config r heartbeat queued_emitted [] file = record {
  result = waiting;
  file = file;
  states = [];
}
wait_rounds locale_compare config r heartbeat queued_emitted (round ∷ rounds) file =
    let m =
      mutate config round.kill round.mutate_now
        (try_acquire locale_compare config r round.now heartbeat round.lease_id)
        (round.others file) in
    let rest = wait_rounds locale_compare config r m.value.1 true rounds m.file in
    if round.aborted
    then record { result = was_aborted; file = file; states = [] }
    else if leb (r.requested_at + config.queue_timeout_ms) round.now
    then record { result = timed_out; file = file; states = [] }
    else if not round.locked
    then record { result = lock_failed; file = file; states = [] }
    else elim m.value.0 [
      | some lease ↦ record { result = granted lease.id; file = m.file; states = running ∷ [] }
      | none ↦
          if round.aborted_in_delay
          then record { result = was_aborted; file = m.file; states = report_queued queued_emitted }
          else record rest { states = report_queued queued_emitted ++ rest.states }
    ]

-- The `catch` of `acquire`: the waiter is removed; a failure to do so is swallowed.
unfoldable pub cleanup :
    SubagentConfig → String → Round → Option SchedulerState → Option SchedulerState
cleanup config waiter_id round file =
    if round.locked
    then (mutate config round.kill round.mutate_now (remove_waiter waiter_id)
        (round.others file)).file
    else file

abbrev pub is_error : AcquireResult → Bool
is_error (granted _) = false
is_error waiting = false
is_error timed_out = true
is_error was_aborted = true
is_error lock_failed = true

unfoldable pub acquire :
    (String → String → Ordering)
    → SubagentConfig
    → Request
    → List Round
    → Round
    → Option SchedulerState
    → Acquired
acquire locale_compare config r rounds last file =
    let a = wait_rounds locale_compare config r 0 false rounds file in
    if is_error a.result then record a { file = cleanup config r.waiter_id last a.file } else a
