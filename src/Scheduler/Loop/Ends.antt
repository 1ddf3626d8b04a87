-- ===== src/Scheduler/Loop/Ends.antt =====
-- How a call of `acquire` ends.
use pi_shared.Scheduler.Loop.{
  granted, timed_out, was_aborted, lock_failed, waiting, AcquireResult, Round, acquire, cleanup,
  is_error, wait_rounds, Acquired,
}
use pi_shared.Scheduler.State.{
  KillResult, SchedulerLease, SchedulerState, SchedulerWaiter, SubagentConfig, normalize_state,
  normalize_waiters, prune_state, reconcile_limits, waiter_is_live,
}
use pi_shared.Scheduler.Acquire.{
  Request, mutate, prepare, read_state, remove_waiter, try_acquire, enroll,
}
use pi_shared.Common.{
  Bool, List, Option, Ordering, String, [], any_of, arith, false, keep_if, keep_if-same, leb, none,
  not, refl, some, str_eq, true, ℕ, ◌+◌, ◌∷◌, ◌≡◌, str_eq_iff, ◌++◌, Option-cases, inl, inr,
}

abbrev pub is_waiting : AcquireResult → Bool
is_waiting waiting = true
is_waiting (granted _) = false
is_waiting timed_out = false
is_waiting was_aborted = false
is_waiting lock_failed = false

wait_rounds_ends :
    (locale_compare : String → String → Ordering) (config : SubagentConfig) (r : Request)
    (heartbeat : ℕ) (queued_emitted : Bool) (rounds : List Round) (file : Option SchedulerState)
    → any_of (λ round. leb (r.requested_at + config.queue_timeout_ms) round.now) rounds ≡ true
    → is_waiting (wait_rounds locale_compare config r heartbeat queued_emitted rounds file).result
      ≡ false
unfolding wait_rounds any_of
wait_rounds_ends lc config r hb q [] file h = cc
wait_rounds_ends lc config r hb q (round ∷ rounds) file h =
    let m =
      mutate config round.kill round.mutate_now
        (try_acquire lc config r round.now hb round.lease_id) (round.others file) in
    ground (arith, wait_rounds_ends lc config r m.value.1 true rounds m.file)

-- Once a round starts at or after the queue timeout, `acquire` has ended: granted or with an error.
pub acquire_ends :
    (locale_compare : String → String → Ordering) (config : SubagentConfig) (r : Request)
    (rounds : List Round) (last : Round) (file : Option SchedulerState)
    → any_of (λ round. leb (r.requested_at + config.queue_timeout_ms) round.now) rounds ≡ true
    → is_waiting (acquire locale_compare config r rounds last file).result ≡ false
unfolding acquire
acquire_ends lc config r rounds last file h =
    ground (arith, wait_rounds_ends lc config r 0 false rounds file h)

-- Whether the file holds a waiter with the id, and a lease with the id.
abbrev pub has_waiter : String → Option SchedulerState → Bool
has_waiter id none = false
has_waiter id (some s) = any_of (λ (w : SchedulerWaiter). str_eq w.id id) s.waiters

abbrev pub has_lease : String → Option SchedulerState → Bool
has_lease id none = false
has_lease id (some s) = any_of (λ (l : SchedulerLease). str_eq l.id id) s.leases

any_of-keep_if-not {ℓ} :
    {A : Type ℓ} (p : A → Bool) (xs : List A) → any_of p (keep_if (λ x. not (p x)) xs) ≡ false
unfolding any_of keep_if
any_of-keep_if-not p [] = refl
any_of-keep_if-not p (x ∷ xs) = ground (arith, any_of-keep_if-not p xs)

any_of-normalize_waiters :
    (id : String) (ws : List SchedulerWaiter)
    → any_of (λ (w : SchedulerWaiter). str_eq w.id id) (normalize_waiters (some ws))
      ≡ any_of (λ (w : SchedulerWaiter). str_eq w.id id) ws
unfolding any_of normalize_waiters
any_of-normalize_waiters id [] = refl
any_of-normalize_waiters id (w ∷ ws) = ground (arith, any_of-normalize_waiters id ws)

waiters-reconcile_limits :
    (s : SchedulerState) (config : SubagentConfig)
    → (reconcile_limits s config).0.waiters ≡ s.waiters
unfolding reconcile_limits
waiters-reconcile_limits s config = ground arith

-- What `prepare` reports unchanged still has the waiters of the file.
prepare_unchanged :
    (config : SubagentConfig) (kill : ℕ → KillResult) (t : ℕ) (s : SchedulerState)
    → (prepare config kill t (some s)).1 ≡ false
    → (prepare config kill t (some s)).0.waiters ≡ normalize_waiters (some s.waiters)
unfolding prepare prune_state read_state normalize_state
prepare_unchanged config kill t s h = rw waiters-reconcile_limits (
    keep_if-same (waiter_is_live kill t config.lease_ms) (normalize_waiters (some s.waiters))
      (ground arith))

-- Removing a waiter through `mutate` leaves none with its id in the file.
pub mutate-remove_waiter :
    (config : SubagentConfig) (kill : ℕ → KillResult) (t : ℕ) (id : String)
    (file : Option SchedulerState)
    → has_waiter id (mutate config kill t (remove_waiter id) file).file ≡ false
unfolding mutate remove_waiter
mutate-remove_waiter config kill t id none = ground (
  arith,
  any_of-keep_if-not (λ (w : SchedulerWaiter). str_eq w.id id)
      (prepare config kill t none).0.waiters,
)
mutate-remove_waiter config kill t id (some s) = ground (
  arith,
  prepare_unchanged config kill t s,
  any_of-normalize_waiters id s.waiters,
  keep_if-same (λ (w : SchedulerWaiter). not (str_eq w.id id))
      (prepare config kill t (some s)).0.waiters,
  any_of-keep_if-not (λ (w : SchedulerWaiter). str_eq w.id id)
      (prepare config kill t (some s)).0.waiters,
)

-- An `acquire` that fails leaves no waiter of its own behind, if its cleanup gets the file lock.
pub acquire_cleanup :
    (locale_compare : String → String → Ordering) (config : SubagentConfig) (r : Request)
    (rounds : List Round) (last : Round) (file : Option SchedulerState)
    → last.locked ≡ true
    → is_error (acquire locale_compare config r rounds last file).result ≡ true
    → has_waiter r.waiter_id (acquire locale_compare config r rounds last file).file ≡ false
unfolding acquire cleanup
acquire_cleanup lc config r rounds last file locked h = ground (
  arith,
  mutate-remove_waiter config last.kill last.mutate_now r.waiter_id
      (last.others (wait_rounds lc config r 0 false rounds file).file),
)

any_of-append_self :
    (id : String) (leases : List SchedulerLease) (lease : SchedulerLease)
    → lease.id ≡ id
    → any_of (λ (l : SchedulerLease). str_eq l.id id) (leases ++ lease ∷ []) ≡ true
unfolding any_of
any_of-append_self id [] lease e = ground (arith, str_eq_iff lease.id id)
any_of-append_self id (l ∷ leases) lease e = ground (arith, any_of-append_self id leases lease e)

-- One round that grants: the file then holds the lease and no waiter of the caller.
mutate-grant :
    (locale_compare : String → String → Ordering) (config : SubagentConfig) (r : Request)
    (heartbeat : ℕ) (round : Round) (file : Option SchedulerState) {lease : SchedulerLease}
    → (mutate config round.kill round.mutate_now
        (try_acquire locale_compare config r round.now heartbeat round.lease_id)
        file).value.0
      ≡ some lease
    → let after =
        mutate config round.kill round.mutate_now
          (try_acquire locale_compare config r round.now heartbeat round.lease_id)
          file in
      (has_lease lease.id after.file ≡ true) × (has_waiter r.waiter_id after.file ≡ false)
unfolding mutate try_acquire
mutate-grant lc config r hb round file {lease} h =
    let s = (prepare config round.kill round.mutate_now file).0 in
    let ws = (enroll config r round.now hb s.waiters).0 in
    ground (
      arith,
      any_of-append_self lease.id s.leases lease,
      any_of-keep_if-not (λ (w : SchedulerWaiter). str_eq w.id r.waiter_id) ws,
    )

-- What the result says of the file, and what has been reported on the way.
abbrev pub GrantShows : Request → Acquired → Type 0
GrantShows r a =
    (id : String)
    → a.result ≡ granted id
    → (has_lease id a.file ≡ true) × (has_waiter r.waiter_id a.file ≡ false)

wait_rounds-GrantShows :
    (locale_compare : String → String → Ordering) (config : SubagentConfig) (r : Request)
    (heartbeat : ℕ) (queued_emitted : Bool) (rounds : List Round) (file : Option SchedulerState)
    → GrantShows r (wait_rounds locale_compare config r heartbeat queued_emitted rounds file)
unfolding wait_rounds
wait_rounds-GrantShows lc config r hb q [] file id h = cc
wait_rounds-GrantShows lc config r hb q (round ∷ rounds) file id h =
    let m =
      mutate config round.kill round.mutate_now
        (try_acquire lc config r round.now hb round.lease_id) (round.others file) in
    elim (Option-cases m.value.0) [
      | inl e ↦ ground (arith, wait_rounds-GrantShows lc config r m.value.1 true rounds m.file id)
      | inr e ↦ ground (arith, mutate-grant lc config r hb round (round.others file) e.1)
    ]

-- When `acquire` returns a lease, the file holds a lease with its id and no waiter of the caller.
pub acquire-GrantShows :
    (locale_compare : String → String → Ordering) (config : SubagentConfig) (r : Request)
    (rounds : List Round) (last : Round) (file : Option SchedulerState)
    → GrantShows r (acquire locale_compare config r rounds last file)
unfolding acquire
acquire-GrantShows lc config r rounds last file id h =
    ground (arith, wait_rounds-GrantShows lc config r 0 false rounds file id)
