-- ===== src/Scheduler/Acquire/Leases.antt =====
-- The life of a lease after it was granted: heartbeats, release, and expiry.
use pi_shared.Common.{
  All, Bool, List, Ordering, String, [], any_of, arith, false, keep_if, map, not, refl, some,
  str_eq, ℕ, ◌++◌, ◌∷◌, ◌≡◌, ◌≢◌, str_eq_iff, str_eq_refl, true, ◌*◌, ◌+◌, ◌<◌, ◌≤◌,
}
use pi_shared.Scheduler.State.{
  SchedulerLease, SchedulerState, SubagentConfig, KillResult, is_process_alive, lease_is_live,
  prune_state,
}
use pi_shared.Scheduler.Acquire.Grants.{try_acquire-grant}
use pi_shared.Scheduler.Acquire.{
  Request, release, try_acquire, beat_lease, extend_lease, new_lease, owns,
}
use mathlib.Core.List.{append-nil}

abbrev pub lease_ids : List SchedulerLease → List String
lease_ids leases = map (λ (l : SchedulerLease). l.id) leases

keep_if-append {ℓ} :
    {A : Type ℓ} (p : A → Bool) (xs ys : List A)
    → keep_if p (xs ++ ys) ≡ keep_if p xs ++ keep_if p ys
unfolding keep_if
keep_if-append p [] ys = refl
keep_if-append p (x ∷ xs) ys = ground (arith, keep_if-append p xs ys)

keep_if-fresh :
    (lease_id owner_id : String) (leases : List SchedulerLease)
    → any_of (λ id. str_eq id lease_id) (lease_ids leases) ≡ false
    → keep_if (λ l. not (owns lease_id owner_id l)) leases ≡ leases
unfolding keep_if any_of
keep_if-fresh lease_id owner_id [] h = refl
keep_if-fresh lease_id owner_id (l ∷ leases) h =
    ground (arith, keep_if-fresh lease_id owner_id leases)

-- A lease that was granted under a fresh id and is released by its owner leaves the leases as they
-- were before the grant.
pub release-try_acquire :
    (locale_compare : String → String → Ordering) (config : SubagentConfig) (r : Request)
    (now heartbeat : ℕ) (lease_id : String) (s : SchedulerState) {lease : SchedulerLease}
    → any_of (λ id. str_eq id lease_id) (lease_ids s.leases) ≡ false
    → (try_acquire locale_compare config r now heartbeat lease_id s).value.0 ≡ some lease
    → (release lease_id r.owner_id
        (try_acquire locale_compare config r now heartbeat lease_id s).state).state.leases
      ≡ s.leases
unfolding release
release-try_acquire locale_compare config r now heartbeat lease_id s {lease} fresh h =
    let (made, e, _) = try_acquire-grant locale_compare config r now heartbeat lease_id s h in
    rw (e, keep_if-append, keep_if-fresh lease_id r.owner_id s.leases fresh, made)
      (unfold keep_if new_lease in
        rw (str_eq_refl lease_id, str_eq_refl r.owner_id) (append-nil s.leases))

keep_if-others :
    (lease_id owner_id : String) (leases : List SchedulerLease)
    → All (λ l. l.id ≡ lease_id → l.owner_id ≢ owner_id) leases
    → keep_if (λ l. not (owns lease_id owner_id l)) leases ≡ leases
unfolding keep_if
keep_if-others lease_id owner_id [] h = refl
keep_if-others lease_id owner_id (l ∷ leases) h = ground (
  arith,
  h.0,
  str_eq_iff l.id lease_id,
  str_eq_iff l.owner_id owner_id,
  keep_if-others lease_id owner_id leases h.1,
)

-- A release of a lease that the caller does not own changes nothing, and says so.
pub release-other_owner :
    (lease_id owner_id : String) (s : SchedulerState)
    → All (λ l. l.id ≡ lease_id → l.owner_id ≢ owner_id) s.leases
    → release lease_id owner_id s ≡ record { state = s; value = tt; changed = false }
unfolding release
release-other_owner lease_id owner_id s h =
    rw (keep_if-others lease_id owner_id s.leases h) (ground arith)

any_of-extend_lease :
    (config : SubagentConfig) (kill : ℕ → KillResult) (lease_id owner_id : String) (t now : ℕ)
    (leases : List SchedulerLease)
    → now < t + config.lease_ms
    → All (λ l. owns lease_id owner_id l ≡ true → is_process_alive kill l.pid ≡ true) leases
    → any_of (owns lease_id owner_id) leases ≡ true
    → any_of
        (owns lease_id owner_id)
        (keep_if (lease_is_live kill now) (extend_lease config lease_id owner_id t leases))
      ≡ true
unfolding any_of keep_if extend_lease lease_is_live
any_of-extend_lease config kill lease_id owner_id t now [] early alive h = cc
any_of-extend_lease config kill lease_id owner_id t now (l ∷ leases) early alive h =
    ground
      (arith, alive.0, any_of-extend_lease config kill lease_id owner_id t now leases early alive.1)

-- A heartbeat keeps the lease: while its owner's process lives and the next two heartbeats have not
-- both been missed by now, pruning does not drop a lease that was beaten at time `t`. The lease time
-- must be at least three heartbeats, as the configuration demands.
pub prune_state-beat_lease :
    (config : SubagentConfig) (kill : ℕ → KillResult) (lease_id owner_id : String) (t now : ℕ)
    (s : SchedulerState)
    → 0 < config.heartbeat_ms
    → 3 * config.heartbeat_ms ≤ config.lease_ms
    → now ≤ t + 2 * config.heartbeat_ms
    → All (λ l. owns lease_id owner_id l ≡ true → is_process_alive kill l.pid ≡ true) s.leases
    → any_of (owns lease_id owner_id) s.leases ≡ true
    → any_of
        (owns lease_id owner_id)
        (prune_state kill
          (beat_lease config lease_id owner_id t s).state
          now
          config.lease_ms).0.leases
      ≡ true
unfolding prune_state beat_lease
prune_state-beat_lease config kill lease_id owner_id t now s beats lasts soon alive h =
    rw h (any_of-extend_lease config kill lease_id owner_id t now s.leases (omega arith) alive h)
