-- ===== src/Scheduler/Acquire.antt =====
-- extensions/_shared/subagent-scheduler.ts: the operations on the shared state. `mutate` reads the
-- file, prunes and reconciles it, runs one operation and writes the file if anything changed; each
-- operation is the function that the source passes to it.
pub mod Grants
pub mod Host
pub mod Leases
use pi_shared.Common.{
  ℕ, ◌+◌, ◌-◌, String, Option, none, some, Bool, true, false, not, ◌&&◌, ◌||◌, List, [], ◌∷◌, ◌++◌,
  Ordering, leb, ◌==◌, if◌then◌else◌, str_eq, length, keep_if, any_of, get_or,
}
use pi_shared.Scheduler.State.{
  SchedulerPriority, foreground, SchedulerWaiter, SchedulerLease, SchedulerState, StoredState,
  SubagentConfig, KillResult, empty_state, normalize_state, normalize_resource_key, prune_state,
  reconcile_limits,
}
use pi_shared.Scheduler.Select.{compare_waiters, sort, lease_usage, select}

-- What an operation returns to `mutate`.
pub record Change {ℓ} (A : Type ℓ) : Type ℓ where
  pub state : SchedulerState
  pub value : A
  pub changed : Bool

-- What `mutate` leaves behind: the file, absent or with a state, and the operation's value.
pub record Mutated {ℓ} (A : Type ℓ) : Type ℓ where
  pub file : Option SchedulerState
  pub value : A

abbrev pub stored : SchedulerState → StoredState
stored s = record {
  limit = some s.limit;
  resource_limits = some s.resource_limits;
  waiters = some s.waiters;
  leases = some s.leases;
}

-- `normalizeState(readJsonFile(path, emptyState(...)), ...)`
unfoldable pub read_state : SubagentConfig → Option SchedulerState → SchedulerState
read_state config none =
    normalize_state (stored (empty_state config.max_concurrency config.resource_limits))
      config.max_concurrency config.resource_limits
read_state config (some s) =
    normalize_state (stored s) config.max_concurrency config.resource_limits

-- The state that an operation sees, and whether pruning or reconciling has changed it.
unfoldable pub prepare :
    SubagentConfig → (ℕ → KillResult) → ℕ → Option SchedulerState → SchedulerState × Bool
unfolding read_state
prepare config kill now file =
    let (pruned, dropped) = prune_state kill (read_state config file) now config.lease_ms in
    let (state, lowered) = reconcile_limits pruned config in (state, lowered || dropped)

unfoldable pub mutate {ℓ} :
    {A : Type ℓ}
    → SubagentConfig
    → (ℕ → KillResult)
    → ℕ
    → (SchedulerState → Change A)
    → Option SchedulerState
    → Mutated A
unfolding prepare
mutate config kill now fn file =
    let (state, changed) = prepare config kill now file in
    let result = fn state in
    record {
      file = if changed || result.changed then some result.state else file;
      value = result.value;
    }

unfoldable pub remove_waiter : String → SchedulerState → Change (Unit {0})
remove_waiter waiter_id state =
    let waiters = keep_if (λ w. not (str_eq w.id waiter_id)) state.waiters in
    record {
      state = record state { waiters = waiters };
      value = tt;
      changed = not (length waiters == length state.waiters);
    }

pub record SchedulerRunOptions : Type 0 where
  pub label : Option String
  pub priority : Option SchedulerPriority
  pub resource_key : Option String

-- The constants of one call of `acquire`.
pub record Request : Type 0 where
  pub options : SchedulerRunOptions
  pub waiter_id : String
  pub owner_id : String
  pub pid : ℕ
  pub requested_at : ℕ

unfoldable pub new_waiter : Request → ℕ → SchedulerWaiter
new_waiter r now = record {
  id = r.waiter_id;
  owner_id = r.owner_id;
  pid = r.pid;
  requested_at = r.requested_at;
  heartbeat_at = now;
  label = r.options.label;
  priority = get_or r.options.priority foreground;
  resource_key = normalize_resource_key r.options.resource_key;
}

-- `waiter.heartbeatAt = now` on the waiter that `find` returned.
unfoldable pub touch_waiter : String → ℕ → List SchedulerWaiter → List SchedulerWaiter
touch_waiter id now [] = []
touch_waiter id now (w ∷ ws) =
    if str_eq w.id id then record w { heartbeat_at = now } ∷ ws else w ∷ touch_waiter id now ws

-- The waiters after the caller has enrolled or refreshed itself, its last heartbeat, and whether
-- anything changed.
unfoldable pub enroll :
    SubagentConfig → Request → ℕ → ℕ → List SchedulerWaiter → List SchedulerWaiter × ℕ × Bool
unfolding new_waiter
enroll config r now last_heartbeat waiters =
    if any_of (λ w. str_eq w.id r.waiter_id) waiters
    then (if leb (last_heartbeat + config.heartbeat_ms) now
        then (touch_waiter r.waiter_id now waiters, now, true)
        else (waiters, last_heartbeat, false))
    else (waiters ++ new_waiter r now ∷ [], now, true)

unfoldable pub new_lease : SubagentConfig → Request → ℕ → String → SchedulerLease
new_lease config r now lease_id = record {
  id = lease_id;
  waiter_id = r.waiter_id;
  owner_id = r.owner_id;
  pid = r.pid;
  acquired_at = now;
  heartbeat_at = now;
  expires_at = now + config.lease_ms;
  label = r.options.label;
  priority = get_or r.options.priority foreground;
  resource_key = normalize_resource_key r.options.resource_key;
}

-- The ids that may start, in a state whose waiters include the caller.
unfoldable pub eligible_ids :
    (String → String → Ordering) → SubagentConfig → ℕ → SchedulerState → List String
eligible_ids locale_compare config now s =
    select s.resource_limits (s.limit - length s.leases) (lease_usage [] s.leases) []
      (sort (compare_waiters locale_compare config.background_aging_ms now) s.waiters)

-- The operation of one round of `acquire`: the lease if one was granted, and the last heartbeat.
unfoldable pub try_acquire :
    (String → String → Ordering)
    → SubagentConfig
    → Request
    → ℕ
    → ℕ
    → String
    → SchedulerState
    → Change (Option SchedulerLease × ℕ)
unfolding eligible_ids
try_acquire locale_compare config r now last_heartbeat lease_id state =
    let (waiters, heartbeat, changed) = enroll config r now last_heartbeat state.waiters in
    let enrolled = record state { waiters = waiters } in
    let lease = new_lease config r now lease_id in
    if any_of (λ e. str_eq e r.waiter_id) (eligible_ids locale_compare config now enrolled)
    then record {
      state = record enrolled {
        waiters = keep_if (λ w. not (str_eq w.id r.waiter_id)) waiters;
        leases = state.leases ++ lease ∷ [];
      };
      value = (some lease, heartbeat);
      changed = true;
    }
    else record { state = enrolled; value = (none, heartbeat); changed = changed }

abbrev pub owns : String → String → SchedulerLease → Bool
owns lease_id owner_id lease = str_eq lease.id lease_id && str_eq lease.owner_id owner_id

unfoldable pub extend_lease :
    SubagentConfig → String → String → ℕ → List SchedulerLease → List SchedulerLease
extend_lease config lease_id owner_id now [] = []
extend_lease config lease_id owner_id now (l ∷ ls) =
    if owns lease_id owner_id l
    then record l { heartbeat_at = now; expires_at = now + config.lease_ms } ∷ ls
    else l ∷ extend_lease config lease_id owner_id now ls

-- One tick of `startLeaseHeartbeat`.
unfoldable pub beat_lease :
    SubagentConfig → String → String → ℕ → SchedulerState → Change (Unit {0})
unfolding extend_lease
beat_lease config lease_id owner_id now state =
    if any_of (owns lease_id owner_id) state.leases
    then record {
      state = record state { leases = extend_lease config lease_id owner_id now state.leases };
      value = tt;
      changed = true;
    }
    else record { state = state; value = tt; changed = false }

unfoldable pub release : String → String → SchedulerState → Change (Unit {0})
release lease_id owner_id state =
    let leases = keep_if (λ l. not (owns lease_id owner_id l)) state.leases in
    record {
      state = record state { leases = leases };
      value = tt;
      changed = not (length leases == length state.leases);
    }
