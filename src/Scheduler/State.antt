-- ===== src/Scheduler/State.antt =====
-- extensions/_shared/subagent-scheduler.ts: the shared state file, how it is normalized when it is
-- read, how dead entries are pruned and how a process's own limits are folded in.
-- Times are milliseconds; a comparison of a difference is written as a comparison of a sum, which
-- agrees with the source when a clock runs backwards.
use pi_shared.Common.{
  ℕ, ◌+◌, String, Option, none, some, Bool, true, false, not, ◌&&◌, ◌||◌, List, [], ◌∷◌, map, ltb,
  leb, ◌==◌, if◌then◌else◌, str_eq, length, keep_if, all_of, codes, trim,
}

pub data SchedulerPriority : Type 0 where
  foreground background : SchedulerPriority

pub record SchedulerWaiter : Type 0 where
  pub id : String
  pub owner_id : String
  pub pid : ℕ
  pub requested_at : ℕ
  pub heartbeat_at : ℕ
  pub label : Option String
  pub priority : SchedulerPriority
  pub resource_key : Option String

pub record SchedulerLease : Type 0 where
  pub id : String
  pub waiter_id : String
  pub owner_id : String
  pub pid : ℕ
  pub acquired_at : ℕ
  pub heartbeat_at : ℕ
  pub expires_at : ℕ
  pub label : Option String
  pub priority : SchedulerPriority
  pub resource_key : Option String

-- `Record<string, number>` and `Map<string, number>`, in the order of insertion.
abbrev pub Counts : Type 0
Counts = List (String × ℕ)

unfoldable pub count_of : String → Counts → Option ℕ
count_of k [] = none
count_of k ((j, n) ∷ rest) = if str_eq j k then some n else count_of k rest

unfoldable pub set_count : String → ℕ → Counts → Counts
set_count k n [] = (k, n) ∷ []
set_count k n ((j, m) ∷ rest) = if str_eq j k then (k, n) ∷ rest else (j, m) ∷ set_count k n rest

pub record SchedulerState : Type 0 where
  pub limit : ℕ
  pub resource_limits : Counts
  pub waiters : List SchedulerWaiter
  pub leases : List SchedulerLease

-- `Partial<SchedulerState>`: what a state file may hold.
pub record StoredState : Type 0 where
  pub limit : Option ℕ
  pub resource_limits : Option Counts
  pub waiters : Option (List SchedulerWaiter)
  pub leases : Option (List SchedulerLease)

-- The part of `SubagentConfig` that the scheduler reads.
pub record SubagentConfig : Type 0 where
  pub max_fanout : ℕ
  pub max_concurrency : ℕ
  pub queue_timeout_ms : ℕ
  pub heartbeat_ms : ℕ
  pub lease_ms : ℕ
  pub background_aging_ms : ℕ
  pub resource_limits : Counts

-- What `process.kill(pid, 0)` does: it returns, or throws an error with a code.
pub data KillResult : Type 0 where
  delivered not_permitted no_process : KillResult

unfoldable pub is_process_alive : (ℕ → KillResult) → ℕ → Bool
is_process_alive kill pid =
    if pid == 0
    then false
    else elim (kill pid) [ delivered ↦ true | not_permitted ↦ true | no_process ↦ false ]

unfoldable pub empty_state : ℕ → Counts → SchedulerState
empty_state limit resource_limits = record {
  limit = limit;
  resource_limits = resource_limits;
  waiters = [];
  leases = [];
}

-- `[A-Za-z0-9._:-]`
unfoldable pub is_key_char : ℕ → Bool
is_key_char c =
    leb b'A' c && leb c b'Z'
    || leb b'a' c && leb c b'z'
    || leb b'0' c && leb c b'9'
    || c == b'.'
    || c == b'_'
    || c == b':'
    || c == b'-'

-- `/^[A-Za-z0-9._:-]{1,100}$/.test(key)`
unfoldable pub is_resource_key : String → Bool
unfolding is_key_char
is_resource_key key =
    let cs = codes key in leb 1 (length cs) && leb (length cs) 100 && all_of is_key_char cs

unfoldable pub normalize_resource_key : Option String → Option String
normalize_resource_key none = none
normalize_resource_key (some value) =
    let key = trim value in if is_resource_key key then some key else none

unfoldable pub normalize_resource_limits : Counts → Counts
normalize_resource_limits =
    keep_if (λ entry. is_resource_key entry.0 && leb 1 entry.1 && leb entry.1 32)

normalize_limit : Option ℕ → ℕ → ℕ
normalize_limit none limit = limit
normalize_limit (some n) limit = if ltb 0 n then n else limit

normalize_waiter : SchedulerWaiter → SchedulerWaiter
normalize_waiter item = record item { resource_key = normalize_resource_key item.resource_key }

normalize_lease : SchedulerLease → SchedulerLease
normalize_lease item = record item { resource_key = normalize_resource_key item.resource_key }

unfoldable pub normalize_waiters : Option (List SchedulerWaiter) → List SchedulerWaiter
unfolding normalize_waiter
normalize_waiters none = []
normalize_waiters (some items) = map normalize_waiter items

unfoldable pub normalize_leases : Option (List SchedulerLease) → List SchedulerLease
unfolding normalize_lease
normalize_leases none = []
normalize_leases (some items) = map normalize_lease items

normalize_stored_limits : Option Counts → Counts → Counts
normalize_stored_limits none resource_limits = resource_limits
normalize_stored_limits (some limits) resource_limits = normalize_resource_limits limits

unfoldable pub normalize_state : StoredState → ℕ → Counts → SchedulerState
unfolding normalize_limit normalize_waiters normalize_leases normalize_stored_limits
normalize_state value limit resource_limits = record {
  limit = normalize_limit value.limit limit;
  resource_limits = normalize_stored_limits value.resource_limits resource_limits;
  waiters = normalize_waiters value.waiters;
  leases = normalize_leases value.leases;
}

has_count : Counts → String × ℕ → Bool
has_count right (key, limit) = elim (count_of key right) [ none ↦ false | some n ↦ n == limit ]

unfoldable pub resource_limits_equal : Counts → Counts → Bool
unfolding has_count
resource_limits_equal left right = length left == length right && all_of (has_count right) left

unfoldable pub is_idle : SchedulerState → Bool
is_idle state = length state.waiters == 0 && length state.leases == 0

-- One round of the loop over `Object.entries(config.resourceLimits)`.
unfoldable pub lower_resource_limit : Counts × Bool → String × ℕ → Counts × Bool
lower_resource_limit (limits, changed) (key, limit) = elim (count_of key limits) [
  | none ↦ (set_count key limit limits, true)
  | some n ↦ if ltb limit n then (set_count key limit limits, true) else (limits, changed)
]

unfoldable pub lower_resource_limits : Counts × Bool → Counts → Counts × Bool
lower_resource_limits acc [] = acc
lower_resource_limits acc (entry ∷ rest) =
    lower_resource_limits (lower_resource_limit acc entry) rest

unfoldable pub reconcile_limits : SchedulerState → SubagentConfig → SchedulerState × Bool
unfolding is_idle
reconcile_limits state config =
    if is_idle state
    then (
      record state { limit = config.max_concurrency; resource_limits = config.resource_limits },
      not (state.limit == config.max_concurrency)
          || not (resource_limits_equal state.resource_limits config.resource_limits),
    )
    else let lower = ltb config.max_concurrency state.limit in
      let (limits, changed) =
        lower_resource_limits (state.resource_limits, lower) config.resource_limits in
      (
        record state {
          limit = if lower then config.max_concurrency else state.limit;
          resource_limits = limits;
        },
        changed,
      )

unfoldable pub waiter_is_live : (ℕ → KillResult) → ℕ → ℕ → SchedulerWaiter → Bool
waiter_is_live kill now lease_ms waiter =
    is_process_alive kill waiter.pid && leb now (waiter.heartbeat_at + lease_ms)

unfoldable pub lease_is_live : (ℕ → KillResult) → ℕ → SchedulerLease → Bool
lease_is_live kill now lease = is_process_alive kill lease.pid && ltb now lease.expires_at

unfoldable pub prune_state : (ℕ → KillResult) → SchedulerState → ℕ → ℕ → SchedulerState × Bool
prune_state kill state now lease_ms =
    let waiters = keep_if (waiter_is_live kill now lease_ms) state.waiters in
    let leases = keep_if (lease_is_live kill now) state.leases in
    (
      record state { waiters = waiters; leases = leases },
      not (length waiters == length state.waiters) || not (length leases == length state.leases),
    )
