-- ===== src/Scheduler/Tests.antt =====
-- Runs of the scheduler at concrete states, and the theorems applied there.
use pi_shared.Common.{
  Ordering, String, [], all_of, any_of, arith, codes, compare, count_if, if◌then◌else◌, length,
  none, refl, some, trim, utf16_length, ℕ, ◌+◌, ◌==◌, ◌∷◌, ◌≡◌, ◌≤◌, Option, false, keep_if, inl,
  List, str_eq_iff, true,
}
use mathlib.Core.List.{Memᴰ}
use pi_shared.Scheduler.Acquire.Grants.{
  try_acquire-capacity, try_acquire-pool, enrolled, try_acquire-no_overtaking, both_urgent,
}
use pi_shared.Scheduler.Group.{
  run, settle, group_closed, ExecutionGroup, GroupIsValid, close_group, close_group_drains,
  GroupEvent, settlements, times_pending, group_run, group_run-IsValid, group_step, is_drained,
  new_group,
}
use pi_shared.Scheduler.Loop.{granted, Acquired, Round, acquire, wait_rounds}
use pi_shared.Scheduler.Acquire.Host.{next, fresh, acquires, FileWithin, Reach-FileWithin}
use pi_shared.Scheduler.State.{
  foreground, KillResult, SchedulerLease, SchedulerState, SchedulerWaiter, SubagentConfig, count_of,
  is_resource_key, normalize_resource_key, set_count, empty_state, is_idle, is_process_alive,
  normalize_leases, normalize_resource_limits, normalize_state, normalize_waiters, prune_state,
  reconcile_limits, resource_limits_equal,
}
use pi_shared.Scheduler.Select.{compare_waiters, insert_sorted, lease_usage, select, sort}
use pi_shared.Scheduler.Acquire.{
  Request, enroll, new_lease, new_waiter, try_acquire, beat_lease, eligible_ids, mutate, owns,
  prepare, read_state, release,
}
use pi_shared.Scheduler.Select.Order.{IsOrder}
use pi_shared.Scheduler.Select.Usage.{in_pool}
use pi_shared.Scheduler.Loop.Ends.{
  acquire-GrantShows, acquire_cleanup, acquire_ends, has_lease, has_waiter, is_waiting,
}
use pi_shared.Scheduler.Acquire.Leases.{prune_state-beat_lease, release-try_acquire}
use pi_shared.Scheduler.Reconcile.{reconcile_limits-tighter, tighter}
use pi_shared.Scheduler.Select.Bounds.{holds}

abbrev config : SubagentConfig
config = record {
  max_fanout = 2;
  max_concurrency = 2;
  queue_timeout_ms = 1000;
  heartbeat_ms = 5000;
  lease_ms = 60000;
  background_aging_ms = 60000;
  resource_limits = ("openai", 1) ∷ [];
}

-- A collation to run with: shorter ids first.
abbrev by_length : String → String → Ordering
by_length a b = compare (utf16_length a) (utf16_length b)

by_length-IsOrder : IsOrder by_length
by_length-IsOrder = record { flip = λ a b h. ground arith; trans = λ a b c h k. ground arith }

abbrev kill : ℕ → KillResult
kill pid = if pid == 7 then KillResult.no_process else KillResult.delivered

abbrev request : Request
request = record {
  options = record { label = none; priority = none; resource_key = some " openai " };
  waiter_id = "w1";
  owner_id = "me";
  pid = 5;
  requested_at = 100;
}

-- Another waiter, older and without a pool.
abbrev other : SchedulerWaiter
other = record {
  id = "w0";
  owner_id = "you";
  pid = 6;
  requested_at = 50;
  heartbeat_at = 90;
  label = none;
  priority = foreground;
  resource_key = none;
}

abbrev busy : SchedulerState
busy = record {
  limit = 3;
  resource_limits = ("openai", 4) ∷ ("local", 1) ∷ [];
  waiters = other ∷ [];
  leases = [];
}

trims_and_checks : normalize_resource_key (some " openai ") ≡ some "openai"
unfolding normalize_resource_key is_resource_key trim codes all_of
trims_and_checks = refl

refuses_spaces : normalize_resource_key (some "open ai") ≡ none
unfolding normalize_resource_key is_resource_key trim codes all_of
refuses_spaces = refl

abbrev lease : SchedulerLease
lease = record {
  id = "l1";
  waiter_id = "w1";
  owner_id = "me";
  pid = 5;
  acquired_at = 120;
  heartbeat_at = 120;
  expires_at = 60120;
  label = none;
  priority = foreground;
  resource_key = some "openai";
}

grants : (try_acquire by_length config request 120 0 "l1" busy).value.0 ≡ some lease
unfolding try_acquire enroll new_waiter select sort insert_sorted compare_waiters lease_usage any_of
    set_count count_of normalize_resource_key is_resource_key trim codes all_of new_lease
    utf16_length
grants = refl

try_acquire-capacity_example :
    (length (try_acquire by_length config request 120 0 "l1" busy).state.leases
      ≤ (try_acquire by_length config request 120 0 "l1" busy).state.limit)
    × (length (try_acquire by_length config request 120 0 "l1" busy).state.leases
        ≡ length busy.leases + 1)
try_acquire-capacity_example = try_acquire-capacity by_length config request 120 0 "l1" busy grants

try_acquire-pool_example :
    count_if (in_pool "openai") (try_acquire by_length config request 120 0 "l1" busy).state.leases
    ≤ 4
unfolding count_of normalize_resource_key is_resource_key trim codes all_of
try_acquire-pool_example =
    try_acquire-pool by_length config request 120 0 "l1" busy "openai" 4
      ((λ e. ground (arith, str_eq_iff "w0" "w1")), tt) grants refl refl

try_acquire-no_overtaking_example :
    holds other.id
      (eligible_ids by_length config 120 (enrolled by_length config request 120 0 "l1" busy))
    ≡ true
unfolding enroll new_waiter compare_waiters any_of normalize_resource_key is_resource_key trim codes
    all_of utf16_length
try_acquire-no_overtaking_example =
    try_acquire-no_overtaking by_length config request 120 0 "l1" busy other by_length-IsOrder
      (Memᴰ.head refl) refl
      (
        (λ e. absurd (let no_such : ⊥ = ground (arith, str_eq_iff "w0" "w1") in no_such)),
        ((λ e. both_urgent (inl refl) (inl refl) (omega arith)), tt),
      )
      grants

abbrev one_step : Option SchedulerState
one_step = (mutate config kill 120 (try_acquire by_length config request 120 0 "l1") none).file

Reach-FileWithin_example : FileWithin 2 one_step
Reach-FileWithin_example =
    Reach-FileWithin
      (next fresh (acquires by_length config kill request 120 0 "l1" 120 none (omega arith)))

abbrev late : Round
late = record {
  aborted = false;
  now = 1100;
  locked = true;
  others = λ f. f;
  kill = kill;
  mutate_now = 1100;
  lease_id = "l1";
  aborted_in_delay = false;
}

abbrev early : Round
early = record {
  aborted = false;
  now = 120;
  locked = true;
  others = λ f. f;
  kill = kill;
  mutate_now = 120;
  lease_id = "l1";
  aborted_in_delay = false;
}

acquire_ends_example :
    is_waiting (acquire by_length config request (early ∷ late ∷ []) late none).result ≡ false
unfolding any_of
acquire_ends_example = acquire_ends by_length config request (early ∷ late ∷ []) late none refl

acquire_cleanup_example :
    has_waiter "w1" (acquire by_length config request (late ∷ []) late none).file ≡ false
unfolding acquire wait_rounds
acquire_cleanup_example = acquire_cleanup by_length config request (late ∷ []) late none refl refl

abbrev done : Acquired
done = acquire by_length config request (early ∷ []) late none

granted_first : done.result ≡ granted "l1"
unfolding acquire wait_rounds mutate prepare read_state normalize_state empty_state
    normalize_waiters normalize_leases normalize_resource_limits prune_state reconcile_limits
    is_idle resource_limits_equal keep_if try_acquire enroll new_waiter select sort insert_sorted
    compare_waiters lease_usage any_of set_count count_of normalize_resource_key is_resource_key
    trim codes all_of new_lease utf16_length
granted_first = refl

acquire-GrantShows_example : (has_lease "l1" done.file ≡ true) × (has_waiter "w1" done.file ≡ false)
acquire-GrantShows_example =
    acquire-GrantShows by_length config request (early ∷ []) late none "l1" granted_first

reconcile_limits-tighter_example :
    ((reconcile_limits busy config).0.limit ≡ 2)
    × ((key : String)
        → count_of key (reconcile_limits busy config).0.resource_limits
          ≡ tighter (count_of key busy.resource_limits) (count_of key config.resource_limits))
unfolding count_of is_idle
reconcile_limits-tighter_example = reconcile_limits-tighter busy config (refl, tt) refl

release-try_acquire_example :
    (release "l1" "me" (try_acquire by_length config request 120 0 "l1" busy).state).state.leases
    ≡ []
unfolding any_of
release-try_acquire_example =
    release-try_acquire by_length config request 120 0 "l1" busy refl grants

abbrev running_state : SchedulerState
running_state = record busy { leases = lease ∷ [] }

prune_state-beat_lease_example :
    any_of
      (owns "l1" "me")
      (prune_state kill
        (beat_lease config "l1" "me" 60000 running_state).state
        70000
        60000).0.leases
    ≡ true
unfolding any_of is_process_alive
prune_state-beat_lease_example =
    prune_state-beat_lease config kill "l1" "me" 60000 70000 running_state (omega arith)
      (omega arith) (omega arith) ((λ e. refl), tt) refl

group_run-IsValid_example :
    GroupIsValid config (group_run config new_group (run 1 ∷ run 2 ∷ run 3 ∷ settle 1 ∷ []))
unfolding new_group
group_run-IsValid_example =
    group_run-IsValid config new_group (run 1 ∷ run 2 ∷ run 3 ∷ settle 1 ∷ [])
      (record { counted = refl; bounded = omega arith })

abbrev two_running : ExecutionGroup
two_running = record { outstanding = 2; closed = false; aborted = false; pending = 1 ∷ 2 ∷ [] }

-- Both promises settle, the later one first, and a run in between is refused.
abbrev settles : List GroupEvent
settles = settle 2 ∷ run 3 ∷ settle 1 ∷ []

two_settle : (p : ℕ) → times_pending p two_running.pending ≤ settlements p settles
unfolding settlements count_if
two_settle p = ground arith

close_group_drains_example :
    (group_step config (group_run config (close_group two_running) settles) (run 3)
      ≡ (group_run config (close_group two_running) settles, group_closed))
    × (is_drained (group_run config (close_group two_running) settles) ≡ true)
close_group_drains_example = close_group_drains config two_running settles 3 two_settle
