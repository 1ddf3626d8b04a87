-- ===== src/Scheduler/Select/Usage.antt =====
-- Lookups in the maps of counts, and what the usage map of the leases holds.
use pi_shared.Common.{
  ℕ, suc, ◌+◌, ◌≤◌, String, Option, none, some, Bool, false, ◌≡◌, refl, List, [], ◌∷◌, arith,
  if◌then◌else◌, str_eq, str_eq_iff, opt_str_eq, count_if, get_or, ◌<◌,
}
use pi_shared.Scheduler.State.{SchedulerLease, Counts, count_of, set_count}
use pi_shared.Scheduler.Select.{add_usage, lease_usage, usage_of, pool_is_full, take_slot, limit_of}

pub count_of-set_count :
    (k j : String) (n : ℕ) (m : Counts)
    → count_of j (set_count k n m) ≡ (if str_eq k j then some n else count_of j m)
unfolding count_of set_count
count_of-set_count k j n [] = refl
count_of-set_count k j n ((i, v) ∷ m) =
    ground (arith, str_eq_iff k j, str_eq_iff i k, str_eq_iff i j, count_of-set_count k j n m)

-- Reading the usage of a pool that is no pool is 0.
abbrev pub used : Counts → String → ℕ
used usage key = get_or (count_of key usage) 0

used-add_usage :
    (k j : String) (usage : Counts)
    → used (add_usage k usage) j ≡ (if str_eq k j then suc (used usage k) else used usage j)
unfolding add_usage
used-add_usage k j usage =
    ground (arith, count_of-set_count k j (get_or (count_of k usage) 0 + 1) usage)

pub used_mono : (k j : String) (usage : Counts) → used usage j ≤ used (add_usage k usage) j
used_mono k j usage = ground (arith, used-add_usage k j usage, str_eq_iff k j)

-- How many leases of a pool are out.
abbrev pub in_pool : String → SchedulerLease → Bool
in_pool key lease = opt_str_eq lease.resource_key (some key)

used-take_slot :
    (j : String) (key : Option String) (usage : Counts)
    → used (take_slot key usage) j
      ≡ (if opt_str_eq key (some j) then suc (used usage j) else used usage j)
unfolding take_slot
used-take_slot j none usage = refl
used-take_slot j (some k) usage = ground (arith, used-add_usage k j usage, str_eq_iff k j)

lease_usage-counts :
    (j : String) (usage : Counts) (leases : List SchedulerLease)
    → used (lease_usage usage leases) j ≡ used usage j + count_if (in_pool j) leases
unfolding lease_usage count_if
lease_usage-counts j usage [] = omega arith
lease_usage-counts j usage (lease ∷ leases) = ground (
  arith,
  lease_usage-counts j (take_slot lease.resource_key usage) leases,
  used-take_slot j lease.resource_key usage,
)

-- The usage map that `acquire` builds counts the leases of each pool.
pub used-lease_usage :
    (j : String) (leases : List SchedulerLease)
    → used (lease_usage [] leases) j ≡ count_if (in_pool j) leases
unfolding count_of
used-lease_usage j leases = omega (arith, lease_usage-counts j [] leases)

-- A pool that has room when more of it is in use has room now.
pub pool_is_full-take_slot :
    (limits usage : Counts) (key k : Option String)
    → pool_is_full limits (take_slot k usage) key ≡ false
    → pool_is_full limits usage key ≡ false
unfolding pool_is_full take_slot usage_of limit_of
pool_is_full-take_slot limits usage none k h = refl
pool_is_full-take_slot limits usage (some j) none h = h
pool_is_full-take_slot limits usage (some j) (some k) h = ground (arith, used_mono k j usage)

-- A pool with a limit that is not full has less in use than the limit.
pub pool_is_full-lt :
    (limits usage : Counts) (key : String) (n : ℕ)
    → pool_is_full limits usage (some key) ≡ false
    → count_of key limits ≡ some n
    → used usage key < n
unfolding pool_is_full usage_of limit_of
pool_is_full-lt limits usage key n h e = ground arith
