-- ===== src/Scheduler/Select.antt =====
-- extensions/_shared/subagent-scheduler.ts, within `acquire`: which waiters may start now. The
-- waiters are sorted by rank, age and id, and taken in that order while slots are left, past those
-- whose resource pool is full.
-- `String.prototype.localeCompare` collates by the host's locale: it is the parameter
-- `locale_compare`, `lt` for a negative result.
pub mod Usage
pub mod Bounds
pub mod Order
use pi_shared.Common.{
  ℕ, ◌+◌, String, Option, none, some, Bool, true, false, ◌||◌, List, [], ◌∷◌, Ordering, compare,
  leb, if◌then◌else◌, str_eq, length, any_of, get_or,
}
use pi_shared.Scheduler.State.{
  SchedulerPriority, foreground, background, SchedulerWaiter, SchedulerLease, Counts, count_of,
  set_count,
}

abbrev pub is_foreground : SchedulerPriority → Bool
is_foreground foreground = true
is_foreground background = false

-- `leftRank`, `rightRank`
unfoldable pub rank : ℕ → ℕ → SchedulerWaiter → ℕ
rank aging_ms now w =
    if is_foreground w.priority || leb (w.requested_at + aging_ms) now then 0 else 1

-- `a || b` on the results of comparisons.
abbrev pub or_compare : Ordering → Ordering → Ordering
or_compare Ordering.eq o = o
or_compare Ordering.lt o = Ordering.lt
or_compare Ordering.gt o = Ordering.gt

unfoldable pub compare_waiters :
    (String → String → Ordering) → ℕ → ℕ → SchedulerWaiter → SchedulerWaiter → Ordering
unfolding rank
compare_waiters locale_compare aging_ms now l r =
    or_compare (compare (rank aging_ms now l) (rank aging_ms now r))
      (or_compare (compare l.requested_at r.requested_at) (locale_compare l.id r.id))

abbrev pub is_after : Ordering → Bool
is_after Ordering.gt = true
is_after Ordering.lt = false
is_after Ordering.eq = false

-- `Array.prototype.sort` is stable: an element goes behind those that compare equal to it and
-- stood before it. Inserting from the right, it stops before the first that is not smaller.
module _ {ℓ} {A : Type ℓ} (cmp : A → A → Ordering) where
  unfoldable pub insert_sorted : A → List A → List A
  insert_sorted a [] = a ∷ []
  insert_sorted a (x ∷ xs) = if is_after (cmp a x) then x ∷ insert_sorted a xs else a ∷ x ∷ xs

  unfoldable pub sort : List A → List A
  sort [] = []
  sort (x ∷ xs) = insert_sorted x (sort xs)

-- The map of resource usage: how many leases each pool has out.
unfoldable pub add_usage : String → Counts → Counts
add_usage key usage = set_count key (get_or (count_of key usage) 0 + 1) usage

-- Both loops count an entry that names a pool, and only such.
unfoldable pub take_slot : Option String → Counts → Counts
unfolding add_usage
take_slot none usage = usage
take_slot (some key) usage = add_usage key usage

unfoldable pub lease_usage : Counts → List SchedulerLease → Counts
unfolding take_slot
lease_usage usage [] = usage
lease_usage usage (lease ∷ leases) = lease_usage (take_slot lease.resource_key usage) leases

unfoldable pub usage_of : Option String → Counts → ℕ
usage_of none usage = 0
usage_of (some key) usage = get_or (count_of key usage) 0

unfoldable pub limit_of : Option String → Counts → Option ℕ
limit_of none limits = none
limit_of (some key) limits = count_of key limits

-- `resourceLimit !== undefined && inUse >= resourceLimit`
unfoldable pub pool_is_full : Counts → Counts → Option String → Bool
unfolding usage_of limit_of
pool_is_full limits usage key = elim (limit_of key limits) [
  | none ↦ false
  | some n ↦ leb n (usage_of key usage)
]

-- `eligible.add(id)` on a `Set`.
unfoldable pub set_add : String → List String → List String
set_add id eligible = if any_of (λ e. str_eq e id) eligible then eligible else id ∷ eligible

-- The loop over the sorted waiters.
unfoldable pub select : Counts → ℕ → Counts → List String → List SchedulerWaiter → List String
unfolding pool_is_full take_slot set_add
select limits available usage eligible [] = eligible
select limits available usage eligible (w ∷ ws) =
    let skip = select limits available usage eligible ws in
    let go = select limits available (take_slot w.resource_key usage) (set_add w.id eligible) ws in
    if leb available (length eligible)
    then eligible
    else if pool_is_full limits usage w.resource_key
    then skip
    else go
