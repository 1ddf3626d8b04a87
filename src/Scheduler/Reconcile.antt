-- ===== src/Scheduler/Reconcile.antt =====
-- How a process's configuration changes the limits in the state file.
use pi_shared.Scheduler.State.{
  Counts, SchedulerState, SubagentConfig, count_of, is_idle, lower_resource_limit,
  lower_resource_limits, reconcile_limits,
}
use pi_shared.Common.{
  Bool, Option, String, [], arith, false, if◌then◌else◌, ltb, min, none, some, str_eq, str_eq_iff,
  ℕ, ◌∷◌, ◌≡◌,
}
use pi_shared.Scheduler.Select.Usage.{count_of-set_count}

-- A map of an object has each key once.
abbrev pub HasDistinctKeys : Counts → Type 0
HasDistinctKeys [] = Unit
HasDistinctKeys ((k, n) ∷ rest) = (count_of k rest ≡ none) × HasDistinctKeys rest

-- The smaller of two limits, where a missing one does not count.
abbrev pub tighter : Option ℕ → Option ℕ → Option ℕ
tighter none none = none
tighter none (some b) = some b
tighter (some a) none = some a
tighter (some a) (some b) = some (min a b)

count_of-lower_resource_limit :
    (j k : String) (n : ℕ) (limits : Counts) (changed : Bool)
    → count_of j (lower_resource_limit (limits, changed) (k, n)).0
      ≡ (if str_eq k j then tighter (count_of j limits) (some n) else count_of j limits)
unfolding lower_resource_limit
count_of-lower_resource_limit j k n limits changed =
    ground (arith, count_of-set_count k j n limits, str_eq_iff k j)

count_of-lower_resource_limits :
    (j : String) (limits : Counts) (changed : Bool) (config : Counts)
    → HasDistinctKeys config
    → count_of j (lower_resource_limits (limits, changed) config).0
      ≡ tighter (count_of j limits) (count_of j config)
unfolding lower_resource_limits count_of
count_of-lower_resource_limits j limits changed [] d = ground arith
count_of-lower_resource_limits j limits changed ((k, n) ∷ config) d =
    let (limits', changed') = lower_resource_limit (limits, changed) (k, n) in
    ground (
      arith,
      count_of-lower_resource_limit j k n limits changed,
      str_eq_iff k j,
      d.0,
      count_of-lower_resource_limits j limits' changed' config d.1,
    )

-- While anything waits or runs, reconciling takes the smaller of the two host limits, and for each
-- pool the smaller of the two pool limits, where one side may have none.
pub reconcile_limits-tighter :
    (s : SchedulerState) (config : SubagentConfig)
    → HasDistinctKeys config.resource_limits
    → is_idle s ≡ false
    → ((reconcile_limits s config).0.limit ≡ min s.limit config.max_concurrency)
      × ((key : String)
          → count_of key (reconcile_limits s config).0.resource_limits
            ≡ tighter (count_of key s.resource_limits) (count_of key config.resource_limits))
unfolding reconcile_limits
reconcile_limits-tighter s config d busy = (
  ground arith,
  λ key. rw busy (
      count_of-lower_resource_limits key s.resource_limits (ltb config.max_concurrency s.limit)
        config.resource_limits d),
)
