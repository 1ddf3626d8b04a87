-- ===== src/Scheduler/Acquire/Host.antt =====
-- All processes of one host, on one state file: each step is one operation of some process, with
-- its own configuration, clock and view of which processes live. The interprocess lock makes the
-- operations one after the other.
use pi_shared.Common.{
  Bool-cases, List, Option, Option-cases, Ordering, String, [], ap, arith, inl, inr, length,
  length-keep_if-le, map, none, not, refl, some, suc, ℕ, ◌||◌, ◌∷◌, ◌≡◌, ◌≤◌,
}
use pi_shared.Scheduler.Acquire.{
  Change, Request, beat_lease, extend_lease, mutate, owns, prepare, read_state, release,
  remove_waiter, try_acquire,
}
use pi_shared.Scheduler.State.{
  KillResult, SchedulerLease, SchedulerState, SubagentConfig, empty_state, is_idle, lease_is_live,
  normalize_leases, normalize_state, prune_state, reconcile_limits,
}
use pi_shared.Scheduler.Acquire.Grants.{
  limit-try_acquire, outcome, try_acquire-capacity, try_acquire-refuse,
}

pub data Step (bound : ℕ) : Option SchedulerState → Option SchedulerState → Type 0 where
  acquires :
      (locale_compare : String → String → Ordering) (config : SubagentConfig)
      (kill : ℕ → KillResult) (r : Request) (now heartbeat : ℕ) (lease_id : String) (t : ℕ)
      (file : Option SchedulerState)
      → config.max_concurrency ≤ bound
      → Step bound file
          (mutate config kill t
            (try_acquire locale_compare config r now heartbeat lease_id)
            file).file
  removes :
      (config : SubagentConfig) (kill : ℕ → KillResult) (waiter_id : String) (t : ℕ)
      (file : Option SchedulerState)
      → config.max_concurrency ≤ bound
      → Step bound file (mutate config kill t (remove_waiter waiter_id) file).file
  beats :
      (config : SubagentConfig) (kill : ℕ → KillResult) (lease_id owner_id : String) (now t : ℕ)
      (file : Option SchedulerState)
      → config.max_concurrency ≤ bound
      → Step bound file (mutate config kill t (beat_lease config lease_id owner_id now) file).file
  releases :
      (config : SubagentConfig) (kill : ℕ → KillResult) (lease_id owner_id : String) (t : ℕ)
      (file : Option SchedulerState)
      → config.max_concurrency ≤ bound
      → Step bound file (mutate config kill t (release lease_id owner_id) file).file

pub data Reach (bound : ℕ) : Option SchedulerState → Type 0 where
  fresh : Reach bound none
  next : {f g : Option SchedulerState} → Reach bound f → Step bound f g → Reach bound g

abbrev pub StateWithin : ℕ → SchedulerState → Type 0
StateWithin bound s = (s.limit ≤ bound) × (length s.leases ≤ bound)

abbrev pub FileWithin : ℕ → Option SchedulerState → Type 0
FileWithin bound none = Unit
FileWithin bound (some s) = StateWithin bound s

-- An operation that keeps the bound.
abbrev Keeps {ℓ} : {A : Type ℓ} → ℕ → (SchedulerState → Change A) → Type 0
Keeps bound fn = (s : SchedulerState) → StateWithin bound s → StateWithin bound (fn s).state

length-map_lease :
    (f : SchedulerLease → SchedulerLease) (leases : List SchedulerLease)
    → length (map f leases) ≡ length leases
length-map_lease f [] = refl
length-map_lease f (l ∷ leases) = ap suc (length-map_lease f leases)

length-normalize_leases :
    (leases : List SchedulerLease) → length (normalize_leases (some leases)) ≡ length leases
unfolding normalize_leases
length-normalize_leases leases = length-map_lease _ leases

module _ (bound : ℕ) (config : SubagentConfig) (capped : config.max_concurrency ≤ bound) where
  read_state-StateWithin :
      (file : Option SchedulerState)
      → FileWithin bound file
      → StateWithin bound (read_state config file)
  unfolding read_state normalize_state empty_state normalize_leases
  read_state-StateWithin none h = ground arith
  read_state-StateWithin (some s) h = ground (arith, length-normalize_leases s.leases)

  prune_state-StateWithin :
      (kill : ℕ → KillResult) (s : SchedulerState) (t : ℕ)
      → StateWithin bound s
      → StateWithin bound (prune_state kill s t config.lease_ms).0
  unfolding prune_state
  prune_state-StateWithin kill s t h =
      (h.0, omega (arith, length-keep_if-le (lease_is_live kill t) s.leases))

  reconcile_limits-StateWithin :
      (s : SchedulerState) → StateWithin bound s → StateWithin bound (reconcile_limits s config).0
  unfolding reconcile_limits is_idle
  reconcile_limits-StateWithin s h = ground arith

  prepare-StateWithin :
      (kill : ℕ → KillResult) (t : ℕ) (file : Option SchedulerState)
      → FileWithin bound file
      → StateWithin bound (prepare config kill t file).0
  unfolding prepare
  prepare-StateWithin kill t file h =
      reconcile_limits-StateWithin _
        (prune_state-StateWithin kill _ t (read_state-StateWithin file h))

  mutate-FileWithin {ℓ} :
      {A : Type ℓ} (kill : ℕ → KillResult) (t : ℕ) (fn : SchedulerState → Change A)
      (file : Option SchedulerState)
      → Keeps bound fn
      → FileWithin bound file
      → FileWithin bound (mutate config kill t fn file).file
  unfolding mutate
  mutate-FileWithin kill t fn file keep h =
      elim (Bool-cases
        ((prepare config kill t file).1 || (fn (prepare config kill t file).0).changed)) [
          | inl e ↦ rw e (keep _ (prepare-StateWithin kill t file h))
          | inr e ↦ rw e h
        ]

  try_acquire-Keeps :
      (locale_compare : String → String → Ordering) (r : Request) (now heartbeat : ℕ)
      (lease_id : String)
      → Keeps bound (try_acquire locale_compare config r now heartbeat lease_id)
  try_acquire-Keeps locale_compare r now heartbeat lease_id s h =
      elim (Option-cases (outcome locale_compare config r now heartbeat lease_id s).value.0) [
        | inl e ↦
            rw
              (
                limit-try_acquire locale_compare config r now heartbeat lease_id s,
                try_acquire-refuse locale_compare config r now heartbeat lease_id s e,
              )
              h
        | inr e ↦ omega (
          arith,
          limit-try_acquire locale_compare config r now heartbeat lease_id s,
          try_acquire-capacity locale_compare config r now heartbeat lease_id s e.1,
        )
      ]

  remove_waiter-Keeps : (waiter_id : String) → Keeps bound (remove_waiter waiter_id)
  unfolding remove_waiter
  remove_waiter-Keeps waiter_id s h = h

  release-Keeps : (lease_id owner_id : String) → Keeps bound (release lease_id owner_id)
  unfolding release
  release-Keeps lease_id owner_id s h =
      (h.0, omega (arith, length-keep_if-le (λ l. not (owns lease_id owner_id l)) s.leases))

length-extend_lease :
    (config : SubagentConfig) (lease_id owner_id : String) (now : ℕ) (leases : List SchedulerLease)
    → length (extend_lease config lease_id owner_id now leases) ≡ length leases
unfolding extend_lease
length-extend_lease config lease_id owner_id now [] = refl
length-extend_lease config lease_id owner_id now (l ∷ leases) =
    ground (arith, length-extend_lease config lease_id owner_id now leases)

beat_lease-Keeps :
    (bound : ℕ) (config : SubagentConfig) (lease_id owner_id : String) (now : ℕ)
    → Keeps bound (beat_lease config lease_id owner_id now)
unfolding beat_lease
beat_lease-Keeps bound config lease_id owner_id now s h =
    ground (arith, length-extend_lease config lease_id owner_id now s.leases)

Step-FileWithin :
    {bound : ℕ} {f g : Option SchedulerState}
    → Step bound f g
    → FileWithin bound f
    → FileWithin bound g
Step-FileWithin {bound} (acquires lc config kill r now hb lease_id t file c) h =
    mutate-FileWithin bound config c kill t _ file
      (try_acquire-Keeps bound config c lc r now hb lease_id) h
Step-FileWithin {bound} (removes config kill waiter_id t file c) h =
    mutate-FileWithin bound config c kill t _ file (remove_waiter-Keeps bound config c waiter_id) h
Step-FileWithin {bound} (beats config kill lease_id owner_id now t file c) h =
    mutate-FileWithin bound config c kill t _ file
      (beat_lease-Keeps bound config lease_id owner_id now) h
Step-FileWithin {bound} (releases config kill lease_id owner_id t file c) h =
    mutate-FileWithin bound config c kill t _ file (release-Keeps bound config c lease_id owner_id)
      h

-- Whatever the processes of a host do, starting from no state file, if none of them is configured
-- above `bound` then the file never holds more than `bound` leases.
pub Reach-FileWithin :
    {bound : ℕ} {file : Option SchedulerState} → Reach bound file → FileWithin bound file
Reach-FileWithin fresh = tt
Reach-FileWithin (next r step) = Step-FileWithin step (Reach-FileWithin r)
