-- ===== src/Scheduler/Acquire/Grants.antt =====
-- When a round of `acquire` grants a lease.
use pi_shared.Common.{
  ℕ, ◌+◌, ◌-◌, ◌≤◌, ◌<◌, String, Option, none, some, true, ◌≡◌, List, [], ◌∷◌, ◌++◌, Ordering,
  arith, length, length-append, any_of, All, All-append, Bool-cases, count_if, count_if-append, inl,
  inr, leb, refl, ◌⊎◌, str_eq, count_if-le-length,
}
use mathlib.Core.List.{Memᴰ}
use pi_shared.Scheduler.State.{
  SchedulerLease, SchedulerState, SubagentConfig, SchedulerWaiter, count_of, normalize_resource_key,
  SchedulerPriority, foreground, background,
}
use pi_shared.Scheduler.Select.{rank, is_foreground, sort, compare_waiters, lease_usage, is_after}
use pi_shared.Scheduler.Select.Order.{
  All-sort, IsOrder, Memᴰ-sort, compare_waiters-IsOrder, select-no_overtaking, sort-IsSorted,
}
use pi_shared.Scheduler.Select.Bounds.{holds, length-select-le, select-pool}
use pi_shared.Scheduler.Acquire.{
  Change, Request, touch_waiter, new_waiter, enroll, new_lease, eligible_ids, try_acquire,
}
use pi_shared.Scheduler.Select.Usage.{in_pool, pool_is_full-lt, used-lease_usage}

-- A foreground waiter, or one that has waited for the aging time.
abbrev pub IsUrgent : ℕ → ℕ → SchedulerWaiter → Type 0
IsUrgent aging_ms now w = (w.priority ≡ foreground) ⊎ (w.requested_at + aging_ms ≤ now)

-- Whom a waiter goes before: as an urgent one, those that are not; else those that requested later.
pub data GoesBefore (aging_ms now : ℕ) (v w : SchedulerWaiter) : Type 0 where
  urgent : IsUrgent aging_ms now v → (IsUrgent aging_ms now w → ⊥) → GoesBefore aging_ms now v w
  both_urgent :
      IsUrgent aging_ms now v
      → IsUrgent aging_ms now w
      → v.requested_at < w.requested_at
      → GoesBefore aging_ms now v w
  none_urgent :
      (IsUrgent aging_ms now v → ⊥)
      → (IsUrgent aging_ms now w → ⊥)
      → v.requested_at < w.requested_at
      → GoesBefore aging_ms now v w

rank-urgent :
    (aging_ms now : ℕ) (w : SchedulerWaiter) → IsUrgent aging_ms now w → rank aging_ms now w ≡ 0
unfolding rank
rank-urgent aging_ms now w (inl h) = rw h refl
rank-urgent aging_ms now w (inr h) = ground arith

is_foreground_only : (p : SchedulerPriority) → is_foreground p ≡ true → p ≡ foreground
is_foreground_only foreground h = refl
is_foreground_only background h = cc

rank-not_urgent :
    (aging_ms now : ℕ) (w : SchedulerWaiter)
    → (IsUrgent aging_ms now w → ⊥)
    → rank aging_ms now w ≡ 1
unfolding rank
rank-not_urgent aging_ms now w h = elim (Bool-cases (is_foreground w.priority)) [
  | inl e ↦ absurd (h (inl (is_foreground_only w.priority e)))
  | inr e ↦ elim (Bool-cases (leb (w.requested_at + aging_ms) now)) [
    | inl d ↦ absurd (h (inr (ground arith)))
    | inr d ↦ rw (e, d) refl
  ]
]

GoesBefore-is_after :
    (locale_compare : String → String → Ordering) (aging_ms now : ℕ) (v w : SchedulerWaiter)
    → GoesBefore aging_ms now v w
    → is_after (compare_waiters locale_compare aging_ms now w v) ≡ true
unfolding compare_waiters
GoesBefore-is_after lc aging_ms now v w (urgent h k) =
    rw (rank-urgent aging_ms now v h, rank-not_urgent aging_ms now w k) refl
GoesBefore-is_after lc aging_ms now v w (both_urgent h k less) =
    rw (rank-urgent aging_ms now v h, rank-urgent aging_ms now w k) (ground arith)
GoesBefore-is_after lc aging_ms now v w (none_urgent h k less) =
    rw (rank-not_urgent aging_ms now v h, rank-not_urgent aging_ms now w k) (ground arith)

All-after :
    (locale_compare : String → String → Ordering) (aging_ms now : ℕ) (id : String)
    (v : SchedulerWaiter) (ws : List SchedulerWaiter)
    → All (λ w. w.id ≡ id → GoesBefore aging_ms now v w) ws
    → All (λ w. w.id ≡ id → is_after (compare_waiters locale_compare aging_ms now w v) ≡ true) ws
All-after lc aging_ms now id v [] h = tt
All-after lc aging_ms now id v (w ∷ ws) h =
    ((λ e. GoesBefore-is_after lc aging_ms now v w (h.0 e)), All-after lc aging_ms now id v ws h.1)

holds-room : (id : String) (ids : List String) → holds id ids ≡ true → 0 < length ids
unfolding any_of
holds-room id [] h = cc
holds-room id (e ∷ ids) h = omega arith

touch_waiter-keys :
    (P : String → Option String → Type 0) (id : String) (now : ℕ) (ws : List SchedulerWaiter)
    → All (λ w. P w.id w.resource_key) ws
    → All (λ w. P w.id w.resource_key) (touch_waiter id now ws)
unfolding touch_waiter
touch_waiter-keys P id now [] h = h
touch_waiter-keys P id now (w ∷ ws) h = elim (Bool-cases (str_eq w.id id)) [
  | inl e ↦ rw e (h.0, h.1)
  | inr e ↦ rw e (h.0, touch_waiter-keys P id now ws h.1)
]

module _ (locale_compare : String → String → Ordering) (config : SubagentConfig) (r : Request)
    (now heartbeat : ℕ) (lease_id : String) (s : SchedulerState) where
  abbrev pub outcome : Change (Option SchedulerLease × ℕ)
  outcome = try_acquire locale_compare config r now heartbeat lease_id s

  abbrev pub enrolled : SchedulerState
  enrolled = record s { waiters = (enroll config r now heartbeat s.waiters).0 }

  -- A granted lease is the one that the request describes; it goes behind the leases that were out.
  pub try_acquire-grant :
      {lease : SchedulerLease}
      → outcome.value.0 ≡ some lease
      → (lease ≡ new_lease config r now lease_id)
        × (outcome.state.leases ≡ s.leases ++ lease ∷ [])
        × (holds r.waiter_id (eligible_ids locale_compare config now enrolled) ≡ true)
  unfolding try_acquire
  try_acquire-grant h = ground arith

  -- The pool that the request waits for.
  abbrev pub request_key : Option String
  request_key = normalize_resource_key r.options.resource_key

  abbrev WaitsFor : SchedulerWaiter → Type 0
  WaitsFor w = w.id ≡ r.waiter_id → w.resource_key ≡ request_key

  enroll-keys : All WaitsFor s.waiters → All WaitsFor enrolled.waiters
  unfolding enroll
  enroll-keys h = elim (Bool-cases (any_of (λ w. str_eq w.id r.waiter_id) s.waiters)) [
    | inl e ↦ elim (Bool-cases (leb (heartbeat + config.heartbeat_ms) now)) [
      | inl d ↦
          rw (e, d)
            (touch_waiter-keys (λ id key. id ≡ r.waiter_id → key ≡ request_key) r.waiter_id now
              s.waiters h)
      | inr d ↦ rw (e, d) h
    ]
    | inr e ↦ rw e (
        All-append WaitsFor s.waiters (new_waiter r now ∷ []) h
          (unfold new_waiter in ((λ _. refl), tt)))
  ]

  -- A lease is granted only while its pool, if it has a limit, is below it: after the grant at most
  -- that many leases of the pool are out. The caller's own entry must name the caller's pool.
  pub try_acquire-pool :
      {lease : SchedulerLease} (key : String) (n : ℕ)
      → All WaitsFor s.waiters
      → outcome.value.0 ≡ some lease
      → request_key ≡ some key
      → count_of key s.resource_limits ≡ some n
      → count_if (in_pool key) outcome.state.leases ≤ n
  unfolding eligible_ids
  try_acquire-pool {lease} key n own h pool capped =
      let (made, e, held) = try_acquire-grant h in
      let free =
        select-pool s.resource_limits (s.limit - length s.leases) (lease_usage [] s.leases) []
          (sort (compare_waiters locale_compare config.background_aging_ms now) enrolled.waiters)
          r.waiter_id request_key (All-sort _ WaitsFor enrolled.waiters (enroll-keys own))
          (unfold any_of in refl) held in
      let room =
        pool_is_full-lt s.resource_limits (lease_usage [] s.leases) key n (rw pool at free)
          capped in
      rw (e, count_if-append)
        (omega (
          arith,
          room,
          used-lease_usage key s.leases,
          count_if-le-length (in_pool key) (lease ∷ []),
        ))

  -- Without a grant the leases stay.
  pub try_acquire-refuse : outcome.value.0 ≡ none → outcome.state.leases ≡ s.leases
  unfolding try_acquire
  try_acquire-refuse h = ground arith

  pub limit-try_acquire : outcome.state.limit ≡ s.limit
  unfolding try_acquire
  limit-try_acquire = ground arith

  -- A round that grants a lease leaves at most `limit` leases out, and one more than before.
  pub try_acquire-capacity :
      {lease : SchedulerLease}
      → outcome.value.0 ≡ some lease
      → (length outcome.state.leases ≤ outcome.state.limit)
        × (length outcome.state.leases ≡ length s.leases + 1)
  unfolding eligible_ids
  try_acquire-capacity {lease} h =
      let (_, e, held) = try_acquire-grant h in
      let room = holds-room r.waiter_id _ held in
      rw (limit-try_acquire, e)
        (omega (
          arith,
          length-append s.leases (lease ∷ []),
          room,
          length-select-le s.resource_limits (s.limit - length s.leases) (lease_usage [] s.leases)
              []
              (sort (compare_waiters locale_compare config.background_aging_ms now)
                enrolled.waiters),
        ))

  -- No overtaking: if a lease is granted, every enrolled waiter that waits for no pool and goes before
  -- the caller was eligible in the same round. An urgent waiter (foreground, or one that has waited
  -- for the aging time) goes before those that are not; of two that are urgent, or two that are not,
  -- the one that requested earlier goes first. The collation of ids must be an order.
  pub try_acquire-no_overtaking :
      {lease : SchedulerLease} (v : SchedulerWaiter)
      → IsOrder locale_compare
      → Memᴰ v enrolled.waiters
      → v.resource_key ≡ none
      → All
          (λ w. w.id ≡ r.waiter_id → GoesBefore config.background_aging_ms now v w)
          enrolled.waiters
      → outcome.value.0 ≡ some lease
      → holds v.id (eligible_ids locale_compare config now enrolled) ≡ true
  unfolding eligible_ids
  try_acquire-no_overtaking v order m free after h =
      let (_, _, held) = try_acquire-grant h in
      let cmp = compare_waiters locale_compare config.background_aging_ms now in
      select-no_overtaking cmp s.resource_limits (s.limit - length s.leases)
        (lease_usage [] s.leases) [] (sort cmp enrolled.waiters) v r.waiter_id
        (sort-IsSorted cmp (compare_waiters-IsOrder locale_compare order _ now) enrolled.waiters)
        (Memᴰ-sort cmp enrolled.waiters m) free
        (All-sort cmp (λ w. w.id ≡ r.waiter_id → is_after (cmp w v) ≡ true) enrolled.waiters
          (All-after locale_compare config.background_aging_ms now r.waiter_id v enrolled.waiters
            after))
        (unfold any_of in refl) held
