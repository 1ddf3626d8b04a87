-- ===== src/Scheduler/Select/Bounds.antt =====
-- How many waiters may start, and from which pools.
use pi_shared.Common.{
  ℕ, suc, ◌≤◌, max, String, Option, Bool, true, false, ◌≡◌, List, [], ◌∷◌, arith, if◌then◌else◌,
  str_eq, str_eq_iff, str_eq_refl, length, any_of, All, Bool-cases, inl, inr,
}
use pi_shared.Scheduler.State.{SchedulerWaiter, Counts}
use pi_shared.Scheduler.Select.{pool_is_full, take_slot, set_add, select}
use pi_shared.Scheduler.Select.Usage.{pool_is_full-take_slot}

abbrev pub holds : String → List String → Bool
holds id ids = any_of (λ e. str_eq e id) ids

pub length-set_add-le :
    (id : String) (ids : List String) → length (set_add id ids) ≤ suc (length ids)
unfolding set_add
length-set_add-le id ids = ground arith

pub holds-set_add :
    (id j : String) (ids : List String)
    → holds j (set_add id ids) ≡ (if str_eq id j then true else holds j ids)
unfolding set_add any_of
holds-set_add id j ids = elim (Bool-cases (str_eq id j)) [
  | inl e ↦ rw e (rw ((str_eq_iff id j).0 e) (ground (arith, str_eq_refl j)))
  | inr e ↦ rw e (ground arith)
]

-- No more waiters are eligible than slots are left.
pub length-select-le :
    (limits : Counts) (available : ℕ) (usage : Counts) (ids : List String)
    (ws : List SchedulerWaiter)
    → length (select limits available usage ids ws) ≤ max available (length ids)
unfolding select
length-select-le limits available usage ids [] = omega arith
length-select-le limits available usage ids (w ∷ ws) = ground (
  arith,
  length-set_add-le w.id ids,
  length-select-le limits available usage ids ws,
  length-select-le limits available (take_slot w.resource_key usage) (set_add w.id ids) ws,
)

-- A waiter that is eligible, and was not so at the start, waits for no pool or for one with room.
pub select-pool :
    (limits : Counts) (available : ℕ) (usage : Counts) (ids : List String)
    (ws : List SchedulerWaiter) (id : String) (key : Option String)
    → All (λ w. w.id ≡ id → w.resource_key ≡ key) ws
    → holds id ids ≡ false
    → holds id (select limits available usage ids ws) ≡ true
    → pool_is_full limits usage key ≡ false
unfolding select
select-pool limits available usage ids [] id key own out got = cc
select-pool limits available usage ids (w ∷ ws) id key own out got = ground (
  arith,
  own.0,
  str_eq_iff w.id id,
  holds-set_add w.id id ids,
  pool_is_full-take_slot limits usage key w.resource_key,
  select-pool limits available usage ids ws id key own.1,
  select-pool limits available (take_slot w.resource_key usage) (set_add w.id ids) ws id key own.1,
)
