-- ===== src/Scheduler/Select/Order.antt =====
-- The order in which waiters are taken: sorting keeps them all, and no waiter overtakes one that
-- stands before it and waits for no pool.
use pi_shared.Common.{
  ℕ, String, none, Bool, true, false, ◌≡◌, refl, List, [], ◌∷◌, Ordering, arith, str_eq_iff,
  count_if, All, Bool-cases, inl, inr, ap,
}
use mathlib.Core.List.{Memᴰ}
use pi_shared.Scheduler.State.{SchedulerWaiter, Counts}
use pi_shared.Scheduler.Select.{
  pool_is_full, take_slot, set_add, select, is_after, insert_sorted, sort, compare_waiters,
}
use pi_shared.Scheduler.Select.Bounds.{holds, holds-set_add}

module _ {ℓ} {A : Type ℓ} (cmp : A → A → Ordering) where
  All-insert_sorted {κ} :
      (P : A → Type κ) (a : A) (xs : List A) → P a → All P xs → All P (insert_sorted cmp a xs)
  unfolding insert_sorted
  All-insert_sorted P a [] p h = (p, h)
  All-insert_sorted P a (x ∷ xs) p h = elim (Bool-cases (is_after (cmp a x))) [
    | inl e ↦ rw e (h.0, All-insert_sorted P a xs p h.1)
    | inr e ↦ rw e (p, h)
  ]

  -- What holds of all elements holds of all after sorting.
  pub All-sort {κ} : (P : A → Type κ) (xs : List A) → All P xs → All P (sort cmp xs)
  unfolding sort
  All-sort P [] h = h
  All-sort P (x ∷ xs) h = All-insert_sorted P x (sort cmp xs) h.0 (All-sort P xs h.1)

  count_if-insert_sorted :
      (p : A → Bool) (a : A) (xs : List A)
      → count_if p (insert_sorted cmp a xs) ≡ count_if p (a ∷ xs)
  unfolding insert_sorted count_if
  count_if-insert_sorted p a [] = refl
  count_if-insert_sorted p a (x ∷ xs) = ground (arith, count_if-insert_sorted p a xs)

  -- Sorting loses and adds nothing: each test passes as often as before.
  pub count_if-sort : (p : A → Bool) (xs : List A) → count_if p (sort cmp xs) ≡ count_if p xs
  unfolding sort count_if
  count_if-sort p [] = refl
  count_if-sort p (x ∷ xs) =
      ground (arith, count_if-insert_sorted p x (sort cmp xs), count_if-sort p xs)

  Memᴰ-insert_sorted_self : (a : A) (xs : List A) → Memᴰ a (insert_sorted cmp a xs)
  unfolding insert_sorted
  Memᴰ-insert_sorted_self a [] = Memᴰ.head refl
  Memᴰ-insert_sorted_self a (x ∷ xs) = elim (Bool-cases (is_after (cmp a x))) [
    | inl e ↦ rw e (Memᴰ.tail (Memᴰ-insert_sorted_self a xs))
    | inr e ↦ rw e (Memᴰ.head refl)
  ]

  Memᴰ-insert_sorted : (a : A) {b : A} (xs : List A) → Memᴰ b xs → Memᴰ b (insert_sorted cmp a xs)
  unfolding insert_sorted
  Memᴰ-insert_sorted a [] m = elim m [ ]
  Memᴰ-insert_sorted a (x ∷ xs) (Memᴰ.head e) = elim (Bool-cases (is_after (cmp a x))) [
    | inl t ↦ rw t (Memᴰ.head e)
    | inr t ↦ rw t (Memᴰ.tail (Memᴰ.head e))
  ]
  Memᴰ-insert_sorted a (x ∷ xs) (Memᴰ.tail m) = elim (Bool-cases (is_after (cmp a x))) [
    | inl t ↦ rw t (Memᴰ.tail (Memᴰ-insert_sorted a xs m))
    | inr t ↦ rw t (Memᴰ.tail (Memᴰ.tail m))
  ]

  pub Memᴰ-sort : {a : A} (xs : List A) → Memᴰ a xs → Memᴰ a (sort cmp xs)
  unfolding sort
  Memᴰ-sort [] m = elim m [ ]
  Memᴰ-sort (x ∷ xs) (Memᴰ.head e) = rw e (Memᴰ-insert_sorted_self x (sort cmp xs))
  Memᴰ-sort (x ∷ xs) (Memᴰ.tail m) = Memᴰ-insert_sorted x (sort cmp xs) (Memᴰ-sort xs m)

  -- Each element comes after none of those behind it.
  abbrev pub IsSorted : List A → Type 0
  IsSorted [] = Unit
  IsSorted (x ∷ xs) = All (λ y. is_after (cmp x y) ≡ false) xs × IsSorted xs

-- What a comparison must be for sorting to make sense.
pub record IsOrder {ℓ} {A : Type ℓ} (cmp : A → A → Ordering) : Type ℓ where
  pub flip : (a b : A) → is_after (cmp a b) ≡ true → is_after (cmp b a) ≡ false
  pub trans :
      (a b c : A)
      → is_after (cmp a b) ≡ false
      → is_after (cmp b c) ≡ false
      → is_after (cmp a c) ≡ false

module _ {ℓ} {A : Type ℓ} (cmp : A → A → Ordering) (order : IsOrder cmp) where
  All-trans :
      (a x : A) (ys : List A)
      → is_after (cmp a x) ≡ false
      → All (λ y. is_after (cmp x y) ≡ false) ys
      → All (λ y. is_after (cmp a y) ≡ false) ys
  All-trans a x [] h hs = tt
  All-trans a x (y ∷ ys) h hs = (order.trans a x y h hs.0, All-trans a x ys h hs.1)

  insert_sorted-IsSorted :
      (a : A) (xs : List A) → IsSorted cmp xs → IsSorted cmp (insert_sorted cmp a xs)
  unfolding insert_sorted
  insert_sorted-IsSorted a [] h = (tt, tt)
  insert_sorted-IsSorted a (x ∷ xs) h = elim (Bool-cases (is_after (cmp a x))) [
    | inl e ↦ rw e (
      All-insert_sorted cmp (λ y. is_after (cmp x y) ≡ false) a xs (order.flip a x e) h.0,
      insert_sorted-IsSorted a xs h.1,
    )
    | inr e ↦ rw e ((e, All-trans a x xs e h.0), h)
  ]

  pub sort-IsSorted : (xs : List A) → IsSorted cmp (sort cmp xs)
  unfolding sort
  sort-IsSorted [] = tt
  sort-IsSorted (x ∷ xs) = insert_sorted-IsSorted x (sort cmp xs) (sort-IsSorted xs)

-- The comparison of waiters is an order if the collation of ids is one.
pub compare_waiters-IsOrder :
    (locale_compare : String → String → Ordering)
    → IsOrder locale_compare
    → (aging_ms now : ℕ) → IsOrder (compare_waiters locale_compare aging_ms now)
unfolding compare_waiters
compare_waiters-IsOrder locale_compare order aging_ms now = record {
  flip = λ l r h. ground (arith, order.flip l.id r.id);
  trans = λ l r t h k. ground (arith, order.trans l.id r.id t.id);
}

All-mem {ℓ κ} : {A : Type ℓ} (P : A → Type κ) (a : A) (xs : List A) → All P xs → Memᴰ a xs → P a
All-mem P a (x ∷ xs) h (Memᴰ.head e) = rw e h.0
All-mem P a (x ∷ xs) h (Memᴰ.tail m) = All-mem P a xs h.1 m
All-mem P a [] h m = elim m [ ]

pool_is_full-none : (limits usage : Counts) → pool_is_full limits usage none ≡ false
unfolding pool_is_full
pool_is_full-none limits usage = refl

-- `select` only adds.
pub select-keeps :
    (limits : Counts) (available : ℕ) (usage : Counts) (ids : List String)
    (ws : List SchedulerWaiter) (id : String)
    → holds id ids ≡ true
    → holds id (select limits available usage ids ws) ≡ true
unfolding select
select-keeps limits available usage ids [] id h = h
select-keeps limits available usage ids (w ∷ ws) id h = ground (
  arith,
  holds-set_add w.id id ids,
  select-keeps limits available usage ids ws id,
  select-keeps limits available (take_slot w.resource_key usage) (set_add w.id ids) ws id,
)

-- In a list where every waiter with the id `late` comes after `v`, and `v` waits for no pool: if
-- `late` is taken, `v` is.
pub select-no_overtaking :
    (cmp : SchedulerWaiter → SchedulerWaiter → Ordering) (limits : Counts) (available : ℕ)
    (usage : Counts) (ids : List String) (ws : List SchedulerWaiter) (v : SchedulerWaiter)
    (late : String)
    → IsSorted cmp ws
    → Memᴰ v ws
    → v.resource_key ≡ none
    → All (λ w. w.id ≡ late → is_after (cmp w v) ≡ true) ws
    → holds late ids ≡ false
    → holds late (select limits available usage ids ws) ≡ true
    → holds v.id (select limits available usage ids ws) ≡ true
unfolding select
select-no_overtaking cmp limits available usage ids [] v late s m free after out got = elim m [ ]
select-no_overtaking cmp limits available usage ids (w ∷ ws) v late s (Memᴰ.head e) free after out
      got =
    ground (
      arith,
      holds-set_add w.id v.id ids,
      str_eq_iff w.id v.id,
      ap (λ (x : SchedulerWaiter). x.id) e,
      ap (λ (x : SchedulerWaiter). x.resource_key) e,
      pool_is_full-none limits usage,
      select-keeps limits available (take_slot w.resource_key usage) (set_add w.id ids) ws v.id,
    )
select-no_overtaking cmp limits available usage ids (w ∷ ws) v late s (Memᴰ.tail m) free after out
      got =
    ground (
      arith,
      All-mem (λ y. is_after (cmp w y) ≡ false) v ws s.0 m,
      after.0,
      holds-set_add w.id late ids,
      str_eq_iff w.id late,
      select-no_overtaking cmp limits available usage ids ws v late s.1 m free after.1,
      select-no_overtaking cmp limits available (take_slot w.resource_key usage) (set_add w.id ids)
          ws v late s.1 m free after.1,
    )
