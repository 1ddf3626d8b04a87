-- ===== src/FileLock/Sweeps.antt =====
-- What one call of a reclaimer does to the markers, and which markers it may come to remove.
use pi_shared.Common.{
  Bool, List, Option, [], false, none, some, true, ℕ, ◌∷◌, ◌≡◌, refl, arith, inl, inr, ap, sym, ◌∙◌,
  ◌⊎◌,
}
use pi_shared.FileLock.State.{Directory, Name, owner, legacy, unknown, has_name, name_eq}
use pi_shared.FileLock.Reclaim.{
  Reclaim, ready, stale, sweeping, condemned, finished, Surroundings, break_stale_lock,
  is_process_alive, LegacyOwner, owned_by, no_pid, malformed, unreadable, judge_legacy,
}
use pi_shared.FileLock.System.{names_of}
use pi_shared.FileLock.Names.{has_name-unlink-ne, has_name-unlink-le, names_of-remove_empty_lock}

-- The names a reclaimer has still to look at.
abbrev pub todo_of : Reclaim → List Name
todo_of (sweeping rest) = rest
todo_of (condemned n rest) = rest
todo_of _ = []

-- Whether a reclaimer is about to unlink a name.
abbrev pub dooms : Name → Reclaim → Bool
dooms n (condemned m rest) = name_eq m n
dooms n _ = false

todo_legacy :
    (w : Surroundings) (o : LegacyOwner) (rest : List Name) (n : Name)
    → has_name n (todo_of (judge_legacy w.kill o rest)) ≡ true
    → has_name n rest ≡ true
unfolding has_name
todo_legacy w (owned_by p) rest n h = ground arith
todo_legacy w no_pid rest n h = h
todo_legacy w malformed rest n h = h
todo_legacy w unreadable rest n h = cc

dooms_legacy :
    (w : Surroundings) (o : LegacyOwner) (rest : List Name) (p i : ℕ)
    → dooms (owner p i) (judge_legacy w.kill o rest) ≡ false
dooms_legacy w (owned_by p) rest q i = ground arith
dooms_legacy w no_pid rest q i = refl
dooms_legacy w malformed rest q i = refl
dooms_legacy w unreadable rest q i = refl

module _ (stale_ms : ℕ) (w : Surroundings) where
  -- No name appears.
  pub break_stale_lock-le :
      (d : Option Directory) (r : Reclaim) (n : Name)
      → has_name n (names_of (break_stale_lock stale_ms w d r).directory) ≡ true
      → has_name n (names_of d) ≡ true
  unfolding break_stale_lock
  break_stale_lock-le d ready n h = h
  break_stale_lock-le d stale n h = h
  break_stale_lock-le d (sweeping []) n h = sym (ap (has_name n) (names_of-remove_empty_lock d)) ∙ h
  break_stale_lock-le d (sweeping (m ∷ rest)) n h = h
  break_stale_lock-le d (condemned m rest) n h = has_name-unlink-le w.now m n d h
  break_stale_lock-le d finished n h = h

  -- A name that is not condemned stays.
  pub break_stale_lock-keeps :
      (d : Option Directory) (r : Reclaim) (n : Name)
      → dooms n r ≡ false
      → has_name n (names_of (break_stale_lock stale_ms w d r).directory) ≡ has_name n (names_of d)
  unfolding break_stale_lock
  break_stale_lock-keeps d ready n h = refl
  break_stale_lock-keeps d stale n h = refl
  break_stale_lock-keeps d (sweeping []) n h = ap (has_name n) (names_of-remove_empty_lock d)
  break_stale_lock-keeps d (sweeping (m ∷ rest)) n h = refl
  break_stale_lock-keeps d (condemned m rest) n h = has_name-unlink-ne w.now m n d h
  break_stale_lock-keeps d finished n h = refl

  -- What a reclaimer has to look at was in its list, or is in the directory.
  pub break_stale_lock-todo :
      (d : Option Directory) (r : Reclaim) (n : Name)
      → has_name n (todo_of (break_stale_lock stale_ms w d r).reclaim) ≡ true
      → (has_name n (names_of d) ≡ true) ⊎ (has_name n (todo_of r) ≡ true)
  unfolding break_stale_lock has_name
  break_stale_lock-todo none ready n h = cc
  break_stale_lock-todo (some d) ready n h = ground arith
  break_stale_lock-todo none stale n h = cc
  break_stale_lock-todo (some d) stale n h = inl h
  break_stale_lock-todo d (sweeping []) n h = cc
  break_stale_lock-todo d (sweeping (owner p i ∷ rest)) n h = ground arith
  break_stale_lock-todo d (sweeping (legacy ∷ rest)) n h =
      inr (ground (arith, todo_legacy w w.legacy_owner rest n h))
  break_stale_lock-todo d (sweeping (unknown k ∷ rest)) n h = inr (ground arith)
  break_stale_lock-todo d (condemned m rest) n h = inr h
  break_stale_lock-todo d finished n h = cc

  -- A marker is condemned only if its pid is that of no process.
  pub break_stale_lock-dooms :
      (d : Option Directory) (r : Reclaim) (p i : ℕ)
      → dooms (owner p i) (break_stale_lock stale_ms w d r).reclaim ≡ true
      → (has_name (owner p i) (todo_of r) ≡ true) × (is_process_alive w.kill p ≡ false)
  unfolding break_stale_lock has_name
  break_stale_lock-dooms none ready p i h = cc
  break_stale_lock-dooms (some d) ready p i h = ground arith
  break_stale_lock-dooms none stale p i h = cc
  break_stale_lock-dooms (some d) stale p i h = cc
  break_stale_lock-dooms d (sweeping []) p i h = cc
  break_stale_lock-dooms d (sweeping (owner q k ∷ rest)) p i h = ground arith
  break_stale_lock-dooms d (sweeping (legacy ∷ rest)) p i h =
      cc (dooms_legacy w w.legacy_owner rest p i)
  break_stale_lock-dooms d (sweeping (unknown k ∷ rest)) p i h = cc
  break_stale_lock-dooms d (condemned m rest) p i h = cc
  break_stale_lock-dooms d finished p i h = cc
