-- ===== src/FileLock/Reclaims.antt =====
-- The calls of reclaimers keep the invariant.
use pi_shared.Common.{Bool, false, true, ℕ, ◌≡◌, refl, Bool-cases, inl, inr, ◌∙◌, ◌⊎◌}
use pi_shared.FileLock.State.{owner, has_name}
use pi_shared.FileLock.Reclaim.{
  Reclaim, ready, finished, Surroundings, break_stale_lock, is_process_alive,
}
use pi_shared.FileLock.System.{System, update, marker}
use pi_shared.FileLock.Moves.{is_early, is_shown, is_running}
use pi_shared.FileLock.Sweeps.{
  todo_of, dooms, break_stale_lock-le, break_stale_lock-keeps, break_stale_lock-todo,
  break_stale_lock-dooms,
}
use pi_shared.FileLock.Invariant.{Inv, Left, update-rule, shown-running}

no_signal :
    (alive : ℕ → Bool) (w : Surroundings) (p q : ℕ)
    → p ≡ q
    → ((pid : ℕ) → alive pid ≡ true → is_process_alive w.kill pid ≡ true)
    → is_process_alive w.kill p ≡ false
    → alive q ≡ false
no_signal alive w p q same honest silent = elim (Bool-cases (alive q)) [
  | inl e ↦ let heard : is_process_alive w.kill p ≡ true = rw same (honest q e) in cc
  | inr e ↦ e
]

module _ (pid_of : ℕ → ℕ) where
  pub call_sweep-Inv :
      {s : System} (j : ℕ) (r : Reclaim)
      → (r ≡ ready) ⊎ (r ≡ finished)
      → Inv pid_of s
      → Inv pid_of (record {
        directory = s.directory;
        phase = s.phase;
        reclaim = update s.reclaim j r;
        alive = s.alive;
      })
  unfolding has_name
  call_sweep-Inv {s} j r quiet inv =
      let nothing : ((p i : ℕ) → has_name (owner p i) (todo_of r) ≡ false)
          × ((p i : ℕ) → dooms (owner p i) r ≡ false) =
        elim quiet [
          | inl e ↦ rw e ((λ p i. refl), (λ p i. refl))
          | inr e ↦ rw e ((λ p i. refl), (λ p i. refl))
        ] in
      record {
        shown = inv.shown;
        left = inv.left;
        listed = λ k p i.
            update-rule (λ k x. has_name (owner p i) (todo_of x) ≡ true → Left pid_of s.phase p i)
              s.reclaim j r (λ h. cc (nothing.0 p i, h)) (λ k ne h. inv.listed k p i h) k;
        doomed = λ k p i.
            update-rule
              (λ k x.
                dooms (owner p i) x ≡ true
                → (is_early (s.phase i) ≡ false) × (is_running (s.phase i) ≡ false))
              s.reclaim j r (λ h. cc (nothing.1 p i, h)) (λ k ne h. inv.doomed k p i h) k;
        gone = inv.gone;
        unique = inv.unique;
      }

  -- What is shown is not doomed.
  shown-safe :
      {s : System} (i : ℕ) (r : Reclaim)
      → Inv pid_of s
      → ((p k : ℕ)
          → dooms (owner p k) r ≡ true
          → (is_early (s.phase k) ≡ false) × (is_running (s.phase k) ≡ false))
      → is_shown (s.phase i) ≡ true
      → dooms (marker pid_of i) r ≡ false
  shown-safe {s} i r inv doomed h = elim (Bool-cases (dooms (marker pid_of i) r)) [
    | inl e ↦ cc (shown-running (s.phase i) h, (doomed (pid_of i) i e).1)
    | inr e ↦ e
  ]

  pub sweep-Inv :
      {s : System} (stale_ms j : ℕ) (w : Surroundings)
      → ((pid : ℕ) → s.alive pid ≡ true → is_process_alive w.kill pid ≡ true)
      → Inv pid_of s
      → Inv pid_of (record {
        directory = (break_stale_lock stale_ms w s.directory (s.reclaim j)).directory;
        phase = s.phase;
        reclaim =
            update s.reclaim j (break_stale_lock stale_ms w s.directory (s.reclaim j)).reclaim;
        alive = s.alive;
      })
  sweep-Inv {s} stale_ms j w honest inv =
      let r = s.reclaim j in
      let todo : (p i : ℕ)
          → has_name (owner p i)
              (todo_of (break_stale_lock stale_ms w s.directory (s.reclaim j)).reclaim)
            ≡ true
          → Left pid_of s.phase p i =
        λ p i h. elim (break_stale_lock-todo stale_ms w s.directory (s.reclaim j) (owner p i) h) [
          | inl k ↦ inv.left p i k
          | inr k ↦ inv.listed j p i k
        ] in
      let doomed : (p i : ℕ)
          → dooms (owner p i) (break_stale_lock stale_ms w s.directory (s.reclaim j)).reclaim ≡ true
          → (is_early (s.phase i) ≡ false) × (is_running (s.phase i) ≡ false) =
        λ p i h.
          let k = break_stale_lock-dooms stale_ms w s.directory (s.reclaim j) p i h in
          let l = inv.listed j p i k.0 in
          (l.1, inv.gone i (no_signal s.alive w p (pid_of i) l.0 honest k.1)) in
      record {
        shown = λ i h.
            break_stale_lock-keeps stale_ms w s.directory (s.reclaim j) (marker pid_of i)
              (shown-safe {s = s} i (s.reclaim j) inv (inv.doomed j) h)
            ∙ inv.shown i h;
        left = λ p i h.
            inv.left p i (break_stale_lock-le stale_ms w s.directory (s.reclaim j) (owner p i) h);
        listed = λ k p i.
            update-rule (λ k x. has_name (owner p i) (todo_of x) ≡ true → Left pid_of s.phase p i)
              s.reclaim j (break_stale_lock stale_ms w s.directory (s.reclaim j)).reclaim (todo p i)
              (λ k ne h. inv.listed k p i h) k;
        doomed = λ k p i.
            update-rule
              (λ k x.
                dooms (owner p i) x ≡ true
                → (is_early (s.phase i) ≡ false) × (is_running (s.phase i) ≡ false))
              s.reclaim j (break_stale_lock stale_ms w s.directory (s.reclaim j)).reclaim
              (doomed p i) (λ k ne h. inv.doomed k p i h) k;
        gone = inv.gone;
        unique = inv.unique;
      }
