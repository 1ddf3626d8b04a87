-- ===== src/FileLock/Deaths.antt =====
-- Errors, deaths and new processes keep the invariant.
use pi_shared.Common.{Bool, false, if◌then◌else◌, true, ℕ, ◌==◌, ◌≡◌, arith, Bool-cases, inl, inr}
use pi_shared.FileLock.State.{Phase, throw_at}
use pi_shared.FileLock.System.{System, update, die}
use pi_shared.FileLock.Moves.{is_running, Ends, Ends-refl, throw_at-Ends, die-Ends, die-rests}
use pi_shared.FileLock.Invariant.{Inv, update-rule}

module _ (pid_of : ℕ → ℕ) where
  -- Steps that only end attempts.
  Ends-Inv :
      {s : System} (phase : ℕ → Phase) (alive : ℕ → Bool)
      → Inv pid_of s
      → ((k : ℕ) → Ends (s.phase k) (phase k))
      → ((k : ℕ) → alive (pid_of k) ≡ false → is_running (phase k) ≡ false)
      → Inv pid_of
          (record { directory = s.directory; phase = phase; reclaim = s.reclaim; alive = alive })
  Ends-Inv {s} phase alive inv ends gone = record {
    shown = λ i h. inv.shown i ((ends i).shows h);
    left = λ p i h. ((inv.left p i h).0, (ends i).late (inv.left p i h).1);
    listed = λ j p i h. ((inv.listed j p i h).0, (ends i).late (inv.listed j p i h).1);
    doomed =
        λ j p i h. ((ends i).late (inv.doomed j p i h).0, (ends i).rests (inv.doomed j p i h).1);
    gone = gone;
    unique = λ i j h k. inv.unique i j ((ends i).holds h) ((ends j).holds k);
  }

  pub throws-Inv :
      {s : System} (i : ℕ)
      → Inv pid_of s
      → Inv pid_of (record {
        directory = s.directory;
        phase = update s.phase i (throw_at (s.phase i));
        reclaim = s.reclaim;
        alive = s.alive;
      })
  throws-Inv {s} i inv =
      let ends : (k : ℕ) → Ends (s.phase k) (update s.phase i (throw_at (s.phase i)) k) =
        update-rule (λ k x. Ends (s.phase k) x) s.phase i (throw_at (s.phase i))
          (throw_at-Ends (s.phase i)) (λ k ne. Ends-refl (s.phase k)) in
      Ends-Inv {s = s} (update s.phase i (throw_at (s.phase i))) s.alive inv ends
        (λ k h. (ends k).rests (inv.gone k h))

  pub dies-Inv :
      {s : System} (pid : ℕ)
      → Inv pid_of s
      → Inv pid_of (record {
        directory = s.directory;
        phase = λ i. if pid_of i == pid then die (s.phase i) else s.phase i;
        reclaim = s.reclaim;
        alive = update s.alive pid false;
      })
  dies-Inv {s} pid inv =
      Ends-Inv {s = s} (λ i. if pid_of i == pid then die (s.phase i) else s.phase i)
        (update s.alive pid false) inv
        (λ k. elim (Bool-cases (pid_of k == pid)) [
          | inl e ↦ rw e (die-Ends (s.phase k))
          | inr e ↦ rw e (Ends-refl (s.phase k))
        ])
        (λ k h. elim (Bool-cases (pid_of k == pid)) [
          | inl e ↦ rw e (die-rests (s.phase k))
          | inr e ↦ rw e (inv.gone k (ground arith))
        ])

  pub spawns-Inv :
      {s : System} (pid : ℕ)
      → Inv pid_of s
      → Inv pid_of (record {
        directory = s.directory;
        phase = s.phase;
        reclaim = s.reclaim;
        alive = update s.alive pid true;
      })
  spawns-Inv {s} pid inv =
      Ends-Inv {s = s} s.phase (update s.alive pid true) inv (λ k. Ends-refl (s.phase k))
        (λ k h. inv.gone k (ground arith))
