-- ===== src/FileLock/Invariant.antt =====
-- Who shows a marker and who may lose it: true at the and kept by every step.
use mathlib.Core.Path.{subst}
use pi_shared.Common.{
  Bool, Option, false, true, ℕ, ◌==◌, ◌≡◌, ◌≢◌, refl, arith, Bool-cases, inl, inr, ap, sym, ◌∙◌,
}
use pi_shared.FileLock.State.{Directory, Name, owner, Phase, idle, advance, has_name}
use pi_shared.FileLock.Reclaim.{finished}
use pi_shared.FileLock.System.{System, names_of, update, marker}
use pi_shared.FileLock.Names.{is_sole-has_name}
use pi_shared.FileLock.Moves.{
  is_early, is_shown, is_holding, is_running, advance-others, advance-own, advance-shown,
  advance-late, advance-holding, advance-over,
}
use pi_shared.FileLock.Sweeps.{todo_of, dooms}

-- A name can be that of attempt `i`'s marker, published already.
abbrev pub Left : (ℕ → ℕ) → (ℕ → Phase) → ℕ → ℕ → Type 0
Left pid_of phase p i = (p ≡ pid_of i) × (is_early (phase i) ≡ false)

pub record Inv (pid_of : ℕ → ℕ) (s : System) : Type 0 where
  pub shown :
      (i : ℕ)
      → is_shown (s.phase i) ≡ true
      → has_name (marker pid_of i) (names_of s.directory) ≡ true
  pub left :
      (p i : ℕ) → has_name (owner p i) (names_of s.directory) ≡ true → Left pid_of s.phase p i
  pub listed :
      (j p i : ℕ) → has_name (owner p i) (todo_of (s.reclaim j)) ≡ true → Left pid_of s.phase p i
  -- What a reclaimer is about to remove belongs to an attempt that is over.
  pub doomed :
      (j p i : ℕ)
      → dooms (owner p i) (s.reclaim j) ≡ true
      → (is_early (s.phase i) ≡ false) × (is_running (s.phase i) ≡ false)
  pub gone : (i : ℕ) → s.alive (pid_of i) ≡ false → is_running (s.phase i) ≡ false
  pub unique : (i j : ℕ) → is_holding (s.phase i) ≡ true → is_holding (s.phase j) ≡ true → i ≡ j

pub update-rule {ℓ κ} :
    {A : Type ℓ} (P : ℕ → A → Type κ) (f : ℕ → A) (i : ℕ) (a : A)
    → P i a
    → ((k : ℕ) → i ≢ k → P k (f k))
    → (k : ℕ) → P k (update f i a k)
update-rule {A} P f i a own others k = elim (Bool-cases (i == k)) [
  | inl e ↦ let same : i ≡ k = ground arith in rw e (subst (λ n. P n a) same own)
  | inr e ↦ rw e (others k (ground arith))
]

token_of : Name → ℕ
token_of (owner p i) = i
token_of _ = 0

pub holding-shown : (p : Phase) → is_holding p ≡ true → is_shown p ≡ true
holding-shown p h = ground arith

pub shown-running : (p : Phase) → is_shown p ≡ true → is_running p ≡ true
shown-running p h = ground arith

module _ (pid_of : ℕ → ℕ) where
  pub start-Inv :
      (d : Option Directory) (alive : ℕ → Bool)
      → ((pid i : ℕ) → has_name (owner pid i) (names_of d) ≡ false)
      → Inv pid_of
          (record { directory = d; phase = λ _. idle; reclaim = λ _. finished; alive = alive })
  unfolding has_name
  start-Inv d alive h = record {
    shown = λ i k. cc;
    left = λ p i k. cc (h p i, k);
    listed = λ j p i k. cc;
    doomed = λ j p i k. cc;
    gone = λ i k. refl;
    unique = λ i j k l. cc;
  }

  -- An attempt that begins to hold the lock is the only one that shows its marker.
  pub holding-sole :
      {s : System} (i k now ino : ℕ)
      → Inv pid_of s
      → is_holding (advance now ino (marker pid_of i) s.directory (s.phase i)).phase ≡ true
      → is_holding (s.phase k) ≡ true
      → i ≡ k
  unfolding token_of
  holding-sole {s} i k now ino inv h hk = ap token_of (
      sym (
        is_sole-has_name (marker pid_of i) (marker pid_of k) (names_of s.directory)
          (advance-holding now ino (pid_of i) i s.directory (s.phase i) h)
          (inv.shown k (holding-shown (s.phase k) hk))))

  pub attempt-Inv :
      {s : System} (i now ino : ℕ)
      → s.alive (pid_of i) ≡ true
      → Inv pid_of s
      → Inv pid_of (record {
        directory = (advance now ino (marker pid_of i) s.directory (s.phase i)).directory;
        phase = update s.phase i (advance now ino (marker pid_of i) s.directory (s.phase i)).phase;
        reclaim = s.reclaim;
        alive = s.alive;
      })
  attempt-Inv {s} i now ino lives inv =
      let m = advance now ino (marker pid_of i) s.directory (s.phase i) in
      let late = advance-late now ino (pid_of i) i s.directory (s.phase i) in
      let other = advance-others now ino (pid_of i) i s.directory (s.phase i) in
      record {
        shown =
            update-rule
              (λ k x. is_shown x ≡ true → has_name (marker pid_of k) (names_of m.directory) ≡ true)
              s.phase i m.phase
              (advance-shown now ino (pid_of i) i s.directory (s.phase i) (inv.shown i))
              (λ k ne h. other (pid_of k) k ne ∙ inv.shown k h);
        left = λ p.
            update-rule
              (λ k x.
                has_name (owner p k) (names_of m.directory) ≡ true
                → (p ≡ pid_of k) × (is_early x ≡ false))
              s.phase i m.phase
              (λ h. elim (advance-own now ino (pid_of i) i s.directory (s.phase i) p h) [
                | inl k ↦ ((inv.left p i k).0, late (inv.left p i k).1)
                | inr k ↦ k
              ])
              (λ k ne h. inv.left p k (sym (other p k ne) ∙ h));
        listed = λ j p.
            update-rule
              (λ k x.
                has_name (owner p k) (todo_of (s.reclaim j)) ≡ true
                → (p ≡ pid_of k) × (is_early x ≡ false))
              s.phase i m.phase (λ h. ((inv.listed j p i h).0, late (inv.listed j p i h).1))
              (λ k ne h. inv.listed j p k h);
        doomed = λ j p.
            update-rule
              (λ k x.
                dooms (owner p k) (s.reclaim j) ≡ true
                → (is_early x ≡ false) × (is_running x ≡ false))
              s.phase i m.phase
              (λ h.
                advance-over now ino (pid_of i) i s.directory (s.phase i) (inv.doomed j p i h).0
                  (inv.doomed j p i h).1)
              (λ k ne h. inv.doomed j p k h);
        gone =
            update-rule (λ k x. s.alive (pid_of k) ≡ false → is_running x ≡ false) s.phase i m.phase
              (λ h. cc) (λ k ne h. inv.gone k h);
        unique =
            update-rule
              (λ k x.
                (j : ℕ)
                → is_holding x ≡ true
                → is_holding (update s.phase i m.phase j) ≡ true
                → k ≡ j)
              s.phase i m.phase
              (update-rule (λ j y. is_holding m.phase ≡ true → is_holding y ≡ true → i ≡ j) s.phase
                i m.phase (λ h k. refl) (λ j ne h k. holding-sole i j now ino inv h k))
              (λ k ne.
                update-rule (λ j y. is_holding (s.phase k) ≡ true → is_holding y ≡ true → k ≡ j)
                  s.phase i m.phase (λ h l. sym (holding-sole i k now ino inv l h))
                  (λ j ne' h l. inv.unique k j h l));
      }
