-- ===== src/FileLock/System.antt =====
-- extensions/_shared/file-lock.ts: any number of attempts at one lock and of reclaimers of it, in any
-- interleaving of their calls, on processes that may die and whose pids may be used again.
use pi_shared.Common.{
  Bool, List, Option, [], false, if◌then◌else◌, none, some, true, ℕ, ◌==◌, ◌≡◌, ◌⊎◌,
}
use pi_shared.FileLock.State.{
  Directory, Name, owner, Phase, idle, over, advance, has_name, throw_at,
}
use pi_shared.FileLock.Reclaim.{
  Reclaim, ready, finished, Surroundings, break_stale_lock, is_process_alive,
}

abbrev pub update {ℓ} : {A : Type ℓ} → (ℕ → A) → ℕ → A → ℕ → A
update f i a j = if i == j then a else f j

-- An attempt is known by its token, which `crypto.randomUUID` never gives twice.
pub record System : Type 0 where
  pub directory : Option Directory
  pub phase : ℕ → Phase
  pub reclaim : ℕ → Reclaim
  pub alive : ℕ → Bool

-- What is left of an attempt when its process dies.
abbrev pub die : Phase → Phase
die idle = idle
die _ = over

abbrev pub names_of : Option Directory → List Name
names_of none = []
names_of (some d) = d.names

-- `ownerName`
abbrev pub marker : (ℕ → ℕ) → ℕ → Name
marker pid_of token = owner (pid_of token) token

module _ (stale_ms : ℕ) (pid_of : ℕ → ℕ) where
  pub data Step (s : System) : System → Type 0 where
    -- The next call of an attempt, by a process that is alive.
    attempt :
        (i now ino : ℕ)
        → s.alive (pid_of i) ≡ true
        → Step s (record {
          directory = (advance now ino (marker pid_of i) s.directory (s.phase i)).directory;
          phase =
              update s.phase i (advance now ino (marker pid_of i) s.directory (s.phase i)).phase;
          reclaim = s.reclaim;
          alive = s.alive;
        })
    throws :
        (i : ℕ)
        → Step s (record {
          directory = s.directory;
          phase = update s.phase i (throw_at (s.phase i));
          reclaim = s.reclaim;
          alive = s.alive;
        })
    -- The next call of a reclaimer. A signal to a process that is alive does not say that there is
    -- no such process.
    sweep :
        (j : ℕ) (w : Surroundings)
        → ((pid : ℕ) → s.alive pid ≡ true → is_process_alive w.kill pid ≡ true)
        → Step s (record {
          directory = (break_stale_lock stale_ms w s.directory (s.reclaim j)).directory;
          phase = s.phase;
          reclaim =
              update s.reclaim j (break_stale_lock stale_ms w s.directory (s.reclaim j)).reclaim;
          alive = s.alive;
        })
    -- A reclaimer is called, or ends early: by an error, or with its process.
    call_sweep :
        (j : ℕ) (r : Reclaim)
        → (r ≡ ready) ⊎ (r ≡ finished)
        → Step s (record {
          directory = s.directory;
          phase = s.phase;
          reclaim = update s.reclaim j r;
          alive = s.alive;
        })
    dies :
        (pid : ℕ)
        → Step s (record {
          directory = s.directory;
          phase = λ i. if pid_of i == pid then die (s.phase i) else s.phase i;
          reclaim = s.reclaim;
          alive = update s.alive pid false;
        })
    spawns :
        (pid : ℕ)
        → Step s (record {
          directory = s.directory;
          phase = s.phase;
          reclaim = s.reclaim;
          alive = update s.alive pid true;
        })

  -- The directory at the start may hold files of others, but no marker.
  pub data Reach : System → Type 0 where
    start :
        (d : Option Directory) (alive : ℕ → Bool)
        → ((pid i : ℕ) → has_name (owner pid i) (names_of d) ≡ false)
        → Reach
            (record { directory = d; phase = λ _. idle; reclaim = λ _. finished; alive = alive })
    later : {s t : System} → Reach s → Step s t → Reach t
