-- ===== src/FileLock/Tests.antt =====
-- Runs of two processes at one lock, and the theorems applied there.
use pi_shared.Common.{
  keep_if, Option, [], false, if◌then◌else◌, none, some, true, ℕ, ◌∷◌, ◌==◌, ◌≡◌, ◌≢◌, arith, refl,
  any_of,
}
use pi_shared.FileLock.State.{
  advance, is_sole, unlink, remove_name, remove_empty_lock, holding, Directory, owner, legacy,
  Phase, idle, has_name,
}
use pi_shared.FileLock.Reclaim.{
  delivered, no_process, malformed, ready, finished, Surroundings, break_stale_lock,
  is_process_alive,
}
use pi_shared.FileLock.System.{System, attempt, dies, Reach, start, later, names_of, update, die}
use pi_shared.FileLock.Moves.{is_holding}
use pi_shared.FileLock.Exclusion.{HeldBy, LockStep, exclusive, Step-LockStep}
use pi_shared.FileLock.Recovery.{run_attempt, run_reclaim, run_reclaim-frees}
use pi_shared.FileLock.Waiting.{
  busy, Round, LockOutcome, waiting, with_interprocess_lock, with_interprocess_lock_ends,
}

-- Attempt 7 is of process 1, every other attempt of process 2.
abbrev pids : ℕ → ℕ
pids i = if i == 7 then 1 else 2

abbrev at_start : System
at_start = record {
  directory = none;
  phase = λ _. idle;
  reclaim = λ _. finished;
  alive = λ _. true;
}

-- The state in which attempt 7 holds the lock that it made as inode 40.
abbrev held : System
held = record {
  directory = some (record { ino = 40; mtime = 12; names = owner 1 7 ∷ [] });
  phase =
      update
        (update
          (update (update (update (λ _. idle) 7 Phase.made) 7 (Phase.opened 40)) 7
            (Phase.published 40))
          7 (Phase.compared true))
        7 holding;
  reclaim = λ _. finished;
  alive = λ _. true;
}

held-Reach : Reach 30000 pids held
unfolding advance has_name is_sole
held-Reach =
    later
      (later
        (later
          (later (later (start none (λ _. true) (λ pid i. refl)) (attempt 7 10 40 refl))
            (attempt 7 11 40 refl))
          (attempt 7 12 40 refl))
        (attempt 7 13 40 refl))
      (attempt 7 14 40 refl)

exclusive_example :
    (◌≡◌ {A = ℕ} 7 7)
    × (held.alive 1 ≡ true)
    × (has_name (owner 1 7) (names_of held.directory) ≡ true)
exclusive_example = exclusive 7 7 held-Reach refl refl

holder_7 : (i : ℕ) → is_holding (held.phase i) ≡ true → ◌≡◌ {A = Option ℕ} (some 7) (some i)
holder_7 i h = ground arith

holds_7 : (i : ℕ) → ◌≡◌ {A = Option ℕ} (some 7) (some i) → is_holding (held.phase i) ≡ true
holds_7 i h = ground arith

-- Process 1 dies while it holds the lock.
abbrev crashed : System
crashed = record {
  directory = held.directory;
  phase = λ i. if pids i == 1 then die (held.phase i) else held.phase i;
  reclaim = held.reclaim;
  alive = update held.alive 1 false;
}

Step-LockStep_example : (b : Option ℕ) × HeldBy crashed b × LockStep (some 7) b
Step-LockStep_example =
    Step-LockStep {s = held} {t = crashed} (some 7) held-Reach
      (record { holder = holder_7; holds = holds_7 }) (dies 1)

-- A reclaimer meets what process 1 left; process 1 is not alive.
abbrev around : Surroundings
around = record {
  now = 40000;
  kill = λ pid. if pid == 1 then no_process else delivered;
  legacy_owner = malformed;
}

abbrev left_over : Directory
left_over = record { ino = 40; mtime = 12; names = owner 1 7 ∷ legacy ∷ [] }

run_reclaim-frees_example :
    run_reclaim 7 30000 around (some left_over) ready
    ≡ record { directory = none; reclaim = finished }
run_reclaim-frees_example =
    run_reclaim-frees 30000 around left_over (omega arith)
      (unfold is_process_alive in refl, (tt, tt)) (unfold has_name in (refl, (refl, tt)))

-- A marker of process 2, which is alive, stays, and so does the directory.
keeps_live_test :
    run_reclaim 4 30000 around
      (some (record { ino = 40; mtime = 12; names = owner 2 8 ∷ [] }))
      ready
    ≡ record {
      directory = some (record { ino = 40; mtime = 12; names = owner 2 8 ∷ [] });
      reclaim = finished;
    }
unfolding run_reclaim break_stale_lock is_process_alive remove_empty_lock
keeps_live_test = refl

-- An attempt takes a free lock in five calls, and gives it up in three more.
takes_test : run_attempt 5 10 40 (owner 1 7) none idle ≡ record {
  directory = some (record { ino = 40; mtime = 10; names = owner 1 7 ∷ [] });
  phase = holding;
}
unfolding run_attempt advance has_name is_sole
takes_test = refl

leaves_test :
    run_attempt 8 10 40 (owner 1 7) none idle ≡ record { directory = none; phase = Phase.over }
unfolding run_attempt advance has_name is_sole unlink remove_name keep_if remove_empty_lock
leaves_test = refl

abbrev a_round : ℕ → Round
a_round now = record {
  aborted = false;
  tried = busy;
  now = now;
  delay_aborted = false;
  aborted_inside = false;
}

with_interprocess_lock_ends_example :
    with_interprocess_lock 10000 500 (a_round 600 ∷ a_round 10501 ∷ []) ≢ waiting
with_interprocess_lock_ends_example =
    with_interprocess_lock_ends 10000 500 (a_round 600 ∷ a_round 10501 ∷ []) (unfold any_of in refl)

timed_out_test :
    with_interprocess_lock 10000 500 (a_round 600 ∷ a_round 10501 ∷ []) ≡ LockOutcome.timed_out
unfolding with_interprocess_lock
timed_out_test = refl
