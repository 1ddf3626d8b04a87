-- ===== src/FileLock/Reachable.antt =====
-- Every step keeps the invariant, so every state that can be reached has it.
use pi_shared.Common.{ℕ}
use pi_shared.FileLock.System.{
  System, Step, attempt, throws, sweep, call_sweep, dies, spawns, Reach, start, later,
}
use pi_shared.FileLock.Invariant.{Inv, start-Inv, attempt-Inv}
use pi_shared.FileLock.Deaths.{throws-Inv, dies-Inv, spawns-Inv}
use pi_shared.FileLock.Reclaims.{call_sweep-Inv, sweep-Inv}

module _ (pid_of : ℕ → ℕ) where
  pub Step-Inv :
      {stale_ms : ℕ} {s t : System} → Step stale_ms pid_of s t → Inv pid_of s → Inv pid_of t
  Step-Inv {s = s} (attempt i now ino lives) inv = attempt-Inv pid_of {s = s} i now ino lives inv
  Step-Inv {s = s} (throws i) inv = throws-Inv pid_of {s = s} i inv
  Step-Inv {stale_ms = stale_ms} {s = s} (sweep j w honest) inv =
      sweep-Inv pid_of {s = s} stale_ms j w honest inv
  Step-Inv {s = s} (call_sweep j r h) inv = call_sweep-Inv pid_of {s = s} j r h inv
  Step-Inv {s = s} (dies pid) inv = dies-Inv pid_of {s = s} pid inv
  Step-Inv {s = s} (spawns pid) inv = spawns-Inv pid_of {s = s} pid inv

  pub Reach-Inv : {stale_ms : ℕ} {s : System} → Reach stale_ms pid_of s → Inv pid_of s
  Reach-Inv (start d alive h) = start-Inv pid_of d alive h
  Reach-Inv (later r st) = Step-Inv st (Reach-Inv r)
