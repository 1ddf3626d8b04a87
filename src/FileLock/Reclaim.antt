-- ===== src/FileLock/Reclaim.antt =====
-- extensions/_shared/file-lock.ts: `breakStaleLock`, again as the sequence of its calls.
use pi_shared.Common.{
  Bool, List, Option, [], false, if◌then◌else◌, leb, none, some, true, ℕ, ◌-◌, ◌==◌, ◌∷◌,
}
use pi_shared.FileLock.State.{Directory, Name, owner, legacy, unknown, remove_empty_lock, unlink}

-- What `process.kill(pid, 0)` does.
pub data KillResult : Type 0 where
  delivered : KillResult
  not_permitted : KillResult
  no_process : KillResult

unfoldable pub is_process_alive : (ℕ → KillResult) → ℕ → Bool
is_process_alive kill pid =
    if pid == 0
    then false
    else elim (kill pid) [ delivered ↦ true | not_permitted ↦ true | no_process ↦ false ]

-- What reading and parsing the legacy `owner.json` gives: an owner's pid, a value without one, a
-- syntax error or a missing file, or another error.
pub data LegacyOwner : Type 0 where
  owned_by : ℕ → LegacyOwner
  no_pid : LegacyOwner
  malformed : LegacyOwner
  unreadable : LegacyOwner

-- Before `stat`; before `readdir`; the names still to look at; a name to unlink and those after it;
-- over.
pub data Reclaim : Type 0 where
  ready : Reclaim
  stale : Reclaim
  sweeping : List Name → Reclaim
  condemned : Name → List Name → Reclaim
  finished : Reclaim

-- What happens around a step: the clock, `process.kill`, what the legacy file holds.
pub record Surroundings : Type 0 where
  pub now : ℕ
  pub kill : ℕ → KillResult
  pub legacy_owner : LegacyOwner

pub record Swept : Type 0 where
  pub directory : Option Directory
  pub reclaim : Reclaim

-- `fs.promises.stat(lockPath)` and the test of its age
abbrev pub check_age : ℕ → ℕ → Option Directory → Reclaim
check_age stale_ms now none = finished
check_age stale_ms now (some d) = if leb (now - d.mtime) stale_ms then finished else stale

-- `fs.promises.readdir(lockPath)`
abbrev pub list_names : Option Directory → Reclaim
list_names none = finished
list_names (some d) = sweeping d.names

abbrev pub judge_legacy : (ℕ → KillResult) → LegacyOwner → List Name → Reclaim
judge_legacy kill (owned_by pid) rest =
    if is_process_alive kill pid then sweeping rest else condemned legacy rest
judge_legacy kill no_pid rest = condemned legacy rest
judge_legacy kill malformed rest = condemned legacy rest
judge_legacy kill unreadable rest = finished

-- The loop's body for one name, up to `unlink`.
abbrev pub judge : Surroundings → Name → List Name → Reclaim
judge w (owner pid token) rest =
    if is_process_alive w.kill pid then sweeping rest else condemned (owner pid token) rest
judge w legacy rest = judge_legacy w.kill w.legacy_owner rest
judge w (unknown k) rest = sweeping rest

unfoldable pub break_stale_lock : ℕ → Surroundings → Option Directory → Reclaim → Swept
break_stale_lock stale_ms w d ready = record { directory = d; reclaim = check_age stale_ms w.now d }
break_stale_lock stale_ms w d stale = record { directory = d; reclaim = list_names d }
break_stale_lock stale_ms w d (sweeping []) = record {
  directory = remove_empty_lock d;
  reclaim = finished;
}
break_stale_lock stale_ms w d (sweeping (n ∷ rest)) = record {
  directory = d;
  reclaim = judge w n rest;
}
break_stale_lock stale_ms w d (condemned n rest) = record {
  directory = unlink w.now n d;
  reclaim = sweeping rest;
}
break_stale_lock stale_ms w d finished = record { directory = d; reclaim = finished }
