-- ===== src/FileLock/Recovery.antt =====
-- An abandoned lock is freed by one call of `breakStaleLock`.
use pi_shared.Common.{
  ap, ◌∙◌, All, List, Option, [], false, if◌then◌else◌, none, some, suc, zero, ℕ, ◌*◌, ◌+◌, ◌-◌,
  ◌<◌, ◌∷◌, ◌≡◌, arith, keep_if, leb, length, refl, Bool-cases, inl, inr,
}
use pi_shared.FileLock.State.{
  Directory, Name, owner, legacy, unknown, Phase, Moved, advance, has_name, name_eq,
  remove_empty_lock, remove_name, unlink,
}
use pi_shared.FileLock.Reclaim.{
  Reclaim, ready, stale, sweeping, condemned, finished, judge, judge_legacy, LegacyOwner, owned_by,
  no_pid, malformed, unreadable, Surroundings, Swept, break_stale_lock, is_process_alive,
}
use pi_shared.FileLock.Names.{name_eq_refl}

-- `n` calls of a reclaimer with nobody else acting.
unfoldable pub run_reclaim : ℕ → ℕ → Surroundings → Option Directory → Reclaim → Swept
run_reclaim zero stale_ms w d r = record { directory = d; reclaim = r }
run_reclaim (suc n) stale_ms w d r =
    let step = break_stale_lock stale_ms w d r in
    run_reclaim n stale_ms w step.directory step.reclaim

-- `n` calls of an attempt with nobody else acting.
unfoldable pub run_attempt : ℕ → ℕ → ℕ → Name → Option Directory → Phase → Moved
run_attempt zero now ino me d p = record { directory = d; phase = p }
run_attempt (suc n) now ino me d p =
    let step = advance now ino me d p in run_attempt n now ino me step.directory step.phase

-- The owner that the legacy file names is not alive, or the file names none.
abbrev pub IsOrphan : Surroundings → LegacyOwner → Type 0
IsOrphan w (owned_by pid) = is_process_alive w.kill pid ≡ false
IsOrphan w no_pid = Unit
IsOrphan w malformed = Unit
IsOrphan w unreadable = ⊥

-- A marker of a process that is not alive.
abbrev pub IsDead : Surroundings → Name → Type 0
IsDead w (owner pid token) = is_process_alive w.kill pid ≡ false
IsDead w legacy = IsOrphan w w.legacy_owner
IsDead w (unknown k) = ⊥

-- No two files of a directory have the same name.
abbrev pub Distinct : List Name → Type 0
Distinct [] = Unit
Distinct (n ∷ ns) = (has_name n ns ≡ false) × Distinct ns

remove_name-absent :
    (n : Name) (names : List Name) → has_name n names ≡ false → remove_name n names ≡ names
unfolding remove_name keep_if has_name
remove_name-absent n [] h = refl
remove_name-absent n (m ∷ ms) h = elim (Bool-cases (name_eq n m)) [
  | inl e ↦ ground arith
  | inr e ↦ rw e (ap (λ ks. m ∷ ks) (remove_name-absent n ms (ground arith)))
]

unlink-head :
    (now ino mtime : ℕ) (n : Name) (names : List Name)
    → has_name n names ≡ false
    → unlink now n (some (record { ino = ino; mtime = mtime; names = n ∷ names }))
      ≡ some (record { ino = ino; mtime = now; names = names })
unfolding unlink has_name remove_name keep_if
unlink-head now ino mtime n names h = rw (name_eq_refl n, remove_name-absent n names h) refl

judge_legacy-orphan :
    (w : Surroundings) (o : LegacyOwner) (rest : List Name)
    → IsOrphan w o
    → judge_legacy w.kill o rest ≡ condemned legacy rest
judge_legacy-orphan w (owned_by p) rest h = rw h refl
judge_legacy-orphan w no_pid rest h = refl
judge_legacy-orphan w malformed rest h = refl
judge_legacy-orphan w unreadable rest h = absurd h

judge-dead :
    (w : Surroundings) (n : Name) (rest : List Name)
    → IsDead w n
    → judge w n rest ≡ condemned n rest
judge-dead w (owner p i) rest h = rw h refl
judge-dead w legacy rest h = judge_legacy-orphan w w.legacy_owner rest h
judge-dead w (unknown k) rest h = absurd h

-- The calls that looking at some names takes: two for each, and the last `rmdir`.
abbrev calls_for : List Name → ℕ
calls_for [] = 1
calls_for (n ∷ ns) = suc (suc (calls_for ns))

run_reclaim-step :
    (n stale_ms : ℕ) (w : Surroundings) (d e : Option Directory) (r q : Reclaim)
    → break_stale_lock stale_ms w d r ≡ record { directory = e; reclaim = q }
    → run_reclaim (suc n) stale_ms w d r ≡ run_reclaim n stale_ms w e q
unfolding run_reclaim
run_reclaim-step n stale_ms w d e r q h = rw h refl

sweep-head :
    (stale_ms : ℕ) (w : Surroundings) (d : Option Directory) (n : Name) (ns : List Name)
    → IsDead w n
    → break_stale_lock stale_ms w d (sweeping (n ∷ ns))
      ≡ record { directory = d; reclaim = condemned n ns }
unfolding break_stale_lock
sweep-head stale_ms w d n ns h =
    ap (λ r. record { directory = d; reclaim = r }) (judge-dead w n ns h)

unlink-step :
    (stale_ms : ℕ) (w : Surroundings) (ino mtime : ℕ) (n : Name) (ns : List Name)
    → has_name n ns ≡ false
    → break_stale_lock stale_ms w
        (some (record { ino = ino; mtime = mtime; names = n ∷ ns }))
        (condemned n ns)
      ≡ record {
        directory = some (record { ino = ino; mtime = w.now; names = ns });
        reclaim = sweeping ns;
      }
unfolding break_stale_lock
unlink-step stale_ms w ino mtime n ns h =
    ap (λ d. record { directory = d; reclaim = sweeping ns }) (unlink-head w.now ino mtime n ns h)

run_sweep :
    (stale_ms : ℕ) (w : Surroundings) (ino mtime : ℕ) (names : List Name)
    → All (IsDead w) names
    → Distinct names
    → run_reclaim
        (calls_for names)
        stale_ms
        w
        (some (record { ino = ino; mtime = mtime; names = names }))
        (sweeping names)
      ≡ record { directory = none; reclaim = finished }
run_sweep stale_ms w ino mtime [] dead distinct =
    unfold run_reclaim break_stale_lock remove_empty_lock in refl
run_sweep stale_ms w ino mtime (n ∷ ns) dead distinct =
    run_reclaim-step _ stale_ms w _ _ _ _ (sweep-head stale_ms w _ n ns dead.0)
    ∙ run_reclaim-step _ stale_ms w _ _ _ _ (unlink-step stale_ms w ino mtime n ns distinct.0)
    ∙ run_sweep stale_ms w ino w.now ns dead.1 distinct.1

age-step :
    (stale_ms : ℕ) (w : Surroundings) (d : Directory)
    → stale_ms < w.now - d.mtime
    → break_stale_lock stale_ms w (some d) ready ≡ record { directory = some d; reclaim = stale }
unfolding break_stale_lock
age-step stale_ms w d old =
    let late : leb (w.now - d.mtime) stale_ms ≡ false = ground arith in
    ap (λ b. record { directory = some d; reclaim = if b then finished else stale }) late

list-step :
    (stale_ms : ℕ) (w : Surroundings) (d : Directory)
    → break_stale_lock stale_ms w (some d) stale
      ≡ record { directory = some d; reclaim = sweeping d.names }
unfolding break_stale_lock
list-step stale_ms w d = refl

calls_for-length : (names : List Name) → calls_for names ≡ 1 + 2 * length names
calls_for-length [] = refl
calls_for-length (n ∷ ns) = omega (arith, calls_for-length ns)

-- A directory that last changed more than `staleMs` ago, and holds only markers of processes that
-- are not alive, is removed by one call of the reclaimer with nobody else acting: by `stat`,
-- `readdir`, two calls for each marker, and `rmdir`.
pub run_reclaim-frees :
    (stale_ms : ℕ) (w : Surroundings) (d : Directory)
    → stale_ms < w.now - d.mtime
    → All (IsDead w) d.names
    → Distinct d.names
    → run_reclaim (3 + 2 * length d.names) stale_ms w (some d) ready
      ≡ record { directory = none; reclaim = finished }
run_reclaim-frees stale_ms w d old dead distinct =
    let calls : 3 + 2 * length d.names ≡ suc (suc (calls_for d.names)) =
      omega (arith, calls_for-length d.names) in
    rw calls (
      run_reclaim-step _ stale_ms w _ _ _ _ (age-step stale_ms w d old)
      ∙ run_reclaim-step _ stale_ms w _ _ _ _ (list-step stale_ms w d)
      ∙ run_sweep stale_ms w d.ino d.mtime d.names dead distinct)
