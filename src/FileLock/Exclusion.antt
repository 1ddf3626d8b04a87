-- ===== src/FileLock/Exclusion.antt =====
-- The lock as its callers see it: held by nobody or by one, taken only when it is free.
use mathlib.Core.Path.{subst}
use pi_shared.Common.{
  Bool, Option, false, if◌then◌else◌, none, some, true, ℕ, ◌==◌, ◌≡◌, refl, arith, Bool-cases, inl,
  inr, ap, sym, ◌⊎◌,
}
use pi_shared.FileLock.State.{Phase, advance, has_name, throw_at}
use pi_shared.FileLock.System.{
  System, Step, attempt, throws, sweep, call_sweep, dies, spawns, Reach, names_of, marker, die,
}
use pi_shared.FileLock.Moves.{is_holding, advance-leaves, throw_at-Ends, die-Ends}
use pi_shared.FileLock.Reachable.{Step-Inv, Reach-Inv}
use pi_shared.FileLock.Invariant.{Inv, holding-shown, holding-sole, shown-running, update-rule}

if_die-holding :
    (b : Bool) (p : Phase) → is_holding (if b then die p else p) ≡ true → is_holding p ≡ true
if_die-holding true p h = (die-Ends p).holds h
if_die-holding false p h = h

never : {a b : Bool} → (a ≡ true → b ≡ true) → b ≡ false → a ≡ false
never {a} f h = elim (Bool-cases a) [ inl e ↦ cc (f e) | inr e ↦ e ]

some-eq : {i j : ℕ} → ◌≡◌ {A = Option ℕ} (some i) (some j) → i ≡ j
some-eq h = cc

module _ (pid_of : ℕ → ℕ) where
  -- An attempt holds the lock after a step only if it did before, or if nobody did.
  Step-holding :
      {stale_ms : ℕ} {s t : System} (j : ℕ)
      → Inv pid_of s
      → Step stale_ms pid_of s t
      → is_holding (t.phase j) ≡ true
      → (is_holding (s.phase j) ≡ true) ⊎ ((k : ℕ) → is_holding (s.phase k) ≡ false)
  Step-holding {s = s} j inv (attempt i now ino lives) h =
      let m = advance now ino (marker pid_of i) s.directory (s.phase i) in
      update-rule
        (λ j x.
          is_holding x ≡ true
          → (is_holding (s.phase j) ≡ true) ⊎ ((k : ℕ) → is_holding (s.phase k) ≡ false))
        s.phase i m.phase
        (λ g. inr (λ k. elim (Bool-cases (is_holding (s.phase k))) [
          | inl e ↦
              let same : k ≡ i = sym (holding-sole pid_of {s = s} i k now ino inv g e) in
              cc (
                g,
                advance-leaves now ino (pid_of i) i s.directory (s.phase i)
                    (subst (λ n. is_holding (s.phase n) ≡ true) same e),
              )
          | inr e ↦ e
        ]))
        (λ k ne g. inl g) j h
  Step-holding {s = s} j inv (throws i) h = inl (
      update-rule (λ j x. is_holding x ≡ true → is_holding (s.phase j) ≡ true) s.phase i
        (throw_at (s.phase i)) (λ g. (throw_at-Ends (s.phase i)).holds g) (λ k ne g. g) j h)
  Step-holding {s = s} j inv (sweep i w honest) h = inl h
  Step-holding {s = s} j inv (call_sweep i r quiet) h = inl h
  Step-holding {s = s} j inv (dies pid) h = inl (if_die-holding (pid_of j == pid) (s.phase j) h)
  Step-holding {s = s} j inv (spawns pid) h = inl h

  -- After a step from a free lock, somebody holds it or nobody does.
  Step-free :
      {stale_ms : ℕ} {s t : System}
      → Step stale_ms pid_of s t
      → ((k : ℕ) → is_holding (s.phase k) ≡ false)
      → ((i : ℕ) × (is_holding (t.phase i) ≡ true)) ⊎ ((k : ℕ) → is_holding (t.phase k) ≡ false)
  Step-free {s = s} (attempt i now ino lives) free =
      let m = advance now ino (marker pid_of i) s.directory (s.phase i) in
      elim (Bool-cases (is_holding m.phase)) [
        | inl e ↦ inl (i, ground arith)
        | inr e ↦
            inr (update-rule (λ k x. is_holding x ≡ false) s.phase i m.phase e (λ k ne. free k))
      ]
  Step-free {s = s} (throws i) free = inr (
      update-rule (λ k x. is_holding x ≡ false) s.phase i (throw_at (s.phase i))
        (never (throw_at-Ends (s.phase i)).holds (free i)) (λ k ne. free k))
  Step-free {s = s} (sweep i w honest) free = inr free
  Step-free {s = s} (call_sweep i r quiet) free = inr free
  Step-free {s = s} (dies pid) free =
      inr (λ k. never (if_die-holding (pid_of k == pid) (s.phase k)) (free k))
  Step-free {s = s} (spawns pid) free = inr free

-- In every state that can be reached, at most one attempt holds the lock; the process of that
-- attempt is alive, and its marker is in the lock's directory.
pub exclusive :
    {stale_ms : ℕ} {pid_of : ℕ → ℕ} {s : System} (i j : ℕ)
    → Reach stale_ms pid_of s
    → is_holding (s.phase i) ≡ true
    → is_holding (s.phase j) ≡ true
    → (i ≡ j)
      × (s.alive (pid_of i) ≡ true)
      × (has_name (marker pid_of i) (names_of s.directory) ≡ true)
exclusive {pid_of = pid_of} {s = s} i j r h k =
    let inv : Inv pid_of s = Reach-Inv pid_of r in
    let shown = holding-shown (s.phase i) h in
    (
      inv.unique i j h k,
      elim (Bool-cases (s.alive (pid_of i))) [
        | inl e ↦ e
        | inr e ↦ cc (inv.gone i e, shown-running (s.phase i) shown)
      ],
      inv.shown i shown,
    )

-- The abstract lock: who holds it.
pub data LockStep : Option ℕ → Option ℕ → Type 0 where
  take : (i : ℕ) → LockStep none (some i)
  leave : (i : ℕ) → LockStep (some i) none
  wait : (a : Option ℕ) → LockStep a a

pub record HeldBy (s : System) (a : Option ℕ) : Type 0 where
  pub holder : (i : ℕ) → is_holding (s.phase i) ≡ true → a ≡ some i
  pub holds : (i : ℕ) → a ≡ some i → is_holding (s.phase i) ≡ true

-- Each step of the processes is a step of the abstract lock: in a state that can be reached, and
-- held by `a`, a step leads to a state held by some `b` that the abstract lock can go to from `a`:
-- it is taken only when it is free, and changes hands only by being left first.
pub Step-LockStep :
    {stale_ms : ℕ} {pid_of : ℕ → ℕ} {s t : System} (a : Option ℕ)
    → Reach stale_ms pid_of s
    → HeldBy s a
    → Step stale_ms pid_of s t
    → (b : Option ℕ) × HeldBy t b × LockStep a b
Step-LockStep {pid_of = pid_of} {s = s} {t = t} none r v st =
    let inv : Inv pid_of t = Step-Inv pid_of st (Reach-Inv pid_of r) in
    let free : (k : ℕ) → is_holding (s.phase k) ≡ false =
      λ k. elim (Bool-cases (is_holding (s.phase k))) [ inl e ↦ cc (v.holder k e) | inr e ↦ e ] in
    elim (Step-free pid_of st free) [
      | inl h ↦ (
        some h.0,
        record {
          holder = λ i k. ap some (inv.unique h.0 i h.1 k);
          holds = λ i e. subst (λ n. is_holding (t.phase n) ≡ true) (some-eq e) h.1;
        },
        take h.0,
      )
      | inr h ↦ (none, record { holder = λ i k. cc (h i, k); holds = λ i e. cc }, wait none)
    ]
Step-LockStep {pid_of = pid_of} {s = s} {t = t} (some k) r v st =
    let inv : Inv pid_of t = Step-Inv pid_of st (Reach-Inv pid_of r) in
    elim (Bool-cases (is_holding (t.phase k))) [
      | inl h ↦ (
        some k,
        record {
          holder = λ i g. ap some (inv.unique k i h g);
          holds = λ i e. subst (λ n. is_holding (t.phase n) ≡ true) (some-eq e) h;
        },
        wait (some k),
      )
      | inr h ↦ (
        none,
        record {
          holder = λ i g. elim (Step-holding pid_of i (Reach-Inv pid_of r) st g) [
            | inl e ↦
                let same : k ≡ i = some-eq (v.holder i e) in
                cc (h, subst (λ n. is_holding (t.phase n) ≡ true) (sym same) g)
            | inr e ↦ cc (e k, v.holds k refl)
          ];
          holds = λ i e. cc;
        },
        leave k,
      )
    ]
