-- ===== src/Coordinator/Wake/Once.antt =====
-- A wake-up is claimed at most once.
use mathlib.Core.Path.{subst}
use pi_shared.Coordinator.Ledger.Claims.{ResponseRequestBinding}
use pi_shared.Coordinator.Ledger.Once.{binding_eq, binding_eq→eq, won}
use pi_shared.Coordinator.Wake.{claim_peer_wake, WakeDir}
use pi_shared.Coordinator.Wake.Guards.{
  WakeGuarded, claim-WakeGuarded, guarded_wake_lost, wake_won, wakes_after, won-WakeGuards,
}
use pi_shared.Common.{
  Bool, Bool-cases, List, [], arith, false, if◌then◌else◌, inl, inr, refl, suc, sym, true, ℕ, ◌&&◌,
  ◌∷◌, ◌≡◌, ◌≤◌,
}

-- A process that claims a wake-up, and the clock that it reads.
pub record WakeClaim : Type 0 where
  pub binding : ResponseRequestBinding
  pub now : ℕ

abbrev pub wins_wake : ResponseRequestBinding → WakeClaim → WakeDir → Bool
wins_wake b c dir = binding_eq b c.binding && wake_won (claim_peer_wake c.binding c.now dir)

unfoldable pub count_wakes : ResponseRequestBinding → List WakeClaim → WakeDir → ℕ
count_wakes b [] dir = 0
count_wakes b (c ∷ cs) dir =
    let rest = count_wakes b cs (wakes_after dir (claim_peer_wake c.binding c.now dir)) in
    if wins_wake b c dir then suc rest else rest

-- The clocks never run backwards, from `t` on.
abbrev pub WakeClocksFrom : ℕ → List WakeClaim → Type 0
WakeClocksFrom t [] = Unit
WakeClocksFrom t (c ∷ cs) = (t ≤ c.now) × WakeClocksFrom c.now cs

later_wake :
    (b : ResponseRequestBinding) (t t' : ℕ) (dir : WakeDir)
    → t ≤ t'
    → WakeGuarded b t dir
    → WakeGuarded b t' dir
later_wake b t t' dir h (inl old) = inl (omega arith)
later_wake b t t' dir h (inr g) = inr g

claim_stays :
    (b : ResponseRequestBinding) (c : WakeClaim) (t : ℕ) (dir : WakeDir)
    → t ≤ c.now
    → WakeGuarded b t dir
    → WakeGuarded b c.now (wakes_after dir (claim_peer_wake c.binding c.now dir))
claim_stays b c t dir h (inl old) = inl (omega arith)
claim_stays b c t dir h (inr g) = claim-WakeGuarded b c.binding c.now dir g

guarded_not_won :
    (b : ResponseRequestBinding) (c : WakeClaim) (dir : WakeDir)
    → WakeGuarded b c.now dir
    → wins_wake b c dir ≡ false
guarded_not_won b c dir g = elim (Bool-cases (binding_eq b c.binding)) [
  | inr differs ↦ rw differs refl
  | inl same ↦
      let eq = binding_eq→eq b c.binding same in
      let lost =
        subst (λ (x : ResponseRequestBinding). wake_won (claim_peer_wake x c.now dir) ≡ false) eq
          (guarded_wake_lost b c.now dir g) in
      rw same lost
]

won_guards :
    (b : ResponseRequestBinding) (c : WakeClaim) (dir : WakeDir)
    → wins_wake b c dir ≡ true
    → WakeGuarded b c.now (wakes_after dir (claim_peer_wake c.binding c.now dir))
won_guards b c dir h =
    let eq : b ≡ c.binding = binding_eq→eq b c.binding (ground arith) in
    subst
      (λ (x : ResponseRequestBinding).
        WakeGuarded b c.now (wakes_after dir (claim_peer_wake x c.now dir)))
      eq
      (inr (
        won-WakeGuards b c.now dir (
          subst (λ (x : ResponseRequestBinding). wake_won (claim_peer_wake x c.now dir) ≡ true)
            (sym eq) (ground arith))))

guarded_never_won :
    (b : ResponseRequestBinding) (t : ℕ) (cs : List WakeClaim) (dir : WakeDir)
    → WakeClocksFrom t cs
    → WakeGuarded b t dir
    → count_wakes b cs dir ≡ 0
unfolding count_wakes
guarded_never_won b t [] dir clocks g = refl
guarded_never_won b t (c ∷ cs) dir clocks g =
    rw (guarded_not_won b c dir (later_wake b t c.now dir clocks.0 g))
      (guarded_never_won b c.now cs _ clocks.1 (claim_stays b c t dir clocks.0 g))

-- Over any run of claims on any ledgers, by any sessions, whose clocks never run backwards, a wake-up
-- is claimed successfully at most once.
pub count_wakes-le-one :
    (b : ResponseRequestBinding) (t : ℕ) (cs : List WakeClaim) (dir : WakeDir)
    → WakeClocksFrom t cs
    → count_wakes b cs dir ≤ 1
unfolding count_wakes
count_wakes-le-one b t [] dir clocks = omega arith
count_wakes-le-one b t (c ∷ cs) dir clocks = elim (Bool-cases (wins_wake b c dir)) [
  | inl won ↦ rw won (
      omega (
        arith,
        guarded_never_won b c.now cs (wakes_after dir (claim_peer_wake c.binding c.now dir))
            clocks.1 (won_guards b c dir won),
      ))
  | inr lost ↦ rw lost (count_wakes-le-one b c.now cs _ clocks.1)
]
