-- ===== src/Coordinator/Wake/Guards.antt =====
-- A wake-up that was claimed is guarded: no later claim of it wins before it expires.
use mathlib.Core.Path.{subst}
use pi_shared.Common.Result.{Result, ok, err, Result-cases}
use pi_shared.Coordinator.Ledger.Claims.{ResponseRequestBinding, binding_is_valid}
use pi_shared.Coordinator.Wake.{
  absent, unreadable, stored, claim_peer_wake, WakeDir, WakeError, WakeFile, is_wake, live_claims,
  read_peer_wake_ledger, bound_peer_wake, claim_wake_found, max_peer_wake_claims, write_wakes,
}
use pi_shared.Common.{
  Bool, List, String, [], any_of, arith, false, find, is_some, keep_if, str_eq_refl, true, ℕ, ◌&&◌,
  ◌++◌, ◌<◌, ◌==◌, ◌∷◌, ◌≡◌, ◌≤◌, ◌⊎◌, Bool-cases, Option, Option-cases, inl, inr, leb, length,
  refl, str_eq, str_eq_iff, ◌||◌,
}

abbrev pub wake_won : Result WakeError (Bool × WakeDir) → Bool
wake_won (ok (b, dir)) = b
wake_won (err e) = false

abbrev pub wakes_after : WakeDir → Result WakeError (Bool × WakeDir) → WakeDir
wakes_after dir (ok (b, dir')) = dir'
wakes_after dir (err e) = dir

-- A claim that stands for the binding.
abbrev stands : ResponseRequestBinding → ResponseRequestBinding → Bool
stands b r = is_wake b.message_id r && r.expires_at == b.expires_at

abbrev pub WakeGuards : ResponseRequestBinding → WakeFile → Type 0
WakeGuards b absent = ⊥
WakeGuards b unreadable = ⊥
WakeGuards b (stored ledger) = any_of (stands b) ledger.claims ≡ true

abbrev pub WakeGuarded : ResponseRequestBinding → ℕ → WakeDir → Type 0
WakeGuarded b t dir = (b.expires_at ≤ t) ⊎ WakeGuards b (dir b.recipient_session_id)

stands-live :
    (b : ResponseRequestBinding) (now : ℕ) (claims : List ResponseRequestBinding)
    → now < b.expires_at
    → any_of (stands b) claims ≡ true
    → any_of (stands b) (live_claims now claims) ≡ true
unfolding any_of keep_if
stands-live b now [] live h = cc
stands-live b now (c ∷ cs) live h = ground (arith, stands-live b now cs live)

stands-append :
    (b c : ResponseRequestBinding) (claims : List ResponseRequestBinding)
    → any_of (stands b) claims ≡ true
    → any_of (stands b) (claims ++ c ∷ []) ≡ true
unfolding any_of
stands-append b c [] h = cc
stands-append b c (x ∷ xs) h = ground (arith, stands-append b c xs)

stands-own :
    (b : ResponseRequestBinding) (claims : List ResponseRequestBinding)
    → any_of (stands b) (claims ++ b ∷ []) ≡ true
unfolding any_of
stands-own b [] = ground (arith, str_eq_refl b.message_id)
stands-own b (x ∷ xs) = ground (arith, stands-own b xs)

stands-find :
    (b : ResponseRequestBinding) (claims : List ResponseRequestBinding)
    → any_of (stands b) claims ≡ true
    → is_some (find (is_wake b.message_id) claims) ≡ true
unfolding any_of find
stands-find b [] h = cc
stands-find b (x ∷ xs) h = ground (arith, stands-find b xs)

read-stands :
    (b : ResponseRequestBinding) (id : String) (file : WakeFile)
    (claims : List ResponseRequestBinding)
    → read_peer_wake_ledger id file ≡ ok claims
    → WakeGuards b file
    → any_of (stands b) claims ≡ true
unfolding read_peer_wake_ledger
read-stands b id absent claims e g = absurd g
read-stands b id unreadable claims e g = absurd g
read-stands b id (stored ledger) claims e g =
    let same : ledger.claims ≡ claims = ground arith in
    subst (λ (x : List ResponseRequestBinding). any_of (stands b) x ≡ true) same g

-- What a written ledger does to the guard of a binding.
written-WakeGuarded :
    (b c : ResponseRequestBinding) (now : ℕ) (dir : WakeDir) (claims : List ResponseRequestBinding)
    → read_peer_wake_ledger c.recipient_session_id (dir c.recipient_session_id) ≡ ok claims
    → WakeGuards b (dir b.recipient_session_id)
    → WakeGuarded b now (
        write_wakes dir c.recipient_session_id (
          stored (record {
            version = 1;
            recipient_session_id = c.recipient_session_id;
            claims = live_claims now claims ++ c ∷ [];
          })))
written-WakeGuarded b c now dir claims got g =
    elim (Bool-cases (str_eq c.recipient_session_id b.recipient_session_id)) [
      | inr other ↦ rw other (inr g)
      | inl here ↦ rw here (elim (Bool-cases (leb b.expires_at now)) [
        | inl old ↦ inl (ground arith)
        | inr live ↦
            let same = (str_eq_iff c.recipient_session_id b.recipient_session_id).0 here in
            inr (
              stands-append b c (live_claims now claims) (
                stands-live b now claims (ground arith) (
                  read-stands b c.recipient_session_id (dir c.recipient_session_id) claims got
                    (rw same g))))
      ])
    ]

pub claim-WakeGuarded :
    (b c : ResponseRequestBinding) (now : ℕ) (dir : WakeDir)
    → WakeGuards b (dir b.recipient_session_id)
    → WakeGuarded b now (wakes_after dir (claim_peer_wake c now dir))
unfolding claim_peer_wake claim_wake_found
claim-WakeGuarded b c now dir g = elim (Bool-cases (binding_is_valid c)) [
  | inr bad ↦ rw bad (inr g)
  | inl valid ↦
      rw valid
        (elim (Result-cases
          (read_peer_wake_ledger c.recipient_session_id (dir c.recipient_session_id))) [
            | inr (e, failed) ↦ rw failed (inr g)
            | inl (claims, got) ↦ rw got (elim (Result-cases (bound_peer_wake claims c)) [
              | inr (e, failed) ↦ rw failed (inr g)
              | inl (found, looked) ↦
                  rw looked (elim (Bool-cases (is_some found || leb c.expires_at now)) [
                    | inl late ↦ rw late (inr g)
                    | inr fresh ↦
                        rw fresh
                          (elim (Bool-cases
                            (leb max_peer_wake_claims (length (live_claims now claims)))) [
                              | inl full ↦ rw full (inr g)
                              | inr room ↦ rw room (written-WakeGuarded b c now dir claims got g)
                            ])
                  ])
            ])
          ])
]

-- The lookup of a binding that a claim stands for finds it, or throws.
bound-stands :
    (b : ResponseRequestBinding) (claims : List ResponseRequestBinding)
    (found : Option ResponseRequestBinding)
    → any_of (stands b) claims ≡ true
    → bound_peer_wake claims b ≡ ok found
    → is_some found ≡ true
unfolding bound_peer_wake
bound-stands b claims found h = elim (Option-cases (find (is_wake b.message_id) claims)) [
  | inl missing ↦ λ e. let hit = stands-find b claims h in ground arith
  | inr (r, hit) ↦ rw hit (λ e. ground arith)
]

pub guarded_wake_lost :
    (b : ResponseRequestBinding) (now : ℕ) (dir : WakeDir)
    → WakeGuarded b now dir
    → wake_won (claim_peer_wake b now dir) ≡ false
unfolding claim_peer_wake claim_wake_found
guarded_wake_lost b now dir g = elim (Bool-cases (binding_is_valid b)) [
  | inr bad ↦ rw bad refl
  | inl valid ↦
      rw valid
        (elim (Result-cases
          (read_peer_wake_ledger b.recipient_session_id (dir b.recipient_session_id))) [
            | inr (e, failed) ↦ rw failed refl
            | inl (claims, got) ↦ rw got (elim (Result-cases (bound_peer_wake claims b)) [
              | inr (e, failed) ↦ rw failed refl
              | inl (found, looked) ↦ rw looked (
                  let late : is_some found || leb b.expires_at now ≡ true = elim g [
                    | inl old ↦ ground arith
                    | inr held ↦
                        let h =
                          bound-stands b claims found
                            (read-stands b b.recipient_session_id (dir b.recipient_session_id)
                              claims got held)
                            looked in
                        ground arith
                  ] in
                  rw late refl)
            ])
          ])
]

pub won-WakeGuards :
    (b : ResponseRequestBinding) (now : ℕ) (dir : WakeDir)
    → wake_won (claim_peer_wake b now dir) ≡ true
    → WakeGuards b (wakes_after dir (claim_peer_wake b now dir) b.recipient_session_id)
unfolding claim_peer_wake claim_wake_found
won-WakeGuards b now dir = elim (Bool-cases (binding_is_valid b)) [
  | inr bad ↦ rw bad λ h. cc
  | inl valid ↦
      rw valid
        (elim (Result-cases
          (read_peer_wake_ledger b.recipient_session_id (dir b.recipient_session_id))) [
            | inr (e, failed) ↦ rw failed λ h. cc
            | inl (claims, got) ↦ rw got (elim (Result-cases (bound_peer_wake claims b)) [
              | inr (e, failed) ↦ rw failed λ h. cc
              | inl (found, looked) ↦
                  rw looked (elim (Bool-cases (is_some found || leb b.expires_at now)) [
                    | inl late ↦ rw late λ h. cc
                    | inr fresh ↦
                        rw fresh
                          (elim (Bool-cases
                            (leb max_peer_wake_claims (length (live_claims now claims)))) [
                              | inl full ↦ rw full λ h. cc
                              | inr room ↦ rw room λ h.
                                  rw (str_eq_refl b.recipient_session_id)
                                    (stands-own b (live_claims now claims))
                            ])
                  ])
            ])
          ])
]
