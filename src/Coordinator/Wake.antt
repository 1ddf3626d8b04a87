-- ===== src/Coordinator/Wake.antt =====
-- extensions/_shared/coordinator-state.ts: the ledger of the wake-ups that were attempted.
pub mod Guards
pub mod Once
use pi_shared.Common.Result.{Result, guard, err, ok, ◌>>=◌, ◌>>◌}
use pi_shared.Coordinator.Ledger.Claims.{ResponseRequestBinding, binding_is_valid}
use pi_shared.Common.{
  Bool, List, Option, String, [], any_of, false, find, if◌then◌else◌, is_some, keep_if, leb, length,
  ltb, none, not, some, str_eq, true, ℕ, ◌&&◌, ◌++◌, ◌==◌, ◌||◌, ◌∷◌,
}

pub record PeerWakeLedger : Type 0 where
  pub version : ℕ
  pub recipient_session_id : String
  pub claims : List ResponseRequestBinding

pub data WakeFile : Type 0 where
  absent unreadable : WakeFile
  stored : PeerWakeLedger → WakeFile

pub data WakeError : Type 0 where
  invalid_wake unreadable_wakes corrupt_wakes wake_mismatch wakes_full : WakeError

abbrev pub max_peer_wake_claims : ℕ
max_peer_wake_claims = 100

abbrev pub WakeDir : Type 0
WakeDir = String → WakeFile

abbrev pub write_wakes : WakeDir → String → WakeFile → WakeDir
write_wakes dir id file j = if str_eq id j then file else dir j

-- The loop over the stored claims; `ids` are the ids that it has seen.
unfoldable pub claims_are_sound : String → List String → List ResponseRequestBinding → Bool
claims_are_sound session_id ids [] = true
claims_are_sound session_id ids (item ∷ items) =
    binding_is_valid item
    && str_eq item.recipient_session_id session_id
    && not (any_of (λ id. str_eq id item.message_id) ids)
    && claims_are_sound session_id (item.message_id ∷ ids) items

unfoldable pub wakes_are_sound : String → PeerWakeLedger → Bool
unfolding claims_are_sound
wakes_are_sound session_id ledger =
    ledger.version == 1
    && str_eq ledger.recipient_session_id session_id
    && leb (length ledger.claims) max_peer_wake_claims
    && claims_are_sound session_id [] ledger.claims

unfoldable pub read_peer_wake_ledger :
    String → WakeFile → Result WakeError (List ResponseRequestBinding)
read_peer_wake_ledger session_id absent = ok []
read_peer_wake_ledger session_id unreadable = err unreadable_wakes
read_peer_wake_ledger session_id (stored ledger) =
    if wakes_are_sound session_id ledger then ok ledger.claims else err corrupt_wakes

abbrev pub is_wake : String → ResponseRequestBinding → Bool
is_wake id item = str_eq item.message_id id

abbrev pub same_wake : ResponseRequestBinding → ResponseRequestBinding → Bool
same_wake b r =
    str_eq r.sender_session_id b.sender_session_id
    && r.expires_at == b.expires_at
    && str_eq r.recipient_session_id b.recipient_session_id

check_wake :
    ResponseRequestBinding
    → Option ResponseRequestBinding
    → Result WakeError (Option ResponseRequestBinding)
check_wake b none = ok none
check_wake b (some r) = if same_wake b r then ok (some r) else err wake_mismatch

unfoldable pub bound_peer_wake :
    List ResponseRequestBinding
    → ResponseRequestBinding
    → Result WakeError (Option ResponseRequestBinding)
unfolding check_wake
bound_peer_wake claims b = check_wake b (find (is_wake b.message_id) claims)

abbrev pub live_claims : ℕ → List ResponseRequestBinding → List ResponseRequestBinding
live_claims now = keep_if (λ (item : ResponseRequestBinding). ltb now item.expires_at)

-- The part of `claimPeerWake` after the lookup. Nothing is written unless the wake is claimed.
unfoldable pub claim_wake_found :
    ResponseRequestBinding
    → ℕ
    → WakeDir
    → List ResponseRequestBinding
    → Option ResponseRequestBinding
    → Result WakeError (Bool × WakeDir)
claim_wake_found b now dir claims found =
    let kept = live_claims now claims in
    if is_some found || leb b.expires_at now
    then ok (false, dir)
    else if leb max_peer_wake_claims (length kept)
    then err wakes_full
    else ok (
      true,
      write_wakes dir b.recipient_session_id (
          stored (record {
            version = 1;
            recipient_session_id = b.recipient_session_id;
            claims = kept ++ b ∷ [];
          })),
    )

unfoldable pub claim_peer_wake :
    ResponseRequestBinding → ℕ → WakeDir → Result WakeError (Bool × WakeDir)
unfolding bound_peer_wake claim_wake_found read_peer_wake_ledger
claim_peer_wake b now dir = do
  guard (binding_is_valid b) invalid_wake
  claims ← read_peer_wake_ledger b.recipient_session_id (dir b.recipient_session_id)
  found ← bound_peer_wake claims b
  claim_wake_found b now dir claims found

unfoldable pub has_peer_wake_claim : ResponseRequestBinding → ℕ → WakeDir → Result WakeError Bool
unfolding bound_peer_wake read_peer_wake_ledger
has_peer_wake_claim b now dir = do
  guard (binding_is_valid b) invalid_wake
  claims ← read_peer_wake_ledger b.recipient_session_id (dir b.recipient_session_id)
  found ← bound_peer_wake claims b
  ok (elim found [ none ↦ false | some r ↦ ltb now r.expires_at ])
