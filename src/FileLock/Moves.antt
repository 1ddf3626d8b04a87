-- ===== src/FileLock/Moves.antt =====
-- What one call of an attempt, or of a reclaimer, does to the markers in the directory.
use pi_shared.Common.{
  Bool, Option, false, none, some, true, ℕ, ◌≡◌, refl, arith, inl, ap, sym, ◌∙◌, ◌⊎◌, ◌≢◌,
}
use pi_shared.FileLock.State.{
  Directory, owner, has_name, is_sole, Phase, idle, made, opened, published, compared, holding,
  releasing, unlinked, over, advance, throw_at,
}
use pi_shared.FileLock.System.{names_of, die}
use pi_shared.FileLock.Names.{has_name-unlink-ne, has_name-unlink-le, names_of-remove_empty_lock}

-- The marker has not been written yet.
abbrev pub is_early : Phase → Bool
is_early idle = true
is_early made = true
is_early (opened n) = true
is_early _ = false

-- The marker is written and not given up.
abbrev pub is_shown : Phase → Bool
is_shown (published n) = true
is_shown (compared b) = true
is_shown holding = true
is_shown _ = false

abbrev pub is_holding : Phase → Bool
is_holding holding = true
is_holding _ = false

-- Neither before its first call nor after its last.
abbrev pub is_running : Phase → Bool
is_running idle = false
is_running over = false
is_running _ = true

module _ (now ino pid i : ℕ) where
  -- Other markers stay and none appears.
  pub advance-others :
      (d : Option Directory) (p : Phase) (q k : ℕ)
      → i ≢ k
      → has_name (owner q k) (names_of (advance now ino (owner pid i) d p).directory)
        ≡ has_name (owner q k) (names_of d)
  unfolding advance has_name
  advance-others none idle q k h = refl
  advance-others (some d) idle q k h = refl
  advance-others none made q k h = refl
  advance-others (some d) made q k h = refl
  advance-others none (opened n) q k h = refl
  advance-others (some d) (opened n) q k h = ground arith
  advance-others none (published n) q k h = refl
  advance-others (some d) (published n) q k h = refl
  advance-others none (compared b) q k h = refl
  advance-others (some d) (compared b) q k h = refl
  advance-others d holding q k h = refl
  advance-others d releasing q k h =
      has_name-unlink-ne now (owner pid i) (owner q k) d (ground arith)
  advance-others d unlinked q k h = ap (has_name (owner q k)) (names_of-remove_empty_lock d)
  advance-others d over q k h = refl

  -- The attempt's own marker appears only with its publication.
  pub advance-own :
      (d : Option Directory) (p : Phase) (q : ℕ)
      → has_name (owner q i) (names_of (advance now ino (owner pid i) d p).directory) ≡ true
      → (has_name (owner q i) (names_of d) ≡ true)
        ⊎ ((q ≡ pid) × (is_early (advance now ino (owner pid i) d p).phase ≡ false))
  unfolding advance has_name
  advance-own none idle q h = cc
  advance-own (some d) idle q h = inl h
  advance-own none made q h = inl h
  advance-own (some d) made q h = inl h
  advance-own none (opened n) q h = inl h
  advance-own (some d) (opened n) q h = ground arith
  advance-own none (published n) q h = inl h
  advance-own (some d) (published n) q h = inl h
  advance-own none (compared b) q h = inl h
  advance-own (some d) (compared b) q h = inl h
  advance-own d holding q h = inl h
  advance-own d releasing q h = inl (has_name-unlink-le now (owner pid i) (owner q i) d h)
  advance-own d unlinked q h =
      inl (sym (ap (has_name (owner q i)) (names_of-remove_empty_lock d)) ∙ h)
  advance-own d over q h = inl h

  -- While an attempt shows its marker, the marker is there.
  pub advance-shown :
      (d : Option Directory) (p : Phase)
      → (is_shown p ≡ true → has_name (owner pid i) (names_of d) ≡ true)
      → is_shown (advance now ino (owner pid i) d p).phase ≡ true
      → has_name (owner pid i) (names_of (advance now ino (owner pid i) d p).directory) ≡ true
  unfolding advance has_name
  advance-shown none idle h k = cc
  advance-shown (some d) idle h k = cc
  advance-shown none made h k = cc
  advance-shown (some d) made h k = cc
  advance-shown none (opened n) h k = cc
  advance-shown (some d) (opened n) h k = ground arith
  advance-shown none (published n) h k = cc
  advance-shown (some d) (published n) h k = h refl
  advance-shown none (compared b) h k = cc
  advance-shown (some d) (compared b) h k = h refl
  advance-shown d holding h k = cc
  advance-shown d releasing h k = cc
  advance-shown d unlinked h k = cc
  advance-shown d over h k = cc

  pub advance-late :
      (d : Option Directory) (p : Phase)
      → is_early p ≡ false
      → is_early (advance now ino (owner pid i) d p).phase ≡ false
  unfolding advance
  advance-late d idle h = cc
  advance-late d made h = cc
  advance-late d (opened n) h = cc
  advance-late none (published n) h = refl
  advance-late (some d) (published n) h = refl
  advance-late none (compared b) h = refl
  advance-late (some d) (compared b) h = ground arith
  advance-late d holding h = refl
  advance-late d releasing h = refl
  advance-late d unlinked h = refl
  advance-late d over h = refl

  -- An attempt that begins to hold the lock has found its own marker alone.
  pub advance-holding :
      (d : Option Directory) (p : Phase)
      → is_holding (advance now ino (owner pid i) d p).phase ≡ true
      → is_sole (owner pid i) (names_of d) ≡ true
  unfolding advance is_sole
  advance-holding none idle h = cc
  advance-holding (some d) idle h = cc
  advance-holding none made h = cc
  advance-holding (some d) made h = cc
  advance-holding none (opened n) h = cc
  advance-holding (some d) (opened n) h = ground arith
  advance-holding none (published n) h = cc
  advance-holding (some d) (published n) h = cc
  advance-holding none (compared b) h = cc
  advance-holding (some d) (compared b) h = ground arith
  advance-holding d holding h = cc
  advance-holding d releasing h = cc
  advance-holding d unlinked h = cc
  advance-holding d over h = cc

  pub advance-leaves :
      (d : Option Directory) (p : Phase)
      → is_holding p ≡ true
      → is_holding (advance now ino (owner pid i) d p).phase ≡ false
  unfolding advance
  advance-leaves d idle h = cc
  advance-leaves d made h = cc
  advance-leaves d (opened b) h = cc
  advance-leaves d (published b) h = cc
  advance-leaves d (compared b) h = cc
  advance-leaves d holding h = refl
  advance-leaves d releasing h = refl
  advance-leaves d unlinked h = refl
  advance-leaves d over h = refl

  -- What is over stays over.
  pub advance-over :
      (d : Option Directory) (p : Phase)
      → is_early p ≡ false
      → is_running p ≡ false
      → (is_early (advance now ino (owner pid i) d p).phase ≡ false)
        × (is_running (advance now ino (owner pid i) d p).phase ≡ false)
  unfolding advance
  advance-over d idle h k = cc
  advance-over d made h k = cc
  advance-over d (opened n) h k = cc
  advance-over d (published n) h k = cc
  advance-over d (compared b) h k = cc
  advance-over d holding h k = cc
  advance-over d releasing h k = cc
  advance-over d unlinked h k = cc
  advance-over d over h k = (refl, refl)

-- A phase that only ends things.
pub record Ends (p q : Phase) : Type 0 where
  pub shows : is_shown q ≡ true → is_shown p ≡ true
  pub late : is_early p ≡ false → is_early q ≡ false
  pub rests : is_running p ≡ false → is_running q ≡ false
  pub holds : is_holding q ≡ true → is_holding p ≡ true

pub Ends-refl : (p : Phase) → Ends p p
Ends-refl p = record { shows = λ h. h; late = λ h. h; rests = λ h. h; holds = λ h. h }

pub throw_at-Ends : (p : Phase) → Ends p (throw_at p)
unfolding throw_at
throw_at-Ends p = record {
  shows = λ h. ground arith;
  late = λ h. ground arith;
  rests = λ h. ground arith;
  holds = λ h. ground arith;
}

pub die-Ends : (p : Phase) → Ends p (die p)
die-Ends p = record {
  shows = λ h. ground arith;
  late = λ h. ground arith;
  rests = λ h. ground arith;
  holds = λ h. ground arith;
}

pub die-rests : (p : Phase) → is_running (die p) ≡ false
die-rests p = ground arith
