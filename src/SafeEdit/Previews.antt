-- ===== src/SafeEdit/Previews.antt =====
-- The map of previews over a session: how many there are, where they come from, and that one is used
-- once.
use pi_shared.Common.{
  All, List, Option, [], arith, drop, find, keep_if, leb, length, none, not, ℕ, ◌≡◌, ◌≤◌, ◌∷◌,
  All-append, All-keep_if, Bool-cases, ap, inl, inr, length-append, length-drop, length-keep_if-le,
  refl, ◌==◌,
}
use pi_shared.Common.Result.{Result, err, ok}
use pi_shared.SafeEdit.Replace.{Encoding, Replacement}
use pi_shared.SafeEdit.Files.{Platform}
use pi_shared.SafeEdit.Session.{
  Preview, SessionError, Look, Meets, Applied, prune, delete_preview, make_room, make_preview,
  store_preview, apply, apply_option, after_apply, find_preview, unknown_preview, is_fresh,
}
use pi_shared.SafeEdit.Applies.{IsMade, make_preview-IsMade}

-- What happens to the map: calls of `preview` and `apply` prune it when they begin; a preview that
-- was made is stored, and one that was applied is deleted, at some later moment; or it is cleared.
pub data SessionStep : Type 0 where
  prunes : ℕ → SessionStep
  stores : ℕ → ℕ → Look → List ℕ → List Replacement → Option (List ℕ) → SessionStep
  deletes : ℕ → SessionStep
  clears : SessionStep

module _ (enc : Encoding) (platform : Platform) (digest : List ℕ → List ℕ) where
  abbrev pub session_step : SessionStep → List Preview → List Preview
  session_step (prunes now) ps = prune now ps
  session_step (stores id now look requested edits h) ps =
      store_preview enc platform digest ps
        (make_preview enc platform digest id now look requested edits h)
  session_step (deletes id) ps = delete_preview id ps
  session_step clears ps = []

  unfoldable pub run_session : List SessionStep → List Preview → List Preview
  run_session [] ps = ps
  run_session (x ∷ xs) ps = run_session xs (session_step x ps)

  abbrev pub IsValidPreviews : List Preview → Type 0
  IsValidPreviews ps = (length ps ≤ 8) × All (IsMade enc platform digest) ps

  All-drop :
      (ps : List Preview)
      → All (IsMade enc platform digest) ps
      → All (IsMade enc platform digest) (drop 1 ps)
  All-drop [] h = h
  All-drop (p ∷ ps) h = h.1

  store-IsValid :
      (id now : ℕ) (look : Look) (requested : List ℕ) (edits : List Replacement)
      (h : Option (List ℕ)) (ps : List Preview) (r : Result SessionError Preview)
      → make_preview enc platform digest id now look requested edits h ≡ r
      → IsValidPreviews ps
      → IsValidPreviews (store_preview enc platform digest ps r)
  unfolding make_room
  store-IsValid id now look requested edits h ps (err e) made v = v
  store-IsValid id now look requested edits h ps (ok p) made v =
      elim (Bool-cases (leb 8 (length ps))) [
        | inl e ↦ rw e (
          omega (arith, length-append (drop 1 ps) (p ∷ []), length-drop 1 ps, v.0),
          All-append (IsMade enc platform digest) (drop 1 ps) (p ∷ []) (All-drop ps v.1)
              (make_preview-IsMade enc platform digest id now look requested edits h p made, tt),
        )
        | inr e ↦ rw e (
          ground (arith, e, length-append ps (p ∷ [])),
          All-append (IsMade enc platform digest) ps (p ∷ []) v.1
              (make_preview-IsMade enc platform digest id now look requested edits h p made, tt),
        )
      ]

  session_step-IsValid :
      (x : SessionStep) (ps : List Preview)
      → IsValidPreviews ps
      → IsValidPreviews (session_step x ps)
  unfolding prune delete_preview
  session_step-IsValid (prunes now) ps v = (
    omega (arith, length-keep_if-le (is_fresh now) ps, v.0),
    All-keep_if (IsMade enc platform digest) (is_fresh now) ps v.1,
  )
  session_step-IsValid (stores id now look requested edits h) ps v =
      store-IsValid id now look requested edits h ps _ refl v
  session_step-IsValid (deletes id) ps v = (
    omega (arith, length-keep_if-le (λ p. not (p.id == id)) ps, v.0),
    All-keep_if (IsMade enc platform digest) (λ p. not (p.id == id)) ps v.1,
  )
  session_step-IsValid clears ps v = (omega arith, tt)

  from_valid :
      (xs : List SessionStep) (ps : List Preview)
      → IsValidPreviews ps
      → IsValidPreviews (run_session xs ps)
  unfolding run_session
  from_valid [] ps v = v
  from_valid (x ∷ xs) ps v = from_valid xs (session_step x ps) (session_step-IsValid x ps v)

  -- However the steps of previews, applications and prunings follow each other, a session that began
  -- with no previews has at most eight, each with a text that `replaceExactly` made of the bytes
  -- with its hash.
  pub run_session-IsValid : (xs : List SessionStep) → IsValidPreviews (run_session xs [])
  run_session-IsValid xs = from_valid xs [] (omega arith, tt)

  find-delete :
      (id now : ℕ) (ps : List Preview) → find_preview id (prune now (delete_preview id ps)) ≡ none
  unfolding find_preview prune delete_preview find keep_if
  find-delete id now [] = refl
  find-delete id now (p ∷ ps) = elim (Bool-cases (p.id == id)) [
    | inl e ↦ rw e (find-delete id now ps)
    | inr e ↦ rw e (elim (Bool-cases (is_fresh now p)) [
      | inl f ↦ rw (f, e) (find-delete id now ps)
      | inr f ↦ rw f (find-delete id now ps)
    ])
  ]

  -- A preview that `apply` has used, for a write or because nothing was to change, is unknown to
  -- every later `apply` that finds the map as this one left it.
  pub apply-once :
      (id : ℕ) (h h' : List ℕ) (m m' : Meets) (previews : List Preview) (a : Applied)
      → apply enc platform digest id h m previews ≡ ok a
      → apply enc platform digest id h' m' (after_apply enc platform digest id h m previews)
        ≡ err unknown_preview
  unfolding after_apply
  apply-once id h h' m m' previews a e = rw e (
      unfold apply in
      ap (apply_option enc platform digest h' m') (find-delete id m'.now (prune m.now previews)))
