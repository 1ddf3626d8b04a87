-- ===== src/SafeEdit/Applies.antt =====
-- What the previews of a session are, whatever previews, applications and prunings come in between.
use mathlib.Core.Path.{subst}
use pi_shared.Common.{
  Bool, List, Option, arith, leb, length, none, not, some, ℕ, ◌≡◌, true, false, any_of, ltb, refl,
  suc, take, ◌&&◌, ◌==◌, ◌||◌, All, Bool-cases, [], find, if◌then◌else◌, inl, inr, ◌∷◌, All-keep_if,
  ap, sym, ◌∙◌,
}
use pi_shared.SafeEdit.Session.{
  applied, unchanged, Applied, apply, apply_option, find_preview, is_fresh, is_same_workspace,
  prune,
}
use pi_shared.Common.Result.{Result, err, ok, bind-ok, guard-ok, guard}
use pi_shared.SafeEdit.Replace.{EditError}
use pi_shared.SafeEdit.Replace.{Encoding, Replacement, replace_exactly, max_bytes}
use pi_shared.SafeEdit.Files.{
  OpenFile, Platform, ReadText, read_text, scoped_file, text_eq, is_callers, has_special_bits,
  FileError,
}
use pi_shared.SafeEdit.Session.{
  Preview, SessionError, Look, with_file_error, with_edit_error, hash_expected, make_preview,
  check_preview, Meets, apply_found, write_preview, Applied, apply, apply_option, find_preview,
  is_fresh, is_same_workspace, prune,
}

with_file_error-ok {ℓ} :
    {A : Type ℓ} (r : Result FileError A) (a : A) → with_file_error r ≡ ok a → r ≡ ok a
with_file_error-ok (ok b) a h = cc
with_file_error-ok (err e) a h = cc

with_edit_error-ok {ℓ} :
    {A : Type ℓ} (r : Result EditError A) (a : A) → with_edit_error r ≡ ok a → r ≡ ok a
with_edit_error-ok (ok b) a h = cc
with_edit_error-ok (err e) a h = cc

ok_injective {ℓ} : {E : Type 0} {A : Type ℓ} {a b : A} → ◌≡◌ {A = Result E A} (ok a) (ok b) → a ≡ b
ok_injective h = cc

text_eq-eq : (a b : List ℕ) → text_eq a b ≡ true → a ≡ b
unfolding text_eq
text_eq-eq [] [] h = refl
text_eq-eq [] (y ∷ ys) h = cc
text_eq-eq (x ∷ xs) [] h = cc
text_eq-eq (x ∷ xs) (y ∷ ys) h = ground (arith, text_eq-eq xs ys)

guard-true : {E : Type 0} (t : Bool) (e : E) → guard t e ≡ ok tt → t ≡ true
guard-true true e h = refl
guard-true false e h = cc

-- The text that is read is the bytes, decoded.
read_text-decode :
    (platform : Platform) (f : Option OpenFile) (r : ReadText)
    → read_text platform f ≡ ok r
    → r.text ≡ platform.decode r.bytes
unfolding read_text
read_text-decode platform none r h = cc
read_text-decode platform (some f) r h =
    let g1 =
      guard-ok (f.is_file && leb f.size max_bytes && f.nlink == 1) FileError.not_regular _ r h in
    let g2 =
      guard-ok (is_callers platform.getuid f.uid && not (has_special_bits f.mode))
        FileError.not_owned _ r g1.1 in
    let bytes = take (suc max_bytes) f.content in
    let g3 =
      guard-ok (not (ltb max_bytes (length bytes) || any_of (λ b. b == 0) bytes))
        FileError.oversized_or_binary _ r g2.1 in
    let g4 =
      guard-ok (text_eq (platform.encode (platform.decode bytes)) bytes) FileError.not_utf8 _ r
        g3.1 in
    let same : r ≡ record { stat = f; bytes = bytes; text = platform.decode bytes } = cc (g4.1) in
    rw same refl

else_applied :
    (b : Bool) (r : Result SessionError Applied) (file text : List ℕ)
    → (if b then ok unchanged else r) ≡ ok (applied file text)
    → r ≡ ok (applied file text)
else_applied true r file text h = cc
else_applied false r file text h = h

found_head :
    (b : Bool) (o : Option Preview) (x p : Preview)
    → b ≡ true
    → (if b then some x else o) ≡ some p
    → x ≡ p
found_head b o x p e f = ground arith

module _ (enc : Encoding) (platform : Platform) (digest : List ℕ → List ℕ) where
  -- What a preview shows comes from the bytes with its hash, by `replaceExactly`.
  pub record IsMade (p : Preview) : Type 0 where
    pub bytes : List ℕ
    pub made_by : List Replacement
    pub hashed : p.hash ≡ digest bytes
    pub decoded : p.before ≡ platform.decode bytes
    pub edited : replace_exactly enc p.before made_by ≡ ok p.after

  pub make_preview-IsMade :
      (id now : ℕ) (look : Look) (requested : List ℕ) (edits : List Replacement)
      (h : Option (List ℕ)) (p : Preview)
      → make_preview enc platform digest id now look requested edits h ≡ ok p
      → IsMade p
  unfolding make_preview
  make_preview-IsMade id now look requested edits h p e =
      let place = bind-ok (with_file_error (scoped_file look.root look.target)) _ p e in
      let r = bind-ok (with_file_error (read_text platform look.opened)) _ p place.2 in
      let g = guard-ok (hash_expected h (digest (r.0).bytes)) SessionError.stale_hash _ p r.2 in
      let a = bind-ok (with_edit_error (replace_exactly enc (r.0).text edits)) _ p g.1 in
      let read = with_file_error-ok (read_text platform look.opened) r.0 r.1 in
      let edit = with_edit_error-ok (replace_exactly enc (r.0).text edits) a.0 a.1 in
      subst IsMade (ok_injective a.2) (record {
        bytes = (r.0).bytes;
        made_by = edits;
        hashed = refl;
        decoded = read_text-decode platform look.opened r.0 read;
        edited = edit;
      })

  -- What the second look at a file must have found.
  pub record Unmoved (p : Preview) (look : Look) : Type 0 where
    pub read : ReadText
    pub opened : read_text platform look.opened ≡ ok read
    pub same_dev : read.stat.dev ≡ p.dev
    pub same_ino : read.stat.ino ≡ p.ino
    pub same_mode : read.stat.mode ≡ p.mode
    pub same_hash : digest read.bytes ≡ p.hash

  check_preview-Unmoved :
      (p : Preview) (signal : Bool) (look : Look)
      → check_preview enc platform digest p signal look ≡ ok tt
      → (signal ≡ false) × Unmoved p look
  unfolding check_preview
  check_preview-Unmoved p signal look h =
      let g1 = guard-ok (not signal) SessionError.aborted _ tt h in
      let place = bind-ok (with_file_error (scoped_file look.root look.target)) _ tt g1.1 in
      let g2 = guard-ok (text_eq (place.0).file p.file) SessionError.target_changed _ tt place.2 in
      let r = bind-ok (with_file_error (read_text platform look.opened)) _ tt g2.1 in
      let same =
        guard-true
          ((r.0).stat.dev == p.dev
            && (r.0).stat.ino == p.ino
            && (r.0).stat.mode == p.mode
            && text_eq (digest (r.0).bytes) p.hash)
          SessionError.file_changed r.2 in
      (
        ground (arith, g1.0),
        record {
          read = r.0;
          opened = with_file_error-ok (read_text platform look.opened) r.0 r.1;
          same_dev = ground (arith, same);
          same_ino = ground (arith, same);
          same_mode = ground (arith, same);
          same_hash = text_eq-eq (digest (r.0).bytes) p.hash (ground (arith, same));
        },
      )

  All-find :
      (P : Preview → Type 0) (q : Preview → Bool) (ps : List Preview) (p : Preview)
      → All P ps
      → find q ps ≡ some p
      → P p
  unfolding find
  All-find P q [] p h f = cc
  All-find P q (x ∷ ps) p h f = elim (Bool-cases (q x)) [
    | inl e ↦ subst P (found_head (q x) (find q ps) x p e f) h.0
    | inr e ↦ All-find P q ps p h.1 (ground arith)
  ]

  write_preview-applied :
      (p : Preview) (m : Meets) (file text : List ℕ)
      → write_preview enc platform digest p m ≡ ok (applied file text)
      → (m.signal_last ≡ false) × (file ≡ p.file) × (text ≡ p.after) × Unmoved p m.second
  write_preview-applied p m file text h =
      let g1 = guard-ok m.writable SessionError.not_writable _ (applied file text) h in
      let g2 = guard-ok m.temporary_written SessionError.write_failed _ (applied file text) g1.1 in
      let c =
        bind-ok (check_preview enc platform digest p m.signal_second m.second) _ (applied file text)
          g2.1 in
      let g3 = guard-ok (not m.signal_last) SessionError.aborted _ (applied file text) c.2 in
      let g4 = guard-ok m.renamed SessionError.write_failed _ (applied file text) g3.1 in
      (
        ground (arith, g3.0),
        cc (g4.1),
        cc (g4.1),
        (check_preview-Unmoved p m.signal_second m.second c.1).1,
      )

  apply_found-applied :
      (p : Preview) (m : Meets) (file text : List ℕ)
      → apply_found enc platform digest p m ≡ ok (applied file text)
      → (m.signal_last ≡ false) × (file ≡ p.file) × (text ≡ p.after) × Unmoved p m.second
  unfolding apply_found
  apply_found-applied p m file text h =
      let c =
        bind-ok (check_preview enc platform digest p m.signal_first m.first) _ (applied file text)
          h in
      write_preview-applied p m file text (
        else_applied (text_eq p.hash p.after_hash) (write_preview enc platform digest p m) file text
          c.2)

  apply_option-applied :
      (h : List ℕ) (m : Meets) (o : Option Preview) (file text : List ℕ)
      → apply_option enc platform digest h m o ≡ ok (applied file text)
      → (p : Preview) × (o ≡ some p)
        × (h ≡ p.hash)
        × (apply_found enc platform digest p m ≡ ok (applied file text))
  apply_option-applied h m none file text e = cc
  apply_option-applied h m (some p) file text e =
      let g1 =
        guard-ok (is_same_workspace m.workspace p.workspace) SessionError.unknown_preview _
          (applied file text) e in
      let g2 = guard-ok (text_eq h p.hash) SessionError.hash_mismatch _ (applied file text) g1.1 in
      (p, refl, text_eq-eq h p.hash g2.0, g2.1)

  -- If `apply` writes a text to a file, then the file that it saw last before it did holds bytes with
  -- the SHA-256 that the caller expects, the caller had not aborted, and the text is what
  -- `replaceExactly` makes of those bytes for some edits: where the previews are ones that `preview`
  -- made, and no two byte sequences have one SHA-256.
  pub apply-written :
      (id : ℕ) (hash : List ℕ) (m : Meets) (previews : List Preview) (file text : List ℕ)
      → ((a b : List ℕ) → digest a ≡ digest b → a ≡ b)
      → All IsMade previews
      → apply enc platform digest id hash m previews ≡ ok (applied file text)
      → (m.signal_last ≡ false)
        × (read : ReadText) × (read_text platform m.second.opened ≡ ok read)
        × (digest read.bytes ≡ hash)
        × (edits : List Replacement) × (replace_exactly enc read.text edits ≡ ok text)
  unfolding apply find_preview prune
  apply-written id hash m previews file text inj made e =
      let a = apply_option-applied hash m (find_preview id (prune m.now previews)) file text e in
      let mine : IsMade a.0 =
        All-find IsMade (λ p. p.id == id) (prune m.now previews) a.0
          (All-keep_if IsMade (is_fresh m.now) previews made) a.1 in
      let w = apply_found-applied a.0 m file text a.3 in
      let seen = w.3 in
      let bytes : seen.read.bytes ≡ mine.bytes =
        inj seen.read.bytes mine.bytes (seen.same_hash ∙ mine.hashed) in
      let shown : seen.read.text ≡ (a.0).before =
        read_text-decode platform m.second.opened seen.read seen.opened
        ∙ ap platform.decode bytes
        ∙ sym mine.decoded in
      (
        w.0,
        seen.read,
        seen.opened,
        seen.same_hash ∙ sym a.2,
        mine.made_by,
        rw (shown, w.2) mine.edited,
      )
