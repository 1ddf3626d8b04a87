-- ===== src/SafeEdit/Pieces.antt =====
-- What a successful `replaceExactly` has done, without places in a text.
use mathlib.Core.Path.{subst}
use mathlib.Core.List.{Permᴰ}
use pi_shared.Common.{
  All, List, [], ap, arith, drop, false, length, ltb, refl, sym, take, ℕ, ◌++◌, ◌∙◌, ◌∷◌, ◌≡◌, ◌≤◌,
  Bool-cases, inl, inr, map, leb, not, ◌&&◌,
}
use pi_shared.Common.Result.{ok, bind-ok, guard-ok}
use pi_shared.SafeEdit.Replace.{
  EditError, Encoding, Replacement, Span, apply_spans, has_overlap, insert_span, locate, locate_all,
  overlap_after, replace_exactly, sort_spans, splice, edit_spans, max_bytes,
}
use pi_shared.SafeEdit.Slices.{
  append_assoc, drop-append, drop-slice, take-drop, length-take-eq, slice, take-append-le,
  take-slice, take-take,
}
use pi_shared.SafeEdit.Finds.{locate-LocatedAt, occurrences}

-- A part of a text that stays, and an edit of the part after it.
pub record Piece : Type 0 where
  pub gap : List ℕ
  pub edit : Replacement

-- The text of some pieces and what stays after them, before and after the edits.
unfoldable pub before : List Piece → List ℕ → List ℕ
before [] rest = rest
before (p ∷ ps) rest = p.gap ++ (p.edit.old_text ++ before ps rest)

unfoldable pub after : List Piece → List ℕ → List ℕ
after [] rest = rest
after (p ∷ ps) rest = p.gap ++ (p.edit.new_text ++ after ps rest)

abbrev edit_at : List ℕ → Span → Replacement
edit_at text s = record { old_text = slice s.start s.end text; new_text = s.text }

pieces : List ℕ → ℕ → List Span → List Piece
pieces text p [] = []
pieces text p (s ∷ ss) =
    record { gap = slice p s.start text; edit = edit_at text s } ∷ pieces text s.end ss

rest_after : List ℕ → ℕ → List Span → List ℕ
rest_after text p [] = drop p text
rest_after text p (s ∷ ss) = rest_after text s.end ss

abbrev Spaced : ℕ → List Span → Type 0
Spaced p [] = Unit
Spaced p (s ∷ ss) = (p ≤ s.start) × Spaced s.end ss

abbrev Fits : List ℕ → Span → Type 0
Fits text s = (s.start ≤ s.end) × (s.end ≤ length text)

drop-before :
    (text : List ℕ) (p : ℕ) (ss : List Span)
    → Spaced p ss
    → All (Fits text) ss
    → drop p text ≡ before (pieces text p ss) (rest_after text p ss)
unfolding before pieces rest_after
drop-before text p [] h k = refl
drop-before text p (s ∷ ss) h k =
    drop-slice p s.start text h.0
    ∙ ap (λ l. slice p s.start text ++ l)
        (drop-slice s.start s.end text k.0.0
          ∙ ap (λ l. slice s.start s.end text ++ l) (drop-before text s.end ss h.1 k.1))

splice-take :
    (text : List ℕ) (p : ℕ) (s : Span) (xs : List ℕ)
    → p ≤ s.start
    → Fits text s
    → splice s (take s.end text ++ xs) ≡ take p text ++ (slice p s.start text ++ (s.text ++ xs))
unfolding splice
splice-take text p s xs h k =
    let len : length (take s.end text) ≡ s.end = length-take-eq s.end text k.1 in
    let front : take s.start (take s.end text ++ xs) ≡ take p text ++ slice p s.start text =
      take-append-le s.start (take s.end text) xs (omega arith)
      ∙ take-take s.start s.end text k.0
      ∙ take-slice p s.start text h in
    rw (front, drop-append s.end (take s.end text) xs len)
      (append_assoc (take p text) (slice p s.start text) (s.text ++ xs))

apply_spans-after :
    (text : List ℕ) (p : ℕ) (ss : List Span)
    → Spaced p ss
    → All (Fits text) ss
    → apply_spans ss text ≡ take p text ++ after (pieces text p ss) (rest_after text p ss)
unfolding after pieces rest_after apply_spans
apply_spans-after text p [] h k = sym (take-drop p text)
apply_spans-after text p (s ∷ ss) h k =
    ap (splice s) (apply_spans-after text s.end ss h.1 k.1)
    ∙ splice-take text p s (after (pieces text s.end ss) (rest_after text s.end ss)) h.0 k.0

perm_refl {ℓ} : {A : Type ℓ} (xs : List A) → Permᴰ xs xs
perm_refl [] = Permᴰ.nil
perm_refl (x ∷ xs) = Permᴰ.cons refl (perm_refl xs)

map-Perm {ℓ κ} :
    {A : Type ℓ} {B : Type κ} (f : A → B) {xs ys : List A}
    → Permᴰ xs ys
    → Permᴰ (map f xs) (map f ys)
map-Perm f Permᴰ.nil = Permᴰ.nil
map-Perm f (Permᴰ.cons e p) = Permᴰ.cons (ap f e) (map-Perm f p)
map-Perm f (Permᴰ.swap d e) = Permᴰ.swap (ap f d) (ap f e)
map-Perm f (Permᴰ.trans p q) = Permᴰ.trans (map-Perm f p) (map-Perm f q)

insert_span-Perm : (s : Span) (ss : List Span) → Permᴰ (insert_span s ss) (s ∷ ss)
unfolding insert_span
insert_span-Perm s [] = perm_refl (s ∷ [])
insert_span-Perm s (t ∷ ts) = elim (Bool-cases (ltb t.start s.start)) [
  | inl e ↦ rw e (Permᴰ.trans (Permᴰ.cons refl (insert_span-Perm s ts)) (Permᴰ.swap refl refl))
  | inr e ↦ rw e (perm_refl (s ∷ t ∷ ts))
]

sort_spans-Perm : (ss : List Span) → Permᴰ (sort_spans ss) ss
unfolding sort_spans
sort_spans-Perm [] = Permᴰ.nil
sort_spans-Perm (s ∷ ss) =
    Permᴰ.trans (insert_span-Perm s (sort_spans ss)) (Permᴰ.cons refl (sort_spans-Perm ss))

All-insert_span {κ} :
    (P : Span → Type κ) (s : Span) (ss : List Span) → P s → All P ss → All P (insert_span s ss)
unfolding insert_span
All-insert_span P s [] h k = (h, k)
All-insert_span P s (t ∷ ts) h k = elim (Bool-cases (ltb t.start s.start)) [
  | inl e ↦ rw e (k.0, All-insert_span P s ts h k.1)
  | inr e ↦ rw e (h, k)
]

overlap-Spaced : (p : ℕ) (ss : List Span) → overlap_after p ss ≡ false → Spaced p ss
overlap-Spaced p [] h = tt
overlap-Spaced p (s ∷ ss) h = (ground arith, overlap-Spaced s.end ss (ground arith))

has_overlap-Spaced : (ss : List Span) → has_overlap ss ≡ false → Spaced 0 ss
unfolding has_overlap
has_overlap-Spaced [] h = tt
has_overlap-Spaced (s ∷ ss) h = (omega arith, overlap-Spaced s.end ss h)

All-sort_spans {κ} : (P : Span → Type κ) (ss : List Span) → All P ss → All P (sort_spans ss)
unfolding sort_spans
All-sort_spans P [] h = h
All-sort_spans P (s ∷ ss) h = All-insert_span P s (sort_spans ss) h.0 (All-sort_spans P ss h.1)

map-pieces :
    (text : List ℕ) (p : ℕ) (ss : List Span)
    → map (λ (q : Piece). q.edit) (pieces text p ss) ≡ map (edit_at text) ss
unfolding pieces
map-pieces text p [] = refl
map-pieces text p (s ∷ ss) = ap (λ l. edit_at text s ∷ l) (map-pieces text s.end ss)

-- What is known of the spans when every edit has been located.
located_spans :
    (text : List ℕ) (edits : List Replacement) (ss : List Span)
    → locate_all text edits ≡ ok ss
    → (map (edit_at text) ss ≡ edits)
      × All (Fits text) ss
      × All (λ (e : Replacement). occurrences e.old_text text ≡ 1) edits
unfolding locate_all
located_spans text [] ss h = let e : ss ≡ [] = cc in rw e (refl, tt, tt)
located_spans text (e ∷ es) ss h =
    let r = bind-ok (locate text e) _ ss h in
    let q = bind-ok (locate_all text es) _ ss r.2 in
    let at = locate-LocatedAt text e r.0 r.1 in
    let ih = located_spans text es q.0 q.1 in
    let same : ss ≡ r.0 ∷ q.0 = cc (q.2) in
    rw same (
      (λ i. record { old_text = at.old_there i; new_text = at.new_there i } ∷ ih.0 i),
      ((at.in_order, at.inside), ih.1),
      (at.once, ih.2),
    )

edit_spans-ok :
    (enc : Encoding) (text : List ℕ) (ss : List Span) (result : List ℕ)
    → edit_spans enc text ss ≡ ok result
    → (has_overlap ss ≡ false) × (result ≡ apply_spans ss text)
edit_spans-ok enc text ss result h =
    let g1 = guard-ok (not (has_overlap ss)) EditError.overlapping _ result h in
    let g2 =
      guard-ok (leb (enc.utf8_bytes (apply_spans ss text)) max_bytes) EditError.oversized_result _
        result g1.1 in
    let g3 =
      guard-ok (enc.is_well_formed (apply_spans ss text)) EditError.invalid_unicode _ result g2.1 in
    (ground (arith, g1.0), cc (g3.1))

-- If `replaceExactly` gives a result, the text is a sequence of parts that stay and old texts
-- between them, the result is the same parts with the new texts between them, the pairs of an old
-- and a new text are the edits in some order, and each old text stands at just one place of the
-- text.
pub replace_exactly-pieces :
    (enc : Encoding) (text : List ℕ) (edits : List Replacement) (result : List ℕ)
    → replace_exactly enc text edits ≡ ok result
    → (ps : List Piece) × (rest : List ℕ) × (text ≡ before ps rest)
      × (result ≡ after ps rest)
      × Permᴰ (map (λ (p : Piece). p.edit) ps) edits
      × All (λ (e : Replacement). occurrences e.old_text text ≡ 1) edits
unfolding replace_exactly
replace_exactly-pieces enc text edits result h =
    let g1 =
      guard-ok (ltb 0 (length edits) && leb (length edits) 100) EditError.wrong_count _ result h in
    let g2 =
      guard-ok (leb (enc.json_bytes edits) max_bytes) EditError.oversized_input _ result g1.1 in
    let l =
      bind-ok (locate_all text edits) (λ ss. edit_spans enc text (sort_spans ss)) result g2.1 in
    let ss = sort_spans l.0 in
    let done = edit_spans-ok enc text ss result l.2 in
    let known = located_spans text edits l.0 l.1 in
    let spaced = has_overlap-Spaced ss done.0 in
    let fits = All-sort_spans (Fits text) l.0 known.1 in
    let perm : Permᴰ (map (edit_at text) ss) edits =
      subst (λ es. Permᴰ (map (edit_at text) ss) es) known.0
        (map-Perm (edit_at text) (sort_spans-Perm l.0)) in
    (
      pieces text 0 ss,
      rest_after text 0 ss,
      drop-before text 0 ss spaced fits,
      done.1 ∙ apply_spans-after text 0 ss spaced fits,
      rw (map-pieces text 0 ss) perm,
      known.2,
    )
