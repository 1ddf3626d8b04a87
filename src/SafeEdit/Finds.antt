-- ===== src/SafeEdit/Finds.antt =====
-- What `indexOf` finds: where a text stands, and how often.
use pi_shared.Common.{
  Bool, List, Option, [], any_of, arith, drop, false, if◌then◌else◌, length, length-drop, none,
  some, suc, take, true, ℕ, ◌+◌, ◌==◌, ◌||◌, ◌∷◌, ◌≡◌, ◌≤◌, Bool-cases, inl, inr, refl, ap, sym,
  ◌∙◌, ◌-◌,
}
use pi_shared.Common.Result.{Result, err, ok}
use pi_shared.SafeEdit.Replace.{
  EditError, Replacement, Span, find_from, index_of, is_empty, is_none, locate, located,
  starts_with,
}
use pi_shared.SafeEdit.Slices.{slice}

-- How many places of a text another stands at.
unfoldable pub occurrences : List ℕ → List ℕ → ℕ
occurrences needle [] = if starts_with needle [] then 1 else 0
occurrences needle (c ∷ cs) =
    let rest = occurrences needle cs in if starts_with needle (c ∷ cs) then suc rest else rest

starts_with-take :
    (needle xs : List ℕ)
    → starts_with needle xs ≡ true
    → (take (length needle) xs ≡ needle) × (length needle ≤ length xs)
unfolding starts_with
starts_with-take [] xs h = (refl, omega arith)
starts_with-take (x ∷ needle) [] h = cc
starts_with-take (x ∷ needle) (y ∷ xs) h =
    let ih = starts_with-take needle xs (ground arith) in
    let e : y ≡ x = ground arith in (rw e (ap (λ l. x ∷ l) ih.0), omega (arith, ih.1))

find_from-none :
    (needle xs : List ℕ) (at : ℕ) → find_from needle xs at ≡ none → occurrences needle xs ≡ 0
unfolding find_from occurrences
find_from-none needle [] at h = ground arith
find_from-none needle (c ∷ cs) at h = ground (arith, find_from-none needle cs (suc at))

starts_with-nil : (needle : List ℕ) → is_empty needle ≡ false → starts_with needle [] ≡ false
unfolding starts_with
starts_with-nil [] h = cc
starts_with-nil (x ∷ needle) h = refl

-- The place that is found, from the head, and the occurrences from there on.
find_from-some :
    (needle xs : List ℕ) (at k : ℕ)
    → is_empty needle ≡ false
    → find_from needle xs at ≡ some k
    → (n : ℕ) × (k ≡ at + n)
      × (starts_with needle (drop n xs) ≡ true)
      × (occurrences needle xs ≡ suc (occurrences needle (drop (suc n) xs)))
unfolding find_from occurrences
find_from-some needle [] at k h f = ground (arith, starts_with-nil needle h)
find_from-some needle (c ∷ cs) at k h f = elim (Bool-cases (starts_with needle (c ∷ cs))) [
  | inl e ↦ (0, ground arith, e, rw e refl)
  | inr e ↦
      let ih = find_from-some needle cs (suc at) k h (ground arith) in
      (suc ih.0, omega (arith, ih.1), ih.2, rw e ih.3)
]

-- What it means that an edit is located at a span.
pub record LocatedAt (text : List ℕ) (e : Replacement) (s : Span) : Type 0 where
  pub old_there : slice s.start s.end text ≡ e.old_text
  pub new_there : s.text ≡ e.new_text
  pub in_order : s.start ≤ s.end
  pub inside : s.end ≤ length text
  pub once : occurrences e.old_text text ≡ 1

length-positive : (xs : List ℕ) → is_empty xs ≡ false → 1 ≤ length xs
length-positive [] h = cc
length-positive (x ∷ xs) h = omega arith

located-ok :
    (o : Option ℕ) (s t : Span)
    → (if is_none o then ok t else err EditError.not_exactly_once) ≡ ok s
    → (o ≡ none) × (s ≡ t)
located-ok none s t h = (refl, cc)
located-ok (some n) s t h = cc

found-LocatedAt :
    (text : List ℕ) (e : Replacement) (k : ℕ)
    → is_empty e.old_text ≡ false
    → index_of text e.old_text 0 ≡ some k
    → index_of text e.old_text (suc k) ≡ none
    → LocatedAt text e (record { start = k; end = k + length e.old_text; text = e.new_text })
unfolding index_of
found-LocatedAt text e k h f gone =
    let found = find_from-some e.old_text text 0 k h f in
    let place : k ≡ found.0 = omega (arith, found.1) in
    let there : starts_with e.old_text (drop k text) ≡ true = rw place found.2 in
    let whole = starts_with-take e.old_text (drop k text) there in
    let width : k + length e.old_text - k ≡ length e.old_text = omega arith in
    let later : occurrences e.old_text (drop (suc k) text) ≡ 0 =
      find_from-none e.old_text (drop (suc k) text) (suc k) gone in
    record {
      old_there = rw width whole.0;
      new_there = refl;
      in_order = omega arith;
      inside = omega (arith, whole.1, length-drop k text, length-positive e.old_text h);
      once = found.3 ∙ ap suc (rw (sym place) later);
    }

located-LocatedAt :
    (text : List ℕ) (e : Replacement) (o : Option ℕ) (s : Span)
    → is_empty e.old_text ≡ false
    → index_of text e.old_text 0 ≡ o
    → located text e o ≡ ok s
    → LocatedAt text e s
located-LocatedAt text e none s h f l = cc
located-LocatedAt text e (some k) s h f l =
    let r =
      located-ok (index_of text e.old_text (suc k)) s
        (record { start = k; end = k + length e.old_text; text = e.new_text }) l in
    rw r.1 (found-LocatedAt text e k h f r.0)

refused_or :
    (b c : Bool) (r : Result EditError Span) (s : Span)
    → (if b || c then err EditError.invalid_replacement else r) ≡ ok s
    → (b ≡ false) × (r ≡ ok s)
refused_or true c r s h = cc
refused_or false true r s h = cc
refused_or false false r s h = (refl, h)

-- An edit that `locate` accepts stands at its span, and nowhere else.
pub locate-LocatedAt :
    (text : List ℕ) (e : Replacement) (s : Span) → locate text e ≡ ok s → LocatedAt text e s
unfolding locate
locate-LocatedAt text e s h =
    let r =
      refused_or (is_empty e.old_text) (any_of (λ c. c == 0) e.new_text)
        (located text e (index_of text e.old_text 0)) s h in
    located-LocatedAt text e (index_of text e.old_text 0) s r.0 refl r.1
