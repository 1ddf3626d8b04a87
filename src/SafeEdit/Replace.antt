-- ===== src/SafeEdit/Replace.antt =====
-- extensions/safe-edit/state.ts: `replaceExactly`, on texts as lists of UTF-16 units.
use pi_shared.Common.{
  Bool, List, Option, [], any_of, drop, false, if◌then◌else◌, leb, length, ltb, none, some, suc,
  take, true, ℕ, ◌&&◌, ◌+◌, ◌++◌, ◌==◌, ◌||◌, ◌∷◌, not, ◌*◌,
}
use pi_shared.Common.Result.{Result, err, guard, ok, ◌>>=◌, ◌>>◌}

pub record Replacement : Type 0 where
  pub old_text : List ℕ
  pub new_text : List ℕ

pub record Span : Type 0 where
  pub start : ℕ
  pub end : ℕ
  pub text : List ℕ

pub data EditError : Type 0 where
  wrong_count : EditError
  oversized_input : EditError
  invalid_replacement : EditError
  not_exactly_once : EditError
  overlapping : EditError
  oversized_result : EditError
  invalid_unicode : EditError

-- What the code asks of `JSON.stringify` and `Buffer`: the UTF-8 size of the edits as JSON and of a
-- text, and whether a text survives encoding.
pub record Encoding : Type 0 where
  pub json_bytes : List Replacement → ℕ
  pub utf8_bytes : List ℕ → ℕ
  pub is_well_formed : List ℕ → Bool

abbrev pub max_bytes : ℕ
max_bytes = 1024 * 1024

unfoldable pub starts_with : List ℕ → List ℕ → Bool
starts_with [] ys = true
starts_with (x ∷ xs) [] = false
starts_with (x ∷ xs) (y ∷ ys) = x == y && starts_with xs ys

-- The first place at which a text is found, where `at` is the place of the list's head.
unfoldable pub find_from : List ℕ → List ℕ → ℕ → Option ℕ
find_from needle [] at = if starts_with needle [] then some at else none
find_from needle (c ∷ cs) at =
    let rest = find_from needle cs (suc at) in if starts_with needle (c ∷ cs) then some at else rest

-- `text.indexOf(needle, from)`
unfoldable pub index_of : List ℕ → List ℕ → ℕ → Option ℕ
index_of text needle from = find_from needle (drop from text) from

abbrev pub is_empty : List ℕ → Bool
is_empty [] = true
is_empty (x ∷ xs) = false

abbrev pub is_none : Option ℕ → Bool
is_none none = true
is_none (some n) = false

abbrev pub located : List ℕ → Replacement → Option ℕ → Result EditError Span
located text e none = err not_exactly_once
located text e (some at) =
    if is_none (index_of text e.old_text (suc at))
    then ok (record { start = at; end = at + length e.old_text; text = e.new_text })
    else err not_exactly_once

-- The function that `edits.map` is given.
unfoldable pub locate : List ℕ → Replacement → Result EditError Span
locate text e =
    if is_empty e.old_text || any_of (λ c. c == 0) e.new_text
    then err invalid_replacement
    else located text e (index_of text e.old_text 0)

unfoldable pub locate_all : List ℕ → List Replacement → Result EditError (List Span)
locate_all text [] = ok []
locate_all text (e ∷ es) = locate text e >>= λ s. locate_all text es >>= λ ss. ok (s ∷ ss)

-- `.sort((a,b) => a.start-b.start)`, which is stable.
unfoldable pub insert_span : Span → List Span → List Span
insert_span s [] = s ∷ []
insert_span s (t ∷ ts) = if ltb t.start s.start then t ∷ insert_span s ts else s ∷ t ∷ ts

unfoldable pub sort_spans : List Span → List Span
sort_spans [] = []
sort_spans (s ∷ ss) = insert_span s (sort_spans ss)

abbrev pub overlap_after : ℕ → List Span → Bool
overlap_after end [] = false
overlap_after end (s ∷ ss) = ltb s.start end || overlap_after s.end ss

-- Whether some span starts before the one ahead of it ends.
unfoldable pub has_overlap : List Span → Bool
has_overlap [] = false
has_overlap (s ∷ ss) = overlap_after s.end ss

-- `result.slice(0, span.start) + span.text + result.slice(span.end)`
unfoldable pub splice : Span → List ℕ → List ℕ
splice s result = take s.start result ++ (s.text ++ drop s.end result)

-- The loop over `spans.reverse()`: the last span comes first.
unfoldable pub apply_spans : List Span → List ℕ → List ℕ
apply_spans [] text = text
apply_spans (s ∷ ss) text = splice s (apply_spans ss text)

-- What `replaceExactly` does once the spans are sorted.
abbrev pub edit_spans : Encoding → List ℕ → List Span → Result EditError (List ℕ)
edit_spans enc text spans = do
  guard (not (has_overlap spans)) overlapping
  let result = apply_spans spans text
  guard (leb (enc.utf8_bytes result) max_bytes) oversized_result
  guard (enc.is_well_formed result) invalid_unicode
  ok result

unfoldable pub replace_exactly : Encoding → List ℕ → List Replacement → Result EditError (List ℕ)
replace_exactly enc text edits = do
  guard (ltb 0 (length edits) && leb (length edits) 100) wrong_count
  guard (leb (enc.json_bytes edits) max_bytes) oversized_input
  located_spans ← locate_all text edits
  edit_spans enc text (sort_spans located_spans)
