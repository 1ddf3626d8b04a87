-- ===== src/SafeEdit/Tests.antt =====
-- Replacements and previews at concrete texts, and the theorems applied there.
use mathlib.Core.List.{Permᴰ}
use pi_shared.Common.{
  All, List, [], false, length, none, refl, some, true, ℕ, ◌≡◌, ◌∷◌, map, any_of, find, keep_if,
}
use pi_shared.Common.Result.{err, ok}
use pi_shared.SafeEdit.Replace.{
  EditError, Encoding, Replacement, replace_exactly, starts_with, find_from, index_of, locate,
  locate_all, insert_span, sort_spans, has_overlap, splice, apply_spans,
}
use pi_shared.SafeEdit.Finds.{occurrences}
use pi_shared.SafeEdit.Pieces.{Piece, before, after, replace_exactly-pieces}
use pi_shared.SafeEdit.Files.{
  OpenFile, Platform, ReadText, read_text, scoped_file, text_eq, is_in_workspace,
}
use pi_shared.SafeEdit.Session.{
  Preview, unknown_preview, applied, Look, Meets, apply, after_apply, check_preview, apply_found,
  find_preview, prune,
}
use pi_shared.SafeEdit.Applies.{IsMade, apply-written}
use pi_shared.SafeEdit.Previews.{
  prunes, stores, deletes, run_session, run_session-IsValid, apply-once, IsValidPreviews,
}

-- Units take one byte each.
abbrev enc : Encoding
enc = record { json_bytes = length; utf8_bytes = length; is_well_formed = λ text. true }

abbrev platform : Platform
platform = record { decode = λ b. b; encode = λ t. t; getuid = some 501 }

abbrev digest : List ℕ → List ℕ
digest b = 7 ∷ b

digest-injective : (a b : List ℕ) → digest a ≡ digest b → a ≡ b
digest-injective a b h = cc

abbrev text : List ℕ
text = 1 ∷ 2 ∷ 3 ∷ 4 ∷ 5 ∷ []

abbrev edit : List ℕ → List ℕ → Replacement
edit a b = record { old_text = a; new_text = b }

-- The later place first.
abbrev edits : List Replacement
edits = edit (4 ∷ 5 ∷ []) [] ∷ edit (2 ∷ []) (8 ∷ 9 ∷ []) ∷ []

abbrev edited : List ℕ
edited = 1 ∷ 8 ∷ 9 ∷ 3 ∷ []

edited_test : replace_exactly enc text edits ≡ ok edited
unfolding replace_exactly locate_all locate index_of find_from starts_with any_of sort_spans
    insert_span has_overlap apply_spans splice
edited_test = refl

overlap_test :
    replace_exactly enc text (edit (2 ∷ 3 ∷ []) [] ∷ edit (3 ∷ 4 ∷ []) [] ∷ [])
    ≡ err EditError.overlapping
unfolding replace_exactly locate_all locate index_of find_from starts_with any_of sort_spans
    insert_span has_overlap
overlap_test = refl

twice_test :
    replace_exactly enc (1 ∷ 1 ∷ 1 ∷ []) (edit (1 ∷ 1 ∷ []) [] ∷ [])
    ≡ err EditError.not_exactly_once
unfolding replace_exactly locate_all locate index_of find_from starts_with any_of
twice_test = refl

replace_exactly-pieces_example :
    (ps : List Piece) × (rest : List ℕ) × (text ≡ before ps rest)
    × (edited ≡ after ps rest)
    × Permᴰ (map (λ (p : Piece). p.edit) ps) edits
    × All (λ (e : Replacement). occurrences e.old_text text ≡ 1) edits
replace_exactly-pieces_example = replace_exactly-pieces enc text edits edited edited_test

abbrev the_file : OpenFile
the_file = record {
  is_file = true;
  size = 5;
  nlink = 1;
  uid = 501;
  mode = 420;
  dev = 3;
  ino = 77;
  content = text;
}

abbrev look : Look
look = record { root = some (47 ∷ []); target = some (47 ∷ 47 ∷ 9 ∷ []); opened = some the_file }

abbrev the_preview : Preview
the_preview = record {
  id = 1;
  workspace = 47 ∷ [];
  requested_path = 9 ∷ [];
  file = 47 ∷ 47 ∷ 9 ∷ [];
  before = text;
  after = edited;
  hash = digest text;
  after_hash = digest edited;
  mode = 420;
  dev = 3;
  ino = 77;
  created_at = 1000;
}

abbrev meets : Meets
meets = record {
  now = 2000;
  workspace = some (47 ∷ []);
  signal_first = false;
  first = look;
  writable = true;
  temporary_written = true;
  signal_second = false;
  second = look;
  signal_last = false;
  renamed = true;
}

the_preview-IsMade : IsMade enc platform digest the_preview
the_preview-IsMade = record {
  bytes = text;
  made_by = edits;
  hashed = refl;
  decoded = refl;
  edited = edited_test;
}

applied_test :
    apply enc platform digest 1 (digest text) meets (the_preview ∷ [])
    ≡ ok (applied (47 ∷ 47 ∷ 9 ∷ []) edited)
unfolding apply find_preview prune find keep_if apply_found check_preview scoped_file
    is_in_workspace text_eq starts_with read_text any_of
applied_test = refl

apply-written_example :
    (meets.signal_last ≡ false)
    × (read : ReadText) × (read_text platform meets.second.opened ≡ ok read)
    × (digest read.bytes ≡ digest text)
    × (es : List Replacement) × (replace_exactly enc read.text es ≡ ok edited)
apply-written_example =
    apply-written enc platform digest 1 (digest text) meets (the_preview ∷ []) (47 ∷ 47 ∷ 9 ∷ [])
      edited digest-injective (the_preview-IsMade, tt) applied_test

run_session-IsValid_example : IsValidPreviews enc platform digest (
    run_session enc platform digest
      (stores 1 1000 look (9 ∷ []) edits none ∷ prunes 2000 ∷ deletes 2 ∷ [])
      [])
run_session-IsValid_example =
    run_session-IsValid enc platform digest
      (stores 1 1000 look (9 ∷ []) edits none ∷ prunes 2000 ∷ deletes 2 ∷ [])

apply-once_example :
    apply enc platform digest 1
      (digest text)
      meets
      (after_apply enc platform digest 1 (digest text) meets (the_preview ∷ []))
    ≡ err unknown_preview
apply-once_example =
    apply-once enc platform digest 1 (digest text) (digest text) meets meets (the_preview ∷ [])
      (applied (47 ∷ 47 ∷ 9 ∷ []) edited) applied_test
