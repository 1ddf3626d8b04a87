-- ===== src/Journal/Replay.antt =====
-- A later run finds what the runs before it have persisted.
use mathlib.Core.Path.{subst}
use pi_shared.Common.{
  ℕ, trim, leb, not, List, Option, String, [], arith, false, if◌then◌else◌, map, none, refl, some,
  str_eq, str_eq_iff, str_eq_refl, true, ◌∷◌, ◌≡◌, ◌∙◌, ap, sym, Bool-cases, inl, inr,
}
use pi_shared.Common.Result.{bind-ok, guard-ok, ok}
use pi_shared.Journal.Store.{
  assert_journal_identity, open_workflow_journal, JournalEntry, JournalError, JournalFile, written,
  file_after, lookup, parse_entries, parse_stored_journal, persist_all,
  persist_workflow_journal_entry, raw_entry, raw_journal, read_entries, read_stored_journal,
  set_entry, to_map, checked, StoredJournal,
}

-- The last of some entries with a key, or what there was before.
unfoldable pub last_of : String → List JournalEntry → Option JournalEntry → Option JournalEntry
last_of key [] known = known
last_of key (e ∷ es) known = last_of key es (if str_eq e.key key then some e else known)

-- Keys do not repeat.
abbrev Distinct : List JournalEntry → Type 0
Distinct [] = Unit
Distinct (e ∷ es) = (lookup e.key es ≡ none) × Distinct es

key_swap : (a b k : String) → str_eq a b ≡ true → str_eq a k ≡ str_eq b k
key_swap a b k h = ap (λ s. str_eq s k) ((str_eq_iff a b).0 h)

key_other : (a b k : String) → str_eq a b ≡ false → str_eq b k ≡ true → str_eq a k ≡ false
key_other a b k h e = sym (ap (str_eq a) ((str_eq_iff b k).0 e)) ∙ h

key_sym : (a b : String) → str_eq a b ≡ false → str_eq b a ≡ false
key_sym a b h = elim (Bool-cases (str_eq b a)) [
  | inl e ↦ let same : str_eq a b ≡ true = rw ((str_eq_iff b a).0 e) (str_eq_refl a) in cc
  | inr e ↦ e
]

lookup-set_entry :
    (key : String) (e : JournalEntry) (es : List JournalEntry)
    → lookup key (set_entry e es) ≡ (if str_eq e.key key then some e else lookup key es)
unfolding lookup set_entry
lookup-set_entry key e [] = refl
lookup-set_entry key e (x ∷ xs) = elim (Bool-cases (str_eq x.key e.key)) [
  | inl h ↦ rw h (ground (arith, key_swap x.key e.key key h))
  | inr h ↦ rw h (elim (Bool-cases (str_eq e.key key)) [
    | inl k ↦ ground (arith, key_other x.key e.key key h k, lookup-set_entry key e xs)
    | inr k ↦ ground (arith, lookup-set_entry key e xs)
  ])
]

set_entry-Distinct :
    (e : JournalEntry) (es : List JournalEntry) → Distinct es → Distinct (set_entry e es)
unfolding set_entry lookup
set_entry-Distinct e [] d = (refl, tt)
set_entry-Distinct e (x ∷ xs) d = elim (Bool-cases (str_eq x.key e.key)) [
  | inl h ↦ rw h (ap (λ k. lookup k xs) (sym ((str_eq_iff x.key e.key).0 h)) ∙ d.0, d.1)
  | inr h ↦
      let fresh : lookup x.key (set_entry e xs) ≡ none =
        lookup-set_entry x.key e xs
        ∙ ap (λ b. if b then some e else lookup x.key xs) (key_sym x.key e.key h)
        ∙ d.0 in
      rw h (fresh, set_entry-Distinct e xs d.1)
]

to_map-Distinct : (known es : List JournalEntry) → Distinct known → Distinct (to_map known es)
unfolding to_map
to_map-Distinct known [] d = d
to_map-Distinct known (e ∷ es) d =
    to_map-Distinct (set_entry e known) es (set_entry-Distinct e known d)

lookup-to_map :
    (key : String) (known es : List JournalEntry)
    → lookup key (to_map known es) ≡ last_of key es (lookup key known)
unfolding to_map last_of
lookup-to_map key known [] = refl
lookup-to_map key known (e ∷ es) =
    lookup-to_map key (set_entry e known) es ∙ ap (last_of key es) (lookup-set_entry key e known)

abbrev or_known : Option JournalEntry → Option JournalEntry → Option JournalEntry
or_known none known = known
or_known (some e) known = some e

last_of-Distinct :
    (key : String) (es : List JournalEntry) (known : Option JournalEntry)
    → Distinct es
    → last_of key es known ≡ or_known (lookup key es) known
unfolding last_of lookup
last_of-Distinct key [] known d = refl
last_of-Distinct key (e ∷ es) known d = elim (Bool-cases (str_eq e.key key)) [
  | inl h ↦
      let gone : lookup key es ≡ none =
        ap (λ k. lookup k es) (sym ((str_eq_iff e.key key).0 h)) ∙ d.0 in
      rw h (last_of-Distinct key es (some e) d.1 ∙ ap (λ o. or_known o (some e)) gone)
  | inr h ↦ rw h (last_of-Distinct key es known d.1)
]

or_known-none : (o : Option JournalEntry) → or_known o none ≡ o
or_known-none none = refl
or_known-none (some e) = refl

parse_entries-raw : (es : List JournalEntry) → parse_entries (map raw_entry es) ≡ ok es
unfolding parse_entries
parse_entries-raw [] = refl
parse_entries-raw (e ∷ es) = rw (parse_entries-raw es) refl

-- What was written is read again.
read-written :
    (id h : String) (es : List JournalEntry)
    → read_entries id h (written (raw_journal id h es)) ≡ ok (to_map [] es)
unfolding read_entries read_stored_journal parse_stored_journal
read-written id h es = rw (parse_entries-raw es, str_eq_refl id, str_eq_refl h) refl

checked-Distinct :
    (id h : String) (o : Option StoredJournal) (es : List JournalEntry)
    → checked id h o ≡ ok es
    → Distinct es
checked-Distinct id h none es e = let same : [] ≡ es = cc in subst Distinct same tt
checked-Distinct id h (some j) es e =
    let b = bind-ok (assert_journal_identity id h j) (λ u. ok (to_map [] j.entries)) es e in
    let same : to_map [] j.entries ≡ es = cc (b.2) in
    subst Distinct same (to_map-Distinct [] j.entries tt)

read_entries-Distinct :
    (id h : String) (f : JournalFile) (es : List JournalEntry)
    → read_entries id h f ≡ ok es
    → Distinct es
unfolding read_entries
read_entries-Distinct id h f es e =
    let b = bind-ok (read_stored_journal f) (λ o. checked id h o) es e in
    checked-Distinct id h b.0 es b.2

-- The file after one entry, and what it holds.
lookup-persisted :
    (key : String) (e : JournalEntry) (es : List JournalEntry)
    → Distinct es
    → lookup key (to_map [] (set_entry e es)) ≡ (if str_eq e.key key then some e else lookup key es)
unfolding lookup
lookup-persisted key e es d =
    lookup-to_map key [] (set_entry e es)
    ∙ last_of-Distinct key (set_entry e es) none (set_entry-Distinct e es d)
    ∙ or_known-none (lookup key (set_entry e es))
    ∙ lookup-set_entry key e es

persist-file :
    (id h : String) (e : JournalEntry) (f : JournalFile) (es : List JournalEntry)
    → read_entries id h f ≡ ok es
    → file_after f (persist_workflow_journal_entry id h e f)
      ≡ written (raw_journal id h (set_entry e es))
unfolding persist_workflow_journal_entry
persist-file id h e f es r = rw r refl

read-persist_all :
    (id h key : String) (new : List JournalEntry) (f : JournalFile) (es : List JournalEntry)
    → read_entries id h f ≡ ok es
    → (now : List JournalEntry) × (read_entries id h (persist_all id h new f) ≡ ok now)
      × (lookup key now ≡ last_of key new (lookup key es))
unfolding persist_all last_of
read-persist_all id h key [] f es r = (es, r, refl)
read-persist_all id h key (e ∷ new) f es r =
    let d = read_entries-Distinct id h f es r in
    let again : read_entries id h (file_after f (persist_workflow_journal_entry id h e f))
        ≡ ok (to_map [] (set_entry e es)) =
      ap (read_entries id h) (persist-file id h e f es r) ∙ read-written id h (set_entry e es) in
    let rest =
      read-persist_all id h key new (file_after f (persist_workflow_journal_entry id h e f))
        (to_map [] (set_entry e es)) again in
    (rest.0, rest.1, rest.2 ∙ ap (last_of key new) (lookup-persisted key e es d))

-- If a workflow opens its journal and entries are persisted for it, by this run or others of the
-- same workflow, then a later run opens it too, and finds under each key the last of those entries
-- with the key, or, if there is none, what the first run found.
pub open-persist_all :
    (id : String) (id_bytes : ℕ) (context_hash key : String) (new : List JournalEntry)
    (file : JournalFile) (es : List JournalEntry)
    → open_workflow_journal id id_bytes context_hash file ≡ ok es
    → (now : List JournalEntry) × (open_workflow_journal id id_bytes context_hash
          (persist_all (trim id) context_hash new file)
        ≡ ok now)
      × (lookup key now ≡ last_of key new (lookup key es))
unfolding open_workflow_journal
open-persist_all id id_bytes context_hash key new file es h =
    let g1 = guard-ok (not (str_eq (trim id) "")) JournalError.empty_id _ es h in
    let g2 = guard-ok (leb id_bytes 512) JournalError.long_id _ es g1.1 in
    let r = read-persist_all (trim id) context_hash key new file es g2.1 in
    (r.0, rw (g1.0, g2.0) r.1, r.2)
