-- ===== src/Journal/Store.antt =====
-- extensions/workflow/journal.ts: the journal of a workflow's completed steps, from which a later run
-- replays them.
use pi_shared.Common.{
  List, Option, String, [], if◌then◌else◌, leb, map, none, not, some, str_eq, trim, ℕ, ◌==◌, ◌∷◌,
}
use pi_shared.Common.Result.{Result, err, guard, ok, ◌>>=◌, ◌>>◌}

-- A value is its JSON text.
pub record JournalEntry : Type 0 where
  pub key : String
  pub value : String
  pub completed_at : String

pub record StoredJournal : Type 0 where
  pub id : String
  pub context_hash : String
  pub entries : List JournalEntry

-- The file's JSON, as far as its fields have the right types.
pub record RawEntry : Type 0 where
  pub key : Option String
  pub value : Option String
  pub completed_at : Option String

pub record RawJournal : Type 0 where
  pub version : ℕ
  pub id : Option String
  pub context_hash : Option String
  pub entries : Option (List RawEntry)

-- A journal's file: there is none, it is no JSON object, or it is one.
pub data JournalFile : Type 0 where
  absent : JournalFile
  unreadable : JournalFile
  written : RawJournal → JournalFile

pub data JournalError : Type 0 where
  unsupported : JournalError
  invalid_entry : JournalError
  identity_mismatch : JournalError
  context_mismatch : JournalError
  empty_id : JournalError
  long_id : JournalError

abbrev pub workflow_journal_version : ℕ
workflow_journal_version = 2

abbrev pub present {ℓ} : {A : Type ℓ} → Option A → JournalError → Result JournalError A
present none e = err e
present (some a) e = ok a

unfoldable pub parse_entries : List RawEntry → Result JournalError (List JournalEntry)
parse_entries [] = ok []
parse_entries (r ∷ rs) = do
  key ← present r.key invalid_entry
  completed_at ← present r.completed_at invalid_entry
  value ← present r.value invalid_entry
  entries ← parse_entries rs
  ok (record { key = key; value = value; completed_at = completed_at } ∷ entries)

unfoldable pub parse_stored_journal : RawJournal → Result JournalError StoredJournal
parse_stored_journal r = do
  guard (r.version == workflow_journal_version) unsupported
  id ← present r.id unsupported
  context_hash ← present r.context_hash unsupported
  raw_entries ← present r.entries unsupported
  entries ← parse_entries raw_entries
  ok (record { id = id; context_hash = context_hash; entries = entries })

unfoldable pub read_stored_journal : JournalFile → Result JournalError (Option StoredJournal)
read_stored_journal absent = ok none
read_stored_journal unreadable = err unsupported
read_stored_journal (written r) = parse_stored_journal r >>= λ j. ok (some j)

abbrev pub assert_journal_identity :
    String → String → StoredJournal → Result JournalError (Unit {0})
assert_journal_identity id context_hash j = do
  guard (str_eq j.id id) identity_mismatch
  guard (str_eq j.context_hash context_hash) context_mismatch

-- `map.set(entry.key, entry)`
unfoldable pub set_entry : JournalEntry → List JournalEntry → List JournalEntry
set_entry e [] = e ∷ []
set_entry e (x ∷ xs) = if str_eq x.key e.key then e ∷ xs else x ∷ set_entry e xs

-- `new Map(entries.map((entry) => [entry.key, entry]))`
unfoldable pub to_map : List JournalEntry → List JournalEntry → List JournalEntry
to_map known [] = known
to_map known (e ∷ es) = to_map (set_entry e known) es

abbrev pub stored_entries : Option StoredJournal → List JournalEntry
stored_entries none = []
stored_entries (some j) = to_map [] j.entries

abbrev pub checked :
    String → String → Option StoredJournal → Result JournalError (List JournalEntry)
checked id context_hash none = ok []
checked id context_hash (some j) =
    assert_journal_identity id context_hash j >>= λ u. ok (stored_entries (some j))

-- The entries of a file, if it is a journal of that identity.
unfoldable pub read_entries :
    String → String → JournalFile → Result JournalError (List JournalEntry)
read_entries id context_hash file =
    read_stored_journal file >>= λ stored. checked id context_hash stored

-- `openWorkflowJournal`, with the hash of its context and the UTF-8 size of its id.
unfoldable pub open_workflow_journal :
    String → ℕ → String → JournalFile → Result JournalError (List JournalEntry)
open_workflow_journal id id_bytes context_hash file = do
  guard (not (str_eq (trim id) "")) empty_id
  guard (leb id_bytes 512) long_id
  read_entries (trim id) context_hash file

abbrev pub raw_entry : JournalEntry → RawEntry
raw_entry e = record { key = some e.key; value = some e.value; completed_at = some e.completed_at }

abbrev pub raw_journal : String → String → List JournalEntry → RawJournal
raw_journal id context_hash entries = record {
  version = workflow_journal_version;
  id = some id;
  context_hash = some context_hash;
  entries = some (map raw_entry entries);
}

-- `persistWorkflowJournalEntry`, under the journal's lock: what is written.
unfoldable pub persist_workflow_journal_entry :
    String → String → JournalEntry → JournalFile → Result JournalError JournalFile
persist_workflow_journal_entry id context_hash e file =
    read_entries id context_hash file >>= λ entries.
    ok (written (raw_journal id context_hash (set_entry e entries)))

-- An error leaves the file as it was.
abbrev pub file_after : JournalFile → Result JournalError JournalFile → JournalFile
file_after file (ok f) = f
file_after file (err e) = file

-- Runs of one workflow persist entries, one after another.
unfoldable pub persist_all : String → String → List JournalEntry → JournalFile → JournalFile
persist_all id context_hash [] file = file
persist_all id context_hash (e ∷ es) file =
    persist_all id context_hash es
      (file_after file (persist_workflow_journal_entry id context_hash e file))

unfoldable pub lookup : String → List JournalEntry → Option JournalEntry
lookup key [] = none
lookup key (e ∷ es) = if str_eq e.key key then some e else lookup key es
