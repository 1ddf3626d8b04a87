-- ===== src/Journal/Tests.antt =====
-- A journal that two runs write to, and the theorem applied to it.
use pi_shared.Common.{List, String, [], refl, trim, ◌∷◌, ◌≡◌}
use pi_shared.Common.Result.{err, ok}
use pi_shared.Journal.Store.{
  absent, written, identity_mismatch, JournalEntry, lookup, open_workflow_journal, parse_entries,
  parse_stored_journal, persist_all, raw_journal, read_entries, read_stored_journal,
}
use pi_shared.Journal.Replay.{last_of, open-persist_all}

abbrev entry : String → String → JournalEntry
entry key value = record { key = key; value = value; completed_at = "t" }

abbrev new : List JournalEntry
new = entry "a" "1" ∷ entry "b" "2" ∷ entry "a" "3" ∷ []

opens_test : open_workflow_journal " run " 5 "h" absent ≡ ok []
unfolding trim open_workflow_journal read_entries read_stored_journal
opens_test = refl

open-persist_all_example :
    (now : List JournalEntry) × (open_workflow_journal " run " 5 "h"
        (persist_all (trim " run ") "h" new absent)
      ≡ ok now)
    × (lookup "a" now ≡ last_of "a" new (lookup "a" []))
open-persist_all_example = open-persist_all " run " 5 "h" "a" new absent [] opens_test

other_id_test :
    open_workflow_journal "other" 5 "h" (written (raw_journal "run" "h" [])) ≡ err identity_mismatch
unfolding trim open_workflow_journal read_entries read_stored_journal parse_stored_journal
    parse_entries
other_id_test = refl
