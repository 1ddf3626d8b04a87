-- ===== src/SafeEdit/Session.antt =====
-- extensions/safe-edit/state.ts: `SafeEditState`, the previews of a session and their application.
use pi_shared.Common.{
  Bool, List, Option, [], drop, false, find, if◌then◌else◌, keep_if, leb, length, ltb, none, not,
  some, true, ℕ, ◌&&◌, ◌*◌, ◌++◌, ◌-◌, ◌==◌, ◌∷◌,
}
use pi_shared.Common.Result.{Result, err, guard, ok, ◌>>=◌, ◌>>◌}
use pi_shared.SafeEdit.Replace.{EditError, Encoding, Replacement, replace_exactly}
use pi_shared.SafeEdit.Files.{FileError, OpenFile, Platform, read_text, scoped_file, text_eq}

-- Ten minutes.
abbrev pub ttl : ℕ
ttl = 10 * 60 * 1000

-- A preview is known by its random id.
pub record Preview : Type 0 where
  pub id : ℕ
  pub workspace : List ℕ
  pub requested_path : List ℕ
  pub file : List ℕ
  pub before : List ℕ
  pub after : List ℕ
  pub hash : List ℕ
  pub after_hash : List ℕ
  pub mode : ℕ
  pub dev : ℕ
  pub ino : ℕ
  pub created_at : ℕ

pub data SessionError : Type 0 where
  file_error : FileError → SessionError
  edit_error : EditError → SessionError
  stale_hash : SessionError
  unknown_preview : SessionError
  hash_mismatch : SessionError
  aborted : SessionError
  target_changed : SessionError
  file_changed : SessionError
  not_writable : SessionError
  write_failed : SessionError

abbrev pub with_file_error {ℓ} : {A : Type ℓ} → Result FileError A → Result SessionError A
with_file_error (ok a) = ok a
with_file_error (err e) = err (file_error e)

abbrev pub with_edit_error {ℓ} : {A : Type ℓ} → Result EditError A → Result SessionError A
with_edit_error (ok a) = ok a
with_edit_error (err e) = err (edit_error e)

abbrev pub is_fresh : ℕ → Preview → Bool
is_fresh now p = not (ltb ttl (now - p.created_at))

-- `prune`: the map keeps its order of insertion.
unfoldable pub prune : ℕ → List Preview → List Preview
prune now previews = keep_if (is_fresh now) previews

unfoldable pub delete_preview : ℕ → List Preview → List Preview
delete_preview id previews = keep_if (λ p. not (p.id == id)) previews

-- `if (this.previews.size >= 8) this.previews.delete(…first key…)`
unfoldable pub make_room : List Preview → List Preview
make_room previews = if leb 8 (length previews) then drop 1 previews else previews

-- What the code finds when it looks at a file: the two paths that `realpath` gives and the file that
-- it opens.
pub record Look : Type 0 where
  pub root : Option (List ℕ)
  pub target : Option (List ℕ)
  pub opened : Option OpenFile

abbrev pub hash_expected : Option (List ℕ) → List ℕ → Bool
hash_expected none hash = true
hash_expected (some h) hash = text_eq h hash

-- What `apply` meets: the clock, the workspace's real path, the signal and the file at the first
-- and at the second check and the signal after it, and what its calls of the file system give.
pub record Meets : Type 0 where
  pub now : ℕ
  pub workspace : Option (List ℕ)
  pub signal_first : Bool
  pub first : Look
  pub writable : Bool
  pub temporary_written : Bool
  pub signal_second : Bool
  pub second : Look
  pub signal_last : Bool
  pub renamed : Bool

pub data Applied : Type 0 where
  unchanged : Applied
  -- The file at a path has this text now.
  applied : List ℕ → List ℕ → Applied

abbrev pub is_same_workspace : Option (List ℕ) → List ℕ → Bool
is_same_workspace none w = false
is_same_workspace (some v) w = text_eq w v

unfoldable pub find_preview : ℕ → List Preview → Option Preview
find_preview id previews = find (λ p. p.id == id) previews

abbrev pub forget : ℕ → List Preview → Result SessionError Applied → List Preview
forget id previews (ok a) = delete_preview id previews
forget id previews (err e) = previews

module _ (enc : Encoding) (platform : Platform) (digest : List ℕ → List ℕ) where
  -- `preview`, up to the new entry.
  unfoldable pub make_preview :
      ℕ → ℕ → Look → List ℕ → List Replacement → Option (List ℕ) → Result SessionError Preview
  make_preview id now look requested edits expected_hash = do
    place ← with_file_error (scoped_file look.root look.target)
    read ← with_file_error (read_text platform look.opened)
    guard (hash_expected expected_hash (digest read.bytes)) stale_hash
    after ← with_edit_error (replace_exactly enc read.text edits)
    ok (record {
      id = id;
      workspace = place.root;
      requested_path = requested;
      file = place.file;
      before = read.text;
      after = after;
      hash = digest read.bytes;
      after_hash = digest (platform.encode after);
      mode = read.stat.mode;
      dev = read.stat.dev;
      ino = read.stat.ino;
      created_at = now;
    })

  abbrev pub store_preview : List Preview → Result SessionError Preview → List Preview
  store_preview previews (ok p) = make_room previews ++ (p ∷ [])
  store_preview previews (err e) = previews

  -- What `preview` leaves of the map; the id is new.
  unfoldable pub preview :
      ℕ → ℕ → ℕ → Look → List ℕ → List Replacement → Option (List ℕ) → List Preview → List Preview
  preview id now created look requested edits expected_hash previews =
      store_preview (prune now previews)
        (make_preview id created look requested edits expected_hash)

  -- `check`, at one moment.
  unfoldable pub check_preview : Preview → Bool → Look → Result SessionError (Unit {0})
  check_preview p signal look = do
    guard (not signal) aborted
    place ← with_file_error (scoped_file look.root look.target)
    guard (text_eq place.file p.file) target_changed
    read ← with_file_error (read_text platform look.opened)
    guard
        (read.stat.dev == p.dev
          && read.stat.ino == p.ino
          && read.stat.mode == p.mode
          && text_eq (digest read.bytes) p.hash)
        file_changed

  abbrev pub write_preview : Preview → Meets → Result SessionError Applied
  write_preview p m = do
    guard m.writable not_writable
    guard m.temporary_written write_failed
    check_preview p m.signal_second m.second
    guard (not m.signal_last) aborted
    guard m.renamed write_failed
    ok (applied p.file p.after)

  -- The operation that `apply` queues.
  unfoldable pub apply_found : Preview → Meets → Result SessionError Applied
  apply_found p m = do
    check_preview p m.signal_first m.first
    if text_eq p.hash p.after_hash then ok unchanged else write_preview p m

  abbrev pub apply_option : List ℕ → Meets → Option Preview → Result SessionError Applied
  apply_option expected_hash m none = err unknown_preview
  apply_option expected_hash m (some p) = do
    guard (is_same_workspace m.workspace p.workspace) unknown_preview
    guard (text_eq expected_hash p.hash) hash_mismatch
    apply_found p m

  unfoldable pub apply : ℕ → List ℕ → Meets → List Preview → Result SessionError Applied
  apply id expected_hash m previews =
      apply_option expected_hash m (find_preview id (prune m.now previews))

  -- What `apply` leaves of the map: a preview that was applied is used up.
  unfoldable pub after_apply : ℕ → List ℕ → Meets → List Preview → List Preview
  after_apply id expected_hash m previews =
      forget id (prune m.now previews) (apply id expected_hash m previews)
