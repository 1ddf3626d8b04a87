-- ===== src/FileLock/State.antt =====
-- extensions/_shared/file-lock.ts: the lock's directory, and one attempt at the lock as the sequence
-- of its calls of the file system. Other processes may act between any two of them.
use pi_shared.Common.{
  Bool, List, Option, [], false, if◌then◌else◌, none, not, some, true, ℕ, ◌&&◌, ◌==◌, ◌∷◌, keep_if,
}

-- A file of the lock's directory: a marker `owner-<pid>-<token>.json`, the fixed `owner.json` of
-- older versions, or any other.
pub data Name : Type 0 where
  owner : ℕ → ℕ → Name
  legacy : Name
  unknown : ℕ → Name

abbrev pub name_eq : Name → Name → Bool
name_eq (owner p i) (owner q j) = p == q && i == j
name_eq legacy legacy = true
name_eq (unknown a) (unknown b) = a == b
name_eq _ _ = false

unfoldable pub has_name : Name → List Name → Bool
has_name n [] = false
has_name n (m ∷ ms) = if name_eq n m then true else has_name n ms

-- The directory at `lockPath`: its inode, on the one device that holds it, when it last changed, its
-- files.
pub record Directory : Type 0 where
  pub ino : ℕ
  pub mtime : ℕ
  pub names : List Name

unfoldable pub remove_name : Name → List Name → List Name
remove_name n names = keep_if (λ m. not (name_eq n m)) names

-- `fs.promises.unlink`; `ENOENT` is passed over by every caller.
unfoldable pub unlink : ℕ → Name → Option Directory → Option Directory
unlink now n none = none
unlink now n (some d) =
    if has_name n d.names
    then some (record { ino = d.ino; mtime = now; names = remove_name n d.names })
    else some d

-- `removeEmptyLock`: a directory that is not empty stays.
unfoldable pub remove_empty_lock : Option Directory → Option Directory
remove_empty_lock none = none
remove_empty_lock (some d) = elim d.names [ [] ↦ none | n ∷ ns ↦ some d ]

-- `names.length === 1 && names[0] === ownerName`
unfoldable pub is_sole : Name → List Name → Bool
is_sole n [] = false
is_sole n (m ∷ []) = name_eq n m
is_sole n (m ∷ k ∷ ms) = false

-- How far an attempt is: before `mkdir`; directory made; its inode pinned; marker published; inode
-- compared; the lock held; releasing: before `unlink`, before `rmdir`; over.
pub data Phase : Type 0 where
  idle : Phase
  made : Phase
  opened : ℕ → Phase
  published : ℕ → Phase
  compared : Bool → Phase
  holding : Phase
  releasing : Phase
  unlinked : Phase
  over : Phase

pub record Moved : Type 0 where
  pub directory : Option Directory
  pub phase : Phase

-- `fs.promises.mkdir(lockPath)`; `EEXIST` ends the attempt, with nothing to release.
abbrev pub make_directory : ℕ → ℕ → Option Directory → Moved
make_directory now ino none = record {
  directory = some (record { ino = ino; mtime = now; names = [] });
  phase = made;
}
make_directory now ino (some d) = record { directory = some d; phase = over }

-- `fs.promises.open` and `directory.stat` of the open handle.
abbrev pub pin_directory : Option Directory → Moved
pin_directory none = record { directory = none; phase = releasing }
pin_directory (some d) = record { directory = some d; phase = opened d.ino }

-- `fs.promises.writeFile` with the flag `wx`: into the directory that is at the path now.
abbrev pub publish : ℕ → Name → ℕ → Option Directory → Moved
publish now me before none = record { directory = none; phase = releasing }
publish now me before (some d) =
    if has_name me d.names then (record { directory = some d; phase = releasing }) else (record {
      directory = some (record { ino = d.ino; mtime = now; names = me ∷ d.names });
      phase = published before;
    })

-- `fs.promises.stat(lockPath)`
abbrev pub compare_inodes : ℕ → Option Directory → Moved
compare_inodes before none = record { directory = none; phase = releasing }
compare_inodes before (some d) = record { directory = some d; phase = compared (before == d.ino) }

-- `fs.promises.readdir(lockPath)`, and the decision whether the lock is acquired.
abbrev pub read_names : Name → Bool → Option Directory → Moved
read_names me same none = record { directory = none; phase = releasing }
read_names me same (some d) = record {
  directory = some d;
  phase = if same && is_sole me d.names then holding else releasing;
}

-- The next call of `tryAcquireLock`, and after it of `withInterprocessLock`'s `finally`, by the
-- attempt whose marker is `me`. `ino` is what the file system names a directory made now.
unfoldable pub advance : ℕ → ℕ → Name → Option Directory → Phase → Moved
advance now ino me d idle = make_directory now ino d
advance now ino me d made = pin_directory d
advance now ino me d (opened before) = publish now me before d
advance now ino me d (published before) = compare_inodes before d
advance now ino me d (compared same) = read_names me same d
advance now ino me d holding = record { directory = d; phase = releasing }
advance now ino me d releasing = record { directory = unlink now me d; phase = unlinked }
advance now ino me d unlinked = record { directory = remove_empty_lock d; phase = over }
advance now ino me d over = record { directory = d; phase = over }

-- Where an attempt goes when its next call throws an error that is not handled: to the `finally` of
-- the block it is in.
unfoldable pub throw_at : Phase → Phase
throw_at idle = over
throw_at made = releasing
throw_at (opened before) = releasing
throw_at (published before) = releasing
throw_at (compared same) = releasing
throw_at holding = releasing
throw_at releasing = over
throw_at unlinked = over
throw_at over = over
