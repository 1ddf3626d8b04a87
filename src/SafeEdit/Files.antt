-- ===== src/SafeEdit/Files.antt =====
-- extensions/safe-edit/state.ts: `scopedFile` and `readText`, which decide what file may be edited.
use pi_shared.Common.{
  Bool, List, Option, [], any_of, false, if◌then◌else◌, leb, length, ltb, none, not, some, suc,
  take, true, ℕ, ◌%◌, ◌&&◌, ◌++◌, ◌/◌, ◌==◌, ◌||◌, ◌∷◌,
}
use pi_shared.Common.Result.{Result, err, guard, ok, ◌>>◌}
use pi_shared.SafeEdit.Replace.{max_bytes, starts_with}

unfoldable pub text_eq : List ℕ → List ℕ → Bool
text_eq [] [] = true
text_eq [] (y ∷ ys) = false
text_eq (x ∷ xs) [] = false
text_eq (x ∷ xs) (y ∷ ys) = x == y && text_eq xs ys

pub data FileError : Type 0 where
  missing : FileError
  out_of_workspace : FileError
  not_regular : FileError
  not_owned : FileError
  oversized_or_binary : FileError
  not_utf8 : FileError

-- `file === root || file.startsWith(root + path.sep)`, with the separator `/`.
unfoldable pub is_in_workspace : List ℕ → List ℕ → Bool
is_in_workspace root file = text_eq file root || starts_with (root ++ (47 ∷ [])) file

pub record Scoped : Type 0 where
  pub root : List ℕ
  pub file : List ℕ

-- `scopedFile`, where `realpath` gives the two paths or fails.
unfoldable pub scoped_file : Option (List ℕ) → Option (List ℕ) → Result FileError Scoped
scoped_file none target = err missing
scoped_file (some root) none = err missing
scoped_file (some root) (some file) =
    if is_in_workspace root file
    then ok (record { root = root; file = file })
    else err out_of_workspace

-- An open file: its `stat`, and its content.
pub record OpenFile : Type 0 where
  pub is_file : Bool
  pub size : ℕ
  pub nlink : ℕ
  pub uid : ℕ
  pub mode : ℕ
  pub dev : ℕ
  pub ino : ℕ
  pub content : List ℕ

-- `Buffer`'s UTF-8 coding, and the user that runs the code, where the platform has users.
pub record Platform : Type 0 where
  pub decode : List ℕ → List ℕ
  pub encode : List ℕ → List ℕ
  pub getuid : Option ℕ

pub record ReadText : Type 0 where
  pub stat : OpenFile
  pub bytes : List ℕ
  pub text : List ℕ

abbrev pub is_callers : Option ℕ → ℕ → Bool
is_callers none uid = true
is_callers (some me) uid = uid == me

-- `stat.mode & 0o7000`
abbrev pub has_special_bits : ℕ → Bool
has_special_bits mode = not (mode / 512 % 8 == 0)

unfoldable pub read_text : Platform → Option OpenFile → Result FileError ReadText
read_text platform none = err missing
read_text platform (some f) = do
  guard (f.is_file && leb f.size max_bytes && f.nlink == 1) not_regular
  guard (is_callers platform.getuid f.uid && not (has_special_bits f.mode)) not_owned
  let bytes = take (suc max_bytes) f.content
  guard (not (ltb max_bytes (length bytes) || any_of (λ b. b == 0) bytes)) oversized_or_binary
  let text = platform.decode bytes
  guard (text_eq (platform.encode text) bytes) not_utf8
  ok (record { stat = f; bytes = bytes; text = text })
