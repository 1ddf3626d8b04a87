-- ===== src/FileLock/Names.antt =====
-- Which names the calls of the file system leave in the lock's directory.
use pi_shared.Common.{
  List, Option, [], false, if◌then◌else◌, none, some, true, ℕ, ◌∷◌, keep_if, ◌≡◌, refl, arith,
  Bool-cases, inl, inr, ap, sym, ◌∙◌,
}
use pi_shared.FileLock.State.{
  Directory, Name, owner, legacy, unknown, has_name, is_sole, name_eq, remove_empty_lock,
  remove_name, unlink,
}
use pi_shared.FileLock.System.{names_of}

pub name_eq-eq : (a b : Name) → name_eq a b ≡ true → a ≡ b
name_eq-eq (owner p i) (owner q j) h = ground arith
name_eq-eq (owner p i) legacy h = cc
name_eq-eq (owner p i) (unknown b) h = cc
name_eq-eq legacy (owner q j) h = cc
name_eq-eq legacy legacy h = refl
name_eq-eq legacy (unknown b) h = cc
name_eq-eq (unknown a) (owner q j) h = cc
name_eq-eq (unknown a) legacy h = cc
name_eq-eq (unknown a) (unknown b) h = ground arith

pub name_eq_refl : (a : Name) → name_eq a a ≡ true
name_eq_refl (owner p i) = ground arith
name_eq_refl legacy = refl
name_eq_refl (unknown a) = ground arith

name_eq-other : (n m k : Name) → name_eq n k ≡ true → name_eq n m ≡ false → name_eq m k ≡ false
name_eq-other n m k e h = elim (Bool-cases (name_eq m k)) [
  | inl q ↦
      let same : n ≡ m = name_eq-eq n k e ∙ sym (name_eq-eq m k q) in
      let eq : name_eq n m ≡ true = rw same (name_eq_refl m) in cc
  | inr q ↦ q
]

pub has_name-remove_name-ne :
    (n m : Name) (names : List Name)
    → name_eq n m ≡ false
    → has_name m (remove_name n names) ≡ has_name m names
unfolding has_name remove_name keep_if
has_name-remove_name-ne n m [] h = refl
has_name-remove_name-ne n m (k ∷ ks) h = elim (Bool-cases (name_eq n k)) [
  | inl e ↦ rw (e, name_eq-other n m k e h) (has_name-remove_name-ne n m ks h)
  | inr e ↦ rw e (ap (λ b. if name_eq m k then true else b) (has_name-remove_name-ne n m ks h))
]

pub has_name-remove_name-le :
    (n m : Name) (names : List Name)
    → has_name m (remove_name n names) ≡ true
    → has_name m names ≡ true
unfolding has_name remove_name keep_if
has_name-remove_name-le n m [] h = h
has_name-remove_name-le n m (k ∷ ks) h = ground (arith, has_name-remove_name-le n m ks)

pub is_sole-has_name :
    (n m : Name) (names : List Name) → is_sole n names ≡ true → has_name m names ≡ true → m ≡ n
unfolding is_sole has_name
is_sole-has_name n m [] h k = cc
is_sole-has_name n m (a ∷ []) h k = name_eq-eq m a (ground arith) ∙ sym (name_eq-eq n a h)
is_sole-has_name n m (a ∷ b ∷ ks) h k = cc

pub has_name-unlink-ne :
    (now : ℕ) (n m : Name) (d : Option Directory)
    → name_eq n m ≡ false
    → has_name m (names_of (unlink now n d)) ≡ has_name m (names_of d)
unfolding unlink
has_name-unlink-ne now n m none h = refl
has_name-unlink-ne now n m (some d) h = ground (arith, has_name-remove_name-ne n m d.names)

pub has_name-unlink-le :
    (now : ℕ) (n m : Name) (d : Option Directory)
    → has_name m (names_of (unlink now n d)) ≡ true
    → has_name m (names_of d) ≡ true
unfolding unlink
has_name-unlink-le now n m none h = h
has_name-unlink-le now n m (some d) h = ground (arith, has_name-remove_name-le n m d.names)

nil_or_same :
    (d : Directory) (names : List Name)
    → d.names ≡ names
    → names_of (elim names as (λ _. Option Directory) [ [] ↦ none | n ∷ ns ↦ some d ]) ≡ names
nil_or_same d [] h = refl
nil_or_same d (n ∷ ns) h = h

pub names_of-remove_empty_lock :
    (d : Option Directory) → names_of (remove_empty_lock d) ≡ names_of d
unfolding remove_empty_lock
names_of-remove_empty_lock none = refl
names_of-remove_empty_lock (some d) = nil_or_same d d.names refl
