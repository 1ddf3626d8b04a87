-- ===== src/SafeEdit/Slices.antt =====
-- Parts of a list between two places.
use pi_shared.Common.{
  List, [], ap, arith, drop, length, refl, suc, sym, take, zero, ℕ, ◌+◌, ◌++◌, ◌-◌, ◌≤◌, ◌∙◌, ◌∷◌,
  ◌≡◌,
}

module _ {ℓ} {A : Type ℓ} where
  -- `xs.slice(a, b)`
  abbrev pub slice : ℕ → ℕ → List A → List A
  slice a b xs = take (b - a) (drop a xs)

  pub append_assoc : (xs ys zs : List A) → (xs ++ ys) ++ zs ≡ xs ++ (ys ++ zs)
  append_assoc [] ys zs = refl
  append_assoc (x ∷ xs) ys zs = ap (λ l. x ∷ l) (append_assoc xs ys zs)

  pub take-drop : (n : ℕ) (xs : List A) → take n xs ++ drop n xs ≡ xs
  take-drop zero xs = refl
  take-drop (suc n) [] = refl
  take-drop (suc n) (x ∷ xs) = ap (λ l. x ∷ l) (take-drop n xs)

  drop-nil : (n : ℕ) → drop {A = A} n [] ≡ []
  drop-nil zero = refl
  drop-nil (suc n) = refl

  take-nil : (n : ℕ) → take {A = A} n [] ≡ []
  take-nil zero = refl
  take-nil (suc n) = refl

  pub drop-drop : (p n : ℕ) (xs : List A) → drop n (drop p xs) ≡ drop (p + n) xs
  drop-drop zero n xs = let e : n ≡ 0 + n = omega arith in ap (λ m. drop m xs) e
  drop-drop (suc p) n [] = drop-nil n ∙ sym (drop-nil (suc p + n))
  drop-drop (suc p) n (x ∷ xs) =
      let e : suc p + n ≡ suc (p + n) = omega arith in rw e (drop-drop p n xs)

  take-add : (p n : ℕ) (xs : List A) → take (p + n) xs ≡ take p xs ++ take n (drop p xs)
  take-add zero n xs = let e : 0 + n ≡ n = omega arith in ap (λ m. take m xs) e
  take-add (suc p) n [] = take-nil (suc p + n) ∙ sym (take-nil n)
  take-add (suc p) n (x ∷ xs) =
      let e : suc p + n ≡ suc (p + n) = omega arith in rw e (ap (λ l. x ∷ l) (take-add p n xs))

  pub take-take : (n m : ℕ) (xs : List A) → n ≤ m → take n (take m xs) ≡ take n xs
  take-take zero m xs h = refl
  take-take (suc n) zero xs h = absurd (omega arith)
  take-take (suc n) (suc m) [] h = refl
  take-take (suc n) (suc m) (x ∷ xs) h = ap (λ l. x ∷ l) (take-take n m xs (omega arith))

  pub take-append-le : (n : ℕ) (xs ys : List A) → n ≤ length xs → take n (xs ++ ys) ≡ take n xs
  take-append-le zero xs ys h = refl
  take-append-le (suc n) [] ys h = absurd (omega arith)
  take-append-le (suc n) (x ∷ xs) ys h = ap (λ l. x ∷ l) (take-append-le n xs ys (omega arith))

  pub drop-append : (n : ℕ) (xs ys : List A) → length xs ≡ n → drop n (xs ++ ys) ≡ ys
  drop-append zero [] ys h = refl
  drop-append zero (x ∷ xs) ys h = absurd (omega arith)
  drop-append (suc n) [] ys h = absurd (omega arith)
  drop-append (suc n) (x ∷ xs) ys h = drop-append n xs ys (omega arith)

  pub length-take-eq : (n : ℕ) (xs : List A) → n ≤ length xs → length (take n xs) ≡ n
  length-take-eq zero xs h = refl
  length-take-eq (suc n) [] h = absurd (omega arith)
  length-take-eq (suc n) (x ∷ xs) h = omega (arith, length-take-eq n xs)

  -- What is left from `p` is the part up to `q` and what is left from there.
  pub drop-slice : (p q : ℕ) (xs : List A) → p ≤ q → drop p xs ≡ slice p q xs ++ drop q xs
  drop-slice p q xs h =
      let e : p + (q - p) ≡ q = omega arith in
      sym (take-drop (q - p) (drop p xs))
      ∙ ap (λ l. slice p q xs ++ l) (drop-drop p (q - p) xs ∙ ap (λ n. drop n xs) e)

  pub take-slice : (p q : ℕ) (xs : List A) → p ≤ q → take q xs ≡ take p xs ++ slice p q xs
  take-slice p q xs h =
      let e : q ≡ p + (q - p) = omega arith in ap (λ n. take n xs) e ∙ take-add p (q - p) xs
