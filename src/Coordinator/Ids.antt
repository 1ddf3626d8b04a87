-- ===== src/Coordinator/Ids.antt =====
-- extensions/_shared/coordinator-state.ts: the tests on identifiers and bounded strings.
-- `crypto` and the file system name the files; here a file is named by what its path is made of.
use pi_shared.Common.{
  Bool, List, String, [], codes, false, leb, ltb, refl, suc, true, utf16_length, zero, ℕ, ◌&&◌,
  ◌==◌, ◌||◌, ◌∷◌, ◌≡◌,
}

-- `[0-9a-f]` with the flag `i`.
unfoldable pub is_hex : ℕ → Bool
is_hex c = leb b'0' c && leb c b'9' || leb b'a' c && leb c b'f' || leb b'A' c && leb c b'F'

unfoldable pub is_dash : ℕ → Bool
is_dash c = c == b'-'

-- `[1-8]` and `[89ab]`
unfoldable pub is_uuid_version : ℕ → Bool
is_uuid_version c = leb b'1' c && leb c b'8'

unfoldable pub is_uuid_variant : ℕ → Bool
is_uuid_variant c = c == b'8' || c == b'9' || c == b'a' || c == b'b' || c == b'A' || c == b'B'

-- A whole text against one class of characters for each place.
unfoldable pub fits_pattern : List (ℕ → Bool) → List ℕ → Bool
fits_pattern [] [] = true
fits_pattern [] (c ∷ cs) = false
fits_pattern (p ∷ ps) [] = false
fits_pattern (p ∷ ps) (c ∷ cs) = p c && fits_pattern ps cs

abbrev repeat : ℕ → (ℕ → Bool) → List (ℕ → Bool) → List (ℕ → Bool)
repeat zero p ps = ps
repeat (suc n) p ps = p ∷ repeat n p ps

-- `RUNTIME_ID_RE`
unfoldable pub is_runtime_id : String → Bool
unfolding fits_pattern is_hex is_dash is_uuid_version is_uuid_variant
is_runtime_id s =
    fits_pattern
      (repeat 8 is_hex (
        is_dash
        ∷ repeat 4 is_hex (
            is_dash
            ∷ is_uuid_version
            ∷ repeat 3 is_hex
                (is_dash ∷ is_uuid_variant ∷ repeat 3 is_hex (is_dash ∷ repeat 12 is_hex [])))))
      (codes s)

-- `Boolean(boundedString(value, max))`
unfoldable pub is_bounded : String → ℕ → Bool
is_bounded s limit = ltb 0 (utf16_length s) && leb (utf16_length s) limit

accepts_uuid : is_runtime_id "123e4567-e89b-42d3-a456-426614174000" ≡ true
unfolding is_runtime_id codes
accepts_uuid = refl

refuses_variant : is_runtime_id "123e4567-e89b-42d3-c456-426614174000" ≡ false
unfolding is_runtime_id codes
refuses_variant = refl
