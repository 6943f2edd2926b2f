-- ===== src/Name.antt =====
-- pkg/name/name.go: names made of parts, cut where they would be too long. `digest` is the hexadecimal
-- SHA-256 of a text.
pub mod Laws
mod Tests
use baaah.Prelude.{
  ℕ, zero, suc, ◌-◌, Bool, true, false, ◌&&◌, ◌||◌, Option, none, some, Str, str, List, [], ◌∷◌,
  ◌++◌, leb, ltb, length, if◌then◌else◌,
}

-- strings.Join(name, sep)
abbrev pub continued : Str → List Str → Str
continued sep [] = []
continued sep (s ∷ ss) = sep ++ (s ++ continued sep ss)

abbrev pub join : Str → List Str → Str
join sep [] = []
join sep (s ∷ ss) = s ++ continued sep ss

-- s[0:n], for an n of at most len(s)
abbrev pub take : ℕ → Str → Str
take zero s = []
take (suc n) [] = []
take (suc n) (c ∷ s) = c ∷ take n s

-- 'a' <= s[n] && s[n] <= 'z' || '0' <= s[n] && s[n] <= '9', for an n below len(s)
abbrev pub is_alphanumeric_at : ℕ → Str → Bool
is_alphanumeric_at n [] = false
is_alphanumeric_at zero (c ∷ s) = leb b'a' c && leb c b'z' || leb b'0' c && leb c b'9'
is_alphanumeric_at (suc n) (c ∷ s) = is_alphanumeric_at n s

module _ (digest : Str → Str) where
  -- past the test that the path is too long
  abbrev pub shorten : ℕ → Str → Str → Str
  shorten len sep full_path =
      if is_alphanumeric_at (len - 8) full_path
      then take (len - 7) full_path ++ (sep ++ take 5 (digest full_path))
      else take (len - 8) full_path ++ (sep ++ take 6 (digest full_path))

  -- SafeConcatNameWithSeparatorAndLength; none where fullPath[length-8] panics
  unfoldable pub safe_concat_name_with_separator_and_length : ℕ → Str → List Str → Option Str
  safe_concat_name_with_separator_and_length len sep name =
      let full_path = join sep name in
      if ltb (length full_path) len
      then some full_path
      else if ltb len 8
      then none
      else some (shorten len sep full_path)

  -- SafeConcatName
  unfoldable pub safe_concat_name : List Str → Option Str
  unfolding safe_concat_name_with_separator_and_length
  safe_concat_name = safe_concat_name_with_separator_and_length 64 (str "-")

  -- what SafeHashConcatName writes to the digest
  abbrev pub terminated : List Str → Str
  terminated [] = []
  terminated (s ∷ ss) = s ++ 0 ∷ terminated ss

  -- SafeHashConcatName
  unfoldable pub safe_hash_concat_name : List Str → Option Str
  unfolding safe_concat_name
  safe_hash_concat_name name = safe_concat_name (name ++ take 8 (digest (terminated name)) ∷ [])
