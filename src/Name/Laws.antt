-- ===== src/Name/Laws.antt =====
-- A name is always shorter than its limit.
use baaah.Prelude.{
  ℕ, zero, suc, ◌+◌, ◌-◌, ◌≤◌, ◌<◌, some, Str, str, List, [], ◌∷◌, ◌++◌, ◌≡◌, refl, arith, ltb,
  length, length-append, Bool-cases, inl, inr,
}
use baaah.Name.{
  join, take, terminated, shorten, safe_concat_name_with_separator_and_length,
  safe_hash_concat_name,
}

length-take : (n : ℕ) (s : Str) → length (take n s) ≤ n
length-take zero s = ground arith
length-take (suc n) [] = ground arith
length-take (suc n) (c ∷ s) = ground (arith, length-take n s)

-- The head, the separator and the digest of a name that is cut.
length-cut :
    (m n : ℕ) (sep s t : Str) → length sep ≤ 1 → length (take m s ++ (sep ++ take n t)) ≤ m + n + 1
length-cut m n sep s t h = ground (
  arith,
  length-append (take m s) (sep ++ take n t),
  length-append sep (take n t),
  length-take m s,
  length-take n t,
)

module _ (digest : Str → Str) where
  length-shorten :
      (len : ℕ) (sep s : Str) → 8 ≤ len → length sep ≤ 1 → length (shorten digest len sep s) < len
  length-shorten len sep s l h =
      ground (
        arith,
        length-cut (len - 7) 5 sep s (digest s) h,
        length-cut (len - 8) 6 sep s (digest s) h,
      )

  -- With a limit of at least 8 and a separator of at most one byte, a name is made without a panic
  -- and is shorter than the limit, whatever its parts and the digest are.
  pub length-safe_concat_name_with_separator_and_length :
      (len : ℕ) (sep : Str) (name : List Str)
      → 8 ≤ len
      → length sep ≤ 1
      → (s : Str) × (safe_concat_name_with_separator_and_length digest len sep name ≡ some s)
        × (length s < len)
  unfolding safe_concat_name_with_separator_and_length
  length-safe_concat_name_with_separator_and_length len sep name l h =
      elim (Bool-cases (ltb (length (join sep name)) len)) [
        | inl e ↦ (join sep name, rw e refl, ground arith)
        | inr e ↦ (
          shorten digest len sep (join sep name),
          ground arith,
          length-shorten len sep (join sep name) l h,
        )
      ]

  pub length-safe_hash_concat_name :
      (name : List Str) → (s : Str) × (safe_hash_concat_name digest name ≡ some s) × (length s < 64)
  unfolding safe_hash_concat_name
  length-safe_hash_concat_name name =
      length-safe_concat_name_with_separator_and_length 64 (str "-")
        (name ++ take 8 (digest (terminated digest name)) ∷ []) (omega arith) (omega arith)
