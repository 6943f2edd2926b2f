-- ===== src/Prelude/Text.antt =====
-- Go's `string` as the list of its bytes, and the functions of package strings that are used.
pub mod Laws
use Prim.Native.Nat.{ℕ}
use Prim.Native.Char.{code}
use Prim.Native.String.{String}
use mathlib.Core.Bool.{Bool, true, false}
use mathlib.Core.Option.{Option, none, some}
use mathlib.Core.List.{List, [], ◌∷◌, reverse}
use package.baaah.Prelude.Tests.{if◌then◌else◌, is_some, ltb}
use package.baaah.Prelude.Equality.{◌==◌, nat_eq}

abbrev pub Str : Type 0
Str = List ℕ

-- The bytes of an ASCII literal.
abbrev pub str : String → Str
str String.[] = []
str (String.◌∷◌ c s) = code c ∷ str s

-- What follows the prefix `p` in `s`, if it is one.
unfoldable pub strip_prefix : Str → Str → Option Str
strip_prefix [] s = some s
strip_prefix (c ∷ p) [] = none
strip_prefix (c ∷ p) (d ∷ s) = if c == d then strip_prefix p s else none

-- strings.HasPrefix(s, p)
abbrev pub has_prefix : Str → Str → Bool
has_prefix s p = is_some (strip_prefix p s)

-- strings.TrimPrefix(s, p)
abbrev pub trim_prefix : Str → Str → Str
trim_prefix s p = elim (strip_prefix p s) [ none ↦ s | some rest ↦ rest ]

-- strings.TrimSuffix(s, p)
abbrev pub trim_suffix : Str → Str → Str
trim_suffix s p = elim (strip_prefix (reverse p) (reverse s)) [
  | none ↦ s
  | some rest ↦ reverse rest
]

-- strings.Cut(s, sep), for a separator of one byte: before, after, found
unfoldable pub cut : ℕ → Str → Str × Str × Bool
cut sep [] = ([], [], false)
cut sep (c ∷ s) =
    let rest = cut sep s in if c == sep then ([], s, true) else (c ∷ rest.0, rest.1, rest.2)

-- a < b on strings: by bytes
unfoldable pub lt_str : Str → Str → Bool
lt_str a [] = false
lt_str [] (d ∷ b) = true
lt_str (c ∷ a) (d ∷ b) =
    let rest = lt_str a b in if ltb c d then true else if c == d then rest else false
