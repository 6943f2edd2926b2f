-- ===== src/Runtime/ResourceVersion.antt =====
-- newer of pkg/runtime/cached.go, which compares resource versions.
use baaah.Prelude.{
  ℕ, zero, suc, ◌+◌, ◌-◌, ◌<◌, Bool, true, false, Option, none, some, Str, [], ◌∷◌, ◌&&◌, ◌==◌,
  nat_eq, leb, ltb, lt_str, length, ℤ, pos, negsuc, lt_int, if◌then◌else◌, ◌≡◌, ◌≢◌, refl, arith,
  All,
}
use Prim.Native.Nat.{◌*◌, ◌^◌}

abbrev pub is_digit : ℕ → Bool
is_digit c = leb b'0' c && leb c b'9'

-- The digits of strconv.Atoi: `n` is the value of those before.
parse_digits : ℕ → Str → Option ℕ
parse_digits n [] = some n
parse_digits n (c ∷ s) = if is_digit c then parse_digits (n * 10 + (c - b'0')) s else none

-- -n
abbrev pub negate : ℕ → ℤ
negate zero = pos 0
negate (suc n) = negsuc n

-- the first number that a 64-bit int does not hold
abbrev pub int_limit : ℕ
int_limit = 2 ^ 63

abbrev positive : Option ℕ → Option ℤ
positive none = none
positive (some n) = if ltb n int_limit then some (pos n) else none

abbrev negative : Option ℕ → Option ℤ
negative none = none
negative (some n) = if leb n int_limit then some (negate n) else none

-- at least one digit has to follow the sign
abbrev digits_of : Str → Option ℕ
digits_of [] = none
digits_of (c ∷ s) = parse_digits 0 (c ∷ s)

-- strconv.Atoi, on a machine with 64-bit integers
unfoldable pub atoi : Str → Option ℤ
unfolding parse_digits
atoi [] = none
atoi (c ∷ s) =
    if c == b'-'
    then negative (digits_of s)
    else if c == b'+'
    then positive (digits_of s)
    else positive (digits_of (c ∷ s))

abbrev newer_number : Option ℤ → Option ℤ → Bool
newer_number none n = true
newer_number (some o) none = false
newer_number (some o) (some n) = lt_int o n

unfoldable pub newer : Str → Str → Bool
unfolding atoi
newer old_rv new_rv =
    if length old_rv == length new_rv
    then lt_str old_rv new_rv
    else newer_number (atoi old_rv) (atoi new_rv)

-- A decimal number without a sign, and its value.
abbrev pub IsDigits : Str → Type 0
IsDigits = All (λ c. is_digit c ≡ true)

abbrev pub value_from : ℕ → Str → ℕ
value_from n [] = n
value_from n (c ∷ s) = value_from (n * 10 + (c - b'0')) s

abbrev pub value : Str → ℕ
value = value_from 0

parse_digits_lem : (n : ℕ) (s : Str) → IsDigits s → parse_digits n s ≡ some (value_from n s)
unfolding parse_digits
parse_digits_lem n [] d = refl
parse_digits_lem n (c ∷ s) d = ground (arith, parse_digits_lem (n * 10 + (c - b'0')) s)

value_from_mono :
    (m n : ℕ) (a b : Str)
    → IsDigits a
    → IsDigits b
    → length a ≡ length b
    → m < n
    → value_from m a < value_from n b
value_from_mono m n [] [] da db e h = h
value_from_mono m n (c ∷ a) (d ∷ b) da db e h =
    value_from_mono (m * 10 + (c - b'0')) (n * 10 + (d - b'0')) a b da.1 db.1 (omega arith)
      (ground arith)
value_from_mono m n _ _ da db e h = absurd (omega arith)

lt_str-value :
    (n : ℕ) (a b : Str)
    → IsDigits a
    → IsDigits b
    → length a ≡ length b
    → lt_str a b ≡ ltb (value_from n a) (value_from n b)
unfolding lt_str
lt_str-value n [] [] da db e = ground arith
lt_str-value n (c ∷ a) (d ∷ b) da db e = ground (
  arith,
  lt_str-value (n * 10 + (c - b'0')) a b,
  value_from_mono (n * 10 + (c - b'0')) (n * 10 + (d - b'0')) a b,
  value_from_mono (n * 10 + (d - b'0')) (n * 10 + (c - b'0')) b a,
)
lt_str-value n _ _ da db e = absurd (omega arith)

atoi_digits :
    (c : ℕ) (s : Str)
    → IsDigits (c ∷ s)
    → value (c ∷ s) < int_limit
    → atoi (c ∷ s) ≡ some (pos (value (c ∷ s)))
unfolding atoi
atoi_digits c s d h = ground (arith, parse_digits_lem 0 (c ∷ s) d)

-- On non-empty unsigned decimal numbers below 2^63, `newer` holds exactly if the first number is
-- less than the second, whatever the lengths of their texts.
pub newer_lem :
    (a b : Str)
    → IsDigits a
    → IsDigits b
    → a ≢ []
    → b ≢ []
    → value a < int_limit
    → value b < int_limit
    → newer a b ≡ ltb (value a) (value b)
unfolding newer
newer_lem [] b da db na nb ha hb = absurd (na refl)
newer_lem (c ∷ a) [] da db na nb ha hb = absurd (nb refl)
newer_lem (c ∷ a) (d ∷ b) da db na nb ha hb =
    ground (arith, lt_str-value 0 (c ∷ a) (d ∷ b), atoi_digits c a da ha, atoi_digits d b db hb)
