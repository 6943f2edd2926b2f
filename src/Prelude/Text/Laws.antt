-- ===== src/Prelude/Text/Laws.antt =====
-- Laws of the functions on strings.
use Prim.Native.Nat.{ℕ}
use mathlib.Core.Path.{◌≡◌, refl}
use mathlib.Core.Logic.{◌≢◌, ◌⊎◌}
use mathlib.Core.Bool.{true, false}
use mathlib.Core.Option.{some}
use mathlib.Core.List.{[], ◌∷◌, ◌++◌}
use native.Mathlib.Omega.{arith}
use package.baaah.Prelude.Tests.{if◌then◌else◌}
use package.baaah.Prelude.Lists.{All}
use package.baaah.Prelude.Text.{Str, strip_prefix, cut, lt_str}

pub strip_prefix-append : (p s : Str) → strip_prefix p (p ++ s) ≡ some s
unfolding strip_prefix
strip_prefix-append [] s = refl
strip_prefix-append (c ∷ p) s = ground (arith, strip_prefix-append p s)

-- The byte does not occur.
abbrev pub Lacks : ℕ → Str → Type 0
Lacks c = All (λ d. d ≢ c)

pub cut-append : (sep : ℕ) (a b : Str) → Lacks sep a → cut sep (a ++ sep ∷ b) ≡ (a, b, true)
unfolding cut
cut-append sep [] b l = ground arith
cut-append sep (c ∷ a) b l = ground (arith, cut-append sep a b l.1)

pub cut_of_Lacks : (sep : ℕ) (a : Str) → Lacks sep a → cut sep a ≡ (a, [], false)
unfolding cut
cut_of_Lacks sep [] l = refl
cut_of_Lacks sep (c ∷ a) l = ground (arith, cut_of_Lacks sep a l.1)

-- What is cut is what stood there.
pub cut_join :
    (sep : ℕ) (s : Str)
    → s ≡ (if (cut sep s).2 then (cut sep s).0 ++ sep ∷ (cut sep s).1 else (cut sep s).0)
unfolding cut
cut_join sep [] = refl
cut_join sep (c ∷ s) = ground (arith, cut_join sep s)

pub cut-Lacks : (sep : ℕ) (s : Str) → Lacks sep (cut sep s).0
unfolding cut
cut-Lacks sep [] = tt
cut-Lacks sep (c ∷ s) = ground (arith, cut-Lacks sep s)

pub lt_str_irrefl : (a : Str) → lt_str a a ≡ false
unfolding lt_str
lt_str_irrefl [] = refl
lt_str_irrefl (c ∷ a) = ground (arith, lt_str_irrefl a)

pub lt_str_trans : (a b c : Str) → lt_str a b ≡ true → lt_str b c ≡ true → lt_str a c ≡ true
unfolding lt_str
lt_str_trans (x ∷ a) (y ∷ b) (z ∷ c) h k = ground (arith, lt_str_trans a b c)
lt_str_trans a b [] h k = ground arith
lt_str_trans a [] (z ∷ c) h k = ground arith
lt_str_trans [] (y ∷ b) (z ∷ c) h k = refl

pub lt_str_total : (a b : Str) → (lt_str a b ≡ true) ⊎ (a ≡ b) ⊎ (lt_str b a ≡ true)
unfolding lt_str
lt_str_total [] [] = ground arith
lt_str_total [] (y ∷ b) = ground arith
lt_str_total (x ∷ a) [] = ground arith
lt_str_total (x ∷ a) (y ∷ b) = ground (arith, lt_str_total a b)
