-- ===== src/Apply/Sort.antt =====
-- sort.Slice by a text of each element, as an insertion sort. Elements of the same text, which
-- sort.Slice may leave in any order, keep theirs here.
use baaah.Prelude.{
  true, false, Str, List, [], ◌∷◌, ◌≡◌, refl, arith, Eq, count, lt_str, if◌then◌else◌, All,
}
use baaah.Prelude.Text.Laws.{lt_str_irrefl, lt_str_trans, lt_str_total}

module _ {ℓ} {A : Type ℓ} (text : A → Str) where
  place : A → List A → List A
  place a [] = a ∷ []
  place a (b ∷ l) = if lt_str (text b) (text a) then b ∷ place a l else a ∷ b ∷ l

  unfoldable pub sort : List A → List A
  unfolding place
  sort [] = []
  sort (a ∷ l) = place a (sort l)

  -- No later element has a smaller text than an earlier one.
  abbrev pub IsSorted : List A → Type 0
  IsSorted [] = Unit
  IsSorted (a ∷ l) = All (λ b. lt_str (text b) (text a) ≡ false) l × IsSorted l

  not_lt_trans : (a b c : Str) → lt_str b a ≡ false → lt_str c b ≡ false → lt_str c a ≡ false
  not_lt_trans a b c h k = ground (
    arith,
    lt_str_total a b,
    lt_str_total b c,
    lt_str_trans c a b,
    lt_str_trans c b a,
    lt_str_trans a b c,
    lt_str_trans c a a,
  )

  All-not_lt_trans :
      (a b : A) (l : List A)
      → lt_str (text b) (text a) ≡ false
      → All (λ c. lt_str (text c) (text b) ≡ false) l
      → All (λ c. lt_str (text c) (text a) ≡ false) l
  All-not_lt_trans a b [] h k = tt
  All-not_lt_trans a b (c ∷ l) h k =
      (not_lt_trans (text a) (text b) (text c) h k.0, All-not_lt_trans a b l h k.1)

  lt_asymm : (a b : Str) → lt_str a b ≡ true → lt_str b a ≡ false
  lt_asymm a b h = ground (arith, lt_str_trans a b a, lt_str_irrefl a)

  All-place :
      (b a : A) (l : List A)
      → lt_str (text a) (text b) ≡ false
      → All (λ c. lt_str (text c) (text b) ≡ false) l
      → All (λ c. lt_str (text c) (text b) ≡ false) (place a l)
  unfolding place
  All-place b a [] h k = (h, tt)
  All-place b a (c ∷ l) h k = ground (arith, All-place b a l)

  place-IsSorted : (a : A) (l : List A) → IsSorted l → IsSorted (place a l)
  unfolding place
  place-IsSorted a [] s = (tt, tt)
  place-IsSorted a (b ∷ l) s = ground (
    arith,
    place-IsSorted a l,
    All-place b a l,
    lt_asymm (text b) (text a),
    All-not_lt_trans a b l,
  )

  pub sort-IsSorted : (l : List A) → IsSorted (sort l)
  unfolding sort
  sort-IsSorted [] = tt
  sort-IsSorted (a ∷ l) = place-IsSorted a (sort l) (sort-IsSorted l)

module _ {ℓ} {A : Type ℓ} ⦃e : Eq A⦄ (text : A → Str) where
  count-place : (x a : A) (l : List A) → count x (place text a l) ≡ count x (a ∷ l)
  unfolding place
  count-place x a [] = refl
  count-place x a (b ∷ l) = ground (arith, count-place x a l)

  pub count-sort : (x : A) (l : List A) → count x (sort text l) ≡ count x l
  unfolding sort
  count-sort x [] = refl
  count-sort x (a ∷ l) = ground (arith, count-place x a (sort text l), count-sort x l)
