-- ===== src/Prelude/Map.antt =====
-- Go's `map[K]V` as an association list. The order of the entries stands for the order, unspecified
-- in Go, in which a `range` loop visits them.
use mathlib.Core.Path.{◌≡◌, refl}
use mathlib.Core.Option.{Option, none, some}
use mathlib.Core.List.{List, [], ◌∷◌}
use native.Mathlib.Omega.{arith}
use package.baaah.Prelude.Tests.{if◌then◌else◌}
use package.baaah.Prelude.Equality.{Eq, ◌==◌, eq_iff}

abbrev pub Map {ℓ κ} : Type ℓ → Type κ → Type (ℓ ⊔ κ)
Map K V = List (K × V)

module _ {ℓ κ} {K : Type ℓ} {V : Type κ} ⦃e : Eq K⦄ where
  -- v, ok := m[k]
  unfoldable pub get : K → Map K V → Option V
  get k [] = none
  get k ((j, v) ∷ m) = if j == k then some v else get k m

  -- m[k] = v
  unfoldable pub insert : K → V → Map K V → Map K V
  insert k v [] = (k, v) ∷ []
  insert k v ((j, w) ∷ m) = if j == k then (k, v) ∷ m else (j, w) ∷ insert k v m

  -- delete(m, k)
  unfoldable pub delete : K → Map K V → Map K V
  delete k [] = []
  delete k ((j, v) ∷ m) = let rest = delete k m in if j == k then rest else (j, v) ∷ rest

  pub get-insert :
      (k j : K) (v : V) (m : Map K V) → get j (insert k v m) ≡ (if k == j then some v else get j m)
  unfolding get insert
  get-insert k j v [] = refl
  get-insert k j v ((i, w) ∷ m) =
      ground (arith, eq_iff k j, eq_iff i k, eq_iff i j, get-insert k j v m)

  pub get-delete : (k j : K) (m : Map K V) → get j (delete k m) ≡ (if k == j then none else get j m)
  unfolding get delete
  get-delete k j [] = ground arith
  get-delete k j ((i, w) ∷ m) = ground (arith, eq_iff k j, eq_iff i k, eq_iff i j, get-delete k j m)

  -- No key stands twice, as in every Go map.
  abbrev pub Distinct : Map K V → Type (ℓ ⊔ κ)
  Distinct [] = Unit
  Distinct ((k, v) ∷ m) = (get k m ≡ none) × Distinct m

  pub Distinct-insert : (k : K) (v : V) (m : Map K V) → Distinct m → Distinct (insert k v m)
  unfolding insert get
  Distinct-insert k v [] d = (refl, tt)
  Distinct-insert k v ((j, w) ∷ m) d =
      ground (arith, eq_iff j k, eq_iff k j, get-insert k j v m, Distinct-insert k v m)

module _ {ℓ κ} {K : Type ℓ} {A : Type κ} ⦃e : Eq K⦄ where
  -- m[k] where a missing key reads as nil, a slice or a map without entries
  unfoldable pub get_list : K → Map K (List A) → List A
  get_list k [] = []
  get_list k ((j, v) ∷ m) = if j == k then v else get_list k m

  pub get_list-insert :
      (k j : K) (v : List A) (m : Map K (List A))
      → get_list j (insert k v m) ≡ (if k == j then v else get_list j m)
  unfolding get_list insert
  get_list-insert k j v [] = refl
  get_list-insert k j v ((i, w) ∷ m) =
      ground (arith, eq_iff k j, eq_iff i k, eq_iff i j, get_list-insert k j v m)

  pub get_list_of_none : (k : K) (m : Map K (List A)) → get k m ≡ none → get_list k m ≡ []
  unfolding get get_list
  get_list_of_none k [] h = refl
  get_list_of_none k ((j, v) ∷ m) h = ground (arith, get_list_of_none k m)

pub ruleset map_laws = (get-insert, get-delete)
