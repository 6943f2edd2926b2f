-- ===== src/Errors.antt =====
-- Go's `error` values, as far as the packages look into them.
use baaah.Prelude.{Str, List, [], ◌∷◌, ◌≡◌, refl, ◌⊎◌, inl, inr}

-- The reasons of a Kubernetes API error that the code tests for.
pub data Reason : Type 0 where
  not_found already_exists conflict gone other : Reason

-- `joined` is merr.Errors, `prefixed` is the errorPrefix of the router.
mutual
  pub data Error : Type 0 where
    plain : Str → Error
    status : Reason → Str → Error
    prefixed : Str → Error → Error
    joined : Errors → Error

  pub data Errors : Type 0 where
    nil : Errors
    cons : Error → Errors → Errors

-- Errors as a slice
unfoldable pub to_list : Errors → List Error
to_list nil = []
to_list (cons e es) = e ∷ to_list es

unfoldable pub of_list : List Error → Errors
of_list [] = nil
of_list (e ∷ es) = cons e (of_list es)

pub data Result {ℓ} (A : Type ℓ) : Type ℓ where
  ok : A → Result A
  err : Error → Result A

pub Result-cases {ℓ} :
    {A : Type ℓ} (r : Result A) → ((a : A) × (r ≡ ok a)) ⊎ ((e : Error) × (r ≡ err e))
Result-cases (ok a) = inl (a, refl)
Result-cases (err e) = inr (e, refl)

-- What holds of the value of a result, if it has one.
abbrev pub OnOk {ℓ κ} : {A : Type ℓ} → (A → Type κ) → Result A → Type κ
OnOk P (ok a) = P a
OnOk P (err e) = Unit
