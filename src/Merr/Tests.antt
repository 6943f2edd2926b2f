-- ===== src/Merr/Tests.antt =====
-- The laws of package merr at concrete errors.
use baaah.Prelude.{Bool, true, false, Option, none, some, str, List, [], ◌∷◌, ◌≡◌, refl, any}
use baaah.Errors.{Error, plain, status, prefixed, not_found}
use baaah.Merr.{new_errors}
use baaah.Merr.Laws.{finds?, finds?-new_errors}

abbrev broken : Error
broken = plain (str "broken")

abbrev missing : Error
missing = prefixed (str "[a] ") (status not_found (str "missing"))

abbrev given : List (Option Error)
given = none ∷ some broken ∷ none ∷ some missing ∷ []

abbrev is_missing : Error → Bool
is_missing (status not_found s) = true
is_missing e = false

finds?-new_errors_example : finds? is_missing (new_errors given) ≡ any (finds? is_missing) given
finds?-new_errors_example = finds?-new_errors is_missing given (λ fs. refl)
