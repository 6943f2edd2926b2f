-- ===== src/Merr.antt =====
-- pkg/merr/error.go: several errors as one.
pub mod Laws
mod Tests
use baaah.Prelude.{
  Bool, Str, str, List, [], ◌∷◌, ◌++◌, Option, none, some, length, ltb, if◌then◌else◌, map,
}
use baaah.Errors.{
  Error, Errors, Reason, plain, status, prefixed, joined, nil, cons, to_list, of_list,
}

-- the loop of NewErrors: the errors that are not nil
unfoldable pub non_nil : List (Option Error) → List Error
non_nil [] = []
non_nil (none ∷ es) = non_nil es
non_nil (some e ∷ es) = e ∷ non_nil es

abbrev pub collect : List Error → Option Error
collect [] = none
collect (e ∷ []) = some e
collect (e ∷ f ∷ es) = some (joined (of_list (e ∷ f ∷ es)))

-- NewErrors
unfoldable pub new_errors : List (Option Error) → Option Error
unfolding non_nil
new_errors in_errors = collect (non_nil in_errors)

-- Errors.Err
unfoldable pub errors_err : Errors → Option Error
unfolding to_list new_errors
errors_err e = new_errors (map some (to_list e))

-- one round of the loop of Errors.Error: a separator unless the buffer is empty
abbrev pub write_error : Str → Str → Str
write_error buf text = (if ltb 0 (length buf) then buf ++ str ", " else buf) ++ text

-- Error(), of every kind of error; the text of an API error is its message.
unfoldable mutual
  pub error_text : Error → Str
  error_text (plain s) = s
  error_text (status r s) = s
  error_text (prefixed p e) = p ++ error_text e
  error_text (joined es) = errors_text es []

  pub errors_text : Errors → Str → Str
  errors_text nil buf = buf
  errors_text (cons e es) buf = errors_text es (write_error buf (error_text e))
