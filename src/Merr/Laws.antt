-- ===== src/Merr/Laws.antt =====
-- NewErrors loses no error and makes none up.
use baaah.Prelude.{
  List, [], ◌∷◌, ◌++◌, Option, none, some, ◌≡◌, refl, ap, ◌↔◌, arith, All, Str, str, Bool, false,
  ◌||◌, any, sym, ◌∙◌, ◌≢◌, ℕ,
}
use mathlib.Core.List.{append-nil, append_assoc}
use baaah.Errors.{Error, Errors, plain, status, prefixed, joined, nil, cons, to_list, of_list}
use baaah.Merr.{non_nil, collect, new_errors, error_text, errors_text, write_error}

pub to_list-of_list : (es : List Error) → to_list (of_list es) ≡ es
unfolding to_list of_list
to_list-of_list [] = refl
to_list-of_list (e ∷ es) = ap (◌∷◌ e) (to_list-of_list es)

of_list-to_list : (es : Errors) → of_list (to_list es) ≡ es
unfolding to_list of_list
of_list-to_list nil = refl
of_list-to_list (cons e es) = ap (cons e) (of_list-to_list es)

non_nil-eq-nil_iff : (es : List (Option Error)) → (non_nil es ≡ []) ↔ All (λ e. e ≡ none) es
unfolding non_nil
non_nil-eq-nil_iff [] = ground arith
non_nil-eq-nil_iff (none ∷ es) = ground (arith, non_nil-eq-nil_iff es)
non_nil-eq-nil_iff (some e ∷ es) = ground arith

collect-eq-none_iff : (es : List Error) → (collect es ≡ none) ↔ (es ≡ [])
collect-eq-none_iff [] = ground arith
collect-eq-none_iff (e ∷ []) = ground arith
collect-eq-none_iff (e ∷ f ∷ es) = ground arith

-- NewErrors returns nil exactly if all of its arguments are nil.
pub new_errors-eq-none_iff :
    (es : List (Option Error)) → (new_errors es ≡ none) ↔ All (λ e. e ≡ none) es
unfolding new_errors
new_errors-eq-none_iff es = ground (arith, non_nil-eq-nil_iff es, collect-eq-none_iff (non_nil es))

-- errors.Is and errors.As: the search of an error and of all that it unwraps to.
unfoldable mutual
  pub finds : (Error → Bool) → Error → Bool
  finds p (plain s) = p (plain s)
  finds p (status r s) = p (status r s)
  finds p (prefixed s e) = p (prefixed s e) || finds p e
  finds p (joined es) = p (joined es) || finds_in p es

  pub finds_in : (Error → Bool) → Errors → Bool
  finds_in p nil = false
  finds_in p (cons e es) = finds p e || finds_in p es

abbrev pub finds? : (Error → Bool) → Option Error → Bool
finds? p none = false
finds? p (some e) = finds p e

module _ (p : Error → Bool) where
  finds_in-of_list : (es : List Error) → finds_in p (of_list es) ≡ any (finds p) es
  unfolding finds of_list
  finds_in-of_list [] = refl
  finds_in-of_list (e ∷ es) = ap (λ b. finds p e || b) (finds_in-of_list es)

  any-non_nil : (es : List (Option Error)) → any (finds p) (non_nil es) ≡ any (finds? p) es
  unfolding non_nil
  any-non_nil [] = refl
  any-non_nil (none ∷ es) = any-non_nil es
  any-non_nil (some e ∷ es) = ground (arith, any-non_nil es)

  finds?-collect :
      (es : List Error)
      → ((fs : Errors) → p (joined fs) ≡ false)
      → finds? p (collect es) ≡ any (finds p) es
  finds?-collect [] h = refl
  finds?-collect (e ∷ []) h = ground arith
  finds?-collect (e ∷ f ∷ es) h =
      unfold finds in ground (arith, h (of_list (e ∷ f ∷ es)), finds_in-of_list (e ∷ f ∷ es))

  -- A search through what an error unwraps to finds something in the combined error exactly if it
  -- finds it in one of the errors that were given, where the search does not look for a combined
  -- error itself.
  pub finds?-new_errors :
      (es : List (Option Error))
      → ((fs : Errors) → p (joined fs) ≡ false)
      → finds? p (new_errors es) ≡ any (finds? p) es
  unfolding new_errors
  finds?-new_errors es h = finds?-collect (non_nil es) h ∙ any-non_nil es

abbrev pub texts : Errors → List Str
texts nil = []
texts (cons e es) = error_text e ∷ texts es

abbrev continued : List Str → Str
continued [] = []
continued (t ∷ ts) = str ", " ++ (t ++ continued ts)

-- strings.Join(texts, ", ")
abbrev pub joined_texts : List Str → Str
joined_texts [] = []
joined_texts (t ∷ ts) = t ++ continued ts

errors_text_from :
    (es : Errors) (c : ℕ) (buf : Str) → errors_text es (c ∷ buf) ≡ (c ∷ buf) ++ continued (texts es)
unfolding error_text
errors_text_from nil c buf = sym (append-nil (c ∷ buf))
errors_text_from (cons e es) c buf = ground (
  arith,
  errors_text_from es c ((buf ++ str ", ") ++ error_text e),
  append_assoc (buf ++ str ", ") (error_text e) (continued (texts es)),
  append_assoc buf (str ", ") (error_text e ++ continued (texts es)),
)

errors_text_first :
    (t : Str) (es : Errors) → t ≢ [] → errors_text es (write_error [] t) ≡ t ++ continued (texts es)
errors_text_first [] es h = absurd (h refl)
errors_text_first (c ∷ t) es h = errors_text_from es c t

-- The text of a combined error whose first error has a text that is not empty is the texts of its
-- errors with a comma and a space between them.
pub error_text-joined :
    (e : Error) (es : Errors)
    → error_text e ≢ []
    → error_text (joined (cons e es)) ≡ joined_texts (texts (cons e es))
unfolding error_text
error_text-joined e es h = errors_text_first (error_text e) es h
