-- ===== src/Router/Matcher.antt =====
-- pkg/router/matcher.go: what a registered watch selects.
pub mod Laws
use baaah.Prelude.{
  Bool, true, false, not, ◌&&◌, ◌||◌, Option, none, some, Str, [], is_nil, is_some, if◌then◌else◌,
  ◌==◌, bool_eq, list_eq, nat_eq,
}
use baaah.Objects.{Object, Selector, FieldSelector}

pub record ObjectMatcher : Type 0 where
  pub namespace : Str
  pub name : Str
  pub selector : Option Selector
  pub fields : Option FieldSelector

-- `o.Selector.String()`; it is called on non-nil selectors alone.
abbrev pub selector_string : Option Selector → Str
selector_string none = []
selector_string (some s) = s.string

abbrev pub field_string : Option FieldSelector → Str
field_string none = []
field_string (some s) = s.string

unfoldable pub equals : ObjectMatcher → ObjectMatcher → Bool
equals o other =
    if not (o.name == other.name)
    then false
    else if not (o.namespace == other.namespace)
    then false
    else if not (is_nil o.selector == is_nil other.selector)
    then false
    else if is_some o.selector && not (selector_string o.selector == selector_string other.selector)
    then false
    else if not (is_nil o.fields == is_nil other.fields)
    then false
    else if is_some o.fields && not (field_string o.fields == field_string other.fields)
    then false
    else true

-- `selectorMatches`, for an object that is not nil
abbrev pub selector_matches : Option Selector → Object → Bool
selector_matches none obj = true
selector_matches (some s) obj = s.matches obj.labels

-- `fieldMatches`: it stays true for an object without fields
abbrev pub field_matches : Option FieldSelector → Object → Bool
field_matches none obj = true
field_matches (some s) obj = elim obj.fields [ none ↦ true | some f ↦ s.matches f ]

-- the last test on the fields alone, which the test on both selectors above it shadows
abbrev pub fields_only : ObjectMatcher → FieldSelector → Str → Option Object → Bool
fields_only o s ns none = false
fields_only o s ns (some obj) = elim obj.fields [
  | none ↦ o.namespace == [] || o.namespace == ns
  | some f ↦ s.matches f
]

unfoldable pub match : ObjectMatcher → Str → Str → Option Object → Bool
match o ns name obj =
    if not (o.name == [])
    then o.name == name && o.namespace == ns
    else if not (o.namespace == []) && not (o.namespace == ns)
    then false
    else if is_some o.selector || is_some o.fields
    then (elim obj [
      | none ↦ false
      | some b ↦ selector_matches o.selector b && field_matches o.fields b
    ])
    else elim o.fields [
      | none ↦ o.namespace == [] || o.namespace == ns
      | some s ↦ fields_only o s ns obj
    ]
