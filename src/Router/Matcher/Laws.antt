-- ===== src/Router/Matcher/Laws.antt =====
-- Matching against a description without early returns, and matchers that `equals` identifies.
use baaah.Prelude.{
  true, Option, none, some, Str, [], ◌≡◌, ◌≢◌, refl, ◌↔◌, ◌⊎◌, arith, eq_iff, list_eq, nat_eq,
  bool_eq,
}
use baaah.Objects.{Object, Selector, FieldSelector}
use baaah.Router.Matcher.{ObjectMatcher, equals, match, selector_string, field_string}

-- What a matcher asks of the labels and of the fields of the object, if it asks anything.
abbrev pub SelectorHolds : Option Selector → Option Object → Type 0
SelectorHolds none obj = Unit
SelectorHolds (some s) none = ⊥
SelectorHolds (some s) (some b) = s.matches b.labels ≡ true

abbrev pub FieldsHold : Option FieldSelector → Option Object → Type 0
FieldsHold none obj = Unit
FieldsHold (some s) none = ⊥
FieldsHold (some s) (some b) = elim b.fields [ none ↦ Unit | some f ↦ s.matches f ≡ true ]

-- A matcher with a name selects one object; one without selects a namespace, or all of them, and in
-- it the objects that satisfy both selectors.
pub Accepts : ObjectMatcher → Str → Str → Option Object → Type 0
Accepts o ns name obj =
    ((o.name ≢ []) × (o.name ≡ name) × (o.namespace ≡ ns))
    ⊎ ((o.name ≡ [])
        × ((o.namespace ≡ []) ⊎ (o.namespace ≡ ns))
        × SelectorHolds o.selector obj
        × FieldsHold o.fields obj)

-- A matcher matches exactly if it has a name and that and the namespace are those given, or has no
-- name, no other namespace, and both selectors hold of the object where the matcher has them.
pub match-Accepts :
    (o : ObjectMatcher) (ns name : Str) (obj : Option Object)
    → (match o ns name obj ≡ true) ↔ Accepts o ns name obj
unfolding match Accepts
match-Accepts o ns name obj =
    ground
      (arith, eq_iff o.name [], eq_iff o.name name, eq_iff o.namespace [], eq_iff o.namespace ns)

-- Two selectors of which both are nil, or neither is and their texts agree.
abbrev pub SameSelector : Option Selector → Option Selector → Type 0
SameSelector none none = Unit
SameSelector (some a) (some b) = a.string ≡ b.string
SameSelector _ _ = ⊥

abbrev pub SameFields : Option FieldSelector → Option FieldSelector → Type 0
SameFields none none = Unit
SameFields (some a) (some b) = a.string ≡ b.string
SameFields _ _ = ⊥

-- Two matchers are equal exactly if names and namespaces agree and the selectors, and the field
-- selectors, are both nil or have the same text.
pub equals_iff :
    (o other : ObjectMatcher)
    → (equals o other ≡ true) ↔ (
        (o.name ≡ other.name)
        × (o.namespace ≡ other.namespace)
        × SameSelector o.selector other.selector
        × SameFields o.fields other.fields)
unfolding equals
equals_iff o other = ground (
  arith,
  eq_iff o.name other.name,
  eq_iff o.namespace other.namespace,
  eq_iff (selector_string o.selector) (selector_string other.selector),
  eq_iff (field_string o.fields) (field_string other.fields),
)

SameSelector-refl : (s : Option Selector) → SameSelector s s
SameSelector-refl none = tt
SameSelector-refl (some s) = refl

SameFields-refl : (s : Option FieldSelector) → SameFields s s
SameFields-refl none = tt
SameFields-refl (some s) = refl

pub equals_refl : (o : ObjectMatcher) → equals o o ≡ true
equals_refl o =
    (equals_iff o o).1 (refl, refl, SameSelector-refl o.selector, SameFields-refl o.fields)
