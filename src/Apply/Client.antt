-- ===== src/Apply/Client.antt =====
-- What package apply calls outside itself: the client and its scheme and REST mapping, and the texts
-- and selectors of apimachinery.
use baaah.Prelude.{
  Bool, true, false, Option, none, some, Str, List, [], ◌∷◌, ◌++◌, if◌then◌else◌, ◌==◌, list_eq,
  nat_eq,
}
use baaah.Objects.{Gvk, GroupKind, Object, Selector}
use baaah.Errors.{
  Error, Reason, plain, status, prefixed, joined, Errors, nil, cons, already_exists, not_found,
  Result,
}

-- `W` is the cluster. A create also fills the object that it is handed. `list` is handed the kind of
-- the items; `scheme_new` is the error of Scheme.New. `rest_mapping` says whether the scope of the kind is the namespace.
pub record Client (W : Type 0) : Type 0 where
  pub gvk_for_object : Object → Result Gvk
  pub rest_mapping : GroupKind → Str → Result Bool
  pub new_requirement : Str → Str → Result Selector
  pub scheme_new : Gvk → Option Error
  pub is_not_registered : Error → Bool
  pub create : Object → W → Option Error × Object × W
  pub get : Gvk → Str → Str → W → Result Object × W
  pub list : Gvk → Str → Selector → W → Result (List Object) × W
  pub delete : Gvk → Str → Str → W → Option Error × W

-- schema.GroupVersion.String
abbrev pub group_version : Gvk → Str
group_version g = if g.group == [] then g.version else g.group ++ b'/' ∷ g.version

abbrev pub or_first : Option Reason → Option Reason → Option Reason
or_first (some r) s = some r
or_first none s = s

-- apierrors.ReasonForError: of the first API error that `err` unwraps to
unfoldable mutual
  pub reason_of : Error → Option Reason
  reason_of (plain s) = none
  reason_of (status r s) = some r
  reason_of (prefixed p e) = reason_of e
  reason_of (joined es) = first_reason es

  pub first_reason : Errors → Option Reason
  first_reason nil = none
  first_reason (cons e es) = or_first (reason_of e) (first_reason es)

-- apierrors.IsNotFound
abbrev pub is_not_found : Error → Bool
is_not_found e = elim (reason_of e) [ some not_found ↦ true | r ↦ false ]

-- apierrors.IsAlreadyExists
abbrev pub is_already_exists : Error → Bool
is_already_exists e = elim (reason_of e) [ some already_exists ↦ true | r ↦ false ]

-- newObj, which falls back on an unstructured object: its error
unfoldable pub new_obj : {W : Type 0} → Client W → Gvk → Option Error
new_obj c g = elim (c.scheme_new g) [
  | none ↦ none
  | some e ↦ if c.is_not_registered e then none else some e
]
