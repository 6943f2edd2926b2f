-- ===== src/Yaml.antt =====
-- pkg/yaml/yaml.go: objects are cleaned of what belongs to one cluster and written one after the
-- other. An object is the document that data.ToMapInterface makes of it.
pub mod Laws
pub mod Tests
use baaah.Prelude.{
  ℕ, zero, suc, Bool, true, false, not, Option, none, some, Str, str, List, [], ◌∷◌, ◌++◌, any,
  if◌then◌else◌, ◌==◌, list_eq, nat_eq, has_prefix, ◌&&◌, ◌||◌,
}
use baaah.Prelude.Map
use baaah.Prelude.Map.{Map}
use baaah.Errors.{Error, plain, prefixed, Result, ok, err}
use baaah.Json.{
  Value, null, bool, number, string, bytes, list, object, Members, empty, entry, size, lookup, set,
  remove, as_map,
}

abbrev pub clean_prefix : List Str
clean_prefix = str "kubectl.kubernetes.io/" ∷ []

abbrev pub clean_contains : List Str
clean_contains = str "cattle.io/" ∷ []

-- strings.Contains
unfoldable pub contains : Str → Str → Bool
contains [] sub = sub == []
contains (c ∷ s) sub = has_prefix (c ∷ s) sub || contains s sub

-- cleanMap
unfoldable pub clean_map : Members → Members
clean_map empty = empty
clean_map (entry k v m) =
    let rest = clean_map m in
    if any (λ p. has_prefix k p) clean_prefix then rest else entry k v rest

-- CleanAnnotationsForExport
unfoldable pub clean_annotations_for_export : Map Str Str → Map Str Str
clean_annotations_for_export [] = []
clean_annotations_for_export ((k, v) ∷ m) =
    let rest = clean_annotations_for_export m in
    if any (λ p. has_prefix k p) clean_prefix
    then rest
    else if any (λ c. contains k c) clean_contains
    then rest
    else (k, v) ∷ rest

-- The getters of an unstructured object: a text or "", and a map of texts or nil.
abbrev pub text_in : Option Value → Str
text_in (some (string s)) = s
text_in v = []

abbrev pub metadata_of : Members → Members
metadata_of d = as_map (lookup (str "metadata") d)

abbrev pub all_texts : Members → Bool
all_texts empty = true
all_texts (entry k (string s) m) = all_texts m
all_texts (entry k v m) = false

abbrev pub texts_of : Members → Members
texts_of m = if all_texts m then m else empty

-- metadata["name"] or metadata["generateName"]; the error also prints the object
abbrev pub name_only : Str → Str → Result Members
name_only [] [] = err (plain (str "either name or generateName must be set on obj"))
name_only [] (c ∷ s) = ok (entry (str "generateName") (string (c ∷ s)) empty)
name_only (c ∷ s) generated = ok (entry (str "name") (string (c ∷ s)) empty)

abbrev pub with_namespace : Str → Members → Members
with_namespace [] m = m
with_namespace (c ∷ s) m = set (str "namespace") (string (c ∷ s)) m

-- the annotations, or the labels, unless none is left
abbrev pub with_map : Str → Members → Members → Members
with_map key empty m = m
with_map key (entry k v n) m = set key (object (entry k v n)) m

abbrev pub with_cleaned : Str → Members → Members → Members
with_cleaned key d m = with_map key (clean_map (texts_of (as_map (lookup key (metadata_of d))))) m

-- the new metadata
abbrev pub completed : Members → Result Members → Result Members
completed d (err e) = err e
completed d (ok m) = ok (
    with_cleaned (str "labels") d (
      with_cleaned (str "annotations") d
        (with_namespace (text_in (lookup (str "namespace") (metadata_of d))) m)))

unfoldable pub new_metadata : Members → Result Members
unfolding clean_map
new_metadata d = completed d (
    name_only (text_in (lookup (str "name") (metadata_of d)))
      (text_in (lookup (str "generateName") (metadata_of d))))

abbrev pub is_empty_spec : Option Value → Bool
is_empty_spec (some null) = true
is_empty_spec (some (object empty)) = true
is_empty_spec v = false

abbrev pub without_spec : Members → Members
without_spec d = if is_empty_spec (lookup (str "spec") d) then remove (str "spec") d else d

-- CleanObjectForExport past the conversion
unfoldable pub clean_document : Members → Result Members
unfolding new_metadata
clean_document d = elim (new_metadata d) [
  | err e ↦ err e
  | ok m ↦ ok (remove (str "status") (set (str "metadata") (object m) (without_spec d)))
]

-- The kind is set where it is missing, `kind_for` is apiutil.GVKForObject as the error, or the document
-- with the kind.
module _ {O : Type 0} (has_kind : O → Bool) (with_kind : O → Result O)
    (to_map_interface : O → Result Members) (marshal : Members → Result Str)
    (marshal_object : O → Result Str) (text : O → Str) where
  abbrev pub with_known_kind : O → Result O
  with_known_kind o = if has_kind o then ok o else elim (with_kind o) [
    | ok x ↦ ok x
    | err e ↦ err (
        prefixed (str "kind and/or apiVersion is not set on input object " ++ (text o ++ str ": "))
          e)
  ]

  -- CleanObjectForExport
  unfoldable pub clean_object_for_export : O → Result Members
  unfolding clean_document
  clean_object_for_export o = elim (with_known_kind o) [
    | err e ↦ err e
    | ok x ↦ elim (to_map_interface x) [ err e ↦ err e | ok d ↦ clean_document d ]
  ]

  abbrev pub encoded : O → Result Str → Result Str
  encoded o (ok s) = ok s
  encoded o (err e) = err (prefixed (str "failed to encode " ++ (text o ++ str ": ")) e)

  abbrev pub exported : O → Result Str
  exported o = elim (clean_object_for_export o) [ err e ↦ err e | ok d ↦ encoded o (marshal d) ]

  abbrev pub separator : Str
  separator = str "\n---\n"

  -- the loops of Export and ToBytes, past the first object
  abbrev pub after_text : Str → Result Str → Result Str
  after_text s (err e) = err e
  after_text s (ok t) = ok (s ++ t)

  pub join_rest : (O → Result Str) → List O → Result Str
  join_rest f [] = ok []
  join_rest f (o ∷ os) =
      let rest = join_rest f os in
      elim (f o) [ err e ↦ err e | ok s ↦ after_text (separator ++ s) rest ]

  abbrev pub join_all : (O → Result Str) → List O → Result Str
  join_all f [] = ok []
  join_all f (o ∷ os) = elim (f o) [ err e ↦ err e | ok s ↦ after_text s (join_rest f os) ]

  -- Export
  unfoldable pub export : List O → Result Str
  unfolding join_rest clean_object_for_export
  export os = join_all exported os

  -- ToBytes
  unfoldable pub to_bytes : List O → Result Str
  unfolding join_rest
  to_bytes os = join_all (λ o. encoded o (marshal_object o)) os
