-- ===== src/Apply/Labels.antt =====
-- pkg/apply/desiredset_apply.go: the labels and annotations by which an apply finds its objects
-- again. `hash` is the hexadecimal SHA-1 of a text.
pub mod Laws
use baaah.Prelude.{
  Bool, true, false, Option, none, some, Str, str, List, [], ◌∷◌, ◌++◌, ◌&&◌, ◌==◌, list_eq, nat_eq,
  is_nil, if◌then◌else◌,
}
use baaah.Prelude.Map
use baaah.Prelude.Map.{Map}
use baaah.Objects.{Gvk, Object}
use baaah.Errors.{Error, Result, ok, err}

abbrev pub label_prefix : Str
label_prefix = str "apply.acorn.io/"

abbrev pub label_sub_context : Str
label_sub_context = str "apply.acorn.io/owner-sub-context"

abbrev pub label_gvk : Str
label_gvk = str "apply.acorn.io/owner-gvk"

abbrev pub label_name : Str
label_name = str "apply.acorn.io/owner-name"

abbrev pub label_namespace : Str
label_namespace = str "apply.acorn.io/owner-namespace"

abbrev pub label_hash : Str
label_hash = str "apply.acorn.io/hash"

abbrev pub label_applied : Str
label_applied = str "apply.acorn.io/applied"

abbrev pub annotation_prune : Str
annotation_prune = str "apply.acorn.io/prune"

abbrev pub annotation_create : Str
annotation_create = str "apply.acorn.io/create"

abbrev pub annotation_update : Str
annotation_update = str "apply.acorn.io/update"

-- m[key] of a map of strings: "" where it is missing
abbrev pub text_of : Option Str → Str
text_of none = []
text_of (some v) = v

abbrev pub read : Str → Map Str Str → Str
read k m = text_of (Map.get k m)

abbrev pub hash_order : List Str
hash_order = label_sub_context ∷ label_gvk ∷ label_name ∷ label_namespace ∷ []

-- what the loop of objectSetHash writes to the digest
hashed : List Str → Map Str Str → Str
hashed [] m = []
hashed (k ∷ ks) m = read k m ++ hashed ks m

unfoldable pub object_set_hash : (Str → Str) → Map Str Str → Str
unfolding hashed
object_set_hash hash m = hash (hashed hash_order m)

-- for k, v := range from { to[k] = v }
unfoldable pub copy_map : Map Str Str → Map Str Str → Map Str Str
copy_map [] to = to
copy_map ((k, v) ∷ from) to = copy_map from (Map.insert k v to)

unfoldable pub set_labels : Map Str Str → Object → Object
unfolding copy_map
set_labels labels o = record o { labels = copy_map labels o.labels }

unfoldable pub set_annotations : Map Str Str → Object → Object
unfolding copy_map
set_annotations annotations o = record o {
  annotations = copy_map annotations (Map.delete label_applied o.annotations);
}

-- the annotations of an owner, whose kind is `g`; `gvk_string` is GroupVersionKind.String
abbrev pub owner_annotations : (Gvk → Str) → Gvk → Object → Map Str Str → Map Str Str
owner_annotations gvk_string g owner m =
    Map.insert label_namespace owner.namespace
      (Map.insert label_name owner.name (Map.insert label_gvk (gvk_string g) m))

abbrev pub sub_context_annotations : Str → Map Str Str
sub_context_annotations sub_context = (label_sub_context, sub_context) ∷ []

abbrev pub with_hash : (Str → Str) → Map Str Str → Map Str Str × Map Str Str
with_hash hash m = ((label_hash, object_set_hash hash m) ∷ [], m)

module _ (hash : Str → Str) (gvk_string : Gvk → Str) (gvk_for : Object → Result Gvk) where
  -- GetLabelsAndAnnotations: the labels, then the annotations
  unfoldable pub get_labels_and_annotations :
      Str → Option Object → Result (Map Str Str × Map Str Str)
  unfolding object_set_hash
  get_labels_and_annotations sub_context none =
      if sub_context == []
      then ok ([], [])
      else ok (with_hash hash (sub_context_annotations sub_context))
  get_labels_and_annotations sub_context (some owner) = elim (gvk_for owner) [
    | err e ↦ err e
    | ok g ↦ ok (
        with_hash hash (owner_annotations gvk_string g owner (sub_context_annotations sub_context)))
  ]
