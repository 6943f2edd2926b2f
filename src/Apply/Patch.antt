-- ===== src/Apply/Patch.antt =====
-- pkg/apply/desiredset_compare.go, as far as it works on documents: the pruning of what is noted as
-- applied, the cleaning of a patch, and the annotation.
pub mod Laws
pub mod Clean
use baaah.Prelude.{
  ℕ, zero, suc, Bool, true, false, not, Option, none, some, Str, str, List, [], ◌∷◌, ◌++◌, any,
  if◌then◌else◌, ◌==◌, list_eq, nat_eq, ltb, length, has_prefix, is_some, ◌&&◌, ◌||◌,
}
use baaah.Errors.{Error, Result, ok, err}
use baaah.Json.{
  Value, null, bool, number, string, bytes, list, object, Values, Members, nil, cons, empty, entry,
  size, lookup, set, remove, as_map,
}
use baaah.Apply.Labels.{label_prefix, label_applied}

abbrev pub known_list_keys : List Str
known_list_keys =
    str "apiVersion"
    ∷ str "containerPort"
    ∷ str "devicePath"
    ∷ str "ip"
    ∷ str "kind"
    ∷ str "mountPath"
    ∷ str "name"
    ∷ str "port"
    ∷ str "topologyKey"
    ∷ str "type"
    ∷ []

-- x[:n]
abbrev pub take : ℕ → Str → Str
take zero s = []
take (suc n) [] = []
take (suc n) (c ∷ s) = c ∷ take n s

abbrev pub is_known : Str → Bool
is_known k = any (λ j. j == k) known_list_keys

-- `digest` is the hexadecimal SHA-256 of a text.
module _ (digest : Str → Str) where
  abbrev pub shorten : Str → Str
  shorten x = if ltb 64 (length x) then take 64 x ++ take 8 (digest x) else x

  -- the default of the switch in pruneValues, by whether the key is a known one of an item of a list
  abbrev pub leaf : Bool → Value → Value
  leaf true v = v
  leaf false (string x) = string (shorten x)
  leaf false (bytes x) = null
  leaf false v = v

  abbrev pub prune_leaf : Bool → Str → Value → Value
  prune_leaf is_list k v = leaf (is_list && is_known k) v

  -- pruneList and pruneValues
  unfoldable mutual
    pub prune_list : Values → Values
    prune_list nil = nil
    prune_list (cons (object m) vs) = cons (object (prune_values true m)) (prune_list vs)
    prune_list (cons (list l) vs) = cons (list (prune_list l)) (prune_list vs)
    prune_list (cons null vs) = cons null (prune_list vs)
    prune_list (cons (bool b) vs) = cons (bool b) (prune_list vs)
    prune_list (cons (number n) vs) = cons (number n) (prune_list vs)
    prune_list (cons (string x) vs) = cons (string x) (prune_list vs)
    prune_list (cons (bytes x) vs) = cons (bytes x) (prune_list vs)

    pub prune_values : Bool → Members → Members
    prune_values is_list empty = empty
    prune_values is_list (entry k (object n) m) =
        entry k (object (prune_values false n)) (prune_values is_list m)
    prune_values is_list (entry k (list l) m) =
        entry k (list (prune_list l)) (prune_values is_list m)
    prune_values is_list (entry k null m) = entry k null (prune_values is_list m)
    prune_values is_list (entry k (bool b) m) = entry k (bool b) (prune_values is_list m)
    prune_values is_list (entry k (number n) m) = entry k (number n) (prune_values is_list m)
    prune_values is_list (entry k (string x) m) =
        entry k (prune_leaf is_list k (string x)) (prune_values is_list m)
    prune_values is_list (entry k (bytes x) m) =
        entry k (prune_leaf is_list k (bytes x)) (prune_values is_list m)

abbrev pub invalid_key : Str
invalid_key = str "__invalid_key__"

-- The loop of emptyMaps, over `append(keys, "__invalid_key__")`: the test on the map, then `rest` on
-- the value of its only key.
abbrev pub only_key : Str → Members → (Members → Bool) → Bool
only_key key empty rest = true
only_key key (entry j v empty) rest = if j == key then rest (as_map (some v)) else false
only_key key (entry j v (entry k w m)) rest = false

unfoldable pub empty_maps : Members → List Str → Bool
empty_maps m [] = only_key invalid_key m (λ n. true)
empty_maps m (key ∷ keys) = only_key key m (λ n. empty_maps n keys)

-- mapField: unstructured.NestedFieldNoCopy goes down the fields and finds nothing at a value that is
-- not a map.
unfoldable pub map_field : Members → List Str → Members
map_field m [] = m
map_field m (f ∷ fs) = map_field (as_map (lookup f m)) fs

-- if _, ok := data[key]; ok { changed = true; delete(data, key) }
abbrev pub drop_key : Str → Bool × Members → Bool × Members
drop_key k (changed, m) = if is_some (lookup k m) then (true, remove k m) else (changed, m)

unfoldable pub drop_keys : List Str → Bool × Members → Bool × Members
drop_keys [] s = s
drop_keys (k ∷ ks) s = drop_keys ks (drop_key k s)

abbrev pub metadata_keys : List Str
metadata_keys =
    str "creationTimestamp"
    ∷ str "generation"
    ∷ str "resourceVersion"
    ∷ str "uid"
    ∷ str "managedFields"
    ∷ []

-- data[key] of a map is changed in place
abbrev pub put_map : Str → Members → Members → Members
put_map key n m = elim (lookup key m) [ some (object o) ↦ set key (object n) m | v ↦ m ]

-- removeMetadataFields
unfoldable pub remove_metadata_fields : Members → Bool × Members
unfolding drop_keys
remove_metadata_fields m = elim (lookup (str "metadata") m) [
  | some (object n) ↦
      let (changed, n') = drop_keys metadata_keys (false, n) in
      (changed, set (str "metadata") (object n') m)
  | v ↦ (false, m)
]

-- for k := range annotations { if strings.HasPrefix(k, LabelPrefix) { … delete(annotations, k) } }
pub drop_labels : Members → Bool × Members
drop_labels empty = (false, empty)
drop_labels (entry k v m) =
    let (changed, rest) = drop_labels m in
    if has_prefix k label_prefix then (true, rest) else (changed, entry k v rest)

abbrev pub drop_empty_metadata : Members → Members → Members
drop_empty_metadata metadata m =
    let metadata' = remove (str "annotations") metadata in
    if size metadata' == zero
    then remove (str "metadata") m
    else put_map (str "metadata") metadata' m

-- the branch of removeObjectSetAnnotation
unfoldable pub remove_object_set_annotations : Bool × Members → Bool × Members
unfolding drop_labels
remove_object_set_annotations (changed, m) =
    let metadata = map_field m (str "metadata" ∷ []) in
    let (dropped, annotations) =
      drop_labels (map_field m (str "metadata" ∷ str "annotations" ∷ [])) in
    let metadata' = put_map (str "annotations") annotations metadata in
    let changed' = changed || dropped in
    (
      changed',
      if changed' && size annotations == zero
          then drop_empty_metadata metadata' m
          else put_map (str "metadata") metadata' m,
    )

-- sanitizePatch between the two conversions
unfoldable pub sanitize : Bool → Members → Bool × Members
unfolding drop_keys remove_metadata_fields remove_object_set_annotations
sanitize remove_annotations m =
    let (top, m1) = drop_keys (str "kind" ∷ str "apiVersion" ∷ str "status" ∷ []) (false, m) in
    let (meta, m2) = remove_metadata_fields m1 in
    if remove_annotations
    then remove_object_set_annotations (top || meta, m2)
    else (top || meta, m2)

-- `unmarshal` and `marshal` are those of encoding/json for a map.
module _ (unmarshal : Str → Result Members) (marshal : Members → Result Str) where
  abbrev pub is_nothing : Members → Bool
  is_nothing m =
      empty_maps m (str "metadata" ∷ str "annotations" ∷ [])
      || empty_maps m (str "metadata" ∷ str "annotations" ∷ label_applied ∷ [])

  abbrev pub finish : Str → Bool × Members → Result Str
  finish patch (changed, m) =
      if is_nothing m then ok (str "{}") else if not changed then ok patch else marshal m

  -- sanitizePatch
  unfoldable pub sanitize_patch : Str → Bool → Result Str
  unfolding sanitize
  sanitize_patch patch remove_annotations = elim (unmarshal patch) [
    | err e ↦ err e
    | ok m ↦ finish patch (sanitize remove_annotations m)
  ]

-- gzip, and RawStdEncoding of encoding/base64. A compression may fail.
pub record Codec : Type 0 where
  pub gzip : Str → Option Str
  pub gunzip : Str → Option Str
  pub encode : Str → Str
  pub decode : Str → Option Str

module _ (c : Codec) where
  -- appliedToAnnotation
  unfoldable pub applied_to_annotation : Str → Str
  applied_to_annotation b = elim (c.gzip b) [ none ↦ b | some z ↦ c.encode z ]

  abbrev pub text_of : Option Str → Str
  text_of none = []
  text_of (some s) = s

  abbrev pub gunzipped : Option Str → Str
  gunzipped none = []
  gunzipped (some z) = text_of (c.gunzip z)

  -- appliedFromAnnotation: of nil and an empty slice its callers ask the length alone
  unfoldable pub applied_from_annotation : Str → Str
  applied_from_annotation [] = []
  applied_from_annotation (x ∷ s) = if x == b'{' then x ∷ s else gunzipped (c.decode (x ∷ s))
