-- ===== src/Apply/Diff.antt =====
-- pkg/apply/desiredset_compare.go and patch_style.go: an object is made ready to be created, and one
-- that is there is patched. The conversions between objects and documents, the three-way merges and
-- the reconcilers of single kinds are parameters.
pub mod Laws
pub mod Tests
use baaah.Prelude.{
  Bool, true, false, not, Option, none, some, Str, str, List, [], ◌∷◌, ◌++◌, if◌then◌else◌, ◌==◌,
  list_eq, nat_eq, ◌||◌,
}
use baaah.Prelude.Map
use baaah.Prelude.Map.{Map}
use baaah.Objects.{Gvk, gvk_eq, Object}
use baaah.Errors.{Error, prefixed, Result, ok, err}
use baaah.Json.{Members}
use baaah.Apply.Labels.{read, label_applied}
use baaah.Apply.Patch.{
  prune_values, remove_metadata_fields, sanitize_patch, Codec, applied_to_annotation,
  applied_from_annotation,
}
use baaah.Apply.Process.{Compared, replace, compared, Patcher}

-- types.PatchType, of those that are used
pub data PatchType : Type 0 where
  none_yet merge strategic : PatchType

-- patchCacheEntry; `L` is strategicpatch.LookupPatchMeta, which may be nil
pub record Entry (L : Type 0) : Type 0 where
  pub patch_type : PatchType
  pub lookup : Option L

-- Scheme.New of client-go, with NewPatchMetaFromStruct of what it makes
pub record Styles (L : Type 0) : Type 0 where
  pub scheme_new : Gvk → Option Error
  pub is_not_registered : Error → Bool
  pub new_patch_meta : Gvk → Result L

module _ {L : Type 0} (y : Styles L) where
  abbrev pub PatchCache : Type 0
  PatchCache = Map Gvk (Entry L)

  abbrev pub remember : Gvk → Entry L → PatchCache → Result (Entry L) × PatchCache
  remember g e m = (ok e, Map.insert g e m)

  abbrev pub merge_entry : Entry L
  merge_entry = record { patch_type = merge; lookup = none }

  abbrev pub strategic_style : Gvk → Result L → PatchCache → Result (Entry L) × PatchCache
  strategic_style g (err e) m = (err e, m)
  strategic_style g (ok l) m = remember g (record { patch_type = strategic; lookup = some l }) m

  abbrev pub is_definition : Gvk → Bool
  is_definition g = g.kind == str "CustomResourceDefinition"

  abbrev pub new_style : Gvk → Option Error → PatchCache → Result (Entry L) × PatchCache
  new_style g (some e) m =
      if y.is_not_registered e || is_definition g then remember g merge_entry m else (err e, m)
  new_style g none m =
      if is_definition g then remember g merge_entry m else strategic_style g (y.new_patch_meta g) m

  -- getMergeStyle
  unfoldable pub get_merge_style : Gvk → PatchCache → Result (Entry L) × PatchCache
  get_merge_style g m = elim (Map.get g m) [
    | some e ↦ (ok e, m)
    | none ↦ new_style g (y.scheme_new g) m
  ]

-- What a reconciler or applyPatch returns: ErrReplace, another error, or whether it did something.
pub data Ran : Type 0 where
  ran : Bool → Ran
  must_replace : Ran
  ran_into : Error → Ran

-- Conversions: data.ToMapInterface, json.Marshal of an object, the unstructured object of a map,
-- json.Unmarshal and Marshal of a map, the three-way merges with the patch metadata of the kind,
-- Client.Patch, and whether the type of the existing object fits the new one.
pub record Library (L W : Type 0) : Type 0 where
  pub to_map_interface : Object → Result Members
  pub marshal_object : Object → Result Str
  pub of_map : Members → Object
  pub unmarshal : Str → Result Members
  pub marshal : Members → Result Str
  pub digest : Str → Str
  pub codec : Codec
  pub strategic_merge : Option L → Str → Str → Str → Result Str
  pub json_merge : Str → Str → Str → Result Str
  pub patch : Object → PatchType → Str → W → Option Error × Object × W
  pub not_assignable : Object → Object → Option Error

module _ {L W : Type 0} (l : Library L W) (y : Styles L) where
  -- serializeApplied
  unfoldable pub serialize_applied : Object → Result Str
  serialize_applied obj = elim (l.to_map_interface obj) [
    | err e ↦ err e
    | ok m ↦ l.marshal (prune_values l.digest false m)
  ]

  -- The time of creation is no field of the model's objects.
  abbrev pub cloned : Bool → Object → Object
  cloned clone obj = if clone then record obj { uid = [] } else obj

  -- prepareObjectForCreate
  unfoldable pub prepare_object_for_create : Gvk → Object → Bool → Result Object
  unfolding serialize_applied
  prepare_object_for_create g obj clone = elim (serialize_applied obj) [
    | err e ↦ err e
    | ok s ↦ ok (record (cloned clone obj) {
      annotations = Map.insert label_applied (applied_to_annotation l.codec s) obj.annotations;
      gvk = g;
    })
  ]

  abbrev pub some_object : Result Object → Result (Option Object)
  some_object (err e) = err e
  some_object (ok o) = ok (some o)

  abbrev pub original_of : Gvk → Str → Result (Option Object)
  original_of g [] = ok none
  original_of g (c ∷ s) = elim (l.unmarshal (c ∷ s)) [
    | err e ↦ err e
    | ok m ↦ some_object (prepare_object_for_create g (l.of_map (remove_metadata_fields m).1) true)
  ]

  -- getOriginalObject
  unfoldable pub get_original_object : Gvk → Object → Result (Option Object)
  unfolding prepare_object_for_create
  get_original_object g obj =
      original_of g (applied_from_annotation l.codec (read label_applied obj.annotations))

  -- getOriginalBytes
  unfoldable pub get_original_bytes : Gvk → Object → Result Str
  unfolding get_original_object
  get_original_bytes g obj = elim (get_original_object g obj) [
    | err e ↦ err e
    | ok none ↦ ok (str "{}")
    | ok (some o) ↦ l.marshal_object o
  ]

  -- originalAndModified
  unfoldable pub original_and_modified : Gvk → Object → Object → Result (Str × Str)
  unfolding get_original_bytes
  original_and_modified g old new = elim (get_original_bytes g old) [
    | err e ↦ err e
    | ok original ↦ elim (prepare_object_for_create g new true) [
      | err e ↦ err e
      | ok o ↦ elim (l.marshal_object o) [ err e ↦ err e | ok modified ↦ ok (original, modified) ]
    ]
  ]

  abbrev pub merge_with : Entry L → Str → Str → Str → Result Str
  merge_with e original modified current = elim e.patch_type [
    | strategic ↦ l.strategic_merge e.lookup original modified current
    | t ↦ l.json_merge original modified current
  ]

  -- createPatch, with the type of the patch
  unfoldable pub create_patch :
      Gvk → Str → Str → Str → PatchCache y → Result (PatchType × Str) × PatchCache y
  unfolding get_merge_style
  create_patch g original modified current m =
      let (r, m') = get_merge_style y g m in
      elim r [
        | err e ↦ (err e, m')
        | ok e ↦ elim (merge_with e original modified current) [
          | err x ↦ (err x, m')
          | ok p ↦ (ok (e.patch_type, p), m')
        ]
      ]

  abbrev pub State : Type 0
  State = W × PatchCache y

  -- a.ensure and a.reconcilers
  module _ (ensure : Bool) (reconcilers : Map Gvk (Object → Object → Ran)) where
    abbrev pub patch_target : Gvk → Object → Object
    patch_target g old = record {
      gvk = g;
      namespace = old.namespace;
      name = old.name;
      uid = [];
      resource_version = old.resource_version;
      generation = 0;
      labels = [];
      annotations = [];
      finalizers = [];
      owner_references = [];
      deleting = false;
      status = none;
      fields = none;
      wrapped = false;
    }

    abbrev pub sent : Option Error → Ran
    sent none = ran true
    sent (some e) = ran_into e

    abbrev pub filled : PatchCache y → Option Error × Object × W → Ran × Object × State
    filled m (e, o, w) = (sent e, o, (w, m))

    abbrev pub unfilled : Object → PatchCache y → Option Error × Object × W → Ran × Object × State
    unfilled new m (e, o, w) = (sent e, new, (w, m))

    -- the call of Patch: with `ensure` it fills the new object
    abbrev pub send : Gvk → Object → Object → PatchType → Str → State → Ran × Object × State
    send g old new t patch (w, m) =
        if ensure
        then filled m (l.patch (record new { resource_version = old.resource_version }) t patch w)
        else unfilled new m (l.patch (patch_target g old) t patch w)

    abbrev pub reconciled :
        Gvk → Object → Object → PatchType → Str → Ran → State → Ran × Object × State
    reconciled g old new t patch (ran false) s = send g old new t patch s
    reconciled g old new t patch r s = (r, new, s)

    abbrev pub or_old : Object → Option Object → Object
    or_old old none = old
    or_old old (some o) = o

    -- the call of the reconciler
    abbrev pub reconcile : (Object → Object → Ran) → Gvk → Object → Object → Ran
    reconcile f g old new = elim (prepare_object_for_create g new true) [
      | err e ↦ ran_into e
      | ok new' ↦ elim (get_original_object g old) [
        | err e ↦ ran_into e
        | ok o ↦ f (or_old old o) new'
      ]
    ]

    abbrev pub cleaned :
        Gvk → Object → Object → PatchType → Result Str → State → Ran × Object × State
    cleaned g old new t (err e) s = (ran_into e, new, s)
    cleaned g old new t (ok patch) s =
        if patch == str "{}" then (ran false, new, s) else elim (Map.get g reconcilers) [
          | none ↦ send g old new t patch s
          | some f ↦ reconciled g old new t patch (reconcile f g old new) s
        ]

    abbrev pub patched :
        Gvk → Object → Object → W → Result (PatchType × Str) × PatchCache y → Ran × Object × State
    patched g old new w (err e, m) = (ran_into (prefixed (str "patch generation: ") e), new, (w, m))
    patched g old new w (ok (t, patch), m) =
        if patch == str "{}"
        then (ran false, new, (w, m))
        else cleaned g old new t (sanitize_patch l.unmarshal l.marshal patch false) (w, m)

    -- applyPatch
    unfoldable pub apply_patch : Gvk → Object → Object → State → Ran × Object × State
    unfolding original_and_modified create_patch
    apply_patch g old new (w, m) = elim (original_and_modified g old new) [
      | err e ↦ (ran_into e, new, (w, m))
      | ok (original, modified) ↦ elim (l.marshal_object old) [
        | err e ↦ (ran_into e, new, (w, m))
        | ok current ↦ patched g old new w (create_patch g original modified current m)
      ]
    ]

    abbrev pub copied : Option Error → Object → Object → State → Compared × Object × State
    copied (some e) old new s = (compared (some e), new, s)
    copied none old new s = (compared none, old, s)

    abbrev pub after_patch : Object → Ran × Object × State → Compared × Object × State
    after_patch old (must_replace, new, s) = (replace, new, s)
    after_patch old (ran_into e, new, s) = (compared (some e), new, s)
    after_patch old (ran true, new, s) = (compared none, new, s)
    after_patch old (ran false, new, s) =
        if ensure then copied (l.not_assignable old new) old new s else (compared none, new, s)

    -- compareObjects
    unfoldable pub compare_objects : Gvk → Object → Object → State → Compared × Object × State
    unfolding apply_patch
    compare_objects g old new s = after_patch old (apply_patch g old new s)

    -- what `process` takes
    abbrev pub patcher : Patcher State
    patcher = record {
      prepare_object_for_create = prepare_object_for_create;
      compare_objects = compare_objects;
    }
