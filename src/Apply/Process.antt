-- ===== src/Apply/Process.antt =====
-- process of pkg/apply/desiredset_process.go, with the listing before it: the objects of one kind are
-- created, updated, pruned and replaced.
pub mod Laws
pub mod Calls
pub mod Runs
pub mod Listing
pub mod Safety
pub mod Unpruned
pub mod Tests
use baaah.Prelude.{
  ℕ, Bool, true, false, not, ◌&&◌, ◌||◌, Option, none, some, Str, str, List, [], ◌∷◌, ◌++◌, map,
  if◌then◌else◌, ◌==◌, list_eq, nat_eq,
}
use baaah.Prelude.Map
use baaah.Prelude.Map.{Map}
use baaah.Objects.{Gvk, gvk_eq, Object, Selector}
use baaah.Errors.{Error, plain, prefixed, Result, ok, err}
use baaah.Merr.{new_errors}
use baaah.Apply.ObjectSet.{ObjectKey, object_key_eq, ObjectByKey, ObjectSet, key_of, string}
use baaah.Apply.Labels.{
  read, label_hash, label_sub_context, label_gvk, label_namespace, label_name, annotation_prune,
  annotation_create, annotation_update,
}
use baaah.Apply.Compare.{should, Comparison, compare_sets}
use baaah.Apply.Owner.{is_allow_owner_transition, is_assigning_sub_context}
use baaah.Apply.Client.{Client, new_obj, is_not_found, is_already_exists}
use baaah.Apply.Namespaces.{
  is_namespaced, assign_owner_reference, adjust_namespace, clear_namespace, filter_cross_version,
}

-- The fields of `apply` that are read here, `debugID`, what AddValidOwnerChange has stored, the hash
-- and GroupVersionKind.String.
pub record Options : Type 0 where
  pub default_namespace : Str
  pub lister_namespace : Str
  pub owner : Option Object
  pub ensure : Bool
  pub no_prune : Bool
  pub debug_id : Str
  pub valid_owner_change : List Str
  pub hash : Str → Str
  pub gvk_string : Gvk → Str

-- What compareObjects returns: ErrReplace, or another error or nil.
pub data Compared : Type 0 where
  replace : Compared
  compared : Option Error → Compared

-- prepareObjectForCreate, with `clone`, and compareObjects, with the new object as it leaves it.
pub record Patcher (W : Type 0) : Type 0 where
  pub prepare_object_for_create : Gvk → Object → Bool → Result Object
  pub compare_objects : Gvk → Object → Object → W → Compared × Object × W

-- What the closures of `process` share.
pub record Progress (W : Type 0) : Type 0 where
  pub objs : ObjectByKey
  pub existing : ObjectByKey
  pub to_update : List ObjectKey
  pub to_replace : List ObjectKey
  pub outside : W

abbrev pub with_outside : {W : Type 0} → W → Progress W → Progress W
with_outside w s = record s { outside = w }

-- objs[k] of a key that is missing is nil, on which the code panics.
abbrev pub nil_object : Error
nil_object = plain (str "invalid memory address or nil pointer dereference")

-- addObjectToMap
abbrev pub add_object_to_map : Object → ObjectByKey → ObjectByKey
add_object_to_map o m = Map.insert (key_of o) o m

abbrev pub add_all : List Object → ObjectByKey → ObjectByKey
add_all [] m = m
add_all (o ∷ os) m = add_all os (add_object_to_map o m)

module _ {W : Type 0} (c : Client W) (p : Patcher W) (a : Options) (g : Gvk) where
  -- listBySelector
  abbrev pub items : Result (List Object) × W → Result ObjectByKey × W
  items (err e, w) = (err e, w)
  items (ok os, w) = (ok (add_all os []), w)

  unfoldable pub list_by_selector : Selector → W → Result ObjectByKey × W
  unfolding new_obj
  list_by_selector sel w = elim (new_obj c (record g { kind = g.kind ++ str "List" })) [
    | some e ↦ (err e, w)
    | none ↦ items (c.list g a.lister_namespace sel w)
  ]

  list_each : ObjectByKey → ObjectByKey → W → Result ObjectByKey × W
  list_each [] m w = (ok m, w)
  list_each ((k, v) ∷ objs) m w =
      let (r, w') = c.get g k.namespace k.name w in
      elim r [
        | ok o ↦ list_each objs (Map.insert k o m) w'
        | err e ↦ elim (is_not_found e) [ true ↦ list_each objs m w' | false ↦ (err e, w') ]
      ]

  -- list
  unfoldable pub list_existing : Option Selector → ObjectByKey → W → Result ObjectByKey × W
  unfolding list_by_selector list_each
  list_existing (some sel) objs w = list_by_selector sel w
  list_existing none objs w = list_each objs [] w

  -- "failed to <what> <key> <kind> for <debugID>: "
  abbrev pub failed_to : Str → ObjectKey → Str
  failed_to what k =
      (str "failed to ")
      ++ (what
          ++ (str " "
              ++ (string k
                  ++ (str " " ++ (a.gvk_string g ++ (str " for " ++ (a.debug_id ++ str ": ")))))))

  abbrev pub failed_owned : ObjectKey → Object → Str
  failed_owned k o =
      (str "failed to update existing owned object ")
      ++ (string k
          ++ (str " "
              ++ (a.gvk_string g
                  ++ (str " for "
                      ++ (a.debug_id
                          ++ (str ", old subcontext ["
                              ++ (read label_sub_context o.annotations
                                  ++ (str "] gvk ["
                                      ++ (read label_gvk o.annotations
                                          ++ (str "] namespace ["
                                              ++ (read label_namespace o.annotations
                                                  ++ (str "] name ["
                                                      ++ (read label_name o.annotations
                                                          ++ str "]: ")))))))))))))

  -- With `ensure` the object that is created or patched is the caller's own.
  abbrev pub keep : ObjectKey → Object → Progress W → Progress W
  keep k o s = if a.ensure then record s { objs = Map.insert k o s.objs } else s

  -- The object was there already: it is taken over, unless another owner has it.
  abbrev pub is_foreign : Object → Object → Bool
  is_foreign existing obj =
      not (read label_hash existing.labels == [])
      && not (is_assigning_sub_context existing obj)
      && not (is_allow_owner_transition a.valid_owner_change existing obj)

  abbrev pub take_over :
      ObjectKey → Object → Error → Result Object × W → Progress W → Option Error × Progress W
  take_over k obj e (err x, w) s =
      (some (prefixed (failed_to (str "create") k) e), with_outside w s)
  take_over k obj e (ok existing, w) s =
      if is_foreign existing obj
      then (some (prefixed (failed_owned k existing) e), with_outside w s)
      else (
        none,
        record s {
          existing = Map.insert k existing s.existing;
          to_update = (if should obj annotation_update then s.to_update ++ k ∷ [] else s.to_update);
          outside = w;
        },
      )

  -- the answer of Create
  abbrev pub created :
      ObjectKey → Option Error × Object × W → Progress W → Option Error × Progress W
  created k (none, obj, w) s = (none, keep k obj (with_outside w s))
  created k (some e, obj, w) s =
      let s1 = keep k obj (with_outside w s) in
      if is_already_exists e
      then take_over k obj e (c.get g k.namespace k.name w) s1
      else (some (prefixed (failed_to (str "create") k) e), s1)

  abbrev pub create_prepared : ObjectKey → Result Object → Progress W → Option Error × Progress W
  create_prepared k (err e) s = (some (prefixed (failed_to (str "prepare create") k) e), s)
  create_prepared k (ok obj) s = created k (c.create obj s.outside) s

  -- createF
  unfoldable pub create_one : ObjectKey → Progress W → Option Error × Progress W
  create_one k s = elim (Map.get k s.objs) [
    | none ↦ (some nil_object, s)
    | some v ↦ create_prepared k (p.prepare_object_for_create g v (not a.ensure)) s
  ]

  -- deleteF
  unfoldable pub delete_one : ObjectKey → Progress W → Option Error × Progress W
  delete_one k s =
      let (e, w) = c.delete g k.namespace k.name s.outside in
      elim e [
        | none ↦ (none, with_outside w s)
        | some x ↦ (some (prefixed (failed_to (str "delete") k) x), with_outside w s)
      ]

  -- Whether an object that cannot be patched may be deleted and created again.
  abbrev pub may_replace : Object → Object → Bool
  may_replace old new =
      read annotation_update new.annotations == str "true"
      || (should old annotation_prune && should old annotation_create)

  abbrev pub updated :
      ObjectKey → Object → Compared × Object × W → Progress W → Option Error × Progress W
  updated k old (replace, new, w) s =
      let s1 = keep k new (with_outside w s) in
      (none, if may_replace old new then record s1 { to_replace = s1.to_replace ++ k ∷ [] } else s1)
  updated k old (compared none, new, w) s = (none, keep k new (with_outside w s))
  updated k old (compared (some e), new, w) s =
      (some (prefixed (failed_to (str "update") k) e), keep k new (with_outside w s))

  -- updateF
  unfoldable pub update_one : ObjectKey → Progress W → Option Error × Progress W
  update_one k s = elim (Map.get k s.existing) [
    | none ↦ (some nil_object, s)
    | some old ↦ elim (Map.get k s.objs) [
      | none ↦ (some nil_object, s)
      | some new ↦ updated k old (p.compare_objects g old new s.outside) s
    ]
  ]

  -- for _, k := range keys { errs = append(errs, f(k)) }
  pub each :
      (ObjectKey → Progress W → Option Error × Progress W)
      → List ObjectKey
      → Progress W
      → List (Option Error) × Progress W
  each f [] s = ([], s)
  each f (k ∷ ks) s = let (e, s1) = f k s in let (es, s2) = each f ks s1 in (e ∷ es, s2)

  -- The loops. Those over toUpdate and toReplace see what the loops before them have added.
  abbrev pub run_all :
      List ObjectKey → List ObjectKey → Progress W → List (Option Error) × Progress W
  run_all to_create to_delete s =
      let (es1, s1) = each create_one to_create s in
      let (es2, s2) = each update_one s1.to_update s1 in
      let (es3, s3) = each delete_one (if a.no_prune then [] else to_delete) s2 in
      let (es4, s4) = each delete_one s3.to_replace s3 in
      let (es5, s5) = each create_one s3.to_replace s4 in
      (es1 ++ (es2 ++ (es3 ++ (es4 ++ es5))), s5)

  -- past the listing
  abbrev pub act : ObjectSet → ObjectByKey → ObjectByKey → W → Option Error × W
  act all_objs objs existing w =
      let sets = compare_sets a.hash existing objs in
      let (es, s) =
        run_all sets.to_create (filter_cross_version a.default_namespace all_objs g sets.to_delete)
          (record {
            objs = objs;
            existing = existing;
            to_update = sets.to_update;
            to_replace = [];
            outside = w;
          }) in
      (new_errors es, s.outside)

  abbrev pub failed_to_list : Str
  failed_to_list =
      (str "failed to list ") ++ (a.gvk_string g ++ (str " for " ++ (a.debug_id ++ str ": ")))

  abbrev pub listed : ObjectSet → ObjectByKey → Result ObjectByKey × W → Option Error × W
  listed all_objs objs (err e, w) = (some (prefixed failed_to_list e), w)
  listed all_objs objs (ok existing, w) = act all_objs objs existing w

  -- if a.owner != nil { assignOwnerReference }
  abbrev pub assign_owner : ObjectByKey → Result ObjectByKey
  assign_owner objs = elim a.owner [ none ↦ ok objs | some o ↦ assign_owner_reference c g o objs ]

  abbrev pub place_objects : Bool → ObjectByKey → ObjectByKey
  place_objects nsed objs =
      if nsed then adjust_namespace a.default_namespace objs else clear_namespace objs

  -- process
  unfoldable pub process : Option Selector → ObjectSet → W → Option Error × W
  unfolding create_one delete_one update_one each list_existing
  process sel all_objs w = elim (is_namespaced c g) [
    | err e ↦ (some e, w)
    | ok nsed ↦ elim (assign_owner (Map.get_list g all_objs.objects)) [
      | err e ↦ (some e, w)
      | ok assigned ↦
          let objs = place_objects nsed assigned in listed all_objs objs (list_existing sel objs w)
    ]
  ]
