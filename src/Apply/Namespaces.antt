-- ===== src/Apply/Namespaces.antt =====
-- The namespaces and the owner of the objects of one kind, of pkg/apply/desiredset_process.go. The
-- loops visit the keys that were there at the beginning, in the order of the entries, and each round
-- reads the entry of its key as it is then. Go may visit an entry again that a loop has put back under
-- another key; it finds nothing to do there.
pub mod Laws
pub mod Keys
use baaah.Prelude.{
  ℕ, Bool, true, false, not, ◌&&◌, ◌||◌, Option, none, some, Str, List, [], ◌∷◌, ◌++◌, any,
  if◌then◌else◌, ◌==◌, list_eq, nat_eq,
}
use baaah.Prelude.Map
use baaah.Prelude.Map.{Map}
use baaah.Objects.{Gvk, GroupKind, group_kind, Object, OwnerReference}
use baaah.Errors.{Error, Result, ok, err}
use baaah.Apply.ObjectSet.{ObjectKey, object_key_eq, ObjectByKey, ObjectSet, contains}
use baaah.Apply.Labels.{annotation_prune}
use baaah.Apply.Compare.{should}
use baaah.Apply.Client.{Client, group_version}

-- v.SetNamespace(ns); delete(objs, k); k.Namespace = ns; objs[k] = v
abbrev pub move_to : Str → ObjectKey → Object → ObjectByKey → ObjectByKey
move_to ns k v m =
    Map.insert (record k { namespace = ns }) (record v { namespace = ns }) (Map.delete k m)

-- A round of `for k, v := range objs`, which reads the entry of `k` and passes it over if it is gone.
abbrev pub visit :
    (ObjectKey → Object → ObjectByKey → ObjectByKey) → ObjectKey → ObjectByKey → ObjectByKey
visit f k m = elim (Map.get k m) [ none ↦ m | some v ↦ f k v m ]

abbrev pub adjust_one : Str → ObjectKey → Object → ObjectByKey → ObjectByKey
adjust_one ns k v m = if not (k.namespace == []) then m else move_to ns k v m

pub adjust_each : Str → ObjectByKey → ObjectByKey → ObjectByKey
adjust_each ns [] m = m
adjust_each ns ((k, _) ∷ rest) m = adjust_each ns rest (visit (adjust_one ns) k m)

-- adjustNamespace, with the default namespace
unfoldable pub adjust_namespace : Str → ObjectByKey → ObjectByKey
unfolding adjust_each
adjust_namespace ns objs = adjust_each ns objs objs

abbrev pub clear_one : ObjectKey → Object → ObjectByKey → ObjectByKey
clear_one k v m = if k.namespace == [] then m else move_to [] k v m

pub clear_each : ObjectByKey → ObjectByKey → ObjectByKey
clear_each [] m = m
clear_each ((k, _) ∷ rest) m = clear_each rest (visit clear_one k m)

-- clearNamespace
unfoldable pub clear_namespace : ObjectByKey → ObjectByKey
unfolding clear_each
clear_namespace objs = clear_each objs objs

-- filterCrossVersion, with the default namespace
unfoldable pub filter_cross_version : Str → ObjectSet → Gvk → List ObjectKey → List ObjectKey
filter_cross_version ns objs g [] = []
filter_cross_version ns objs g (k ∷ ks) =
    let rest = filter_cross_version ns objs g ks in
    if contains (group_kind g) k objs
    then rest
    else if k.namespace == ns
        && contains (group_kind g) (record { name = k.name; namespace = [] }) objs
    then rest
    else k ∷ rest

abbrev pub owner_reference : Gvk → Object → OwnerReference
owner_reference g owner = record {
  api_version = group_version g;
  kind = g.kind;
  name = owner.name;
  uid = owner.uid;
}

-- the loop over the owner references, and what follows it
abbrev pub has_owner : Str → Object → Bool
has_owner uid v = any (λ r. uid == r.uid) v.owner_references

abbrev pub set_owner : Gvk → Object → Object → Object
set_owner g owner v =
    if not (has_owner owner.uid v) && not (owner.uid == []) && should v annotation_prune
    then record v { owner_references = v.owner_references ++ owner_reference g owner ∷ [] }
    else v

-- One round of the loop of assignOwnerReference, past the tests on the scopes. `nsed` is the scope of
-- the kind and `owner_nsed` that of the owner's.
abbrev pub assign_one : Bool → Bool → Gvk → Object → ObjectKey → Object → ObjectByKey → ObjectByKey
assign_one nsed owner_nsed owner_gvk owner k v m =
    if owner_nsed && not nsed
    then m
    else if nsed && not (k.namespace == []) && not (k.namespace == owner.namespace) && owner_nsed
    then m
    else if nsed && k.namespace == []
    then Map.insert (record k { namespace = owner.namespace })
        (set_owner owner_gvk owner (record v { namespace = owner.namespace })) (Map.delete k m)
    else Map.insert k (set_owner owner_gvk owner v) m

pub assign_each : Bool → Bool → Gvk → Object → ObjectByKey → ObjectByKey → ObjectByKey
assign_each nsed owner_nsed owner_gvk owner [] m = m
assign_each nsed owner_nsed owner_gvk owner ((k, _) ∷ rest) m =
    assign_each nsed owner_nsed owner_gvk owner rest
      (visit (assign_one nsed owner_nsed owner_gvk owner) k m)

module _ {W : Type 0} (c : Client W) where
  -- IsNamespaced
  abbrev pub is_namespaced : Gvk → Result Bool
  is_namespaced g = c.rest_mapping (group_kind g) g.version

  -- The loop asks for the scope of the kind in every round: not at all if there is no object.
  abbrev pub assign_loop : Gvk → Bool → Gvk → Object → ObjectByKey → Result ObjectByKey
  assign_loop g owner_nsed owner_gvk owner [] = ok []
  assign_loop g owner_nsed owner_gvk owner (e ∷ objs) = elim (is_namespaced g) [
    | err x ↦ err x
    | ok nsed ↦ ok (assign_each nsed owner_nsed owner_gvk owner (e ∷ objs) (e ∷ objs))
  ]

  -- assignOwnerReference, for an owner that is not nil
  unfoldable pub assign_owner_reference : Gvk → Object → ObjectByKey → Result ObjectByKey
  unfolding assign_each
  assign_owner_reference g owner objs = elim (c.gvk_for_object owner) [
    | err x ↦ err x
    | ok owner_gvk ↦ elim (is_namespaced owner_gvk) [
      | err x ↦ err x
      | ok owner_nsed ↦ assign_loop g owner_nsed owner_gvk owner objs
    ]
  ]
