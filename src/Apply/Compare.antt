-- ===== src/Apply/Compare.antt =====
-- compareSets of pkg/apply/desiredset_process.go: which objects to create, to delete and to update.
pub mod Laws
use baaah.Prelude.{
  Bool, true, false, Option, none, some, Str, str, List, [], ◌∷◌, ◌++◌, ◌&&◌, ◌||◌, ◌==◌, list_eq,
  nat_eq, not, is_some, if◌then◌else◌,
}
use baaah.Prelude.Map
use baaah.Prelude.Map.{Map}
use baaah.Objects.{Object}
use baaah.Apply.Sort.{sort}
use baaah.Apply.ObjectSet.{ObjectKey, object_key_eq, ObjectByKey, string}
use baaah.Apply.Labels.{
  read, object_set_hash, label_hash, annotation_prune, annotation_create, annotation_update,
}

-- should
unfoldable pub should : Object → Str → Bool
should o label = not (read label o.annotations == str "false")

-- toCreate, toDelete, toUpdate
pub record Comparison : Type 0 where
  pub to_create : List ObjectKey
  pub to_delete : List ObjectKey
  pub to_update : List ObjectKey

has_key : ObjectKey → ObjectByKey → Bool
has_key k m = is_some (Map.get k m)

-- !ok || labelHash == objectSetHash(obj.GetAnnotations())
abbrev pub hash_agrees : (Str → Str) → Object → Bool
hash_agrees hash o = elim (Map.get label_hash o.labels) [
  | none ↦ true
  | some h ↦ h == object_set_hash hash o.annotations
]

abbrev pub deletable : (Str → Str) → Object → Bool
deletable hash o = should o annotation_prune && not o.deleting && hash_agrees hash o

-- the loop over newSet
compare_new : ObjectByKey → ObjectByKey → List ObjectKey × List ObjectKey
unfolding has_key
compare_new existing [] = ([], [])
compare_new existing ((k, o) ∷ m) =
    let (create, update) = compare_new existing m in
    if has_key k existing
    then (create, if should o annotation_update then k ∷ update else update)
    else (if should o annotation_create then k ∷ create else create, update)

-- the loop over existingSet
compare_existing : (Str → Str) → ObjectByKey → ObjectByKey → List ObjectKey
unfolding has_key
compare_existing hash new [] = []
compare_existing hash new ((k, o) ∷ m) =
    let rest = compare_existing hash new m in
    if has_key k new then rest else if deletable hash o then k ∷ rest else rest

unfoldable pub compare_sets : (Str → Str) → ObjectByKey → ObjectByKey → Comparison
unfolding compare_new compare_existing
compare_sets hash existing new =
    let (create, update) = compare_new existing new in
    record {
      to_create = sort string create;
      to_delete = sort string (compare_existing hash new existing);
      to_update = sort string update;
    }
