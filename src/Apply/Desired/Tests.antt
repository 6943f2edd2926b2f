-- ===== src/Apply/Desired/Tests.antt =====
-- An apply on a cluster that is a list of the objects of one kind.
use baaah.Prelude.{true, some, str, [], ◌∷◌, ◌≡◌, refl, list_eq, nat_eq}
use baaah.Prelude.Map
use baaah.Objects.{Object}
use baaah.Errors.{ok}
use baaah.Apply.ObjectSet.{object_key_eq, ObjectSet, key_of, new_object_set}
use baaah.Apply.Labels.{label_hash}
use baaah.Apply.Namespaces.{assign_each, assign_owner_reference}
use baaah.Apply.Namespaces.Laws.{owned_at, assign_owner_reference-owned}
use baaah.Apply.Process.Tests.{cluster_client, pod, a, b}
use baaah.Apply.Desired.{inject_labels_and_annotations}
use baaah.Apply.Desired.Marks.{inject_labels_and_annotations-IsMarked, IsMarked, Each}

abbrev given : ObjectSet
given = (new_object_set (λ o. ok o.gvk) (some a ∷ some b ∷ [])).1

inject_labels_and_annotations-IsMarked_example :
    Each
      (IsMarked ((label_hash, str "1") ∷ []) [])
      (inject_labels_and_annotations cluster_client ((label_hash, str "1") ∷ []) [] given).1
unfolding Map.get
inject_labels_and_annotations-IsMarked_example =
    inject_labels_and_annotations-IsMarked cluster_client ((label_hash, str "1") ∷ []) [] given
      (refl, tt) tt

abbrev owner : Object
owner = record a { uid = str "1" }

assign_owner_reference-owned_example :
    owned_at owner
      (key_of a)
      (assign_each true true pod owner ((key_of a, a) ∷ []) ((key_of a, a) ∷ []))
    ≡ true
unfolding assign_owner_reference
assign_owner_reference-owned_example =
    assign_owner_reference-owned cluster_client pod pod owner ((key_of a, a) ∷ []) _ true true
      (key_of a) refl refl refl refl refl
