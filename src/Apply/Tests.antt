-- ===== src/Apply/Tests.antt =====
-- The laws of package apply at concrete objects.
use baaah.Prelude.{arith, Option, none, some, Str, str, List, [], ◌∷◌, ◌≡◌, refl, count}
use baaah.Prelude.Map
use baaah.Prelude.Map.{Map}
use baaah.Objects.{Gvk, gvk_eq, Object, blank_object}
use baaah.Errors.{Result, ok, err, plain}
use baaah.Apply.Sort.{sort}
use baaah.Apply.ObjectSet.{object_key_eq, ObjectByKey, ObjectSet, key_of, new_object_set}
use baaah.Apply.ObjectSet.Laws.{find, last_of, IsValid, new_object_set-IsValid, find-new_object_set}
use baaah.Apply.Owner.{of_result, find_owner}
use baaah.Apply.Owner.Laws.{with_applied, gvk_text, find_owner-get_labels_and_annotations}
use baaah.Apply.Labels.{
  label_hash, label_gvk, label_applied, set_annotations, object_set_hash, owner_annotations,
  sub_context_annotations, get_labels_and_annotations, annotation_prune,
}
use baaah.Apply.Labels.Laws.{owner_collision}
use baaah.Apply.Compare.{compare_sets, should}
use baaah.Apply.Compare.Laws.{creates, updates, deletes, count-compare_sets}

abbrev pod : Gvk
pod = record { group = []; version = str "v1"; kind = str "Pod" }

abbrev secret : Gvk
secret = record { group = []; version = str "v1"; kind = str "Secret" }

-- the objects without a version of the API are not in the scheme
abbrev gvk_of : Object → Result Gvk
gvk_of o = elim o.gvk.version [ [] ↦ err (plain (str "no kind")) | c ∷ cs ↦ ok o.gvk ]

abbrev old_a : Object
old_a = blank_object pod (str "ns") (str "a")

abbrev new_a : Object
new_a = record old_a { generation = 2 }

abbrev b : Object
b = blank_object secret (str "ns") (str "b")

abbrev given : List (Option Object)
given = some old_a ∷ none ∷ some b ∷ some new_a ∷ []

find-new_object_set_example :
    find (new_object_set gvk_of given).1 pod (key_of old_a)
    ≡ last_of gvk_of pod (key_of old_a) given
unfolding new_object_set
find-new_object_set_example = find-new_object_set gvk_of pod (key_of old_a) given refl

last_of_example : last_of gvk_of pod (key_of old_a) given ≡ some new_a
last_of_example = refl

new_object_set-IsValid_example : IsValid (new_object_set gvk_of given).1
new_object_set-IsValid_example = new_object_set-IsValid gvk_of given

abbrev set : ObjectSet
set = (new_object_set gvk_of (some b ∷ [])).1

-- `a` is in both sets, `b` is new, `c` is gone and `d` is gone but not to be pruned.
abbrev c : Object
c = blank_object pod (str "ns") (str "c")

abbrev d : Object
d = record (blank_object pod (str "ns") (str "d")) {
  annotations = (annotation_prune, str "false") ∷ [];
}

abbrev existing : ObjectByKey
existing = (key_of c, c) ∷ (key_of old_a, old_a) ∷ (key_of d, d) ∷ []

abbrev wanted : ObjectByKey
wanted = (key_of new_a, new_a) ∷ (key_of b, b) ∷ []

existing-Distinct : Map.Distinct existing
unfolding Map.get
existing-Distinct = (refl, (refl, (refl, tt)))

wanted-Distinct : Map.Distinct wanted
unfolding Map.get
wanted-Distinct = (refl, (refl, tt))

count-compare_sets_example :
    (count (key_of c) (compare_sets (λ s. s) existing wanted).to_create
      ≡ creates existing wanted (key_of c))
    × (count (key_of c) (compare_sets (λ s. s) existing wanted).to_update
        ≡ updates existing wanted (key_of c))
    × (count (key_of c) (compare_sets (λ s. s) existing wanted).to_delete
        ≡ deletes (λ s. s) existing wanted (key_of c))
count-compare_sets_example =
    count-compare_sets (λ s. s) existing wanted (key_of c) existing-Distinct wanted-Distinct

compare_sets_test :
    compare_sets (λ s. s) existing wanted
    ≡ record { to_create = key_of b ∷ []; to_delete = key_of c ∷ []; to_update = key_of new_a ∷ [] }
unfolding compare_sets sort Map.get should
compare_sets_test = refl

owner_collision_example :
    (la : Map Str Str) × (aa : Map Str Str) × (ab : Map Str Str) × (get_labels_and_annotations
        (λ s. s)
        (λ g. g.kind)
        gvk_of
        (str "sub")
        (some (blank_object pod (str "prod") (str "web-")))
      ≡ ok (la, aa))
    × (get_labels_and_annotations
          (λ s. s)
          (λ g. g.kind)
          gvk_of
          (str "sub")
          (some (blank_object pod (str "-prod") (str "web")))
        ≡ ok (la, ab))
owner_collision_example =
    owner_collision (λ s. s) (λ g. g.kind) gvk_of (str "sub") (str "web") (str "-") (str "prod") pod
      (blank_object pod (str "prod") (str "web-")) (blank_object pod (str "-prod") (str "web")) refl
      refl refl refl refl refl

-- `web` is the owner of an object with the annotations of an apply.
abbrev web : Object
web =
    blank_object (record { group = str "apps"; version = str "v1"; kind = str "App" }) (str "prod")
      (str "web")

abbrev noted : Map Str Str
noted = owner_annotations gvk_text web.gvk web (sub_context_annotations (str "sub"))

-- The object had annotations before, those of another apply too.
abbrev annotated : Object
annotated = record b {
  annotations = (str "note", str "x") ∷ (label_gvk, str "old") ∷ (label_applied, str "old") ∷ [];
}

find_owner-get_labels_and_annotations_example :
    find_owner
      (λ g ns n. ok (blank_object g ns n))
      (some (with_applied (str "{}") (set_annotations noted annotated)))
    ≡ of_result (ok (blank_object web.gvk (str "prod") (str "web")))
unfolding get_labels_and_annotations
find_owner-get_labels_and_annotations_example =
    find_owner-get_labels_and_annotations (λ s. s) gvk_text gvk_of
      (λ g ns n. ok (blank_object g ns n)) (str "sub") web web.gvk
      ((label_hash, object_set_hash (λ s. s) noted) ∷ []) noted annotated (str "{}") refl refl
      (ground arith) (ground arith) (ground arith) refl
