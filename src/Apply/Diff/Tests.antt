-- ===== src/Apply/Diff/Tests.antt =====
-- Patches of small documents, and a patcher for the cluster of the tests of `process`.
use baaah.Prelude.{
  true, false, is_some, inl, inr, Bool-cases, eq_iff, none, some, Str, str, [], ◌∷◌, ◌++◌, ◌≡◌,
  refl, sym, arith, any-append, ◌==◌, list_eq, nat_eq,
}
use mathlib.Core.Path.{subst}
use baaah.Prelude.Map
use baaah.Objects.{Object}
use baaah.Errors.{plain, ok}
use baaah.Json.{Value, string, list, object, Values, nil, cons, Members, empty, entry, lookup}
use baaah.Apply.ObjectSet.{object_key_eq, key_of}
use baaah.Apply.Client.{Client}
use baaah.Prelude.Map.{Map}
use baaah.Objects.{gvk_eq, Gvk}
use baaah.Apply.ObjectSet.{ObjectKey, ObjectByKey, ObjectSet, new_object_set}
use baaah.Apply.Labels.{get_labels_and_annotations, set_labels, set_annotations}
use baaah.Apply.Namespaces.{adjust_namespace}
use baaah.Apply.Process.{Patcher}
use baaah.Apply.Process.Safety.{placed}
use baaah.Apply.Desired.{
  Settings, Texts, new, with_no_prune, with_owner_sub_context, options_of, apply_set,
  inject_labels_and_annotations,
}
use baaah.Apply.Desired.Laws.{produced, Harmless, apply_set-harmless}
use baaah.Apply.Process.Tests.{Cluster, cluster_client, pod, a, b, has, has-filter}
use baaah.Apply.Patch.{
  Codec, prune_values, sanitize, applied_to_annotation, applied_from_annotation,
}
use baaah.Apply.Patch.Laws.{
  members_fit, members_fit-prune_values, applied_from_annotation-applied_to_annotation,
}
use baaah.Apply.Patch.Clean.{lookup-sanitize}
use baaah.Apply.Diff.{
  must_replace, Ran, Styles, PatchCache, Library, patcher, get_merge_style, merge_entry,
}
use baaah.Apply.Diff.Laws.{compare_objects-holds}

abbrev patch : Members
patch = entry (str "kind") (string (str "Pod")) (
    entry (str "metadata")
      (object (entry (str "uid") (string (str "1")) (entry (str "name") (string (str "a")) empty)))
      empty)

lookup-sanitize_example :
    lookup (str "metadata") (sanitize false patch).1
    ≡ some (object (entry (str "name") (string (str "a")) empty))
unfolding lookup baaah.Json.remove baaah.Apply.Patch.drop_keys
lookup-sanitize_example = lookup-sanitize (str "metadata") patch

abbrev document : Members
document =
    entry (str "data")
      (string (str "0123456789012345678901234567890123456789012345678901234567890123456789"))
      (entry (str "ports")
        (list (cons (object (entry (str "name") (string (str "http")) empty)) nil)) empty)

members_fit-prune_values_example : members_fit false (prune_values (λ s. s) false document) ≡ true
members_fit-prune_values_example = members_fit-prune_values (λ s. s) false document

-- a codec that marks what it has encoded
abbrev marks : Codec
marks = record {
  gzip = λ s. some s;
  gunzip = λ s. some s;
  encode = λ s. str "H" ++ s;
  decode = λ s. elim s [ [] ↦ none | c ∷ rest ↦ some rest ];
}

applied_from_annotation-applied_to_annotation_example :
    applied_from_annotation marks (applied_to_annotation marks (str "{}")) ≡ str "{}"
applied_from_annotation-applied_to_annotation_example =
    applied_from_annotation-applied_to_annotation marks b'{' (str "}") refl (λ z h. sym h)
      (λ z. refl) (λ z h. (b'H', z, refl, λ e. ground (arith, e)))

abbrev styles : Styles Str
styles = record {
  scheme_new = λ g. some (plain (str "not registered"));
  is_not_registered = λ e. true;
  new_patch_meta = λ g. ok [];
}

abbrev library : Library Str Cluster
library = record {
  to_map_interface = λ o. ok document;
  marshal_object = λ o. ok o.name;
  of_map = λ m. a;
  unmarshal = λ s. ok empty;
  marshal = λ m. ok (str "{}");
  digest = λ s. s;
  codec = marks;
  strategic_merge = λ l o m c. ok m;
  json_merge = λ o m c. ok m;
  patch = λ o t p w. (none, o, w);
  not_assignable = λ o n. none;
}

abbrev World : Type 0
World = Cluster × PatchCache styles

abbrev world_client : Client World
world_client = record {
  gvk_for_object = λ o. ok o.gvk;
  rest_mapping = λ gk v. ok true;
  new_requirement = λ k v. ok (record { matches = λ m. true; string = [] });
  scheme_new = λ g. none;
  is_not_registered = λ e. false;
  create = λ o s. let (e, o', w) = cluster_client.create o s.0 in (e, o', (w, s.1));
  get = λ g ns n s. let (r, w) = cluster_client.get g ns n s.0 in (r, (w, s.1));
  list = λ g ns sel s. let (r, w) = cluster_client.list g ns sel s.0 in (r, (w, s.1));
  delete = λ g ns n s. let (e, w) = cluster_client.delete g ns n s.0 in (e, (w, s.1));
}

abbrev HasA : World → Type 0
HasA s = has (key_of a) s.0 ≡ true

-- the reconcilers of the program may ask for a replacement of objects of their kind
abbrev reconcilers : Map Gvk (Object → Object → Ran)
reconcilers = (pod, λ old new. must_replace) ∷ []

abbrev texts : Texts
texts = record { hash = λ s. s; gvk_string = λ g. g.kind; valid_owner_change = [] }

abbrev real_patcher : Gvk → Patcher World
real_patcher g = patcher library styles false reconcilers

abbrev unpruned : Settings
unpruned = with_no_prune (with_owner_sub_context (str "sub") new)

abbrev wanted : ObjectSet
wanted = (new_object_set (λ o. ok o.gvk) (some b ∷ [])).1

abbrev marked : ObjectSet
marked = produced world_client texts real_patcher HasA unpruned wanted

abbrev placed_at : Gvk → ObjectByKey
placed_at g =
    placed world_client (real_patcher g) (options_of world_client texts real_patcher unpruned) g
      marked

abbrev first_object : ObjectByKey → Object
first_object [] = b
first_object ((k, o) ∷ m) = o

-- `b` alone is wanted, in the default namespace,
abbrev key_of_b : ObjectKey
key_of_b = record (key_of b) { namespace = str "default" }

at_pod : (o : Object) × (placed_at pod ≡ (key_of_b, o) ∷ [])
unfolding get_labels_and_annotations inject_labels_and_annotations adjust_namespace Map.get
    Map.get_list new_object_set Map.insert Map.delete set_annotations set_labels
at_pod = (first_object (placed_at pod), refl)

not_a :
    (o : Object) (k : ObjectKey)
    → is_some (Map.get k ((key_of_b, o) ∷ [])) ≡ true
    → (k == key_of a) ≡ false
unfolding Map.get
not_a o k h = ground (arith, h, eq_iff key_of_b k, eq_iff k (key_of a))

placed_at-pod :
    (k : ObjectKey) → is_some (Map.get k (placed_at pod)) ≡ true → (k == key_of a) ≡ false
placed_at-pod k h =
    let (o, e) = at_pod in not_a o k (subst (λ (m : ObjectByKey). is_some (Map.get k m) ≡ true) e h)

no_other : (g : Gvk) → (pod == g) ≡ false → Map.get_list g marked.objects ≡ []
unfolding get_labels_and_annotations inject_labels_and_annotations Map.get Map.get_list
    new_object_set Map.insert set_annotations set_labels
no_other g e = rw e refl

placed_at-eq-nil : (g : Gvk) → (pod == g) ≡ false → placed_at g ≡ []
unfolding adjust_namespace
placed_at-eq-nil g e = rw (no_other g e, placed) refl

none_at :
    (k : ObjectKey)
    → is_some (Map.get k (let m : ObjectByKey = [] in m)) ≡ true
    → (k == key_of a) ≡ false
unfolding Map.get
none_at k h = ground (arith, h)

-- so that `a` is never deleted.
placed-ne :
    (g : Gvk) (k : ObjectKey) → is_some (Map.get k (placed_at g)) ≡ true → (k == key_of a) ≡ false
unfolding Map.get
placed-ne g k h = elim (Bool-cases (pod == g)) [
  | inl e ↦
      subst (λ x. is_some (Map.get k (placed_at x)) ≡ true → (k == key_of a) ≡ false)
        ((eq_iff pod g).0 e) (placed_at-pod k) h
  | inr e ↦
      none_at k (subst (λ (m : ObjectByKey). is_some (Map.get k m) ≡ true) (placed_at-eq-nil g e) h)
]

HasA-Harmless : Harmless world_client texts real_patcher HasA unpruned marked
HasA-Harmless g = record {
  create =
      λ o s h. ground (arith, h, any-append (λ (x : Object). key_of x == key_of a) s.0 (o ∷ []));
  get = λ ns n s h. h;
  list = λ ns sel s h. h;
  compare = λ old n s h.
      compare_objects-holds library styles false reconcilers (λ w. has (key_of a) w ≡ true)
        (λ o t p w x. x) g old n s.0 s.1 h;
  delete = λ k s n h. rw (has-filter k (key_of a) s.0, placed-ne g k n) h;
}

apply_set-harmless_example :
    HasA (apply_set world_client texts real_patcher unpruned wanted (a ∷ b ∷ [], [])).1
apply_set-harmless_example =
    apply_set-harmless world_client texts real_patcher HasA unpruned wanted (a ∷ b ∷ [], [])
      HasA-Harmless (inl refl) refl

get_merge_style_test :
    get_merge_style styles pod [] ≡ (ok (merge_entry styles), (pod, merge_entry styles) ∷ [])
unfolding get_merge_style Map.get Map.insert
get_merge_style_test = refl
