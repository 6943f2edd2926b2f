-- ===== src/Apply/Desired/Marks.antt =====
-- What an apply writes on its objects.
use baaah.Prelude.{
  true, some, Str, [], ◌∷◌, if◌then◌else◌, ◌==◌, eq_iff, list_eq, nat_eq, ◌≡◌, refl, arith, is_some,
  inl, inr, Option-cases, Bool-cases, ◌&&◌,
}
use mathlib.Core.Path.{subst}
use baaah.Prelude.Map
use baaah.Prelude.Map.{Map}
use baaah.Objects.{Gvk, gvk_eq, Object}
use baaah.Errors.{Result-cases}
use baaah.Apply.ObjectSet.{
  ObjectKey, object_key_eq, ObjectByKey, ObjectSet, empty, add, add_one, add_object, key_of,
}
use baaah.Apply.ObjectSet.Laws.{find, find-add_object}
use baaah.Apply.Labels.{copy_map, set_labels, set_annotations, get_labels_and_annotations}
use baaah.Apply.Client.{Client}
use baaah.Apply.Desired.{inject_objects, inject_kinds, inject_labels_and_annotations}

-- The object carries all of the given labels and annotations.
abbrev pub IsMarked : Map Str Str → Map Str Str → Object → Type 0
IsMarked labels annotations o =
    ((k : Str) → is_some (Map.get k labels) ≡ true → Map.get k o.labels ≡ Map.get k labels)
    × ((k : Str)
        → is_some (Map.get k annotations) ≡ true
        → Map.get k o.annotations ≡ Map.get k annotations)

pub get-copy_map :
    (from to : Map Str Str) (k : Str)
    → Map.Distinct from
    → Map.get k (copy_map from to)
      ≡ (if is_some (Map.get k from) then Map.get k from else Map.get k to)
unfolding copy_map Map.get
get-copy_map [] to k d = refl
get-copy_map ((j, v) ∷ from) to k d =
    ground
      (arith, eq_iff j k, Map.get-insert j k v to, get-copy_map from (Map.insert j v to) k d.1, d.0)

set_annotations-IsMarked :
    (labels annotations : Map Str Str) (o : Object)
    → Map.Distinct labels
    → Map.Distinct annotations
    → IsMarked labels annotations (set_annotations annotations (set_labels labels o))
unfolding set_labels set_annotations
set_annotations-IsMarked labels annotations o d e = (
  λ k h. ground (arith, get-copy_map labels o.labels k d, h),
  λ k h. ground (
    arith,
    get-copy_map annotations (Map.delete baaah.Apply.Labels.label_applied o.annotations) k e,
    h,
  ),
)

-- every object of the set
abbrev pub Each : (Object → Type 0) → ObjectSet → Type 0
Each P s = (g : Gvk) (k : ObjectKey) (o : Object) → find s g k ≡ some o → P o

module _ {W : Type 0} (c : Client W) (P : Object → Type 0) where
  Each-add_object :
      (h : Gvk) (o : Object) (s : ObjectSet) → P o → Each P s → Each P (add_object h o s)
  Each-add_object h o s x v g k y n = elim (Bool-cases (h == g && key_of o == k)) [
    | inl i ↦ subst P (same i) x
    | inr i ↦ v g k y (ground (arith, find-add_object h g o k s, i, n))
  ]
    where
      same : (h == g && key_of o == k) ≡ true → o ≡ y
      same i = ground (arith, find-add_object h g o k s, i, n)

  Each-add_one :
      (o : Object) (s : ObjectSet) → P o → Each P s → Each P (add_one c.gvk_for_object (some o) s).1
  unfolding add_one
  Each-add_one o s x v = elim (Result-cases (c.gvk_for_object o)) [
    | inr (e, f) ↦ rw (f, add_one) v
    | inl (h, f) ↦ rw (f, add_one) (Each-add_object h o s x v)
  ]

  Each-add :
      (o : Object) (s : ObjectSet)
      → P o
      → Each P s
      → Each P (add c.gvk_for_object (some o ∷ []) s).1
  unfolding add
  Each-add o s x v = elim (Option-cases (add_one c.gvk_for_object (some o) s).0) [
    | inr (e, f) ↦ rw (f, add) (Each-add_one o s x v)
    | inl f ↦ rw (f, add) (Each-add_one o s x v)
  ]

  Each-inject_objects :
      (labels annotations : Map Str Str) (objs : ObjectByKey) (s : ObjectSet)
      → ((o : Object) → P (set_annotations annotations (set_labels labels o)))
      → Each P s
      → Each P (inject_objects c labels annotations objs s).1
  unfolding inject_objects
  Each-inject_objects labels annotations [] s m v = v
  Each-inject_objects labels annotations ((k, o) ∷ objs) s m v =
      let x = set_annotations annotations (set_labels labels o) in
      let r = add c.gvk_for_object (some x ∷ []) s in
      elim (Option-cases r.0) [
        | inr (e, f) ↦ rw (f, inject_objects) (Each-add x s (m o) v)
        | inl f ↦
            rw (f, inject_objects)
              (Each-inject_objects labels annotations objs r.1 m (Each-add x s (m o) v))
      ]

  Each-inject_kinds :
      (labels annotations : Map Str Str) (ks : Map Gvk ObjectByKey) (s : ObjectSet)
      → ((o : Object) → P (set_annotations annotations (set_labels labels o)))
      → Each P s
      → Each P (inject_kinds c labels annotations ks s).1
  unfolding inject_kinds
  Each-inject_kinds labels annotations [] s m v = v
  Each-inject_kinds labels annotations ((g, objs) ∷ ks) s m v =
      let r = inject_objects c labels annotations objs s in
      let v' = Each-inject_objects labels annotations objs s m v in
      elim (Option-cases r.0) [
        | inr (e, f) ↦ rw (f, inject_kinds) v'
        | inl f ↦ rw (f, inject_kinds) (Each-inject_kinds labels annotations ks r.1 m v')
      ]

-- Every object of the set that an apply goes on with, even if an error ended the making of it,
-- carries each of the labels and annotations of the apply with its value; their keys are distinct.
pub inject_labels_and_annotations-IsMarked :
    {W : Type 0} (c : Client W) (labels annotations : Map Str Str) (s : ObjectSet)
    → Map.Distinct labels
    → Map.Distinct annotations
    → Each (IsMarked labels annotations) (inject_labels_and_annotations c labels annotations s).1
unfolding inject_labels_and_annotations Map.get Map.get_list
inject_labels_and_annotations-IsMarked c labels annotations s d e =
    Each-inject_kinds c (IsMarked labels annotations) labels annotations s.objects empty
      (λ o. set_annotations-IsMarked labels annotations o d e) (λ g k o n. ground (arith, n))
