-- ===== src/Apply/ObjectSet/Laws.antt =====
-- What a set holds after objects were added, and in which order their kinds are applied.
use baaah.Prelude.{
  Bool, true, false, Option, none, some, Str, List, [], ◌∷◌, ◌≡◌, refl, arith, ◌&&◌, ◌==◌, eq_iff,
  list_eq, nat_eq, pair_eq, is_some, if◌then◌else◌, count, count-append, ◌||◌, inl, inr,
  Option-cases,
}
use baaah.Prelude.Map
use baaah.Objects.{Gvk, gvk_eq, GroupKind, group_kind, Object}
use baaah.Errors.{Result, ok, err, Result-cases}
use baaah.Apply.Sort.{sort, count-sort}
use baaah.Apply.ObjectSet.{
  ObjectKey, object_key_eq, key_of, ObjectSet, empty, is_seen, add_object, add_one, add,
  new_object_set, contains, unseen, gvk_order_with,
}

abbrev pub find : ObjectSet → Gvk → ObjectKey → Option Object
find s g k = Map.get k (Map.get_list g s.objects)

pub find-add_object :
    (g h : Gvk) (o : Object) (k : ObjectKey) (s : ObjectSet)
    → find (add_object g o s) h k ≡ (if g == h && key_of o == k then some o else find s h k)
find-add_object g h o k s = ground (
  arith,
  eq_iff g h,
  Map.get_list-insert g h (Map.insert (key_of o) o (Map.get_list g s.objects)) s.objects,
  Map.get-insert (key_of o) k o (Map.get_list g s.objects),
)

contains-add_object :
    (g : Gvk) (gk : GroupKind) (o : Object) (k : ObjectKey) (s : ObjectSet)
    → contains gk k (add_object g o s) ≡ (group_kind g == gk && key_of o == k || contains gk k s)
unfolding contains
contains-add_object g gk o k s = ground (
  arith,
  eq_iff (group_kind g) gk,
  Map.get_list-insert (group_kind g) gk
      (Map.insert (key_of o) o (Map.get_list (group_kind g) s.objects_by_gk)) s.objects_by_gk,
  Map.get-insert (key_of o) k o (Map.get_list (group_kind g) s.objects_by_gk),
)

-- The kinds in order are those of the objects, each once.
pub record IsValid (s : ObjectSet) : Type 0 where
  pub ordered : (g : Gvk) → count g s.gvk_order ≡ (if is_seen g s then 1 else 0)
  pub keyed : (g : Gvk) → is_seen g s ≡ is_some (Map.get g s.objects)

module _ (g : Gvk) (o : Object) (s : ObjectSet) (v : IsValid s) where
  ordered-add_object :
      (h : Gvk)
      → count h (add_object g o s).gvk_order ≡ (if is_seen h (add_object g o s) then 1 else 0)
  ordered-add_object h = ground (
    arith,
    v.ordered h,
    eq_iff g h,
    count-append h s.gvk_order (g ∷ []),
    Map.get-insert g h true s.gvk_seen,
  )

  keyed-add_object :
      (h : Gvk) → is_seen h (add_object g o s) ≡ is_some (Map.get h (add_object g o s).objects)
  keyed-add_object h = ground (
    arith,
    v.keyed h,
    eq_iff g h,
    Map.get-insert g h true s.gvk_seen,
    Map.get-insert g h (Map.insert (key_of o) o (Map.get_list g s.objects)) s.objects,
  )

  add_object-IsValid : IsValid (add_object g o s)
  add_object-IsValid = record { ordered = ordered-add_object; keyed = keyed-add_object }

empty-IsValid : IsValid empty
unfolding Map.get
empty-IsValid = record { ordered = λ g. refl; keyed = λ g. refl }

-- The last object of a list with the kind and the key.
abbrev pub or_else : Option Object → Option Object → Option Object
or_else none p = p
or_else (some o) p = some o

module _ (gvk_for : Object → Result Gvk) where
  abbrev pub is_at : Gvk → ObjectKey → Object → Bool
  is_at g k o = elim (gvk_for o) [ err e ↦ false | ok h ↦ h == g && key_of o == k ]

  abbrev pub last_of : Gvk → ObjectKey → List (Option Object) → Option Object
  last_of g k [] = none
  last_of g k (none ∷ os) = last_of g k os
  last_of g k (some o ∷ os) = or_else (last_of g k os) (if is_at g k o then some o else none)

  add_one-IsValid :
      (o : Option Object) (s : ObjectSet) → IsValid s → IsValid (add_one gvk_for o s).1
  unfolding add_one
  add_one-IsValid none s v = v
  add_one-IsValid (some o) s v = elim (Result-cases (gvk_for o)) [
    | inl (g, e) ↦ rw (e, add_one) (add_object-IsValid g o s v)
    | inr (x, e) ↦ rw (e, add_one) v
  ]

  add-IsValid :
      (os : List (Option Object)) (s : ObjectSet) → IsValid s → IsValid (add gvk_for os s).1
  unfolding add
  add-IsValid [] s v = v
  add-IsValid (o ∷ os) s v =
      let s' = (add_one gvk_for o s).1 in
      let v' = add_one-IsValid o s v in
      elim (Option-cases (add_one gvk_for o s).0) [
        | inl e ↦ rw (e, add) (add-IsValid os s' v')
        | inr (x, e) ↦ rw (e, add) v'
      ]

  find-add :
      (g : Gvk) (k : ObjectKey) (os : List (Option Object)) (s : ObjectSet)
      → (add gvk_for os s).0 ≡ none
      → find (add gvk_for os s).1 g k ≡ or_else (last_of g k os) (find s g k)
  unfolding add add_one
  find-add g k [] s h = refl
  find-add g k (none ∷ os) s h = find-add g k os s h
  find-add g k (some o ∷ os) s h = elim (Result-cases (gvk_for o)) [
    | inl (x, e) ↦ ground (arith, find-add g k os (add_object x o s), find-add_object x g o k s)
    | inr (x, e) ↦ ground arith
  ]

  -- In a set made from any objects, even if an error ended it, the order lists every kind of its
  -- objects once and no other kind, and a kind is seen exactly if it has objects.
  pub new_object_set-IsValid : (os : List (Option Object)) → IsValid (new_object_set gvk_for os).1
  unfolding new_object_set
  new_object_set-IsValid os = add-IsValid os empty empty-IsValid

  -- A set that was made without an error holds, under each kind and key, the last of the given
  -- objects that has them, and nothing where there is none.
  pub find-new_object_set :
      (g : Gvk) (k : ObjectKey) (os : List (Option Object))
      → (new_object_set gvk_for os).0 ≡ none
      → find (new_object_set gvk_for os).1 g k ≡ last_of g k os
  unfolding new_object_set Map.get Map.get_list
  find-new_object_set g k os h = ground (arith, find-add g k os empty h)

count-unseen :
    (g : Gvk) (s : ObjectSet) (known : List Gvk)
    → count g (unseen s known) ≡ (if is_seen g s then 0 else count g known)
unfolding unseen
count-unseen g s [] = ground arith
count-unseen g s (h ∷ known) = ground (arith, eq_iff h g, count-unseen g s known)

-- In the order of a valid set with known kinds, a kind of its objects comes once, and another kind
-- as often as it is known.
pub count-gvk_order_with :
    (gvk_string : Gvk → Str) (known : List Gvk) (s : ObjectSet) (g : Gvk)
    → IsValid s
    → count g (gvk_order_with gvk_string known s) ≡ (if is_seen g s then 1 else count g known)
unfolding gvk_order_with
count-gvk_order_with gvk_string known s g v = ground (
  arith,
  v.ordered g,
  count-append g s.gvk_order (sort gvk_string (unseen s known)),
  count-sort gvk_string g (unseen s known),
  count-unseen g s known,
)
