-- ===== src/Apply/Process/Laws.antt =====
-- What `process` leaves in a cluster that stores objects by their key.
use baaah.Prelude.{
  Bool, true, false, not, ◌&&◌, Option, none, List, [], ◌∷◌, if◌then◌else◌, ◌==◌, eq_iff, list_eq,
  nat_eq, ◌≡◌, refl, arith, All, count, inl, inr, ◌∙◌, ltb, Option-cases,
}
use mathlib.Core.Path.{subst}
use baaah.Prelude.Map
use baaah.Prelude.Map.{Distinct}
use baaah.Objects.{Gvk, gvk_eq, group_kind, Selector}
use baaah.Errors.{ok, OnOk}
use baaah.Merr.Laws.{new_errors-eq-none_iff}
use baaah.Apply.ObjectSet.{ObjectKey, object_key_eq, ObjectByKey, ObjectSet, contains}
use baaah.Apply.Compare.{compare_sets}
use baaah.Apply.Compare.Laws.{creates, deletes, count-compare_sets}
use baaah.Apply.Client.{Client}
use baaah.Apply.Namespaces.{is_namespaced, filter_cross_version}
use baaah.Apply.Namespaces.Laws.{
  IsKeyed, count-filter_cross_version, adjust_namespace-IsKeyed, clear_namespace-IsKeyed,
  assign_owner_reference-IsKeyed,
}
use baaah.Apply.Namespaces.Keys.{
  adjust_namespace-Distinct, clear_namespace-Distinct, assign_owner_reference-Distinct,
}
use baaah.Apply.Process.{Options, Patcher, act, assign_owner, place_objects, list_existing, process}
use baaah.Apply.Process.Calls.{IsStore}
use baaah.Apply.Process.Runs.{member, there_after, has-run_all}
use baaah.Apply.Process.Listing.{IsListed, Found, list_existing-Found}

member-count : (k : ObjectKey) (ks : List ObjectKey) → member k ks ≡ ltb 0 (count k ks)
member-count k [] = ground arith
member-count k (j ∷ ks) = ground (arith, member-count k ks)

All-member :
    (P : ObjectKey → Type 0) (ks : List ObjectKey)
    → ((k : ObjectKey) → member k ks ≡ true → P k)
    → All P ks
All-member P [] h = tt
All-member P (k ∷ ks) h =
    (h k (ground (arith, eq_iff k k)), All-member P ks (λ j m. h j (ground (arith, m))))

-- An object that is there, is not wanted under any version of its kind and may be pruned.
abbrev pub pruned : Options → Gvk → ObjectSet → ObjectByKey → ObjectByKey → ObjectKey → Bool
pruned a g all_objs existing objs k =
    not a.no_prune
    && not (contains (group_kind g) k all_objs)
    && not (
        k.namespace == a.default_namespace
        && contains (group_kind g) (record { name = k.name; namespace = [] }) all_objs)
    && ltb 0 (deletes a.hash existing objs k)

-- What is there in the end: all that was, without what is pruned, and with what is created.
abbrev pub expected :
    {W : Type 0}
    → Options
    → Gvk
    → (ObjectKey → W → Bool)
    → ObjectSet
    → ObjectByKey
    → ObjectByKey
    → W
    → ObjectKey
    → Bool
expected a g has all_objs existing objs w k =
    if pruned a g all_objs existing objs k
    then false
    else if ltb 0 (creates existing objs k)
    then true
    else has k w

module _ {W : Type 0} (c : Client W) (p : Patcher W) (a : Options) (g : Gvk)
    (has : ObjectKey → W → Bool) (st : IsStore c p g has) (no_ensure : a.ensure ≡ false) where
  there_after-expected :
      (all_objs : ObjectSet) (objs existing : ObjectByKey) (w : W) (k : ObjectKey)
      → Distinct existing
      → Distinct objs
      → there_after a has
          (compare_sets a.hash existing objs).to_create
          (filter_cross_version a.default_namespace all_objs g
            (compare_sets a.hash existing objs).to_delete)
          w
          k
        ≡ expected a g has all_objs existing objs w k
  there_after-expected all_objs objs existing w k de d = ground (
    arith,
    member-count k (compare_sets a.hash existing objs).to_create,
    member-count k (
        filter_cross_version a.default_namespace all_objs g
          (compare_sets a.hash existing objs).to_delete),
    count-filter_cross_version a.default_namespace all_objs g k
        (compare_sets a.hash existing objs).to_delete,
    count-compare_sets a.hash existing objs k de d,
  )

  -- the lists that `process` works through
  module _ (all_objs : ObjectSet) (objs existing : ObjectByKey) (w : W)
      (l : IsListed c p a g has st w existing) (d : Distinct objs) where
    abbrev creations : List ObjectKey
    creations = (compare_sets a.hash existing objs).to_create

    abbrev deletions : List ObjectKey
    deletions =
        filter_cross_version a.default_namespace all_objs g
          (compare_sets a.hash existing objs).to_delete

    created-there :
        (k : ObjectKey)
        → member k creations ≡ true
        → there_after a has creations deletions w k ≡ true
    created-there k h = ground (
      arith,
      there_after-expected all_objs objs existing w k l.distinct d,
      member-count k creations,
      count-compare_sets a.hash existing objs k l.distinct d,
    )

    updated-there :
        (k : ObjectKey)
        → member k (compare_sets a.hash existing objs).to_update ≡ true
        → there_after a has creations deletions w k ≡ true
    updated-there k h = ground (
      arith,
      there_after-expected all_objs objs existing w k l.distinct d,
      member-count k (compare_sets a.hash existing objs).to_update,
      count-compare_sets a.hash existing objs k l.distinct d,
      l.there k,
    )

    act-expected :
        (k : ObjectKey)
        → IsKeyed objs
        → (act c p a g all_objs objs existing w).0 ≡ none
        → has k (act c p a g all_objs objs existing w).1
          ≡ expected a g has all_objs existing objs w k
    act-expected k v h =
        has-run_all c p a g has st no_ensure creations deletions _ k v refl
          (All-member _ creations created-there)
          (All-member _ (compare_sets a.hash existing objs).to_update updated-there)
          ((new_errors-eq-none_iff _).0 h)
        ∙ there_after-expected all_objs objs existing w k l.distinct d

  IsKeyed-assign_owner : (m : ObjectByKey) → IsKeyed m → OnOk IsKeyed (assign_owner c p a g m)
  IsKeyed-assign_owner m v = elim (Option-cases a.owner) [
    | inl e ↦ rw (e) v
    | inr (o, e) ↦ rw (e) (assign_owner_reference-IsKeyed c g o m v)
  ]

  Distinct-assign_owner : (m : ObjectByKey) → Distinct m → OnOk Distinct (assign_owner c p a g m)
  Distinct-assign_owner m v = elim (Option-cases a.owner) [
    | inl e ↦ rw (e) v
    | inr (o, e) ↦ rw (e) (assign_owner_reference-Distinct c g o m v)
  ]

  IsKeyed-place :
      (nsed : Bool) (m : ObjectByKey) → IsKeyed m → IsKeyed (place_objects c p a g nsed m)
  IsKeyed-place true m v = adjust_namespace-IsKeyed a.default_namespace m v
  IsKeyed-place false m v = clear_namespace-IsKeyed m v

  Distinct-place :
      (nsed : Bool) (m : ObjectByKey) → Distinct m → Distinct (place_objects c p a g nsed m)
  Distinct-place true m v = adjust_namespace-Distinct a.default_namespace m v
  Distinct-place false m v = clear_namespace-Distinct m v

  listed-expected :
      (all_objs : ObjectSet) (objs existing : ObjectByKey) (w w' : W) (k : ObjectKey)
      → IsKeyed objs
      → Distinct objs
      → Found c p a g has st w (ok existing, w')
      → (act c p a g all_objs objs existing w').0 ≡ none
      → has k (act c p a g all_objs objs existing w').1
        ≡ expected a g has all_objs existing objs w k
  listed-expected all_objs objs existing w w' k v d f h =
      ground (arith, f.1 k, act-expected all_objs objs existing w' still d k v h)
    where
      still : IsListed c p a g has st w' existing
      still = record { distinct = f.0.distinct; there = λ j i. f.1 j ∙ f.0.there j i }

  -- Where the processing of a kind returns no error, an object of the kind is in the cluster
  -- afterwards exactly if it is not pruned and is created or was there before: pruned is what was
  -- listed, may be deleted and is not wanted under any version of its kind, unless pruning is off,
  -- and created is what is wanted, was not listed and may be created. The apply is not an Ensure,
  -- its objects stand under their own keys, each once, the kind's scope is known, the owner was
  -- assigned and the listing succeeded; the cluster stores objects by their key, of which a failed
  -- call, a read and a patch change nothing.
  pub process-expected :
      (sel : Option Selector) (all_objs : ObjectSet) (nsed : Bool) (assigned existing : ObjectByKey)
      (w : W) (k : ObjectKey)
      → IsKeyed (Map.get_list g all_objs.objects)
      → Distinct (Map.get_list g all_objs.objects)
      → is_namespaced c g ≡ ok nsed
      → assign_owner c p a g (Map.get_list g all_objs.objects) ≡ ok assigned
      → (list_existing c p a g sel (place_objects c p a g nsed assigned) w).0 ≡ ok existing
      → (process c p a g sel all_objs w).0 ≡ none
      → has k (process c p a g sel all_objs w).1
        ≡ expected a g has all_objs existing (place_objects c p a g nsed assigned) w k
  unfolding process
  process-expected sel all_objs nsed assigned existing w k v d hn ha hl h =
      let objs = place_objects c p a g nsed assigned in
      let v' : OnOk IsKeyed (ok assigned) = subst (OnOk IsKeyed) ha (IsKeyed-assign_owner _ v) in
      let d' : OnOk Distinct (ok assigned) = subst (OnOk Distinct) ha (Distinct-assign_owner _ d) in
      let w' = (list_existing c p a g sel objs w).1 in
      let f = list_existing-Found c p a g has st sel objs w in
      let f' : Found c p a g has st w (ok existing, w') =
        (subst (OnOk (IsListed c p a g has st w)) hl f.0, f.1) in
      ground (
        arith,
        hn,
        ha,
        hl,
        listed-expected all_objs objs existing w w' k (IsKeyed-place nsed assigned v')
            (Distinct-place nsed assigned d') f',
      )
