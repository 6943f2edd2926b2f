-- ===== src/Apply/Namespaces/Keys.antt =====
-- No key stands twice after the objects of a kind have got their namespaces and their owner.
use baaah.Prelude.{Bool, Str, [], ◌∷◌, arith, list_eq, nat_eq, inl, inr}
use baaah.Prelude.Map
use baaah.Prelude.Map.{Distinct}
use baaah.Objects.{Gvk, Object}
use baaah.Errors.{OnOk, Result-cases}
use baaah.Apply.ObjectSet.{ObjectKey, object_key_eq, ObjectByKey}
use baaah.Apply.Client.{Client}
use baaah.Apply.Namespaces.Laws.{visit_rule}
use baaah.Apply.Namespaces.{
  visit, adjust_one, adjust_each, adjust_namespace, clear_one, clear_each, clear_namespace,
  set_owner, assign_one, assign_each, assign_loop, is_namespaced, assign_owner_reference,
}

Distinct-delete : (k : ObjectKey) (m : ObjectByKey) → Distinct m → Distinct (Map.delete k m)
unfolding Map.delete
Distinct-delete k [] d = tt
Distinct-delete k ((j, o) ∷ m) d = ground (arith, Distinct-delete k m d.1, Map.get-delete k j m)

Distinct-move :
    (k j : ObjectKey) (o : Object) (m : ObjectByKey)
    → Distinct m
    → Distinct (Map.insert j o (Map.delete k m))
Distinct-move k j o m d = Map.Distinct-insert j o (Map.delete k m) (Distinct-delete k m d)

adjust_each-Distinct : (ns : Str) (es m : ObjectByKey) → Distinct m → Distinct (adjust_each ns es m)
unfolding adjust_each
adjust_each-Distinct ns [] m d = d
adjust_each-Distinct ns ((k, _) ∷ es) m d = adjust_each-Distinct ns es (visit (adjust_one ns) k m) (
    visit_rule Distinct (adjust_one ns) k m (λ e. d)
      (λ o e.
        ground
          (arith, Distinct-move k (record k { namespace = ns }) (record o { namespace = ns }) m d)))

pub adjust_namespace-Distinct :
    (ns : Str) (m : ObjectByKey) → Distinct m → Distinct (adjust_namespace ns m)
unfolding adjust_namespace
adjust_namespace-Distinct ns m d = adjust_each-Distinct ns m m d

clear_each-Distinct : (es m : ObjectByKey) → Distinct m → Distinct (clear_each es m)
unfolding clear_each
clear_each-Distinct [] m d = d
clear_each-Distinct ((k, _) ∷ es) m d = clear_each-Distinct es (visit clear_one k m) (
    visit_rule Distinct clear_one k m (λ e. d)
      (λ o e.
        ground
          (arith, Distinct-move k (record k { namespace = [] }) (record o { namespace = [] }) m d)))

pub clear_namespace-Distinct : (m : ObjectByKey) → Distinct m → Distinct (clear_namespace m)
unfolding clear_namespace
clear_namespace-Distinct m d = clear_each-Distinct m m d

assign_each-Distinct :
    (nsed owner_nsed : Bool) (g : Gvk) (owner : Object) (es m : ObjectByKey)
    → Distinct m
    → Distinct (assign_each nsed owner_nsed g owner es m)
unfolding assign_each
assign_each-Distinct nsed owner_nsed g owner [] m d = d
assign_each-Distinct nsed owner_nsed g owner ((k, _) ∷ es) m d =
    assign_each-Distinct nsed owner_nsed g owner es (visit (assign_one nsed owner_nsed g owner) k m)
      (visit_rule Distinct (assign_one nsed owner_nsed g owner) k m (λ e. d)
        (λ o e. ground (
          arith,
          Distinct-move k (record k { namespace = owner.namespace })
              (set_owner g owner (record o { namespace = owner.namespace })) m d,
          Map.Distinct-insert k (set_owner g owner o) m d,
        )))

module _ {W : Type 0} (c : Client W) where
  assign_loop-Distinct :
      (g owner_gvk : Gvk) (owner_nsed : Bool) (owner : Object) (objs : ObjectByKey)
      → Distinct objs
      → OnOk Distinct (assign_loop c g owner_nsed owner_gvk owner objs)
  assign_loop-Distinct g og on owner [] d = tt
  assign_loop-Distinct g og on owner (o ∷ objs) d = elim (Result-cases (is_namespaced c g)) [
    | inr (x, e) ↦ rw (e, assign_loop) tt
    | inl (n, e) ↦ rw (e, assign_loop) (assign_each-Distinct n on og owner (o ∷ objs) (o ∷ objs) d)
  ]

  pub assign_owner_reference-Distinct :
      (g : Gvk) (owner : Object) (objs : ObjectByKey)
      → Distinct objs
      → OnOk Distinct (assign_owner_reference c g owner objs)
  unfolding assign_owner_reference
  assign_owner_reference-Distinct g owner objs d = elim (Result-cases (c.gvk_for_object owner)) [
    | inr (x, e) ↦ rw (e, assign_owner_reference) tt
    | inl (og, e) ↦ elim (Result-cases (is_namespaced c og)) [
      | inr (x, f) ↦ rw (e, f, assign_owner_reference) tt
      | inl (on, f) ↦ rw (e, f, assign_owner_reference) (assign_loop-Distinct g og on owner objs d)
    ]
  ]
