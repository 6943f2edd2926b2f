-- ===== src/Apply/Process/Unpruned.antt =====
-- What `process` may delete where it does not prune.
use baaah.Prelude.{
  Bool, true, str, Option, none, some, List, [], ◌∷◌, ◌++◌, if◌then◌else◌, list_eq, nat_eq, ◌≡◌,
  refl, arith, inl, inr, Option-cases, Bool-cases, ◌⊎◌,
}
use mathlib.Core.Path.{subst}
use baaah.Prelude.Map
use baaah.Objects.{Gvk, Object, Selector, gvk_eq}
use baaah.Errors.{Result, ok, err, OnOk, Result-cases}
use baaah.Apply.ObjectSet.{object_key_eq, ObjectByKey, ObjectSet}
use baaah.Apply.Compare.{compare_sets}
use baaah.Apply.Compare.Laws.{compare_sets-wanted}
use baaah.Apply.Client.{Client, is_not_found, new_obj}
use baaah.Apply.Namespaces.{filter_cross_version, is_namespaced}
use baaah.Apply.Process.{
  Options, Patcher, listed, items, list_each, list_by_selector, list_existing, assign_owner,
  place_objects, process,
}
use baaah.Apply.Process.Safety.{
  IsWanted, IsWanted-insert, IsWanted-self, placed, IsHarmless, run_all-Safe,
}

module _ {W : Type 0} (c : Client W) (p : Patcher W) (a : Options) (g : Gvk) (objs0 : ObjectByKey)
    (Q : W → Type 0) (q : IsHarmless c p a g objs0 Q) where
  list_each-IsWanted :
      (objs es m : ObjectByKey) (w : W)
      → IsWanted objs es
      → IsWanted objs m
      → Q w
      → OnOk (IsWanted objs) (list_each c p a g es m w).0 × Q (list_each c p a g es m w).1
  unfolding list_each
  list_each-IsWanted objs [] m w ve v h = (v, h)
  list_each-IsWanted objs ((k, o) ∷ es) m w ve v h =
      let w' = (c.get g k.namespace k.name w).1 in
      let h' = q.get k.namespace k.name w h in
      elim (Result-cases (c.get g k.namespace k.name w).0) [
        | inl (x, e) ↦
            rw (e, list_each)
              (list_each-IsWanted objs es (Map.insert k x m) w' ve.1
                (IsWanted-insert objs m k x ve.0 v) h')
        | inr (x, e) ↦ elim (Bool-cases (is_not_found x)) [
          | inl f ↦ rw (e, f, list_each) (list_each-IsWanted objs es m w' ve.1 v h')
          | inr f ↦ rw (e, f, list_each) (tt, h')
        ]
      ]

  items-holds : (r : Result (List Object)) (w : W) → Q w → Q (items c p a g (r, w)).1
  items-holds (ok os) w h = h
  items-holds (err e) w h = h

  list_by_selector-holds : (sel : Selector) (w : W) → Q w → Q (list_by_selector c p a g sel w).1
  unfolding list_by_selector
  list_by_selector-holds sel w h =
      elim (Option-cases (new_obj c (record g { kind = g.kind ++ str "List" }))) [
        | inr (e, f) ↦ rw (f, list_by_selector) h
        | inl f ↦
            rw (f, list_by_selector)
              (items-holds (c.list g a.lister_namespace sel w).0
                (c.list g a.lister_namespace sel w).1 (q.list a.lister_namespace sel w h))
      ]

  -- Without pruning, or where each object was looked up by its key
  abbrev pub Unpruned : Option Selector → ObjectByKey → Result ObjectByKey × W → Type 0
  Unpruned sel objs (r, w) = OnOk (λ m. (a.no_prune ≡ true) ⊎ IsWanted objs m) r × Q w

  list_existing-Unpruned :
      (sel : Option Selector) (objs : ObjectByKey) (w : W)
      → (a.no_prune ≡ true) ⊎ (sel ≡ none)
      → Q w
      → Unpruned sel objs (list_existing c p a g sel objs w)
  unfolding list_existing
  list_existing-Unpruned none objs w n h =
      let (v, h') = list_each-IsWanted objs objs [] w (IsWanted-self objs objs (λ k i. i)) tt h in
      (OnOk-map (list_each c p a g objs [] w).0 v, h')
    where
      OnOk-map :
          (r : Result ObjectByKey)
          → OnOk (IsWanted objs) r
          → OnOk (λ m. (a.no_prune ≡ true) ⊎ IsWanted objs m) r
      OnOk-map (ok m) v = inr v
      OnOk-map (err e) v = tt
  list_existing-Unpruned (some sel) objs w (inr n) h = ground (arith, n)
  list_existing-Unpruned (some sel) objs w (inl n) h =
      (OnOk-all (list_by_selector c p a g sel w).0, list_by_selector-holds sel w h)
    where
      OnOk-all : (r : Result ObjectByKey) → OnOk (λ m. (a.no_prune ≡ true) ⊎ IsWanted objs m) r
      OnOk-all (ok m) = inl n
      OnOk-all (err e) = tt

  no_deletions :
      (all_objs : ObjectSet) (objs existing : ObjectByKey)
      → (a.no_prune ≡ true) ⊎ IsWanted objs existing
      → (if a.no_prune
          then []
          else filter_cross_version a.default_namespace all_objs g
              (compare_sets a.hash existing objs).to_delete)
        ≡ []
  unfolding filter_cross_version
  no_deletions all_objs objs existing (inl n) = ground (arith, n)
  no_deletions all_objs objs existing (inr v) =
      ground (arith, compare_sets-wanted a.hash existing objs v)

  listed-holds :
      (all_objs : ObjectSet) (sel : Option Selector) (r : Result ObjectByKey) (w : W)
      → Unpruned sel objs0 (r, w)
      → Q (listed c p a g all_objs objs0 (r, w)).1
  listed-holds all_objs sel (err e) w v = v.1
  listed-holds all_objs sel (ok existing) w v =
      run_all-Safe c p a g objs0 Q q (compare_sets a.hash existing objs0).to_create
        (filter_cross_version a.default_namespace all_objs g
          (compare_sets a.hash existing objs0).to_delete)
        _ (no_deletions all_objs objs0 existing v.0)
        (record { holds = v.1; wanted = IsWanted-self objs0 objs0 (λ k i. i); replaced = tt })

placed-place_objects :
    {W : Type 0} (c : Client W) (p : Patcher W) (a : Options) (g : Gvk) (all_objs : ObjectSet)
    (nsed : Bool) (assigned : ObjectByKey)
    → is_namespaced c g ≡ ok nsed
    → assign_owner c p a g (Map.get_list g all_objs.objects) ≡ ok assigned
    → placed c p a g all_objs ≡ place_objects c p a g nsed assigned
placed-place_objects c p a g all_objs nsed assigned e f = rw (e, f, placed) refl

-- Whatever survives the calls, but of the deletions only those of wanted objects, survives
-- `process`, where it need not prune.
pub process-harmless :
    {W : Type 0} (c : Client W) (p : Patcher W) (a : Options) (g : Gvk) (Q : W → Type 0)
    (sel : Option Selector) (all_objs : ObjectSet) (w : W)
    → IsHarmless c p a g (placed c p a g all_objs) Q
    → (a.no_prune ≡ true) ⊎ (sel ≡ none)
    → Q w
    → Q (process c p a g sel all_objs w).1
unfolding process
process-harmless c p a g Q sel all_objs w q n h = elim (Result-cases (is_namespaced c g)) [
  | inr (x, e) ↦ rw (e, process) h
  | inl (nsed, e) ↦ elim (Result-cases (assign_owner c p a g (Map.get_list g all_objs.objects))) [
    | inr (x, f) ↦ rw (e, f, process) h
    | inl (assigned, f) ↦
        let objs = place_objects c p a g nsed assigned in
        let q' : IsHarmless c p a g objs Q =
          subst (λ m. IsHarmless c p a g m Q)
            (placed-place_objects c p a g all_objs nsed assigned e f) q in
        rw (e, f, process)
          (listed-holds c p a g objs Q q' all_objs sel (list_existing c p a g sel objs w).0
            (list_existing c p a g sel objs w).1
            (list_existing-Unpruned c p a g objs Q q' sel objs w n h))
  ]
]
