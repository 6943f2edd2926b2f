-- ===== src/Apply/Process/Calls.antt =====
-- What the steps of `process` do to a cluster that stores objects by their key.
use baaah.Prelude.{
  Bool, true, false, not, Option, none, some, Str, List, [], ◌∷◌, ◌++◌, if◌then◌else◌, ◌==◌, eq_iff,
  list_eq, nat_eq, ◌≡◌, refl, arith, All, is_nil, inl, inr, Option-cases, ◌∙◌,
}
use baaah.Prelude.Map
use baaah.Objects.{Gvk, Object, Selector}
use baaah.Errors.{Error, Result, ok, err}
use baaah.Apply.ObjectSet.{ObjectKey, object_key_eq, ObjectByKey, key_of}
use baaah.Apply.Client.{Client}
use baaah.Apply.Namespaces.Laws.{IsKeyed}
use baaah.Apply.Process.{
  Options, Compared, replace, compared, Patcher, Progress, create_one, delete_one, update_one,
  take_over, created, create_prepared, updated,
}

-- `has k w`: the cluster `w` has an object of the kind under the key `k`. A call that fails changes
-- nothing of that, a read never does, and a patch takes no object away and makes none.
pub record IsStore {W : Type 0} (c : Client W) (p : Patcher W) (g : Gvk)
    (has : ObjectKey → W → Bool) : Type 0 where
  pub has_create :
      (o : Object) (w : W) (k : ObjectKey)
      → has k (c.create o w).2
        ≡ (if is_nil (c.create o w).0 then (if key_of o == k then true else has k w) else has k w)
  pub has_list :
      (ns : Str) (sel : Selector) (w : W) (k : ObjectKey) → has k (c.list g ns sel w).1 ≡ has k w
  pub list_has :
      (ns : Str) (sel : Selector) (w : W) (os : List Object)
      → (c.list g ns sel w).0 ≡ ok os
      → All (λ o. has (key_of o) w ≡ true) os
  pub has_get : (ns n : Str) (w : W) (k : ObjectKey) → has k (c.get g ns n w).1 ≡ has k w
  pub get_has :
      (ns n : Str) (w : W) (o : Object)
      → (c.get g ns n w).0 ≡ ok o
      → has (record { name = n; namespace = ns }) w ≡ true
  pub has_delete :
      (k : ObjectKey) (w : W) (j : ObjectKey)
      → has j (c.delete g k.namespace k.name w).1 ≡ (
          if is_nil (c.delete g k.namespace k.name w).0
          then (if k == j then false else has j w)
          else has j w)
  pub has_compare :
      (old new : Object) (w : W) (k : ObjectKey) → has k (p.compare_objects g old new w).2 ≡ has k w
  pub key_prepare :
      (o q : Object) (clone : Bool)
      → p.prepare_object_for_create g o clone ≡ ok q
      → key_of q ≡ key_of o

module _ {W : Type 0} (c : Client W) (p : Patcher W) (a : Options) (g : Gvk)
    (has : ObjectKey → W → Bool) (st : IsStore c p g has) (no_ensure : a.ensure ≡ false) where
  -- The step leaves the objects to apply as they were, and of the cluster all keys but `k`, under which
  -- there is an object afterwards exactly if `b`.
  pub record Sets (b : Bool) (k : ObjectKey) (s t : Progress W) : Type 0 where
    pub objs : t.objs ≡ s.objs
    pub replaces : t.to_replace ≡ s.to_replace
    pub sets : (j : ObjectKey) → has j t.outside ≡ (if k == j then b else has j s.outside)

  take_over-Sets :
      (k : ObjectKey) (obj : Object) (e : Error) (s : Progress W) (r : Result Object) (w : W)
      → ((o : Object) → r ≡ ok o → has k w ≡ true)
      → ((j : ObjectKey) → has j w ≡ has j s.outside)
      → (take_over c p a g k obj e (r, w) s).0 ≡ none
      → Sets true k s (take_over c p a g k obj e (r, w) s).1
  take_over-Sets k obj e s (err x) w there same h = ground arith
  take_over-Sets k obj e s (ok o) w there same h = record {
    objs = ground arith;
    replaces = ground arith;
    sets = λ j. ground (arith, eq_iff k j, there o refl, same j);
  }

  created-Sets :
      (k : ObjectKey) (e : Option Error) (obj : Object) (w : W) (s : Progress W)
      → ((j : ObjectKey)
          → has j w
            ≡ (if is_nil e then (if k == j then true else has j s.outside) else has j s.outside))
      → (created c p a g k (e, obj, w) s).0 ≡ none
      → Sets true k s (created c p a g k (e, obj, w) s).1
  created-Sets k none obj w s at h = record {
    objs = ground arith;
    replaces = ground arith;
    sets = λ j. ground (arith, at j);
  }
  created-Sets k (some e) obj w s at h = ground (
    arith,
    take_over-Sets k obj e (record s { outside = w }) (c.get g k.namespace k.name w).0
        (c.get g k.namespace k.name w).1
        (λ o e. st.has_get k.namespace k.name w k ∙ st.get_has k.namespace k.name w o e)
        (st.has_get k.namespace k.name w),
  )

  key_of-get :
      (k : ObjectKey) (m : ObjectByKey) (o : Object)
      → IsKeyed m
      → Map.get k m ≡ some o
      → key_of o ≡ k
  unfolding Map.get
  key_of-get k [] o v h = ground arith
  key_of-get k ((j, x) ∷ m) o v h = ground (arith, eq_iff j k, key_of-get k m o)

  create_prepared-Sets :
      (k : ObjectKey) (r : Result Object) (s : Progress W)
      → ((q : Object) → r ≡ ok q → key_of q ≡ k)
      → (create_prepared c p a g k r s).0 ≡ none
      → Sets true k s (create_prepared c p a g k r s).1
  create_prepared-Sets k (err e) s n h = ground arith
  create_prepared-Sets k (ok q) s n h =
      created-Sets k (c.create q s.outside).0 (c.create q s.outside).1 (c.create q s.outside).2 s
        (λ j. ground (arith, st.has_create q s.outside j, n q refl)) h

  -- what the step does with the entry of its key
  create_found-Sets :
      (k : ObjectKey) (o : Object) (s : Progress W)
      → key_of o ≡ k
      → (create_prepared c p a g k (p.prepare_object_for_create g o (not a.ensure)) s).0 ≡ none
      → Sets true k s
          (create_prepared c p a g k (p.prepare_object_for_create g o (not a.ensure)) s).1
  create_found-Sets k o s n h =
      create_prepared-Sets k (p.prepare_object_for_create g o (not a.ensure)) s
        (λ q e. st.key_prepare o q (not a.ensure) e ∙ n) h

  pub create_one-Sets :
      (k : ObjectKey) (s : Progress W)
      → IsKeyed s.objs
      → (create_one c p a g k s).0 ≡ none
      → Sets true k s (create_one c p a g k s).1
  unfolding create_one
  create_one-Sets k s v h = elim (Option-cases (Map.get k s.objs)) [
    | inl e ↦ ground arith
    | inr (o, e) ↦ ground (arith, create_found-Sets k o s (key_of-get k s.objs o v e))
  ]

  pub delete_one-Sets :
      (k : ObjectKey) (s : Progress W)
      → (delete_one c p a g k s).0 ≡ none
      → Sets false k s (delete_one c p a g k s).1
  unfolding delete_one
  delete_one-Sets k s h = record {
    objs = ground arith;
    replaces = ground arith;
    sets = λ j. ground (arith, st.has_delete k s.outside j);
  }

  -- An update leaves the objects to apply and which keys there are; it may note its own key as one to
  -- replace.
  pub record Keeps (P : ObjectKey → Type 0) (s t : Progress W) : Type 0 where
    pub objs : t.objs ≡ s.objs
    pub replaces : All P s.to_replace → All P t.to_replace
    pub keeps : (j : ObjectKey) → has j t.outside ≡ has j s.outside

  All-snoc :
      (P : ObjectKey → Type 0) (k : ObjectKey) (ks : List ObjectKey)
      → P k
      → All P ks
      → All P (ks ++ k ∷ [])
  All-snoc P k [] h v = (h, tt)
  All-snoc P k (j ∷ ks) h v = (v.0, All-snoc P k ks h v.1)

  updated-Keeps :
      (P : ObjectKey → Type 0) (k : ObjectKey) (old new : Object) (r : Compared) (w : W)
      (s : Progress W)
      → P k
      → ((j : ObjectKey) → has j w ≡ has j s.outside)
      → Keeps P s (updated c p a g k old (r, new, w) s).1
  updated-Keeps P k old new replace w s x same = record {
    objs = ground arith;
    replaces = λ v. ground (arith, All-snoc P k s.to_replace x v);
    keeps = λ j. ground (arith, same j);
  }
  updated-Keeps P k old new (compared none) w s x same = ground arith
  updated-Keeps P k old new (compared (some e)) w s x same = ground arith

  pub update_one-Keeps :
      (P : ObjectKey → Type 0) (k : ObjectKey) (s : Progress W)
      → P k
      → Keeps P s (update_one c p a g k s).1
  unfolding update_one
  update_one-Keeps P k s x = elim (Option-cases (Map.get k s.existing)) [
    | inl e ↦ ground arith
    | inr (old, e) ↦ elim (Option-cases (Map.get k s.objs)) [
      | inl f ↦ ground arith
      | inr (new, f) ↦ ground (
        arith,
        updated-Keeps P k old (p.compare_objects g old new s.outside).1
            (p.compare_objects g old new s.outside).0 (p.compare_objects g old new s.outside).2 s x
            (st.has_compare old new s.outside),
      )
    ]
  ]

  -- A creation notes no key but its own as one to update.
  pub create_one-updates :
      (P : ObjectKey → Type 0) (k : ObjectKey) (s : Progress W)
      → P k
      → All P s.to_update
      → All P (create_one c p a g k s).1.to_update
  unfolding create_one
  create_one-updates P k s x v = ground (arith, All-snoc P k s.to_update x v)
