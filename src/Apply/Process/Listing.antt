-- ===== src/Apply/Process/Listing.antt =====
-- What `process` finds in a cluster that stores objects by their key.
use baaah.Prelude.{
  Bool, true, Option, none, some, List, [], ◌∷◌, eq_iff, list_eq, nat_eq, ◌≡◌, refl, arith, All,
  is_some, inl, inr, ◌∙◌, str, Option-cases, Bool-cases, ◌++◌, sym,
}
use baaah.Prelude.Map
use baaah.Prelude.Map.{Distinct}
use baaah.Objects.{Gvk, Object, Selector}
use baaah.Errors.{Result, ok, err, OnOk, Result-cases}
use baaah.Apply.ObjectSet.{ObjectKey, object_key_eq, ObjectByKey, key_of}
use baaah.Apply.Client.{Client, new_obj, is_not_found}
use baaah.Apply.Process.{
  Options, Patcher, add_all, items, list_by_selector, list_each, list_existing,
}
use baaah.Apply.Process.Calls.{IsStore}

module _ {W : Type 0} (c : Client W) (p : Patcher W) (a : Options) (g : Gvk)
    (has : ObjectKey → W → Bool) (st : IsStore c p g has) where
  -- No key twice, and only keys of objects that are there.
  pub record IsListed (w : W) (m : ObjectByKey) : Type 0 where
    pub distinct : Distinct m
    pub there : (k : ObjectKey) → is_some (Map.get k m) ≡ true → has k w ≡ true

  IsListed-insert :
      (w : W) (k : ObjectKey) (o : Object) (m : ObjectByKey)
      → has k w ≡ true
      → IsListed w m
      → IsListed w (Map.insert k o m)
  IsListed-insert w k o m h v = record {
    distinct = Map.Distinct-insert k o m v.distinct;
    there = λ j i. ground (arith, eq_iff k j, Map.get-insert k j o m, v.there j);
  }

  IsListed-add_all :
      (w : W) (os : List Object) (m : ObjectByKey)
      → All (λ o. has (key_of o) w ≡ true) os
      → IsListed w m
      → IsListed w (add_all os m)
  IsListed-add_all w [] m h v = v
  IsListed-add_all w (o ∷ os) m h v =
      IsListed-add_all w os (Map.insert (key_of o) o m) h.1 (IsListed-insert w (key_of o) o m h.0 v)

  pub IsListed-nil : (w : W) → IsListed w []
  unfolding Map.get
  IsListed-nil w = record { distinct = tt; there = λ k i. ground arith }

  -- the answer of a read at `w`
  abbrev pub Found : W → Result ObjectByKey × W → Type 0
  Found w (r, w') = OnOk (IsListed w) r × ((k : ObjectKey) → has k w' ≡ has k w)

  list_by_selector-Found : (sel : Selector) (w : W) → Found w (list_by_selector c p a g sel w)
  unfolding list_by_selector
  list_by_selector-Found sel w =
      elim (Option-cases (new_obj c (record g { kind = g.kind ++ str "List" }))) [
        | inr (e, f) ↦ rw (f, list_by_selector) (tt, λ k. refl)
        | inl f ↦ rw (f, list_by_selector) (go (c.list g a.lister_namespace sel w).0 refl)
      ]
    where
      go :
          (r : Result (List Object))
          → (c.list g a.lister_namespace sel w).0 ≡ r
          → Found w (items c p a g (r, (c.list g a.lister_namespace sel w).1))
      go (err e) h = (tt, st.has_list a.lister_namespace sel w)
      go (ok os) h = (
        IsListed-add_all w os [] (st.list_has a.lister_namespace sel w os h) (IsListed-nil w),
        st.has_list a.lister_namespace sel w,
      )

  list_each-Found :
      (objs m : ObjectByKey) (w w0 : W)
      → IsListed w0 m
      → ((k : ObjectKey) → has k w ≡ has k w0)
      → Found w0 (list_each c p a g objs m w)
  unfolding list_each
  list_each-Found [] m w w0 v same = (v, same)
  list_each-Found ((k, o) ∷ objs) m w w0 v same =
      let w' = (c.get g k.namespace k.name w).1 in
      let same' : (j : ObjectKey) → has j w' ≡ has j w0 =
        λ j. st.has_get k.namespace k.name w j ∙ same j in
      elim (Result-cases (c.get g k.namespace k.name w).0) [
        | inl (x, h) ↦
            rw (h, list_each)
              (list_each-Found objs (Map.insert k x m) w' w0
                (IsListed-insert w0 k x m (sym (same k) ∙ st.get_has k.namespace k.name w x h) v)
                same')
        | inr (e, h) ↦ elim (Bool-cases (is_not_found e)) [
          | inl f ↦ rw (h, f, list_each) (list_each-Found objs m w' w0 v same')
          | inr f ↦ rw (h, f, list_each) (tt, same')
        ]
      ]

  pub list_existing-Found :
      (sel : Option Selector) (objs : ObjectByKey) (w : W)
      → Found w (list_existing c p a g sel objs w)
  unfolding list_existing
  list_existing-Found (some sel) objs w = list_by_selector-Found sel w
  list_existing-Found none objs w = list_each-Found objs [] w w (IsListed-nil w) (λ k. refl)
