-- ===== src/Apply/Process/Safety.antt =====
-- What the loops of `process` may delete where nothing is to be pruned.
use baaah.Prelude.{
  true, not, Option, none, some, Str, List, [], ◌∷◌, ◌++◌, if◌then◌else◌, eq_iff, list_eq, nat_eq,
  ◌≡◌, arith, is_some, inl, inr, All, Option-cases, Bool-cases,
}
use baaah.Prelude.Map
use baaah.Objects.{Gvk, Object, Selector, gvk_eq}
use baaah.Errors.{Error, Result, ok, err, Result-cases}
use baaah.Apply.ObjectSet.{ObjectKey, object_key_eq, ObjectByKey, ObjectSet}
use baaah.Apply.Client.{Client, is_already_exists}
use baaah.Apply.Namespaces.{is_namespaced}
use baaah.Apply.Process.{
  Options, Compared, replace, compared, Patcher, Progress, with_outside, keep, is_foreign,
  may_replace, delete_one, take_over, created, create_one, update_one, updated, each, run_all,
  assign_owner, place_objects,
}

-- Every entry stands for an object that is wanted.
abbrev pub IsWanted : ObjectByKey → ObjectByKey → Type 0
IsWanted objs m = All (λ e. is_some (Map.get e.0 objs) ≡ true) m

pub IsWanted-insert :
    (objs m : ObjectByKey) (k : ObjectKey) (o : Object)
    → is_some (Map.get k objs) ≡ true
    → IsWanted objs m
    → IsWanted objs (Map.insert k o m)
unfolding Map.insert
IsWanted-insert objs [] k o h v = (h, tt)
IsWanted-insert objs ((j, x) ∷ m) k o h v = ground (arith, IsWanted-insert objs m k o)

pub IsWanted-self :
    (objs m : ObjectByKey)
    → ((k : ObjectKey) → is_some (Map.get k m) ≡ true → is_some (Map.get k objs) ≡ true)
    → IsWanted objs m
unfolding Map.get
IsWanted-self objs [] h = tt
IsWanted-self objs ((k, o) ∷ m) h =
    (h k (ground (arith, eq_iff k k)), IsWanted-self objs m (λ j i. h j (ground (arith, i))))

module _ {W : Type 0} (c : Client W) (p : Patcher W) (a : Options) (g : Gvk) where
  -- The objects that `process` wants in the cluster, under the keys where it puts them; none where
  -- the scope of the kind or the owner's reference fails.
  abbrev pub placed : ObjectSet → ObjectByKey
  placed all_objs = elim (is_namespaced c g) [
    | err e ↦ []
    | ok nsed ↦ elim (assign_owner c p a g (Map.get_list g all_objs.objects)) [
      | err e ↦ []
      | ok assigned ↦ place_objects c p a g nsed assigned
    ]
  ]

  -- `Q` survives every call of the client, of the deletions those of the keys in `objs`.
  pub record IsHarmless (objs : ObjectByKey) (Q : W → Type 0) : Type 0 where
    pub create : (o : Object) (w : W) → Q w → Q (c.create o w).2
    pub get : (ns n : Str) (w : W) → Q w → Q (c.get g ns n w).1
    pub list : (ns : Str) (sel : Selector) (w : W) → Q w → Q (c.list g ns sel w).1
    pub compare : (old new : Object) (w : W) → Q w → Q (p.compare_objects g old new w).2
    pub delete :
        (k : ObjectKey) (w : W)
        → is_some (Map.get k objs) ≡ true
        → Q w
        → Q (c.delete g k.namespace k.name w).1

module _ {W : Type 0} (c : Client W) (p : Patcher W) (a : Options) (g : Gvk) (objs0 : ObjectByKey)
    (Q : W → Type 0) (q : IsHarmless c p a g objs0 Q) where
  -- `Q`, only objects that are wanted, and of those what is to be replaced
  pub record Safe (s : Progress W) : Type 0 where
    pub holds : Q s.outside
    pub wanted : IsWanted objs0 s.objs
    pub replaced : All (λ k. is_some (Map.get k objs0) ≡ true) s.to_replace

  keep-Safe :
      (k : ObjectKey) (o : Object) (w : W) (s : Progress W)
      → Q w
      → is_some (Map.get k objs0) ≡ true
      → Safe s
      → Safe (keep c p a g k o (with_outside w s))
  keep-Safe k o w s h n v = elim (Bool-cases a.ensure) [
    | inl e ↦ rw e (record {
      holds = h;
      wanted = IsWanted-insert objs0 s.objs k o n v.wanted;
      replaced = v.replaced;
    })
    | inr e ↦ rw e (record { holds = h; wanted = v.wanted; replaced = v.replaced })
  ]

  take_over-Safe :
      (k : ObjectKey) (obj : Object) (e : Error) (r : Result Object) (w : W) (s : Progress W)
      → Q w
      → Safe s
      → Safe (take_over c p a g k obj e (r, w) s).1
  take_over-Safe k obj e (err x) w s h v = record {
    holds = h;
    wanted = v.wanted;
    replaced = v.replaced;
  }
  take_over-Safe k obj e (ok o) w s h v = elim (Bool-cases (is_foreign c p a g o obj)) [
    | inl i ↦ rw i (record { holds = h; wanted = v.wanted; replaced = v.replaced })
    | inr i ↦ rw i (record { holds = h; wanted = v.wanted; replaced = v.replaced })
  ]

  created-Safe :
      (k : ObjectKey) (e : Option Error) (obj : Object) (w : W) (s : Progress W)
      → Q w
      → is_some (Map.get k objs0) ≡ true
      → Safe s
      → Safe (created c p a g k (e, obj, w) s).1
  created-Safe k none obj w s h n v = keep-Safe k obj w s h n v
  created-Safe k (some e) obj w s h n v =
      let s1 = keep-Safe k obj w s h n v in
      elim (Bool-cases (is_already_exists e)) [
        | inl i ↦ rw i (
            take_over-Safe k obj e (c.get g k.namespace k.name w).0 (c.get g k.namespace k.name w).1
              (keep c p a g k obj (with_outside w s)) (q.get k.namespace k.name w h) s1)
        | inr i ↦ rw i s1
      ]

  wanted_key :
      (k : ObjectKey) (o : Object) (m : ObjectByKey)
      → IsWanted objs0 m
      → Map.get k m ≡ some o
      → is_some (Map.get k objs0) ≡ true
  unfolding Map.get
  wanted_key k o [] v e = ground (arith, e)
  wanted_key k o ((j, x) ∷ m) v e = ground (arith, eq_iff j k, wanted_key k o m, e)

  create_one-Safe : (k : ObjectKey) (s : Progress W) → Safe s → Safe (create_one c p a g k s).1
  unfolding create_one
  create_one-Safe k s v = elim (Option-cases (Map.get k s.objs)) [
    | inl e ↦ rw (e, create_one) v
    | inr (o, e) ↦ elim (Result-cases (p.prepare_object_for_create g o (not a.ensure))) [
      | inr (x, f) ↦ rw (e, f, create_one) v
      | inl (y, f) ↦
          rw (e, f, create_one)
            (created-Safe k (c.create y s.outside).0 (c.create y s.outside).1
              (c.create y s.outside).2 s (q.create y s.outside v.holds)
              (wanted_key k o s.objs v.wanted e) v)
    ]
  ]

  delete_one-Safe :
      (k : ObjectKey) (s : Progress W)
      → is_some (Map.get k objs0) ≡ true
      → Safe s
      → Safe (delete_one c p a g k s).1
  unfolding delete_one
  delete_one-Safe k s n v =
      let h = q.delete k s.outside n v.holds in
      elim (Option-cases (c.delete g k.namespace k.name s.outside).0) [
        | inl e ↦
            rw (e, delete_one) (record { holds = h; wanted = v.wanted; replaced = v.replaced })
        | inr (x, e) ↦
            rw (e, delete_one) (record { holds = h; wanted = v.wanted; replaced = v.replaced })
      ]

  note_replaced :
      (k : ObjectKey) (ks : List ObjectKey)
      → is_some (Map.get k objs0) ≡ true
      → All (λ k. is_some (Map.get k objs0) ≡ true) ks
      → All (λ k. is_some (Map.get k objs0) ≡ true) (ks ++ k ∷ [])
  note_replaced k [] n v = (n, tt)
  note_replaced k (j ∷ ks) n v = (v.0, note_replaced k ks n v.1)

  updated-Safe :
      (k : ObjectKey) (old new : Object) (r : Compared) (w : W) (s : Progress W)
      → Q w
      → is_some (Map.get k objs0) ≡ true
      → Safe s
      → Safe (updated c p a g k old (r, new, w) s).1
  updated-Safe k old new replace w s h n v =
      let v1 = keep-Safe k new w s h n v in
      elim (Bool-cases (may_replace c p a g old new)) [
        | inl i ↦ rw i (record {
          holds = v1.holds;
          wanted = v1.wanted;
          replaced =
              note_replaced k (keep c p a g k new (with_outside w s)).to_replace n v1.replaced;
        })
        | inr i ↦ rw i v1
      ]
  updated-Safe k old new (compared none) w s h n v = keep-Safe k new w s h n v
  updated-Safe k old new (compared (some e)) w s h n v = keep-Safe k new w s h n v

  update_one-Safe : (k : ObjectKey) (s : Progress W) → Safe s → Safe (update_one c p a g k s).1
  unfolding update_one
  update_one-Safe k s v = elim (Option-cases (Map.get k s.existing)) [
    | inl e ↦ rw (e, update_one) v
    | inr (o, e) ↦ elim (Option-cases (Map.get k s.objs)) [
      | inl f ↦ rw (e, f, update_one) v
      | inr (n, f) ↦
          rw (e, f, update_one)
            (updated-Safe k o (p.compare_objects g o n s.outside).1
              (p.compare_objects g o n s.outside).0 (p.compare_objects g o n s.outside).2 s
              (q.compare o n s.outside v.holds) (wanted_key k n s.objs v.wanted f) v)
    ]
  ]

  each-Safe :
      (f : ObjectKey → Progress W → Option Error × Progress W)
      → ((k : ObjectKey) (s : Progress W) → Safe s → Safe (f k s).1)
      → (ks : List ObjectKey) (s : Progress W) → Safe s
      → Safe (each c p a g f ks s).1
  unfolding each
  each-Safe f h [] s v = v
  each-Safe f h (k ∷ ks) s v = each-Safe f h ks (f k s).1 (h k s v)

  each-delete_one-Safe :
      (ks : List ObjectKey) (s : Progress W)
      → All (λ k. is_some (Map.get k objs0) ≡ true) ks
      → Safe s
      → Safe (each c p a g (delete_one c p a g) ks s).1
  unfolding each
  each-delete_one-Safe [] s n v = v
  each-delete_one-Safe (k ∷ ks) s n v =
      each-delete_one-Safe ks (delete_one c p a g k s).1 n.1 (delete_one-Safe k s n.0 v)

  -- without a deletion in the list, only what is to be replaced is deleted
  pub run_all-Safe :
      (to_create to_delete : List ObjectKey) (s : Progress W)
      → (if a.no_prune then [] else to_delete) ≡ []
      → Safe s
      → Q (run_all c p a g to_create to_delete s).1.outside
  unfolding each
  run_all-Safe to_create to_delete s n v =
      let v1 = each-Safe (create_one c p a g) create_one-Safe to_create s v in
      let s1 = (each c p a g (create_one c p a g) to_create s).1 in
      let v2 = each-Safe (update_one c p a g) update_one-Safe s1.to_update s1 v1 in
      let s2 = (each c p a g (update_one c p a g) s1.to_update s1).1 in
      let v4 = each-delete_one-Safe s2.to_replace s2 v2.replaced v2 in
      let s4 = (each c p a g (delete_one c p a g) s2.to_replace s2).1 in
      rw n (each-Safe (create_one c p a g) create_one-Safe s2.to_replace s4 v4).holds
